-- ===== src/Evm/Ops/Create.antt =====
-- state/runtime/evm/instructions.go: `opCreate` and `buildCreateContract`.
use dogesyncer.Prelude.{
  ℕ, Bool, true, false, some, List, [], ◌+◌, ◌-◌, ◌/◌, ltb, ◌==◌, ◌&&◌, ◌||◌, not, if◌then◌else◌,
}
use dogesyncer.Runtime.{
  CallType, create, create2, Contract, ExecutionResult, new_contract_creation, failed, reverted,
  ran_out_storing, write_protection, op_code_not_found,
}
use dogesyncer.Evm.State.{
  State, Env, Act, ◌>>=◌, ◌>>◌, pure, done, gets, exit, pop, push, consume_gas, add_gas,
  set_return_data, to_hash,
}
use dogesyncer.Evm.State.Memory.{get2}
use dogesyncer.Evm.Ops.Call.{callx}
use dogesyncer.Evm.Ops.Data.{words_fee}

abbrev pub is_create2 : CallType → Bool
is_create2 create2 = true
is_create2 _ = false

module _ {W : Type 0} where
  unfoldable pub pop_salt : CallType → Act W ℕ
  pop_salt typ = if is_create2 typ then pop else pure 0

module _ {W : Type 0} (e : Env W) where
  unfoldable pub new_address : CallType → ℕ → List ℕ → State W → ℕ
  new_address typ salt input s =
      if is_create2 typ
      then e.host.create_address2 e.msg.address (to_hash salt) input
      else e.host.create_address e.msg.address (e.host.get_nonce s.world e.msg.address)

  unfoldable pub create_gas : CallType → State W → ℕ
  create_gas typ s = if e.config.eip150 || is_create2 typ then s.gas - s.gas / 64 else s.gas

  -- `buildCreateContract` below its check of the balance
  unfoldable pub charge_create : CallType → ℕ → ℕ → ℕ → List ℕ → Act W Contract
  unfolding new_contract_creation
  charge_create typ value size salt input = do
    (if is_create2 typ then consume_gas (words_fee size 6) else done)
    gas ← gets (create_gas typ)
    consume_gas gas
    address ← gets (new_address typ salt input)
    pure
        (record (new_contract_creation (e.msg.depth + 1) e.msg.origin e.msg.address address
          (some value) gas input) { typ = create })

  -- The value that `opCreate` leaves.
  unfoldable pub created : CallType → Contract → ExecutionResult → ℕ
  created typ c r =
      if not (is_create2 typ) && e.config.homestead && ran_out_storing r
      then 0
      else if failed r && not (ran_out_storing r)
      then 0
      else c.address

  unfoldable pub make_create : CallType → Contract → Act W Unit
  make_create typ c = do
    r ← callx e c
    push (created typ c r)
    add_gas r.gas_left
    (if reverted r then set_return_data r.return_value else done)

  unfoldable pub short_of : ℕ → State W → Bool
  short_of value s = not (value == 0) && ltb (e.host.get_balance s.world e.msg.address) value

  unfoldable pub run_create : CallType → Act W Unit
  run_create typ = do
    set_return_data []
    value ← pop
    offset ← pop
    size ← pop
    salt ← pop_salt typ
    input ← get2 e offset size
    consume_gas 0
    bad ← gets (short_of value)
    (if bad then push 0 else (do c ← charge_create typ value size salt input; make_create typ c))

  unfoldable pub op_create : CallType → Act W Unit
  op_create typ =
      if e.msg.static
      then exit write_protection
      else if is_create2 typ && not e.config.constantinople
      then exit op_code_not_found
      else run_create typ
