-- ===== src/Evm/Ops/Call.antt =====
-- state/runtime/evm/instructions.go: `opCall` and `buildCallContract`. The four call instructions are
-- told apart by the call type that they stand for (`OpCode2RuntimeType`).
use dogesyncer.Prelude.{
  ℕ, Bool, true, false, Option, none, some, List, [], ◌∷◌, ◌+◌, ◌-◌, ◌/◌, ◌%◌, ◌^◌, ltb, ◌==◌, ◌&&◌,
  ◌||◌, not, if◌then◌else◌,
}
use dogesyncer.Runtime.{
  CallType, call, call_code, delegate_call, static_call, Contract, ExecutionResult,
  new_contract_call, succeeded, reverted, has_panicked, write_protection, op_code_not_found,
  out_of_gas,
}
use dogesyncer.Evm.State.{
  State, Env, Act, next, panicked, ◌>>=◌, ◌>>◌, pure, done, gets, exit, pop, push, consume_gas,
  add_gas, set_return_data, is_uint64, to_uint64, to_address,
}
use dogesyncer.Evm.State.Memory.{extend_memory, get2, write_slice}
use dogesyncer.Evm.Ops.Flow.{peek_at}

abbrev pub is_call : CallType → Bool
is_call call = true
is_call _ = false

abbrev pub is_delegate : CallType → Bool
is_delegate delegate_call = true
is_delegate _ = false

abbrev pub is_static : CallType → Bool
is_static static_call = true
is_static _ = false

-- The calls that take a value from the stack.
abbrev pub takes_value : CallType → Bool
takes_value call = true
takes_value call_code = true
takes_value _ = false

-- The calls that run the code on the account of the caller.
abbrev pub keeps_address : CallType → Bool
keeps_address call_code = true
keeps_address delegate_call = true
keeps_address _ = false

abbrev pub transfers_value : Option ℕ → Bool
transfers_value none = false
transfers_value (some v) = not (v == 0)

abbrev is_empty : List ℕ → Bool
is_empty [] = true
is_empty (_ ∷ _) = false

-- What `buildCallContract` returns where it returns a contract. `bad` is its error.
pub record Built : Type 0 where
  pub contract : Contract
  pub offset : ℕ
  pub size : ℕ
  pub bad : Bool

module _ {W : Type 0} where
  unfoldable pub pop_value : CallType → Act W (Option ℕ)
  pop_value typ = if takes_value typ then (do v ← pop; pure (some v)) else pure none

module _ {W : Type 0} (e : Env W) where
  -- The fee of the call without the gas that goes along.
  unfoldable pub call_cost : CallType → ℕ → Option ℕ → State W → ℕ
  call_cost typ addr value s =
      (if e.config.eip150 then 700 else 40)
      + (if is_call typ
            && (if e.config.eip158
                then transfers_value value && e.host.empty s.world addr
                else not (e.host.account_exists s.world addr))
          then 25000
          else 0)
      + (if transfers_value value then 9000 else 0)

  -- All but one 64th of what is left after the fee, in uint64 arithmetic.
  unfoldable pub available_gas : ℕ → ℕ → ℕ
  available_gas gas cost =
      let available = (gas + 2 ^ 64 - cost) % 2 ^ 64 in available - available / 64

  -- The gas that goes along.
  unfoldable pub forwarded_gas : ℕ → ℕ → Act W ℕ
  unfolding available_gas
  forwarded_gas initial cost = do
    gas ← gets (λ s. s.gas)
    (if e.config.eip150
        then pure (
            if not (is_uint64 initial) || ltb (available_gas gas cost) initial
            then available_gas gas cost
            else initial)
        else if is_uint64 initial
        then pure initial
        else exit out_of_gas)

  unfoldable pub call_contract : CallType → ℕ → Option ℕ → ℕ → List ℕ → State W → Contract
  unfolding new_contract_call
  call_contract typ addr value gas args s =
      let c =
        new_contract_call (e.msg.depth + 1) e.msg.origin e.msg.address addr value gas
          (e.host.get_code s.world addr) args in
      record c {
        static = is_static typ || e.msg.static;
        address = if keeps_address typ then e.msg.address else addr;
        value = if is_delegate typ then e.msg.value else value;
        caller = if is_delegate typ then e.msg.caller else e.msg.address;
      }

  unfoldable pub cannot_pay : Option ℕ → State W → Bool
  cannot_pay none s = false
  cannot_pay (some v) s = not (v == 0) && ltb (e.host.get_balance s.world e.msg.address) v

  -- `buildCallContract` from the gas on
  unfoldable pub charge_call : CallType → ℕ → ℕ → Option ℕ → List ℕ → ℕ → ℕ → Act W Built
  unfolding call_contract cannot_pay
  charge_call typ initial addr value args ret_offset ret_size = do
    cost ← gets (call_cost typ addr value)
    gas ← forwarded_gas initial cost
    consume_gas ((cost + gas) % 2 ^ 64)
    let callee_gas = if transfers_value value then (gas + 2300) % 2 ^ 64 else gas
    contract ← gets (call_contract typ addr value callee_gas args)
    bad ← gets (cannot_pay value)
    pure (record {
      contract = record contract { typ = typ };
      offset = to_uint64 ret_offset;
      size = to_uint64 ret_size;
      bad = bad;
    })

  -- `buildCallContract` from the ranges on
  unfoldable pub build_with : CallType → ℕ → ℕ → Option ℕ → Act W Built
  build_with typ initial addr value = do
    in_offset ← pop
    in_size ← pop
    ret_offset ← pop
    ret_size ← pop
    args ← get2 e in_offset in_size
    extend_memory e ret_offset ret_size
    charge_call typ initial addr value args ret_offset ret_size

  unfoldable pub build_call_contract : CallType → Act W Built
  build_call_contract typ = do
    initial ← pop
    a ← pop
    value ← pop_value typ
    build_with typ initial (to_address a) value

  -- `c.host.Callx(contract, c.host)`, whose panic goes up into the instruction
  unfoldable pub callx : Contract → Act W ExecutionResult
  callx c s =
      let (r, w) = e.host.callx s.world c in
      (if has_panicked r then panicked else next r, record s { world = w })

  has_output : ExecutionResult → Bool
  has_output r = (succeeded r || reverted r) && not (is_empty r.return_value)

  unfoldable pub make_call : Built → Act W Unit
  unfolding has_output
  make_call b = do
    r ← callx b.contract
    push (if succeeded r then 1 else 0)
    (if has_output r then write_slice b.offset b.size r.return_value else done)
    add_gas r.gas_left
    set_return_data r.return_value

  unfoldable pub finish_call : Built → Act W Unit
  finish_call b = if b.bad then (do push 0; add_gas b.contract.gas) else make_call b

  unfoldable pub run_call : CallType → Act W Unit
  run_call typ =
      if is_delegate typ && not e.config.homestead
      then exit op_code_not_found
      else if is_static typ && not e.config.byzantium
      then exit op_code_not_found
      else (do b ← build_call_contract typ; finish_call b)

  unfoldable pub op_call : CallType → Act W Unit
  op_call typ = do
    set_return_data []
    (if is_call typ && e.msg.static
        then (do val ← peek_at 3; (if val == 0 then run_call typ else exit write_protection))
        else run_call typ)
