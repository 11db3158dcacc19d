-- ===== src/Evm/Ops/Storage.antt =====
-- state/runtime/evm/instructions.go: the storage instructions and SELFDESTRUCT.
use dogesyncer.Prelude.{ℕ, Bool, ◌+◌, leb, ◌==◌, ◌&&◌, ◌||◌, not, if◌then◌else◌}
use dogesyncer.Runtime.{
  StorageStatus, unchanged, modified, modified_again, added, deleted, write_protection, out_of_gas,
}
use dogesyncer.Evm.State.{
  State, Env, Act, next, ◌>>=◌, ◌>>◌, gets, exit, halt, pop, top, set_top, consume_gas, set_world,
  to_address, to_hash,
}

module _ {W : Type 0} (e : Env W) where
  unfoldable pub op_sload : Act W Unit
  op_sload = do
    loc ← top
    consume_gas (if e.config.istanbul then 800 else if e.config.eip150 then 200 else 50)
    val ← gets (λ s. e.host.get_storage s.world e.msg.address (to_hash loc))
    set_top val

  abbrev legacy_gas_metering : Bool
  legacy_gas_metering =
      not e.config.istanbul && (e.config.petersburg || not e.config.constantinople)

  abbrev reset_cost : ℕ
  reset_cost = if e.config.istanbul then 800 else if legacy_gas_metering then 5000 else 200

  unfoldable pub store_cost : StorageStatus → ℕ
  store_cost unchanged = reset_cost
  store_cost modified = 5000
  store_cost modified_again = reset_cost
  store_cost added = 20000
  store_cost deleted = 5000

  -- `c.host.SetStorage(...)`, which returns the status and changes the host
  unfoldable pub set_storage : ℕ → ℕ → Act W StorageStatus
  set_storage key val s =
      let (status, w) = e.host.set_storage s.world e.msg.address key val e.config in
      (next status, record s { world = w })

  unfoldable pub store_word : Act W Unit
  store_word = do
    key ← pop
    val ← pop
    status ← set_storage (to_hash key) (to_hash val)
    consume_gas (store_cost status)

  unfoldable pub op_sstore : Act W Unit
  op_sstore = if e.msg.static then exit write_protection else (do
    gas ← gets (λ s. s.gas)
    if e.config.istanbul && leb gas 2300 then exit out_of_gas else store_word)

  -- The surcharge for a beneficiary that comes into being.
  unfoldable pub self_destruct_gas : ℕ → State W → ℕ
  self_destruct_gas address s =
      if e.config.eip150
      then (if e.config.eip158
          then if e.host.empty s.world address
              && not (e.host.get_balance s.world e.msg.address == 0)
            then 5000 + 25000
            else 5000
          else if e.host.account_exists s.world address
          then 5000
          else 5000 + 25000)
      else 0

  unfoldable pub op_self_destruct : Act W Unit
  op_self_destruct = if e.msg.static then exit write_protection else (do
    address ← pop
    gas ← gets (self_destruct_gas (to_address address))
    consume_gas gas
    w ← gets (λ s. e.host.selfdestruct s.world e.msg.address (to_address address))
    set_world w
    halt)
