-- ===== src/Evm/Ops/Context.antt =====
-- state/runtime/evm/instructions.go: what a contract reads of its call, its account and its block.
use dogesyncer.Prelude.{ℕ, Bool, Option, none, some, ◌+◌, ◌^◌, ltb, ◌&&◌, if◌then◌else◌, length}
use dogesyncer.Runtime.{op_code_not_found}
use dogesyncer.Evm.State.{
  State, Env, Act, ◌>>=◌, ◌>>◌, gets, exit, pop, top, set_top, push, consume_gas, to_address,
}

abbrev pub value_or_zero : Option ℕ → ℕ
value_or_zero none = 0
value_or_zero (some v) = v

module _ {W : Type 0} (e : Env W) where
  -- An instruction of a later fork: before it, the opcode is not found.
  abbrev from_fork : Bool → Act W Unit → Act W Unit
  from_fork started act = if started then act else exit op_code_not_found

  unfoldable pub op_address : Act W Unit
  op_address = push e.msg.address

  unfoldable pub op_balance : Act W Unit
  op_balance = do
    a ← pop
    consume_gas (if e.config.istanbul then 700 else if e.config.eip150 then 400 else 20)
    balance ← gets (λ s. e.host.get_balance s.world (to_address a))
    push balance

  unfoldable pub op_self_balance : Act W Unit
  op_self_balance =
      from_fork e.config.istanbul
        (do balance ← gets (λ s. e.host.get_balance s.world e.msg.address); push balance)

  unfoldable pub op_chain_id : Act W Unit
  op_chain_id = from_fork e.config.istanbul (push e.host.tx_context.chain_id)

  unfoldable pub op_origin : Act W Unit
  op_origin = push e.host.tx_context.origin

  unfoldable pub op_caller : Act W Unit
  op_caller = push e.msg.caller

  unfoldable pub op_call_value : Act W Unit
  op_call_value = push (value_or_zero e.msg.value)

  unfoldable pub op_call_data_size : Act W Unit
  op_call_data_size = push (length e.msg.input)

  unfoldable pub op_code_size : Act W Unit
  op_code_size = do size ← gets (λ s. length s.code); push size

  unfoldable pub op_ext_code_size : Act W Unit
  op_ext_code_size = do
    a ← pop
    consume_gas (if e.config.eip150 then 700 else 20)
    size ← gets (λ s. e.host.get_code_size s.world (to_address a))
    push size

  unfoldable pub op_gas_price : Act W Unit
  op_gas_price = push e.host.tx_context.gas_price

  unfoldable pub op_return_data_size : Act W Unit
  op_return_data_size =
      from_fork e.config.byzantium (do size ← gets (λ s. length s.return_data); push size)

  read_code_hash : ℕ → State W → ℕ
  read_code_hash a s = if e.host.empty s.world a then 0 else e.host.get_code_hash s.world a

  unfoldable pub op_ext_code_hash : Act W Unit
  unfolding read_code_hash
  op_ext_code_hash = from_fork e.config.constantinople (do
    a ← pop
    consume_gas (if e.config.istanbul then 700 else 400)
    hash ← gets (read_code_hash (to_address a))
    push hash)

  unfoldable pub op_pc : Act W Unit
  op_pc = do ip ← gets (λ s. s.ip); push ip

  unfoldable pub op_msize : Act W Unit
  op_msize = do size ← gets (λ s. length s.memory); push size

  unfoldable pub op_gas : Act W Unit
  op_gas = do gas ← gets (λ s. s.gas); push gas

  -- Block numbers are int64; that of the context is not negative.
  block_hash_of : ℕ → State W → ℕ
  block_hash_of n s =
      if ltb n (2 ^ 63)
        && (ltb e.host.tx_context.number (n + 257) && ltb n e.host.tx_context.number)
      then e.host.block_hash s.world n
      else 0

  unfoldable pub op_block_hash : Act W Unit
  unfolding block_hash_of
  op_block_hash = do n ← top; hash ← gets (block_hash_of n); set_top hash

  unfoldable pub op_coinbase : Act W Unit
  op_coinbase = push e.host.tx_context.coinbase

  unfoldable pub op_timestamp : Act W Unit
  op_timestamp = push e.host.tx_context.timestamp

  unfoldable pub op_number : Act W Unit
  op_number = push e.host.tx_context.number

  unfoldable pub op_difficulty : Act W Unit
  op_difficulty = push e.host.tx_context.difficulty

  unfoldable pub op_gas_limit : Act W Unit
  op_gas_limit = push e.host.tx_context.gas_limit
