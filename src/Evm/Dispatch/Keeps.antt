-- ===== src/Evm/Dispatch/Keeps.antt =====
-- A relation that is kept by the passive actions and by the five instructions that change or call
-- the host is kept by every handler of the dispatch table.
use dogesyncer.Prelude.{ℕ, ◌-◌, ◌≡◌, false}
use dogesyncer.Runtime.{CallType, is_creation}
use dogesyncer.Evm.State.{Env}
use dogesyncer.Evm.State.Keeps.{Rel, Keeps, Passive, keeps_rules}
use dogesyncer.Evm.Ops.Arithmetic.{
  op_add, op_sub, op_mul, op_div, op_sdiv, op_mod, op_smod, op_addmod, op_mulmod, op_and, op_or,
  op_xor, op_byte, op_not, op_is_zero, op_eq, op_lt, op_gt, op_slt, op_sgt, op_shl, op_shr, op_sar,
}
use dogesyncer.Evm.Ops.Context.{
  op_address, op_balance, op_self_balance, op_chain_id, op_origin, op_caller, op_call_value,
  op_call_data_size, op_code_size, op_ext_code_size, op_gas_price, op_return_data_size,
  op_ext_code_hash, op_pc, op_msize, op_gas, op_block_hash, op_coinbase, op_timestamp, op_number,
  op_difficulty, op_gas_limit,
}
use dogesyncer.Evm.Ops.Storage.{op_sstore, op_self_destruct}
use dogesyncer.Evm.Ops.Flow.{op_log}
use dogesyncer.Evm.Ops.Call.{op_call}
use dogesyncer.Evm.Ops.Create.{op_create}
use dogesyncer.Evm.Ops.Passive.{
  Keeps-unary, Keeps-binary, Keeps-ternary, Keeps-op_sign_extension, Keeps-op_pop, Keeps-op_jump,
  Keeps-op_jumpi, Keeps-op_jump_dest, Keeps-op_push, Keeps-op_dup, Keeps-op_swap, Keeps-op_stop,
  Keeps-op_return_data_copy, Keeps-op_mload, Keeps-op_mstore, Keeps-op_mstore8, Keeps-op_sha3,
  Keeps-op_call_data_load, Keeps-op_call_data_copy, Keeps-op_code_copy, Keeps-op_ext_code_copy,
  Keeps-op_exp, Keeps-shift_op, Keeps-op_sload, Keeps-op_halt,
}
use dogesyncer.Evm.Dispatch.{
  Handler, arithmetic, ranges, logic, calls, memory_and_storage, context, copies_and_jumps,
  dispatch_table,
}
use dogesyncer.Evm.Dispatch.All.{All, nil, cons, All-append, All-register_range}

module _ {W : Type 0} {R : Rel W} (p : Passive R) (e : Env W) where
  abbrev pub Kept : Handler W → Type 0
  Kept h = Keeps R h.inst

  Kept-arithmetic : All Kept (arithmetic e)
  unfolding arithmetic op_add op_sub op_mul op_div op_sdiv op_mod op_smod
  Kept-arithmetic = search (nil, cons, Keeps-binary, Keeps-op_stop, Keeps-op_exp) depth 20

  Kept-logic : All Kept (logic e)
  unfolding logic op_addmod op_mulmod op_and op_or op_xor op_byte op_not op_is_zero op_eq op_lt
      op_gt op_slt op_sgt op_shl op_shr op_sar
  Kept-logic =
      search
        (
          nil, cons, Keeps-ternary, Keeps-binary, Keeps-unary, Keeps-shift_op,
          Keeps-op_sign_extension,
        )
        depth 30

  Kept-op_block_hash : Keeps R (op_block_hash e)
  unfolding op_block_hash
  Kept-op_block_hash = search keeps_rules

  Kept-context : All Kept (context e)
  unfolding context op_address op_balance op_self_balance op_origin op_caller op_call_value
      op_call_data_size op_code_size op_ext_code_size op_gas_price op_return_data_size op_chain_id
      op_pc op_msize op_gas
  Kept-context = search (nil, cons, keeps_rules, Keeps-op_call_data_load) depth 30

  Kept-op_ext_code_hash : Keeps R (op_ext_code_hash e)
  unfolding op_ext_code_hash
  Kept-op_ext_code_hash = search keeps_rules depth 8

  Kept-ranges : ((n : ℕ) → Keeps R (op_log e n)) → All Kept (ranges e)
  unfolding ranges
  Kept-ranges log = All-append Kept (All-register_range Kept 32 0x60 1 (Keeps-op_push p)) (
      All-append Kept (All-register_range Kept 16 0x80 1 (Keeps-op_dup p)) (
        All-append Kept (All-register_range Kept 16 0x90 1 (Keeps-op_swap p))
          (All-register_range Kept 5 0xa0 1 (λ c. log (c - 1)))))

  Kept-calls :
      ((typ : CallType) → Keeps R (op_create e typ))
      → ((typ : CallType) → is_creation typ ≡ false → Keeps R (op_call e typ))
      → All Kept (calls e)
  unfolding calls is_creation
  Kept-calls makes goes = search (nil, cons, makes, goes, Keeps-op_halt) depth 20

  Kept-memory_and_storage : Keeps R (op_sstore e) → All Kept (memory_and_storage e)
  unfolding memory_and_storage
  Kept-memory_and_storage store =
      search
        (
          nil, cons, Keeps-op_mload, Keeps-op_mstore, Keeps-op_mstore8, Keeps-op_sload,
          Keeps-op_sha3, Keeps-op_pop, Kept-op_ext_code_hash,
        )
        depth 20

  Kept-copies_and_jumps : Keeps R (op_self_destruct e) → All Kept (copies_and_jumps e)
  unfolding copies_and_jumps op_coinbase op_timestamp op_number op_difficulty op_gas_limit
  Kept-copies_and_jumps destroy =
      search
        (
          nil, cons, keeps_rules, Keeps-op_ext_code_copy, Keeps-op_call_data_copy,
          Keeps-op_return_data_copy, Keeps-op_code_copy, Kept-op_block_hash, Keeps-op_jump,
          Keeps-op_jumpi, Keeps-op_jump_dest,
        )
        depth 30

  pub Kept-dispatch_table :
      ((n : ℕ) → Keeps R (op_log e n))
      → Keeps R (op_sstore e)
      → Keeps R (op_self_destruct e)
      → ((typ : CallType) → Keeps R (op_create e typ))
      → ((typ : CallType) → is_creation typ ≡ false → Keeps R (op_call e typ))
      → All Kept (dispatch_table e)
  unfolding dispatch_table
  Kept-dispatch_table log store destroy makes goes =
      search
        (
          All-append, Kept-arithmetic, Kept-ranges, Kept-logic, Kept-calls, Kept-memory_and_storage,
          Kept-context, Kept-copies_and_jumps,
        )
        depth 12
