-- ===== src/Evm/Dispatch/Callx.antt =====
-- The handlers that do not read `Callx` of the host: those of every group but the calls.
use dogesyncer.Prelude.{◌≡◌, refl}
use dogesyncer.Runtime.{Contract, ExecutionResult, Host}
use dogesyncer.Evm.State.{Env}
use dogesyncer.Evm.State.Memory.{extend_memory, get2, resize, expand, grow}
use dogesyncer.Evm.Ops.Arithmetic.{op_exp, exp_gas, op_shl, op_shr, op_sar, shift_op}
use dogesyncer.Evm.Ops.Data.{
  op_mload, op_mstore, op_mstore8, op_sha3, op_call_data_load, op_call_data_copy, op_code_copy,
  write_word, copy_to_memory, op_ext_code_copy, op_return_data_copy, take_return_data,
  copy_return_data,
}
use dogesyncer.Evm.Ops.Context.{
  op_address, op_balance, op_self_balance, op_chain_id, op_origin, op_caller, op_call_value,
  op_call_data_size, op_code_size, op_ext_code_size, op_gas_price, op_return_data_size,
  op_ext_code_hash, op_pc, op_msize, op_gas, op_block_hash, op_coinbase, op_timestamp, op_number,
  op_difficulty, op_gas_limit,
}
use dogesyncer.Evm.Ops.Storage.{
  op_sload, op_sstore, op_self_destruct, set_storage, store_word, store_cost, self_destruct_gas,
}
use dogesyncer.Evm.Ops.Flow.{op_log, write_log}
use dogesyncer.Evm.Dispatch.{
  arithmetic, ranges, logic, memory_and_storage, context, copies_and_jumps,
}

-- The host with another `Callx`.
abbrev pub with_callx : {W : Type 0} → Host W → (W → Contract → ExecutionResult × W) → Host W
with_callx h f = record h { callx = f }

abbrev pub env_with : {W : Type 0} → Env W → (W → Contract → ExecutionResult × W) → Env W
env_with e f = record e { host = with_callx e.host f }

module _ {W : Type 0} (e : Env W) (f : W → Contract → ExecutionResult × W) where
  pub arithmetic-same : arithmetic (env_with e f) ≡ arithmetic e
  unfolding arithmetic op_exp exp_gas
  arithmetic-same = refl

  pub logic-same : logic (env_with e f) ≡ logic e
  unfolding logic op_shl op_shr op_sar shift_op
  logic-same = refl

  pub ranges-same : ranges (env_with e f) ≡ ranges e
  unfolding ranges op_log write_log get2 extend_memory expand grow resize
  ranges-same = refl

  pub memory_and_storage-same : memory_and_storage (env_with e f) ≡ memory_and_storage e
  unfolding memory_and_storage op_mload op_mstore op_mstore8 op_sload op_sstore op_sha3
      op_ext_code_hash write_word set_storage store_word store_cost get2 extend_memory expand grow
      resize
  memory_and_storage-same = refl

  pub context-same : context (env_with e f) ≡ context e
  unfolding context op_address op_balance op_self_balance op_chain_id op_origin op_caller
      op_call_value op_call_data_size op_call_data_load op_code_size op_ext_code_size op_gas_price
      op_return_data_size op_pc op_msize op_gas
  context-same = refl

  pub copies_and_jumps-same : copies_and_jumps (env_with e f) ≡ copies_and_jumps e
  unfolding copies_and_jumps op_ext_code_copy op_call_data_copy op_return_data_copy op_code_copy
      op_block_hash op_coinbase op_timestamp op_number op_difficulty op_gas_limit op_self_destruct
      self_destruct_gas copy_to_memory take_return_data copy_return_data get2 extend_memory expand
      grow resize
  copies_and_jumps-same = refl
