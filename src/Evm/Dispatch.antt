-- ===== src/Evm/Dispatch.antt =====
-- state/runtime/evm/dispatch_table.go: the handler of each opcode, with the depth of stack that it
-- asks for and its fixed gas. The table is the list of the registrations in the order of the source.
pub mod All
pub mod Keeps
pub mod Callx
use dogesyncer.Prelude.{
  ℕ, zero, suc, Option, none, some, List, [], ◌∷◌, ◌++◌, ◌+◌, ◌-◌, ◌==◌, if◌then◌else◌, Bool, true,
  false,
}
use dogesyncer.Runtime.{call, call_code, delegate_call, static_call, create, create2}
use dogesyncer.Evm.State.{Env, Act, State}
use dogesyncer.Evm.Ops.Arithmetic.{
  op_add, op_sub, op_mul, op_div, op_sdiv, op_mod, op_smod, op_exp, op_addmod, op_mulmod, op_and,
  op_or, op_xor, op_byte, op_not, op_is_zero, op_eq, op_lt, op_gt, op_slt, op_sgt,
  op_sign_extension, op_shl, op_shr, op_sar,
}
use dogesyncer.Evm.Ops.Data.{
  op_mload, op_mstore, op_mstore8, op_sha3, op_call_data_load, op_call_data_copy, op_code_copy,
  op_ext_code_copy, op_return_data_copy,
}
use dogesyncer.Evm.Ops.Context.{
  op_address, op_balance, op_self_balance, op_chain_id, op_origin, op_caller, op_call_value,
  op_call_data_size, op_code_size, op_ext_code_size, op_gas_price, op_return_data_size,
  op_ext_code_hash, op_pc, op_msize, op_gas, op_block_hash, op_coinbase, op_timestamp, op_number,
  op_difficulty, op_gas_limit,
}
use dogesyncer.Evm.Ops.Storage.{op_sload, op_sstore, op_self_destruct}
use dogesyncer.Evm.Ops.Flow.{
  op_pop, op_jump, op_jumpi, op_jump_dest, op_push, op_dup, op_swap, op_stop, op_log, op_halt,
}
use dogesyncer.Evm.Ops.Call.{op_call}
use dogesyncer.Evm.Ops.Create.{op_create}

pub record Handler (W : Type 0) : Type 0 where
  pub inst : Act W (Unit {0})
  pub stack : ℕ
  pub gas : ℕ

abbrev pub Entry : Type 0 → Type 0
Entry W = ℕ × Handler W

module _ {W : Type 0} where
  abbrev pub register : ℕ → Act W Unit → ℕ → ℕ → Entry W
  register op inst stack gas = (op, record { inst = inst; stack = stack; gas = gas })

  -- `registerRange(from, to, factory, gas)` from the factory's argument `c` on, `n` opcodes
  unfoldable pub register_range : ℕ → ℕ → ℕ → (ℕ → Act W Unit) → ℕ → List (Entry W)
  register_range zero op c factory gas = []
  register_range (suc n) op c factory gas =
      register op (factory c) 0 gas ∷ register_range n (op + 1) (c + 1) factory gas

  unfoldable pub find : ℕ → List (Entry W) → Option (Handler W)
  find op [] = none
  find op ((o, h) ∷ rest) = if op == o then some h else find op rest

module _ {W : Type 0} (e : Env W) where
  unfoldable pub arithmetic : List (Entry W)
  arithmetic =
      register 0x00 op_stop 0 0
      ∷ register 0x01 op_add 2 3
      ∷ register 0x03 op_sub 2 3
      ∷ register 0x02 op_mul 2 5
      ∷ register 0x04 op_div 2 5
      ∷ register 0x05 op_sdiv 2 5
      ∷ register 0x06 op_mod 2 5
      ∷ register 0x07 op_smod 2 5
      ∷ register 0x0a (op_exp e) 2 10
      ∷ []

  unfoldable pub ranges : List (Entry W)
  unfolding register_range
  ranges =
      register_range 32 0x60 1 op_push 3
      ++ (register_range 16 0x80 1 op_dup 3
          ++ (register_range 16 0x90 1 op_swap 3
              ++ register_range 5 0xa0 1 (λ c. op_log e (c - 1)) 375))

  unfoldable pub logic : List (Entry W)
  logic =
      register 0x08 op_addmod 3 8
      ∷ register 0x09 op_mulmod 3 8
      ∷ register 0x16 op_and 2 3
      ∷ register 0x17 op_or 2 3
      ∷ register 0x18 op_xor 2 3
      ∷ register 0x1a op_byte 2 3
      ∷ register 0x19 op_not 1 3
      ∷ register 0x15 op_is_zero 1 3
      ∷ register 0x14 op_eq 2 3
      ∷ register 0x10 op_lt 2 3
      ∷ register 0x11 op_gt 2 3
      ∷ register 0x12 op_slt 2 3
      ∷ register 0x13 op_sgt 2 3
      ∷ register 0x0b op_sign_extension 1 5
      ∷ register 0x1b (op_shl e) 2 3
      ∷ register 0x1c (op_shr e) 2 3
      ∷ register 0x1d (op_sar e) 2 3
      ∷ []

  unfoldable pub calls : List (Entry W)
  calls =
      register 0xf0 (op_create e create) 3 32000
      ∷ register 0xf5 (op_create e create2) 4 32000
      ∷ register 0xf1 (op_call e call) 7 0
      ∷ register 0xf2 (op_call e call_code) 7 0
      ∷ register 0xf4 (op_call e delegate_call) 6 0
      ∷ register 0xfa (op_call e static_call) 6 0
      ∷ register 0xfd (op_halt e true) 2 0
      ∷ register 0xf3 (op_halt e false) 2 0
      ∷ []

  unfoldable pub memory_and_storage : List (Entry W)
  memory_and_storage =
      register 0x51 (op_mload e) 1 3
      ∷ register 0x52 (op_mstore e) 2 3
      ∷ register 0x53 (op_mstore8 e) 2 3
      ∷ register 0x54 (op_sload e) 1 0
      ∷ register 0x55 (op_sstore e) 2 0
      ∷ register 0x20 (op_sha3 e) 2 30
      ∷ register 0x50 op_pop 1 2
      ∷ register 0x3f (op_ext_code_hash e) 1 0
      ∷ []

  unfoldable pub context : List (Entry W)
  context =
      register 0x30 (op_address e) 0 2
      ∷ register 0x31 (op_balance e) 1 0
      ∷ register 0x47 (op_self_balance e) 0 5
      ∷ register 0x32 (op_origin e) 0 2
      ∷ register 0x33 (op_caller e) 0 2
      ∷ register 0x34 (op_call_value e) 0 2
      ∷ register 0x35 (op_call_data_load e) 1 3
      ∷ register 0x36 (op_call_data_size e) 0 2
      ∷ register 0x38 (op_code_size e) 0 2
      ∷ register 0x3b (op_ext_code_size e) 1 0
      ∷ register 0x3a (op_gas_price e) 0 2
      ∷ register 0x3d (op_return_data_size e) 0 2
      ∷ register 0x46 (op_chain_id e) 0 2
      ∷ register 0x58 (op_pc e) 0 2
      ∷ register 0x59 (op_msize e) 0 2
      ∷ register 0x5a (op_gas e) 0 2
      ∷ []

  unfoldable pub copies_and_jumps : List (Entry W)
  copies_and_jumps =
      register 0x3c (op_ext_code_copy e) 4 0
      ∷ register 0x37 (op_call_data_copy e) 3 3
      ∷ register 0x3e (op_return_data_copy e) 3 3
      ∷ register 0x39 (op_code_copy e) 3 3
      ∷ register 0x40 (op_block_hash e) 1 20
      ∷ register 0x41 (op_coinbase e) 0 2
      ∷ register 0x42 (op_timestamp e) 0 2
      ∷ register 0x43 (op_number e) 0 2
      ∷ register 0x44 (op_difficulty e) 0 2
      ∷ register 0x45 (op_gas_limit e) 0 2
      ∷ register 0xff (op_self_destruct e) 1 0
      ∷ register 0x56 op_jump 1 8
      ∷ register 0x57 op_jumpi 2 10
      ∷ register 0x5b op_jump_dest 0 1
      ∷ []

  unfoldable pub dispatch_table : List (Entry W)
  unfolding arithmetic ranges logic calls memory_and_storage context copies_and_jumps
  dispatch_table =
      arithmetic
      ++ (ranges ++ (logic ++ (calls ++ (memory_and_storage ++ (context ++ copies_and_jumps)))))

  unfoldable pub dispatch : ℕ → Option (Handler W)
  unfolding find dispatch_table
  dispatch op = find op dispatch_table
