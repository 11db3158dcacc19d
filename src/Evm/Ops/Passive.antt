-- ===== src/Evm/Ops/Passive.antt =====
-- The instructions that neither call the host back nor change its state keep every relation that
-- allows the actions on the machine, and so do the parts of the other instructions before the call.
use dogesyncer.Prelude.{ℕ, zero, suc, Bool, List, [], ◌∷◌, Option, none, some}
use dogesyncer.Runtime.{CallType}
use dogesyncer.Evm.State.{Env}
use dogesyncer.Evm.State.Keeps.{
  Rel, Keeps, Passive, Keeps-bind, Keeps-pure, Keeps-set_top, Keeps-done, keeps_rules,
  Keeps-extend_memory, Keeps-get2, Keeps-panic, Keeps-pop,
}
use dogesyncer.Evm.Ops.Arithmetic.{
  unary, binary, ternary, sign_extend_top, op_sign_extension, shift_op, op_exp,
}
use dogesyncer.Evm.Ops.Data.{
  op_mload, write_word, op_mstore, op_mstore8, op_sha3, op_call_data_load, copy_to_memory,
  op_call_data_copy, op_code_copy, op_ext_code_copy, copy_return_data, take_return_data,
  op_return_data_copy,
}
use dogesyncer.Evm.Ops.Storage.{op_sload}
use dogesyncer.Evm.Ops.Flow.{
  op_pop, jump_to, op_jump, op_jumpi, op_jump_dest, op_push, peeked, peek_at, op_dup, swap, op_swap,
  op_stop, pop_topics, op_halt,
}
use dogesyncer.Evm.Ops.Call.{pop_value, forwarded_gas, charge_call, build_with, build_call_contract}
use dogesyncer.Evm.Ops.Create.{pop_salt, charge_create}

module _ {W : Type 0} {R : Rel W} (p : Passive R) where
  pub Keeps-unary : (f : ℕ → ℕ) → Keeps R (unary f)
  unfolding unary
  Keeps-unary f = search keeps_rules

  pub Keeps-binary : (f : ℕ → ℕ → ℕ) → Keeps R (binary f)
  unfolding binary
  Keeps-binary f = search keeps_rules

  pub Keeps-ternary : (f : ℕ → ℕ → ℕ → ℕ) → Keeps R (ternary f)
  unfolding ternary
  Keeps-ternary f = search keeps_rules depth 8

  Keeps-sign_extend_top : (ext : ℕ) (v : List ℕ) → Keeps R (sign_extend_top ext v)
  unfolding sign_extend_top
  Keeps-sign_extend_top ext [] = Keeps-done p
  Keeps-sign_extend_top ext (x ∷ rest) = Keeps-set_top p _

  pub Keeps-op_sign_extension : Keeps R op_sign_extension
  unfolding op_sign_extension
  Keeps-op_sign_extension = search (keeps_rules, Keeps-sign_extend_top)

  pub Keeps-jump_to : (dest : ℕ) → Keeps R (jump_to dest)
  unfolding jump_to
  Keeps-jump_to dest = search keeps_rules

  pub Keeps-op_pop : Keeps R op_pop
  unfolding op_pop
  Keeps-op_pop = search keeps_rules

  pub Keeps-op_jump : Keeps R op_jump
  unfolding op_jump
  Keeps-op_jump = search (keeps_rules, Keeps-jump_to)

  pub Keeps-op_jumpi : Keeps R op_jumpi
  unfolding op_jumpi
  Keeps-op_jumpi = search (keeps_rules, Keeps-jump_to)

  pub Keeps-op_jump_dest : Keeps R op_jump_dest
  unfolding op_jump_dest
  Keeps-op_jump_dest = Keeps-done p

  pub Keeps-op_push : (n : ℕ) → Keeps R (op_push n)
  unfolding op_push
  Keeps-op_push n = search keeps_rules

  Keeps-peeked : (o : Option ℕ) → Keeps R (peeked {W = W} o)
  unfolding peeked
  Keeps-peeked none = Keeps-panic p
  Keeps-peeked (some v) = Keeps-pure p v

  pub Keeps-peek_at : (n : ℕ) → Keeps R (peek_at n)
  unfolding peek_at
  Keeps-peek_at n = search (keeps_rules, Keeps-peeked)

  pub Keeps-op_dup : (n : ℕ) → Keeps R (op_dup n)
  unfolding op_dup
  Keeps-op_dup n = search (keeps_rules, Keeps-peek_at)

  pub Keeps-swap : (n : ℕ) → Keeps R (swap n)
  unfolding swap
  Keeps-swap n = record { at = λ s. p.on_stack _ s }

  pub Keeps-op_swap : (n : ℕ) → Keeps R (op_swap n)
  unfolding op_swap
  Keeps-op_swap n = search (keeps_rules, Keeps-swap)

  pub Keeps-op_stop : Keeps R op_stop
  unfolding op_stop
  Keeps-op_stop = search keeps_rules

  pub Keeps-pop_topics : (n : ℕ) → Keeps R (pop_topics n)
  unfolding pop_topics
  Keeps-pop_topics zero = Keeps-pure p []
  Keeps-pop_topics (suc n) =
      Keeps-bind p _ _ (Keeps-pop p) λ t. Keeps-bind p _ _ (Keeps-pop_topics n) λ ts. Keeps-pure p _

  pub Keeps-pop_value : (typ : CallType) → Keeps R (pop_value typ)
  unfolding pop_value
  Keeps-pop_value typ = search keeps_rules

  pub Keeps-pop_salt : (typ : CallType) → Keeps R (pop_salt typ)
  unfolding pop_salt
  Keeps-pop_salt typ = search keeps_rules

  module _ (e : Env W) where
    Keeps-write_word : (o v : ℕ) → Keeps R (write_word e o v)
    unfolding write_word
    Keeps-write_word o v = search keeps_rules

    pub Keeps-copy_to_memory : (o d n : ℕ) (bs : List ℕ) → Keeps R (copy_to_memory e o d n bs)
    unfolding copy_to_memory
    Keeps-copy_to_memory o d n bs = search keeps_rules

    Keeps-copy_return_data : (o d n : ℕ) → Keeps R (copy_return_data e o d n)
    unfolding copy_return_data
    Keeps-copy_return_data o d n = search keeps_rules depth 8

    Keeps-take_return_data : Keeps R (take_return_data e)
    unfolding take_return_data
    Keeps-take_return_data =
        search (keeps_rules, Keeps-extend_memory, Keeps-copy_return_data) depth 9

    pub Keeps-op_return_data_copy : Keeps R (op_return_data_copy e)
    unfolding op_return_data_copy
    Keeps-op_return_data_copy = search (keeps_rules, Keeps-take_return_data)

    ruleset memory_rules =
        (keeps_rules, Keeps-extend_memory, Keeps-get2, Keeps-write_word, Keeps-copy_to_memory)

    pub Keeps-op_mload : Keeps R (op_mload e)
    unfolding op_mload
    Keeps-op_mload = search memory_rules depth 9

    pub Keeps-op_mstore : Keeps R (op_mstore e)
    unfolding op_mstore
    Keeps-op_mstore = search memory_rules depth 9

    pub Keeps-op_mstore8 : Keeps R (op_mstore8 e)
    unfolding op_mstore8
    Keeps-op_mstore8 = search memory_rules depth 9

    pub Keeps-op_sha3 : Keeps R (op_sha3 e)
    unfolding op_sha3
    Keeps-op_sha3 = search memory_rules depth 9

    pub Keeps-op_call_data_load : Keeps R (op_call_data_load e)
    unfolding op_call_data_load
    Keeps-op_call_data_load = search memory_rules depth 9

    pub Keeps-op_call_data_copy : Keeps R (op_call_data_copy e)
    unfolding op_call_data_copy
    Keeps-op_call_data_copy = search memory_rules depth 10

    pub Keeps-op_code_copy : Keeps R (op_code_copy e)
    unfolding op_code_copy
    Keeps-op_code_copy = search memory_rules depth 10

    pub Keeps-op_ext_code_copy : Keeps R (op_ext_code_copy e)
    unfolding op_ext_code_copy
    Keeps-op_ext_code_copy = search memory_rules depth 11

    pub Keeps-op_exp : Keeps R (op_exp e)
    unfolding op_exp
    Keeps-op_exp = search memory_rules depth 9

    pub Keeps-shift_op : (f : ℕ → ℕ → ℕ) → Keeps R (shift_op e f)
    unfolding shift_op
    Keeps-shift_op f = search (keeps_rules, Keeps-binary)

    pub Keeps-op_sload : Keeps R (op_sload e)
    unfolding op_sload
    Keeps-op_sload = search memory_rules depth 9

    pub Keeps-op_halt : (revert : Bool) → Keeps R (op_halt e revert)
    unfolding op_halt
    Keeps-op_halt revert = search memory_rules depth 10

    Keeps-forwarded_gas : (initial cost : ℕ) → Keeps R (forwarded_gas e initial cost)
    unfolding forwarded_gas
    Keeps-forwarded_gas initial cost = search keeps_rules depth 8

    Keeps-charge_call :
        (typ : CallType) (initial addr : ℕ) (value : Option ℕ) (args : List ℕ) (o n : ℕ)
        → Keeps R (charge_call e typ initial addr value args o n)
    unfolding charge_call
    Keeps-charge_call typ initial addr value args o n =
        search (keeps_rules, Keeps-forwarded_gas) depth 9

    pub Keeps-build_with :
        (typ : CallType) (initial addr : ℕ) (value : Option ℕ)
        → Keeps R (build_with e typ initial addr value)
    unfolding build_with
    Keeps-build_with typ initial addr value = search (memory_rules, Keeps-charge_call) depth 12

    pub Keeps-build_call_contract : (typ : CallType) → Keeps R (build_call_contract e typ)
    unfolding build_call_contract
    Keeps-build_call_contract typ = search (keeps_rules, Keeps-pop_value, Keeps-build_with) depth 8

    pub Keeps-charge_create :
        (typ : CallType) (value n salt : ℕ) (input : List ℕ)
        → Keeps R (charge_create e typ value n salt input)
    unfolding charge_create
    Keeps-charge_create typ value n salt input = search keeps_rules depth 9
