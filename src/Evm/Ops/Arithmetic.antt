-- ===== src/Evm/Ops/Arithmetic.antt =====
-- state/runtime/evm/instructions.go: the arithmetic, comparison and bit instructions.
use dogesyncer.Prelude.{ℕ, ◌+◌, ◌*◌, ◌/◌, ltb, ◌==◌, if◌then◌else◌, bit_and, bit_or, bit_xor}
use dogesyncer.Runtime.{op_code_not_found}
use dogesyncer.Evm.State.{Env, Act, ◌>>=◌, ◌>>◌, done, gets, exit, pop, top, set_top, consume_gas}
use dogesyncer.Evm.Word
use dogesyncer.Evm.Word.{of_bool}
use dogesyncer.Prelude.{List, [], ◌∷◌}

module _ {W : Type 0} where
  -- The handlers `a := c.pop(); b := c.top()` that set `b` to a function of the two.
  unfoldable pub binary : (ℕ → ℕ → ℕ) → Act W Unit
  binary f = do a ← pop; b ← top; set_top (f a b)

  unfoldable pub unary : (ℕ → ℕ) → Act W Unit
  unary f = do a ← top; set_top (f a)

  unfoldable pub ternary : (ℕ → ℕ → ℕ → ℕ) → Act W Unit
  ternary f = do a ← pop; b ← pop; z ← top; set_top (f a b z)

  unfoldable pub op_add : Act W Unit
  op_add = binary Word.add

  unfoldable pub op_mul : Act W Unit
  op_mul = binary Word.mul

  unfoldable pub op_sub : Act W Unit
  op_sub = binary Word.sub

  unfoldable pub op_div : Act W Unit
  op_div = binary Word.div

  unfoldable pub op_sdiv : Act W Unit
  op_sdiv = binary Word.sdiv

  unfoldable pub op_mod : Act W Unit
  op_mod = binary Word.mod_word

  unfoldable pub op_smod : Act W Unit
  op_smod = binary Word.smod

  unfoldable pub op_addmod : Act W Unit
  op_addmod = ternary Word.addmod

  unfoldable pub op_mulmod : Act W Unit
  op_mulmod = ternary Word.mulmod

  unfoldable pub op_and : Act W Unit
  op_and = binary bit_and

  unfoldable pub op_or : Act W Unit
  op_or = binary bit_or

  unfoldable pub op_xor : Act W Unit
  op_xor = binary bit_xor

  unfoldable pub op_byte : Act W Unit
  op_byte = binary Word.byte

  unfoldable pub op_not : Act W Unit
  op_not = unary Word.not_word

  unfoldable pub op_is_zero : Act W Unit
  op_is_zero = unary (λ a. of_bool (a == 0))

  unfoldable pub op_eq : Act W Unit
  op_eq = binary (λ a b. of_bool (a == b))

  unfoldable pub op_lt : Act W Unit
  op_lt = binary (λ a b. of_bool (ltb a b))

  unfoldable pub op_gt : Act W Unit
  op_gt = binary (λ a b. of_bool (ltb b a))

  unfoldable pub op_slt : Act W Unit
  op_slt = binary (λ a b. of_bool (Word.lt_signed a b))

  unfoldable pub op_sgt : Act W Unit
  op_sgt = binary (λ a b. of_bool (Word.lt_signed b a))

  -- `x == nil` returns with the stack already popped
  unfoldable pub sign_extend_top : ℕ → List ℕ → Act W Unit
  sign_extend_top ext [] = done
  sign_extend_top ext (x ∷ rest) = set_top (Word.sign_extend ext x)

  unfoldable pub op_sign_extension : Act W Unit
  op_sign_extension = do ext ← pop; stack ← gets (λ s. s.stack); sign_extend_top ext stack

  -- The shifts are there from Constantinople on.
  unfoldable pub shift_op : Env W → (ℕ → ℕ → ℕ) → Act W Unit
  shift_op e f = if e.config.constantinople then binary f else exit op_code_not_found

  unfoldable pub op_shl : Env W → Act W Unit
  op_shl e = shift_op e Word.shl

  unfoldable pub op_shr : Env W → Act W Unit
  op_shr e = shift_op e Word.shr

  unfoldable pub op_sar : Env W → Act W Unit
  op_sar e = shift_op e Word.sar

  unfoldable pub exp_gas : Env W → ℕ → ℕ
  exp_gas e y = (Word.bit_len y + 7) / 8 * (if e.config.eip158 then 50 else 10)

  unfoldable pub op_exp : Env W → Act W Unit
  op_exp e = do x ← pop; y ← top; consume_gas (exp_gas e y); set_top (Word.exp x y)
