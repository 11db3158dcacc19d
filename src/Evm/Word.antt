-- ===== src/Evm/Word.antt =====
-- state/runtime/evm/instructions.go: the arithmetic of the instructions on 256-bit words, as
-- functions of the operands. A word is a number below 2^256; the signed instructions read it
-- as an integer (`to256`) and take their result back (`toU256`). big.Int's bit functions are those
-- of the two's complement.
pub mod Exp
use dogesyncer.Prelude.{
  ℕ, zero, suc, Bool, true, false, ◌+◌, ◌-◌, ◌*◌, ◌/◌, ◌%◌, ◌^◌, ltb, leb, ◌==◌, if◌then◌else◌, ◌≡◌,
  bit_and, bit_or, bit_xor,
}
use dogesyncer.Prelude.Int.{ℤ, pos, negsuc, sub_ℕ, ltb_ℤ}

abbrev pub tt256 : ℕ
tt256 = 2 ^ 256

-- `BitLen`
bit_len_within : ℕ → ℕ → ℕ
bit_len_within zero n = 0
bit_len_within (suc f) n = let rest = bit_len_within f (n / 2) in if n == 0 then 0 else suc rest

unfoldable pub bit_len : ℕ → ℕ
unfolding bit_len_within
bit_len n = bit_len_within n n

-- `toU256` on a number and on an integer
unfoldable pub to_u256 : ℕ → ℕ
to_u256 n = n % tt256

unfoldable pub to_u256_int : ℤ → ℕ
to_u256_int (pos n) = n % tt256
to_u256_int (negsuc n) = tt256 - 1 - n % tt256

-- `to256`: `BitLen() > 255` is `2^255 ≤ x`
unfoldable pub to_256 : ℕ → ℤ
to_256 x = if leb (2 ^ 255) x then sub_ℕ x tt256 else pos x

abbrev pub abs : ℤ → ℕ
abs (pos n) = n
abs (negsuc n) = suc n

abbrev pub is_negative : ℤ → Bool
is_negative (pos n) = false
is_negative (negsuc n) = true

-- `Sign`, as the three values -1, 0 and 1 told apart by numbers
abbrev pub sign : ℤ → ℕ
sign (pos zero) = 0
sign (pos (suc n)) = 1
sign (negsuc n) = 2

abbrev pub neg_if : Bool → ℕ → ℤ
neg_if true n = sub_ℕ 0 n
neg_if false n = pos n

abbrev pub of_bool : Bool → ℕ
of_bool true = 1
of_bool false = 0

unfoldable pub add : ℕ → ℕ → ℕ
unfolding to_u256
add a b = to_u256 (a + b)

unfoldable pub mul : ℕ → ℕ → ℕ
unfolding to_u256
mul a b = to_u256 (a * b)

unfoldable pub sub : ℕ → ℕ → ℕ
unfolding to_u256_int
sub a b = to_u256_int (sub_ℕ a b)

unfoldable pub div : ℕ → ℕ → ℕ
unfolding to_u256
div a b = if b == 0 then 0 else to_u256 (a / b)

unfoldable pub sdiv_int : ℤ → ℤ → ℕ
unfolding to_u256_int
sdiv_int a b =
    if sign b == 0
    then 0
    else to_u256_int (neg_if (if sign a == sign b then false else true) (abs a / abs b))

unfoldable pub sdiv : ℕ → ℕ → ℕ
unfolding to_256 sdiv_int
sdiv a b = sdiv_int (to_256 a) (to_256 b)

unfoldable pub mod_word : ℕ → ℕ → ℕ
unfolding to_u256
mod_word a b = if b == 0 then 0 else to_u256 (a % b)

unfoldable pub smod_int : ℤ → ℤ → ℕ
unfolding to_u256_int
smod_int a b = if sign b == 0 then 0 else to_u256_int (neg_if (is_negative a) (abs a % abs b))

unfoldable pub smod : ℕ → ℕ → ℕ
unfolding to_256 smod_int
smod a b = smod_int (to_256 a) (to_256 b)

unfoldable pub addmod : ℕ → ℕ → ℕ → ℕ
unfolding to_u256
addmod a b z = if z == 0 then 0 else to_u256 ((a + b) % z)

unfoldable pub mulmod : ℕ → ℕ → ℕ → ℕ
unfolding to_u256
mulmod a b z = if z == 0 then 0 else to_u256 (a * b % z)

-- The inner loops of `opExp`: `i` bits of the exponent `d` are left.
unfoldable pub exp_loop : ℕ → ℕ → ℕ → ℕ → ℕ
unfolding to_u256
exp_loop zero x d z = z
exp_loop (suc i) x d z =
    exp_loop i (to_u256 (x * x)) (d / 2) (if d % 2 == 1 then to_u256 (z * x) else z)

-- `y.Bits()` has the 64-bit words of `y` and no leading zero word.
unfoldable pub exp_bits : ℕ → ℕ
unfolding bit_len
exp_bits y = (bit_len y + 63) / 64 * 64

unfoldable pub exp : ℕ → ℕ → ℕ
unfolding exp_loop exp_bits
exp x y = exp_loop (exp_bits y) x y 1

-- The low 64 bits as an int64 (`Int64`).
unfoldable pub to_int64 : ℕ → ℤ
to_int64 x = let low = x % 2 ^ 64 in if ltb low (2 ^ 63) then pos low else sub_ℕ low (2 ^ 64)

-- `opByte`. The shift count of a negative index is a uint of `(31 - indx) * 8` in int64.
unfoldable pub byte_at : ℤ → ℕ → ℕ
byte_at (pos i) y = if ltb 31 i then 0 else y / 2 ^ ((31 - i) * 8) % 256
byte_at (negsuc i) y =
    let shift = (31 + (i + 1)) * 8 % 2 ^ 64 in if ltb shift 256 then y / 2 ^ shift % 256 else 0

unfoldable pub byte : ℕ → ℕ → ℕ
unfolding to_int64 byte_at
byte x y = byte_at (to_int64 x) y

unfoldable pub not_word : ℕ → ℕ
unfolding to_u256_int
not_word a = to_u256_int (negsuc a)

unfoldable pub lt_signed : ℕ → ℕ → Bool
unfolding to_256
lt_signed a b = ltb_ℤ (to_256 a) (to_256 b)

-- The value that `opSignExtension` leaves, `bit` being the sign bit's place; or-ing the
-- complement of the mask sets every bit from `bit` on.
unfoldable pub extend_from : ℕ → ℕ → ℕ
unfolding to_u256 to_u256_int
extend_from bit x =
    if x / 2 ^ bit % 2 == 1
    then to_u256_int (negsuc (2 ^ bit - 1 - x % 2 ^ bit))
    else to_u256 (x % 2 ^ bit)

unfoldable pub sign_extend : ℕ → ℕ → ℕ
unfolding extend_from
sign_extend ext x = if ltb 32 ext then x else extend_from (ext * 8 + 7) x

-- `equalOrOverflowsUint256`: `BitLen() > 8`
abbrev pub overflows_shift : ℕ → Bool
overflows_shift b = leb 256 b

unfoldable pub shl : ℕ → ℕ → ℕ
unfolding to_u256
shl shift value = if overflows_shift shift then 0 else to_u256 (value * 2 ^ shift)

unfoldable pub shr : ℕ → ℕ → ℕ
unfolding to_u256
shr shift value = if overflows_shift shift then 0 else to_u256 (value / 2 ^ shift)

-- An arithmetic right shift rounds down.
abbrev pub rsh_int : ℤ → ℕ → ℤ
rsh_int (pos n) k = pos (n / 2 ^ k)
rsh_int (negsuc n) k = negsuc (n / 2 ^ k)

unfoldable pub sar_int : ℕ → ℤ → ℕ
unfolding to_u256_int
sar_int shift v =
    if overflows_shift shift
    then (if is_negative v then tt256 - 1 else 0)
    else to_u256_int (rsh_int v shift)

unfoldable pub sar : ℕ → ℕ → ℕ
unfolding to_256 sar_int
sar shift value = sar_int shift (to_256 value)
