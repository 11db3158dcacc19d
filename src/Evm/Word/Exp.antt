-- ===== src/Evm/Word/Exp.antt =====
-- The repeated squaring of `opExp`, against the power.
use native.Mathlib.Nat.{
  add-mul-mod_self_left, div-add-mod, pow-suc, pow-zero, pow-succ', pow-le-pow_right, mod-eq_of_lt,
  mul_comm, mul_assoc,
}
use dogesyncer.Prelude.{
  ℕ, Bool, zero, suc, ◌+◌, ◌*◌, ◌/◌, ◌%◌, ◌^◌, ◌≤◌, ◌<◌, ◌≡◌, sym, ap, ◌∙◌, arith, ◌==◌, true,
  false, if◌then◌else◌, Bool-cases, inl, inr,
}
use dogesyncer.Evm.Word.{tt256, bit_len_within, bit_len, to_u256, exp_loop, exp_bits, exp}

mul-mod_left : (a b m : ℕ) → a % m * b % m ≡ a * b % m
mul-mod_left a b m =
    sym (add-mul-mod_self_left (a % m * b) m (a / m * b))
    ∙ ap (λ t. t % m) (omega (arith, ap (λ (t : ℕ). t * b) (div-add-mod a m)))

mul-mod_right : (a b m : ℕ) → a * (b % m) % m ≡ a * b % m
mul-mod_right a b m =
    ap (λ t. t % m) (mul_comm a (b % m)) ∙ mul-mod_left b a m ∙ ap (λ t. t % m) (mul_comm b a)

pow-mod : (a n m : ℕ) → (a % m) ^ n % m ≡ a ^ n % m
pow-mod a zero m = rw (pow-zero, pow-zero)
pow-mod a (suc n) m =
    rw (pow-suc, pow-suc)
      (sym (mul-mod_left ((a % m) ^ n) (a % m) m)
        ∙ ap (λ t. t * (a % m) % m) (pow-mod a n m)
        ∙ mul-mod_left (a ^ n) (a % m) m
        ∙ mul-mod_right (a ^ n) a m)

pow-double : (x k : ℕ) → x ^ (2 * k) ≡ (x * x) ^ k
pow-double x zero = pow-zero x ∙ sym (pow-zero (x * x))
pow-double x (suc k) =
    let e : 2 * suc k ≡ suc (suc (2 * k)) = omega arith in
    rw (e, pow-suc, pow-suc, pow-suc, pow-double x k) (mul_assoc ((x * x) ^ k) x x)

-- One bit of the exponent.
pow-bit : (x d : ℕ) → x ^ d ≡ (if d % 2 == 1 then x else 1) * (x * x) ^ (d / 2)
pow-bit x d = elim (Bool-cases (d % 2 == 1)) [
  | inl odd ↦
      let e : d ≡ suc (2 * (d / 2)) = ground arith in
      rw odd
        (ap (λ t. x ^ t) e ∙ pow-succ' x (2 * (d / 2)) ∙ ap (λ t. x * t) (pow-double x (d / 2)))
  | inr even ↦
      let e : d ≡ 2 * (d / 2) = ground arith in
      rw even (ap (λ t. x ^ t) e ∙ pow-double x (d / 2) ∙ omega arith)
]

mod_lt : (a : ℕ) → a % tt256 < tt256
mod_lt a = omega arith

-- The square is kept modulo 2^256.
square-mod : (z x k : ℕ) → z * (x * x % tt256) ^ k % tt256 ≡ z * (x * x) ^ k % tt256
square-mod z x k =
    sym (mul-mod_right z ((x * x % tt256) ^ k) tt256)
    ∙ ap (λ t. z * t % tt256) (pow-mod (x * x) k tt256)
    ∙ mul-mod_right z ((x * x) ^ k) tt256

accumulate :
    (b : Bool) (z x p : ℕ)
    → (if b then z * x % tt256 else z) * p % tt256 ≡ z * ((if b then x else 1) * p) % tt256
accumulate true z x p = mul-mod_left (z * x) p tt256 ∙ ap (λ t. t % tt256) (mul_assoc z x p)
accumulate false z x p = ap (λ t. z * t % tt256) (omega arith)

accumulate_lt : (b : Bool) (z x : ℕ) → z < tt256 → (if b then z * x % tt256 else z) < tt256
accumulate_lt true z x h = mod_lt (z * x)
accumulate_lt false z x h = h

half_lt : (d i : ℕ) → d < 2 ^ suc i → d / 2 < 2 ^ i
half_lt d i h = let e : 2 ^ suc i ≡ 2 ^ i * 2 = pow-suc 2 i in ground arith

exp_loop-pow : (i x d z : ℕ) → d < 2 ^ i → z < tt256 → exp_loop i x d z ≡ z * x ^ d % tt256
unfolding exp_loop to_u256
exp_loop-pow zero x d z h lt =
    let e : 2 ^ 0 ≡ 1 = pow-zero 2 in
    let e' : d ≡ 0 = omega arith in
    rw e' (rw (pow-zero x) (sym (mod-eq_of_lt (omega arith)) ∙ ap (λ t. t % tt256) (omega arith)))
exp_loop-pow (suc i) x d z h lt =
    let odd = d % 2 == 1 in
    let z' = if odd then z * x % tt256 else z in
    exp_loop-pow i (x * x % tt256) (d / 2) z' (half_lt d i h) (accumulate_lt odd z x lt)
    ∙ square-mod z' x (d / 2)
    ∙ accumulate odd z x ((x * x) ^ (d / 2))
    ∙ ap (λ t. z * t % tt256) (sym (pow-bit x d))

bit_len-bound : (f n : ℕ) → n ≤ f → n < 2 ^ bit_len_within f n
unfolding bit_len_within
bit_len-bound zero n h = let e : 2 ^ 0 ≡ 1 = pow-zero 2 in omega arith
bit_len-bound (suc f) n h = elim (Bool-cases (n == 0)) [
  | inl z ↦ rw z (let e : 2 ^ 0 ≡ 1 = pow-zero 2 in ground arith)
  | inr nz ↦ rw nz (
      let ih : n / 2 < 2 ^ bit_len_within f (n / 2) = bit_len-bound f (n / 2) (ground arith) in
      let e : 2 ^ suc (bit_len_within f (n / 2)) ≡ 2 ^ bit_len_within f (n / 2) * 2 =
        pow-suc 2 (bit_len_within f (n / 2)) in
      omega arith)
]

exp_bits-bound : (n : ℕ) → n < 2 ^ exp_bits n
unfolding exp_bits bit_len
exp_bits-bound n =
    let below : n < 2 ^ bit_len_within n n = bit_len-bound n n (omega arith) in
    let more : 2 ^ bit_len_within n n ≤ 2 ^ ((bit_len_within n n + 63) / 64 * 64) =
      pow-le-pow_right (omega arith) (omega arith) in
    omega arith

-- For all numbers x and y, EXP computes x to the power y modulo 2^256.
pub exp-pow : (x y : ℕ) → exp x y ≡ x ^ y % tt256
unfolding exp
exp-pow x y =
    exp_loop-pow (exp_bits y) x y 1 (exp_bits-bound y) (omega arith)
    ∙ ap (λ t. t % tt256) (omega arith)
