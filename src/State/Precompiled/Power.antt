-- ===== src/State/Precompiled/Power.antt =====
-- What the contract for powers returns: the bytes of the power, none of them lost.
use dogesyncer.Prelude.{
  ℕ, zero, suc, ◌+◌, ◌-◌, ◌*◌, ◌/◌, ◌%◌, ◌^◌, ◌≤◌, ◌<◌, ◌≡◌, refl, sym, ap, ◌∙◌, false, some, leb,
  ◌||◌, List, [], ◌∷◌, ◌++◌, take, drop, replicate, length, length-append, length-replicate, ◌==◌,
  if◌then◌else◌, arith, Bool-cases, inl, inr,
}
use native.Mathlib.Nat.{mul_assoc, mod-lt, mul-le-mul_right}
use dogesyncer.Evm.State.Bytes.{from_acc, from_bytes, to_bytes}
use dogesyncer.State.Precompiled.ModExp.{get, mod_exp_values}

from_acc-append :
    (acc : ℕ) (xs : List ℕ) (b : ℕ) → from_acc acc (xs ++ b ∷ []) ≡ from_acc acc xs * 256 + b
unfolding from_acc
from_acc-append acc [] b = refl
from_acc-append acc (x ∷ xs) b = from_acc-append (acc * 256 + x) xs b

from_bytes-to_bytes : (n v : ℕ) → v < 256 ^ n → from_bytes (to_bytes n v) ≡ v
unfolding from_bytes to_bytes from_acc
from_bytes-to_bytes zero v h = ground arith
from_bytes-to_bytes (suc n) v h =
    let small : v / 256 < 256 ^ n = omega arith in
    let ih = from_bytes-to_bytes n (v / 256) small in
    from_acc-append 0 (to_bytes n (v / 256)) (v % 256) ∙ omega (arith, ih)

length-to_bytes : (n v : ℕ) → length (to_bytes n v) ≡ n
unfolding to_bytes
length-to_bytes zero v = refl
length-to_bytes (suc n) v =
    length-append (to_bytes n (v / 256)) (v % 256 ∷ []) ∙ omega (arith, length-to_bytes n (v / 256))

-- Each number of a list is below 256.
pub data AllBytes : List ℕ → Type 0 where
  nil : AllBytes []
  cons : {b : ℕ} {bs : List ℕ} → b < 256 → AllBytes bs → AllBytes (b ∷ bs)

shifted : (a n : ℕ) → a * 256 * 256 ^ n ≡ a * 256 ^ suc n
shifted a n =
    let p : 256 ^ suc n ≡ 256 * 256 ^ n = omega arith in
    mul_assoc a 256 (256 ^ n) ∙ ap (λ q. a * q) (sym p)

from_acc-zeros : (acc k : ℕ) → from_acc acc (replicate k 0) ≡ acc * 256 ^ k
unfolding from_acc
from_acc-zeros acc zero = omega arith
from_acc-zeros acc (suc k) =
    from_acc-zeros (acc * 256 + 0) k ∙ ap (λ a. a * 256 ^ k) (omega arith) ∙ shifted acc k

pow-pos : (n : ℕ) → 0 < 256 ^ n
pow-pos zero = omega arith
pow-pos (suc n) = let ih = pow-pos n in omega arith

from_acc-lt :
    (n acc : ℕ) (xs : List ℕ)
    → AllBytes xs
    → from_acc acc (take n xs ++ replicate (n - length xs) 0) < (acc + 1) * 256 ^ n
unfolding from_acc
from_acc-lt zero acc xs all = let e : 0 - length xs ≡ 0 = omega arith in rw e (omega arith)
from_acc-lt (suc n) acc [] all =
    let e : suc n - 0 ≡ suc n = omega arith in
    let p : 0 < 256 ^ suc n = pow-pos (suc n) in rw e (omega (arith, from_acc-zeros acc (suc n), p))
from_acc-lt (suc n) acc (x ∷ xs) (cons h all) =
    let ih = from_acc-lt n (acc * 256 + x) xs all in
    let wider : acc * 256 + x + 1 ≤ (acc + 1) * 256 = omega arith in
    let le = mul-le-mul_right (256 ^ n) wider in
    let e : suc n - suc (length xs) ≡ n - length xs = omega arith in
    let lt : from_acc (acc * 256 + x) (take n xs ++ replicate (n - length xs) 0)
        < (acc + 1) * 256 ^ suc n =
      omega (arith, ih, le, shifted (acc + 1) n) in
    rw e lt

-- The bytes of a size, the missing ones zero, make a number with that many bytes.
get-lt : (xs : List ℕ) (n : ℕ) → AllBytes xs → from_bytes (get xs n).0 < 256 ^ n
unfolding from_bytes get
get-lt xs n all = let lt = from_acc-lt n 0 xs all in omega (arith, lt)

AllBytes-drop : (n : ℕ) (xs : List ℕ) → AllBytes xs → AllBytes (drop n xs)
AllBytes-drop zero xs all = all
AllBytes-drop (suc n) [] all = nil
AllBytes-drop (suc n) (x ∷ xs) (cons h all) = AllBytes-drop n xs all

zeros : (n : ℕ) → from_bytes (replicate n 0) ≡ 0
unfolding from_bytes
zeros n = from_acc-zeros 0 n ∙ omega arith

-- The numbers that the input stands for.
abbrev pub base_of : ℕ → List ℕ → ℕ
base_of n input = from_bytes (get input n).0

abbrev pub exponent_of : ℕ → ℕ → List ℕ → ℕ
exponent_of n k input = from_bytes (get (get input n).1 k).0

abbrev pub modulus_of : ℕ → ℕ → ℕ → List ℕ → ℕ
modulus_of n k m input = from_bytes (get (get (get input n).1 k).1 m).0

-- What the contract for powers should return.
abbrev pub IsPower : ℕ → ℕ → ℕ → List ℕ → List ℕ → Type 0
IsPower n k m input out =
    (length out ≡ m)
    × (from_bytes out ≡ (
        if modulus_of n k m input == 0
        then 0
        else base_of n input ^ exponent_of n k input % modulus_of n k m input))

-- On an input of bytes and at three sizes below 2^63, the contract for powers returns as many bytes as
-- the size of the modulus, and they make the power of the base modulo the modulus, or 0 where the
-- modulus is 0.
pub mod_exp_values-IsPower :
    (n k m : ℕ) (input : List ℕ)
    → AllBytes input
    → n < 2 ^ 63
    → k < 2 ^ 63
    → m < 2 ^ 63
    → (out : List ℕ) × (mod_exp_values n k m input ≡ some out) × IsPower n k m input out
unfolding mod_exp_values get
mod_exp_values-IsPower n k m input all hn hk hm =
    let sized : (leb (2 ^ 63) n || leb (2 ^ 63) k || leb (2 ^ 63) m) ≡ false = ground arith in
    elim (Bool-cases (modulus_of n k m input == 0)) [
      | inl none_given ↦ (
        replicate m 0,
        rw (sized, none_given) refl,
        rw none_given (length-replicate m 0, zeros m),
      )
      | inr given ↦
          let lt = get-lt (get (get input n).1 k).1 m (unread n k input all) in
          let power = base_of n input ^ exponent_of n k input in
          let small : power % modulus_of n k m input < 256 ^ m =
            omega (arith, lt, mod-lt power (pos given)) in
          (
            to_bytes m (power % modulus_of n k m input),
            rw (sized, given) refl,
            rw given (length-to_bytes m _, from_bytes-to_bytes m _ small),
          )
    ]
  where
    pos : {d : ℕ} → (d == 0) ≡ false → 0 < d
    pos h = ground arith

    unread : (n k : ℕ) (xs : List ℕ) → AllBytes xs → AllBytes (get (get xs n).1 k).1
    unread n k xs all = AllBytes-drop k (drop n xs) (AllBytes-drop n xs all)
