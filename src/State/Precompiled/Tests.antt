-- ===== src/State/Precompiled/Tests.antt =====
-- The theorems on the precompiled contracts, at 3 ^ 5 modulo 7.
use dogesyncer.Prelude.{ℕ, ◌≡◌, refl, ◌^◌, none, some, List, [], ◌∷◌, arith}
use dogesyncer.Evm.State.Bytes.{from_bytes, from_acc, to_bytes}
use dogesyncer.State.Precompiled.ModExp.{
  mod_exp_values, get, mod_exp_price, mult_complexity, adjusted_exponent_length, exponent_head,
}
use dogesyncer.State.Precompiled.Power.{nil, cons, IsPower, mod_exp_values-IsPower}

abbrev numbers : List ℕ
numbers = 3 ∷ 5 ∷ 7 ∷ []

mod_exp_values-IsPower_example :
    (out : List ℕ) × (mod_exp_values 1 1 1 numbers ≡ some out) × IsPower 1 1 1 numbers out
mod_exp_values-IsPower_example =
    mod_exp_values-IsPower 1 1 1 numbers
      (cons (omega arith) (cons (omega arith) (cons (omega arith) nil))) (omega arith) (omega arith)
      (omega arith)

mod_exp_values_five : mod_exp_values 1 1 1 numbers ≡ some (5 ∷ [])
unfolding mod_exp_values get to_bytes from_bytes from_acc
mod_exp_values_five = refl

-- The gas of an exponent of 2^63 bytes is a uint64, while `run` panics on it.
dear_exponent : mod_exp_price 0 (2 ^ 63) 1 [] ≡ 3689348814741910310
unfolding mod_exp_price mult_complexity adjusted_exponent_length exponent_head
dear_exponent = refl

exponent_panics : mod_exp_values 0 (2 ^ 63) 1 [] ≡ none
unfolding mod_exp_values
exponent_panics = refl
