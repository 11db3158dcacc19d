-- ===== src/Prelude/Bits.antt =====
-- The bytes of a list after a write, and the bits of a byte, by evaluation at every byte and bit.
use dogesyncer.Prelude.{
  every, every-at, ℕ, zero, suc, List, [], ◌∷◌, length, get_or, set, arith, if◌then◌else◌, Bool,
  true, false, ◌^◌, ◌<◌, ◌≡◌, refl, sym, ◌==◌, ◌||◌, ltb, not, bit_and, bit_or, ltb→lt,
}

-- Whether the bit `j` is set.
unfoldable pub bit_test : ℕ → ℕ → Bool
bit_test b j = not (bit_and b (2 ^ j) == 0)

same : Bool → Bool → Bool
same true b = b
same false b = not b

bit_law : ℕ → ℕ → ℕ → Bool
unfolding bit_test same
bit_law b k j = same (bit_test (bit_or b (2 ^ k)) j) (k == j || bit_test b j)

bit_table : every (λ b. every (λ k. every (λ j. bit_law b k j) 8) 8) 256 ≡ true
unfolding every bit_law
bit_table = refl

small_table : every (λ b. every (λ k. ltb (bit_or b (2 ^ k)) 256) 8) 256 ≡ true
unfolding every
small_table = refl

pub bit_or_test :
    (b k j : ℕ) → b < 256 → k < 8 → j < 8 → bit_test (bit_or b (2 ^ k)) j ≡ (k == j || bit_test b j)
unfolding same bit_law
bit_or_test b k j hb hk hj =
    same_eq _ _ (every-at _ 8 j (every-at _ 8 k (every-at _ 256 b bit_table hb) hk) hj)
  where
    same_eq : (x y : Bool) → same x y ≡ true → x ≡ y
    same_eq true y h = sym h
    same_eq false true h = cc
    same_eq false false h = refl

pub bit_or-lt : (b k : ℕ) → b < 256 → k < 8 → bit_or b (2 ^ k) < 256
bit_or-lt b k hb hk = ltb→lt _ _ (every-at _ 8 k (every-at _ 256 b small_table hb) hk)

pub get_or-set :
    (xs : List ℕ) (i j v : ℕ)
    → i < length xs
    → get_or (set xs i v) j 0 ≡ (if i == j then v else get_or xs j 0)
get_or-set [] i j v h = elim h [ ]
get_or-set (x ∷ xs) zero zero v h = refl
get_or-set (x ∷ xs) zero (suc j) v h = ground arith
get_or-set (x ∷ xs) (suc i) zero v h = ground arith
get_or-set (x ∷ xs) (suc i) (suc j) v h = ground (arith, get_or-set xs i j v)
