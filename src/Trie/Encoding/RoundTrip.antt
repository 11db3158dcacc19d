-- ===== src/Trie/Encoding/RoundTrip.antt =====
-- The compact encoding of keys, read back.
use dogesyncer.Prelude.{
  every, every-at, ℕ, Bool, true, false, Option, some, List, [], ◌∷◌, ◌++◌, ◌+◌, ◌*◌, ◌/◌, ◌%◌, ◌<◌,
  ◌≡◌, refl, ◌∙◌, ap, ◌==◌, ◌&&◌, length, bit_or, arith, Bool-cases, inl, inr,
}
use dogesyncer.Trie.Encoding.{
  has_terminator, drop_last, pack, flagged, encode_compact, nibbles, bytes_to_hex_nibbles, drop_one,
  drop_flag, drop_terminator, decode_compact,
}

-- A key of nibbles, without a terminator.
pub data IsKey : List ℕ → Type 0 where
  empty : IsKey []
  nibble : {x : ℕ} {rest : List ℕ} → x < 16 → IsKey rest → IsKey (x ∷ rest)

has_terminator-key : {key : List ℕ} → IsKey key → has_terminator key ≡ false
unfolding has_terminator
has_terminator-key empty = refl
has_terminator-key (nibble h empty) = ground arith
has_terminator-key (nibble h (nibble g k)) = has_terminator-key (nibble g k)

has_terminator-append : (key : List ℕ) → has_terminator (key ++ 16 ∷ []) ≡ true
unfolding has_terminator
has_terminator-append [] = refl
has_terminator-append (x ∷ []) = refl
has_terminator-append (x ∷ y ∷ rest) = has_terminator-append (y ∷ rest)

drop_last-append : (key : List ℕ) (n : ℕ) → drop_last (key ++ n ∷ []) ≡ key
unfolding drop_last
drop_last-append [] n = refl
drop_last-append (x ∷ []) n = refl
drop_last-append (x ∷ y ∷ rest) n = ap (λ t. x ∷ t) (drop_last-append (y ∷ rest) n)

-- Two nibbles in a byte.
joined : ℕ → ℕ → Bool
joined x y = bit_or (x * 16 % 256) y / 16 == x && bit_or (x * 16 % 256) y % 16 == y

all_joined : every (λ x. every (λ y. joined x y) 16) 16 ≡ true
unfolding every joined
all_joined = refl

join_split :
    (x y : ℕ)
    → x < 16
    → y < 16
    → (bit_or (x * 16 % 256) y / 16 ≡ x) × (bit_or (x * 16 % 256) y % 16 ≡ y)
unfolding joined
join_split x y h g =
    let both = every-at _ 16 y (every-at _ 16 x all_joined h) g in (ground arith, ground arith)

nibbles-pack : {key : List ℕ} → IsKey key → length key % 2 ≡ 0 → nibbles (pack key) ≡ key
unfolding nibbles pack
nibbles-pack empty even = refl
nibbles-pack (nibble h empty) even = absurd (omega arith)
nibbles-pack (nibble {x = x} h (nibble {x = y} {rest = rest} g k)) even =
    let (high, low) = join_split x y h g in
    let ih = nibbles-pack k (omega arith) in rw (high, low, ih) refl

-- The key behind its flag is a key of even length.
length-flagged : (t : ℕ) (key : List ℕ) → length (flagged t key) % 2 ≡ 0
unfolding flagged
length-flagged t key = elim (Bool-cases (length key % 2 == 1)) [
  | inl odd ↦ rw odd (ground arith)
  | inr even ↦ rw even (ground arith)
]

flagged-IsKey : (t : ℕ) {key : List ℕ} → t < 2 → IsKey key → IsKey (flagged t key)
unfolding flagged
flagged-IsKey t {key} h k = elim (Bool-cases (length key % 2 == 1)) [
  | inl odd ↦ rw odd (nibble (omega arith) k)
  | inr even ↦ rw even (nibble (omega arith) (nibble (omega arith) k))
]

nibbles-flagged :
    (t : ℕ) {key : List ℕ} → t < 2 → IsKey key → nibbles (pack (flagged t key)) ≡ flagged t key
nibbles-flagged t {key} h k = nibbles-pack (flagged-IsKey t h k) (length-flagged t key)

flagged_odd :
    (t : ℕ) (key : List ℕ) → (length key % 2 == 1) ≡ true → flagged t key ≡ (2 * t + 1) ∷ key
unfolding flagged
flagged_odd t key odd =
    let one : length key % 2 ≡ 1 = ground arith in rw odd (ap (λ n. (2 * t + n) ∷ key) one)

flagged_even :
    (t : ℕ) (key : List ℕ) → (length key % 2 == 1) ≡ false → flagged t key ≡ (2 * t + 0) ∷ 0 ∷ key
unfolding flagged
flagged_even t key even =
    let none_over : length key % 2 ≡ 0 = ground arith in
    rw even (ap (λ n. (2 * t + n) ∷ 0 ∷ key) none_over)

-- Reading a key behind its flag, with and without the terminator.
read : List ℕ → Option (List ℕ)
read l = drop_flag (drop_terminator (l ++ 16 ∷ []))

read_open : (key : List ℕ) → read (flagged 0 key) ≡ some key
unfolding read drop_terminator drop_flag drop_one
read_open key = elim (Bool-cases (length key % 2 == 1)) [
  | inl odd ↦ ap read (flagged_odd 0 key odd) ∙ ap drop_flag (drop_last-append (1 ∷ key) 16)
  | inr even ↦ ap read (flagged_even 0 key even) ∙ ap drop_flag (drop_last-append (0 ∷ 0 ∷ key) 16)
]

read_closed : (key : List ℕ) → read (flagged 1 key) ≡ some (key ++ 16 ∷ [])
unfolding read drop_terminator drop_flag drop_one
read_closed key = elim (Bool-cases (length key % 2 == 1)) [
  | inl odd ↦ ap read (flagged_odd 1 key odd)
  | inr even ↦ ap read (flagged_even 1 key even)
]

-- A key of nibbles is read back from its compact encoding, with a terminator and without.
pub decode_compact-encode_compact :
    (key : List ℕ)
    → IsKey key
    → (decode_compact (encode_compact key) ≡ some key)
      × (decode_compact (encode_compact (key ++ 16 ∷ [])) ≡ some (key ++ 16 ∷ []))
unfolding decode_compact encode_compact bytes_to_hex_nibbles read
decode_compact-encode_compact key k = (
  rw (has_terminator-key k) (ap read (nibbles-flagged 0 (omega arith) k) ∙ read_open key),
  rw (has_terminator-append key, drop_last-append key 16)
      (ap read (nibbles-flagged 1 (omega arith) k) ∙ read_closed key),
)
