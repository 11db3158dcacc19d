-- ===== src/Trie/Encoding.antt =====
-- state/immutable-trie/encoding.go: the compact encoding of the keys of the trie, a byte for two nibbles
-- behind a flag for the parity and the terminator. The number 16 is the terminator.
pub mod RoundTrip
use dogesyncer.Prelude.{
  ℕ, suc, Bool, true, false, Option, none, some, List, [], ◌∷◌, ◌++◌, ◌+◌, ◌*◌, ◌/◌, ◌%◌, ltb, ◌==◌,
  if◌then◌else◌, length, bit_and, bit_or,
}

-- `hasTerminator`
unfoldable pub has_terminator : List ℕ → Bool
has_terminator [] = false
has_terminator (x ∷ []) = x == 16
has_terminator (x ∷ y ∷ rest) = has_terminator (y ∷ rest)

-- `hex[:len(hex)-1]`
unfoldable pub drop_last : List ℕ → List ℕ
drop_last [] = []
drop_last (x ∷ []) = []
drop_last (x ∷ y ∷ rest) = x ∷ drop_last (y ∷ rest)

-- The loop of `encodeCompact`, on bytes
unfoldable pub pack : List ℕ → List ℕ
pack [] = []
pack (x ∷ []) = []
pack (x ∷ y ∷ rest) = bit_or (x * 16 % 256) y ∷ pack rest

-- The key behind its flag, with an even number of nibbles.
unfoldable pub flagged : ℕ → List ℕ → List ℕ
flagged terminator hex =
    if length hex % 2 == 1
    then (2 * terminator + length hex % 2) ∷ hex
    else (2 * terminator + length hex % 2) ∷ 0 ∷ hex

unfoldable pub encode_compact : List ℕ → List ℕ
unfolding has_terminator drop_last flagged pack
encode_compact hex = pack (if has_terminator hex then flagged 1 (drop_last hex) else flagged 0 hex)

unfoldable pub nibbles : List ℕ → List ℕ
nibbles [] = []
nibbles (b ∷ bs) = b / 16 ∷ b % 16 ∷ nibbles bs

unfoldable pub bytes_to_hex_nibbles : List ℕ → List ℕ
unfolding nibbles
bytes_to_hex_nibbles bytes = nibbles bytes ++ 16 ∷ []

-- A slice from a place behind the end panics.
unfoldable pub drop_one : List ℕ → Option (List ℕ)
drop_one [] = none
drop_one (x ∷ rest) = some rest

unfoldable pub drop_flag : List ℕ → Option (List ℕ)
unfolding drop_one
drop_flag [] = none
drop_flag (flag ∷ rest) = if bit_and flag 1 == 1 then some rest else drop_one rest

unfoldable pub drop_terminator : List ℕ → List ℕ
unfolding drop_last
drop_terminator [] = []
drop_terminator (flag ∷ rest) = if ltb flag 2 then drop_last (flag ∷ rest) else flag ∷ rest

-- `decodeCompact`: `none` where it panics
unfoldable pub decode_compact : List ℕ → Option (List ℕ)
unfolding bytes_to_hex_nibbles drop_terminator drop_flag
decode_compact compact = drop_flag (drop_terminator (bytes_to_hex_nibbles compact))
