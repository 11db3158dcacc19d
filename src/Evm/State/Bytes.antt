-- ===== src/Evm/State/Bytes.antt =====
-- Byte strings: the big-endian conversions of math/big, the copies into a slice, and `setBytes` of
-- state/runtime/evm/instructions.go.
use dogesyncer.Prelude.{
  ℕ, zero, suc, List, [], ◌∷◌, ◌++◌, ◌+◌, ◌-◌, ◌*◌, ◌/◌, ◌%◌, ◌^◌, ltb, if◌then◌else◌, length, take,
  drop, replicate, min,
}

-- `SetBytes`: big-endian
unfoldable pub from_acc : ℕ → List ℕ → ℕ
from_acc acc [] = acc
from_acc acc (b ∷ bs) = from_acc (acc * 256 + b) bs

unfoldable pub from_bytes : List ℕ → ℕ
unfolding from_acc
from_bytes bs = from_acc 0 bs

-- The last `n` bytes of a number, most significant first.
unfoldable pub to_bytes : ℕ → ℕ → List ℕ
to_bytes zero v = []
to_bytes (suc n) v = to_bytes n (v / 256) ++ v % 256 ∷ []

-- `copy(dst[o:], bs)`: what does not fit is not written
unfoldable pub splice : ℕ → List ℕ → List ℕ → List ℕ
splice o bs [] = []
splice (suc o) bs (x ∷ xs) = x ∷ splice o bs xs
splice zero [] (x ∷ xs) = x ∷ xs
splice zero (b ∷ bs) (x ∷ xs) = b ∷ splice zero bs xs

abbrev pub slice : ℕ → ℕ → List ℕ → List ℕ
slice o n bs = take n (drop o bs)

-- The `size` bytes that `setBytes` writes to its target.
unfoldable pub set_bytes : List ℕ → ℕ → ℕ → List ℕ
set_bytes input size data_offset =
    if ltb data_offset (2 ^ 64)
    then (let begin = min data_offset (length input) in
        let copy_size = min size (length input - begin) in
        slice begin copy_size input ++ replicate (size - copy_size) 0)
    else replicate size 0
