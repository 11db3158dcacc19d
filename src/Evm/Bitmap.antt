-- ===== src/Evm/Bitmap.antt =====
-- state/runtime/evm/bitmap.go: the bitmap of the jump destinations of a contract.
pub mod Jumpdest
use dogesyncer.Prelude.{
  ℕ, zero, suc, Bool, true, false, Option, none, some, List, [], ◌∷◌, ◌+◌, ◌-◌, ◌/◌, ◌%◌, ◌^◌, ltb,
  ◌==◌, not, if◌then◌else◌, length, get_or, set, replicate, bit_and, bit_or,
}

-- `isSet` and `set` are only called inside the buffer.
unfoldable pub is_set : List ℕ → ℕ → Bool
is_set buf i = not (bit_and (get_or buf (i / 8) 0) (2 ^ (i % 8)) == 0)

unfoldable pub set_bit : List ℕ → ℕ → List ℕ
set_bit buf i = set buf (i / 8) (bit_or (get_or buf (i / 8) 0) (2 ^ (i % 8)))

-- `isPushOp`: `i>>5 == 3`
unfoldable pub is_push_op : ℕ → Bool
is_push_op c = c / 2 ^ 5 == 3

mark : ℕ → ℕ → List ℕ → List ℕ
mark c i buf = if c == 0x5b then set_bit buf i else buf

-- The number of bytes from an instruction to the one behind it.
unfoldable pub width : ℕ → ℕ
unfolding is_push_op
width c = if is_push_op c then c - 0x60 + 2 else 1

-- The loop of `setCode` from index `i` on.
unfoldable pub scan : ℕ → List ℕ → ℕ → List ℕ → List ℕ
unfolding mark width set_bit
scan zero code i buf = buf
scan (suc fuel) code i buf =
    let c = get_or code i 0 in
    let rest = scan fuel code (i + width c) (if is_push_op c then buf else mark c i buf) in
    if ltb i (length code) then rest else buf

-- `setCode` on a bitmap that has been reset
unfoldable pub set_code : List ℕ → List ℕ
unfolding scan
set_code code = scan (length code) code 0 (replicate (length code / 8 + 1) 0)
