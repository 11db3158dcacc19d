-- ===== src/Evm/Bitmap/Jumpdest.antt =====
-- The bitmap of the jump destinations, against the places at which instructions start.
use dogesyncer.Prelude.{
  ◌-◌, every, every-at, ℕ, zero, suc, Bool, true, false, List, ◌+◌, ◌/◌, ◌%◌, ◌^◌, ◌≤◌, ◌<◌, ◌≡◌,
  ◌↔◌, ◌⊎◌, inl, inr, refl, ltb, ◌==◌, ◌&&◌, ◌||◌, not, if◌then◌else◌, length, get_or, replicate,
  bit_and, bit_or, arith, length-set, length-replicate, sym, ap, dec_lt, subst,
}
use dogesyncer.Prelude.Bits.{get_or-set, bit_test, bit_or_test, bit_or-lt}
use dogesyncer.Evm.Bitmap.{is_set, set_bit, is_push_op, mark, width, scan, set_code}

-- The bytes of an instruction: PUSH1 to PUSH32 have 1 to 32 bytes of data behind them.
pub instruction_length : ℕ → ℕ
instruction_length op = if ltb op 0x60 then 1 else if ltb 0x7f op then 1 else op - 0x5e

width-instruction_length : (c : ℕ) → width c ≡ instruction_length c
unfolding width instruction_length
width-instruction_length c = ground arith

-- From an instruction at the first index the code can be read, one instruction after another, up
-- to one at the second.
pub data Walk (code : List ℕ) : ℕ → ℕ → Type 0 where
  here : {i : ℕ} → Walk code i i
  over :
      {i j : ℕ}
      → i < length code
      → Walk code (i + instruction_length (get_or code i 0)) j
      → Walk code i j

-- An instruction starts at `dest`, and it is JUMPDEST.
pub record IsJumpdest (code : List ℕ) (dest : ℕ) : Type 0 where
  pub start : Walk code 0 dest
  pub inside : dest < length code
  pub opcode : get_or code dest 0 ≡ 0x5b

-- A buffer of bytes that reaches to some bit.
record IsBuffer (buf : List ℕ) (bits : ℕ) : Type 0 where
  bytes : (k : ℕ) → get_or buf k 0 < 256
  long : bits / 8 < length buf

set_bit-IsBuffer : (buf : List ℕ) (n i : ℕ) → IsBuffer buf n → i ≤ n → IsBuffer (set_bit buf i) n
unfolding set_bit
set_bit-IsBuffer buf n i h le = record {
  bytes = λ k. ground (
    arith,
    get_or-set buf (i / 8) k (bit_or (get_or buf (i / 8) 0) (2 ^ (i % 8))),
    h.long,
    h.bytes k,
    bit_or-lt (get_or buf (i / 8) 0) (i % 8) (h.bytes (i / 8)),
  );
  long =
      omega (arith, h.long, length-set buf (i / 8) (bit_or (get_or buf (i / 8) 0) (2 ^ (i % 8))));
}

is_set-set_bit :
    (buf : List ℕ) (n i j : ℕ)
    → IsBuffer buf n
    → i ≤ n
    → is_set (set_bit buf i) j ≡ (i == j || is_set buf j)
unfolding is_set set_bit bit_test
is_set-set_bit buf n i j h le = ground (
  arith,
  get_or-set buf (i / 8) (j / 8) (bit_or (get_or buf (i / 8) 0) (2 ^ (i % 8))),
  h.long,
  bit_or_test (get_or buf (i / 8) 0) (i % 8) (j % 8) (h.bytes (i / 8)),
)

width_pos : (c : ℕ) → 0 < width c
unfolding width
width_pos c = ground arith

Walk-le : {code : List ℕ} {i j : ℕ} → Walk code i j → i ≤ j
Walk-le here = omega arith
Walk-le (over lt w) = omega (arith, Walk-le w)

zero_table : every (λ k. bit_and 0 (2 ^ k) == 0) 8 ≡ true
unfolding every
zero_table = refl

zeros : (n k : ℕ) → ◌≡◌ {A = ℕ} (get_or (replicate n 0) k 0) 0
zeros zero k = refl
zeros (suc n) zero = refl
zeros (suc n) (suc k) = zeros n k

module _ (code : List ℕ) where
  -- The buffer after the instruction at `i`.
  marked : ℕ → List ℕ → List ℕ
  marked i buf = let c = get_or code i 0 in if is_push_op c then buf else mark c i buf

  marked-IsBuffer :
      (buf : List ℕ) (i : ℕ)
      → IsBuffer buf (length code)
      → i < length code
      → IsBuffer (marked i buf) (length code)
  unfolding marked mark
  marked-IsBuffer buf i h lt =
      if_both (is_push_op (get_or code i 0)) h
        (if_both (get_or code i 0 == 0x5b) (set_bit-IsBuffer buf _ i h (omega arith)) h)
    where
      if_both :
          (b : Bool) {x y : List ℕ}
          → IsBuffer x (length code)
          → IsBuffer y (length code)
          → IsBuffer (if b then x else y) (length code)
      if_both true p q = p
      if_both false p q = q

  is_set-marked :
      (buf : List ℕ) (i j : ℕ)
      → IsBuffer buf (length code)
      → i < length code
      → is_set (marked i buf) j ≡ ((i == j && get_or code i 0 == 0x5b) || is_set buf j)
  unfolding marked mark is_push_op
  is_set-marked buf i j h lt = ground (arith, is_set-set_bit buf (length code) i j h (omega arith))

  scan-suc :
      (fuel i : ℕ) (buf : List ℕ)
      → i < length code
      → scan (suc fuel) code i buf ≡ scan fuel code (i + width (get_or code i 0)) (marked i buf)
  unfolding scan marked
  scan-suc fuel i buf lt = ground arith

  scan_end : (fuel i : ℕ) (buf : List ℕ) → length code ≤ i → scan fuel code i buf ≡ buf
  unfolding scan
  scan_end zero i buf le = refl
  scan_end (suc fuel) i buf le = ground arith

  scan_mono :
      (fuel i : ℕ) (buf : List ℕ) (j : ℕ)
      → IsBuffer buf (length code)
      → is_set buf j ≡ true
      → is_set (scan fuel code i buf) j ≡ true
  unfolding scan
  scan_mono zero i buf j h b = b
  scan_mono (suc fuel) i buf j h b = elim (dec_lt i (length code)) [
    | yes lt ↦ rw (scan-suc fuel i buf lt) (
        scan_mono fuel _ (marked i buf) j (marked-IsBuffer buf i h lt)
          (ground (arith, is_set-marked buf i j h lt)))
    | no ge ↦ rw (scan_end (suc fuel) i buf (omega arith)) b
  ]

  old_or_here :
      (buf : List ℕ) (i j : ℕ)
      → IsBuffer buf (length code)
      → i < length code
      → is_set (marked i buf) j ≡ true
      → (is_set buf j ≡ true) ⊎ ((i ≡ j) × (get_or code i 0 ≡ 0x5b))
  old_or_here buf i j h lt m = ground (arith, is_set-marked buf i j h lt)

  Found : ℕ → List ℕ → ℕ → Type 0
  Found i buf j =
      (is_set buf j ≡ true) ⊎ (Walk code i j × (j < length code) × (get_or code j 0 ≡ 0x5b))

  scan_sound :
      (fuel i : ℕ) (buf : List ℕ) (j : ℕ)
      → IsBuffer buf (length code)
      → is_set (scan fuel code i buf) j ≡ true
      → Found i buf j
  unfolding Found
  scan_sound zero i buf j h b = inl (unfold scan in b)
  scan_sound (suc fuel) i buf j h b = elim (dec_lt i (length code)) [
    | yes lt ↦ extend lt (
        scan_sound fuel _ (marked i buf) j (marked-IsBuffer buf i h lt)
          (rw (scan-suc fuel i buf lt) at b))
    | no ge ↦ inl (rw (scan_end (suc fuel) i buf (omega arith)) at b)
  ]
    where
      extend :
          i < length code → Found (i + width (get_or code i 0)) (marked i buf) j → Found i buf j
      extend lt (inr (w, inside, op)) =
          inr
            (over lt (subst (λ n. Walk code (i + n) j) (width-instruction_length _) w), inside, op)
      extend lt (inl m) = elim (old_or_here buf i j h lt m) [
        | inl old ↦ inl old
        | inr (e, op) ↦ inr (
          subst (Walk code i) e here,
          subst (λ k. k < length code) e lt,
          subst (λ k. get_or code k 0 ≡ 0x5b) e op,
        )
      ]

  scan_complete :
      (fuel i : ℕ) (buf : List ℕ) (j : ℕ)
      → IsBuffer buf (length code)
      → Walk code i j
      → j < length code
      → get_or code j 0 ≡ 0x5b
      → length code ≤ i + fuel
      → is_set (scan fuel code i buf) j ≡ true
  scan_complete zero i buf j h w inside op enough = absurd (omega (arith, Walk-le w))
  scan_complete (suc fuel) i buf j h here inside op enough = rw (scan-suc fuel i buf inside) (
      scan_mono fuel _ (marked i buf) i (marked-IsBuffer buf i h inside)
        (ground (arith, is_set-marked buf i i h inside)))
  scan_complete (suc fuel) i buf j h (over lt w) inside op enough = rw (scan-suc fuel i buf lt) (
      scan_complete fuel _ (marked i buf) j (marked-IsBuffer buf i h lt)
        (subst (λ n. Walk code (i + n) j) (sym (width-instruction_length _)) w) inside op
        (omega (arith, width_pos (get_or code i 0))))

  zeros-IsBuffer : (n : ℕ) → IsBuffer (replicate (n / 8 + 1) 0) n
  zeros-IsBuffer n = record {
    bytes = λ k. omega (arith, zeros (n / 8 + 1) k);
    long = let z : ℕ = 0 in omega (arith, length-replicate (n / 8 + 1) z);
  }

  is_set-zeros : (n j : ℕ) → is_set (replicate n 0) j ≡ false
  unfolding is_set
  is_set-zeros n j = rw (zeros n (j / 8)) (ap not (every-at _ 8 (j % 8) zero_table (omega arith)))

  -- The bitmap of a contract's code marks exactly the JUMPDEST instructions that are reached by
  -- reading the code from its start, one instruction after another.
  pub set_code_iff : (dest : ℕ) → (is_set (set_code code) dest ≡ true) ↔ IsJumpdest code dest
  unfolding set_code Found
  set_code_iff dest = (sound, complete)
    where
      found : Found 0 (replicate (length code / 8 + 1) 0) dest → IsJumpdest code dest
      found (inl b) = cc (is_set-zeros (length code / 8 + 1) dest)
      found (inr (w, inside, op)) = record { start = w; inside = inside; opcode = op }

      sound : is_set (set_code code) dest ≡ true → IsJumpdest code dest
      sound b = found (scan_sound (length code) 0 _ dest (zeros-IsBuffer (length code)) b)

      complete : IsJumpdest code dest → is_set (set_code code) dest ≡ true
      complete d =
          scan_complete (length code) 0 _ dest (zeros-IsBuffer (length code)) d.start d.inside
            d.opcode (omega arith)
