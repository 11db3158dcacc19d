-- ===== src/Types/Bloom/Filter.antt =====
-- The bits of a filter of types/receipt.go.
use dogesyncer.Prelude.{
  ℕ, zero, suc, ◌-◌, ◌/◌, ◌%◌, ◌^◌, ◌<◌, ◌≡◌, refl, ◌∙◌, Bool, true, false, not, ◌||◌, List, [],
  ◌∷◌, ◌==◌, length, get_or, replicate, bit_and, bit_or, arith, length-set, length-replicate, every,
  every-at,
}
use dogesyncer.Prelude.Bits.{get_or-set, bit_test, bit_or_test, bit_or-lt}
use dogesyncer.Types.Bloom.{
  BloomLog, bloom_bit, set_bloom_bit, set_encode, encode_topics, encode_logs, encode_receipts,
  create_bloom, tested_mask, is_bit_present, is_byte_arr_present, is_log_in_bloom,
}

-- A filter has 256 bytes.
record IsFilter (b : List ℕ) : Type 0 where
  size : length b ≡ 256
  byte : (i : ℕ) → get_or b i 0 < 256

unfoldable pub has_bit : List ℕ → ℕ → Bool
unfolding bit_test
has_bit b j = bit_test (get_or b (255 - j / 8) 0) (j % 8)

set_bloom_bit-IsFilter : (b : List ℕ) (bit : ℕ) → IsFilter b → IsFilter (set_bloom_bit b bit)
unfolding set_bloom_bit
set_bloom_bit-IsFilter b bit f =
    let i : ℕ = 255 - bit / 8 in
    let v : ℕ = bit_or (get_or b i 0) (2 ^ (bit % 8)) in
    record {
      size = length-set b i v ∙ f.size;
      byte = λ k. ground (
        arith,
        get_or-set b i k v (omega (arith, f.size)),
        f.byte k,
        bit_or-lt (get_or b i 0) (bit % 8) (f.byte i) (omega arith),
      );
    }

has_bit-set :
    (b : List ℕ) (bit j : ℕ)
    → IsFilter b
    → bit < 2048
    → j < 2048
    → has_bit (set_bloom_bit b bit) j ≡ (bit == j || has_bit b j)
unfolding set_bloom_bit has_bit
has_bit-set b bit j f h g =
    let i : ℕ = 255 - bit / 8 in
    let inside : i < length b = omega (arith, f.size) in
    ground (
      arith,
      get_or-set b i (255 - j / 8) (bit_or (get_or b i 0) (2 ^ (bit % 8))) inside,
      bit_or_test (get_or b i 0) (bit % 8) (j % 8) (f.byte i) (omega arith) (omega arith),
    )

get_or-replicate : (n i : ℕ) → ◌≡◌ {A = ℕ} (get_or (replicate n 0) i 0) 0
get_or-replicate zero i = refl
get_or-replicate (suc n) zero = refl
get_or-replicate (suc n) (suc i) = get_or-replicate n i

blank-IsFilter : IsFilter (replicate 256 0)
blank-IsFilter = record {
  size = length-replicate {A = ℕ} 256 0;
  byte = λ i. omega (arith, get_or-replicate 256 i);
}

blank_bits : every (λ k. not (bit_test 0 k)) 8 ≡ true
unfolding every bit_test
blank_bits = refl

has_bit_blank : (j : ℕ) → has_bit (replicate 256 0) j ≡ false
unfolding has_bit
has_bit_blank j =
    let dark = every-at _ 8 (j % 8) blank_bits (omega arith) in
    rw (get_or-replicate 256 (255 - j / 8)) (ground arith)

blank_mask : every (λ b. bit_and b 0 == 0) 256 ≡ true
unfolding every
blank_mask = refl

module _ (keccak : List ℕ → List ℕ) where
  -- Whether a string of bytes has the bit.
  unfoldable pub marks : List ℕ → ℕ → Bool
  unfolding bloom_bit
  marks h j =
      bloom_bit (keccak h) 4 == j || (bloom_bit (keccak h) 2 == j || bloom_bit (keccak h) 0 == j)

  unfoldable pub topics_mark : List (List ℕ) → ℕ → Bool
  unfolding marks
  topics_mark [] j = false
  topics_mark (topic ∷ rest) j = marks topic j || topics_mark rest j

  unfoldable pub logs_mark : List BloomLog → ℕ → Bool
  unfolding marks topics_mark
  logs_mark [] j = false
  logs_mark (log ∷ rest) j = marks log.address j || topics_mark log.topics j || logs_mark rest j

  unfoldable pub receipts_mark : List (List BloomLog) → ℕ → Bool
  unfolding logs_mark
  receipts_mark [] j = false
  receipts_mark (logs ∷ rest) j = logs_mark logs j || receipts_mark rest j

  -- A filter with some bits more.
  record Marked (b : List ℕ) (added : ℕ → Bool) (c : List ℕ) : Type 0 where
    filter : IsFilter c
    bits : (j : ℕ) → j < 2048 → has_bit c j ≡ (added j || has_bit b j)

  bloom_bit_lt : (buf : List ℕ) (i : ℕ) → bloom_bit buf i < 2048
  unfolding bloom_bit
  bloom_bit_lt buf i = omega arith

  set_encode-Marked : (b h : List ℕ) → IsFilter b → Marked b (marks h) (set_encode keccak b h)
  unfolding set_encode marks
  set_encode-Marked b h f =
      let x : ℕ = bloom_bit (keccak h) 0 in
      let y : ℕ = bloom_bit (keccak h) 2 in
      let z : ℕ = bloom_bit (keccak h) 4 in
      let one = set_bloom_bit-IsFilter b x f in
      let two = set_bloom_bit-IsFilter (set_bloom_bit b x) y one in
      record {
        filter = set_bloom_bit-IsFilter (set_bloom_bit (set_bloom_bit b x) y) z two;
        bits = λ j g. ground (
          arith,
          has_bit-set b x j f (bloom_bit_lt (keccak h) 0) g,
          has_bit-set (set_bloom_bit b x) y j one (bloom_bit_lt (keccak h) 2) g,
          has_bit-set (set_bloom_bit (set_bloom_bit b x) y) z j two (bloom_bit_lt (keccak h) 4) g,
        );
      }

  encode_topics-Marked :
      (b : List ℕ) (topics : List (List ℕ))
      → IsFilter b
      → Marked b (topics_mark topics) (encode_topics keccak b topics)
  unfolding encode_topics topics_mark
  encode_topics-Marked b [] f = record { filter = f; bits = λ j g. refl }
  encode_topics-Marked b (topic ∷ rest) f =
      let m = set_encode-Marked b topic f in
      let n = encode_topics-Marked (set_encode keccak b topic) rest m.filter in
      record { filter = n.filter; bits = λ j g. ground (arith, m.bits j g, n.bits j g) }

  encode_logs-Marked :
      (b : List ℕ) (logs : List BloomLog)
      → IsFilter b
      → Marked b (logs_mark logs) (encode_logs keccak b logs)
  unfolding encode_logs logs_mark
  encode_logs-Marked b [] f = record { filter = f; bits = λ j g. refl }
  encode_logs-Marked b (log ∷ rest) f =
      let l = set_encode-Marked b log.address f in
      let m = encode_topics-Marked (set_encode keccak b log.address) log.topics l.filter in
      let n =
        encode_logs-Marked (encode_topics keccak (set_encode keccak b log.address) log.topics) rest
          m.filter in
      record { filter = n.filter; bits = λ j g. ground (arith, l.bits j g, m.bits j g, n.bits j g) }

  encode_receipts-Marked :
      (b : List ℕ) (receipts : List (List BloomLog))
      → IsFilter b
      → Marked b (receipts_mark receipts) (encode_receipts keccak b receipts)
  unfolding encode_receipts receipts_mark
  encode_receipts-Marked b [] f = record { filter = f; bits = λ j g. refl }
  encode_receipts-Marked b (logs ∷ rest) f =
      let m = encode_logs-Marked b logs f in
      let n = encode_receipts-Marked (encode_logs keccak b logs) rest m.filter in
      record { filter = n.filter; bits = λ j g. ground (arith, m.bits j g, n.bits j g) }

  -- A bit of the filter of some receipts is set exactly if it is one of the three bits of the address or
  -- a topic of one of their logs.
  pub create_bloom-marks :
      (receipts : List (List BloomLog)) (j : ℕ)
      → j < 2048
      → has_bit (create_bloom keccak receipts) j ≡ receipts_mark receipts j
  unfolding create_bloom
  create_bloom-marks receipts j g = ground (
    arith,
    (encode_receipts-Marked (replicate 256 0) receipts blank-IsFilter).bits j g,
    has_bit_blank j,
  )

  -- The filter of any receipts, also of those of the log itself, does not show a log whose address has
  -- the lowest bit of a byte as its first bit.
  pub is_log_in_bloom_missed :
      (receipts : List (List BloomLog)) (log : BloomLog)
      → bloom_bit (keccak log.address) 0 % 8 ≡ 0
      → is_log_in_bloom keccak (create_bloom keccak receipts) log ≡ false
  unfolding is_log_in_bloom is_byte_arr_present is_bit_present tested_mask create_bloom
  is_log_in_bloom_missed receipts log e =
      let f = (encode_receipts-Marked (replicate 256 0) receipts blank-IsFilter).filter in
      let i : ℕ = 256 - 1 - bloom_bit (keccak log.address) 0 / 8 in
      let dark =
        every-at _ 256 (get_or (encode_receipts keccak (replicate 256 0) receipts) i 0) blank_mask
          (f.byte i) in
      rw e (ground (arith, dark))
