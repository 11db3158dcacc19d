-- ===== src/Types/Bloom.antt =====
-- types/receipt.go: the Bloom filter of the logs of a block, 256 bytes. The hash is a parameter; `& 2047`
-- is the rest by 2048.
pub mod Filter
mod Tests
use dogesyncer.Prelude.{
  ℕ, ◌+◌, ◌-◌, ◌*◌, ◌/◌, ◌%◌, ◌^◌, Bool, true, false, not, ◌&&◌, List, [], ◌∷◌, ◌==◌, if◌then◌else◌,
  get_or, set, replicate, bit_and, bit_or,
}

-- The address and the topics of a log.
pub record BloomLog : Type 0 where
  pub address : List ℕ
  pub topics : List (List ℕ)

-- The bit for two bytes of a hash.
unfoldable pub bloom_bit : List ℕ → ℕ → ℕ
bloom_bit buf i = (get_or buf (i + 1) 0 + get_or buf i 0 * 256) % 2048

unfoldable pub set_bloom_bit : List ℕ → ℕ → List ℕ
set_bloom_bit b bit =
    set b (256 - 1 - bit / 8) (bit_or (get_or b (256 - 1 - bit / 8) 0) (2 ^ (bit % 8)))

-- The mask of `1 << (bitLocation - 1)` in a byte: for 0 the count wraps around to 2^64 - 1, and no bit is
-- left.
unfoldable pub tested_mask : ℕ → ℕ
tested_mask location = if location == 0 then 0 else 2 ^ (location - 1)

unfoldable pub is_bit_present : List ℕ → ℕ → Bool
unfolding tested_mask
is_bit_present b bit = not (bit_and (get_or b (256 - 1 - bit / 8) 0) (tested_mask (bit % 8)) == 0)

module _ (keccak : List ℕ → List ℕ) where
  unfoldable pub set_encode : List ℕ → List ℕ → List ℕ
  unfolding bloom_bit set_bloom_bit
  set_encode b h =
      let buf = keccak h in
      set_bloom_bit (set_bloom_bit (set_bloom_bit b (bloom_bit buf 0)) (bloom_bit buf 2))
        (bloom_bit buf 4)

  unfoldable pub encode_topics : List ℕ → List (List ℕ) → List ℕ
  unfolding set_encode
  encode_topics b [] = b
  encode_topics b (topic ∷ rest) = encode_topics (set_encode b topic) rest

  unfoldable pub encode_logs : List ℕ → List BloomLog → List ℕ
  unfolding encode_topics set_encode
  encode_logs b [] = b
  encode_logs b (log ∷ rest) =
      encode_logs (encode_topics (set_encode b log.address) log.topics) rest

  unfoldable pub encode_receipts : List ℕ → List (List BloomLog) → List ℕ
  unfolding encode_logs
  encode_receipts b [] = b
  encode_receipts b (logs ∷ rest) = encode_receipts (encode_logs b logs) rest

  -- `CreateBloom`, from the logs of the receipts.
  unfoldable pub create_bloom : List (List BloomLog) → List ℕ
  unfolding encode_receipts
  create_bloom receipts = encode_receipts (replicate 256 0) receipts

  unfoldable pub is_byte_arr_present : List ℕ → List ℕ → Bool
  unfolding bloom_bit is_bit_present
  is_byte_arr_present b h =
      let buf = keccak h in
      is_bit_present b (bloom_bit buf 0)
      && is_bit_present b (bloom_bit buf 2)
      && is_bit_present b (bloom_bit buf 4)

  unfoldable pub are_present : List ℕ → List (List ℕ) → Bool
  unfolding is_byte_arr_present
  are_present b [] = true
  are_present b (topic ∷ rest) = is_byte_arr_present b topic && are_present b rest

  unfoldable pub is_log_in_bloom : List ℕ → BloomLog → Bool
  unfolding is_byte_arr_present are_present
  is_log_in_bloom b log = is_byte_arr_present b log.address && are_present b log.topics
