-- ===== src/Types/Bloom/Tests.antt =====
-- The filter at concrete logs.
use dogesyncer.Prelude.{ℕ, ◌%◌, ◌≡◌, refl, false, List, [], ◌∷◌, arith}
use dogesyncer.Types.Bloom.{BloomLog, bloom_bit, create_bloom, is_log_in_bloom}
use dogesyncer.Types.Bloom.Filter.{
  has_bit, receipts_mark, create_bloom-marks, is_log_in_bloom_missed,
}

-- The bits 8, 17 and 2047.
abbrev test_keccak : List ℕ → List ℕ
test_keccak h = 0 ∷ 8 ∷ 0 ∷ 17 ∷ 7 ∷ 255 ∷ []

abbrev test_log : BloomLog
test_log = record { address = 1 ∷ []; topics = [] }

create_bloom-marks_example :
    has_bit (create_bloom test_keccak ((test_log ∷ []) ∷ [])) 17
    ≡ receipts_mark test_keccak ((test_log ∷ []) ∷ []) 17
create_bloom-marks_example = create_bloom-marks test_keccak ((test_log ∷ []) ∷ []) 17 (omega arith)

test_log_bit : bloom_bit (test_keccak test_log.address) 0 % 8 ≡ 0
unfolding bloom_bit
test_log_bit = refl

is_log_in_bloom_missed_example :
    is_log_in_bloom test_keccak (create_bloom test_keccak ((test_log ∷ []) ∷ [])) test_log ≡ false
is_log_in_bloom_missed_example =
    is_log_in_bloom_missed test_keccak ((test_log ∷ []) ∷ []) test_log test_log_bit
