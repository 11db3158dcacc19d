-- ===== src/Blockchain/GasLimit.antt =====
-- blockchain/blockchain.go: `calculateGasLimit`, the gas limit of the next block, which moves towards
-- the target of the configuration. The numbers are uint64.
use dogesyncer.Prelude.{
  ℕ, zero, suc, ◌+◌, ◌-◌, ◌*◌, ◌/◌, ◌%◌, ◌^◌, ◌≤◌, ◌<◌, ◌≡◌, ltb, ◌==◌, if◌then◌else◌, min, max,
  arith,
}
use native.Mathlib.Nat.{suc-mul}

abbrev pub block_gas_target_divisor : ℕ
block_gas_target_divisor = 1024

-- `target` is the configuration's `BlockGasTarget`.
unfoldable pub calculate_gas_limit : ℕ → ℕ → ℕ
calculate_gas_limit target parent =
    let delta = parent * 1 % 2 ^ 64 / block_gas_target_divisor in
    if target == 0
    then parent
    else if parent == target
    then target
    else if ltb parent target
    then min target ((parent + delta) % 2 ^ 64)
    else max target (max ((parent + 2 ^ 64 - delta) % 2 ^ 64) 0)

-- The gas limit a number of blocks later.
unfoldable pub gas_limit_after : ℕ → ℕ → ℕ → ℕ
gas_limit_after target parent zero = parent
gas_limit_after target parent (suc n) = gas_limit_after target (calculate_gas_limit target parent) n

-- How far the limit is from the target.
abbrev pub distance : ℕ → ℕ → ℕ
distance target parent = (target - parent) + (parent - target)

-- Where the parent's limit and a 1024th of it are together a uint64, the limit of the next block
-- differs from the parent's by at most a 1024th of the parent's, in both directions.
pub calculate_gas_limit-bounds :
    (target parent : ℕ)
    → parent + parent / 1024 < 2 ^ 64
    → (calculate_gas_limit target parent ≤ parent + parent / 1024)
      × (parent ≤ calculate_gas_limit target parent + parent / 1024)
unfolding calculate_gas_limit
calculate_gas_limit-bounds target parent h = (ground arith, ground arith)

-- A block moves the limit by a 1024th of the lower one of limit and target at least, and neither over
-- the target nor below that lower one.
closer :
    (target parent k : ℕ)
    → target + target / 1024 < 2 ^ 64
    → parent < 2 ^ 64
    → k ≤ target / 1024
    → k ≤ parent / 1024
    → (calculate_gas_limit target parent < 2 ^ 64)
      × (k ≤ calculate_gas_limit target parent / 1024)
      × (distance target (calculate_gas_limit target parent) ≤ distance target parent - k)
unfolding calculate_gas_limit
closer target parent k ht hp low high = (ground arith, ground arith, ground arith)

reached :
    (target parent k n : ℕ)
    → target + target / 1024 < 2 ^ 64
    → parent < 2 ^ 64
    → k ≤ target / 1024
    → k ≤ parent / 1024
    → distance target parent ≤ n * k
    → gas_limit_after target parent n ≡ target
unfolding gas_limit_after
reached target parent k zero ht hp low high h = omega arith
reached target parent k (suc n) ht hp low high h =
    let (small, low', near) = closer target parent k ht hp low high in
    let more : suc n * k ≡ n * k + k = suc-mul n k in
    reached target (calculate_gas_limit target parent) k n ht small low low' (omega arith)

-- Where a number of blocks times a 1024th (rounded down) of the lower one of limit and target is at
-- least the distance of the limit from the target, the limit is at the target after that many blocks;
-- the limit, and the target with a 1024th of it, are uint64.
pub gas_limit_after-target :
    (target parent n : ℕ)
    → target + target / 1024 < 2 ^ 64
    → parent < 2 ^ 64
    → distance target parent ≤ n * (min target parent / 1024)
    → gas_limit_after target parent n ≡ target
gas_limit_after-target target parent n ht hp h =
    reached target parent (min target parent / 1024) n ht hp (omega arith) (omega arith) h
