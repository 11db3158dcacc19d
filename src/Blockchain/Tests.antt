-- ===== src/Blockchain/Tests.antt =====
-- The gas limit of concrete blocks.
use dogesyncer.Prelude.{◌+◌, ◌/◌, ◌≤◌, ◌≡◌, arith}
use dogesyncer.Blockchain.GasLimit.{
  calculate_gas_limit, calculate_gas_limit-bounds, gas_limit_after, gas_limit_after-target,
}

calculate_gas_limit-bounds_example :
    (calculate_gas_limit 30000000 8000000 ≤ 8000000 + 8000000 / 1024)
    × (8000000 ≤ calculate_gas_limit 30000000 8000000 + 8000000 / 1024)
calculate_gas_limit-bounds_example = calculate_gas_limit-bounds 30000000 8000000 (omega arith)

gas_limit_after-target_example : gas_limit_after 30000000 20000000 513 ≡ 30000000
gas_limit_after-target_example =
    gas_limit_after-target 30000000 20000000 513 (omega arith) (omega arith) (omega arith)
