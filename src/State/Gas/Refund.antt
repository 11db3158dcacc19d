-- ===== src/State/Gas/Refund.antt =====
-- state/runtime/runtime.go: `UpdateGasUsed` splits the gas limit between the sender and the coinbase.
use dogesyncer.Prelude.{ℕ, ◌+◌, ◌*◌, ◌^◌, ◌≤◌, ◌<◌, ◌≡◌, arith}
use dogesyncer.Runtime.{ExecutionResult, update_gas_used}

-- If the gas left is at most the limit, a uint64, then the gas left and the gas used after
-- UpdateGasUsed add up to the limit, no gas left is lost, and at least half of what the execution
-- used stays used, whatever the refund.
pub update_gas_used-conserves :
    (r : ExecutionResult) (gas_limit refund : ℕ)
    → r.gas_left ≤ gas_limit
    → gas_limit < 2 ^ 64
    → ((update_gas_used r gas_limit refund).gas_left + (update_gas_used r gas_limit refund).gas_used
        ≡ gas_limit)
      × (r.gas_left ≤ (update_gas_used r gas_limit refund).gas_left)
      × (gas_limit ≤ r.gas_left + 2 * (update_gas_used r gas_limit refund).gas_used)
unfolding update_gas_used
update_gas_used-conserves r gas_limit refund h lt = (ground arith, ground arith, ground arith)
