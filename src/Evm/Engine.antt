-- ===== src/Evm/Engine.antt =====
-- state/runtime/evm/evm.go: `EVM` as a runtime. It has the fuel that the gas of the contract calls for.
-- The growth of slices and the capacity of the memory found in the pool are parameters.
pub mod Sound
use dogesyncer.Prelude.{ℕ, suc, true, Option, none, some, []}
use dogesyncer.Runtime.{unfinished, Contract, ExecutionResult, Runtime, Host}
use dogesyncer.Chain.Forks.{ForksInTime}
use dogesyncer.Evm.Run.{evm_run}

module _ {W : Type 0} (grow_cap : ℕ → ℕ → ℕ) (cap : ℕ) where
  unfoldable pub or_unfinished : W → Option (ExecutionResult × W) → ExecutionResult × W
  or_unfinished w none =
      (record { return_value = []; gas_left = 0; gas_used = 0; err = some unfinished }, w)
  or_unfinished w (some r) = r

  unfoldable pub run_evm : Host W → Contract → ForksInTime → W → ExecutionResult × W
  unfolding or_unfinished
  run_evm h c config w = or_unfinished w (
      evm_run (suc c.gas) (record { host = h; msg = c; config = config; grow_cap = grow_cap }) w
        cap)

  -- `CanRun` and `Run`
  unfoldable pub evm : Runtime W
  unfolding run_evm
  evm = record { can_run = λ c config. true; run = run_evm }
