-- ===== src/State/Precompiled.antt =====
-- state/runtime/precompiled: the precompiled contracts as a runtime (precompiled.go) with their gas
-- (base.go, bn256.go, blake2f.go). What the hashes, the signatures and the curves compute is taken from
-- cryptographic packages and is a parameter, as is the compression of blake2f.
pub mod ModExp
pub mod Sound
pub mod Power
mod Tests
use dogesyncer.Prelude.{
  ℕ, ◌+◌, ◌-◌, ◌*◌, ◌/◌, ◌%◌, ◌^◌, Bool, true, false, Option, none, some, List, [], take, length,
  ltb, leb, ◌==◌, ◌&&◌, not, if◌then◌else◌,
}
use dogesyncer.Chain.Forks.{ForksInTime}
use dogesyncer.Runtime.{out_of_gas, runtime_panic, Contract, ExecutionResult, Runtime, Host, Error}
use dogesyncer.Evm.State.Bytes.{from_bytes}
use dogesyncer.State.Precompiled.ModExp.{mod_exp_gas, mod_exp_run}

-- What `run` of the contracts returns whose work is done by other packages, by their address, and the
-- error where it fails.
pub record Library : Type 0 where
  pub run : ℕ → List ℕ → List ℕ × Option Error

unfoldable pub base_gas_calc : List ℕ → ℕ → ℕ → ℕ
base_gas_calc input base word = (base + (length input + 31) / 32 * word) % 2 ^ 64

unfoldable pub pairing_gas : List ℕ → Bool → ℕ
pairing_gas input istanbul =
    (if istanbul then 45000 else 100000)
    + (if istanbul then 34000 else 80000) * (length input / 192)

unfoldable pub blake2f_gas : List ℕ → ℕ
blake2f_gas input = if length input == 213 then from_bytes (take 4 input) else 0

-- `gas` of the contract at an address, in the order of the addresses
unfoldable pub gas_of : ℕ → List ℕ → ForksInTime → ℕ
unfolding base_gas_calc pairing_gas blake2f_gas
gas_of addr input config =
    if addr == 1
    then 3000
    else if addr == 2
    then base_gas_calc input 60 12
    else if addr == 3
    then base_gas_calc input 600 120
    else if addr == 4
    then base_gas_calc input 15 3
    else if addr == 5
    then mod_exp_gas input
    else if addr == 6
    then (if config.istanbul then 150 else 500)
    else if addr == 7
    then (if config.istanbul then 6000 else 40000)
    else if addr == 8
    then pairing_gas input config.istanbul
    else blake2f_gas input

module _ (l : Library) where
  -- A panic of the contract for powers is an error of its own here, on which the frame that made the call
  -- panics; the source has no result then.
  unfoldable pub power_output : Option (List ℕ) → List ℕ × Option Error
  power_output none = ([], some runtime_panic)
  power_output (some out) = (out, none)

  unfoldable pub output_of : ℕ → List ℕ → List ℕ × Option Error
  unfolding mod_exp_run power_output
  output_of addr input =
      if addr == 4
      then (input, none)
      else if addr == 5
      then power_output (mod_exp_run input)
      else l.run addr input

  unfoldable pub can_run : Contract → ForksInTime → Bool
  can_run c config =
      if leb 1 c.code_address && leb c.code_address 9
      then (if leb 5 c.code_address && leb c.code_address 8
          then config.byzantium
          else if c.code_address == 9
          then config.istanbul
          else true)
      else false

  -- The end of `Run`: where the contract fails, it leaves no gas and no output.
  unfoldable pub finished : ℕ → List ℕ × Option Error → ExecutionResult
  finished gas (out, none) = record { return_value = out; gas_left = gas; gas_used = 0; err = none }
  finished gas (out, some x) = record {
    return_value = [];
    gas_left = 0;
    gas_used = 0;
    err = some x;
  }

  unfoldable pub run_precompiled : Contract → ForksInTime → ExecutionResult
  unfolding finished gas_of output_of
  run_precompiled c config =
      let cost = gas_of c.code_address c.input config in
      if ltb c.gas cost
      then record { return_value = []; gas_left = 0; gas_used = 0; err = some out_of_gas }
      else finished (c.gas - cost) (output_of c.code_address c.input)

  -- `Precompiled`
  unfoldable pub precompiled : {W : Type 0} → Runtime W
  unfolding can_run run_precompiled
  precompiled = record { can_run = can_run; run = λ h c config w. (run_precompiled c config, w) }
