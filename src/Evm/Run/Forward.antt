-- ===== src/Evm/Run/Forward.antt =====
-- state/runtime/evm/instructions.go: the gas of `buildCallContract` from EIP-150 on. Its uint64
-- subtraction wraps when the fee is not covered; the charge then fails, so that what the callee gets
-- has always been paid for.
use dogesyncer.Prelude.{
  ℕ, ◌+◌, ◌%◌, ◌^◌, ◌≤◌, ◌<◌, ◌≡◌, true, Option, List, arith, ltb, not, ◌||◌, if◌then◌else◌,
}
use dogesyncer.Runtime.{CallType}
use dogesyncer.Evm.State.{State, Env, next, ◌>>=◌, gets, pure, consume_gas, is_uint64}
use dogesyncer.Evm.Ops.Call.{
  Built, transfers_value, call_cost, available_gas, forwarded_gas, charge_call,
}

module _ {W : Type 0} (e : Env W) where
  -- From EIP-150 on the fee is between 700 and 34700, and at least 9700 where value goes along.
  call_cost_bounds :
      (typ : CallType) (addr : ℕ) (value : Option ℕ) (s : State W)
      → e.config.eip150 ≡ true
      → (700 ≤ call_cost e typ addr value s)
        × (call_cost e typ addr value s ≤ 34700)
        × (transfers_value value ≡ true → 9700 ≤ call_cost e typ addr value s)
  unfolding call_cost
  call_cost_bounds typ addr value s h = ground arith

  abbrev forwarded : ℕ → ℕ → ℕ → ℕ
  forwarded initial gas cost =
      if not (is_uint64 initial) || ltb (available_gas e gas cost) initial
      then available_gas e gas cost
      else initial

  -- Where the charge passes, nothing has wrapped.
  charge_exact :
      (initial gas cost : ℕ)
      → gas < 2 ^ 64
      → 700 ≤ cost
      → cost ≤ 34700
      → (cost + forwarded initial gas cost) % 2 ^ 64 ≤ gas
      → (cost + forwarded initial gas cost) % 2 ^ 64 ≡ cost + forwarded initial gas cost
  unfolding available_gas
  charge_exact initial gas cost g lo hi fits = ground arith

  -- From EIP-150 on, with less than 2^64 gas: where `buildCallContract` returns a contract, the gas
  -- that is left and the gas of that contract are together less than what there was.
  pub charge_call_paid :
      (typ : CallType) (initial addr : ℕ) (value : Option ℕ) (args : List ℕ) (o n : ℕ) (s : State W)
      (b : Built)
      → e.config.eip150 ≡ true
      → s.gas < 2 ^ 64
      → (charge_call e typ initial addr value args o n s).0 ≡ next b
      → (charge_call e typ initial addr value args o n s).1.gas + b.contract.gas < s.gas
  unfolding charge_call ◌>>=◌ gets forwarded_gas consume_gas pure
  charge_call_paid typ initial addr value args o n s b fork g done = ground (
    arith,
    call_cost_bounds typ addr value s fork,
    charge_exact initial s.gas (call_cost e typ addr value s) g,
  )
