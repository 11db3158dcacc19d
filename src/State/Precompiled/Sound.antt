-- ===== src/State/Precompiled/Sound.antt =====
-- The precompiled contracts keep what a transition asks of its runtimes.
use dogesyncer.Prelude.{
  ℕ, ◌-◌, ◌≤◌, refl, Option, none, some, List, ltb, arith, Bool-cases, inl, inr,
}
use dogesyncer.Chain.Forks.{ForksInTime}
use dogesyncer.Runtime.{Contract, Error}
use dogesyncer.Evm.Engine.Sound.{IsSound}
use dogesyncer.State.Precompiled.{
  Library, gas_of, output_of, finished, run_precompiled, precompiled,
}

module _ (l : Library) where
  finished-gas_le : (gas : ℕ) (o : List ℕ × Option Error) → (finished l gas o).gas_left ≤ gas
  unfolding finished
  finished-gas_le gas (out, none) = omega arith
  finished-gas_le gas (out, some x) = omega arith

  run_precompiled-gas_le :
      (c : Contract) (config : ForksInTime) → (run_precompiled l c config).gas_left ≤ c.gas
  unfolding run_precompiled
  run_precompiled-gas_le c config =
      let cost = gas_of c.code_address c.input config in
      let le = finished-gas_le (c.gas - cost) (output_of l c.code_address c.input) in
      elim (Bool-cases (ltb c.gas cost)) [
        | inl poor ↦ rw poor (omega arith)
        | inr rich ↦ rw rich (omega (arith, le))
      ]

  -- The runtime of the precompiled contracts gives back no more gas than it was given, and neither
  -- reads nor changes the host's state, whatever the cryptographic packages compute.
  pub precompiled-IsSound : {W : Type 0} → IsSound (precompiled l {W = W})
  unfolding precompiled
  precompiled-IsSound = record {
    gas_le = λ h c f w fork frugal g. run_precompiled-gas_le c f;
    steady = λ R h c f w s. s.order.rfl w;
    quiet = λ Same h c f w q static. q.same_refl w;
    nested = λ h callx c f w agree. refl;
  }
