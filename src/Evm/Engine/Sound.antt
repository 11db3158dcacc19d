-- ===== src/Evm/Engine/Sound.antt =====
-- What a runtime promises its host, and that the machine keeps it.
use dogesyncer.Prelude.{ℕ, suc, ◌^◌, ◌+◌, ◌≤◌, ◌<◌, ◌≡◌, refl, true, Option, none, some, ap}
use dogesyncer.Runtime.{Contract, ExecutionResult, Runtime, Host}
use dogesyncer.Chain.Forks.{ForksInTime}
use dogesyncer.Evm.State.{Env}
use dogesyncer.Evm.Run.{evm_run}
use dogesyncer.Evm.Run.Calls.{Frugal}
use dogesyncer.Evm.Run.Total.{evm_run_total}
use dogesyncer.Evm.Run.Worlds.{Steady, evm_run-steady}
use dogesyncer.Evm.Run.Static.{Quiet, evm_run-static}
use dogesyncer.Evm.Dispatch.Callx.{with_callx}
use dogesyncer.Evm.Run.Nested.{evm_run-nested}
use dogesyncer.Evm.Engine.{or_unfinished, run_evm, evm}

-- A runtime gives back no more gas than the contract has, keeps what its host's operations keep of
-- the state, leaves the state the same for a static contract, and depends on `Callx` only by its
-- answers to contracts that are one deeper.
pub record IsSound {W : Type 0} (r : Runtime W) : Type 1 where
  pub gas_le :
      (h : Host W) (c : Contract) (f : ForksInTime) (w : W)
      → f.eip150 ≡ true
      → Frugal h
      → c.gas < 2 ^ 64
      → (r.run h c f w).0.gas_left ≤ c.gas
  pub steady :
      (R : W → W → Type 0) (h : Host W) (c : Contract) (f : ForksInTime) (w : W)
      → Steady h R
      → R w (r.run h c f w).1
  pub quiet :
      (Same : W → W → Type 0) (h : Host W) (c : Contract) (f : ForksInTime) (w : W)
      → Quiet h Same
      → c.static ≡ true
      → Same w (r.run h c f w).1
  pub nested :
      (h : Host W) (callx : W → Contract → ExecutionResult × W) (c : Contract) (f : ForksInTime)
      (w : W)
      → ((w : W) (inner : Contract) → inner.depth ≡ c.depth + 1 → callx w inner ≡ h.callx w inner)
      → r.run (with_callx h callx) c f w ≡ r.run h c f w

module _ {W : Type 0} (grow_cap : ℕ → ℕ → ℕ) (cap : ℕ) where
  -- What holds of the result wherever the run ends, and of the state where it does not.
  or_unfinished-state :
      (R : W → W → Type 0) (w : W) (o : Option (ExecutionResult × W))
      → R w w
      → ((r : ExecutionResult) (w' : W) → o ≡ some (r, w') → R w w')
      → R w (or_unfinished grow_cap cap w o).1
  unfolding or_unfinished
  or_unfinished-state R w none h k = h
  or_unfinished-state R w (some (r, w')) h k = k r w' refl

  evm-gas_le :
      (h : Host W) (c : Contract) (f : ForksInTime) (w : W)
      → f.eip150 ≡ true
      → Frugal h
      → c.gas < 2 ^ 64
      → (run_evm grow_cap cap h c f w).0.gas_left ≤ c.gas
  unfolding run_evm or_unfinished
  evm-gas_le h c f w fork frugal g =
      let e : Env W = record { host = h; msg = c; config = f; grow_cap = grow_cap } in
      let (r, w', found, le) = evm_run_total e fork frugal w cap g in rw found le

  -- `EVM` keeps what a runtime promises.
  pub evm-IsSound : IsSound (evm {W = W} grow_cap cap)
  unfolding evm run_evm
  evm-IsSound = record {
    gas_le = evm-gas_le;
    steady = λ R h c f w s.
        let e : Env W = record { host = h; msg = c; config = f; grow_cap = grow_cap } in
        or_unfinished-state R w (evm_run (suc c.gas) e w cap) (s.order.rfl w)
          (λ r w'. evm_run-steady e s (suc c.gas) w w' cap r);
    quiet = λ Same h c f w q static.
        let e : Env W = record { host = h; msg = c; config = f; grow_cap = grow_cap } in
        or_unfinished-state Same w (evm_run (suc c.gas) e w cap) (q.same_refl w)
          (λ r w'. evm_run-static e q static (suc c.gas) w w' cap r);
    nested = λ h callx c f w agree.
        let e : Env W = record { host = h; msg = c; config = f; grow_cap = grow_cap } in
        ap (or_unfinished grow_cap cap w) (evm_run-nested e callx agree (suc c.gas) w cap);
  }
