-- ===== src/Chain/Tests.antt =====
-- The forks of a concrete chain.
use dogesyncer.Prelude.{ℕ, true, some, ◌≡◌, ◌≤◌, ◌↔◌}
use dogesyncer.Chain.Forks.{active, on, active-on}

active-on_example : (active (some 5) 9 ≡ true) ↔ ((n : ℕ) × (n ≤ 9) × (on (some 5) n ≡ true))
active-on_example = active-on (some 5) 9
