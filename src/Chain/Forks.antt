-- ===== src/Chain/Forks.antt =====
-- chain/params.go: `Fork`, `Forks` and `ForksInTime`. A fork that is not configured is `none`.
use dogesyncer.Prelude.{ℕ, Bool, true, false, Option, none, some, leb, ◌==◌, ◌≤◌, ◌≡◌, ◌↔◌, arith}

-- A fork is the height of its first block.
abbrev pub Fork : Type 0
Fork = ℕ

pub record Forks : Type 0 where
  pub homestead : Option Fork
  pub byzantium : Option Fork
  pub constantinople : Option Fork
  pub petersburg : Option Fork
  pub istanbul : Option Fork
  pub eip150 : Option Fork
  pub eip158 : Option Fork
  pub eip155 : Option Fork
  pub preportland : Option Fork
  pub portland : Option Fork
  pub detroit : Option Fork

pub record ForksInTime : Type 0 where
  pub homestead : Bool
  pub byzantium : Bool
  pub constantinople : Bool
  pub petersburg : Bool
  pub istanbul : Bool
  pub eip150 : Bool
  pub eip158 : Bool
  pub eip155 : Bool
  pub preportland : Bool
  pub portland : Bool
  pub detroit : Bool

-- `Fork.On` and `Fork.Active`
fork_on : Fork → ℕ → Bool
fork_on f block = block == f

fork_active : Fork → ℕ → Bool
fork_active f block = leb f block

-- `Forks.on` and `Forks.active`: a nil fork never starts
unfoldable pub on : Option Fork → ℕ → Bool
unfolding fork_on
on none block = false
on (some f) block = fork_on f block

unfoldable pub active : Option Fork → ℕ → Bool
unfolding fork_active
active none block = false
active (some f) block = fork_active f block

unfoldable pub at : Forks → ℕ → ForksInTime
at f block = record {
  homestead = active f.homestead block;
  byzantium = active f.byzantium block;
  constantinople = active f.constantinople block;
  petersburg = active f.petersburg block;
  istanbul = active f.istanbul block;
  eip150 = active f.eip150 block;
  eip158 = active f.eip158 block;
  eip155 = active f.eip155 block;
  preportland = active f.preportland block;
  portland = active f.portland block;
  detroit = active f.detroit block;
}

-- A fork is active at a block exactly if it is on at that block or at an earlier one.
pub active-on :
    (f : Option Fork) (m : ℕ) → (active f m ≡ true) ↔ ((n : ℕ) × (n ≤ m) × (on f n ≡ true))
unfolding active on
active-on none m = (λ a. cc, λ (n, h, a). cc)
active-on (some f) m = (λ a. (f, ground arith, ground arith), λ (n, h, a). ground arith)
