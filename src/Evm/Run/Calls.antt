-- ===== src/Evm/Run/Calls.antt =====
-- Gas of the instructions that call the host: a call and a creation take more than they give back,
-- where the host's `Callx` gives back at most the gas of the contract.
use dogesyncer.Prelude.{
  ℕ, ◌+◌, ◌^◌, ◌≤◌, ◌<◌, ◌≡◌, refl, true, false, Option, List, arith, ◌⊎◌, inl, inr,
}
use dogesyncer.Runtime.{CallType, Contract, Host}
use dogesyncer.Evm.State.{
  State, Env, Act, Outcome, next, returned, panicked, continue, ◌>>=◌, push, add_gas,
  set_return_data, done, panic,
}
use dogesyncer.Evm.State.Memory.{write_slice}
use dogesyncer.Evm.State.Keeps.{Keeps, is_early, Keeps-pop, Keeps-get2, Keeps-extend_memory}
use dogesyncer.Evm.Ops.Passive.{Keeps-pop_value}
use dogesyncer.Evm.Ops.Call.{
  Built, callx, make_call, finish_call, build_with, build_call_contract, charge_call,
}
use dogesyncer.Evm.Run.Spends.{Spend, Spend-Passive}
use dogesyncer.Evm.Run.Forward.{charge_call_paid}

-- `Callx` gives back at most the gas that it was given, a uint64.
pub record Frugal {W : Type 0} (h : Host W) : Type 0 where
  pub callx_le : (w : W) (c : Contract) → c.gas < 2 ^ 64 → (h.callx w c).0.gas_left ≤ c.gas

-- An action that takes gas, or ends the run.
pub record Costs {W A : Type 0} (m : Act W A) : Type 0 where
  pub at :
      (s : State W)
      → s.gas < 2 ^ 64
      → ((m s).0 ≡ panicked) ⊎ ((m s).1.stop ≡ true) ⊎ ((m s).1.gas < s.gas)

-- An action that has paid for the gas of the contract that it makes, and a fee of at least `k`.
pub record Pays {W A : Type 0} (k : ℕ) (given : A → ℕ) (m : Act W A) : Type 0 where
  pub at :
      (s : State W) (a : A) → s.gas < 2 ^ 64 → (m s).0 ≡ next a → (m s).1.gas + given a + k ≤ s.gas

-- An action that gives back at most `n` gas, and does not return early.
pub record Refunds {W : Type 0} (n : ℕ) (m : Act W (Unit {0})) : Type 0 where
  pub le : (s : State W) → n < 2 ^ 64 → (m s).1.gas ≤ s.gas + n
  pub stops : (s : State W) → s.stop ≡ true → (m s).1.stop ≡ true
  pub goes_on : (s : State W) → is_early (m s).0 ≡ false

module _ {W A B : Type 0} {fee : ℕ} {given : B → ℕ} where
  Pays-continue :
      (r : Outcome A) (f : A → Act W B) (s t : State W) (b : B)
      → ((a : A) → Pays fee given (f a))
      → s.gas < 2 ^ 64
      → t.gas ≤ s.gas
      → (continue r f t).0 ≡ next b
      → (continue r f t).1.gas + given b + fee ≤ s.gas
  Pays-continue (next a) f s t b k g h e = omega (arith, (k a).at t b (omega arith) e)
  Pays-continue returned f s t b k g h e = cc
  Pays-continue panicked f s t b k g h e = cc

  pub Pays-bind :
      (m : Act W A) (f : A → Act W B)
      → Keeps Spend m
      → ((a : A) → Pays fee given (f a))
      → Pays fee given (m >>= f)
  unfolding ◌>>=◌
  Pays-bind m f km k = record {
    at = λ s b g. Pays-continue (m s).0 f s (m s).1 b k g ((km.at s).le g);
  }

weaken :
    {W : Type 0} (fee : ℕ) (r : Outcome (Unit {0})) (s t : State W)
    → 0 < fee
    → (r ≡ panicked) ⊎ (t.stop ≡ true) ⊎ (t.gas + fee ≤ s.gas)
    → (r ≡ panicked) ⊎ (t.stop ≡ true) ⊎ (t.gas < s.gas)
weaken fee r s t h (inl x) = inl x
weaken fee r s t h (inr (inl x)) = inr (inl x)
weaken fee r s t h (inr (inr x)) = inr (inr (omega arith))

module _ {W A : Type 0} (fee : ℕ) (given : A → ℕ) where
  paid_continue :
      (r : Outcome A) (f : A → Act W Unit) (s t : State W)
      → ((a : A) → Refunds (given a) (f a))
      → Spend s (is_early r) t
      → (s.gas < 2 ^ 64 → (a : A) → r ≡ next a → t.gas + given a + fee ≤ s.gas)
      → Spend s (is_early (continue r f t).0) (continue r f t).1
        × (s.gas < 2 ^ 64
            → ((continue r f t).0 ≡ panicked)
              ⊎ ((continue r f t).1.stop ≡ true)
              ⊎ ((continue r f t).1.gas + fee ≤ s.gas))
  paid_continue (next a) f s t k h p = (
    record {
      le = λ g. omega (arith, p g a refl, (k a).le t (omega (arith, p g a refl)));
      stops = λ x. (k a).stops t (h.stops x);
      ends = λ x. cc ((k a).goes_on t);
    },
    λ g. inr (inr (omega (arith, p g a refl, (k a).le t (omega (arith, p g a refl))))),
  )
  paid_continue returned f s t k h p = (h, λ g. inr (inl (h.ends refl)))
  paid_continue panicked f s t k h p = (h, λ g. inl refl)

  -- A paid contract and its call together keep `Spend`, and cost gas where there is a fee.
  pub paid_call :
      (m : Act W A) (f : A → Act W Unit)
      → Keeps Spend m
      → Pays fee given m
      → ((a : A) → Refunds (given a) (f a))
      → Keeps Spend (m >>= f) × (0 < fee → Costs (m >>= f))
  unfolding ◌>>=◌
  paid_call m f km pm k = (
    record { at = λ s. (paid_continue (m s).0 f s (m s).1 k (km.at s) (λ g a. pm.at s a g)).0 },
    λ h. record {
      at = λ s g.
          weaken fee (continue (m s).0 f (m s).1).0 s (continue (m s).0 f (m s).1).1 h
            ((paid_continue (m s).0 f s (m s).1 k (km.at s) (λ g a. pm.at s a g)).1 g);
    },
  )

module _ {W : Type 0} (e : Env W) (frugal : Frugal e.host) where
  pub Refunds-finish_call : (b : Built) → Refunds b.contract.gas (finish_call e b)
  unfolding finish_call make_call callx push write_slice panic done add_gas set_return_data ◌>>=◌
  Refunds-finish_call b = record {
    le = λ s g. ground (arith, frugal.callx_le s.world b.contract g);
    stops = λ s h. ground arith;
    goes_on = λ s. ground arith;
  }

module _ {W : Type 0} (e : Env W) (fork : e.config.eip150 ≡ true) where
  Pays-charge_call :
      (typ : CallType) (initial addr : ℕ) (value : Option ℕ) (args : List ℕ) (o n : ℕ)
      → Pays 1 (λ b. b.contract.gas) (charge_call e typ initial addr value args o n)
  Pays-charge_call typ initial addr value args o n = record {
    at = λ s b g h. omega (arith, charge_call_paid e typ initial addr value args o n s b fork g h);
  }

  pub Pays-build_call_contract :
      (typ : CallType) → Pays 1 (λ b. b.contract.gas) (build_call_contract e typ)
  unfolding build_call_contract build_with
  Pays-build_call_contract typ =
      search
        (
          Pays-bind, Spend-Passive, Keeps-pop, Keeps-pop_value, Keeps-get2, Keeps-extend_memory,
          Pays-charge_call,
        )
        depth 14
