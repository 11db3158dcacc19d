-- ===== src/Evm/Run/Total.antt =====
-- Every run of the machine ends: each round of the loop takes gas, or is the last.
use dogesyncer.Prelude.{
  ℕ, zero, suc, ◌-◌, ◌^◌, ◌≤◌, ◌<◌, ◌≡◌, refl, true, Option, none, some, arith, leb, ◌⊎◌, inl, inr,
  get_or,
}
use dogesyncer.Runtime.{Error, ExecutionResult, is_some}
use dogesyncer.Evm.State.{State, Env, Act, Outcome, next, returned, panicked, halt}
use dogesyncer.Evm.State.Keeps.{Keeps, is_early, keeps_rules}
use dogesyncer.Evm.Ops.Flow.{op_push, op_dup, op_swap, op_log}
use dogesyncer.Evm.Dispatch.{
  Handler, arithmetic, ranges, logic, calls, memory_and_storage, context, copies_and_jumps,
  dispatch_table, dispatch,
}
use dogesyncer.Evm.Dispatch.All.{All, nil, cons, All-append, All-register_range, All-find}
use dogesyncer.Evm.Dispatch.Keeps.{Kept-dispatch_table}
use dogesyncer.Evm.Run.{
  settle, attempt, advance, run_handler, step, Ended, ended, run, start, gas_after, result, evm_run,
}
use dogesyncer.Evm.Run.Spends.{
  Spend, Spend-Passive, Spend-op_sstore, Spend-op_self_destruct, Spend-op_log,
}
use dogesyncer.Evm.Run.Calls.{Frugal, Costs}
use dogesyncer.Evm.Run.Costs.{
  costs_rules, Costs-exit, Costs-op_stop, Costs-op_sload, Costs-op_balance, Costs-op_ext_code_size,
  Costs-op_ext_code_hash, Costs-op_ext_code_copy, Costs-op_sstore, Costs-op_self_destruct,
  Costs-op_halt, Spend-op_call, Costs-op_call, Spend-op_create,
}

-- A handler with a fixed fee, or whose instruction takes gas.
Fee : {W : Type 0} → Handler W → Type 0
Fee h = (0 < h.gas) ⊎ Costs h.inst

module _ {W : Type 0} (e : Env W) (fork : e.config.eip150 ≡ true) (frugal : Frugal e.host) where
  fixed : (h : Handler W) → leb 1 h.gas ≡ true → Fee h
  unfolding Fee
  fixed h k = inl (ground arith)

  metered : (h : Handler W) → Costs h.inst → Fee h
  unfolding Fee
  metered h k = inr k

  ruleset fee_rules = (nil, cons, metered, fixed)

  Fee-arithmetic : All Fee (arithmetic e)
  unfolding arithmetic
  Fee-arithmetic = search (fee_rules, Costs-op_stop) depth 30

  Fee-logic : All Fee (logic e)
  unfolding logic
  Fee-logic = search fee_rules depth 30

  Fee-ranges : All Fee (ranges e)
  unfolding ranges
  Fee-ranges =
      All-append Fee
        (All-register_range Fee {factory = op_push} {gas = 3} 32 0x60 1 (λ i. fixed _ refl))
        (All-append Fee
          (All-register_range Fee {factory = op_dup} {gas = 3} 16 0x80 1 (λ i. fixed _ refl))
          (All-append Fee
            (All-register_range Fee {factory = op_swap} {gas = 3} 16 0x90 1 (λ i. fixed _ refl))
            (All-register_range Fee {factory = λ c. op_log e (c - 1)} {gas = 375} 5 0xa0 1
              (λ i. fixed _ refl))))

  Fee-calls : All Fee (calls e)
  unfolding calls
  Fee-calls = search (fee_rules, Costs-op_call e fork frugal, Costs-op_halt) depth 20

  Fee-memory_and_storage : All Fee (memory_and_storage e)
  unfolding memory_and_storage
  Fee-memory_and_storage =
      search (fee_rules, Costs-op_sload, Costs-op_sstore, Costs-op_ext_code_hash) depth 20

  Fee-context : All Fee (context e)
  unfolding context
  Fee-context = search (fee_rules, Costs-op_balance, Costs-op_ext_code_size) depth 30

  Fee-copies_and_jumps : All Fee (copies_and_jumps e)
  unfolding copies_and_jumps
  Fee-copies_and_jumps = search (fee_rules, Costs-op_ext_code_copy, Costs-op_self_destruct) depth 30

  Fee-dispatch_table : All Fee (dispatch_table e)
  unfolding dispatch_table
  Fee-dispatch_table =
      search
        (
          All-append, Fee-arithmetic, Fee-ranges, Fee-logic, Fee-calls, Fee-memory_and_storage,
          Fee-context, Fee-copies_and_jumps,
        )
        depth 12

  Fee-dispatch : (op : ℕ) (h : Handler W) → dispatch e op ≡ some h → Fee h
  unfolding dispatch
  Fee-dispatch op h = All-find Fee op h Fee-dispatch_table

  Spend-dispatch : (op : ℕ) (h : Handler W) → dispatch e op ≡ some h → Keeps Spend h.inst
  unfolding dispatch
  Spend-dispatch op h =
      All-find (λ k. Keeps Spend k.inst) op h
        (Kept-dispatch_table Spend-Passive e (Spend-op_log e) (Spend-op_sstore e)
          (Spend-op_self_destruct e) (Spend-op_create e frugal)
          (λ typ _. Spend-op_call e fork frugal typ))

module _ {W : Type 0} where
  Spend-settled :
      (r : Outcome (Unit {0})) (s t : State W)
      → Spend s (is_early r) t
      → Spend s (is_early (settle r)) t
  unfolding settle
  Spend-settled (next a) s t h = h
  Spend-settled returned s t h = record { le = h.le; stops = h.stops; ends = λ x. cc }
  Spend-settled panicked s t h = h

  Spend-attempt : (m : Act W Unit) → Keeps Spend m → Keeps Spend (attempt m)
  unfolding attempt
  Spend-attempt m k = record { at = λ s. Spend-settled (m s).0 s (m s).1 (k.at s) }

  Costs-attempt : (m : Act W Unit) → Costs m → Costs (attempt m)
  unfolding attempt settle
  Costs-attempt m k = record { at = λ s g. ground (arith, k.at s g) }

  Spend-advance : Keeps Spend (advance {W = W})
  unfolding advance
  Spend-advance = record { at = λ s. Spend-Passive.on_ip _ s }

  Costs-run_handler : (h : Handler W) → Fee h → Keeps Spend h.inst → Costs (run_handler (some h))
  unfolding Fee run_handler
  Costs-run_handler h (inl f) k = search (costs_rules, Spend-attempt, Spend-advance) depth 8
  Costs-run_handler h (inr f) k =
      search (costs_rules, Spend-attempt, Costs-attempt, Spend-advance) depth 8

module _ {W : Type 0} where
  Spend-run_handler : (h : Handler W) → Keeps Spend h.inst → Keeps Spend (run_handler (some h))
  unfolding run_handler
  Spend-run_handler h k = search (keeps_rules, Spend-Passive, Spend-attempt, Spend-advance) depth 8

-- A state that has stopped is the end of the run, whatever the fuel.
pub run_stopped :
    {W : Type 0} (fuel : ℕ) (e : Env W) (s : State W)
    → s.stop ≡ true
    → run fuel e s ≡ some (ended s)
unfolding run
run_stopped zero e s h = rw h
run_stopped (suc fuel) e s h = rw h

module _ {W : Type 0} (e : Env W) (fork : e.config.eip150 ≡ true) (frugal : Frugal e.host) where
  Costs-handler : (op : ℕ) (o : Option (Handler W)) → dispatch e op ≡ o → Costs (run_handler o)
  Costs-handler op none h = unfold run_handler in Costs-exit _
  Costs-handler op (some k) h =
      Costs-run_handler k (Fee-dispatch e fork frugal op k h) (Spend-dispatch e fork frugal op k h)

  -- A round takes gas, unless it panics or stops the machine.
  pub Costs-step : Costs (step e)
  unfolding step halt
  Costs-step = record {
    at = λ s g. ground (arith, (Costs-handler (get_or s.code s.ip 0) _ refl).at s g);
  }

  Spend-handler :
      (op : ℕ) (o : Option (Handler W)) → dispatch e op ≡ o → Keeps Spend (run_handler o)
  unfolding run_handler
  Spend-handler op none h = search (keeps_rules, Spend-Passive)
  Spend-handler op (some k) h = Spend-run_handler k (Spend-dispatch e fork frugal op k h)

  Spend-step : Keeps Spend (step e)
  unfolding step halt
  Spend-step = record {
    at = λ s.
        let k = (Spend-handler (get_or s.code s.ip 0) _ refl).at s in
        record {
          le = λ g. ground (arith, k.le g);
          stops = λ h. ground (arith, k.stops h);
          ends = λ h. ground (arith, k.ends);
        };
  }

  run_ends :
      (fuel : ℕ) (s : State W) → s.gas < fuel → s.gas < 2 ^ 64 → is_some (run fuel e s) ≡ true
  unfolding run
  run_ends zero s h g = absurd (omega arith)
  run_ends (suc fuel) s h g =
      ground (arith, Costs-step.at s g, run_ends fuel (step e s).1, run_stopped fuel e (step e s).1)

  run_gas :
      (fuel : ℕ) (s : State W) (r : Ended W)
      → s.gas < 2 ^ 64
      → run fuel e s ≡ some r
      → r.final.gas ≤ s.gas
  unfolding run
  run_gas zero s r g h = ground arith
  run_gas (suc fuel) s r g h = ground (arith, (Spend-step.at s).le g, run_gas fuel (step e s).1 r)

is_some_value {ℓ} : {A : Type ℓ} (o : Option A) → is_some o ≡ true → (a : A) × (o ≡ some a)
is_some_value none h = cc
is_some_value (some a) h = (a, refl)

module _ {W : Type 0} (e : Env W) (fork : e.config.eip150 ≡ true) (frugal : Frugal e.host) where
  -- With more fuel than gas a run ends, and leaves no more gas than it was given.
  pub run_total :
      (fuel : ℕ) (s : State W)
      → s.gas < fuel
      → s.gas < 2 ^ 64
      → (r : Ended W) × (run fuel e s ≡ some r) × (r.final.gas ≤ s.gas)
  run_total fuel s h g =
      let (r, done) = is_some_value (run fuel e s) (run_ends e fork frugal fuel s h g) in
      (r, done, run_gas e fork frugal fuel s r g done)

  gas_after_le : (x : Option Error) (n : ℕ) → gas_after x n ≤ n
  unfolding gas_after
  gas_after_le none n = omega arith
  gas_after_le (some x) n = ground arith

  -- From EIP-150 on, `EVM.Run` ends on every contract with less than 2^64 gas, in every host whose calls give back at
  -- most the gas of the contract that they are given, below 2^64: one round of the loop for each unit of gas
  -- and one more are enough. It gives back at most the gas of its own contract.
  pub evm_run_total :
      (w : W) (cap : ℕ)
      → e.msg.gas < 2 ^ 64
      → (r : ExecutionResult) × (w' : W) × (evm_run (suc e.msg.gas) e w cap ≡ some (r, w'))
        × (r.gas_left ≤ e.msg.gas)
  unfolding evm_run start result
  evm_run_total w cap g =
      let (r, found, le) = run_total (suc e.msg.gas) (start e.msg w cap) (omega arith) g in
      ((result r).0, r.final.world, rw found, omega (arith, gas_after_le r.err r.final.gas, le))
