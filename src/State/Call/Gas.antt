-- ===== src/State/Call/Gas.antt =====
-- The gas of calls: what `applyCall` and `applyCreate` give back of the gas of the contract.
use dogesyncer.Prelude.{
  ℕ, zero, suc, ◌^◌, ◌≤◌, ◌<◌, ◌≡◌, refl, true, Option, none, some, List, [], ◌∷◌, ltb, arith,
  Bool-cases, inl, inr,
}
use dogesyncer.Runtime.{is_creation, Contract, ExecutionResult, Runtime, Host, TxContext, failed}
use dogesyncer.Evm.Run.Calls.{Frugal}
use dogesyncer.Evm.Engine.Sound.{IsSound}
use dogesyncer.State.Txn.{Txn}
use dogesyncer.State.Txn.Accounts.{incr_nonce}
use dogesyncer.State.Call.{
  Setting, run_first, settle, call_funded, apply_call, store_code, created_by, create_funded,
  has_code_or_nonce, apply_create, callx_in, host_with, callx_at, host,
}

-- Each runtime of a list keeps what a runtime promises.
pub data AllSound : List (Runtime Txn) → Type 1 where
  nil : AllSound []
  cons :
      {r : Runtime Txn} {rest : List (Runtime Txn)}
      → IsSound r
      → AllSound rest
      → AllSound (r ∷ rest)

-- The runtimes of a list as one.
abbrev pub first_of : List (Runtime Txn) → Runtime Txn
first_of rs = record { can_run = λ c f. true; run = run_first rs }

pub first_of-IsSound : {rs : List (Runtime Txn)} → AllSound rs → IsSound (first_of rs)
unfolding run_first
first_of-IsSound nil = record {
  gas_le = λ h c f w fork frugal g. omega arith;
  steady = λ R h c f w s. s.order.rfl w;
  quiet = λ Same h c f w q static. q.same_refl w;
  nested = λ h callx c f w agree. refl;
}
first_of-IsSound (cons {r = r} k rest) =
    let others = first_of-IsSound rest in
    record {
      gas_le = λ h c f w fork frugal g. elim (Bool-cases (r.can_run c f)) [
        | inl yes_run ↦ rw yes_run (k.gas_le h c f w fork frugal g)
        | inr no_run ↦ rw no_run (others.gas_le h c f w fork frugal g)
      ];
      steady = λ R h c f w s. elim (Bool-cases (r.can_run c f)) [
        | inl yes_run ↦ rw yes_run (k.steady R h c f w s)
        | inr no_run ↦ rw no_run (others.steady R h c f w s)
      ];
      quiet = λ Same h c f w q static. elim (Bool-cases (r.can_run c f)) [
        | inl yes_run ↦ rw yes_run (k.quiet Same h c f w q static)
        | inr no_run ↦ rw no_run (others.quiet Same h c f w q static)
      ];
      nested = λ h callx c f w agree. elim (Bool-cases (r.can_run c f)) [
        | inl yes_run ↦ rw yes_run (k.nested h callx c f w agree)
        | inr no_run ↦ rw no_run (others.nested h callx c f w agree)
      ];
    }

module _ (s : Setting) (sound : AllSound s.runtimes) (fork : s.config.eip150 ≡ true) where
  module _ (h : Host Txn) (frugal : Frugal h) (c : Contract) (g : c.gas < 2 ^ 64) where
    run-gas_le : (t : Txn) → (run_first s.runtimes h c s.config t).0.gas_left ≤ c.gas
    run-gas_le t = (first_of-IsSound sound).gas_le h c s.config t fork frugal g

    settle-gas_le :
        (id : ℕ) (r : ExecutionResult × Txn)
        → r.0.gas_left ≤ c.gas
        → (settle id r).0.gas_left ≤ c.gas
    unfolding settle
    settle-gas_le id (r, t) k = elim (Bool-cases (failed r)) [
      | inl bad ↦ rw bad k
      | inr good ↦ rw good k
    ]

    funded-gas_le :
        (id : ℕ) (before : Txn) (o : Option Txn)
        → (call_funded s h c id before o).0.gas_left ≤ c.gas
    unfolding call_funded
    funded-gas_le id before none = omega arith
    funded-gas_le id before (some t) =
        settle-gas_le id (run_first s.runtimes h c s.config t) (run-gas_le t)

    pub apply_call-gas_le : (t : Txn) → (apply_call s h c t).0.gas_left ≤ c.gas
    unfolding apply_call
    apply_call-gas_le t = elim (Bool-cases (ltb 1025 c.depth)) [
      | inl deep ↦ rw deep (omega arith)
      | inr shallow ↦ rw shallow (funded-gas_le _ _ _)
    ]

    created-gas_le :
        (id : ℕ) (r : ExecutionResult × Txn)
        → r.0.gas_left ≤ c.gas
        → (created_by s c id r).0.gas_left ≤ c.gas
    unfolding created_by store_code
    created-gas_le id (r, t) k = ground arith

    create_funded-gas_le :
        (id : ℕ) (before : Txn) (o : Option Txn)
        → (create_funded s h c id before o).0.gas_left ≤ c.gas
    unfolding create_funded
    create_funded-gas_le id before none = omega arith
    create_funded-gas_le id before (some t) =
        created-gas_le id (run_first s.runtimes h c s.config t) (run-gas_le t)

    pub apply_create-gas_le : (t : Txn) → (apply_create s h c t).0.gas_left ≤ c.gas
    unfolding apply_create
    apply_create-gas_le t = elim (Bool-cases (ltb 1025 c.depth)) [
      | inl deep ↦ rw deep (omega arith)
      | inr shallow ↦
          elim (Bool-cases (has_code_or_nonce s c.address (incr_nonce s.committed c.caller t))) [
            | inl taken ↦ rw (shallow, taken) (omega arith)
            | inr vacant ↦ rw (shallow, vacant) (create_funded-gas_le _ _ _)
          ]
    ]

    callx_in-gas_le : (t : Txn) → (callx_in s h t c).0.gas_left ≤ c.gas
    unfolding callx_in
    callx_in-gas_le t = elim (Bool-cases (is_creation c.typ)) [
      | inl makes ↦ rw makes (apply_create-gas_le t)
      | inr calls ↦ rw calls (apply_call-gas_le t)
    ]

  module _ (ctx : TxContext) where
    pub callx_at-Frugal : (n : ℕ) → Frugal (host_with s ctx (callx_at s ctx n))
    unfolding callx_at host_with
    callx_at-Frugal zero = record { callx_le = λ t c g. ground arith }
    callx_at-Frugal (suc n) = record {
      callx_le =
          λ t c g. callx_in-gas_le (host_with s ctx (callx_at s ctx n)) (callx_at-Frugal n) c g t;
    }

    pub host-Frugal : Frugal (host s ctx)
    unfolding host
    host-Frugal = callx_at-Frugal 1025

    -- From EIP-150 on and with sound runtimes, a call or a creation in the host of a transaction, of a
    -- contract whose gas is a uint64, gives back at most that gas, at any depth of calls.
    pub callx-gas_le :
        (t : Txn) (c : Contract) → c.gas < 2 ^ 64 → ((host s ctx).callx t c).0.gas_left ≤ c.gas
    callx-gas_le t c g = host-Frugal.callx_le t c g
