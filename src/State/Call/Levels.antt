-- ===== src/State/Call/Levels.antt =====
-- The depth of calls: the levels that the host of a transaction has are enough.
use dogesyncer.Prelude.{
  ℕ, zero, suc, ◌+◌, ◌<◌, ◌≤◌, ◌≡◌, refl, ap, true, Option, none, some, ltb, arith, Bool-cases, inl,
  inr,
}
use dogesyncer.Runtime.{is_creation, Contract, ExecutionResult, Host, TxContext}
use dogesyncer.Evm.State.Yields.{if-same}
use dogesyncer.Evm.Dispatch.Callx.{with_callx}
use dogesyncer.State.Txn.{Txn}
use dogesyncer.State.Txn.Accounts.{incr_nonce}
use dogesyncer.State.Call.{
  Setting, run_first, settle, call_funded, apply_call, created_by, create_funded, apply_create,
  has_code_or_nonce, callx_in, host_with, callx_at,
}
use dogesyncer.State.Call.Gas.{AllSound, first_of-IsSound}

module _ (s : Setting) (sound : AllSound s.runtimes) where
  module _ (h : Host Txn) (f : Txn → Contract → ExecutionResult × Txn) (c : Contract)
      (agree : (t : Txn) (inner : Contract)
        → inner.depth ≡ c.depth + 1
        → f t inner ≡ h.callx t inner) where
    run-same :
        (t : Txn)
        → run_first s.runtimes (with_callx h f) c s.config t ≡ run_first s.runtimes h c s.config t
    run-same t = (first_of-IsSound sound).nested h f c s.config t agree

    call_funded-same :
        (id : ℕ) (before : Txn) (o : Option Txn)
        → call_funded s (with_callx h f) c id before o ≡ call_funded s h c id before o
    unfolding call_funded
    call_funded-same id before none = refl
    call_funded-same id before (some t) = ap (settle id) (run-same t)

    create_funded-same :
        (id : ℕ) (before : Txn) (o : Option Txn)
        → create_funded s (with_callx h f) c id before o ≡ create_funded s h c id before o
    unfolding create_funded
    create_funded-same id before none = refl
    create_funded-same id before (some t) = ap (created_by s c id) (run-same t)

    callx_in-same : (t : Txn) → callx_in s (with_callx h f) t c ≡ callx_in s h t c
    unfolding callx_in apply_call apply_create
    callx_in-same t = elim (Bool-cases (is_creation c.typ)) [
      | inl makes ↦ rw makes (
          if-same (ltb 1025 c.depth) _ (
            if-same (has_code_or_nonce s c.address (incr_nonce s.committed c.caller t)) _
              (create_funded-same _ _ _)))
      | inr calls ↦ rw calls (if-same (ltb 1025 c.depth) _ (call_funded-same _ _ _))
    ]

  module _ (ctx : TxContext) where
    callx_at-deep :
        (n : ℕ) (t : Txn) (c : Contract)
        → 1025 < c.depth
        → callx_at s ctx n t c ≡ callx_at s ctx zero t c
    unfolding callx_at callx_in apply_call apply_create
    callx_at-deep zero t c deep = refl
    callx_at-deep (suc n) t c deep =
        let e : ltb 1025 c.depth ≡ true = ground arith in
        elim (Bool-cases (is_creation c.typ)) [
          | inl makes ↦ rw (e, makes) refl
          | inr calls ↦ rw (e, calls) refl
        ]

    -- Where the runtimes are sound, a call that is answered at a level which, with the depth of its
    -- contract, exceeds 1025, has the same answer at every higher level.
    pub callx_at-levels :
        (n m : ℕ) (t : Txn) (c : Contract)
        → 1025 < c.depth + n
        → n ≤ m
        → callx_at s ctx m t c ≡ callx_at s ctx n t c
    unfolding callx_at host_with
    callx_at-levels zero m t c deep le = callx_at-deep m t c (omega arith)
    callx_at-levels (suc n) zero t c deep le = absurd (omega arith)
    callx_at-levels (suc n) (suc m) t c deep le =
        callx_in-same (host_with s ctx (callx_at s ctx n)) (callx_at s ctx m) c
          (λ u inner d. callx_at-levels n m u inner (omega arith) (omega arith)) t
