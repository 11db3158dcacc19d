-- ===== src/State/Call/Atomic.antt =====
-- What a call that fails leaves of what it has done.
use dogesyncer.Prelude.{
  if◌then◌else◌, ℕ, zero, suc, ◌-◌, ◌≡◌, ◌⊎◌, ◌*◌, ◌%◌, ◌^◌, refl, ap, subst, arith, ◌∙◌, true,
  false, Option, none, some, ltb, ◌&&◌, length, Bool-cases, inl, inr,
}
use dogesyncer.Runtime.{
  is_creation, insufficient_balance, code_store_out_of_gas, Contract, ExecutionResult, Host,
  TxContext, failed,
}
use dogesyncer.Evm.Run.Worlds.{Steady}
use dogesyncer.State.Txn.{Txn, snapshot, upsert_account, insert}
use dogesyncer.State.Txn.Transfer.{transfer}
use dogesyncer.State.Txn.Accounts.{incr_nonce, touch_account}
use dogesyncer.State.Call.{
  Setting, run_first, revert, settle, call_funded, apply_call, is_plain_call, store_code,
  created_by, create_funded, new_account, has_code_or_nonce, apply_create, callx_in, host_with,
  callx_at, host,
}
use dogesyncer.State.Call.Gas.{AllSound}
use dogesyncer.State.Call.Snapshots.{
  Grows, Grows-same, Grows-trans, revert-taken, run-Grows, snapshots-moved, snapshots-transfer,
  snapshots-new_account, host_with-Steady, callx_at-Grows,
}

-- The state that the run of a call or a creation starts on, its value transferred; `none` where the
-- transfer fails.
abbrev pub funding : Setting → Contract → Txn → Option Txn
funding s c t =
    let touched = touch_account s.committed c.address (snapshot t).1 in
    let fresh = new_account s c.address (snapshot (incr_nonce s.committed c.caller t)).1 in
    if is_creation c.typ
    then transfer s.committed c.caller c.address c.value fresh
    else if is_plain_call c.typ
    then transfer s.committed c.caller c.address c.value touched
    else some touched

-- The run on that state.
abbrev pub run_of : Setting → Host Txn → Contract → Option Txn → Option (ExecutionResult × Txn)
run_of s h c o = elim o [ none ↦ none | some u ↦ some (run_first s.runtimes h c s.config u) ]

-- Before Homestead a run that has not failed leaves too little gas to store the code: the creation fails
-- for that and keeps what the run has left.
pub record Unpaid (s : Setting) (ran r : ExecutionResult × Txn) : Type 0 where
  pub early : s.config.homestead ≡ false
  pub ended : failed ran.0 ≡ false
  pub poor : ltb ran.0.gas_left (length ran.0.return_value * 200 % 2 ^ 64) ≡ true
  pub kept : r.1.tree ≡ ran.1.tree
  pub error : r.0.err ≡ some code_store_out_of_gas

-- What a call that fails leaves: the tree that it found; for a creation, the tree with the nonce of
-- the creator counted up; or more, where the value could not be transferred, or the code of the
-- creation's run not be paid for.
pub data Undone (s : Setting) (h : Host Txn) (c : Contract) (t : Txn) (r : ExecutionResult × Txn)
    : Type 0 where
  restored : r.1.tree ≡ t.tree → Undone s h c t r
  counted :
      is_creation c.typ ≡ true
      → r.1.tree ≡ (incr_nonce s.committed c.caller t).tree
      → Undone s h c t r
  unfunded : funding s c t ≡ none → r.0.err ≡ some insufficient_balance → Undone s h c t r
  unstored :
      {ran : ExecutionResult × Txn}
      → is_creation c.typ ≡ true
      → run_of s h c (funding s c t) ≡ some ran
      → Unpaid s ran r
      → Undone s h c t r

module _ (s : Setting) (sound : AllSound s.runtimes) where
  module _ (h : Host Txn) (steady : Steady h Grows) (c : Contract) where
    settle-restored :
        (t : Txn) (r : ExecutionResult × Txn)
        → Grows (snapshot t).1 r.1
        → failed (settle (snapshot t).0 r).0 ≡ true
        → (settle (snapshot t).0 r).1.tree ≡ t.tree
    unfolding settle
    settle-restored t (r, u) g bad = elim (Bool-cases (failed r)) [
      | inl f ↦ rw f (ap (λ (x : Txn). x.tree) (revert-taken t u g))
      | inr f ↦ cc
    ]

    funded-Undone :
        (t before : Txn) (o : Option Txn)
        → funding s c t ≡ o
        → ((u : Txn) → o ≡ some u → Grows (snapshot t).1 u)
        → failed (call_funded s h c (snapshot t).0 before o).0 ≡ true
        → Undone s h c t (call_funded s h c (snapshot t).0 before o)
    unfolding call_funded
    funded-Undone t before none same k bad = unfunded same refl
    funded-Undone t before (some u) same k bad = restored (
        settle-restored t (run_first s.runtimes h c s.config u)
          (Grows-trans _ u _ (k u refl) (run-Grows s sound h steady c u)) bad)

    apply_call-Undone :
        (t : Txn)
        → is_creation c.typ ≡ false
        → failed (apply_call s h c t).0 ≡ true
        → Undone s h c t (apply_call s h c t)
    unfolding apply_call touch_account upsert_account insert
    apply_call-Undone t calls = elim (Bool-cases (ltb 1025 c.depth)) [
      | inl deep ↦ rw deep (λ bad. restored refl)
      | inr shallow ↦ rw shallow (
          funded-Undone t (touch_account s.committed c.address (snapshot t).1) _ (rw calls refl)
            (λ u e.
              Grows-same _ u (
                snapshots-moved (is_plain_call c.typ) s.committed c.caller c.address c.value _ u
                  e)))
    ]

    -- A creation whose run has ended goes back to the tree that it started from, or has stored
    -- nothing before Homestead.
    store-restored :
        (t : Txn) (r : ExecutionResult) (u : Txn)
        → (revert (snapshot t).0 u).tree ≡ t.tree
        → failed r ≡ false
        → failed (store_code s c (snapshot t).0 r u).0 ≡ true
        → Unpaid s (r, u) (store_code s c (snapshot t).0 r u)
          ⊎ ((store_code s c (snapshot t).0 r u).1.tree ≡ t.tree)
    unfolding store_code failed
    store-restored t r u back ended bad =
        elim (Bool-cases (s.config.eip158 && ltb 24576 (length r.return_value))) [
          | inl large ↦ rw large (inr back)
          | inr fits ↦ elim (Bool-cases (ltb r.gas_left (length r.return_value * 200 % 2 ^ 64))) [
            | inl poor ↦ elim (Bool-cases s.config.homestead) [
              | inl now ↦ rw (fits, poor, now) (inr back)
              | inr before ↦
                  simp (fits, poor, before)
                    (inl (record {
                      early = before;
                      ended = ended;
                      poor = poor;
                      kept = refl;
                      error = refl;
                    }))
            ]
            | inr rich ↦ cc
          ]
        ]

    created-restored :
        (t : Txn) (r : ExecutionResult × Txn)
        → Grows (snapshot t).1 r.1
        → failed (created_by s c (snapshot t).0 r).0 ≡ true
        → Unpaid s r (created_by s c (snapshot t).0 r)
          ⊎ ((created_by s c (snapshot t).0 r).1.tree ≡ t.tree)
    unfolding created_by
    created-restored t (r, u) g = elim (Bool-cases (failed r)) [
      | inl f ↦ rw f (λ bad. inr (ap (λ (x : Txn). x.tree) (revert-taken t u g)))
      | inr f ↦ rw f (store-restored t r u (ap (λ (x : Txn). x.tree) (revert-taken t u g)) f)
    ]

    create_funded-Undone :
        (t n before : Txn) (o : Option Txn)
        → is_creation c.typ ≡ true
        → funding s c t ≡ o
        → n.tree ≡ (incr_nonce s.committed c.caller t).tree
        → ((u : Txn) → o ≡ some u → Grows (snapshot n).1 u)
        → failed (create_funded s h c (snapshot n).0 before o).0 ≡ true
        → Undone s h c t (create_funded s h c (snapshot n).0 before o)
    unfolding create_funded
    create_funded-Undone t n before none makes same e k bad = unfunded same refl
    create_funded-Undone t n before (some u) makes same e k bad =
        elim (created-restored n (run_first s.runtimes h c s.config u)
          (Grows-trans _ u _ (k u refl) (run-Grows s sound h steady c u)) bad) [
            | inl old ↦ unstored makes (ap (run_of s h c) same) old
            | inr back ↦ counted makes (back ∙ e)
          ]

    apply_create-Undone :
        (t : Txn)
        → is_creation c.typ ≡ true
        → failed (apply_create s h c t).0 ≡ true
        → Undone s h c t (apply_create s h c t)
    unfolding apply_create
    apply_create-Undone t makes =
        let n = incr_nonce s.committed c.caller t in
        let fresh = new_account s c.address (snapshot n).1 in
        elim (Bool-cases (ltb 1025 c.depth)) [
          | inl deep ↦ rw deep (λ bad. restored refl)
          | inr shallow ↦ elim (Bool-cases (has_code_or_nonce s c.address n)) [
            | inl taken ↦ rw (shallow, taken) (λ bad. counted makes refl)
            | inr vacant ↦
                rw (shallow, vacant)
                  (create_funded-Undone t n fresh _ makes (rw makes refl) refl (λ u e.
                    Grows-same _ u (
                      snapshots-transfer s.committed c.caller c.address c.value fresh u e
                      ∙ snapshots-new_account s c.address (snapshot n).1)))
          ]
        ]

    callx_in-Undone :
        (t : Txn) → failed (callx_in s h t c).0 ≡ true → Undone s h c t (callx_in s h t c)
    unfolding callx_in
    callx_in-Undone t = elim (Bool-cases (is_creation c.typ)) [
      | inl makes ↦ rw makes (apply_create-Undone t makes)
      | inr calls ↦ rw calls (apply_call-Undone t calls)
    ]

  module _ (ctx : TxContext) where
    callx_at-Undone :
        (n : ℕ) (t : Txn) (c : Contract)
        → failed (callx_at s ctx n t c).0 ≡ true
        → Undone s (host_with s ctx (callx_at s ctx (n - 1))) c t (callx_at s ctx n t c)
    unfolding callx_at
    callx_at-Undone zero t c bad = elim (Bool-cases (ltb 1025 c.depth)) [
      | inl deep ↦ rw deep (restored refl)
      | inr shallow ↦ rw shallow (restored refl)
    ]
    callx_at-Undone (suc n) t c bad =
        let level : n ≡ suc n - 1 = omega arith in
        subst (λ k. Undone s (host_with s ctx (callx_at s ctx k)) c t (callx_at s ctx (suc n) t c))
          level
          (callx_in-Undone (host_with s ctx (callx_at s ctx n))
            (host_with-Steady s sound ctx (callx_at s ctx n) (callx_at-Grows s sound ctx n)) c t
            bad)

    -- Where the runtimes are sound, a call or a creation that fails in the host of a transaction
    -- leaves the tree that it found, or for a creation that tree with the nonce of the creator counted
    -- up, but for two cases: the value could not be transferred, or, before Homestead, the creation's
    -- run has not failed and left less gas than its code costs, and then what it has left stays.
    pub callx-Undone :
        (t : Txn) (c : Contract)
        → failed ((host s ctx).callx t c).0 ≡ true
        → Undone s (host_with s ctx (callx_at s ctx 1024)) c t ((host s ctx).callx t c)
    unfolding host host_with
    callx-Undone t c = callx_at-Undone 1025 t c
