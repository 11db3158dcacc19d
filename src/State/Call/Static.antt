-- ===== src/State/Call/Static.antt =====
-- Static calls: what a call of a static contract does to the accounts, the refund and the logs.
use dogesyncer.Prelude.{
  ℕ, zero, suc, ◌+◌, ◌≡◌, refl, ap, sym, ◌∙◌, true, false, Option, none, some, ltb, ◌==◌,
  if◌then◌else◌, arith, Bool-cases, inl, inr,
}
use dogesyncer.Runtime.{
  CallType, call, Contract, ExecutionResult, Host, TxContext, failed, is_creation,
}
use dogesyncer.Evm.Ops.Call.{transfers_value}
use dogesyncer.Evm.Run.Static.{Quiet}
use dogesyncer.Evm.Run.Worlds.{Steady}
use dogesyncer.State.Txn.{
  Committed, Txn, StateObject, or_else, snapshot, get_state_object, new_state_object,
  upsert_account, insert, with_balance, add_balance, sub_balance,
}
use dogesyncer.State.Txn.Storage.{get_state_object-upsert}
use dogesyncer.State.Txn.Accounts.{touch_account}
use dogesyncer.State.Txn.Transfer.{transfer}
use dogesyncer.State.Call.{
  Setting, run_first, settle, call_funded, apply_call, is_plain_call, callx_in, host_with, callx_at,
  host,
}
use dogesyncer.State.Call.Gas.{AllSound, first_of-IsSound}
use dogesyncer.State.Call.Snapshots.{
  Grows, Grows-same, Grows-trans, revert-taken, run-Grows, snapshots-moved, host_with-Steady,
  callx_at-Grows,
}

-- An account as it is read, new where it is missing.
abbrev pub account_read : Committed → Txn → ℕ → StateObject
account_read c t a = or_else (get_state_object c t a) (new_state_object c)

-- The accounts, with all that they hold, but for new ones that are empty, the refund and the logs.
pub record Same (c : Committed) (t u : Txn) : Type 0 where
  pub accounts : (a : ℕ) → account_read c u a ≡ account_read c t a
  pub refund : u.tree.refund ≡ t.tree.refund
  pub logs : u.tree.logs ≡ t.tree.logs

module _ (c : Committed) where
  Same-refl : (t : Txn) → Same c t t
  Same-refl t = record { accounts = λ a. refl; refund = refl; logs = refl }

  Same-trans : (t u v : Txn) → Same c t u → Same c u v → Same c t v
  Same-trans t u v p q = record {
    accounts = λ a. q.accounts a ∙ p.accounts a;
    refund = q.refund ∙ p.refund;
    logs = q.logs ∙ p.logs;
  }

  -- The trees of two states are the same.
  Same-tree : (t u : Txn) → u.tree ≡ t.tree → Same c t u
  unfolding get_state_object
  Same-tree t u e = record {
    accounts = λ a. ap (λ x. account_read c (record t { tree = x }) a) e;
    refund = ap (λ x. x.refund) e;
    logs = ap (λ x. x.logs) e;
  }

  Same-upsert :
      (f : StateObject → StateObject) (t : Txn) (addr : ℕ)
      → ((o : StateObject) → f o ≡ o)
      → Same c t (upsert_account c addr f t)
  unfolding upsert_account insert
  Same-upsert f t addr same = record { accounts = read; refund = refl; logs = refl }
    where
      read : (a : ℕ) → account_read c (upsert_account c addr f t) a ≡ account_read c t a
      read a =
          ap (λ o. or_else o (new_state_object c))
            (get_state_object-upsert c f t addr a (λ o. ap (λ x. x.deleted) (same o)))
          ∙ elim (Bool-cases (a == addr)) [
            | inl here ↦
                let e : a ≡ addr = ground arith in
                rw here (same (account_read c t addr) ∙ ap (λ x. account_read c t x) (sym e))
            | inr there ↦ rw there refl
          ]

  with_nothing :
      (amount : ℕ) → amount ≡ 0 → (o : StateObject) → with_balance (λ b. b + amount) o ≡ o
  unfolding with_balance
  with_nothing amount z o =
      ap (λ b. record o { account = record o.account { balance = b } }) (omega (arith, z))

  Same-found : (t v u : Txn) (o : Option Txn) → o ≡ some v → o ≡ some u → Same c t v → Same c t u
  Same-found t v u o p q k =
      Same-trans t v u k (Same-tree v u (ap (λ x. (or_else x v).tree) (sym q ∙ p)))

  -- The transfer of nothing.
  Same-transfer :
      (from to : ℕ) (value : Option ℕ) (t u : Txn)
      → transfers_value value ≡ false
      → transfer c from to value t ≡ some u
      → Same c t u
  unfolding transfer sub_balance add_balance
  Same-transfer from to none t u n e = Same-found t t u _ refl e (Same-refl t)
  Same-transfer from to (some amount) t u n e =
      let z : amount ≡ 0 = ground arith in
      let b : (amount == 0) ≡ true = ground arith in
      Same-found t _ u _ (rw b refl) e (Same-upsert _ t to (with_nothing amount z))

  Same-moved :
      (typ : CallType) (from to : ℕ) (value : Option ℕ) (t u : Txn)
      → (typ ≡ call → transfers_value value ≡ false)
      → (if is_plain_call typ then transfer c from to value t else some t) ≡ some u
      → Same c t u
  unfolding is_plain_call
  Same-moved call from to value t u n e = Same-transfer from to value t u (n refl) e
  Same-moved _ from to value t u n e = Same-found t t u _ refl e (Same-refl t)

module _ (s : Setting) (sound : AllSound s.runtimes) where
  module _ (h : Host Txn) (steady : Steady h Grows) (quiet : Quiet h (Same s.committed))
      (c : Contract) (static : c.static ≡ true) where
    settle-Same :
        (t : Txn) (r : ExecutionResult × Txn)
        → Grows (snapshot t).1 r.1
        → Same s.committed t r.1
        → Same s.committed t (settle (snapshot t).0 r).1
    unfolding settle
    settle-Same t (r, u) g k = elim (Bool-cases (failed r)) [
      | inl bad ↦ rw bad (Same-tree s.committed t _ (ap (λ (x : Txn). x.tree) (revert-taken t u g)))
      | inr good ↦ rw good k
    ]

    funded-Same :
        (t before : Txn) (o : Option Txn)
        → Same s.committed t before
        → ((u : Txn) → o ≡ some u → Grows (snapshot t).1 u × Same s.committed t u)
        → Same s.committed t (call_funded s h c (snapshot t).0 before o).1
    unfolding call_funded
    funded-Same t before none b k = b
    funded-Same t before (some u) b k =
        let (g, same) = k u refl in
        settle-Same t (run_first s.runtimes h c s.config u)
          (Grows-trans _ u _ g (run-Grows s sound h steady c u))
          (Same-trans s.committed t u _ same
            ((first_of-IsSound sound).quiet (Same s.committed) h c s.config u quiet static))

    apply_call-Same :
        (t : Txn)
        → (c.typ ≡ call → transfers_value c.value ≡ false)
        → Same s.committed t (apply_call s h c t).1
    unfolding apply_call touch_account upsert_account insert
    apply_call-Same t n =
        let touched = touch_account s.committed c.address (snapshot t).1 in
        let same : Same s.committed t touched =
          Same-trans s.committed t (snapshot t).1 touched (Same-tree s.committed t _ refl)
            (Same-upsert s.committed (λ o. o) (snapshot t).1 c.address (λ o. refl)) in
        elim (Bool-cases (ltb 1025 c.depth)) [
          | inl deep ↦ rw deep (Same-refl s.committed t)
          | inr shallow ↦ rw shallow (
              funded-Same t touched _ same (λ u e. (
                Grows-same (snapshot t).1 u (
                    snapshots-moved (is_plain_call c.typ) s.committed c.caller c.address c.value
                      touched u e),
                Same-trans s.committed t touched u same
                    (Same-moved s.committed c.typ c.caller c.address c.value touched u n e),
              )))
        ]

  module _ (ctx : TxContext) where
    callx_at-Same :
        (n : ℕ) (t : Txn) (c : Contract)
        → c.static ≡ true
        → is_creation c.typ ≡ false
        → (c.typ ≡ call → transfers_value c.value ≡ false)
        → Same s.committed t (callx_at s ctx n t c).1
    unfolding callx_at callx_in host_with
    callx_at-Same zero t c static calls none_sent = elim (Bool-cases (ltb 1025 c.depth)) [
      | inl deep ↦ rw deep (Same-refl s.committed t)
      | inr shallow ↦ rw shallow (Same-refl s.committed t)
    ]
    callx_at-Same (suc n) t c static calls none_sent = rw calls (
        apply_call-Same (host_with s ctx (callx_at s ctx n))
          (host_with-Steady s sound ctx (callx_at s ctx n) (callx_at-Grows s sound ctx n))
          (record {
            same_refl = Same-refl s.committed;
            same_trans = Same-trans s.committed;
            callx_same = callx_at-Same n;
          })
          c static t none_sent)

    -- Where the runtimes are sound, a static call in the host of a transaction, which transfers no
    -- value and is no creation, leaves every account as it was, its balance, nonce, code, storage and
    -- mark of removal, but for new accounts that are empty, and the refund and the logs with them.
    pub callx-static :
        (t : Txn) (c : Contract)
        → c.static ≡ true
        → is_creation c.typ ≡ false
        → (c.typ ≡ call → transfers_value c.value ≡ false)
        → Same s.committed t ((host s ctx).callx t c).1
    unfolding host host_with
    callx-static t c static calls none_sent = callx_at-Same 1025 t c static calls none_sent
