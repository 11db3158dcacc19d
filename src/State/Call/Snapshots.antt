-- ===== src/State/Call/Snapshots.antt =====
-- Snapshots and reverts: no call takes a snapshot away, so that a revert finds the one it asks for.
use dogesyncer.Prelude.{
  ℕ, zero, suc, ◌≡◌, refl, ap, sym, ◌∙◌, inl, inr, Bool, true, false, Option, none, some, List, [],
  ◌∷◌, ◌++◌, ltb, if◌then◌else◌, length, get_elem?, arith, Bool-cases,
}
use dogesyncer.Chain.Forks.{ForksInTime}
use dogesyncer.Runtime.{is_creation, Contract, ExecutionResult, Host, TxContext, failed}
use dogesyncer.Evm.Run.Worlds.{Steady, IsPreorder}
use dogesyncer.State.Txn.{
  Committed, Txn, Tree, StateObject, snapshot, revert_to_snapshot, put_back, or_else, insert,
  upsert_account, set_refund, get_state_object, add_balance, sub_balance, add_refund, get_refund,
  get_balance,
}
use dogesyncer.State.Txn.Slots.{set_storage, set_state, keep_refund}
use dogesyncer.State.Txn.Accounts.{
  incr_nonce, set_code, emit_log, has_suicided, touch_account, suicide, suicide_found,
  create_account,
}
use dogesyncer.State.Txn.Transfer.{transfer}
use dogesyncer.State.Call.{
  Setting, run_first, revert, settle, call_funded, apply_call, is_plain_call, store_code,
  created_by, create_funded, new_account, has_code_or_nonce, apply_create, callx_in, selfdestruct,
  host_with, callx_at, host,
}
use dogesyncer.State.Call.Gas.{AllSound, first_of-IsSound}

-- The snapshots of the first state are the first of the second.
pub record Grows (t u : Txn) : Type 0 where
  pub more : List Tree
  pub extends : u.snapshots ≡ t.snapshots ++ more

append-nil : {A : Type 0} (xs : List A) → xs ≡ xs ++ []
append-nil [] = refl
append-nil (x ∷ xs) = ap (λ l. x ∷ l) (append-nil xs)

append_assoc : {A : Type 0} (xs ys zs : List A) → (xs ++ ys) ++ zs ≡ xs ++ (ys ++ zs)
append_assoc [] ys zs = refl
append_assoc (x ∷ xs) ys zs = ap (λ l. x ∷ l) (append_assoc xs ys zs)

-- A change that leaves the snapshots alone.
pub Grows-same : (t u : Txn) → u.snapshots ≡ t.snapshots → Grows t u
Grows-same t u h = record { more = []; extends = h ∙ append-nil t.snapshots }

pub Grows-trans : (t u v : Txn) → Grows t u → Grows u v → Grows t v
Grows-trans t u v g k = record {
  more = g.more ++ k.more;
  extends = k.extends ∙ ap (λ l. l ++ k.more) g.extends ∙ append_assoc t.snapshots g.more k.more;
}

Grows-order : IsPreorder Grows
Grows-order = record { rfl = λ t. Grows-same t t refl; trans = Grows-trans }

snapshots-set_storage :
    (c : Committed) (t : Txn) (a k v : ℕ) (f : ForksInTime)
    → (set_storage c t a k v f).1.snapshots ≡ t.snapshots
unfolding set_storage keep_refund set_refund set_state upsert_account insert
snapshots-set_storage c t a k v f = ground arith

snapshots-suicide :
    (a : ℕ) (t : Txn) (o : Option StateObject) → (suicide_found a t o).snapshots ≡ t.snapshots
unfolding suicide_found insert
snapshots-suicide a t none = refl
snapshots-suicide a t (some x) = refl

pub snapshots-transfer :
    (c : Committed) (from to : ℕ) (value : Option ℕ) (t u : Txn)
    → transfer c from to value t ≡ some u
    → u.snapshots ≡ t.snapshots
unfolding transfer sub_balance add_balance upsert_account insert
snapshots-transfer c from to none t u h = sym (ap snapshots_of h)
  where
    snapshots_of : Option Txn → List Tree
    snapshots_of none = t.snapshots
    snapshots_of (some x) = x.snapshots
snapshots-transfer c from to (some amount) t u h = ground arith

pub snapshots-sub_balance :
    (c : Committed) (from amount : ℕ) (t u : Txn)
    → sub_balance c from amount t ≡ some u
    → u.snapshots ≡ t.snapshots
unfolding sub_balance upsert_account insert
snapshots-sub_balance c from amount t u h = ground arith

snapshots-counted :
    (b : Bool) (n : ℕ) (t : Txn) → (if b then t else set_refund n t).snapshots ≡ t.snapshots
unfolding set_refund
snapshots-counted true n t = refl
snapshots-counted false n t = refl

module _ (s : Setting) where
  snapshots-selfdestruct : (t : Txn) (a b : ℕ) → (selfdestruct s t a b).snapshots ≡ t.snapshots
  unfolding selfdestruct suicide add_balance upsert_account insert
  snapshots-selfdestruct t a b =
      let counted =
        if has_suicided s.committed t a
        then t
        else set_refund (add_refund 24000 (get_refund t)) t in
      let paid = add_balance s.committed b (get_balance s.committed counted a) counted in
      let p : (suicide s.committed a paid).snapshots ≡ paid.snapshots =
        snapshots-suicide a paid (get_state_object s.committed paid a) in
      let q : paid.snapshots ≡ t.snapshots =
        snapshots-counted (has_suicided s.committed t a) (add_refund 24000 (get_refund t)) t in
      p ∙ q

  pub snapshots-new_account : (a : ℕ) (t : Txn) → (new_account s a t).snapshots ≡ t.snapshots
  unfolding new_account create_account incr_nonce upsert_account insert
  snapshots-new_account a t = elim (Bool-cases s.config.eip158) [
    | inl forked ↦ rw forked refl
    | inr before ↦ rw before refl
  ]

-- A snapshot's place holds the tree that was taken, whatever has been taken since.
get_elem?-length :
    (xs ys : List Tree) (x : Tree) → get_elem? ((xs ++ x ∷ []) ++ ys) (length xs) ≡ some x
get_elem?-length [] ys x = refl
get_elem?-length (y ∷ xs) ys x = get_elem?-length xs ys x

-- To revert to a snapshot is to put its tree back.
pub revert-taken :
    (t u : Txn) → Grows (snapshot t).1 u → revert (snapshot t).0 u ≡ record u { tree = t.tree }
unfolding revert revert_to_snapshot put_back snapshot
revert-taken t u g =
    let at_place : get_elem? u.snapshots (length t.snapshots) ≡ some t.tree =
      ap (λ l. get_elem? l (length t.snapshots)) g.extends
      ∙ get_elem?-length t.snapshots g.more t.tree in
    ap (λ o. or_else (put_back u o) u) at_place

-- A revert does not take snapshots away.
snapshots-revert : (id : ℕ) (t : Txn) → (revert id t).snapshots ≡ t.snapshots
unfolding revert revert_to_snapshot put_back
snapshots-revert id t = go (get_elem? t.snapshots id)
  where
    go : (o : Option Tree) → (or_else (put_back t o) t).snapshots ≡ t.snapshots
    go none = refl
    go (some x) = refl

-- The state that a call runs in has the snapshots from before the transfer.
pub snapshots-moved :
    (b : Bool) (c : Committed) (from to : ℕ) (value : Option ℕ) (t u : Txn)
    → (if b then transfer c from to value t else some t) ≡ some u
    → u.snapshots ≡ t.snapshots
snapshots-moved true c from to value t u h = snapshots-transfer c from to value t u h
snapshots-moved false c from to value t u h =
    snapshots-transfer c from to none t u (unfold transfer in h)

module _ (s : Setting) (sound : AllSound s.runtimes) where
  module _ (h : Host Txn) (steady : Steady h Grows) (c : Contract) where
    -- What a run in one of the runtimes leaves.
    pub run-Grows : (t : Txn) → Grows t (run_first s.runtimes h c s.config t).1
    run-Grows t = (first_of-IsSound sound).steady Grows h c s.config t steady

    settle-Grows :
        (id : ℕ) (t : Txn) (r : ExecutionResult × Txn) → Grows t r.1 → Grows t (settle id r).1
    unfolding settle
    settle-Grows id t (r, u) g = elim (Bool-cases (failed r)) [
      | inl bad ↦ rw bad (Grows-trans t u _ g (Grows-same u _ (snapshots-revert id u)))
      | inr good ↦ rw good g
    ]

    funded-Grows :
        (id : ℕ) (t : Txn) (o : Option Txn)
        → ((u : Txn) → o ≡ some u → u.snapshots ≡ t.snapshots)
        → Grows t (call_funded s h c id t o).1
    unfolding call_funded
    funded-Grows id t none k = Grows-same t t refl
    funded-Grows id t (some u) k =
        settle-Grows id t _ (Grows-trans t u _ (Grows-same t u (k u refl)) (run-Grows u))

    apply_call-Grows : (t : Txn) → Grows t (apply_call s h c t).1
    unfolding apply_call touch_account upsert_account insert snapshot
    apply_call-Grows t = elim (Bool-cases (ltb 1025 c.depth)) [
      | inl deep ↦ rw deep (Grows-same t t refl)
      | inr shallow ↦ rw shallow (
          Grows-trans t (touch_account s.committed c.address (snapshot t).1) _
            (record { more = t.tree ∷ []; extends = refl })
            (funded-Grows (snapshot t).0 (touch_account s.committed c.address (snapshot t).1) _
              (snapshots-moved (is_plain_call c.typ) s.committed c.caller c.address c.value _)))
    ]

    created-Grows :
        (id : ℕ) (t : Txn) (r : ExecutionResult × Txn)
        → Grows t r.1
        → Grows t (created_by s c id r).1
    unfolding created_by store_code set_code upsert_account insert
    created-Grows id t (r, u) g =
        Grows-trans t u _ g (Grows-same u _ (ground (arith, snapshots-revert id u)))

    create_funded-Grows :
        (id : ℕ) (t : Txn) (o : Option Txn)
        → ((u : Txn) → o ≡ some u → u.snapshots ≡ t.snapshots)
        → Grows t (create_funded s h c id t o).1
    unfolding create_funded
    create_funded-Grows id t none k = Grows-same t t refl
    create_funded-Grows id t (some u) k =
        created-Grows id t _ (Grows-trans t u _ (Grows-same t u (k u refl)) (run-Grows u))

    apply_create-Grows : (t : Txn) → Grows t (apply_create s h c t).1
    unfolding apply_create incr_nonce upsert_account insert snapshot
    apply_create-Grows t = elim (Bool-cases (ltb 1025 c.depth)) [
      | inl deep ↦ rw deep (Grows-same t t refl)
      | inr shallow ↦
          elim (Bool-cases (has_code_or_nonce s c.address (incr_nonce s.committed c.caller t))) [
            | inl taken ↦ rw (shallow, taken) (Grows-same t _ refl)
            | inr vacant ↦
                let counted = incr_nonce s.committed c.caller t in
                let fresh = new_account s c.address (snapshot counted).1 in
                rw (shallow, vacant)
                  (Grows-trans t fresh _
                    (record {
                      more = counted.tree ∷ [];
                      extends = snapshots-new_account s c.address (snapshot counted).1;
                    })
                    (create_funded-Grows (snapshot counted).0 fresh _
                      (snapshots-transfer s.committed c.caller c.address c.value fresh)))
          ]
    ]

    callx_in-Grows : (t : Txn) → Grows t (callx_in s h t c).1
    unfolding callx_in
    callx_in-Grows t = elim (Bool-cases (is_creation c.typ)) [
      | inl makes ↦ rw makes (apply_create-Grows t)
      | inr calls ↦ rw calls (apply_call-Grows t)
    ]

  module _ (ctx : TxContext) where
    pub host_with-Steady :
        (f : Txn → Contract → ExecutionResult × Txn)
        → ((t : Txn) (c : Contract) → Grows t (f t c).1)
        → Steady (host_with s ctx f) Grows
    unfolding host_with emit_log
    host_with-Steady f k = record {
      order = Grows-order;
      set_storage_kept = λ t a k v f. Grows-same t _ (snapshots-set_storage s.committed t a k v f);
      selfdestruct_kept = λ t a b. Grows-same t _ (snapshots-selfdestruct s t a b);
      emit_log_kept = λ t a topics bytes. Grows-same t _ refl;
      callx_kept = k;
    }

    pub callx_at-Grows : (n : ℕ) (t : Txn) (c : Contract) → Grows t (callx_at s ctx n t c).1
    unfolding callx_at
    callx_at-Grows zero t c = elim (Bool-cases (ltb 1025 c.depth)) [
      | inl deep ↦ rw deep (Grows-same t t refl)
      | inr shallow ↦ rw shallow (Grows-same t t refl)
    ]
    callx_at-Grows (suc n) t c =
        callx_in-Grows (host_with s ctx (callx_at s ctx n))
          (host_with-Steady (callx_at s ctx n) (callx_at-Grows n)) c t

    pub host-Steady : Steady (host s ctx) Grows
    unfolding host
    host-Steady = host_with-Steady (callx_at s ctx 1025) (callx_at-Grows 1025)
