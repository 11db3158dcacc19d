-- ===== src/State/Txn/Storage.antt =====
-- state/txn.go: what `GetState` reads after `SetStorage`.
use dogesyncer.Prelude.{
  ℕ, Bool, true, false, Option, none, some, ◌≡◌, refl, ◌∙◌, ap, arith, ◌==◌, ◌&&◌, if◌then◌else◌,
  Bool-cases, inl, inr,
}
use dogesyncer.Chain.Forks.{ForksInTime}
use dogesyncer.State.Txn.{
  Committed, Txn, StateObject, Account, or_else, get_state_object, found_object, upsert_account,
  insert, new_state_object, set_refund, get_refund,
}
use dogesyncer.State.Txn.Slots.{
  get_state, slot_of, slot_in, with_slot, get_committed, set_state, set_storage, keep_refund,
}

found_alive :
    (m : Option StateObject) (a : Option Account) (d : StateObject)
    → d.deleted ≡ false
    → (or_else (found_object m a) d).deleted ≡ false
unfolding found_object
found_alive (some o) a d h = ground arith
found_alive none none d h = h
found_alive none (some x) d h = refl

found_some :
    (o : StateObject) (a : Option Account) → o.deleted ≡ false → found_object (some o) a ≡ some o
unfolding found_object
found_some o a h = ground arith

pub if_at :
    {A B : Type 0} (P : A → B) (b : Bool) (x y : A)
    → P (if b then x else y) ≡ (if b then P x else P y)
if_at P true x y = refl
if_at P false x y = refl

deleted-with_slot : (key value : ℕ) (o : StateObject) → (with_slot key value o).deleted ≡ o.deleted
unfolding with_slot
deleted-with_slot key value o = refl

module _ (c : Committed) where
  -- What is found after an account has been put in.
  pub get_state_object-upsert :
      (f : StateObject → StateObject) (t : Txn) (addr a : ℕ)
      → ((o : StateObject) → (f o).deleted ≡ o.deleted)
      → get_state_object c (upsert_account c addr f t) a ≡ (
          if a == addr
          then some (f (or_else (get_state_object c t addr) (new_state_object c)))
          else get_state_object c t a)
  unfolding get_state_object upsert_account insert new_state_object
  get_state_object-upsert f t addr a keeps = elim (Bool-cases (a == addr)) [
    | inl here ↦ rw here (
        found_some _ (c.account_at a)
          (keeps _ ∙ found_alive (t.tree.objects addr) (c.account_at addr) _ refl))
    | inr there ↦ rw there refl
  ]

  -- A slot that has been written, on the account that is there or on a new one.
  slot-written :
      (m : Option StateObject) (key value k : ℕ)
      → slot_of c (with_slot key value (or_else m (new_state_object c))) k
        ≡ (if k == key then value else slot_in c m k)
  unfolding slot_of slot_in get_committed new_state_object with_slot
  slot-written none key value k = ground arith
  slot-written (some o) key value k = ground arith

  get_state-set_state :
      (t : Txn) (addr key value a k : ℕ)
      → get_state c (set_state c addr key value t) a k
        ≡ (if a == addr && k == key then value else get_state c t a k)
  unfolding get_state set_state slot_in
  get_state-set_state t addr key value a k =
      ap (λ m. slot_in c m k)
        (get_state_object-upsert (with_slot key value) t addr a
          (λ o. deleted-with_slot key value o))
      ∙ if_at (λ m. slot_in c m k) (a == addr) _ _
      ∙ elim (Bool-cases (a == addr)) [
        | inl here ↦
            let e : a ≡ addr = ground arith in
            rw (here, e) (slot-written (get_state_object c t addr) key value k)
        | inr there ↦ rw there refl
      ]

  get_state-keep_refund :
      (n : ℕ) (t : Txn) (a k : ℕ) → get_state c (keep_refund n t) a k ≡ get_state c t a k
  unfolding get_state get_state_object keep_refund set_refund
  get_state-keep_refund n t a k = elim (Bool-cases (n == get_refund t)) [
    | inl kept ↦ rw kept refl
    | inr changed ↦ rw changed refl
  ]

  same_slot :
      (t : Txn) (addr key value a k : ℕ)
      → (get_state c t addr key == value) ≡ true
      → get_state c t a k ≡ (if a == addr && k == key then value else get_state c t a k)
  same_slot t addr key value a k same = elim (Bool-cases (a == addr && k == key)) [
    | inl here ↦
        let e : a ≡ addr = ground arith in
        let e' : k ≡ key = ground arith in
        rw here (ap (λ x. get_state c t x k) e ∙ ap (λ x. get_state c t addr x) e' ∙ ground arith)
    | inr there ↦ rw there refl
  ]

  -- After SetStorage a slot reads as the word that was written, whatever the status and the refund,
  -- and every other slot of every account as before.
  pub get_state-set_storage :
      (t : Txn) (addr key value : ℕ) (config : ForksInTime) (a k : ℕ)
      → get_state c (set_storage c t addr key value config).1 a k
        ≡ (if a == addr && k == key then value else get_state c t a k)
  unfolding set_storage
  get_state-set_storage t addr key value config a k =
      elim (Bool-cases (get_state c t addr key == value)) [
        | inl same ↦ rw same (same_slot t addr key value a k same)
        | inr differs ↦ rw differs (
            get_state-keep_refund _ (set_state c addr key value t) a k
            ∙ get_state-set_state t addr key value a k)
      ]
