-- ===== src/State/Txn/Transfer.antt =====
-- state/txn.go and state/executor.go: what `transfer` does to the balances.
use dogesyncer.Prelude.{
  ℕ, Bool, true, false, Option, none, some, ◌+◌, ◌-◌, ◌<◌, ◌≡◌, refl, sym, ◌∙◌, ap, arith, ◌==◌,
  ◌⊎◌, if◌then◌else◌, Bool-cases, inl, inr,
}
use dogesyncer.State.Txn.{
  Committed, Txn, StateObject, or_else, get_state_object, get_balance, balance_of, add_balance,
  sub_balance, with_balance, upsert_account, new_state_object,
}
use dogesyncer.State.Txn.Storage.{get_state_object-upsert, if_at}

abbrev pub add_to : Committed → ℕ → ℕ → Option Txn → Option Txn
add_to c to amount none = none
add_to c to amount (some t) = some (add_balance c to amount t)

-- `transfer`: a nil amount moves nothing. `none` is `ErrInsufficientBalance`.
unfoldable pub transfer : Committed → ℕ → ℕ → Option ℕ → Txn → Option Txn
transfer c from to none t = some t
transfer c from to (some amount) t = add_to c to amount (sub_balance c from amount t)

-- `SubBalance` with enough on the account.
pub record Taken (c : Committed) (addr amount : ℕ) (t : Txn) : Type 0 where
  pub paid : Txn
  pub taken : sub_balance c addr amount t ≡ some paid
  pub left : get_balance c paid addr + amount ≡ get_balance c t addr

-- The two ways to a result behind two tests.
some_cases :
    {A : Type 0} (b d : Bool) (x y z : A)
    → (if b then some x else if d then none else some y) ≡ some z
    → ((b ≡ true) × (x ≡ z)) ⊎ ((d ≡ false) × (y ≡ z))
some_cases true d x y z h = inl (refl, cc)
some_cases false true x y z h = cc
some_cases false false x y z h = inr (refl, cc)

module _ (c : Committed) where
  balance-upsert :
      (f : ℕ → ℕ) (t : Txn) (addr a : ℕ)
      → get_balance c (upsert_account c addr (with_balance f) t) a
        ≡ (if a == addr then f (get_balance c t addr) else get_balance c t a)
  unfolding get_balance with_balance balance_of new_state_object
  balance-upsert f t addr a =
      ap balance_of (get_state_object-upsert c (with_balance f) t addr a (λ o. refl))
      ∙ if_at balance_of (a == addr) _ _
      ∙ ap (λ n. if a == addr then f n else get_balance c t a)
          (balance-or_else (get_state_object c t addr))
    where
      balance-or_else :
          (m : Option StateObject) → (or_else m (new_state_object c)).account.balance ≡ balance_of m
      balance-or_else none = refl
      balance-or_else (some o) = refl

  balance-add :
      (t : Txn) (addr amount a : ℕ)
      → get_balance c (add_balance c addr amount t) a
        ≡ get_balance c t a + (if a == addr then amount else 0)
  unfolding add_balance
  balance-add t addr amount a =
      balance-upsert (λ b. b + amount) t addr a ∙ elim (Bool-cases (a == addr)) [
        | inl here ↦ let e : a ≡ addr = ground arith in rw (here, e) refl
        | inr there ↦ rw there (omega arith)
      ]

  pub balance-sub :
      (t t' : Txn) (addr amount : ℕ)
      → sub_balance c addr amount t ≡ some t'
      → (a : ℕ) → get_balance c t' a + (if a == addr then amount else 0) ≡ get_balance c t a
  unfolding sub_balance
  balance-sub t t' addr amount h a = elim (some_cases _ _ _ _ _ h) [
    | inl (nothing, same) ↦
        ap (λ x. get_balance c x a + (if a == addr then amount else 0)) (sym same) ∙ ground arith
    | inr (enough, taken) ↦
        ap (λ x. get_balance c x a + (if a == addr then amount else 0)) (sym taken)
        ∙ ap (λ n. n + (if a == addr then amount else 0))
            (balance-upsert (λ b. b - amount) t addr a)
        ∙ elim (Bool-cases (a == addr)) [
          | inl here ↦ let e : a ≡ addr = ground arith in rw (here, e) (ground arith)
          | inr there ↦ rw there (omega arith)
        ]
  ]

  -- What `SubBalance` does to the account that it takes from.
  pub sub_balance-cases :
      (addr amount : ℕ) (t : Txn)
      → Taken c addr amount t
        ⊎ ((sub_balance c addr amount t ≡ none) × (get_balance c t addr < amount))
  unfolding sub_balance
  sub_balance-cases addr amount t = after (sub_balance c addr amount t) refl
    where
      after :
          (o : Option Txn)
          → sub_balance c addr amount t ≡ o
          → Taken c addr amount t
            ⊎ ((sub_balance c addr amount t ≡ none) × (get_balance c t addr < amount))
      after none e = inr (e, ground arith)
      after (some u) e = inl (record {
        paid = u;
        taken = e;
        left = ground (arith, balance-sub t u addr amount e addr);
      })

  -- Where `transfer` of an amount succeeds, the balance of every account changes by what it has
  -- received less what it has sent, also where both are the same account.
  pub transfer-balances :
      (t t' : Txn) (from to amount : ℕ)
      → transfer c from to (some amount) t ≡ some t'
      → (a : ℕ)
      → get_balance c t' a + (if a == from then amount else 0)
        ≡ get_balance c t a + (if a == to then amount else 0)
  unfolding transfer
  transfer-balances t t' from to amount h a = after (sub_balance c from amount t) refl h
    where
      after :
          (r : Option Txn)
          → sub_balance c from amount t ≡ r
          → add_to c to amount r ≡ some t'
          → get_balance c t' a + (if a == from then amount else 0)
            ≡ get_balance c t a + (if a == to then amount else 0)
      after none p q = cc
      after (some u) p q =
          let same : add_balance c to amount u ≡ t' = cc in
          let added : get_balance c t' a ≡ get_balance c u a + (if a == to then amount else 0) =
            ap (λ x. get_balance c x a) (sym same) ∙ balance-add u to amount a in
          omega (arith, added, balance-sub t u from amount p a)
