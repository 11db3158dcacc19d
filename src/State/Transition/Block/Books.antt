-- ===== src/State/Transition/Block/Books.antt =====
-- The books of a block: its pool, its total gas, its receipts, and what an action does to them.
use dogesyncer.Prelude.{
  ℕ, ◌+◌, ◌^◌, ◌<◌, ◌≡◌, refl, sym, ap, ◌∙◌, subst, Bool, true, List, [], ◌∷◌, ◌++◌, length,
  length-append, arith,
}
use dogesyncer.State.Call.{Setting}
use dogesyncer.State.Transition.{
  Message, Receipt, Transition, Outcome, done, refused, Act, resume, ◌>>=◌,
}
use dogesyncer.State.Transition.Apply.{is_done}
use dogesyncer.State.Transition.Block.Ledger.{meter, Recorded}

-- The cumulative gas of each receipt is that of the one before and its own.
pub data Running : ℕ → List Receipt → ℕ → Type 0 where
  start : {n : ℕ} → Running n [] n
  step :
      {n m : ℕ} {r : Receipt} {rest : List Receipt}
      → r.cumulative_gas_used ≡ n + r.gas_used
      → Running r.cumulative_gas_used rest m
      → Running n (r ∷ rest) m

Running-append :
    (n m : ℕ) (rs : List Receipt) (r : Receipt)
    → Running n rs m
    → r.cumulative_gas_used ≡ m + r.gas_used
    → Running n (rs ++ r ∷ []) r.cumulative_gas_used
Running-append n m [] r start e = step e start
Running-append n m (x ∷ rs) r (step h k) e = step h (Running-append _ m rs r k e)

-- The books of a block whose gas limit is `limit`, with `k` receipts, behind which a transaction has
-- used `n` more.
pub record Books (s : Setting) (limit k n : ℕ) (t : Transition) : Type 0 where
  pub settled : ℕ
  pub running : Running 0 t.receipts settled
  pub pool : t.gas_pool + t.total_gas ≡ limit
  pub unsettled : settled + n ≡ t.total_gas
  pub count : length t.receipts ≡ k
  pub runtimes : t.setting.runtimes ≡ s.runtimes
  pub config : t.setting.config ≡ s.config

-- Each transaction's gas is a uint64.
pub data AllBounded : List (Bool × Message) → Type 0 where
  nil : AllBounded []
  cons :
      {stopped : Bool} {msg : Message} {rest : List (Bool × Message)}
      → msg.gas < 2 ^ 64
      → AllBounded rest
      → AllBounded ((stopped, msg) ∷ rest)

pub done-injective : {A : Type 0} {a b : A} → done a ≡ done b → a ≡ b
done-injective {a = a} h = ap (λ o. elim o [ done v ↦ v | refused x ↦ a ]) h

-- How an action goes on that has a result.
pub record Went {A B : Type 0} (m : Act A) (f : A → Act B) (t : Transition) : Type 0 where
  pub value : A
  pub said : (m t).0 ≡ done value
  pub same : (m >>= f) t ≡ f value (m t).1

pub bind-Went :
    {A B : Type 0} (m : Act A) (f : A → Act B) (t : Transition)
    → is_done ((m >>= f) t).0 ≡ true
    → Went m f t
bind-Went {A = A} m f t = go (m t).0 refl
  where
    go : (o : Outcome A) → (m t).0 ≡ o → is_done (resume o f (m t).1).0 ≡ true → Went m f t
    go (done a) e ran = record { value = a; said = e; same = ap (λ o. resume o f (m t).1) e }
    go (refused x) e ran = cc

module _ (s : Setting) (limit : ℕ) where
  pub meter-Books :
      (k n : ℕ) (t u : Transition) → Books s limit k n t → meter u ≡ meter t → Books s limit k n u
  meter-Books k n t u b e = record {
    settled = b.settled;
    running = subst (λ rs. Running 0 rs b.settled) (sym (ap (λ m. m.2) e)) b.running;
    pool = cc;
    unsettled = b.unsettled ∙ sym (ap (λ m. m.1) e);
    count = ap (λ m. length m.2) e ∙ b.count;
    runtimes = ap (λ m. m.3) e ∙ b.runtimes;
    config = ap (λ m. m.4) e ∙ b.config;
  }

  pub Recorded-Books :
      (k n : ℕ) (t u : Transition)
      → Books s limit k n t
      → Recorded n t u
      → Books s limit (k + 1) 0 u
  Recorded-Books k n t u b r =
      let with_receipt = record t { receipts = t.receipts ++ r.receipt ∷ [] } in
      let books : Books s limit (k + 1) 0 with_receipt = record {
        settled = r.receipt.cumulative_gas_used;
        running =
            Running-append 0 b.settled t.receipts r.receipt b.running
              (r.cumulative ∙ sym b.unsettled ∙ ap (λ g. b.settled + g) (sym r.gas_used));
        pool = b.pool;
        unsettled = omega (arith, r.cumulative);
        count = length-append t.receipts (r.receipt ∷ []) ∙ ap (λ l. l + 1) b.count;
        runtimes = b.runtimes;
        config = b.config;
      } in
      meter-Books (k + 1) 0 with_receipt u books r.added
