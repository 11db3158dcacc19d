-- ===== src/State/Transition/Block/Ledger.antt =====
-- The steps of `Write` around `Apply`: what they keep of the gas of the block, and the receipt.
use dogesyncer.Prelude.{
  ℕ, ◌≡◌, refl, ap, ◌∙◌, Bool, true, false, Option, none, some, List, [], ◌∷◌, ◌++◌, ◌==◌,
  if◌then◌else◌, Bool-cases, inl, inr,
}
use dogesyncer.Chain.Forks.{ForksInTime}
use dogesyncer.Runtime.{ExecutionResult, Runtime}
use dogesyncer.State.Txn.{Txn, Log, sub_balance}
use dogesyncer.State.Transition.{
  Message, Cause, Receipt, Transition, Outcome, done, refused, Act, resume, refuse, yield, ◌>>=◌,
}
use dogesyncer.State.Transition.Apply.{is_done}
use dogesyncer.State.Transition.Block.{
  BridgeEvent, Outside, deposited, withdrawn, burned, malformed, other, pay, withdraw,
  withdrawn_from, bridge_effect, bridge_logs, handle_bridge_logs, sender_of, found_sender, finalise,
  take_logs, add_receipt, receipt_for, write_receipt, write_failed_receipt,
}

-- What no step but `Apply`, the counting and the receipt changes.
abbrev pub meter : Transition → ℕ × ℕ × List Receipt × List (Runtime Txn) × ForksInTime
meter t = (t.gas_pool, t.total_gas, t.receipts, t.setting.runtimes, t.setting.config)

pub record IsCalm {A : Type 0} (m : Act A) : Type 0 where
  pub at : (t : Transition) → meter (m t).1 ≡ meter t

IsCalm-yield : {A : Type 0} (a : A) → IsCalm (yield a)
IsCalm-yield a = record { at = λ t. refl }

IsCalm-refuse : {A : Type 0} (x : Cause) (b : Bool) → IsCalm (refuse {A = A} x b)
IsCalm-refuse x b = record { at = λ t. refl }

IsCalm-bind :
    {A B : Type 0} (m : Act A) (f : A → Act B)
    → IsCalm m
    → ((a : A) → IsCalm (f a))
    → IsCalm (m >>= f)
IsCalm-bind {A = A} m f p q = record { at = λ t. go t (m t).0 (m t).1 (p.at t) }
  where
    go :
        (t : Transition) (o : Outcome A) (u : Transition)
        → meter u ≡ meter t
        → meter (resume o f u).1 ≡ meter t
    go t (done a) u k = (q a).at u ∙ k
    go t (refused x) u k = k

IsCalm-if :
    {A : Type 0} (b : Bool) (m n : Act A) → IsCalm m → IsCalm n → IsCalm (if b then m else n)
IsCalm-if true m n p q = p
IsCalm-if false m n p q = q

IsCalm-pay : (addr amount : ℕ) → IsCalm (pay addr amount)
IsCalm-pay addr amount = record { at = λ t. refl }

IsCalm-withdraw : (addr amount : ℕ) → IsCalm (withdraw addr amount)
IsCalm-withdraw addr amount = record {
  at = λ t. go t (sub_balance t.setting.committed addr amount t.state);
}
  where
    go : (t : Transition) (o : Option Txn) → meter (withdrawn_from t o).1 ≡ meter t
    go t none = refl
    go t (some u) = refl

ruleset calm_rules =
    (IsCalm-yield, IsCalm-refuse, IsCalm-bind, IsCalm-if, IsCalm-pay, IsCalm-withdraw)

IsCalm-bridge_effect : (e : BridgeEvent) → IsCalm (bridge_effect e)
unfolding bridge_effect
IsCalm-bridge_effect (deposited r a) = search calm_rules
IsCalm-bridge_effect (withdrawn c a f) = search calm_rules
IsCalm-bridge_effect (burned s a) = search calm_rules
IsCalm-bridge_effect malformed = search calm_rules
IsCalm-bridge_effect other = search calm_rules

module _ (x : Outside) where
  IsCalm-bridge_logs : (ls : List Log) → IsCalm (bridge_logs x ls)
  unfolding bridge_logs
  IsCalm-bridge_logs [] = search calm_rules
  IsCalm-bridge_logs (l ∷ rest) =
      IsCalm-bind _ _ (IsCalm-if _ _ _ (IsCalm-bridge_effect (x.bridge_event l)) (IsCalm-yield tt))
        (λ _. IsCalm-bridge_logs rest)

  IsCalm-handle_bridge_logs : (to : Option ℕ) (ls : List Log) → IsCalm (handle_bridge_logs x to ls)
  unfolding handle_bridge_logs
  IsCalm-handle_bridge_logs none ls = search calm_rules
  IsCalm-handle_bridge_logs (some to) ls = search (calm_rules, IsCalm-bridge_logs)

  pub IsCalm-sender_of : (msg : Message) → IsCalm (sender_of x msg)
  unfolding sender_of
  IsCalm-sender_of msg = IsCalm-if (msg.from == 0) _ _ (go (x.sender msg)) (IsCalm-yield msg.from)
    where
      go : (o : Option ℕ) → IsCalm (found_sender x o)
      go none = IsCalm-refuse _ _
      go (some from) = IsCalm-yield from

  IsCalm-take_logs : IsCalm (take_logs x)
  IsCalm-take_logs = record { at = λ t. refl }

  IsCalm-finalise : (r : ExecutionResult) → IsCalm (finalise x r)
  unfolding finalise
  IsCalm-finalise r = record {
    at = λ t. elim (Bool-cases t.setting.config.byzantium) [
      | inl now ↦ rw now refl
      | inr before ↦ rw before refl
    ];
  }

-- What a receipt with its gas adds.
pub record Recorded (n : ℕ) (t u : Transition) : Type 0 where
  pub receipt : Receipt
  pub cumulative : receipt.cumulative_gas_used ≡ t.total_gas
  pub gas_used : receipt.gas_used ≡ n
  pub added : meter u ≡ meter (record t { receipts = t.receipts ++ receipt ∷ [] })

-- An action that ends with one receipt.
pub record Records {A : Type 0} (n : ℕ) (m : Act A) : Type 0 where
  pub at : (t : Transition) → is_done (m t).0 ≡ true → Recorded n t (m t).1

Records-bind :
    {A B : Type 0} (n : ℕ) (m : Act A) (f : A → Act B)
    → IsCalm m
    → ((a : A) → Records n (f a))
    → Records n (m >>= f)
Records-bind {A = A} n m f p q = record { at = λ t. go t (m t).0 (m t).1 (p.at t) }
  where
    go :
        (t : Transition) (o : Outcome A) (u : Transition)
        → meter u ≡ meter t
        → is_done (resume o f u).0 ≡ true
        → Recorded n t (resume o f u).1
    go t (done a) u k ran =
        let after = (q a).at u ran in
        record {
          receipt = after.receipt;
          cumulative = after.cumulative ∙ ap (λ (m : _). m.1) k;
          gas_used = after.gas_used;
          added = after.added ∙ ap (λ m. (m.0, m.1, m.2 ++ after.receipt ∷ [], m.3, m.4)) k;
        }
    go t (refused x) u k ran = cc

module _ (x : Outside) where
  Records-add_receipt :
      (n : ℕ) (f : Transition → Receipt)
      → ((t : Transition) → ((f t).cumulative_gas_used ≡ t.total_gas) × ((f t).gas_used ≡ n))
      → Records n (add_receipt x f)
  Records-add_receipt n f h = record {
    at = λ t ran. record { receipt = f t; cumulative = (h t).0; gas_used = (h t).1; added = refl };
  }

  pub Records-write_receipt :
      (msg : Message) (r : ExecutionResult) → Records r.gas_used (write_receipt x msg r)
  unfolding write_receipt
  Records-write_receipt msg r = Records-bind _ _ _ (IsCalm-take_logs x) λ ls.
      Records-bind _ _ _ (IsCalm-finalise x r) λ end.
        Records-bind _ _ _ (IsCalm-handle_bridge_logs x msg.to ls) λ _.
          Records-add_receipt r.gas_used (receipt_for x msg r.gas_used end.0 end.1 ls)
            (λ t. (refl, refl))

  pub Records-write_failed_receipt : (msg : Message) → Records 0 (write_failed_receipt x msg)
  unfolding write_failed_receipt
  Records-write_failed_receipt msg = Records-bind _ _ _ (IsCalm-sender_of x msg) λ from.
      Records-bind _ _ _ (IsCalm-take_logs x) λ ls.
        Records-add_receipt 0 (receipt_for x (record msg { from = from }) 0 (some false) none ls)
          (λ t. (refl, refl))
