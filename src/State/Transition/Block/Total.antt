-- ===== src/State/Transition/Block/Total.antt =====
-- The gas of a block, from its first transaction to its last.
use dogesyncer.Prelude.{
  ℕ, suc, ◌+◌, ◌^◌, ◌<◌, ◌≡◌, refl, sym, ap, ◌∙◌, subst, Bool, true, false, List, [], ◌∷◌, ltb,
  if◌then◌else◌, length, arith, Bool-cases, inl, inr,
}
use dogesyncer.Runtime.{ExecutionResult, TxContext}
use dogesyncer.State.Call.{Setting}
use dogesyncer.State.Call.Gas.{AllSound}
use dogesyncer.State.Transition.{Message, Transition, Outcome, Act, apply_message}
use dogesyncer.State.Transition.Apply.{is_done}
use dogesyncer.State.Transition.Pool.{IsMetered, apply_message-IsMetered}
use dogesyncer.State.Transition.Block.{
  Outside, begin_txn, sender_of, count_gas, write_sent, write, write_failed_receipt,
  process_transactions, process_block,
}
use dogesyncer.State.Transition.Block.Ledger.{
  IsCalm-sender_of, Records-write_receipt, Records-write_failed_receipt,
}
use dogesyncer.State.Transition.Block.Books.{
  Running, start, AllBounded, cons, Books, bind-Went, meter-Books, Recorded-Books, done-injective,
}

module _ (s : Setting) (sound : AllSound s.runtimes) (fork : s.config.eip150 ≡ true) (limit : ℕ)
    (bound : limit < 2 ^ 64) (x : Outside) where
  -- The counting of what a transaction has used.
  metered-Books :
      (k : ℕ) (msg : Message) (t : Transition) (r : Outcome ExecutionResult × Transition)
      → Books s limit k 0 t
      → (m : IsMetered msg t r)
      → Books s limit k m.result.gas_used (count_gas x m.result.gas_used r.1).1
  metered-Books k msg t r b m =
      let total = m.total_gas in
      let pool = m.gas_pool in
      record {
        settled = b.settled;
        running = subst (λ rs. Running 0 rs b.settled) (sym m.receipts) b.running;
        pool = omega (arith, b.pool);
        unsettled = omega (arith, b.pool, b.unsettled);
        count = ap length m.receipts ∙ b.count;
        runtimes = ap (λ (v : Setting). v.runtimes) m.setting ∙ b.runtimes;
        config = ap (λ (v : Setting). v.config) m.setting ∙ b.config;
      }

  metered :
      (k : ℕ) (msg : Message) (t : Transition)
      → msg.gas < 2 ^ 64
      → Books s limit k 0 t
      → is_done (apply_message msg t).0 ≡ true
      → IsMetered msg t (apply_message msg t)
  metered k msg t g b ran =
      apply_message-IsMetered msg t (subst AllSound (sym b.runtimes) sound)
        (ap (λ f. f.eip150) b.config ∙ fork) g (omega (arith, b.pool)) ran

  write_sent-Books :
      (k : ℕ) (msg : Message) (t : Transition)
      → msg.gas < 2 ^ 64
      → Books s limit k 0 t
      → is_done (write_sent x msg t).0 ≡ true
      → Books s limit (k + 1) 0 (write_sent x msg t).1
  unfolding write_sent
  write_sent-Books k msg t g b ran =
      let went = bind-Went (apply_message msg) _ t ran in
      let m = metered k msg t g b (ap is_done went.said) in
      let u = (apply_message msg t).1 in
      let counted = (count_gas x went.value.gas_used u).1 in
      let books : Books s limit k went.value.gas_used counted =
        subst (λ v. Books s limit k v.gas_used (count_gas x v.gas_used u).1)
          (done-injective (sym m.says ∙ went.said))
          (metered-Books k msg t (apply_message msg t) b m) in
      subst (λ r. Books s limit (k + 1) 0 r.1) (sym went.same)
        (Recorded-Books s limit k went.value.gas_used counted _ books (
          (Records-write_receipt x msg went.value).at counted
            (subst (λ r. is_done r.0 ≡ true) went.same ran)))

  write-Books :
      (k : ℕ) (msg : Message) (t : Transition)
      → msg.gas < 2 ^ 64
      → Books s limit k 0 t
      → is_done (write x msg t).0 ≡ true
      → Books s limit (k + 1) 0 (write x msg t).1
  unfolding write
  write-Books k msg t g b ran =
      let went = bind-Went (sender_of x msg) _ t ran in
      let u = (sender_of x msg t).1 in
      subst (λ r. Books s limit (k + 1) 0 r.1) (sym went.same)
        (write_sent-Books k (record msg { from = went.value }) u g
          (meter-Books s limit k 0 t u b ((IsCalm-sender_of x msg).at t))
          (subst (λ r. is_done r.0 ≡ true) went.same ran))

  write_failed_receipt-Books :
      (k : ℕ) (msg : Message) (t : Transition)
      → Books s limit k 0 t
      → is_done (write_failed_receipt x msg t).0 ≡ true
      → Books s limit (k + 1) 0 (write_failed_receipt x msg t).1
  write_failed_receipt-Books k msg t b ran =
      Recorded-Books s limit k 0 t _ b ((Records-write_failed_receipt x msg).at t ran)

  -- One transaction of a block.
  abbrev one : ℕ → Message → Act (Unit {0})
  one gas_limit msg = if ltb gas_limit msg.gas then write_failed_receipt x msg else write x msg

  one-Books :
      (k gas_limit : ℕ) (msg : Message) (t : Transition)
      → msg.gas < 2 ^ 64
      → Books s limit k 0 t
      → is_done (one gas_limit msg t).0 ≡ true
      → Books s limit (k + 1) 0 (one gas_limit msg t).1
  one-Books k gas_limit msg t g b = elim (Bool-cases (ltb gas_limit msg.gas)) [
    | inl large ↦ rw large (write_failed_receipt-Books k msg t b)
    | inr fits ↦ rw fits (write-Books k msg t g b)
  ]

  process_transactions-Books :
      (k gas_limit : ℕ) (messages : List (Bool × Message)) (t : Transition)
      → AllBounded messages
      → Books s limit k 0 t
      → is_done (process_transactions x gas_limit messages t).0 ≡ true
      → Books s limit (k + length messages) 0 (process_transactions x gas_limit messages t).1
  unfolding process_transactions
  process_transactions-Books k gas_limit [] t all b ran =
      subst (λ n. Books s limit n 0 t) (omega arith) b
  process_transactions-Books k gas_limit ((true, msg) ∷ rest) t all b ran = cc
  process_transactions-Books k gas_limit ((false, msg) ∷ rest) t (cons g all) b ran =
      let went = bind-Went (one gas_limit msg) (λ _. process_transactions x gas_limit rest) t ran in
      let u = (one gas_limit msg t).1 in
      subst (λ r. Books s limit (k + suc (length rest)) 0 r.1) (sym went.same)
        (subst (λ n. Books s limit n 0 (process_transactions x gas_limit rest u).1) (omega arith)
          (process_transactions-Books (k + 1) gas_limit rest u all
            (one-Books k gas_limit msg t g b (ap is_done went.said))
            (subst (λ r. is_done r.0 ≡ true) went.same ran)))

-- The gas of a block that has been processed.
pub record IsBalanced (limit transactions : ℕ) (t : Transition) : Type 0 where
  pub pool : t.gas_pool + t.total_gas ≡ limit
  pub count : length t.receipts ≡ transactions
  pub running : Running 0 t.receipts t.total_gas

module _ (s : Setting) (sound : AllSound s.runtimes) (fork : s.config.eip150 ≡ true) (x : Outside)
    (ctx : TxContext) (bound : ctx.gas_limit < 2 ^ 64) where
  -- From EIP-150 on and with sound runtimes, a block whose gas limit and whose transactions' gas are
  -- uint64, and that ProcessBlock processes to the end, has one receipt for each transaction, each with
  -- the cumulative gas of the one before and its own, the last with the total gas, and its total gas
  -- and what is left in the pool add up to the gas limit.
  pub process_block-IsBalanced :
      (messages : List (Bool × Message))
      → AllBounded messages
      → is_done (process_block x s ctx messages).0 ≡ true
      → IsBalanced ctx.gas_limit (length messages) (process_block x s ctx messages).1
  unfolding process_block begin_txn
  process_block-IsBalanced messages all ran =
      let b =
        process_transactions-Books s sound fork ctx.gas_limit bound x 0 ctx.gas_limit messages
          (begin_txn s ctx) all
          (record {
            settled = 0;
            running = start;
            pool = omega arith;
            unsettled = refl;
            count = refl;
            runtimes = refl;
            config = refl;
          })
          ran in
      let e : b.settled ≡ (process_block x s ctx messages).1.total_gas =
        omega (arith, b.unsettled) in
      record {
        pool = b.pool;
        count = omega (arith, b.count);
        running = subst (λ n. Running 0 (process_block x s ctx messages).1.receipts n) e b.running;
      }
