-- ===== src/State/Transition/Admission.antt =====
-- The checks of `apply`: which transactions are run, and on what.
use dogesyncer.Prelude.{
  ℕ, ◌+◌, ◌-◌, ◌*◌, ◌%◌, ◌^◌, ◌≤◌, ◌<◌, ◌≡◌, refl, ap, some, ltb, leb, ◌⊎◌, inl, inr, arith,
  Bool-cases,
}
use dogesyncer.Runtime.{ExecutionResult}
use dogesyncer.State.Gas.{tx_gas}
use dogesyncer.State.Gas.Bounds.{full_cost, if_fits, transaction_gas_cost-exact}
use dogesyncer.State.Txn.{Committed, Txn, sub_balance, get_balance}
use dogesyncer.State.Txn.Accounts.{get_nonce}
use dogesyncer.State.Txn.Transfer.{Taken, sub_balance-cases}
use dogesyncer.State.Call.Snapshots.{snapshots-sub_balance}
use dogesyncer.State.Transition.{
  Message, Transition, Outcome, refused, ApplicationError, nonce_check, sub_gas_limit_price,
  sub_gas_pool, intrinsic_cost, gas_message, admit, resume, cost_or_refuse, execute, apply,
}

-- The cost of a transaction before it runs, as a number without a bound.
abbrev pub intrinsic_gas : Message → Transition → ℕ
intrinsic_gas msg t =
    full_cost (gas_message msg) t.setting.config.homestead t.setting.config.istanbul

-- What a transaction that is run has: gas in the block for it, the nonce that is next, the balance
-- for its gas and its value, and the gas for its payload.
pub record IsAdmissible (msg : Message) (t : Transition) : Type 0 where
  pub room : tx_gas ≤ t.gas_pool
  pub next : msg.nonce ≡ get_nonce t.setting.committed t.state msg.from
  pub affordable :
      msg.gas_price * msg.gas + msg.value ≤ get_balance t.setting.committed t.state msg.from
  pub fits : msg.gas ≤ t.gas_pool
  pub covered : intrinsic_gas msg t ≤ msg.gas

-- What `apply` has charged when it starts the run.
pub record Charged (msg : Message) (t : Transition) (r : Outcome ExecutionResult × Transition)
    : Type 0 where
  pub paid : Txn
  pub admissible : IsAdmissible msg t
  pub bought :
      sub_balance t.setting.committed msg.from (msg.gas_price * msg.gas) t.state ≡ some paid
  pub runs :
      r
      ≡ execute msg
          (msg.gas - intrinsic_gas msg t)
          (record t { state = paid; gas_pool = t.gas_pool - msg.gas })

-- What `apply` leaves of a transaction that it refuses. The gas may have been taken from the pool.
pub record IsRefused (msg : Message) (t : Transition) (r : Outcome ExecutionResult × Transition)
    : Type 0 where
  pub error : ApplicationError
  pub says : r.0 ≡ refused error
  pub snapshots : r.1.state.snapshots ≡ t.state.snapshots
  pub receipts : r.1.receipts ≡ t.receipts
  pub total_gas : r.1.total_gas ≡ t.total_gas
  pub setting : r.1.setting ≡ t.setting
  pub gas_pool : (r.1.gas_pool ≡ t.gas_pool) ⊎ (r.1.gas_pool + msg.gas ≡ t.gas_pool)

at_once : (msg : Message) (t : Transition) (x : ApplicationError) → IsRefused msg t (refused x, t)
at_once msg t x = record {
  error = x;
  says = refl;
  snapshots = refl;
  receipts = refl;
  total_gas = refl;
  setting = refl;
  gas_pool = inl refl;
}

module _ (msg : Message) (t : Transition) where
  abbrev pub Decided : Outcome ExecutionResult × Transition → Type 0
  Decided r = Charged msg t r ⊎ ((IsAdmissible msg t → ⊥) × IsRefused msg t r)

module _ (msg : Message) (g : msg.gas < 2 ^ 64) (t : Transition) where
  abbrev c : Committed
  c = t.setting.committed

  abbrev cost : ℕ
  cost = intrinsic_gas msg t

  abbrev charged : Txn → Transition
  charged paid = record t { state = paid; gas_pool = t.gas_pool - msg.gas }

  bought_for_nothing :
      {paid : Txn}
      → sub_balance c msg.from (msg.gas_price * msg.gas) t.state ≡ some paid
      → (pool : ℕ) → (pool ≡ t.gas_pool) ⊎ (pool + msg.gas ≡ t.gas_pool)
      → (x : ApplicationError)
      → IsRefused msg t (refused x, record t { state = paid; gas_pool = pool })
  bought_for_nothing {paid = paid} taken pool p x = record {
    error = x;
    says = refl;
    snapshots = snapshots-sub_balance c msg.from (msg.gas_price * msg.gas) t.state paid taken;
    receipts = refl;
    total_gas = refl;
    setting = refl;
    gas_pool = p;
  }

  -- The checks behind the purchase of the gas.
  decide_gas :
      (bought : Taken c msg.from (msg.gas_price * msg.gas) t.state)
      → tx_gas ≤ t.gas_pool
      → msg.nonce ≡ get_nonce c t.state msg.from
      → msg.gas ≤ t.gas_pool
      → Decided msg t (
          resume
            (cost_or_refuse (if_fits cost) (charged bought.paid)).0
            (λ n. admit msg ((msg.gas + 2 ^ 64 - n) % 2 ^ 64))
            (cost_or_refuse (if_fits cost) (charged bought.paid)).1)
  unfolding admit
  decide_gas bought room next fits = elim (Bool-cases (leb (2 ^ 64) cost)) [
    | inl over ↦ rw over (
        inr (
          λ a. absurd (ground (arith, a.covered)),
          bought_for_nothing bought.taken _ (inr (omega arith)) _,
        ))
    | inr bounded ↦ elim (Bool-cases (ltb msg.gas ((msg.gas + 2 ^ 64 - cost) % 2 ^ 64))) [
      | inl short ↦
          rw (bounded, short)
            (inr (
              λ a. absurd (ground (arith, a.covered)),
              bought_for_nothing bought.taken _ (inr (omega arith)) _,
            ))
      | inr enough ↦ elim (Bool-cases (ltb (get_balance c bought.paid msg.from) msg.value)) [
        | inl poor ↦
            rw (bounded, enough, poor)
              (inr (
                λ a. absurd (ground (arith, a.affordable, bought.left)),
                bought_for_nothing bought.taken _ (inr (omega arith)) _,
              ))
        | inr rich ↦
            rw (bounded, enough, rich)
              (let covered : cost ≤ msg.gas = ground arith in
                inl (record {
                  paid = bought.paid;
                  bought = bought.taken;
                  runs = ap (λ n. execute msg n (charged bought.paid)) (omega arith);
                  admissible = record {
                    room = room;
                    next = next;
                    fits = fits;
                    covered = covered;
                    affordable = ground (arith, bought.left);
                  };
                }))
      ]
    ]
  ]

  pub decide : Decided msg t (apply msg t)
  unfolding apply nonce_check sub_gas_limit_price sub_gas_pool intrinsic_cost
  decide = elim (Bool-cases (ltb t.gas_pool tx_gas)) [
    | inl full ↦ rw full (inr (λ a. absurd (ground (arith, a.room)), at_once msg t _))
    | inr room ↦ elim (Bool-cases (ltb msg.nonce (get_nonce c t.state msg.from))) [
      | inl low ↦ rw (room, low) (inr (λ a. absurd (ground (arith, a.next)), at_once msg t _))
      | inr not_low ↦ elim (Bool-cases (ltb (get_nonce c t.state msg.from) msg.nonce)) [
        | inl high ↦
            rw (room, not_low, high) (inr (λ a. absurd (ground (arith, a.next)), at_once msg t _))
        | inr not_high ↦ elim (sub_balance-cases c msg.from (msg.gas_price * msg.gas) t.state) [
          | inr (poor, less) ↦
              rw (room, not_low, not_high, poor)
                (inr (λ a. absurd (ground (arith, a.affordable)), at_once msg t _))
          | inl bought ↦ elim (Bool-cases (ltb t.gas_pool msg.gas)) [
            | inl large ↦
                rw (room, not_low, not_high, bought.taken, large)
                  (inr (
                    λ a. absurd (ground (arith, a.fits)),
                    bought_for_nothing bought.taken _ (inl refl) _,
                  ))
            | inr small ↦
                rw
                  (
                    room,
                    not_low,
                    not_high,
                    bought.taken,
                    small,
                    transaction_gas_cost-exact (gas_message msg) t.setting.config.homestead
                        t.setting.config.istanbul,
                  )
                  (decide_gas bought (ground arith) (ground arith) (ground arith))
          ]
        ]
      ]
    ]
  ]
