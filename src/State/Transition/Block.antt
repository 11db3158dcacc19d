-- ===== src/State/Transition/Block.antt =====
-- state/executor.go: `Write`, which applies a transaction and writes its receipt, and the loops of
-- `ProcessBlock` and `ProcessTransactions`. What they take from other packages are parameters: the
-- sender that a signature is recovered to, the hash of a transaction, the bridge's events as the
-- binding of its contract parses them, and the commit of the state interface. The bloom filters of the
-- receipts are left out. Before each transaction the flag of `Stop` is read; the reading stands with
-- the transaction.
pub mod Ledger
pub mod Books
pub mod Total
use dogesyncer.Prelude.{
  ℕ, Bool, true, false, Option, none, some, List, [], ◌∷◌, ◌++◌, ◌+◌, ◌%◌, ◌^◌, ltb, ◌==◌, not,
  if◌then◌else◌,
}
use dogesyncer.Runtime.{TxContext, ExecutionResult, failed}
use dogesyncer.State.Txn.{Committed, Txn, Log, add_balance, sub_balance}
use dogesyncer.State.Txn.Accounts.{logs, clean_delete_objects}
use dogesyncer.State.Call.{Setting}
use dogesyncer.State.Transition.{
  Message, Cause, invalid_sender, execution_stop, bridge_failure, Receipt, Transition, Outcome, Act,
  refuse, yield, ◌>>=◌, ◌>>◌, apply_message, is_contract_creation,
}

-- contracts/bridge/events.go: the events of the bridge, by their first topic
pub data BridgeEvent : Type 0 where
  deposited : (receiver amount : ℕ) → BridgeEvent
  withdrawn : (contract amount fee : ℕ) → BridgeEvent
  burned : (sender amount : ℕ) → BridgeEvent
  malformed other : BridgeEvent

pub record Outside : Type 0 where
  pub sender : Message → Option ℕ
  pub tx_hash : Message → ℕ
  pub bridge_event : Log → BridgeEvent
  pub commit : Committed → Bool → Txn → Committed × ℕ

abbrev pub addr_bridge_contract : ℕ
addr_bridge_contract = 0x1002

abbrev pub addr_vault_contract : ℕ
addr_vault_contract = 0x1003

-- `NewTxn`
abbrev pub new_txn : Txn
new_txn = record {
  snapshots = [];
  tree = record { objects = λ a. none; refund = none; logs = none };
}

-- `BeginTxn`
unfoldable pub begin_txn : Setting → TxContext → Transition
begin_txn s ctx = record {
  setting = s;
  state = new_txn;
  ctx = ctx;
  gas_pool = ctx.gas_limit;
  receipts = [];
  total_gas = 0;
}

abbrev pub gets : {A : Type 0} → (Transition → A) → Act A
gets f t = yield (f t) t

-- A payment to an account, and one from an account that may fall short.
abbrev pub pay : ℕ → ℕ → Act (Unit {0})
pay addr amount t =
    yield tt (record t { state = add_balance t.setting.committed addr amount t.state })

abbrev pub withdrawn_from : Transition → Option Txn → Outcome (Unit {0}) × Transition
withdrawn_from t none = refuse bridge_failure false t
withdrawn_from t (some u) = yield tt (record t { state = u })

abbrev pub withdraw : ℕ → ℕ → Act (Unit {0})
withdraw addr amount t = withdrawn_from t (sub_balance t.setting.committed addr amount t.state)

unfoldable pub bridge_effect : BridgeEvent → Act (Unit {0})
bridge_effect (deposited receiver amount) = pay receiver amount
bridge_effect (withdrawn contract amount fee) =
    withdraw contract (amount + fee) >> pay addr_vault_contract fee
bridge_effect (burned sender amount) = withdraw sender amount
bridge_effect malformed = refuse bridge_failure false
bridge_effect other = yield tt

abbrev has_topics : Log → Bool
has_topics log = elim log.topics [ [] ↦ false | _ ∷ _ ↦ true ]

module _ (x : Outside) where
  unfoldable pub bridge_logs : List Log → Act (Unit {0})
  unfolding bridge_effect
  bridge_logs [] = yield tt
  bridge_logs (log ∷ rest) =
      let others = bridge_logs rest in
      (if has_topics log then bridge_effect (x.bridge_event log) else yield tt) >> others

  -- `handleBridgeLogs`
  unfoldable pub handle_bridge_logs : Option ℕ → List Log → Act (Unit {0})
  handle_bridge_logs none ls = yield tt
  handle_bridge_logs (some to) ls = if to == addr_bridge_contract then bridge_logs ls else yield tt

  -- The zero address stands for a sender that is not known yet.
  abbrev pub found_sender : Option ℕ → Act ℕ
  found_sender none = refuse invalid_sender false
  found_sender (some from) = yield from

  unfoldable pub sender_of : Message → Act ℕ
  sender_of msg = if msg.from == 0 then found_sender (x.sender msg) else yield msg.from

  -- The state between two transactions, with the status and the root for the receipt.
  unfoldable pub finalise : ExecutionResult → Act (Option Bool × Option ℕ)
  finalise r t =
      if t.setting.config.byzantium
      then yield (some (not (failed r)), none)
          (record t { state = clean_delete_objects t.setting.committed true t.state })
      else (let (below, root) = x.commit t.setting.committed t.setting.config.eip155 t.state in
          yield (none, some root)
            (record t { setting = record t.setting { committed = below }; state = new_txn }))

  abbrev pub take_logs : Act (List Log)
  take_logs t = let (ls, state) = logs t.state in yield ls (record t { state = state })

  -- The total is a uint64.
  abbrev pub count_gas : ℕ → Act (Unit {0})
  count_gas n t = yield tt (record t { total_gas = (t.total_gas + n) % 2 ^ 64 })

  unfoldable pub created_address : Message → Transition → Option ℕ
  created_address msg t =
      if is_contract_creation msg.to
      then some (t.setting.create_address msg.from msg.nonce)
      else none

  abbrev pub add_receipt : (Transition → Receipt) → Act (Unit {0})
  add_receipt f t = yield tt (record t { receipts = t.receipts ++ f t ∷ [] })

  abbrev pub receipt_for : Message → ℕ → Option Bool → Option ℕ → List Log → Transition → Receipt
  receipt_for msg gas_used status root ls t = record {
    cumulative_gas_used = t.total_gas;
    gas_used = gas_used;
    tx_hash = x.tx_hash msg;
    status = status;
    root = root;
    contract_address = created_address msg t;
    logs = ls;
  }

  -- `Write` behind `Apply`
  unfoldable pub write_receipt : Message → ExecutionResult → Act (Unit {0})
  unfolding finalise handle_bridge_logs created_address
  write_receipt msg r = do
    ls ← take_logs
    end ← finalise r
    handle_bridge_logs msg.to ls
    add_receipt (receipt_for msg r.gas_used end.0 end.1 ls)

  -- `Write` behind the sender
  unfoldable pub write_sent : Message → Act (Unit {0})
  unfolding write_receipt
  write_sent msg = do r ← apply_message msg; count_gas r.gas_used; write_receipt msg r

  unfoldable pub write : Message → Act (Unit {0})
  unfolding write_sent
  write msg = do from ← sender_of msg; write_sent (record msg { from = from })

  unfoldable pub write_failed_receipt : Message → Act (Unit {0})
  unfolding created_address
  write_failed_receipt msg = do
    from ← sender_of msg
    ls ← take_logs
    add_receipt (receipt_for (record msg { from = from }) 0 (some false) none ls)

  -- The loop of `ProcessTransactions` and of `ProcessBlock`
  unfoldable pub process_transactions : ℕ → List (Bool × Message) → Act (Unit {0})
  unfolding write write_failed_receipt
  process_transactions gas_limit [] = yield tt
  process_transactions gas_limit ((stopped, msg) ∷ rest) =
      let others = process_transactions gas_limit rest in
      if stopped
      then refuse execution_stop false
      else (if ltb gas_limit msg.gas then write_failed_receipt msg else write msg) >> others

  -- `ProcessBlock`
  unfoldable pub process_block :
      Setting → TxContext → List (Bool × Message) → Outcome (Unit {0}) × Transition
  unfolding begin_txn process_transactions
  process_block s ctx messages = process_transactions ctx.gas_limit messages (begin_txn s ctx)
