-- ===== src/State/Call.antt =====
-- state/executor.go: the calls of contracts. `Transition` is the host of the machine: its methods read
-- and change the state, and `Callx` runs a contract in one of the runtimes, which may call `Callx`
-- again. A level of `callx_at` stands for each depth of nested calls; from depth 1026 on a call fails
-- at once, so that a call from the outside, of depth 1, needs 1026 levels. The tracing is left out.
pub mod Gas
pub mod Snapshots
pub mod Atomic
pub mod Levels
pub mod Static
mod Tests
use dogesyncer.Prelude.{
  ℕ, zero, suc, Bool, true, false, Option, none, some, List, [], ◌∷◌, ◌+◌, ◌-◌, ◌*◌, ◌%◌, ◌^◌, ltb,
  ◌==◌, ◌&&◌, ◌||◌, not, if◌then◌else◌, length,
}
use dogesyncer.Chain.Forks.{ForksInTime}
use dogesyncer.Runtime.{
  Error, depth_exceeded, not_found, unfinished, insufficient_balance, contract_address_collision,
  max_code_size_exceeded, code_store_out_of_gas, CallType, call, create, TxContext, Contract,
  ExecutionResult, Runtime, Host, failed, is_creation, new_contract_creation, new_contract_call,
}
use dogesyncer.State.Txn.{
  Committed, Txn, or_else, snapshot, revert_to_snapshot, get_refund, set_refund, add_refund,
  add_balance, get_balance,
}
use dogesyncer.State.Txn.Slots.{get_state, set_storage}
use dogesyncer.State.Txn.Accounts.{
  incr_nonce, get_nonce, set_code, get_code, get_code_size, get_code_hash, emit_log, touch_account,
  exist, empty, suicide, has_suicided, create_account,
}
use dogesyncer.State.Txn.Transfer.{transfer}

-- What a transition does not change: the state below it, the forks and the runtimes.
pub record Setting : Type 0 where
  pub committed : Committed
  pub config : ForksInTime
  pub runtimes : List (Runtime Txn)
  pub get_hash : ℕ → ℕ
  pub create_address : ℕ → ℕ → ℕ
  pub create_address2 : ℕ → ℕ → List ℕ → ℕ

abbrev pub ended_by : Error → ℕ → ExecutionResult
ended_by x gas = record { return_value = []; gas_left = gas; gas_used = 0; err = some x }

-- `run`
unfoldable pub run_first :
    List (Runtime Txn) → Host Txn → Contract → ForksInTime → Txn → ExecutionResult × Txn
run_first [] h c config t = (ended_by not_found 0, t)
run_first (r ∷ rest) h c config t =
    if r.can_run c config then r.run h c config t else run_first rest h c config t

-- A snapshot that has been taken is there: `RevertToSnapshot` does not panic.
unfoldable pub revert : ℕ → Txn → Txn
revert id t = or_else (revert_to_snapshot t id) t

unfoldable pub is_plain_call : CallType → Bool
is_plain_call call = true
is_plain_call _ = false

-- `errors` of `transfer` as a result, where the state has been changed before it
unfoldable pub settle : ℕ → ExecutionResult × Txn → ExecutionResult × Txn
settle id (r, t) = if failed r then (r, revert id t) else (r, t)

module _ (s : Setting) where
  -- `applyCall` from the transfer on
  unfoldable pub call_funded : Host Txn → Contract → ℕ → Txn → Option Txn → ExecutionResult × Txn
  unfolding run_first settle
  call_funded h c id before none = (ended_by insufficient_balance c.gas, before)
  call_funded h c id before (some t) = settle id (run_first s.runtimes h c s.config t)

  unfoldable pub apply_call : Host Txn → Contract → Txn → ExecutionResult × Txn
  unfolding call_funded snapshot touch_account is_plain_call
  apply_call h c t =
      if ltb 1025 c.depth
      then (ended_by depth_exceeded c.gas, t)
      else (let (id, taken) = snapshot t in
          let touched = touch_account s.committed c.address taken in
          call_funded h c id touched (
            if is_plain_call c.typ
            then transfer s.committed c.caller c.address c.value touched
            else some touched))

  unfoldable pub has_code_or_nonce : ℕ → Txn → Bool
  unfolding get_nonce get_code_hash
  has_code_or_nonce addr t =
      let hash = get_code_hash s.committed t addr in
      not (get_nonce s.committed t addr == 0)
      || not (hash == s.committed.keccak256 []) && not (hash == 0)

  abbrev pub max_code_size : ℕ
  max_code_size = 24576

  -- `applyCreate` from the end of a run that has not failed on. The cost is a uint64.
  unfoldable pub store_code : Contract → ℕ → ExecutionResult → Txn → ExecutionResult × Txn
  unfolding revert set_code
  store_code c id r t =
      let cost = length r.return_value * 200 % 2 ^ 64 in
      if s.config.eip158 && ltb max_code_size (length r.return_value)
      then (ended_by max_code_size_exceeded 0, revert id t)
      else if ltb r.gas_left cost
      then (if s.config.homestead
          then (
            record r { err = some code_store_out_of_gas; return_value = []; gas_left = 0 },
            revert id t,
          )
          else (record r { err = some code_store_out_of_gas; return_value = [] }, t))
      else (
        record r { gas_left = r.gas_left - cost },
        set_code s.committed c.address r.return_value t,
      )

  unfoldable pub created_by : Contract → ℕ → ExecutionResult × Txn → ExecutionResult × Txn
  unfolding store_code
  created_by c id (r, t) = if failed r then (r, revert id t) else store_code c id r t

  unfoldable pub create_funded : Host Txn → Contract → ℕ → Txn → Option Txn → ExecutionResult × Txn
  unfolding run_first created_by
  create_funded h c id before none = (ended_by insufficient_balance c.gas, before)
  create_funded h c id before (some t) = created_by c id (run_first s.runtimes h c s.config t)

  unfoldable pub new_account : ℕ → Txn → Txn
  unfolding create_account incr_nonce
  new_account addr t =
      if s.config.eip158 then incr_nonce s.committed addr (create_account s.committed addr t) else t

  unfoldable pub apply_create : Host Txn → Contract → Txn → ExecutionResult × Txn
  unfolding create_funded new_account has_code_or_nonce snapshot
  apply_create h c t =
      let counted = incr_nonce s.committed c.caller t in
      let (id, taken) = snapshot counted in
      let fresh = new_account c.address taken in
      if ltb 1025 c.depth
      then (ended_by depth_exceeded c.gas, t)
      else if has_code_or_nonce c.address counted
      then (ended_by contract_address_collision 0, counted)
      else create_funded h c id fresh (transfer s.committed c.caller c.address c.value fresh)

  -- `Callx`
  unfoldable pub callx_in : Host Txn → Txn → Contract → ExecutionResult × Txn
  unfolding apply_create apply_call is_creation
  callx_in h t c = if is_creation c.typ then apply_create h c t else apply_call h c t

  unfoldable pub selfdestruct : Txn → ℕ → ℕ → Txn
  unfolding set_refund add_refund get_refund add_balance get_balance suicide has_suicided
  selfdestruct t addr beneficiary =
      let counted =
        if has_suicided s.committed t addr
        then t
        else set_refund (add_refund 24000 (get_refund t)) t in
      let paid =
        add_balance s.committed beneficiary (get_balance s.committed counted addr) counted in
      suicide s.committed addr paid

  module _ (ctx : TxContext) where
    -- The methods of `Transition` as a host, with what its `Callx` does.
    unfoldable pub host_with : (Txn → Contract → ExecutionResult × Txn) → Host Txn
    unfolding selfdestruct
    host_with callx = record {
      account_exists = exist s.committed;
      get_storage = get_state s.committed;
      set_storage = set_storage s.committed;
      get_balance = get_balance s.committed;
      get_code_size = get_code_size s.committed;
      get_code_hash = get_code_hash s.committed;
      get_code = get_code s.committed;
      selfdestruct = selfdestruct;
      tx_context = ctx;
      block_hash = λ t n. s.get_hash n;
      emit_log = λ t addr topics bytes. emit_log addr topics bytes t;
      callx = callx;
      empty = empty s.committed;
      get_nonce = get_nonce s.committed;
      keccak256 = s.committed.keccak256;
      create_address = s.create_address;
      create_address2 = s.create_address2;
    }

    unfoldable pub callx_at : ℕ → Txn → Contract → ExecutionResult × Txn
    unfolding callx_in host_with
    callx_at zero t c =
        if ltb 1025 c.depth then (ended_by depth_exceeded c.gas, t) else (ended_by unfinished 0, t)
    callx_at (suc n) t c = callx_in (host_with (callx_at n)) t c

    -- The host of a transaction, and the calls that start one.
    unfoldable pub host : Host Txn
    unfolding host_with callx_at
    host = host_with (callx_at 1025)

    unfoldable pub create2 : ℕ → List ℕ → Option ℕ → ℕ → Txn → ExecutionResult × Txn
    unfolding apply_create host new_contract_creation get_nonce
    create2 caller code value gas t =
        let address = s.create_address caller (get_nonce s.committed t caller) in
        apply_create host (new_contract_creation 1 caller caller address value gas code) t

    unfoldable pub call2 : ℕ → ℕ → List ℕ → Option ℕ → ℕ → Txn → ExecutionResult × Txn
    unfolding apply_call host new_contract_call get_code
    call2 caller to input value gas t =
        apply_call host
          (new_contract_call 1 caller caller to value gas (get_code s.committed t to) input) t
