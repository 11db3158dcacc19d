-- ===== src/State/Txn/Accounts.antt =====
-- state/txn.go: nonces, code, logs, the creation and the removal of accounts, and what is committed.
use dogesyncer.Prelude.{
  ℕ, Bool, true, false, Option, none, some, List, [], ◌∷◌, ◌++◌, ◌+◌, ◌%◌, ◌^◌, ◌==◌, ◌&&◌, ◌||◌,
  if◌then◌else◌, length,
}
use dogesyncer.State.Txn.{
  Committed, Txn, Log, StateObject, or_else, is_set, get_state_object, insert, upsert_account,
  new_state_object,
}

-- The nonce is a uint64.
unfoldable pub with_nonce : (ℕ → ℕ) → StateObject → StateObject
with_nonce f o = record o { account = record o.account { nonce = f o.account.nonce } }

unfoldable pub incr_nonce : Committed → ℕ → Txn → Txn
unfolding with_nonce
incr_nonce c addr t = upsert_account c addr (with_nonce (λ n. (n + 1) % 2 ^ 64)) t

unfoldable pub set_nonce : Committed → ℕ → ℕ → Txn → Txn
unfolding with_nonce
set_nonce c addr nonce t = upsert_account c addr (with_nonce (λ n. nonce)) t

unfoldable pub nonce_of : Option StateObject → ℕ
nonce_of none = 0
nonce_of (some o) = o.account.nonce

unfoldable pub get_nonce : Committed → Txn → ℕ → ℕ
unfolding nonce_of
get_nonce c t addr = nonce_of (get_state_object c t addr)

unfoldable pub with_code : Committed → List ℕ → StateObject → StateObject
with_code c code o = record o {
  account = record o.account { code_hash = c.keccak256 code };
  dirty_code = true;
  code = code;
}

unfoldable pub set_code : Committed → ℕ → List ℕ → Txn → Txn
unfolding with_code
set_code c addr code t = upsert_account c addr (with_code c code) t

unfoldable pub code_of : Committed → Option StateObject → List ℕ
code_of c none = []
code_of c (some o) = if o.dirty_code then o.code else c.code_of o.account.code_hash

unfoldable pub get_code : Committed → Txn → ℕ → List ℕ
unfolding code_of
get_code c t addr = code_of c (get_state_object c t addr)

unfoldable pub get_code_size : Committed → Txn → ℕ → ℕ
unfolding get_code
get_code_size c t addr = length (get_code c t addr)

unfoldable pub get_code_hash : Committed → Txn → ℕ → ℕ
get_code_hash c t addr = elim (get_state_object c t addr) [
  | none ↦ 0
  | some o ↦ o.account.code_hash
]

-- `EmitLog`
unfoldable pub emit_log : ℕ → List ℕ → List ℕ → Txn → Txn
emit_log addr topics payload t = record t {
  tree = record t.tree {
    logs = some (
        or_else t.tree.logs []
        ++ record { address = addr; topics = topics; payload = payload } ∷ []);
  };
}

-- `Logs` takes the logs out.
unfoldable pub logs : Txn → List Log × Txn
logs t = (or_else t.tree.logs [], record t { tree = record t.tree { logs = none } })

unfoldable pub touch_account : Committed → ℕ → Txn → Txn
touch_account c addr t = upsert_account c addr (λ o. o) t

unfoldable pub exist : Committed → Txn → ℕ → Bool
exist c t addr = is_set (get_state_object c t addr)

unfoldable pub is_empty : Committed → StateObject → Bool
is_empty c o =
    o.account.nonce == 0 && o.account.balance == 0 && o.account.code_hash == c.keccak256 []

unfoldable pub empty : Committed → Txn → ℕ → Bool
unfolding is_empty
empty c t addr = elim (get_state_object c t addr) [ none ↦ true | some o ↦ is_empty c o ]

-- `Suicide`: an account that is not there is not created.
unfoldable pub with_suicide : StateObject → StateObject
with_suicide o = record o { suicide = true; account = record o.account { balance = 0 } }

unfoldable pub suicide_found : ℕ → Txn → Option StateObject → Txn
unfolding with_suicide
suicide_found addr t none = t
suicide_found addr t (some o) = insert addr (with_suicide o) t

unfoldable pub suicide : Committed → ℕ → Txn → Txn
unfolding suicide_found
suicide c addr t = suicide_found addr t (get_state_object c t addr)

unfoldable pub has_suicided : Committed → Txn → ℕ → Bool
has_suicided c t addr = elim (get_state_object c t addr) [ none ↦ false | some o ↦ o.suicide ]

-- `CreateAccount` keeps the balance of an account that is there.
unfoldable pub created : Committed → Option StateObject → StateObject
created c none = new_state_object c
created c (some prev) =
    let fresh = new_state_object c in
    record fresh { account = record fresh.account { balance = prev.account.balance } }

unfoldable pub create_account : Committed → ℕ → Txn → Txn
unfolding created
create_account c addr t = insert addr (created c (get_state_object c t addr)) t

-- `CleanDeleteObjects`, object by object
unfoldable pub cleaned : Committed → Bool → Option StateObject → Option StateObject
cleaned c delete_empty none = none
cleaned c delete_empty (some o) =
    if o.suicide || is_empty c o && delete_empty then some (record o { deleted = true }) else some o

unfoldable pub clean_delete_objects : Committed → Bool → Txn → Txn
unfolding cleaned
clean_delete_objects c delete_empty t = record t {
  tree = record t.tree { objects = λ a. cleaned c delete_empty (t.tree.objects a); refund = none };
}
