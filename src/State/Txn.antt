-- ===== src/State/Txn.antt =====
-- state/txn.go and state/state.go: the accounts that a block's transactions change, in memory. The
-- radix tree is a function from addresses, with the refund and the logs beside it, since their
-- keys are not addresses. What is committed is read through `Committed`: the accounts of the trie, each
-- with its storage, the code by its hash, and the hash functions. Objects are copied when they are
-- read, so that they are values here.
pub mod Status
pub mod Slots
pub mod Accounts
pub mod Metering
pub mod Storage
pub mod Transfer
use dogesyncer.Prelude.{
  ℕ, Bool, true, false, Option, none, some, List, [], ◌∷◌, ◌++◌, ◌+◌, ◌-◌, ◌%◌, ◌^◌, ltb, ◌==◌,
  ◌&&◌, ◌||◌, not, if◌then◌else◌, get_elem?, length,
}
use dogesyncer.Chain.Forks.{ForksInTime}
use dogesyncer.Runtime.{StorageStatus, unchanged, modified, modified_again, added, deleted}

pub record Account : Type 0 where
  pub nonce : ℕ
  pub balance : ℕ
  pub code_hash : ℕ
  pub trie : ℕ → Option ℕ

-- `slots` is `Txn`: a zero value stands for a nil entry.
pub record StateObject : Type 0 where
  pub account : Account
  pub code : List ℕ
  pub suicide : Bool
  pub deleted : Bool
  pub dirty_code : Bool
  pub slots : ℕ → Option ℕ

pub record Committed : Type 0 where
  pub account_at : ℕ → Option Account
  pub code_of : ℕ → List ℕ
  pub hashit : ℕ → ℕ
  pub keccak256 : List ℕ → ℕ

pub record Log : Type 0 where
  pub address : ℕ
  pub topics : List ℕ
  pub payload : List ℕ

pub record Tree : Type 0 where
  pub objects : ℕ → Option StateObject
  pub refund : Option ℕ
  pub logs : Option (List Log)

pub record Txn : Type 0 where
  pub snapshots : List Tree
  pub tree : Tree

abbrev pub is_set : {A : Type 0} → Option A → Bool
is_set none = false
is_set (some x) = true

abbrev pub or_else {ℓ} : {A : Type ℓ} → Option A → A → A
or_else none d = d
or_else (some x) d = x

-- `Snapshot`: the new snapshot's place, and `RevertToSnapshot`, which panics on a place not taken
unfoldable pub snapshot : Txn → ℕ × Txn
snapshot t = (length t.snapshots, record t { snapshots = t.snapshots ++ t.tree ∷ [] })

unfoldable pub put_back : Txn → Option Tree → Option Txn
put_back t none = none
put_back t (some tree) = some (record t { tree = tree })

unfoldable pub revert_to_snapshot : Txn → ℕ → Option Txn
unfolding put_back
revert_to_snapshot t id = put_back t (get_elem? t.snapshots id)

unfoldable pub get_refund : Txn → ℕ
get_refund t = or_else t.tree.refund 0

unfoldable pub set_refund : ℕ → Txn → Txn
set_refund n t = record t { tree = record t.tree { refund = some n } }

-- `AddRefund` and `SubRefund`, on uint64
unfoldable pub add_refund : ℕ → ℕ → ℕ
add_refund gas refund = (refund + gas) % 2 ^ 64

unfoldable pub sub_refund : ℕ → ℕ → ℕ
sub_refund gas refund = (refund + 2 ^ 64 - gas) % 2 ^ 64

-- An account that is deleted in the tree is not looked up behind it.
unfoldable pub found_object : Option StateObject → Option Account → Option StateObject
found_object (some o) account = if o.deleted then none else some o
found_object none none = none
found_object none (some account) = some (record {
  account = account;
  code = [];
  suicide = false;
  deleted = false;
  dirty_code = false;
  slots = λ key. none;
})

unfoldable pub get_state_object : Committed → Txn → ℕ → Option StateObject
unfolding found_object
get_state_object c t addr = found_object (t.tree.objects addr) (c.account_at addr)

unfoldable pub new_state_object : Committed → StateObject
new_state_object c = record {
  account = record { nonce = 0; balance = 0; code_hash = c.keccak256 []; trie = λ key. none };
  code = [];
  suicide = false;
  deleted = false;
  dirty_code = false;
  slots = λ key. none;
}

unfoldable pub insert : ℕ → StateObject → Txn → Txn
insert addr o t = record t {
  tree = record t.tree { objects = λ a. if a == addr then some o else t.tree.objects a };
}

-- `upsertAccount` with `create` set
unfoldable pub upsert_account : Committed → ℕ → (StateObject → StateObject) → Txn → Txn
unfolding get_state_object new_state_object insert
upsert_account c addr f t =
    insert addr (f (or_else (get_state_object c t addr) (new_state_object c))) t

unfoldable pub with_balance : (ℕ → ℕ) → StateObject → StateObject
with_balance f o = record o { account = record o.account { balance = f o.account.balance } }

unfoldable pub add_balance : Committed → ℕ → ℕ → Txn → Txn
unfolding upsert_account with_balance
add_balance c addr amount t = upsert_account c addr (with_balance (λ b. b + amount)) t

unfoldable pub balance_of : Option StateObject → ℕ
balance_of none = 0
balance_of (some o) = o.account.balance

unfoldable pub get_balance : Committed → Txn → ℕ → ℕ
get_balance c t addr = balance_of (get_state_object c t addr)

-- `none` is `ErrNotEnoughFunds`.
unfoldable pub sub_balance : Committed → ℕ → ℕ → Txn → Option Txn
unfolding upsert_account with_balance get_balance
sub_balance c addr amount t =
    if amount == 0
    then some t
    else if ltb (get_balance c t addr) amount
    then none
    else some (upsert_account c addr (with_balance (λ b. b - amount)) t)
