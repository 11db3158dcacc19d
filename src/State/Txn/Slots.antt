-- ===== src/State/Txn/Slots.antt =====
-- state/txn.go: the storage of the accounts, `SetState`, `GetState` and `SetStorage`.
use dogesyncer.Prelude.{ℕ, Option, none, some, ◌==◌, if◌then◌else◌}
use dogesyncer.Chain.Forks.{ForksInTime}
use dogesyncer.Runtime.{StorageStatus}
use dogesyncer.State.Txn.{
  Committed, Txn, StateObject, or_else, get_state_object, upsert_account, get_refund, set_refund,
}
use dogesyncer.State.Txn.Status.{storage_effect}

unfoldable pub get_committed : Committed → StateObject → ℕ → ℕ
get_committed c o key = or_else (o.account.trie (c.hashit key)) 0

unfoldable pub with_slot : ℕ → ℕ → StateObject → StateObject
with_slot key value o = record o { slots = λ k. if k == key then some value else o.slots k }

unfoldable pub set_state : Committed → ℕ → ℕ → ℕ → Txn → Txn
unfolding upsert_account with_slot
set_state c addr key value t = upsert_account c addr (with_slot key value) t

unfoldable pub slot_of : Committed → StateObject → ℕ → ℕ
unfolding get_committed
slot_of c o key = elim (o.slots key) [ some v ↦ v | none ↦ get_committed c o key ]

unfoldable pub slot_in : Committed → Option StateObject → ℕ → ℕ
unfolding slot_of
slot_in c none key = 0
slot_in c (some o) key = slot_of c o key

unfoldable pub get_state : Committed → Txn → ℕ → ℕ → ℕ
unfolding get_state_object slot_in
get_state c t addr key = slot_in c (get_state_object c t addr) key

unfoldable pub get_committed_state : Committed → Txn → ℕ → ℕ → ℕ
unfolding get_state_object get_committed
get_committed_state c t addr key = elim (get_state_object c t addr) [
  | none ↦ 0
  | some o ↦ get_committed c o key
]

-- The refund is only written where it changes.
unfoldable pub keep_refund : ℕ → Txn → Txn
unfolding set_refund get_refund
keep_refund n t = if n == get_refund t then t else set_refund n t

-- `SetStorage`
unfoldable pub set_storage : Committed → Txn → ℕ → ℕ → ℕ → ForksInTime → StorageStatus × Txn
unfolding storage_effect get_state get_committed_state set_state keep_refund get_refund
set_storage c t addr key value config =
    let old = get_state c t addr key in
    let original = get_committed_state c t addr key in
    let (status, refund) = storage_effect config original old value (get_refund t) in
    (status, (if old == value then t else keep_refund refund (set_state c addr key value t)))
