-- ===== src/Trie/Commit.antt =====
-- state/immutable-trie/trie.go: what `Commit` writes into the storage trie of an account. The hash of a
-- key and the encoding of a value are parameters.
pub mod Writes
use dogesyncer.Prelude.{ℕ, Bool, Option, none, some, List, [], ◌∷◌, ◌==◌, if◌then◌else◌}
use dogesyncer.Trie.Node.{Node, Storage}
use dogesyncer.Trie.Edit.{put, remove}

-- `state.StorageObject`
pub record StorageEntry : Type 0 where
  pub deleted : Bool
  pub key : List ℕ
  pub val : List ℕ

-- `bytes.TrimLeft(val, "\x00")`
unfoldable pub trim_left : List ℕ → List ℕ
trim_left [] = []
trim_left (b ∷ rest) = let trimmed = trim_left rest in if b == 0 then trimmed else b ∷ rest

module _ (s : Storage) (hashit encode : List ℕ → List ℕ) where
  unfoldable pub write_entry : Node → StorageEntry → Option Node
  unfolding put remove trim_left
  write_entry root e =
      if e.deleted
      then remove s root (hashit e.key)
      else put s root (hashit e.key) (encode (trim_left e.val))

  unfoldable pub write_entries : Node → List StorageEntry → Option Node
  unfolding write_entry
  write_entries root [] = some root
  write_entries root (e ∷ rest) = elim (write_entry root e) [
    | none ↦ none
    | some after ↦ write_entries after rest
  ]
