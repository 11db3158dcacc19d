-- ===== src/Trie/Edit.antt =====
-- state/immutable-trie/trie.go: `Txn` of the trie, its lookup, insertion and deletion. A stored node is
-- resolved without shortening the key, and an insertion turns at most once at each node, so that the
-- fuel is a multiple of the key's length. `none` is a panic, or the fuel spent.
pub mod Keys
pub mod Finds
pub mod Shape
pub mod Insert
pub mod Insertion
pub mod Put
pub mod Collapse
pub mod Long
pub mod Remove
pub mod Removal
use dogesyncer.Prelude.{
  ℕ, zero, suc, ◌+◌, ◌-◌, ◌*◌, Bool, true, false, not, Option, none, some, List, [], ◌∷◌, ◌++◌, ltb,
  ◌==◌, ◌&&◌, ◌||◌, if◌then◌else◌, length, take, drop,
}
use dogesyncer.Trie.Encoding.{bytes_to_hex_nibbles}
use dogesyncer.Trie.Node.{
  Node, nil, value_node, short_node, full_node, no_edges, get_edge, set_edge, prefix_len, Storage,
  Loaded, missing, failed, found, get_node,
}

-- What goes on with the node of a recursive call.
unfoldable pub with_node : Option Node → (Node → Node) → Option Node
with_node none f = none
with_node (some n) f = some (f n)

-- The result of a deletion: `t.root` stays where it is not `ok`.
pub record Deleted : Type 0 where
  pub node : Node
  pub ok : Bool

abbrev pub deleted : Node → Bool → Deleted
deleted n done = record { node = n; ok = done }

abbrev pub not_there : Deleted
not_there = deleted nil false

unfoldable pub is_nil : Node → Bool
is_nil nil = true
is_nil (value_node stored buf) = false
is_nil (short_node key child) = false
is_nil (full_node value children) = false

unfoldable pub first_child : (ℕ → Node) → ℕ → ℕ → Option ℕ
unfolding is_nil
first_child children from zero = none
first_child children from (suc left) = elim (is_nil (children from)) [
  | true ↦ first_child children (suc from) left
  | false ↦ some from
]

-- Whether a second child follows the child `i`.
unfoldable pub has_other : (ℕ → Node) → ℕ → ℕ → Bool
unfolding first_child
has_other children i left = elim (first_child children (suc i) left) [
  | none ↦ false
  | some j ↦ true
]

-- A short node's child after a deletion in it.
unfoldable pub merge : List ℕ → Node → Node
merge key nil = nil
merge key (short_node rest child) = short_node (key ++ rest) child
merge key (value_node stored buf) = short_node key (value_node stored buf)
merge key (full_node value children) = short_node key (full_node value children)

-- The only child of a full node takes its place.
unfoldable pub lift_edge : ℕ → Node → Node
lift_edge i (short_node rest child) = short_node (i ∷ rest) child
lift_edge i nil = short_node (i ∷ []) nil
lift_edge i (value_node stored buf) = short_node (i ∷ []) (value_node stored buf)
lift_edge i (full_node value children) = short_node (i ∷ []) (full_node value children)

-- The branch at the end of a short node's common part.
unfoldable pub split_node : List ℕ → ℕ → Node → Node
unfolding set_edge
split_node key plen child = elim (drop plen key) [
  | [] ↦ full_node nil no_edges
  | edge ∷ rest ↦
      set_edge nil no_edges edge
        (if ltb (suc plen) (length key) then short_node rest child else child)
]

-- Whether the short node's key is whole in front of the key.
unfoldable pub insert_short :
    (Node → List ℕ → Option Node) → List ℕ → Node → List ℕ → ℕ → Bool → Option Node
unfolding with_node split_node
insert_short go key child search plen true =
    with_node (go child (drop plen search)) (λ n. short_node key n)
insert_short go key child search plen false =
    with_node (go (split_node key plen child) (drop plen search))
      (λ n. if plen == 0 then n else short_node (take plen search) n)

unfoldable pub fuel_for : List ℕ → ℕ
fuel_for key = 3 * length key + 3

unfoldable pub settle_child : List ℕ → Deleted → Deleted
unfolding merge
settle_child key d = if d.ok then deleted (merge key d.node) true else not_there

unfoldable pub delete_short : (List ℕ → Option Deleted) → List ℕ → List ℕ → ℕ → Option Deleted
unfolding settle_child
delete_short go key search plen =
    if plen == length search
    then some (deleted nil true)
    else if plen == 0
    then some not_there
    else elim (go (drop plen search)) [ none ↦ none | some d ↦ some (settle_child key d) ]

module _ (s : Storage) where
  -- Whether a lookup in the node loads it.
  unfoldable pub is_loaded : Node → Bool
  unfolding get_node
  is_loaded nil = false
  is_loaded (value_node true hash) = elim (get_node s hash) [
    | missing ↦ false
    | failed ↦ false
    | found n ↦ true
  ]
  is_loaded (value_node false buf) = false
  is_loaded (short_node key child) = false
  is_loaded (full_node value children) = false

  -- `lookup`: the bytes of the value, or `none` inside for none. A stored node that has been loaded is
  -- written to its place, which panics for the value of a full node: `children[16]` is out of range.
  unfoldable pub lookup : ℕ → Node → List ℕ → Option (Option (List ℕ))
  unfolding is_loaded
  lookup zero n key = none
  lookup (suc f) nil key = some none
  lookup (suc f) (value_node true hash) key = elim (get_node s hash) [
    | missing ↦ some none
    | failed ↦ none
    | found n ↦ lookup f n key
  ]
  lookup (suc f) (value_node false buf) [] = some (some buf)
  lookup (suc f) (value_node false buf) (x ∷ key) = some none
  lookup (suc f) (short_node prefix child) key = elim (prefix_len key prefix == length prefix) [
    | true ↦ lookup f child (drop (length prefix) key)
    | false ↦ some none
  ]
  lookup (suc f) (full_node value children) [] = lookup f value []
  lookup (suc f) (full_node value children) (x ∷ key) = elim (x == 16 && is_loaded value) [
    | true ↦ none
    | false ↦ lookup f (get_edge value children x) key
  ]

  unfoldable pub insert : ℕ → Node → List ℕ → List ℕ → Option Node
  unfolding get_edge set_edge prefix_len get_node with_node insert_short
  insert zero n search value = none
  insert (suc f) nil [] value = some (value_node false value)
  insert (suc f) nil (x ∷ search) value =
      with_node (insert f nil [] value) (λ n. short_node (x ∷ search) n)
  insert (suc f) (value_node true hash) search value = elim (get_node s hash) [
    | missing ↦ some nil
    | failed ↦ none
    | found n ↦ insert f n search value
  ]
  insert (suc f) (value_node false buf) [] value = some (value_node false value)
  insert (suc f) (value_node false buf) (x ∷ search) value =
      insert f (full_node (value_node false buf) no_edges) (x ∷ search) value
  insert (suc f) (short_node key child) search value =
      insert_short (λ n rest. insert f n rest value) key child search (prefix_len search key)
        (prefix_len search key == length key)
  insert (suc f) (full_node v children) [] value =
      with_node (insert f v [] value) (λ n. full_node n children)
  insert (suc f) (full_node v children) (x ∷ search) value =
      with_node (insert f (get_edge v children x) search value) (λ n. set_edge v children x n)

  -- The only child, resolved first where it is stored.
  unfoldable pub lift_child : ℕ → Node → Option Deleted
  unfolding lift_edge get_node
  lift_child i (value_node true hash) = elim (get_node s hash) [
    | missing ↦ some not_there
    | failed ↦ none
    | found n ↦ some (deleted (lift_edge i n) true)
  ]
  lift_child i (value_node false buf) = some (deleted (lift_edge i (value_node false buf)) true)
  lift_child i nil = some (deleted (lift_edge i nil) true)
  lift_child i (short_node key child) = some (deleted (lift_edge i (short_node key child)) true)
  lift_child i (full_node v edges) = some (deleted (lift_edge i (full_node v edges)) true)

  -- A full node after a deletion: it stays with two entries, and gives way to a single one.
  unfoldable pub collapse : Node → (ℕ → Node) → Option Deleted
  unfolding first_child has_other is_nil lift_child
  collapse value children = elim (first_child children 0 16) [
    | none ↦
        some (if is_nil value then deleted nil true else deleted (short_node (16 ∷ []) value) true)
    | some i ↦
        if has_other children i (15 - i) || not (is_nil value)
        then some (deleted (full_node value children) true)
        else lift_child i (children i)
  ]

  -- The full node with the edge that a deletion left.
  unfoldable pub settle_edge : Node → (ℕ → Node) → ℕ → Deleted → Option Deleted
  unfolding collapse
  settle_edge value children x d =
      if d.ok
      then if x == 16
        then collapse d.node children
        else collapse value (λ i. if i == x then d.node else children i)
      else some not_there

  -- A deletion under a full node with an empty key panics.
  unfoldable pub delete : ℕ → Node → List ℕ → Option Deleted
  unfolding prefix_len get_edge get_node delete_short settle_edge
  delete zero n search = none
  delete (suc f) nil search = some not_there
  delete (suc f) (short_node key child) search =
      delete_short (λ rest. delete f child rest) key search (prefix_len search key)
  delete (suc f) (value_node true hash) search = elim (get_node s hash) [
    | missing ↦ some not_there
    | failed ↦ none
    | found n ↦ delete f n search
  ]
  delete (suc f) (value_node false buf) [] = some (deleted nil true)
  delete (suc f) (value_node false buf) (x ∷ search) = some not_there
  delete (suc f) (full_node value children) [] = none
  delete (suc f) (full_node value children) (x ∷ search) =
      elim (delete f (get_edge value children x) search) [
        | none ↦ none
        | some d ↦ settle_edge value children x d
      ]

  -- The root behind a key of bytes: `Lookup`, `Insert`, `Delete`.
  unfoldable pub get : Node → List ℕ → Option (Option (List ℕ))
  unfolding fuel_for lookup bytes_to_hex_nibbles
  get root key = lookup (fuel_for (bytes_to_hex_nibbles key)) root (bytes_to_hex_nibbles key)

  unfoldable pub put : Node → List ℕ → List ℕ → Option Node
  unfolding fuel_for insert bytes_to_hex_nibbles is_nil with_node
  put root key value =
      with_node (insert (fuel_for (bytes_to_hex_nibbles key)) root (bytes_to_hex_nibbles key) value)
        (λ n. if is_nil n then root else n)

  unfoldable pub remove : Node → List ℕ → Option Node
  unfolding fuel_for delete bytes_to_hex_nibbles
  remove root key =
      elim (delete (fuel_for (bytes_to_hex_nibbles key)) root (bytes_to_hex_nibbles key)) [
        | none ↦ none
        | some d ↦ some (if d.ok then d.node else root)
      ]
