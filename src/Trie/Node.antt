-- ===== src/Trie/Node.antt =====
-- state/immutable-trie/trie.go, storage.go: the nodes of the trie, their edges, and the reading of a
-- node from the storage. A node is a value here: what an epoch and `writeNode` copy or reuse, and the
-- loaded node that `lookup` keeps in the place of its hash, hold the same entries. The stored hash
-- of a node, which only its encoding uses, is left out. The fastrlp parser and the database are
-- parameters.
use dogesyncer.Prelude.{
  ℕ, suc, Bool, true, false, Option, none, some, List, [], ◌∷◌, ◌==◌, if◌then◌else◌, get_or,
}
use dogesyncer.Trie.Encoding.{has_terminator, decode_compact}

-- `value_node true hash` stands for a stored node; a full node has an edge for each number below 16.
pub data Node : Type 0 where
  nil : Node
  value_node : Bool → List ℕ → Node
  short_node : List ℕ → Node → Node
  full_node : Node → (ℕ → Node) → Node

abbrev pub no_edges : ℕ → Node
no_edges i = nil

-- `getEdge`, `setEdge`: the edge 16 is the value.
unfoldable pub get_edge : Node → (ℕ → Node) → ℕ → Node
get_edge value children idx = if idx == 16 then value else children idx

unfoldable pub set_edge : Node → (ℕ → Node) → ℕ → Node → Node
set_edge value children idx e =
    if idx == 16
    then full_node e children
    else full_node value (λ i. if i == idx then e else children i)

unfoldable pub prefix_len : List ℕ → List ℕ → ℕ
prefix_len [] k = 0
prefix_len (x ∷ a) [] = 0
prefix_len (x ∷ a) (y ∷ b) = if x == y then suc (prefix_len a b) else 0

-- `concat` is ◌++◌ of the library.

-- A parsed value of fastrlp.
mutual
  pub data Rlp : Type 0 where
    bytes : List ℕ → Rlp
    array : Items → Rlp

  pub data Items : Type 0 where
    end : Items
    item : Rlp → Items → Items

unfoldable pub elems : Items → ℕ
elems end = 0
elems (item v rest) = suc (elems rest)

unfoldable pub last_item : Rlp → Items → Rlp
last_item v end = v
last_item v (item w rest) = last_item w rest

-- The node of an array of two: a leaf where the key has a terminator.
unfoldable pub decode_leaf : List ℕ → Rlp → Option Node
decode_leaf key (bytes b) = some (short_node key (value_node false b))
decode_leaf key (array items) = none

unfoldable pub decode_extension : List ℕ → Option Node → Option Node
decode_extension key none = none
decode_extension key (some child) = some (short_node key child)

unfoldable pub decode_short : Rlp → Rlp → Option Node → Option Node
unfolding decode_leaf decode_extension
decode_short (array items) v child = none
decode_short (bytes raw) v child = elim (decode_compact raw) [
  | none ↦ none
  | some key ↦ if has_terminator key then decode_leaf key v else decode_extension key child
]

-- An edge of an array of seventeen: an empty string for none.
unfoldable pub decode_edge : Rlp → Option Node → Option Node
decode_edge (bytes []) n = some nil
decode_edge (bytes (b ∷ bs)) n = n
decode_edge (array items) n = n

unfoldable pub all_some : List (Option Node) → Option (List Node)
all_some [] = some []
all_some (none ∷ rest) = none
all_some (some n ∷ rest) = elim (all_some rest) [ none ↦ none | some ns ↦ some (n ∷ ns) ]

unfoldable pub decode_full : Rlp → Option (List Node) → Option Node
decode_full v none = none
decode_full (array items) (some edges) = none
decode_full (bytes []) (some edges) = some (full_node nil (λ i. get_or edges i nil))
decode_full (bytes (b ∷ bs)) (some edges) =
    some (full_node (value_node false (b ∷ bs)) (λ i. get_or edges i nil))

-- `decodeNode`: `none` where it fails, or the key cannot be decoded.
unfoldable mutual
  unfolding elems last_item decode_short decode_edge all_some decode_full

  pub decode_node : Rlp → Option Node
  decode_node (bytes raw) = some (value_node true raw)
  decode_node (array end) = none
  decode_node (array (item key end)) = none
  decode_node (array (item key (item v end))) = decode_short key v (decode_node v)
  decode_node (array (item a (item b (item c rest)))) =
      if elems rest == 14
      then decode_full (last_item c rest) (
          all_some (
            decode_edge a (decode_node a)
            ∷ decode_edge b (decode_node b)
            ∷ decode_edge c (decode_node c)
            ∷ decode_edges rest))
      else none

  -- All edges but the last item, which is the value.
  pub decode_edges : Items → List (Option Node)
  decode_edges end = []
  decode_edges (item v end) = []
  decode_edges (item v (item w rest)) = decode_edge v (decode_node v) ∷ decode_edges (item w rest)

-- The database under a key, and the parser.
pub record Storage : Type 0 where
  pub get : List ℕ → Option (List ℕ)
  pub parse : List ℕ → Option Rlp

-- The answer of `GetNode`; its callers panic where it fails.
pub data Loaded : Type 0 where
  missing : Loaded
  failed : Loaded
  found : Node → Loaded

unfoldable pub decoded : Option Node → Loaded
decoded none = failed
decoded (some n) = found n

unfoldable pub parsed : Option Rlp → Loaded
unfolding decoded decode_node
parsed none = failed
parsed (some (bytes raw)) = failed
parsed (some (array items)) = decoded (decode_node (array items))

unfoldable pub get_node : Storage → List ℕ → Loaded
unfolding parsed
get_node s root = elim (s.get root) [ none ↦ missing | some raw ↦ parsed (s.parse raw) ]
