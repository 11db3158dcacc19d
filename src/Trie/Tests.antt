-- ===== src/Trie/Tests.antt =====
-- Keys and tries at concrete values.
use dogesyncer.Prelude.{
  ℕ, true, false, ◌==◌, Option, none, some, List, [], ◌∷◌, ◌++◌, ◌<◌, ◌≡◌, refl, if◌then◌else◌,
  length, replicate, arith, ◌%◌, zero, suc,
}
use dogesyncer.Trie.Encoding.{
  encode_compact, decode_compact, has_terminator, flagged, pack, drop_last, nibbles,
  bytes_to_hex_nibbles, drop_one, drop_flag, drop_terminator,
}
use dogesyncer.Trie.Encoding.RoundTrip.{IsKey, empty, nibble, decode_compact-encode_compact}
use dogesyncer.Trie.Node.{
  Node, nil, value_node, short_node, Storage, bytes, array, end, item, get_edge, set_edge,
  prefix_len, get_node, parsed, decoded, decode_node, decode_short, decode_leaf, found,
}
use dogesyncer.Trie.Edit.{
  get, put, remove, fuel_for, lookup, insert, delete, insert_short, with_node, split_node, is_nil,
  delete_short, settle_child, settle_edge, collapse, lift_child, lift_edge, first_child, has_other,
  merge,
}
use dogesyncer.Trie.Edit.Keys.{last, more}
use dogesyncer.Trie.Edit.Finds.{IsTree, node, inner, leaf}
use dogesyncer.Trie.Map.{IsBytes, no_bytes, byte, same_key, get-put}
use dogesyncer.Trie.Commit.{StorageEntry, write_entries, trim_left}
use dogesyncer.Trie.Commit.Writes.{written, write_entries-written}

abbrev odd_key : List ℕ
odd_key = 1 ∷ 2 ∷ 15 ∷ []

odd_key-encoded : encode_compact odd_key ≡ 0x11 ∷ 0x2f ∷ []
unfolding encode_compact has_terminator flagged pack
odd_key-encoded = refl

odd_key-IsKey : IsKey odd_key
odd_key-IsKey = nibble (omega arith) (nibble (omega arith) (nibble (omega arith) empty))

decode_compact-encode_compact_example :
    (decode_compact (encode_compact odd_key) ≡ some odd_key)
    × (decode_compact (encode_compact (odd_key ++ 16 ∷ [])) ≡ some (odd_key ++ 16 ∷ []))
decode_compact-encode_compact_example = decode_compact-encode_compact odd_key odd_key-IsKey

-- A database that holds one leaf, under the hash 1.
abbrev one_item : Storage
one_item = record {
  get = λ k. elim k [ [] ↦ none | h ∷ rest ↦ if length rest == 0 then some (h ∷ []) else none ];
  parse = λ k. some (array (item (bytes (0x20 ∷ 0x34 ∷ [])) (item (bytes (9 ∷ [])) end)));
}

get_node_leaf :
    get_node one_item (1 ∷ []) ≡ found (short_node (3 ∷ 4 ∷ 16 ∷ []) (value_node false (9 ∷ [])))
unfolding get_node parsed decoded decode_node decode_short decode_leaf decode_compact has_terminator
    bytes_to_hex_nibbles nibbles drop_terminator drop_last drop_flag drop_one
get_node_leaf = refl

abbrev one_leaf : Node
one_leaf = short_node (1 ∷ 2 ∷ 3 ∷ 4 ∷ 16 ∷ []) (value_node false (7 ∷ []))

one_leaf-IsTree : IsTree one_item one_leaf
one_leaf-IsTree = node (
    inner (
      leaf (
        more (omega arith)
          (more (omega arith) (more (omega arith) (more (omega arith) (last refl)))))))

two_bytes : (a b : ℕ) → a < 256 → b < 256 → IsBytes (a ∷ b ∷ [])
two_bytes a b h k = byte h (byte k no_bytes)

get-put_example :
    (after : Node) × (before : Option (List ℕ)) × (put one_item one_leaf (0x12 ∷ 0x35 ∷ []) (8 ∷ [])
      ≡ some after)
    × IsTree one_item after
    × (get one_item one_leaf (0x12 ∷ 0x34 ∷ []) ≡ some before)
    × (get one_item after (0x12 ∷ 0x34 ∷ [])
        ≡ some (if same_key (0x12 ∷ 0x35 ∷ []) (0x12 ∷ 0x34 ∷ []) then some (8 ∷ []) else before))
get-put_example =
    get-put one_item (0x12 ∷ 0x35 ∷ []) (0x12 ∷ 0x34 ∷ []) (8 ∷ []) one_leaf-IsTree
      (two_bytes 0x12 0x35 (omega arith) (omega arith))
      (two_bytes 0x12 0x34 (omega arith) (omega arith))

-- A deletion under a shorter key, 0x14, that is not there, takes 0x1234 away.
abbrev after_bad_deletion : Option Node
after_bad_deletion = elim (put one_item one_leaf (0x12 ∷ 0x35 ∷ []) (8 ∷ [])) [
  | none ↦ none
  | some two ↦ remove one_item two (0x14 ∷ [])
]

abbrev read_after : Option Node → Option (Option (List ℕ))
read_after none = none
read_after (some n) = get one_item n (0x12 ∷ 0x34 ∷ [])

bad_deletion : read_after after_bad_deletion ≡ some none
unfolding get put remove fuel_for lookup insert delete insert_short with_node split_node is_nil
    delete_short settle_child settle_edge collapse lift_child lift_edge first_child has_other merge
    get_edge set_edge prefix_len nibbles bytes_to_hex_nibbles
bad_deletion = refl

abbrev test_hash : List ℕ → List ℕ
test_hash key = length key % 256 ∷ replicate 31 0

abbrev test_encode : List ℕ → List ℕ
test_encode value = value

zeros-IsBytes : (n : ℕ) → IsBytes (replicate n 0)
zeros-IsBytes zero = no_bytes
zeros-IsBytes (suc n) = byte (omega arith) (zeros-IsBytes n)

test_hash_digest : (key : List ℕ) → IsBytes (test_hash key) × (length (test_hash key) ≡ 32)
test_hash_digest key = (byte (omega arith) (zeros-IsBytes 31), refl)

abbrev test_entries : List StorageEntry
test_entries =
    record { deleted = false; key = 1 ∷ []; val = 0 ∷ 5 ∷ [] }
    ∷ record { deleted = false; key = 1 ∷ 2 ∷ []; val = 6 ∷ [] }
    ∷ record { deleted = true; key = 1 ∷ []; val = [] }
    ∷ []

write_entries-written_example :
    (after : Node) × (write_entries one_item test_hash test_encode nil test_entries ≡ some after)
    × (get one_item after (test_hash (1 ∷ 2 ∷ []))
        ≡ some (written test_hash test_encode test_entries (test_hash (1 ∷ 2 ∷ [])) none))
write_entries-written_example =
    write_entries-written test_hash test_encode one_item test_hash_digest test_entries
      (test_hash (1 ∷ 2 ∷ [])) (test_hash_digest (1 ∷ 2 ∷ [])).0

test_entries-written :
    written test_hash test_encode test_entries (test_hash (1 ∷ 2 ∷ [])) none ≡ some (6 ∷ [])
unfolding written same_key trim_left
test_entries-written = refl
