-- ===== src/Trie/Map.antt =====
-- `Lookup` and `Insert` of state/immutable-trie/trie.go on keys of bytes, which become keys of nibbles.
use dogesyncer.Prelude.{
  ℕ, suc, ◌/◌, ◌%◌, ◌<◌, ◌≡◌, refl, ap, ap₂, sym, subst, ◌∙◌, Bool, true, false, ◌&&◌, Option, some,
  List, [], ◌∷◌, ◌++◌, ◌==◌, if◌then◌else◌, length, arith, Bool-cases, inl, inr,
}
use dogesyncer.Trie.Encoding.{nibbles, bytes_to_hex_nibbles}
use dogesyncer.Trie.Node.{Node, Storage}
use dogesyncer.Trie.Edit.{get, put, fuel_for, is_nil, with_node}
use dogesyncer.Trie.Edit.Keys.{Terminated, last, more}
use dogesyncer.Trie.Edit.Finds.{
  Finds, Finds-unique, IsInner, leaf, extension, branch, inner, IsTree, node, Reads, IsTree-Reads,
}
use dogesyncer.Trie.Edit.Insert.{Inserted}
use dogesyncer.Trie.Edit.Put.{insert_tree}

pub data IsBytes : List ℕ → Type 0 where
  no_bytes : IsBytes []
  byte : {b : ℕ} {rest : List ℕ} → b < 256 → IsBytes rest → IsBytes (b ∷ rest)

unfoldable pub same_key : List ℕ → List ℕ → Bool
same_key [] [] = true
same_key [] (y ∷ b) = false
same_key (x ∷ a) [] = false
same_key (x ∷ a) (y ∷ b) = x == y && same_key a b

pub same_key_sound : (a b : List ℕ) → same_key a b ≡ true → a ≡ b
unfolding same_key
same_key_sound [] [] h = refl
same_key_sound [] (y ∷ b) h = cc
same_key_sound (x ∷ a) [] h = cc
same_key_sound (x ∷ a) (y ∷ b) h = ground (arith, same_key_sound a b)

pub same_key_refl : (a : List ℕ) → same_key a a ≡ true
unfolding same_key
same_key_refl [] = refl
same_key_refl (x ∷ a) = ground (arith, same_key_refl a)

pub hex-Terminated : {key : List ℕ} → IsBytes key → Terminated (bytes_to_hex_nibbles key)
unfolding bytes_to_hex_nibbles nibbles
hex-Terminated no_bytes = last refl
hex-Terminated (byte h k) = more (omega arith) (more (omega arith) (hex-Terminated k))

head : List ℕ → ℕ
head [] = 0
head (x ∷ l) = x

tail : List ℕ → List ℕ
tail [] = []
tail (x ∷ l) = l

pub hex-injective : (a b : List ℕ) → bytes_to_hex_nibbles a ≡ bytes_to_hex_nibbles b → a ≡ b
unfolding bytes_to_hex_nibbles nibbles head tail
hex-injective [] [] e = refl
hex-injective [] (y ∷ b) e =
    absurd
      (let h : 0 ≡ suc (length (nibbles b ++ 16 ∷ [])) = ap (λ l. length (tail l)) e in omega arith)
hex-injective (x ∷ a) [] e =
    absurd
      (let h : suc (length (nibbles a ++ 16 ∷ [])) ≡ 0 = ap (λ l. length (tail l)) e in omega arith)
hex-injective (x ∷ a) (y ∷ b) e =
    let high : x / 16 ≡ y / 16 = ap head e in
    let low : x % 16 ≡ y % 16 = ap (λ l. head (tail l)) e in
    ap₂ (λ z l. z ∷ l) (omega arith) (hex-injective a b (ap (λ l. tail (tail l)) e))

module _ (s : Storage) where
  pub get-Reads :
      {root : Node}
      → IsTree s root
      → {key : List ℕ} → IsBytes key
      → Reads s (fuel_for (bytes_to_hex_nibbles key)) root (bytes_to_hex_nibbles key)
  unfolding fuel_for
  get-Reads d k = IsTree-Reads s d (hex-Terminated k) _ (omega arith)

  pub get-Finds :
      {root : Node}
      → IsTree s root
      → {key : List ℕ} → IsBytes key
      → {r : Option (List ℕ)} → Finds s root (bytes_to_hex_nibbles key) r
      → get s root key ≡ some r
  unfolding get
  get-Finds d k f = let reads = get-Reads d k in reads.runs ∙ ap some (Finds-unique s reads.finds f)

  pub put-Inserted :
      {root : Node}
      → IsTree s root
      → {key : List ℕ} → IsBytes key
      → (v : List ℕ)
      → Inserted s v (fuel_for (bytes_to_hex_nibbles key)) root (bytes_to_hex_nibbles key)
  unfolding fuel_for
  put-Inserted d k v = insert_tree s v d (hex-Terminated k) _ (omega arith)

  -- A tree that is not empty takes the place of the root.
  pub kept : (root : Node) {n : Node} → IsInner s n → (if is_nil n then root else n) ≡ n
  unfolding is_nil
  kept root (leaf t) = refl
  kept root (extension h k d) = refl
  kept root (branch iv children) = refl

  -- In a well-formed trie an insertion under a key of bytes succeeds and leaves a well-formed trie; a
  -- lookup under any key of bytes then succeeds, with the value under that key, and with what it gave
  -- before under another.
  pub get-put :
      {root : Node} (key other v : List ℕ)
      → IsTree s root
      → IsBytes key
      → IsBytes other
      → (after : Node) × (before : Option (List ℕ)) × (put s root key v ≡ some after)
        × IsTree s after
        × (get s root other ≡ some before)
        × (get s after other ≡ some (if same_key key other then some v else before))
  unfolding put with_node
  get-put {root} key other v d k o =
      let i = put-Inserted d k v in
      let reads = get-Reads d o in
      let tree = node (inner i.shape) in
      (
        i.result,
        reads.result,
        rw (i.runs) (ap some (kept root i.shape)),
        tree,
        get-Finds d o reads.finds,
        elim (Bool-cases (same_key key other)) [
          | inl e ↦ rw e (
              get-Finds tree o (
                subst (λ l. Finds s i.result (bytes_to_hex_nibbles l) (some v))
                  (same_key_sound key other e) i.self))
          | inr e ↦ rw e (
              get-Finds tree o (
                i.others (bytes_to_hex_nibbles other) reads.result (hex-Terminated o)
                  (λ q. absurd (
                    let p : same_key key other ≡ true =
                      subst (λ l. same_key key l ≡ true) (sym (hex-injective other key q))
                        (same_key_refl key) in
                    cc))
                  reads.finds))
        ],
      )
