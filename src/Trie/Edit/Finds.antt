-- ===== src/Trie/Edit/Finds.antt =====
-- The well-formed nodes of state/immutable-trie/trie.go, what is found under a key in them, and the run of
-- `lookup`.
use dogesyncer.Prelude.{
  ◌&&◌, ◌==◌, ℕ, zero, suc, ◌+◌, ◌*◌, ◌<◌, ◌≡◌, refl, ap, sym, subst, ◌∙◌, true, false, Option,
  none, some, List, [], ◌∷◌, ◌++◌, length, length-append, arith,
}
use dogesyncer.Trie.Encoding.RoundTrip.{IsKey, nibble}
use dogesyncer.Trie.Node.{
  Node, nil, value_node, short_node, full_node, get_edge, Storage, found, get_node,
}
use dogesyncer.Trie.Edit.{is_loaded, lookup}
use dogesyncer.Trie.Edit.Keys.{
  Terminated, last, more, strip, strip-append, View, whole, apart, within, view, strip_apart,
  strip_within, prefix_len-whole, prefix_len_apart, prefix_len-within, drop-append, length_whole,
  length_part, Terminated-rest, length-Terminated,
}

module _ (s : Storage) where
  -- What a node says of a key.
  pub data Finds : Node → List ℕ → Option (List ℕ) → Type 0 where
    nothing : {key : List ℕ} → Finds nil key none
    here : {v : List ℕ} → Finds (value_node false v) [] (some v)
    behind : {v : List ℕ} {x : ℕ} {key : List ℕ} → Finds (value_node false v) (x ∷ key) none
    loaded :
        {h : List ℕ} {n : Node} {key : List ℕ} {r : Option (List ℕ)}
        → get_node s h ≡ found n
        → Finds n key r
        → Finds (value_node true h) key r
    along :
        {p : List ℕ} {c : Node} {key rest : List ℕ} {r : Option (List ℕ)}
        → strip p key ≡ some rest
        → Finds c rest r
        → Finds (short_node p c) key r
    off :
        {p : List ℕ} {c : Node} {key : List ℕ}
        → strip p key ≡ none
        → Finds (short_node p c) key none
    under :
        {v : Node} {cs : ℕ → Node} {x : ℕ} {rest : List ℕ} {r : Option (List ℕ)}
        → Finds (get_edge v cs x) rest r
        → Finds (full_node v cs) (x ∷ rest) r

  pub found-injective : {a b : Node} → found a ≡ found b → a ≡ b
  found-injective {a = a} e = ap (λ l. elim l [ found n ↦ n | _ ↦ a ]) e

  some-injective : {A : Type 0} {a b : A} → some a ≡ some b → a ≡ b
  some-injective {a = a} e = ap (λ o. elim o [ some x ↦ x | none ↦ a ]) e

  pub Finds-unique :
      {n : Node} {key : List ℕ} {r r' : Option (List ℕ)} → Finds n key r → Finds n key r' → r ≡ r'
  Finds-unique nothing nothing = refl
  Finds-unique here here = refl
  Finds-unique behind behind = refl
  Finds-unique (loaded {key = key} e d) (loaded {r = r} g d') =
      Finds-unique d (subst (λ n. Finds n key r) (found-injective (sym g ∙ e)) d')
  Finds-unique (along {c = c} e d) (along {r = r} g d') =
      Finds-unique d (subst (λ k. Finds c k r) (some-injective (sym g ∙ e)) d')
  Finds-unique (along e d) (off g) = absurd (cc)
  Finds-unique (off e) (along g d) = absurd (cc)
  Finds-unique (off e) (off g) = refl
  Finds-unique (under d) (under d') = Finds-unique d d'

  -- A leaf, an extension or a branch; a node is one of them, in memory or stored.
  pub data IsValue : Node → Type 0 where
    no_value : IsValue nil
    value : {v : List ℕ} → IsValue (value_node false v)

  mutual
    pub data IsInner : Node → Type 0 where
      leaf : {k v : List ℕ} → Terminated k → IsInner (short_node k (value_node false v))
      extension :
          {x : ℕ} {p : List ℕ} {c : Node}
          → x < 16
          → IsKey p
          → IsNode c
          → IsInner (short_node (x ∷ p) c)
      branch :
          {v : Node} {cs : ℕ → Node}
          → IsValue v
          → ((i : ℕ) → i < 16 → IsTree (cs i))
          → IsInner (full_node v cs)

    pub data IsNode : Node → Type 0 where
      inner : {n : Node} → IsInner n → IsNode n
      stored :
          {h : List ℕ} {n : Node} → get_node s h ≡ found n → IsInner n → IsNode (value_node true h)

    -- The root of a trie, or a child of a full node.
    pub data IsTree : Node → Type 0 where
      no_tree : IsTree nil
      node : {n : Node} → IsNode n → IsTree n

  pub record Reads (f : ℕ) (n : Node) (key : List ℕ) : Type 0 where
    pub result : Option (List ℕ)
    pub runs : lookup s f n key ≡ some result
    pub finds : Finds n key result

  value-Reads : {n : Node} → IsValue n → (key : List ℕ) (f : ℕ) → Reads (suc f) n key
  unfolding lookup
  value-Reads no_value key f = record { result = none; runs = refl; finds = nothing }
  value-Reads (value {v = v}) [] f = record { result = some v; runs = refl; finds = here }
  value-Reads (value {v = v}) (x ∷ key) f = record { result = none; runs = refl; finds = behind }

  short-Reads :
      (p : List ℕ) (c : Node) {key : List ℕ}
      → View key p
      → (f : ℕ) → ((rest : List ℕ) → key ≡ p ++ rest → Reads f c rest)
      → Reads (suc f) (short_node p c) key
  unfolding lookup
  short-Reads p c (whole q rest) f below =
      let r = below rest refl in
      record {
        result = r.result;
        runs =
            rw (prefix_len-whole q rest, length_whole q, lookup) (rw (drop-append q rest) r.runs);
        finds = along (strip-append q rest) r.finds;
      }
  short-Reads p c (apart a x l y b ne) f below = record {
    result = none;
    runs = rw (prefix_len_apart a x l y b ne, length_part a y b, lookup) refl;
    finds = off (strip_apart a x l y b ne);
  }
  short-Reads p c (within a y b) f below = record {
    result = none;
    runs = rw (prefix_len-within a (y ∷ b), length_part a y b, lookup) refl;
    finds = off (strip_within a y b);
  }

  stored-Reads :
      (h : List ℕ) {n : Node} {key : List ℕ}
      → get_node s h ≡ found n
      → (f : ℕ) → Reads f n key
      → Reads (suc f) (value_node true h) key
  unfolding lookup
  stored-Reads h e f r = record {
    result = r.result;
    runs = rw (e, lookup) r.runs;
    finds = loaded e r.finds;
  }

  full-Reads :
      (v : Node) (cs : ℕ → Node) (x : ℕ) {rest : List ℕ}
      → (x == 16 && is_loaded s v) ≡ false
      → (f : ℕ) → Reads f (get_edge v cs x) rest
      → Reads (suc f) (full_node v cs) (x ∷ rest)
  unfolding lookup
  full-Reads v cs x inside f r = record {
    result = r.result;
    runs = rw (inside, lookup) r.runs;
    finds = under r.finds;
  }

  IsValue-unloaded : {v : Node} (x : ℕ) → IsValue v → (x == 16 && is_loaded s v) ≡ false
  unfolding is_loaded
  IsValue-unloaded x no_value = ground arith
  IsValue-unloaded x value = ground arith

  pub get_edge-value : (v : Node) (cs : ℕ → Node) {x : ℕ} → x ≡ 16 → get_edge v cs x ≡ v
  unfolding get_edge
  get_edge-value v cs e = ground arith

  pub get_edge-child : (v : Node) (cs : ℕ → Node) {x : ℕ} → x < 16 → get_edge v cs x ≡ cs x
  unfolding get_edge
  get_edge-child v cs h = ground arith

  mutual
    IsInner-Reads :
        {n : Node}
        → IsInner n
        → {key : List ℕ} → Terminated key
        → (f : ℕ) → 2 * length key < f
        → Reads f n key
    IsInner-Reads i t zero h = absurd (omega arith)
    IsInner-Reads (leaf tk) t (suc zero) h = absurd (omega (arith, length-Terminated t))
    IsInner-Reads (leaf {k = k} {v = v} tk) {key} t (suc (suc f)) h =
        short-Reads k (value_node false v) (view key k) (suc f) (λ rest e. value-Reads value rest f)
    IsInner-Reads (extension {x = x} {p = p} {c = c} hx kp d) {key} t (suc f) h =
        short-Reads (x ∷ p) c (view key (x ∷ p)) f (λ rest e.
          IsNode-Reads d (Terminated-rest (nibble hx kp) rest (subst Terminated e t)) f
            (omega (arith, ap length e, length-append p rest)))
    IsInner-Reads (branch {v = v} {cs = cs} iv children) (last {x = x} e) (suc zero) h =
        absurd (omega arith)
    IsInner-Reads (branch {v = v} {cs = cs} iv children) (last {x = x} e) (suc (suc f)) h =
        full-Reads v cs x (IsValue-unloaded x iv) (suc f)
          (subst (λ n. Reads (suc f) n []) (sym (get_edge-value v cs e)) (value-Reads iv [] f))
    IsInner-Reads (branch {v = v} {cs = cs} iv children) (more {x = x} {rest = rest} hx t) (suc f)
          h =
        full-Reads v cs x (IsValue-unloaded x iv) f (
          subst (λ n. Reads f n rest) (sym (get_edge-child v cs hx))
            (IsTree-Reads (children x hx) t f (omega arith)))

    IsNode-Reads :
        {n : Node}
        → IsNode n
        → {key : List ℕ} → Terminated key
        → (f : ℕ) → 2 * length key + 1 < f
        → Reads f n key
    IsNode-Reads d t zero h = absurd (omega arith)
    IsNode-Reads (inner i) t (suc f) h = IsInner-Reads i t (suc f) (omega arith)
    IsNode-Reads (stored {h = hash} e i) t (suc f) h =
        stored-Reads hash e f (IsInner-Reads i t f (omega arith))

    pub IsTree-Reads :
        {n : Node}
        → IsTree n
        → {key : List ℕ} → Terminated key
        → (f : ℕ) → 2 * length key + 1 < f
        → Reads f n key
    IsTree-Reads d t zero h = absurd (omega arith)
    IsTree-Reads no_tree {key} t (suc f) h = value-Reads no_value key f
    IsTree-Reads (node d) t (suc f) h = IsNode-Reads d t (suc f) h
