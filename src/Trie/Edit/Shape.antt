-- ===== src/Trie/Edit/Shape.antt =====
-- Short nodes with a key that may be empty, and full nodes with a new edge.
use dogesyncer.Prelude.{
  ℕ, ◌<◌, ◌≡◌, refl, ap, sym, subst, ◌∙◌, ◌≢◌, true, false, Option, none, some, List, [], ◌∷◌, ◌++◌,
  ◌==◌, if◌then◌else◌, arith, Bool-cases, Option-cases, inl, inr,
}
use dogesyncer.Trie.Encoding.RoundTrip.{IsKey, empty, nibble}
use dogesyncer.Trie.Node.{
  Node, nil, value_node, short_node, full_node, get_edge, set_edge, no_edges, Storage,
}
use dogesyncer.Trie.Edit.Keys.{
  Terminated, last, more, strip, strip-append, strip-some, strip-strip, strip_off, append_nil,
}
use dogesyncer.Trie.Edit.Finds.{
  Finds, here, behind, along, off, under, IsValue, no_value, value, IsInner, leaf, extension,
  branch, IsNode, inner, IsTree, no_tree, node, get_edge-value, get_edge-child,
}

-- No short node where there is no key.
unfoldable pub wrap : List ℕ → Node → Node
wrap [] n = n
wrap (x ∷ p) n = short_node (x ∷ p) n

abbrev pub value_after : Node → ℕ → Node → Node
value_after v x e = if x == 16 then e else v

abbrev pub children_after : (ℕ → Node) → ℕ → Node → (ℕ → Node)
children_after cs x e = if x == 16 then cs else (λ i. if i == x then e else cs i)

pub set_edge_full :
    (v : Node) (cs : ℕ → Node) (x : ℕ) (e : Node)
    → set_edge v cs x e ≡ full_node (value_after v x e) (children_after cs x e)
unfolding set_edge
set_edge_full v cs x e = elim (Bool-cases (x == 16)) [ inl h ↦ rw h refl | inr h ↦ rw h refl ]

pub get_edge_self :
    (v : Node) (cs : ℕ → Node) (x : ℕ) (e : Node)
    → get_edge (value_after v x e) (children_after cs x e) x ≡ e
unfolding get_edge
get_edge_self v cs x e = elim (Bool-cases (x == 16)) [
  | inl h ↦ rw h refl
  | inr h ↦ rw h (ground arith)
]

pub get_edge_other :
    (v : Node) (cs : ℕ → Node) {x z : ℕ} (e : Node)
    → z ≢ x
    → get_edge (value_after v x e) (children_after cs x e) z ≡ get_edge v cs z
unfolding get_edge
get_edge_other v cs {x} {z} e ne = elim (Bool-cases (x == 16)) [
  | inl h ↦ let g : (z == 16) ≡ false = ground arith in rw h (rw g refl)
  | inr h ↦ rw h (ground arith)
]

module _ (s : Storage) where
  pub wrap-along :
      (p : List ℕ) {n : Node} {key rest : List ℕ} {r : Option (List ℕ)}
      → strip p key ≡ some rest
      → Finds s n rest r
      → Finds s (wrap p n) key r
  unfolding wrap strip
  wrap-along [] {n} {r = r} e d =
      subst (λ k. Finds s n k r) (sym (ap (λ o. elim o [ some k ↦ k | none ↦ [] ]) e)) d
  wrap-along (x ∷ p) e d = along e d

  pub wrap-off :
      (p : List ℕ) (n : Node) {key : List ℕ} → strip p key ≡ none → Finds s (wrap p n) key none
  unfolding wrap strip
  wrap-off [] n e = absurd (cc)
  wrap-off (x ∷ p) n e = off e

  -- What may stand at an edge.
  pub data IsEdge (x : ℕ) (e : Node) : Type 0 where
    at_end : x ≡ 16 → IsValue s e → IsEdge x e
    at_child : x < 16 → IsTree s e → IsEdge x e

  pub get_edge-IsEdge :
      {v : Node} {cs : ℕ → Node}
      → IsInner s (full_node v cs)
      → {x : ℕ} {rest : List ℕ} → Terminated (x ∷ rest)
      → IsEdge x (get_edge v cs x)
  get_edge-IsEdge {v} {cs} (branch iv children) (last e) =
      at_end e (subst (IsValue s) (sym (get_edge-value s v cs e)) iv)
  get_edge-IsEdge {v} {cs} (branch iv children) (more {x = x} h t) =
      at_child h (subst (IsTree s) (sym (get_edge-child s v cs h)) (children x h))

  pub set_edge-IsInner :
      {v : Node} {cs : ℕ → Node} (x : ℕ) {e : Node}
      → IsInner s (full_node v cs)
      → IsEdge x e
      → IsInner s (full_node (value_after v x e) (children_after cs x e))
  set_edge-IsInner x (branch iv children) (at_end h ie) =
      let t : (x == 16) ≡ true = ground arith in rw t (branch ie children)
  set_edge-IsInner {cs = cs} x {e} (branch iv children) (at_child h ie) =
      let t : (x == 16) ≡ false = ground arith in
      rw t (
        branch iv (λ i g. elim (Bool-cases (i == x)) [
          | inl same ↦ rw same ie
          | inr other ↦ rw other (children i g)
        ]))

  pub no_edges-IsInner : IsInner s (full_node nil no_edges)
  no_edges-IsInner = branch no_value (λ i h. no_tree)

  -- What a split leaves at its edges.
  pub wrap_value-IsEdge :
      {x : ℕ} {a : List ℕ}
      → Terminated (x ∷ a)
      → (v : List ℕ) → IsEdge x (wrap a (value_node false v))
  unfolding wrap
  wrap_value-IsEdge (last e) v = at_end e value
  wrap_value-IsEdge (more h (last e)) v = at_child h (node (inner (leaf (last e))))
  wrap_value-IsEdge (more h (more g t)) v = at_child h (node (inner (leaf (more g t))))

  pub wrap_node-IsInner : {p : List ℕ} {n : Node} → IsKey p → IsInner s n → IsInner s (wrap p n)
  unfolding wrap
  wrap_node-IsInner empty i = i
  wrap_node-IsInner (nibble h k) i = extension h k (inner i)

  pub wrap_node-IsEdge :
      {x : ℕ} {p : List ℕ} {n : Node} → x < 16 → IsKey p → IsNode s n → IsEdge x (wrap p n)
  unfolding wrap
  wrap_node-IsEdge h empty i = at_child h (node i)
  wrap_node-IsEdge h (nibble g k) i = at_child h (node (inner (extension g k i)))

  -- What is found after an edge has been set.
  pub under_self :
      (v : Node) (cs : ℕ → Node) (x : ℕ) {e : Node} {rest : List ℕ} {r : Option (List ℕ)}
      → Finds s e rest r
      → Finds s (full_node (value_after v x e) (children_after cs x e)) (x ∷ rest) r
  under_self v cs x {e} {rest} {r} d =
      under (subst (λ n. Finds s n rest r) (sym (get_edge_self v cs x e)) d)

  pub under_other :
      (v : Node) (cs : ℕ → Node) {x z : ℕ} (e : Node) {rest : List ℕ} {r : Option (List ℕ)}
      → z ≢ x
      → Finds s (get_edge v cs z) rest r
      → Finds s (full_node (value_after v x e) (children_after cs x e)) (z ∷ rest) r
  under_other v cs e {rest} {r} ne d =
      under (subst (λ n. Finds s n rest r) (sym (get_edge_other v cs e ne)) d)

  pub wrap_value_self : (a v : List ℕ) → Finds s (wrap a (value_node false v)) a (some v)
  wrap_value_self a v =
      wrap-along a (subst (λ l. strip a l ≡ some []) (append_nil a) (strip-append a [])) here

  pub wrap_value_other :
      (a v : List ℕ) {l : List ℕ} → l ≢ a → Finds s (wrap a (value_node false v)) l none
  wrap_value_other a v {l} ne = elim (Option-cases (strip a l)) [
    | inl e ↦ wrap-off a (value_node false v) e
    | inr ([], e) ↦ absurd (ne (strip-some a l e ∙ append_nil a))
    | inr (x ∷ rest, e) ↦ wrap-along a e behind
  ]

  -- What a short node says, told from the rest of the key.
  pub unwrap :
      (c q : List ℕ) {n : Node} {key l : List ℕ} {r : Option (List ℕ)}
      → Finds s (short_node (c ++ q) n) key r
      → strip c key ≡ some l
      → Finds s (wrap q n) l r
  unwrap c q {key = key} (along e d) h = wrap-along q (sym (strip-strip c q key h) ∙ e) d
  unwrap c q {n} {key} (off e) h = wrap-off q n (sym (strip-strip c q key h) ∙ e)

  pub unwrap_off :
      (c q : List ℕ) {n : Node} {key : List ℕ} {r : Option (List ℕ)}
      → Finds s (short_node (c ++ q) n) key r
      → strip c key ≡ none
      → r ≡ none
  unwrap_off c q {key = key} (along e d) h = absurd (let g = strip_off c q key h in cc)
  unwrap_off c q (off e) h = refl
