-- ===== src/Trie/Edit/Insert.antt =====
-- The steps of `insert` of state/immutable-trie/trie.go at empty, value and full nodes, and the branch of
-- a split.
use dogesyncer.Prelude.{
  ℕ, suc, ◌+◌, ◌≡◌, refl, ap, ap₂, sym, subst, ◌∙◌, ◌≢◌, true, false, Option, some, List, [], ◌∷◌,
  ◌++◌, if◌then◌else◌, length, length-append, arith, ltb, ℕ_discrete,
}
use dogesyncer.Trie.Node.{
  Node, nil, value_node, short_node, full_node, get_edge, set_edge, no_edges, Storage,
}
use dogesyncer.Trie.Edit.{insert, split_node, with_node}
use dogesyncer.Trie.Edit.Keys.{Terminated, drop-append}
use dogesyncer.Trie.Edit.Finds.{Finds, under, IsValue, no_value, value, IsInner}
use dogesyncer.Trie.Edit.Shape.{
  wrap, value_after, children_after, set_edge_full, IsEdge, set_edge-IsInner, under_self,
  under_other,
}

-- The branch that a split puts under the common part, with the node's old edge `y`.
unfoldable pub split_value : ℕ → List ℕ → Node → Node
unfolding wrap
split_value y b n = value_after nil y (wrap b n)

unfoldable pub split_children : ℕ → List ℕ → Node → ℕ → Node
unfolding wrap
split_children y b n = children_after no_edges y (wrap b n)

short-wrap :
    (c : List ℕ) (y : ℕ) (b : List ℕ) (n : Node)
    → (if ltb (suc (length c)) (length (c ++ y ∷ b)) then short_node b n else n) ≡ wrap b n
unfolding wrap
short-wrap c y [] n =
    let e : length (c ++ y ∷ []) ≡ length c + 1 = length-append c (y ∷ []) in
    let t : ltb (suc (length c)) (length (c ++ y ∷ [])) ≡ false = ground arith in rw t refl
short-wrap c y (x ∷ b) n =
    let e : length (c ++ y ∷ x ∷ b) ≡ length c + suc (suc (length b)) =
      length-append c (y ∷ x ∷ b) in
    let t : ltb (suc (length c)) (length (c ++ y ∷ x ∷ b)) ≡ true = ground arith in rw t refl

pub split_node-append :
    (c : List ℕ) (y : ℕ) (b : List ℕ) (n : Node)
    → split_node (c ++ y ∷ b) (length c) n ≡ full_node (split_value y b n) (split_children y b n)
unfolding split_node split_value split_children
split_node-append c y b n =
    rw (drop-append c (y ∷ b), split_node)
      (ap (λ e. set_edge nil no_edges y e) (short-wrap c y b n)
        ∙ set_edge_full nil no_edges y (wrap b n))

module _ (s : Storage) (v : List ℕ) where
  pub record Inserted (f : ℕ) (n : Node) (key : List ℕ) : Type 0 where
    pub result : Node
    pub runs : insert s f n key v ≡ some result
    pub shape : IsInner s result
    pub self : Finds s result key (some v)
    pub others :
        (other : List ℕ) (r : Option (List ℕ))
        → Terminated other
        → other ≢ key
        → Finds s n other r
        → Finds s result other r

  pub insert-value :
      {n : Node} → IsValue s n → (f : ℕ) → insert s (suc f) n [] v ≡ some (value_node false v)
  unfolding insert
  insert-value no_value f = refl
  insert-value value f = refl

  pub insert-nil :
      (a : List ℕ) (f : ℕ) → insert s (suc (suc f)) nil a v ≡ some (wrap a (value_node false v))
  unfolding insert with_node wrap
  insert-nil [] f = refl
  insert-nil (x ∷ a) f = refl

  insert-full_run :
      (w : Node) (cs : ℕ → Node) (x : ℕ) (a : List ℕ) (f : ℕ) (e : Node)
      → insert s f (get_edge w cs x) a v ≡ some e
      → insert s (suc f) (full_node w cs) (x ∷ a) v
        ≡ some (full_node (value_after w x e) (children_after cs x e))
  unfolding insert with_node
  insert-full_run w cs x a f e h = rw (h, set_edge_full w cs x e) refl

  pub insert-full :
      {w : Node} {cs : ℕ → Node} (x : ℕ) (a : List ℕ) (f : ℕ) (e : Node)
      → IsInner s (full_node w cs)
      → insert s f (get_edge w cs x) a v ≡ some e
      → IsEdge s x e
      → Finds s e a (some v)
      → ((rest : List ℕ) (r : Option (List ℕ))
          → Terminated (x ∷ rest)
          → rest ≢ a
          → Finds s (get_edge w cs x) rest r
          → Finds s e rest r)
      → Inserted (suc f) (full_node w cs) (x ∷ a)
  insert-full {w} {cs} x a f e i h ie d keeps = record {
    result = full_node (value_after w x e) (children_after cs x e);
    runs = insert-full_run w cs x a f e h;
    shape = set_edge-IsInner s x i ie;
    self = under_self s w cs x d;
    others = λ other r t ne k. keep other r t ne k;
  }
    where
      keep :
          (other : List ℕ) (r : Option (List ℕ))
          → Terminated other
          → other ≢ x ∷ a
          → Finds s (full_node w cs) other r
          → Finds s (full_node (value_after w x e) (children_after cs x e)) other r
      keep [] r t ne k = elim t [ ]
      keep (z ∷ rest) r t ne (under k) = elim (ℕ_discrete z x) [
        | yes same ↦
            subst
              (λ y. Finds s (full_node (value_after w x e) (children_after cs x e)) (y ∷ rest) r)
              (sym same)
              (under_self s w cs x (
                keeps rest r (subst (λ y. Terminated (y ∷ rest)) same t)
                  (λ q. ne (ap₂ (λ y l. y ∷ l) same q))
                  (subst (λ y. Finds s (get_edge w cs y) rest r) same k)))
        | no different ↦ under_other s w cs e different k
      ]
