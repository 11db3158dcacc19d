-- ===== src/Trie/Edit/Remove.antt =====
-- The steps of `delete` of state/immutable-trie/trie.go at short and full nodes.
use dogesyncer.Prelude.{
  ℕ, suc, ◌<◌, ◌≡◌, refl, ap, ap₂, sym, subst, ◌∙◌, ◌≢◌, true, Option, none, some, List, [], ◌∷◌,
  ◌++◌, ◌==◌, length, length-append, arith, Bool-cases, inl, inr, ℕ_discrete,
}
use dogesyncer.Trie.Encoding.RoundTrip.{IsKey, empty, nibble}
use dogesyncer.Trie.Node.{Node, nil, value_node, short_node, full_node, get_edge, Storage}
use dogesyncer.Trie.Edit.{
  Deleted, deleted, not_there, delete, merge, settle_child, settle_edge, collapse,
}
use dogesyncer.Trie.Edit.Keys.{
  Terminated, strip, strip-append, strip-some, strip-strip, strip_off, Terminated-rest,
  Terminated-prepend, length-Terminated,
}
use dogesyncer.Trie.Edit.Finds.{
  Finds, nothing, along, off, under, IsInner, leaf, extension, branch, IsNode, inner, stored,
  IsTree, no_tree, node,
}
use dogesyncer.Trie.Edit.Shape.{
  value_after, children_after, IsEdge, set_edge-IsInner, under_self, under_other,
}
use dogesyncer.Trie.Edit.Collapse.{collapse-Covers}
use dogesyncer.Trie.Edit.Long.{delete_whole, delete_full_kept}

module _ (s : Storage) where
  -- What a deletion promises of a node whose keys fulfil `Q`: nothing there, or a node of the shape `P`.
  pub data Outcome (P : Node → Type 0) (Q : List ℕ → Type 0) (n : Node) (search : List ℕ)
      : Deleted → Type 0 where
    kept : Finds s n search none → Outcome P Q n search not_there
    removed :
        {m : Node}
        → P m
        → Finds s m search none
        → ((other : List ℕ) (r : Option (List ℕ))
            → Q other
            → other ≢ search
            → Finds s n other r
            → Finds s m other r)
        → Outcome P Q n search (deleted m true)

  pub record Removed (f : ℕ) (n : Node) (search : List ℕ) : Type 0 where
    pub result : Deleted
    pub runs : delete s f n search ≡ some result
    pub outcome : Outcome (IsTree s) Terminated n search result

  -- A short node's child merges with it.
  merge-along :
      (p : List ℕ) (m : Node) {key l : List ℕ} {r : Option (List ℕ)}
      → strip p key ≡ some l
      → Finds s m l r
      → Finds s (merge p m) key r
  unfolding merge
  merge-along p nil e nothing = nothing
  merge-along p (value_node b buf) e d = along e d
  merge-along p (short_node q c) {key} e (along g d) = along (strip-strip p q key e ∙ g) d
  merge-along p (short_node q c) {key} e (off g) = off (strip-strip p q key e ∙ g)
  merge-along p (full_node v cs) e d = along e d

  merge-off :
      (p : List ℕ) (m : Node) {key : List ℕ} → strip p key ≡ none → Finds s (merge p m) key none
  unfolding merge
  merge-off p nil e = nothing
  merge-off p (value_node b buf) e = off e
  merge-off p (short_node q c) {key} e = off (strip_off p q key e)
  merge-off p (full_node v cs) e = off e

  longer :
      {k : List ℕ} {n : Node} → IsKey k → 0 < length k → IsNode s n → IsInner s (short_node k n)
  longer empty h d = absurd (omega arith)
  longer (nibble g k) h d = extension g k d

  append-IsKey : {p q : List ℕ} → IsKey p → IsKey q → IsKey (p ++ q)
  append-IsKey empty k = k
  append-IsKey (nibble h j) k = nibble h (append-IsKey j k)

  merge-IsTree :
      {p : List ℕ} {m : Node} → IsKey p → 0 < length p → IsTree s m → IsTree s (merge p m)
  unfolding merge
  merge-IsTree k h no_tree = no_tree
  merge-IsTree k h (node (inner (leaf t))) = node (inner (leaf (Terminated-prepend k t)))
  merge-IsTree {p} k h (node (inner (extension {x = x} {p = q} g j d))) =
      node (inner (longer (append-IsKey k (nibble g j)) (omega (arith, length-append p (x ∷ q))) d))
  merge-IsTree k h (node (inner (branch iv children))) =
      node (inner (longer k h (inner (branch iv children))))
  merge-IsTree k h (node (stored e i)) = node (inner (longer k h (stored e i)))

  -- A deletion in the child of an extension.
  pub remove-whole :
      (p rest : List ℕ) {n : Node} (f : ℕ)
      → IsKey p
      → 0 < length p
      → Terminated rest
      → Removed f n rest
      → Removed (suc f) (short_node p n) (p ++ rest)
  unfolding settle_child
  remove-whole p rest {n} f k h t r = record {
    result = settle_child p r.result;
    runs = delete_whole s p rest n f r.result h (length-Terminated t) r.runs;
    outcome = settled r.outcome;
  }
    where
      keep :
          (m : Node)
          → ((other : List ℕ) (r : Option (List ℕ))
              → Terminated other
              → other ≢ rest
              → Finds s n other r
              → Finds s m other r)
          → (other : List ℕ) (r : Option (List ℕ)) → Terminated other
          → other ≢ p ++ rest
          → Finds s (short_node p n) other r
          → Finds s (merge p m) other r
      keep m others other r t' ne (along {rest = l} e d) =
          let q = strip-some p other e in
          merge-along p m e (
            others l r (Terminated-rest k l (subst Terminated q t'))
              (λ z. ne (q ∙ ap (λ y. p ++ y) z)) d)
      keep m others other r t' ne (off e) = merge-off p m e

      settled :
          {d : Deleted}
          → Outcome (IsTree s) Terminated n rest d
          → Outcome (IsTree s) Terminated (short_node p n) (p ++ rest) (settle_child p d)
      settled (kept d) = kept (along (strip-append p rest) d)
      settled (removed {m = m} i gone others) =
          removed (merge-IsTree k h i) (merge-along p m (strip-append p rest) gone)
            (λ other r t' ne d. keep m others other r t' ne d)

  -- A deletion in the edge of a full node.
  collapsed :
      (w : Node) (cs : ℕ → Node) (x : ℕ) (m : Node)
      → settle_edge s w cs x (deleted m true)
        ≡ collapse s (value_after w x m) (children_after cs x m)
  unfolding settle_edge
  collapsed w cs x m = elim (Bool-cases (x == 16)) [ inl e ↦ rw e refl | inr e ↦ rw e refl ]

  pub remove-edge :
      (w : Node) (cs : ℕ → Node) (x : ℕ) (a : List ℕ) (f : ℕ) (d : Deleted)
      → IsInner s (full_node w cs)
      → Terminated (x ∷ a)
      → delete s f (get_edge w cs x) a ≡ some d
      → Outcome (IsEdge s x) (λ l. Terminated (x ∷ l)) (get_edge w cs x) a d
      → Removed (suc f) (full_node w cs) (x ∷ a)
  unfolding delete
  remove-edge w cs x a f d i t e (kept k) = record {
    result = not_there;
    runs = delete_full_kept s w cs x a f e;
    outcome = kept (under k);
  }
  remove-edge w cs x a f d i t e (removed {m = m} ie gone others) =
      let c =
        collapse-Covers s (value_after w x m) (children_after cs x m) (set_edge-IsInner s x i ie) in
      record {
        result = deleted c.result.node true;
        runs =
            rw e (
              collapsed w cs x m ∙ c.runs ∙ ap (λ b. some (deleted c.result.node b)) c.covers.done);
        outcome =
            removed c.covers.tree (c.covers.finds (x ∷ a) none t (under_self s w cs x gone))
              (λ other r t' ne k. c.covers.finds other r t' (after m others other r t' ne k));
      }
    where
      after :
          (m : Node)
          → ((other : List ℕ) (r : Option (List ℕ))
              → Terminated (x ∷ other)
              → other ≢ a
              → Finds s (get_edge w cs x) other r
              → Finds s m other r)
          → (other : List ℕ) (r : Option (List ℕ)) → Terminated other
          → other ≢ x ∷ a
          → Finds s (full_node w cs) other r
          → Finds s (full_node (value_after w x m) (children_after cs x m)) other r
      after m others [] r t ne k = elim t [ ]
      after m others (z ∷ l) r t ne (under k) = elim (ℕ_discrete z x) [
        | yes same ↦
            subst (λ y. Finds s (full_node (value_after w x m) (children_after cs x m)) (y ∷ l) r)
              (sym same)
              (under_self s w cs x (
                others l r (subst (λ y. Terminated (y ∷ l)) same t)
                  (λ q. ne (ap₂ (λ y l'. y ∷ l') same q))
                  (subst (λ y. Finds s (get_edge w cs y) l r) same k)))
        | no different ↦ under_other s w cs m different k
      ]
