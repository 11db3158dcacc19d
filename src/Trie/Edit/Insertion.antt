-- ===== src/Trie/Edit/Insertion.antt =====
-- `insert` in a short node, and in every well-formed node.
use dogesyncer.Prelude.{
  ℕ, suc, ◌≡◌, refl, ap, ap₂, sym, subst, ◌∙◌, ◌≢◌, true, false, Option, none, some, List, [], ◌∷◌,
  ◌++◌, ◌==◌, if◌then◌else◌, length, take, arith, Option-cases, inl, inr, ℕ_discrete,
}
use dogesyncer.Trie.Node.{
  Node, nil, value_node, short_node, full_node, get_edge, no_edges, prefix_len, Storage,
}
use dogesyncer.Trie.Edit.{insert, insert_short, with_node}
use dogesyncer.Trie.Edit.Keys.{
  Terminated, strip, strip-append, strip-some, strip_here, strip_other, prefix_len-whole,
  prefix_len_apart, length_whole, length_part, drop-append, take-append, Terminated-rest,
  Terminated-front,
}
use dogesyncer.Trie.Edit.Finds.{Finds, nothing, along, off, IsInner}
use dogesyncer.Trie.Edit.Shape.{
  wrap, wrap-along, wrap-off, get_edge_other, IsEdge, set_edge-IsInner, no_edges-IsInner,
  wrap_value-IsEdge, wrap_node-IsInner, under_self, under_other, wrap_value_self, wrap_value_other,
  unwrap, unwrap_off,
}
use dogesyncer.Trie.Edit.Insert.{
  Inserted, insert-nil, insert-full, split_value, split_children, split_node-append,
}

get_edge_none : (z : ℕ) → get_edge nil no_edges z ≡ nil
unfolding get_edge
get_edge_none z = ground arith

module _ (s : Storage) (v : List ℕ) where
  pub Finds-nil : {n : Node} {l : List ℕ} {r : Option (List ℕ)} → n ≡ nil → Finds s n l r → r ≡ none
  Finds-nil {l = l} {r = r} e d = go (subst (λ m. Finds s m l r) e d)
    where
      go : {l : List ℕ} {r : Option (List ℕ)} → Finds s nil l r → r ≡ none
      go nothing = refl

  split_rest :
      (y : ℕ) (b : List ℕ) (n : Node) (l : List ℕ) {r : Option (List ℕ)}
      → Terminated l
      → Finds s (short_node (y ∷ b) n) l r
      → Finds s (full_node (split_value y b n) (split_children y b n)) l r
  unfolding split_value split_children strip
  split_rest y b n [] t d = elim t [ ]
  split_rest y b n (z ∷ l) {r} t d = elim (ℕ_discrete z y) [
    | yes same ↦
        subst (λ q. Finds s (full_node (split_value y b n) (split_children y b n)) (q ∷ l) r)
          (sym same)
          (under_self s nil no_edges y (
            unwrap s (y ∷ []) b (subst (λ q. Finds s (short_node (y ∷ b) n) (q ∷ l) r) same d)
              (strip_here y [] l)))
    | no different ↦ under_other s nil no_edges (wrap b n) different (
        let e : r ≡ none =
          unwrap_off s (y ∷ []) b d (strip_other y z [] l (λ q. different (sym q))) in
        subst (λ m. Finds s m l r) (sym (get_edge_none z))
          (subst (λ q. Finds s nil l q) (sym e) nothing))
  ]

  insert-branch :
      (x : ℕ) (a : List ℕ) (y : ℕ) (b : List ℕ) (n : Node) (f : ℕ)
      → x ≢ y
      → IsEdge s y (wrap b n)
      → Terminated (x ∷ a)
      → Inserted s v
          (suc (suc (suc f)))
          (full_node (split_value y b n) (split_children y b n))
          (x ∷ a)
  unfolding split_value split_children
  insert-branch x a y b n f ne ie t =
      let at : get_edge (split_value y b n) (split_children y b n) x ≡ nil =
        get_edge_other nil no_edges (wrap b n) ne ∙ get_edge_none x in
      insert-full s v x a (suc (suc f)) (wrap a (value_node false v))
        (set_edge-IsInner s y (no_edges-IsInner s) ie) (rw at (insert-nil s v a f))
        (wrap_value-IsEdge s t v) (wrap_value_self s a v)
        (λ rest r t' differs k.
          subst (λ q. Finds s (wrap a (value_node false v)) rest q) (sym (Finds-nil at k))
            (wrap_value_other s a v differs))

  wrapped :
      (c l : List ℕ) (m : Node)
      → (if length c == 0 then m else short_node (take (length c) (c ++ l)) m) ≡ wrap c m
  unfolding wrap
  wrapped [] l m = refl
  wrapped (z ∷ c) l m = rw (take-append c l) (ground arith)

  insert_short_split :
      (go : Node → List ℕ → Option Node) (c : List ℕ) (l : List ℕ) (y : ℕ) (b : List ℕ) (n m : Node)
      → go (full_node (split_value y b n) (split_children y b n)) l ≡ some m
      → insert_short go (c ++ y ∷ b) n (c ++ l) (length c) false ≡ some (wrap c m)
  unfolding insert_short with_node
  insert_short_split go c l y b n m h =
      rw (split_node-append c y b n, drop-append c l, h) (ap some (wrapped c l m))

  insert-split_run :
      (c : List ℕ) (x : ℕ) (a : List ℕ) (y : ℕ) (b : List ℕ) (n : Node) (f : ℕ) (m : Node)
      → x ≢ y
      → insert s f (full_node (split_value y b n) (split_children y b n)) (x ∷ a) v ≡ some m
      → insert s (suc f) (short_node (c ++ y ∷ b) n) (c ++ x ∷ a) v ≡ some (wrap c m)
  unfolding insert
  insert-split_run c x a y b n f m ne h =
      let at : prefix_len (c ++ x ∷ a) (c ++ y ∷ b) ≡ length c = prefix_len_apart c x a y b ne in
      ap₂ (insert_short (λ k l. insert s f k l v) (c ++ y ∷ b) n (c ++ x ∷ a)) at
        (ap (λ p. p == length (c ++ y ∷ b)) at ∙ length_part c y b)
      ∙ insert_short_split (λ k l. insert s f k l v) c (x ∷ a) y b n m h

  insert-whole_run :
      (k rest : List ℕ) (n : Node) (f : ℕ) (m : Node)
      → insert s f n rest v ≡ some m
      → insert s (suc f) (short_node k n) (k ++ rest) v ≡ some (short_node k m)
  unfolding insert
  insert-whole_run k rest n f m h =
      let at : prefix_len (k ++ rest) k ≡ length k = prefix_len-whole k rest in
      ap₂ (insert_short (λ q l. insert s f q l v) k n (k ++ rest)) at
        (ap (λ p. p == length k) at ∙ length_whole k)
      ∙ insert_short_whole (λ q l. insert s f q l v) k rest n m h
    where
      insert_short_whole :
          (go : Node → List ℕ → Option Node) (k rest : List ℕ) (n m : Node)
          → go n rest ≡ some m
          → insert_short go k n (k ++ rest) (length k) true ≡ some (short_node k m)
      insert_short_whole go k rest n m h = rw (drop-append k rest, h, insert_short, with_node) refl

  pub insert-split :
      (c : List ℕ) (x : ℕ) (a : List ℕ) (y : ℕ) (b : List ℕ) (n : Node) (f : ℕ)
      → x ≢ y
      → IsEdge s y (wrap b n)
      → Terminated (c ++ x ∷ a)
      → Inserted s v (suc (suc (suc (suc f)))) (short_node (c ++ y ∷ b) n) (c ++ x ∷ a)
  unfolding wrap
  insert-split c x a y b n f ne ie t =
      let (key, end) = Terminated-front c x a t in
      let i = insert-branch x a y b n f ne ie end in
      record {
        result = wrap c i.result;
        runs = insert-split_run c x a y b n (suc (suc (suc f))) i.result ne i.runs;
        shape = wrap_node-IsInner s key i.shape;
        self = wrap-along s c (strip-append c (x ∷ a)) i.self;
        others = λ other r t' differs k. elim (Option-cases (strip c other)) [
          | inl e ↦
              subst (λ q. Finds s (wrap c i.result) other q) (sym (unwrap_off s c (y ∷ b) k e))
                (wrap-off s c i.result e)
          | inr (l, e) ↦
              let whole_key = strip-some c other e in
              let end' = Terminated-rest key l (subst Terminated whole_key t') in
              wrap-along s c e (
                i.others l r end' (λ q. differs (whole_key ∙ ap (λ m. c ++ m) q))
                  (split_rest y b n l end' (unwrap s c (y ∷ b) k e)))
        ];
      }

  pub insert-whole :
      (k rest : List ℕ) {n : Node} (f : ℕ) (e : Node)
      → insert s f n rest v ≡ some e
      → IsInner s (short_node k e)
      → Finds s e rest (some v)
      → ((l : List ℕ) (r : Option (List ℕ))
          → Terminated (k ++ l)
          → l ≢ rest
          → Finds s n l r
          → Finds s e l r)
      → Inserted s v (suc f) (short_node k n) (k ++ rest)
  insert-whole k rest {n} f e h i d keeps = record {
    result = short_node k e;
    runs = insert-whole_run k rest n f e h;
    shape = i;
    self = along (strip-append k rest) d;
    others = keep;
  }
    where
      keep :
          (other : List ℕ) (r : Option (List ℕ))
          → Terminated other
          → other ≢ k ++ rest
          → Finds s (short_node k n) other r
          → Finds s (short_node k e) other r
      keep other r t ne (along {rest = l} q dl) =
          let p = strip-some k other q in
          along q (keeps l r (subst Terminated p t) (λ z. ne (p ∙ ap (λ m. k ++ m) z)) dl)
      keep other r t ne (off q) = off q
