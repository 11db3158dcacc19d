-- ===== src/Trie/Edit/Put.antt =====
-- `insert` of state/immutable-trie/trie.go through the well-formed nodes.
use dogesyncer.Prelude.{
  ℕ, zero, suc, ◌+◌, ◌*◌, ◌<◌, ◌≡◌, refl, ap, sym, subst, ◌∙◌, ◌≢◌, true, false, Option, some, List,
  [], ◌∷◌, ◌++◌, length, length-append, arith,
}
use dogesyncer.Trie.Encoding.RoundTrip.{IsKey, empty, nibble}
use dogesyncer.Trie.Node.{Node, nil, value_node, short_node, Storage, found, get_node}
use dogesyncer.Trie.Edit.{insert}
use dogesyncer.Trie.Edit.Keys.{
  Terminated, last, more, View, whole, apart, within, view, Terminated-rest, Terminated-front,
  Terminated-within, Terminated-whole, Terminated-tail, key-unended, IsKey-back, length-Terminated,
}
use dogesyncer.Trie.Edit.Finds.{
  Finds, found-injective, here, loaded, value, IsInner, leaf, extension, branch, IsNode, inner,
  stored, IsTree, no_tree, node, get_edge-value, get_edge-child,
}
use dogesyncer.Trie.Edit.Shape.{
  wrap, wrap_value-IsEdge, wrap_value_self, wrap_value_other, wrap_node-IsEdge, IsEdge, at_end,
  at_child,
}
use dogesyncer.Trie.Edit.Insert.{Inserted, insert-value, insert-nil, insert-full}
use dogesyncer.Trie.Edit.Insertion.{insert-split, insert-whole, Finds-nil}

module _ (s : Storage) (v : List ℕ) where
  insert-apart :
      (c : List ℕ) (x : ℕ) (a : List ℕ) (y : ℕ) (b : List ℕ) (n : Node) (f : ℕ)
      → 3 < f
      → x ≢ y
      → IsEdge s y (wrap b n)
      → Terminated (c ++ x ∷ a)
      → Inserted s v f (short_node (c ++ y ∷ b) n) (c ++ x ∷ a)
  insert-apart c x a y b n zero h ne ie t = absurd (omega arith)
  insert-apart c x a y b n (suc zero) h ne ie t = absurd (omega arith)
  insert-apart c x a y b n (suc (suc zero)) h ne ie t = absurd (omega arith)
  insert-apart c x a y b n (suc (suc (suc zero))) h ne ie t = absurd (omega arith)
  insert-apart c x a y b n (suc (suc (suc (suc f)))) h ne ie t =
      insert-split s v c x a y b n f ne ie t

  insert-leaf :
      {k key : List ℕ} (w : List ℕ)
      → View key k
      → Terminated k
      → Terminated key
      → (f : ℕ) → 2 < f
      → Inserted s v (suc f) (short_node k (value_node false w)) key
  insert-leaf w view tk t zero h = absurd (omega arith)
  insert-leaf w (whole k rest) tk t (suc f) h =
      let e : rest ≡ [] = Terminated-whole tk rest t in
      subst (λ l. Inserted s v (suc (suc f)) (short_node k (value_node false w)) (k ++ l)) (sym e)
        (insert-whole s v k [] (suc f) (value_node false v) (insert-value s v value f) (leaf tk)
          here (λ l r t' ne d. absurd (ne (Terminated-whole tk l t'))))
  insert-leaf w (apart c x a y b ne) tk t (suc f) h =
      insert-apart c x a y b (value_node false w) (suc (suc f)) (omega arith) ne
        (wrap_value-IsEdge s (Terminated-front c y b tk).1 w) t
  insert-leaf w (within c y b) tk t (suc f) h = absurd (Terminated-within y b t tk)

  insert-extension :
      {k key : List ℕ} {n : Node}
      → View key k
      → IsKey k
      → 0 < length k
      → IsNode s n
      → Terminated key
      → (f : ℕ) → 2 < f
      → ((rest : List ℕ) → key ≡ k ++ rest → Inserted s v f n rest)
      → Inserted s v (suc f) (short_node k n) key
  insert-extension (whole k rest) key some_key d t f h below =
      let i = below rest refl in
      insert-whole s v k rest f i.result i.runs (longer key some_key (inner i.shape)) i.self
        (λ l r t' ne. i.others l r (Terminated-rest key l t') ne)
    where
      longer :
          {k : List ℕ} {n : Node} → IsKey k → 0 < length k → IsNode s n → IsInner s (short_node k n)
      longer empty h d = absurd (omega arith)
      longer (nibble g k) h d = extension g k d
  insert-extension {n = n} (apart c x a y b ne) key some_key d t f h below =
      let (g, back) = IsKey-back c key in
      insert-apart c x a y b n (suc f) (omega arith) ne (wrap_node-IsEdge s g back d) t
  insert-extension (within c y b) key some_key d t f h below = absurd (key-unended t (y ∷ b) key)

  insert-stored :
      (hash : List ℕ) {n : Node} {key : List ℕ}
      → get_node s hash ≡ found n
      → (f : ℕ) → Inserted s v f n key
      → Inserted s v (suc f) (value_node true hash) key
  unfolding insert
  insert-stored hash {n} {key} e f i = record {
    result = i.result;
    runs = insert-loaded;
    shape = i.shape;
    self = i.self;
    others = keep;
  }
    where
      insert-loaded : insert s (suc f) (value_node true hash) key v ≡ some i.result
      insert-loaded = rw (e, insert) i.runs

      keep :
          (other : List ℕ) (r : Option (List ℕ))
          → Terminated other
          → other ≢ key
          → Finds s (value_node true hash) other r
          → Finds s i.result other r
      keep other r t ne (loaded g d) =
          i.others other r t ne (subst (λ m. Finds s m other r) (found-injective s (sym g ∙ e)) d)

  insert-empty : {key : List ℕ} → Terminated key → (f : ℕ) → Inserted s v (suc (suc f)) nil key
  unfolding wrap
  insert-empty {key} t f = record {
    result = wrap key (value_node false v);
    runs = insert-nil s v key f;
    shape = wrap-leaf t;
    self = wrap_value_self s key v;
    others = λ other r t' ne d.
        subst (λ q. Finds s (wrap key (value_node false v)) other q) (sym (Finds-nil s v refl d))
          (wrap_value_other s key v ne);
  }
    where
      wrap-leaf : {key : List ℕ} → Terminated key → IsInner s (wrap key (value_node false v))
      wrap-leaf (last e) = leaf (last e)
      wrap-leaf (more h t) = leaf (more h t)

  mutual
    insert_inner :
        {n : Node}
        → IsInner s n
        → {key : List ℕ} → Terminated key
        → (f : ℕ) → 3 * length key < f
        → Inserted s v f n key
    insert_inner i t zero h = absurd (omega arith)
    insert_inner (leaf {k = k} {v = w} tk) {key} t (suc f) h =
        insert-leaf w (view key k) tk t f (omega (arith, length-Terminated t))
    insert_inner (extension {x = x} {p = p} {c = c} hx kp d) {key} t (suc f) h =
        insert-extension (view key (x ∷ p)) (nibble hx kp) (omega arith) d t f
          (omega (arith, length-Terminated t))
          (λ rest e.
            insert_node d (Terminated-rest (nibble hx kp) rest (subst Terminated e t)) f
              (omega (arith, ap length e, length-append p rest)))
    insert_inner (branch {v = w} {cs = cs} iv children) (last {x = x} e) (suc zero) h =
        absurd (omega arith)
    insert_inner (branch {v = w} {cs = cs} iv children) (last {x = x} e) (suc (suc f)) h =
        let at = get_edge-value s w cs e in
        insert-full s v x [] (suc f) (value_node false v) (branch iv children)
          (subst (λ n. insert s (suc f) n [] v ≡ some (value_node false v)) (sym at)
            (insert-value s v iv f))
          (at_end e value) here (λ rest r t' ne d. absurd (ne (Terminated-whole (last e) rest t')))
    insert_inner (branch {v = w} {cs = cs} iv children) (more {x = x} {rest = rest} hx t) (suc f)
          h =
        let at = get_edge-child s w cs hx in
        let i = insert_tree (children x hx) t f (omega arith) in
        insert-full s v x rest f i.result (branch iv children)
          (subst (λ n. insert s f n rest v ≡ some i.result) (sym at) i.runs)
          (at_child hx (node (inner i.shape))) i.self
          (λ l r t' ne d. i.others l r (Terminated-tail hx t') ne (subst (λ n. Finds s n l r) at d))

    insert_node :
        {n : Node}
        → IsNode s n
        → {key : List ℕ} → Terminated key
        → (f : ℕ) → 3 * length key + 1 < f
        → Inserted s v f n key
    insert_node d t zero h = absurd (omega arith)
    insert_node (inner i) t (suc f) h = insert_inner i t (suc f) (omega arith)
    insert_node (stored {h = hash} e i) t (suc f) h =
        insert-stored hash e f (insert_inner i t f (omega arith))

    pub insert_tree :
        {n : Node}
        → IsTree s n
        → {key : List ℕ} → Terminated key
        → (f : ℕ) → 3 * length key + 1 < f
        → Inserted s v f n key
    insert_tree d t zero h = absurd (omega arith)
    insert_tree d t (suc zero) h = absurd (omega arith)
    insert_tree no_tree {key} t (suc (suc f)) h = insert-empty t f
    insert_tree (node d) t (suc (suc f)) h = insert_node d t (suc (suc f)) h
