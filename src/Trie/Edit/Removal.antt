-- ===== src/Trie/Edit/Removal.antt =====
-- `delete` in every well-formed node.
use dogesyncer.Prelude.{
  ℕ, zero, suc, ◌+◌, ◌*◌, ◌<◌, ◌≡◌, refl, ap, sym, subst, ◌∙◌, ◌≢◌, true, false, Option, none, some,
  List, [], ◌∷◌, ◌++◌, length, length-append, arith,
}
use dogesyncer.Trie.Encoding.RoundTrip.{IsKey, nibble}
use dogesyncer.Trie.Node.{
  Node, nil, value_node, short_node, full_node, prefix_len, Storage, found, get_node,
}
use dogesyncer.Trie.Edit.{Deleted, deleted, not_there, delete, delete_short}
use dogesyncer.Trie.Edit.Keys.{
  Terminated, last, more, strip-some, strip_apart, View, whole, apart, within, view,
  prefix_len-whole, length_whole, Terminated-whole, Terminated-within, Terminated-front,
  Terminated-rest, Terminated-tail, key-unended, length-Terminated, append_nil,
}
use dogesyncer.Trie.Edit.Finds.{
  Finds, nothing, loaded, along, off, IsValue, no_value, value, IsInner, leaf, extension, branch,
  IsNode, inner, stored, IsTree, no_tree, node, get_edge-value, get_edge-child, found-injective,
}
use dogesyncer.Trie.Edit.Shape.{IsEdge, at_end, at_child}
use dogesyncer.Trie.Edit.Long.{
  Below, Below-short, Below-child, Below-loaded, delete_apart, long_tree,
}
use dogesyncer.Trie.Edit.Remove.{Outcome, kept, removed, Removed, remove-whole, remove-edge}

module _ (s : Storage) where
  remove-apart :
      (c : List ℕ) (x : ℕ) (a : List ℕ) (y : ℕ) (b : List ℕ) (n : Node) (f : ℕ)
      → x ≢ y
      → (0 < length c → delete s f n (x ∷ a) ≡ some not_there)
      → Removed s (suc f) (short_node (c ++ y ∷ b) n) (c ++ x ∷ a)
  remove-apart c x a y b n f ne e = record {
    result = not_there;
    runs = delete_apart s c x a y b n f ne e;
    outcome = kept (off (strip_apart c x a y b ne));
  }

  remove-hit :
      (k w : List ℕ)
      → Terminated k
      → (f : ℕ) → Removed s (suc (suc f)) (short_node k (value_node false w)) k
  unfolding delete delete_short
  remove-hit k w t f = record {
    result = deleted nil true;
    runs =
        ap (delete_short (λ l. delete s (suc f) (value_node false w) l) k k)
          (subst (λ l. prefix_len l k ≡ length k) (append_nil k) (prefix_len-whole k []))
        ∙ rw (length_whole k) refl;
    outcome = removed no_tree nothing (λ other r t' ne d. gone other r t' ne d);
  }
    where
      gone :
          (other : List ℕ) (r : Option (List ℕ))
          → Terminated other
          → other ≢ k
          → Finds s (short_node k (value_node false w)) other r
          → Finds s nil other r
      gone other r t' ne (along {rest = rest} e d) =
          let q = strip-some k other e in
          absurd (
            ne (
              q
              ∙ ap (λ l. k ++ l) (Terminated-whole t rest (subst Terminated q t'))
              ∙ append_nil k))
      gone other r t' ne (off e) = nothing

  remove-leaf :
      {k search : List ℕ} (w : List ℕ)
      → View search k
      → Terminated k
      → Terminated search
      → (f : ℕ) → Removed s (suc (suc f)) (short_node k (value_node false w)) search
  unfolding delete
  remove-leaf w (whole k rest) tk t f =
      let e : k ++ rest ≡ k = ap (λ l. k ++ l) (Terminated-whole tk rest t) ∙ append_nil k in
      subst (λ l. Removed s (suc (suc f)) (short_node k (value_node false w)) l) (sym e)
        (remove-hit k w tk f)
  remove-leaf w (apart c x a y b ne) tk t f =
      remove-apart c x a y b (value_node false w) (suc f) ne (λ h. refl)
  remove-leaf w (within c y b) tk t f = absurd (Terminated-within y b t tk)

  remove-extension :
      {k search : List ℕ} {n : Node}
      → View search k
      → IsKey k
      → 0 < length k
      → IsNode s n
      → Terminated search
      → Below s (short_node k n) (suc (length search))
      → (f : ℕ) → 2 * length search < suc f
      → ((rest : List ℕ)
          → length rest < length search
          → Terminated rest
          → Below s n (suc (length rest))
          → Removed s f n rest)
      → Removed s (suc f) (short_node k n) search
  remove-extension (whole k rest) key some_key d t below f h next =
      let end = Terminated-rest key rest t in
      remove-whole s k rest f key some_key end (
        next rest (omega (arith, length-append k rest)) end
          (Below-short s k key below (omega (arith, length-append k rest))))
  remove-extension {n = n} (apart c x a y b ne) key some_key d t below f h next =
      remove-apart c x a y b n f ne (λ g.
        long_tree s (node d) (Terminated-front c x a t).1
          (Below-short s (c ++ y ∷ b) key below
            (omega (arith, length-append c (x ∷ a), length-append c (y ∷ b))))
          f (omega (arith, length-append c (x ∷ a))))
  remove-extension (within c y b) key some_key d t below f h next =
      absurd (key-unended t (y ∷ b) key)

  remove-end :
      (v : Node) (cs : ℕ → Node) {x : ℕ}
      → x ≡ 16
      → IsValue s v
      → IsInner s (full_node v cs)
      → (f : ℕ) → Removed s (suc (suc f)) (full_node v cs) (x ∷ [])
  unfolding delete
  remove-end v cs {x} e no_value i f =
      remove-edge s nil cs x [] (suc f) not_there i (last e)
        (subst (λ n. delete s (suc f) n [] ≡ some not_there) (sym (get_edge-value s nil cs e)) refl)
        (kept (subst (λ n. Finds s n [] none) (sym (get_edge-value s nil cs e)) nothing))
  remove-end v cs {x} e (value {v = w}) i f =
      remove-edge s (value_node false w) cs x [] (suc f) (deleted nil true) i (last e)
        (subst (λ n. delete s (suc f) n [] ≡ some (deleted nil true))
          (sym (get_edge-value s (value_node false w) cs e)) refl)
        (removed (at_end e no_value) nothing
          (λ other r t ne d. absurd (ne (Terminated-whole (last e) other t))))

  child-outcome :
      {x : ℕ} {rest : List ℕ} {n m : Node} {d : Deleted}
      → x < 16
      → n ≡ m
      → Outcome s (IsTree s) Terminated m rest d
      → Outcome s (IsEdge s x) (λ l. Terminated (x ∷ l)) n rest d
  child-outcome {rest = rest} h e (kept d) = kept (subst (λ k. Finds s k rest none) (sym e) d)
  child-outcome h e (removed i gone others) = removed (at_child h i) gone (λ other r t ne d.
      others other r (Terminated-tail h t) ne (subst (λ k. Finds s k other r) e d))

  remove-child :
      (v : Node) (cs : ℕ → Node) {x : ℕ} {rest : List ℕ}
      → x < 16
      → IsInner s (full_node v cs)
      → Terminated rest
      → (f : ℕ) → Removed s f (cs x) rest
      → Removed s (suc f) (full_node v cs) (x ∷ rest)
  remove-child v cs {x} {rest} h i t f r =
      let at = get_edge-child s v cs h in
      remove-edge s v cs x rest f r.result i (more h t)
        (subst (λ n. delete s f n rest ≡ some r.result) (sym at) r.runs)
        (child-outcome h at r.outcome)

  remove-stored :
      (hash : List ℕ) {n : Node} {search : List ℕ}
      → get_node s hash ≡ found n
      → (f : ℕ) → Removed s f n search
      → Removed s (suc f) (value_node true hash) search
  unfolding delete
  remove-stored hash {n} {search} e f r = record {
    result = r.result;
    runs = rw (e, delete) r.runs;
    outcome = resolved r.outcome;
  }
    where
      resolved :
          {d : Deleted}
          → Outcome s (IsTree s) Terminated n search d
          → Outcome s (IsTree s) Terminated (value_node true hash) search d
      resolved (kept d) = kept (loaded e d)
      resolved (removed {m = m} i gone others) =
          removed i gone (λ other r t ne d. below m others other r t ne d)
        where
          below :
              (m : Node)
              → ((other : List ℕ) (r : Option (List ℕ))
                  → Terminated other
                  → other ≢ search
                  → Finds s n other r
                  → Finds s m other r)
              → (other : List ℕ) (r : Option (List ℕ)) → Terminated other
              → other ≢ search
              → Finds s (value_node true hash) other r
              → Finds s m other r
          below m others other r t ne (loaded g d) =
              others other r t ne (subst (λ k. Finds s k other r) (found-injective s (sym g ∙ e)) d)

  remove-nil : (f : ℕ) {search : List ℕ} → Removed s (suc f) nil search
  unfolding delete
  remove-nil f = record { result = not_there; runs = refl; outcome = kept nothing }

  mutual
    remove_inner :
        {n : Node}
        → IsInner s n
        → {search : List ℕ} → Terminated search
        → Below s n (suc (length search))
        → (f : ℕ) → 2 * length search < f
        → Removed s f n search
    remove_inner i t below zero h = absurd (omega arith)
    remove_inner i t below (suc zero) h = absurd (omega (arith, length-Terminated t))
    remove_inner (leaf {k = k} {v = w} tk) {search} t below (suc (suc f)) h =
        remove-leaf w (view search k) tk t f
    remove_inner (extension {x = x} {p = p} hx kp d) {search} t below (suc (suc f)) h =
        remove-extension (view search (x ∷ p)) (nibble hx kp) (omega arith) d t below (suc f) h
          (λ rest shorter t' below'. remove_node d t' below' (suc f) (omega arith))
    remove_inner (branch {v = v} {cs = cs} iv children) (last {x = x} e) below (suc (suc f)) h =
        remove-end v cs e iv (branch iv children) f
    remove_inner (branch {v = v} {cs = cs} iv children) (more {x = x} {rest = rest} hx t) below
          (suc (suc f)) h =
        remove-child v cs hx (branch iv children) t (suc f)
          (remove_tree (children x hx) t (Below-child s x hx below) (suc f) (omega arith))

    remove_node :
        {n : Node}
        → IsNode s n
        → {search : List ℕ} → Terminated search
        → Below s n (suc (length search))
        → (f : ℕ) → 2 * length search + 1 < f
        → Removed s f n search
    remove_node d t below zero h = absurd (omega arith)
    remove_node (inner i) t below (suc f) h = remove_inner i t below (suc f) (omega arith)
    remove_node (stored {h = hash} e i) t below (suc f) h =
        remove-stored hash e f (remove_inner i t (Below-loaded s e below) f (omega arith))

    pub remove_tree :
        {n : Node}
        → IsTree s n
        → {search : List ℕ} → Terminated search
        → Below s n (suc (length search))
        → (f : ℕ) → 2 * length search + 1 < f
        → Removed s f n search
    remove_tree d t below zero h = absurd (omega arith)
    remove_tree no_tree t below (suc f) h = remove-nil f
    remove_tree (node d) t below (suc f) h = remove_node d t below (suc f) h
