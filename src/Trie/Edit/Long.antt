-- ===== src/Trie/Edit/Long.antt =====
-- `delete` of state/immutable-trie/trie.go under keys longer than those of the node.
use dogesyncer.Prelude.{
  ℕ, zero, suc, ◌+◌, ◌*◌, ◌<◌, ◌≤◌, ◌≡◌, refl, ap, sym, subst, ◌∙◌, ◌≢◌, true, false, Option, some,
  List, [], ◌∷◌, ◌++◌, ◌==◌, length, length-append, arith,
}
use dogesyncer.Trie.Encoding.RoundTrip.{IsKey, nibble}
use dogesyncer.Trie.Node.{
  Node, value_node, short_node, full_node, get_edge, Storage, found, get_node,
}
use dogesyncer.Trie.Edit.{Deleted, not_there, delete, delete_short, settle_child, settle_edge}
use dogesyncer.Trie.Edit.Keys.{
  Terminated, last, more, strip, strip-append, View, whole, apart, within, view, prefix_len-whole,
  prefix_len_apart, drop-append, Terminated-whole, Terminated-within, Terminated-front,
  Terminated-rest, Terminated-prepend, key-unended, length-Terminated, append_nil,
}
use dogesyncer.Trie.Edit.Finds.{
  Finds, here, loaded, along, under, IsValue, no_value, value, IsInner, leaf, extension, branch,
  IsNode, inner, stored, IsTree, no_tree, node, get_edge-value, get_edge-child,
}

-- A short node's step, behind a common part and behind a whole key.
delete_short_apart :
    (go : List ℕ → Option Deleted) (c l key : List ℕ)
    → 0 < length l
    → (0 < length c → go l ≡ some not_there)
    → delete_short go key (c ++ l) (length c) ≡ some not_there
unfolding delete_short settle_child
delete_short_apart go [] l key h e = let t : (0 == length l) ≡ false = ground arith in rw t refl
delete_short_apart go (z ∷ c) l key h e =
    let n : length (c ++ l) ≡ length c + length l = length-append c l in
    let t : (suc (length c) == suc (length (c ++ l))) ≡ false = ground arith in
    let u : (suc (length c) == 0) ≡ false = ground arith in
    rw (t, drop-append c l, u) (rw (e (omega arith)) refl)

delete_short_whole :
    (go : List ℕ → Option Deleted) (p rest : List ℕ) (d : Deleted)
    → 0 < length p
    → 0 < length rest
    → go rest ≡ some d
    → delete_short go p (p ++ rest) (length p) ≡ some (settle_child p d)
unfolding delete_short
delete_short_whole go p rest d h g e =
    let n : length (p ++ rest) ≡ length p + length rest = length-append p rest in
    let t : (length p == length (p ++ rest)) ≡ false = ground arith in
    let u : (length p == 0) ≡ false = ground arith in rw (t, drop-append p rest, u) (rw e refl)

module _ (s : Storage) where
  pub delete_apart :
      (c : List ℕ) (x : ℕ) (a : List ℕ) (y : ℕ) (b : List ℕ) (n : Node) (f : ℕ)
      → x ≢ y
      → (0 < length c → delete s f n (x ∷ a) ≡ some not_there)
      → delete s (suc f) (short_node (c ++ y ∷ b) n) (c ++ x ∷ a) ≡ some not_there
  unfolding delete
  delete_apart c x a y b n f ne e =
      ap (delete_short (λ l. delete s f n l) (c ++ y ∷ b) (c ++ x ∷ a))
        (prefix_len_apart c x a y b ne)
      ∙ delete_short_apart (λ l. delete s f n l) c (x ∷ a) (c ++ y ∷ b) (omega arith) e

  pub delete_whole :
      (p rest : List ℕ) (n : Node) (f : ℕ) (d : Deleted)
      → 0 < length p
      → 0 < length rest
      → delete s f n rest ≡ some d
      → delete s (suc f) (short_node p n) (p ++ rest) ≡ some (settle_child p d)
  unfolding delete
  delete_whole p rest n f d h g e =
      ap (delete_short (λ l. delete s f n l) p (p ++ rest)) (prefix_len-whole p rest)
      ∙ delete_short_whole (λ l. delete s f n l) p rest d h g e

  -- Every key of a node is shorter than the bound.
  pub record Below (n : Node) (m : ℕ) : Type 0 where
    pub bound : (key w : List ℕ) → Terminated key → Finds s n key (some w) → length key < m

  pub Below-short :
      (p : List ℕ) {n : Node} {m m' : ℕ}
      → IsKey p
      → Below (short_node p n) m
      → m ≤ length p + m'
      → Below n m'
  Below-short p k below h = record {
    bound = λ key w t d. omega (
      arith,
      below.bound (p ++ key) w (Terminated-prepend k t) (along (strip-append p key) d),
      length-append p key,
    );
  }

  pub Below-child :
      {v : Node} {cs : ℕ → Node} {m : ℕ} (x : ℕ)
      → x < 16
      → Below (full_node v cs) (suc m)
      → Below (cs x) m
  Below-child {v} {cs} x h below = record {
    bound = λ key w t d. omega (
      arith,
      below.bound (x ∷ key) w (more h t)
          (under (subst (λ n. Finds s n key (some w)) (sym (get_edge-child s v cs h)) d)),
    );
  }

  pub Below-loaded :
      {hash : List ℕ} {n : Node} {m : ℕ}
      → get_node s hash ≡ found n
      → Below (value_node true hash) m
      → Below n m
  Below-loaded e below = record { bound = λ key w t d. below.bound key w t (loaded e d) }

  pub delete_full_kept :
      (v : Node) (cs : ℕ → Node) (x : ℕ) (a : List ℕ) (f : ℕ)
      → delete s f (get_edge v cs x) a ≡ some not_there
      → delete s (suc f) (full_node v cs) (x ∷ a) ≡ some not_there
  unfolding delete settle_edge
  delete_full_kept v cs x a f e = rw e refl

  long-leaf :
      {k search : List ℕ} {w : List ℕ}
      → View search k
      → Terminated k
      → Terminated search
      → Below (short_node k (value_node false w)) (length search)
      → (f : ℕ) → delete s (suc (suc f)) (short_node k (value_node false w)) search ≡ some not_there
  unfolding delete
  long-leaf {w = w} (whole k rest) tk t below f = absurd (
      let e : rest ≡ [] = Terminated-whole tk rest t in
      omega (
        arith,
        below.bound k w tk
            (along (subst (λ l. strip k l ≡ some []) (append_nil k) (strip-append k [])) here),
        ap length e,
        length-append k rest,
      ))
  long-leaf {w = w} (apart c x a y b ne) tk t below f =
      delete_apart c x a y b (value_node false w) (suc f) ne (λ h. refl)
  long-leaf (within c y b) tk t below f = absurd (Terminated-within y b t tk)

  long-extension :
      {k search : List ℕ} {n : Node}
      → View search k
      → IsKey k
      → 0 < length k
      → Terminated search
      → Below (short_node k n) (length search)
      → (f : ℕ)
      → ((rest : List ℕ)
          → length rest < length search
          → Terminated rest
          → Below n (length rest)
          → delete s f n rest ≡ some not_there)
      → delete s (suc f) (short_node k n) search ≡ some not_there
  unfolding settle_child
  long-extension {n = n} (whole k rest) key some_key t below f next =
      let end = Terminated-rest key rest t in
      delete_whole k rest n f not_there some_key (length-Terminated end) (
        next rest (omega (arith, length-append k rest)) end
          (Below-short k key below (omega (arith, length-append k rest))))
  long-extension {n = n} (apart c x a y b ne) key some_key t below f next =
      let end = (Terminated-front c x a t).1 in
      delete_apart c x a y b n f ne (λ h.
        next (x ∷ a) (omega (arith, length-append c (x ∷ a))) end (
          Below-short (c ++ y ∷ b) key below
            (omega (arith, length-append c (x ∷ a), length-append c (y ∷ b)))))
  long-extension (within c y b) key some_key t below f next = absurd (key-unended t (y ∷ b) key)

  long-value :
      {v : Node} {cs : ℕ → Node} {x : ℕ}
      → IsValue s v
      → x ≡ 16
      → Below (full_node v cs) 1
      → (f : ℕ) → delete s (suc f) v [] ≡ some not_there
  unfolding delete
  long-value no_value e below f = refl
  long-value {cs = cs} {x = x} (value {v = w}) e below f = absurd (
      let h = below.bound (x ∷ []) w (last e) (
        under (
          subst (λ n. Finds s n [] (some w)) (sym (get_edge-value s (value_node false w) cs e))
            here)) in
      omega arith)

  mutual
    unfolding delete

    long_inner :
        {n : Node}
        → IsInner s n
        → {search : List ℕ} → Terminated search
        → Below n (length search)
        → (f : ℕ) → 2 * length search < f
        → delete s f n search ≡ some not_there
    long_inner i t below zero h = absurd (omega arith)
    long_inner i t below (suc zero) h = absurd (omega (arith, length-Terminated t))
    long_inner (leaf {k = k} tk) {search} t below (suc (suc f)) h =
        long-leaf (view search k) tk t below f
    long_inner (extension {x = x} {p = p} {c = c} hx kp d) {search} t below (suc (suc f)) h =
        long-extension (view search (x ∷ p)) (nibble hx kp) (omega arith) t below (suc f)
          (λ rest shorter t' below'. long_node d t' below' (suc f) (omega arith))
    long_inner (branch {v = v} {cs = cs} iv children) (last {x = x} e) below (suc (suc f)) h =
        delete_full_kept v cs x [] (suc f) (
          subst (λ n. delete s (suc f) n [] ≡ some not_there) (sym (get_edge-value s v cs e))
            (long-value iv e below f))
    long_inner (branch {v = v} {cs = cs} iv children) (more {x = x} {rest = rest} hx t) below
          (suc (suc f)) h =
        delete_full_kept v cs x rest (suc f) (
          subst (λ n. delete s (suc f) n rest ≡ some not_there) (sym (get_edge-child s v cs hx))
            (long_tree (children x hx) t (Below-child x hx below) (suc f) (omega arith)))

    long_node :
        {n : Node}
        → IsNode s n
        → {search : List ℕ} → Terminated search
        → Below n (length search)
        → (f : ℕ) → 2 * length search + 1 < f
        → delete s f n search ≡ some not_there
    long_node d t below zero h = absurd (omega arith)
    long_node (inner i) t below (suc f) h = long_inner i t below (suc f) (omega arith)
    long_node (stored {h = hash} e i) {search} t below (suc f) h =
        rw (e, delete) (long_inner i t (Below-loaded e below) f (omega arith))

    pub long_tree :
        {n : Node}
        → IsTree s n
        → {search : List ℕ} → Terminated search
        → Below n (length search)
        → (f : ℕ) → 2 * length search + 1 < f
        → delete s f n search ≡ some not_there
    long_tree d t below zero h = absurd (omega arith)
    long_tree no_tree t below (suc f) h = refl
    long_tree (node d) t below (suc f) h = long_node d t below (suc f) h
