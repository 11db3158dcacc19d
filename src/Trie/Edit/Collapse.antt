-- ===== src/Trie/Edit/Collapse.antt =====
-- The full node of `delete` of state/immutable-trie/trie.go after the deletion in an edge.
use dogesyncer.Prelude.{
  ℕ, zero, suc, ◌+◌, ◌-◌, ◌<◌, ◌≤◌, ◌≡◌, refl, ap, sym, subst, ◌∙◌, ◌≢◌, Bool, true, false, not,
  ◌||◌, Option, none, some, List, [], ◌∷◌, arith, Bool-cases, Option-cases, inl, inr, ℕ_discrete,
  dec_lt,
}
use dogesyncer.Trie.Encoding.RoundTrip.{empty, nibble}
use dogesyncer.Trie.Node.{Node, nil, value_node, short_node, full_node, get_edge, Storage}
use dogesyncer.Trie.Edit.{
  Deleted, deleted, first_child, has_other, is_nil, lift_edge, lift_child, collapse,
}
use dogesyncer.Trie.Edit.Keys.{Terminated, last, more, strip, strip_here, strip_other}
use dogesyncer.Trie.Edit.Finds.{
  Finds, nothing, loaded, along, off, under, IsValue, no_value, value, IsInner, leaf, extension,
  branch, inner, stored, IsTree, no_tree, node, get_edge-value, get_edge-child, found-injective,
}
use dogesyncer.Trie.Edit.Insertion.{Finds-nil}

pub is_nil_sound : (n : Node) → is_nil n ≡ true → n ≡ nil
unfolding is_nil
is_nil_sound nil e = refl
is_nil_sound (value_node b buf) e = cc
is_nil_sound (short_node key child) e = cc
is_nil_sound (full_node v cs) e = cc

first_child-none :
    (cs : ℕ → Node) (from left j : ℕ)
    → first_child cs from left ≡ none
    → from ≤ j
    → j < from + left
    → cs j ≡ nil
unfolding first_child
first_child-none cs from zero j e h g = absurd (omega arith)
first_child-none cs from (suc left) j e h g = elim (Bool-cases (is_nil (cs from))) [
  | inl empty_here ↦ elim (ℕ_discrete from j) [
    | yes same ↦ subst (λ q. cs q ≡ nil) same (is_nil_sound (cs from) empty_here)
    | no different ↦
        first_child-none cs (suc from) left j
          (subst
            (λ t. (elim t [ true ↦ first_child cs (suc from) left | false ↦ some from ]) ≡ none)
            empty_here e)
          (omega arith) (omega arith)
  ]
  | inr full_here ↦ absurd (
      let q : some from ≡ none =
        subst (λ t. (elim t [ true ↦ first_child cs (suc from) left | false ↦ some from ]) ≡ none)
          full_here e in
      cc)
]

pub record First (cs : ℕ → Node) (from left i : ℕ) : Type 0 where
  pub least : from ≤ i
  pub inside : i < from + left
  pub full : is_nil (cs i) ≡ false
  pub before : (j : ℕ) → from ≤ j → j < i → cs j ≡ nil

some-injective : {A : Type 0} {a b : A} → some a ≡ some b → a ≡ b
some-injective {a = a} e = ap (λ o. elim o [ some x ↦ x | none ↦ a ]) e

first_child-First :
    (cs : ℕ → Node) (from left i : ℕ) → first_child cs from left ≡ some i → First cs from left i
unfolding first_child
first_child-First cs from zero i e = absurd (cc)
first_child-First cs from (suc left) i e = elim (Bool-cases (is_nil (cs from))) [
  | inl empty_here ↦
      let r = first_child-First cs (suc from) left i (
        subst (λ t. (elim t [ true ↦ first_child cs (suc from) left | false ↦ some from ]) ≡ some i)
          empty_here e) in
      record {
        least = omega (arith, r.least);
        inside = omega (arith, r.inside);
        full = r.full;
        before = λ j h g. elim (ℕ_discrete from j) [
          | yes same ↦ subst (λ q. cs q ≡ nil) same (is_nil_sound (cs from) empty_here)
          | no different ↦ r.before j (omega arith) g
        ];
      }
  | inr full_here ↦
      let at : from ≡ i = some-injective (
        subst (λ t. (elim t [ true ↦ first_child cs (suc from) left | false ↦ some from ]) ≡ some i)
          full_here e) in
      record {
        least = omega arith;
        inside = omega arith;
        full = subst (λ q. is_nil (cs q) ≡ false) at full_here;
        before = λ j h g. absurd (omega arith);
      }
]

module _ (s : Storage) where
  -- What a key finds below one node it finds below the other.
  pub record Covers (before : Node) (d : Deleted) : Type 0 where
    pub done : d.ok ≡ true
    pub tree : IsTree s d.node
    pub finds :
        (key : List ℕ) (r : Option (List ℕ))
        → Terminated key
        → Finds s before key r
        → Finds s d.node key r

  pub lift_edge-IsInner : {i : ℕ} {n : Node} → i < 16 → IsInner s n → IsInner s (lift_edge i n)
  unfolding lift_edge
  lift_edge-IsInner h (leaf t) = leaf (more h t)
  lift_edge-IsInner h (extension g k d) = extension h (nibble g k) d
  lift_edge-IsInner h (branch iv children) = extension h empty (inner (branch iv children))

  lift_edge-here :
      {n : Node}
      → IsInner s n
      → (i : ℕ) {l : List ℕ} {r : Option (List ℕ)} → Finds s n l r
      → Finds s (lift_edge i n) (i ∷ l) r
  unfolding lift_edge strip
  lift_edge-here (leaf {k = k} t) i {l} (along e d) = along (strip_here i k l ∙ e) d
  lift_edge-here (leaf {k = k} t) i {l} (off e) = off (strip_here i k l ∙ e)
  lift_edge-here (extension {x = x} {p = p} h k d') i {l} (along e d) =
      along (strip_here i (x ∷ p) l ∙ e) d
  lift_edge-here (extension {x = x} {p = p} h k d') i {l} (off e) = off (strip_here i (x ∷ p) l ∙ e)
  lift_edge-here (branch iv children) i {l} d = along (strip_here i [] l) d

  lift_edge-other :
      {n : Node}
      → IsInner s n
      → (i : ℕ) {z : ℕ} (l : List ℕ) → z ≢ i
      → Finds s (lift_edge i n) (z ∷ l) none
  unfolding lift_edge
  lift_edge-other (leaf {k = k} t) i {z} l ne = off (strip_other i z k l (λ e. ne (sym e)))
  lift_edge-other (extension {x = x} {p = p} h k d') i {z} l ne =
      off (strip_other i z (x ∷ p) l (λ e. ne (sym e)))
  lift_edge-other (branch iv children) i {z} l ne = off (strip_other i z [] l (λ e. ne (sym e)))

  value-some : {n : Node} → IsValue s n → is_nil n ≡ false → (w : List ℕ) × (n ≡ value_node false w)
  unfolding is_nil
  value-some no_value e = absurd (cc)
  value-some (value {v = w}) e = (w, refl)

  module _ (v : Node) (cs : ℕ → Node) where
    lifted :
        {n : Node} (i : ℕ)
        → i < 16
        → IsInner s n
        → ((l : List ℕ) (r : Option (List ℕ)) → Finds s (get_edge v cs i) l r → Finds s n l r)
        → ((z : ℕ) (l : List ℕ) (r : Option (List ℕ))
            → Terminated (z ∷ l)
            → z ≢ i
            → Finds s (get_edge v cs z) l r
            → r ≡ none)
        → Covers (full_node v cs) (deleted (lift_edge i n) true)
    lifted {n} i h inside here_too nothing_else = record {
      done = refl;
      tree = node (inner (lift_edge-IsInner h inside));
      finds = keep;
    }
      where
        keep :
            (key : List ℕ) (r : Option (List ℕ))
            → Terminated key
            → Finds s (full_node v cs) key r
            → Finds s (lift_edge i n) key r
        keep [] r t d = elim t [ ]
        keep (z ∷ l) r t (under d) = elim (ℕ_discrete z i) [
          | yes same ↦
              subst (λ q. Finds s (lift_edge i n) (q ∷ l) r) (sym same)
                (lift_edge-here inside i
                  (here_too l r (subst (λ q. Finds s (get_edge v cs q) l r) same d)))
          | no different ↦
              subst (λ q. Finds s (lift_edge i n) (z ∷ l) q)
                (sym (nothing_else z l r t different d)) (lift_edge-other inside i l different)
        ]

    pub record Collapsed (o : Option Deleted) : Type 0 where
      pub result : Deleted
      pub runs : o ≡ some result
      pub covers : Covers (full_node v cs) result

    lift_child-Covers :
        (m : Node) (i : ℕ)
        → i < 16
        → get_edge v cs i ≡ m
        → IsTree s m
        → is_nil m ≡ false
        → ((z : ℕ) (l : List ℕ) (r : Option (List ℕ))
            → Terminated (z ∷ l)
            → z ≢ i
            → Finds s (get_edge v cs z) l r
            → r ≡ none)
        → Collapsed (lift_child s i m)
    unfolding lift_child is_nil
    lift_child-Covers m i h at no_tree full alone = absurd (cc)
    lift_child-Covers m i h at (node (inner (leaf {k = k} {v = w} t))) full alone = record {
      result = deleted (lift_edge i (short_node k (value_node false w))) true;
      runs = refl;
      covers = lifted i h (leaf t) (λ l r d. subst (λ q. Finds s q l r) at d) alone;
    }
    lift_child-Covers m i h at (node (inner (extension {x = x} {p = p} {c = c} g k e))) full alone =
        record {
          result = deleted (lift_edge i (short_node (x ∷ p) c)) true;
          runs = refl;
          covers = lifted i h (extension g k e) (λ l r d. subst (λ q. Finds s q l r) at d) alone;
        }
    lift_child-Covers m i h at (node (inner (branch {v = w} {cs = es} iv children))) full alone =
        record {
          result = deleted (lift_edge i (full_node w es)) true;
          runs = refl;
          covers = lifted i h (branch iv children) (λ l r d. subst (λ q. Finds s q l r) at d) alone;
        }
    lift_child-Covers m i h at (node (stored {h = hash} {n = n} e inside)) full alone = record {
      result = deleted (lift_edge i n) true;
      runs = rw (e, lift_child) refl;
      covers = lifted i h inside (λ l r d. behind_hash (subst (λ q. Finds s q l r) at d)) alone;
    }
      where
        behind_hash :
            {l : List ℕ} {r : Option (List ℕ)} → Finds s (value_node true hash) l r → Finds s n l r
        behind_hash {l} {r} (loaded g d) =
            subst (λ q. Finds s q l r) (found-injective s (sym g ∙ e)) d

    -- No value and no child.
    nothing_left :
        v ≡ nil → ((j : ℕ) → j < 16 → cs j ≡ nil) → Covers (full_node v cs) (deleted nil true)
    nothing_left ev ecs = record { done = refl; tree = no_tree; finds = keep }
      where
        keep :
            (key : List ℕ) (r : Option (List ℕ))
            → Terminated key
            → Finds s (full_node v cs) key r
            → Finds s nil key r
        keep [] r t d = elim t [ ]
        keep (z ∷ l) r (last e) (under d) =
            subst (λ q. Finds s nil (z ∷ l) q)
              (sym (Finds-nil s [] (get_edge-value s v cs e ∙ ev) d)) nothing
        keep (z ∷ l) r (more h t) (under d) =
            subst (λ q. Finds s nil (z ∷ l) q)
              (sym (Finds-nil s [] (get_edge-child s v cs h ∙ ecs z h) d)) nothing

    -- Only a value.
    value_left :
        IsValue s v
        → is_nil v ≡ false
        → ((j : ℕ) → j < 16 → cs j ≡ nil)
        → Covers (full_node v cs) (deleted (short_node (16 ∷ []) v) true)
    unfolding strip
    value_left iv e ecs = record {
      done = refl;
      tree =
          subst (λ n. IsTree s (short_node (16 ∷ []) n)) (sym (value-some iv e).1)
            (node (inner (leaf (last refl))));
      finds = keep;
    }
      where
        keep :
            (key : List ℕ) (r : Option (List ℕ))
            → Terminated key
            → Finds s (full_node v cs) key r
            → Finds s (short_node (16 ∷ []) v) key r
        keep [] r t d = elim t [ ]
        keep (z ∷ l) r (last h) (under d) =
            along (ground arith) (subst (λ q. Finds s q l r) (get_edge-value s v cs h) d)
        keep (z ∷ l) r (more h t) (under d) =
            subst (λ q. Finds s (short_node (16 ∷ []) v) (z ∷ l) q)
              (sym (Finds-nil s [] (get_edge-child s v cs h ∙ ecs z h) d))
              (off (strip_other 16 z [] l (λ q. absurd (omega arith))))

    -- Every other child is empty.
    alone :
        (i : ℕ)
        → First cs 0 16 i
        → first_child cs (suc i) (15 - i) ≡ none
        → v ≡ nil
        → (z : ℕ) (l : List ℕ) (r : Option (List ℕ)) → Terminated (z ∷ l)
        → z ≢ i
        → Finds s (get_edge v cs z) l r
        → r ≡ none
    alone i first e ev z l r (last h) ne d = Finds-nil s [] (get_edge-value s v cs h ∙ ev) d
    alone i first e ev z l r (more h t) ne d = elim (dec_lt z i) [
      | yes below ↦ Finds-nil s [] (get_edge-child s v cs h ∙ first.before z (omega arith) below) d
      | no above ↦
          Finds-nil s []
            (get_edge-child s v cs h
              ∙ first_child-none cs (suc i) (15 - i) z e (omega arith)
                  (omega (arith, first.inside)))
            d
    ]

    some-other :
        {o : Option ℕ} → (elim o as (λ x. Bool) [ none ↦ false | some j ↦ true ]) ≡ false → o ≡ none
    some-other {o = none} e = refl
    some-other {o = some j} e = absurd (cc)

    pub collapse-Covers : IsInner s (full_node v cs) → Collapsed (collapse s v cs)
    unfolding collapse has_other
    collapse-Covers (branch iv children) = elim (Option-cases (first_child cs 0 16)) [
      | inl e ↦ elim (Bool-cases (is_nil v)) [
        | inl ev ↦ record {
          result = deleted nil true;
          runs = rw (e, ev, collapse) refl;
          covers =
              nothing_left (is_nil_sound v ev)
                (λ j h. first_child-none cs 0 16 j e (omega arith) h);
        }
        | inr ev ↦ record {
          result = deleted (short_node (16 ∷ []) v) true;
          runs = rw (e, ev, collapse) refl;
          covers = value_left iv ev (λ j h. first_child-none cs 0 16 j e (omega arith) h);
        }
      ]
      | inr (i, e) ↦ elim (Bool-cases (has_other cs i (15 - i) || not (is_nil v))) [
        | inl two ↦ record {
          result = deleted (full_node v cs) true;
          runs = rw (e, two, collapse) refl;
          covers = record {
            done = refl;
            tree = node (inner (branch iv children));
            finds = λ key r t d. d;
          };
        }
        | inr one ↦
            let first = first_child-First cs 0 16 i e in
            let ev : is_nil v ≡ true = ground arith in
            let eo : has_other cs i (15 - i) ≡ false = ground arith in
            let c =
              lift_child-Covers (cs i) i first.inside (get_edge-child s v cs first.inside)
                (children i first.inside) first.full
                (alone i first (some-other eo) (is_nil_sound v ev)) in
            record { result = c.result; runs = rw (e, one, collapse) c.runs; covers = c.covers }
      ]
    ]
