-- ===== src/Protocol/Queue/Drain.antt =====
-- The loop of `pop` of protocol/pq.go.
use dogesyncer.Prelude.{
  ℕ, zero, suc, ◌+◌, ◌*◌, ◌<◌, ◌≤◌, ◌≡◌, refl, ◌≢◌, ◌⊎◌, List, ltb, length, arith, Bool-cases, inl,
  inr,
}
use dogesyncer.Protocol.Queue.{QueuedBlock, number_at, swap_items, parent_of, child_of, bubble_down}
use dogesyncer.Protocol.Queue.Slots.{length-swap_items, number_at-swap}
use dogesyncer.Protocol.Queue.Heap.{Same, swapped-Same}

-- Only the block at `i` may be higher than those below it.
pub record Sinking (l : List QueuedBlock) (i : ℕ) : Type 0 where
  pub edges :
      (c : ℕ) → 0 < c → c < length l → parent_of c ≢ i → number_at l (parent_of c) ≤ number_at l c
  pub bridged :
      (c : ℕ)
      → 0 < c
      → c < length l
      → parent_of c ≡ i
      → 0 < i
      → number_at l (parent_of i) ≤ number_at l c

record LowerChild (l : List QueuedBlock) (i m : ℕ) : Type 0 where
  inside : m < length l
  child : (m ≡ 2 * i + 1) ⊎ (m ≡ 2 * i + 2)
  least : (c : ℕ) → 0 < c → c < length l → parent_of c ≡ i → number_at l m ≤ number_at l c

child_of-LowerChild :
    (l : List QueuedBlock) (i : ℕ) → 2 * i + 1 < length l → LowerChild l i (child_of l i)
unfolding child_of
child_of-LowerChild l i h = record {
  inside = ground arith;
  child = ground arith;
  least = λ c p g e.
      let side : (c ≡ 2 * i + 1) ⊎ (c ≡ 2 * i + 2) = omega arith in
      elim side [ inl q ↦ ground arith | inr q ↦ ground arith ];
}

swap-Sinking :
    (l : List QueuedBlock) (i m : ℕ)
    → Sinking l i
    → LowerChild l i m
    → number_at l m < number_at l i
    → Sinking (swap_items l i m) m
swap-Sinking l i m s k low =
    let size = length-swap_items l i m in
    let at = λ (c : ℕ). number_at-swap l i m c (omega (arith, k.child, k.inside)) k.inside in
    record {
      edges = λ c p g ne.
          ground
            (arith, at c, at (parent_of c), s.edges c, s.bridged m, k.least c, k.child, k.inside);
      bridged = λ c p g e q. ground (arith, at c, at (parent_of m), s.edges c, k.child, k.inside);
    }

pub bubble_down-Same :
    (k : ℕ) (l : List QueuedBlock) (i : ℕ)
    → length l ≤ i + k
    → Sinking l i
    → Same l (bubble_down k l i)
unfolding bubble_down
bubble_down-Same zero l i h s = record {
  heap = record { ordered = λ c p g. s.edges c p g (λ e. absurd (omega arith)) };
  size = refl;
  counts = λ n. refl;
}
bubble_down-Same (suc k) l i h s = elim (Bool-cases (ltb (2 * i + 1) (length l))) [
  | inr leaf ↦ rw leaf (record {
    heap = record { ordered = λ c p g. s.edges c p g (λ e. absurd (ground arith)) };
    size = refl;
    counts = λ n. refl;
  })
  | inl below ↦
      let inside : 2 * i + 1 < length l = ground arith in
      let m = child_of-LowerChild l i inside in
      elim (Bool-cases (ltb (number_at l (child_of l i)) (number_at l i))) [
        | inl low ↦
            rw (below, low)
              (swapped-Same i (child_of l i) (omega arith) m.inside (
                bubble_down-Same k (swap_items l i (child_of l i)) (child_of l i)
                  (omega (arith, length-swap_items l i (child_of l i), m.child))
                  (swap-Sinking l i (child_of l i) s m (ground arith))))
        | inr settled ↦
            rw (below, settled)
              (record {
                heap = record { ordered = λ c p g. ground (arith, s.edges c, m.least c) };
                size = refl;
                counts = λ n. refl;
              })
      ]
]
