-- ===== src/Protocol/Queue/Heap.antt =====
-- The heap order through the loops of `push` and `pop`, and the numbers they keep.
use dogesyncer.Prelude.{
  ℕ, Bool, zero, suc, ◌+◌, ◌<◌, ◌≤◌, ◌≡◌, refl, ap, ◌∙◌, ◌≢◌, List, [], ◌∷◌, ◌++◌, ltb, length,
  arith, length-append, Bool-cases, inl, inr,
}
use dogesyncer.Protocol.Queue.{QueuedBlock, number_at, swap_items, parent_of, bubble_up, push_item}
use dogesyncer.Protocol.Queue.Slots.{
  length-swap_items, number_at-swap, tally, tally-swap, item_at-append,
}

-- No block has a lower number than the one above it.
pub record IsHeap (l : List QueuedBlock) : Type 0 where
  pub ordered : (c : ℕ) → 0 < c → c < length l → number_at l (parent_of c) ≤ number_at l c

-- A heap of the same blocks: every test passes as many of them.
pub record Same (l m : List QueuedBlock) : Type 0 where
  pub heap : IsHeap m
  pub size : length m ≡ length l
  pub counts : (p : QueuedBlock → Bool) → tally p m ≡ tally p l

pub swapped-Same :
    {l m : List QueuedBlock} (i j : ℕ)
    → i < length l
    → j < length l
    → Same (swap_items l i j) m
    → Same l m
swapped-Same {l} i j h g s = record {
  heap = s.heap;
  size = s.size ∙ length-swap_items l i j;
  counts = λ p. s.counts p ∙ tally-swap p l i j h g;
}

-- Only the block at `i` may be lower than the one above it.
record Rising (l : List QueuedBlock) (i : ℕ) : Type 0 where
  inside : i < length l
  edges : (c : ℕ) → 0 < c → c < length l → c ≢ i → number_at l (parent_of c) ≤ number_at l c
  bridged :
      (c : ℕ)
      → 0 < c
      → c < length l
      → parent_of c ≡ i
      → 0 < i
      → number_at l (parent_of i) ≤ number_at l c

swap-Rising :
    (l : List QueuedBlock) (i : ℕ)
    → Rising l i
    → 0 < i
    → number_at l i < number_at l (parent_of i)
    → Rising (swap_items l i (parent_of i)) (parent_of i)
swap-Rising l i r p low =
    let size = length-swap_items l i (parent_of i) in
    let at = λ (c : ℕ). number_at-swap l i (parent_of i) c r.inside (omega (arith, r.inside)) in
    record {
      inside = omega (arith, r.inside);
      edges = λ c h g ne. ground (arith, at c, at (parent_of c), r.edges c, r.bridged c, r.inside);
      bridged = λ c h g e q.
          ground
            (arith, at c, at (parent_of (parent_of i)), r.edges c, r.edges (parent_of i), r.inside);
    }

bubble_up-Same :
    (k : ℕ) (l : List QueuedBlock) (i : ℕ) → i < k → Rising l i → Same l (bubble_up k l i)
unfolding bubble_up
bubble_up-Same zero l i h r = absurd (omega arith)
bubble_up-Same (suc k) l i h r =
    elim (Bool-cases (ltb (number_at l i) (number_at l (parent_of i)))) [
      | inl low ↦
          let below : number_at l i < number_at l (parent_of i) = ground arith in
          let p : 0 < i = ground arith in
          rw low (
            swapped-Same i (parent_of i) r.inside (omega (arith, r.inside)) (
              bubble_up-Same k (swap_items l i (parent_of i)) (parent_of i) (omega arith)
                (swap-Rising l i r p below)))
      | inr high ↦ rw high (record {
        heap = record { ordered = λ c p g. ground (arith, r.edges c) };
        size = refl;
        counts = λ n. refl;
      })
    ]

-- `push` keeps the heap and adds the block.
pub push_item-Same :
    (l : List QueuedBlock) (b : QueuedBlock) → IsHeap l → Same (l ++ b ∷ []) (push_item l b)
unfolding push_item
push_item-Same l b heap =
    let size : length (l ++ b ∷ []) ≡ length l + 1 = length-append l (b ∷ []) in
    let at = λ (c : ℕ). ap (λ (q : QueuedBlock). q.number) (item_at-append l b c) in
    bubble_up-Same (length l + 1) (l ++ b ∷ []) (length l) (omega arith) (record {
      inside = omega arith;
      edges = λ c p g ne. ground (arith, at c, at (parent_of c), heap.ordered c);
      bridged = λ c p g e q. absurd (omega arith);
    })
