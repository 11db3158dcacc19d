-- ===== src/Protocol/Queue/Taken.antt =====
-- The blocks that `pop` and `get` of protocol/pq.go take, and those that stay.
use dogesyncer.Prelude.{
  ℕ, Bool, zero, suc, ◌+◌, ◌<◌, ◌≤◌, ◌≡◌, sym, ap, ◌∙◌, min, List, [], ◌∷◌, length, take, arith,
  length-take,
}
use dogesyncer.Protocol.Queue.{
  QueuedBlock, item_at, number_at, swap_items, parent_of, bubble_down, pop_item, get_items,
}
use dogesyncer.Protocol.Queue.Slots.{
  length-swap_items, number_at-swap, tally, has_this, tally-swap, item_at-take, tally-take,
  one_where, count_of, count_of-item, item-count_of,
}
use dogesyncer.Protocol.Queue.Heap.{IsHeap}
use dogesyncer.Protocol.Queue.Drain.{bubble_down-Same}

root_least :
    (k : ℕ) (l : List QueuedBlock) (c : ℕ)
    → IsHeap l
    → c < k
    → c < length l
    → number_at l 0 ≤ number_at l c
root_least zero l c h b g = absurd (omega arith)
root_least (suc k) l zero h b g = omega arith
root_least (suc k) l (suc c) h b g =
    let up = root_least k l (parent_of (suc c)) h (omega arith) (omega arith) in
    omega (arith, h.ordered (suc c))

-- No block has a lower number.
pub record AtLeast (m : ℕ) (l : List QueuedBlock) : Type 0 where
  pub least : (c : ℕ) → c < length l → m ≤ number_at l c

pub record Popped (l : List QueuedBlock) (b : QueuedBlock) (rest : List QueuedBlock) : Type 0 where
  pub heap : IsHeap rest
  pub size : length l ≡ suc (length rest)
  pub counts : (p : QueuedBlock → Bool) → tally p l ≡ tally p rest + one_where p b
  pub lowest : AtLeast b.number l
  pub root : b.number ≡ number_at l 0

AtLeast-rest :
    {l rest : List QueuedBlock} {b : QueuedBlock} {m : ℕ}
    → Popped l b rest
    → AtLeast m l
    → AtLeast m rest
AtLeast-rest {l} {rest} {b} {m} p a = record {
  least = λ c h.
      let k = p.counts (has_this (number_at rest c)) in
      let positive : 0 < count_of (number_at rest c) l = omega (arith, count_of-item rest c h) in
      let (d, g, e) = item-count_of l (number_at rest c) positive in omega (arith, a.least d g);
}

pop_item-Popped :
    (first : QueuedBlock) (rest : List QueuedBlock)
    → IsHeap (first ∷ rest)
    → let swapped = swap_items (first ∷ rest) (length rest) 0 in
      Popped
        (first ∷ rest)
        (item_at swapped (length rest))
        (bubble_down (length rest) (take (length rest) swapped) 0)
pop_item-Popped first rest h =
    let l : List QueuedBlock = first ∷ rest in
    let n : ℕ = length rest in
    let swapped : List QueuedBlock = swap_items l n 0 in
    let size : length swapped ≡ suc n = length-swap_items l n 0 in
    let cut : length (take n swapped) ≡ min n (length swapped) = length-take n swapped in
    let at = λ (c : ℕ). number_at-swap l n 0 c (omega arith) (omega arith) in
    let kept =
      λ (c : ℕ) (g : c < n). ap (λ (q : QueuedBlock). q.number) (item_at-take n swapped c g) in
    let cut_size : length (take n swapped) ≡ n = omega arith in
    let sunk = bubble_down-Same n (take n swapped) 0 (omega arith) (record {
      edges = λ c p g ne. ground (
        arith,
        at c,
        at (parent_of c),
        kept c (omega arith),
        kept (parent_of c) (omega arith),
        h.ordered c,
      );
      bridged = λ c p g e q. absurd (omega arith);
    }) in
    record {
      heap = sunk.heap;
      size = ap suc (sym cut_size ∙ sym sunk.size);
      counts = λ m.
          let a = tally-swap m l n 0 (omega arith) (omega arith) in
          let b = tally-take m n swapped size in let c = sunk.counts m in omega arith;
      root = ground (arith, at n);
      lowest = record {
        least = λ c g. let r = root_least (suc c) l c h (omega arith) g in ground (arith, at n);
      };
    }

-- Blocks in the order of their numbers, from one number up to another.
pub data Ascending : ℕ → List QueuedBlock → ℕ → Type 0 where
  ended : {m : ℕ} → Ascending m [] m
  next :
      {m z : ℕ} {b : QueuedBlock} {rest : List QueuedBlock}
      → m ≤ b.number
      → Ascending b.number rest z
      → Ascending m (b ∷ rest) z

-- The blocks taken are the lowest ones in order; the rest of the heap is kept.
pub record Drained (m number : ℕ) (l taken left : List QueuedBlock) : Type 0 where
  pub last : ℕ
  pub order : Ascending m taken last
  pub above : AtLeast last left
  pub heap : IsHeap left
  pub size : length taken ≡ min number (length l)
  pub counts : (p : QueuedBlock → Bool) → tally p taken + tally p left ≡ tally p l

get_items_from :
    (number m : ℕ) (l : List QueuedBlock)
    → IsHeap l
    → AtLeast m l
    → Drained m number l (get_items number l).0 (get_items number l).1
unfolding get_items pop_item tally
get_items_from zero m l h a = record {
  last = m;
  order = ended;
  above = a;
  heap = h;
  size = omega arith;
  counts = λ n. omega arith;
}
get_items_from (suc number) m [] h a = record {
  last = m;
  order = ended;
  above = a;
  heap = h;
  size = omega arith;
  counts = λ n. omega arith;
}
get_items_from (suc number) m (first ∷ rest) h a =
    let p = pop_item-Popped first rest h in
    let swapped = swap_items (first ∷ rest) (length rest) 0 in
    let b = item_at swapped (length rest) in
    let left = bubble_down (length rest) (take (length rest) swapped) 0 in
    let d = get_items_from number b.number left p.heap (AtLeast-rest p p.lowest) in
    record {
      last = d.last;
      order = next (omega (arith, p.root, a.least 0)) d.order;
      above = d.above;
      heap = d.heap;
      size = omega (arith, d.size, p.size);
      counts = λ n. omega (arith, d.counts n, p.counts n);
    }

-- From a heap `get` takes the blocks of the lowest numbers, in their order and as many as are asked for
-- and there; the rest is a heap of blocks that are not lower, and any test passes as many blocks of the
-- two together as before.
pub get_items-Drained :
    (number : ℕ) (l : List QueuedBlock)
    → IsHeap l
    → Drained 0 number l (get_items number l).0 (get_items number l).1
get_items-Drained number l h = get_items_from number 0 l h (record { least = λ c g. omega arith })
