-- ===== src/Protocol/Queue/Numbers.antt =====
-- The numbers of the blocks in a queue of protocol/pq.go without duplicates.
use dogesyncer.Prelude.{
  ℕ, ◌+◌, ◌<◌, ◌≡◌, refl, sym, ap, ◌∙◌, subst, Bool, true, false, ◌||◌, ◌&&◌, List, [], ◌∷◌, ◌==◌,
  not, if◌then◌else◌, length, arith, ltb, Bool-cases, inl, inr,
}
use dogesyncer.Protocol.Queue.{
  QueuedBlock, push_item, PriorityQueue, has_number, del_number, del_items, put_item, put_items,
  put_blocks, get_blocks, get_items, answered,
}
use dogesyncer.Protocol.Queue.Slots.{count_of, tally-append, one_where, tally, has_this}
use dogesyncer.Protocol.Queue.Heap.{IsHeap, push_item-Same}
use dogesyncer.Protocol.Queue.Taken.{Drained, get_items-Drained}

pub record WellQueued (q : PriorityQueue) : Type 0 where
  pub heap : IsHeap q.items
  pub single : q.allow_duplicates ≡ false
  pub numbers : (n : ℕ) → count_of n q.items ≡ (if has_number n q.item_map then 1 else 0)

has_number-del :
    (n m : ℕ) (l : List ℕ) → has_number n (del_number m l) ≡ (has_number n l && not (n == m))
unfolding has_number del_number
has_number-del n m [] = refl
has_number-del n m (k ∷ l) = ground (arith, has_number-del n m l)

-- Whether a block has the number.
unfoldable pub holds : ℕ → List QueuedBlock → Bool
holds n [] = false
holds n (b ∷ rest) = n == b.number || holds n rest

count_of-push :
    (l : List QueuedBlock) (b : QueuedBlock) (n : ℕ)
    → IsHeap l
    → count_of n (push_item l b) ≡ count_of n l + one_where (has_this n) b
unfolding tally
count_of-push l b n h =
    let s = (push_item-Same l b h).counts (has_this n) in
    omega (arith, s, tally-append (has_this n) l (b ∷ []))

-- The queue behind a block that is not known yet.
abbrev added : PriorityQueue → QueuedBlock → PriorityQueue
added q b = record q { items = push_item q.items b; item_map = b.number ∷ q.item_map }

put_item_known :
    (q : PriorityQueue) (b : QueuedBlock)
    → q.allow_duplicates ≡ false
    → has_number b.number q.item_map ≡ true
    → put_item q b ≡ q
unfolding put_item
put_item_known q b e g = simp (e, g) refl

put_item_new :
    (q : PriorityQueue) (b : QueuedBlock)
    → q.allow_duplicates ≡ false
    → has_number b.number q.item_map ≡ false
    → put_item q b ≡ added q b
unfolding put_item
put_item_new q b e g = simp (e, g) refl

record Put (q : PriorityQueue) (bs : List QueuedBlock) (after : PriorityQueue) : Type 0 where
  pub queued : WellQueued after
  pub known : (n : ℕ) → has_number n after.item_map ≡ (has_number n q.item_map || holds n bs)

added-WellQueued :
    (q : PriorityQueue) (b : QueuedBlock)
    → has_number b.number q.item_map ≡ false
    → WellQueued q
    → WellQueued (added q b)
unfolding has_number
added-WellQueued q b e w = record {
  heap = (push_item-Same q.items b w.heap).heap;
  single = w.single;
  numbers = λ n. elim (Bool-cases (n == b.number)) [
    | inl same ↦
        let q_n : n ≡ b.number = ground arith in
        let old = w.numbers n in
        let fresh : has_number n q.item_map ≡ false = ap (λ m. has_number m q.item_map) q_n ∙ e in
        ground (arith, count_of-push q.items b n w.heap)
    | inr other ↦ ground (arith, count_of-push q.items b n w.heap, w.numbers n)
  ];
}

put_item-Put : (q : PriorityQueue) (b : QueuedBlock) → WellQueued q → Put q (b ∷ []) (put_item q b)
unfolding has_number holds
put_item-Put q b w = elim (Bool-cases (has_number b.number q.item_map)) [
  | inl e ↦ subst (Put q (b ∷ [])) (sym (put_item_known q b w.single e)) (record {
    queued = w;
    known = λ n. elim (Bool-cases (n == b.number)) [
      | inl same ↦
          let q_n : n ≡ b.number = ground arith in
          let old : has_number n q.item_map ≡ true = ap (λ m. has_number m q.item_map) q_n ∙ e in
          ground arith
      | inr other ↦ ground arith
    ];
  })
  | inr e ↦
      subst (Put q (b ∷ [])) (sym (put_item_new q b w.single e))
        (record { queued = added-WellQueued q b e w; known = λ n. ground arith })
]

put_items-Put :
    (q : PriorityQueue) (bs : List QueuedBlock) → WellQueued q → Put q bs (put_items q bs)
unfolding put_items holds
put_items-Put q [] w = record { queued = w; known = λ n. ground arith }
put_items-Put q (b ∷ rest) w =
    let first = put_item-Put q b w in
    let others = put_items-Put (put_item q b) rest first.queued in
    record { queued = others.queued; known = λ n. ground (arith, others.known n, first.known n) }

-- A `Put` into a queue without duplicates, well-formed and not disposed, succeeds; the heap then holds
-- exactly once each number that it held and each of the blocks put, and no other.
pub put_blocks-WellQueued :
    (q : PriorityQueue) (bs : List QueuedBlock)
    → WellQueued q
    → q.disposed ≡ false
    → (after : PriorityQueue) × (put_blocks q bs ≡ answered after)
      × WellQueued after
      × ((n : ℕ)
          → count_of n after.items ≡ (if has_number n q.item_map || holds n bs then 1 else 0))
unfolding put_blocks
put_blocks-WellQueued q bs w e =
    let p = put_items-Put q bs w in
    (
      put_items q bs,
      ran bs,
      p.queued,
      λ n. p.queued.numbers n ∙ ap (λ t. if t then 1 else 0) (p.known n),
    )
  where
    ran : (bs : List QueuedBlock) → put_blocks q bs ≡ answered (put_items q bs)
    ran [] = refl
    ran (b ∷ rest) = simp e refl

has_number-del_items :
    (n : ℕ) (taken : List QueuedBlock) (l : List ℕ)
    → has_number n (del_items taken l) ≡ (has_number n l && not (holds n taken))
unfolding del_items holds
has_number-del_items n [] l = ground arith
has_number-del_items n (b ∷ rest) l =
    ground (arith, has_number-del_items n rest (del_number b.number l), has_number-del n b.number l)

holds-count_of : (n : ℕ) (l : List QueuedBlock) → holds n l ≡ ltb 0 (count_of n l)
unfolding holds tally
holds-count_of n [] = refl
holds-count_of n (b ∷ l) = ground (arith, holds-count_of n l)

-- A `Get` of some blocks from a queue without duplicates that is well-formed, not disposed and not empty
-- succeeds: it takes the blocks of the lowest numbers in order, as many as are asked for and there, and
-- the queue that is left is well-formed; any test passes as many blocks of the two together as of the
-- queue before, so that the blocks taken and left are its blocks.
pub get_blocks-WellQueued :
    (q : PriorityQueue) (number : ℕ)
    → WellQueued q
    → q.disposed ≡ false
    → 0 < number
    → 0 < length q.items
    → (taken : List QueuedBlock) × (after : PriorityQueue) × (get_blocks q number
        ≡ answered (taken, after))
      × Drained 0 number q.items taken after.items
      × WellQueued after
unfolding get_blocks
get_blocks-WellQueued q number w e some_asked some_there =
    let taken = (get_items number q.items).0 in
    let left = (get_items number q.items).1 in
    let d = get_items-Drained number q.items w.heap in
    let asked : (number == 0) ≡ false = ground arith in
    let there : (length q.items == 0) ≡ false = ground arith in
    (
      taken,
      record q { items = left; item_map = del_items taken q.item_map },
      simp (asked, e, there) refl,
      d,
      record {
        heap = d.heap;
        single = w.single;
        numbers = λ n. ground (
          arith,
          d.counts (has_this n),
          w.numbers n,
          holds-count_of n taken,
          has_number-del_items n taken q.item_map,
        );
      },
    )
