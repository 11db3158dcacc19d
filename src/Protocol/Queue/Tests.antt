-- ===== src/Protocol/Queue/Tests.antt =====
-- The queue at concrete blocks.
use dogesyncer.Prelude.{ℕ, ◌≡◌, refl, ◌||◌, false, none, List, [], ◌∷◌, if◌then◌else◌, arith}
use dogesyncer.Protocol.Queue.{
  QueuedBlock, PriorityQueue, put_blocks, push_item, bubble_up, swap_items, get_blocks, get_items,
  pop_item, bubble_down, child_of, has_number, answered, latest,
}
use dogesyncer.Protocol.Queue.Slots.{count_of, tally}
use dogesyncer.Protocol.Queue.Heap.{IsHeap}
use dogesyncer.Protocol.Queue.Taken.{Drained}
use dogesyncer.Protocol.Queue.Numbers.{
  WellQueued, holds, put_blocks-WellQueued, get_blocks-WellQueued,
}

abbrev block : ℕ → QueuedBlock
block n = record { number = n; hash = n }

abbrev two_blocks : List QueuedBlock
two_blocks = block 3 ∷ block 7 ∷ []

two_blocks-IsHeap : IsHeap two_blocks
two_blocks-IsHeap = record { ordered = λ c p h. let e : c ≡ 1 = omega arith in rw e (omega arith) }

abbrev two_queued : PriorityQueue
two_queued = record {
  items = two_blocks;
  item_map = 7 ∷ 3 ∷ [];
  disposed = false;
  allow_duplicates = false;
}

two_queued-WellQueued : WellQueued two_queued
unfolding tally has_number
two_queued-WellQueued = record {
  heap = two_blocks-IsHeap;
  single = refl;
  numbers = λ n. ground arith;
}

put_blocks-WellQueued_example :
    (after : PriorityQueue) × (put_blocks two_queued (block 5 ∷ block 3 ∷ []) ≡ answered after)
    × WellQueued after
    × ((n : ℕ)
        → count_of n after.items
          ≡ (if has_number n two_queued.item_map || holds n (block 5 ∷ block 3 ∷ []) then 1 else 0))
put_blocks-WellQueued_example =
    put_blocks-WellQueued two_queued (block 5 ∷ block 3 ∷ []) two_queued-WellQueued refl

get_blocks-WellQueued_example :
    (taken : List QueuedBlock) × (after : PriorityQueue) × (get_blocks two_queued 1
      ≡ answered (taken, after))
    × Drained 0 1 two_queued.items taken after.items
    × WellQueued after
get_blocks-WellQueued_example =
    get_blocks-WellQueued two_queued 1 two_queued-WellQueued refl (omega arith) (omega arith)

taken_in_order :
    (get_items 3 (push_item (push_item two_blocks (block 5)) (block 1))).0
    ≡ block 1 ∷ block 3 ∷ block 5 ∷ []
unfolding get_items push_item bubble_up swap_items pop_item bubble_down child_of
taken_in_order = refl

latest_panics : latest two_queued ≡ none
unfolding latest
latest_panics = refl
