-- ===== src/Protocol/Queue.antt =====
-- protocol/pq.go: the blocks of the queue as a binary heap in a slice, ordered by `Compare` of
-- types/block.go. The loops read and swap inside the slice alone, so no index panics in them; a `pop`
-- of no items does, and no caller makes one. Locks, the waiting of `Get` on an empty queue and the
-- waking of waiters are left out.
pub mod Slots
pub mod Heap
pub mod Drain
pub mod Taken
pub mod Numbers
mod Tests
use dogesyncer.Prelude.{
  ℕ, zero, suc, ◌+◌, ◌-◌, ◌*◌, ◌/◌, Bool, true, false, Option, none, some, List, [], ◌∷◌, ◌++◌, ltb,
  ◌==◌, ◌&&◌, ◌||◌, if◌then◌else◌, length, get_or, get_elem?, set, take,
}

pub record QueuedBlock : Type 0 where
  pub number : ℕ
  pub hash : ℕ

abbrev pub no_block : QueuedBlock
no_block = record { number = 0; hash = 0 }

-- The block at an index, which the loops keep inside the slice.
abbrev pub item_at : List QueuedBlock → ℕ → QueuedBlock
item_at items i = get_or items i no_block

abbrev pub number_at : List QueuedBlock → ℕ → ℕ
number_at items i = (item_at items i).number

unfoldable pub swap_items : List QueuedBlock → ℕ → ℕ → List QueuedBlock
swap_items items i j = set (set items i (item_at items j)) j (item_at items i)

-- At the root `int((0 - 1) / 2)` is 0, as it is here.
abbrev pub parent_of : ℕ → ℕ
parent_of index = (index - 1) / 2

unfoldable pub bubble_up : ℕ → List QueuedBlock → ℕ → List QueuedBlock
unfolding swap_items
bubble_up zero items index = items
bubble_up (suc fuel) items index =
    let risen = bubble_up fuel (swap_items items index (parent_of index)) (parent_of index) in
    if ltb (number_at items index) (number_at items (parent_of index)) then risen else items

unfoldable pub push_item : List QueuedBlock → QueuedBlock → List QueuedBlock
unfolding bubble_up
push_item items item = bubble_up (length items + 1) (items ++ item ∷ []) (length items)

unfoldable pub child_of : List QueuedBlock → ℕ → ℕ
child_of items index =
    if ltb (2 * index + 2) (length items)
      && ltb (number_at items (2 * index + 2)) (number_at items (2 * index + 1))
    then 2 * index + 2
    else 2 * index + 1

unfoldable pub bubble_down : ℕ → List QueuedBlock → ℕ → List QueuedBlock
unfolding swap_items child_of
bubble_down zero items index = items
bubble_down (suc fuel) items index =
    let sunk =
      bubble_down fuel (swap_items items index (child_of items index)) (child_of items index) in
    if ltb (2 * index + 1) (length items)
      && ltb (number_at items (child_of items index)) (number_at items index)
    then sunk
    else items

-- `none` where the slice is empty and `pop` panics.
unfoldable pub pop_item : List QueuedBlock → Option (QueuedBlock × List QueuedBlock)
unfolding bubble_down swap_items
pop_item [] = none
pop_item (first ∷ rest) =
    let swapped = swap_items (first ∷ rest) (length rest) 0 in
    some (item_at swapped (length rest), bubble_down (length rest) (take (length rest) swapped) 0)

-- `get`: at most `number` blocks.
unfoldable pub get_items : ℕ → List QueuedBlock → List QueuedBlock × List QueuedBlock
unfolding pop_item
get_items zero items = ([], items)
get_items (suc number) items = elim (pop_item items) [
  | none ↦ ([], items)
  | some (item, rest) ↦ let (taken, left) = get_items number rest in (item ∷ taken, left)
]

-- The queue; its map as the list of its keys.
pub record PriorityQueue : Type 0 where
  pub items : List QueuedBlock
  pub item_map : List ℕ
  pub disposed : Bool
  pub allow_duplicates : Bool

unfoldable pub has_number : ℕ → List ℕ → Bool
has_number n [] = false
has_number n (m ∷ rest) = n == m || has_number n rest

unfoldable pub del_number : ℕ → List ℕ → List ℕ
del_number n [] = []
del_number n (m ∷ rest) = let kept = del_number n rest in if n == m then kept else m ∷ kept

unfoldable pub del_items : List QueuedBlock → List ℕ → List ℕ
unfolding del_number
del_items [] numbers = numbers
del_items (b ∷ rest) numbers = del_items rest (del_number b.number numbers)

-- `waits` where `Get` finds nothing and waits for a `Put`.
pub data Answer (A : Type 0) : Type 0 where
  answered : A → Answer A
  err_disposed : Answer A
  waits : Answer A

unfoldable pub put_item : PriorityQueue → QueuedBlock → PriorityQueue
unfolding push_item has_number
put_item q b =
    if q.allow_duplicates
    then record q { items = push_item q.items b }
    else if has_number b.number q.item_map
    then q
    else record q { items = push_item q.items b; item_map = b.number ∷ q.item_map }

unfoldable pub put_items : PriorityQueue → List QueuedBlock → PriorityQueue
unfolding put_item
put_items q [] = q
put_items q (b ∷ rest) = put_items (put_item q b) rest

unfoldable pub put_blocks : PriorityQueue → List QueuedBlock → Answer PriorityQueue
unfolding put_items
put_blocks q [] = answered q
put_blocks q (b ∷ rest) = if q.disposed then err_disposed else answered (put_items q (b ∷ rest))

unfoldable pub get_blocks : PriorityQueue → ℕ → Answer (List QueuedBlock × PriorityQueue)
unfolding get_items del_items
get_blocks q number =
    if number == 0
    then answered ([], q)
    else if q.disposed
    then err_disposed
    else if length q.items == 0
    then waits
    else let (taken, left) = get_items number q.items in
      answered (taken, record q { items = left; item_map = del_items taken q.item_map })

unfoldable pub peek : PriorityQueue → Option QueuedBlock
peek q = get_elem? q.items 0

-- `none` where it reads behind the last item and panics.
unfoldable pub latest : PriorityQueue → Option ℕ
latest q = elim (get_elem? q.items (length q.items)) [
  | none ↦ if length q.items == 0 then some 0 else none
  | some b ↦ some b.number
]

unfoldable pub dispose : PriorityQueue → PriorityQueue
dispose q = record q { disposed = true; items = [] }
