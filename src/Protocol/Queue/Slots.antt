-- ===== src/Protocol/Queue/Slots.antt =====
-- The slots of the slice after a write, a swap, an append and a cut, and how many
-- of its blocks pass a test.
use dogesyncer.Prelude.{
  ℕ, zero, suc, ◌+◌, ◌<◌, ◌≡◌, refl, ap, ◌∙◌, Bool, true, false, List, [], ◌∷◌, ◌++◌, ◌==◌,
  if◌then◌else◌, length, set, take, arith, length-set, Bool-cases, inl, inr,
}
use dogesyncer.Protocol.Queue.{QueuedBlock, item_at, number_at, swap_items}

pub item_at-set :
    (l : List QueuedBlock) (i c : ℕ) (v : QueuedBlock)
    → i < length l
    → item_at (set l i v) c ≡ (if c == i then v else item_at l c)
item_at-set [] i c v h = absurd (omega arith)
item_at-set (x ∷ l) zero zero v h = refl
item_at-set (x ∷ l) zero (suc c) v h = ground arith
item_at-set (x ∷ l) (suc i) zero v h = ground arith
item_at-set (x ∷ l) (suc i) (suc c) v h = ground (arith, item_at-set l i c v)

pub length-swap_items : (l : List QueuedBlock) (i j : ℕ) → length (swap_items l i j) ≡ length l
unfolding swap_items
length-swap_items l i j =
    length-set (set l i (item_at l j)) j (item_at l i) ∙ length-set l i (item_at l j)

pub number_at-swap :
    (l : List QueuedBlock) (i j c : ℕ)
    → i < length l
    → j < length l
    → number_at (swap_items l i j) c
      ≡ (if c == j then number_at l i else if c == i then number_at l j else number_at l c)
unfolding swap_items
number_at-swap l i j c h g =
    let n = length-set l i (item_at l j) in
    let outer = item_at-set (set l i (item_at l j)) j c (item_at l i) (omega arith) in
    let inside = item_at-set l i c (item_at l j) h in ap (λ b. b.number) outer ∙ ground arith

abbrev pub one_where : (QueuedBlock → Bool) → QueuedBlock → ℕ
one_where test b = if test b then 1 else 0

-- How many blocks pass a test.
unfoldable pub tally : (QueuedBlock → Bool) → List QueuedBlock → ℕ
tally test [] = 0
tally test (b ∷ l) = tally test l + (if test b then 1 else 0)

-- How many blocks have a number.
abbrev pub has_this : ℕ → QueuedBlock → Bool
has_this n b = n == b.number

abbrev pub count_of : ℕ → List QueuedBlock → ℕ
count_of n l = tally (has_this n) l

pub tally-append :
    (p : QueuedBlock → Bool) (l m : List QueuedBlock) → tally p (l ++ m) ≡ tally p l + tally p m
unfolding tally
tally-append p [] m = omega arith
tally-append p (b ∷ l) m = omega (arith, tally-append p l m)

tally-set :
    (p : QueuedBlock → Bool) (l : List QueuedBlock) (i : ℕ) (v : QueuedBlock)
    → i < length l
    → tally p (set l i v) + one_where p (item_at l i) ≡ tally p l + one_where p v
unfolding tally
tally-set p [] i v h = absurd (omega arith)
tally-set p (x ∷ l) zero v h = omega arith
tally-set p (x ∷ l) (suc i) v h = omega (arith, tally-set p l i v)

pub tally-swap :
    (p : QueuedBlock → Bool) (l : List QueuedBlock) (i j : ℕ)
    → i < length l
    → j < length l
    → tally p (swap_items l i j) ≡ tally p l
unfolding swap_items
tally-swap p l i j h g =
    let first = tally-set p l i (item_at l j) h in
    let second =
      tally-set p (set l i (item_at l j)) j (item_at l i)
        (omega (arith, length-set l i (item_at l j))) in
    let at : item_at (set l i (item_at l j)) j ≡ item_at l j =
      item_at-set l i j (item_at l j) h ∙ unchanged (j == i) refl in
    let one = ap (one_where p) at in omega (arith, one)
  where
    unchanged : (t : Bool) → (j == i) ≡ t → (if t then item_at l j else item_at l j) ≡ item_at l j
    unchanged true e = refl
    unchanged false e = refl

pub item_at-append :
    (l : List QueuedBlock) (v : QueuedBlock) (c : ℕ)
    → item_at (l ++ v ∷ []) c ≡ (if c == length l then v else item_at l c)
item_at-append [] v zero = refl
item_at-append [] v (suc c) = ground arith
item_at-append (x ∷ l) v zero = ground arith
item_at-append (x ∷ l) v (suc c) = ground (arith, item_at-append l v c)

pub item_at-take :
    (n : ℕ) (l : List QueuedBlock) (c : ℕ) → c < n → item_at (take n l) c ≡ item_at l c
item_at-take zero l c h = absurd (omega arith)
item_at-take (suc n) [] c h = refl
item_at-take (suc n) (x ∷ l) zero h = refl
item_at-take (suc n) (x ∷ l) (suc c) h = item_at-take n l c (omega arith)

-- Cutting the last block off.
pub tally-take :
    (p : QueuedBlock → Bool) (m : ℕ) (l : List QueuedBlock)
    → length l ≡ suc m
    → tally p l ≡ tally p (take m l) + one_where p (item_at l m)
unfolding tally
tally-take p m [] h = absurd (omega arith)
tally-take p zero (x ∷ []) h = refl
tally-take p zero (x ∷ y ∷ l) h = absurd (omega arith)
tally-take p (suc m) (x ∷ l) h = omega (arith, tally-take p m l)

-- The number of an item is counted, and a number that is counted is that of an item.
pub count_of-item : (l : List QueuedBlock) (c : ℕ) → c < length l → 0 < count_of (number_at l c) l
unfolding tally
count_of-item [] c h = absurd (omega arith)
count_of-item (x ∷ l) zero h = ground arith
count_of-item (x ∷ l) (suc c) h = ground (arith, count_of-item l c (omega arith))

pub item-count_of :
    (l : List QueuedBlock) (n : ℕ)
    → 0 < count_of n l
    → (c : ℕ) × (c < length l) × (number_at l c ≡ n)
unfolding tally
item-count_of [] n h = absurd (omega arith)
item-count_of (x ∷ l) n h = elim (Bool-cases (n == x.number)) [
  | inl e ↦ (0, omega arith, ground arith)
  | inr e ↦ let (c, g, q) = item-count_of l n (ground arith) in (suc c, omega arith, q)
]
