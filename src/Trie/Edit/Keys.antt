-- ===== src/Trie/Edit/Keys.antt =====
-- Terminated keys, and what is left of a key behind a prefix.
use dogesyncer.Prelude.{
  ℕ, suc, ◌+◌, ◌<◌, ◌≡◌, refl, ap, sym, subst, ◌∙◌, ◌≢◌, true, false, Option, none, some, List, [],
  ◌∷◌, ◌++◌, ◌==◌, if◌then◌else◌, length, length-append, take, drop, arith, ℕ_discrete,
}
use dogesyncer.Trie.Encoding.RoundTrip.{IsKey, empty, nibble}
use dogesyncer.Trie.Node.{prefix_len}

-- Nibbles, then the terminator 16.
pub data Terminated : List ℕ → Type 0 where
  last : {x : ℕ} → x ≡ 16 → Terminated (x ∷ [])
  more : {x : ℕ} {rest : List ℕ} → x < 16 → Terminated rest → Terminated (x ∷ rest)

pub length-Terminated : {key : List ℕ} → Terminated key → 0 < length key
length-Terminated (last e) = omega arith
length-Terminated (more h t) = omega arith

pub Terminated-append : (key : List ℕ) → IsKey key → Terminated (key ++ 16 ∷ [])
Terminated-append [] empty = last refl
Terminated-append (x ∷ key) (nibble h k) = more h (Terminated-append key k)

-- A key's rest behind a prefix.
unfoldable pub strip : List ℕ → List ℕ → Option (List ℕ)
strip [] key = some key
strip (x ∷ prefix) [] = none
strip (x ∷ prefix) (y ∷ key) = if x == y then strip prefix key else none

pub strip_here : (x : ℕ) (p k : List ℕ) → strip (x ∷ p) (x ∷ k) ≡ strip p k
unfolding strip
strip_here x p k = ground arith

pub strip_other : (x y : ℕ) (p k : List ℕ) → x ≢ y → strip (x ∷ p) (y ∷ k) ≡ none
unfolding strip
strip_other x y p k h = ground arith

-- How a key meets the key of a node: it holds that key whole, leaves it, or ends within it.
pub data View : List ℕ → List ℕ → Type 0 where
  whole : (k rest : List ℕ) → View (k ++ rest) k
  apart :
      (c : List ℕ) (x : ℕ) (a : List ℕ) (y : ℕ) (b : List ℕ)
      → x ≢ y
      → View (c ++ x ∷ a) (c ++ y ∷ b)
  within : (c : List ℕ) (y : ℕ) (b : List ℕ) → View c (c ++ y ∷ b)

View-here : (x : ℕ) {search key : List ℕ} → View search key → View (x ∷ search) (x ∷ key)
View-here x (whole k rest) = whole (x ∷ k) rest
View-here x (apart c z a y b ne) = apart (x ∷ c) z a y b ne
View-here x (within c y b) = within (x ∷ c) y b

pub view : (search key : List ℕ) → View search key
view search [] = whole [] search
view [] (y ∷ key) = within [] y key
view (x ∷ search) (y ∷ key) = elim (ℕ_discrete x y) [
  | yes e ↦ subst (λ z. View (x ∷ search) (z ∷ key)) e (View-here x (view search key))
  | no ne ↦ apart [] x search y key ne
]

-- The numbers and slices that the code takes.
pub strip-append : (p rest : List ℕ) → strip p (p ++ rest) ≡ some rest
unfolding strip
strip-append [] rest = refl
strip-append (x ∷ p) rest = strip_here x p (p ++ rest) ∙ strip-append p rest

pub strip_apart :
    (c : List ℕ) (x : ℕ) (a : List ℕ) (y : ℕ) (b : List ℕ)
    → x ≢ y
    → strip (c ++ y ∷ b) (c ++ x ∷ a) ≡ none
strip_apart [] x a y b ne = strip_other y x b a (λ e. ne (sym e))
strip_apart (z ∷ c) x a y b ne = strip_here z (c ++ y ∷ b) (c ++ x ∷ a) ∙ strip_apart c x a y b ne

pub strip_within : (c : List ℕ) (y : ℕ) (b : List ℕ) → strip (c ++ y ∷ b) c ≡ none
unfolding strip
strip_within [] y b = refl
strip_within (z ∷ c) y b = strip_here z (c ++ y ∷ b) c ∙ strip_within c y b

pub prefix_len-common : (c a b : List ℕ) → prefix_len (c ++ a) (c ++ b) ≡ length c + prefix_len a b
unfolding prefix_len
prefix_len-common [] a b = omega arith
prefix_len-common (x ∷ c) a b = ground (arith, prefix_len-common c a b)

pub prefix_len-whole : (c a : List ℕ) → prefix_len (c ++ a) c ≡ length c
unfolding prefix_len
prefix_len-whole [] [] = refl
prefix_len-whole [] (x ∷ a) = refl
prefix_len-whole (x ∷ c) a = ground (arith, prefix_len-whole c a)

pub prefix_len-within : (c b : List ℕ) → prefix_len c (c ++ b) ≡ length c
unfolding prefix_len
prefix_len-within [] b = refl
prefix_len-within (x ∷ c) b = ground (arith, prefix_len-within c b)

pub prefix_len_apart :
    (c : List ℕ) (x : ℕ) (a : List ℕ) (y : ℕ) (b : List ℕ)
    → x ≢ y
    → prefix_len (c ++ x ∷ a) (c ++ y ∷ b) ≡ length c
unfolding prefix_len
prefix_len_apart [] x a y b ne = ground arith
prefix_len_apart (z ∷ c) x a y b ne = ground (arith, prefix_len_apart c x a y b ne)

pub drop-append : (c a : List ℕ) → drop (length c) (c ++ a) ≡ a
drop-append [] a = refl
drop-append (x ∷ c) a = drop-append c a

pub take-append : (c a : List ℕ) → take (length c) (c ++ a) ≡ c
take-append [] a = refl
take-append (x ∷ c) a = ap (λ l. x ∷ l) (take-append c a)

pub length_whole : (c : List ℕ) → (length c == length c) ≡ true
length_whole c = ground arith

pub length_part : (c : List ℕ) (y : ℕ) (b : List ℕ) → (length c == length (c ++ y ∷ b)) ≡ false
length_part c y b =
    let e : length (c ++ y ∷ b) ≡ length c + suc (length b) = length-append c (y ∷ b) in
    ground arith

-- What follows the nibbles of a terminated key is terminated.
pub Terminated-tail : {x : ℕ} {rest : List ℕ} → x < 16 → Terminated (x ∷ rest) → Terminated rest
Terminated-tail h (last e) = absurd (omega arith)
Terminated-tail h (more g t) = t

pub Terminated-rest :
    {p : List ℕ} → IsKey p → (rest : List ℕ) → Terminated (p ++ rest) → Terminated rest
Terminated-rest empty rest t = t
Terminated-rest (nibble h k) rest t = Terminated-rest k rest (Terminated-tail h t)

-- A terminated key holds no other as a prefix.
pub Terminated-whole :
    {k : List ℕ} → Terminated k → (rest : List ℕ) → Terminated (k ++ rest) → rest ≡ []
Terminated-whole (last e) rest t = end_of e rest t
  where
    end_of : {x : ℕ} → x ≡ 16 → (rest : List ℕ) → Terminated (x ∷ rest) → rest ≡ []
    end_of e [] t = refl
    end_of e (y ∷ rest) (more h t) = absurd (omega arith)
Terminated-whole (more h k) rest t = Terminated-whole k rest (Terminated-tail h t)

pub Terminated-within :
    {c : List ℕ} (y : ℕ) (b : List ℕ) → Terminated c → Terminated (c ++ y ∷ b) → ⊥
Terminated-within y b k t =
    let e : suc (length b) ≡ 0 = ap length (Terminated-whole k (y ∷ b) t) in omega arith

-- What stands in front of a terminated key's end are nibbles.
pub Terminated-split :
    {x : ℕ} {rest : List ℕ} → Terminated (x ∷ rest) → 0 < length rest → (x < 16) × Terminated rest
Terminated-split (last e) h = absurd (omega arith)
Terminated-split (more g t) h = (g, t)

pub Terminated-front :
    (c : List ℕ) (x : ℕ) (a : List ℕ) → Terminated (c ++ x ∷ a) → IsKey c × Terminated (x ∷ a)
Terminated-front [] x a t = (empty, t)
Terminated-front (z ∷ c) x a t =
    let (h, t') = Terminated-split t (omega (arith, length-append c (x ∷ a))) in
    let (k, end) = Terminated-front c x a t' in (nibble h k, end)

pub IsKey-back : (c : List ℕ) {y : ℕ} {b : List ℕ} → IsKey (c ++ y ∷ b) → (y < 16) × IsKey b
IsKey-back [] (nibble h k) = (h, k)
IsKey-back (z ∷ c) (nibble h k) = IsKey-back c k

pub strip-some : (p key : List ℕ) {rest : List ℕ} → strip p key ≡ some rest → key ≡ p ++ rest
unfolding strip
strip-some [] key e = ap (λ o. elim o [ some k ↦ k | none ↦ key ]) e
strip-some (x ∷ p) [] e = cc
strip-some (x ∷ p) (y ∷ key) {rest} e = elim (ℕ_discrete x y) [
  | yes h ↦
      subst (λ z. z ∷ key ≡ x ∷ p ++ rest) h
        (ap (λ l. x ∷ l)
          (strip-some p key (
            sym (strip_here x p key) ∙ subst (λ z. strip (x ∷ p) (z ∷ key) ≡ some rest) (sym h) e)))
  | no h ↦ absurd (let g = strip_other x y p key h in cc)
]

pub strip-strip :
    (c q key : List ℕ) {l : List ℕ} → strip c key ≡ some l → strip (c ++ q) key ≡ strip q l
unfolding strip
strip-strip [] q key {l} e = ap (λ o. elim o [ some k ↦ strip q k | none ↦ strip q l ]) e
strip-strip (x ∷ c) q [] e = absurd (cc)
strip-strip (x ∷ c) q (y ∷ key) {l} e = ground (arith, strip-strip c q key {l = l})

pub strip_off : (c q key : List ℕ) → strip c key ≡ none → strip (c ++ q) key ≡ none
unfolding strip
strip_off [] q key e = absurd (cc)
strip_off (x ∷ c) q [] e = refl
strip_off (x ∷ c) q (y ∷ key) e = ground (arith, strip_off c q key)

pub Terminated-prepend : {p key : List ℕ} → IsKey p → Terminated key → Terminated (p ++ key)
Terminated-prepend empty t = t
Terminated-prepend (nibble h k) t = more h (Terminated-prepend k t)

pub key-unended : {c : List ℕ} → Terminated c → (q : List ℕ) → IsKey (c ++ q) → ⊥
key-unended (last e) q (nibble h k) = omega arith
key-unended (more g t) q (nibble h k) = key-unended t q k

pub append_nil : (a : List ℕ) → a ++ [] ≡ a
append_nil [] = refl
append_nil (x ∷ a) = ap (λ l. x ∷ l) (append_nil a)
