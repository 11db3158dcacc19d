-- ===== src/Trie/Commit/Writes.antt =====
-- The entries that an account's storage trie holds after its writes.
use dogesyncer.Prelude.{
  ℕ, suc, ◌+◌, ◌*◌, ◌<◌, ◌≡◌, refl, ap, sym, subst, ◌∙◌, ◌≢◌, false, Option, none, some, List, [],
  ◌∷◌, if◌then◌else◌, length, length-append, arith, Bool-cases, inl, inr,
}
use dogesyncer.Trie.Encoding.{nibbles, bytes_to_hex_nibbles}
use dogesyncer.Trie.Node.{Node, nil, Storage}
use dogesyncer.Trie.Edit.{Deleted, get, put, remove, fuel_for, with_node}
use dogesyncer.Trie.Edit.Keys.{Terminated}
use dogesyncer.Trie.Edit.Finds.{
  Finds, nothing, Finds-unique, IsTree, inner, no_tree, node, IsTree-Reads,
}
use dogesyncer.Trie.Edit.Insertion.{Finds-nil}
use dogesyncer.Trie.Edit.Long.{Below}
use dogesyncer.Trie.Edit.Remove.{Outcome, kept, removed}
use dogesyncer.Trie.Edit.Removal.{remove_tree}
use dogesyncer.Trie.Map.{
  IsBytes, same_key, same_key_sound, same_key_refl, hex-Terminated, hex-injective, get-Reads,
  get-Finds, put-Inserted, kept as stays,
}
use dogesyncer.Trie.Commit.{StorageEntry, trim_left, write_entry, write_entries}

length-nibbles : (key : List ℕ) → length (nibbles key) ≡ 2 * length key
unfolding nibbles
length-nibbles [] = refl
length-nibbles (b ∷ key) = omega (arith, length-nibbles key)

length-hex : (key : List ℕ) → length (bytes_to_hex_nibbles key) ≡ 2 * length key + 1
unfolding bytes_to_hex_nibbles
length-hex key = length-append (nibbles key) (16 ∷ []) ∙ ap (λ n. n + 1) (length-nibbles key)

same_key-different : {a b : List ℕ} → same_key a b ≡ false → a ≢ b
same_key-different {a} h e =
    let p : same_key a a ≡ false = subst (λ l. same_key a l ≡ false) (sym e) h in
    let q = same_key_refl a in cc

module _ (s : Storage) where
  -- A well-formed trie with no key longer than `size` bytes.
  record Fits (size : ℕ) (root : Node) : Type 0 where
    pub tree : IsTree s root
    pub below : Below s root (suc (2 * size + 1))

  -- A trie that reads as `root` does but under one key.
  record Stepped (size : ℕ) (root : Node) (key : List ℕ) (v : Option (List ℕ)) (o : Option Node)
      : Type 0 where
    pub after : Node
    pub runs : o ≡ some after
    pub fits : Fits size after
    pub reads :
        (other : List ℕ) (before : Option (List ℕ))
        → IsBytes other
        → get s root other ≡ some before
        → get s after other ≡ some (if same_key key other then v else before)

  empty-Fits : (size : ℕ) → Fits size nil
  empty-Fits size = record {
    tree = no_tree;
    below = record {
      bound = λ key w t d. absurd (let e : some w ≡ none = Finds-nil s [] refl d in cc);
    };
  }

  step :
      {size : ℕ} {root : Node} {key : List ℕ} {o : Option Node} (m : Node) (v : Option (List ℕ))
      → Fits size root
      → IsBytes key
      → length key ≡ size
      → IsTree s m
      → Finds s m (bytes_to_hex_nibbles key) v
      → ((other : List ℕ) (r : Option (List ℕ))
          → Terminated other
          → other ≢ bytes_to_hex_nibbles key
          → Finds s root other r
          → Finds s m other r)
      → o ≡ some m
      → Stepped size root key v o
  step {size} {root} {key} m v fits k h tree self others e = record {
    after = m;
    runs = e;
    fits = record { tree = tree; below = record { bound = short } };
    reads = after_reads;
  }
    where
      short :
          (other w : List ℕ)
          → Terminated other
          → Finds s m other (some w)
          → length other < suc (2 * size + 1)
      short other w t d = elim (Bool-cases (same_key other (bytes_to_hex_nibbles key))) [
        | inl same ↦ omega (
          arith,
          ap length (same_key_sound other (bytes_to_hex_nibbles key) same),
          length-hex key,
        )
        | inr different ↦
            let r = IsTree-Reads s fits.tree t (2 * length other + 2) (omega arith) in
            let q =
              Finds-unique s (others other r.result t (same_key-different different) r.finds) d in
            fits.below.bound other w t (subst (λ x. Finds s root other x) q r.finds)
      ]

      after_reads :
          (other : List ℕ) (before : Option (List ℕ))
          → IsBytes other
          → get s root other ≡ some before
          → get s m other ≡ some (if same_key key other then v else before)
      after_reads other before o e' = elim (Bool-cases (same_key key other)) [
        | inl same ↦ rw same (
            get-Finds s tree o (
              subst (λ l. Finds s m (bytes_to_hex_nibbles l) v) (same_key_sound key other same)
                self))
        | inr different ↦
            let r = get-Reads s fits.tree o in
            rw different (
              get-Finds s tree o (
                others (bytes_to_hex_nibbles other) r.result (hex-Terminated o)
                  (λ q. same_key-different different (sym (hex-injective other key q))) r.finds)
              ∙ sym (get-Finds s fits.tree o r.finds)
              ∙ e')
      ]

  put-Stepped :
      {size : ℕ} {root : Node} {key : List ℕ} (v : List ℕ)
      → Fits size root
      → IsBytes key
      → length key ≡ size
      → Stepped size root key (some v) (put s root key v)
  unfolding put with_node
  put-Stepped {root = root} {key = key} v fits k h =
      let i = put-Inserted s fits.tree k v in
      step i.result (some v) fits k h (node (inner i.shape)) i.self i.others
        (rw (i.runs) (ap some (stays s root i.shape)))

  remove-Stepped :
      {size : ℕ} {root : Node} {key : List ℕ}
      → Fits size root
      → IsBytes key
      → length key ≡ size
      → Stepped size root key none (remove s root key)
  unfolding remove fuel_for
  remove-Stepped {size} {root} {key} fits k h =
      let n = length-hex key in
      let r =
        remove_tree s fits.tree (hex-Terminated k)
          (subst (λ b. Below s root (suc b)) (omega arith) fits.below)
          (fuel_for (bytes_to_hex_nibbles key)) (omega arith) in
      rw (r.runs, remove) (settled r.outcome)
    where
      settled :
          {d : Deleted}
          → Outcome s (IsTree s) Terminated root (bytes_to_hex_nibbles key) d
          → Stepped size root key none (some (if d.ok then d.node else root))
      settled (kept d) = step root none fits k h fits.tree d (λ other r t ne f. f) refl
      settled (removed {m = m} i gone others) = step m none fits k h i gone others refl

module _ (hashit encode : List ℕ → List ℕ) where
  -- The last entry for a key says its value.
  unfoldable pub written : List StorageEntry → List ℕ → Option (List ℕ) → Option (List ℕ)
  written [] key before = before
  written (e ∷ rest) key before = written rest key (
      if same_key (hashit e.key) key
      then (if e.deleted then none else some (encode (trim_left e.val)))
      else before)

  module _ (s : Storage)
      (digest : (key : List ℕ) → IsBytes (hashit key) × (length (hashit key) ≡ 32)) where
    entry-Stepped :
        {root : Node} (e : StorageEntry)
        → Fits s 32 root
        → Stepped s 32 root
            (hashit e.key)
            (if e.deleted then none else some (encode (trim_left e.val)))
            (write_entry s hashit encode root e)
    unfolding write_entry
    entry-Stepped e fits = elim (Bool-cases e.deleted) [
      | inl t ↦ rw t (remove-Stepped s fits (digest e.key).0 (digest e.key).1)
      | inr t ↦
          rw t (put-Stepped s (encode (trim_left e.val)) fits (digest e.key).0 (digest e.key).1)
    ]

    write_entries-Fits :
        (entries : List StorageEntry) {root : Node} {key : List ℕ} {before : Option (List ℕ)}
        → Fits s 32 root
        → IsBytes key
        → get s root key ≡ some before
        → (after : Node) × (write_entries s hashit encode root entries ≡ some after)
          × (get s after key ≡ some (written entries key before))
    unfolding write_entries written
    write_entries-Fits [] {root} fits k h = (root, refl, h)
    write_entries-Fits (e ∷ rest) {key = key} {before = before} fits k h =
        let step = entry-Stepped e fits in
        let (after, ran, reads) = write_entries-Fits rest step.fits k (step.reads key before k h) in
        (after, rw (step.runs, write_entries) ran, reads)

    -- Where the hashes are 32 bytes: from the empty trie all writes succeed, and a lookup under any key
    -- of bytes in the trie they leave succeeds with the value of the last entry whose hash is that key,
    -- and with nothing where that entry is a deletion or there is none.
    pub write_entries-written :
        (entries : List StorageEntry) (key : List ℕ)
        → IsBytes key
        → (after : Node) × (write_entries s hashit encode nil entries ≡ some after)
          × (get s after key ≡ some (written entries key none))
    write_entries-written entries key k =
        write_entries-Fits entries (empty-Fits s 32) k (get-Finds s no_tree k nothing)
