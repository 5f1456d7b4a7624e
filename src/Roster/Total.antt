-- ===== src/Roster/Total.antt =====
-- pipeline/roster.ts: `buildRoster` returns a tree, whatever the number of entries: its loop ends, and
-- no hash in it is refused.
use proofmark.Prelude.{
  suc, ◌+◌, ◌≡◌, refl, ap, ◌∙◌, true, List, [], ◌∷◌, ◌++◌, map, arith, All, All-append, length,
  is_safe_integer, Result, ok, ◌>>=◌, Yields, returns, after, yielded,
}
use proofmark.Prelude.Text.{Text}
use proofmark.Ethers.{Ethers, string, address, word}
use proofmark.Roster.{
  RosterEntry, RosterTree, map_result, with_key, mark_hash, sort_by_key, build_roster, min_key,
  max_key, sentinel_mark, subject_key,
}
use proofmark.Roster.Hashes.{
  IsWord, PacksWords, leaves_of-total, build_layers-total, roster_root-total,
}
use proofmark.Roster.Distinct.{
  Distinct, IsFree, Distinct-refuse_duplicates, free-refuse_sentinels, sort_by_key-Distinct,
  sort_by_key-All, sort_by_key-length,
}
use proofmark.Roster.Built.{
  same_lengths, framed-length, length-map, Aligned-length, leaves_of-Aligned,
}

-- A chain returns if its first call and the rest do.
then_ok :
    {A B : Type 0} {m : Result A} (f : A → Result B) {a : A}
    → m ≡ ok a
    → (b : B) × (f a ≡ ok b)
    → (b : B) × ((m >>= f) ≡ ok b)
then_ok f h (b, r) = (b, ap (λ x. x >>= f) h ∙ r)

module _ {A : Type 0} {B : Type 0} (f : A → Result B) (Q : B → Type 0) where
  map_result-total :
      (xs : List A)
      → All (λ x. (y : B) × (f x ≡ ok y) × Q y) xs
      → (ys : List B) × (map_result f xs ≡ ok ys) × All Q ys × (length ys ≡ length xs)
  map_result-total [] h = ([], refl, tt, refl)
  map_result-total (x ∷ xs) h =
      let (y, p, q) = h.0 in
      let (ys, r, qs, n) = map_result-total xs h.1 in (y ∷ ys, rw (p, r) refl, (q, qs), ap suc n)

min-IsWord : IsWord min_key
unfolding min_key
min-IsWord = refl

max-IsWord : IsWord max_key
unfolding max_key
max-IsWord = refl

mark-IsWord : IsWord sentinel_mark
unfolding sentinel_mark
mark-IsWord = refl

module _ (e : Ethers) (law : PacksWords e) where
  subject_key-IsWord :
      (subject namespace k : Text) → subject_key e subject namespace ≡ ok k → IsWord k
  unfolding subject_key
  subject_key-IsWord subject namespace k h =
      yielded {P = IsWord}
        (after (e.get_address subject) λ account _.
          after (e.abi_encode (string namespace ∷ address account ∷ []))
            λ encoded _. returns (law.hashed encoded))
        h

  mark_hash-IsWord : (entry : RosterEntry) (k : Text) → mark_hash e entry ≡ ok k → IsWord k
  unfolding mark_hash
  mark_hash-IsWord entry k h =
      yielded {P = IsWord}
        (after (e.get_address entry.issuer) λ issuer _.
          after
            (e.abi_encode (
              word entry.attrs
              ∷ word entry.claims_root
              ∷ word entry.evidence_hash
              ∷ address issuer
              ∷ []))
            λ encoded _. returns (law.hashed encoded))
        h

  with_key-IsWord :
      (namespace : Text) (entry : RosterEntry)
      → Yields (λ x. IsWord x.0 × (x.1 ≡ entry)) (with_key e namespace entry)
  unfolding with_key
  with_key-IsWord namespace entry =
      after (subject_key e entry.subject namespace)
        λ k h. returns (subject_key-IsWord entry.subject namespace k h, refl)

  -- What is known of an entry and its key before the sort.
  abbrev IsReady : Text × RosterEntry → Type 0
  IsReady x = IsWord x.0 × (h : Text) × (mark_hash e x.1 ≡ ok h)

  IsReady-keys :
      (namespace : Text) (entries : List RosterEntry)
      → All (λ (entry : RosterEntry). (h : Text) × (mark_hash e entry ≡ ok h)) entries
      → Yields (All IsReady) (map_result (with_key e namespace) entries)
  IsReady-keys namespace [] marked = returns tt
  IsReady-keys namespace (entry ∷ entries) marked = after (with_key e namespace entry) λ x h.
      after (map_result (with_key e namespace) entries) λ xs q.
        let r = yielded (with_key-IsWord namespace entry) h in
        returns (
          (r.0, marked.0.0, ap (mark_hash e) r.1 ∙ marked.0.1),
          yielded (IsReady-keys namespace entries marked.1) q,
        )

  sorted_marks :
      (xs : List (Text × RosterEntry))
      → All IsReady xs
      → All
          (λ (entry : RosterEntry). (h : Text) × (mark_hash e entry ≡ ok h) × IsWord h)
          (map (λ (x : Text × RosterEntry). x.1) xs)
  sorted_marks [] h = tt
  sorted_marks (x ∷ xs) h = ((h.0.1, h.0.2, mark_hash-IsWord x.1 h.0.1 h.0.2), sorted_marks xs h.1)

  sorted_words :
      (xs : List (Text × RosterEntry))
      → All IsReady xs
      → All IsWord (map (λ (x : Text × RosterEntry). x.0) xs)
  sorted_words [] h = tt
  sorted_words (x ∷ xs) h = (h.0.0, sorted_words xs h.1)

  framed_words :
      (a z : Text) (xs : List Text)
      → IsWord a
      → IsWord z
      → All IsWord xs
      → All IsWord (a ∷ xs ++ z ∷ [])
  framed_words a z xs p q h = (p, All-append IsWord xs (z ∷ []) h (q, tt))

  -- If every subject has a key, the keys are pairwise different and no sentinels, every entry has a
  -- mark hash, and the number of leaves is a safe integer, then `buildRoster` returns a tree.
  pub build_roster-total :
      (entries : List RosterEntry) (namespace : Text) (with_keys : List (Text × RosterEntry))
      → map_result (with_key e namespace) entries ≡ ok with_keys
      → Distinct with_keys
      → All IsFree with_keys
      → All (λ (entry : RosterEntry). (h : Text) × (mark_hash e entry ≡ ok h)) entries
      → is_safe_integer (length with_keys + 2) ≡ true
      → (tree : RosterTree) × (build_roster e entries namespace ≡ ok tree)
  unfolding build_roster
  build_roster-total entries namespace with_keys keyed distinct free marked safe =
      let xs = sort_by_key with_keys in
      let ready =
        sort_by_key-All IsReady with_keys (yielded (IsReady-keys namespace entries marked) keyed) in
      let sorted = map (λ (x : Text × RosterEntry). x.1) xs in
      let found = map (λ (x : Text × RosterEntry). x.0) xs in
      let (hashes, h, hw, hn) =
        map_result-total (mark_hash e) IsWord sorted (sorted_marks xs ready) in
      let keys = min_key ∷ found ++ max_key ∷ [] in
      let marks = sentinel_mark ∷ hashes ++ sentinel_mark ∷ [] in
      let (leaves, l, lw) =
        leaves_of-total e law keys marks
          (framed_words min_key max_key found min-IsWord max-IsWord (sorted_words xs ready))
          (framed_words sentinel_mark sentinel_mark hashes mark-IsWord mark-IsWord hw) in
      let same : length marks ≡ length keys =
        same_lengths min_key max_key sentinel_mark sentinel_mark xs hashes (hn) in
      let n : length leaves ≡ length with_keys + 2 = omega (
        arith,
        (Aligned-length e keys marks leaves (yielded (leaves_of-Aligned e keys marks same) l)).0,
        framed-length min_key max_key found,
        length-map (λ (x : Text × RosterEntry). x.0) xs,
        sort_by_key-length with_keys,
      ) in
      let (layers, b, top, t, w) =
        build_layers-total e law (length leaves) leaves (omega arith) (omega arith) lw in
      let (root, r) = roster_root-total e law top (length leaves) (rw n safe) (omega arith) w in
      then_ok _ keyed (
        then_ok _ (Distinct-refuse_duplicates xs (sort_by_key-Distinct with_keys distinct)) (
          then_ok _ (free-refuse_sentinels xs (sort_by_key-All IsFree with_keys free))
            (then_ok _ h (then_ok _ l (then_ok _ b (then_ok _ t (then_ok _ r (_, refl))))))))
