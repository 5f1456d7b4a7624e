-- ===== src/Roster/Listed.antt =====
-- pipeline/roster.ts: the keys of a built roster: they ascend, and every entry's key is among them.
use proofmark.Prelude.{
  ◌≡◌, ◌≢◌, refl, sym, ◌∙◌, inl, inr, Bool, true, false, List, [], ◌∷◌, ◌++◌, map, All, arith,
  Bool-cases, ok, Yields, returns, after, yielded, ok-injective, length,
}
use proofmark.Prelude.Sorting.{sort, sort-IsSorted, IsSorted, sort-All, All-sort}
use proofmark.Prelude.Text.{
  Text, text_eq, text_lt, text_eq_iff, text_lt_trans, text_lt_total, text_lt_irrefl, to_lower_case,
}
use proofmark.Ethers.{Ethers, LowerHashes, string, address}
use proofmark.Roster.{
  RosterEntry, RosterTree, map_result, with_key, subject_key, mark_hash, leaves_of, sort_by_key,
  refuse_duplicates, refuse_sentinels, build_layers, top_of, roster_root, build_roster, min_key,
  max_key, sentinel_mark,
}

-- The texts ascend strictly.
abbrev pub Ascends : List Text → Type 0
Ascends [] = Unit
Ascends (x ∷ []) = Unit
Ascends (x ∷ y ∷ rest) = (text_lt x y ≡ true) × Ascends (y ∷ rest)

abbrev keys_of : List (Text × RosterEntry) → List Text
keys_of = map (λ (x : Text × RosterEntry). x.0)

text_lt_asym : (a b : Text) → text_lt a b ≡ true → text_lt b a ≡ false
text_lt_asym a b h = elim (Bool-cases (text_lt b a)) [
  | inr e ↦ e
  | inl e ↦ absurd (ground (arith, text_lt_trans a b a h e, text_lt_irrefl a))
]

abbrev after_key : Text × RosterEntry → Text × RosterEntry → Bool
after_key a b = text_lt b.0 a.0

-- Sorted keys with no equal neighbours ascend.
distinct-Ascends :
    (xs : List (Text × RosterEntry))
    → IsSorted after_key xs
    → refuse_duplicates xs ≡ ok tt
    → Ascends (keys_of xs)
unfolding refuse_duplicates
distinct-Ascends [] s h = tt
distinct-Ascends (x ∷ []) s h = tt
distinct-Ascends (x ∷ y ∷ rest) s h = elim (Bool-cases (text_eq y.0 x.0)) [
  | inl same ↦ absurd (ground arith)
  | inr differ ↦
      let apart : text_eq x.0 y.0 ≡ false =
        ground (arith, text_eq_iff x.0 y.0, text_eq_iff y.0 x.0) in
      (text_lt_total x.0 y.0 apart s.0, distinct-Ascends (y ∷ rest) s.1 (ground arith))
]

sort_by_key-IsSorted : (xs : List (Text × RosterEntry)) → IsSorted after_key (sort_by_key xs)
unfolding sort_by_key
sort_by_key-IsSorted xs = sort-IsSorted after_key (λ a b. text_lt_asym b.0 a.0) xs

keys-All :
    (P : Text → Type 0) (xs : List (Text × RosterEntry))
    → All P (keys_of xs)
    → All (λ (x : Text × RosterEntry). P x.0) xs
keys-All P [] h = tt
keys-All P (x ∷ xs) h = (h.0, keys-All P xs h.1)

All-keys :
    (P : Text → Type 0) (xs : List (Text × RosterEntry))
    → All (λ (x : Text × RosterEntry). P x.0) xs
    → All P (keys_of xs)
All-keys P [] h = tt
All-keys P (x ∷ xs) h = (h.0, All-keys P xs h.1)

-- What holds of all keys after the sort holds of all before.
unsorted_keys :
    (P : Text → Type 0) (xs : List (Text × RosterEntry))
    → All P (keys_of (sort_by_key xs))
    → All (λ (x : Text × RosterEntry). P x.0) xs
unfolding sort_by_key
unsorted_keys P xs h = sort-All after_key (λ x. P x.0) xs (keys-All P (sort after_key xs) h)

sorted_keys :
    (P : Text → Type 0) (xs : List (Text × RosterEntry))
    → All (λ (x : Text × RosterEntry). P x.0) xs
    → All P (keys_of (sort_by_key xs))
unfolding sort_by_key
sorted_keys P xs h = All-keys P (sort after_key xs) (All-sort after_key (λ x. P x.0) xs h)

sort_by_key-Ascends :
    (xs : List (Text × RosterEntry))
    → refuse_duplicates (sort_by_key xs) ≡ ok tt
    → Ascends (keys_of (sort_by_key xs))
sort_by_key-Ascends xs h = distinct-Ascends (sort_by_key xs) (sort_by_key-IsSorted xs) h

module _ (e : Ethers) where
  -- The keys of the tree, and where they come from.
  pub record IsListed (entries : List RosterEntry) (namespace : Text) (tree : RosterTree)
      : Type 0 where
    pub found : List Text
    pub keys : tree.keys ≡ min_key ∷ found ++ max_key ∷ []
    pub ascends : Ascends found
    pub lower : LowerHashes e → All (λ k. to_lower_case k ≡ k) found
    pub listed :
        (tk : Text)
        → All (λ k. k ≢ tk) found
        → All (λ (entry : RosterEntry). subject_key e entry.subject namespace ≢ ok tk) entries

  with_key-subject_key :
      (namespace : Text) (entry : RosterEntry)
      → Yields (λ p. subject_key e entry.subject namespace ≡ ok p.0) (with_key e namespace entry)
  unfolding with_key
  with_key-subject_key namespace entry =
      after (subject_key e entry.subject namespace) λ k h. returns h

  subject_key-lower :
      (subject namespace : Text)
      → LowerHashes e
      → Yields (λ k. to_lower_case k ≡ k) (subject_key e subject namespace)
  unfolding subject_key
  subject_key-lower subject namespace low = after (e.get_address subject) λ account _.
      after (e.abi_encode (string namespace ∷ address account ∷ []))
        λ encoded _. returns (low encoded)

  -- A text that is no key found is no entry's key.
  keyless :
      (tk namespace : Text) (entries : List RosterEntry)
      → Yields
          (λ found.
            All (λ (x : Text × RosterEntry). x.0 ≢ tk) found
            → All (λ (entry : RosterEntry). subject_key e entry.subject namespace ≢ ok tk) entries)
          (map_result (with_key e namespace) entries)
  keyless tk namespace [] = returns (λ _. tt)
  keyless tk namespace (entry ∷ entries) = after (with_key e namespace entry) λ x h.
      after (map_result (with_key e namespace) entries) λ xs q. returns λ apart. (
        (λ same.
            apart.0 (ok-injective (sym (yielded (with_key-subject_key namespace entry) h) ∙ same))),
        yielded (keyless tk namespace entries) q apart.1,
      )

  lower_keys :
      (namespace : Text) (entries : List RosterEntry)
      → LowerHashes e
      → Yields
          (All (λ (x : Text × RosterEntry). to_lower_case x.0 ≡ x.0))
          (map_result (with_key e namespace) entries)
  lower_keys namespace [] low = returns tt
  lower_keys namespace (entry ∷ entries) low = after (with_key e namespace entry) λ x h.
      after (map_result (with_key e namespace) entries) λ xs q. returns (
        yielded (subject_key-lower entry.subject namespace low)
            (yielded (with_key-subject_key namespace entry) h),
        yielded (lower_keys namespace entries low) q,
      )

  pub build_roster-IsListed :
      (entries : List RosterEntry) (namespace : Text)
      → Yields (IsListed entries namespace) (build_roster e entries namespace)
  unfolding build_roster
  build_roster-IsListed entries namespace =
      after (map_result (with_key e namespace) entries) λ unsorted u.
        let with_keys = sort_by_key unsorted in
        after (refuse_duplicates with_keys) λ _ distinct. after (refuse_sentinels with_keys) λ _ _.
          after (map_result (mark_hash e) (map (λ (x : Text × RosterEntry). x.1) with_keys))
            λ hashes _.
              let found = map (λ (x : Text × RosterEntry). x.0) with_keys in
              let keys = min_key ∷ found ++ max_key ∷ [] in
              after (leaves_of e keys (sentinel_mark ∷ hashes ++ sentinel_mark ∷ [])) λ leaves _.
                after (build_layers e (length leaves) leaves) λ layers _.
                  after (top_of layers) λ top _. after (roster_root e top (length leaves)) λ root _.
                    returns (record {
                      found = found;
                      keys = refl;
                      ascends = sort_by_key-Ascends unsorted distinct;
                      lower = λ low.
                          sorted_keys _ unsorted (yielded (lower_keys namespace entries low) u);
                      listed = λ tk apart.
                          yielded (keyless tk namespace entries) u
                            (unsorted_keys (λ k. k ≢ tk) unsorted apart);
                    })
