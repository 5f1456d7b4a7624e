-- ===== src/Roster/Built.antt =====
-- pipeline/roster.ts: what `buildRoster` returns: the layers over its leaves, and a leaf for each key.
use proofmark.Prelude.{
  suc, ◌+◌, ◌≤◌, ◌≡◌, refl, ap, sym, ◌∙◌, ok-injective, List, [], ◌∷◌, ◌++◌, map, arith, length,
  length-append, Result, ok, Yields, returns, after, yielded,
}
use mathlib.Core.Path.{subst}
use proofmark.Prelude.Text.{Text}
use proofmark.Ethers.{Ethers}
use proofmark.Roster.{
  RosterEntry, RosterTree, map_result, with_key, mark_hash, leaf_of, leaves_of, sort_by_key,
  refuse_duplicates, refuse_sentinels, build_layers, top_of, roster_root, build_roster, min_key,
  max_key, sentinel_mark,
}
use proofmark.Roster.Tower.{Tower, build_layers-IsTower}

-- Each key and its mark have their leaf at the same place.
abbrev pub Aligned : Ethers → List Text → List Text → List Text → Type 0
Aligned e [] [] [] = Unit
Aligned e (k ∷ ks) (m ∷ ms) (l ∷ ls) = (leaf_of e k m ≡ ok l) × Aligned e ks ms ls
Aligned e _ _ _ = ⊥

map_result-length {ℓ} :
    {A : Type ℓ} {B : Type 0} (f : A → Result B) (xs : List A)
    → Yields (λ ys. length ys ≡ length xs) (map_result f xs)
map_result-length f [] = returns refl
map_result-length f (x ∷ xs) =
    after (f x)
      λ y _. after (map_result f xs) λ ys q. returns (ap suc (yielded (map_result-length f xs) q))

pub length-map : {A B : Type 0} (f : A → B) (xs : List A) → length (map f xs) ≡ length xs
length-map f [] = refl
length-map f (x ∷ xs) = ap suc (length-map f xs)

pub framed-length : (a z : Text) (xs : List Text) → length (a ∷ xs ++ z ∷ []) ≡ length xs + 2
framed-length a z xs = omega (arith, length-append xs (z ∷ []))

pub same_lengths :
    (a z b y : Text) (with_keys : List (Text × RosterEntry)) (hashes : List Text)
    → length hashes ≡ length (map (λ (x : Text × RosterEntry). x.1) with_keys)
    → length (b ∷ hashes ++ y ∷ [])
      ≡ length (a ∷ map (λ (x : Text × RosterEntry). x.0) with_keys ++ z ∷ [])
same_lengths a z b y with_keys hashes h = omega (
  arith,
  framed-length a z (map (λ (x : Text × RosterEntry). x.0) with_keys),
  framed-length b y hashes,
  length-map (λ (x : Text × RosterEntry). x.0) with_keys,
  length-map (λ (x : Text × RosterEntry). x.1) with_keys,
)

module _ (e : Ethers) where
  pub leaves_of-Aligned :
      (keys marks : List Text)
      → length marks ≡ length keys
      → Yields (Aligned e keys marks) (leaves_of e keys marks)
  unfolding leaves_of
  leaves_of-Aligned (key ∷ keys) (mark ∷ marks) h = after (leaf_of e key mark) λ leaf p.
      after (leaves_of e keys marks)
        λ leaves q. returns (p, yielded (leaves_of-Aligned keys marks (omega arith)) q)
  leaves_of-Aligned [] [] h = returns tt
  leaves_of-Aligned [] (mark ∷ marks) h = absurd (omega arith)
  leaves_of-Aligned (key ∷ keys) [] h = absurd (omega arith)

  pub Aligned-length :
      (keys marks leaves : List Text)
      → Aligned e keys marks leaves
      → (length leaves ≡ length keys) × (length marks ≡ length keys)
  Aligned-length [] [] [] a = (refl, refl)
  Aligned-length (k ∷ ks) (m ∷ ms) (l ∷ ls) a =
      let r = Aligned-length ks ms ls a.1 in (ap suc r.0, ap suc r.1)
  Aligned-length [] [] (l ∷ ls) a = absurd a
  Aligned-length [] (m ∷ ms) ls a = absurd a
  Aligned-length (k ∷ ks) [] ls a = absurd a
  Aligned-length (k ∷ ks) (m ∷ ms) [] a = absurd a

  -- A tree as `buildRoster` makes it: its layers stand over its leaves, which are those of its keys and
  -- marks; the root binds the top and the number of leaves.
  pub record IsBuilt (tree : RosterTree) : Type 0 where
    pub top : Text
    pub tower : Tower e top tree.leaves tree.layers
    pub rooted : roster_root e top (length tree.leaves) ≡ ok tree.root
    pub plural : 2 ≤ length tree.leaves
    pub aligned : Aligned e tree.keys tree.marks tree.leaves

  pub build_roster-IsBuilt :
      (entries : List RosterEntry) (namespace : Text)
      → Yields IsBuilt (build_roster e entries namespace)
  unfolding build_roster
  build_roster-IsBuilt entries namespace =
      after (map_result (with_key e namespace) entries) λ unsorted _.
        let with_keys = sort_by_key unsorted in
        after (refuse_duplicates with_keys) λ _ _. after (refuse_sentinels with_keys) λ _ _.
          let sorted = map (λ (x : Text × RosterEntry). x.1) with_keys in
          let found = map (λ (x : Text × RosterEntry). x.0) with_keys in
          after (map_result (mark_hash e) sorted) λ hashes h.
            let keys = min_key ∷ found ++ max_key ∷ [] in
            let marks = sentinel_mark ∷ hashes ++ sentinel_mark ∷ [] in
            let same : length marks ≡ length keys =
              same_lengths min_key max_key sentinel_mark sentinel_mark with_keys hashes
                (yielded (map_result-length (mark_hash e) sorted) h) in
            after (leaves_of e keys marks) λ leaves q.
              let a = yielded (leaves_of-Aligned keys marks same) q in
              let two : 2 ≤ length leaves = omega (
                arith,
                (Aligned-length keys marks leaves a).0,
                framed-length min_key max_key found,
              ) in
              after (build_layers e (length leaves) leaves) λ layers b.
                let (t, tower, is_top) =
                  yielded (build_layers-IsTower e (length leaves) leaves (omega arith)) b in
                after (top_of layers) λ top d. after (roster_root e top (length leaves)) λ root r.
                  returns (record {
                    top = top;
                    tower =
                        subst (λ x. Tower e x leaves layers) (ok-injective (sym is_top ∙ d)) tower;
                    rooted = r;
                    plural = two;
                    aligned = a;
                  })
