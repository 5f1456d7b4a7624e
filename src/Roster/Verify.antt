-- ===== src/Roster/Verify.antt =====
-- pipeline/roster.ts: the proof of every leaf of a built roster is accepted, and an accepted proof is one
-- of a leaf of the roster, at its own position.
use proofmark.Prelude.{
  ℕ, ◌^◌, ◌≤◌, ◌<◌, ◌≡◌, refl, ap, sym, ◌∙◌, inl, inr, true, ◌&&◌, List, Option, none, some, arith,
  Bool-cases, leb, ltb, ◌==◌, is_safe_integer, length, ok, >>=-eq-ok, ok-injective, yielded,
}
use proofmark.Prelude.Text.{Text, text_eq, text_eq_iff, text_eq_refl, to_lower_case}
use proofmark.Ethers.{Ethers, PacksFields, LowerHashes}
use proofmark.Roster.{RosterEntry, RosterTree, element, roster_root, build_roster}
use proofmark.Roster.Proof.{
  InclusionProof, Climb, climb, inclusion_proof, verify_inclusion, reaches_root,
}
use proofmark.Roster.Built.{IsBuilt, build_roster-IsBuilt}
use proofmark.Roster.Inclusion.{route}
use proofmark.Roster.Binding.{Unless, Same, root_binds, root_lower, climb-binds}

-- The leaf is the one that stands in the tree at the position of the proof.
abbrev pub Stands : RosterTree → Text → InclusionProof → Type 0
Stands tree leaf proof =
    (proof.leaf_count ≡ length tree.leaves)
    × (own : Text) × (element tree.leaves proof.index ≡ ok own)
    × Same leaf own

module _ (e : Ethers) where
  -- `reaches_root` at the top of a built tree.
  top_reaches :
      {tree : RosterTree} (b : IsBuilt e tree)
      → reaches_root e tree.root
          (length tree.leaves)
          (some (record { acc = b.top; idx = 0; width = 1 }))
        ≡ ok true
  unfolding reaches_root
  top_reaches {tree} b = rw (b.rooted, text_eq_refl (to_lower_case tree.root))

  -- Every leaf of a built roster of at most 2^32 leaves has a proof, and `verifyInclusion` accepts it
  -- for that leaf under the root of the tree.
  pub prove-verify :
      {tree : RosterTree} (entries : List RosterEntry) (namespace : Text) (idx : ℕ)
      → build_roster e entries namespace ≡ ok tree
      → length tree.leaves ≤ 2 ^ 32
      → idx < length tree.leaves
      → (proof : InclusionProof) × (leaf : Text) × (inclusion_proof tree idx ≡ ok proof)
        × (element tree.leaves idx ≡ ok leaf)
        × (verify_inclusion e tree.root leaf proof ≡ ok true)
  unfolding inclusion_proof verify_inclusion is_safe_integer
  prove-verify {tree} entries namespace idx built few l =
      let b = yielded (build_roster-IsBuilt e entries namespace) built in
      let r = route e b.tower idx l in
      let short : length r.siblings ≤ 32 = r.short 32 few in
      let n = length tree.leaves in
      let sent : (is_safe_integer idx && ltb idx n) ≡ true = ground arith in
      let taken : (is_safe_integer idx
            && is_safe_integer n
            && leb 2 n
            && ltb idx n
            && leb (length r.siblings) 256)
          ≡ true =
        ground (arith, b.plural) in
      (
        record { index = idx; leaf_count = n; siblings = r.siblings },
        r.leaf,
        rw (sent, r.sent),
        r.leaf_at,
        rw (taken, r.climbed) (top_reaches b),
      )

  -- What `verifyInclusion` has seen when it answers `true`.
  record Seen (root leaf : Text) (proof : InclusionProof) : Type 0 where
    inside : proof.index < proof.leaf_count
    reached : Climb
    climbed :
        climb e proof.siblings
          (some (record { acc = leaf; idx = proof.index; width = proof.leaf_count }))
        ≡ ok (some reached)
    narrow : reached.width ≡ 1
    found : Text
    hashed : roster_root e reached.acc proof.leaf_count ≡ ok found
    same : Same found root

  reaches_root-true :
      (root : Text) (n : ℕ) (r : Option Climb)
      → reaches_root e root n r ≡ ok true
      → (c : Climb) × (found : Text) × (r ≡ some c)
        × (c.width ≡ 1)
        × (roster_root e c.acc n ≡ ok found)
        × Same found root
  unfolding reaches_root
  reaches_root-true root n none h = absurd (ground arith)
  reaches_root-true root n (some c) h = elim (Bool-cases (c.width == 1 && c.idx == 0)) [
    | inr other ↦ absurd (ground arith)
    | inl at_top ↦
        let (found, p, q) =
          >>=-eq-ok (roster_root e c.acc n)
            (λ x. ok (text_eq (to_lower_case x) (to_lower_case root))) (rw at_top at h) in
        (c, found, refl, ground arith, p, (text_eq_iff _ _).0 (ok-injective q))
  ]

  seen :
      (root leaf : Text) (proof : InclusionProof)
      → verify_inclusion e root leaf proof ≡ ok true
      → Seen root leaf proof
  unfolding verify_inclusion
  seen root leaf proof h =
      elim (Bool-cases (
        is_safe_integer proof.index
        && is_safe_integer proof.leaf_count
        && leb 2 proof.leaf_count
        && ltb proof.index proof.leaf_count
        && leb (length proof.siblings) 256)) [
          | inr other ↦ absurd (ground arith)
          | inl fits ↦
              let start : Climb = record {
                acc = leaf;
                idx = proof.index;
                width = proof.leaf_count;
              } in
              let (r, p, q) =
                >>=-eq-ok (climb e proof.siblings (some start))
                  (reaches_root e root proof.leaf_count) (rw fits at h) in
              let (c, found, here, narrow, hashed, same) =
                reaches_root-true root proof.leaf_count r q in
              record {
                inside = ground arith;
                reached = c;
                climbed = p ∙ ap ok here;
                narrow = narrow;
                found = found;
                hashed = hashed;
                same = same;
              }
        ]

  module _ (law : PacksFields e) (low : LowerHashes e) where
    at_own :
        {tree : RosterTree} (leaf : Text) (proof : InclusionProof) (b : IsBuilt e tree)
        (s : Seen tree.root leaf proof)
        → proof.leaf_count ≡ length tree.leaves
        → Same s.reached.acc b.top
        → Unless e (Stands tree leaf proof)
    at_own {tree} leaf proof b s counted top =
        let l : proof.index < length tree.leaves = omega (arith, s.inside, counted) in
        let own = route e b.tower proof.index l in
        let climbed = rw counted at s.climbed in
        elim (climb-binds e law low b.tower proof.siblings leaf own.leaf proof.index s.reached l
          own.leaf_at climbed s.narrow top) [
            | inr collision ↦ inr collision
            | inl same ↦ inl (counted, own.leaf, own.leaf_at, same)
          ]

    Seen-Stands :
        {tree : RosterTree} (leaf : Text) (proof : InclusionProof)
        → IsBuilt e tree
        → Seen tree.root leaf proof
        → Unless e (Stands tree leaf proof)
    Seen-Stands {tree} leaf proof b s =
        let own : s.found ≡ tree.root =
          sym (root_lower e law low s.reached.acc proof.leaf_count s.found s.hashed)
          ∙ s.same
          ∙ root_lower e law low b.top (length tree.leaves) tree.root b.rooted in
        elim (root_binds e law low s.reached.acc b.top proof.leaf_count (length tree.leaves)
          tree.root (s.hashed ∙ ap ok own) b.rooted) [
            | inr collision ↦ inr collision
            | inl (counted, top) ↦ at_own leaf proof b s counted top
          ]

    -- An accepted proof is of the leaf that stands at its position in the built roster, up to the case of
    -- hexadecimal digits, and it has the right number of leaves, unless two texts have one hash.
    pub verify-binds :
        {tree : RosterTree} (entries : List RosterEntry) (namespace leaf : Text)
        (proof : InclusionProof)
        → build_roster e entries namespace ≡ ok tree
        → verify_inclusion e tree.root leaf proof ≡ ok true
        → Unless e (Stands tree leaf proof)
    verify-binds {tree} entries namespace leaf proof built h =
        Seen-Stands leaf proof (yielded (build_roster-IsBuilt e entries namespace) built)
          (seen tree.root leaf proof h)
