-- ===== src/Roster/Absence.antt =====
-- pipeline/roster.ts: an accepted proof of absence shows that its subject is not among the entries.
use proofmark.Prelude.{
  ℕ, zero, suc, ◌+◌, ◌≡◌, ◌≢◌, refl, ap, sym, ◌∙◌, inl, inr, Bool, true, false, ◌&&◌, List, [], ◌∷◌,
  ◌++◌, Option, none, some, arith, Bool-cases, ◌==◌, if◌then◌else◌, length, All, All-append, Result,
  ok, throw, ◌>>=◌, >>=-eq-ok, ok-injective, yielded,
}
use mathlib.Core.Path.{subst}
use proofmark.Prelude.Text.{Text, text_lt, lower_unit, to_lower_case, to_lower_case_idem}
use proofmark.Ethers.{Ethers, PacksFields, LowerHashes}
use proofmark.Roster.{
  RosterEntry, RosterTree, element, leaf_of, subject_key, build_roster, min_key, max_key,
}
use proofmark.Roster.Proof.{
  InclusionProof, NonInclusionProof, canonical_bytes32, is_hex_word, verify_inclusion, verify_gap,
  verify_non_inclusion,
}
use proofmark.Roster.Built.{Aligned, build_roster-IsBuilt}
use proofmark.Roster.Listed.{build_roster-IsListed}
use proofmark.Roster.Gap.{gap}
use proofmark.Roster.Binding.{Unless, leaf_binds, leaf_lower}
use proofmark.Roster.Verify.{verify-binds}

canonical_bytes32-lower : (v k : Text) → canonical_bytes32 v ≡ some k → to_lower_case k ≡ k
unfolding canonical_bytes32
canonical_bytes32-lower v k h = elim (Bool-cases (is_hex_word v)) [
  | inr other ↦ absurd (ground arith)
  | inl word ↦ let q : to_lower_case v ≡ k = ground arith in rw (← q) (to_lower_case_idem v)
]

All-element :
    (P : Text → Type 0) (xs : List Text) (i : ℕ) (k : Text) → All P xs → element xs i ≡ ok k → P k
All-element P [] i k h at = absurd (ground arith)
All-element P (x ∷ xs) zero k h at = subst P (ok-injective at) h.0
All-element P (x ∷ xs) (suc i) k h at = All-element P xs i k h.1 at

framed_lower :
    (found : List Text)
    → All (λ x. to_lower_case x ≡ x) found
    → All (λ x. to_lower_case x ≡ x) (min_key ∷ found ++ max_key ∷ [])
unfolding min_key max_key to_lower_case lower_unit
framed_lower found h =
    (refl, All-append (λ x. to_lower_case x ≡ x) found (max_key ∷ []) h (refl, tt))

module _ (e : Ethers) where
  Aligned-at :
      (keys marks leaves : List Text) (i : ℕ) (own : Text)
      → Aligned e keys marks leaves
      → element leaves i ≡ ok own
      → (k : Text) × (m : Text) × (element keys i ≡ ok k) × (leaf_of e k m ≡ ok own)
  Aligned-at [] [] [] i own a at = absurd (ground arith)
  Aligned-at (k ∷ ks) (m ∷ ms) (l ∷ ls) zero own a at = (k, m, refl, a.0 ∙ at)
  Aligned-at (k ∷ ks) (m ∷ ms) (l ∷ ls) (suc i) own a at = Aligned-at ks ms ls i own a.1 at
  Aligned-at [] [] (l ∷ ls) i own a at = absurd a
  Aligned-at [] (m ∷ ms) ls i own a at = absurd a
  Aligned-at (k ∷ ks) [] ls i own a at = absurd a
  Aligned-at (k ∷ ks) (m ∷ ms) [] i own a at = absurd a

  -- One side of an accepted gap: its key stands in the tree.
  record Side (root key : Text) (proof : InclusionProof) : Type 0 where
    mark : Text
    leaf : Text
    hashed : leaf_of e key mark ≡ ok leaf
    accepted : verify_inclusion e root leaf proof ≡ ok true

  record Gap (root target namespace : Text) (proof : NonInclusionProof) : Type 0 where
    tk : Text
    target_key : subject_key e target namespace ≡ ok tk
    left_key : Text
    right_key : Text
    left_lower : to_lower_case left_key ≡ left_key
    right_lower : to_lower_case right_key ≡ right_key
    over : text_lt left_key tk ≡ true
    under : text_lt tk right_key ≡ true
    adjacent : proof.right.index ≡ suc proof.left.index
    left : Side root left_key proof.left
    right : Side root right_key proof.right

  both :
      (m n : Result Bool)
      → (m >>= λ b. if b then n else ok false) ≡ ok true
      → (m ≡ ok true) × (n ≡ ok true)
  both (ok true) n h = (refl, h)
  both (ok false) n h = absurd (ground arith)
  both (throw _) n h = absurd (ground arith)

  open-Gap :
      (root target namespace tk : Text) (proof : NonInclusionProof) (l r : Option Text)
      → subject_key e target namespace ≡ ok tk
      → canonical_bytes32 proof.left_key ≡ l
      → canonical_bytes32 proof.right_key ≡ r
      → verify_gap e root tk proof l r ≡ ok true
      → Gap root target namespace proof
  open-Gap root target namespace tk proof none r t cl cr h = absurd (ground arith)
  open-Gap root target namespace tk proof (some a) none t cl cr h = absurd (ground arith)
  open-Gap root target namespace tk proof (some a) (some b) t cl cr h =
      elim (Bool-cases (
        text_lt a tk
        && text_lt tk b
        && proof.right.index == proof.left.index + 1
        && proof.left.leaf_count == proof.right.leaf_count
        && length proof.left.siblings == length proof.right.siblings)) [
          | inr other ↦ absurd (ground arith)
          | inl fits ↦
              let (left_leaf, p, h₁) = >>=-eq-ok (leaf_of e a proof.left_mark) _ (rw fits at h) in
              let (right_leaf, q, h₂) = >>=-eq-ok (leaf_of e b proof.right_mark) _ h₁ in
              let (left_in, right_in) =
                both (verify_inclusion e root left_leaf proof.left)
                  (verify_inclusion e root right_leaf proof.right) h₂ in
              record {
                tk = tk;
                target_key = t;
                left_key = a;
                right_key = b;
                left_lower = canonical_bytes32-lower proof.left_key a cl;
                right_lower = canonical_bytes32-lower proof.right_key b cr;
                over = ground arith;
                under = ground arith;
                adjacent = ground arith;
                left = record {
                  mark = proof.left_mark;
                  leaf = left_leaf;
                  hashed = p;
                  accepted = left_in;
                };
                right = record {
                  mark = proof.right_mark;
                  leaf = right_leaf;
                  hashed = q;
                  accepted = right_in;
                };
              }
        ]

  verify_non_inclusion-Gap :
      (root target namespace : Text) (proof : NonInclusionProof)
      → verify_non_inclusion e root target proof namespace ≡ ok true
      → Gap root target namespace proof
  unfolding verify_non_inclusion
  verify_non_inclusion-Gap root target namespace proof h =
      let (tk, t, g) = >>=-eq-ok (subject_key e target namespace) _ h in
      open-Gap root target namespace tk proof (canonical_bytes32 proof.left_key)
        (canonical_bytes32 proof.right_key) t refl refl g

  module _ (law : PacksFields e) (low : LowerHashes e) where
    -- The key of a side stands among the keys, at the position of its proof.
    Side-key :
        {tree : RosterTree} (entries : List RosterEntry) (namespace key : Text)
        (proof : InclusionProof)
        → build_roster e entries namespace ≡ ok tree
        → to_lower_case key ≡ key
        → Side tree.root key proof
        → Unless e (element tree.keys proof.index ≡ ok key)
    Side-key {tree} entries namespace key proof built lower s =
        let b = yielded (build_roster-IsBuilt e entries namespace) built in
        let i = yielded (build_roster-IsListed e entries namespace) built in
        elim (verify-binds e law low entries namespace s.leaf proof built s.accepted) [
          | inr collision ↦ inr collision
          | inl (_, own, at, same) ↦
              let (k, m, key_at, hashed) =
                Aligned-at tree.keys tree.marks tree.leaves proof.index own b.aligned at in
              let one : s.leaf ≡ own =
                sym (leaf_lower e law low key s.mark s.leaf s.hashed)
                ∙ same
                ∙ leaf_lower e law low k m own hashed in
              let k_lower : to_lower_case k ≡ k =
                All-element (λ x. to_lower_case x ≡ x) tree.keys proof.index k
                  (subst (All (λ x. to_lower_case x ≡ x)) (sym i.keys)
                    (framed_lower i.found (i.lower low)))
                  key_at in
              elim (leaf_binds e law low key s.mark k m own (s.hashed ∙ ap ok one) hashed) [
                | inr collision ↦ inr collision
                | inl (same_key, _) ↦ inl (key_at ∙ ap ok (sym k_lower ∙ sym same_key ∙ lower))
              ]
        ]

    -- A proof of absence that `verifyNonInclusion` accepts under the root of a built roster shows that
    -- the subject key of the target is that of no entry, unless two texts have one hash.
    pub verify_non_inclusion-absent :
        {tree : RosterTree} (entries : List RosterEntry) (namespace target : Text)
        (proof : NonInclusionProof)
        → build_roster e entries namespace ≡ ok tree
        → verify_non_inclusion e tree.root target proof namespace ≡ ok true
        → Unless e (
            All
              (λ (entry : RosterEntry).
                subject_key e entry.subject namespace ≢ subject_key e target namespace)
              entries)
    verify_non_inclusion-absent {tree} entries namespace target proof built h =
        let g = verify_non_inclusion-Gap tree.root target namespace proof h in
        let i = yielded (build_roster-IsListed e entries namespace) built in
        elim (Side-key entries namespace g.left_key proof.left built g.left_lower g.left) [
          | inr collision ↦ inr collision
          | inl left ↦
              elim (Side-key entries namespace g.right_key proof.right built g.right_lower
                g.right) [
                  | inr collision ↦ inr collision
                  | inl right ↦ inl (
                      rw g.target_key (
                        i.listed g.tk (
                          gap g.tk g.left_key g.right_key i.found proof.left.index i.ascends
                            (rw i.keys at left) (rw (i.keys, g.adjacent) at right) g.over g.under)))
                ]
        ]
