-- ===== src/Merkle/Steps.antt =====
-- pipeline/merkle.ts: one level of the tree, and what its neighbours prove of the level above.
use proofmark.Prelude.{
  ℕ, zero, suc, ◌+◌, ◌/◌, ◌≡◌, refl, sym, ap, ◌⊎◌, inl, inr, true, false, some, List, [], ◌∷◌,
  length, get_elem?, All, arith, Bool-cases, ok, ◌>>=◌, >>=-eq-ok, ok-injective,
}
use proofmark.Prelude.Text.{
  Text, text_eq, text_eq_iff, text_lt, text_lt_irrefl, text_lt_trans, text_lt_total, to_lower_case,
}
use proofmark.Roster.Hashes.{IsWord}
use proofmark.Roster.Proof.{pair_index}
use proofmark.Merkle.{PairHash, pushed, siblings, hash_pair, next_level, fold_proof}

-- Hashes are words of 32 bytes, and `concat` accepts words and reads them without regard to case.
pub record ConcatsWords (e : PairHash) : Type 0 where
  pub hashed : (t : Text) → IsWord (e.keccak256 t)
  pub joined : (a b : Text) → IsWord a → IsWord b → (p : Text) × (e.concat a b ≡ ok p)
  pub lowered :
      (a b c d : Text)
      → to_lower_case a ≡ to_lower_case c
      → to_lower_case b ≡ to_lower_case d
      → e.concat a b ≡ e.concat c d

text_lt_asym : (a b : Text) → text_lt a b ≡ true → text_lt b a ≡ false
text_lt_asym a b h = elim (Bool-cases (text_lt b a)) [
  | inl k ↦ absurd (ground (arith, text_lt_trans a b a h k, text_lt_irrefl a))
  | inr k ↦ k
]

pair_index-suc : (i : ℕ) → pair_index (suc (suc i)) ≡ suc (suc (pair_index i))
pair_index-suc i = ground arith

half_suc : (i : ℕ) → suc (suc i) / 2 ≡ suc (i / 2)
half_suc i = omega arith

siblings_suc :
    (a b : Text) (level : List Text) (i : ℕ)
    → siblings (a ∷ b ∷ level) (suc (suc i)) ≡ siblings level i
unfolding siblings
siblings_suc a b level i = ap (λ j. pushed (get_elem? (a ∷ b ∷ level) j)) (pair_index-suc i)

module _ (e : PairHash) (law : ConcatsWords e) where
  hash_pair_comm : (a b : Text) → hash_pair e a b ≡ hash_pair e b a
  unfolding hash_pair
  hash_pair_comm a b = elim (Bool-cases (text_lt (to_lower_case b) (to_lower_case a))) [
    | inl h ↦ rw (h, text_lt_asym _ _ h) refl
    | inr h ↦ elim (Bool-cases (text_lt (to_lower_case a) (to_lower_case b))) [
      | inl k ↦ rw (h, k) refl
      | inr k ↦
          let same : to_lower_case a ≡ to_lower_case b =
            equal (Bool-cases (text_eq (to_lower_case a) (to_lower_case b))) h k in
          rw (h, k, law.lowered a b b a same (sym same)) refl
    ]
  ]
    where
      equal :
          (text_eq (to_lower_case a) (to_lower_case b) ≡ true)
            ⊎ (text_eq (to_lower_case a) (to_lower_case b) ≡ false)
          → text_lt (to_lower_case b) (to_lower_case a) ≡ false
          → text_lt (to_lower_case a) (to_lower_case b) ≡ false
          → to_lower_case a ≡ to_lower_case b
      equal (inl q) h k = (text_eq_iff _ _).0 q
      equal (inr n) h k = absurd (ground (arith, text_lt_total _ _ n h, k))

  hash_pair-total :
      (a b : Text) → IsWord a → IsWord b → (h : Text) × (hash_pair e a b ≡ ok h) × IsWord h
  unfolding hash_pair
  hash_pair-total a b v w = elim (Bool-cases (text_lt (to_lower_case b) (to_lower_case a))) [
    | inl h ↦ let (p, q) = law.joined b a w v in (e.keccak256 p, rw (h, q) refl, law.hashed p)
    | inr h ↦ let (p, q) = law.joined a b v w in (e.keccak256 p, rw (h, q) refl, law.hashed p)
  ]

  pub next_level-total :
      (level : List Text)
      → All IsWord level
      → (next : List Text) × (next_level e level ≡ ok next)
        × All IsWord next
        × (length next ≡ (length level + 1) / 2)
  unfolding next_level
  next_level-total [] h = ([], refl, tt, omega arith)
  next_level-total (a ∷ []) h = (a ∷ [], refl, h, omega arith)
  next_level-total (a ∷ b ∷ level) h =
      let (p, q, w) = hash_pair-total a b h.0 h.1.0 in
      let (rest, r, ws, n) = next_level-total level h.1.1 in
      (p ∷ rest, rw (q, r) refl, (w, ws), omega (arith, n))

  next_level-parts :
      (a b : Text) (level next : List Text)
      → next_level e (a ∷ b ∷ level) ≡ ok next
      → (p : Text) × (rest : List Text) × (hash_pair e a b ≡ ok p)
        × (next_level e level ≡ ok rest)
        × (p ∷ rest ≡ next)
  unfolding next_level
  next_level-parts a b level next h =
      let first =
        >>=-eq-ok (hash_pair e a b) (λ p. next_level e level >>= λ rest. ok (p ∷ rest)) h in
      let second = >>=-eq-ok (next_level e level) (λ rest. ok (first.0 ∷ rest)) first.2 in
      (first.0, second.0, first.1, second.1, ok-injective second.2)

  -- The element above the one at `idx`, which the neighbour gives.
  pub siblings-climb :
      (level next : List Text) (idx : ℕ) (x : Text)
      → get_elem? level idx ≡ some x
      → next_level e level ≡ ok next
      → (y : Text) × (get_elem? next (idx / 2) ≡ some y)
        × (fold_proof e x (siblings level idx) ≡ ok y)
  unfolding siblings fold_proof next_level
  siblings-climb [] next idx x h n = absurd (ground arith)
  siblings-climb (a ∷ []) next zero x h n =
      let whole : a ∷ [] ≡ next = single n in (x, rw (← whole) h, refl)
    where
      single : next_level e (a ∷ []) ≡ ok next → a ∷ [] ≡ next
      single n = ok-injective n
  siblings-climb (a ∷ []) next (suc idx) x h n = absurd (ground arith)
  siblings-climb (a ∷ b ∷ level) next zero x h n =
      let (p, rest, q, r, whole) = next_level-parts a b level next n in
      let own : a ≡ x = ground arith in (p, rw (← whole) refl, rw (← own, q) refl)
  siblings-climb (a ∷ b ∷ level) next (suc zero) x h n =
      let (p, rest, q, r, whole) = next_level-parts a b level next n in
      let own : b ≡ x = ground arith in
      (p, rw (← whole) refl, rw (← own, hash_pair_comm b a, q) refl)
  siblings-climb (a ∷ b ∷ level) next (suc (suc i)) x h n =
      let (p, rest, q, r, whole) = next_level-parts a b level next n in
      let (y, at_half, climbs) = siblings-climb level rest i x h r in
      (y, rw (← whole, half_suc i) at_half, rw (siblings_suc a b level i) climbs)
