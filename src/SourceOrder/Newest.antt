-- ===== src/SourceOrder/Newest.antt =====
-- pipeline/source-order.ts: `newestPerSubject` keeps for each subject one of its events, none newer.
use proofmark.Prelude.{
  String, true, false, ◌≡◌, refl, ap, ◌∙◌, ◌⊎◌, inl, inr, Option, none, some, List, [], ◌∷◌, arith,
  Bool-cases, if◌then◌else◌, str_eq, str_eq_iff, All,
}
use proofmark.Prelude.Dict.{Dict, lookup, lookup-insert}
use proofmark.SourceOrder.{Event, is_newer, replaces, place, place_all, newest_per_subject}

module _ {T : Type 0} (e : Event T) where
  -- The event is in the list.
  abbrev pub Among : T → List T → Type 0
  Among c [] = ⊥
  Among c (x ∷ xs) = (x ≡ c) ⊎ Among c xs

  -- What the loop makes of the entry of one subject.
  abbrev improved : T → Option T → Option T
  improved x o = if replaces e x o then some x else o

  abbrev best : String → List T → Option T → Option T
  best s [] o = o
  best s (x ∷ xs) o = best s xs (if str_eq (e.subject x) s then improved x o else o)

  place-lookup :
      (s : String) (x : T) (m : Dict T)
      → lookup s (place e x m)
        ≡ (if str_eq (e.subject x) s then improved x (lookup s m) else lookup s m)
  unfolding place
  place-lookup s x m = elim (Bool-cases (str_eq (e.subject x) s)) [
    | inl same ↦
        let q : e.subject x ≡ s = ground (arith, str_eq_iff (e.subject x) s) in
        elim (Bool-cases (replaces e x (lookup s m))) [
          | inl newer ↦
              rw (q, newer, lookup-insert s s x m, str_eq_iff s s) (ground (arith, str_eq_iff s s))
          | inr older ↦ rw (q, older) (ground (arith, str_eq_iff s s))
        ]
    | inr other ↦ elim (Bool-cases (replaces e x (lookup (e.subject x) m))) [
      | inl newer ↦ rw (newer, lookup-insert (e.subject x) s x m, other) refl
      | inr older ↦ rw (older, other) refl
    ]
  ]

  place_all-best :
      (s : String) (xs : List T) (m : Dict T) → lookup s (place_all e xs m) ≡ best s xs (lookup s m)
  unfolding place_all
  place_all-best s [] m = refl
  place_all-best s (x ∷ xs) m =
      place_all-best s xs (place e x m) ∙ ap (best s xs) (place-lookup s x m)

  -- No event of the subject, or one of them than which none is newer.
  abbrev pub IsNewest : String → List T → Option T → Type 0
  IsNewest s xs none = All (λ x. str_eq (e.subject x) s ≡ false) xs
  IsNewest s xs (some c) =
      Among c xs
      × (e.subject c ≡ s)
      × All (λ x. str_eq (e.subject x) s ≡ true → is_newer e x c ≡ false) xs

  -- The entry `c` that the loop leaves where it found `p`.
  record Improves (s : String) (xs : List T) (p c : T) : Type 0 where
    origin : (p ≡ c) ⊎ Among c xs
    subject : e.subject c ≡ s
    not_older : is_newer e p c ≡ false
    newest : All (λ x. str_eq (e.subject x) s ≡ true → is_newer e x c ≡ false) xs

  is_newer_trans :
      (a b c : T) → is_newer e a b ≡ false → is_newer e b c ≡ false → is_newer e a c ≡ false
  is_newer_trans a b c h k = ground arith

  is_newer_asym : (a b : T) → is_newer e a b ≡ true → is_newer e b a ≡ false
  is_newer_asym a b h = ground arith

  later : (p c x : T) (xs : List T) → (p ≡ c) ⊎ Among c xs → (p ≡ c) ⊎ ((x ≡ c) ⊎ Among c xs)
  later p c x xs (inl q) = inl q
  later p c x xs (inr a) = inr (inr a)

  best-Improves :
      (s : String) (xs : List T) (p : T)
      → e.subject p ≡ s
      → (c : T) × (best s xs (some p) ≡ some c) × Improves s xs p c
  best-Improves s [] p q =
      (p, refl, record { origin = inl refl; subject = q; not_older = ground arith; newest = tt })
  best-Improves s (x ∷ xs) p q = elim (Bool-cases (str_eq (e.subject x) s)) [
    | inr other ↦
        let (c, b, i) = best-Improves s xs p q in
        (
          c,
          rw other b,
          record {
            origin = later p c x xs i.origin;
            subject = i.subject;
            not_older = i.not_older;
            newest = ((λ h. absurd (ground arith)), i.newest);
          },
        )
    | inl same ↦ elim (Bool-cases (is_newer e x p)) [
      | inr older ↦
          let (c, b, i) = best-Improves s xs p q in
          (
            c,
            rw (same, older) b,
            record {
              origin = later p c x xs i.origin;
              subject = i.subject;
              not_older = i.not_older;
              newest = ((λ _. is_newer_trans x p c older i.not_older), i.newest);
            },
          )
      | inl newer ↦
          let (c, b, i) = best-Improves s xs x ((str_eq_iff (e.subject x) s).0 same) in
          (
            c,
            rw (same, newer) b,
            record {
              origin = inr i.origin;
              subject = i.subject;
              not_older = is_newer_trans p x c (is_newer_asym x p newer) i.not_older;
              newest = ((λ _. i.not_older), i.newest);
            },
          )
    ]
  ]

  later-IsNewest :
      (s : String) (x : T) (xs : List T) (o : Option T)
      → str_eq (e.subject x) s ≡ false
      → IsNewest s xs o
      → IsNewest s (x ∷ xs) o
  later-IsNewest s x xs none other h = (other, h)
  later-IsNewest s x xs (some c) other h = (inr h.0, h.1, ((λ same. absurd (ground arith)), h.2))

  best-IsNewest : (s : String) (xs : List T) → IsNewest s xs (best s xs none)
  best-IsNewest s [] = tt
  best-IsNewest s (x ∷ xs) = elim (Bool-cases (str_eq (e.subject x) s)) [
    | inr other ↦ rw other (later-IsNewest s x xs (best s xs none) other (best-IsNewest s xs))
    | inl same ↦
        let (c, b, i) = best-Improves s xs x ((str_eq_iff (e.subject x) s).0 same) in
        rw (same, b) (i.origin, i.subject, ((λ _. i.not_older), i.newest))
  ]

  -- For every subject, `newestPerSubject` has no entry exactly if it has no event, and otherwise one of
  -- the subject's own events, than which no event of the subject is newer.
  pub newest_per_subject-IsNewest :
      (all : List T) (s : String) → IsNewest s all (lookup s (newest_per_subject e all))
  unfolding newest_per_subject lookup
  newest_per_subject-IsNewest all s = rw (place_all-best s all []) (best-IsNewest s all)
