-- ===== src/Prelude/Dict.antt =====
-- `Record<string, V>`: its entries in the order of insertion, which is the order of `Object.values`.
use proofmark.Prelude.Tests.{str_eq, str_eq_iff, str_eq_refl, if◌then◌else◌, Bool-cases}
use proofmark.Prelude.Lists.{filter, All}
use Prim.Native.String.{String}
use mathlib.Core.Bool.{Bool}
use mathlib.Core.Path.{◌≡◌, refl, subst₂}
use mathlib.Core.Logic.{◌≢◌, inl, inr}
use mathlib.Core.List.{List, [], ◌∷◌, map}
use mathlib.Core.Option.{Option, none, some}
use native.Mathlib.Omega.{arith}

abbrev pub Dict {ℓ} : Type ℓ → Type ℓ
Dict V = List (String × V)

module _ {ℓ} {V : Type ℓ} where
  -- `m[k]`
  unfoldable pub lookup : String → Dict V → Option V
  lookup k [] = none
  lookup k ((j, v) ∷ m) = if str_eq j k then some v else lookup k m

  -- `m[k] = v`
  unfoldable pub insert : String → V → Dict V → Dict V
  insert k v [] = (k, v) ∷ []
  insert k v ((j, w) ∷ m) = if str_eq j k then (j, v) ∷ m else (j, w) ∷ insert k v m

  -- `delete m[k]`
  unfoldable pub remove : String → Dict V → Dict V
  remove k [] = []
  remove k ((j, w) ∷ m) = let rest = remove k m in if str_eq j k then rest else (j, w) ∷ rest

  -- `Object.values(m)`
  unfoldable pub values : Dict V → List V
  values = map (λ e. e.1)

  pub lookup-insert :
      (k j : String) (v : V) (m : Dict V)
      → lookup j (insert k v m) ≡ (if str_eq k j then some v else lookup j m)
  unfolding lookup insert
  lookup-insert k j v [] = refl
  lookup-insert k j v ((i, w) ∷ m) =
      ground (arith, str_eq_iff k j, str_eq_iff i k, str_eq_iff i j, lookup-insert k j v m)

  pub lookup-insert_self : (k : String) (v : V) (m : Dict V) → lookup k (insert k v m) ≡ some v
  lookup-insert_self k v m = ground (arith, lookup-insert k k v m, str_eq_iff k k)

  pub lookup-insert_ne :
      (k j : String) (v : V) (m : Dict V) → k ≢ j → lookup j (insert k v m) ≡ lookup j m
  lookup-insert_ne k j v m h = ground (arith, lookup-insert k j v m, str_eq_iff k j)

  pub lookup-remove :
      (k j : String) (m : Dict V)
      → lookup j (remove k m) ≡ (if str_eq k j then none else lookup j m)
  unfolding lookup remove
  lookup-remove k j [] = ground arith
  lookup-remove k j ((i, w) ∷ m) =
      ground (arith, str_eq_iff k j, str_eq_iff i k, str_eq_iff i j, lookup-remove k j m)

  -- Every key stands once, as in any JavaScript object.
  abbrev pub IsUnique : Dict V → Type ℓ
  IsUnique [] = Unit
  IsUnique ((k, v) ∷ m) = (lookup k m ≡ none) × IsUnique m

  pub insert-IsUnique : (k : String) (v : V) (m : Dict V) → IsUnique m → IsUnique (insert k v m)
  unfolding insert lookup
  insert-IsUnique k v [] u = (refl, tt)
  insert-IsUnique k v ((j, w) ∷ m) u =
      ground
        (arith, str_eq_iff j k, str_eq_iff k j, lookup-insert k j v m, insert-IsUnique k v m u.1)

  pub remove-IsUnique : (k : String) (m : Dict V) → IsUnique m → IsUnique (remove k m)
  unfolding remove lookup
  remove-IsUnique k [] u = tt
  remove-IsUnique k ((j, w) ∷ m) u =
      ground (arith, str_eq_iff j k, str_eq_iff k j, lookup-remove k j m, remove-IsUnique k m u.1)

  pub lookup-filter-none :
      (k : String) (p : String × V → Bool) (m : Dict V)
      → lookup k m ≡ none
      → lookup k (filter p m) ≡ none
  unfolding lookup filter
  lookup-filter-none k p [] h = refl
  lookup-filter-none k p ((j, v) ∷ m) h = elim (Bool-cases (str_eq j k)) [
    | inl e ↦ absurd (ground (arith, rw e at h))
    | inr e ↦ elim (Bool-cases (p (j, v))) [
      | inl y ↦ rw (y, e) (lookup-filter-none k p m (rw e at h))
      | inr n ↦ rw n (lookup-filter-none k p m (rw e at h))
    ]
  ]

  pub filter-IsUnique : (p : String × V → Bool) (m : Dict V) → IsUnique m → IsUnique (filter p m)
  unfolding filter
  filter-IsUnique p [] u = tt
  filter-IsUnique p ((j, v) ∷ m) u = elim (Bool-cases (p (j, v))) [
    | inl y ↦ rw y (lookup-filter-none j p m u.0, filter-IsUnique p m u.1)
    | inr n ↦ rw n (filter-IsUnique p m u.1)
  ]

  -- What a filter keeps was there.
  pub lookup-filter :
      (k : String) (p : String × V → Bool) (m : Dict V) {v : V}
      → IsUnique m
      → lookup k (filter p m) ≡ some v
      → lookup k m ≡ some v
  unfolding lookup filter
  lookup-filter k p [] u h = h
  lookup-filter k p ((j, w) ∷ m) {v = v} u h =
      let rest : lookup k (filter p m) ≡ some v → lookup k m ≡ some v =
        lookup-filter k p m {v = v} u.1 in
      elim (Bool-cases (p (j, w))) [
        | inl y ↦ ground (arith, rest, rw y at h)
        | inr n ↦ ground (arith, rest, rw n at h, str_eq_iff j k, lookup-filter-none j p m u.0)
      ]

  -- What holds of everything that is found holds of all values.
  pub values-All {κ} :
      (P : V → Type κ) (m : Dict V)
      → IsUnique m
      → ((k : String) (v : V) → lookup k m ≡ some v → P v)
      → All P (values m)
  unfolding values lookup
  values-All P [] u h = tt
  values-All P ((k, v) ∷ m) u h = (
    h k v (rw (str_eq_refl k) refl),
    values-All P m u.1 λ j w found. h j w (ground (arith, str_eq_iff k j, u.0)),
  )

  module _ {κ} (P : String → V → Type κ) where
    -- `P` holds of every entry.
    abbrev pub AllEntries : Dict V → Type κ
    AllEntries [] = Unit
    AllEntries ((k, v) ∷ m) = P k v × AllEntries m

    pub AllEntries-insert :
        (k : String) (v : V) (m : Dict V) → P k v → AllEntries m → AllEntries (insert k v m)
    unfolding insert
    AllEntries-insert k v [] p h = (p, tt)
    AllEntries-insert k v ((j, w) ∷ m) p h = elim (Bool-cases (str_eq j k)) [
      | inl e ↦ rw e (rw (← (str_eq_iff j k).0 e) at p, h.1)
      | inr e ↦ rw e (h.0, AllEntries-insert k v m p h.1)
    ]

    pub AllEntries-remove : (k : String) (m : Dict V) → AllEntries m → AllEntries (remove k m)
    unfolding remove
    AllEntries-remove k [] h = tt
    AllEntries-remove k ((j, w) ∷ m) h = elim (Bool-cases (str_eq j k)) [
      | inl e ↦ rw e (AllEntries-remove k m h.1)
      | inr e ↦ rw e (h.0, AllEntries-remove k m h.1)
    ]

    pub AllEntries-lookup :
        (k : String) (m : Dict V) {v : V} → AllEntries m → lookup k m ≡ some v → P k v
    unfolding lookup
    AllEntries-lookup k [] h e = cc
    AllEntries-lookup k ((j, w) ∷ m) h e = elim (Bool-cases (str_eq j k)) [
      | inl q ↦ subst₂ P ((str_eq_iff j k).0 q) (ground arith) h.0
      | inr q ↦ AllEntries-lookup k m h.1 (rw q at e)
    ]

    pub AllEntries-filter :
        (p : String × V → Bool) (m : Dict V) → AllEntries m → AllEntries (filter p m)
    unfolding filter
    AllEntries-filter p [] h = tt
    AllEntries-filter p ((k, v) ∷ m) h = elim (Bool-cases (p (k, v))) [
      | inl e ↦ rw e (h.0, AllEntries-filter p m h.1)
      | inr e ↦ rw e (AllEntries-filter p m h.1)
    ]

  pub insert_new-lookup :
      (k j : String) (v : V) (m : Dict V) {w : V}
      → lookup k m ≡ none
      → lookup j m ≡ some w
      → lookup j (insert k v m) ≡ some w
  insert_new-lookup k j v m e h = ground (arith, lookup-insert k j v m, str_eq_iff k j)
