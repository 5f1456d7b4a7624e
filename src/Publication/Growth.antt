-- ===== src/Publication/Growth.antt =====
-- pipeline/epoch-publication-journal.ts: how the entries may change, and which changes the operations plan.
use proofmark.Prelude.{
  Bool, true, false, Option, none, some, List, [], ◌∷◌, ◌++◌, ◌≡◌, refl, sym, ap, ◌∙◌, ◌⊎◌, inl,
  inr, arith, any, Bool-cases,
}
use mathlib.Core.Path.{subst}
use proofmark.Prelude.Text.{Text, text_eq, text_eq_iff}
use proofmark.Publication.Checks.{PublicationIntent, SavedTransaction, PublicationEntry}
use proofmark.Publication.Operations.{find, set_entry, is_nonce, has_nonce, new_entry}

-- A field, once set, stays.
abbrev pub Stays {ℓ} : {A : Type ℓ} → Option A → Option A → Type ℓ
Stays x y = (x ≡ none) ⊎ (y ≡ x)

pub record Grows (x y : PublicationEntry) : Type 0 where
  pub same_id : y.id ≡ x.id
  pub same_intent : y.intent ≡ x.intent
  pub transaction : Stays x.transaction y.transaction
  pub confirmation : Stays x.confirmation y.confirmation
  pub abandonment : Stays x.abandonment y.abandonment

abbrev pub Extends : List PublicationEntry → List PublicationEntry → Type 0
Extends [] ys = Unit
Extends (x ∷ xs) [] = ⊥
Extends (x ∷ xs) (y ∷ ys) = Grows x y × Extends xs ys

-- No later entry has the nonce of the transaction.
abbrev pub IsUnused : Option SavedTransaction → List PublicationEntry → Type 0
IsUnused none es = Unit
IsUnused (some t) es = any (has_nonce t.nonce) es ≡ false

-- No two transactions have one nonce.
abbrev pub NonceOnce : List PublicationEntry → Type 0
NonceOnce [] = Unit
NonceOnce (e ∷ es) = IsUnused e.transaction es × NonceOnce es

Stays-trans {ℓ} : {A : Type ℓ} {x y z : Option A} → Stays x y → Stays y z → Stays x z
Stays-trans (inl e) k = inl e
Stays-trans (inr e) (inl f) = inl (sym e ∙ f)
Stays-trans (inr e) (inr f) = inr (f ∙ e)

pub Grows-refl : (x : PublicationEntry) → Grows x x
Grows-refl x = record {
  same_id = refl;
  same_intent = refl;
  transaction = inr refl;
  confirmation = inr refl;
  abandonment = inr refl;
}

pub Grows-trans : {x y z : PublicationEntry} → Grows x y → Grows y z → Grows x z
Grows-trans g h = record {
  same_id = h.same_id ∙ g.same_id;
  same_intent = h.same_intent ∙ g.same_intent;
  transaction = Stays-trans g.transaction h.transaction;
  confirmation = Stays-trans g.confirmation h.confirmation;
  abandonment = Stays-trans g.abandonment h.abandonment;
}

pub Extends-refl : (xs : List PublicationEntry) → Extends xs xs
Extends-refl [] = tt
Extends-refl (x ∷ xs) = (Grows-refl x, Extends-refl xs)

pub Extends-trans :
    (xs ys zs : List PublicationEntry) → Extends xs ys → Extends ys zs → Extends xs zs
Extends-trans [] ys zs g h = tt
Extends-trans (x ∷ xs) [] zs g h = absurd g
Extends-trans (x ∷ xs) (y ∷ ys) [] g h = absurd h
Extends-trans (x ∷ xs) (y ∷ ys) (z ∷ zs) g h = (Grows-trans g.0 h.0, Extends-trans xs ys zs g.1 h.1)

pub append-Extends : (xs ys : List PublicationEntry) → Extends xs (xs ++ ys)
append-Extends [] ys = tt
append-Extends (x ∷ xs) ys = (Grows-refl x, append-Extends xs ys)

pub find-id :
    (id : Text) (xs : List PublicationEntry) {e : PublicationEntry}
    → find id xs ≡ some e
    → e.id ≡ id
unfolding find
find-id id [] h = absurd (ground arith)
find-id id (x ∷ xs) {e} h = elim (Bool-cases (text_eq x.id id)) [
  | inl y ↦ ground (arith, text_eq_iff x.id id)
  | inr n ↦ find-id id xs (rw n at h)
]

-- The head is the entry found, or the entry is found behind it.
found_at :
    (id : Text) (x : PublicationEntry) (xs : List PublicationEntry) {e new : PublicationEntry}
    → find id (x ∷ xs) ≡ some e
    → new.id ≡ e.id
    → ((x ≡ e) × (set_entry new (x ∷ xs) ≡ new ∷ xs))
      ⊎ ((find id xs ≡ some e)
          × (set_entry new (x ∷ xs) ≡ x ∷ set_entry new xs)
          × (text_eq x.id id ≡ false))
unfolding find set_entry
found_at id x xs {e} {new} h k = elim (Bool-cases (text_eq x.id id)) [
  | inl y ↦
      let same : x ≡ e = ground (arith, rw y at h) in
      let own : text_eq x.id new.id ≡ true =
        (text_eq_iff x.id new.id).1 (ap (λ (r : PublicationEntry). r.id) same ∙ sym k) in
      inl (same, rw own refl)
  | inr n ↦
      let own : text_eq x.id new.id ≡ false = rw (k ∙ find-id id xs (rw n at h), n) refl in
      inr (rw n at h, rw own refl, n)
]

pub set_entry-Extends :
    (id : Text) (xs : List PublicationEntry) {e new : PublicationEntry}
    → find id xs ≡ some e
    → Grows e new
    → Extends xs (set_entry new xs)
set_entry-Extends id [] h g = tt
set_entry-Extends id (x ∷ xs) {e} {new} h g = elim (found_at id x xs {new = new} h g.same_id) [
  | inl (same, eq) ↦
      subst (Extends (x ∷ xs)) (sym eq) (subst (λ r. Grows r new) (sym same) g, Extends-refl xs)
  | inr (rest, eq, other) ↦
      subst (Extends (x ∷ xs)) (sym eq) (Grows-refl x, set_entry-Extends id xs rest g)
]

pub find-set_entry :
    (id : Text) (xs : List PublicationEntry) {e new : PublicationEntry}
    → find id xs ≡ some e
    → new.id ≡ e.id
    → find id (set_entry new xs) ≡ some new
unfolding find
find-set_entry id [] h k = absurd (ground arith)
find-set_entry id (x ∷ xs) {e} {new} h k = elim (found_at id x xs {new = new} h k) [
  | inl (same, eq) ↦ rw (eq, (text_eq_iff new.id id).1 (k ∙ find-id id (x ∷ xs) h)) refl
  | inr (rest, eq, other) ↦ rw (eq, other) (find-set_entry id xs rest k)
]

find-any :
    (p : PublicationEntry → Bool) (id : Text) (xs : List PublicationEntry) {e : PublicationEntry}
    → find id xs ≡ some e
    → any p xs ≡ false
    → p e ≡ false
unfolding find
find-any p id [] h z = absurd (ground arith)
find-any p id (x ∷ xs) {e} h z = elim (Bool-cases (text_eq x.id id)) [
  | inl y ↦ subst (λ r. p r ≡ false) {x = x} (ground (arith, rw y at h)) (ground arith)
  | inr n ↦ find-any p id xs (rw n at h) (ground arith)
]

any-set_entry :
    (p : PublicationEntry → Bool) (new : PublicationEntry) (xs : List PublicationEntry)
    → any p xs ≡ false
    → p new ≡ false
    → any p (set_entry new xs) ≡ false
unfolding set_entry
any-set_entry p new [] z n = refl
any-set_entry p new (x ∷ xs) z n = elim (Bool-cases (text_eq x.id new.id)) [
  | inl y ↦ rw y (ground arith)
  | inr k ↦ let rest = any-set_entry p new xs (ground arith) n in rw k (ground arith)
]

-- The transaction that is set is the one there was, or has a nonce that no entry has.
abbrev pub Fits : PublicationEntry → PublicationEntry → List PublicationEntry → Type 0
Fits e new xs =
    (new.transaction ≡ e.transaction)
    ⊎ ((t : SavedTransaction) × (new.transaction ≡ some t) × (any (has_nonce t.nonce) xs ≡ false))

Fits-tail :
    (x e new : PublicationEntry) (xs : List PublicationEntry) → Fits e new (x ∷ xs) → Fits e new xs
Fits-tail x e new xs (inl same) = inl same
Fits-tail x e new xs (inr (t, eq, free)) = inr (t, eq, ground arith)

head-IsUnused :
    (e new : PublicationEntry) (xs : List PublicationEntry)
    → Fits e new (e ∷ xs)
    → IsUnused e.transaction xs
    → IsUnused new.transaction xs
head-IsUnused e new xs (inl same) u = subst (λ t. IsUnused t xs) (sym same) u
head-IsUnused e new xs (inr (t, eq, free)) u = subst (λ o. IsUnused o xs) (sym eq) (ground arith)

is_other_nonce :
    (e new x : PublicationEntry) (xs : List PublicationEntry) (u : SavedTransaction)
    → Fits e new (x ∷ xs)
    → x.transaction ≡ some u
    → has_nonce u.nonce e ≡ false
    → has_nonce u.nonce new ≡ false
is_other_nonce e new x xs u (inl same) own h = ap (is_nonce u.nonce) same ∙ h
is_other_nonce e new x xs u (inr (t, eq, free)) own h =
    let other : is_nonce t.nonce (some u) ≡ false =
      sym (ap (is_nonce t.nonce) own) ∙ ground arith in
    ap (is_nonce u.nonce) eq ∙ ground arith

set_entry-IsUnused :
    (id : Text) (e new x : PublicationEntry) (xs : List PublicationEntry)
    (o : Option SavedTransaction)
    → find id xs ≡ some e
    → Fits e new (x ∷ xs)
    → x.transaction ≡ o
    → IsUnused o xs
    → IsUnused o (set_entry new xs)
set_entry-IsUnused id e new x xs none h f own u = tt
set_entry-IsUnused id e new x xs (some t) h f own u =
    any-set_entry (has_nonce t.nonce) new xs u
      (is_other_nonce e new x xs t f own (find-any (has_nonce t.nonce) id xs h u))

pub set_entry-NonceOnce :
    (id : Text) (xs : List PublicationEntry) (e new : PublicationEntry)
    → find id xs ≡ some e
    → new.id ≡ e.id
    → Fits e new xs
    → NonceOnce xs
    → NonceOnce (set_entry new xs)
unfolding find
set_entry-NonceOnce id [] e new h k f o = absurd (ground arith)
set_entry-NonceOnce id (x ∷ xs) e new h k f o = elim (found_at id x xs {new = new} h k) [
  | inl (same, eq) ↦ subst NonceOnce (sym eq) (
    head-IsUnused e new xs (subst (λ r. Fits e new (r ∷ xs)) same f)
        (subst (λ (r : PublicationEntry). IsUnused r.transaction xs) same o.0),
    o.1,
  )
  | inr (rest, eq, other) ↦ subst NonceOnce (sym eq) (
    set_entry-IsUnused id e new x xs x.transaction rest f refl o.0,
    set_entry-NonceOnce id xs e new rest k (Fits-tail x e new xs f) o.1,
  )
]

append-IsUnused :
    (o : Option SavedTransaction) (id : Text) (intent : PublicationIntent)
    (xs : List PublicationEntry)
    → IsUnused o xs
    → IsUnused o (xs ++ new_entry id intent ∷ [])
append-IsUnused none id intent xs u = tt
append-IsUnused (some t) id intent [] u = refl
append-IsUnused (some t) id intent (x ∷ xs) u =
    let rest = append-IsUnused (some t) id intent xs (ground arith) in ground arith

pub append-NonceOnce :
    (id : Text) (intent : PublicationIntent) (xs : List PublicationEntry)
    → NonceOnce xs
    → NonceOnce (xs ++ new_entry id intent ∷ [])
append-NonceOnce id intent [] o = (tt, tt)
append-NonceOnce id intent (x ∷ xs) o =
    (append-IsUnused x.transaction id intent xs o.0, append-NonceOnce id intent xs o.1)

pub find-append :
    (id : Text) (e : PublicationEntry) (xs : List PublicationEntry)
    → find id xs ≡ none
    → e.id ≡ id
    → find id (xs ++ e ∷ []) ≡ some e
unfolding find
find-append id e [] h k = rw ((text_eq_iff e.id id).1 k) refl
find-append id e (x ∷ xs) h k = elim (Bool-cases (text_eq x.id id)) [
  | inl y ↦ absurd (ground (arith, rw y at h))
  | inr n ↦ rw n (find-append id e xs (rw n at h) k)
]
