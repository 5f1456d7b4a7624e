-- ===== src/RevocationObservation/Verdict.antt =====
-- pipeline/revocation-observation.ts: what the state of a normalized observation says.
use proofmark.Prelude.{
  ℕ, ◌<◌, Bool, true, false, not, ◌&&◌, ◌≡◌, refl, sym, map, inl, inr, List, [], ◌∷◌, ltb, ◌==◌,
  if◌then◌else◌, arith, all, All, Bool-cases, ok, Yields, returns, after,
}
use proofmark.Prelude.Text.{Text}
use proofmark.RevocationObservation.{
  ObservedState, enforced, superseded, inconsistent, awaiting_hub, RevocationObservation,
  SourceView, HubView, PolicyView, same_state, decided, derived_state, source_place, hub_place,
  normalize_revocation_observation, normalize_config, normalize_source, CheckConfig, HubCursor,
  check_cursor, hash, is_reference, check_times, check_policies, coordinate, demand, same_ids,
  check_views,
}

-- The places are in this order: the first coordinate in which they differ is smaller.
pub data Before : List ℕ → List ℕ → Type 0 where
  first : {a b : ℕ} {as' bs : List ℕ} → a < b → Before (a ∷ as') (b ∷ bs)
  later : {a b : ℕ} {as' bs : List ℕ} → a ≡ b → Before as' bs → Before (a ∷ as') (b ∷ bs)

-- The hub shows the revocation: the subject has its tombstone, and no policy verifies it.
pub record IsEnforced (dead : Bool) (ps : List PolicyView) : Type 0 where
  pub tombstone : dead ≡ true
  pub unverified : All (λ p. p.verified ≡ false) ps

-- What a state says of the place of the source log and the cursor of the hub.
pub data Says (s : List ℕ) (dead : Bool) (ps : List PolicyView)
    : List ℕ → ObservedState → Type 0 where
  is_enforced : {c : List ℕ} → c ≡ s → IsEnforced dead ps → Says s dead ps c enforced
  is_inconsistent : {c : List ℕ} → c ≡ s → ¬ IsEnforced dead ps → Says s dead ps c inconsistent
  is_superseded : {c : List ℕ} → Before s c → Says s dead ps c superseded
  is_awaiting : {c : List ℕ} → Before c s → Says s dead ps c awaiting_hub

-- The three cases of the comparison, for places with equally many coordinates.
data Compared (same : ObservedState) (a b : List ℕ) : ObservedState → Type 0 where
  equal : a ≡ b → Compared same a b same
  ahead : Before b a → Compared same a b superseded
  behind : Before a b → Compared same a b awaiting_hub

more :
    {same : ObservedState} {x y : ℕ} {a b : List ℕ} {s : ObservedState}
    → x ≡ y
    → Compared same a b s
    → Compared same (x ∷ a) (y ∷ b) s
more e (equal h) = equal (ground (arith, e, h))
more e (ahead h) = ahead (later (sym e) h)
more e (behind h) = behind (later e h)

abbrev SameLength : List ℕ → List ℕ → Type 0
SameLength [] [] = Unit
SameLength (x ∷ xs) (y ∷ ys) = SameLength xs ys
SameLength _ _ = ⊥

decided-Compared :
    (same : ObservedState) (a b : List ℕ) → SameLength a b → Compared same a b (decided a b same)
unfolding decided
decided-Compared same [] [] l = equal refl
decided-Compared same (x ∷ a) (y ∷ b) l = elim (Bool-cases (x == y)) [
  | inl e ↦ rw e (more (ground arith) (decided-Compared same a b l))
  | inr n ↦ elim (Bool-cases (ltb y x)) [
    | inl e ↦ rw (n, e) (ahead (first (ground arith)))
    | inr e ↦ rw (n, e) (behind (first (ground arith)))
  ]
]
decided-Compared same [] (y ∷ b) l = absurd l
decided-Compared same (x ∷ a) [] l = absurd l

unverified-All :
    (ps : List PolicyView) → all (λ p. not p.verified) ps ≡ true → All (λ p. p.verified ≡ false) ps
unverified-All [] h = tt
unverified-All (p ∷ ps) h = (ground arith, unverified-All ps (ground arith))

All-unverified :
    (ps : List PolicyView) → All (λ p. p.verified ≡ false) ps → all (λ p. not p.verified) ps ≡ true
All-unverified [] h = refl
All-unverified (p ∷ ps) h = ground (arith, All-unverified ps h.1)

Compared-Says :
    (dead : Bool) (ps : List PolicyView) {s c : List ℕ} {st : ObservedState}
    → Compared (if dead && all (λ p. not p.verified) ps then enforced else inconsistent) c s st
    → Says s dead ps c st
Compared-Says dead ps (ahead b) = is_superseded b
Compared-Says dead ps (behind b) = is_awaiting b
Compared-Says dead ps (equal e) = elim (Bool-cases (dead && all (λ p. not p.verified) ps)) [
  | inl y ↦ rw y (
      is_enforced e
        (record { tombstone = ground arith; unverified = unverified-All ps (ground arith) }))
  | inr n ↦
      rw n (
        is_inconsistent e λ i. absurd (ground (arith, i.tombstone, All-unverified ps i.unverified)))
]

derived_state-Says :
    (s : SourceView) (h : HubView)
    → Says (source_place s) h.tombstone h.policies (hub_place h.cursor) (derived_state s h)
unfolding derived_state
derived_state-Says s h =
    Compared-Says h.tombstone h.policies
      (decided-Compared _ (hub_place h.cursor) (source_place s) tt)

same_state→eq : (a b : ObservedState) → same_state a b ≡ true → a ≡ b
same_state→eq a b h = ground arith

same_ids→eq :
    (ps : List PolicyView) (ids : List ℕ) → same_ids ps ids ≡ true → map (λ p. p.id) ps ≡ ids
unfolding same_ids
same_ids→eq [] [] h = refl
same_ids→eq (p ∷ ps) (id ∷ ids) h = ground (arith, same_ids→eq ps ids)
same_ids→eq [] (id ∷ ids) h = absurd (ground arith)
same_ids→eq (p ∷ ps) [] h = absurd (ground arith)

demanded : (b : Bool) {u : Unit {0}} → demand b ≡ ok u → b ≡ true
demanded true h = refl
demanded false h = absurd (ground arith)

check_cursor-same : (c : HubCursor) {d : HubCursor} → check_cursor c ≡ ok d → c ≡ d
unfolding check_cursor coordinate
check_cursor-same c h = ground arith

-- What a normalized observation is.
pub record IsVerdict (value o : RevocationObservation) : Type 0 where
  pub state : o.state ≡ value.state
  pub says :
      Says (source_place o.source) o.hub.tombstone o.hub.policies (hub_place o.hub.cursor) o.state
  pub policies : map (λ p. p.id) o.hub.policies ≡ o.config.policy_ids
  pub place : source_place o.source ≡ source_place value.source
  pub cursor : o.hub.cursor ≡ value.hub.cursor

module _ (is_address : Text → Bool) where
  config-policy_ids :
      (c : CheckConfig) {d : CheckConfig}
      → normalize_config is_address c ≡ ok d
      → d.policy_ids ≡ c.policy_ids
  unfolding normalize_config
  config-policy_ids c h = ground arith

  source-place :
      (s : SourceView) {t : SourceView}
      → normalize_source is_address s ≡ ok t
      → source_place t ≡ source_place s
  unfolding normalize_source
  source-place s h = ground arith

  -- Where an observation is normalized, its state is kept and is true of it: `enforced` says that the
  -- cursor of the hub stands at the place of the source log, with the tombstone and no policy that
  -- verifies the subject; `inconsistent` that it stands there without them; `superseded` that it is
  -- past the place and `awaiting_hub` that it is before it, in the order of the coordinates. The
  -- policies are those of the configuration, and place and cursor are unchanged.
  pub normalize_revocation_observation-IsVerdict :
      (value : RevocationObservation)
      → Yields (IsVerdict value) (normalize_revocation_observation is_address value)
  unfolding normalize_revocation_observation
  normalize_revocation_observation-IsVerdict value =
      let s = value.source in
      let h = value.hub in
      after (demand (is_reference value.operator)) λ _ _.
        after (check_times value.observed_at value.config) λ _ _.
          after (check_policies value.config.policy_ids) λ _ _.
            after (check_views value.observed_at value.config s h) λ _ _.
              after (demand (same_ids h.policies value.config.policy_ids)) λ _ ids.
                after (check_cursor h.cursor) λ cursor c.
                  after (demand (same_state value.state (derived_state s h))) λ _ state.
                    after (normalize_config is_address value.config) λ config g.
                      after (normalize_source is_address s) λ source p.
                        after (hash h.block_hash) λ _ _.
                          let place = source-place s p in
                          let same = check_cursor-same h.cursor c in
                          returns (record {
                            state = refl;
                            says =
                                rw (place, ← same, same_state→eq _ _ (demanded _ state))
                                  (derived_state-Says s h);
                            policies =
                                rw (config-policy_ids value.config g)
                                  (same_ids→eq h.policies _ (demanded _ ids));
                            place = place;
                            cursor = sym same;
                          })
