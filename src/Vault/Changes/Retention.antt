-- ===== src/Vault/Changes/Retention.antt =====
-- pipeline/vault.ts: the effects of the operations on retention.
use proofmark.Prelude.{
  refused, required, ℕ, ◌≤◌, String, true, false, not, ◌||◌, ◌≡◌, refl, inl, inr, Option, none,
  some, List, [], ◌∷◌, ltb, leb, arith, is_some, any, All, All-append, ok, require, refuse, returns,
  after, Bool-cases, str_eq,
}
use Prim.Native.Nat.{max}
use proofmark.Prelude.Text.{Text, text_eq}
use proofmark.Prelude.Dict.{lookup, values}
use proofmark.Vault.Data.{
  VaultRecord, VaultData, DeletionRequest, DeletionInput, Runtime, is_confirmed, Hold,
}
use proofmark.Vault.Blockers.{
  controls, or_zero, last, deletion_blockers, is_empty, Blocker, must_get, timestamp, reference,
  deletion_fingerprint, jobs_of,
}
use proofmark.Vault.Retention.{
  set_last, extend_retention, place_hold, release_hold, open_hold, find_hold, request_deletion,
  approve_deletion, matches_policy, check_safety, is_unsupported, current_request, purge_expired,
  erase_found, purge_all, purge_request,
}
use proofmark.Vault.Calls.{VaultCall}
use proofmark.Vault.Effects.{Removes, IsTwoPerson, Erasing, erasing, manages, removes}
use proofmark.Vault.Changes.Statement.{Changes, Gives}

not-leb : (a b : ℕ) → leb a b ≡ false → b ≤ a
not-leb a b h = ground arith

set_last-All :
    (P : DeletionRequest → Type 0) (q : DeletionRequest) (qs : List DeletionRequest)
    → P q
    → All P qs
    → All P (set_last q qs)
unfolding set_last
set_last-All P q [] p h = tt
set_last-All P q (x ∷ []) p h = (p, tt)
set_last-All P q (x ∷ y ∷ rest) p h = (h.0, set_last-All P q (y ∷ rest) p h.1)

is_empty→nil : (bs : List Blocker) → is_empty bs ≡ true → bs ≡ []
is_empty→nil [] h = refl
is_empty→nil (b ∷ bs) h = absurd (ground arith)

current_request-some :
    (request_id : String) (o : Option DeletionRequest) {q : DeletionRequest}
    → current_request request_id o ≡ ok q
    → o ≡ some q
current_request-some request_id (some p) h = ground arith
current_request-some request_id none h = absurd (ground arith)

module _ (run : Runtime) (call : VaultCall) where
  pub extend_retention-Change :
      (id : String) (until : ℕ) (operator ref : Text) (now : ℕ) (d : VaultData)
      → Changes run call d (extend_retention id until operator ref now d)
  unfolding extend_retention
  extend_retention-Change id until operator ref now d =
      let c = controls id d in
      after (timestamp now) λ _ _. after (timestamp until) λ _ _. after (reference operator) λ _ _.
        after (reference ref) λ _ _. after (must_get id d) λ r _.
          after
            (refuse (leb until (max r.retention_until (or_zero c.minimum_until)))
              "retention can only be extended")
            λ _ l.
              let later = refused _ _ l in
              returns (
                manages id _ (record {
                  extended = longer r.retention_until (or_zero c.minimum_until) until later;
                  approved = λ h. h;
                }))
    where
      longer : (a b u : ℕ) → leb u (max a b) ≡ false → b ≤ u
      longer a b u h = omega (arith, not-leb u (max a b) h)

  pub place_hold-Change :
      (id : String) (hold operator ref : Text) (now : ℕ) (d : VaultData)
      → Changes run call d (place_hold id hold operator ref now d)
  unfolding place_hold
  place_hold-Change id hold operator ref now d = after (must_get id d) λ _ _.
      after (timestamp now) λ _ _. after (reference hold) λ _ _. after (reference operator) λ _ _.
        after (reference ref) λ _ _.
          after
            (refuse (any (λ (h : Hold). text_eq h.id hold) (controls id d).holds)
              "hold ID already used")
            λ _ _. returns (manages id _ (record { extended = omega arith; approved = λ h. h }))

  pub release_hold-Change :
      (id : String) (hold operator ref : Text) (now : ℕ) (d : VaultData)
      → Changes run call d (release_hold id hold operator ref now d)
  unfolding release_hold
  release_hold-Change id hold operator ref now d = after (must_get id d) λ _ _.
      after (timestamp now) λ _ _. after (reference operator) λ _ _. after (reference ref) λ _ _.
        after (open_hold (find_hold hold (controls id d).holds)) λ h _.
          after (refuse (ltb now h.at) "hold release precedes placement")
            λ _ _. returns (manages id _ (record { extended = omega arith; approved = λ h. h }))

  pub request_deletion-Change :
      (id : String) (input : DeletionInput) (request_id : String) (now : ℕ) (d : VaultData)
      → Changes run call d (request_deletion run id input request_id now d)
  unfolding request_deletion
  request_deletion-Change id input request_id now d = after (timestamp now) λ _ _.
      after (reference input.operator) λ _ _. after (reference input.policy_ref) λ _ _.
        after (reference input.service_ref) λ _ _. after (must_get id d) λ r _.
          after
            (require (matches_policy input r.retention_policy)
              "deletion decision does not match the retained policy snapshot")
            λ _ _. after (check_safety r d now) λ _ _.
              after
                (refuse (is_unsupported input r (any is_confirmed (jobs_of id d)))
                  "service disposition is not supported by local evidence")
                λ _ _. returns (
                  manages id _ (record {
                    extended = omega arith;
                    approved = λ h.
                        All-append IsTwoPerson (controls id d).requests _ h
                          ((λ a e. absurd (ground arith)), tt);
                  }))

  pub approve_deletion-Change :
      (id request_id : String) (operator : Text) (now : ℕ) (d : VaultData)
      → Changes run call d (approve_deletion run id request_id operator now d)
  unfolding approve_deletion
  approve_deletion-Change id request_id operator now d =
      let c = controls id d in
      after (timestamp now) λ _ _. after (reference operator) λ _ _. after (must_get id d) λ r _.
        after (current_request request_id (last c.requests)) λ q _.
          after
            (refuse (text_eq q.operator operator) "deletion requires a different approver label")
            λ _ other.
              after (refuse (is_some q.approval) "deletion request already approved") λ _ _.
                after (refuse (ltb now q.requested_at) "approval precedes request") λ _ late.
                  after
                    (require (str_eq q.fingerprint (deletion_fingerprint run r d))
                      "deletion request is stale")
                    λ _ _. after (check_safety r d now) λ _ _.
                      let differs = refused _ _ other in
                      let after_it = refused _ _ late in
                      returns (
                        manages id _ (record {
                          extended = omega arith;
                          approved =
                              set_last-All IsTwoPerson _ c.requests
                                (approved_by q operator now differs after_it);
                        }))
    where
      approved_by :
          (q : DeletionRequest) (operator : Text) (now : ℕ)
          → text_eq q.operator operator ≡ false
          → ltb now q.requested_at ≡ false
          → IsTwoPerson (record q { approval = some (record { operator = operator; at = now }) })
      approved_by q operator now differs late a e = ground arith

  pub erase_found-Change :
      (id request_id : String) (now : ℕ) (r : VaultRecord) (d : VaultData)
      → r.id ≡ id
      → lookup r.id d.records ≡ some r
      → Removes now call
      → Gives run call d (erase_found run id request_id now r d)
  erase_found-Change id request_id now r d same stored c =
      after (current_request request_id (last (controls id d).requests)) λ q request.
        after (require (is_empty (deletion_blockers run r d now)) "deletion blocked") λ _ free.
          returns (
            removes now c (
              erasing Erasing.nothing r q stored (is_empty→nil _ (required _ _ free))
                (rw same (current_request-some request_id _ request))))

  -- A round of the loop erases the record, or leaves all as it is.
  purge_request-Erasing :
      (now : ℕ) (r : VaultRecord) (d : VaultData) (count : ℕ) (e : VaultData)
      (o : Option DeletionRequest)
      → last (controls r.id e).requests ≡ o
      → lookup r.id d.records ≡ some r
      → Erasing run now d e
      → Erasing run now d (purge_request run now r o (count, e)).1
  purge_request-Erasing now r d count e none eq stored h = h
  purge_request-Erasing now r d count e (some q) eq stored h =
      elim (Bool-cases (not q.automatic || not (is_empty (deletion_blockers run r e now)))) [
        | inl y ↦ rw y h
        | inr n ↦ rw n (erasing h r q stored (is_empty→nil _ (ground arith)) eq)
      ]

  purge_all-Erasing :
      (now : ℕ) (rs : List VaultRecord) (d : VaultData) (s : ℕ × VaultData)
      → All (λ r. lookup r.id d.records ≡ some r) rs
      → Erasing run now d s.1
      → Erasing run now d (purge_all run now rs s).1
  unfolding purge_all
  purge_all-Erasing now [] d s stored h = h
  purge_all-Erasing now (r ∷ rs) d s stored h =
      purge_all-Erasing now rs d (purge_request run now r (last (controls r.id s.1).requests) s)
        stored.1 (purge_request-Erasing now r d s.0 s.1 _ refl stored.0 h)

  pub purge_expired-Change :
      (now : ℕ) (d : VaultData)
      → All (λ r. lookup r.id d.records ≡ some r) (values d.records)
      → Removes now call
      → Gives run call d (purge_expired run now d)
  unfolding purge_expired
  purge_expired-Change now d stored c = after (timestamp now) λ _ _.
      returns
        (removes now c (purge_all-Erasing now (values d.records) d (0, d) stored Erasing.nothing))
