-- ===== src/Worker/Relay/Queries.antt =====
-- worker/relay.ts: what the node has shown where `observeProcessed` says that a query is confirmed.
use proofmark.Prelude.{
  ℕ, ◌+◌, ◌-◌, ◌≤◌, String, Bool, true, false, not, ◌&&◌, Option, none, some, ltb, leb, ◌==◌,
  if◌then◌else◌, str_eq_iff, is_safe_integer, ◌≡◌, refl, sym, ◌∙◌, inl, inr, arith, Bool-cases,
  Result, ok, ◌>>=◌, require, Yields, after, returns, throws, yielded,
}
use mathlib.Core.Path.{subst}
use proofmark.Worker.Relay.{unprocessed, unconfirmed, confirmed, QueryObservation}
use proofmark.Worker.Relay.Transport.{
  NodeBlock, Sampling, latest, stable, HubMoment, at_head, at_block, at_value, at_final_head,
  at_again, HubNode, TransportConfig, is_hash, is_block, Sample, observation, is_other_hash,
  known_hash, hash_of, is_confirmed_query, sample, settled, recheck, at_floor, look, observe_at,
  observe_processed,
}
use proofmark.Worker.Relay.Finality.{Shows, is_block-Shows}

abbrev pub SameHash : Option String → String → Type 0
SameHash none hash = Unit
SameHash (some expected) hash = hash ≡ expected

-- The place of an observation that is to be rechecked.
abbrev pub SamePlace : Option QueryObservation → QueryObservation → Type 0
SamePlace none o = Unit
SamePlace (some e) o = (o.block_number ≡ e.block_number) × (o.block_hash ≡ e.block_hash)

if-Yields :
    {A : Type 0} {P : A → Type 0} (b : Bool) {x y : Result A}
    → Yields P x
    → Yields P y
    → Yields P (if b then x else y)
if-Yields true p q = p
if-Yields false p q = q

module _ (node : HubNode) (c : TransportConfig) where
  -- The node gave the block before and after it said that the query is processed there, and its head put
  -- the block at least the confirmations deep.
  pub record IsProcessed (query : String) (o : QueryObservation) : Type 0 where
    pub round : Sampling
    pub shown : Shows node c (at_block round) o.block_number o.block_hash
    pub positive : node.processed (at_value round) query o.block_number ≡ ok true
    pub shown_again : Shows node c (at_again round) o.block_number o.block_hash
    pub head : ℕ
    pub headed : node.block_number (at_final_head round) ≡ ok head
    pub deep : o.block_number + c.confirmations ≤ head + 1

  record IsSample (query : String) (round : Sampling) (height : ℕ) (expected : Option String)
      (s : Sample) : Type 0 where
    placed : s.block_number ≡ height
    shown : Shows node c (at_block round) height s.block_hash
    read : node.processed (at_value round) query height ≡ ok s.value
    shown_again : Shows node c (at_again round) height s.block_hash
    head : ℕ
    headed : node.block_number (at_final_head round) ≡ ok head
    below : height ≤ head
    counted : s.confirmations ≡ head - height + 1
    same : SameHash expected s.block_hash

  not_other :
      (expected : Option String) (hash : String)
      → is_other_hash expected hash ≡ false
      → SameHash expected hash
  not_other none hash h = tt
  not_other (some e) hash h = ground (arith, str_eq_iff hash e)

  hash_of-Shows :
      (at : HubMoment) (height : ℕ) (expected : Option String) (o : Option NodeBlock)
      → node.block at height ≡ ok o
      → Yields
          (λ hash. Shows node c at height hash × SameHash expected hash)
          (hash_of height expected o)
  hash_of-Shows at height expected none e = throws
  hash_of-Shows at height expected (some b) e = known b.hash refl
    where
      known :
          (h : Option String)
          → b.hash ≡ h
          → Yields
              (λ hash. Shows node c at height hash × SameHash expected hash)
              (known_hash height expected b.number h)
      known none own = throws
      known (some hash) own =
          after
            (require (b.number == height && is_hash hash && not (is_other_hash expected hash))
              "ASC_QUERY_OBSERVATION_CHANGED")
            λ u fits. returns ((b, e, ground arith, own), not_other expected hash (ground arith))

  sample-IsSample :
      (query : String) (round : Sampling) (height : ℕ) (expected : Option String)
      → Yields (IsSample query round height expected) (sample node c query round height expected)
  unfolding sample
  sample-IsSample query round height expected =
      after (node.block (at_block round) height) λ b blocked.
        after (hash_of height expected b) λ hash hashed.
          after (node.processed (at_value round) query height) λ value read.
            after (node.block_number (at_final_head round)) λ head headed.
              after (node.block (at_again round) height) λ a again.
                after
                  (require (is_block height hash a && is_safe_integer head && leb height head)
                    "ASC_QUERY_OBSERVATION_CHANGED")
                  λ u fits.
                    let first =
                      yielded (hash_of-Shows (at_block round) height expected b blocked) hashed in
                    returns (record {
                      placed = refl;
                      shown = first.0;
                      read = read;
                      shown_again =
                          is_block-Shows node c (at_again round) height hash a again (ground arith);
                      head = head;
                      headed = headed;
                      below = ground arith;
                      counted = refl;
                      same = first.1;
                    })

  abbrev Confirms : String → Option QueryObservation → QueryObservation → Type 0
  Confirms query expected o = o.status ≡ confirmed → IsProcessed query o × SamePlace expected o

  settled-Confirms :
      (query : String) (round : Sampling) (height now : ℕ) (hash : Option String) (s : Sample)
      → IsSample query round height hash s
      → (settled node c now s).status ≡ confirmed
      → IsProcessed query (settled node c now s)
  settled-Confirms query round height now hash s i h =
      let good : (s.value && leb c.confirmations s.confirmations) ≡ true = ground arith in
      record {
        round = round;
        shown = subst (λ n. Shows node c (at_block round) n s.block_hash) (sym i.placed) i.shown;
        positive =
            subst (λ n. node.processed (at_value round) query n ≡ ok true) (sym i.placed)
              (i.read ∙ ground arith);
        shown_again =
            subst (λ n. Shows node c (at_again round) n s.block_hash) (sym i.placed) i.shown_again;
        head = i.head;
        headed = i.headed;
        deep =
            let enough : c.confirmations ≤ s.confirmations = ground arith in
            omega (arith, i.placed, i.counted, i.below);
      }

  unsettled-Confirms :
      (query : String) (expected : Option QueryObservation) (o : QueryObservation)
      → is_confirmed_query o ≡ false
      → Confirms query expected o
  unsettled-Confirms query expected o n h = absurd (ground arith)

  recheck-Confirms :
      (query : String) (now head : ℕ) (e : QueryObservation)
      → Yields (Confirms query (some e)) (recheck node c query now head e)
  recheck-Confirms query now head e =
      if-Yields (ltb (head + 1) (e.block_number + c.confirmations))
        (returns (unsettled-Confirms query (some e) (record e { status = unconfirmed }) refl))
        (after (sample node c query latest e.block_number (some e.block_hash)) λ s sampled.
          let i =
            yielded (sample-IsSample query latest e.block_number (some e.block_hash)) sampled in
          returns λ h. (
            settled-Confirms query latest e.block_number now (some e.block_hash) s i h,
            (i.placed, i.same),
          ))

  at_floor-Confirms :
      (query : String) (now head : ℕ) (first : Sample)
      → IsSample query latest head none first
      → Yields (Confirms query none) (at_floor node c query now head first)
  at_floor-Confirms query now head first i =
      after (node.is_deployed (head + 1 - c.confirmations)) λ deployed _.
        if-Yields deployed (at_height (head + 1 - c.confirmations))
          (returns (unsettled-Confirms query none (observation now unconfirmed first) refl))
    where
      at_height :
          (height : ℕ)
          → Yields (Confirms query none) (
              (if height == head then ok first else sample node c query stable height none) >>= λ s.
              ok (settled node c now s))
      at_height height = elim (Bool-cases (height == head)) [
        | inl y ↦ rw y (returns λ h. (settled-Confirms query latest head now none first i h, tt))
        | inr n ↦ rw n (
            after (sample node c query stable height none) λ s sampled. returns λ h. (
              settled-Confirms query stable height now none s
                  (yielded (sample-IsSample query stable height none) sampled) h,
              tt,
            ))
      ]

  look-Confirms :
      (query : String) (now head : ℕ) → Yields (Confirms query none) (look node c query now head)
  look-Confirms query now head = after (sample node c query latest head none) λ first sampled.
      if-Yields first.value
        (if-Yields (ltb (head + 1) c.confirmations)
          (returns (unsettled-Confirms query none (observation now unconfirmed first) refl))
          (at_floor-Confirms query now head first
            (yielded (sample-IsSample query latest head none) sampled)))
        (returns (unsettled-Confirms query none (observation now unprocessed first) refl))

  observe_at-Confirms :
      (query : String) (now head : ℕ) (expected : Option QueryObservation)
      → Yields (Confirms query expected) (observe_at node c query now head expected)
  observe_at-Confirms query now head none = look-Confirms query now head
  observe_at-Confirms query now head (some e) =
      after
        (require (is_confirmed_query e && is_safe_integer e.block_number && is_hash e.block_hash)
          "ASC_QUERY_OBSERVATION_UNAVAILABLE")
        λ u _. recheck-Confirms query now head e

  observe_processed-Confirms :
      (query : String) (now : ℕ) (expected : Option QueryObservation)
      → Yields (Confirms query expected) (observe_processed node c query now expected)
  unfolding observe_processed
  observe_processed-Confirms query now expected = after (node.block_number at_head) λ head _.
      after (require (is_safe_integer head) "ASC_QUERY_OBSERVATION_UNAVAILABLE")
        λ u _. observe_at-Confirms query now head expected

  -- Where `observeProcessed` returns an observation that is confirmed, whatever the node answers at each
  -- moment, the node said that the query is processed at its block, gave the block with its hash before and
  -- after that, and put it at least the confirmations deep; and an observation that was to be rechecked has
  -- the same block.
  pub observe_processed-IsProcessed :
      (query : String) (now : ℕ) (expected : Option QueryObservation) {o : QueryObservation}
      → observe_processed node c query now expected ≡ ok o
      → o.status ≡ confirmed
      → IsProcessed query o × SamePlace expected o
  observe_processed-IsProcessed query now expected h k =
      yielded (observe_processed-Confirms query now expected) h k
