-- ===== src/Worker/SourceScan.antt =====
-- worker/source-scan.ts: `scanSourceStep`, and `groupSourceEvents` of worker/source-events.ts. The source
-- node and what other tasks do to the store while the scan waits are parameters, by moment. A write of
-- the store is taken as saved here; how it may fail is in Worker/Store.
pub mod Events
pub mod Range
pub mod Tests
use proofmark.Prelude.{
  ℕ, suc, ◌+◌, ◌-◌, min, String, Bool, true, false, not, ◌&&◌, ◌||◌, Option, none, some, List, [],
  ◌∷◌, ◌++◌, ltb, leb, ◌==◌, if◌then◌else◌, str_eq, is_safe_integer, length, Result, ok, throw,
  require,
}
use proofmark.Prelude.Text.{codes}
use proofmark.Prelude.Dict.{Dict, lookup, insert}
use proofmark.Roster.Proof.{is_hex_word}
use proofmark.Worker.Job.{Job, discovered, StoreData, SourceCheckpoint}
use proofmark.Worker.Store.{
  Effect, keep, commit, assert_source_ready, assert_hub_ready, hold_source,
}
use proofmark.Worker.Store.Source.{
  checkpoints, initialize_source, commit_source_range, rewind_unsigned_source,
}
use proofmark.Worker.SourceScan.Events.{
  SourceLog, Location, Group, same_address, join_names, group_source_events,
}

pub record SourceBlock : Type 0 where
  pub number : ℕ
  pub hash : Option String

pub data BlockTag : Type 0 where
  height : ℕ → BlockTag
  finalized : BlockTag

-- Where the scan waits; a place in a loop has its round.
pub data Moment : Type 0 where
  at_head at_anchor at_checkpoint at_end at_logs at_recheck : Moment
  at_ancestor at_log : ℕ → Moment

pub record LogFilter : Type 0 where
  pub address : String
  pub from_block : ℕ
  pub to_block : ℕ

pub record SourceReader : Type 0 where
  pub block_number : Moment → Result ℕ
  pub block : Moment → BlockTag → Result (Option SourceBlock)
  pub logs : Moment → LogFilter → Result (List SourceLog)

pub record ScanOptions : Type 0 where
  pub address : String
  pub start_block : ℕ
  pub confirmations : ℕ
  pub chunk : ℕ
  pub before_rewind : Result (Unit {0})

pub record ScanResult : Type 0 where
  pub scanned : Bool
  pub jobs : ℕ
  pub rewound : ℕ

-- A part of the scan changes the store and returns or throws.
abbrev pub Scan : Type 0 → Type 0
Scan A = StoreData → StoreData × Result A

abbrev pub continues : {A B : Type 0} → StoreData × Result A → (A → Scan B) → StoreData × Result B
continues (d, ok a) k = k a d
continues (d, throw e) k = (d, throw e)

infixl 5 ◌>>=◌ ◌>>◌
abbrev pub ◌>>=◌ : {A B : Type 0} → Scan A → (A → Scan B) → Scan B
(m >>= k) d = continues (m d) k

abbrev pub ◌>>◌ : {B : Type 0} → Scan (Unit {0}) → Scan B → Scan B
m >> k = m >>= λ _. k

abbrev pub returns : {A : Type 0} → A → Scan A
returns a d = (d, ok a)

abbrev pub lift : {A : Type 0} → Result A → Scan A
lift r d = (d, r)

-- The data of the store at this point.
abbrev pub reads : Scan StoreData
reads d = (d, ok d)

abbrev pub effect_of : {A : Type 0} → StoreData → Effect A → StoreData × Result A
effect_of d (keep r) = (d, r)
effect_of d (commit next r) = (next, r)

-- A call of a method of the store.
abbrev pub calls : {A : Type 0} → (StoreData → Effect A) → Scan A
calls method d = effect_of d (method d)

abbrev hash_of : Option String → String
hash_of none = ""
hash_of (some h) = h

abbrev is_height : Option ℕ → ℕ → Bool
is_height none n = true
is_height (some h) n = n == h

unfoldable pub valid_block : Option SourceBlock → Option ℕ → Bool
unfolding is_safe_integer
valid_block none expected = false
valid_block (some b) expected =
    is_safe_integer b.number && is_height expected b.number && is_hex_word (codes (hash_of b.hash))

-- `if (!validBlock(block, height)) throw new SourceSafetyError(e)`, and the block that it leaves.
abbrev pub pinned_block : Bool → Option SourceBlock → String → Result SourceCheckpoint
pinned_block true (some b) e = ok (record { height = b.number; hash = hash_of b.hash })
pinned_block _ _ e = throw e

unfoldable pub pinned : Option SourceBlock → Option ℕ → String → Result SourceCheckpoint
unfolding valid_block
pinned b expected e = pinned_block (valid_block b expected) b e

-- `checkpoints.at(-1)!`
abbrev pub last_checkpoint : List SourceCheckpoint → Result SourceCheckpoint
last_checkpoint [] = throw "TypeError"
last_checkpoint (c ∷ []) = ok c
last_checkpoint (c ∷ c' ∷ cs) = last_checkpoint (c' ∷ cs)

abbrev pub reverse : List SourceCheckpoint → List SourceCheckpoint
reverse [] = []
reverse (c ∷ cs) = reverse cs ++ c ∷ []

-- `Math.min(finalized.number, head - confirmations)`, where `none` is a negative number.
abbrev pub safe_head_of : ℕ → ℕ → ℕ → Option ℕ
safe_head_of final head confirmations =
    if ltb head confirmations then none else some (min final (head - confirmations))

-- `n > safeHead`
abbrev pub exceeds : ℕ → Option ℕ → Bool
exceeds n none = true
exceeds n (some safe_head) = ltb safe_head n

-- `Math.min(from + chunk - 1, safeHead)`, where `from` does not exceed it.
abbrev pub range_end : ℕ → ℕ → Option ℕ → ℕ
range_end from chunk none = from
range_end from chunk (some safe_head) = min (from + chunk - 1) safe_head

unfoldable pub valid_settings : ScanOptions → Bool
unfolding is_safe_integer
valid_settings o =
    is_safe_integer o.start_block
    && leb 1 o.start_block
    && is_safe_integer o.confirmations
    && leb 1 o.confirmations
    && is_safe_integer o.chunk
    && leb 1 o.chunk

-- One test of the loop that looks for the ancestor.
unfoldable pub is_ancestor : Option SourceBlock → SourceCheckpoint → Option ℕ → Bool
unfolding valid_block
is_ancestor none c safe_head = false
is_ancestor (some b) c safe_head =
    valid_block (some b) (some c.height)
    && str_eq (hash_of b.hash) c.hash
    && not (exceeds b.number safe_head)

abbrev pub same_location : Location → Location → Bool
same_location a b = str_eq a.block_hash b.block_hash && a.transaction_index == b.transaction_index

abbrev pub is_relocated : Option Location → Location → Bool
is_relocated none l = false
is_relocated (some previous) l = not (same_location previous l)

abbrev pub hash_at : ℕ → List (ℕ × String) → Option String
hash_at n [] = none
hash_at n ((m, h) ∷ blocks) = if m == n then some h else hash_at n blocks

-- The job that the scan makes of a group.
abbrev pub job_of : Location → Group → Job
job_of l g = record {
  tx_hash = g.tx_hash;
  block_number = g.block_number;
  block_hash = some l.block_hash;
  transaction_index = some l.transaction_index;
  action = g.action;
  event_name = join_names g.names;
  log_count = g.log_count;
  state = discovered;
  attempts = 0;
  last_error = none;
  asc_tx_hash = none;
  query_id = none;
  discovered_at = 0;
  updated_at = 0;
  skip_observation = none;
  relay_history = none;
}

-- `locations.get(job.txHash)!`
abbrev pub job_at : Option Location → Group → Result Job
job_at none g = throw "TypeError"
job_at (some l) g = ok (job_of l g)

unfoldable pub jobs_of : Dict Location → List Group → Result (List Job)
jobs_of locations [] = ok []
jobs_of locations (g ∷ gs) = elim (job_at (lookup g.tx_hash locations) g) [
  | throw e ↦ throw e
  | ok job ↦ elim (jobs_of locations gs) [ throw e ↦ throw e | ok jobs ↦ ok (job ∷ jobs) ]
]

module _ (reader : SourceReader) (others : Moment → StoreData → StoreData)
    (parse : SourceLog → Result (Option String)) (o : ScanOptions) (now : ℕ) where
  -- `await`: the answer comes after what other tasks have done.
  abbrev pub waits : {A : Type 0} → Moment → Result A → Scan A
  waits moment answer d = (others moment d, answer)

  unfoldable pub find_ancestor :
      ℕ → Option ℕ → List SourceCheckpoint → Scan (Option SourceCheckpoint)
  unfolding is_ancestor
  find_ancestor i safe_head [] = returns none
  find_ancestor i safe_head (c ∷ cs) = do
    block ← waits (at_ancestor i) (reader.block (at_ancestor i) (height c.height))
    if is_ancestor block c safe_head then returns (some c) else find_ancestor (suc i) safe_head cs

  abbrev pub rewind_to : Option SourceCheckpoint → Scan ℕ
  rewind_to none = calls (hold_source "SOURCE_REORG_BEYOND_VERIFIED_ANCHOR")
  rewind_to (some ancestor) = calls (rewind_unsigned_source ancestor now)

  unfoldable pub rewind : Option ℕ → List SourceCheckpoint → Scan ℕ
  unfolding find_ancestor
  rewind safe_head cs = do
    lift o.before_rewind
    ancestor ← find_ancestor 0 safe_head (reverse cs)
    rewind_to ancestor

  -- The block of a log, from the table or from the node.
  abbrev pub block_hash_of : ℕ → ℕ → Option String → Scan String
  block_hash_of i n (some h) = returns h
  block_hash_of i n none = do
    block ← waits (at_log i) (reader.block (at_log i) (height n))
    known ← lift (pinned block (some n) "SOURCE_LOG_BLOCK_UNAVAILABLE")
    returns known.hash

  -- The loop over the logs, which fills `blocks` and `locations`.
  unfoldable pub check_logs :
      ℕ → ℕ → ℕ → List SourceLog → List (ℕ × String) → Dict Location → Scan (Dict Location)
  unfolding is_safe_integer
  check_logs i from to [] blocks locations = returns locations
  check_logs i from to (l ∷ ls) blocks locations = do
    lift (
        require
          (not l.removed
            && same_address l.address o.address
            && leb from l.block_number
            && leb l.block_number to
            && is_safe_integer l.transaction_index)
          "SOURCE_LOG_COORDINATE_MISMATCH")
    known ← block_hash_of i l.block_number (hash_at l.block_number blocks)
    lift (require (str_eq known l.block_hash) "SOURCE_LOG_HASH_MISMATCH")
    let place : Location = record {
      block_hash = l.block_hash;
      transaction_index = l.transaction_index;
    }
    lift (
        require (not (is_relocated (lookup l.transaction_hash locations) place))
          "SOURCE_TRANSACTION_COORDINATE_MISMATCH")
    check_logs (suc i) from to ls ((l.block_number, known) ∷ blocks)
        (insert l.transaction_hash place locations)

  -- From the end block of the range to the commit.
  unfoldable pub read_range : ℕ → ℕ → ℕ → Scan ScanResult
  unfolding check_logs jobs_of
  read_range from to rewound = do
    block ← waits at_end (reader.block at_end (height to))
    end ← lift (pinned block (some to) "SOURCE_RANGE_END_UNAVAILABLE")
    logs ←
        waits at_logs
          (reader.logs at_logs (record { address = o.address; from_block = from; to_block = to }))
    locations ← check_logs 0 from to logs [] []
    before ← reads
    start ← lift (last_checkpoint (checkpoints before))
    end_again ← waits at_recheck (reader.block at_recheck (height to))
    start_again ← waits at_recheck (reader.block at_recheck (height start.height))
    final_again ← waits at_recheck (reader.block at_recheck finalized)
    head_again ← waits at_recheck (reader.block_number at_recheck)
    end' ← lift (pinned end_again (some to) "SOURCE_RANGE_CHANGED_DURING_SCAN")
    start' ← lift (pinned start_again (some start.height) "SOURCE_RANGE_CHANGED_DURING_SCAN")
    final' ← lift (pinned final_again none "SOURCE_RANGE_CHANGED_DURING_SCAN")
    lift (
        require
          (str_eq end'.hash end.hash
            && str_eq start'.hash start.hash
            && is_safe_integer head_again
            && leb final'.height head_again
            && leb to final'.height
            && leb (to + o.confirmations) head_again)
          "SOURCE_RANGE_CHANGED_DURING_SCAN")
    groups ← lift (group_source_events logs o.address parse)
    jobs ← lift (jobs_of locations groups)
    after ← reads
    lift (assert_hub_ready after)
    calls (commit_source_range from (record { height = to; hash = end.hash }) jobs now)
    returns (record { scanned = true; jobs = length jobs; rewound = rewound })

  abbrev pub not_scanned : ℕ → ScanResult
  not_scanned rewound = record { scanned = false; jobs = 0; rewound = rewound }

  abbrev pub scan_range : Option ℕ → ℕ → Scan ScanResult
  scan_range safe_head rewound = do
    d ← reads
    if exceeds (d.cursor + 1) safe_head
        then returns (not_scanned rewound)
        else read_range (d.cursor + 1) (range_end (d.cursor + 1) o.chunk safe_head) rewound

  -- From the last checkpoint on.
  unfoldable pub follow : Option ℕ → Scan ScanResult
  unfolding rewind read_range
  follow safe_head = do
    d ← reads
    last ← lift (last_checkpoint (checkpoints d))
    lift (require (last.height == d.cursor) "SOURCE_CHECKPOINT_CURSOR_MISMATCH")
    block ← waits at_checkpoint (reader.block at_checkpoint (height last.height))
    current ← lift (pinned block (some last.height) "SOURCE_CHECKPOINT_UNAVAILABLE")
    rewound ← if str_eq current.hash last.hash then returns 0 else rewind safe_head (checkpoints d)
    scan_range safe_head rewound

  abbrev pub anchor_or_follow : Option ℕ → List SourceCheckpoint → Scan ScanResult
  anchor_or_follow safe_head (c ∷ cs) = follow safe_head
  anchor_or_follow safe_head [] =
      if exceeds (o.start_block - 1) safe_head then returns (not_scanned 0) else (do
        block ← waits at_anchor (reader.block at_anchor (height (o.start_block - 1)))
        anchor ← lift (pinned block (some (o.start_block - 1)) "SOURCE_ANCHOR_UNAVAILABLE")
        calls (initialize_source anchor)
        follow safe_head)

  unfoldable pub scan_source_step : Scan ScanResult
  unfolding valid_settings follow
  scan_source_step = do
    d ← reads
    lift (assert_source_ready d)
    lift (assert_hub_ready d)
    lift (require (valid_settings o) "INVALID_SOURCE_SCAN_SETTINGS")
    head ← waits at_head (reader.block_number at_head)
    block ← waits at_head (reader.block at_head finalized)
    final ← lift (pinned block none "SOURCE_FINALITY_UNCONFIRMED")
    lift (require (is_safe_integer head && leb final.height head) "SOURCE_FINALITY_UNCONFIRMED")
    d' ← reads
    anchor_or_follow (safe_head_of final.height head o.confirmations) (checkpoints d')
