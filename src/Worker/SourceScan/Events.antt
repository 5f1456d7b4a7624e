-- ===== src/Worker/SourceScan/Events.antt =====
-- worker/source-events.ts: `groupSourceEvents`. The decoding of a log by `iface.parseLog` is a parameter: it
-- gives the name of the event, nothing, or throws.
use proofmark.Prelude.{
  ℕ, ◌+◌, String, Bool, ◌&&◌, ◌||◌, Option, none, some, List, [], ◌∷◌, ◌++◌, any, ltb, ◌==◌,
  if◌then◌else◌, str_eq, Result, ok, throw, ◌>>=◌, ◌>>◌, require,
}
use Prim.Native.String.{◌++◌ as str_append}
use proofmark.Prelude.Text.{codes, text_eq, to_lower_case}
use proofmark.Prelude.Sorting.{sort}
use proofmark.Prelude.Dict.{Dict, lookup, insert, values}

pub record SourceLog : Type 0 where
  pub address : String
  pub topics : List String
  pub payload : String
  pub transaction_hash : String
  pub transaction_index : ℕ
  pub block_number : ℕ
  pub block_hash : String
  pub index : ℕ
  pub removed : Bool

-- `a.toLowerCase() === b.toLowerCase()`
abbrev pub same_address : String → String → Bool
same_address a b = text_eq (to_lower_case (codes a)) (to_lower_case (codes b))

-- `EVENT_TO_ACTION[name]`; the names with an action are `WATCHED_EVENTS`.
unfoldable pub action_of : String → Option ℕ
action_of name =
    if str_eq name "MarkIssued" || str_eq name "KeyedMarkIssued"
    then some 0
    else if str_eq name "MarkRevoked"
    then some 1
    else if str_eq name "SanctionDenied"
    then some 2
    else if str_eq name "RosterEpochPublished"
    then some 3
    else if str_eq name "IssuerKeyCompromised"
    then some 4
    else if str_eq name "SanctionDenialCorrected"
    then some 5
    else none

-- A value of `groups`, with the set of `names` of its transaction.
pub record Group : Type 0 where
  pub tx_hash : String
  pub block_number : ℕ
  pub action : ℕ
  pub names : List String
  pub log_count : ℕ

-- `names.add(name)`
abbrev pub add_name : String → List String → List String
add_name name names = if any (λ n. str_eq n name) names then names else names ++ name ∷ []

-- `[...names].join('+')`
abbrev pub join_names : List String → String
join_names [] = ""
join_names (n ∷ []) = n
join_names (n ∷ n' ∷ ns) = str_append n (str_append "+" (join_names (n' ∷ ns)))

abbrev pub new_group : SourceLog → ℕ → Option Group → Group
new_group l action (some g) = g
new_group l action none = record {
  tx_hash = l.transaction_hash;
  block_number = l.block_number;
  action = action;
  names = [];
  log_count = 0;
}

-- The end of the body of the loop, for an event that is watched.
unfoldable pub place_log : SourceLog → String → ℕ → Dict Group → Result (Dict Group)
place_log l name action groups = do
  let g = new_group l action (lookup l.transaction_hash groups)
  require (g.block_number == l.block_number) "inconsistent source transaction block"
  ok (
      insert l.transaction_hash
        (record g { names = add_name name g.names; log_count = g.log_count + 1 }) groups)

abbrev pub place_named : SourceLog → Option String → Dict Group → Result (Dict Group)
place_named l none groups = ok groups
place_named l (some name) groups = elim (action_of name) [
  | none ↦ ok groups
  | some action ↦ place_log l name action groups
]

abbrev pub place_parsed : SourceLog → Result (Option String) → Dict Group → Result (Dict Group)
place_parsed l (throw e) groups = ok groups
place_parsed l (ok name) groups = place_named l name groups

unfoldable pub group_logs :
    String
    → (SourceLog → Result (Option String))
    → List SourceLog
    → Dict Group
    → Result (Dict Group)
unfolding place_log action_of
group_logs source parse [] groups = ok groups
group_logs source parse (l ∷ ls) groups = do
  next ← if same_address l.address source then place_parsed l (parse l) groups else ok groups
  group_logs source parse ls next

-- The order of the logs on the chain.
abbrev pub log_after : SourceLog → SourceLog → Bool
log_after x y =
    ltb y.block_number x.block_number || (x.block_number == y.block_number && ltb y.index x.index)

unfoldable pub group_source_events :
    List SourceLog → String → (SourceLog → Result (Option String)) → Result (List Group)
unfolding group_logs
group_source_events raw source parse = do
  groups ← group_logs source parse (sort log_after raw) []
  ok (values groups)

-- A value of `locations` in worker/source-scan.ts.
pub record Location : Type 0 where
  pub block_hash : String
  pub transaction_index : ℕ
