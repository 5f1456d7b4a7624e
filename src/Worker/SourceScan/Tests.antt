-- ===== src/Worker/SourceScan/Tests.antt =====
-- worker/source-scan.ts: the first scan of a new store, on a node with one event.
use proofmark.Prelude.{
  ◌≡◌, refl, String, true, false, Option, some, [], ◌∷◌, Result, ok, is_safe_integer, str_eq,
  truthy, filter,
}
use proofmark.Prelude.Dict.{lookup, insert, values}
use proofmark.Prelude.Sorting.{sort, insert_sorted}
use proofmark.Prelude.Text.{text_eq, to_lower_case, lower_unit}
use proofmark.Worker.Job.{StoreData}
use proofmark.Worker.Store.{empty_data, assert_source_ready, assert_hub_ready, commits, guarded}
use proofmark.Worker.Store.Source.{
  initialize_source, commit_source_range, add_source_jobs, add_source_job, trim_checkpoints,
}
use proofmark.Worker.SourceScan.Events.{
  SourceLog, action_of, place_log, group_logs, group_source_events,
}
use proofmark.Worker.SourceScan.{
  height, finalized, Moment, SourceReader, ScanOptions, ScanResult, valid_block, pinned,
  valid_settings, jobs_of, check_logs, read_range, follow, scan_source_step,
}
use proofmark.Worker.SourceScan.Range.{IsPinned, scan_source_step-IsPinned}

abbrev word : String
word = "0xabababababababababababababababababababababababababababababababab"

abbrev issued : SourceLog
issued = record {
  address = "0xSource";
  topics = "0x01" ∷ [];
  payload = "0x";
  transaction_hash = "0xaa";
  transaction_index = 3;
  block_number = 11;
  block_hash = word;
  index = 0;
  removed = false;
}

abbrev node : SourceReader
node = record {
  block_number = λ m. ok 40;
  block = λ m tag.
      ok (some (record { number = elim tag [ height n ↦ n | finalized ↦ 30 ]; hash = some word }));
  logs = λ m filter. ok (issued ∷ []);
}

abbrev options : ScanOptions
options = record {
  address = "0xsource";
  start_block = 10;
  confirmations = 6;
  chunk = 5;
  before_rewind = ok tt;
}

abbrev alone : Moment → StoreData → StoreData
alone m d = d

abbrev parsed : SourceLog → Result (Option String)
parsed l = ok (some "MarkIssued")

abbrev first_scan : StoreData × Result ScanResult
first_scan = scan_source_step node alone parsed options 1000 empty_data

first_scan-eq : first_scan.1 ≡ ok (record { scanned = true; jobs = 1; rewound = 0 })
unfolding scan_source_step valid_settings valid_block pinned follow read_range check_logs jobs_of
    group_source_events group_logs place_log action_of initialize_source commit_source_range
    add_source_jobs add_source_job trim_checkpoints commits guarded assert_source_ready
    assert_hub_ready lookup insert values sort insert_sorted text_eq to_lower_case lower_unit
    is_safe_integer str_eq truthy filter
first_scan-eq = refl

cursor_moved : first_scan.0.cursor ≡ 14
unfolding scan_source_step valid_settings valid_block pinned follow read_range check_logs jobs_of
    group_source_events group_logs place_log action_of initialize_source commit_source_range
    add_source_jobs add_source_job trim_checkpoints commits guarded assert_source_ready
    assert_hub_ready lookup insert values sort insert_sorted text_eq to_lower_case lower_unit
    is_safe_integer str_eq truthy filter
cursor_moved = refl

scan_source_step-IsPinned_example :
    IsPinned node alone parsed options 1000 first_scan.0
      (record { scanned = true; jobs = 1; rewound = 0 })
scan_source_step-IsPinned_example =
    scan_source_step-IsPinned node alone parsed options 1000 empty_data first_scan.0
      (record { scanned = true; jobs = 1; rewound = 0 }) (λ i. (first_scan.0, first_scan-eq i)) refl
