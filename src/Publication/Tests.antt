-- ===== src/Publication/Tests.antt =====
-- pipeline/epoch-publication-journal.ts on a journal with one plan, which is signed and confirmed.
use proofmark.Prelude.{
  true, false, none, some, List, [], ◌∷◌, ◌≡◌, refl, is_safe_integer, ok, arith,
}
use proofmark.Prelude.Text.{Text, codes, text_eq, text_eq_iff, to_lower_case, lower_unit}
use proofmark.Publication.Checks.{
  PublicationScope, PublicationIntent, PublicationEntry, PublicationRuntime, address, scope_value,
  intent_value, bound_transaction, validate_entries, validate,
}
use proofmark.Publication.Journal.{
  snapshot, EpochPublicationJournal, written, unconfirmed, released, assert_open, check_save, save,
  open_journal, fresh,
}
use proofmark.Publication.Operations.{
  find, set_entry, begin, plan_begin, prepare, plan_prepare, new_entry,
}
use proofmark.Publication.Delivery.{
  PublicationTransport, absent, advance_publication, resumes, sends,
}
use proofmark.Publication.Delivered.{IsDurable}
use proofmark.Publication.Advanced.{advance_publication-IsDurable}
use proofmark.Publication.Growth.{Extends, NonceOnce}
use proofmark.Publication.Safe.{}
use proofmark.Publication.Reach.{
  PublicationRun, starts, goes_on, begins, prepares, opens, unlocks, no_journal,
  PublicationRun-Extends,
}
use proofmark.Publication.Durable.{Unseals, IsSigned, prepare-IsSigned, open_journal-total}

abbrev own_scope : PublicationScope
own_scope = record { chain_id = 1; source = codes "0xaa"; publisher = codes "0xbb" }

abbrev test_runtime : PublicationRuntime
test_runtime = record {
  get_address = ok;
  parse_call = λ data_text. ok (codes "publishEpoch", data_text);
  read_transaction = λ raw. ok (record {
    is_signed = true;
    hash = some raw;
    from = some (codes "0xBB");
    to = some (codes "0xaa");
    chain_id = 1;
    value = 0;
    calldata = codes "0x00";
    nonce = 7;
    serialized = raw;
  });
  plan_hash = λ scope intent. codes "plan";
  envelope_size = λ scope entries. 0;
  unseals = λ secret scope sealed_secret sealed_scope. text_eq secret sealed_secret;
}

abbrev block_hash : Text
block_hash = codes "0x0000000000000000000000000000000000000000000000000000000000000000"

abbrev intent : PublicationIntent
intent = record {
  calldata = codes "0x00";
  source_cutoff = record { block_number = 1; block_hash = block_hash };
  availability = none;
  created_at = 5;
}

abbrev secret : Text
secret = codes "0123456789abcdef0123456789abcdef"

abbrev begun_entry : PublicationEntry
begun_entry = new_entry (codes "plan") intent

abbrev signed_entry : PublicationEntry
signed_entry = record begun_entry {
  transaction = some (record { raw = codes "raw"; hash = codes "raw"; nonce = 7 });
}

abbrev opened_journal : EpochPublicationJournal
opened_journal = fresh test_runtime secret own_scope (no_journal own_scope)

abbrev holding : List PublicationEntry → EpochPublicationJournal
holding entries = record opened_journal {
  entries = entries;
  file = some (secret, own_scope, entries);
}

opened-run : PublicationRun test_runtime (no_journal own_scope) opened_journal
unfolding open_journal scope_value address text_eq to_lower_case lower_unit is_safe_integer
opened-run = goes_on starts (opens true released (codes "path") secret own_scope)

begun-run : PublicationRun test_runtime (no_journal own_scope) (holding (begun_entry ∷ []))
unfolding begin plan_begin assert_open intent_value find save check_save validate validate_entries
    text_eq to_lower_case lower_unit is_safe_integer
begun-run = goes_on opened-run (begins written intent)

signed-eq :
    prepare test_runtime written (codes "plan") (codes "raw") (holding (begun_entry ∷ []))
    ≡ (holding (signed_entry ∷ []), ok signed_entry)
unfolding prepare plan_prepare assert_open bound_transaction intent_value find set_entry save
    check_save validate validate_entries text_eq to_lower_case lower_unit is_safe_integer
signed-eq = refl

prepare-IsSigned_example :
    (find (codes "plan") (signed_entry ∷ []) ≡ some signed_entry)
    × IsSigned test_runtime own_scope (codes "raw") signed_entry
prepare-IsSigned_example =
    prepare-IsSigned test_runtime own_scope begun-run written (codes "plan") (codes "raw") signed-eq

abbrev unlocked_journal : EpochPublicationJournal
unlocked_journal = record (holding (begun_entry ∷ [])) {
  poisoned = true;
  file = some (secret, own_scope, signed_entry ∷ []);
  closed = true;
  locked = false;
}

-- A write that was not confirmed, and then the operator.
later-run : PublicationRun test_runtime (holding (begun_entry ∷ [])) unlocked_journal
unfolding prepare plan_prepare assert_open bound_transaction intent_value find set_entry save
    check_save validate validate_entries text_eq to_lower_case lower_unit is_safe_integer
later-run = goes_on (goes_on starts (prepares unconfirmed (codes "plan") (codes "raw"))) unlocks

PublicationRun-Extends_example :
    Extends (begun_entry ∷ []) (signed_entry ∷ []) × NonceOnce (signed_entry ∷ [])
PublicationRun-Extends_example = PublicationRun-Extends test_runtime own_scope begun-run later-run

unlocked-run : PublicationRun test_runtime (no_journal own_scope) unlocked_journal
unfolding prepare plan_prepare assert_open bound_transaction intent_value find set_entry save
    check_save validate validate_entries text_eq to_lower_case lower_unit is_safe_integer
unlocked-run =
    goes_on (goes_on begun-run (prepares unconfirmed (codes "plan") (codes "raw"))) unlocks

own-eq : scope_value test_runtime own_scope ≡ ok own_scope
unfolding scope_value address text_eq to_lower_case lower_unit is_safe_integer
own-eq = refl

unseals-eq : Unseals test_runtime
unseals-eq sealed scope = (text_eq_iff sealed sealed).1 refl

open_journal-total_example :
    open_journal test_runtime true released (codes "path") secret own_scope unlocked_journal ≡ (
      record unlocked_journal {
        entries = signed_entry ∷ [];
        closed = false;
        poisoned = false;
        locked = true;
      },
      ok tt,
    )
open_journal-total_example =
    open_journal-total test_runtime own_scope unlocked-run released (codes "path") secret own_scope
      unseals-eq refl (omega arith) (omega arith) own-eq (refl, refl)

abbrev test_transport : PublicationTransport
test_transport = record {
  observe = λ at e. ok absent;
  assert_ready = λ at e. ok tt;
  sign = λ e. ok (codes "raw");
  meanwhile = λ at k. k;
  prepare_end = written;
  confirm_end = written;
}

advance_publication-IsDurable_example : IsDurable (some (signed_entry, holding (signed_entry ∷ [])))
unfolding advance_publication resumes sends snapshot prepare plan_prepare assert_open
    bound_transaction intent_value find set_entry save check_save validate validate_entries text_eq
    to_lower_case lower_unit is_safe_integer
advance_publication-IsDurable_example =
    advance_publication-IsDurable test_runtime test_transport (λ at k. starts) own_scope begun-run
      (codes "plan")
