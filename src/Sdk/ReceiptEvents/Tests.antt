-- ===== src/Sdk/ReceiptEvents/Tests.antt =====
-- Runs of the check of receipts on a round of one bid.
use sub_rosa_issue.Prelude.{
  ◌≡◌, refl, true, false, none, some, List, [], ◌∷◌, contains, pos, String,
}
use sub_rosa_issue.Sdk.ReceiptEvents.{
  Text, LogEntry, null_entry, primitive, RoundReceipt, ReceiptEventsVerifyOptions,
  ReceiptEventsVerifyResult, error, ReceiptEventIssue, invalid_event_entry,
  event_not_in_ledger_order, phase_by_name, has_event, settle_events, entries_issues, event_issues,
  round_id_issues, order_issues, require, terminator_issues, binding_issues, no_errors, has_null,
  log_issues, verify_log, verify_receipt_events,
}
use sub_rosa_issue.Sdk.ReceiptEvents.Entries.{log_entry}
use sub_rosa_issue.Sdk.ReceiptEvents.Story.{Meets, SettledStory, verify_receipt_events_sound}

-- Round "7".
abbrev seven : Text
seven = 55 ∷ []

abbrev early : List LogEntry
early =
    log_entry seven "created" (pos 1) "round-created"
    ∷ log_entry seven "commit" (pos 2) "bid-commit"
    ∷ log_entry seven "revealing" (pos 3) "reveal-opened"
    ∷ []

abbrev settled_log : List LogEntry
settled_log =
    log_entry seven "created" (pos 1) "round-created"
    ∷ log_entry seven "commit" (pos 2) "bid-commit"
    ∷ log_entry seven "revealing" (pos 3) "reveal-opened"
    ∷ log_entry seven "reveal" (pos 4) "bid-reveal"
    ∷ log_entry seven "cleared" (pos 5) "round-cleared"
    ∷ log_entry seven "settled" (pos 6) "round-finalized"
    ∷ []

abbrev receipt_of : String → List LogEntry → RoundReceipt
receipt_of status events = record {
  network = "Test";
  contract_id = "C1";
  round_id = some seven;
  status = status;
  events = some events;
}

abbrev expects : ReceiptEventsVerifyOptions
expects = record { expected_contract_id = some "C1"; expected_network_passphrase = none }

abbrev no_issues : ReceiptEventsVerifyResult
no_issues = record { valid = true; issues = [] }

abbrev one_error : ReceiptEventIssue → ReceiptEventsVerifyResult
one_error i = record { valid = false; issues = i ∷ [] }

settled_run : verify_receipt_events (receipt_of "Settled" settled_log) expects ≡ some no_issues
unfolding verify_receipt_events verify_log binding_issues log_issues entries_issues event_issues
    round_id_issues order_issues terminator_issues require has_event settle_events phase_by_name
    no_errors has_null contains
settled_run = refl

open_run : verify_receipt_events (receipt_of "Open" early) expects ≡ some no_issues
unfolding verify_receipt_events verify_log binding_issues log_issues entries_issues event_issues
    round_id_issues order_issues terminator_issues require has_event settle_events phase_by_name
    no_errors has_null contains
open_run = refl

-- A null among the entries makes the check throw.
null_run : verify_receipt_events (receipt_of "Open" (null_entry ∷ early)) expects ≡ none
unfolding verify_receipt_events verify_log has_null
null_run = refl

primitive_run :
    verify_receipt_events (receipt_of "Open" (primitive ∷ early)) expects
    ≡ some (one_error record { severity = error; code = invalid_event_entry })
unfolding verify_receipt_events verify_log binding_issues log_issues entries_issues event_issues
    round_id_issues order_issues terminator_issues require has_event settle_events phase_by_name
    no_errors has_null contains
primitive_run = refl

swapped_run :
    verify_receipt_events
      (receipt_of "Open" (
        log_entry seven "commit" (pos 2) "bid-commit"
        ∷ log_entry seven "created" (pos 1) "round-created"
        ∷ []))
      expects
    ≡ some (one_error record { severity = error; code = event_not_in_ledger_order })
unfolding verify_receipt_events verify_log binding_issues log_issues entries_issues event_issues
    round_id_issues order_issues terminator_issues require has_event settle_events phase_by_name
    no_errors has_null contains
swapped_run = refl

-- The ledgers of the events do not count.
descending_run :
    verify_receipt_events
      (receipt_of "Open" (
        log_entry seven "created" (pos 9) "round-created"
        ∷ log_entry seven "commit" (pos 2) "bid-commit"
        ∷ []))
      expects
    ≡ some no_issues
unfolding verify_receipt_events verify_log binding_issues log_issues entries_issues event_issues
    round_id_issues order_issues terminator_issues require has_event settle_events phase_by_name
    no_errors has_null contains
descending_run = refl

verify_receipt_events_sound_example :
    Meets "C1" (some "C1")
    × (Meets "Test" none
        × ((events : List LogEntry) × (some settled_log ≡ some events) × SettledStory seven events))
verify_receipt_events_sound_example =
    verify_receipt_events_sound (receipt_of "Settled" settled_log) expects no_issues seven refl refl
      refl settled_run refl
