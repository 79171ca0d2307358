-- ===== src/Sdk/ReceiptEvents.antt =====
-- packages/sdk/src/receipt-events.ts: the check of the event log of a receipt, over the events of
-- packages/round-bindings/src/event-snapshot.ts. A field that has another type than it should is
-- `none`; a round id is the list of its character codes. Messages and paths are left out.
pub mod Entries
pub mod Story
pub mod Tests
use sub_rosa_issue.Prelude.{
  ℕ, ◌+◌, ◌≤◌, ◌==◌, ◌&&◌, ◌||◌, not, ltb, leb, Bool, true, false, ℤ, String, str_eq, Option, none,
  some, List, [], ◌∷◌, ◌++◌, map, if◌then◌else◌, contains,
}
use sub_rosa_issue.Tlock.Commitment.{same_bytes}

pub data Severity : Type 0 where
  error warning : Severity

pub data EventCode : Type 0 where
  missing_events invalid_event_entry unknown_event_name invalid_event_round_id : EventCode
  event_round_id_mismatch invalid_event_topics event_phase_mismatch : EventCode
  event_not_in_ledger_order duplicate_settle_event missing_events_required : EventCode
  event_contract_mismatch event_network_mismatch : EventCode

pub record ReceiptEventIssue : Type 0 where
  pub severity : Severity
  pub code : EventCode

abbrev pub Text : Type 0
Text = List ℕ

pub record RoundReceiptEvent : Type 0 where
  pub name : Option String
  pub topics : Option (List String)
  pub round_id : Option Text
  pub ledger : Option ℤ
  pub phase : Option String

-- An entry of the log: `null`, another value that is not an object, or an object.
pub data LogEntry : Type 0 where
  null_entry primitive : LogEntry
  object : RoundReceiptEvent → LogEntry

-- A log that is not an array is `none`.
pub record RoundReceipt : Type 0 where
  pub network : String
  pub contract_id : String
  pub round_id : Option Text
  pub status : String
  pub events : Option (List LogEntry)

pub record ReceiptEventsVerifyOptions : Type 0 where
  pub expected_contract_id : Option String
  pub expected_network_passphrase : Option String

pub record ReceiptEventsVerifyResult : Type 0 where
  pub valid : Bool
  pub issues : List ReceiptEventIssue

abbrev pub all_round_event_names : List String
all_round_event_names =
    "cleared" ∷ "commit" ∷ "created" ∷ "reveal" ∷ "revealing" ∷ "settled" ∷ "voided" ∷ []

-- The phase of an event and the rank of the phase, by the lifecycle order.
unfoldable pub phase_by_name : String → Option (String × ℕ)
phase_by_name name =
    if str_eq name "created"
    then some ("round-created", 0)
    else if str_eq name "commit"
    then some ("bid-commit", 1)
    else if str_eq name "revealing"
    then some ("reveal-opened", 2)
    else if str_eq name "reveal"
    then some ("bid-reveal", 3)
    else if str_eq name "cleared"
    then some ("round-cleared", 4)
    else if str_eq name "settled"
    then some ("round-finalized", 5)
    else if str_eq name "voided"
    then some ("round-finalized", 5)
    else none

abbrev pub expected_phase : Option String → Option (String × ℕ)
expected_phase none = none
expected_phase (some name) = phase_by_name name

abbrev pub is_digit_code : ℕ → Bool
is_digit_code c = leb 48 c && leb c 57

abbrev pub all_digit_codes : Text → Bool
all_digit_codes [] = true
all_digit_codes (c ∷ rest) = is_digit_code c && all_digit_codes rest

-- Whether `parseU64` accepts the text.
abbrev pub is_decimal : Text → Bool
is_decimal [] = false
is_decimal (c ∷ rest) = all_digit_codes (c ∷ rest)

-- `add`, if the condition holds.
abbrev pub add_if : Bool → Severity → EventCode → List ReceiptEventIssue
add_if true severity code = record { severity = severity; code = code } ∷ []
add_if false severity code = []

abbrev pub is_known : Option String → Bool
is_known none = false
is_known (some name) = contains all_round_event_names name

abbrev pub are_topics : Option (List String) → Bool
are_topics (some (a ∷ b ∷ [])) = str_eq a "symbol_short" && str_eq b "u64"
are_topics _ = false

abbrev pub is_integer : Option ℤ → Bool
is_integer none = false
is_integer (some ledger) = true

abbrev pub is_phase : Option String → Option (String × ℕ) → Bool
is_phase (some phase) (some (expected, rank)) = str_eq phase expected
is_phase phase expected = false

-- The round id of an event against the receipt's.
unfoldable pub round_id_issues : Option Text → Option Text → List ReceiptEventIssue
round_id_issues round_id none = add_if true error invalid_event_round_id
round_id_issues none (some id) = add_if (not (is_decimal id)) error invalid_event_round_id
round_id_issues (some round_id) (some id) =
    if not (is_decimal id)
    then add_if true error invalid_event_round_id
    else add_if (is_decimal round_id && not (same_bytes id round_id)) error event_round_id_mismatch

-- The checks of one event.
unfoldable pub event_issues : Option Text → RoundReceiptEvent → List ReceiptEventIssue
event_issues round_id ev =
    add_if (not (is_known ev.name)) error unknown_event_name
    ++ (add_if (not (are_topics ev.topics)) error invalid_event_topics
        ++ (add_if (not (is_integer ev.ledger)) error invalid_event_entry
            ++ (add_if (not (is_phase ev.phase (expected_phase ev.name))) error event_phase_mismatch
                ++ round_id_issues round_id ev.round_id)))

abbrev pub entry_issues : Option Text → LogEntry → List ReceiptEventIssue
entry_issues round_id null_entry = add_if true error invalid_event_entry
entry_issues round_id primitive = add_if true error invalid_event_entry
entry_issues round_id (object ev) = event_issues round_id ev

unfoldable pub entries_issues : Option Text → List LogEntry → List ReceiptEventIssue
entries_issues round_id [] = []
entries_issues round_id (entry ∷ rest) = entry_issues round_id entry ++ entries_issues round_id rest

-- `ev.name`, which a value that is not an object does not have.
abbrev pub name_of : LogEntry → Option String
name_of null_entry = none
name_of primitive = none
name_of (object ev) = ev.name

-- A pair of neighbours whose phases are known and out of order.
abbrev pub regresses : Option (String × ℕ) → Option (String × ℕ) → Bool
regresses (some (a, before)) (some (b, after)) = ltb after before
regresses before after = false

unfoldable pub order_issues : List (Option String) → List ReceiptEventIssue
order_issues [] = []
order_issues (prev ∷ []) = []
order_issues (prev ∷ curr ∷ rest) =
    add_if (regresses (expected_phase prev) (expected_phase curr)) error event_not_in_ledger_order
    ++ order_issues (curr ∷ rest)

abbrev pub names : Option String → String → Bool
names none expected = false
names (some name) expected = str_eq name expected

unfoldable pub has_event : String → List (Option String) → Bool
has_event name [] = false
has_event name (other ∷ rest) = names other name || has_event name rest

abbrev pub is_settle_event : Option String → Bool
is_settle_event name = names name "settled" || names name "voided"

unfoldable pub settle_events : List (Option String) → ℕ
settle_events [] = 0
settle_events (name ∷ rest) = (if is_settle_event name then 1 else 0) + settle_events rest

unfoldable pub require : List String → List (Option String) → List ReceiptEventIssue
require [] present = []
require (name ∷ rest) present =
    add_if (not (has_event name present)) error missing_events_required ++ require rest present

abbrev pub settled_lifecycle : List String
settled_lifecycle = "created" ∷ "commit" ∷ "revealing" ∷ "reveal" ∷ "cleared" ∷ "settled" ∷ []

unfoldable pub terminator_issues : String → List (Option String) → List ReceiptEventIssue
terminator_issues status present =
    if str_eq status "Settled"
    then require settled_lifecycle present
      ++ add_if (has_event "voided" present) error event_phase_mismatch
    else if str_eq status "Voided"
    then require ("voided" ∷ "created" ∷ []) present
      ++ add_if (has_event "settled" present) error event_phase_mismatch
    else add_if (has_event "settled" present || has_event "voided" present) warning
        event_phase_mismatch

abbrev pub differs_from : String → Option String → Bool
differs_from actual none = false
differs_from actual (some expected) = not (str_eq actual expected)

unfoldable pub binding_issues : RoundReceipt → ReceiptEventsVerifyOptions → List ReceiptEventIssue
binding_issues receipt options =
    add_if (differs_from receipt.contract_id options.expected_contract_id) error
      event_contract_mismatch
    ++ add_if (differs_from receipt.network options.expected_network_passphrase) error
        event_network_mismatch

abbrev pub is_warning : Severity → Bool
is_warning error = false
is_warning warning = true

unfoldable pub no_errors : List ReceiptEventIssue → Bool
no_errors [] = true
no_errors (i ∷ rest) = is_warning i.severity && no_errors rest

-- Whether an entry is `null`, which has no fields to read.
unfoldable pub has_null : List LogEntry → Bool
has_null [] = false
has_null (null_entry ∷ rest) = true
has_null (primitive ∷ rest) = has_null rest
has_null (object ev ∷ rest) = has_null rest

unfoldable pub log_issues : RoundReceipt → List LogEntry → List ReceiptEventIssue
log_issues receipt events =
    entries_issues receipt.round_id events
    ++ (order_issues (map name_of events)
        ++ (add_if (ltb 1 (settle_events (map name_of events))) error duplicate_settle_event
            ++ terminator_issues receipt.status (map name_of events)))

abbrev pub result_of : List ReceiptEventIssue → ReceiptEventsVerifyResult
result_of issues = record { valid = no_errors issues; issues = issues }

abbrev pub no_log : List ReceiptEventIssue → ReceiptEventsVerifyResult
no_log issues = record {
  valid = false;
  issues = issues ++ record { severity = error; code = missing_events } ∷ [];
}

-- `none` is a throw: a `null` is reported, and then the loops after the first read its name.
unfoldable pub verify_log :
    RoundReceipt
    → List ReceiptEventIssue
    → Option (List LogEntry)
    → Option ReceiptEventsVerifyResult
verify_log receipt issues none = some (no_log issues)
verify_log receipt issues (some []) = some (no_log issues)
verify_log receipt issues (some (entry ∷ rest)) =
    if has_null (entry ∷ rest)
    then none
    else some (result_of (issues ++ log_issues receipt (entry ∷ rest)))

unfoldable pub verify_receipt_events :
    RoundReceipt → ReceiptEventsVerifyOptions → Option ReceiptEventsVerifyResult
verify_receipt_events receipt options =
    verify_log receipt (binding_issues receipt options) receipt.events
