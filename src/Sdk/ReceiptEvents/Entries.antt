-- ===== src/Sdk/ReceiptEvents/Entries.antt =====
-- The entries of a log that the check of packages/sdk/src/receipt-events.ts finds no error in.
use sub_rosa_issue.Prelude.{
  ℕ, ◌≡◌, inl, inr, refl, sym, ap, ◌∙◌, ◌&&◌, not, Bool, true, false, ℤ, String, str_eq_iff, Option,
  none, some, List, [], ◌∷◌, ◌++◌, arith, All, Bool-cases,
}
use sub_rosa_issue.Tlock.Commitment.{same_bytes}
use sub_rosa_issue.Tlock.Commitment.RoundTrip.{same_bytes_iff}
use sub_rosa_issue.Sdk.ReceiptEvents.{
  ReceiptEventIssue, error, EventCode, unknown_event_name, invalid_event_topics,
  invalid_event_entry, event_phase_mismatch, event_round_id_mismatch, Text, RoundReceiptEvent,
  LogEntry, null_entry, primitive, object, phase_by_name, expected_phase, is_decimal, add_if,
  is_known, are_topics, is_integer, is_phase, round_id_issues, event_issues, entries_issues,
  no_errors,
}

-- The event of a round with its topics, as the bindings write it.
abbrev pub log_entry : Text → String → ℤ → String → LogEntry
log_entry rid name ledger phase = object record {
  name = some name;
  topics = some ("symbol_short" ∷ "u64" ∷ []);
  round_id = some rid;
  ledger = some ledger;
  phase = some phase;
}

-- An entry is an event of the round, under a name that has a phase, and with this phase.
abbrev pub Told : Text → LogEntry → Type 0
Told rid entry =
    (name : String) × (ledger : ℤ) × (phase : String) × (rank : ℕ) × (entry
      ≡ log_entry rid name ledger phase)
    × (phase_by_name name ≡ some (phase, rank))

pub both_true : {a b : Bool} → (a && b) ≡ true → (a ≡ true) × (b ≡ true)
both_true {a} {b} h = ground (arith, h)

no_errors-append :
    (xs ys : List ReceiptEventIssue) → no_errors (xs ++ ys) ≡ (no_errors xs && no_errors ys)
unfolding no_errors
no_errors-append [] ys = refl
no_errors-append (i ∷ xs) ys = rw (no_errors-append xs ys) (ground arith)

pub split_errors :
    (xs ys : List ReceiptEventIssue)
    → no_errors (xs ++ ys) ≡ true
    → (no_errors xs ≡ true) × (no_errors ys ≡ true)
split_errors xs ys h = both_true (sym (no_errors-append xs ys) ∙ h)

pub no_errors-add_if :
    (b : Bool) (code : EventCode) → no_errors (add_if b error code) ≡ true → b ≡ false
unfolding no_errors
no_errors-add_if false code h = refl
no_errors-add_if true code h = cc

pub reported :
    (b : Bool) (code : EventCode) → no_errors (add_if (not b) error code) ≡ true → b ≡ true
reported b code h = ground (arith, no_errors-add_if (not b) code h)

-- The parts of an event that has no issue.
topics_lem :
    (topics : Option (List String))
    → are_topics topics ≡ true
    → topics ≡ some ("symbol_short" ∷ "u64" ∷ [])
topics_lem none h = cc
topics_lem (some []) h = cc
topics_lem (some (a ∷ [])) h = cc
topics_lem (some (a ∷ b ∷ [])) h =
    let (l, r) = both_true h in
    rw ((str_eq_iff a "symbol_short").0 l, (str_eq_iff b "u64").0 r) refl
topics_lem (some (a ∷ b ∷ c ∷ rest)) h = cc

ledger_lem : (ledger : Option ℤ) → is_integer ledger ≡ true → (n : ℤ) × (ledger ≡ some n)
ledger_lem none h = cc
ledger_lem (some n) h = (n, refl)

phase_lem :
    (phase : Option String) (expected : Option (String × ℕ))
    → is_phase phase expected ≡ true
    → (p : String) × (rank : ℕ) × (phase ≡ some p) × (expected ≡ some (p, rank))
phase_lem none expected h = cc
phase_lem (some phase) none h = cc
phase_lem (some phase) (some (p, rank)) h = (p, rank, ap some ((str_eq_iff phase p).0 h), refl)

name_lem :
    (name : Option String) (p : String × ℕ)
    → expected_phase name ≡ some p
    → (n : String) × (name ≡ some n) × (phase_by_name n ≡ some p)
name_lem none p h = cc
name_lem (some n) p h = (n, refl, h)

round_id_lem :
    (rid : Text) (id : Option Text)
    → is_decimal rid ≡ true
    → no_errors (round_id_issues (some rid) id) ≡ true
    → id ≡ some rid
unfolding round_id_issues no_errors
round_id_lem rid none d h = cc
round_id_lem rid (some id) d h = elim (Bool-cases (is_decimal id)) [
  | inl e ↦
      let same = reported (same_bytes id rid) event_round_id_mismatch (rw (e, d) at h) in
      ap some ((same_bytes_iff id rid).0 same)
  | inr e ↦ let stuck : false ≡ true = rw e at h in cc stuck
]

rebuilt :
    {rid : Text} {name phase : String} {ledger : ℤ} (ev : RoundReceiptEvent)
    → (ev.name ≡ some name) × (ev.topics ≡ some ("symbol_short" ∷ "u64" ∷ []))
    → (ev.round_id ≡ some rid) × ((ev.ledger ≡ some ledger) × (ev.phase ≡ some phase))
    → object ev ≡ log_entry rid name ledger phase
rebuilt ev (n, t) (r, (l, p)) = rw (n, t, r, l, p) refl

event_issues_lem :
    (rid : Text) (ev : RoundReceiptEvent)
    → is_decimal rid ≡ true
    → no_errors (event_issues (some rid) ev) ≡ true
    → Told rid (object ev)
unfolding event_issues
event_issues_lem rid ev d h =
    let (_, h₁) = split_errors (add_if (not (is_known ev.name)) error unknown_event_name) _ h in
    let (t, h₂) =
      split_errors (add_if (not (are_topics ev.topics)) error invalid_event_topics) _ h₁ in
    let (l, h₃) =
      split_errors (add_if (not (is_integer ev.ledger)) error invalid_event_entry) _ h₂ in
    let (p, h₄) =
      split_errors
        (add_if (not (is_phase ev.phase (expected_phase ev.name))) error event_phase_mismatch) _
        h₃ in
    let (ledger, ledger_eq) = ledger_lem ev.ledger (reported _ _ l) in
    let (phase, rank, phase_eq, expected) = phase_lem ev.phase _ (reported _ _ p) in
    let (name, name_eq, known) = name_lem ev.name _ expected in
    let eq =
      rebuilt ev (name_eq, topics_lem ev.topics (reported _ _ t))
        (round_id_lem rid ev.round_id d h₄, (ledger_eq, phase_eq)) in
    (name, ledger, phase, rank, eq, known)

pub entries_issues_lem :
    (rid : Text) (events : List LogEntry)
    → is_decimal rid ≡ true
    → no_errors (entries_issues (some rid) events) ≡ true
    → All (Told rid) events
unfolding entries_issues no_errors
entries_issues_lem rid [] d h = tt
entries_issues_lem rid (null_entry ∷ rest) d h = cc
entries_issues_lem rid (primitive ∷ rest) d h = cc
entries_issues_lem rid (object ev ∷ rest) d h =
    let (first, others) = split_errors (event_issues (some rid) ev) _ h in
    (event_issues_lem rid ev d first, entries_issues_lem rid rest d others)
