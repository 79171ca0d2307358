-- ===== src/Sdk/ReceiptEvents/Story.antt =====
-- What a receipt that `verifyReceiptEvents` of packages/sdk/src/receipt-events.ts finds valid tells of
-- its round.
use sub_rosa_issue.Prelude.{
  ℕ, ◌≤◌, ◌≡◌, ◌⊎◌, inl, inr, refl, sym, ap, ◌∙◌, not, ltb, true, false, String, str_eq, str_eq_iff,
  Option, none, some, List, [], ◌∷◌, ◌++◌, map, arith, All, Bool-cases, some_inj, unless_some,
}
use sub_rosa_issue.Sdk.ReceiptEvents.{
  ReceiptEventIssue, error, event_not_in_ledger_order, missing_events_required,
  duplicate_settle_event, event_contract_mismatch, Text, LogEntry, RoundReceipt,
  ReceiptEventsVerifyOptions, ReceiptEventsVerifyResult, expected_phase, is_decimal, add_if,
  entries_issues, name_of, regresses, order_issues, names, has_event, settle_events, require,
  settled_lifecycle, terminator_issues, differs_from, binding_issues, no_errors, has_null,
  log_issues, verify_log, verify_receipt_events,
}
use sub_rosa_issue.Sdk.ReceiptEvents.Entries.{
  Told, split_errors, no_errors-add_if, reported, entries_issues_lem,
}

abbrev pub rank_or_zero : Option (String × ℕ) → ℕ
rank_or_zero none = 0
rank_or_zero (some (phase, rank)) = rank

abbrev pub rank_of : LogEntry → ℕ
rank_of entry = rank_or_zero (expected_phase (name_of entry))

-- No entry is of an earlier phase than one before it.
unfoldable pub IsAscending : List LogEntry → Type 0
IsAscending [] = Unit
IsAscending (entry ∷ rest) = All (λ later. rank_of entry ≤ rank_of later) rest × IsAscending rest

unfoldable pub Appears : String → List LogEntry → Type 0
Appears name [] = ⊥
Appears name (entry ∷ rest) = (name_of entry ≡ some name) ⊎ Appears name rest

-- Nothing is expected, or what is there.
abbrev pub Meets : String → Option String → Type 0
Meets actual expected = (expected ≡ none) ⊎ (expected ≡ some actual)

-- The order: neighbours in order make the whole log ordered, since each event has a rank.
ranked :
    (rid : Text) (entry : LogEntry)
    → Told rid entry
    → (p : String × ℕ) × (expected_phase (name_of entry) ≡ some p)
ranked rid entry (name, ledger, phase, rank, eq, known) = ((phase, rank), rw eq known)

in_order :
    (a b : Option (String × ℕ)) (p q : String × ℕ)
    → a ≡ some p
    → b ≡ some q
    → regresses a b ≡ false
    → rank_or_zero a ≤ rank_or_zero b
in_order a b (s, n) (t, m) ha hb h =
    let ordered : ltb m n ≡ false = rw (ha, hb) at h in rw (ha, hb) (ground (arith, ordered))

below-All :
    (n m : ℕ) (rest : List LogEntry)
    → n ≤ m
    → All (λ later. m ≤ rank_of later) rest
    → All (λ later. n ≤ rank_of later) rest
below-All n m [] le h = tt
below-All n m (entry ∷ rest) le h = (omega (arith, le, h.0), below-All n m rest le h.1)

order_issues_lem :
    (rid : Text) (events : List LogEntry)
    → All (Told rid) events
    → no_errors (order_issues (map name_of events)) ≡ true
    → IsAscending events
unfolding order_issues IsAscending
order_issues_lem rid [] told h = tt
order_issues_lem rid (entry ∷ []) told h = (tt, tt)
order_issues_lem rid (prev ∷ curr ∷ rest) (t, (u, told)) h =
    let (now, later) =
      split_errors
        (add_if (regresses (expected_phase (name_of prev)) (expected_phase (name_of curr))) error
          event_not_in_ledger_order)
        _ h in
    let (p, hp) = ranked rid prev t in
    let (q, hq) = ranked rid curr u in
    let le = in_order _ _ p q hp hq (no_errors-add_if _ _ now) in
    let rest_IsAscending = order_issues_lem rid (curr ∷ rest) (u, told) later in
    ((le, below-All _ _ rest le rest_IsAscending.0), rest_IsAscending)

-- The events that must be there.
names_lem :
    (name : Option String) (expected : String) → names name expected ≡ true → name ≡ some expected
names_lem none expected h = cc
names_lem (some name) expected h = ap some ((str_eq_iff name expected).0 h)

has_event_lem :
    (name : String) (events : List LogEntry)
    → has_event name (map name_of events) ≡ true
    → Appears name events
unfolding has_event Appears
has_event_lem name [] h = cc
has_event_lem name (entry ∷ rest) h = elim (Bool-cases (names (name_of entry) name)) [
  | inl e ↦ inl (names_lem (name_of entry) name e)
  | inr e ↦ inr (has_event_lem name rest (ground (arith, h, e)))
]

require_lem :
    (required : List String) (events : List LogEntry)
    → no_errors (require required (map name_of events)) ≡ true
    → All (λ name. Appears name events) required
unfolding require
require_lem [] events h = tt
require_lem (name ∷ rest) events h =
    let (first, others) =
      split_errors
        (add_if (not (has_event name (map name_of events))) error missing_events_required) _ h in
    (has_event_lem name events (reported _ _ first), require_lem rest events others)

settle_events_lem :
    (events : List LogEntry) → Appears "settled" events → 1 ≤ settle_events (map name_of events)
unfolding settle_events Appears
settle_events_lem [] h = absurd h
settle_events_lem (entry ∷ rest) (inl h) = rw h (ground arith)
settle_events_lem (entry ∷ rest) (inr h) = omega (arith, settle_events_lem rest h)

binding_lem :
    (actual : String) (expected : Option String)
    → differs_from actual expected ≡ false
    → Meets actual expected
binding_lem actual none h = inl refl
binding_lem actual (some expected) h =
    inr (ap some (sym ((str_eq_iff actual expected).0 (ground (arith, h)))))

log_lem :
    (receipt : RoundReceipt) (issues : List ReceiptEventIssue) (log : Option (List LogEntry))
    (result : ReceiptEventsVerifyResult)
    → verify_log receipt issues log ≡ some result
    → result.valid ≡ true
    → (events : List LogEntry) × (log ≡ some events)
      × (no_errors (issues ++ log_issues receipt events) ≡ true)
unfolding verify_log
log_lem receipt issues none result ran valid =
    let stuck : false ≡ true = ap (λ r. r.valid) (some_inj _ result ran) ∙ valid in cc stuck
log_lem receipt issues (some []) result ran valid =
    let stuck : false ≡ true = ap (λ r. r.valid) (some_inj _ result ran) ∙ valid in cc stuck
log_lem receipt issues (some (entry ∷ rest)) result ran valid =
    let (_, returned) = unless_some (has_null (entry ∷ rest)) _ result ran in
    (entry ∷ rest, refl, ap (λ r. r.valid) (some_inj _ result returned) ∙ valid)

-- What a log tells of a settled round.
abbrev pub SettledStory : Text → List LogEntry → Type 0
SettledStory rid events =
    All (Told rid) events
    × (IsAscending events
        × (All (λ name. Appears name events) settled_lifecycle
            × (settle_events (map name_of events) ≡ 1)))

settled_status :
    (status : String) (events : List LogEntry)
    → status ≡ "Settled"
    → no_errors (terminator_issues status (map name_of events)) ≡ true
    → All (λ name. Appears name events) settled_lifecycle
unfolding terminator_issues
settled_status status events settled h =
    let test : str_eq status "Settled" ≡ true = (str_eq_iff status "Settled").1 settled in
    let required = rw test at h in
    require_lem settled_lifecycle events
      (split_errors (require settled_lifecycle (map name_of events)) _ required).0

log_issues_lem :
    (receipt : RoundReceipt) (rid : Text) (events : List LogEntry)
    → receipt.status ≡ "Settled"
    → receipt.round_id ≡ some rid
    → is_decimal rid ≡ true
    → no_errors (log_issues receipt events) ≡ true
    → SettledStory rid events
unfolding log_issues
log_issues_lem receipt rid events settled id d h =
    let (entries, h₁) = split_errors (entries_issues receipt.round_id events) _ h in
    let (order, h₂) = split_errors (order_issues (map name_of events)) _ h₁ in
    let (once, status) =
      split_errors
        (add_if (ltb 1 (settle_events (map name_of events))) error duplicate_settle_event) _ h₂ in
    let told = entries_issues_lem rid events d (rw id at entries) in
    let lifecycle = settled_status receipt.status events settled status in
    let at_most = no_errors-add_if _ _ once in
    let at_least = settle_events_lem events lifecycle.1.1.1.1.1.0 in
    (told, (order_issues_lem rid events told order, (lifecycle, ground (arith, at_most, at_least))))

-- A receipt of a settled round whose round id is decimal and that the check finds valid is of the
-- contract and the network that the caller expects, if any, and its log tells the whole story of the
-- round. Each entry is an event of this round with the topics and the phase that belong to its name,
-- no event is of an earlier phase than one before it, all six events of the lifecycle appear, from
-- created to settled, and exactly one event ends the round.
pub verify_receipt_events_sound :
    (receipt : RoundReceipt) (options : ReceiptEventsVerifyOptions)
    (result : ReceiptEventsVerifyResult) (rid : Text)
    → receipt.status ≡ "Settled"
    → receipt.round_id ≡ some rid
    → is_decimal rid ≡ true
    → verify_receipt_events receipt options ≡ some result
    → result.valid ≡ true
    → Meets receipt.contract_id options.expected_contract_id
      × (Meets receipt.network options.expected_network_passphrase
          × ((events : List LogEntry) × (receipt.events ≡ some events) × SettledStory rid events))
unfolding verify_receipt_events binding_issues
verify_receipt_events_sound receipt options result rid settled id d ran valid =
    let (events, log, clear) =
      log_lem receipt (binding_issues receipt options) receipt.events result ran valid in
    let (bindings, story) = split_errors (binding_issues receipt options) _ clear in
    let (contract, network) =
      split_errors
        (add_if (differs_from receipt.contract_id options.expected_contract_id) error
          event_contract_mismatch)
        _ bindings in
    (
      binding_lem receipt.contract_id _ (no_errors-add_if _ _ contract),
      (
        binding_lem receipt.network _ (no_errors-add_if _ _ network),
        (events, log, log_issues_lem receipt rid events settled id d story),
      ),
    )
