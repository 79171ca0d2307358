-- ===== src/Keeper/Guard/Machine.antt =====
-- `createSettlementGuard` of services/keeper/src/settlement-guard.ts: the entries of the guard, a map
-- in insertion order, and its methods. The clock is an argument, read once for each call, and a
-- recorded reason is kept as data instead of text.
use sub_rosa_issue.Prelude.{
  ℕ, ◌==◌, Bool, true, false, String, Option, none, some, List, [], ◌∷◌, if◌then◌else◌,
}
use sub_rosa_issue.Keeper.Guard.{
  SettlementAction, RoundSettlementView, ContractSkipReason, already_settled, round_voided,
  SettlementPlan, ContractSkipEvent, ContractDecision, allowed, refused,
}
use sub_rosa_issue.Keeper.Guard.Evaluate.{evaluate}

pub data GuardStatus : Type 0 where
  pending submitted terminal : GuardStatus

-- The reason of an entry: what the text is made from.
pub data EntryReason : Type 0 where
  initial dispatched : EntryReason
  refusal : SettlementAction → ContractSkipReason → EntryReason
  given retryable : String → EntryReason

pub record GuardSkipRecord : Type 0 where
  pub action : SettlementAction
  pub reason : ContractSkipReason
  pub at : ℕ

pub record Entry : Type 0 where
  pub round_id : ℕ
  pub status : GuardStatus
  pub updated_at : ℕ
  pub reason : EntryReason
  pub skip : Option GuardSkipRecord

abbrev pub Guard : Type 0
Guard = List Entry

unfoldable pub get_entry : ℕ → Guard → Option Entry
get_entry id [] = none
get_entry id (e ∷ rest) = if e.round_id == id then some e else get_entry id rest

-- `Map.set` under the entry's round id: in place, or at the end.
unfoldable pub put : Entry → Guard → Guard
put entry [] = entry ∷ []
put entry (e ∷ rest) = if e.round_id == entry.round_id then entry ∷ rest else e ∷ put entry rest

abbrev pub fresh : ℕ → ℕ → Entry
fresh now id = record {
  round_id = id;
  status = pending;
  updated_at = now;
  reason = initial;
  skip = none;
}

abbrev pub created : ℕ → ℕ → Option Entry → Entry
created now id none = fresh now id
created now id (some e) = e

-- The entry that `getOrCreate` returns; it stands in the map afterwards.
unfoldable pub get_or_create : ℕ → ℕ → Guard → Entry × Guard
get_or_create now id g = let e = created now id (get_entry id g) in (e, put e g)

pub record DuplicateSkipEvent : Type 0 where
  pub round_id : ℕ
  pub skipped_duplicate_reason : GuardStatus
  pub last_reason : EntryReason

pub data SettlementCheck : Type 0 where
  permitted : SettlementPlan → SettlementCheck
  duplicate : DuplicateSkipEvent → SettlementCheck
  rejected : ContractSkipEvent → SettlementCheck

-- `canSettle` on the entry of the round: `none` if it is allowed.
unfoldable pub can_settle_entry : Entry → GuardStatus → Option DuplicateSkipEvent
can_settle_entry e pending = none
can_settle_entry e status =
    some
      (record { round_id = e.round_id; skipped_duplicate_reason = status; last_reason = e.reason })

unfoldable pub can_settle : ℕ → ℕ → Guard → Option DuplicateSkipEvent × Guard
unfolding can_settle_entry
can_settle now id g = let (e, g') = get_or_create now id g in (can_settle_entry e e.status, g')

-- The refusals that say that the round is done.
abbrev pub says_done : ContractSkipReason → Bool
says_done already_settled = true
says_done round_voided = true
says_done _ = false

-- What `check` records of a decision on the entry.
abbrev pub decided : ℕ → SettlementAction → Entry → ContractDecision → Entry
decided now action e (allowed plan) = record e { skip = none }
decided now action e (refused event) = record e {
  status = if says_done event.reason then terminal else e.status;
  updated_at = now;
  reason = refusal action event.reason;
  skip = some (record { action = action; reason = event.reason; at = now });
}

abbrev pub answer : ContractDecision → SettlementCheck
answer (allowed plan) = permitted plan
answer (refused event) = rejected event

unfoldable pub check_entry :
    ℕ
    → SettlementAction
    → RoundSettlementView
    → Entry
    → Guard
    → Option DuplicateSkipEvent
    → SettlementCheck × Guard
check_entry now action view e g (some event) = (duplicate event, g)
check_entry now action view e g none =
    let decision = evaluate action view in (answer decision, put (decided now action e decision) g)

unfoldable pub check : ℕ → SettlementAction → RoundSettlementView → Guard → SettlementCheck × Guard
unfolding can_settle_entry check_entry
check now action view g =
    let (e, g') = get_or_create now view.round_id g in
    check_entry now action view e g' (can_settle_entry e e.status)

unfoldable pub mark_submitted : ℕ → ℕ → Guard → Guard
mark_submitted now id g =
    let (e, g') = get_or_create now id g in
    put (record e { status = submitted; updated_at = now; reason = dispatched; skip = none }) g'

unfoldable pub mark_terminal : ℕ → ℕ → String → Guard → Guard
mark_terminal now id reason g =
    let (e, g') = get_or_create now id g in
    put (record e { status = terminal; updated_at = now; reason = given reason }) g'

unfoldable pub mark_retryable : ℕ → ℕ → String → Guard → Guard
mark_retryable now id reason g =
    let (e, g') = get_or_create now id g in
    put (record e { status = pending; updated_at = now; reason = retryable reason }) g'

-- A call of a method.
pub data Call : Type 0 where
  asks : ℕ → Call
  checks : SettlementAction → RoundSettlementView → Call
  submits : ℕ → Call
  ends retries : ℕ → String → Call

unfoldable pub step : Guard → ℕ × Call → Guard
step g (now, asks id) = (can_settle now id g).1
step g (now, checks action view) = (check now action view g).1
step g (now, submits id) = mark_submitted now id g
step g (now, ends id reason) = mark_terminal now id reason g
step g (now, retries id reason) = mark_retryable now id reason g

unfoldable pub run : Guard → List (ℕ × Call) → Guard
run g [] = g
run g (c ∷ calls) = run (step g c) calls
