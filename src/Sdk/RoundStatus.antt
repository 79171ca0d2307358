-- ===== src/Sdk/RoundStatus.antt =====
-- packages/sdk/src/round-status.ts and apps/web/src/lib/round-phase.ts: the classes of round statuses,
-- the phases that the dashboard shows, and the lifecycle steps.
use sub_rosa_issue.Prelude.{
  ◌≡◌, ◌↔◌, Bool, true, false, not, ◌&&◌, ◌||◌, Option, none, some, if◌then◌else◌,
}
mod Classes
mod Tests

pub data RoundStatus : Type 0 where
  unknown open_status revealing cleared settled voided not_found : RoundStatus

pub data RoundStatusClass : Type 0 where
  active terminal error : RoundStatusClass

-- `ACTIVE_ROUND_STATUSES.includes(status)`, and so on for the other lists.
unfoldable pub is_active_round_status : RoundStatus → Bool
is_active_round_status open_status = true
is_active_round_status revealing = true
is_active_round_status cleared = true
is_active_round_status _ = false

unfoldable pub is_terminal_round_status : RoundStatus → Bool
is_terminal_round_status settled = true
is_terminal_round_status voided = true
is_terminal_round_status _ = false

unfoldable pub is_error_round_status : RoundStatus → Bool
is_error_round_status unknown = true
is_error_round_status not_found = true
is_error_round_status _ = false

unfoldable pub classify_round_status : RoundStatus → RoundStatusClass
classify_round_status status =
    if is_active_round_status status
    then active
    else if is_terminal_round_status status
    then terminal
    else error

pub data RoundPhase : Type 0 where
  open_phase reveal_phase settled_phase : RoundPhase

-- The tests of classifyRoundPhase, one for each return. The dashboard's statuses are five of these.
abbrev pub shows_settled : RoundStatus → Bool
shows_settled settled = true
shows_settled voided = true
shows_settled _ = false

abbrev pub shows_reveal : RoundStatus → Bool
shows_reveal revealing = true
shows_reveal cleared = true
shows_reveal _ = false

unfoldable pub classify_round_phase : RoundStatus → Bool → RoundPhase
classify_round_phase status drand_published =
    if shows_settled status
    then settled_phase
    else if shows_reveal status || drand_published
    then reveal_phase
    else open_phase

pub data LifecycleStep : Type 0 where
  commit_step reveal_step settle_step : LifecycleStep

pub record LifecycleStepResult : Type 0 where
  pub step : Option LifecycleStep
  pub error : Bool
  pub settle_disabled : Bool

abbrev pub at_step : LifecycleStep → Bool → LifecycleStepResult
at_step s disabled = record { step = some s; error = false; settle_disabled = disabled }

abbrev pub no_step : LifecycleStepResult
no_step = record { step = none; error = true; settle_disabled = true }

unfoldable pub lifecycle_step_from_status : RoundStatus → LifecycleStepResult
lifecycle_step_from_status open_status = at_step commit_step true
lifecycle_step_from_status revealing = at_step reveal_step true
lifecycle_step_from_status cleared = at_step reveal_step true
lifecycle_step_from_status settled = at_step settle_step false
lifecycle_step_from_status voided = at_step settle_step false
lifecycle_step_from_status unknown = no_step
lifecycle_step_from_status not_found = no_step
