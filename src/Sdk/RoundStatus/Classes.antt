-- ===== src/Sdk/RoundStatus/Classes.antt =====
-- How the classes, the phases and the steps of packages/sdk/src/round-status.ts and
-- apps/web/src/lib/round-phase.ts fit together.
use sub_rosa_issue.Prelude.{◌≡◌, ◌↔◌, true, false, not, some, arith}
use sub_rosa_issue.Sdk.RoundStatus.{
  RoundStatus, unknown, open_status, revealing, cleared, settled, voided, not_found, active,
  terminal, error, is_active_round_status, is_terminal_round_status, is_error_round_status,
  classify_round_status, RoundPhase, open_phase, reveal_phase, settled_phase, classify_round_phase,
  LifecycleStep, commit_step, reveal_step, settle_step, lifecycle_step_from_status,
}

-- The phase that the dashboard shows at a step.
abbrev pub phase_of : LifecycleStep → RoundPhase
phase_of commit_step = open_phase
phase_of reveal_step = reveal_phase
phase_of settle_step = settled_phase

-- Every status is in exactly the class that its own test names; its step is in error just for the
-- error class, and settling is disabled just outside the terminal class; while the beacon is not
-- published the dashboard's phase is the one of the step; and once it is published no status but a
-- terminal one shows another phase than the reveal.
pub classify_round_status_lem :
    (s : RoundStatus)
    → ((classify_round_status s ≡ active) ↔ (is_active_round_status s ≡ true))
      × ((classify_round_status s ≡ terminal) ↔ (is_terminal_round_status s ≡ true))
      × ((classify_round_status s ≡ error) ↔ (is_error_round_status s ≡ true))
      × ((lifecycle_step_from_status s).error ≡ is_error_round_status s)
      × ((lifecycle_step_from_status s).settle_disabled ≡ not (is_terminal_round_status s))
      × ((l : LifecycleStep)
          → (lifecycle_step_from_status s).step ≡ some l
          → classify_round_phase s false ≡ phase_of l)
      × ((is_terminal_round_status s ≡ false) ↔ (classify_round_phase s true ≡ reveal_phase))
unfolding is_active_round_status is_terminal_round_status is_error_round_status
    classify_round_status classify_round_phase lifecycle_step_from_status
classify_round_status_lem unknown = ground arith
classify_round_status_lem open_status = ground arith
classify_round_status_lem revealing = ground arith
classify_round_status_lem cleared = ground arith
classify_round_status_lem settled = ground arith
classify_round_status_lem voided = ground arith
classify_round_status_lem not_found = ground arith
