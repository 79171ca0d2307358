-- ===== src/Sdk/RoundStatus/Tests.antt =====
-- A cleared round in packages/sdk/src/round-status.ts and apps/web/src/lib/round-phase.ts.
use sub_rosa_issue.Prelude.{◌≡◌, false, refl}
use sub_rosa_issue.Sdk.RoundStatus.{cleared, reveal_phase, classify_round_phase}

phase_run : classify_round_phase cleared false ≡ reveal_phase
unfolding classify_round_phase
phase_run = refl
