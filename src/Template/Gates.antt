-- ===== src/Template/Gates.antt =====
-- How the phase gate of services/auction-template/template-rules.ts agrees with the conservation
-- preflights of packages/sdk/src/client.ts.
use sub_rosa_issue.Prelude.{◌≡◌, ◌↔◌, ◌⊎◌, none, [], arith}
use sub_rosa_issue.Keeper.Guard.{
  Status, open_status as guard_open, revealing as guard_revealing, cleared as guard_cleared,
  settled_status as guard_settled, voided as guard_voided,
}
use sub_rosa_issue.Sdk.RoundStatus.{RoundStatus, open_status, revealing, cleared, settled, voided}
use sub_rosa_issue.Sdk.Preflight.{settle_phase, clear_phase, status_issues}
use sub_rosa_issue.Template.{reveal, clear, settle, template_phase_gate}

-- The status of a round on the chain, in the vocabulary of the SDK.
abbrev pub on_chain : Status → RoundStatus
on_chain guard_open = open_status
on_chain guard_revealing = revealing
on_chain guard_cleared = cleared
on_chain guard_settled = settled
on_chain guard_voided = voided

-- In every status of a round on the chain, the template lets a clear through just when the SDK's
-- clear preflight has no issue with the status, lets a reveal through just when it lets a clear
-- through, and lets a settle through just when the SDK's settle preflight has no issue with the
-- status or the round is settled already.
pub template_phase_gate_lem :
    (s : Status)
    → ((template_phase_gate (on_chain s) clear ≡ none) ↔ (status_issues clear_phase s ≡ []))
      × ((template_phase_gate (on_chain s) reveal ≡ none)
          ↔ (template_phase_gate (on_chain s) clear ≡ none))
      × ((template_phase_gate (on_chain s) settle ≡ none)
          ↔ ((status_issues settle_phase s ≡ []) ⊎ (s ≡ guard_settled)))
unfolding template_phase_gate status_issues
template_phase_gate_lem guard_open = ground arith
template_phase_gate_lem guard_revealing = ground arith
template_phase_gate_lem guard_cleared = ground arith
template_phase_gate_lem guard_settled = ground arith
template_phase_gate_lem guard_voided = ground arith
