-- ===== src/Template.antt =====
-- services/auction-template/template-rules.ts: the gates of the sealed-auction template. A receipt's
-- decimal texts are the integers they stand for; `none` is an exception (a bid that is missing).
use sub_rosa_issue.Prelude.{
  ℕ, ℤ, pos, ◌+ℤ◌, ◌-ℤ◌, ltb_ℤ, eqb_ℤ, Bool, true, false, not, Option, none, some, List, [], ◌∷◌,
  String, if◌then◌else◌, ◌==◌,
}
use sub_rosa_issue.Sdk.RoundStatus.{
  RoundStatus, unknown, open_status, revealing, cleared, settled, voided, not_found,
}
mod Escrow
mod Gates
mod Tests

pub data TemplateAction : Type 0 where
  reveal clear settle : TemplateAction

-- What a refusal's reason says.
pub data RefusalReason : Type 0 where
  reveal_needs_revealing : RoundStatus → RefusalReason
  clear_needs_revealing : RoundStatus → RefusalReason
  settle_too_early : RoundStatus → RefusalReason
  not_settleable : RoundStatus → RefusalReason
  wrong_seal_round : ℕ → ℕ → RefusalReason

pub record TemplateRefusal : Type 0 where
  pub action : TemplateAction
  pub reason : RefusalReason

abbrev pub is_revealing : RoundStatus → Bool
is_revealing revealing = true
is_revealing _ = false

abbrev pub settle_gate : RoundStatus → Option TemplateRefusal
settle_gate cleared = none
settle_gate settled = none
settle_gate open_status = some (record { action = settle; reason = settle_too_early open_status })
settle_gate revealing = some (record { action = settle; reason = settle_too_early revealing })
settle_gate s = some (record { action = settle; reason = not_settleable s })

unfoldable pub template_phase_gate : RoundStatus → TemplateAction → Option TemplateRefusal
template_phase_gate s reveal =
    if is_revealing s
    then none
    else some (record { action = reveal; reason = reveal_needs_revealing s })
template_phase_gate s clear =
    if is_revealing s
    then none
    else some (record { action = clear; reason = clear_needs_revealing s })
template_phase_gate s settle = settle_gate s

pub record ReceiptBid : Type 0 where
  pub escrow : ℤ
  pub settled : Bool

pub record Receipt : Type 0 where
  pub winning_value : Option ℤ
  pub winner : Option String
  pub bidders : List String
  pub bids : String → Option ReceiptBid

pub data CheckReason : Type 0 where
  winner_missing : String → CheckReason
  exceeds_winner_escrow : CheckReason
  violated : CheckReason
  holds : CheckReason

pub record ConservationCheck : Type 0 where
  pub ok : Bool
  pub total_escrow : ℤ
  pub operator_value : ℤ
  pub refunded : ℤ
  pub reason : CheckReason

-- The loop over the bidders: the total so far. The source also sums the settled escrow and does not
-- use it.
unfoldable pub sum_escrow : (String → Option ReceiptBid) → ℤ → List String → Option ℤ
sum_escrow bids total [] = some total
sum_escrow bids total (b ∷ rest) = elim (bids b) [
  | none ↦ none
  | some bid ↦ sum_escrow bids (total +ℤ bid.escrow) rest
]

abbrev pub value_or_zero : Option ℤ → ℤ
value_or_zero none = pos 0
value_or_zero (some v) = v

abbrev pub failed : ℤ → ℤ → CheckReason → ConservationCheck
failed total value reason = record {
  ok = false;
  total_escrow = total;
  operator_value = value;
  refunded = total -ℤ value;
  reason = reason;
}

-- The test after the winner's.
unfoldable pub check_sums : ℤ → ℤ → ConservationCheck
check_sums total value =
    if not (eqb_ℤ (value +ℤ (total -ℤ value)) total) then failed total value violated else record {
      ok = true;
      total_escrow = total;
      operator_value = value;
      refunded = total -ℤ value;
      reason = holds;
    }

unfoldable pub check_winner_entry : ℤ → ℤ → String → Option ReceiptBid → ConservationCheck
check_winner_entry total value winner none = failed total value (winner_missing winner)
check_winner_entry total value winner (some bid) =
    if ltb_ℤ bid.escrow value
    then failed total value exceeds_winner_escrow
    else check_sums total value

unfoldable pub check_winner : Receipt → ℤ → ℤ → Option String → ConservationCheck
check_winner r total value none = check_sums total value
check_winner r total value (some winner) = check_winner_entry total value winner (r.bids winner)

unfoldable pub check_escrow_conservation : Receipt → Option ConservationCheck
check_escrow_conservation r = elim (sum_escrow r.bids (pos 0) r.bidders) [
  | none ↦ none
  | some total ↦ some (check_winner r total (value_or_zero r.winning_value) r.winner)
]

unfoldable pub check_seal_round : ℕ → ℕ → Option TemplateRefusal
check_seal_round sealed_round reveal_round =
    if sealed_round == reveal_round
    then none
    else some (record { action = reveal; reason = wrong_seal_round sealed_round reveal_round })
