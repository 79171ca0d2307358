-- ===== src/Keeper/Guard/Evaluate.antt =====
-- `evaluateSettle` and `evaluateVoid` of services/keeper/src/settlement-guard.ts.
use sub_rosa_issue.Prelude.{
  ◌||◌, not, ltb, leb, eqb_ℤ, ℤ, pos, String, str_eq, Option, none, some, length, if◌then◌else◌,
}
use sub_rosa_issue.Keeper.Guard.{
  SettlementAction, settle, void, Status, open_status, revealing, cleared, settled_status, voided,
  RoundSettlementView, already_settled, round_voided, not_cleared, missing_winner,
  bidder_page_incomplete, refund_missing, winner_mismatch, void_not_open, void_grace_not_elapsed,
  SettlementPlan, ContractDecision, allowed, void_after, Candidate, expected_winner, settle_refunds,
  void_refunds, refuse, unread,
}

abbrev pub settle_plan : RoundSettlementView → String → ℤ → SettlementPlan
settle_plan view winner winning_bid = record {
  action = settle;
  winner = some winner;
  operator_payout = winning_bid;
  winner_surplus = (settle_refunds view winner winning_bid).1;
  refunds = (settle_refunds view winner winning_bid).0;
}

abbrev pub void_plan : RoundSettlementView → SettlementPlan
void_plan view = record {
  action = void;
  winner = none;
  operator_payout = pos 0;
  winner_surplus = pos 0;
  refunds = void_refunds view;
}

-- The winner that the bids give against the winner and the bid on the chain.
unfoldable pub match_winner :
    RoundSettlementView → String → Option Candidate → Option ℤ → ContractDecision
match_winner view winner none on_chain = refuse view settle winner_mismatch
match_winner view winner (some expected) none = refuse view settle winner_mismatch
match_winner view winner (some expected) (some bid) =
    if not (str_eq expected.bidder winner) || not (eqb_ℤ expected.value bid)
    then refuse view settle winner_mismatch
    else allowed (settle_plan view winner bid)

unfoldable pub settle_cleared : RoundSettlementView → Option String → ContractDecision
unfolding match_winner
settle_cleared view none = refuse view settle missing_winner
settle_cleared view (some winner) =
    if ltb (length view.bidders) view.bidder_total
    then refuse view settle bidder_page_incomplete
    else if unread view.bidders
    then refuse view settle refund_missing
    else match_winner view winner (expected_winner view) view.winning_bid

unfoldable pub settle_in : RoundSettlementView → Status → ContractDecision
unfolding settle_cleared
settle_in view settled_status = refuse view settle already_settled
settle_in view voided = refuse view settle round_voided
settle_in view cleared = settle_cleared view view.winner
settle_in view open_status = refuse view settle not_cleared
settle_in view revealing = refuse view settle not_cleared

unfoldable pub evaluate_settle : RoundSettlementView → ContractDecision
unfolding settle_in
evaluate_settle view = settle_in view view.status

unfoldable pub void_open : RoundSettlementView → ContractDecision
void_open view =
    if leb view.now_seconds (void_after view.reveal_deadline)
    then refuse view void void_grace_not_elapsed
    else if ltb (length view.bidders) view.bidder_total
    then refuse view void bidder_page_incomplete
    else if unread view.bidders
    then refuse view void refund_missing
    else allowed (void_plan view)

unfoldable pub void_in : RoundSettlementView → Status → ContractDecision
unfolding void_open
void_in view voided = refuse view void round_voided
void_in view settled_status = refuse view void already_settled
void_in view open_status = void_open view
void_in view revealing = refuse view void void_not_open
void_in view cleared = refuse view void void_not_open

unfoldable pub evaluate_void : RoundSettlementView → ContractDecision
unfolding void_in
evaluate_void view = void_in view view.status

unfoldable pub evaluate : SettlementAction → RoundSettlementView → ContractDecision
evaluate settle view = evaluate_settle view
evaluate void view = evaluate_void view
