-- ===== src/Keeper/Guard.antt =====
-- services/keeper/src/settlement-guard.ts: the rules by which the keeper decides whether to submit a
-- settle or a void. The text of messages and details is not modelled.
pub mod Evaluate
pub mod Machine
pub mod Read
pub mod Rules
pub mod Payouts
pub mod Plans
pub mod Statuses
pub mod Suppression
pub mod Tests
pub mod Winner
pub mod Refunds
use sub_rosa_issue.Prelude.{
  ℕ, ◌+◌, Bool, true, false, ltb_ℤ, leb_ℤ, ℤ, pos, ◌-ℤ◌, String, str_eq, Option, none, some, List,
  [], ◌∷◌, ◌++◌, if◌then◌else◌,
}

pub data SettlementAction : Type 0 where
  settle void : SettlementAction

pub data ClearingRule : Type 0 where
  highest_bid lowest_bid : ClearingRule

-- The contract's status tags.
pub data Status : Type 0 where
  open_status revealing cleared settled_status voided : Status

pub record GuardBidderState : Type 0 where
  pub bidder : String
  pub escrow : Option ℤ
  pub revealed_value : Option ℤ
  pub settled : Bool

pub record RoundSettlementView : Type 0 where
  pub round_id : ℕ
  pub status : Status
  pub clearing_rule : ClearingRule
  pub reveal_deadline : ℕ
  pub now_seconds : ℕ
  pub bidders : List GuardBidderState
  pub bidder_total : ℕ
  pub winner : Option String
  pub winning_bid : Option ℤ

pub data ContractSkipReason : Type 0 where
  already_settled round_voided not_cleared missing_winner : ContractSkipReason
  bidder_page_incomplete refund_missing winner_mismatch : ContractSkipReason
  void_not_open void_grace_not_elapsed : ContractSkipReason

pub record Refund : Type 0 where
  pub bidder : String
  pub amount : ℤ

pub record SettlementPlan : Type 0 where
  pub action : SettlementAction
  pub winner : Option String
  pub operator_payout : ℤ
  pub winner_surplus : ℤ
  pub refunds : List Refund

pub record ContractSkipEvent : Type 0 where
  pub round_id : ℕ
  pub action : SettlementAction
  pub reason : ContractSkipReason

pub data ContractDecision : Type 0 where
  allowed : SettlementPlan → ContractDecision
  refused : ContractSkipEvent → ContractDecision

abbrev pub void_grace_seconds : ℕ
void_grace_seconds = 3600

unfoldable pub void_after : ℕ → ℕ
void_after reveal_deadline = reveal_deadline + void_grace_seconds

pub record Candidate : Type 0 where
  pub bidder : String
  pub value : ℤ

abbrev pub better : ClearingRule → ℤ → ℤ → Bool
better lowest_bid value best = ltb_ℤ value best
better highest_bid value best = ltb_ℤ best value

-- A revealed and positive value against the best one so far.
unfoldable pub challenge : ClearingRule → Option Candidate → String → ℤ → Option Candidate
challenge rule none bidder value = some (record { bidder = bidder; value = value })
challenge rule (some best) bidder value =
    if better rule value best.value
    then some (record { bidder = bidder; value = value })
    else some best

unfoldable pub consider_bid :
    ClearingRule → Option Candidate → String → Option ℤ → Option ℤ → Option Candidate
unfolding challenge
consider_bid rule best bidder none revealed = best
consider_bid rule best bidder (some escrow) none = best
consider_bid rule best bidder (some escrow) (some value) =
    if leb_ℤ value (pos 0) then best else challenge rule best bidder value

-- The loop of `expectedWinner`, from the best bid so far.
unfoldable pub pick : ClearingRule → Option Candidate → List GuardBidderState → Option Candidate
unfolding consider_bid
pick rule best [] = best
pick rule best (s ∷ rest) =
    pick rule (consider_bid rule best s.bidder s.escrow s.revealed_value) rest

unfoldable pub expected_winner : RoundSettlementView → Option Candidate
expected_winner view = pick view.clearing_rule none view.bidders

abbrev positive_part : ℤ → ℤ
positive_part z = if ltb_ℤ (pos 0) z then z else pos 0

-- `refunds.push`, for an escrow above zero.
push_refund : List Refund → String → ℤ → List Refund
push_refund refunds bidder escrow =
    if ltb_ℤ (pos 0) escrow
    then refunds ++ record { bidder = bidder; amount = escrow } ∷ []
    else refunds

-- The bid of a bidder whom the contract has not paid yet, by its readable escrow.
pub refund_bid : String → ℤ → List Refund × ℤ → String → Option ℤ → Bool → List Refund × ℤ
unfolding push_refund
refund_bid winner winning_bid acc bidder none paid = acc
refund_bid winner winning_bid acc bidder (some escrow) true = acc
refund_bid winner winning_bid (refunds, surplus) bidder (some escrow) false =
    if str_eq bidder winner
    then (refunds, positive_part (escrow -ℤ winning_bid))
    else (push_refund refunds bidder escrow, surplus)

-- The loop of `settleRefunds`: the refunds so far and the winner's surplus so far.
unfoldable pub settle_loop : String → ℤ → List Refund × ℤ → List GuardBidderState → List Refund × ℤ
unfolding refund_bid
settle_loop winner winning_bid acc [] = acc
settle_loop winner winning_bid acc (s ∷ rest) =
    settle_loop winner winning_bid (refund_bid winner winning_bid acc s.bidder s.escrow s.settled)
      rest

unfoldable pub settle_refunds : RoundSettlementView → String → ℤ → List Refund × ℤ
settle_refunds view winner winning_bid = settle_loop winner winning_bid ([], pos 0) view.bidders

void_bid : List Refund → String → Option ℤ → Bool → List Refund
unfolding push_refund
void_bid refunds bidder none paid = refunds
void_bid refunds bidder (some escrow) true = refunds
void_bid refunds bidder (some escrow) false = push_refund refunds bidder escrow

unfoldable pub void_loop : List Refund → List GuardBidderState → List Refund
unfolding void_bid
void_loop refunds [] = refunds
void_loop refunds (s ∷ rest) = void_loop (void_bid refunds s.bidder s.escrow s.settled) rest

unfoldable pub void_refunds : RoundSettlementView → List Refund
void_refunds view = void_loop [] view.bidders

unfoldable pub refuse :
    RoundSettlementView → SettlementAction → ContractSkipReason → ContractDecision
refuse view action reason =
    refused (record { round_id = view.round_id; action = action; reason = reason })

-- Whether some escrow of the view could not be read.
unfoldable pub unread : List GuardBidderState → Bool
unread [] = false
unread (s ∷ rest) = elim s.escrow [ none ↦ true | some e ↦ unread rest ]
