-- ===== src/Keeper/Guard/Tests.antt =====
-- Runs of services/keeper/src/settlement-guard.ts on a cleared round with two bidders.
use sub_rosa_issue.Prelude.{
  ◌==◌, if◌then◌else◌, Option, ◌≡◌, ◌↔◌, refl, false, ℤ, pos, ◌+ℤ◌, none, some, List, [], ◌∷◌,
  String, arith, contains, Distinct,
}
use sub_rosa_issue.Keeper.Guard.{
  settle, open_status, cleared, highest_bid, GuardBidderState, RoundSettlementView, allowed,
  expected_winner, pick, unread, void_after,
}
use sub_rosa_issue.Keeper.Guard.Evaluate.{settle_plan, void_plan, evaluate_settle, evaluate_void}
use sub_rosa_issue.Keeper.Guard.Winner.{Outcome, expected_winner-Outcome}
use sub_rosa_issue.Keeper.Guard.Refunds.{total, held, names}
use sub_rosa_issue.Keeper.Guard.Rules.{Settleable, Voidable, evaluate_settle_iff, evaluate_void_iff}
use sub_rosa_issue.Keeper.Guard.Plans.{PlansSettle, PlansVoid}
use sub_rosa_issue.Keeper.Guard.Payouts.{evaluate_settle-conserves, evaluate_void-conserves}
use sub_rosa_issue.Keeper.Guard.Machine.{
  duplicate, DuplicateSkipEvent, check, asks, mark_submitted, run,
}
use sub_rosa_issue.Keeper.Guard.Suppression.{check-submitted}
use sub_rosa_issue.Keeper.Guard.Read.{
  Reader, Round, PageCursor, number, bytes, absent, BiddersPage, read_index, is_zero,
}

abbrev alice : GuardBidderState
alice = record {
  bidder = "alice";
  escrow = some (pos 500);
  revealed_value = some (pos 300);
  settled = false;
}

abbrev bob : GuardBidderState
bob = record {
  bidder = "bob";
  escrow = some (pos 400);
  revealed_value = some (pos 250);
  settled = false;
}

abbrev two_bidders : RoundSettlementView
two_bidders = record {
  round_id = 7;
  status = cleared;
  clearing_rule = highest_bid;
  reveal_deadline = 1000;
  now_seconds = 5000;
  bidders = alice ∷ bob ∷ [];
  bidder_total = 2;
  winner = some "alice";
  winning_bid = some (pos 300);
}

abbrev stale : RoundSettlementView
stale = record two_bidders { status = open_status; winner = none; winning_bid = none }

winner_run : expected_winner two_bidders ≡ some (record { bidder = "alice"; value = pos 300 })
unfolding expected_winner pick
winner_run = refl

settle_run : evaluate_settle two_bidders ≡ allowed (settle_plan two_bidders "alice" (pos 300))
unfolding evaluate_settle expected_winner unread pick
settle_run = refl

void_run : evaluate_void stale ≡ allowed (void_plan stale)
unfolding evaluate_void void_after unread
void_run = refl

expected_winner-Outcome_example :
    Outcome highest_bid two_bidders.bidders (expected_winner two_bidders)
expected_winner-Outcome_example = expected_winner-Outcome two_bidders

evaluate_settle_iff_example :
    (evaluate_settle two_bidders ≡ allowed (settle_plan two_bidders "alice" (pos 300))) ↔ (
      (w : String) × (bid : ℤ) × Settleable two_bidders w bid
      × PlansSettle two_bidders w bid (settle_plan two_bidders "alice" (pos 300)))
evaluate_settle_iff_example =
    evaluate_settle_iff two_bidders (settle_plan two_bidders "alice" (pos 300))

evaluate_void_iff_example :
    (evaluate_void stale ≡ allowed (void_plan stale))
    ↔ (Voidable stale × PlansVoid stale (void_plan stale))
evaluate_void_iff_example = evaluate_void_iff stale (void_plan stale)

Distinct-names : Distinct (names two_bidders.bidders)
unfolding contains
Distinct-names = (refl, (refl, tt))

evaluate_settle-conserves_example :
    let plan = settle_plan two_bidders "alice" (pos 300) in
    plan.operator_payout +ℤ plan.winner_surplus +ℤ total plan.refunds ≡ held two_bidders.bidders
evaluate_settle-conserves_example =
    evaluate_settle-conserves two_bidders (settle_plan two_bidders "alice" (pos 300)) settle_run
      Distinct-names (refl, (refl, tt))
      ((omega arith, omega arith), ((omega arith, omega arith), tt))

evaluate_void-conserves_example :
    let plan = void_plan stale in
    (total plan.refunds ≡ held stale.bidders)
    × (plan.operator_payout ≡ pos 0)
    × (plan.winner_surplus ≡ pos 0)
    × (plan.winner ≡ none)
evaluate_void-conserves_example =
    evaluate_void-conserves stale (void_plan stale) void_run (omega arith, (omega arith, tt))

check-submitted_example :
    (e : DuplicateSkipEvent) × ((check 12 settle two_bidders
        (run (mark_submitted 10 7 []) ((11, asks 7) ∷ []))).0
      ≡ duplicate e)
check-submitted_example =
    check-submitted 10 7 [] ((11, asks 7) ∷ []) 12 settle two_bidders (tt, tt) refl

abbrev two_names : List String
two_names = "alice" ∷ "bob" ∷ []

abbrev chain_round : Round
chain_round = record {
  status = cleared;
  clearing_rule = highest_bid;
  reveal_deadline = 1000;
  bidders = two_names;
  winner = some "alice";
  winning_bid = some (pos 300);
}

-- The client of a contract whose cursors are bytes.
abbrev paged : PageCursor → Option BiddersPage
paged (number n) = none
paged (bytes b) = some (record { page = "bob" ∷ []; total = 2; next_cursor = absent })
paged absent = some (record { page = "alice" ∷ []; total = 2; next_cursor = bytes (1 ∷ []) })

abbrev reader : Reader
reader = record {
  get_round = λ id. some chain_round;
  get_bidders_page = λ id cursor limit. paged cursor;
  get_bid_state =
      λ id bidder. some (record { escrow = pos 500; revealed_value = none; settled = false });
}

-- A reader whose cursors are numbers: the index is read to its end.
abbrev numbered : PageCursor → Option BiddersPage
numbered (number n) = some (
    if n == 0
    then record { page = "alice" ∷ []; total = 2; next_cursor = number 1 }
    else record { page = "bob" ∷ []; total = 2; next_cursor = number 0 })
numbered other = none

whole_index_run : read_index 2 numbered (number 0) ([], 0) ≡ some ("alice" ∷ "bob" ∷ [], 2)
unfolding read_index is_zero
whole_index_run = refl
