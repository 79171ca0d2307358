-- ===== src/Keeper/Guard/Rules.antt =====
-- When `evaluateSettle` and `evaluateVoid` of services/keeper/src/settlement-guard.ts allow a
-- submission.
use sub_rosa_issue.Prelude.{
  ◌+◌, ◌≤◌, ◌<◌, ◌≡◌, ◌↔◌, refl, sym, ap, ◌∙◌, false, ℤ, eqb_ℤ_iff, String, str_eq_iff, Option,
  none, some, length, arith, true, List, [], ◌∷◌, All, Option-cases, inl, inr, subst,
}
use sub_rosa_issue.Keeper.Guard.{
  Status, open_status, revealing, cleared, settled_status, voided, RoundSettlementView,
  SettlementPlan, allowed, Candidate, expected_winner, unread, refuse, GuardBidderState, void_after,
  void_grace_seconds,
}
use sub_rosa_issue.Keeper.Guard.Evaluate.{
  settle_plan, void_plan, match_winner, settle_cleared, settle_in, void_in, evaluate_settle,
  evaluate_void,
}
use sub_rosa_issue.Keeper.Guard.Winner.{Wins, Wins-pick, Outcome, expected_winner-Outcome}
use sub_rosa_issue.Keeper.Guard.Plans.{
  Readable, PlansSettle, PlansVoid, settle_plan-PlansSettle, void_plan-PlansVoid,
  PlansSettle-settle_plan, PlansVoid-void_plan,
}

-- What the contract asks of a settle, and what the keeper must have read to predict it.
pub record Settleable (view : RoundSettlementView) (w : String) (bid : ℤ) : Type 0 where
  pub is_cleared : view.status ≡ cleared
  pub won : view.winner ≡ some w
  pub won_with : view.winning_bid ≡ some bid
  pub complete : view.bidder_total ≤ length view.bidders
  pub readable : All Readable view.bidders
  pub confirmed : Wins view.clearing_rule view.bidders (record { bidder = w; value = bid })

pub record Voidable (view : RoundSettlementView) : Type 0 where
  pub is_open : view.status ≡ open_status
  pub grace_over : view.reveal_deadline + 3600 < view.now_seconds
  pub complete : view.bidder_total ≤ length view.bidders
  pub readable : All Readable view.bidders

unread_lem : (states : List GuardBidderState) → unread states ≡ false → All Readable states
unfolding unread
unread_lem [] h = tt
unread_lem (s ∷ rest) h = elim (Option-cases s.escrow) [
  | inl e ↦ let stuck : true ≡ false = rw e at h in cc stuck
  | inr (x, e) ↦ ((x, e), unread_lem rest (rw e at h))
]

readable_lem : (states : List GuardBidderState) → All Readable states → unread states ≡ false
unfolding unread
readable_lem [] a = refl
readable_lem (s ∷ rest) ((x, e), a) = rw e (readable_lem rest a)

winner_lem :
    (view : RoundSettlementView) (c : Candidate)
    → Wins view.clearing_rule view.bidders c
    → expected_winner view ≡ some c
unfolding expected_winner
winner_lem view c w = Wins-pick view.clearing_rule view.bidders c w

expected_winner-Wins :
    (view : RoundSettlementView) (c : Candidate)
    → expected_winner view ≡ some c
    → Wins view.clearing_rule view.bidders c
expected_winner-Wins view c h =
    subst (Outcome view.clearing_rule view.bidders) h (expected_winner-Outcome view)

Settleable→allowed :
    (view : RoundSettlementView) (w : String) (bid : ℤ)
    → Settleable view w bid
    → evaluate_settle view ≡ allowed (settle_plan view w bid)
unfolding evaluate_settle
Settleable→allowed view w bid s =
    let read = readable_lem view.bidders s.readable in
    let wins = winner_lem view (record { bidder = w; value = bid }) s.confirmed in
    let st = s.is_cleared in
    let won = s.won in
    let with = s.won_with in
    let complete = s.complete in
    ground (arith, st, won, with, complete, read, wins, str_eq_iff w w, eqb_ℤ_iff bid bid)

abbrev Confirms :
    RoundSettlementView → SettlementPlan → String → Option Candidate → Option ℤ → Type 0
Confirms view plan w expected on_chain =
    (bid : ℤ) × (on_chain ≡ some bid)
    × (expected ≡ some (record { bidder = w; value = bid }))
    × (plan ≡ settle_plan view w bid)

match_winner-allowed :
    (view : RoundSettlementView) (plan : SettlementPlan) (w : String) (expected : Option Candidate)
    (on_chain : Option ℤ)
    → match_winner view w expected on_chain ≡ allowed plan
    → Confirms view plan w expected on_chain
unfolding match_winner refuse
match_winner-allowed view plan w none on_chain h = cc
match_winner-allowed view plan w (some c) none h = cc
match_winner-allowed view plan w (some c) (some bid) h =
    (bid, refl, ground (arith, str_eq_iff c.bidder w, eqb_ℤ_iff c.value bid), ground arith)

abbrev Ready : RoundSettlementView → SettlementPlan → Option String → Type 0
Ready view plan winner =
    (w : String) × (winner ≡ some w)
    × (view.bidder_total ≤ length view.bidders)
    × (unread view.bidders ≡ false)
    × Confirms view plan w (expected_winner view) view.winning_bid

settle_cleared-allowed :
    (view : RoundSettlementView) (plan : SettlementPlan) (winner : Option String)
    → settle_cleared view winner ≡ allowed plan
    → Ready view plan winner
unfolding settle_cleared refuse
settle_cleared-allowed view plan none h = cc
settle_cleared-allowed view plan (some w) h = (
  w,
  refl,
  ground arith,
  ground arith,
  match_winner-allowed view plan w (expected_winner view) view.winning_bid (ground arith),
)

settle_in-allowed :
    (view : RoundSettlementView) (plan : SettlementPlan) (status : Status)
    → settle_in view status ≡ allowed plan
    → (status ≡ cleared) × Ready view plan view.winner
unfolding settle_in refuse
settle_in-allowed view plan cleared h = (refl, settle_cleared-allowed view plan view.winner h)
settle_in-allowed view plan open_status h = cc
settle_in-allowed view plan revealing h = cc
settle_in-allowed view plan settled_status h = cc
settle_in-allowed view plan voided h = cc

pub allowed→Settleable :
    (view : RoundSettlementView) (plan : SettlementPlan)
    → evaluate_settle view ≡ allowed plan
    → (w : String) × (bid : ℤ) × Settleable view w bid × PlansSettle view w bid plan
unfolding evaluate_settle
allowed→Settleable view plan h =
    let (st, (w, won, total, read, (bid, with, confirmed, same))) =
      settle_in-allowed view plan view.status h in
    (
      w,
      bid,
      record {
        is_cleared = st;
        won = won;
        won_with = with;
        complete = total;
        readable = unread_lem view.bidders read;
        confirmed = expected_winner-Wins view (record { bidder = w; value = bid }) confirmed;
      },
      subst (PlansSettle view w bid) (sym same) (settle_plan-PlansSettle view w bid),
    )

-- The guard allows a settle, with a given plan, exactly if the round is cleared, a winner and its bid
-- stand on the chain, as many bidders were read as the contract has and each with a readable escrow,
-- and this winner and bid are the first of the best bids among them. The plan then pays the bid, gives
-- the winner what its last unpaid escrow exceeds the bid by, and refunds each other unpaid escrow above
-- zero, in the order of the index.
pub evaluate_settle_iff :
    (view : RoundSettlementView) (plan : SettlementPlan)
    → (evaluate_settle view ≡ allowed plan)
      ↔ ((w : String) × (bid : ℤ) × Settleable view w bid × PlansSettle view w bid plan)
evaluate_settle_iff view plan = (
  allowed→Settleable view plan,
  λ r.
      Settleable→allowed view r.0 r.1 r.2
      ∙ ap allowed (PlansSettle-settle_plan view r.0 r.1 plan r.3),
)

void_in-allowed :
    (view : RoundSettlementView) (plan : SettlementPlan) (status : Status)
    → void_in view status ≡ allowed plan
    → (status ≡ open_status)
      × (view.reveal_deadline + void_grace_seconds < view.now_seconds)
      × (view.bidder_total ≤ length view.bidders)
      × (unread view.bidders ≡ false)
      × (plan ≡ void_plan view)
unfolding void_in refuse void_after
void_in-allowed view plan open_status h =
    (refl, ground arith, ground arith, ground arith, ground arith)
void_in-allowed view plan cleared h = cc
void_in-allowed view plan revealing h = cc
void_in-allowed view plan settled_status h = cc
void_in-allowed view plan voided h = cc

Voidable→allowed :
    (view : RoundSettlementView) → Voidable view → evaluate_void view ≡ allowed (void_plan view)
unfolding evaluate_void void_after
Voidable→allowed view v =
    let read = readable_lem view.bidders v.readable in
    let st = v.is_open in
    let grace = v.grace_over in
    let complete = v.complete in ground (arith, st, grace, complete, read)

-- The guard allows a void, with a given plan, exactly if the round is open, more than 3,600 seconds
-- have passed since the reveal deadline, and as many bidders were read as the contract has, each with
-- a readable escrow. The plan then pays no one and refunds each unpaid escrow above zero, in the order
-- of the index.
pub evaluate_void_iff :
    (view : RoundSettlementView) (plan : SettlementPlan)
    → (evaluate_void view ≡ allowed plan) ↔ (Voidable view × PlansVoid view plan)
unfolding evaluate_void void_in
evaluate_void_iff view plan = (
  (λ h.
      let (st, grace, total, read, same) = void_in-allowed view plan view.status h in
      (
        record {
          is_open = st;
          grace_over = grace;
          complete = total;
          readable = unread_lem view.bidders read;
        },
        subst (PlansVoid view) (sym same) (void_plan-PlansVoid view),
      )),
  λ r. Voidable→allowed view r.0 ∙ ap allowed (PlansVoid-void_plan view plan r.1),
)
