-- ===== src/Keeper/Guard/Payouts.antt =====
-- What the plans of services/keeper/src/settlement-guard.ts move, against the escrow that is held.
use sub_rosa_issue.Prelude.{
  ◌≡◌, refl, sym, ap, ◌∙◌, subst, Bool, true, false, inl, inr, ℤ, pos, ◌+ℤ◌, ◌-ℤ◌, ◌≤ℤ◌, int_laws,
  String, Option, none, some, List, [], ◌∷◌, ◌++◌, All, All-middle, Distinct, arith, Option-cases,
}
use sub_rosa_issue.Keeper.Guard.{
  GuardBidderState, RoundSettlementView, SettlementPlan, allowed, settle_refunds, void_refunds,
  settle_loop, Refund,
}
use sub_rosa_issue.Keeper.Guard.Evaluate.{evaluate_settle, evaluate_void}
use sub_rosa_issue.Keeper.Guard.Winner.{Wins}
use sub_rosa_issue.Keeper.Guard.Plans.{PlansSettle-settle_plan, PlansVoid-void_plan}
use sub_rosa_issue.Keeper.Guard.Refunds.{
  total, held, held_by, Funded, names, total-void_loop, settle_others, settle_loop-append,
  refund_winner, held-append, names-apart,
}
use sub_rosa_issue.Keeper.Guard.Rules.{allowed→Settleable, evaluate_void_iff}

-- The contract has not paid the bid yet, and its escrow covers what it reveals.
abbrev pub Unpaid : GuardBidderState → Type 0
Unpaid s = s.settled ≡ false

abbrev Backs : Option ℤ → Option ℤ → Type 0
Backs none revealed = Unit
Backs (some e) none = pos 0 ≤ℤ e
Backs (some e) (some v) = (pos 0 ≤ℤ e) × (v ≤ℤ e)

abbrev pub Backed : GuardBidderState → Type 0
Backed s = Backs s.escrow s.revealed_value

Backed-Funded : (s : GuardBidderState) → Backed s → Funded s
Backed-Funded s b = go s.escrow s.revealed_value s.settled b
  where
    go : (e : Option ℤ) (v : Option ℤ) (paid : Bool) → Backs e v → pos 0 ≤ℤ held_by e paid
    go none v paid b = omega arith
    go (some e) v true b = omega arith
    go (some e) none false b = b
    go (some e) (some v) false b = b.0

All-Backed-Funded : (states : List GuardBidderState) → All Backed states → All Funded states
All-Backed-Funded [] b = tt
All-Backed-Funded (s ∷ rest) b = (Backed-Funded s b.0, All-Backed-Funded rest b.1)

covers :
    (e v : ℤ) (escrow revealed : Option ℤ)
    → Backs escrow revealed
    → escrow ≡ some e
    → revealed ≡ some v
    → v ≤ℤ e
covers e v none revealed b h k = cc
covers e v (some e') none b h k = cc
covers e v (some e') (some v') b h k = ground arith

module _ (before : List GuardBidderState) (at : GuardBidderState) (after : List GuardBidderState)
    (bid : ℤ) (apart : Distinct (names (before ++ at ∷ after)))
    (unpaid : All Unpaid (before ++ at ∷ after)) (backed : All Backed (before ++ at ∷ after)) where
  -- The refunds, the surplus and the payout of a settle whose winner is the state `at`.
  settle-conserves_at :
      (e : ℤ)
      → at.escrow ≡ some e
      → at.revealed_value ≡ some bid
      → let r = settle_loop at.bidder bid ([], pos 0) (before ++ at ∷ after) in
        bid +ℤ r.1 +ℤ total r.0 ≡ held (before ++ at ∷ after)
  unfolding held settle_loop total
  settle-conserves_at e read reveals =
      let others = names-apart before at after apart in
      let open_bids = All-middle Unpaid before at after unpaid in
      let funds = All-middle Backed before at after backed in
      let start : List Refund × ℤ = ([], pos 0) in
      let first =
        settle_others at.bidder bid start before others.0 (All-Backed-Funded before funds.0) in
      let one =
        refund_winner at.bidder bid (settle_loop at.bidder bid start before) at e refl read
          open_bids.1 (covers e bid at.escrow at.revealed_value funds.1 read reveals) in
      let last =
        settle_others at.bidder bid ((settle_loop at.bidder bid start before).0, e -ℤ bid) after
          others.1 (All-Backed-Funded after funds.2) in
      let kept : held_by at.escrow at.settled ≡ e = rw (read, open_bids.1) refl in
      let whole =
        settle_loop-append at.bidder bid start before (at ∷ after)
        ∙ ap (λ acc. settle_loop at.bidder bid acc after) one in
      rw (whole, last.0, last.1, first.0, held-append before (at ∷ after), kept) (omega int_laws)

-- What a settle for `w` at `bid` moves is what is held.
abbrev Conserves : ℤ → String → List GuardBidderState → Type 0
Conserves bid w states =
    Distinct (names states)
    → All Unpaid states
    → All Backed states
    → bid
        +ℤ (settle_loop w bid ([], pos 0) states).1
        +ℤ total (settle_loop w bid ([], pos 0) states).0
      ≡ held states

Wins-conserves :
    (view : RoundSettlementView) (w : String) (bid : ℤ)
    → Wins view.clearing_rule view.bidders (record { bidder = w; value = bid })
    → Distinct (names view.bidders)
    → All Unpaid view.bidders
    → All Backed view.bidders
    → bid +ℤ (settle_refunds view w bid).1 +ℤ total (settle_refunds view w bid).0
      ≡ held view.bidders
unfolding settle_refunds
Wins-conserves view w bid wins apart unpaid backed = elim (Option-cases wins.at.escrow) [
  | inl missing ↦ absurd (wins.bids.read missing)
  | inr (e, read) ↦
      subst (Conserves bid w) (sym wins.split)
        (subst (λ n. Conserves bid n (wins.before ++ wins.at ∷ wins.after)) wins.named
          λ a u b.
            settle-conserves_at wins.before wins.at wins.after bid a u b e read wins.bids.reveals)
        apart unpaid backed
]

-- If the guard allows a settle of a view whose bidders are distinct, none of them paid yet, and each
-- with a non-negative escrow that covers its revealed value, then the operator's payout, the winner's
-- surplus and the refunds add up to exactly the escrow held for the view's bidders.
pub evaluate_settle-conserves :
    (view : RoundSettlementView) (plan : SettlementPlan)
    → evaluate_settle view ≡ allowed plan
    → Distinct (names view.bidders)
    → All Unpaid view.bidders
    → All Backed view.bidders
    → plan.operator_payout +ℤ plan.winner_surplus +ℤ total plan.refunds ≡ held view.bidders
evaluate_settle-conserves view plan h apart unpaid backed =
    let (w, bid, ready, same) = allowed→Settleable view plan h in
    rw (sym (PlansSettle-settle_plan view w bid plan same))
      (Wins-conserves view w bid ready.confirmed apart unpaid backed)

-- If the guard allows a void of a view with no negative escrow, the refunds add up to exactly the
-- escrow that is held for the view's bidders, and nothing goes to an operator or a winner.
pub evaluate_void-conserves :
    (view : RoundSettlementView) (plan : SettlementPlan)
    → evaluate_void view ≡ allowed plan
    → All Funded view.bidders
    → (total plan.refunds ≡ held view.bidders)
      × (plan.operator_payout ≡ pos 0)
      × (plan.winner_surplus ≡ pos 0)
      × (plan.winner ≡ none)
unfolding void_refunds total
evaluate_void-conserves view plan h funded =
    let (ready, same) = (evaluate_void_iff view plan).0 h in
    rw (sym (PlansVoid-void_plan view plan same))
      (total-void_loop [] view.bidders funded ∙ omega int_laws, refl, refl, refl)
