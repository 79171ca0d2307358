-- ===== src/Keeper/Guard/Plans.antt =====
-- What the plans of `evaluateSettle` and `evaluateVoid` of services/keeper/src/settlement-guard.ts hold.
use sub_rosa_issue.Prelude.{
  ◌≡◌, refl, sym, ap, ◌∙◌, Bool, true, false, inl, inr, ℤ, pos, ◌-ℤ◌, ◌≤ℤ◌, int_laws, leb_ℤ, ltb_ℤ,
  String, str_eq, Option, none, some, List, [], ◌∷◌, ◌++◌, append-nil, append_assoc, arith,
  Bool-cases, if◌then◌else◌,
}
use sub_rosa_issue.Keeper.Guard.{
  GuardBidderState, RoundSettlementView, settle, void, SettlementPlan, Refund, settle_loop,
  void_loop, refund_bid, push_refund, void_bid, positive_part, settle_refunds, void_refunds,
}
use sub_rosa_issue.Keeper.Guard.Evaluate.{settle_plan, void_plan}

abbrev pub Readable : GuardBidderState → Type 0
Readable s = (e : ℤ) × (s.escrow ≡ some e)

-- The refund that is due to a bidder: the whole escrow, if it is unpaid and more than nothing.
abbrev pub due : String → Option ℤ → Bool → List Refund
due bidder none paid = []
due bidder (some e) true = []
due bidder (some e) false =
    if leb_ℤ e (pos 0) then [] else record { bidder = bidder; amount = e } ∷ []

-- The refunds that are due to all but the ones left out, in the order of the index.
unfoldable pub dues : (String → Bool) → List GuardBidderState → List Refund
dues omit [] = []
dues omit (s ∷ rest) =
    (if omit s.bidder then [] else due s.bidder s.escrow s.settled) ++ dues omit rest

-- What is left to the winner of an escrow: what it exceeds the bid by.
abbrev pub excess : ℤ → ℤ → ℤ
excess bid e = if leb_ℤ e bid then pos 0 else e -ℤ bid

abbrev pub surplus_after : ℤ → ℤ → Option ℤ → Bool → ℤ
surplus_after bid surplus none paid = surplus
surplus_after bid surplus (some e) true = surplus
surplus_after bid surplus (some e) false = excess bid e

-- The surplus of the winner, by the last of its unpaid bids.
unfoldable pub surplus_due : String → ℤ → ℤ → List GuardBidderState → ℤ
surplus_due winner bid surplus [] = surplus
surplus_due winner bid surplus (s ∷ rest) =
    surplus_due winner bid
      (if str_eq s.bidder winner then surplus_after bid surplus s.escrow s.settled else surplus)
      rest

pub record PlansSettle (view : RoundSettlementView) (w : String) (bid : ℤ) (plan : SettlementPlan)
    : Type 0 where
  pub action : plan.action ≡ settle
  pub winner : plan.winner ≡ some w
  pub payout : plan.operator_payout ≡ bid
  pub surplus : plan.winner_surplus ≡ surplus_due w bid (pos 0) view.bidders
  pub refunds : plan.refunds ≡ dues (λ b. str_eq b w) view.bidders

pub record PlansVoid (view : RoundSettlementView) (plan : SettlementPlan) : Type 0 where
  pub action : plan.action ≡ void
  pub winner : plan.winner ≡ none
  pub payout : plan.operator_payout ≡ pos 0
  pub surplus : plan.winner_surplus ≡ pos 0
  pub refunds : plan.refunds ≡ dues (λ b. false) view.bidders

push_due :
    (refunds : List Refund) (bidder : String) (e : ℤ)
    → push_refund refunds bidder e ≡ refunds ++ due bidder (some e) false
unfolding push_refund
push_due refunds bidder e = elim (Bool-cases (leb_ℤ e (pos 0))) [
  | inl y ↦
      let low : ltb_ℤ (pos 0) e ≡ false = ground (arith, y) in
      rw (y, low) (sym (append-nil refunds))
  | inr n ↦ let high : ltb_ℤ (pos 0) e ≡ true = ground (arith, n) in rw (n, high) refl
]

positive_part_none : (z : ℤ) → z ≤ℤ pos 0 → positive_part z ≡ pos 0
positive_part_none z h = ground arith

positive_part_all : (z : ℤ) → pos 0 ≤ℤ z → positive_part z ≡ z
positive_part_all z h = ground arith

excess_lem : (e bid : ℤ) → positive_part (e -ℤ bid) ≡ excess bid e
excess_lem e bid = elim (Bool-cases (leb_ℤ e bid)) [
  | inl y ↦
      let under : e ≤ℤ bid = ground (arith, y) in
      rw y (positive_part_none (e -ℤ bid) (omega (int_laws, under)))
  | inr n ↦
      let over : bid ≤ℤ e = ground (arith, n) in
      rw n (positive_part_all (e -ℤ bid) (omega (int_laws, over)))
]

module _ (w : String) (bid : ℤ) where
  refund_bid_lem :
      (acc : List Refund × ℤ) (bidder : String) (escrow : Option ℤ) (paid : Bool)
      → refund_bid w bid acc bidder escrow paid ≡ (
        acc.0 ++ (if str_eq bidder w then [] else due bidder escrow paid),
        if str_eq bidder w then surplus_after bid acc.1 escrow paid else acc.1,
      )
  unfolding refund_bid
  refund_bid_lem acc bidder none paid = elim (Bool-cases (str_eq bidder w)) [
    | inl y ↦ rw (y, append-nil acc.0) refl
    | inr n ↦ rw (n, append-nil acc.0) refl
  ]
  refund_bid_lem acc bidder (some e) true = elim (Bool-cases (str_eq bidder w)) [
    | inl y ↦ rw (y, append-nil acc.0) refl
    | inr n ↦ rw (n, append-nil acc.0) refl
  ]
  refund_bid_lem acc bidder (some e) false = elim (Bool-cases (str_eq bidder w)) [
    | inl y ↦ rw (y, append-nil acc.0, excess_lem e bid) refl
    | inr n ↦ rw (n, push_due acc.0 bidder e) refl
  ]

  settle_loop_lem :
      (acc : List Refund × ℤ) (states : List GuardBidderState)
      → settle_loop w bid acc states
        ≡ (acc.0 ++ dues (λ b. str_eq b w) states, surplus_due w bid acc.1 states)
  unfolding settle_loop dues surplus_due
  settle_loop_lem acc [] = rw (append-nil acc.0) refl
  settle_loop_lem acc (s ∷ rest) =
      ap (λ a. settle_loop w bid a rest) (refund_bid_lem acc s.bidder s.escrow s.settled)
      ∙ settle_loop_lem
          (
            acc.0 ++ (if str_eq s.bidder w then [] else due s.bidder s.escrow s.settled),
            if str_eq s.bidder w then surplus_after bid acc.1 s.escrow s.settled else acc.1,
          )
          rest
      ∙ rw (append_assoc acc.0) refl

void_bid_lem :
    (refunds : List Refund) (bidder : String) (escrow : Option ℤ) (paid : Bool)
    → void_bid refunds bidder escrow paid ≡ refunds ++ due bidder escrow paid
unfolding void_bid
void_bid_lem refunds bidder none paid = sym (append-nil refunds)
void_bid_lem refunds bidder (some e) true = sym (append-nil refunds)
void_bid_lem refunds bidder (some e) false = push_due refunds bidder e

void_loop_lem :
    (refunds : List Refund) (states : List GuardBidderState)
    → void_loop refunds states ≡ refunds ++ dues (λ b. false) states
unfolding void_loop dues
void_loop_lem refunds [] = sym (append-nil refunds)
void_loop_lem refunds (s ∷ rest) =
    void_loop_lem (void_bid refunds s.bidder s.escrow s.settled) rest
    ∙ rw (void_bid_lem refunds s.bidder s.escrow s.settled, append_assoc refunds) refl

pub settle_plan-PlansSettle :
    (view : RoundSettlementView) (w : String) (bid : ℤ)
    → PlansSettle view w bid (settle_plan view w bid)
unfolding settle_refunds
settle_plan-PlansSettle view w bid =
    let e = settle_loop_lem w bid ([], pos 0) view.bidders in
    record {
      action = refl;
      winner = refl;
      payout = refl;
      surplus = ap (λ r. r.1) e;
      refunds = ap (λ r. r.0) e;
    }

pub void_plan-PlansVoid : (view : RoundSettlementView) → PlansVoid view (void_plan view)
unfolding void_refunds
void_plan-PlansVoid view = record {
  action = refl;
  winner = refl;
  payout = refl;
  surplus = refl;
  refunds = void_loop_lem [] view.bidders;
}

same_plan :
    (p q : SettlementPlan)
    → p.action ≡ q.action
    → p.winner ≡ q.winner
    → p.operator_payout ≡ q.operator_payout
    → p.winner_surplus ≡ q.winner_surplus
    → p.refunds ≡ q.refunds
    → p ≡ q
same_plan p q a w o s r =
    ap (λ x. record p { action = x }) a
    ∙ ap (λ x. record p { action = q.action; winner = x }) w
    ∙ ap (λ x. record p { action = q.action; winner = q.winner; operator_payout = x }) o
    ∙ ap (λ x. record q { winner_surplus = x; refunds = p.refunds }) s
    ∙ ap (λ x. record q { refunds = x }) r

pub PlansSettle-settle_plan :
    (view : RoundSettlementView) (w : String) (bid : ℤ) (plan : SettlementPlan)
    → PlansSettle view w bid plan
    → settle_plan view w bid ≡ plan
PlansSettle-settle_plan view w bid plan p =
    let q = settle_plan-PlansSettle view w bid in
    same_plan _ plan (q.action ∙ sym p.action) (q.winner ∙ sym p.winner) (q.payout ∙ sym p.payout)
      (q.surplus ∙ sym p.surplus) (q.refunds ∙ sym p.refunds)

pub PlansVoid-void_plan :
    (view : RoundSettlementView) (plan : SettlementPlan)
    → PlansVoid view plan
    → void_plan view ≡ plan
PlansVoid-void_plan view plan p =
    let q = void_plan-PlansVoid view in
    same_plan _ plan (q.action ∙ sym p.action) (q.winner ∙ sym p.winner) (q.payout ∙ sym p.payout)
      (q.surplus ∙ sym p.surplus) (q.refunds ∙ sym p.refunds)
