-- ===== src/Agent/Mandate/Bids.antt =====
-- What an agent can bid under a mandate of services/agent/src/mandate.ts.
use sub_rosa_issue.Prelude.{
  ℤ, pos, ◌≤ℤ◌, ◌<ℤ◌, leb_ℤ, ◌≡◌, ◌↔◌, refl, sym, ap, ap₂, ◌∙◌, subst, true, Option, none, some,
  if◌then◌else◌, arith,
}
use sub_rosa_issue.Agent.Mandate.{
  SessionMandate, assert_bid_within_mandate, SizedBid, BidRefusal, sized, at_most, if_allowed,
  bid_from_appraisal,
}

-- What the mandate asks of a bid and its escrow.
abbrev pub Allowed : SessionMandate → ℤ → ℤ → Type 0
Allowed m bid escrow =
    (pos 0 <ℤ bid) × (bid ≤ℤ m.max_bid_stroops) × (bid ≤ℤ escrow) × (escrow ≤ℤ m.max_escrow_stroops)

assert_bid_iff :
    (m : SessionMandate) (bid escrow : ℤ)
    → (assert_bid_within_mandate m bid escrow ≡ none) ↔ Allowed m bid escrow
unfolding assert_bid_within_mandate
assert_bid_iff m bid escrow = ground arith

if_allowed-sized :
    (o : Option BidRefusal) (s : SizedBid) (bid escrow : ℤ)
    → if_allowed o s ≡ sized bid escrow
    → (o ≡ none) × (s ≡ sized bid escrow)
if_allowed-sized none s bid escrow h = (refl, h)
if_allowed-sized (some r) s bid escrow h = absurd (cc h)

sized_inj : (a b c d : ℤ) → sized a b ≡ sized c d → (a ≡ c) × (b ≡ d)
sized_inj a b c d h = (cc h, cc h)

leb_of : (a b : ℤ) → a ≤ℤ b → leb_ℤ a b ≡ true
leb_of a b h = ground (arith, h)

-- The bid of an appraisal is the suggestion, or the mandate's greatest bid if that is less, with just
-- as much escrow; it is given just when it is positive and within the mandate's greatest escrow, and
-- then the mandate allows it. A pair of a bid and an escrow is never given otherwise.
pub bid_from_appraisal_iff :
    (m : SessionMandate) (suggested bid escrow : ℤ)
    → (bid_from_appraisal suggested m ≡ sized bid escrow)
      ↔ ((bid ≡ at_most m.max_bid_stroops suggested) × (escrow ≡ bid) × Allowed m bid escrow)
unfolding bid_from_appraisal
bid_from_appraisal_iff m suggested bid escrow = (given, gives)
  where
    b : ℤ
    b = at_most m.max_bid_stroops suggested

    tried : ℤ
    tried = if leb_ℤ b m.max_escrow_stroops then b else m.max_escrow_stroops

    given :
        bid_from_appraisal suggested m ≡ sized bid escrow
        → (bid ≡ b) × (escrow ≡ bid) × Allowed m bid escrow
    given h =
        let one = if_allowed-sized (assert_bid_within_mandate m b tried) _ bid escrow h in
        let two = if_allowed-sized (assert_bid_within_mandate m b b) (sized b b) bid escrow one.1 in
        let pair = sized_inj b b bid escrow two.1 in
        let ok = (assert_bid_iff m b b).0 two.0 in
        let allowed =
          subst (λ x. Allowed m x escrow) pair.0 (subst (λ x. Allowed m b x) pair.1 ok) in
        (sym pair.0, sym pair.1 ∙ pair.0, allowed)

    gives :
        (bid ≡ b) × (escrow ≡ bid) × Allowed m bid escrow
        → bid_from_appraisal suggested m ≡ sized bid escrow
    gives (p, q, r) =
        let same : escrow ≡ b = q ∙ p in
        let ok : Allowed m b b =
          subst (λ x. Allowed m x b) p (subst (λ x. Allowed m bid x) same r) in
        let none_b = (assert_bid_iff m b b).1 ok in
        let fits : leb_ℤ b m.max_escrow_stroops ≡ true = leb_of b m.max_escrow_stroops (ok.3) in
        let whole : tried ≡ b = ap (λ t. if t then b else m.max_escrow_stroops) fits in
        ap
          (λ t.
            if_allowed (assert_bid_within_mandate m b t)
              (if_allowed (assert_bid_within_mandate m b b) (sized b b)))
          whole
        ∙ ap (λ o. if_allowed o (if_allowed o (sized b b))) none_b
        ∙ ap₂ sized (sym p) (sym same)
