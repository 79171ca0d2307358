-- ===== src/Template/Escrow.antt =====
-- What checkEscrowConservation of services/auction-template/template-rules.ts decides.
use sub_rosa_issue.Prelude.{
  ℤ, pos, ◌+ℤ◌, ◌-ℤ◌, ◌≤ℤ◌, ltb_ℤ, eqb_ℤ_iff, int_laws, ◌≡◌, ◌↔◌, refl, sym, ap, ◌∙◌, some_inj,
  true, Option, none, some, Option-cases, Bool-cases, List, [], ◌∷◌, String, arith, inl, inr, ◌⊎◌,
}
use sub_rosa_issue.Template.{
  ReceiptBid, Receipt, ConservationCheck, holds, violated, sum_escrow, value_or_zero, check_sums,
  check_winner_entry, check_winner, check_escrow_conservation,
}

-- The escrow of the bidders, where every one has a bid.
unfoldable pub total_of : (String → Option ReceiptBid) → List String → Option ℤ
total_of bids [] = some (pos 0)
total_of bids (b ∷ rest) = elim (bids b) [
  | none ↦ none
  | some bid ↦ elim (total_of bids rest) [ none ↦ none | some t ↦ some (bid.escrow +ℤ t) ]
]

add_to : ℤ → Option ℤ → Option ℤ
add_to z none = none
add_to z (some t) = some (z +ℤ t)

add_add :
    (z e : ℤ) (o : Option ℤ)
    → add_to (z +ℤ e) o ≡ add_to z (elim o [ none ↦ none | some t ↦ some (e +ℤ t) ])
unfolding add_to
add_add z e none = refl
add_add z e (some t) = ap some (omega int_laws)

sum_escrow-total_of :
    (bids : String → Option ReceiptBid) (z : ℤ) (bs : List String)
    → sum_escrow bids z bs ≡ add_to z (total_of bids bs)
unfolding sum_escrow total_of add_to
sum_escrow-total_of bids z [] = ap some (omega int_laws)
sum_escrow-total_of bids z (b ∷ rest) = elim (Option-cases (bids b)) [
  | inl n ↦ rw (n, sum_escrow, total_of) refl
  | inr q ↦
      let ih = sum_escrow-total_of bids (z +ℤ (q.0).escrow) rest in
      rw (q.1, sum_escrow, total_of, ih) (add_add z (q.0).escrow (total_of bids rest))
]

check_sums_lem :
    (total value : ℤ)
    → check_sums total value ≡ record {
      ok = true;
      total_escrow = total;
      operator_value = value;
      refunded = total -ℤ value;
      reason = holds;
    }
unfolding check_sums
check_sums_lem total value =
    let e = (eqb_ℤ_iff (value +ℤ (total -ℤ value)) total).1 (omega int_laws) in rw e refl

-- No winner, or one with a bid whose escrow is at least the winning value.
abbrev pub Covered : Receipt → Type 0
Covered r =
    (r.winner ≡ none)
    ⊎ ((w : String) × (bid : ReceiptBid) × (r.winner ≡ some w)
        × (r.bids w ≡ some bid)
        × (value_or_zero r.winning_value ≤ℤ bid.escrow))

-- What a check says of a receipt whose bidders hold `total`.
abbrev pub Verdict : Receipt → ℤ → ConservationCheck → Type 0
Verdict r total c =
    (c.total_escrow ≡ total)
    × (c.operator_value +ℤ c.refunded ≡ total)
    × ((c.ok ≡ true) ↔ Covered r)
    × ¬ (c.reason ≡ violated)

module _ (r : Receipt) (total : ℤ) where
  sums_back : value_or_zero r.winning_value +ℤ (total -ℤ value_or_zero r.winning_value) ≡ total
  sums_back = omega int_laws

  uncovered_missing : (w : String) → r.winner ≡ some w → r.bids w ≡ none → ¬ Covered r
  uncovered_missing w h n (inl e) = cc
  uncovered_missing w h n (inr (v, bid, e, b, le)) = cc

  uncovered_short :
      (w : String) (bid : ReceiptBid)
      → r.winner ≡ some w
      → r.bids w ≡ some bid
      → ltb_ℤ bid.escrow (value_or_zero r.winning_value) ≡ true
      → ¬ Covered r
  uncovered_short w bid h b y (inl e) = cc
  uncovered_short w bid h b y (inr (v, other, e, o, le)) =
      let same : some bid ≡ some other = cc in
      let one = some_inj bid other same in
      let short = sym (ap (λ x. ltb_ℤ x.escrow (value_or_zero r.winning_value)) one) ∙ y in
      ground (arith, short, le)

  Verdict-winner :
      (o : Option String)
      → r.winner ≡ o
      → Verdict r total (check_winner r total (value_or_zero r.winning_value) o)
  unfolding check_winner check_winner_entry
  Verdict-winner none h =
      rw (check_sums_lem total (value_or_zero r.winning_value))
        (refl, sums_back, (λ t. inl h, λ c. refl), λ e. cc)
  Verdict-winner (some w) h = elim (Option-cases (r.bids w)) [
    | inl n ↦
        rw (n, check_winner_entry)
          (refl, sums_back, (λ t. cc, λ c. absurd (uncovered_missing w h n c)), λ e. cc)
    | inr q ↦ elim (Bool-cases (ltb_ℤ (q.0).escrow (value_or_zero r.winning_value))) [
      | inl y ↦
          rw (q.1, check_winner_entry, y)
            (refl, sums_back, (λ t. cc, λ c. absurd (uncovered_short w (q.0) h (q.1) y c)), λ e. cc)
      | inr y ↦
          rw (q.1, check_winner_entry, y, check_sums_lem total (value_or_zero r.winning_value))
            (refl, sums_back, (λ t. inr (w, q.0, h, q.1, ground (arith, y)), λ c. refl), λ e. cc)
    ]
  ]

-- A check of a receipt throws just when one of its bidders has no bid. Otherwise it gives the total
-- of the bidders' escrow, its operator value and its refunds make up that total, it accepts just
-- when there is no winner or the winner's escrow covers the winning value, and it never gives the
-- reason that the conservation is violated.
pub check_escrow_conservation_lem :
    (r : Receipt)
    → ((total_of r.bids r.bidders ≡ none) × (check_escrow_conservation r ≡ none))
      ⊎ ((total : ℤ) × (c : ConservationCheck) × (total_of r.bids r.bidders ≡ some total)
          × (check_escrow_conservation r ≡ some c)
          × Verdict r total c)
unfolding check_escrow_conservation add_to
check_escrow_conservation_lem r =
    let s = sum_escrow-total_of r.bids (pos 0) r.bidders in
    elim (Option-cases (total_of r.bids r.bidders)) [
      | inl n ↦ let e = s ∙ ap (add_to (pos 0)) n in inl (n, rw (e, check_escrow_conservation) refl)
      | inr q ↦
          let zero_left : pos 0 +ℤ q.0 ≡ q.0 = omega int_laws in
          let e = s ∙ ap (add_to (pos 0)) (q.1) ∙ ap some zero_left in
          inr (
            q.0,
            check_winner r (q.0) (value_or_zero r.winning_value) r.winner,
            q.1,
            rw (e, check_escrow_conservation) refl,
            Verdict-winner r (q.0) r.winner refl,
          )
    ]
