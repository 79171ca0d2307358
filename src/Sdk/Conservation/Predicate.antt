-- ===== src/Sdk/Conservation/Predicate.antt =====
-- `isEscrowConserved` and `evaluateEscrowConservation` of packages/sdk/src/conservation.ts.
use sub_rosa_issue.Prelude.{
  or_else, ◌≡◌, ◌↔◌, refl, ◌∙◌, ap, true, ℤ, pos, ◌+ℤ◌, ◌-ℤ◌, ◌≤ℤ◌, eqb_ℤ, eqb_ℤ_iff, int_laws,
  List, [], ◌∷◌, arith, +ℤ_parts,
}
use sub_rosa_issue.Sdk.Conservation.{
  Totals, Issue, is_empty, is_escrow_conserved, evaluate_escrow_conservation,
}

-- The accounting identity, without the surplus that the code goes through.
pub record Balanced (t : Totals) : Type 0 where
  pub quiet : or_else t.issues [] ≡ []
  pub refund_nonneg : pos 0 ≤ℤ t.refundable
  pub pay_nonneg : pos 0 ≤ℤ t.payable
  pub backed : t.payable ≤ℤ or_else t.winner_escrow (pos 0)
  pub exact : t.escrow_held ≡ t.refundable +ℤ or_else t.winner_escrow (pos 0)

is_empty_lem : (l : List Issue) → is_empty l ≡ true → l ≡ []
is_empty_lem [] h = refl
is_empty_lem (i ∷ l) h = cc

moved : (r p w : ℤ) → r +ℤ p +ℤ (w -ℤ p) ≡ r +ℤ w
moved r p w = omega int_laws

conserved→Balanced : (t : Totals) → is_escrow_conserved t ≡ true → Balanced t
unfolding is_escrow_conserved
conserved→Balanced t h = record {
  quiet = is_empty_lem (or_else t.issues []) (ground arith);
  refund_nonneg = ground arith;
  pay_nonneg = ground arith;
  backed = ground arith;
  exact =
      let w = or_else t.winner_escrow (pos 0) in
      let same : eqb_ℤ t.escrow_held (t.refundable +ℤ t.payable +ℤ (w -ℤ t.payable)) ≡ true =
        ground arith in
      (eqb_ℤ_iff t.escrow_held (t.refundable +ℤ t.payable +ℤ (w -ℤ t.payable))).0 same
      ∙ moved t.refundable t.payable w;
}

Balanced→conserved : (t : Totals) → Balanced t → is_escrow_conserved t ≡ true
unfolding is_escrow_conserved
Balanced→conserved t b =
    let w = or_else t.winner_escrow (pos 0) in
    ground (arith, moved t.refundable t.payable w, +ℤ_parts t.refundable w)

-- The predicate holds exactly if there are no issues, neither the refunds nor the payout are
-- negative, the payout is at most the winner's escrow, and the escrow held is the refunds and the
-- winner's escrow together.
pub is_escrow_conserved_iff : (t : Totals) → (is_escrow_conserved t ≡ true) ↔ Balanced t
is_escrow_conserved_iff t = (conserved→Balanced t, Balanced→conserved t)

-- What an evaluation calls stranded is the escrow held beyond the refunds and the winner's escrow,
-- whatever the payout is.
pub stranded_lem :
    (t : Totals)
    → (evaluate_escrow_conservation t).stranded
      ≡ t.escrow_held -ℤ (t.refundable +ℤ or_else t.winner_escrow (pos 0))
unfolding evaluate_escrow_conservation
stranded_lem t =
    ap (λ z. t.escrow_held -ℤ z) (moved t.refundable t.payable (or_else t.winner_escrow (pos 0)))
