-- ===== src/Template/Tests.antt =====
-- A receipt of two bidders for services/auction-template/template-rules.ts.
use sub_rosa_issue.Prelude.{
  ℤ, pos, ◌+ℤ◌, ◌≡◌, ◌⊎◌, refl, false, none, some, Option, [], ◌∷◌, String, str_eq, if◌then◌else◌,
}
use sub_rosa_issue.Template.{
  ReceiptBid, Receipt, ConservationCheck, check_escrow_conservation, exceeds_winner_escrow, failed,
  check_winner, check_winner_entry, sum_escrow,
}
use sub_rosa_issue.Template.Escrow.{total_of, Verdict, check_escrow_conservation_lem}

abbrev bids : String → Option ReceiptBid
bids b =
    if str_eq b "alice"
    then some (record { escrow = pos 500; settled = false })
    else if str_eq b "bob"
    then some (record { escrow = pos 400; settled = false })
    else none

abbrev receipt : Receipt
receipt = record {
  winning_value = some (pos 600);
  winner = some "alice";
  bidders = "alice" ∷ "bob" ∷ [];
  bids = bids;
}

short_run :
    check_escrow_conservation receipt ≡ some (failed (pos 900) (pos 600) exceeds_winner_escrow)
unfolding check_escrow_conservation sum_escrow check_winner check_winner_entry ◌+ℤ◌
short_run = refl

check_escrow_conservation_lem_example :
    ((total_of bids receipt.bidders ≡ none) × (check_escrow_conservation receipt ≡ none))
    ⊎ ((total : ℤ) × (c : ConservationCheck) × (total_of bids receipt.bidders ≡ some total)
        × (check_escrow_conservation receipt ≡ some c)
        × Verdict receipt total c)
check_escrow_conservation_lem_example = check_escrow_conservation_lem receipt
