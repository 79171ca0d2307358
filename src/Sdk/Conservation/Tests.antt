-- ===== src/Sdk/Conservation/Tests.antt =====
-- Runs of packages/sdk/src/conservation.ts on a round with two bidders.
use sub_rosa_issue.Prelude.{
  ◌≡◌, ◌↔◌, refl, true, false, pos, ◌+ℤ◌, ◌-ℤ◌, none, some, List, [], ◌∷◌, String, contains, arith,
  if◌then◌else◌, str_eq,
}
use sub_rosa_issue.Sdk.Conservation.{
  Totals, Report, Source, Options, is_escrow_conserved, evaluate_escrow_conservation,
  prove_escrow_conservation_from_pages, walk_pages, finish, after_page, visit, visit_all,
  note_total, distinct_from, check_listed,
}
use sub_rosa_issue.Sdk.Conservation.Predicate.{Balanced, is_escrow_conserved_iff}
use sub_rosa_issue.Sdk.Conservation.Sound.{Books, prove_escrow_conservation_sound}
use sub_rosa_issue.Sdk.Conservation.Ends.{prove_escrow_conservation_total}
use sub_rosa_issue.Sdk.Conservation.Paged.{page_of}

abbrev two_names : List String
two_names = "alice" ∷ "bob" ∷ []

abbrev served : Source
served = record {
  get_bidders_page = λ cursor size. page_of size two_names cursor;
  get_bid_state = λ bidder.
      some
        (record { escrow = if str_eq bidder "alice" then pos 500 else pos 400; settled = false });
}

abbrev settle_options : Options
settle_options = record {
  page_size = none;
  payable = some (pos 300);
  winner = some "alice";
  expected_bidders = some two_names;
  issues = none;
  max_pages = none;
}

abbrev report : Report
report = record {
  bidders = 2;
  escrow_held = pos 900;
  refundable = pos 400;
  payable = pos 300;
  winner_escrow = pos 500;
  surplus = pos 200;
  stranded = pos 0;
  conserved = true;
  issues = [];
}

report_run : prove_escrow_conservation_from_pages 6 served settle_options ≡ some report
unfolding prove_escrow_conservation_from_pages walk_pages after_page note_total visit_all visit
    contains finish distinct_from check_listed evaluate_escrow_conservation is_escrow_conserved ◌+ℤ◌
    ◌-ℤ◌
report_run = refl

abbrev balanced_totals : Totals
balanced_totals = record {
  escrow_held = pos 900;
  refundable = pos 400;
  payable = pos 300;
  winner_escrow = some (pos 500);
  issues = none;
  bidders = some 2;
}

is_escrow_conserved_iff_example :
    (is_escrow_conserved balanced_totals ≡ true) ↔ Balanced balanced_totals
is_escrow_conserved_iff_example = is_escrow_conserved_iff balanced_totals

prove_escrow_conservation_sound_example :
    (seen : List String) × Books served settle_options report seen
prove_escrow_conservation_sound_example =
    prove_escrow_conservation_sound 6 served settle_options report report_run refl

prove_escrow_conservation_total_example :
    (r : Report) × (prove_escrow_conservation_from_pages 7 served settle_options ≡ some r)
prove_escrow_conservation_total_example =
    prove_escrow_conservation_total 7 served settle_options (omega arith)
