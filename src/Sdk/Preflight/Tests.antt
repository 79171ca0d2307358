-- ===== src/Sdk/Preflight/Tests.antt =====
-- Runs of the preflights of packages/sdk/src/client.ts.
use sub_rosa_issue.Prelude.{
  ◌≡◌, ◌≢◌, refl, true, false, ℤ, pos, ◌+ℤ◌, ◌-ℤ◌, String, str_eq, none, some, List, [], ◌∷◌,
  contains, if◌then◌else◌,
}
use sub_rosa_issue.Keeper.Guard.{revealing, cleared, highest_bid, RoundSettlementView, allowed}
use sub_rosa_issue.Keeper.Guard.Evaluate.{evaluate_void, void_plan}
use sub_rosa_issue.Sdk.Conservation.{
  Report, Source, Options, is_escrow_conserved, evaluate_escrow_conservation, walk_pages,
  after_page, note_total, visit_all, visit, finish, distinct_from, check_listed,
  prove_escrow_conservation_from_pages,
}
use sub_rosa_issue.Sdk.Conservation.Paged.{page_of}
use sub_rosa_issue.Sdk.Conservation.Sound.{Books}
use sub_rosa_issue.Sdk.Preflight.{
  Round, conservation_options, status_issues, winner_issues, passed, prove_escrow_conservation,
  settle_outcome, void_outcome, preflight_settle_conservation, preflight_void_conservation,
}
use sub_rosa_issue.Sdk.Preflight.Sound.{
  settle_terms, preflight_settle_sound, preflight_void_excludes_guard,
}

abbrev two_names : List String
two_names = "alice" ∷ "bob" ∷ []

abbrev served : Source
served = record {
  get_bidders_page = λ cursor size. page_of size two_names cursor;
  get_bid_state = λ bidder.
      some
        (record { escrow = if str_eq bidder "alice" then pos 500 else pos 400; settled = false });
}

abbrev defaults : Options
defaults = record {
  page_size = none;
  payable = none;
  winner = none;
  expected_bidders = none;
  issues = none;
  max_pages = none;
}

abbrev cleared_round : Round
cleared_round = record {
  status = cleared;
  bidders = two_names;
  winner = some "alice";
  winning_bid = some (pos 300);
}

abbrev settled_books : Report
settled_books = record {
  bidders = 2;
  escrow_held = pos 900;
  refundable = pos 400;
  payable = pos 300;
  winner_escrow = pos 500;
  surplus = pos 200;
  stranded = pos 0;
  conserved = true;
  issues = [];
}

abbrev revealing_round : Round
revealing_round = record {
  status = revealing;
  bidders = two_names;
  winner = none;
  winning_bid = none;
}

abbrev void_books : Report
void_books = record {
  bidders = 2;
  escrow_held = pos 900;
  refundable = pos 900;
  payable = pos 0;
  winner_escrow = pos 0;
  surplus = pos 0;
  stranded = pos 0;
  conserved = true;
  issues = [];
}

settle_run :
    preflight_settle_conservation 6 served (some cleared_round) defaults ≡ passed settled_books
unfolding preflight_settle_conservation settle_outcome prove_escrow_conservation
    conservation_options status_issues winner_issues prove_escrow_conservation_from_pages walk_pages
    after_page note_total visit_all visit contains finish distinct_from check_listed
    evaluate_escrow_conservation is_escrow_conserved ◌+ℤ◌ ◌-ℤ◌
settle_run = refl

void_run : preflight_void_conservation 6 served (some revealing_round) defaults ≡ passed void_books
unfolding preflight_void_conservation void_outcome prove_escrow_conservation conservation_options
    status_issues winner_issues prove_escrow_conservation_from_pages walk_pages after_page
    note_total visit_all visit contains finish distinct_from check_listed
    evaluate_escrow_conservation is_escrow_conserved ◌+ℤ◌ ◌-ℤ◌
void_run = refl

preflight_settle_sound_example :
    (rd : Round) × (w : String) × (bid : ℤ) × (seen : List String) × (some cleared_round ≡ some rd)
    × (rd.status ≡ cleared)
    × (rd.winner ≡ some w)
    × (rd.winning_bid ≡ some bid)
    × (settled_books.payable ≡ bid)
    × Books served (settle_terms rd defaults w bid) settled_books seen
preflight_settle_sound_example =
    preflight_settle_sound 6 served (some cleared_round) defaults settled_books settle_run

abbrev same_round : RoundSettlementView
same_round = record {
  round_id = 7;
  status = revealing;
  clearing_rule = highest_bid;
  reveal_deadline = 1000;
  now_seconds = 9000;
  bidders = [];
  bidder_total = 0;
  winner = none;
  winning_bid = none;
}

preflight_void_excludes_guard_example : evaluate_void same_round ≢ allowed (void_plan same_round)
preflight_void_excludes_guard_example =
    preflight_void_excludes_guard 6 served revealing_round defaults void_books same_round
      (void_plan same_round) refl void_run
