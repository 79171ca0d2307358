-- ===== src/Sdk/Preflight.antt =====
-- `proveEscrowConservation` and the two preflights of it in packages/sdk/src/client.ts: the checks
-- that stand before a settle or a void. Reads of the contract are functions, `none` where they throw;
-- only what the typed error carries of its report is modelled, and no message text.
pub mod Sound
pub mod Tests
use sub_rosa_issue.Prelude.{
  or_else, ℕ, Bool, true, false, ℤ, pos, String, Option, none, some, List, [], ◌∷◌, ◌++◌,
  if◌then◌else◌,
}
use sub_rosa_issue.Keeper.Guard.{Status, open_status, revealing, cleared, settled_status, voided}
use sub_rosa_issue.Sdk.Conservation.{
  Issue, issue, round_wrong_status, no_winner, bid_state_missing, Report, Source, Options, Totals,
  escrow_page_size, prove_escrow_conservation_from_pages, evaluate_escrow_conservation,
}

pub data Phase : Type 0 where
  clear_phase settle_phase void_phase : Phase

-- The fields of the round record that are read.
pub record Round : Type 0 where
  pub status : Status
  pub bidders : List String
  pub winner : Option String
  pub winning_bid : Option ℤ

abbrev pub status_eq : Status → Status → Bool
status_eq open_status open_status = true
status_eq revealing revealing = true
status_eq cleared cleared = true
status_eq settled_status settled_status = true
status_eq voided voided = true
status_eq _ _ = false

abbrev pub required_status : Phase → Status
required_status settle_phase = cleared
required_status clear_phase = revealing
required_status void_phase = revealing

unfoldable pub status_issues : Phase → Status → List Issue
status_issues phase status =
    if status_eq status (required_status phase) then [] else issue round_wrong_status none ∷ []

unfoldable pub winner_issues : Phase → Option String → Option ℤ → List Issue
winner_issues settle_phase none bid = issue no_winner none ∷ []
winner_issues settle_phase (some w) none = issue no_winner none ∷ []
winner_issues settle_phase (some w) (some bid) = []
winner_issues _ winner bid = []

abbrev pub payable_of : Phase → Option String → Option ℤ → ℤ
payable_of settle_phase (some w) (some bid) = bid
payable_of _ winner bid = pos 0

-- `...(phase === "settle" && round.winner ? { winner: round.winner } : {})`.
abbrev pub winner_of : Phase → Option String → Option String → Option String
winner_of settle_phase (some w) given = some w
winner_of _ winner given = given

unfoldable pub conservation_options : Round → Phase → Options → Options
conservation_options round phase o = record {
  page_size = some (or_else o.page_size escrow_page_size);
  payable = some (payable_of phase round.winner round.winning_bid);
  winner = winner_of phase round.winner o.winner;
  expected_bidders = some (or_else o.expected_bidders round.bidders);
  issues = some (
      (or_else o.issues [] ++ status_issues phase round.status)
      ++ winner_issues phase round.winner round.winning_bid);
  max_pages = o.max_pages;
}

pub data Proof : Type 0 where
  unreadable out_of_fuel : Proof
  report : Report → Proof

abbrev reported : Option Report → Proof
reported none = out_of_fuel
reported (some r) = report r

-- `proveEscrowConservation` of a round that may be unreadable.
unfoldable pub prove_escrow_conservation : ℕ → Source → Option Round → Phase → Options → Proof
prove_escrow_conservation fuel source none phase o = unreadable
prove_escrow_conservation fuel source (some round) phase o =
    reported (prove_escrow_conservation_from_pages fuel source (conservation_options round phase o))

-- A preflight resolves with its report, throws the typed error with a report, or rethrows.
pub data Preflight : Type 0 where
  passed : Report → Preflight
  conservation_error : Phase → Report → Preflight
  rethrown no_end : Preflight

abbrev unreadable_report : Report
unreadable_report = evaluate_escrow_conservation (record {
  escrow_held = pos 0;
  refundable = pos 0;
  payable = pos 0;
  winner_escrow = some (pos 0);
  issues = some (issue bid_state_missing none ∷ []);
  bidders = some 0;
})

abbrev pub judged : Phase → Bool → Report → Preflight
judged phase true r = passed r
judged phase false r = conservation_error phase r

abbrev pub judge : Phase → Report → Preflight
judge phase r = judged phase r.conserved r

unfoldable pub settle_outcome : Proof → Preflight
settle_outcome unreadable = conservation_error settle_phase unreadable_report
settle_outcome out_of_fuel = no_end
settle_outcome (report r) = judge settle_phase r

unfoldable pub void_outcome : Proof → Preflight
void_outcome unreadable = rethrown
void_outcome out_of_fuel = no_end
void_outcome (report r) = judge void_phase r

unfoldable pub preflight_settle_conservation : ℕ → Source → Option Round → Options → Preflight
preflight_settle_conservation fuel source round o =
    settle_outcome (prove_escrow_conservation fuel source round settle_phase o)

unfoldable pub preflight_void_conservation : ℕ → Source → Option Round → Options → Preflight
preflight_void_conservation fuel source round o =
    void_outcome (prove_escrow_conservation fuel source round void_phase o)
