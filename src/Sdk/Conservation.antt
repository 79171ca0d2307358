-- ===== src/Sdk/Conservation.antt =====
-- packages/sdk/src/conservation.ts: escrow conservation, re-derived from the public views of a round.
-- The text of messages is not modelled. The reads of the source are functions of what they ask for.
pub mod Predicate
pub mod Accounts
pub mod Sound
pub mod Ends
pub mod Issues
pub mod Paged
pub mod Tests
use sub_rosa_issue.Prelude.{
  or_else, ℕ, zero, suc, ◌+◌, ◌-◌, ◌/◌, ltb, leb, ◌==◌, Bool, true, false, not, ◌&&◌, ◌||◌, ℤ, pos,
  ◌+ℤ◌, ◌-ℤ◌, ltb_ℤ, eqb_ℤ, String, str_eq, Option, none, some, List, [], ◌∷◌, ◌++◌, contains,
  length, if◌then◌else◌,
}

abbrev pub escrow_page_size : ℕ
escrow_page_size = 100

abbrev pub escrow_max_bidders : ℕ
escrow_max_bidders = 500

pub data IssueCode : Type 0 where
  page_total_drift duplicate_bidder page_count_mismatch cursor_stalled : IssueCode
  bid_state_missing bidder_already_settled escrow_locked index_mismatch : IssueCode
  winner_not_indexed round_wrong_status no_winner escrow_stranded : IssueCode

pub record Issue : Type 0 where
  pub code : IssueCode
  pub bidder : Option String

pub record Totals : Type 0 where
  pub escrow_held : ℤ
  pub refundable : ℤ
  pub payable : ℤ
  pub winner_escrow : Option ℤ
  pub issues : Option (List Issue)
  pub bidders : Option ℕ

pub record Report : Type 0 where
  pub bidders : ℕ
  pub escrow_held : ℤ
  pub refundable : ℤ
  pub payable : ℤ
  pub winner_escrow : ℤ
  pub surplus : ℤ
  pub stranded : ℤ
  pub conserved : Bool
  pub issues : List Issue

abbrev pub is_empty : List Issue → Bool
is_empty [] = true
is_empty (i ∷ rest) = false

abbrev pub is_negative : ℤ → Bool
is_negative z = ltb_ℤ z (pos 0)

unfoldable pub is_escrow_conserved : Totals → Bool
is_escrow_conserved t =
    let winner_escrow = or_else t.winner_escrow (pos 0) in
    if not (is_empty (or_else t.issues []))
    then false
    else if is_negative t.escrow_held
    then false
    else if is_negative t.refundable
    then false
    else if is_negative t.payable
    then false
    else if is_negative winner_escrow
    then false
    else if ltb_ℤ winner_escrow t.payable
    then false
    else eqb_ℤ t.escrow_held (t.refundable +ℤ t.payable +ℤ (winner_escrow -ℤ t.payable))

abbrev pub issue : IssueCode → Option String → Issue
issue code bidder = record { code = code; bidder = bidder }

unfoldable pub evaluate_escrow_conservation : Totals → Report
evaluate_escrow_conservation t =
    let issues = or_else t.issues [] in
    let winner_escrow = or_else t.winner_escrow (pos 0) in
    let surplus = winner_escrow -ℤ t.payable in
    let stranded = t.escrow_held -ℤ (t.refundable +ℤ t.payable +ℤ surplus) in
    record {
      bidders = or_else t.bidders 0;
      escrow_held = t.escrow_held;
      refundable = t.refundable;
      payable = t.payable;
      winner_escrow = winner_escrow;
      surplus = surplus;
      stranded = stranded;
      conserved = is_escrow_conserved t;
      issues = if ltb_ℤ (pos 0) stranded then issues ++ issue escrow_stranded none ∷ [] else issues;
    }

-- The fields of a page and of a bid's state that the walk reads.
pub record Page : Type 0 where
  pub addresses : List String
  pub total : ℕ
  pub next_cursor : ℕ

pub record BidState : Type 0 where
  pub escrow : ℤ
  pub settled : Bool

pub record Source : Type 0 where
  pub get_bidders_page : ℕ → ℕ → Page
  pub get_bid_state : String → Option BidState

pub record Options : Type 0 where
  pub page_size : Option ℕ
  pub payable : Option ℤ
  pub winner : Option String
  pub expected_bidders : Option (List String)
  pub issues : Option (List Issue)
  pub max_pages : Option ℕ

-- The variables of the walk. `seen` is a set: the newest address is the head.
pub record Walk : Type 0 where
  pub issues : List Issue
  pub seen : List String
  pub escrow_held : ℤ
  pub refundable : ℤ
  pub winner_escrow : ℤ
  pub declared_total : Option ℕ

abbrev pub flag : Walk → IssueCode → Option String → Walk
flag w code bidder = record w { issues = w.issues ++ issue code bidder ∷ [] }

abbrev pub is_winner : Option String → String → Bool
is_winner none bidder = false
is_winner (some winner) bidder = str_eq bidder winner

-- The bid of an address that was not seen before.
account : Option String → Walk → String → Option BidState → Walk
account winner w bidder none = flag w bid_state_missing (some bidder)
account winner w bidder (some state) =
    let counted = record w { escrow_held = w.escrow_held +ℤ state.escrow } in
    if is_negative state.escrow
    then flag w escrow_locked (some bidder)
    else if state.settled
    then flag counted bidder_already_settled (some bidder)
    else if is_winner winner bidder
    then record counted { winner_escrow = w.winner_escrow +ℤ state.escrow }
    else record counted { refundable = w.refundable +ℤ state.escrow }

unfoldable pub visit : (String → Option BidState) → Option String → Walk → String → Walk
unfolding account
visit states winner w bidder =
    if contains w.seen bidder
    then flag w duplicate_bidder (some bidder)
    else account winner (record w { seen = bidder ∷ w.seen }) bidder (states bidder)

unfoldable pub visit_all : (String → Option BidState) → Option String → Walk → List String → Walk
visit_all states winner w [] = w
visit_all states winner w (b ∷ rest) = visit_all states winner (visit states winner w b) rest

unfoldable pub note_total : Walk → Option ℕ → ℕ → Walk
note_total w none total = record w { declared_total = some total }
note_total w (some declared) total = if total == declared then w else flag w page_total_drift none

abbrev pub take_page : (String → Option BidState) → Option String → Walk → Page → Walk
take_page states winner w page =
    visit_all states winner (note_total w w.declared_total page.total) page.addresses

-- What the tests after a page say: to stop, with an issue or without one, or to go on.
pub data Next : Type 0 where
  stop go_on : Next
  stop_with : IssueCode → Next

unfoldable pub after_page : ℕ → ℕ → ℕ → Walk → ℕ → Next
after_page max_pages pages cursor w next_cursor =
    if ltb escrow_max_bidders (length w.seen)
    then stop_with page_count_mismatch
    else if next_cursor == 0
    then stop
    else if leb next_cursor cursor
    then stop_with cursor_stalled
    else if leb max_pages pages
    then stop_with cursor_stalled
    else if ltb escrow_max_bidders next_cursor
    then stop_with cursor_stalled
    else go_on

-- The page loop. `pages` counts those read before; `none` means that the fuel ran out.
unfoldable pub walk_pages : ℕ → Source → Option String → ℕ → ℕ → ℕ → ℕ → Walk → Option Walk
walk_pages zero source winner size max_pages pages cursor w = none
walk_pages (suc fuel) source winner size max_pages pages cursor w =
    let page = source.get_bidders_page cursor size in
    let w' = take_page source.get_bid_state winner w page in
    elim (after_page max_pages (pages + 1) cursor w' page.next_cursor) [
      | stop ↦ some w'
      | stop_with code ↦ some (flag w' code none)
      | go_on ↦ walk_pages fuel source winner size max_pages (pages + 1) page.next_cursor w'
    ]

-- `Math.ceil(ESCROW_MAX_BIDDERS / pageSize) + 1`.
abbrev pub default_max_pages : ℕ → ℕ
default_max_pages size = (escrow_max_bidders + size - 1) / size + 1

abbrev pub start : List Issue → Walk
start issues = record {
  issues = issues;
  seen = [];
  escrow_held = pos 0;
  refundable = pos 0;
  winner_escrow = pos 0;
  declared_total = none;
}

unfoldable pub check_winner : Option String → Walk → Walk
check_winner none w = w
check_winner (some winner) w =
    if contains w.seen winner then w else flag w winner_not_indexed (some winner)

-- `new Set(expected)`, in insertion order.
unfoldable pub distinct_from : List String → List String → List String
distinct_from known [] = []
distinct_from known (b ∷ rest) =
    let skipped = distinct_from known rest in
    let kept = b ∷ distinct_from (b ∷ known) rest in if contains known b then skipped else kept

unfoldable pub check_listed : Walk → List String → Walk
check_listed w [] = w
check_listed w (b ∷ rest) =
    check_listed (if contains w.seen b then w else flag w index_mismatch (some b)) rest

unfoldable pub check_expected : Option (List String) → Walk → Walk
check_expected none w = w
check_expected (some expected) w =
    let listed = distinct_from [] expected in
    check_listed (if length listed == length w.seen then w else flag w index_mismatch none) listed

unfoldable pub check_total : Option ℕ → Walk → Walk
check_total none w = w
check_total (some declared) w =
    if length w.seen == declared then w else flag w page_count_mismatch none

abbrev pub totals_of : ℤ → Walk → Totals
totals_of payable w = record {
  escrow_held = w.escrow_held;
  refundable = w.refundable;
  payable = payable;
  winner_escrow = some w.winner_escrow;
  issues = some w.issues;
  bidders = some (length w.seen);
}

-- The checks after the page loop.
unfoldable pub finish : Options → Walk → Report
unfolding check_winner check_expected check_total
finish o w =
    let w₁ = check_winner o.winner w in
    let w₂ = check_expected o.expected_bidders w₁ in
    let w₃ = check_total w₂.declared_total w₂ in
    evaluate_escrow_conservation (totals_of (or_else o.payable (pos 0)) w₃)

-- `proveEscrowConservationFromPages`, on fuel for its page loop. A page size is a whole number here;
-- the source refuses the others as it refuses 0.
unfoldable pub prove_escrow_conservation_from_pages : ℕ → Source → Options → Option Report
prove_escrow_conservation_from_pages fuel source o =
    let size = or_else o.page_size escrow_page_size in
    let max_pages = or_else o.max_pages (default_max_pages size) in
    let issues = or_else o.issues [] in
    let payable = or_else o.payable (pos 0) in
    if ltb size 1 || ltb 100 size
    then some
        (evaluate_escrow_conservation (totals_of payable (flag (start issues) cursor_stalled none)))
    else elim (walk_pages fuel source o.winner size max_pages 0 0 (start issues)) [
      | none ↦ none
      | some w ↦ some (finish o w)
    ]
