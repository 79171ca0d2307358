-- ===== src/Keeper/Guard/Read.antt =====
-- `readSettlementView` of services/keeper/src/settlement-guard.ts. The client's reads are functions of
-- what they ask for, and a read that throws gives `none`.
use sub_rosa_issue.Prelude.{
  ℕ, zero, suc, ◌==◌, ◌||◌, leb, Bool, false, ℤ, String, Option, none, some, List, [], ◌∷◌, ◌++◌,
  length, if◌then◌else◌,
}
use sub_rosa_issue.Keeper.Guard.{Status, ClearingRule, GuardBidderState, RoundSettlementView}

abbrev pub bidder_page_size : ℕ
bidder_page_size = 100

-- A cursor, as the loop passes it on: its own start is a number, the client's cursors are bytes, and
-- the last page may have none.
pub data PageCursor : Type 0 where
  number : ℕ → PageCursor
  bytes : List ℕ → PageCursor
  absent : PageCursor

-- `next_cursor === 0`.
unfoldable pub is_zero : PageCursor → Bool
is_zero (number n) = n == 0
is_zero (bytes b) = false
is_zero absent = false

-- The fields that the loop reads.
pub record BiddersPage : Type 0 where
  pub page : List String
  pub total : ℕ
  pub next_cursor : PageCursor

pub record BidState : Type 0 where
  pub escrow : ℤ
  pub revealed_value : Option ℤ
  pub settled : Bool

pub record Round : Type 0 where
  pub status : Status
  pub clearing_rule : ClearingRule
  pub reveal_deadline : ℕ
  pub bidders : List String
  pub winner : Option String
  pub winning_bid : Option ℤ

pub record Reader : Type 0 where
  pub get_round : ℕ → Option Round
  pub get_bidders_page : ℕ → PageCursor → ℕ → Option BiddersPage
  pub get_bid_state : ℕ → String → Option BidState

abbrev Index : Type 0
Index = List String × ℕ

-- The page loop, with the bidders and the total so far. A page that cannot be read ends it. The source
-- has no bound on the rounds: `none` means that the fuel ran out.
unfoldable pub read_index :
    ℕ → (PageCursor → Option BiddersPage) → PageCursor → Index → Option Index
read_index zero pages cursor acc = none
read_index (suc fuel) pages cursor acc = elim (pages cursor) [
  | none ↦ some acc
  | some p ↦
      let index = acc.0 ++ p.page in
      let rest = read_index fuel pages p.next_cursor (index, p.total) in
      if is_zero p.next_cursor || leb p.total (length index) then some (index, p.total) else rest
]

read_bidder : String → Option BidState → GuardBidderState
read_bidder bidder none = record {
  bidder = bidder;
  escrow = none;
  revealed_value = none;
  settled = false;
}
read_bidder bidder (some state) = record {
  bidder = bidder;
  escrow = some state.escrow;
  revealed_value = state.revealed_value;
  settled = state.settled;
}

unfoldable pub read_bidders : (String → Option BidState) → List String → List GuardBidderState
unfolding read_bidder
read_bidders states [] = []
read_bidders states (b ∷ rest) = read_bidder b (states b) ∷ read_bidders states rest

-- `none` if the round cannot be read; inside, `none` if the fuel runs out.
unfoldable pub read_settlement_view : ℕ → Reader → ℕ → ℕ → Option (Option RoundSettlementView)
read_settlement_view fuel reader round_id now_seconds = elim (reader.get_round round_id) [
  | none ↦ none
  | some round ↦
      some
        (elim (read_index fuel (λ cursor. reader.get_bidders_page round_id cursor bidder_page_size)
          (number 0) ([], length round.bidders)) [
            | none ↦ none
            | some (index, total) ↦ some (record {
              round_id = round_id;
              status = round.status;
              clearing_rule = round.clearing_rule;
              reveal_deadline = round.reveal_deadline;
              now_seconds = now_seconds;
              bidders = read_bidders (reader.get_bid_state round_id) index;
              bidder_total = total;
              winner = round.winner;
              winning_bid = round.winning_bid;
            })
          ])
]

-- The view of a round whose index could not be read at all.
abbrev nothing_read : ℕ → Round → ℕ → RoundSettlementView
nothing_read round_id round now_seconds = record {
  round_id = round_id;
  status = round.status;
  clearing_rule = round.clearing_rule;
  reveal_deadline = round.reveal_deadline;
  now_seconds = now_seconds;
  bidders = [];
  bidder_total = length round.bidders;
  winner = round.winner;
  winning_bid = round.winning_bid;
}
