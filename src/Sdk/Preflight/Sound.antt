-- ===== src/Sdk/Preflight/Sound.antt =====
-- What it takes to pass the conservation preflights of packages/sdk/src/client.ts.
use sub_rosa_issue.Prelude.{
  or_else, ℕ, ◌≡◌, ◌≢◌, refl, sym, ap, ◌∙◌, subst, Bool, true, false, All, ℤ, pos, ◌+ℤ◌, String,
  Option, none, some, List, [], ◌∷◌, ◌++◌, arith, Bool-cases, inl, inr, some_inj,
}
use sub_rosa_issue.Keeper.Guard.{
  Status, open_status, revealing, cleared, settled_status, voided, RoundSettlementView,
  SettlementPlan, allowed,
}
use sub_rosa_issue.Keeper.Guard.Evaluate.{evaluate_void}
use sub_rosa_issue.Keeper.Guard.Rules.{evaluate_void_iff}
use sub_rosa_issue.Sdk.Conservation.{
  Issue, issue, round_wrong_status, Report, Source, Options, prove_escrow_conservation_from_pages,
}
use sub_rosa_issue.Sdk.Conservation.Accounts.{sum, locked, owed, won, Sound}
use sub_rosa_issue.Sdk.Conservation.Sound.{Books, Indexed, Listed, prove_escrow_conservation_sound}
use sub_rosa_issue.Sdk.Preflight.{
  Phase, settle_phase, void_phase, Round, required_status, status_eq, status_issues, winner_issues,
  conservation_options, Proof, report, prove_escrow_conservation, passed, unreadable, out_of_fuel,
  judged, payable_of, winner_of, settle_outcome, void_outcome, preflight_settle_conservation,
  preflight_void_conservation,
}

append-eq-nil : (xs ys : List Issue) → xs ++ ys ≡ [] → (xs ≡ []) × (ys ≡ [])
append-eq-nil [] ys h = (refl, h)
append-eq-nil (x ∷ xs) ys h = cc

status_eq_lem : (a b : Status) → status_eq a b ≡ true → a ≡ b
status_eq_lem open_status open_status h = refl
status_eq_lem revealing revealing h = refl
status_eq_lem cleared cleared h = refl
status_eq_lem settled_status settled_status h = refl
status_eq_lem voided voided h = refl
status_eq_lem _ _ h = cc

status_issues_none :
    (phase : Phase) (status : Status)
    → status_issues phase status ≡ []
    → status ≡ required_status phase
unfolding status_issues
status_issues_none phase status h = elim (Bool-cases (status_eq status (required_status phase))) [
  | inl e ↦ status_eq_lem status (required_status phase) e
  | inr e ↦ let stuck : issue round_wrong_status none ∷ [] ≡ [] = rw e at h in cc stuck
]

winner_issues_none :
    (winner : Option String) (bid : Option ℤ)
    → winner_issues settle_phase winner bid ≡ []
    → (w : String) × (b : ℤ) × (winner ≡ some w) × (bid ≡ some b)
unfolding winner_issues
winner_issues_none none bid h = cc
winner_issues_none (some w) none h = cc
winner_issues_none (some w) (some b) h = (w, b, refl, refl)

-- A conserved proof of a readable round: the status is the phase's, and the books are right.
record Proved (fuel : ℕ) (source : Source) (round : Option Round) (phase : Phase) (o : Options)
    (r : Report) : Type 0 where
  rd : Round
  read : round ≡ some rd
  in_phase : rd.status ≡ required_status phase
  seen : List String
  books : Books source (conservation_options rd phase o) r seen
  no_winner_issue : winner_issues phase rd.winner rd.winning_bid ≡ []

proved :
    (fuel : ℕ) (source : Source) (round : Option Round) (phase : Phase) (o : Options) (r : Report)
    → prove_escrow_conservation fuel source round phase o ≡ report r
    → r.conserved ≡ true
    → Proved fuel source round phase o r
unfolding prove_escrow_conservation
proved fuel source none phase o r h c = cc
proved fuel source (some rd) phase o r h c =
    let out : prove_escrow_conservation_from_pages fuel source (conservation_options rd phase o)
        ≡ some r =
      ground arith in
    let (seen, books) =
      prove_escrow_conservation_sound fuel source (conservation_options rd phase o) r out c in
    let parts =
      append-eq-nil (or_else o.issues [] ++ status_issues phase rd.status)
        (winner_issues phase rd.winner rd.winning_bid)
        (unfold conservation_options in books.unmarked) in
    record {
      rd = rd;
      read = refl;
      in_phase =
          status_issues_none phase rd.status
            (append-eq-nil (or_else o.issues []) (status_issues phase rd.status) parts.0).1;
      seen = seen;
      books = books;
      no_winner_issue = parts.1;
    }

-- Books depend on four of the options only.
Books-terms :
    (source : Source) (o terms : Options) (r : Report) (seen : List String)
    → o.winner ≡ terms.winner
    → or_else o.payable (pos 0) ≡ or_else terms.payable (pos 0)
    → o.expected_bidders ≡ terms.expected_bidders
    → or_else terms.issues [] ≡ []
    → Books source o r seen
    → Books source terms r seen
Books-terms source o terms r seen winner payable listed quiet b = record {
  distinct = b.distinct;
  readable = subst (λ x. All (Sound source.get_bid_state x) seen) winner b.readable;
  unmarked = quiet;
  counted = b.counted;
  indexed = subst (λ x. Indexed x seen) winner b.indexed;
  listed = subst (λ x. Listed x seen) listed b.listed;
  payout = b.payout ∙ payable;
  pay_nonneg = b.pay_nonneg;
  surplus_nonneg = b.surplus_nonneg;
  held = subst (λ x. r.escrow_held ≡ sum (locked source.get_bid_state x) seen) winner b.held;
  refunds = subst (λ x. r.refundable ≡ sum (owed source.get_bid_state x) seen) winner b.refunds;
  pays = subst (λ x. r.payable +ℤ r.surplus ≡ sum (won source.get_bid_state x) seen) winner b.pays;
  moved = b.moved;
}

judged_passed :
    (phase : Phase) (c : Bool) (x r : Report) → judged phase c x ≡ passed r → (x ≡ r) × (c ≡ true)
judged_passed phase true x r h = (cc, refl)
judged_passed phase false x r h = cc

payable_won :
    (winner : Option String) (bid : Option ℤ) (w : String) (b : ℤ)
    → winner ≡ some w
    → bid ≡ some b
    → payable_of settle_phase winner bid ≡ b
payable_won none bid w b h k = cc
payable_won (some x) none w b h k = cc
payable_won (some x) (some y) w b h k = cc

settle_outcome_passed :
    (p : Proof) (r : Report) → settle_outcome p ≡ passed r → (p ≡ report r) × (r.conserved ≡ true)
unfolding settle_outcome
settle_outcome_passed unreadable r h = cc
settle_outcome_passed out_of_fuel r h = cc
settle_outcome_passed (report x) r h =
    let (same, c) = judged_passed settle_phase x.conserved x r h in
    (ap report same, subst (λ y. y.conserved ≡ true) same c)

void_outcome_passed :
    (p : Proof) (r : Report) → void_outcome p ≡ passed r → (p ≡ report r) × (r.conserved ≡ true)
unfolding void_outcome
void_outcome_passed unreadable r h = cc
void_outcome_passed out_of_fuel r h = cc
void_outcome_passed (report x) r h =
    let (same, c) = judged_passed void_phase x.conserved x r h in
    (ap report same, subst (λ y. y.conserved ≡ true) same c)

winner_won :
    (winner given : Option String) (w : String)
    → winner ≡ some w
    → winner_of settle_phase winner given ≡ some w
winner_won none given w h = cc
winner_won (some x) given w h = h

-- What the books of a settle are to be taken over: this winner and payout, and the caller's list of
-- bidders, or else the round's.
abbrev pub settle_terms : Round → Options → String → ℤ → Options
settle_terms rd o w bid = record {
  page_size = none;
  payable = some bid;
  winner = some w;
  expected_bidders = some (or_else o.expected_bidders rd.bidders);
  issues = none;
  max_pages = none;
}

-- The settle preflight passes only for a round that was read as cleared, with a winner and a winning
-- bid; the payout of its report is that bid, and the books of the report are right for this winner and
-- payout and list every bidder of the round, or of the list that the caller gave instead.
pub preflight_settle_sound :
    (fuel : ℕ) (source : Source) (round : Option Round) (o : Options) (r : Report)
    → preflight_settle_conservation fuel source round o ≡ passed r
    → (rd : Round) × (w : String) × (bid : ℤ) × (seen : List String) × (round ≡ some rd)
      × (rd.status ≡ cleared)
      × (rd.winner ≡ some w)
      × (rd.winning_bid ≡ some bid)
      × (r.payable ≡ bid)
      × Books source (settle_terms rd o w bid) r seen
unfolding preflight_settle_conservation
preflight_settle_sound fuel source round o r h =
    let (same, c) =
      settle_outcome_passed (prove_escrow_conservation fuel source round settle_phase o) r h in
    let p = proved fuel source round settle_phase o r same c in
    let (w, bid, won, with) = winner_issues_none p.rd.winner p.rd.winning_bid p.no_winner_issue in
    let payout = payable_won p.rd.winner p.rd.winning_bid w bid won with in
    let winner = winner_won p.rd.winner o.winner w won in
    (
      p.rd,
      w,
      bid,
      p.seen,
      p.read,
      p.in_phase,
      won,
      with,
      p.books.payout ∙ (unfold conservation_options in payout),
      Books-terms source (conservation_options p.rd settle_phase o) (settle_terms p.rd o w bid) r
          p.seen (unfold conservation_options in winner) (unfold conservation_options in payout)
          (unfold conservation_options in refl) refl p.books,
    )

-- The void preflight and the settlement guard's void rule exclude one another: the guard allows a
-- void only of an open round, as the contract does, and the preflight passes only a revealing one, so
-- no round that both read with the same status gets past both.
pub preflight_void_excludes_guard :
    (fuel : ℕ) (source : Source) (rd : Round) (o : Options) (r : Report)
    (view : RoundSettlementView) (plan : SettlementPlan)
    → view.status ≡ rd.status
    → preflight_void_conservation fuel source (some rd) o ≡ passed r
    → evaluate_void view ≢ allowed plan
unfolding preflight_void_conservation
preflight_void_excludes_guard fuel source rd o r view plan same h allows =
    let (out, c) =
      void_outcome_passed (prove_escrow_conservation fuel source (some rd) void_phase o) r h in
    let p = proved fuel source (some rd) void_phase o r out c in
    let is_open = ((evaluate_void_iff view plan).0 allows).0.is_open in
    let status : rd.status ≡ revealing =
      subst (λ x. x.status ≡ revealing) (sym (some_inj rd p.rd p.read)) p.in_phase in
    cc (is_open, same, status)
