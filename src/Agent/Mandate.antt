-- ===== src/Agent/Mandate.antt =====
-- services/agent/src/mandate.ts: the caps that a signed mandate puts on what an agent pays and bids.
-- The decimal texts of a verified mandate are the integers they stand for. `trim` is the method of
-- the language's strings.
use sub_rosa_issue.Prelude.{
  ℕ, ℤ, pos, pos_part, neg_part, ◌+ℤ◌, ◌-ℤ◌, ltb_ℤ, leb_ℤ, ltb, Bool, true, false, not, ◌||◌,
  Option, none, some, List, [], ◌∷◌, String, str_eq, if◌then◌else◌,
}
mod Spend
mod Bids
mod Tests

pub record SessionMandate : Type 0 where
  pub max_bid_stroops : ℤ
  pub max_escrow_stroops : ℤ
  pub max_appraisal_spend_stroops : ℤ
  pub appraisal_price_stroops : ℤ
  pub appraisal_asset : Option String
  pub appraisal_pay_to : Option String

-- A quote's amount: a bigint, or a text with the number that it is if it is a decimal.
pub data QuoteAmount : Type 0 where
  bigint : ℤ → QuoteAmount
  decimal : Option ℕ → QuoteAmount

-- `expires_at` is none for a number that is not whole.
pub record MandateAppraisalQuote : Type 0 where
  pub asset : String
  pub amount : QuoteAmount
  pub destination : String
  pub expires_at : Option ℤ

pub record QuoteOptions : Type 0 where
  pub spent_so_far_stroops : ℤ
  pub now_seconds : Option ℤ
  pub expected_asset : Option String
  pub expected_destination : Option String

pub data RefusalCode : Type 0 where
  quote_exceeds_cap quote_spend_exceeded quote_asset_mismatch : RefusalCode
  quote_destination_mismatch quote_expired quote_invalid : RefusalCode

-- `Number.isSafeInteger(n) && n >= 0`, as the number that it is.
abbrev pub max_safe_integer : ℕ
max_safe_integer = 9007199254740991

abbrev pub safe_natural : Option ℤ → Option ℕ
safe_natural (some (pos n)) = if ltb max_safe_integer n then none else some n
safe_natural _ = none

-- The amount, or none where the source throws.
unfoldable pub parse_quote_amount_to_stroops : QuoteAmount → Option ℤ
parse_quote_amount_to_stroops (bigint z) = if leb_ℤ z (pos 0) then none else some z
parse_quote_amount_to_stroops (decimal none) = none
parse_quote_amount_to_stroops (decimal (some n)) =
    if leb_ℤ (pos n) (pos 0) then none else some (pos n)

abbrev pub first_of : Option String → Option String → Option String
first_of none b = b
first_of (some a) b = some a

abbrev pub mismatch : Option String → String → Bool
mismatch none given = false
mismatch (some expected) given = not (str_eq given expected)

-- The caps, the last tests of assertAppraisalQuoteAllowed.
unfoldable pub quote_caps : SessionMandate → ℤ → ℤ → Option RefusalCode
quote_caps m amount spent =
    if ltb_ℤ m.appraisal_price_stroops amount
    then some quote_exceeds_cap
    else if ltb_ℤ spent (pos 0)
    then some quote_invalid
    else if ltb_ℤ m.max_appraisal_spend_stroops (spent +ℤ amount)
    then some quote_spend_exceeded
    else none

unfoldable pub quote_binding :
    SessionMandate → MandateAppraisalQuote → QuoteOptions → Option RefusalCode
quote_binding m q o =
    if mismatch (first_of m.appraisal_asset o.expected_asset) q.asset
    then some quote_asset_mismatch
    else if mismatch (first_of m.appraisal_pay_to o.expected_destination) q.destination
    then some quote_destination_mismatch
    else none

-- The time of the check against the expiry.
unfoldable pub quote_time : Option ℕ → ℕ → Option RefusalCode
quote_time none expires = some quote_invalid
quote_time (some now) expires = if ltb expires now then some quote_expired else none

-- The first refusal of two tests in a row.
abbrev pub then_test : Option RefusalCode → Option RefusalCode → Option RefusalCode
then_test none b = b
then_test (some c) b = some c

unfoldable pub quote_tests :
    SessionMandate → MandateAppraisalQuote → QuoteOptions → Option ℕ → Option ℤ → Option RefusalCode
quote_tests m q o none amount = some quote_invalid
quote_tests m q o (some expires) none = some quote_invalid
quote_tests m q o (some expires) (some amount) =
    then_test (quote_time (safe_natural o.now_seconds) expires)
      (then_test (quote_binding m q o) (quote_caps m amount o.spent_so_far_stroops))

-- `none` is a quote that may be paid.
unfoldable pub assert_appraisal_quote_allowed :
    (String → String) → SessionMandate → MandateAppraisalQuote → QuoteOptions → Option RefusalCode
assert_appraisal_quote_allowed trim m q o =
    if str_eq (trim q.asset) "" || str_eq (trim q.destination) ""
    then some quote_invalid
    else quote_tests m q o (safe_natural q.expires_at) (parse_quote_amount_to_stroops q.amount)

-- The budget that is left, or none where the source throws.
unfoldable pub remaining_appraisal_spend : SessionMandate → ℤ → Option ℤ
remaining_appraisal_spend m spent =
    let remaining = m.max_appraisal_spend_stroops -ℤ spent in
    if ltb_ℤ spent (pos 0) then none else if ltb_ℤ remaining (pos 0) then none else some remaining

pub data BidRefusal : Type 0 where
  bid_not_positive bid_exceeds_max_bid escrow_not_positive : BidRefusal
  escrow_exceeds_max_escrow bid_exceeds_escrow : BidRefusal

unfoldable pub assert_bid_within_mandate : SessionMandate → ℤ → ℤ → Option BidRefusal
assert_bid_within_mandate m bid escrow =
    if leb_ℤ bid (pos 0)
    then some bid_not_positive
    else if ltb_ℤ m.max_bid_stroops bid
    then some bid_exceeds_max_bid
    else if leb_ℤ escrow (pos 0)
    then some escrow_not_positive
    else if ltb_ℤ m.max_escrow_stroops escrow
    then some escrow_exceeds_max_escrow
    else if ltb_ℤ escrow bid
    then some bid_exceeds_escrow
    else none

pub data SizedBid : Type 0 where
  refused_bid : BidRefusal → SizedBid
  sized : ℤ → ℤ → SizedBid

abbrev pub at_most : ℤ → ℤ → ℤ
at_most cap z = if ltb_ℤ cap z then cap else z

abbrev pub if_allowed : Option BidRefusal → SizedBid → SizedBid
if_allowed none s = s
if_allowed (some r) s = refused_bid r

-- From the suggestion in stroops, which usdcToStroops gives.
unfoldable pub bid_from_appraisal : ℤ → SessionMandate → SizedBid
bid_from_appraisal suggested m =
    let bid = at_most m.max_bid_stroops suggested in
    let tried = if leb_ℤ bid m.max_escrow_stroops then bid else m.max_escrow_stroops in
    if_allowed (assert_bid_within_mandate m bid tried)
      (if_allowed (assert_bid_within_mandate m bid bid) (sized bid bid))
