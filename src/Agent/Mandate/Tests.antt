-- ===== src/Agent/Mandate/Tests.antt =====
-- A mandate of services/agent/src/mandate.ts, two quotes and a bid under it.
use sub_rosa_issue.Prelude.{ℤ, pos, ◌≤ℤ◌, ◌+ℤ◌, ◌-ℤ◌, ◌≡◌, refl, none, some, String, arith}
use sub_rosa_issue.Agent.Mandate.{
  SessionMandate, MandateAppraisalQuote, QuoteOptions, decimal, assert_appraisal_quote_allowed,
  quote_tests, quote_time, quote_binding, quote_caps, parse_quote_amount_to_stroops,
  remaining_appraisal_spend, quote_spend_exceeded, bid_from_appraisal, sized,
  assert_bid_within_mandate,
}
use sub_rosa_issue.Agent.Mandate.Spend.{nothing, paid, Spent-within}

abbrev mandate : SessionMandate
mandate = record {
  max_bid_stroops = pos 1000;
  max_escrow_stroops = pos 1200;
  max_appraisal_spend_stroops = pos 30;
  appraisal_price_stroops = pos 20;
  appraisal_asset = some "CUSDC";
  appraisal_pay_to = none;
}

abbrev quote : MandateAppraisalQuote
quote = record {
  asset = "CUSDC";
  amount = decimal (some 20);
  destination = "GSELLER";
  expires_at = some (pos 500);
}

abbrev after : ℤ → QuoteOptions
after spent = record {
  spent_so_far_stroops = spent;
  now_seconds = some (pos 400);
  expected_asset = none;
  expected_destination = some "GSELLER";
}

-- The test's texts have no blanks around them.
abbrev trim : String → String
trim s = s

first_run : assert_appraisal_quote_allowed trim mandate quote (after (pos 0)) ≡ none
unfolding assert_appraisal_quote_allowed quote_tests quote_time quote_binding quote_caps
    parse_quote_amount_to_stroops ◌+ℤ◌
first_run = refl

second_run :
    assert_appraisal_quote_allowed trim mandate quote (after (pos 20)) ≡ some quote_spend_exceeded
unfolding assert_appraisal_quote_allowed quote_tests quote_time quote_binding quote_caps
    parse_quote_amount_to_stroops ◌+ℤ◌
second_run = refl

amount_run : parse_quote_amount_to_stroops quote.amount ≡ some (pos 20)
unfolding parse_quote_amount_to_stroops
amount_run = refl

bid_run : bid_from_appraisal (pos 1500) mandate ≡ sized (pos 1000) (pos 1000)
unfolding bid_from_appraisal assert_bid_within_mandate
bid_run = refl

Spent-within_example :
    (pos 0 ≤ℤ (pos 0 +ℤ pos 20))
    × ((pos 0 +ℤ pos 20) ≤ℤ pos 30)
    × (remaining_appraisal_spend mandate (pos 0 +ℤ pos 20) ≡ some (pos 30 -ℤ (pos 0 +ℤ pos 20)))
Spent-within_example =
    Spent-within trim mandate (pos 0 +ℤ pos 20) (omega arith)
      (paid (pos 0) (pos 20) quote (after (pos 0)) nothing refl amount_run first_run)
