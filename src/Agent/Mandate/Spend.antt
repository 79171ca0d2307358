-- ===== src/Agent/Mandate/Spend.antt =====
-- What an agent can pay for appraisals under a mandate of services/agent/src/mandate.ts.
use sub_rosa_issue.Prelude.{
  ℕ, ◌≤◌, ◌↔◌, ℤ, pos, ◌+ℤ◌, ◌-ℤ◌, ◌≤ℤ◌, ◌<ℤ◌, ltb_ℤ, +ℤ_parts, -ℤ_parts, ◌≡◌, refl, ◌∙◌, sym,
  subst, some_inj, false, Bool-cases, Option, none, some, String, str_eq, arith, inl, inr,
}
use sub_rosa_issue.Agent.Mandate.{
  SessionMandate, MandateAppraisalQuote, QuoteOptions, RefusalCode, QuoteAmount, bigint, decimal,
  quote_caps, quote_binding, quote_time, then_test, quote_tests, assert_appraisal_quote_allowed,
  safe_natural, parse_quote_amount_to_stroops, remaining_appraisal_spend, mismatch, first_of,
}

-- What the caps and the other terms of a mandate ask of a quote of `amount`.
abbrev pub WithinCaps : SessionMandate → ℤ → ℤ → Type 0
WithinCaps m amount spent =
    (amount ≤ℤ m.appraisal_price_stroops)
    × (pos 0 ≤ℤ spent)
    × (spent +ℤ amount ≤ℤ m.max_appraisal_spend_stroops)

abbrev pub Bound : SessionMandate → MandateAppraisalQuote → QuoteOptions → Type 0
Bound m q o =
    (mismatch (first_of m.appraisal_asset o.expected_asset) q.asset ≡ false)
    × (mismatch (first_of m.appraisal_pay_to o.expected_destination) q.destination ≡ false)

caps_iff :
    (m : SessionMandate) (amount spent : ℤ)
    → (quote_caps m amount spent ≡ none) ↔ WithinCaps m amount spent
unfolding quote_caps
caps_iff m amount spent = ground arith

binding_iff :
    (m : SessionMandate) (q : MandateAppraisalQuote) (o : QuoteOptions)
    → (quote_binding m q o ≡ none) ↔ Bound m q o
unfolding quote_binding
binding_iff m q o = ground arith

time_iff :
    (now : Option ℕ) (expires : ℕ)
    → (quote_time now expires ≡ none) ↔ ((n : ℕ) × (now ≡ some n) × (n ≤ expires))
unfolding quote_time
time_iff none expires = ground arith
time_iff (some n) expires = (λ h. (n, refl, ground (arith, h)), λ r. ground (arith, r.1, r.2))

then_test_iff : (a b : Option RefusalCode) → (then_test a b ≡ none) ↔ ((a ≡ none) × (b ≡ none))
then_test_iff none b = ground arith
then_test_iff (some c) b = ground arith

-- A quote that a mandate lets an agent pay.
abbrev pub Payable :
    (String → String) → SessionMandate → MandateAppraisalQuote → QuoteOptions → Type 0
Payable trim m q o =
    (str_eq (trim q.asset) "" ≡ false)
    × (str_eq (trim q.destination) "" ≡ false)
    × Bound m q o
    × ((amount : ℤ) × (expires now : ℕ) × (parse_quote_amount_to_stroops q.amount ≡ some amount)
        × (safe_natural q.expires_at ≡ some expires)
        × (safe_natural o.now_seconds ≡ some now)
        × (now ≤ expires)
        × WithinCaps m amount o.spent_so_far_stroops)

module _ (m : SessionMandate) (q : MandateAppraisalQuote) (o : QuoteOptions) where
  tests_iff :
      (e : Option ℕ) (a : Option ℤ)
      → (quote_tests m q o e a ≡ none) ↔ (
          Bound m q o
          × ((amount : ℤ) × (expires now : ℕ) × (a ≡ some amount)
              × (e ≡ some expires)
              × (safe_natural o.now_seconds ≡ some now)
              × (now ≤ expires)
              × WithinCaps m amount o.spent_so_far_stroops))
  unfolding quote_tests
  tests_iff none a = (λ h. cc, λ r. cc (r.1.4))
  tests_iff (some e) none = (λ h. cc, λ r. cc (r.1.3))
  tests_iff (some e) (some a) =
      let t = quote_time (safe_natural o.now_seconds) e in
      let c = quote_caps m a o.spent_so_far_stroops in
      let outer = then_test_iff t (then_test (quote_binding m q o) c) in
      let inner = then_test_iff (quote_binding m q o) c in
      let ti = time_iff (safe_natural o.now_seconds) e in
      let bi = binding_iff m q o in
      let ci = caps_iff m a o.spent_so_far_stroops in
      (
        λ h.
            let x = outer.0 h in
            let y = inner.0 (x.1) in
            let z = ti.0 (x.0) in (bi.0 (y.0), (a, e, z.0, refl, refl, z.1, z.2, ci.0 (y.1))),
        λ r.
            let p = r.1 in
            let same_a : a ≡ p.0 = some_inj a (p.0) (p.3) in
            let same_e : e ≡ p.1 = some_inj e (p.1) (p.4) in
            let le = subst (λ x. p.2 ≤ x) (sym same_e) (p.6) in
            let caps = subst (λ x. WithinCaps m x o.spent_so_far_stroops) (sym same_a) (p.7) in
            outer.1 (ti.1 (p.2, p.5, le), inner.1 (bi.1 (r.0), ci.1 caps)),
      )

-- A quote may be paid just when its asset and destination are not blank and are those of the mandate
-- (or else the operator's, where one is set), it has a positive amount and has not expired, and the
-- amount is within the mandate's price, and with what was spent within the mandate's budget.
pub assert_appraisal_quote_allowed_iff :
    (trim : String → String) (m : SessionMandate) (q : MandateAppraisalQuote) (o : QuoteOptions)
    → (assert_appraisal_quote_allowed trim m q o ≡ none) ↔ Payable trim m q o
unfolding assert_appraisal_quote_allowed
assert_appraisal_quote_allowed_iff trim m q o =
    let i = tests_iff m q o (safe_natural q.expires_at) (parse_quote_amount_to_stroops q.amount) in
    elim (Bool-cases (str_eq (trim q.asset) "")) [
      | inl x ↦ rw x (λ h. cc, λ r. absurd (cc (r.0)))
      | inr x ↦ elim (Bool-cases (str_eq (trim q.destination) "")) [
        | inl y ↦ rw (x, y) (λ h. cc, λ r. absurd (cc (r.1)))
        | inr y ↦ rw (x, y) (λ h. (refl, refl, (i.0 h).0, (i.0 h).1), λ r. i.1 (r.2, r.3))
      ]
    ]

amount-positive :
    (a : QuoteAmount) (amount : ℤ) → parse_quote_amount_to_stroops a ≡ some amount → pos 0 <ℤ amount
unfolding parse_quote_amount_to_stroops
amount-positive (bigint z) amount h = ground (arith, h)
amount-positive (decimal none) amount h = cc
amount-positive (decimal (some n)) amount h = ground (arith, h)

-- What an agent has spent when it pays one quote after another, each allowed with what it had spent
-- before.
pub data Spent (trim : String → String) (m : SessionMandate) : ℤ → Type 0 where
  nothing : Spent trim m (pos 0)
  paid :
      (spent amount : ℤ) (q : MandateAppraisalQuote) (o : QuoteOptions)
      → Spent trim m spent
      → o.spent_so_far_stroops ≡ spent
      → parse_quote_amount_to_stroops q.amount ≡ some amount
      → assert_appraisal_quote_allowed trim m q o ≡ none
      → Spent trim m (spent +ℤ amount)

remaining_within :
    (m : SessionMandate) (spent : ℤ)
    → pos 0 ≤ℤ spent
    → spent ≤ℤ m.max_appraisal_spend_stroops
    → remaining_appraisal_spend m spent ≡ some (m.max_appraisal_spend_stroops -ℤ spent)
unfolding remaining_appraisal_spend
remaining_within m spent lo hi =
    let parts = -ℤ_parts m.max_appraisal_spend_stroops spent in
    let a : ltb_ℤ spent (pos 0) ≡ false = ground (arith, lo) in
    let b : ltb_ℤ (m.max_appraisal_spend_stroops -ℤ spent) (pos 0) ≡ false =
      ground (arith, parts, hi) in
    rw (a, b) refl

Spent-range :
    (trim : String → String) (m : SessionMandate) (spent : ℤ)
    → pos 0 ≤ℤ m.max_appraisal_spend_stroops
    → Spent trim m spent
    → (pos 0 ≤ℤ spent) × (spent ≤ℤ m.max_appraisal_spend_stroops)
Spent-range trim m spent h nothing = (omega arith, h)
Spent-range trim m spent h (paid before amount q o s e a ok) =
    let ih = Spent-range trim m before h s in
    let p = (assert_appraisal_quote_allowed_iff trim m q o).0 ok in
    let r = p.3 in
    let same : amount ≡ r.0 = some_inj amount (r.0) (sym a ∙ r.3) in
    let up = amount-positive q.amount amount a in
    let parts = +ℤ_parts before amount in
    (
      omega (arith, parts, up, ih.0),
      subst (λ x. (before +ℤ x) ≤ℤ m.max_appraisal_spend_stroops) (sym same)
          (subst (λ x. (x +ℤ r.0) ≤ℤ m.max_appraisal_spend_stroops) e ((r.7).2)),
    )

-- However many quotes an agent pays, each allowed with what it had spent before, it never spends more
-- than the mandate's budget, which is not negative, and the remaining budget is the rest of it.
pub Spent-within :
    (trim : String → String) (m : SessionMandate) (spent : ℤ)
    → pos 0 ≤ℤ m.max_appraisal_spend_stroops
    → Spent trim m spent
    → (pos 0 ≤ℤ spent)
      × (spent ≤ℤ m.max_appraisal_spend_stroops)
      × (remaining_appraisal_spend m spent ≡ some (m.max_appraisal_spend_stroops -ℤ spent))
Spent-within trim m spent h s =
    let r = Spent-range trim m spent h s in (r.0, r.1, remaining_within m spent r.0 r.1)
