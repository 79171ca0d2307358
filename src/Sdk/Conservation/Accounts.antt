-- ===== src/Sdk/Conservation/Accounts.antt =====
-- What the walk of packages/sdk/src/conservation.ts has counted, at each point, of the addresses that
-- it has seen.
use sub_rosa_issue.Prelude.{
  ℕ, zero, suc, ◌+◌, ◌==◌, ◌≡◌, refl, sym, ap, ◌∙◌, subst, false, ℤ, pos, ◌+ℤ◌, ◌≤ℤ◌, +ℤ_zero,
  String, Option, none, some, List, [], ◌∷◌, contains, Distinct, All, append-one-ne-nil, some_inj,
  arith, Bool-cases, inl, inr, ◌⊎◌, if◌then◌else◌,
}
use sub_rosa_issue.Sdk.Conservation.{
  BidState, Walk, Page, is_negative, is_winner, flag, account, visit, visit_all, note_total,
  take_page, issue, IssueCode, bidder_already_settled, escrow_locked, duplicate_bidder,
  page_total_drift, Issue, start, Source, walk_pages, after_page, Next, stop, stop_with, go_on,
}

unfoldable pub sum : (String → ℤ) → List String → ℤ
sum f [] = pos 0
sum f (b ∷ rest) = sum f rest +ℤ f b

-- The parts of a bid's escrow: what the index holds, and what a settle owes the bidder, or takes
-- from the winner. A settled bid's escrow is held and neither owed nor won.
abbrev pub locked_of : Option BidState → ℤ
locked_of none = pos 0
locked_of (some s) = if is_negative s.escrow then pos 0 else s.escrow

abbrev pub open_of : Option BidState → ℤ
open_of none = pos 0
open_of (some s) = if is_negative s.escrow then pos 0 else if s.settled then pos 0 else s.escrow

abbrev pub spent_of : Option BidState → ℤ
spent_of none = pos 0
spent_of (some s) = if is_negative s.escrow then pos 0 else if s.settled then s.escrow else pos 0

module _ (winner : Option String) where
  record Counts (w r : Walk) (b : String) (o : Option BidState) : Type 0 where
    held : r.escrow_held ≡ w.escrow_held +ℤ locked_of o
    refunds : r.refundable ≡ w.refundable +ℤ (if is_winner winner b then pos 0 else open_of o)
    wins : r.winner_escrow ≡ w.winner_escrow +ℤ (if is_winner winner b then open_of o else pos 0)
    seen : r.seen ≡ w.seen
    sound :
        r.issues ≡ []
        → (w.issues ≡ [])
          × ((s : BidState) × (o ≡ some s) × (pos 0 ≤ℤ s.escrow) × (s.settled ≡ false))

  account-Counts :
      (w : Walk) (b : String) (o : Option BidState) → Counts w (account winner w b o) b o
  unfolding account
  account-Counts w b none = record {
    held = sym (+ℤ_zero w.escrow_held);
    refunds = ground (arith, +ℤ_zero w.refundable);
    wins = ground (arith, +ℤ_zero w.winner_escrow);
    seen = refl;
    sound = λ h. absurd (append-one-ne-nil w.issues _ h);
  }
  account-Counts w b (some s) = record {
    held = ground (arith, +ℤ_zero w.escrow_held);
    refunds = ground (arith, +ℤ_zero w.refundable);
    wins = ground (arith, +ℤ_zero w.winner_escrow);
    seen = ground arith;
    sound = λ h.
        let not_settled = append-one-ne-nil w.issues (issue bidder_already_settled (some b)) in
        let not_locked = append-one-ne-nil w.issues (issue escrow_locked (some b)) in
        (
          ground (arith, not_settled, not_locked),
          (s, refl, ground (arith, not_locked), ground (arith, not_settled, not_locked)),
        );
  }

module _ (states : String → Option BidState) (winner : Option String) where
  abbrev pub locked : String → ℤ
  locked b = locked_of (states b)

  abbrev pub owed : String → ℤ
  owed b = if is_winner winner b then pos 0 else open_of (states b)

  abbrev pub won : String → ℤ
  won b = if is_winner winner b then open_of (states b) else pos 0

  abbrev pub spent : String → ℤ
  spent b = spent_of (states b)

  -- A bid that gives no issue.
  abbrev pub Sound : String → Type 0
  Sound b = (s : BidState) × (states b ≡ some s) × (pos 0 ≤ℤ s.escrow) × (s.settled ≡ false)

  pub record Accounted (w : Walk) : Type 0 where
    pub held : w.escrow_held ≡ sum locked w.seen
    pub refunds : w.refundable ≡ sum owed w.seen
    pub wins : w.winner_escrow ≡ sum won w.seen
    pub distinct : Distinct w.seen
    pub sound : w.issues ≡ [] → All Sound w.seen

  flag-Accounted :
      (w : Walk) (code : IssueCode) (b : Option String) → Accounted w → Accounted (flag w code b)
  flag-Accounted w code b a = record {
    held = a.held;
    refunds = a.refunds;
    wins = a.wins;
    distinct = a.distinct;
    sound = λ h. absurd (append-one-ne-nil w.issues (issue code b) h);
  }

  visit-Accounted : (w : Walk) (b : String) → Accounted w → Accounted (visit states winner w b)
  unfolding visit sum
  visit-Accounted w b a = elim (Bool-cases (contains w.seen b)) [
    | inl again ↦ rw (again, visit) (flag-Accounted w duplicate_bidder (some b) a)
    | inr new ↦
        let w' = record w { seen = b ∷ w.seen } in
        let c = account-Counts winner w' b (states b) in
        rw (new, visit)
          (record {
            held = c.held ∙ ap (λ z. z +ℤ locked b) a.held ∙ sym (ap (sum locked) c.seen);
            refunds = c.refunds ∙ ap (λ z. z +ℤ owed b) a.refunds ∙ sym (ap (sum owed) c.seen);
            wins = c.wins ∙ ap (λ z. z +ℤ won b) a.wins ∙ sym (ap (sum won) c.seen);
            distinct = subst Distinct (sym c.seen) (new, a.distinct);
            sound = λ h.
                let (quiet, ok) = c.sound h in subst (All Sound) (sym c.seen) (ok, a.sound quiet);
          })
  ]

  pub visit_all-Accounted :
      (w : Walk) (bs : List String) → Accounted w → Accounted (visit_all states winner w bs)
  unfolding visit_all
  visit_all-Accounted w [] a = a
  visit_all-Accounted w (b ∷ rest) a =
      visit_all-Accounted (visit states winner w b) rest (visit-Accounted w b a)

  pub note_total-Accounted :
      (w : Walk) (declared : Option ℕ) (total : ℕ)
      → Accounted w
      → Accounted (note_total w declared total)
  unfolding note_total
  note_total-Accounted w none total a = record {
    held = a.held;
    refunds = a.refunds;
    wins = a.wins;
    distinct = a.distinct;
    sound = a.sound;
  }
  note_total-Accounted w (some declared) total a = elim (Bool-cases (total == declared)) [
    | inl same ↦ rw same a
    | inr other ↦ rw other (flag-Accounted w page_total_drift none a)
  ]

  pub take_page-Accounted :
      (w : Walk) (page : Page) → Accounted w → Accounted (take_page states winner w page)
  take_page-Accounted w page a =
      visit_all-Accounted (note_total w w.declared_total page.total) page.addresses
        (note_total-Accounted w w.declared_total page.total a)

  pub start-Accounted : (issues : List Issue) → Accounted (start issues)
  unfolding sum
  start-Accounted issues = record {
    held = refl;
    refunds = refl;
    wins = refl;
    distinct = tt;
    sound = λ h. tt;
  }

pub Next-cases : (n : Next) → (n ≡ stop) ⊎ ((code : IssueCode) × (n ≡ stop_with code)) ⊎ (n ≡ go_on)
Next-cases stop = inl refl
Next-cases (stop_with code) = inr (inl (code, refl))
Next-cases go_on = inr (inr refl)

module _ (source : Source) (winner : Option String) where
  -- The page loop ends with the accounts of what it has seen.
  pub walk_pages-Accounted :
      (fuel size max_pages pages cursor : ℕ) (w r : Walk)
      → Accounted source.get_bid_state winner w
      → walk_pages fuel source winner size max_pages pages cursor w ≡ some r
      → Accounted source.get_bid_state winner r
  unfolding walk_pages
  walk_pages-Accounted zero size max_pages pages cursor w r a h = cc
  walk_pages-Accounted (suc fuel) size max_pages pages cursor w r a h =
      let page = source.get_bidders_page cursor size in
      let w' = take_page source.get_bid_state winner w page in
      let a' = take_page-Accounted source.get_bid_state winner w page a in
      elim (Next-cases (after_page max_pages (pages + 1) cursor w' page.next_cursor)) [
        | inl e ↦
            subst (Accounted source.get_bid_state winner) (some_inj _ r (rw (e, walk_pages) at h))
              a'
        | inr (inl (code, e)) ↦
            subst (Accounted source.get_bid_state winner) (some_inj _ r (rw (e, walk_pages) at h))
              (flag-Accounted source.get_bid_state winner w' code none a')
        | inr (inr e) ↦
            walk_pages-Accounted fuel size max_pages (pages + 1) page.next_cursor w' r a'
              (rw (e, walk_pages) at h)
      ]
