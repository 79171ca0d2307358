-- ===== src/Sdk/Conservation/Issues.antt =====
-- The walk of packages/sdk/src/conservation.ts never drops an issue: a report without one started
-- without one.
use sub_rosa_issue.Prelude.{
  ℕ, zero, suc, ◌+◌, ◌≡◌, subst, sym, inl, inr, String, Option, none, some, List, [], ◌∷◌, contains,
  append-one-ne-nil, some_inj, arith, Bool-cases,
}
use sub_rosa_issue.Sdk.Conservation.{
  IssueCode, issue, BidState, Walk, Source, flag, account, visit, visit_all, note_total, take_page,
  after_page, walk_pages, bid_state_missing, escrow_locked, bidder_already_settled,
  duplicate_bidder, page_total_drift,
}
use sub_rosa_issue.Sdk.Conservation.Accounts.{Next-cases}

-- Without an issue afterwards there was none before.
abbrev pub Clean : Walk → Walk → Type 0
Clean w r = r.issues ≡ [] → w.issues ≡ []

flag-Clean : (w : Walk) (code : IssueCode) (b : Option String) → Clean w (flag w code b)
flag-Clean w code b h = absurd (append-one-ne-nil w.issues (issue code b) h)

account-Clean :
    (winner : Option String) (w : Walk) (b : String) (o : Option BidState)
    → Clean w (account winner w b o)
unfolding account
account-Clean winner w b none h = flag-Clean w bid_state_missing (some b) h
account-Clean winner w b (some s) h = ground (
  arith,
  append-one-ne-nil w.issues (issue escrow_locked (some b)),
  append-one-ne-nil w.issues (issue bidder_already_settled (some b)),
)

module _ (states : String → Option BidState) (winner : Option String) where
  visit-Clean : (w : Walk) (b : String) → Clean w (visit states winner w b)
  unfolding visit
  visit-Clean w b h = elim (Bool-cases (contains w.seen b)) [
    | inl e ↦ flag-Clean w duplicate_bidder (some b) (rw (e, visit) at h)
    | inr e ↦
        account-Clean winner (record w { seen = b ∷ w.seen }) b (states b) (rw (e, visit) at h)
  ]

  visit_all-Clean : (w : Walk) (bs : List String) → Clean w (visit_all states winner w bs)
  unfolding visit_all
  visit_all-Clean w [] h = h
  visit_all-Clean w (b ∷ rest) h =
      visit-Clean w b (visit_all-Clean (visit states winner w b) rest h)

note_total-Clean :
    (w : Walk) (declared : Option ℕ) (total : ℕ) → Clean w (note_total w declared total)
unfolding note_total
note_total-Clean w none total h = h
note_total-Clean w (some d) total h =
    ground (arith, append-one-ne-nil w.issues (issue page_total_drift none))

module _ (source : Source) (winner : Option String) where
  pub walk_pages-Clean :
      (fuel size max_pages pages cursor : ℕ) (w r : Walk)
      → walk_pages fuel source winner size max_pages pages cursor w ≡ some r
      → Clean w r
  unfolding walk_pages
  walk_pages-Clean zero size max_pages pages cursor w r h q = cc
  walk_pages-Clean (suc fuel) size max_pages pages cursor w r h q =
      let page = source.get_bidders_page cursor size in
      let w' = take_page source.get_bid_state winner w page in
      let first : Clean w w' = λ k. note_total-Clean w w.declared_total page.total (
        visit_all-Clean source.get_bid_state winner (note_total w w.declared_total page.total)
          page.addresses k) in
      elim (Next-cases (after_page max_pages (pages + 1) cursor w' page.next_cursor)) [
        | inl e ↦
            first (subst (λ x. x.issues ≡ []) (sym (some_inj w' r (rw (e, walk_pages) at h))) q)
        | inr (inl (code, e)) ↦ first (
            flag-Clean w' code none (
              subst (λ x. x.issues ≡ [])
                (sym (some_inj (flag w' code none) r (rw (e, walk_pages) at h))) q))
        | inr (inr e) ↦ first (
            walk_pages-Clean fuel size max_pages (pages + 1) page.next_cursor w' r
              (rw (e, walk_pages) at h) q)
      ]
