-- ===== src/Sdk/Conservation/Ends.antt =====
-- The walk of packages/sdk/src/conservation.ts always ends.
use sub_rosa_issue.Prelude.{
  or_else, ℕ, zero, suc, ◌+◌, ◌-◌, ◌<◌, ◌≡◌, ◌||◌, ltb, inl, inr, pos, String, Option, none, some,
  [], arith, Bool-cases,
}
use sub_rosa_issue.Sdk.Conservation.{
  Report, Source, Options, Walk, flag, start, take_page, go_on, after_page, walk_pages, finish,
  totals_of, evaluate_escrow_conservation, prove_escrow_conservation_from_pages, default_max_pages,
  escrow_page_size, cursor_stalled,
}
use sub_rosa_issue.Sdk.Conservation.Accounts.{Next-cases}

going :
    (max_pages pages cursor : ℕ) (w : Walk) (next : ℕ)
    → after_page max_pages pages cursor w next ≡ go_on
    → pages < max_pages
unfolding after_page
going max_pages pages cursor w next h = ground arith

-- With fewer pages left than fuel, the page loop ends.
walk_pages_total :
    (source : Source) (winner : Option String) (fuel size max_pages pages cursor : ℕ) (w : Walk)
    → max_pages - pages < fuel
    → (r : Walk) × (walk_pages fuel source winner size max_pages pages cursor w ≡ some r)
unfolding walk_pages
walk_pages_total source winner zero size max_pages pages cursor w h = absurd (omega arith)
walk_pages_total source winner (suc fuel) size max_pages pages cursor w h =
    let page = source.get_bidders_page cursor size in
    let w' = take_page source.get_bid_state winner w page in
    elim (Next-cases (after_page max_pages (pages + 1) cursor w' page.next_cursor)) [
      | inl e ↦ (w', rw (e, walk_pages))
      | inr (inl (code, e)) ↦ (flag w' code none, rw (e, walk_pages))
      | inr (inr e) ↦
          rw (e, walk_pages)
            (walk_pages_total source winner fuel size max_pages (pages + 1) page.next_cursor w'
              (omega (arith, going max_pages (pages + 1) cursor w' page.next_cursor e)))
    ]

-- Whatever the source answers, fuel above the page limit is enough: the proof ends with a report.
pub prove_escrow_conservation_total :
    (fuel : ℕ) (source : Source) (o : Options)
    → or_else o.max_pages (default_max_pages (or_else o.page_size escrow_page_size)) < fuel
    → (r : Report) × (prove_escrow_conservation_from_pages fuel source o ≡ some r)
unfolding prove_escrow_conservation_from_pages
prove_escrow_conservation_total fuel source o h =
    let size = or_else o.page_size escrow_page_size in
    let max_pages = or_else o.max_pages (default_max_pages size) in
    let issues = or_else o.issues [] in
    let (w, e) =
      walk_pages_total source o.winner fuel size max_pages 0 0 (start issues) (omega arith) in
    elim (Bool-cases (ltb size 1 || ltb 100 size)) [
      | inl bad ↦ (
        evaluate_escrow_conservation
            (totals_of (or_else o.payable (pos 0)) (flag (start issues) cursor_stalled none)),
        rw (bad, prove_escrow_conservation_from_pages),
      )
      | inr good ↦ (finish o w, rw (good, prove_escrow_conservation_from_pages, e))
    ]
