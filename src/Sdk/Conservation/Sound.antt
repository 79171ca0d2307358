-- ===== src/Sdk/Conservation/Sound.antt =====
-- What a conserved report of packages/sdk/src/conservation.ts says of the bids.
use sub_rosa_issue.Prelude.{
  or_else, ℕ, ◌==◌, ==_iff, ◌≡◌, refl, ap, ◌∙◌, subst, true, ◌||◌, ltb, inl, inr, ℤ, pos, ◌+ℤ◌,
  ◌-ℤ◌, ◌≤ℤ◌, int_laws, String, Option, none, some, List, [], ◌∷◌, contains, Distinct, All,
  All-contains, length, append-one-ne-nil, some_inj, Bool-cases, Option-cases,
}
use sub_rosa_issue.Sdk.Conservation.{
  Issue, IssueCode, issue, Report, Source, Options, Walk, flag, start, walk_pages, check_winner,
  check_listed, check_expected, check_total, distinct_from, finish, totals_of,
  evaluate_escrow_conservation, prove_escrow_conservation_from_pages, default_max_pages,
  escrow_page_size, winner_not_indexed, index_mismatch, page_count_mismatch, cursor_stalled,
}
use sub_rosa_issue.Sdk.Conservation.Predicate.{is_escrow_conserved_iff}
use sub_rosa_issue.Sdk.Conservation.Issues.{Clean, walk_pages-Clean}
use sub_rosa_issue.Sdk.Conservation.Accounts.{
  sum, locked, owed, won, Sound, Accounted, start-Accounted, walk_pages-Accounted,
}

-- The winner, if there is one, was seen.
abbrev pub Indexed : Option String → List String → Type 0
Indexed none seen = Unit
Indexed (some winner) seen = contains seen winner ≡ true

-- The list of the round record, if it is given, names as many bidders as were seen, and all of its
-- entries were seen.
abbrev pub Listed : Option (List String) → List String → Type 0
Listed none seen = Unit
Listed (some expected) seen =
    (length (distinct_from [] expected) ≡ length seen) × All (λ b. contains seen b ≡ true) expected

abbrev pub Totalled : Option ℕ → List String → Type 0
Totalled none seen = Unit
Totalled (some declared) seen = length seen ≡ declared

quiet_flag {ℓ} :
    {A : Type ℓ} (w : Walk) (code : IssueCode) (b : Option String) → (flag w code b).issues ≡ [] → A
quiet_flag w code b h = absurd (append-one-ne-nil w.issues (issue code b) h)

check_winner_quiet :
    (winner : Option String) (w : Walk)
    → (check_winner winner w).issues ≡ []
    → (check_winner winner w ≡ w) × Indexed winner w.seen
unfolding check_winner
check_winner_quiet none w h = (refl, tt)
check_winner_quiet (some winner) w h = elim (Bool-cases (contains w.seen winner)) [
  | inl e ↦ (rw (e, check_winner), e)
  | inr e ↦ quiet_flag w winner_not_indexed (some winner) (rw (e, check_winner) at h)
]

check_listed_first : (w : Walk) (bs : List String) → (check_listed w bs).issues ≡ [] → w.issues ≡ []
unfolding check_listed
check_listed_first w [] h = h
check_listed_first w (b ∷ rest) h = elim (Bool-cases (contains w.seen b)) [
  | inl e ↦ check_listed_first w rest (rw (e, check_listed) at h)
  | inr e ↦
      quiet_flag w index_mismatch (some b)
        (check_listed_first (flag w index_mismatch (some b)) rest (rw (e, check_listed) at h))
]

check_listed_quiet :
    (w : Walk) (bs : List String)
    → (check_listed w bs).issues ≡ []
    → (check_listed w bs ≡ w) × All (λ b. contains w.seen b ≡ true) bs
unfolding check_listed
check_listed_quiet w [] h = (refl, tt)
check_listed_quiet w (b ∷ rest) h = elim (Bool-cases (contains w.seen b)) [
  | inl e ↦
      let r = check_listed_quiet w rest (rw (e, check_listed) at h) in
      (rw (e, check_listed) r.0, (e, r.1))
  | inr e ↦
      quiet_flag w index_mismatch (some b)
        (check_listed_first (flag w index_mismatch (some b)) rest (rw (e, check_listed) at h))
]

-- What holds of the distinct entries and of the known ones holds of all.
All-distinct_from :
    (P : String → Type 0) (known xs : List String)
    → All P known
    → All P (distinct_from known xs)
    → All P xs
unfolding distinct_from
All-distinct_from P known [] k h = tt
All-distinct_from P known (x ∷ xs) k h = elim (Bool-cases (contains known x)) [
  | inl e ↦
      (All-contains P known x k e, All-distinct_from P known xs k (rw (e, distinct_from) at h))
  | inr e ↦
      let h' : P x × All P (distinct_from (x ∷ known) xs) = rw (e, distinct_from) at h in
      (h'.0, All-distinct_from P (x ∷ known) xs (h'.0, k) h'.1)
]

check_expected_quiet :
    (expected : Option (List String)) (w : Walk)
    → (check_expected expected w).issues ≡ []
    → (check_expected expected w ≡ w) × Listed expected w.seen
unfolding check_expected
check_expected_quiet none w h = (refl, tt)
check_expected_quiet (some expected) w h =
    let listed = distinct_from [] expected in
    elim (Bool-cases (length listed == length w.seen)) [
      | inl e ↦
          let r = check_listed_quiet w listed (rw (e, check_expected) at h) in
          (
            rw (e, check_expected) r.0,
            (
              (==_iff (length listed) (length w.seen)).0 e,
              All-distinct_from (λ b. contains w.seen b ≡ true) [] expected tt r.1,
            ),
          )
      | inr e ↦
          quiet_flag w index_mismatch none
            (check_listed_first (flag w index_mismatch none) listed (rw (e, check_expected) at h))
    ]

check_total_quiet :
    (declared : Option ℕ) (w : Walk)
    → (check_total declared w).issues ≡ []
    → (check_total declared w ≡ w) × Totalled declared w.seen
unfolding check_total
check_total_quiet none w h = (refl, tt)
check_total_quiet (some declared) w h = elim (Bool-cases (length w.seen == declared)) [
  | inl e ↦ (rw (e, check_total), (==_iff (length w.seen) declared).0 e)
  | inr e ↦ quiet_flag w page_count_mismatch none (rw (e, check_total) at h)
]

-- The books of a conserved report over the bidders that the walk has seen.
pub record Books (source : Source) (o : Options) (r : Report) (seen : List String) : Type 0 where
  pub distinct : Distinct seen
  pub readable : All (Sound source.get_bid_state o.winner) seen
  pub unmarked : or_else o.issues [] ≡ []
  pub counted : r.bidders ≡ length seen
  pub indexed : Indexed o.winner seen
  pub listed : Listed o.expected_bidders seen
  pub payout : r.payable ≡ or_else o.payable (pos 0)
  pub pay_nonneg : pos 0 ≤ℤ r.payable
  pub surplus_nonneg : pos 0 ≤ℤ r.surplus
  pub held : r.escrow_held ≡ sum (locked source.get_bid_state o.winner) seen
  pub refunds : r.refundable ≡ sum (owed source.get_bid_state o.winner) seen
  pub pays : r.payable +ℤ r.surplus ≡ sum (won source.get_bid_state o.winner) seen
  pub moved : r.escrow_held ≡ r.refundable +ℤ r.payable +ℤ r.surplus

pay_back : (p w : ℤ) → p +ℤ (w -ℤ p) ≡ w
pay_back p w = omega int_laws

moved_all : (h r p w : ℤ) → h ≡ r +ℤ w → h ≡ r +ℤ p +ℤ (w -ℤ p)
moved_all h r p w e = e ∙ omega int_laws

surplus_nonneg_of : (p w : ℤ) → p ≤ℤ w → pos 0 ≤ℤ w -ℤ p
surplus_nonneg_of p w h = omega int_laws

module _ (source : Source) (o : Options) (w : Walk) where
  -- If no issue is left after the checks, they changed nothing, and what they ask for holds.
  finish_quiet :
      let w₁ = check_winner o.winner w in
      let w₂ = check_expected o.expected_bidders w₁ in
      let w₃ = check_total w₂.declared_total w₂ in
      w₃.issues ≡ [] → (w₃ ≡ w) × Indexed o.winner w.seen × Listed o.expected_bidders w.seen
  finish_quiet h =
      let w₁ = check_winner o.winner w in
      let w₂ = check_expected o.expected_bidders w₁ in
      let (same₃, total) = check_total_quiet w₂.declared_total w₂ h in
      let (same₂, listed) =
        check_expected_quiet o.expected_bidders w₁ (subst (λ x. x.issues ≡ []) same₃ h) in
      let quiet₂ : w₂.issues ≡ [] = subst (λ x. x.issues ≡ []) same₃ h in
      let quiet₁ : w₁.issues ≡ [] = subst (λ x. x.issues ≡ []) same₂ quiet₂ in
      let (same₁, indexed) = check_winner_quiet o.winner w quiet₁ in
      (same₃ ∙ same₂ ∙ same₁, indexed, subst (λ x. Listed o.expected_bidders x.seen) same₁ listed)

  finish-Books :
      Accounted source.get_bid_state o.winner w
      → Clean (start (or_else o.issues [])) w
      → (finish o w).conserved ≡ true
      → Books source o (finish o w) w.seen
  unfolding finish evaluate_escrow_conservation
  finish-Books a clean c =
      let w₁ = check_winner o.winner w in
      let w₂ = check_expected o.expected_bidders w₁ in
      let w₃ = check_total w₂.declared_total w₂ in
      let payable = or_else o.payable (pos 0) in
      let b = (is_escrow_conserved_iff (totals_of payable w₃)).0 c in
      let (same, indexed, listed) = finish_quiet b.quiet in
      let quiet : w.issues ≡ [] = subst (λ x. x.issues ≡ []) same b.quiet in
      record {
        distinct = a.distinct;
        readable = a.sound quiet;
        unmarked = clean quiet;
        counted = ap (λ (x : Walk). length x.seen) same;
        indexed = indexed;
        listed = listed;
        payout = refl;
        pay_nonneg = b.pay_nonneg;
        surplus_nonneg = surplus_nonneg_of payable w₃.winner_escrow b.backed;
        held = ap (λ (x : Walk). x.escrow_held) same ∙ a.held;
        refunds = ap (λ (x : Walk). x.refundable) same ∙ a.refunds;
        pays = pay_back payable w₃.winner_escrow ∙ ap (λ (x : Walk). x.winner_escrow) same ∙ a.wins;
        moved = moved_all w₃.escrow_held w₃.refundable payable w₃.winner_escrow b.exact;
      }

refused_quiet :
    (payable : ℤ) (issues : List Issue)
    → (evaluate_escrow_conservation
        (totals_of payable (flag (start issues) cursor_stalled none))).conserved
      ≡ true
    → ⊥
unfolding evaluate_escrow_conservation
refused_quiet payable issues c =
    append-one-ne-nil issues (issue cursor_stalled none)
      ((is_escrow_conserved_iff (totals_of payable (flag (start issues) cursor_stalled none))).0
        c).quiet

-- A conserved report started without an issue and is right about the bids: for the bidders that the walk has seen, which are
-- distinct, as many as the report says, and include the winner and the whole list of the round
-- record, every bid was read, is unsettled and has a non-negative escrow; the escrow held is the sum
-- of theirs; the refunds are the escrow of the others; the payout, which is the one asked for, and
-- the surplus are non-negative and make up the winner's escrow; and the three together move exactly
-- what is held.
pub prove_escrow_conservation_sound :
    (fuel : ℕ) (source : Source) (o : Options) (r : Report)
    → prove_escrow_conservation_from_pages fuel source o ≡ some r
    → r.conserved ≡ true
    → (seen : List String) × Books source o r seen
unfolding prove_escrow_conservation_from_pages
prove_escrow_conservation_sound fuel source o r h c =
    let size = or_else o.page_size escrow_page_size in
    let max_pages = or_else o.max_pages (default_max_pages size) in
    let issues = or_else o.issues [] in
    let payable = or_else o.payable (pos 0) in
    elim (Bool-cases (ltb size 1 || ltb 100 size)) [
      | inl bad ↦ absurd (
          refused_quiet payable issues (
            ap (λ (x : Report). x.conserved)
              (some_inj _ r (rw (bad, prove_escrow_conservation_from_pages) at h))
            ∙ c))
      | inr good ↦
          elim (Option-cases (walk_pages fuel source o.winner size max_pages 0 0 (start issues))) [
            | inl e ↦
                let out : none ≡ some r = rw (good, prove_escrow_conservation_from_pages, e) at h in
                cc out
            | inr (w, e) ↦
                let same : finish o w ≡ r =
                  some_inj (finish o w) r
                    (rw (good, prove_escrow_conservation_from_pages, e) at h) in
                let a =
                  walk_pages-Accounted source o.winner fuel size max_pages 0 0 (start issues) w
                    (start-Accounted source.get_bid_state o.winner issues) e in
                (
                  w.seen,
                  subst (λ x. Books source o x w.seen) same
                      (finish-Books source o w a
                        (walk_pages-Clean source o.winner fuel size max_pages 0 0 (start issues) w
                          e)
                        (ap (λ (x : Report). x.conserved) same ∙ c)),
                )
          ]
    ]
