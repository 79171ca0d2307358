-- ===== src/Keeper/Guard/Winner.antt =====
-- The winner that `expectedWinner` of services/keeper/src/settlement-guard.ts picks.
use sub_rosa_issue.Prelude.{
  ◌≡◌, ◌≢◌, refl, sym, ap, subst, ◌∙◌, true, false, ◌⊎◌, inl, inr, ℤ, pos, String, ◌<ℤ◌, leb_ℤ,
  Option, none, some, List, [], ◌∷◌, ◌++◌, All, arith, Option-cases, Bool-cases,
}
use sub_rosa_issue.Keeper.Guard.{
  ClearingRule, highest_bid, lowest_bid, GuardBidderState, RoundSettlementView, Candidate, better,
  pick, consider_bid, challenge, expected_winner,
}

-- A bid that may win: its state was read, and its value is revealed and positive.
pub record Bids (s : GuardBidderState) (v : ℤ) : Type 0 where
  pub read : s.escrow ≢ none
  pub reveals : s.revealed_value ≡ some v
  pub positive : pos 0 <ℤ v

-- A value beats another one that is strictly lower, or strictly higher where the lowest bid wins.
abbrev pub Beats : ClearingRule → ℤ → ℤ → Type 0
Beats highest_bid v w = w <ℤ v
Beats lowest_bid v w = v <ℤ w

-- No bid of the state beats `v`; each bid of the state is beaten by `v`.
abbrev pub NoBetter : ClearingRule → ℤ → GuardBidderState → Type 0
NoBetter rule v s = (w : ℤ) → Bids s w → ¬ Beats rule w v

abbrev pub Worse : ClearingRule → ℤ → GuardBidderState → Type 0
Worse rule v s = (w : ℤ) → Bids s w → Beats rule v w

better-Beats : (rule : ClearingRule) (v w : ℤ) → better rule v w ≡ true → Beats rule v w
better-Beats highest_bid v w h = ground arith
better-Beats lowest_bid v w h = ground arith

Beats-better : (rule : ClearingRule) (v w : ℤ) → Beats rule v w → better rule v w ≡ true
Beats-better highest_bid v w h = ground arith
Beats-better lowest_bid v w h = ground arith

not_better : (rule : ClearingRule) (v w : ℤ) → better rule v w ≡ false → ¬ Beats rule v w
not_better rule v w h b = cc (h, Beats-better rule v w b)

not_Beats : (rule : ClearingRule) (v w : ℤ) → ¬ Beats rule v w → better rule v w ≡ false
not_Beats rule v w n = elim (Bool-cases (better rule v w)) [
  | inl y ↦ absurd (n (better-Beats rule v w y))
  | inr e ↦ e
]

-- The state `at` wins: those before it bid worse, those after it no better.
pub record Wins (rule : ClearingRule) (states : List GuardBidderState) (c : Candidate)
    : Type 0 where
  pub before : List GuardBidderState
  pub at : GuardBidderState
  pub after : List GuardBidderState
  pub split : states ≡ before ++ at ∷ after
  pub bids : Bids at c.value
  pub named : at.bidder ≡ c.bidder
  pub earlier : All (Worse rule c.value) before
  pub later : All (NoBetter rule c.value) after

-- What a whole index gives: a winner, or no bid that may win.
abbrev pub Outcome : ClearingRule → List GuardBidderState → Option Candidate → Type 0
Outcome rule states none = All (λ s. (v : ℤ) → ¬ Bids s v) states
Outcome rule states (some c) = Wins rule states c

better_trans :
    (rule : ClearingRule) (u v w : ℤ)
    → better rule u v ≡ true
    → better rule v w ≡ true
    → better rule u w ≡ true
better_trans highest_bid u v w h k = ground arith
better_trans lowest_bid u v w h k = ground arith

better_over :
    (rule : ClearingRule) (u v w : ℤ)
    → better rule u v ≡ true
    → better rule w v ≡ false
    → better rule u w ≡ true
better_over highest_bid u v w h k = ground arith
better_over lowest_bid u v w h k = ground arith

-- What one state does to the best bid so far.
abbrev Passes : ClearingRule → Option Candidate → GuardBidderState → Type 0
Passes rule best s =
    ((v : ℤ) → ¬ Bids s v) × (consider_bid rule best s.bidder s.escrow s.revealed_value ≡ best)

abbrev Offers : ClearingRule → Option Candidate → GuardBidderState → Type 0
Offers rule best s =
    (v : ℤ) × Bids s v
    × ((w : ℤ) → Bids s w → w ≡ v)
    × (consider_bid rule best s.bidder s.escrow s.revealed_value ≡ challenge rule best s.bidder v)

consider-cases :
    (rule : ClearingRule) (best : Option Candidate) (s : GuardBidderState)
    → Passes rule best s ⊎ Offers rule best s
unfolding consider_bid
consider-cases rule best s = elim (Option-cases s.escrow) [
  | inl e ↦ inl (λ v b. b.read e, rw (e, consider_bid))
  | inr (x, e) ↦ elim (Option-cases s.revealed_value) [
    | inl f ↦ inl (λ v b. cc (f, b.reveals), rw (e, f, consider_bid))
    | inr (v, f) ↦ elim (Bool-cases (leb_ℤ v (pos 0))) [
      | inl low ↦ inl (λ w b. ground arith, rw (e, f, low, consider_bid))
      | inr high ↦ inr (
        v,
        record { read = λ g. cc; reveals = f; positive = ground arith },
        λ w b. cc (f, b.reveals),
        rw (e, f, high, consider_bid),
      )
    ]
  ]
]

module _ (rule : ClearingRule) {s : GuardBidderState} {rest : List GuardBidderState} where
  Wins-cons : {c : Candidate} → Worse rule c.value s → Wins rule rest c → Wins rule (s ∷ rest) c
  Wins-cons worse w = record {
    before = s ∷ w.before;
    at = w.at;
    after = w.after;
    split = ap (◌∷◌ s) w.split;
    bids = w.bids;
    named = w.named;
    earlier = (worse, w.earlier);
    later = w.later;
  }

  Wins-head :
      (v : ℤ)
      → Bids s v
      → All (NoBetter rule v) rest
      → Wins rule (s ∷ rest) (record { bidder = s.bidder; value = v })
  Wins-head v b l = record {
    before = [];
    at = s;
    after = rest;
    split = refl;
    bids = b;
    named = refl;
    earlier = tt;
    later = l;
  }

-- From a best bid so far: it stays, since no bid is better, or a better one wins.
abbrev Continues : ClearingRule → Candidate → List GuardBidderState → Candidate → Type 0
Continues rule b states c =
    ((c ≡ b) × All (NoBetter rule b.value) states)
    ⊎ (Wins rule states c × (better rule c.value b.value ≡ true))

module _ (rule : ClearingRule) (b c : Candidate) (s : GuardBidderState)
    (rest : List GuardBidderState) where
  continue_passed : ((v : ℤ) → ¬ Bids s v) → Continues rule b rest c → Continues rule b (s ∷ rest) c
  continue_passed quiet (inl (e, l)) = inl (e, ((λ w bid. absurd (quiet w bid)), l))
  continue_passed quiet (inr (w, o)) = inr (Wins-cons rule (λ v bid. absurd (quiet v bid)) w, o)

  module _ (v : ℤ) (bid : Bids s v) (only : (w : ℤ) → Bids s w → w ≡ v) where
    continue_beaten :
        better rule v b.value ≡ true
        → Continues rule (record { bidder = s.bidder; value = v }) rest c
        → Continues rule b (s ∷ rest) c
    continue_beaten o (inl (e, l)) = inr (
        subst (λ x. Wins rule (s ∷ rest) x × (better rule x.value b.value ≡ true)) (sym e)
          (Wins-head rule v bid l, o))
    continue_beaten o (inr (w, o')) = inr (
      Wins-cons rule (λ x bx. rw (only x bx) (better-Beats rule c.value v o')) w,
      better_trans rule c.value v b.value o' o,
    )

    continue_kept :
        better rule v b.value ≡ false → Continues rule b rest c → Continues rule b (s ∷ rest) c
    continue_kept o (inl (e, l)) =
        inl (e, ((λ x bx. rw (only x bx) (not_better rule v b.value o)), l))
    continue_kept o (inr (w, o')) = inr (
      Wins-cons rule
          (λ x bx.
            rw (only x bx) (better-Beats rule c.value v (better_over rule c.value b.value v o' o)))
          w,
      o',
    )

pick-some-Continues :
    (rule : ClearingRule) (b c : Candidate) (states : List GuardBidderState)
    → pick rule (some b) states ≡ some c
    → Continues rule b states c
unfolding pick
pick-some-Continues rule b c [] h = inl (cc, tt)
pick-some-Continues rule b c (s ∷ rest) h = elim (consider-cases rule (some b) s) [
  | inl (quiet, e) ↦
      continue_passed rule b c s rest quiet
        (pick-some-Continues rule b c rest (sym (ap (λ x. pick rule x rest) e) ∙ h))
  | inr (v, bid, only, e) ↦ elim (Bool-cases (better rule v b.value)) [
    | inl o ↦ continue_beaten rule b c s rest v bid only o (
        pick-some-Continues rule _ c rest
          (sym (ap (λ x. pick rule x rest) (e ∙ rw (o, challenge))) ∙ h))
    | inr o ↦ continue_kept rule b c s rest v bid only o (
        pick-some-Continues rule b c rest
          (sym (ap (λ x. pick rule x rest) (e ∙ rw (o, challenge))) ∙ h))
  ]
]

pick-some-ne-none :
    (rule : ClearingRule) (b : Candidate) (states : List GuardBidderState)
    → pick rule (some b) states ≢ none
unfolding pick
pick-some-ne-none rule b [] h = cc
pick-some-ne-none rule b (s ∷ rest) h = elim (consider-cases rule (some b) s) [
  | inl (quiet, e) ↦ pick-some-ne-none rule b rest (sym (ap (λ x. pick rule x rest) e) ∙ h)
  | inr (v, bid, only, e) ↦ elim (Bool-cases (better rule v b.value)) [
    | inl o ↦
        pick-some-ne-none rule (record { bidder = s.bidder; value = v }) rest
          (sym (ap (λ x. pick rule x rest) (e ∙ rw (o, challenge))) ∙ h)
    | inr o ↦
        pick-some-ne-none rule b rest (sym (ap (λ x. pick rule x rest) (e ∙ rw (o, challenge))) ∙ h)
  ]
]

-- An outcome of the rest is one of the whole, where the first state may not win.
Outcome-cons :
    (rule : ClearingRule) (s : GuardBidderState) (rest : List GuardBidderState)
    (o : Option Candidate)
    → ((v : ℤ) → ¬ Bids s v)
    → Outcome rule rest o
    → Outcome rule (s ∷ rest) o
Outcome-cons rule s rest none quiet l = (quiet, l)
Outcome-cons rule s rest (some c) quiet w = Wins-cons rule (λ v bid. absurd (quiet v bid)) w

Outcome-head :
    (rule : ClearingRule) (s : GuardBidderState) (rest : List GuardBidderState)
    (o : Option Candidate) (v : ℤ)
    → Bids s v
    → ((w : ℤ) → Bids s w → w ≡ v)
    → pick rule (some (record { bidder = s.bidder; value = v })) rest ≡ o
    → Outcome rule (s ∷ rest) o
Outcome-head rule s rest none v bid only h = absurd (pick-some-ne-none rule _ rest h)
Outcome-head rule s rest (some c) v bid only h = elim (pick-some-Continues rule _ c rest h) [
  | inl (e, l) ↦ subst (λ x. Wins rule (s ∷ rest) x) (sym e) (Wins-head rule v bid l)
  | inr (w, o) ↦ Wins-cons rule (λ x bx. rw (only x bx) (better-Beats rule c.value v o)) w
]

pick-Outcome :
    (rule : ClearingRule) (states : List GuardBidderState)
    → Outcome rule states (pick rule none states)
unfolding pick
pick-Outcome rule [] = tt
pick-Outcome rule (s ∷ rest) = elim (consider-cases rule none s) [
  | inl (quiet, e) ↦
      rw (ap (λ x. pick rule x rest) e)
        (Outcome-cons rule s rest (pick rule none rest) quiet (pick-Outcome rule rest))
  | inr (v, bid, only, e) ↦
      Outcome-head rule s rest _ v bid only (sym (ap (λ x. pick rule x rest) e))
]

-- For every view, the expected winner is the first of the best bids under the view's clearing rule:
-- its state was read and reveals the winning value, which is positive, every bid before it is worse,
-- and no bid after it is better. There is no winner only if no bid was read, revealed and positive.
pub expected_winner-Outcome :
    (view : RoundSettlementView) → Outcome view.clearing_rule view.bidders (expected_winner view)
unfolding expected_winner
expected_winner-Outcome view = pick-Outcome view.clearing_rule view.bidders

-- A winner is the only one: whatever states come before and after, the loop picks it.
abbrev Behind : ClearingRule → ℤ → Option Candidate → Type 0
Behind rule v none = Unit
Behind rule v (some b) = Beats rule v b.value

consider-Behind :
    (rule : ClearingRule) (v : ℤ) (best : Option Candidate) (s : GuardBidderState)
    → Behind rule v best
    → Worse rule v s
    → Behind rule v (consider_bid rule best s.bidder s.escrow s.revealed_value)
unfolding challenge
consider-Behind rule v best s behind worse = elim (consider-cases rule best s) [
  | inl (quiet, e) ↦ rw e behind
  | inr (w, bid, only, e) ↦ rw e (challenge_keeps w best behind (worse w bid))
]
  where
    challenge_keeps :
        (w : ℤ) (b : Option Candidate)
        → Behind rule v b
        → Beats rule v w
        → Behind rule v (challenge rule b s.bidder w)
    challenge_keeps w none h k = k
    challenge_keeps w (some b) h k = elim (Bool-cases (better rule w b.value)) [
      | inl y ↦ rw y k
      | inr n ↦ rw n h
    ]

pick-Behind :
    (rule : ClearingRule) (v : ℤ) (best : Option Candidate) (before rest : List GuardBidderState)
    → Behind rule v best
    → All (Worse rule v) before
    → (b : Option Candidate) × Behind rule v b
      × (pick rule best (before ++ rest) ≡ pick rule b rest)
unfolding pick
pick-Behind rule v best [] rest h a = (best, h, refl)
pick-Behind rule v best (s ∷ before) rest h a =
    pick-Behind rule v (consider_bid rule best s.bidder s.escrow s.revealed_value) before rest
      (consider-Behind rule v best s h a.0) a.1

pick-kept :
    (rule : ClearingRule) (c : Candidate) (after : List GuardBidderState)
    → All (NoBetter rule c.value) after
    → pick rule (some c) after ≡ some c
unfolding pick challenge
pick-kept rule c [] a = refl
pick-kept rule c (s ∷ after) a = elim (consider-cases rule (some c) s) [
  | inl (quiet, e) ↦ rw e (pick-kept rule c after a.1)
  | inr (v, bid, only, e) ↦
      let stays : challenge rule (some c) s.bidder v ≡ some c =
        rw (not_Beats rule v c.value (a.0 v bid)) refl in
      rw (e, stays) (pick-kept rule c after a.1)
]

challenge_won :
    (rule : ClearingRule) (best : Option Candidate) (bidder : String) (v : ℤ)
    → Behind rule v best
    → challenge rule best bidder v ≡ some (record { bidder = bidder; value = v })
unfolding challenge
challenge_won rule none bidder v h = refl
challenge_won rule (some b) bidder v h = rw (Beats-better rule v b.value h) refl

module _ (rule : ClearingRule) (v : ℤ) (at : GuardBidderState) (bid : Bids at v) where
  consider_winner :
      (best : Option Candidate)
      → Behind rule v best
      → consider_bid rule best at.bidder at.escrow at.revealed_value
        ≡ some (record { bidder = at.bidder; value = v })
  consider_winner best h = elim (consider-cases rule best at) [
    | inl (quiet, e) ↦ absurd (quiet v bid)
    | inr (w, other, only, e) ↦ e ∙ rw (sym (only v bid)) (challenge_won rule best at.bidder v h)
  ]

pub Wins-pick :
    (rule : ClearingRule) (states : List GuardBidderState) (c : Candidate)
    → Wins rule states c
    → pick rule none states ≡ some c
unfolding pick
Wins-pick rule states c w =
    let (b, behind, skipped) =
      pick-Behind rule c.value none w.before (w.at ∷ w.after) tt w.earlier in
    ap (pick rule none) w.split
    ∙ skipped
    ∙ ap (λ x. pick rule x w.after) (consider_winner rule c.value w.at w.bids b behind)
    ∙ ap (λ n. pick rule (some (record { bidder = n; value = c.value })) w.after) w.named
    ∙ pick-kept rule c w.after w.later
