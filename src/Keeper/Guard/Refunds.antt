-- ===== src/Keeper/Guard/Refunds.antt =====
-- What `evaluateSettle` and `evaluateVoid` of services/keeper/src/settlement-guard.ts would move.
use sub_rosa_issue.Prelude.{
  ◌≡◌, refl, ap, ◌∙◌, Bool, true, false, inl, inr, ℤ, pos, ◌+ℤ◌, ◌-ℤ◌, ◌≤ℤ◌, ltb_ℤ, int_laws,
  String, str_eq, str_eq_comm, str_eq_refl, Option, none, some, List, [], ◌∷◌, ◌++◌, All, contains,
  Distinct, arith, Bool-cases,
}
use sub_rosa_issue.Keeper.Guard.{
  GuardBidderState, Refund, settle_loop, void_loop, refund_bid, push_refund, void_bid,
  positive_part,
}

unfoldable pub total : List Refund → ℤ
total [] = pos 0
total (r ∷ rest) = r.amount +ℤ total rest

abbrev pub held_by : Option ℤ → Bool → ℤ
held_by none paid = pos 0
held_by (some e) true = pos 0
held_by (some e) false = e

-- The readable escrow that the contract still holds for these bidders.
unfoldable pub held : List GuardBidderState → ℤ
held [] = pos 0
held (s ∷ rest) = held_by s.escrow s.settled +ℤ held rest

-- A bid's escrow as the contract keeps it: never negative.
abbrev pub Funded : GuardBidderState → Type 0
Funded s = pos 0 ≤ℤ held_by s.escrow s.settled

total-append : (xs ys : List Refund) → total (xs ++ ys) ≡ total xs +ℤ total ys
unfolding total
total-append [] ys = omega int_laws
total-append (r ∷ xs) ys = rw (total-append xs ys) (omega int_laws)

total-push_refund :
    (refunds : List Refund) (bidder : String) (escrow : ℤ)
    → pos 0 ≤ℤ escrow
    → total (push_refund refunds bidder escrow) ≡ total refunds +ℤ escrow
unfolding push_refund
total-push_refund refunds bidder escrow h = elim (Bool-cases (ltb_ℤ (pos 0) escrow)) [
  | inl p ↦ rw (p, total-append refunds) (unfold total in omega int_laws)
  | inr p ↦ rw p (let z : escrow ≡ pos 0 = ground arith in rw z (omega int_laws))
]

positive_part_self : (z : ℤ) → pos 0 ≤ℤ z → positive_part z ≡ z
positive_part_self z h = ground arith

total-void_bid :
    (refunds : List Refund) (bidder : String) (escrow : Option ℤ) (paid : Bool)
    → pos 0 ≤ℤ held_by escrow paid
    → total (void_bid refunds bidder escrow paid) ≡ total refunds +ℤ held_by escrow paid
unfolding void_bid
total-void_bid refunds bidder none paid f = omega int_laws
total-void_bid refunds bidder (some e) true f = omega int_laws
total-void_bid refunds bidder (some e) false f = total-push_refund refunds bidder e f

pub total-void_loop :
    (refunds : List Refund) (states : List GuardBidderState)
    → All Funded states
    → total (void_loop refunds states) ≡ total refunds +ℤ held states
unfolding void_loop held
total-void_loop refunds [] f = omega int_laws
total-void_loop refunds (s ∷ rest) f =
    rw
      (
        total-void_loop (void_bid refunds s.bidder s.escrow s.settled) rest f.1,
        total-void_bid refunds s.bidder s.escrow s.settled f.0,
      )
      (omega int_laws)

abbrev pub names : List GuardBidderState → List String
names [] = []
names (s ∷ rest) = s.bidder ∷ names rest

module _ (winner : String) (bid : ℤ) where
  refund_bid_other :
      (acc : List Refund × ℤ) (bidder : String) (escrow : Option ℤ) (paid : Bool)
      → str_eq bidder winner ≡ false
      → pos 0 ≤ℤ held_by escrow paid
      → let r = refund_bid winner bid acc bidder escrow paid in
        (total r.0 ≡ total acc.0 +ℤ held_by escrow paid) × (r.1 ≡ acc.1)
  unfolding refund_bid
  refund_bid_other acc bidder none paid h f = (omega int_laws, refl)
  refund_bid_other acc bidder (some e) true h f = (omega int_laws, refl)
  refund_bid_other (refunds, surplus) bidder (some e) false h f =
      rw h (total-push_refund refunds bidder e f, refl)

  -- Bidders other than the winner: each gets what is held for it, and the surplus stays.
  pub settle_others :
      (acc : List Refund × ℤ) (states : List GuardBidderState)
      → contains (names states) winner ≡ false
      → All Funded states
      → let r = settle_loop winner bid acc states in
        (total r.0 ≡ total acc.0 +ℤ held states) × (r.1 ≡ acc.1)
  unfolding settle_loop held contains
  settle_others acc [] h f = (omega int_laws, refl)
  settle_others acc (s ∷ rest) h f =
      let one = refund_bid_other acc s.bidder s.escrow s.settled (ground arith) f.0 in
      let more =
        settle_others (refund_bid winner bid acc s.bidder s.escrow s.settled) rest (ground arith)
          f.1 in
      (rw (more.0, one.0) (omega int_laws), more.1 ∙ one.1)

  pub settle_loop-append :
      (acc : List Refund × ℤ) (xs ys : List GuardBidderState)
      → settle_loop winner bid acc (xs ++ ys)
        ≡ settle_loop winner bid (settle_loop winner bid acc xs) ys
  unfolding settle_loop
  settle_loop-append acc [] ys = refl
  settle_loop-append acc (s ∷ rest) ys =
      settle_loop-append (refund_bid winner bid acc s.bidder s.escrow s.settled) rest ys

  pub refund_winner :
      (acc : List Refund × ℤ) (s : GuardBidderState) (e : ℤ)
      → s.bidder ≡ winner
      → s.escrow ≡ some e
      → s.settled ≡ false
      → bid ≤ℤ e
      → refund_bid winner bid acc s.bidder s.escrow s.settled ≡ (acc.0, e -ℤ bid)
  unfolding refund_bid
  refund_winner (refunds, surplus) s e named held_e unpaid covers =
      rw (held_e, unpaid, named, refund_bid, str_eq_refl winner)
        (ap (λ z. (refunds, z)) (positive_part_self (e -ℤ bid) (omega int_laws)))

pub held-append : (xs ys : List GuardBidderState) → held (xs ++ ys) ≡ held xs +ℤ held ys
unfolding held
held-append [] ys = omega int_laws
held-append (s ∷ rest) ys = rw (held-append rest ys) (omega int_laws)

contains-middle :
    (before : List GuardBidderState) (at : GuardBidderState) (after : List GuardBidderState)
    (name : String)
    → contains (names (before ++ at ∷ after)) name ≡ false
    → str_eq at.bidder name ≡ false
unfolding contains
contains-middle [] at after name h = ground arith
contains-middle (s ∷ rest) at after name h = contains-middle rest at after name (ground arith)

pub names-apart :
    (before : List GuardBidderState) (at : GuardBidderState) (after : List GuardBidderState)
    → Distinct (names (before ++ at ∷ after))
    → (contains (names before) at.bidder ≡ false) × (contains (names after) at.bidder ≡ false)
unfolding contains
names-apart [] at after d = (refl, d.0)
names-apart (s ∷ rest) at after d =
    let later = names-apart rest at after d.1 in
    (
      ground (
        arith,
        contains-middle rest at after s.bidder d.0,
        str_eq_comm s.bidder at.bidder,
        later.0,
      ),
      later.1,
    )
