-- ===== src/Keeper/Tick/Keeps/Reveals.antt =====
-- The reveals of services/keeper/src/keeper.ts keep a predicate that a reveal keeps.
use sub_rosa_issue.Prelude.{ℕ, String, Option, none, some, List, [], ◌∷◌, ℤ}
use sub_rosa_issue.Keeper.Tick.World.{
  Outcome, ok, failed, OpenedBid, reveals, KeeperDeps, KeeperState, pure, call, submit, error_name,
}
use sub_rosa_issue.Keeper.Tick.Keep.{
  KeeperResult, state_read_failed, skipped_for, note_bid, reveal_answer, send_opened, open_seal,
  reveal_unless, reveal_bid, reveal_bids,
}
use sub_rosa_issue.Keeper.Tick.Keeps.{
  Keeps, Keeps-pure, Keeps-throw, Keeps-bind, Keeps-attempt, Keeps-if, Keeps-call,
}

module _ {W : Type 0} (d : KeeperDeps W) (P : KeeperState W → Type 0)
    (moves : (s : KeeperState W) (w : W) → P s → P (record s { world = w }))
    (revealing : (id : ℕ) (bidder : String) (opened : OpenedBid)
      → Keeps P (submit id (reveals bidder) (d.send_reveal id bidder opened))) where
  Keeps-read : {A : Type 0} (f : W → Outcome A × W) → Keeps P (call f)
  Keeps-read f = Keeps-call P f moves

  Keeps-reveal_answer : (r : Outcome (Unit {0})) → Keeps P (reveal_answer d r)
  unfolding reveal_answer
  Keeps-reveal_answer (ok _) = Keeps-pure P _
  Keeps-reveal_answer (failed e) =
      Keeps-if P _ _ _ (Keeps-pure P _)
        (Keeps-if P _ _ _ (Keeps-pure P _) (Keeps-if P _ _ _ (Keeps-pure P _) (Keeps-throw P _ _)))

  Keeps-send_opened : (id : ℕ) (b : String) (r : Outcome OpenedBid) → Keeps P (send_opened d id b r)
  unfolding send_opened
  Keeps-send_opened id b (failed e) = Keeps-pure P _
  Keeps-send_opened id b (ok opened) =
      Keeps-bind P _ _ (Keeps-attempt P _ (revealing id b opened)) Keeps-reveal_answer

  Keeps-open_seal : (id : ℕ) (b : String) (seal : Option (List ℕ)) → Keeps P (open_seal d id b seal)
  unfolding open_seal
  Keeps-open_seal id b none = Keeps-pure P _
  Keeps-open_seal id b (some c) =
      Keeps-bind P _ _ (Keeps-attempt P _ (Keeps-read (d.open_bid c))) (Keeps-send_opened id b)

  Keeps-reveal_unless : (id : ℕ) (b : String) (v : Option ℤ) → Keeps P (reveal_unless d id b v)
  unfolding reveal_unless
  Keeps-reveal_unless id b (some v) = Keeps-pure P _
  Keeps-reveal_unless id b none =
      Keeps-bind P _ _ (Keeps-read (d.get_seal id b)) (Keeps-open_seal id b)

  Keeps-reveal_bid : (id : ℕ) (b : String) → Keeps P (reveal_bid d id b)
  unfolding reveal_bid
  Keeps-reveal_bid id b =
      Keeps-bind P _ _ (Keeps-attempt P _ (Keeps-read (d.get_bid_state id b))) λ o.
        elim o
          as (λ o. Keeps P (elim o [
            | failed e ↦ pure (skipped_for (state_read_failed (error_name e)))
            | ok bid ↦ reveal_unless d id b bid.revealed_value
          ])) [ failed e ↦ Keeps-pure P _ | ok bid ↦ Keeps-reveal_unless id b bid.revealed_value ]

  pub Keeps-reveal_bids :
      (id : ℕ) (result : KeeperResult) (bidders : List String)
      → Keeps P (reveal_bids d id result bidders)
  unfolding reveal_bids
  Keeps-reveal_bids id result [] = Keeps-pure P _
  Keeps-reveal_bids id result (b ∷ rest) =
      Keeps-bind P _ _ (Keeps-reveal_bid id b) λ o. Keeps-reveal_bids id (note_bid result b o) rest
