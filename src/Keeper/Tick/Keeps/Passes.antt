-- ===== src/Keeper/Tick/Keeps/Passes.antt =====
-- A predicate that the parts of a pass of services/keeper/src/keeper.ts keep is kept by the pass.
use sub_rosa_issue.Prelude.{ℕ, zero, suc, String, Option, none, some, List, [], ◌∷◌}
use sub_rosa_issue.Keeper.Guard.{Status, open_status, revealing, cleared, settled_status, voided}
use sub_rosa_issue.Keeper.Checkpoint.{KeeperStep, open_reveal, reveal}
use sub_rosa_issue.Keeper.Tick.World.{
  Outcome, ok, failed, OnChainRound, OpenedBid, opens, reveals, KeeperDeps, KeeperState, pure, call,
  submit, ◌>>◌, step_already_done, record_step, sleep_for,
}
use sub_rosa_issue.Keeper.Tick.Close.{
  CloseResult, Phase, returns, onward, clear_revealing, settle_unless_recorded, settle_phase,
  after_clear, close_phases, close_round, close_with,
}
use sub_rosa_issue.Keeper.Tick.Keep.{
  KeeperResult, wait, wait_for_round, fetch_signature, reveal_all, reveal_revealing, reveal_phase,
  open_answer, open_with, open_round, keep_phases, keep_round,
}
use sub_rosa_issue.Keeper.Tick.Keeps.Reveals.{Keeps-reveal_bids}
use sub_rosa_issue.Keeper.Tick.Void.{void_if_stale}
use sub_rosa_issue.Keeper.Tick.Watch.{
  watch_keep, watch_close, watch_round, watch_all, wants_keep, wants_close,
}
use sub_rosa_issue.Keeper.Tick.Keeps.{
  Keeps, Keeps-pure, Keeps-throw, Keeps-bind, Keeps-attempt, Keeps-if, Keeps-call,
}

-- What a predicate needs of the parts of a pass.
pub record Stable {W : Type 0} (d : KeeperDeps W) (P : KeeperState W → Type 0) : Type 0 where
  pub moves : (s : KeeperState W) (w : W) → P s → P (record s { world = w })
  pub records : (id : ℕ) (step : KeeperStep) → Keeps P (record_step d id step)
  pub opening :
      (id : ℕ) (signature : List ℕ) → Keeps P (submit id opens (d.send_open_reveal id signature))
  pub revealing :
      (id : ℕ) (bidder : String) (opened : OpenedBid)
      → Keeps P (submit id (reveals bidder) (d.send_reveal id bidder opened))
  pub clearing :
      (id deadline : ℕ) (result : CloseResult) → Keeps P (clear_revealing d id deadline result)
  pub settling : (id : ℕ) (result : CloseResult) → Keeps P (settle_unless_recorded d id result)
  pub voiding : (id : ℕ) → Keeps P (void_if_stale d id)

module _ {W : Type 0} (d : KeeperDeps W) (P : KeeperState W → Type 0) (stable : Stable d P) where
  Keeps-read : {A : Type 0} (f : W → Outcome A × W) → Keeps P (call f)
  Keeps-read f = Keeps-call P f stable.moves

  Keeps-done : (id : ℕ) (step : KeeperStep) → Keeps P (step_already_done id step)
  unfolding Keeps step_already_done
  Keeps-done id step s h = h

  Keeps-settle_phase :
      (id : ℕ) (st : Status) (round : OnChainRound) (result : CloseResult)
      → Keeps P (settle_phase d id st round result)
  unfolding settle_phase
  Keeps-settle_phase id cleared round result = Keeps-bind P _ _ (stable.settling id result) λ r.
      Keeps-bind P _ _ (Keeps-read (d.get_round id)) λ after. Keeps-pure P (close_with d id after r)
  Keeps-settle_phase id settled_status round result = Keeps-pure P _
  Keeps-settle_phase id voided round result = Keeps-pure P _
  Keeps-settle_phase id open_status round result = Keeps-pure P _
  Keeps-settle_phase id revealing round result = Keeps-pure P _

  Keeps-after_clear : (id : ℕ) (phase : Phase) → Keeps P (after_clear d id phase)
  unfolding after_clear
  Keeps-after_clear id (returns result) = Keeps-pure P _
  Keeps-after_clear id (onward result) =
      Keeps-bind P _ _ (Keeps-read (d.get_round id))
        λ round. Keeps-settle_phase id round.status round result

  Keeps-close_phases :
      (id : ℕ) (st : Status) (round : OnChainRound) (result : CloseResult)
      → Keeps P (close_phases d id st round result)
  unfolding close_phases
  Keeps-close_phases id revealing round result =
      Keeps-bind P _ _ (stable.clearing id round.reveal_deadline result) (Keeps-after_clear id)
  Keeps-close_phases id open_status round result = Keeps-settle_phase id open_status round result
  Keeps-close_phases id cleared round result = Keeps-settle_phase id cleared round result
  Keeps-close_phases id settled_status round result =
      Keeps-settle_phase id settled_status round result
  Keeps-close_phases id voided round result = Keeps-settle_phase id voided round result

  Keeps-close_round : (id : ℕ) → Keeps P (close_round d id)
  unfolding close_round
  Keeps-close_round id =
      Keeps-bind P _ _ (Keeps-read (d.get_round id))
        λ round. Keeps-close_phases id round.status round _

  Keeps-wait : (m p at : ℕ) → Keeps P (wait d m p at)
  unfolding Keeps wait
  Keeps-wait m p at s h = stable.moves s _ h

  Keeps-sleep_for : (p : ℕ) → Keeps P (sleep_for d p)
  unfolding Keeps sleep_for
  Keeps-sleep_for p s h = stable.moves s _ h

  Keeps-fetch_signature : (p r left : ℕ) → Keeps P (fetch_signature d p r left)
  unfolding fetch_signature
  Keeps-fetch_signature p r zero = Keeps-pure P _
  Keeps-fetch_signature p r (suc left) =
      Keeps-bind P _ _ (Keeps-attempt P _ (Keeps-read (d.fetch_round_signature r))) λ o.
        elim o
          as (λ o. Keeps {A = Option (List ℕ)} P (elim o [
            | ok signature ↦ pure (some signature)
            | failed e ↦ sleep_for d p >> fetch_signature d p r left
          ])) [
            | ok signature ↦ Keeps-pure P (some signature)
            | failed e ↦ Keeps-bind P _ _ (Keeps-sleep_for p) λ _. Keeps-fetch_signature p r left
          ]

  Keeps-reveal_all : (id : ℕ) (result : KeeperResult) → Keeps P (reveal_all d id result)
  unfolding reveal_all
  Keeps-reveal_all id result = Keeps-bind P _ _ (Keeps-read (d.bidders id)) λ bidders.
      Keeps-bind P _ _ (Keeps-reveal_bids d P stable.moves stable.revealing id result bidders)
        λ after.
          Keeps-bind P _ _ (Keeps-if P _ _ _ (stable.records id reveal) (Keeps-pure P tt))
            λ _. Keeps-pure P after

  Keeps-reveal_revealing : (id : ℕ) (result : KeeperResult) → Keeps P (reveal_revealing d id result)
  unfolding reveal_revealing
  Keeps-reveal_revealing id result =
      Keeps-bind P _ _ (Keeps-done id reveal)
        λ done. Keeps-if P done _ _ (Keeps-pure P _) (Keeps-reveal_all id result)

  Keeps-reveal_phase :
      (id : ℕ) (st : Status) (result : KeeperResult) → Keeps P (reveal_phase d id st result)
  unfolding reveal_phase
  Keeps-reveal_phase id revealing result =
      Keeps-bind P _ _ (Keeps-reveal_revealing id result)
        λ after. Keeps-bind P _ _ (Keeps-read (d.get_round id)) λ round. Keeps-pure P _
  Keeps-reveal_phase id open_status result = Keeps-pure P _
  Keeps-reveal_phase id cleared result = Keeps-pure P _
  Keeps-reveal_phase id settled_status result = Keeps-pure P _
  Keeps-reveal_phase id voided result = Keeps-pure P _

  Keeps-open_answer : (r : Outcome (Unit {0})) → Keeps P (open_answer d r)
  unfolding open_answer
  Keeps-open_answer (ok _) = Keeps-pure P _
  Keeps-open_answer (failed e) = Keeps-if P _ _ _ (Keeps-pure P _) (Keeps-throw P _ _)

  Keeps-open_with :
      (id : ℕ) (result : KeeperResult) (signature : Option (List ℕ))
      → Keeps P (open_with d id result signature)
  unfolding open_with
  Keeps-open_with id result none = Keeps-pure P _
  Keeps-open_with id result (some signature) =
      Keeps-bind P _ _ (Keeps-attempt P _ (stable.opening id signature)) λ answer.
        Keeps-bind P _ _ (Keeps-open_answer answer) λ opened.
          Keeps-bind P _ _ (stable.records id open_reveal) λ _.
            Keeps-bind P _ _ (Keeps-read (d.get_round id))
              λ round. Keeps-reveal_phase id round.status _

  Keeps-open_round : (m p id r : ℕ) (result : KeeperResult) → Keeps P (open_round d m p id r result)
  unfolding open_round wait_for_round
  Keeps-open_round m p id r result =
      Keeps-bind P _ _ (Keeps-bind P _ _ (Keeps-read d.chain_info) λ info. Keeps-wait m p _)
        λ available.
          Keeps-if P available _ _
            (Keeps-bind P _ _ (Keeps-fetch_signature p r 5) (Keeps-open_with id result))
            (Keeps-pure P _)

  Keeps-keep_phases :
      (m p id : ℕ) (st : Status) (round : OnChainRound) (result : KeeperResult)
      → Keeps P (keep_phases d m p id st round result)
  unfolding keep_phases
  Keeps-keep_phases m p id open_status round result =
      Keeps-open_round m p id round.reveal_round result
  Keeps-keep_phases m p id revealing round result = Keeps-reveal_phase id revealing result
  Keeps-keep_phases m p id cleared round result = Keeps-reveal_phase id cleared result
  Keeps-keep_phases m p id settled_status round result = Keeps-reveal_phase id settled_status result
  Keeps-keep_phases m p id voided round result = Keeps-reveal_phase id voided result

  Keeps-keep_round : (m p id : ℕ) → Keeps P (keep_round d m p id)
  unfolding keep_round
  Keeps-keep_round m p id =
      Keeps-bind P _ _ (Keeps-read (d.get_round id))
        λ round. Keeps-keep_phases m p id round.status round _

  Keeps-watch_keep : (p id : ℕ) (round : OnChainRound) → Keeps P (watch_keep d p id round)
  unfolding watch_keep
  Keeps-watch_keep p id round =
      Keeps-if P (wants_keep round.status) _ _
        (Keeps-bind P _ _ (Keeps-keep_round 0 p id)
          λ kept. Keeps-bind P _ _ (Keeps-read (d.get_round id)) λ after. Keeps-pure P _)
        (Keeps-pure P _)

  Keeps-watch_close : (p id : ℕ) (round : OnChainRound) → Keeps P (watch_close d p id round)
  unfolding watch_close
  Keeps-watch_close p id round =
      Keeps-if P (wants_close round.status) _ _
        (Keeps-bind P _ _ (Keeps-close_round id)
          λ kept. Keeps-bind P _ _ (Keeps-read (d.get_round id)) λ after. Keeps-pure P _)
        (Keeps-pure P _)

  pub Keeps-watch_round : (p id : ℕ) → Keeps P (watch_round d p id)
  unfolding watch_round
  Keeps-watch_round p id = Keeps-bind P _ _ (stable.voiding id) λ stale.
      Keeps-bind P _ _ (Keeps-read (d.get_round id)) λ round.
        Keeps-bind P _ _ (Keeps-watch_keep p id round)
          λ kept. Keeps-bind P _ _ (Keeps-watch_close p id kept.1) λ closed. Keeps-pure P _

  pub watch_all-Keeps : (p : ℕ) (ids : List ℕ) (s : KeeperState W) → P s → P (watch_all d p ids s)
  unfolding watch_all Keeps
  watch_all-Keeps p [] s h = h
  watch_all-Keeps p (id ∷ ids) s h =
      watch_all-Keeps p ids (watch_round d p id s).1 (Keeps-watch_round p id s h)
