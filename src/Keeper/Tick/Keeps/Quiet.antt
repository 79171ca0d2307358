-- ===== src/Keeper/Tick/Keeps/Quiet.antt =====
-- The settle, the clear and the void of services/keeper/src/keeper.ts keep a predicate that their
-- transaction and the guard do not concern.
use sub_rosa_issue.Prelude.{ℕ, String, Option, none, some}
use sub_rosa_issue.Keeper.Guard.{
  Status, open_status, revealing, cleared, settled_status, voided, RoundSettlementView,
}
use sub_rosa_issue.Keeper.Guard.Machine.{Guard}
use sub_rosa_issue.Keeper.Checkpoint.{KeeperStep, clear, settle, void}
use sub_rosa_issue.Keeper.Tick.World.{
  Outcome, ok, failed, OnChainRound, clears, settles, voids, KeeperDeps, KeeperState, call, gets,
  submit, step_already_done, record_step, now_seconds,
}
use sub_rosa_issue.Keeper.Tick.Close.{
  CloseResult, clear_answer, try_clear, clear_revealing, settle_answer, try_settle,
  settle_unless_recorded,
}
use sub_rosa_issue.Keeper.Tick.Void.{
  VoidResult, check_void, with_guard, void_closed, void_early, void_answer, void_dispatch,
  void_checked, void_guarded, void_ready, void_open_round, void_phases, void_if_stale,
}
use sub_rosa_issue.Keeper.Tick.Keeps.{
  Keeps, Keeps-pure, Keeps-throw, Keeps-bind, Keeps-attempt, Keeps-if, Keeps-call,
}

module _ {W : Type 0} (d : KeeperDeps W) (P : KeeperState W → Type 0)
    (moves : (s : KeeperState W) (w : W) → P s → P (record s { world = w }))
    (records : (id : ℕ) (step : KeeperStep) → Keeps P (record_step d id step)) where
  Keeps-read : {A : Type 0} (f : W → Outcome A × W) → Keeps P (call f)
  Keeps-read f = Keeps-call P f moves

  Keeps-asked : (id : ℕ) (step : KeeperStep) → Keeps P (step_already_done id step)
  unfolding Keeps step_already_done
  Keeps-asked id step s h = h

  Keeps-now : Keeps P (now_seconds d)
  unfolding Keeps now_seconds
  Keeps-now s h = h

  Keeps-held : Keeps P (gets (λ s. s.guard))
  unfolding Keeps gets
  Keeps-held s h = h

  settle_answer-Keeps :
      (id : ℕ) (result : CloseResult) (r : Outcome (Unit {0}))
      → Keeps P (settle_answer d id result r)
  unfolding settle_answer
  settle_answer-Keeps id result (ok _) = Keeps-bind P _ _ (records id settle) λ _. Keeps-pure P _
  settle_answer-Keeps id result (failed e) =
      Keeps-if P _ _ _
        (Keeps-bind P _ _ (Keeps-if P _ _ _ (records id settle) (Keeps-pure P tt))
          λ _. Keeps-pure P _)
        (Keeps-throw P _ e)

  pub settle-Keeps :
      (id : ℕ) (result : CloseResult)
      → Keeps P (submit id settles (d.send_settle id))
      → Keeps P (settle_unless_recorded d id result)
  unfolding settle_unless_recorded try_settle
  settle-Keeps id result sent = Keeps-bind P _ _ (Keeps-asked id settle) λ done.
      Keeps-if P done _ _ (Keeps-pure P _)
        (Keeps-bind P _ _ (Keeps-attempt P _ sent) (settle_answer-Keeps id result))

  clear_answer-Keeps :
      (id : ℕ) (result : CloseResult) (r : Outcome (Option String))
      → Keeps P (clear_answer d id result r)
  unfolding clear_answer
  clear_answer-Keeps id result (ok _) = Keeps-bind P _ _ (records id clear) λ _. Keeps-pure P _
  clear_answer-Keeps id result (failed e) =
      Keeps-if P _ _ _
        (Keeps-bind P _ _ (Keeps-if P _ _ _ (records id clear) (Keeps-pure P tt))
          λ _. Keeps-pure P _)
        (Keeps-throw P _ e)

  pub clear-Keeps :
      (id deadline : ℕ) (result : CloseResult)
      → Keeps P (submit id clears (d.send_clear id))
      → Keeps P (clear_revealing d id deadline result)
  unfolding clear_revealing try_clear
  clear-Keeps id deadline result sent = Keeps-bind P _ _ (Keeps-asked id clear) λ done.
      Keeps-if P done _ _ (Keeps-pure P _) (
        Keeps-bind P _ _ Keeps-now λ now.
          Keeps-if P _ _ _ (Keeps-pure P _)
            (Keeps-bind P _ _ (Keeps-attempt P _ sent) (clear_answer-Keeps id result)))

  module _
      (guards : (s : KeeperState W) (g : Option Guard) → P s → P (record s { guard = g })) where
    Keeps-check_void : (g : Guard) (view : RoundSettlementView) → Keeps P (check_void d g view)
    unfolding Keeps check_void
    Keeps-check_void g view s h = guards s _ h

    Keeps-with_guard : (f : ℕ → Guard → Guard) → Keeps P (with_guard d f)
    unfolding Keeps with_guard
    Keeps-with_guard f s h = guards s _ h

    Keeps-void_closed :
        (round : OnChainRound) (id now : ℕ) (g : Option Guard) (result : VoidResult)
        → Keeps P (void_closed d round id now g result)
    unfolding void_closed
    Keeps-void_closed round id now none result = Keeps-pure P _
    Keeps-void_closed round id now (some g) result =
        Keeps-bind P _ _ (Keeps-check_void g _) λ _. Keeps-pure P _

    Keeps-void_early :
        (round : OnChainRound) (id now : ℕ) (g : Option Guard) (result : VoidResult)
        → Keeps P (void_early d round id now g result)
    unfolding void_early
    Keeps-void_early round id now none result = Keeps-pure P _
    Keeps-void_early round id now (some g) result =
        Keeps-bind P _ _ (Keeps-check_void g _) λ _. Keeps-pure P _

    Keeps-void_answer :
        (id : ℕ) (result : VoidResult) (r : Outcome (Unit {0}))
        → Keeps P (void_answer d id result r)
    unfolding void_answer
    Keeps-void_answer id result (ok _) =
        Keeps-bind P _ _ (Keeps-with_guard _)
          λ _. Keeps-bind P _ _ (records id void) λ _. Keeps-pure P _
    Keeps-void_answer id result (failed e) =
        Keeps-if P _ _ _ (Keeps-bind P _ _ (Keeps-with_guard _) λ _. Keeps-pure P _)
          (Keeps-bind P _ _ (Keeps-with_guard _) λ _. Keeps-throw P _ e)

    module _ (sent : (id : ℕ) → Keeps P (submit id voids (d.send_void id))) where
      Keeps-void_dispatch : (id : ℕ) (result : VoidResult) → Keeps P (void_dispatch d id result)
      unfolding void_dispatch
      Keeps-void_dispatch id result =
          Keeps-bind P _ _ (Keeps-attempt P _ (sent id)) (Keeps-void_answer id result)

      Keeps-void_ready :
          (id now : ℕ) (g : Option Guard) (result : VoidResult)
          → Keeps P (void_ready d id now g result)
      unfolding void_ready void_guarded void_checked
      Keeps-void_ready id now none result = Keeps-void_dispatch id result
      Keeps-void_ready id now (some g) result =
          Keeps-bind P _ _ (Keeps-read (d.read_settlement_view id now)) λ view.
            Keeps-bind P _ _ (Keeps-check_void g view) λ checked.
              Keeps-if P _ _ _
                (Keeps-bind P _ _ (Keeps-with_guard _) λ _. Keeps-void_dispatch id result)
                (Keeps-pure P _)

      Keeps-void_phases :
          (st : Status) (round : OnChainRound) (id now : ℕ) (g : Option Guard) (result : VoidResult)
          → Keeps P (void_phases d st round id now g result)
      unfolding void_phases void_open_round
      Keeps-void_phases open_status round id now g result =
          Keeps-if P _ _ _
            (Keeps-bind P _ _ (Keeps-void_ready id now g result)
              λ after. Keeps-bind P _ _ (Keeps-read (d.get_round id)) λ last. Keeps-pure P _)
            (Keeps-void_early round id now g _)
      Keeps-void_phases revealing round id now g result = Keeps-void_closed round id now g _
      Keeps-void_phases cleared round id now g result = Keeps-void_closed round id now g _
      Keeps-void_phases settled_status round id now g result = Keeps-void_closed round id now g _
      Keeps-void_phases voided round id now g result = Keeps-void_closed round id now g _

      pub void-Keeps : (id : ℕ) → Keeps P (void_if_stale d id)
      unfolding void_if_stale
      void-Keeps id = Keeps-bind P _ _ (Keeps-read (d.get_round id)) λ round.
          Keeps-bind P _ _ Keeps-now λ now.
            Keeps-bind P _ _ Keeps-held λ held. Keeps-void_phases round.status round id now held _
