-- ===== src/Keeper/Tick/Once/Watched.antt =====
-- `voidIfStale` and the watch loop of services/keeper/src/keeper.ts with a settlement guard.
use sub_rosa_issue.Prelude.{
  ℕ, ◌/◌, ◌≤◌, ◌≡◌, refl, true, Option, none, some, List, [], arith, inl, inr, Bool-cases,
}
use sub_rosa_issue.Keeper.Guard.{Status, open_status, revealing, cleared, settled_status, voided}
use sub_rosa_issue.Keeper.Guard.Evaluate.{evaluate_void}
use sub_rosa_issue.Keeper.Guard.Machine.{Guard}
use sub_rosa_issue.Keeper.Tick.World.{
  OnChainRound, opens, clears, settles, reveals, KeeperDeps, KeeperState, pure, gets, ◌>>=◌,
  when◌then◌otherwise◌, now_seconds,
}
use sub_rosa_issue.Keeper.Tick.Void.{
  VoidResult, is_allowed, void_gate_view, check_void, void_closed, void_early, void_ready,
  void_open_round, void_phases, void_if_stale, new_void,
}
use sub_rosa_issue.Keeper.Tick.Watch.{watch_all}
use sub_rosa_issue.Keeper.Tick.Keeps.{Keeps, Keeps-pure, Keeps-bind, Keeps-call, then_do-Keeps}
use sub_rosa_issue.Keeper.Tick.Keeps.Passes.{Stable, watch_all-Keeps}
use sub_rosa_issue.Keeper.Tick.Keeps.Quiet.{settle-Keeps, clear-Keeps}
use sub_rosa_issue.Keeper.Tick.Once.{flag, confirmations}
use sub_rosa_issue.Keeper.Tick.Once.Voided.{
  VoidedOnce, VoidedOnce-moves, VoidedOnce-records, VoidedOnce-other,
}
use sub_rosa_issue.Keeper.Tick.Once.Guarded.{
  ReadsRound, check_void-VoidedOnce, void_guarded-VoidedOnce,
}
use sub_rosa_issue.Keeper.Tick.Once.Voids.{is_voids, has_guard, ended}

module _ {W : Type 0} (d : KeeperDeps W) (j : ℕ) (reads : ReadsRound d) where
  void_closed-VoidedOnce :
      (round : OnChainRound) (id now : ℕ) (o : Option Guard) (result : VoidResult)
      (s : KeeperState W)
      → s.guard ≡ o
      → VoidedOnce j s
      → VoidedOnce j (void_closed d round id now o result s).1
  unfolding void_closed pure ◌>>=◌ check_void VoidedOnce
  void_closed-VoidedOnce round id now none result s held h = h
  void_closed-VoidedOnce round id now (some g) result s held h =
      check_void-VoidedOnce d j g (void_gate_view round id now) s held h

  void_early-VoidedOnce :
      (round : OnChainRound) (id now : ℕ) (o : Option Guard) (result : VoidResult)
      (s : KeeperState W)
      → s.guard ≡ o
      → VoidedOnce j s
      → VoidedOnce j (void_early d round id now o result s).1
  unfolding void_early pure ◌>>=◌ check_void VoidedOnce
  void_early-VoidedOnce round id now none result s held h = h
  void_early-VoidedOnce round id now (some g) result s held h =
      check_void-VoidedOnce d j g (void_gate_view round id now) s held h

  void_ready-VoidedOnce :
      (id now : ℕ) (o : Option Guard) (result : VoidResult) (s : KeeperState W)
      → s.guard ≡ o
      → VoidedOnce j s
      → VoidedOnce j (void_ready d id now o result s).1
  unfolding void_ready VoidedOnce
  void_ready-VoidedOnce id now none result s held (k, h) = cc
  void_ready-VoidedOnce id now (some g) result s held h =
      void_guarded-VoidedOnce d j id now g result s reads held h

  void_open_round-VoidedOnce :
      (round : OnChainRound) (id now : ℕ) (o : Option Guard) (result : VoidResult)
      (s : KeeperState W)
      → s.guard ≡ o
      → VoidedOnce j s
      → VoidedOnce j (void_open_round d round id now o result s).1
  unfolding void_open_round when◌then◌otherwise◌ ◌>>=◌
  void_open_round-VoidedOnce round id now o result s held h =
      elim (Bool-cases (is_allowed (evaluate_void (void_gate_view round id now)))) [
        | inl go ↦ rw go (
            then_do-Keeps (VoidedOnce j) (void_ready d id now o result s).0
              (void_ready d id now o result s).1 _ (void_ready-VoidedOnce id now o result s held h)
              λ after.
                Keeps-bind (VoidedOnce j) _ _
                  (Keeps-call (VoidedOnce j) (d.get_round id) (VoidedOnce-moves d j))
                  λ last. Keeps-pure (VoidedOnce j) _)
        | inr early ↦ rw early (void_early-VoidedOnce round id now o _ s held h)
      ]

  void_phases-VoidedOnce :
      (st : Status) (round : OnChainRound) (id now : ℕ) (o : Option Guard) (result : VoidResult)
      (s : KeeperState W)
      → s.guard ≡ o
      → VoidedOnce j s
      → VoidedOnce j (void_phases d st round id now o result s).1
  unfolding void_phases
  void_phases-VoidedOnce open_status round id now o result =
      void_open_round-VoidedOnce round id now o result
  void_phases-VoidedOnce revealing round id now o result = void_closed-VoidedOnce round id now o _
  void_phases-VoidedOnce cleared round id now o result = void_closed-VoidedOnce round id now o _
  void_phases-VoidedOnce settled_status round id now o result =
      void_closed-VoidedOnce round id now o _
  void_phases-VoidedOnce voided round id now o result = void_closed-VoidedOnce round id now o _

  void_round-VoidedOnce :
      (id : ℕ) (round : OnChainRound)
      → Keeps (VoidedOnce j) (
          now_seconds d >>= λ now. gets (λ s. s.guard) >>= λ guard.
          void_phases d round.status round id now guard (new_void d id))
  unfolding Keeps ◌>>=◌ now_seconds gets
  void_round-VoidedOnce id round s h =
      void_phases-VoidedOnce round.status round id (d.now_ms s.world / 1000) s.guard (new_void d id)
        s refl h

  void_if_stale-VoidedOnce : (id : ℕ) → Keeps (VoidedOnce j) (void_if_stale d id)
  unfolding void_if_stale
  void_if_stale-VoidedOnce id =
      Keeps-bind (VoidedOnce j) _ _
        (Keeps-call (VoidedOnce j) (d.get_round id) (VoidedOnce-moves d j))
        (void_round-VoidedOnce id)

  voids_stable : Stable d (VoidedOnce j)
  voids_stable = record {
    moves = VoidedOnce-moves d j;
    records = VoidedOnce-records d j;
    opening = λ id sig. VoidedOnce-other d j id opens _ refl;
    revealing = λ id b o. VoidedOnce-other d j id (reveals b) _ refl;
    clearing = λ id deadline result.
        clear-Keeps d _ (VoidedOnce-moves d j) (VoidedOnce-records d j) id deadline result
          (VoidedOnce-other d j id clears _ refl);
    settling = λ id result.
        settle-Keeps d _ (VoidedOnce-moves d j) (VoidedOnce-records d j) id result
          (VoidedOnce-other d j id settles _ refl);
    voiding = void_if_stale-VoidedOnce;
  }

  -- With a settlement guard, whose view of a round is a view of that round, and whatever the chain, the
  -- beacon and the clock do, any sequence of passes over any rounds, those that throw included,
  -- confirms at most one void of a round, and none while the guard at the end does not hold the
  -- round's entry as terminal.
  pub voids_once :
      (poll_ms : ℕ) (ids : List ℕ) (s : KeeperState W)
      → has_guard s.guard ≡ true
      → s.sent ≡ []
      → let after = watch_all d poll_ms ids s in
        confirmations is_voids j after.sent ≤ flag (ended after.guard j)
  unfolding VoidedOnce confirmations
  voids_once poll_ms ids s k e =
      (watch_all-Keeps d _ voids_stable poll_ms ids s (k, rw e (omega arith))).1
