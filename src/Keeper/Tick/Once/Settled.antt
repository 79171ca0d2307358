-- ===== src/Keeper/Tick/Once/Settled.antt =====
-- Passes of services/keeper/src/keeper.ts over any rounds with a durable cursor: what they settle and
-- clear, and how often.
use sub_rosa_issue.Prelude.{ℕ, ◌≤◌, ◌≡◌, refl, Bool, true, List, [], arith}
use sub_rosa_issue.Keeper.Checkpoint.{KeeperStep, clear, settle}
use sub_rosa_issue.Keeper.Tick.World.{
  Tx, opens, clears, settles, voids, reveals, KeeperDeps, KeeperState, recorded,
}
use sub_rosa_issue.Keeper.Tick.Watch.{watch_all}
use sub_rosa_issue.Keeper.Tick.Keeps.Passes.{Stable, watch_all-Keeps}
use sub_rosa_issue.Keeper.Tick.Keeps.Quiet.{settle-Keeps, clear-Keeps, void-Keeps}
use sub_rosa_issue.Keeper.Tick.Once.{
  flag, has_checkpoint, confirmations, OnceRecorded, OnceRecorded-moves, OnceRecorded-records,
  OnceRecorded-other,
}
use sub_rosa_issue.Keeper.Tick.Once.Phases.{
  is_settles, is_clears, settle-OnceRecorded, clear-OnceRecorded,
}

module _ {W : Type 0} (d : KeeperDeps W) (j : ℕ) where
  settles_stable : Stable d (OnceRecorded is_settles settle j)
  unfolding OnceRecorded
  settles_stable = record {
    moves = OnceRecorded-moves is_settles settle j;
    records = OnceRecorded-records is_settles settle j d;
    opening = λ id sig. OnceRecorded-other is_settles settle j id opens _ refl;
    revealing = λ id b o. OnceRecorded-other is_settles settle j id (reveals b) _ refl;
    clearing = λ id deadline result.
        clear-Keeps d _ (OnceRecorded-moves is_settles settle j)
          (OnceRecorded-records is_settles settle j d) id deadline result
          (OnceRecorded-other is_settles settle j id clears _ refl);
    settling = λ id. settle-OnceRecorded d id j;
    voiding =
        void-Keeps d _ (OnceRecorded-moves is_settles settle j)
          (OnceRecorded-records is_settles settle j d) (λ s g h. h)
          (λ id. OnceRecorded-other is_settles settle j id voids _ refl);
  }

  clears_stable : Stable d (OnceRecorded is_clears clear j)
  unfolding OnceRecorded
  clears_stable = record {
    moves = OnceRecorded-moves is_clears clear j;
    records = OnceRecorded-records is_clears clear j d;
    opening = λ id sig. OnceRecorded-other is_clears clear j id opens _ refl;
    revealing = λ id b o. OnceRecorded-other is_clears clear j id (reveals b) _ refl;
    clearing = λ id. clear-OnceRecorded d id j;
    settling = λ id result.
        settle-Keeps d _ (OnceRecorded-moves is_clears clear j)
          (OnceRecorded-records is_clears clear j d) id result
          (OnceRecorded-other is_clears clear j id settles _ refl);
    voiding =
        void-Keeps d _ (OnceRecorded-moves is_clears clear j)
          (OnceRecorded-records is_clears clear j d) (λ s g h. h)
          (λ id. OnceRecorded-other is_clears clear j id voids _ refl);
  }

  start :
      (kind : Tx → Bool) (step : KeeperStep) (s : KeeperState W)
      → has_checkpoint s.checkpoint ≡ true
      → s.sent ≡ []
      → OnceRecorded kind step j s
  unfolding OnceRecorded confirmations
  start kind step s c e = (c, rw e (omega arith))

  -- With a durable cursor, and whatever the chain, the beacon and the clock do, any sequence of passes
  -- over any rounds, those that throw included, confirms at most one settle of a round, and none while
  -- the cursor at the end does not record that the round is settled.
  pub settles_once :
      (poll_ms : ℕ) (ids : List ℕ) (s : KeeperState W)
      → has_checkpoint s.checkpoint ≡ true
      → s.sent ≡ []
      → let after = watch_all d poll_ms ids s in
        confirmations is_settles j after.sent ≤ flag (recorded after.checkpoint j settle)
  unfolding OnceRecorded
  settles_once poll_ms ids s c e =
      (watch_all-Keeps d _ settles_stable poll_ms ids s (start is_settles settle s c e)).1

  -- The same of the clears: at most one is confirmed for a round, and none while the cursor at the end
  -- does not record that the round is cleared.
  pub clears_once :
      (poll_ms : ℕ) (ids : List ℕ) (s : KeeperState W)
      → has_checkpoint s.checkpoint ≡ true
      → s.sent ≡ []
      → let after = watch_all d poll_ms ids s in
        confirmations is_clears j after.sent ≤ flag (recorded after.checkpoint j clear)
  unfolding OnceRecorded
  clears_once poll_ms ids s c e =
      (watch_all-Keeps d _ clears_stable poll_ms ids s (start is_clears clear s c e)).1
