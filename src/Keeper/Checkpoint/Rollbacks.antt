-- ===== src/Keeper/Checkpoint/Rollbacks.antt =====
-- What planCheckpointRollback of services/keeper/src/checkpoint.ts does to the cursors of all rounds.
use sub_rosa_issue.Prelude.{
  sym, ℕ, ◌≡◌, refl, ◌∙◌, ap, true, false, not, ◌&&◌, Option, none, some, Option-cases, Bool-cases,
  List, [], ◌∷◌, ◌==◌, ==_iff, get, put, get-put, arith, inl, inr,
}
use sub_rosa_issue.Keeper.Checkpoint.{
  KeeperStep, KeeperCheckpoint, KeeperCheckpointFile, step_eq, step_eq_iff, includes, without,
  rolled_back, checkpoint_has_step, is_complete, plan_checkpoint_rollback,
}

pub includes-without :
    (xs : List KeeperStep) (s t : KeeperStep)
    → includes (without xs s) t ≡ (includes xs t && not (step_eq s t))
unfolding includes without
includes-without [] s t = ground arith
includes-without (x ∷ xs) s t =
    grind (arith, includes-without xs s t, step_eq_iff x s, step_eq_iff s t, step_eq_iff x t)

-- The answer of a round depends on what is stored under it alone.
is_complete-at :
    (file : KeeperCheckpointFile) (id j : ℕ) (o : Option KeeperCheckpoint) (t : KeeperStep)
    → get ◌==◌ file.rounds id ≡ o
    → (id == j) ≡ true
    → is_complete file j t ≡ checkpoint_has_step o t
unfolding is_complete
is_complete-at file id j o t h e =
    let same : id ≡ j = (==_iff id j).0 e in
    ap (λ r. checkpoint_has_step r t) (sym (ap (get ◌==◌ file.rounds) same) ∙ h)

module _ (file : KeeperCheckpointFile) (id : ℕ) (step : KeeperStep) (j : ℕ) (t : KeeperStep) where
  -- A rollback that finds the step missing has nothing to remove.
  no_step :
      (o : Option KeeperCheckpoint)
      → get ◌==◌ file.rounds id ≡ o
      → checkpoint_has_step o step ≡ false
      → is_complete file j t ≡ (is_complete file j t && not (id == j && step_eq step t))
  no_step o h n =
      let at = is_complete-at file id j o t h in grind (arith, at, n, step_eq_iff step t)

  dropped_step :
      (e : KeeperCheckpoint)
      → get ◌==◌ file.rounds id ≡ some e
      → is_complete (record file { rounds = put ◌==◌ file.rounds id (rolled_back e step) }) j t
        ≡ (is_complete file j t && not (id == j && step_eq step t))
  unfolding is_complete rolled_back checkpoint_has_step
  dropped_step e h = rw (get-put ◌==◌ ==_iff) (elim (Bool-cases (id == j)) [
    | inl q ↦
        rw (q, includes-without e.completed_steps step t, is_complete-at file id j (some e) t h q)
          refl
    | inr q ↦ rw q (ground arith)
  ])

  -- Rolling a step back removes that step of that round and leaves every other round and step.
  pub is_complete-rollback :
      is_complete (plan_checkpoint_rollback file id step) j t
      ≡ (is_complete file j t && not (id == j && step_eq step t))
  unfolding plan_checkpoint_rollback checkpoint_has_step
  is_complete-rollback = elim (Option-cases (get ◌==◌ file.rounds id)) [
    | inl n ↦ rw (n, plan_checkpoint_rollback) (no_step none n refl)
    | inr q ↦ elim (Bool-cases (includes (q.0).completed_steps step)) [
      | inl y ↦ rw (q.1, plan_checkpoint_rollback, y) (dropped_step (q.0) (q.1))
      | inr y ↦ rw (q.1, plan_checkpoint_rollback, y) (no_step (some (q.0)) (q.1) y)
    ]
  ]
