-- ===== src/Keeper/Checkpoint/Marks.antt =====
-- What planCheckpointStep of services/keeper/src/checkpoint.ts does to the cursors of all rounds.
use sub_rosa_issue.Prelude.{
  ℕ, ◌≡◌, refl, ◌&&◌, ◌||◌, Option, none, some, Bool-cases, List, [], ◌∷◌, ◌++◌, String, ◌==◌,
  ==_iff, get, get-put, arith, inl, inr,
}
use sub_rosa_issue.Keeper.Checkpoint.{
  KeeperStep, KeeperCheckpoint, KeeperCheckpointFile, step_eq, step_eq_iff, includes, push_step,
  steps_of, checkpoint_has_step, is_complete, mark_complete, plan_checkpoint_step,
}

pub includes-append :
    (xs : List KeeperStep) (s t : KeeperStep)
    → includes (xs ++ s ∷ []) t ≡ (includes xs t || step_eq s t)
unfolding includes
includes-append [] s t = ground arith
includes-append (x ∷ xs) s t = rw (includes-append xs s t) (ground arith)

pub includes-push_step :
    (xs : List KeeperStep) (s t : KeeperStep)
    → includes (push_step xs s) t ≡ (step_eq s t || includes xs t)
unfolding push_step
includes-push_step xs s t = elim (Bool-cases (includes xs s)) [
  | inl e ↦ grind (arith, step_eq_iff s t, e)
  | inr e ↦ rw (e, includes-append xs s t) (ground arith)
]

includes-steps_of :
    (o : Option KeeperCheckpoint) (t : KeeperStep)
    → includes (steps_of o) t ≡ checkpoint_has_step o t
unfolding includes checkpoint_has_step
includes-steps_of none t = refl
includes-steps_of (some e) t = refl

-- After a step is marked complete, the cursor holds that step of that round, and for every other
-- round and step exactly what it held before.
pub is_complete-mark_complete :
    (file : KeeperCheckpointFile) (id : ℕ) (step : KeeperStep) (hash : Option String) (now : String)
    (j : ℕ) (t : KeeperStep)
    → is_complete (mark_complete file id step hash now) j t
      ≡ ((id == j && step_eq step t) || is_complete file j t)
unfolding is_complete mark_complete plan_checkpoint_step checkpoint_has_step
is_complete-mark_complete file id step hash now j t =
    rw (get-put ◌==◌ ==_iff) (elim (Bool-cases (id == j)) [
      | inl e ↦
          let same : id ≡ j = (==_iff id j).0 e in
          rw
            (
              e,
              same,
              includes-push_step (steps_of (get ◌==◌ file.rounds j)) step t,
              includes-steps_of (get ◌==◌ file.rounds j) t,
            )
            refl
      | inr e ↦ rw e refl
    ])
