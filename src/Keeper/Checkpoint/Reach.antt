-- ===== src/Keeper/Checkpoint/Reach.antt =====
-- The runs of the store of services/keeper/src/checkpoint.ts, from an empty file on.
use sub_rosa_issue.Prelude.{ℕ, Bool-cases, Option, none, some, List, [], ◌∷◌, String, inl, inr}
use sub_rosa_issue.Keeper.Checkpoint.{
  KeeperStep, KeeperCheckpoint, KeeperCheckpointFile, empty_file, mark_complete,
  plan_checkpoint_rollback,
}
use sub_rosa_issue.Keeper.Checkpoint.Reconciles.{reconcile, roll_back_all, rolled-reconcile}
use sub_rosa_issue.Keeper.Checkpoint.Hashes.{
  Verifier, CheckpointVerification, verification, apply_verification, verify_entry, verify_rounds,
  verify_hashes,
}
use sub_rosa_issue.Keeper.Checkpoint.Sane.{Sane, Sane-mark_complete, Sane-rollback}

-- A file that a process reaches by the store's operations, in any order.
pub data Reached : KeeperCheckpointFile → Type 0 where
  started : (network contract_id : String) → Reached (empty_file network contract_id)
  marked :
      (f : KeeperCheckpointFile) (id : ℕ) (s : KeeperStep) (h : Option String) (now : String)
      → Reached f
      → Reached (mark_complete f id s h now)
  reconciled :
      (f : KeeperCheckpointFile) (id : ℕ) (status : String)
      → Reached f
      → Reached ((reconcile f id status).0)
  verified :
      (f : KeeperCheckpointFile) (v : Option Verifier) → Reached f → Reached ((verify_hashes v f).0)

Sane-roll_back_all :
    (f : KeeperCheckpointFile) (id : ℕ) (ss : List KeeperStep)
    → Sane f.rounds
    → Sane (roll_back_all f id ss).rounds
unfolding roll_back_all
Sane-roll_back_all f id [] a = a
Sane-roll_back_all f id (s ∷ ss) a =
    Sane-roll_back_all (plan_checkpoint_rollback f id s) id ss (Sane-rollback f id s a)

Sane-apply :
    (f : KeeperCheckpointFile) (v : CheckpointVerification)
    → Sane f.rounds
    → Sane (apply_verification f v).rounds
unfolding apply_verification
Sane-apply f v a = elim (Bool-cases v.retained) [
  | inl e ↦ rw e a
  | inr e ↦ rw e (Sane-rollback f v.round_id v.step a)
]

module _ (verify : Verifier) where
  Sane-verify_entry :
      (id : ℕ) (es : List (KeeperStep × String)) (f : KeeperCheckpointFile)
      → Sane f.rounds
      → Sane (verify_entry verify id es f).0.rounds
  unfolding verify_entry
  Sane-verify_entry id [] f a = a
  Sane-verify_entry id (e ∷ es) f a =
      let v = verification verify id e in
      Sane-verify_entry id es (apply_verification f v) (Sane-apply f v a)

  Sane-verify_rounds :
      (rs : List (ℕ × KeeperCheckpoint)) (f : KeeperCheckpointFile)
      → Sane f.rounds
      → Sane (verify_rounds verify rs f).0.rounds
  unfolding verify_rounds
  Sane-verify_rounds [] f a = a
  Sane-verify_rounds (r ∷ rs) f a =
      Sane-verify_rounds rs ((verify_entry verify (r.0) ((r.1).step_hashes) f).0)
        (Sane-verify_entry (r.0) ((r.1).step_hashes) f a)

-- In every file that the store reaches from an empty one, by marking, reconciling and verifying in
-- any order, no round records a step twice, and every recorded hash belongs to a recorded step.
pub Sane-Reached : (f : KeeperCheckpointFile) → Reached f → Sane f.rounds
unfolding verify_hashes
Sane-Reached f (started n c) = tt
Sane-Reached f (marked g id s h now r) = Sane-mark_complete g id s h now (Sane-Reached g r)
Sane-Reached f (reconciled g id status r) =
    rw (rolled-reconcile g id status)
      (Sane-roll_back_all g id (reconcile g id status).1 (Sane-Reached g r))
Sane-Reached f (verified g none r) = Sane-Reached g r
Sane-Reached f (verified g (some v) r) = Sane-verify_rounds v g.rounds g (Sane-Reached g r)
