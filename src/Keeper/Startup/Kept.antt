-- ===== src/Keeper/Startup/Kept.antt =====
-- The hashes that the check of services/keeper/src/checkpoint.ts at the start of the watch loop keeps.
use sub_rosa_issue.Prelude.{
  ℕ, ◌≡◌, refl, ◌∙◌, false, not, ◌&&◌, some, Option-cases, Bool-cases, List, [], ◌∷◌, String, ◌==◌,
  ==_iff, get, get-put, arith, inl, inr,
}
use sub_rosa_issue.Keeper.Checkpoint.{
  KeeperStep, KeeperCheckpoint, KeeperCheckpointFile, step_eq, includes, plan_checkpoint_rollback,
}
use sub_rosa_issue.Keeper.Checkpoint.Hashes.{
  Verifier, CheckpointVerification, verification, apply_verification, verify_entry, verify_rounds,
  verify_hashes, rejects, rejects-append,
}
use sub_rosa_issue.Keeper.Checkpoint.Reconciles.{hash_at, hash_at-rollback}

pub get-rollback :
    (file : KeeperCheckpointFile) (id : ℕ) (s : KeeperStep) (j : ℕ)
    → (id == j) ≡ false
    → get ◌==◌ (plan_checkpoint_rollback file id s).rounds j ≡ get ◌==◌ file.rounds j
unfolding plan_checkpoint_rollback
get-rollback file id s j ne = elim (Option-cases (get ◌==◌ file.rounds id)) [
  | inl n ↦ rw (n, plan_checkpoint_rollback) refl
  | inr q ↦ elim (Bool-cases (includes (q.0).completed_steps s)) [
    | inl y ↦ rw (q.1, plan_checkpoint_rollback, y, get-put ◌==◌ ==_iff, ne) refl
    | inr y ↦ rw (q.1, plan_checkpoint_rollback, y) refl
  ]
]

module _ (j : ℕ) (t : KeeperStep) where
  hash_at-other :
      (file : KeeperCheckpointFile) (id : ℕ) (s : KeeperStep)
      → (id == j && step_eq s t) ≡ false
      → hash_at (plan_checkpoint_rollback file id s) j t ≡ hash_at file j t
  hash_at-other file id s n = elim (Bool-cases (id == j)) [
    | inl y ↦ hash_at-rollback file id s j t (ground (arith, y, n))
    | inr e ↦ rw (get-rollback file id s j e) refl
  ]

  hash_at-apply :
      (file : KeeperCheckpointFile) (v : CheckpointVerification)
      → (not v.retained && (v.round_id == j && step_eq v.step t)) ≡ false
      → hash_at (apply_verification file v) j t ≡ hash_at file j t
  unfolding apply_verification
  hash_at-apply file v n = elim (Bool-cases v.retained) [
    | inl y ↦ rw y refl
    | inr e ↦ rw e (hash_at-other file v.round_id v.step (ground (arith, e, n)))
  ]

  module _ (verify : Verifier) where
    hash_at-verify_entry :
        (id : ℕ) (es : List (KeeperStep × String)) (file : KeeperCheckpointFile)
        → rejects (verify_entry verify id es file).1 j t ≡ false
        → hash_at (verify_entry verify id es file).0 j t ≡ hash_at file j t
    unfolding verify_entry rejects
    hash_at-verify_entry id [] file n = refl
    hash_at-verify_entry id (e ∷ es) file n =
        let v = verification verify id e in
        hash_at-verify_entry id es (apply_verification file v) (ground (arith, n))
        ∙ hash_at-apply file v (ground (arith, n))

    hash_at-verify_rounds :
        (rs : List (ℕ × KeeperCheckpoint)) (file : KeeperCheckpointFile)
        → rejects (verify_rounds verify rs file).1 j t ≡ false
        → hash_at (verify_rounds verify rs file).0 j t ≡ hash_at file j t
    unfolding verify_rounds rejects
    hash_at-verify_rounds [] file n = refl
    hash_at-verify_rounds (r ∷ rs) file n =
        let here = verify_entry verify (r.0) ((r.1).step_hashes) file in
        let parts = rejects-append here.1 (verify_rounds verify rs (here.0)).1 j t in
        hash_at-verify_rounds rs (here.0) (ground (arith, n, parts))
        ∙ hash_at-verify_entry (r.0) ((r.1).step_hashes) file (ground (arith, n, parts))

    pub hash_at-verify_hashes :
        (file : KeeperCheckpointFile)
        → rejects (verify_hashes (some verify) file).1 j t ≡ false
        → hash_at (verify_hashes (some verify) file).0 j t ≡ hash_at file j t
    unfolding verify_hashes
    hash_at-verify_hashes file n = hash_at-verify_rounds file.rounds file n
