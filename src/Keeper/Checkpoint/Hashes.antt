-- ===== src/Keeper/Checkpoint/Hashes.antt =====
-- The hash verification of services/keeper/src/checkpoint.ts: the verifyHashes method of the store.
use sub_rosa_issue.Prelude.{
  ℕ, ◌≡◌, refl, ◌∙◌, ap, Bool, true, false, not, ◌&&◌, ◌||◌, Option, none, some, Bool-cases, List,
  [], ◌∷◌, ◌++◌, String, if◌then◌else◌, ◌==◌, arith, map, ap₂, inl, inr,
}
use sub_rosa_issue.Keeper.Checkpoint.{
  KeeperStep, KeeperCheckpoint, KeeperCheckpointFile, step_eq, is_complete,
  plan_checkpoint_rollback,
}
use sub_rosa_issue.Keeper.Checkpoint.Rollbacks.{is_complete-rollback}

pub data TransactionHashStatus : Type 0 where
  confirmed : TransactionHashStatus
  failed : TransactionHashStatus
  missing : TransactionHashStatus

pub record CheckpointVerification : Type 0 where
  pub round_id : ℕ
  pub step : KeeperStep
  pub transaction_hash : String
  pub status : TransactionHashStatus
  pub retained : Bool

-- The verifier is the caller's; `none` is a lookup that rejects.
abbrev pub Verifier : Type 0
Verifier = String → Option TransactionHashStatus

abbrev pub is_confirmed : TransactionHashStatus → Bool
is_confirmed confirmed = true
is_confirmed failed = false
is_confirmed missing = false

-- One recorded hash. A lookup that rejects keeps the step.
unfoldable pub verification : Verifier → ℕ → KeeperStep × String → CheckpointVerification
verification verify id e = elim (verify e.1) [
  | none ↦ record {
    round_id = id;
    step = e.0;
    transaction_hash = e.1;
    status = missing;
    retained = true;
  }
  | some s ↦ record {
    round_id = id;
    step = e.0;
    transaction_hash = e.1;
    status = s;
    retained = is_confirmed s;
  }
]

-- The body of the inner loop: the result is reported, and a step that is not retained rolled back.
unfoldable pub apply_verification :
    KeeperCheckpointFile → CheckpointVerification → KeeperCheckpointFile
apply_verification file v =
    if v.retained then file else plan_checkpoint_rollback file v.round_id v.step

unfoldable pub verify_entry :
    Verifier
    → ℕ
    → List (KeeperStep × String)
    → KeeperCheckpointFile
    → KeeperCheckpointFile × List CheckpointVerification
verify_entry verify id [] file = (file, [])
verify_entry verify id (e ∷ es) file =
    let v = verification verify id e in
    let rest = verify_entry verify id es (apply_verification file v) in (rest.0, v ∷ rest.1)

-- The outer loop goes over the rounds as they were when it began.
unfoldable pub verify_rounds :
    Verifier
    → List (ℕ × KeeperCheckpoint)
    → KeeperCheckpointFile
    → KeeperCheckpointFile × List CheckpointVerification
verify_rounds verify [] file = (file, [])
verify_rounds verify (r ∷ rs) file =
    let here = verify_entry verify (r.0) ((r.1).step_hashes) file in
    let rest = verify_rounds verify rs (here.0) in (rest.0, here.1 ++ rest.1)

-- Without a verifier nothing is looked up and nothing changes.
unfoldable pub verify_hashes :
    Option Verifier → KeeperCheckpointFile → KeeperCheckpointFile × List CheckpointVerification
verify_hashes none file = (file, [])
verify_hashes (some verify) file = verify_rounds verify file.rounds file

-- Some result of the list did not retain the step `t` of round `j`.
unfoldable pub rejects : List CheckpointVerification → ℕ → KeeperStep → Bool
rejects [] j t = false
rejects (v ∷ vs) j t = (not v.retained && (v.round_id == j && step_eq v.step t)) || rejects vs j t

pub rejects-append :
    (vs ws : List CheckpointVerification) (j : ℕ) (t : KeeperStep)
    → rejects (vs ++ ws) j t ≡ (rejects vs j t || rejects ws j t)
unfolding rejects
rejects-append [] ws j t = refl
rejects-append (v ∷ vs) ws j t = rw (rejects-append vs ws j t) (ground arith)

is_complete-apply :
    (file : KeeperCheckpointFile) (v : CheckpointVerification) (j : ℕ) (t : KeeperStep)
    → is_complete (apply_verification file v) j t
      ≡ (is_complete file j t && not (not v.retained && (v.round_id == j && step_eq v.step t)))
unfolding apply_verification
is_complete-apply file v j t = elim (Bool-cases v.retained) [
  | inl e ↦ rw e (ground arith)
  | inr e ↦ rw (e, is_complete-rollback file v.round_id v.step j t) (ground arith)
]

module _ (verify : Verifier) (j : ℕ) (t : KeeperStep) where
  is_complete-verify_entry :
      (id : ℕ) (es : List (KeeperStep × String)) (file : KeeperCheckpointFile)
      → is_complete (verify_entry verify id es file).0 j t
        ≡ (is_complete file j t && not (rejects (verify_entry verify id es file).1 j t))
  unfolding verify_entry rejects
  is_complete-verify_entry id [] file = ground arith
  is_complete-verify_entry id (e ∷ es) file =
      let v = verification verify id e in
      let ih = is_complete-verify_entry id es (apply_verification file v) in
      let one = is_complete-apply file v j t in rw (ih, one) (ground arith)

  is_complete-verify_rounds :
      (rs : List (ℕ × KeeperCheckpoint)) (file : KeeperCheckpointFile)
      → is_complete (verify_rounds verify rs file).0 j t
        ≡ (is_complete file j t && not (rejects (verify_rounds verify rs file).1 j t))
  unfolding verify_rounds rejects
  is_complete-verify_rounds [] file = ground arith
  is_complete-verify_rounds (r ∷ rs) file =
      let here = verify_entry verify (r.0) ((r.1).step_hashes) file in
      let ih = is_complete-verify_rounds rs (here.0) in
      let one = is_complete-verify_entry (r.0) ((r.1).step_hashes) file in
      rw (ih, one, rejects-append here.1 (verify_rounds verify rs (here.0)).1 j t) (ground arith)

-- What the verifier says of each recorded hash, in the order of the file.
unfoldable pub expected : Verifier → List (ℕ × KeeperCheckpoint) → List CheckpointVerification
expected verify [] = []
expected verify (r ∷ rs) = map (verification verify (r.0)) (r.1).step_hashes ++ expected verify rs

reported_entry :
    (verify : Verifier) (id : ℕ) (es : List (KeeperStep × String)) (file : KeeperCheckpointFile)
    → (verify_entry verify id es file).1 ≡ map (verification verify id) es
unfolding verify_entry
reported_entry verify id [] file = refl
reported_entry verify id (e ∷ es) file =
    ap (◌∷◌ (verification verify id e))
      (reported_entry verify id es (apply_verification file (verification verify id e)))

reported_rounds :
    (verify : Verifier) (rs : List (ℕ × KeeperCheckpoint)) (file : KeeperCheckpointFile)
    → (verify_rounds verify rs file).1 ≡ expected verify rs
unfolding verify_rounds expected
reported_rounds verify [] file = refl
reported_rounds verify (r ∷ rs) file =
    let here = verify_entry verify (r.0) ((r.1).step_hashes) file in
    ap₂ (λ a b. a ++ b) (reported_entry verify (r.0) ((r.1).step_hashes) file)
      (reported_rounds verify rs (here.0))

-- What verification does, by its own verdicts.
pub verify_hashes-rejects :
    (verify : Verifier) (file : KeeperCheckpointFile) (j : ℕ) (t : KeeperStep)
    → ((verify_hashes (some verify) file).1 ≡ expected verify file.rounds)
      × (is_complete (verify_hashes (some verify) file).0 j t
          ≡ (is_complete file j t && not (rejects (expected verify file.rounds) j t)))
unfolding verify_hashes
verify_hashes-rejects verify file j t =
    let r = reported_rounds verify file.rounds file in
    (
      r,
      is_complete-verify_rounds verify j t file.rounds file
          ∙ ap (λ l. is_complete file j t && not (rejects l j t)) r,
    )
