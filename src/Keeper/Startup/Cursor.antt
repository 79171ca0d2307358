-- ===== src/Keeper/Startup/Cursor.antt =====
-- What is left of the cursor after `resumeCheckpoint` of services/keeper/src/watch-loop.ts.
use sub_rosa_issue.Prelude.{
  ℕ, ◌≡◌, refl, ap, ◌∙◌, Bool, true, false, not, ◌&&◌, ◌||◌, Option, none, some, Bool-cases, List,
  [], ◌∷◌, String, ◌==◌, ==_iff, ==_refl, subst, get, arith, inl, inr,
}
use sub_rosa_issue.Keeper.Checkpoint.{
  KeeperStep, KeeperCheckpoint, KeeperCheckpointFile, includes, is_complete, checkpoint_has_step,
  plan_checkpoint_rollback,
}
use sub_rosa_issue.Keeper.Checkpoint.Hashes.{
  Verifier, verify_hashes, rejects, verify_hashes-rejects,
}
use sub_rosa_issue.Keeper.Checkpoint.Vouched.{vouched, refuted-vouched}
use sub_rosa_issue.Keeper.Checkpoint.Verdicts.{disproved, recorded_hashes, rejects-disproved}
use sub_rosa_issue.Keeper.Startup.Kept.{get-rollback, hash_at-verify_hashes}
use sub_rosa_issue.Keeper.Checkpoint.Reconciles.{
  hash_at, unproved, roll_back_all, reconcile, refuted, reconcile-refuted, rolled-reconcile,
  hash_at-roll_back_all,
}
use sub_rosa_issue.Keeper.Tick.Find.{member}
use sub_rosa_issue.Keeper.Tick.Find.Ids.{member-sort_ids}
use sub_rosa_issue.Keeper.Startup.{
  StatusReader, round_ids, list_round_ids, resume_round, resume_rounds, resume_checkpoint,
}

-- The chain was read, and its status refutes the step.
abbrev pub refuted_by : Option String → KeeperCheckpointFile → ℕ → KeeperStep → Bool
refuted_by none file id s = false
refuted_by (some status) file id s = refuted file status id s

get-roll_back_all :
    (file : KeeperCheckpointFile) (id : ℕ) (ss : List KeeperStep) (j : ℕ)
    → (id == j) ≡ false
    → get ◌==◌ (roll_back_all file id ss).rounds j ≡ get ◌==◌ file.rounds j
unfolding roll_back_all
get-roll_back_all file id [] j ne = refl
get-roll_back_all file id (s ∷ ss) j ne =
    get-roll_back_all (plan_checkpoint_rollback file id s) id ss j ne ∙ get-rollback file id s j ne

module _ (file : KeeperCheckpointFile) (id : ℕ) (status : String) (t : KeeperStep) where
  -- Reconciling a round leaves what refutes a step of another round, and of a step that it keeps.
  refuted-other :
      (seen : String) (j : ℕ)
      → (id == j) ≡ false
      → refuted (reconcile file id status).0 seen j t ≡ refuted file seen j t
  refuted-other seen j ne =
      rw
        (
          rolled-reconcile file id status,
          get-roll_back_all file id (reconcile file id status).1 j ne,
        )
        refl

  refuted-kept :
      includes (reconcile file id status).1 t ≡ false
      → refuted (reconcile file id status).0 status id t ≡ refuted file status id t
  unfolding unproved
  refuted-kept n =
      rw
        (
          rolled-reconcile file id status,
          hash_at-roll_back_all file id (reconcile file id status).1 id t n,
        )
        refl

module _ (file : KeeperCheckpointFile) (id : ℕ) (status : String) (t : KeeperStep) where
  refuted_by-other :
      (seen : Option String) (j : ℕ)
      → (id == j) ≡ false
      → refuted_by seen (reconcile file id status).0 j t ≡ refuted_by seen file j t
  refuted_by-other none j ne = refl
  refuted_by-other (some seen) j ne = refuted-other file id status t seen j ne

  -- The round that was reconciled has nothing to drop any more.
  settled_same :
      (m : Bool)
      → (is_complete (reconcile file id status).0 id t
          && not (m && refuted (reconcile file id status).0 status id t))
        ≡ (is_complete file id t && not (refuted file status id t))
  settled_same m =
      let first = reconcile-refuted file id status id t in
      let same = ==_refl id in
      elim (Bool-cases (includes (reconcile file id status).1 t)) [
        | inl y ↦ ground (arith, first, same, y)
        | inr y ↦
            let kept = refuted-kept file id status t y in rw kept (ground (arith, first, same, y))
      ]

  settled_other :
      (seen : Option String) (j : ℕ) (m : Bool)
      → (id == j) ≡ false
      → (is_complete (reconcile file id status).0 j t
          && not (m && refuted_by seen (reconcile file id status).0 j t))
        ≡ (is_complete file j t && not (m && refuted_by seen file j t))
  settled_other seen j m ne =
      let first = reconcile-refuted file id status j t in
      rw (refuted_by-other seen j ne, first.0, ne) (ground arith)

round_same :
    (o : Option String) (file : KeeperCheckpointFile) (id : ℕ) (t : KeeperStep) (m : Bool)
    → (is_complete (resume_round o id file).0 id t
        && not (m && refuted_by o (resume_round o id file).0 id t))
      ≡ (is_complete file id t && not (refuted_by o file id t))
unfolding resume_round
round_same none file id t m = ground arith
round_same (some status) file id t m = settled_same file id status t m

round_other :
    (o seen : Option String) (file : KeeperCheckpointFile) (id j : ℕ) (t : KeeperStep) (m : Bool)
    → (id == j) ≡ false
    → (is_complete (resume_round o id file).0 j t
        && not (m && refuted_by seen (resume_round o id file).0 j t))
      ≡ (is_complete file j t && not (m && refuted_by seen file j t))
unfolding resume_round
round_other none seen file id j t m ne = refl
round_other (some status) seen file id j t m ne = settled_other file id status t seen j m ne

resume_round_lem :
    (read : StatusReader) (file : KeeperCheckpointFile) (id j : ℕ) (t : KeeperStep) (m : Bool)
    → (is_complete (resume_round (read id) id file).0 j t
        && not (m && refuted_by (read j) (resume_round (read id) id file).0 j t))
      ≡ (is_complete file j t && not ((j == id || m) && refuted_by (read j) file j t))
resume_round_lem read file id j t m = elim (Bool-cases (id == j)) [
  | inl y ↦
      let same : id ≡ j = (==_iff id j).0 y in
      subst
        (λ k.
          (is_complete (resume_round (read id) id file).0 k t
            && not (m && refuted_by (read k) (resume_round (read id) id file).0 k t))
          ≡ (is_complete file k t && not ((k == id || m) && refuted_by (read k) file k t)))
        same (rw (==_refl id) (round_same (read id) file id t m))
  | inr n ↦
      let differs : (j == id) ≡ false = ground (arith, n) in
      rw differs (round_other (read id) (read j) file id j t m n)
]

module _ (read : StatusReader) (j : ℕ) (t : KeeperStep) where
  resume_rounds_lem :
      (ids : List ℕ) (file : KeeperCheckpointFile)
      → is_complete (resume_rounds read ids file).0 j t
        ≡ (is_complete file j t && not (member j ids && refuted_by (read j) file j t))
  unfolding resume_rounds member
  resume_rounds_lem [] file = ground arith
  resume_rounds_lem (id ∷ ids) file =
      resume_rounds_lem ids ((resume_round (read id) id file).0)
      ∙ resume_round_lem read file id j t (member j ids)

complete_member :
    (rounds : List (ℕ × KeeperCheckpoint)) (j : ℕ) (t : KeeperStep)
    → checkpoint_has_step (get ◌==◌ rounds j) t ≡ true
    → member j (round_ids rounds) ≡ true
unfolding member checkpoint_has_step
complete_member [] j t h = let stuck : false ≡ true = h in cc stuck
complete_member (r ∷ rs) j t h = elim (Bool-cases (j == (r.0))) [
  | inl y ↦ rw y refl
  | inr n ↦
      let other : ((r.0) == j) ≡ false = ground (arith, n) in
      let rest = rw other at h in rw n (complete_member rs j t rest)
]

listed_member :
    (file : KeeperCheckpointFile) (j : ℕ) (t : KeeperStep)
    → is_complete file j t ≡ true
    → member j (list_round_ids file) ≡ true
unfolding is_complete
listed_member file j t h =
    rw (member-sort_ids j (round_ids file.rounds)) (complete_member file.rounds j t h)

resume_checkpoint-checked :
    (verify : Option Verifier) (read : StatusReader) (file : KeeperCheckpointFile) (j : ℕ)
    (t : KeeperStep)
    → is_complete (resume_checkpoint verify read file).0 j t ≡ (
        is_complete (verify_hashes verify file).0 j t
        && not (refuted_by (read j) ((verify_hashes verify file).0) j t))
unfolding resume_checkpoint
resume_checkpoint-checked verify read file j t =
    let checked = (verify_hashes verify file).0 in
    let all = resume_rounds_lem read j t (list_round_ids checked) checked in
    elim (Bool-cases (is_complete checked j t)) [
      | inl y ↦ let listed = listed_member checked j t y in ground (arith, all, y, listed)
      | inr n ↦ ground (arith, all, n)
    ]

-- The lookups of recorded hashes, if the keeper can look up a hash, speak against the step.
abbrev pub is_disproved : Option Verifier → KeeperCheckpointFile → ℕ → KeeperStep → Bool
is_disproved none file j t = false
is_disproved (some verify) file j t = disproved verify (recorded_hashes file.rounds) j t

-- The round cannot be read, or a hash or the status vouches for the step.
abbrev pub is_kept : Option String → Option String → KeeperStep → Bool
is_kept none hash t = true
is_kept (some status) hash t = vouched hash status t

refuted_by-is_kept :
    (o : Option String) (file : KeeperCheckpointFile) (j : ℕ) (t : KeeperStep)
    → refuted_by o file j t ≡ not (is_kept o (hash_at file j t) t)
refuted_by-is_kept none file j t = refl
refuted_by-is_kept (some status) file j t = refuted-vouched file status j t

checked_lem :
    (verify : Option Verifier) (o : Option String) (file : KeeperCheckpointFile) (j : ℕ)
    (t : KeeperStep)
    → (is_complete (verify_hashes verify file).0 j t
        && not (refuted_by o ((verify_hashes verify file).0) j t))
      ≡ (is_complete file j t
          && (not (is_disproved verify file j t) && is_kept o (hash_at file j t) t))
unfolding verify_hashes
checked_lem none o file j t = rw (refuted_by-is_kept o file j t) (ground arith)
checked_lem (some verify) o file j t =
    let (reports, left) = verify_hashes-rejects verify file j t in
    let against = rejects-disproved verify j t file.rounds in
    elim (Bool-cases (disproved verify (recorded_hashes file.rounds) j t)) [
      | inl y ↦ rw (left, against, y) (ground arith)
      | inr n ↦
          let quiet = ap (λ vs. rejects vs j t) reports ∙ against ∙ n in
          rw
            (
              left,
              against,
              n,
              refuted_by-is_kept o ((verify_hashes (some verify) file).0) j t,
              hash_at-verify_hashes j t verify file quiet,
            )
            (ground arith)
    ]

-- When the watch loop starts, a step of a round stays complete in the cursor exactly if it was complete,
-- no lookup of a hash that is recorded for it finds the transaction failed or missing, and either the
-- round cannot be read, or a hash is recorded for the step, or the status that is read is one that the
-- round reaches by this step or after it. So a round that cannot be read loses no step by the
-- reconciliation, and no round is left out.
pub resume_checkpoint_lem :
    (verify : Option Verifier) (read : StatusReader) (file : KeeperCheckpointFile) (j : ℕ)
    (t : KeeperStep)
    → is_complete (resume_checkpoint verify read file).0 j t ≡ (
        is_complete file j t
        && (not (is_disproved verify file j t) && is_kept (read j) (hash_at file j t) t))
resume_checkpoint_lem verify read file j t =
    resume_checkpoint-checked verify read file j t ∙ checked_lem verify (read j) file j t
