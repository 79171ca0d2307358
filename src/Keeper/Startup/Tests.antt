-- ===== src/Keeper/Startup/Tests.antt =====
-- Runs of `resumeCheckpoint` of services/keeper/src/watch-loop.ts on a cursor of three rounds.
use sub_rosa_issue.Prelude.{
  ◌≡◌, refl, true, false, not, ◌&&◌, none, some, List, ◌==◌, if◌then◌else◌, contains,
}
use sub_rosa_issue.Keeper.Checkpoint.{
  reveal, settle, clear, KeeperCheckpointFile, empty_file, is_complete, mark_complete,
  plan_checkpoint_rollback, plan_checkpoint_step, push_step, step_satisfied_by_status,
  checkpoint_has_step, rolled_back, without, includes,
}
use sub_rosa_issue.Keeper.Checkpoint.Hashes.{
  Verifier, failed, verify_hashes, verify_rounds, verify_entry, apply_verification, verification,
}
use sub_rosa_issue.Keeper.Checkpoint.Reconciles.{
  hash_at, reconcile, steps_where, unproved, roll_back_all,
}
use sub_rosa_issue.Keeper.Tick.Find.{sort_ids, insert_id}
use sub_rosa_issue.Keeper.Startup.{
  StatusReader, ResumeLine, resume_round, resume_rounds, resume_checkpoint,
}
use sub_rosa_issue.Keeper.Startup.Cursor.{is_disproved, is_kept, resume_checkpoint_lem}

abbrev cursor : KeeperCheckpointFile
cursor =
    mark_complete
      (mark_complete (mark_complete (empty_file "testnet" "CABC") 9 reveal none "t1") 7 clear none
        "t2")
      8 settle (some "0xbb") "t3"

-- The hash failed.
abbrev lookup : Verifier
lookup h = some failed

-- Round 7 is still open, round 9 cannot be read.
abbrev chain : StatusReader
chain id = if id == 7 then some "Open" else if id == 8 then some "Cleared" else none

abbrev after : KeeperCheckpointFile × List ResumeLine
after = resume_checkpoint (some lookup) chain cursor

dropped_run : is_complete after.0 7 clear ≡ false
unfolding resume_checkpoint resume_rounds resume_round sort_ids insert_id mark_complete
    plan_checkpoint_step push_step verify_hashes verify_rounds verify_entry apply_verification
    verification reconcile steps_where unproved roll_back_all plan_checkpoint_rollback rolled_back
    without includes step_satisfied_by_status is_complete checkpoint_has_step contains
dropped_run = refl

kept_run : is_complete after.0 9 reveal ≡ true
unfolding resume_checkpoint resume_rounds resume_round sort_ids insert_id mark_complete
    plan_checkpoint_step push_step verify_hashes verify_rounds verify_entry apply_verification
    verification reconcile steps_where unproved roll_back_all plan_checkpoint_rollback rolled_back
    without includes step_satisfied_by_status is_complete checkpoint_has_step contains
kept_run = refl

unconfirmed_run : is_complete after.0 8 settle ≡ false
unfolding resume_checkpoint resume_rounds resume_round sort_ids insert_id mark_complete
    plan_checkpoint_step push_step verify_hashes verify_rounds verify_entry apply_verification
    verification reconcile steps_where unproved roll_back_all plan_checkpoint_rollback rolled_back
    without includes step_satisfied_by_status is_complete checkpoint_has_step contains
unconfirmed_run = refl

resume_checkpoint_lem_example :
    is_complete (resume_checkpoint (some lookup) chain cursor).0 7 clear ≡ (
      is_complete cursor 7 clear
      && (not (is_disproved (some lookup) cursor 7 clear)
          && is_kept (some "Open") (hash_at cursor 7 clear) clear))
resume_checkpoint_lem_example = resume_checkpoint_lem (some lookup) chain cursor 7 clear
