-- ===== src/Keeper/Startup.antt =====
-- `resumeCheckpoint` of services/keeper/src/watch-loop.ts: the check of the cursor when the watch loop
-- starts, on the file of the checkpoint. Each line of the log is kept as the data that it prints.
use sub_rosa_issue.Prelude.{
  ℕ, Option, none, some, List, [], ◌∷◌, ◌++◌, String, map, if◌then◌else◌, Bool,
}
use sub_rosa_issue.Keeper.Checkpoint.{KeeperStep, KeeperCheckpoint, KeeperCheckpointFile}
use sub_rosa_issue.Keeper.Checkpoint.Hashes.{Verifier, CheckpointVerification, verify_hashes}
use sub_rosa_issue.Keeper.Checkpoint.Reconciles.{reconcile}
use sub_rosa_issue.Keeper.Tick.Find.{sort_ids}
pub mod Cursor
pub mod Kept
mod Tests

-- The status that the chain tells of a round; `none` is a read that fails.
abbrev pub StatusReader : Type 0
StatusReader = ℕ → Option String

pub data ResumeLine : Type 0 where
  hash_checked : CheckpointVerification → ResumeLine
  unreadable : ℕ → ResumeLine
  retrying : ℕ → String → List KeeperStep → ResumeLine

abbrev pub round_ids : List (ℕ × KeeperCheckpoint) → List ℕ
round_ids [] = []
round_ids (r ∷ rs) = r.0 ∷ round_ids rs

abbrev pub list_round_ids : KeeperCheckpointFile → List ℕ
list_round_ids file = sort_ids (round_ids file.rounds)

abbrev pub dropped_line : ℕ → String → List KeeperStep → List ResumeLine
dropped_line id status [] = []
dropped_line id status (s ∷ ss) = retrying id status (s ∷ ss) ∷ []

-- The body of the loop over the rounds, on what the read of the round answers.
unfoldable pub resume_round :
    Option String → ℕ → KeeperCheckpointFile → KeeperCheckpointFile × List ResumeLine
resume_round none id file = (file, unreadable id ∷ [])
resume_round (some status) id file =
    let r = reconcile file id status in (r.0, dropped_line id status r.1)

unfoldable pub resume_rounds :
    StatusReader → List ℕ → KeeperCheckpointFile → KeeperCheckpointFile × List ResumeLine
resume_rounds read [] file = (file, [])
resume_rounds read (id ∷ ids) file =
    let here = resume_round (read id) id file in
    let rest = resume_rounds read ids (here.0) in (rest.0, here.1 ++ rest.1)

-- The file after it and the log, for a keeper that has a checkpoint.
unfoldable pub resume_checkpoint :
    Option Verifier → StatusReader → KeeperCheckpointFile → KeeperCheckpointFile × List ResumeLine
resume_checkpoint verify read file =
    let checked = verify_hashes verify file in
    let rest = resume_rounds read (list_round_ids (checked.0)) (checked.0) in
    (rest.0, map hash_checked (checked.1) ++ rest.1)
