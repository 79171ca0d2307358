-- ===== src/Keeper/Checkpoint/Tests.antt =====
-- Runs of services/keeper/src/checkpoint.ts on a cursor of two rounds.
use sub_rosa_issue.Prelude.{
  ℕ, ◌≡◌, refl, false, not, ◌||◌, ◌&&◌, none, some, [], ◌∷◌, ◌==◌, if◌then◌else◌, str_eq, contains,
}
use sub_rosa_issue.Keeper.Checkpoint.{
  KeeperStep, reveal, settle, clear, KeeperCheckpointFile, empty_file, is_complete, mark_complete,
  plan_checkpoint_rollback, plan_checkpoint_step, push_step, step_satisfied_by_status,
  checkpoint_has_step, rolled_back, without, includes,
}
use sub_rosa_issue.Keeper.Checkpoint.Reconciles.{reconcile, hash_at, steps_where, unproved}
use sub_rosa_issue.Keeper.Checkpoint.Vouched.{vouched, reconcile_lem}
use sub_rosa_issue.Keeper.Checkpoint.Verdicts.{
  HashReport, recorded_hashes, disproved, verify_hashes_lem,
}
use sub_rosa_issue.Keeper.Checkpoint.Hashes.{
  Verifier, confirmed, failed, verify_hashes, verify_rounds, verify_entry, apply_verification,
  verification,
}
use sub_rosa_issue.Keeper.Checkpoint.Stored.{
  text, StoredFile, resumed, mismatch_network, mismatch_contract_id, load, save,
}
use sub_rosa_issue.Keeper.Checkpoint.Resume.{load-save}
use sub_rosa_issue.Keeper.Checkpoint.Sane.{Sane}
use sub_rosa_issue.Keeper.Checkpoint.Reach.{started, marked, verified, Sane-Reached}

abbrev fresh : KeeperCheckpointFile
fresh = empty_file "testnet" "CABC"

abbrev revealed : KeeperCheckpointFile
revealed = mark_complete fresh 7 reveal none "t1"

abbrev cursor : KeeperCheckpointFile
cursor =
    mark_complete (mark_complete revealed 7 settle (some "0xaa") "t2") 9 clear (some "0xbb") "t3"

-- The first hash is known, the second failed, and any other lookup rejects.
abbrev lookup : Verifier
lookup h = if str_eq h "0xaa" then some confirmed else if str_eq h "0xbb" then some failed else none

reconcile_run : (reconcile cursor 7 "Open").1 ≡ reveal ∷ []
unfolding reconcile mark_complete plan_checkpoint_step steps_where push_step includes unproved
    contains step_satisfied_by_status
reconcile_run = refl

verify_run : is_complete (verify_hashes (some lookup) cursor).0 9 clear ≡ false
unfolding verify_hashes mark_complete is_complete checkpoint_has_step verify_rounds
    plan_checkpoint_step verify_entry apply_verification verification plan_checkpoint_rollback
    rolled_back without includes push_step
verify_run = refl

reconcile_lem_example :
    (is_complete (reconcile cursor 7 "Open").0 7 reveal ≡ (
      is_complete cursor 7 reveal
      && (not (7 == 7) || vouched (hash_at cursor 7 reveal) "Open" reveal)))
    × (includes (reconcile cursor 7 "Open").1 reveal
        ≡ (is_complete cursor 7 reveal && not (vouched (hash_at cursor 7 reveal) "Open" reveal)))
reconcile_lem_example = reconcile_lem cursor 7 "Open" 7 reveal

verify_hashes_lem_example :
    HashReport lookup (recorded_hashes cursor.rounds) (verify_hashes (some lookup) cursor).1
    × (is_complete (verify_hashes (some lookup) cursor).0 9 clear ≡ (
        is_complete cursor 9 clear
        && not (disproved lookup (recorded_hashes cursor.rounds) 9 clear)))
verify_hashes_lem_example = verify_hashes_lem lookup cursor 9 clear

abbrev on_disk : StoredFile
on_disk = record {
  version = some 1;
  network = text "testnet";
  contract_id = text "CABC";
  rounds = some [];
}

version_kept : cursor.version ≡ 1
unfolding mark_complete plan_checkpoint_step
version_kept = refl

load-save_example :
    ((g : KeeperCheckpointFile) × (load cursor.network cursor.contract_id (save cursor) ≡ resumed g)
      × ((j : ℕ) (t : KeeperStep) → is_complete g j t ≡ is_complete cursor j t))
    × (¬ (cursor.network ≡ "public")
        → load "public" "CXYZ" (save cursor) ≡ mismatch_network (text cursor.network))
    × (¬ (cursor.contract_id ≡ "CXYZ")
        → load cursor.network "CXYZ" (save cursor) ≡ mismatch_contract_id (text cursor.contract_id))
load-save_example = load-save cursor "public" "CXYZ" version_kept

Sane-Reached_example : Sane (verify_hashes (some lookup) cursor).0.rounds
Sane-Reached_example = Sane-Reached (verify_hashes (some lookup) cursor).0 (
    verified cursor (some lookup) (
      marked (mark_complete revealed 7 settle (some "0xaa") "t2") 9 clear (some "0xbb") "t3" (
        marked revealed 7 settle (some "0xaa") "t2"
          (marked fresh 7 reveal none "t1" (started "testnet" "CABC")))))
