-- ===== src/Keeper/Queue/Tests.antt =====
-- A queue of services/keeper/src/queue.ts that takes one round to its end.
use sub_rosa_issue.Prelude.{◌≡◌, refl, true, false, none, some}
use sub_rosa_issue.Keeper.Store.{WatchedRound, RoundUpdate, empty_store, no_update, in_flight}
use sub_rosa_issue.Keeper.Store.Rounds.{
  add_round, update_round, get_round, merge, blank_round, sort_rounds,
}
use sub_rosa_issue.Keeper.Queue.{
  KeeperQueue, KeeperQueueOptions, has, insert, new_queue, sync_with_store, sync_rounds,
  is_terminal_status, enqueue, claim, claim_next, complete,
}
use sub_rosa_issue.Keeper.Queue.Apart.{Reached, started, enqueued, claimed, Apart, Apart-Reached}
use sub_rosa_issue.Keeper.Queue.Handoff.{complete_terminal-sync, ended}

abbrev options : KeeperQueueOptions
options = record { contract_id = some "CABC"; network = none }

abbrev waiting : KeeperQueue
waiting = (enqueue (new_queue options empty_store) 7 no_update).0

abbrev working : KeeperQueue
working = (claim waiting).0

abbrev settled : RoundUpdate
settled = record no_update { last_status = some "Settled" }

waiting-Reached : Reached waiting
waiting-Reached =
    enqueued (new_queue options empty_store) 7 no_update (started options empty_store (tt, tt))

working-Reached : Reached working
working-Reached = claimed waiting waiting-Reached

Apart-Reached_example : Apart working
Apart-Reached_example = Apart-Reached working working-Reached

abbrev worked : WatchedRound
worked = record (blank_round 7) { queue_status = some in_flight }

flying : has working.in_flight_round_ids 7 ≡ true
unfolding claim claim_next enqueue new_queue sync_with_store sync_rounds add_round get_round merge
    has insert sort_rounds is_terminal_status
flying = refl

stored : get_round working.store 7 ≡ some worked
unfolding claim claim_next enqueue new_queue sync_with_store sync_rounds add_round get_round merge
    has insert sort_rounds update_round is_terminal_status
stored = refl

ends : is_terminal_status "Settled" ≡ true
unfolding is_terminal_status
ends = refl

complete_terminal-sync_example :
    (has (complete working 7 settled).queued_round_ids 7 ≡ false)
    × (has (complete working 7 settled).in_flight_round_ids 7 ≡ false)
    × (get_round (complete working 7 settled).store 7 ≡ some (merge 7 worked (ended settled)))
    × (has (sync_with_store (complete working 7 settled)).queued_round_ids 7 ≡ false)
    × (has (sync_with_store (complete working 7 settled)).in_flight_round_ids 7 ≡ false)
complete_terminal-sync_example =
    complete_terminal-sync working 7 settled "Settled" worked working-Reached flying stored refl
      ends
