-- ===== src/Keeper/Queue.antt =====
-- services/keeper/src/queue.ts: the rounds that wait, those in flight, and the store they are kept in.
-- A Set is a list without repeats, in the order of insertion.
use sub_rosa_issue.Prelude.{
  ℕ, Bool, true, false, not, ◌&&◌, ◌||◌, Option, none, some, List, [], ◌∷◌, ◌++◌, String, str_eq,
  if◌then◌else◌, ◌==◌,
}
use sub_rosa_issue.Keeper.Store.{
  QueueStatus, queued, in_flight, terminal, WatchedRound, RoundUpdate, Store, no_update,
}
use sub_rosa_issue.Keeper.Store.Rounds.{add_round, update_round, get_round, list_rounds}
mod Sets
mod Kept
mod Apart
mod Sync
mod Handoff
mod Tests

unfoldable pub has : List ℕ → ℕ → Bool
has [] a = false
has (x ∷ xs) a = x == a || has xs a

unfoldable pub insert : List ℕ → ℕ → List ℕ
insert xs a = if has xs a then xs else xs ++ a ∷ []

unfoldable pub erase : List ℕ → ℕ → List ℕ
erase [] a = []
erase (x ∷ xs) a = let rest = erase xs a in if x == a then rest else x ∷ rest

pub record KeeperQueueOptions : Type 0 where
  pub contract_id : Option String
  pub network : Option String

pub record KeeperQueue : Type 0 where
  pub options : KeeperQueueOptions
  pub store : Store
  pub queued_round_ids : List ℕ
  pub in_flight_round_ids : List ℕ
  pub stopping : Bool

-- `a && b && a !== b`, on texts that may be absent or empty.
abbrev pub differs : Option String → Option String → Bool
differs (some a) (some b) = not (str_eq a "") && (not (str_eq b "") && not (str_eq a b))
differs (some a) none = false
differs none b = false

unfoldable pub is_terminal_status : String → Bool
is_terminal_status s = str_eq s "Settled" || str_eq s "Voided"

abbrev pub is_terminal_update : Option String → Bool
is_terminal_update none = false
is_terminal_update (some s) = is_terminal_status s

-- The three guards of the loop in syncWithStore that ask only about the round.
unfoldable pub eligible : KeeperQueueOptions → WatchedRound → Bool
eligible o r =
    not (differs o.contract_id r.contract_id)
    && (not (differs o.network r.network) && not (is_terminal_status r.last_status))

-- One round of that loop. A round in flight is not queued again.
unfoldable pub sync_round : KeeperQueue → WatchedRound → KeeperQueue
sync_round q r =
    if eligible q.options r && not (has q.in_flight_round_ids r.round_id)
    then record q { queued_round_ids = insert q.queued_round_ids r.round_id }
    else q

unfoldable pub sync_rounds : KeeperQueue → List WatchedRound → KeeperQueue
sync_rounds q [] = q
sync_rounds q (r ∷ rs) = sync_rounds (sync_round q r) rs

unfoldable pub sync_with_store : KeeperQueue → KeeperQueue
sync_with_store q = sync_rounds q (list_rounds q.store)

abbrev pub blank_queue : KeeperQueueOptions → Store → KeeperQueue
blank_queue options store = record {
  options = options;
  store = store;
  queued_round_ids = [];
  in_flight_round_ids = [];
  stopping = false;
}

unfoldable pub new_queue : KeeperQueueOptions → Store → KeeperQueue
new_queue options store = sync_with_store (blank_queue options store)

abbrev pub status_or_unknown : Option WatchedRound → String
status_or_unknown none = "Unknown"
status_or_unknown (some r) = r.last_status

unfoldable pub enqueue : KeeperQueue → ℕ → RoundUpdate → KeeperQueue × Option WatchedRound
enqueue q id extra =
    let status = if has q.in_flight_round_ids id then in_flight else queued in
    let store = add_round q.store id (record extra { queue_status = some (some status) }) in
    let round = get_round store id in
    (
      if is_terminal_status (status_or_unknown round)
          then record q { store = store }
          else if has q.in_flight_round_ids id
          then record q { store = store }
          else record q { store = store; queued_round_ids = insert q.queued_round_ids id },
      round,
    )

-- The first queued round, moved in flight. A round that the store no longer has is moved too, and
-- then none is returned.
unfoldable pub claim_next : KeeperQueue → List ℕ → KeeperQueue × Option WatchedRound
claim_next q [] = (q, none)
claim_next q (id ∷ ids) =
    let store =
      update_round q.store id (record no_update { queue_status = some (some in_flight) }) in
    (
      record q {
        store = store;
        queued_round_ids = erase q.queued_round_ids id;
        in_flight_round_ids = insert q.in_flight_round_ids id;
      },
      get_round store id,
    )

unfoldable pub claim : KeeperQueue → KeeperQueue × Option WatchedRound
claim q = if q.stopping then (q, none) else claim_next q q.queued_round_ids

abbrev pub is_some {ℓ} : {A : Type ℓ} → Option A → Bool
is_some none = false
is_some (some a) = true

unfoldable pub complete : KeeperQueue → ℕ → RoundUpdate → KeeperQueue
complete q id update =
    let flight = erase q.in_flight_round_ids id in
    let is_terminal = is_terminal_update update.last_status in
    let status = if is_terminal then some terminal else if q.stopping then none else some queued in
    let store = update_round q.store id (record update { queue_status = some status }) in
    record q {
      store = store;
      in_flight_round_ids = flight;
      queued_round_ids =
          if is_some (get_round store id) && (not is_terminal && not q.stopping)
          then insert q.queued_round_ids id
          else q.queued_round_ids;
    }

unfoldable pub release : KeeperQueue → ℕ → RoundUpdate → KeeperQueue
release q id update =
    let flight = erase q.in_flight_round_ids id in
    let is_terminal = is_terminal_update update.last_status in
    let status = if is_terminal then terminal else queued in
    let store = update_round q.store id (record update { queue_status = some (some status) }) in
    record q {
      store = store;
      in_flight_round_ids = flight;
      queued_round_ids =
          if is_some (get_round store id) && not is_terminal
          then insert q.queued_round_ids id
          else q.queued_round_ids;
    }

abbrev pub stop : KeeperQueue → KeeperQueue
stop q = record q { stopping = true }
