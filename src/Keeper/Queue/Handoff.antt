-- ===== src/Keeper/Queue/Handoff.antt =====
-- Completing a round in a terminal status, in services/keeper/src/queue.ts.
use sub_rosa_issue.Prelude.{
  ℕ, ◌≡◌, refl, ◌∙◌, ap, true, false, some, String, ◌==◌, ==_iff, ==_refl, get, put, get-put, arith,
}
use sub_rosa_issue.Keeper.Store.{terminal, Store, WatchedRound, RoundUpdate}
use sub_rosa_issue.Keeper.Store.Rounds.{get_round, update_round, merge}
use sub_rosa_issue.Keeper.Queue.{
  KeeperQueue, has, erase, eligible, sync_with_store, complete, is_terminal_status,
  is_terminal_update,
}
use sub_rosa_issue.Keeper.Queue.Sets.{has-erase}
use sub_rosa_issue.Keeper.Queue.Apart.{Reached, completed, Apart-Reached}
use sub_rosa_issue.Keeper.Queue.Sync.{sync_with_store_lem, awaited, Alike-sync_with_store}

updated :
    (s : Store) (id : ℕ) (u : RoundUpdate) (r : WatchedRound)
    → get_round s id ≡ some r
    → update_round s id u ≡ record s { rounds = put ◌==◌ s.rounds id (merge id r u) }
unfolding update_round
updated s id u r h = rw (h, update_round) refl

get_round-update_round :
    (s : Store) (id : ℕ) (u : RoundUpdate) (r : WatchedRound)
    → get_round s id ≡ some r
    → get_round (update_round s id u) id ≡ some (merge id r u)
unfolding get_round
get_round-update_round s id u r h =
    let same = ==_refl id in
    ap (λ t. get ◌==◌ t.rounds id) (updated s id u r h)
    ∙ get-put ◌==◌ ==_iff s.rounds id (merge id r u) id
    ∙ rw same refl

-- The update that ends a round.
abbrev pub ended : RoundUpdate → RoundUpdate
ended u = record u { queue_status = some (some terminal) }

module _ (q : KeeperQueue) (id : ℕ) (u : RoundUpdate) (st : String) (last : u.last_status ≡ some st)
    (t : is_terminal_status st ≡ true) where
  complete_terminal :
      (complete q id u).queued_round_ids ≡ q.queued_round_ids
      × ((complete q id u).in_flight_round_ids ≡ erase q.in_flight_round_ids id)
      × ((complete q id u).store ≡ update_round q.store id (ended u))
  unfolding complete
  complete_terminal =
      let e : is_terminal_update u.last_status ≡ true = ap is_terminal_update last ∙ t in
      rw e (ground arith, refl, refl)

-- When a process completes a round that is in flight and in its store with a terminal status, the
-- round is neither waiting nor in flight, its entry is merged with the update, and the next
-- synchronisation does not queue it.
pub complete_terminal-sync :
    (q : KeeperQueue) (id : ℕ) (u : RoundUpdate) (st : String) (r : WatchedRound)
    → Reached q
    → has q.in_flight_round_ids id ≡ true
    → get_round q.store id ≡ some r
    → u.last_status ≡ some st
    → is_terminal_status st ≡ true
    → (has (complete q id u).queued_round_ids id ≡ false)
      × (has (complete q id u).in_flight_round_ids id ≡ false)
      × (get_round (complete q id u).store id ≡ some (merge id r (ended u)))
      × (has (sync_with_store (complete q id u)).queued_round_ids id ≡ false)
      × (has (sync_with_store (complete q id u)).in_flight_round_ids id ≡ false)
unfolding eligible merge
complete_terminal-sync q id u st r re fl h last t = (waits, flies, kept, again, still)
  where
    done : KeeperQueue
    done = complete q id u

    c :
        (done.queued_round_ids ≡ q.queued_round_ids)
        × (done.in_flight_round_ids ≡ erase q.in_flight_round_ids id)
        × (done.store ≡ update_round q.store id (ended u))
    c = complete_terminal q id u st last t

    waits : has done.queued_round_ids id ≡ false
    waits =
        let apart = Apart-Reached q re id in ap (λ l. has l id) (c.0) ∙ ground (arith, apart, fl)

    flies : has done.in_flight_round_ids id ≡ false
    flies =
        let same = ==_refl id in
        ap (λ l. has l id) (c.1) ∙ has-erase q.in_flight_round_ids id id ∙ ground (arith, same)

    kept : get_round done.store id ≡ some (merge id r (ended u))
    kept = ap (λ s. get_round s id) (c.2) ∙ get_round-update_round q.store id (ended u) r h

    status : (merge id r (ended u)).last_status ≡ st
    status = rw last refl

    unwanted : awaited done (some (merge id r (ended u))) id ≡ false
    unwanted = let e = ap is_terminal_status status ∙ t in ground (arith, e)

    again : has (sync_with_store done).queued_round_ids id ≡ false
    again =
        let s = sync_with_store_lem done id (completed q id u re) in
        let w = ap (λ o. awaited done o id) kept ∙ unwanted in s ∙ ground (arith, w, waits)

    still : has (sync_with_store done).in_flight_round_ids id ≡ false
    still = ap (λ l. has l id) ((Alike-sync_with_store done).2) ∙ flies
