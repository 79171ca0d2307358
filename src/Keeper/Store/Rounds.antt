-- ===== src/Keeper/Store/Rounds.antt =====
-- The rounds of the store of services/keeper/src/store.ts: addRound, removeRound, updateRound,
-- getRound and listRounds.
use sub_rosa_issue.Prelude.{
  ℕ, Option, none, some, List, [], ◌∷◌, if◌then◌else◌, ◌==◌, ltb, get, put, delete,
}
use sub_rosa_issue.Keeper.Store.{WatchedRound, RoundUpdate, Store}

abbrev pub over {ℓ} : {A : Type ℓ} → Option A → A → A
over none a = a
over (some b) a = b

-- `{ ...round, ...update, roundId: id }`.
unfoldable pub merge : ℕ → WatchedRound → RoundUpdate → WatchedRound
merge id r u = record {
  round_id = id;
  contract_id = over u.contract_id r.contract_id;
  network = over u.network r.network;
  reveal_round = over u.reveal_round r.reveal_round;
  last_status = over u.last_status r.last_status;
  phase = over u.phase r.phase;
  cursor = over u.cursor r.cursor;
  last_hash = over u.last_hash r.last_hash;
  retry_count = over u.retry_count r.retry_count;
  last_error = over u.last_error r.last_error;
  last_action = over u.last_action r.last_action;
  queue_status = over u.queue_status r.queue_status;
}

abbrev pub blank_round : ℕ → WatchedRound
blank_round id = record {
  round_id = id;
  contract_id = none;
  network = none;
  reveal_round = none;
  last_status = "Unknown";
  phase = none;
  cursor = none;
  last_hash = none;
  retry_count = 0;
  last_error = none;
  last_action = none;
  queue_status = none;
}

abbrev pub or_blank : ℕ → Option WatchedRound → WatchedRound
or_blank id none = blank_round id
or_blank id (some r) = r

unfoldable pub get_round : Store → ℕ → Option WatchedRound
get_round s id = get ◌==◌ s.rounds id

unfoldable pub add_round : Store → ℕ → RoundUpdate → Store
add_round s id extra = record s {
  rounds = put ◌==◌ s.rounds id (merge id (or_blank id (get_round s id)) extra);
}

unfoldable pub remove_round : Store → ℕ → Store
remove_round s id = elim (get_round s id) [
  | none ↦ s
  | some r ↦ record s { rounds = delete ◌==◌ s.rounds id }
]

unfoldable pub update_round : Store → ℕ → RoundUpdate → Store
update_round s id update = elim (get_round s id) [
  | none ↦ s
  | some r ↦ record s { rounds = put ◌==◌ s.rounds id (merge id r update) }
]

-- The values, ordered by their round ids.
unfoldable pub insert_round : WatchedRound → List WatchedRound → List WatchedRound
insert_round r [] = r ∷ []
insert_round r (x ∷ xs) =
    let rest = insert_round r xs in if ltb x.round_id r.round_id then x ∷ rest else r ∷ x ∷ xs

unfoldable pub sort_rounds : List (ℕ × WatchedRound) → List WatchedRound
sort_rounds [] = []
sort_rounds (e ∷ es) = insert_round (e.1) (sort_rounds es)

abbrev pub list_rounds : Store → List WatchedRound
list_rounds s = sort_rounds s.rounds
