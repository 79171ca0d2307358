-- ===== src/Keeper/Tick/Tests.antt =====
-- Runs of services/keeper/src/keeper.ts on a small chain: one round, one bid, a clock in milliseconds.
use sub_rosa_issue.Prelude.{
  ℕ, ◌+◌, ◌*◌, ◌≤◌, ◌<◌, ◌≡◌, ◌≢◌, ◌⊎◌, refl, sym, ap, subst, Bool, true, false, ◌==◌, String,
  Option, none, some, List, [], ◌∷◌, arith, pos, if◌then◌else◌,
}
use sub_rosa_issue.Keeper.Guard.{
  Status, open_status, revealing, cleared, settled_status, voided, highest_bid, RoundSettlementView,
}
use sub_rosa_issue.Keeper.Checkpoint.{
  KeeperCheckpointFile, KeeperStep, clear, settle, empty_file, mark_complete, is_complete,
  checkpoint_has_step, plan_checkpoint_step, includes, push_step,
}
use sub_rosa_issue.Keeper.Tick.World.{
  ChainError, Outcome, ok, failed, OnChainRound, KeeperDeps, KeeperState, recorded,
  when◌then◌otherwise◌, error_matches, error_matches,
}
use sub_rosa_issue.Keeper.Tick.Watch.{watch_all}
use sub_rosa_issue.Keeper.Tick.Keep.{wait_until, min}
use sub_rosa_issue.Keeper.Tick.Keep.Waits.{Waited, wait_until_lem}
use sub_rosa_issue.Keeper.Tick.Find.{
  Part, sort_throws, sort_ids, add_parts, single, range, parse_round_id_spec, member,
  discover_round_ids,
}
use sub_rosa_issue.Keeper.Tick.Find.Ids.{IsAscending, named, parse_round_id_spec_lem}
use sub_rosa_issue.Keeper.Tick.Find.Probes.{ids_from, discover_round_ids_lem}
use sub_rosa_issue.Keeper.Tick.Once.{flag, confirmations}
use sub_rosa_issue.Keeper.Tick.Once.Phases.{is_settles, is_clears}
use sub_rosa_issue.Keeper.Tick.Once.Settled.{settles_once}
use sub_rosa_issue.Keeper.Tick.Once.Restart.{submitted_to, restart_settle, restart_clear}
use sub_rosa_issue.Keeper.Tick.Once.Voids.{is_voids, ended}
use sub_rosa_issue.Keeper.Tick.Once.Watched.{voids_once}

-- The status of round 7 and the time.
abbrev Chain : Type 0
Chain = Status × ℕ

abbrev refused : String → ChainError
refused name = record { message = name; diagnostic = name }

abbrev round_in : Status → OnChainRound
round_in st = record {
  status = st;
  reveal_round = 2;
  reveal_deadline = 10;
  clearing_rule = highest_bid;
  winner = some "ada";
  winning_bid = some (pos 5);
}

abbrev view_in : ℕ → ℕ → Status → RoundSettlementView
view_in id now st = record {
  round_id = id;
  status = st;
  clearing_rule = highest_bid;
  reveal_deadline = 10;
  now_seconds = now;
  bidders = [];
  bidder_total = 0;
  winner = none;
  winning_bid = none;
}

abbrev cleared_by : Status → Outcome (Option String) × Status
cleared_by revealing = (ok (some "ada"), cleared)
cleared_by st = (failed (refused "WrongStatus"), st)

abbrev settled_by : Status → Outcome (Unit {0}) × Status
settled_by cleared = (ok tt, settled_status)
settled_by st = (failed (refused "AlreadySettled"), st)

abbrev voided_by : Status → Outcome (Unit {0}) × Status
voided_by open_status = (ok tt, voided)
voided_by st = (failed (refused "NotVoidable"), st)

abbrev chain : KeeperDeps Chain
chain = record {
  get_round = λ id w. (if id == 7 then ok (round_in w.0) else failed (refused "RoundNotFound"), w);
  bidders = λ id w. (ok ("ada" ∷ []), w);
  get_bid_state = λ id b w. (ok (record { revealed_value = none }), w);
  get_seal = λ id b w. (ok (some (1 ∷ 2 ∷ [])), w);
  read_settlement_view = λ id now w. (ok (view_in id now w.0), w);
  chain_info = λ w. (ok (0, 3), w);
  fetch_round_signature = λ r w. (ok (9 ∷ []), w);
  open_bid = λ c w. (ok (record { value = pos 5; nonce = 4 ∷ [] }), w);
  send_open_reveal = λ id sig w. (ok tt, (revealing, w.1));
  send_reveal = λ id b o w. (ok tt, w);
  send_clear = λ id w. let (r, st) = cleared_by w.0 in (r, (st, w.1));
  send_settle = λ id w. let (r, st) = settled_by w.0 in (r, (st, w.1));
  send_void = λ id w. let (r, st) = voided_by w.0 in (r, (st, w.1));
  now_ms = λ w. w.1;
  now_iso = λ w. "2026-01-01T00:00:00.000Z";
  sleep = λ ms w. (w.0, w.1 + ms);
}

abbrev file : KeeperCheckpointFile
file = empty_file "testnet" "C1"

abbrev state : Status → ℕ → KeeperState Chain
state st now = record { world = (st, now); checkpoint = some file; guard = some []; sent = [] }

abbrev after_step : KeeperStep → Status → KeeperState Chain
after_step step st = record (state st 20000) {
  checkpoint = some (mark_complete file 7 step none "2026-01-01T00:00:00.000Z");
}

-- The grace window of the round has passed.
abbrev stale : KeeperState Chain
stale = state open_status 4000000

abbrev round_of : Outcome RoundSettlementView → ℕ
round_of (ok view) = view.round_id
round_of (failed e) = 0

settles_once_example :
    let after = watch_all chain 3000 (7 ∷ 7 ∷ []) (state revealing 20000) in
    confirmations is_settles 7 after.sent ≤ flag (recorded after.checkpoint 7 settle)
settles_once_example = settles_once chain 7 3000 (7 ∷ 7 ∷ []) (state revealing 20000) refl refl

after_step_settle : recorded (after_step settle cleared).checkpoint 7 settle ≡ true
unfolding is_complete checkpoint_has_step mark_complete plan_checkpoint_step includes push_step
after_step_settle = refl

restart_settle_example :
    submitted_to is_settles 7 (watch_all chain 3000 (7 ∷ 7 ∷ []) (after_step settle cleared)).sent
    ≡ false
restart_settle_example =
    restart_settle chain 7 3000 (7 ∷ 7 ∷ []) (after_step settle cleared) after_step_settle refl

after_step_clear : recorded (after_step clear revealing).checkpoint 7 clear ≡ true
unfolding is_complete checkpoint_has_step mark_complete plan_checkpoint_step includes push_step
after_step_clear = refl

restart_clear_example :
    submitted_to is_clears 7 (watch_all chain 3000 (7 ∷ 7 ∷ []) (after_step clear revealing)).sent
    ≡ false
restart_clear_example =
    restart_clear chain 7 3000 (7 ∷ 7 ∷ []) (after_step clear revealing) after_step_clear refl

voids_once_example :
    let after = watch_all chain 3000 (7 ∷ 7 ∷ []) stale in
    confirmations is_voids 7 after.sent ≤ flag (ended after.guard 7)
voids_once_example =
    voids_once chain 7 (λ id now w view e. sym (ap round_of e)) 3000 (7 ∷ 7 ∷ []) stale refl refl

wait_until_lem_example :
    let after = wait_until chain 4 3000 6000 (open_status, 1000) in
    (b : Bool) × (after.0 ≡ some b) × Waited 6000 (1000 + 4 * 1000) (chain.now_ms after.1) b
wait_until_lem_example =
    wait_until_lem chain (λ ms w. omega arith) 4 3000 6000 (open_status, 1000) (omega arith)

abbrev ascending_parts : List Part
ascending_parts = range 3 5 ∷ single 1 ∷ single 4 ∷ []

parse_round_id_spec_lem_example :
    ((parse_round_id_spec ascending_parts ≡ none)
      × (named 0 ascending_parts ≡ true)
      × ((m : ℕ) × (m ≢ 0) × (named m ascending_parts ≡ true)))
    ⊎ ((ids : List ℕ) × (parse_round_id_spec ascending_parts ≡ some ids)
        × IsAscending ids
        × ((n : ℕ) → member n ids ≡ named n ascending_parts)
        × ((named 0 ascending_parts ≡ false) ⊎ (ids ≡ 0 ∷ [])))
parse_round_id_spec_lem_example = parse_round_id_spec_lem ascending_parts

parsed : parse_round_id_spec ascending_parts ≡ some (1 ∷ 3 ∷ 4 ∷ 5 ∷ [])
unfolding parse_round_id_spec sort_ids add_parts sort_throws
parsed = refl

zero_refused : parse_round_id_spec (range 0 2 ∷ []) ≡ none
unfolding parse_round_id_spec sort_ids add_parts sort_throws
zero_refused = refl

zero_alone : parse_round_id_spec (single 0 ∷ []) ≡ some (0 ∷ [])
unfolding parse_round_id_spec sort_ids add_parts sort_throws
zero_alone = refl

has_round :
    (i : ℕ) (w : Chain)
    → 7 ≤ i
    → i < 8
    → (round : OnChainRound) × ((chain.get_round i w).0 ≡ ok round)
has_round i w low high =
    let same : i ≡ 7 = omega arith in
    subst (λ j. (round : OnChainRound) × ((chain.get_round j w).0 ≡ ok round)) (sym same)
      (round_in w.0, refl)

discover_round_ids_lem_example :
    (discover_round_ids chain 7 64 (state cleared 0)).0 ≡ ok (ids_from 7 (min 1 64))
unfolding error_matches
discover_round_ids_lem_example =
    discover_round_ids_lem chain 7 1 64 (state cleared 0)
      (has_round, λ w. (refused "RoundNotFound", refl, refl))
