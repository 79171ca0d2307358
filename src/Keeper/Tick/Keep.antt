-- ===== src/Keeper/Tick/Keep.antt =====
-- `waitForRound` and `keepRound` of services/keeper/src/keeper.ts: open the reveal window with the
-- beacon's signature, then reveal each bid. A reason for a skip is kept as data instead of text.
pub mod Waits
pub mod Recorded
use sub_rosa_issue.Prelude.{
  ℕ, zero, suc, ◌+◌, ◌-◌, ◌*◌, Bool, true, false, ◌&&◌, ltb, leb, ℤ, String, Option, none, some,
  List, [], ◌∷◌, ◌++◌, or_else, if◌then◌else◌,
}
use sub_rosa_issue.Keeper.Guard.{Status, open_status, revealing, cleared, settled_status, voided}
use sub_rosa_issue.Keeper.Checkpoint.{open_reveal, reveal}
use sub_rosa_issue.Keeper.Tick.World.{
  ChainError, Outcome, ok, failed, OnChainRound, OpenedBid, opens, reveals, KeeperDeps, Keeper,
  pure, throw, gets, call, attempt, submit, ◌>>=◌, ◌>>◌, when◌then◌otherwise◌, error_name,
  error_matches, step_already_done, record_step, sleep_for,
}

pub data SkipReason : Type 0 where
  reveals_recorded already_revealed seal_absent already_revealed_race : SkipReason
  hash_mismatch window_closed : SkipReason
  state_read_failed decrypt_failed : String → SkipReason

pub record SkipRecord : Type 0 where
  pub bidder : String
  pub reason : SkipReason

pub record KeeperResult : Type 0 where
  pub round_id : ℕ
  pub final_status : Option Status
  pub opened_reveal : Bool
  pub revealed : List String
  pub skipped : List SkipRecord

-- The reasons that still mean that the bid is revealed.
unfoldable pub is_revealed_reason : SkipReason → Bool
is_revealed_reason already_revealed = true
is_revealed_reason already_revealed_race = true
is_revealed_reason _ = false

unfoldable pub all_revealed : List SkipRecord → Bool
unfolding is_revealed_reason
all_revealed [] = true
all_revealed (s ∷ rest) = is_revealed_reason s.reason && all_revealed rest

abbrev pub idempotent_open : List String
idempotent_open = "RevealAlreadyOpen" ∷ "WrongStatus" ∷ "AlreadyCleared" ∷ []

abbrev pub idempotent_reveal : List String
idempotent_reveal = "AlreadyRevealed" ∷ []

abbrev pub min : ℕ → ℕ → ℕ
min a b = if leb a b then a else b

abbrev pub max : ℕ → ℕ → ℕ
max a b = if leb a b then b else a

-- The outcome of one bid: it was revealed now, or skipped for a reason.
pub data BidOutcome : Type 0 where
  revealed_now : BidOutcome
  skipped_for : SkipReason → BidOutcome

unfoldable pub note_bid : KeeperResult → String → BidOutcome → KeeperResult
note_bid result bidder revealed_now = record result { revealed = result.revealed ++ bidder ∷ [] }
note_bid result bidder (skipped_for reason) = record result {
  skipped = result.skipped ++ record { bidder = bidder; reason = reason } ∷ [];
}

module _ {W : Type 0} (d : KeeperDeps W) where
  -- The loop of `waitForRound`; `none` means that the fuel ran out.
  unfoldable pub wait_loop : ℕ → ℕ → ℕ → ℕ → W → Option Bool × W
  wait_loop zero publish_at give_up_at poll_ms w = (none, w)
  wait_loop (suc fuel) publish_at give_up_at poll_ms w =
      let now = d.now_ms w in
      let rest =
        wait_loop fuel publish_at give_up_at poll_ms
          (d.sleep (min poll_ms (max 250 (publish_at - now))) w) in
      if ltb now publish_at
      then (if leb give_up_at now then (some false, w) else rest)
      else (some true, w)

  -- The loop from the time it starts at, with the fuel for a clock that each sleep moves.
  unfoldable pub wait_until : ℕ → ℕ → ℕ → W → Option Bool × W
  wait_until max_wait_seconds poll_ms publish_at w =
      wait_loop (max_wait_seconds * 1000 + 1) publish_at (d.now_ms w + max_wait_seconds * 1000)
        poll_ms w

  unfoldable pub wait : ℕ → ℕ → ℕ → Keeper W Bool
  wait max_wait_seconds poll_ms publish_at s =
      let (r, w) = wait_until max_wait_seconds poll_ms publish_at s.world in
      (ok (or_else r false), record s { world = w })

  unfoldable pub wait_for_round : ℕ → ℕ → ℕ → Keeper W Bool
  wait_for_round max_wait_seconds poll_ms round = do
    info ← call d.chain_info
    wait max_wait_seconds poll_ms ((info.0 + info.1 * round) * 1000)

  -- The attempts that are left to fetch the signature of the round.
  unfoldable pub fetch_signature : ℕ → ℕ → ℕ → Keeper W (Option (List ℕ))
  fetch_signature poll_ms round zero = pure none
  fetch_signature poll_ms round (suc left) = do
    answer ← attempt (call (d.fetch_round_signature round))
    elim answer [
      | ok signature ↦ pure (some signature)
      | failed e ↦ (do sleep_for d poll_ms; fetch_signature poll_ms round left)
    ]

  unfoldable pub reveal_answer : Outcome (Unit {0}) → Keeper W BidOutcome
  reveal_answer (ok _) = pure revealed_now
  reveal_answer (failed e) =
      when error_matches e idempotent_reveal
      then pure (skipped_for already_revealed_race)
      otherwise when error_matches e ("HashMismatch" ∷ [])
      then pure (skipped_for hash_mismatch)
      otherwise when error_matches e ("RevealWindowClosed" ∷ [])
      then pure (skipped_for window_closed)
      otherwise throw e

  unfoldable pub send_opened : ℕ → String → Outcome OpenedBid → Keeper W BidOutcome
  send_opened id bidder (failed e) = pure (skipped_for (decrypt_failed (error_name e)))
  send_opened id bidder (ok opened) = do
    answer ← attempt (submit id (reveals bidder) (d.send_reveal id bidder opened))
    reveal_answer answer

  unfoldable pub open_seal : ℕ → String → Option (List ℕ) → Keeper W BidOutcome
  open_seal id bidder none = pure (skipped_for seal_absent)
  open_seal id bidder (some ciphertext) = do
    opened ← attempt (call (d.open_bid ciphertext))
    send_opened id bidder opened

  unfoldable pub reveal_unless : ℕ → String → Option ℤ → Keeper W BidOutcome
  reveal_unless id bidder (some value) = pure (skipped_for already_revealed)
  reveal_unless id bidder none = do seal ← call (d.get_seal id bidder); open_seal id bidder seal

  -- The body of the loop over the bidders.
  unfoldable pub reveal_bid : ℕ → String → Keeper W BidOutcome
  reveal_bid id bidder = do
    state ← attempt (call (d.get_bid_state id bidder))
    elim state [
      | failed e ↦ pure (skipped_for (state_read_failed (error_name e)))
      | ok bid ↦ reveal_unless id bidder bid.revealed_value
    ]

  unfoldable pub reveal_bids : ℕ → KeeperResult → List String → Keeper W KeeperResult
  reveal_bids id result [] = pure result
  reveal_bids id result (bidder ∷ rest) = do
    outcome ← reveal_bid id bidder
    reveal_bids id (note_bid result bidder outcome) rest

  unfoldable pub reveal_all : ℕ → KeeperResult → Keeper W KeeperResult
  reveal_all id result = do
    bidders ← call (d.bidders id)
    after ← reveal_bids id result bidders
    when all_revealed after.skipped then record_step d id reveal otherwise pure tt
    pure after

  unfoldable pub reveal_revealing : ℕ → KeeperResult → Keeper W KeeperResult
  reveal_revealing id result = do
    done ← step_already_done id reveal
    when done
        then pure (note_bid result "*" (skipped_for reveals_recorded))
        otherwise reveal_all id result

  -- Phase B, and the final status.
  unfoldable pub reveal_phase : ℕ → Status → KeeperResult → Keeper W KeeperResult
  reveal_phase id revealing result = do
    after ← reveal_revealing id result
    round ← call (d.get_round id)
    pure (record after { final_status = some round.status })
  reveal_phase id status result = pure (record result { final_status = some status })

  -- Whether this call opened the window; an answer that it is open is as good.
  unfoldable pub open_answer : Outcome (Unit {0}) → Keeper W Bool
  open_answer (ok _) = pure true
  open_answer (failed e) = when error_matches e idempotent_open then pure false otherwise throw e

  unfoldable pub open_with : ℕ → KeeperResult → Option (List ℕ) → Keeper W KeeperResult
  open_with id result none = pure (record result { final_status = some open_status })
  open_with id result (some signature) = do
    answer ← attempt (submit id opens (d.send_open_reveal id signature))
    opened ← open_answer answer
    record_step d id open_reveal
    round ← call (d.get_round id)
    reveal_phase id round.status (record result { opened_reveal = opened })

  -- Phase A on an open round.
  unfoldable pub open_round : ℕ → ℕ → ℕ → ℕ → KeeperResult → Keeper W KeeperResult
  open_round max_wait_seconds poll_ms id reveal_round result = do
    available ← wait_for_round max_wait_seconds poll_ms reveal_round
    when available
        then (do signature ← fetch_signature poll_ms reveal_round 5; open_with id result signature)
        otherwise pure (record result { final_status = some open_status })

  unfoldable pub keep_phases :
      ℕ → ℕ → ℕ → Status → OnChainRound → KeeperResult → Keeper W KeeperResult
  keep_phases max_wait_seconds poll_ms id open_status round result =
      open_round max_wait_seconds poll_ms id round.reveal_round result
  keep_phases max_wait_seconds poll_ms id status round result = reveal_phase id status result

  abbrev pub new_keep : ℕ → KeeperResult
  new_keep id = record {
    round_id = id;
    final_status = none;
    opened_reveal = false;
    revealed = [];
    skipped = [];
  }

  unfoldable pub keep_round : ℕ → ℕ → ℕ → Keeper W KeeperResult
  keep_round max_wait_seconds poll_ms id = do
    round ← call (d.get_round id)
    keep_phases max_wait_seconds poll_ms id round.status round (new_keep id)
