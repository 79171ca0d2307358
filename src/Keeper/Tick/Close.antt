-- ===== src/Keeper/Tick/Close.antt =====
-- `closeRound` of services/keeper/src/keeper.ts: clear a round once its reveal window has closed, then
-- settle it. A reason for a skip is kept as data instead of text.
use sub_rosa_issue.Prelude.{
  ℕ, Bool, true, false, leb, String, Option, none, some, List, [], ◌∷◌, ◌++◌, if◌then◌else◌,
}
use sub_rosa_issue.Keeper.Guard.{Status, open_status, revealing, cleared, settled_status, voided}
use sub_rosa_issue.Keeper.Checkpoint.{clear, settle}
use sub_rosa_issue.Keeper.Tick.World.{
  Outcome, ok, failed, OnChainRound, clears, settles, KeeperDeps, Keeper, pure, throw, call,
  attempt, submit, ◌>>=◌, ◌>>◌, when◌then◌otherwise◌, error_name, error_matches, step_already_done,
  record_step, now_seconds,
}

pub data CloseSkip : Type 0 where
  clear_recorded settle_recorded already_settled round_voided : CloseSkip
  window_open_until : ℕ → CloseSkip
  clear_skipped settle_skipped : String → CloseSkip

pub record CloseResult : Type 0 where
  pub round_id : ℕ
  pub cleared : Bool
  pub settled : Bool
  pub voided : Bool
  pub winner : Option String
  pub final_status : Option Status
  pub skipped : List CloseSkip

-- The end of a phase: the pass returns here, or goes on.
pub data Phase : Type 0 where
  returns onward : CloseResult → Phase

abbrev pub skip : CloseResult → CloseSkip → CloseResult
skip result reason = record result { skipped = result.skipped ++ reason ∷ [] }

abbrev pub lacks_winner : Option String → Bool
lacks_winner none = true
lacks_winner (some s) = false

abbrev pub clear_skips : List String
clear_skips = "AlreadyCleared" ∷ "RevealStillOpen" ∷ "WrongStatus" ∷ "RoundVoided" ∷ []

abbrev pub settle_skips : List String
settle_skips = "AlreadySettled" ∷ "NotCleared" ∷ "WrongStatus" ∷ []

module _ {W : Type 0} (d : KeeperDeps W) (id : ℕ) where
  unfoldable pub clear_answer : CloseResult → Outcome (Option String) → Keeper W Phase
  clear_answer result (ok winner) = do
    record_step d id clear
    pure (onward (record result { cleared = true; winner = winner; voided = lacks_winner winner }))
  clear_answer result (failed e) =
      when error_matches e clear_skips
      then (do
        when error_matches e ("AlreadyCleared" ∷ []) then record_step d id clear otherwise pure tt
        pure (onward (skip result (clear_skipped (error_name e)))))
      otherwise throw e

  unfoldable pub try_clear : CloseResult → Keeper W Phase
  try_clear result = do
    answer ← attempt (submit id clears (d.send_clear id))
    clear_answer result answer

  -- Phase C on a round in `Revealing`.
  unfoldable pub clear_revealing : ℕ → CloseResult → Keeper W Phase
  clear_revealing reveal_deadline result = do
    done ← step_already_done id clear
    when done then pure (onward (skip result clear_recorded)) otherwise (do
      now ← now_seconds d
      when leb now reveal_deadline
          then pure (
              returns (record (skip result (window_open_until reveal_deadline)) {
                final_status = some revealing;
              }))
          otherwise try_clear result)

  unfoldable pub settle_answer : CloseResult → Outcome (Unit {0}) → Keeper W CloseResult
  settle_answer result (ok _) = do record_step d id settle; pure (record result { settled = true })
  settle_answer result (failed e) =
      when error_matches e settle_skips
      then (do
        when error_matches e ("AlreadySettled" ∷ []) then record_step d id settle otherwise pure tt
        pure (skip result (settle_skipped (error_name e))))
      otherwise throw e

  unfoldable pub try_settle : CloseResult → Keeper W CloseResult
  try_settle result = do
    answer ← attempt (submit id settles (d.send_settle id))
    settle_answer result answer

  unfoldable pub settle_unless_recorded : CloseResult → Keeper W CloseResult
  settle_unless_recorded result = do
    done ← step_already_done id settle
    when done then pure (skip result settle_recorded) otherwise try_settle result

  -- The last lines, on the round as it was read last.
  abbrev pub close_with : OnChainRound → CloseResult → CloseResult
  close_with round result = record result {
    winner = if lacks_winner result.winner then round.winner else result.winner;
    final_status = some round.status;
  }

  -- Phase D.
  unfoldable pub settle_phase : Status → OnChainRound → CloseResult → Keeper W CloseResult
  settle_phase cleared round result = do
    r ← settle_unless_recorded result
    after ← call (d.get_round id)
    pure (close_with after r)
  settle_phase settled_status round result = pure (close_with round (skip result already_settled))
  settle_phase voided round result = pure (close_with round (skip result round_voided))
  settle_phase open_status round result = pure (close_with round result)
  settle_phase revealing round result = pure (close_with round result)

  unfoldable pub after_clear : Phase → Keeper W CloseResult
  after_clear (returns result) = pure result
  after_clear (onward result) = do
    round ← call (d.get_round id)
    settle_phase round.status round result

  unfoldable pub close_phases : Status → OnChainRound → CloseResult → Keeper W CloseResult
  close_phases revealing round result = do
    phase ← clear_revealing round.reveal_deadline result
    after_clear phase
  close_phases status round result = settle_phase status round result

  abbrev pub new_close : CloseResult
  new_close = record {
    round_id = id;
    cleared = false;
    settled = false;
    voided = false;
    winner = none;
    final_status = none;
    skipped = [];
  }

  unfoldable pub close_round : Keeper W CloseResult
  close_round = do round ← call (d.get_round id); close_phases round.status round new_close
