-- ===== src/Keeper/Tick/Void.antt =====
-- `voidIfStale` of services/keeper/src/keeper.ts: void an open round whose grace window has passed. A
-- reason for a skip is kept as data.
use sub_rosa_issue.Prelude.{
  ℕ, Bool, true, false, String, Option, none, some, List, [], ◌∷◌, ◌++◌, if◌then◌else◌,
}
use sub_rosa_issue.Keeper.Guard.{
  SettlementAction, Status, open_status, RoundSettlementView, ContractSkipEvent, ContractDecision,
  allowed, refused, void_after,
}
use sub_rosa_issue.Keeper.Guard.Evaluate.{evaluate_void}
use sub_rosa_issue.Keeper.Guard.Machine.{
  Guard, SettlementCheck, permitted, duplicate, rejected, DuplicateSkipEvent, check, mark_submitted,
  mark_terminal, mark_retryable,
}
use sub_rosa_issue.Keeper.Checkpoint.{void}
use sub_rosa_issue.Keeper.Tick.World.{
  Outcome, ok, failed, OnChainRound, voids, KeeperDeps, Keeper, pure, throw, gets, call, attempt,
  submit, ◌>>=◌, ◌>>◌, when◌then◌otherwise◌, error_name, error_matches, record_step, now_seconds,
}

pub data VoidSkip : Type 0 where
  status_is : Status → VoidSkip
  void_refused : ContractSkipEvent → VoidSkip
  duplicate_refused : DuplicateSkipEvent → VoidSkip
  not_yet_allowed_until : ℕ → VoidSkip
  void_failed : String → VoidSkip

pub record VoidResult : Type 0 where
  pub round_id : ℕ
  pub voided : Bool
  pub skipped : List VoidSkip
  pub final_status : Option Status
  pub guard_skip : Option ContractSkipEvent

abbrev pub void_skips : List String
void_skips = "NotVoidable" ∷ "WrongStatus" ∷ "AlreadyCleared" ∷ []

unfoldable pub void_gate_view : OnChainRound → ℕ → ℕ → RoundSettlementView
void_gate_view round id now = record {
  round_id = id;
  status = round.status;
  clearing_rule = round.clearing_rule;
  reveal_deadline = round.reveal_deadline;
  now_seconds = now;
  bidders = [];
  bidder_total = 0;
  winner = round.winner;
  winning_bid = round.winning_bid;
}

abbrev pub skip_void : VoidResult → VoidSkip → VoidResult
skip_void result reason = record result { skipped = result.skipped ++ reason ∷ [] }

-- What a check adds to the result if it refuses; `allowed` is left to the caller.
abbrev pub note_refusal : VoidResult → SettlementCheck → VoidResult
note_refusal result (permitted plan) = result
note_refusal result (duplicate event) = skip_void result (duplicate_refused event)
note_refusal result (rejected event) = record (skip_void result (void_refused event)) {
  guard_skip = some event;
}

-- The answer for a status other than `Open`, where a duplicate is reported by the status alone.
abbrev pub note_status : VoidResult → Status → SettlementCheck → VoidResult
note_status result status (rejected event) = note_refusal result (rejected event)
note_status result status _ = skip_void result (status_is status)

abbrev pub is_permitted : SettlementCheck → Bool
is_permitted (permitted plan) = true
is_permitted _ = false

abbrev pub on_guard : (Guard → Guard) → Option Guard → Option Guard
on_guard f none = none
on_guard f (some g) = some (f g)

abbrev pub is_allowed : ContractDecision → Bool
is_allowed (allowed plan) = true
is_allowed (refused event) = false

module _ {W : Type 0} (d : KeeperDeps W) where
  -- `guard.checkVoid`, which keeps the guard's entries.
  unfoldable pub check_void : Guard → RoundSettlementView → Keeper W SettlementCheck
  check_void g view s =
      let (r, g') = check (d.now_ms s.world) SettlementAction.void view g in
      (ok r, record s { guard = some g' })

  -- A method of the guard, when there is one.
  unfoldable pub with_guard : (ℕ → Guard → Guard) → Keeper W (Unit {0})
  with_guard f s = (ok tt, record s { guard = on_guard (f (d.now_ms s.world)) s.guard })

  -- A round that is not open: the guard, when there is one, is asked and the answer noted.
  unfoldable pub void_closed :
      OnChainRound → ℕ → ℕ → Option Guard → VoidResult → Keeper W VoidResult
  void_closed round id now none result = pure (skip_void result (status_is round.status))
  void_closed round id now (some g) result = do
    checked ← check_void g (void_gate_view round id now)
    pure (note_status result round.status checked)

  -- An open round whose grace window has not passed.
  unfoldable pub void_early : OnChainRound → ℕ → ℕ → Option Guard → VoidResult → Keeper W VoidResult
  void_early round id now none result =
      pure (skip_void result (not_yet_allowed_until (void_after round.reveal_deadline)))
  void_early round id now (some g) result = do
    checked ← check_void g (void_gate_view round id now)
    pure (note_refusal result checked)

  unfoldable pub void_answer : ℕ → VoidResult → Outcome (Unit {0}) → Keeper W VoidResult
  void_answer id result (ok _) = do
    with_guard (λ now. mark_terminal now id "voided on-chain")
    record_step d id void
    pure (record result { voided = true })
  void_answer id result (failed e) =
      when error_matches e void_skips
      then (do
        with_guard (λ now. mark_terminal now id (error_name e))
        pure (skip_void result (void_failed (error_name e))))
      otherwise (do with_guard (λ now. mark_retryable now id (error_name e)); throw e)

  unfoldable pub void_dispatch : ℕ → VoidResult → Keeper W VoidResult
  void_dispatch id result = do
    answer ← attempt (submit id voids (d.send_void id))
    void_answer id result answer

  -- The refund set is verified before the void is dispatched.
  unfoldable pub void_checked : ℕ → VoidResult → SettlementCheck → Keeper W VoidResult
  void_checked id result checked =
      when is_permitted checked
      then (do with_guard (λ now. mark_submitted now id); void_dispatch id result)
      otherwise pure (note_refusal result checked)

  unfoldable pub void_guarded : ℕ → ℕ → Guard → VoidResult → Keeper W VoidResult
  void_guarded id now g result = do
    view ← call (d.read_settlement_view id now)
    checked ← check_void g view
    void_checked id result checked

  unfoldable pub void_ready : ℕ → ℕ → Option Guard → VoidResult → Keeper W VoidResult
  void_ready id now none result = void_dispatch id result
  void_ready id now (some g) result = void_guarded id now g result

  unfoldable pub void_open_round :
      OnChainRound → ℕ → ℕ → Option Guard → VoidResult → Keeper W VoidResult
  void_open_round round id now guard result =
      when is_allowed (evaluate_void (void_gate_view round id now))
      then (do
        after ← void_ready id now guard result
        last ← call (d.get_round id)
        pure (record after { final_status = some last.status }))
      otherwise void_early round id now guard (record result { final_status = some open_status })

  unfoldable pub void_phases :
      Status → OnChainRound → ℕ → ℕ → Option Guard → VoidResult → Keeper W VoidResult
  void_phases open_status round id now guard result = void_open_round round id now guard result
  void_phases status round id now guard result =
      void_closed round id now guard (record result { final_status = some status })

  abbrev pub new_void : ℕ → VoidResult
  new_void id = record {
    round_id = id;
    voided = false;
    skipped = [];
    final_status = none;
    guard_skip = none;
  }

  unfoldable pub void_if_stale : ℕ → Keeper W VoidResult
  void_if_stale id = do
    round ← call (d.get_round id)
    now ← now_seconds d
    guard ← gets (λ s. s.guard)
    void_phases round.status round id now guard (new_void id)
