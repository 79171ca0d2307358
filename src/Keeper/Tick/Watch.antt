-- ===== src/Keeper/Tick/Watch.antt =====
-- `watchRound` of services/keeper/src/keeper.ts: one pass of the watch loop over a round.
use sub_rosa_issue.Prelude.{
  ℕ, Bool, true, false, ◌||◌, Option, none, some, List, [], ◌∷◌, if◌then◌else◌,
}
use sub_rosa_issue.Keeper.Guard.{Status, open_status, revealing, cleared, ContractSkipEvent}
use sub_rosa_issue.Keeper.Tick.World.{
  OnChainRound, KeeperDeps, KeeperState, Keeper, pure, call, ◌>>=◌, when◌then◌otherwise◌,
}
use sub_rosa_issue.Keeper.Tick.Keep.{KeeperResult, keep_round}
use sub_rosa_issue.Keeper.Tick.Close.{CloseResult, close_round}
use sub_rosa_issue.Keeper.Tick.Void.{VoidResult, void_if_stale}

pub record WatchTickResult : Type 0 where
  pub round_id : ℕ
  pub keep : Option KeeperResult
  pub close : Option CloseResult
  pub void : Option VoidResult
  pub final_status : Status

abbrev pub has_skip : Option ContractSkipEvent → Bool
has_skip none = false
has_skip (some e) = true

-- The void is part of the result if it took place or the contract's rules refused it.
abbrev pub noted_void : VoidResult → Option VoidResult
noted_void v = if v.voided || has_skip v.guard_skip then some v else none

abbrev pub wants_keep : Status → Bool
wants_keep open_status = true
wants_keep revealing = true
wants_keep _ = false

abbrev pub wants_close : Status → Bool
wants_close revealing = true
wants_close cleared = true
wants_close _ = false

module _ {W : Type 0} (d : KeeperDeps W) (poll_ms id : ℕ) where
  -- Without waiting for the beacon.
  unfoldable pub watch_keep : OnChainRound → Keeper W (Option KeeperResult × OnChainRound)
  watch_keep round =
      when wants_keep round.status
      then (do
        kept ← keep_round d 0 poll_ms id
        after ← call (d.get_round id)
        pure (some kept, after))
      otherwise pure (none, round)

  unfoldable pub watch_close : OnChainRound → Keeper W (Option CloseResult × OnChainRound)
  watch_close round =
      when wants_close round.status
      then (do closed ← close_round d id; after ← call (d.get_round id); pure (some closed, after))
      otherwise pure (none, round)

  unfoldable pub watch_round : Keeper W WatchTickResult
  watch_round = do
    stale ← void_if_stale d id
    round ← call (d.get_round id)
    kept ← watch_keep round
    closed ← watch_close kept.1
    pure (record {
      round_id = id;
      keep = kept.0;
      close = closed.0;
      void = noted_void stale;
      final_status = closed.1.status;
    })

-- Passes of `watch_round` over rounds, one after the other, on the state that the last one left: a
-- sequence of steps, no function of the source. A pass that throws leaves its state too.
unfoldable pub watch_all : {W : Type 0} → KeeperDeps W → ℕ → List ℕ → KeeperState W → KeeperState W
watch_all d poll_ms [] s = s
watch_all d poll_ms (id ∷ rest) s = watch_all d poll_ms rest (watch_round d poll_ms id s).1
