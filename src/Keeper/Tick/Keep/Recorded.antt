-- ===== src/Keeper/Tick/Keep/Recorded.antt =====
-- What `keepRound` of services/keeper/src/keeper.ts accounts for, and when it records the reveals.
use sub_rosa_issue.Prelude.{
  ℕ, ◌+◌, ◌≡◌, ◌⊎◌, Option, List, [], ◌∷◌, String, str_eq, map, if◌then◌else◌,
}
use sub_rosa_issue.Keeper.Checkpoint.{KeeperCheckpointFile, reveal}
use sub_rosa_issue.Keeper.Tick.World.{
  KeeperDeps, KeeperState, Keeper, pure, ◌>>◌, when◌then◌otherwise◌, record_step,
}
use sub_rosa_issue.Keeper.Tick.Keeps.{Keeps}
use sub_rosa_issue.Keeper.Tick.Keep.{
  SkipRecord, SkipReason, already_revealed, already_revealed_race, KeeperResult, all_revealed,
}

-- A bid that was revealed before the pass, or while it was under way.
abbrev pub MeansRevealed : SkipReason → Type 0
MeansRevealed reason = (reason ≡ already_revealed) ⊎ (reason ≡ already_revealed_race)

-- How often a bidder stands in a list.
unfoldable pub occurrences : String → List String → ℕ
occurrences b [] = 0
occurrences b (x ∷ rest) = (if str_eq b x then 1 else 0) + occurrences b rest

abbrev pub skipped_bidders : List SkipRecord → List String
skipped_bidders skipped = map (λ s. s.bidder) skipped

abbrev pub accounted : String → KeeperResult → ℕ
accounted b r = occurrences b r.revealed + occurrences b (skipped_bidders r.skipped)

module _ {W : Type 0} (d : KeeperDeps W) (id : ℕ) where
  -- The cursor is left as it is by the reveals themselves.
  Cursor : Option KeeperCheckpointFile → KeeperState W → Type 0
  Cursor c s = s.checkpoint ≡ c

  -- The end of `reveal_all` once the reveals answered.
  abbrev finish : KeeperResult → Keeper W KeeperResult
  finish after =
      (when all_revealed after.skipped then record_step d id reveal otherwise pure tt) >> pure after
