-- ===== src/Keeper/Tick/Find.antt =====
-- `parseRoundIdSpec` and `discoverRoundIds` of services/keeper/src/keeper.ts: the rounds to watch. The
-- parts of the text, `3` or `1-5`, are values here; the sort of the ids is by insertion.
pub mod Ids
pub mod Probes
use sub_rosa_issue.Prelude.{
  ℕ, zero, suc, ◌+◌, ◌-◌, ◌==◌, ◌||◌, leb, ltb, Bool, true, false, Option, none, some, List, [],
  ◌∷◌, ◌++◌, if◌then◌else◌,
}
use sub_rosa_issue.Keeper.Tick.World.{
  Outcome, ok, failed, OnChainRound, KeeperDeps, KeeperState, Keeper, pure, throw, call, attempt,
  ◌>>=◌, ◌>>◌, when◌then◌otherwise◌, error_matches,
}

pub data Part : Type 0 where
  single : ℕ → Part
  range : ℕ → ℕ → Part

unfoldable pub member : ℕ → List ℕ → Bool
member n [] = false
member n (x ∷ rest) = n == x || member n rest

-- `ids.add`.
unfoldable pub add_id : List ℕ → ℕ → List ℕ
unfolding member
add_id ids n = if member n ids then ids else ids ++ n ∷ []

-- `count` ids from a first one.
unfoldable pub add_from : List ℕ → ℕ → ℕ → List ℕ
unfolding add_id
add_from ids first zero = ids
add_from ids first (suc count) = add_from (add_id ids first) (first + 1) count

unfoldable pub add_part : List ℕ → Part → List ℕ
unfolding add_from add_id
add_part ids (single n) = add_id ids n
add_part ids (range a b) = add_from ids a (b + 1 - a)

unfoldable pub add_parts : List ℕ → List Part → List ℕ
unfolding add_part
add_parts ids [] = ids
add_parts ids (p ∷ rest) = add_parts (add_part ids p) rest

unfoldable pub insert_id : ℕ → List ℕ → List ℕ
insert_id n [] = n ∷ []
insert_id n (x ∷ rest) = if leb n x then n ∷ x ∷ rest else x ∷ insert_id n rest

unfoldable pub sort_ids : List ℕ → List ℕ
unfolding insert_id
sort_ids [] = []
sort_ids (x ∷ rest) = insert_id x (sort_ids rest)

-- The comparison of the sort throws on the id 0; with fewer than two ids it is not called.
unfoldable pub sort_throws : List ℕ → Bool
unfolding member
sort_throws [] = false
sort_throws (x ∷ []) = false
sort_throws (x ∷ y ∷ rest) = member 0 (x ∷ y ∷ rest)

-- `none` is the throw of the sort.
unfoldable pub parse_round_id_spec : List Part → Option (List ℕ)
parse_round_id_spec parts =
    let ids = add_parts [] parts in if sort_throws ids then none else some (sort_ids ids)

module _ {W : Type 0} (d : KeeperDeps W) where
  -- The probes that are left, from the next id.
  unfoldable pub probe_from : ℕ → ℕ → List ℕ → Keeper W (List ℕ)
  probe_from id zero ids = pure ids
  probe_from id (suc left) ids = do
    answer ← attempt (call (d.get_round id))
    elim answer [
      | ok round ↦ probe_from (id + 1) left (ids ++ id ∷ [])
      | failed e ↦ (when error_matches e ("RoundNotFound" ∷ []) then pure ids otherwise throw e)
    ]

  unfoldable pub discover_round_ids : ℕ → ℕ → Keeper W (List ℕ)
  discover_round_ids from max_probe = probe_from from max_probe []
