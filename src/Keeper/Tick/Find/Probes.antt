-- ===== src/Keeper/Tick/Find/Probes.antt =====
-- The rounds that `discoverRoundIds` of services/keeper/src/keeper.ts finds.
use sub_rosa_issue.Prelude.{
  ℕ, zero, suc, ◌+◌, ◌≤◌, ◌<◌, ◌≡◌, sym, ap, subst, ◌∙◌, true, List, [], ◌∷◌, ◌++◌, append-nil,
  append_assoc, arith,
}
use sub_rosa_issue.Keeper.Tick.World.{
  ChainError, ok, failed, OnChainRound, KeeperDeps, KeeperState, pure, call, attempt, ◌>>=◌,
  when◌then◌otherwise◌, error_matches,
}
use sub_rosa_issue.Keeper.Tick.Keep.{min}
use sub_rosa_issue.Keeper.Tick.Find.{probe_from, discover_round_ids}

-- The ids from a first one, in order.
unfoldable pub ids_from : ℕ → ℕ → List ℕ
ids_from first zero = []
ids_from first (suc count) = first ∷ ids_from (first + 1) count

-- The chain has the rounds from `first` on, `count` of them, and answers that the next one is not there.
abbrev pub HasRounds : {W : Type 0} → KeeperDeps W → ℕ → ℕ → Type 0
HasRounds {W = W} d first count =
    ((i : ℕ) (w : W)
      → first ≤ i
      → i < first + count
      → (round : OnChainRound) × ((d.get_round i w).0 ≡ ok round))
    × ((w : W)
        → (e : ChainError) × ((d.get_round (first + count) w).0 ≡ failed e)
          × (error_matches e ("RoundNotFound" ∷ []) ≡ true))

min_zero : (a : ℕ) → min a 0 ≡ 0
min_zero a = ground arith

zero_min : (a : ℕ) → min 0 a ≡ 0
zero_min a = ground arith

min-suc : (a b : ℕ) → min (suc a) (suc b) ≡ suc (min a b)
min-suc a b = ground arith

module _ {W : Type 0} (d : KeeperDeps W) where
  HasRounds-next : (first count : ℕ) → HasRounds d first (suc count) → HasRounds d (first + 1) count
  HasRounds-next first count (there, absent) = (
    λ i w low high. there i w (omega arith) (omega arith),
    λ w.
        subst
          (λ i.
            (e : ChainError) × ((d.get_round i w).0 ≡ failed e)
            × (error_matches e ("RoundNotFound" ∷ []) ≡ true))
          (omega arith) (absent w),
  )

  probe_from_lem :
      (first count left : ℕ) (ids : List ℕ) (s : KeeperState W)
      → HasRounds d first count
      → (probe_from d first left ids s).0 ≡ ok (ids ++ ids_from first (min count left))
  unfolding probe_from ids_from pure ◌>>=◌ attempt call when◌then◌otherwise◌
  probe_from_lem first count zero ids s has = rw (min_zero count) (ap ok (sym (append-nil ids)))
  probe_from_lem first zero (suc left) ids s (there, absent) =
      let (e, answer, known) = absent s.world in
      let same : first + 0 ≡ first = omega arith in
      let answer' = subst (λ i. (d.get_round i s.world).0 ≡ failed e) same answer in
      rw (zero_min (suc left), answer', known) (ap ok (sym (append-nil ids)))
  probe_from_lem first (suc count) (suc left) ids s has =
      let (round, answer) = has.0 first s.world (omega arith) (omega arith) in
      rw (min-suc count left, answer)
        (probe_from_lem (first + 1) count left (ids ++ first ∷ []) _
            (HasRounds-next first count has)
          ∙ ap ok (append_assoc ids (first ∷ []) (ids_from (first + 1) (min count left))))

  -- On a chain that has the rounds from a first one on, and answers that the one after them is not
  -- there, discovery gives exactly these, in order, or as many of them as it may probe.
  pub discover_round_ids_lem :
      (first count max_probe : ℕ) (s : KeeperState W)
      → HasRounds d first count
      → (discover_round_ids d first max_probe s).0 ≡ ok (ids_from first (min count max_probe))
  unfolding discover_round_ids
  discover_round_ids_lem first count max_probe s has = probe_from_lem first count max_probe [] s has
