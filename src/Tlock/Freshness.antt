-- ===== src/Tlock/Freshness.antt =====
-- packages/tlock/src/freshness.ts: when a round of the beacon is published, and how old it is. A number
-- of the source is an integer here, and its product and sum are exact: a result that is not a safe
-- integer is refused before it is used, as the source does.
use native.Mathlib.Nat.{le-mul_of_pos_right, mul_comm}
use sub_rosa_issue.Prelude.{
  ℕ, ◌+◌, ◌*◌, ◌-◌, ◌≤◌, ◌<◌, ◌≡◌, ◌↔◌, Bool, false, ◌||◌, Option, none, some, ℤ, pos, negsuc,
  ltb_ℤ, leb_ℤ, ltb, pos_part, if◌then◌else◌, arith, some_inj, unless_some, sym, subst, ap, ◌≤ℤ◌,
}
use sub_rosa_issue.Tlock.Window.{max_safe_integer}

abbrev pub default_stale_threshold_ms : ℕ
default_stale_threshold_ms = 60000

pub record DrandRoundInfo : Type 0 where
  pub genesis_time : ℤ
  pub period : ℤ

abbrev pub unsafe : ℕ → Bool
unsafe n = ltb max_safe_integer n

abbrev pub unsafe_ℤ : ℤ → Bool
unsafe_ℤ n = ltb_ℤ n (negsuc (max_safe_integer - 1)) || ltb_ℤ (pos max_safe_integer) n

-- The checks of the product and the sums, of numbers that are not negative.
unfoldable pub publish_at : ℕ → ℕ → Option ℕ
publish_at genesis offset =
    if unsafe offset
    then none
    else if unsafe (genesis + offset)
    then none
    else if unsafe ((genesis + offset) * 1000)
    then none
    else some ((genesis + offset) * 1000)

unfoldable pub compute_publish_at_ms : DrandRoundInfo → ℤ → Option ℕ
unfolding publish_at
compute_publish_at_ms info round =
    if unsafe_ℤ round || leb_ℤ round (pos 0)
    then none
    else if unsafe_ℤ info.period || leb_ℤ info.period (pos 0)
    then none
    else if unsafe_ℤ info.genesis_time || ltb_ℤ info.genesis_time (pos 0)
    then none
    else publish_at (pos_part info.genesis_time) (pos_part info.period * pos_part round)

pub data FreshnessResult : Type 0 where
  unknown_round unknown_info malformed_info invalid_timestamp unsafe_calculation : FreshnessResult
  future : ℕ → FreshnessResult
  stale fresh : ℕ → ℕ → FreshnessResult

-- The end of `classifyDrandRound`, at a time that is not negative.
unfoldable pub classify_published : ℕ → ℤ → Option ℕ → FreshnessResult
classify_published now stale_threshold_ms none = unsafe_calculation
classify_published now stale_threshold_ms (some at) =
    if ltb now at
    then future at
    else if ltb_ℤ stale_threshold_ms (pos (now - at))
    then stale at (now - at)
    else fresh at (now - at)

unfoldable pub classify_info : ℤ → DrandRoundInfo → ℤ → ℤ → FreshnessResult
unfolding classify_published
classify_info round info now_ms stale_threshold_ms =
    if leb_ℤ info.period (pos 0) || ltb_ℤ info.genesis_time (pos 0)
    then malformed_info
    else if unsafe_ℤ now_ms || ltb_ℤ now_ms (pos 0)
    then invalid_timestamp
    else classify_published (pos_part now_ms) stale_threshold_ms (compute_publish_at_ms info round)

unfoldable pub classify_drand_round : Option ℤ → Option DrandRoundInfo → ℤ → ℤ → FreshnessResult
unfolding classify_info
classify_drand_round none info now_ms stale_threshold_ms = unknown_round
classify_drand_round (some round) none now_ms stale_threshold_ms =
    if leb_ℤ round (pos 0) || unsafe_ℤ round then unknown_round else unknown_info
classify_drand_round (some round) (some info) now_ms stale_threshold_ms =
    if leb_ℤ round (pos 0) || unsafe_ℤ round
    then unknown_round
    else classify_info round info now_ms stale_threshold_ms

le_ltb : (a b : ℕ) → b ≤ a → ltb a b ≡ false
le_ltb a b h = ground arith

ltb_ge : (a b : ℕ) → ltb a b ≡ false → b ≤ a
ltb_ge a b h = ground arith

part_positive : (z : ℤ) → pos 1 ≤ℤ z → 0 < pos_part z
part_positive z h = ground arith

publish_at_iff :
    (g x t : ℕ) → (publish_at g x ≡ some t) ↔ ((t ≡ (g + x) * 1000) × (t ≤ max_safe_integer))
unfolding publish_at
publish_at_iff g x t = (
  λ h.
      let (_, h₁) = unless_some (unsafe x) _ t h in
      let (_, h₂) = unless_some (unsafe (g + x)) _ t h₁ in
      let (small, h₃) = unless_some (unsafe ((g + x) * 1000)) _ t h₂ in
      let same = some_inj _ _ h₃ in
      (
        sym same,
        subst (λ n. n ≤ max_safe_integer) same (ltb_ge max_safe_integer ((g + x) * 1000) small),
      ),
  λ (same, small).
      let fits : (g + x) * 1000 ≤ max_safe_integer = subst (λ n. n ≤ max_safe_integer) same small in
      rw
        (
          le_ltb max_safe_integer x (omega (arith, fits)),
          le_ltb max_safe_integer (g + x) (omega (arith, fits)),
          le_ltb max_safe_integer ((g + x) * 1000) fits,
        )
        (ap some (sym same)),
)

is_positive : (z : ℤ) → unsafe_ℤ z || leb_ℤ z (pos 0) ≡ false → pos 1 ≤ℤ z
is_positive z h = ground arith

positive_safe :
    (z : ℤ) → pos 1 ≤ℤ z → pos_part z ≤ max_safe_integer → unsafe_ℤ z || leb_ℤ z (pos 0) ≡ false
positive_safe z h k = ground arith

is_natural : (z : ℤ) → unsafe_ℤ z || ltb_ℤ z (pos 0) ≡ false → pos 0 ≤ℤ z
is_natural z h = ground arith

natural_safe :
    (z : ℤ) → pos 0 ≤ℤ z → pos_part z ≤ max_safe_integer → unsafe_ℤ z || ltb_ℤ z (pos 0) ≡ false
natural_safe z h k = ground arith

-- A publication time is computed exactly for a positive round and a positive period from a genesis that
-- is not negative, if the time in milliseconds, (genesis + period * round) * 1000, is a safe integer:
-- no step before the last overflows when the last does not.
pub compute_publish_at_ms_iff :
    (info : DrandRoundInfo) (round : ℤ) (t : ℕ)
    → (compute_publish_at_ms info round ≡ some t) ↔ (
        (pos 1 ≤ℤ round)
        × (pos 1 ≤ℤ info.period)
        × (pos 0 ≤ℤ info.genesis_time)
        × (t ≡ (pos_part info.genesis_time + pos_part info.period * pos_part round) * 1000)
        × (t ≤ max_safe_integer))
unfolding compute_publish_at_ms
compute_publish_at_ms_iff info round t =
    let g = pos_part info.genesis_time in
    let p = pos_part info.period in
    let r = pos_part round in
    (
      λ h.
          let (a, h₁) = unless_some (unsafe_ℤ round || leb_ℤ round (pos 0)) _ t h in
          let (b, h₂) = unless_some (unsafe_ℤ info.period || leb_ℤ info.period (pos 0)) _ t h₁ in
          let (c, h₃) =
            unless_some (unsafe_ℤ info.genesis_time || ltb_ℤ info.genesis_time (pos 0)) _ t h₂ in
          let (same, small) = (publish_at_iff g (p * r) t).0 h₃ in
          (
            is_positive round a,
            is_positive info.period b,
            is_natural info.genesis_time c,
            same,
            small,
          ),
      λ (a, b, c, same, small).
          let fits : (g + p * r) * 1000 ≤ max_safe_integer =
            subst (λ n. n ≤ max_safe_integer) same small in
          let by_period : r ≤ r * p = le-mul_of_pos_right r (part_positive info.period b) in
          let by_round : p ≤ p * r = le-mul_of_pos_right p (part_positive round a) in
          let turned : r * p ≡ p * r = mul_comm r p in
          rw
            (
              positive_safe round a (omega (arith, fits, by_period, turned)),
              positive_safe info.period b (omega (arith, fits, by_round)),
              natural_safe info.genesis_time c (omega (arith, fits)),
            )
            ((publish_at_iff g (p * r) t).1 (same, small)),
    )
