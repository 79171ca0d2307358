-- ===== src/Tlock/Window.antt =====
-- packages/tlock/src/window.ts: the round that a seal may name. A number of the source is an integer or
-- `none`, a number that is not one (a fraction or NaN).
use sub_rosa_issue.Prelude.{
  ℕ, ◌-◌, ◌≤◌, ◌≡◌, ◌↔◌, sym, ◌∙◌, refl, Bool, false, not, ◌||◌, Option, none, some, ℤ, pos, negsuc,
  ltb_ℤ, if◌then◌else◌, arith, unless_none, ap,
}

-- 2 ^ 53 - 1, the greatest safe integer.
abbrev pub max_safe_integer : ℕ
max_safe_integer = 9007199254740991

abbrev pub is_safe_integer : Option ℤ → Bool
is_safe_integer none = false
is_safe_integer (some n) =
    not (ltb_ℤ n (negsuc (max_safe_integer - 1)) || ltb_ℤ (pos max_safe_integer) n)

abbrev pub below : Option ℤ → Option ℤ → Bool
below (some a) (some b) = ltb_ℤ a b
below a b = false

pub data SealRoundError : Type 0 where
  seal_round_too_early seal_round_too_late invalid_seal_round_zero : SealRoundError

unfoldable pub is_malformed_round : Option ℤ → Bool
is_malformed_round round = not (is_safe_integer round) || below round (some (pos 1))

-- `none` if the function returns.
unfoldable pub assert_seal_round_window : Option ℤ → Option ℤ → Option SealRoundError
unfolding is_malformed_round
assert_seal_round_window seal_round reveal_round =
    if is_malformed_round seal_round
    then some invalid_seal_round_zero
    else if is_malformed_round reveal_round
    then some invalid_seal_round_zero
    else if below seal_round reveal_round
    then some seal_round_too_early
    else if below reveal_round seal_round
    then some seal_round_too_late
    else none

below-false : (a b : ℤ) → ltb_ℤ a b ≡ false → ltb_ℤ b a ≡ false → a ≡ b
below-false a b h k = ground arith

same_round :
    (s r : Option ℤ)
    → is_malformed_round s ≡ false
    → is_malformed_round r ≡ false
    → below s r ≡ false
    → below r s ≡ false
    → s ≡ r
unfolding is_malformed_round
same_round none r ms mr h k = cc
same_round (some a) none ms mr h k = cc
same_round (some a) (some b) ms mr h k = ap some (below-false a b h k)

below_self : (s : Option ℤ) → below s s ≡ false
below_self none = refl
below_self (some a) = ground arith

well_formed :
    (round : Option ℤ)
    → is_malformed_round round ≡ false
    → (n : ℕ) × (round ≡ some (pos n)) × (1 ≤ n) × (n ≤ 9007199254740991)
unfolding is_malformed_round
well_formed none h = cc
well_formed (some (pos n)) h = (n, refl, ground (arith, h), ground (arith, h))
well_formed (some (negsuc n)) h = absurd (ground (arith, h))

rounds-well_formed :
    (n : ℕ) → 1 ≤ n → n ≤ 9007199254740991 → is_malformed_round (some (pos n)) ≡ false
unfolding is_malformed_round
rounds-well_formed n h k = ground (arith, h, k)

-- A seal is accepted exactly if it and the auction name the same round, and that is an integer from 1
-- to 2 ^ 53 - 1, the greatest safe one.
pub assert_seal_round_window_iff :
    (seal_round reveal_round : Option ℤ)
    → (assert_seal_round_window seal_round reveal_round ≡ none) ↔ (
        (n : ℕ) × (seal_round ≡ some (pos n))
        × (reveal_round ≡ some (pos n))
        × (1 ≤ n)
        × (n ≤ 9007199254740991))
unfolding assert_seal_round_window
assert_seal_round_window_iff s r = (
  λ h.
      let (ms, h₁) = unless_none (is_malformed_round s) invalid_seal_round_zero _ h in
      let (mr, h₂) = unless_none (is_malformed_round r) invalid_seal_round_zero _ h₁ in
      let (early, h₃) = unless_none (below s r) seal_round_too_early _ h₂ in
      let (late, _) = unless_none (below r s) seal_round_too_late none h₃ in
      let (n, at, least, most) = well_formed s ms in
      (n, at, sym (same_round s r ms mr early late) ∙ at, least, most),
  λ (n, at, same, least, most).
      rw (at, same, rounds-well_formed n least most, below_self (some (pos n))) refl,
)
