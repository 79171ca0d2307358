-- ===== src/Tlock/Hex.antt =====
-- `toHex`, `isValidHex` and `fromHex` of packages/tlock/src/commitment.ts. A text is the list of its
-- character codes.
use sub_rosa_issue.Prelude.{
  ℕ, ◌+◌, ◌-◌, ◌*◌, ◌/◌, ◌%◌, ◌<◌, ◌≡◌, refl, ap, ap₂, Bool, true, false, ◌==◌, ◌&&◌, ◌||◌, not,
  ltb, leb, Option, none, some, List, [], ◌∷◌, length, arith, if◌then◌else◌, if_same,
}
use sub_rosa_issue.Tlock.Commitment.Bytes.{AreBytes}

-- '0' to '9', then 'a' to 'f'.
abbrev pub hex_digit : ℕ → ℕ
hex_digit n = if ltb n 10 then 48 + n else 87 + n

-- Two digits for each byte.
unfoldable pub to_hex : List ℕ → List ℕ
to_hex [] = []
to_hex (b ∷ bytes) = hex_digit (b / 16) ∷ hex_digit (b % 16) ∷ to_hex bytes

-- The value of a digit, `none` for a character that is none.
abbrev pub digit_value : ℕ → Option ℕ
digit_value c =
    if leb 48 c && leb c 57
    then some (c - 48)
    else if leb 97 c && leb c 102
    then some (c - 87)
    else if leb 65 c && leb c 70
    then some (c - 55)
    else none

-- Without the prefix "0x" or "0X".
abbrev pub clean : List ℕ → List ℕ
clean [] = []
clean (a ∷ []) = a ∷ []
clean (a ∷ b ∷ hex) = if a == 48 && (b == 120 || b == 88) then hex else a ∷ b ∷ hex

abbrev pub is_digit : ℕ → Bool
is_digit c = elim (digit_value c) [ none ↦ false | some n ↦ true ]

abbrev pub all_digits : List ℕ → Bool
all_digits [] = true
all_digits (c ∷ hex) = is_digit c && all_digits hex

unfoldable pub is_valid_hex : List ℕ → Bool
is_valid_hex hex = length (clean hex) % 2 == 0 && all_digits (clean hex)

-- `parseInt` of two digits.
abbrev pub pair_value : Option ℕ → Option ℕ → ℕ
pair_value (some a) (some b) = a * 16 + b
pair_value a b = 0

abbrev pub pairs : List ℕ → List ℕ
pairs [] = []
pairs (a ∷ []) = []
pairs (a ∷ b ∷ hex) = pair_value (digit_value a) (digit_value b) ∷ pairs hex

unfoldable pub from_hex : List ℕ → Option (List ℕ)
from_hex hex =
    if not (length (clean hex) % 2 == 0)
    then none
    else if not (all_digits (clean hex))
    then none
    else some (pairs (clean hex))

digit_value-hex_digit : (n : ℕ) → n < 16 → digit_value (hex_digit n) ≡ some n
digit_value-hex_digit n h = ground arith

is_digit-hex_digit : (n : ℕ) → n < 16 → is_digit (hex_digit n) ≡ true
is_digit-hex_digit n h = rw (is_digit, digit_value-hex_digit n h) refl

no_prefix : (n : ℕ) → n < 16 → (hex_digit n == 120 || hex_digit n == 88) ≡ false
no_prefix n h = ground arith

and_false : (c : Bool) → ¬ (c && false ≡ true)
and_false true p = cc
and_false false p = cc

clean-to_hex : (bytes : List ℕ) → AreBytes bytes → clean (to_hex bytes) ≡ to_hex bytes
unfolding to_hex
clean-to_hex [] h = refl
clean-to_hex (b ∷ bytes) (small, h) = rw (no_prefix (b % 16) (omega arith)) (
    if_same (hex_digit (b / 16) == 48 && false) _ _
      λ p. absurd (and_false (hex_digit (b / 16) == 48) p))

length-to_hex : (bytes : List ℕ) → length (to_hex bytes) ≡ 2 * length bytes
unfolding to_hex
length-to_hex [] = omega arith
length-to_hex (b ∷ bytes) = omega (arith, length-to_hex bytes)

all_digits-to_hex : (bytes : List ℕ) → AreBytes bytes → all_digits (to_hex bytes) ≡ true
unfolding to_hex
all_digits-to_hex [] h = refl
all_digits-to_hex (b ∷ bytes) (small, h) =
    rw (is_digit-hex_digit (b / 16) (omega arith), is_digit-hex_digit (b % 16) (omega arith))
      (all_digits-to_hex bytes h)

pairs-to_hex : (bytes : List ℕ) → AreBytes bytes → pairs (to_hex bytes) ≡ bytes
unfolding to_hex
pairs-to_hex [] h = refl
pairs-to_hex (b ∷ bytes) (small, h) =
    rw (digit_value-hex_digit (b / 16) (omega arith), digit_value-hex_digit (b % 16) (omega arith))
      (ap₂ (λ x xs. x ∷ xs) (omega arith) (pairs-to_hex bytes h))

-- Bytes are read back from the digits that they are written to.
pub from_hex-to_hex : (bytes : List ℕ) → AreBytes bytes → from_hex (to_hex bytes) ≡ some bytes
unfolding from_hex
from_hex-to_hex bytes h =
    let even : not (length (to_hex bytes) % 2 == 0) ≡ false = ground (arith, length-to_hex bytes) in
    rw (clean-to_hex bytes h, even, all_digits-to_hex bytes h) (ap some (pairs-to_hex bytes h))
