-- ===== src/Tlock/Commitment.antt =====
-- packages/tlock/src/commitment.ts: the bytes of a bid, a 16-byte value and a 32-byte nonce. A byte is
-- a number; the hash is a parameter of what uses it.
pub mod Bytes
pub mod RoundTrip
use sub_rosa_issue.Prelude.{
  ℕ, zero, suc, ◌+◌, ◌-◌, ◌*◌, ◌/◌, ◌%◌, ◌==◌, ◌||◌, ◌&&◌, not, ltb, leb, Bool, true, false, Option,
  none, some, List, [], ◌∷◌, ◌++◌, length, take, drop, ℤ, pos, negsuc, leb_ℤ, ltb_ℤ, ◌-ℤ◌,
  if◌then◌else◌,
}

abbrev pub value_bytes : ℕ
value_bytes = 16

abbrev pub nonce_bytes : ℕ
nonce_bytes = 32

abbrev pub preimage_bytes : ℕ
preimage_bytes = 48

abbrev pub commitment_bytes : ℕ
commitment_bytes = 32

-- 2 ^ 127 and 2 ^ 128.
abbrev pub two_127 : ℕ
two_127 = 170141183460469231731687303715884105728

abbrev pub two_128 : ℕ
two_128 = 340282366920938463463374607431768211456

-- The greatest and the least value of 128 bits with a sign.
abbrev pub i128_max : ℤ
i128_max = pos (two_127 - 1)

abbrev pub i128_min : ℤ
i128_min = negsuc (two_127 - 1)

unfoldable pub out_of_i128 : ℤ → Bool
out_of_i128 value = ltb_ℤ value i128_min || ltb_ℤ i128_max value

-- `value & (TWO_128 - 1n)`, in two's complement.
abbrev pub wrap : ℤ → ℕ
wrap (pos n) = n % two_128
wrap (negsuc n) = two_128 - 1 - n % two_128

-- The lowest bytes of a number, the highest first.
unfoldable pub be_bytes : ℕ → ℕ → List ℕ
be_bytes zero u = []
be_bytes (suc count) u = be_bytes count (u / 256) ++ u % 256 ∷ []

unfoldable pub i128_to_be_bytes : ℤ → Option (List ℕ)
i128_to_be_bytes value =
    if out_of_i128 value then none else some (be_bytes value_bytes (wrap value))

-- The number of the bytes, after those that were read.
unfoldable pub be_value : ℕ → List ℕ → ℕ
be_value u [] = u
be_value u (b ∷ rest) = be_value (u * 256 + b) rest

abbrev pub signed : ℕ → ℤ
signed u = if leb two_127 u then pos u -ℤ pos two_128 else pos u

unfoldable pub be_bytes_to_i128 : List ℕ → Option ℤ
be_bytes_to_i128 bytes =
    if not (length bytes == value_bytes) then none else some (signed (be_value 0 bytes))

unfoldable pub encode_bid_preimage : ℤ → List ℕ → Option (List ℕ)
encode_bid_preimage value nonce =
    if not (length nonce == nonce_bytes)
    then none
    else elim (i128_to_be_bytes value) [ none ↦ none | some bytes ↦ some (bytes ++ nonce) ]

unfoldable pub decode_bid_preimage : List ℕ → Option (ℤ × List ℕ)
decode_bid_preimage preimage =
    if not (length preimage == preimage_bytes)
    then none
    else elim (be_bytes_to_i128 (take value_bytes preimage)) [
      | none ↦ none
      | some value ↦ some (value, drop value_bytes preimage)
    ]

-- Whether no position differs: `diff` collects the exclusive or of each pair of bytes.
abbrev pub same_bytes : List ℕ → List ℕ → Bool
same_bytes [] [] = true
same_bytes (a ∷ actual) (b ∷ expected) = a == b && same_bytes actual expected
same_bytes [] (b ∷ expected) = false
same_bytes (a ∷ actual) [] = false

module _ (sha256 : List ℕ → List ℕ) where
  unfoldable pub commitment : ℤ → List ℕ → Option (List ℕ)
  commitment value nonce = elim (encode_bid_preimage value nonce) [
    | none ↦ none
    | some preimage ↦ some (sha256 preimage)
  ]

  -- `none` is the throw of the commitment.
  unfoldable pub commitment_matches : ℤ → List ℕ → List ℕ → Option Bool
  commitment_matches value nonce expected =
      if not (length expected == commitment_bytes)
      then some false
      else if not (length nonce == nonce_bytes)
      then some false
      else elim (commitment value nonce) [
        | none ↦ none
        | some actual ↦ some (same_bytes actual expected)
      ]
