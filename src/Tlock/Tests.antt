-- ===== src/Tlock/Tests.antt =====
-- Runs of packages/tlock on concrete bytes.
use sub_rosa_issue.Prelude.{
  ℕ, ◌+◌, ◌*◌, ◌≤◌, ◌≡◌, ◌↔◌, refl, Bool, true, none, some, List, [], ◌∷◌, ◌++◌, length, take, ltb,
  ◌&&◌, arith, pos, negsuc, ◌≤ℤ◌,
}
use sub_rosa_issue.Tlock.Commitment.{
  commitment_bytes, out_of_i128, be_bytes, i128_to_be_bytes, encode_bid_preimage,
  decode_bid_preimage, commitment, commitment_matches,
}
use sub_rosa_issue.Tlock.Commitment.Bytes.{AreBytes}
use sub_rosa_issue.Tlock.Commitment.RoundTrip.{
  decode_bid_preimage-encode_bid_preimage, encode_bid_preimage-decode_bid_preimage,
  commitment_matches_iff,
}
use sub_rosa_issue.Tlock.Payload.{
  PayloadEnvelope, ok, zeros, amount_field, encode_payload_envelope, decode_payload_envelope,
}
use sub_rosa_issue.Tlock.Payload.RoundTrip.{decode_payload_envelope-encode_payload_envelope}
use sub_rosa_issue.Tlock.Payload.Canonical.{encode_payload_envelope-decode_payload_envelope}
use sub_rosa_issue.Tlock.Window.{
  assert_seal_round_window, assert_seal_round_window_iff, seal_round_too_early, max_safe_integer,
}
use sub_rosa_issue.Tlock.Freshness.{
  DrandRoundInfo, compute_publish_at_ms, compute_publish_at_ms_iff,
}
use sub_rosa_issue.Tlock.Hex.{from_hex}

abbrev minus_two : List ℕ
minus_two =
    255 ∷ 255 ∷ 255 ∷ 255 ∷ 255 ∷ 255 ∷ 255 ∷ 255 ∷ 255 ∷ 255 ∷ 255 ∷ 255 ∷ 255 ∷ 255 ∷ 255 ∷ 254
    ∷ []

-- The value -2 in two's complement.
minus_two_bytes : i128_to_be_bytes (negsuc 1) ≡ some minus_two
unfolding i128_to_be_bytes out_of_i128 be_bytes
minus_two_bytes = refl

abbrev nonce : List ℕ
nonce = zeros 32

abbrev preimage : List ℕ
preimage = minus_two ++ nonce

written : encode_bid_preimage (negsuc 1) nonce ≡ some preimage
unfolding encode_bid_preimage i128_to_be_bytes out_of_i128 be_bytes
written = refl

decode_bid_preimage-encode_bid_preimage_example :
    decode_bid_preimage preimage ≡ some (negsuc 1, nonce)
decode_bid_preimage-encode_bid_preimage_example =
    decode_bid_preimage-encode_bid_preimage (negsuc 1) nonce preimage written

abbrev all_small : List ℕ → Bool
all_small [] = true
all_small (b ∷ bytes) = ltb b 256 && all_small bytes

AreBytes-all_small : (bytes : List ℕ) → all_small bytes ≡ true → AreBytes bytes
AreBytes-all_small [] h = tt
AreBytes-all_small (b ∷ bytes) h = (ground arith, AreBytes-all_small bytes (ground arith))

small_bytes : AreBytes preimage
small_bytes = AreBytes-all_small preimage refl

encode_bid_preimage-decode_bid_preimage_example :
    encode_bid_preimage (negsuc 1) nonce ≡ some preimage
encode_bid_preimage-decode_bid_preimage_example =
    encode_bid_preimage-decode_bid_preimage preimage (negsuc 1) nonce small_bytes
      decode_bid_preimage-encode_bid_preimage_example

-- A function that stands for the hash: the first 32 bytes.
abbrev first_32 : List ℕ → List ℕ
first_32 bytes = take 32 bytes

commitment_matches_iff_example :
    (commitment_matches first_32 (negsuc 1) nonce (take 32 preimage) ≡ some true) ↔ (
      (commitment first_32 (negsuc 1) nonce ≡ some (take 32 preimage))
      × (length (take 32 preimage) ≡ commitment_bytes))
commitment_matches_iff_example = commitment_matches_iff first_32 (negsuc 1) nonce (take 32 preimage)

abbrev envelope : PayloadEnvelope
envelope = record { amount = some (negsuc 1); payload = 7 ∷ 8 ∷ 9 ∷ []; nonce = nonce }

abbrev envelope_bytes : List ℕ
envelope_bytes =
    (83 ∷ 82 ∷ 80 ∷ 0 ∷ 1 ∷ 1 ∷ 0 ∷ 0 ∷ [])
    ++ (minus_two ++ (nonce ++ (0 ∷ 0 ∷ 0 ∷ 3 ∷ 7 ∷ 8 ∷ 9 ∷ [])))

envelope_written : encode_payload_envelope envelope ≡ ok envelope_bytes
unfolding encode_payload_envelope amount_field i128_to_be_bytes out_of_i128 be_bytes
envelope_written = refl

decode_payload_envelope-encode_payload_envelope_example :
    decode_payload_envelope envelope_bytes ≡ ok envelope
decode_payload_envelope-encode_payload_envelope_example =
    decode_payload_envelope-encode_payload_envelope envelope envelope_bytes envelope_written

small_envelope : AreBytes envelope_bytes
small_envelope = AreBytes-all_small envelope_bytes refl

encode_payload_envelope-decode_payload_envelope_example :
    encode_payload_envelope envelope ≡ ok envelope_bytes
encode_payload_envelope-decode_payload_envelope_example =
    encode_payload_envelope-decode_payload_envelope envelope_bytes envelope small_envelope
      decode_payload_envelope-encode_payload_envelope_example

assert_seal_round_window_iff_example :
    (assert_seal_round_window (some (pos 5)) (some (pos 5)) ≡ none) ↔ (
      (n : ℕ) × (some (pos 5) ≡ some (pos n))
      × (some (pos 5) ≡ some (pos n))
      × (1 ≤ n)
      × (n ≤ 9007199254740991))
assert_seal_round_window_iff_example = assert_seal_round_window_iff (some (pos 5)) (some (pos 5))

too_early : assert_seal_round_window (some (pos 4)) (some (pos 5)) ≡ some seal_round_too_early
unfolding assert_seal_round_window
too_early = refl

abbrev quicknet : DrandRoundInfo
quicknet = record { genesis_time = pos 1692803367; period = pos 3 }

compute_publish_at_ms_iff_example :
    (compute_publish_at_ms quicknet (pos 1000) ≡ some 1692806367000) ↔ (
      (pos 1 ≤ℤ pos 1000)
      × (pos 1 ≤ℤ pos 3)
      × (pos 0 ≤ℤ pos 1692803367)
      × (1692806367000 ≡ (1692803367 + 3 * 1000) * 1000)
      × (1692806367000 ≤ max_safe_integer))
compute_publish_at_ms_iff_example = compute_publish_at_ms_iff quicknet (pos 1000) 1692806367000

published : compute_publish_at_ms quicknet (pos 1000) ≡ some 1692806367000
unfolding compute_publish_at_ms
published = refl

hex_read : from_hex (48 ∷ 120 ∷ 48 ∷ 48 ∷ 65 ∷ 98 ∷ []) ≡ some (0 ∷ 171 ∷ [])
unfolding from_hex
hex_read = refl
