-- ===== src/Tlock/Payload.antt =====
-- packages/tlock/src/payload.ts: the envelope of an application's payload. The encoding writes into a
-- buffer of zeros; here it is the list of the written parts, in their order.
mod Fields
pub mod RoundTrip
pub mod Canonical
use sub_rosa_issue.Prelude.{
  ℕ, zero, suc, ◌+◌, ◌-◌, ◌*◌, ◌/◌, ◌%◌, ◌==◌, ◌||◌, ◌&&◌, not, ltb, leb, Bool, true, false, Option,
  none, some, List, [], ◌∷◌, ◌++◌, length, take, drop, ℤ, if◌then◌else◌,
}
use sub_rosa_issue.Tlock.Commitment.{
  value_bytes, nonce_bytes, i128_to_be_bytes, be_bytes_to_i128, be_bytes, be_value,
}

-- "SRP\0".
abbrev pub magic : List ℕ
magic = 83 ∷ 82 ∷ 80 ∷ 0 ∷ []

abbrev pub payload_envelope_version : ℕ
payload_envelope_version = 1

abbrev pub payload_header_bytes : ℕ
payload_header_bytes = 60

abbrev pub max_application_payload_bytes : ℕ
max_application_payload_bytes = 2048

pub record PayloadEnvelope : Type 0 where
  pub amount : Option ℤ
  pub payload : List ℕ
  pub nonce : List ℕ

pub data EnvelopeError : Type 0 where
  wrong_nonce too_long amount_out_of_range too_short wrong_magic wrong_version : EnvelopeError
  wrong_flags reserved_not_zero length_mismatch amount_not_zero : EnvelopeError

pub data Result (A : Type 0) : Type 0 where
  ok : A → Result A
  err : EnvelopeError → Result A

abbrev pub zeros : ℕ → List ℕ
zeros zero = []
zeros (suc count) = 0 ∷ zeros count

-- The bytes of the amount, zeros without one.
unfoldable pub amount_field : Option ℤ → Option (List ℕ)
amount_field none = some (zeros value_bytes)
amount_field (some amount) = i128_to_be_bytes amount

abbrev pub flags_of : Option ℤ → ℕ
flags_of none = 0
flags_of (some amount) = 1

-- The parts of an envelope in their order.
abbrev pub laid_out : ℕ → List ℕ → List ℕ → List ℕ → List ℕ
laid_out flags amount nonce payload =
    magic
    ++ ((payload_envelope_version ∷ flags ∷ 0 ∷ 0 ∷ amount)
        ++ (nonce ++ (be_bytes 4 (length payload) ++ payload)))

unfoldable pub encode_payload_envelope : PayloadEnvelope → Result (List ℕ)
encode_payload_envelope e =
    if not (length e.nonce == nonce_bytes)
    then err wrong_nonce
    else if ltb max_application_payload_bytes (length e.payload)
    then err too_long
    else elim (amount_field e.amount) [
      | none ↦ err amount_out_of_range
      | some amount ↦ ok (laid_out (flags_of e.amount) amount e.nonce e.payload)
    ]

-- `bytes.slice(from, to)`.
abbrev pub slice : ℕ → ℕ → List ℕ → List ℕ
slice from to bytes = take (to - from) (drop from bytes)

-- `bytes[at]` of an index within the bytes.
abbrev pub byte_at : ℕ → List ℕ → ℕ
byte_at at bytes = elim (drop at bytes) [ [] ↦ 0 | b ∷ rest ↦ b ]

abbrev pub starts_with : List ℕ → List ℕ → Bool
starts_with [] bytes = true
starts_with (m ∷ expected) [] = false
starts_with (m ∷ expected) (b ∷ bytes) = b == m && starts_with expected bytes

abbrev pub all_zero : List ℕ → Bool
all_zero [] = true
all_zero (b ∷ bytes) = b == 0 && all_zero bytes

-- The amount field by the flags: with bit 0 set it is a number, else it must be zero.
unfoldable pub read_amount : ℕ → List ℕ → Result (Option ℤ)
read_amount flags bytes =
    if flags % 2 == 1
    then (elim (be_bytes_to_i128 bytes) [
      | none ↦ err amount_out_of_range
      | some amount ↦ ok (some amount)
    ])
    else if not (all_zero bytes)
    then err amount_not_zero
    else ok none

-- The checks of the header, `none` if all are passed. `flags & ~SUPPORTED_FLAGS` is not zero for a
-- flag above bit 0.
unfoldable pub header_error : List ℕ → Option EnvelopeError
header_error bytes =
    if ltb (length bytes) payload_header_bytes
    then some too_short
    else if not (starts_with magic bytes)
    then some wrong_magic
    else if not (byte_at 4 bytes == payload_envelope_version)
    then some wrong_version
    else if not (byte_at 5 bytes / 2 == 0)
    then some wrong_flags
    else if not (byte_at 6 bytes == 0) || not (byte_at 7 bytes == 0)
    then some reserved_not_zero
    else none

abbrev pub with_amount : List ℕ → Result (Option ℤ) → Result PayloadEnvelope
with_amount bytes (err e) = err e
with_amount bytes (ok amount) = ok (record {
  amount = amount;
  payload = drop payload_header_bytes bytes;
  nonce = slice 24 56 bytes;
})

-- The rest, from the declared length of the payload.
unfoldable pub decode_body : List ℕ → ℕ → Result PayloadEnvelope
decode_body bytes payload_length =
    if ltb max_application_payload_bytes payload_length
    then err too_long
    else if not (length bytes == payload_header_bytes + payload_length)
    then err length_mismatch
    else with_amount bytes (read_amount (byte_at 5 bytes) (slice 8 24 bytes))

unfoldable pub decode_payload_envelope : List ℕ → Result PayloadEnvelope
decode_payload_envelope bytes = elim (header_error bytes) [
  | some e ↦ err e
  | none ↦ decode_body bytes (be_value 0 (slice 56 60 bytes))
]
