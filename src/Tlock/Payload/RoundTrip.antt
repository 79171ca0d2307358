-- ===== src/Tlock/Payload/RoundTrip.antt =====
-- The envelope of packages/tlock/src/payload.ts, there and back.
use sub_rosa_issue.Prelude.{
  ℕ, ◌+◌, ◌/◌, ◌≤◌, ◌<◌, ◌≡◌, refl, subst, ◌∙◌, ap, Bool, true, false, ◌==◌, ◌||◌, Option, none,
  some, unless_none, List, ◌∷◌, ◌++◌, length, drop, arith, if◌then◌else◌, not, ltb, ℤ,
}
use sub_rosa_issue.Tlock.Commitment.{nonce_bytes, be_bytes, be_value}
use sub_rosa_issue.Tlock.Commitment.Bytes.{power, be_value-be_bytes}
use sub_rosa_issue.Tlock.Payload.{
  magic, payload_envelope_version, payload_header_bytes, max_application_payload_bytes,
  PayloadEnvelope, EnvelopeError, Result, ok, err, wrong_nonce, too_long, amount_out_of_range,
  too_short, wrong_magic, wrong_version, wrong_flags, reserved_not_zero, length_mismatch,
  amount_field, flags_of, laid_out, encode_payload_envelope, slice, byte_at, starts_with,
  read_amount, header_error, decode_body, with_amount, decode_payload_envelope,
}
use sub_rosa_issue.Tlock.Payload.Fields.{
  length-laid_out, amount_slice, nonce_slice, declared_length, payload_slice, length-amount_field,
  read_amount-amount_field, header,
}

-- A guard that was passed.
pub unless_ok :
    {A : Type 0} (b : Bool) (e : EnvelopeError) (r : Result A) (a : A)
    → (if b then err e else r) ≡ ok a
    → (b ≡ false) × (r ≡ ok a)
unless_ok true e r a h = cc
unless_ok false e r a h = (refl, h)

laid_out_inj :
    (o : Option (List ℕ)) (f : List ℕ → List ℕ) (bytes : List ℕ)
    → elim o [ none ↦ err amount_out_of_range | some amount ↦ ok (f amount) ] ≡ ok bytes
    → (amount : List ℕ) × (o ≡ some amount) × (f amount ≡ bytes)
laid_out_inj none f bytes h = cc
laid_out_inj (some amount) f bytes h = (amount, refl, cc)

encoded :
    (e : PayloadEnvelope) (bytes : List ℕ)
    → encode_payload_envelope e ≡ ok bytes
    → (length e.nonce ≡ 32)
      × (length e.payload ≤ 2048)
      × ((amount : List ℕ) × (amount_field e.amount ≡ some amount)
          × (laid_out (flags_of e.amount) amount e.nonce e.payload ≡ bytes))
unfolding encode_payload_envelope
encoded e bytes h =
    let (sized, h₁) = unless_ok (not (length e.nonce == nonce_bytes)) wrong_nonce _ bytes h in
    let (short, h₂) =
      unless_ok (ltb max_application_payload_bytes (length e.payload)) too_long _ bytes h₁ in
    (
      ground arith,
      ground arith,
      laid_out_inj (amount_field e.amount)
          (λ amount. laid_out (flags_of e.amount) amount e.nonce e.payload) bytes h₂,
    )

power_4 : 4294967296 ≡ power 4
unfolding power
power_4 = refl

length_read : (n : ℕ) → n ≤ 2048 → be_value 0 (be_bytes 4 n) ≡ n
length_read n h = be_value-be_bytes 4 n (subst (λ m. n < m) power_4 (omega arith))

header_error-laid_out :
    (o : Option ℤ) (amount nonce payload : List ℕ)
    → length amount ≡ 16
    → length nonce ≡ 32
    → header_error (laid_out (flags_of o) amount nonce payload) ≡ none
unfolding header_error
header_error-laid_out none amount nonce payload wa wn =
    let total = length-laid_out 0 amount nonce payload wa wn in ground (arith, total)
header_error-laid_out (some z) amount nonce payload wa wn =
    let total = length-laid_out 1 amount nonce payload wa wn in ground (arith, total)

decode_body-laid_out :
    (o : Option ℤ) (amount nonce payload : List ℕ)
    → amount_field o ≡ some amount
    → length nonce ≡ 32
    → length payload ≤ 2048
    → decode_body (laid_out (flags_of o) amount nonce payload) (length payload)
      ≡ ok (record { amount = o; payload = payload; nonce = nonce })
unfolding decode_body
decode_body-laid_out o amount nonce payload field wn short =
    let flags = flags_of o in
    let wa = length-amount_field o amount field in
    let total = length-laid_out flags amount nonce payload wa wn in
    let fits : ltb 2048 (length payload) ≡ false = ground arith in
    let sized : not (length (laid_out flags amount nonce payload) == 60 + length payload) ≡ false =
      ground (arith, total) in
    rw
      (
        fits,
        sized,
        amount_slice flags amount nonce payload wa wn,
        read_amount-amount_field o amount field,
        nonce_slice flags amount nonce payload wa wn,
        payload_slice flags amount nonce payload wa wn,
      )
      refl

decode_from :
    (bytes : List ℕ) (n : ℕ)
    → header_error bytes ≡ none
    → be_value 0 (slice 56 60 bytes) ≡ n
    → decode_payload_envelope bytes ≡ decode_body bytes n
unfolding decode_payload_envelope
decode_from bytes n h e = rw (decode_payload_envelope, h) (ap (decode_body bytes) e)

-- What an envelope is encoded to decodes to the envelope: its amount, if it has one, its payload and
-- its nonce.
pub decode_payload_envelope-encode_payload_envelope :
    (e : PayloadEnvelope) (bytes : List ℕ)
    → encode_payload_envelope e ≡ ok bytes
    → decode_payload_envelope bytes ≡ ok e
decode_payload_envelope-encode_payload_envelope e bytes h =
    let (wn, short, (amount, field, same)) = encoded e bytes h in
    let wa = length-amount_field e.amount amount field in
    let flags = flags_of e.amount in
    subst (λ bs. decode_payload_envelope bs ≡ ok e) same
      (decode_from (laid_out flags amount e.nonce e.payload) (length e.payload)
          (header_error-laid_out e.amount amount e.nonce e.payload wa wn)
          (ap (be_value 0) (declared_length flags amount e.nonce e.payload wa wn)
            ∙ length_read (length e.payload) short)
        ∙ decode_body-laid_out e.amount amount e.nonce e.payload field wn short)

-- What the checks of the header leave.
pub header_passed :
    (bytes : List ℕ)
    → header_error bytes ≡ none
    → (60 ≤ length bytes)
      × ((byte_at 5 bytes / 2 == 0) ≡ true)
      × (magic ++ 1 ∷ byte_at 5 bytes ∷ 0 ∷ 0 ∷ drop 8 bytes ≡ bytes)
unfolding header_error
header_passed bytes h =
    let (long, h₁) = unless_none (ltb (length bytes) payload_header_bytes) too_short _ h in
    let (known, h₂) = unless_none (not (starts_with magic bytes)) wrong_magic _ h₁ in
    let (version, h₃) =
      unless_none (not (byte_at 4 bytes == payload_envelope_version)) wrong_version _ h₂ in
    let (flags, h₄) = unless_none (not (byte_at 5 bytes / 2 == 0)) wrong_flags _ h₃ in
    let (zero_bytes, _) =
      unless_none (not (byte_at 6 bytes == 0) || not (byte_at 7 bytes == 0)) reserved_not_zero none
        h₄ in
    let enough : 60 ≤ length bytes = ground arith in
    (
      enough,
      ground arith,
      header bytes (omega (arith, enough)) (ground arith) (ground arith) (ground arith)
          (ground arith),
    )

amount_read :
    (bytes : List ℕ) (r : Result (Option ℤ)) (e : PayloadEnvelope)
    → with_amount bytes r ≡ ok e
    → (o : Option ℤ) × (r ≡ ok o)
      × (record { amount = o; payload = drop 60 bytes; nonce = slice 24 56 bytes } ≡ e)
amount_read bytes (err x) e h = cc
amount_read bytes (ok o) e h = (o, refl, cc)

pub body_passed :
    (bytes : List ℕ) (n : ℕ) (e : PayloadEnvelope)
    → decode_body bytes n ≡ ok e
    → (n ≤ 2048)
      × (length bytes ≡ 60 + n)
      × ((o : Option ℤ) × (read_amount (byte_at 5 bytes) (slice 8 24 bytes) ≡ ok o)
          × (record { amount = o; payload = drop 60 bytes; nonce = slice 24 56 bytes } ≡ e))
unfolding decode_body
body_passed bytes n e h =
    let (short, h₁) = unless_ok (ltb max_application_payload_bytes n) too_long _ e h in
    let (sized, h₂) =
      unless_ok (not (length bytes == payload_header_bytes + n)) length_mismatch _ e h₁ in
    (ground arith, ground arith, amount_read bytes _ e h₂)

pub header_body :
    (o : Option EnvelopeError) (r : Result PayloadEnvelope) (e : PayloadEnvelope)
    → elim o [ some x ↦ err x | none ↦ r ] ≡ ok e
    → (o ≡ none) × (r ≡ ok e)
header_body none r e h = (refl, h)
header_body (some x) r e h = cc
