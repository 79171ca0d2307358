-- ===== src/Tlock/Payload/Canonical.antt =====
-- The envelope of packages/tlock/src/payload.ts has one encoding.
use sub_rosa_issue.Prelude.{
  ℕ, ◌+◌, ◌≤◌, ◌<◌, ◌≡◌, refl, sym, subst, ◌∙◌, ap, false, Option, some, List, ◌∷◌, ◌++◌, length,
  take, drop, arith, All-take, All-drop, ltb, ℤ, length-drop_lem, drop-drop, append-take-drop,
  length-take_le,
}
use sub_rosa_issue.Tlock.Commitment.{be_bytes, be_value}
use sub_rosa_issue.Tlock.Commitment.Bytes.{AreBytes, be_bytes-be_value}
use sub_rosa_issue.Tlock.Payload.{
  magic, PayloadEnvelope, ok, amount_field, flags_of, laid_out, encode_payload_envelope, slice,
  byte_at, header_error, decode_body, decode_payload_envelope,
}
use sub_rosa_issue.Tlock.Payload.Fields.{amount_field-read_amount}
use sub_rosa_issue.Tlock.Payload.RoundTrip.{header_passed, body_passed, header_body}

-- The bytes are their fields in order.
joined : (n m : ℕ) (bytes : List ℕ) → take m (drop n bytes) ++ drop (n + m) bytes ≡ drop n bytes
joined n m bytes =
    ap (λ t. take m (drop n bytes) ++ t) (sym (drop-drop n m bytes))
    ∙ append-take-drop m (drop n bytes)

rejoined :
    (bytes : List ℕ)
    → slice 8 24 bytes ++ (slice 24 56 bytes ++ (slice 56 60 bytes ++ drop 60 bytes)) ≡ drop 8 bytes
rejoined bytes =
    ap (λ t. slice 8 24 bytes ++ t)
      (ap (λ t. slice 24 56 bytes ++ t) (joined 56 4 bytes) ∙ joined 24 32 bytes)
    ∙ joined 8 16 bytes

-- A field within the bytes has its length.
length-field :
    (n m : ℕ) (bytes : List ℕ) → n + m ≤ length bytes → length (take m (drop n bytes)) ≡ m
length-field n m bytes h =
    length-take_le m (drop n bytes) (omega (arith, length-drop_lem n bytes, h))

-- The declared length is written as it was read.
length_written :
    (bytes : List ℕ)
    → AreBytes bytes
    → 60 ≤ length bytes
    → length bytes ≡ 60 + be_value 0 (slice 56 60 bytes)
    → be_bytes 4 (length (drop 60 bytes)) ≡ slice 56 60 bytes
length_written bytes small long sized =
    let field = slice 56 60 bytes in
    let n : length (drop 60 bytes) ≡ be_value 0 field =
      omega (arith, length-drop_lem 60 bytes, sized, long) in
    ap (be_bytes 4) n
    ∙ subst (λ k. be_bytes k (be_value 0 field) ≡ field) (length-field 56 4 bytes long)
        (be_bytes-be_value 0 field
          (All-take (λ b. b < 256) 4 (drop 56 bytes) (All-drop (λ b. b < 256) 56 bytes small)))

encode_fields :
    (o : Option ℤ) (amount nonce payload : List ℕ)
    → amount_field o ≡ some amount
    → length nonce ≡ 32
    → length payload ≤ 2048
    → encode_payload_envelope (record { amount = o; payload = payload; nonce = nonce })
      ≡ ok (laid_out (flags_of o) amount nonce payload)
unfolding encode_payload_envelope
encode_fields o amount nonce payload field wn short =
    let fits : ltb 2048 (length payload) ≡ false = ground arith in rw (wn, fits, field) refl

-- Bytes that decode to an envelope are the ones that it is encoded to: an envelope has one encoding,
-- so that the hash of the bytes binds a bidder to the envelope, and the bytes to the hash.
pub encode_payload_envelope-decode_payload_envelope :
    (bytes : List ℕ) (e : PayloadEnvelope)
    → AreBytes bytes
    → decode_payload_envelope bytes ≡ ok e
    → encode_payload_envelope e ≡ ok bytes
unfolding decode_payload_envelope
encode_payload_envelope-decode_payload_envelope bytes e small h =
    let n = be_value 0 (slice 56 60 bytes) in
    let (passed, body) = header_body (header_error bytes) (decode_body bytes n) e h in
    let (long, low, head) = header_passed bytes passed in
    let (short, sized, (o, read, same)) = body_passed bytes n e body in
    let amount = slice 8 24 bytes in
    let (flags, field) =
      amount_field-read_amount (byte_at 5 bytes) amount o low
        (length-field 8 16 bytes (omega (arith, long)))
        (All-take (λ b. b < 256) 16 (drop 8 bytes) (All-drop (λ b. b < 256) 8 bytes small)) read in
    let fits : length (drop 60 bytes) ≤ 2048 =
      omega (arith, length-drop_lem 60 bytes, sized, short) in
    subst (λ e. encode_payload_envelope e ≡ ok bytes) same
      (encode_fields o amount (slice 24 56 bytes) (drop 60 bytes) field
          (length-field 24 32 bytes (omega (arith, long))) fits
        ∙ ap ok (
            ap (λ f. laid_out f amount (slice 24 56 bytes) (drop 60 bytes)) flags
            ∙ ap
                (λ l.
                  magic
                  ++ (1 ∷ byte_at 5 bytes ∷ 0 ∷ 0 ∷ amount)
                  ++ (slice 24 56 bytes ++ (l ++ drop 60 bytes)))
                (length_written bytes small long sized)
            ∙ ap (λ t. magic ++ 1 ∷ byte_at 5 bytes ∷ 0 ∷ 0 ∷ t) (rejoined bytes)
            ∙ head))
