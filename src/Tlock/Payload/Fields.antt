-- ===== src/Tlock/Payload/Fields.antt =====
-- The fields of the envelope of packages/tlock/src/payload.ts at their offsets.
use sub_rosa_issue.Prelude.{
  ℕ, ◌+◌, ◌/◌, ◌%◌, ◌≤◌, ◌≡◌, refl, sym, subst, ◌∙◌, ap, ap₂, Bool, true, false, ◌==◌, Option, none,
  some, some_inj, List, [], ◌∷◌, ◌++◌, length, length-append, take, drop, take-append, drop-append,
  drop-append_more, arith, if◌then◌else◌, not, inl, inr, Bool-cases, ℤ,
}
use sub_rosa_issue.Tlock.Commitment.{be_bytes, be_bytes_to_i128}
use sub_rosa_issue.Tlock.Commitment.Bytes.{AreBytes, length-be_bytes}
use sub_rosa_issue.Tlock.Commitment.RoundTrip.{
  length-i128_to_be_bytes, be_bytes_to_i128-i128_to_be_bytes, i128_to_be_bytes-be_bytes_to_i128,
}
use sub_rosa_issue.Tlock.Payload.{
  magic, laid_out, slice, byte_at, starts_with, all_zero, zeros, amount_field, flags_of,
  read_amount, Result, ok, err, amount_not_zero, amount_out_of_range,
}

module _ (flags : ℕ) (amount nonce payload : List ℕ) (wa : length amount ≡ 16)
    (wn : length nonce ≡ 32) where
  abbrev whole : List ℕ
  whole = laid_out flags amount nonce payload

  pub length-laid_out : length (laid_out flags amount nonce payload) ≡ 60 + length payload
  length-laid_out = omega (
    arith,
    length-append amount (nonce ++ (be_bytes 4 (length payload) ++ payload)),
    length-append nonce (be_bytes 4 (length payload) ++ payload),
    length-append (be_bytes 4 (length payload)) payload,
    length-be_bytes 4 (length payload),
    wa,
    wn,
  )

  pub amount_slice : slice 8 24 (laid_out flags amount nonce payload) ≡ amount
  amount_slice = take-append 16 amount _ wa

  after_amount : drop 24 whole ≡ nonce ++ (be_bytes 4 (length payload) ++ payload)
  after_amount = drop-append 16 amount _ wa

  pub nonce_slice : slice 24 56 (laid_out flags amount nonce payload) ≡ nonce
  nonce_slice = ap (take 32) after_amount ∙ take-append 32 nonce _ wn

  after_nonce : drop 56 whole ≡ be_bytes 4 (length payload) ++ payload
  after_nonce = drop-append_more 16 32 amount _ wa ∙ drop-append 32 nonce _ wn

  pub declared_length :
      slice 56 60 (laid_out flags amount nonce payload) ≡ be_bytes 4 (length payload)
  declared_length =
      ap (take 4) after_nonce ∙ take-append 4 _ payload (length-be_bytes 4 (length payload))

  pub payload_slice : drop 60 (laid_out flags amount nonce payload) ≡ payload
  payload_slice =
      drop-append_more 16 36 amount _ wa
      ∙ drop-append_more 32 4 nonce _ wn
      ∙ drop-append 4 _ payload (length-be_bytes 4 (length payload))

pub length-amount_field :
    (o : Option ℤ) (bytes : List ℕ) → amount_field o ≡ some bytes → length bytes ≡ 16
unfolding amount_field
length-amount_field none bytes h = ap length (sym (some_inj _ _ h))
length-amount_field (some z) bytes h = length-i128_to_be_bytes z bytes h

pub read_amount-amount_field :
    (o : Option ℤ) (bytes : List ℕ)
    → amount_field o ≡ some bytes
    → read_amount (flags_of o) bytes ≡ ok o
unfolding amount_field read_amount
read_amount-amount_field none bytes h =
    subst
      (λ bs.
        if◌then◌else◌ {A = Result (Option ℤ)} (not (all_zero bs)) (err amount_not_zero) (ok none)
        ≡ ok none)
      (some_inj _ _ h) refl
read_amount-amount_field (some z) bytes h = rw (be_bytes_to_i128-i128_to_be_bytes z bytes h) refl

all_zero-zeros : (bytes : List ℕ) → all_zero bytes ≡ true → zeros (length bytes) ≡ bytes
all_zero-zeros [] h = refl
all_zero-zeros (b ∷ bytes) h =
    ap₂ (λ x xs. x ∷ xs) (ground arith) (all_zero-zeros bytes (ground arith))

ok_inj : {A : Type 0} (a b : A) → ok a ≡ ok b → a ≡ b
ok_inj a b h = cc

read_number :
    (n : Option ℤ) (o : Option ℤ)
    → elim n [ none ↦ err amount_out_of_range | some amount ↦ ok (some amount) ] ≡ ok o
    → (z : ℤ) × (n ≡ some z) × (some z ≡ o)
read_number none o h = cc
read_number (some z) o h = (z, refl, ok_inj (some z) o h)

read_zeros :
    (b : Bool) (o : Option ℤ)
    → (if not b then err amount_not_zero else ok none) ≡ ok o
    → (b ≡ true) × (none ≡ o)
read_zeros true o h = (refl, ok_inj none o h)
read_zeros false o h = cc

odd_flags : (flags : ℕ) → (flags / 2 == 0) ≡ true → (flags % 2 == 1) ≡ true → 1 ≡ flags
odd_flags flags low odd = ground arith

even_flags : (flags : ℕ) → (flags / 2 == 0) ≡ true → (flags % 2 == 1) ≡ false → 0 ≡ flags
even_flags flags low even = ground arith

-- What the field and the flags were, by what is read.
pub amount_field-read_amount :
    (flags : ℕ) (bytes : List ℕ) (o : Option ℤ)
    → (flags / 2 == 0) ≡ true
    → length bytes ≡ 16
    → AreBytes bytes
    → read_amount flags bytes ≡ ok o
    → (flags_of o ≡ flags) × (amount_field o ≡ some bytes)
unfolding read_amount amount_field
amount_field-read_amount flags bytes o low width small h = elim (Bool-cases (flags % 2 == 1)) [
  | inl odd ↦
      let (z, read, same) = read_number (be_bytes_to_i128 bytes) o (rw odd at h) in
      subst (λ o. (flags_of o ≡ flags) × (amount_field o ≡ some bytes)) same
        (odd_flags flags low odd, i128_to_be_bytes-be_bytes_to_i128 bytes z small read)
  | inr even ↦
      let (zero_field, same) = read_zeros (all_zero bytes) o (rw even at h) in
      subst (λ o. (flags_of o ≡ flags) × (amount_field o ≡ some bytes)) same
        (
          even_flags flags low even,
          ap some (ap zeros (sym width) ∙ all_zero-zeros bytes zero_field),
        )
]

-- The first eight bytes.
pub header :
    (bytes : List ℕ)
    → 8 ≤ length bytes
    → starts_with magic bytes ≡ true
    → byte_at 4 bytes ≡ 1
    → byte_at 6 bytes ≡ 0
    → byte_at 7 bytes ≡ 0
    → magic ++ 1 ∷ byte_at 5 bytes ∷ 0 ∷ 0 ∷ drop 8 bytes ≡ bytes
header (a ∷ b ∷ c ∷ d ∷ e ∷ f ∷ g ∷ h ∷ rest) l m v r r' =
    let q : (a ≡ 83) × (b ≡ 82) × (c ≡ 80) × (d ≡ 0) = ground arith in cc
header [] l m v r r' = cc
header (a ∷ []) l m v r r' = absurd (omega (arith, l))
header (a ∷ b ∷ []) l m v r r' = absurd (omega (arith, l))
header (a ∷ b ∷ c ∷ []) l m v r r' = absurd (omega (arith, l))
header (a ∷ b ∷ c ∷ d ∷ []) l m v r r' = absurd (omega (arith, l))
header (a ∷ b ∷ c ∷ d ∷ e ∷ []) l m v r r' = absurd (omega (arith, l))
header (a ∷ b ∷ c ∷ d ∷ e ∷ f ∷ []) l m v r r' = absurd (omega (arith, l))
header (a ∷ b ∷ c ∷ d ∷ e ∷ f ∷ g ∷ []) l m v r r' = absurd (omega (arith, l))
