-- ===== src/Tlock/Commitment/RoundTrip.antt =====
-- The bytes of a bid of packages/tlock/src/commitment.ts, there and back.
use native.Mathlib.Nat.{mul_assoc, mul-le-mul_right}
use sub_rosa_issue.Prelude.{
  ℕ, ◌+◌, ◌*◌, ◌≤◌, ◌<◌, ◌≡◌, ◌↔◌, refl, sym, subst, ◌∙◌, ap, Bool, true, false, ◌==◌, Option, none,
  some, some_inj, unless_some, map_some, take-append, drop-append, append-take-drop,
  length-drop_lem, All-take, List, [], ◌∷◌, ◌++◌, length, length-append, take, drop, arith, ℤ, pos,
  negsuc, ◌-ℤ◌, not, if◌then◌else◌,
}
use sub_rosa_issue.Tlock.Commitment.{
  value_bytes, nonce_bytes, preimage_bytes, commitment_bytes, two_128, out_of_i128, wrap, be_bytes,
  be_value, i128_to_be_bytes, signed, be_bytes_to_i128, encode_bid_preimage, decode_bid_preimage,
  commitment, commitment_matches, same_bytes,
}
use sub_rosa_issue.Tlock.Commitment.Bytes.{
  power, AreBytes, length-be_bytes, be_value-be_bytes, be_bytes-be_value,
}

power_16 : power 16 ≡ two_128
unfolding power
power_16 = refl

wrap_lt : (z : ℤ) → wrap z < two_128
wrap_lt (pos n) = omega arith
wrap_lt (negsuc n) = omega arith

signed-wrap : (z : ℤ) → out_of_i128 z ≡ false → signed (wrap z) ≡ z
unfolding out_of_i128 ◌-ℤ◌
signed-wrap (pos n) h = ground arith
signed-wrap (negsuc n) h = ground arith

in_i128-signed : (u : ℕ) → u < two_128 → out_of_i128 (signed u) ≡ false
unfolding out_of_i128 ◌-ℤ◌
in_i128-signed u h = ground arith

wrap-signed : (u : ℕ) → u < two_128 → wrap (signed u) ≡ u
unfolding ◌-ℤ◌
wrap-signed u h = ground arith

i128_to_be_bytes-signed :
    (u : ℕ) → u < two_128 → i128_to_be_bytes (signed u) ≡ some (be_bytes value_bytes u)
unfolding i128_to_be_bytes
i128_to_be_bytes-signed u h =
    rw (in_i128-signed u h) (ap (λ v. some (be_bytes value_bytes v)) (wrap-signed u h))

i128_bytes :
    (z : ℤ) (bytes : List ℕ)
    → i128_to_be_bytes z ≡ some bytes
    → (out_of_i128 z ≡ false) × (be_bytes value_bytes (wrap z) ≡ bytes)
unfolding i128_to_be_bytes
i128_bytes z bytes h =
    let (fits, e) = unless_some (out_of_i128 z) (some (be_bytes value_bytes (wrap z))) bytes h in
    (fits, some_inj _ _ e)

pub length-i128_to_be_bytes :
    (z : ℤ) (bytes : List ℕ) → i128_to_be_bytes z ≡ some bytes → length bytes ≡ value_bytes
length-i128_to_be_bytes z bytes h =
    subst (λ bs. length bs ≡ value_bytes) (i128_bytes z bytes h).1
      (length-be_bytes value_bytes (wrap z))

pub be_bytes_to_i128-i128_to_be_bytes :
    (z : ℤ) (bytes : List ℕ) → i128_to_be_bytes z ≡ some bytes → be_bytes_to_i128 bytes ≡ some z
unfolding be_bytes_to_i128
be_bytes_to_i128-i128_to_be_bytes z bytes h =
    let (fits, e) = i128_bytes z bytes h in
    let low : wrap z < power 16 = subst (λ n. wrap z < n) (sym power_16) (wrap_lt z) in
    subst
      (λ bs.
        (if not (length bs == value_bytes) then none else some (signed (be_value 0 bs))) ≡ some z)
      e
      (rw (length-be_bytes value_bytes (wrap z), be_value-be_bytes 16 (wrap z) low)
        (ap some (signed-wrap z fits)))

be_value_lt :
    (u : ℕ) (bytes : List ℕ) → AreBytes bytes → be_value u bytes < (u + 1) * power (length bytes)
unfolding be_value power
be_value_lt u [] h = omega arith
be_value_lt u (b ∷ bytes) (small, h) =
    let p = power (length bytes) in
    let room : u * 256 + b + 1 ≤ (u + 1) * 256 = omega arith in
    omega
      (arith, be_value_lt (u * 256 + b) bytes h, mul-le-mul_right p room, mul_assoc (u + 1) 256 p)

pub i128_to_be_bytes-be_bytes_to_i128 :
    (bytes : List ℕ) (z : ℤ)
    → AreBytes bytes
    → be_bytes_to_i128 bytes ≡ some z
    → i128_to_be_bytes z ≡ some bytes
unfolding be_bytes_to_i128
i128_to_be_bytes-be_bytes_to_i128 bytes z small h =
    let (sized, e) =
      unless_some (not (length bytes == value_bytes)) (some (signed (be_value 0 bytes))) z h in
    let width : length bytes ≡ 16 = ground arith in
    let low : be_value 0 bytes < two_128 =
      subst (λ n. be_value 0 bytes < n)
        (ap (λ n. (0 + 1) * power n) width ∙ ap (λ n. (0 + 1) * n) power_16)
        (be_value_lt 0 bytes small) in
    subst (λ v. i128_to_be_bytes v ≡ some bytes) (some_inj _ _ e)
      (i128_to_be_bytes-signed (be_value 0 bytes) low
        ∙ ap some (
            subst (λ n. be_bytes n (be_value 0 bytes) ≡ bytes) width
              (be_bytes-be_value 0 bytes small)))

unless_sized : (n m : ℕ) → not (n == m) ≡ false → n ≡ m
unless_sized n m h = ground arith

encoded :
    (value : ℤ) (nonce preimage : List ℕ)
    → encode_bid_preimage value nonce ≡ some preimage
    → (length nonce ≡ nonce_bytes)
      × ((bytes : List ℕ) × (i128_to_be_bytes value ≡ some bytes) × (bytes ++ nonce ≡ preimage))
unfolding encode_bid_preimage
encoded value nonce preimage h =
    let (sized, e) = unless_some (not (length nonce == nonce_bytes)) _ preimage h in
    (
      unless_sized (length nonce) nonce_bytes sized,
      map_some (i128_to_be_bytes value) (λ bytes. bytes ++ nonce) preimage e,
    )

decoded :
    (preimage : List ℕ) (value : ℤ) (nonce : List ℕ)
    → decode_bid_preimage preimage ≡ some (value, nonce)
    → (length preimage ≡ preimage_bytes)
      × (be_bytes_to_i128 (take value_bytes preimage) ≡ some value)
      × (drop value_bytes preimage ≡ nonce)
unfolding decode_bid_preimage
decoded preimage value nonce h =
    let (sized, e) = unless_some (not (length preimage == preimage_bytes)) _ (value, nonce) h in
    let (v, read, same) =
      map_some (be_bytes_to_i128 (take value_bytes preimage)) (λ v. (v, drop value_bytes preimage))
        (value, nonce) e in
    (
      unless_sized (length preimage) preimage_bytes sized,
      read ∙ ap (λ q. some q.0) same,
      ap (λ q. q.1) same,
    )

-- The bytes that a bid of a 32-byte nonce is encoded to decode to its value and its nonce.
pub decode_bid_preimage-encode_bid_preimage :
    (value : ℤ) (nonce preimage : List ℕ)
    → encode_bid_preimage value nonce ≡ some preimage
    → decode_bid_preimage preimage ≡ some (value, nonce)
unfolding decode_bid_preimage
decode_bid_preimage-encode_bid_preimage value nonce preimage h =
    let (sized, (bytes, written, joined)) = encoded value nonce preimage h in
    let width = length-i128_to_be_bytes value bytes written in
    let total : length (bytes ++ nonce) ≡ 48 =
      omega (arith, length-append bytes nonce, width, sized) in
    subst (λ p. decode_bid_preimage p ≡ some (value, nonce)) joined
      (rw
        (
          total,
          take-append value_bytes bytes nonce width,
          be_bytes_to_i128-i128_to_be_bytes value bytes written,
          drop-append value_bytes bytes nonce width,
        )
        refl)

-- Bytes that decode to a value and a nonce are the ones that these are encoded to: no two byte
-- sequences open to the same bid.
pub encode_bid_preimage-decode_bid_preimage :
    (preimage : List ℕ) (value : ℤ) (nonce : List ℕ)
    → AreBytes preimage
    → decode_bid_preimage preimage ≡ some (value, nonce)
    → encode_bid_preimage value nonce ≡ some preimage
unfolding encode_bid_preimage
encode_bid_preimage-decode_bid_preimage preimage value nonce small h =
    let (sized, read, rest) = decoded preimage value nonce h in
    let width : length nonce ≡ 32 =
      omega (arith, ap length rest, length-drop_lem value_bytes preimage, sized) in
    let written =
      i128_to_be_bytes-be_bytes_to_i128 (take value_bytes preimage) value
        (All-take (λ b. b < 256) value_bytes preimage small) read in
    rw (width, written)
      (ap some (
        ap (λ n. take value_bytes preimage ++ n) (sym rest)
        ∙ append-take-drop value_bytes preimage))

pub same_bytes_iff : (xs ys : List ℕ) → (same_bytes xs ys ≡ true) ↔ (xs ≡ ys)
same_bytes_iff [] [] = (λ h. refl, λ h. refl)
same_bytes_iff [] (y ∷ ys) = (λ h. cc, λ h. cc)
same_bytes_iff (x ∷ xs) [] = (λ h. cc, λ h. cc)
same_bytes_iff (x ∷ xs) (y ∷ ys) = ground (arith, same_bytes_iff xs ys)

unless_false :
    (b : Bool) (o : Option Bool)
    → (if b then some false else o) ≡ some true
    → (b ≡ false) × (o ≡ some true)
unless_false true o h = cc
unless_false false o h = (refl, h)

module _ (sha256 : List ℕ → List ℕ) (value : ℤ) (nonce expected : List ℕ) where
  nonce_sized : commitment sha256 value nonce ≡ some expected → length nonce ≡ nonce_bytes
  unfolding commitment
  nonce_sized h =
      let (preimage, e, _) = map_some (encode_bid_preimage value nonce) sha256 expected h in
      (encoded value nonce preimage e).0

  -- A commitment matches a bid exactly if it is 32 bytes long and is the hash of the bytes that the bid
  -- is encoded to, which takes a nonce of 32 bytes and a value of 128 bits.
  pub commitment_matches_iff :
      (commitment_matches sha256 value nonce expected ≡ some true)
      ↔ ((commitment sha256 value nonce ≡ some expected) × (length expected ≡ commitment_bytes))
  unfolding commitment_matches
  commitment_matches_iff = (
    λ h.
        let (sized, h₁) = unless_false (not (length expected == commitment_bytes)) _ h in
        let (_, h₂) = unless_false (not (length nonce == nonce_bytes)) _ h₁ in
        let (actual, e, same) =
          map_some (commitment sha256 value nonce) (λ actual. same_bytes actual expected) true h₂ in
        (
          e ∙ ap some ((same_bytes_iff actual expected).0 same),
          unless_sized (length expected) commitment_bytes sized,
        ),
    λ (h, sized). rw (sized, nonce_sized h, h, (same_bytes_iff expected expected).1 refl) refl,
  )
