-- ===== src/Tlock/Commitment/Bytes.antt =====
-- Big-endian bytes of packages/tlock/src/commitment.ts.
use sub_rosa_issue.Prelude.{
  ℕ, zero, suc, ◌+◌, ◌*◌, ◌/◌, ◌%◌, ◌<◌, ◌≡◌, refl, ◌∙◌, ap, ap₂, List, [], ◌∷◌, ◌++◌, length,
  length-append, arith, All,
}
use sub_rosa_issue.Tlock.Commitment.{be_bytes, be_value}

-- 256 to the power of a count.
unfoldable pub power : ℕ → ℕ
power zero = 1
power (suc count) = 256 * power count

abbrev pub AreBytes : List ℕ → Type 0
AreBytes bytes = All (λ b. b < 256) bytes

pub length-be_bytes : (count u : ℕ) → length (be_bytes count u) ≡ count
unfolding be_bytes
length-be_bytes zero u = refl
length-be_bytes (suc count) u = omega (
  arith,
  length-append (be_bytes count (u / 256)) (u % 256 ∷ []),
  length-be_bytes count (u / 256),
)

be_value-append :
    (u : ℕ) (bytes : List ℕ) (b : ℕ) → be_value u (bytes ++ b ∷ []) ≡ be_value u bytes * 256 + b
unfolding be_value
be_value-append u [] b = refl
be_value-append u (c ∷ bytes) b = be_value-append (u * 256 + c) bytes b

pub be_value-be_bytes : (count u : ℕ) → u < power count → be_value 0 (be_bytes count u) ≡ u
unfolding be_bytes be_value power
be_value-be_bytes zero u h = omega arith
be_value-be_bytes (suc count) u h =
    be_value-append 0 (be_bytes count (u / 256)) (u % 256)
    ∙ ap (λ v. v * 256 + u % 256) (be_value-be_bytes count (u / 256) (omega arith))
    ∙ omega arith

-- The number without its lowest bytes.
top : ℕ → ℕ → ℕ
top zero u = u
top (suc count) u = top count u / 256

top-div : (count u : ℕ) → top count (u / 256) ≡ top count u / 256
unfolding top
top-div zero u = refl
top-div (suc count) u = ap (λ v. v / 256) (top-div count u)

be_bytes-head : (count u : ℕ) → be_bytes (suc count) u ≡ top count u % 256 ∷ be_bytes count u
unfolding be_bytes top
be_bytes-head zero u = refl
be_bytes-head (suc count) u =
    ap (λ bytes. bytes ++ u % 256 ∷ []) (be_bytes-head count (u / 256))
    ∙ ap (λ v. v % 256 ∷ be_bytes count (u / 256) ++ u % 256 ∷ []) (top-div count u)

top-be_value : (u : ℕ) (bytes : List ℕ) → AreBytes bytes → top (length bytes) (be_value u bytes) ≡ u
unfolding top be_value
top-be_value u [] h = refl
top-be_value u (b ∷ bytes) (small, h) =
    ap (λ v. v / 256) (top-be_value (u * 256 + b) bytes h) ∙ omega arith

pub be_bytes-be_value :
    (u : ℕ) (bytes : List ℕ) → AreBytes bytes → be_bytes (length bytes) (be_value u bytes) ≡ bytes
unfolding be_value be_bytes
be_bytes-be_value u [] h = refl
be_bytes-be_value u (b ∷ bytes) (small, h) =
    let last_byte : (u * 256 + b) % 256 ≡ b = omega arith in
    be_bytes-head (length bytes) (be_value (u * 256 + b) bytes)
    ∙ ap (λ v. v % 256 ∷ be_bytes (length bytes) (be_value (u * 256 + b) bytes))
        (top-be_value (u * 256 + b) bytes h)
    ∙ ap₂ (λ x xs. x ∷ xs) last_byte (be_bytes-be_value (u * 256 + b) bytes h)
