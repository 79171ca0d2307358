-- ===== src/Prelude/Assoc.antt =====
-- Association lists for the source's `Map`s and objects, over any key with a lawful Boolean test. A
-- key that is set again keeps its place, as in the source's language.
use mathlib.Core.Path.{◌≡◌, refl, subst}
use mathlib.Core.Logic.{◌↔◌, inl, inr}
use mathlib.Core.Bool.{Bool, true, false, not, ◌&&◌, ◌||◌}
use mathlib.Core.Option.{Option, none, some}
use mathlib.Core.List.{List, [], ◌∷◌}
use native.Mathlib.Omega.{arith}
use sub_rosa_issue.Prelude.Tests.{if◌then◌else◌, Bool-cases, some_inj}
use sub_rosa_issue.Prelude.Lists.{All}

module _ {ℓ κ} {K : Type ℓ} {V : Type κ} (eq : K → K → Bool) where
  abbrev pub get : List (K × V) → K → Option V
  get [] k = none
  get (e ∷ es) k = let rest = get es k in if eq e.0 k then some (e.1) else rest

  abbrev pub put : List (K × V) → K → V → List (K × V)
  put [] k v = (k, v) ∷ []
  put (e ∷ es) k v = let rest = put es k v in if eq e.0 k then (e.0, v) ∷ es else e ∷ rest

  abbrev pub delete : List (K × V) → K → List (K × V)
  delete [] k = []
  delete (e ∷ es) k = let rest = delete es k in if eq e.0 k then rest else e ∷ rest

module _ {ℓ κ} {K : Type ℓ} {V : Type κ} (eq : K → K → Bool)
    (eq_iff : (a b : K) → (eq a b ≡ true) ↔ (a ≡ b)) where
  pub get-put :
      (es : List (K × V)) (k : K) (v : V) (j : K)
      → get eq (put eq es k v) j ≡ (if eq k j then some v else get eq es j)
  get-put [] k v j = refl
  get-put (e ∷ es) k v j =
      let ih = get-put es k v j in let same = eq_iff (e.0) k in grind (arith, ih, same)

  pub get-delete :
      (es : List (K × V)) (k j : K)
      → get eq (delete eq es k) j ≡ (if eq k j then none else get eq es j)
  get-delete [] k j = ground arith
  get-delete (e ∷ es) k j = let ih = get-delete es k j in grind (arith, ih, eq_iff (e.0) k)

module _ {ℓ κ} {K : Type ℓ} {V : Type κ} (eq : K → K → Bool) where
  abbrev pub has_key : List (K × V) → K → Bool
  has_key [] k = false
  has_key (e ∷ es) k = eq e.0 k || has_key es k

  -- No key stands twice.
  abbrev pub Unique : List (K × V) → Type 0
  Unique [] = Unit
  Unique (e ∷ es) = (has_key es e.0 ≡ false) × Unique es

module _ {ℓ κ} {K : Type ℓ} {V : Type κ} (eq : K → K → Bool)
    (eq_iff : (a b : K) → (eq a b ≡ true) ↔ (a ≡ b)) where
  has_key-put :
      (es : List (K × V)) (k : K) (v : V) (j : K)
      → has_key eq (put eq es k v) j ≡ (eq k j || has_key eq es j)
  has_key-put [] k v j = ground arith
  has_key-put (e ∷ es) k v j = let ih = has_key-put es k v j in grind (arith, ih, eq_iff (e.0) k)

  has_key-delete :
      (es : List (K × V)) (k j : K)
      → has_key eq (delete eq es k) j ≡ (has_key eq es j && not (eq k j))
  has_key-delete [] k j = ground arith
  has_key-delete (e ∷ es) k j =
      let ih = has_key-delete es k j in
      grind (arith, ih, eq_iff (e.0) k, eq_iff k j, eq_iff (e.0) j)

  pub Unique-put : (es : List (K × V)) (k : K) (v : V) → Unique eq es → Unique eq (put eq es k v)
  Unique-put [] k v u = (refl, tt)
  Unique-put (e ∷ es) k v u = elim (Bool-cases (eq e.0 k)) [
    | inl y ↦ rw y u
    | inr y ↦
        let h = has_key-put es k v (e.0) in
        rw y (grind (arith, h, y, u.0, eq_iff k (e.0), eq_iff (e.0) k), Unique-put es k v u.1)
  ]

  pub Unique-delete : (es : List (K × V)) (k : K) → Unique eq es → Unique eq (delete eq es k)
  Unique-delete [] k u = tt
  Unique-delete (e ∷ es) k u = elim (Bool-cases (eq e.0 k)) [
    | inl y ↦ rw y (Unique-delete es k u.1)
    | inr y ↦
        let h = has_key-delete es k (e.0) in rw y (ground (arith, h, u.0), Unique-delete es k u.1)
  ]

module _ {ℓ κ μ} {K : Type ℓ} {V : Type κ} (eq : K → K → Bool) (P : V → Type μ) where
  pub All-put :
      (es : List (K × V)) (k : K) (v : V)
      → All (λ e. P (e.1)) es
      → P v
      → All (λ e. P (e.1)) (put eq es k v)
  All-put [] k v a p = (p, tt)
  All-put (e ∷ es) k v a p = elim (Bool-cases (eq e.0 k)) [
    | inl y ↦ rw y (p, a.1)
    | inr y ↦ rw y (a.0, All-put es k v a.1 p)
  ]

  pub All-delete :
      (es : List (K × V)) (k : K) → All (λ e. P (e.1)) es → All (λ e. P (e.1)) (delete eq es k)
  All-delete [] k a = tt
  All-delete (e ∷ es) k a = elim (Bool-cases (eq e.0 k)) [
    | inl y ↦ rw y (All-delete es k a.1)
    | inr y ↦ rw y (a.0, All-delete es k a.1)
  ]

  pub All-get :
      (es : List (K × V)) (k : K) (v : V) → All (λ e. P (e.1)) es → get eq es k ≡ some v → P v
  All-get [] k v a h = cc
  All-get (e ∷ es) k v a h = elim (Bool-cases (eq e.0 k)) [
    | inl y ↦ subst P (some_inj (e.1) v (ground (arith, h, y))) (a.0)
    | inr y ↦ All-get es k v a.1 (ground (arith, h, y))
  ]
