-- ===== src/Keeper/Queue/Sets.antt =====
-- The laws of the sets of round ids of services/keeper/src/queue.ts.
use sub_rosa_issue.Prelude.{
  ℕ, ◌≡◌, refl, ap, true, not, ◌&&◌, ◌||◌, Bool-cases, List, [], ◌∷◌, ◌++◌, ◌==◌, arith, inl, inr,
}
use sub_rosa_issue.Keeper.Queue.{has, insert, erase}

has-append : (xs : List ℕ) (a b : ℕ) → has (xs ++ a ∷ []) b ≡ (has xs b || a == b)
unfolding has
has-append [] a b = ground arith
has-append (x ∷ xs) a b = rw (has-append xs a b) (ground arith)

has_equal : (xs : List ℕ) (a b : ℕ) → (a == b) ≡ true → has xs a ≡ has xs b
has_equal xs a b e = ap (has xs) (ground arith)

pub has-insert : (xs : List ℕ) (a b : ℕ) → has (insert xs a) b ≡ (has xs b || a == b)
unfolding insert
has-insert xs a b = elim (Bool-cases (has xs a)) [
  | inl y ↦
      let same = has_equal xs a b in
      rw y (elim (Bool-cases (a == b)) [
        | inl e ↦ let t = same e in ground (arith, t, y, e)
        | inr e ↦ ground (arith, e)
      ])
  | inr y ↦ rw (y, has-append xs a b) refl
]

pub has-erase : (xs : List ℕ) (a b : ℕ) → has (erase xs a) b ≡ (has xs b && not (a == b))
unfolding has erase
has-erase [] a b = ground arith
has-erase (x ∷ xs) a b = let ih = has-erase xs a b in ground (arith, ih)
