-- ===== src/Keeper/Tick/Find/Ids.antt =====
-- The ids that `parseRoundIdSpec` of services/keeper/src/keeper.ts makes of a list of parts.
use sub_rosa_issue.Prelude.{
  ℕ, zero, suc, ◌+◌, ◌-◌, ◌≤◌, ◌<◌, ◌≡◌, ◌≢◌, ◌⊎◌, ◌∙◌, ap, none, some, refl, sym, subst, ◌==◌,
  ◌||◌, ◌&&◌, leb, ltb, Bool, true, false, List, [], ◌∷◌, ◌++◌, arith, inl, inr, Bool-cases, All,
  ==_iff,
}
use sub_rosa_issue.Keeper.Tick.Find.{
  Part, single, range, member, add_id, add_from, add_part, add_parts, insert_id, sort_ids,
  sort_throws, parse_round_id_spec,
}

-- Whether a part names the id.
abbrev pub names : ℕ → Part → Bool
names n (single m) = n == m
names n (range a b) = leb a n && leb n b

unfoldable pub named : ℕ → List Part → Bool
named n [] = false
named n (p ∷ rest) = names n p || named n rest

-- Each id is below the ones after it.
unfoldable pub IsAscending : List ℕ → Type 0
IsAscending [] = Unit
IsAscending (x ∷ rest) = All (λ y. x < y) rest × IsAscending rest

member-append : (n x : ℕ) (ids : List ℕ) → member n (ids ++ x ∷ []) ≡ (n == x || member n ids)
unfolding member
member-append n x [] = ground arith
member-append n x (y ∷ ids) = rw (member-append n x ids) (ground arith)

known_member :
    (n x : ℕ) (ids : List ℕ) → member x ids ≡ true → member n ids ≡ (n == x || member n ids)
known_member n x ids h = elim (Bool-cases (n == x)) [
  | inl same ↦ rw same (subst (λ i. member i ids ≡ true) (sym ((==_iff n x).0 same)) h)
  | inr other ↦ rw other refl
]

member-add_id : (n x : ℕ) (ids : List ℕ) → member n (add_id ids x) ≡ (n == x || member n ids)
unfolding add_id
member-add_id n x ids = elim (Bool-cases (member x ids)) [
  | inl h ↦ rw h (known_member n x ids h)
  | inr h ↦ rw (h, member-append n x ids) refl
]

member-add_from :
    (n : ℕ) (ids : List ℕ) (first count : ℕ)
    → member n (add_from ids first count) ≡ ((leb first n && ltb n (first + count)) || member n ids)
unfolding add_from
member-add_from n ids first zero = ground arith
member-add_from n ids first (suc count) =
    rw (member-add_from n (add_id ids first) (first + 1) count, member-add_id n first ids)
      (ground arith)

member-add_part :
    (n : ℕ) (ids : List ℕ) (p : Part) → member n (add_part ids p) ≡ (names n p || member n ids)
unfolding add_part
member-add_part n ids (single m) = member-add_id n m ids
member-add_part n ids (range a b) = rw (member-add_from n ids a (b + 1 - a)) (ground arith)

member-add_parts :
    (n : ℕ) (ids : List ℕ) (parts : List Part)
    → member n (add_parts ids parts) ≡ (named n parts || member n ids)
unfolding add_parts named
member-add_parts n ids [] = refl
member-add_parts n ids (p ∷ parts) =
    rw (member-add_parts n (add_part ids p) parts, member-add_part n ids p) (ground arith)

named_lem : (parts : List Part) (n : ℕ) → member n (add_parts [] parts) ≡ named n parts
unfolding member
named_lem parts n = member-add_parts n [] parts ∙ ground arith

member-insert_id : (n x : ℕ) (ids : List ℕ) → member n (insert_id x ids) ≡ (n == x || member n ids)
unfolding insert_id member
member-insert_id n x [] = refl
member-insert_id n x (y ∷ ids) = ground (arith, member-insert_id n x ids)

pub member-sort_ids : (n : ℕ) (ids : List ℕ) → member n (sort_ids ids) ≡ member n ids
unfolding sort_ids member
member-sort_ids n [] = refl
member-sort_ids n (x ∷ ids) = rw (member-insert_id n x (sort_ids ids), member-sort_ids n ids) refl

-- Without a duplicate.
unfoldable pub IsDistinct : List ℕ → Type 0
IsDistinct [] = Unit
IsDistinct (x ∷ rest) = (member x rest ≡ false) × IsDistinct rest

IsDistinct-append :
    (x : ℕ) (ids : List ℕ) → member x ids ≡ false → IsDistinct ids → IsDistinct (ids ++ x ∷ [])
unfolding IsDistinct member
IsDistinct-append x [] h i = (refl, tt)
IsDistinct-append x (y ∷ ids) h (n, i) =
    (rw (member-append y x ids, n) (ground arith), IsDistinct-append x ids (ground arith) i)

IsDistinct-add_id : (x : ℕ) (ids : List ℕ) → IsDistinct ids → IsDistinct (add_id ids x)
unfolding add_id
IsDistinct-add_id x ids i = elim (Bool-cases (member x ids)) [
  | inl h ↦ rw h i
  | inr h ↦ rw h (IsDistinct-append x ids h i)
]

IsDistinct-add_from :
    (ids : List ℕ) (first count : ℕ) → IsDistinct ids → IsDistinct (add_from ids first count)
unfolding add_from
IsDistinct-add_from ids first zero i = i
IsDistinct-add_from ids first (suc count) i =
    IsDistinct-add_from (add_id ids first) (first + 1) count (IsDistinct-add_id first ids i)

IsDistinct-add_part : (ids : List ℕ) (p : Part) → IsDistinct ids → IsDistinct (add_part ids p)
unfolding add_part
IsDistinct-add_part ids (single n) i = IsDistinct-add_id n ids i
IsDistinct-add_part ids (range a b) i = IsDistinct-add_from ids a (b + 1 - a) i

IsDistinct-add_parts :
    (ids : List ℕ) (parts : List Part) → IsDistinct ids → IsDistinct (add_parts ids parts)
unfolding add_parts
IsDistinct-add_parts ids [] i = i
IsDistinct-add_parts ids (p ∷ parts) i =
    IsDistinct-add_parts (add_part ids p) parts (IsDistinct-add_part ids p i)

below-insert_id :
    (a x : ℕ) (ids : List ℕ) → a < x → All (λ y. a < y) ids → All (λ y. a < y) (insert_id x ids)
unfolding insert_id
below-insert_id a x [] h all = (h, tt)
below-insert_id a x (y ∷ ids) h (l, all) = elim (Bool-cases (leb x y)) [
  | inl e ↦ rw e (h, (l, all))
  | inr e ↦ rw e (l, below-insert_id a x ids h all)
]

below-All : (a x : ℕ) (ids : List ℕ) → a ≤ x → All (λ y. x < y) ids → All (λ y. a < y) ids
below-All a x [] h all = tt
below-All a x (y ∷ ids) h (l, all) = (omega arith, below-All a x ids h all)

IsAscending-insert_id :
    (x : ℕ) (ids : List ℕ) → member x ids ≡ false → IsAscending ids → IsAscending (insert_id x ids)
unfolding IsAscending insert_id member
IsAscending-insert_id x [] n i = (tt, tt)
IsAscending-insert_id x (y ∷ ids) n (all, i) = elim (Bool-cases (leb x y)) [
  | inl e ↦
      let less : x < y = ground arith in
      rw e ((less, below-All x y ids (omega arith) all), (all, i))
  | inr e ↦
      rw e
        (below-insert_id y x ids (ground arith) all, IsAscending-insert_id x ids (ground arith) i)
]

IsAscending-sort_ids : (ids : List ℕ) → IsDistinct ids → IsAscending (sort_ids ids)
unfolding IsAscending sort_ids IsDistinct
IsAscending-sort_ids [] i = tt
IsAscending-sort_ids (x ∷ ids) (n, i) =
    IsAscending-insert_id x (sort_ids ids) (rw (member-sort_ids x ids) n)
      (IsAscending-sort_ids ids i)

throws_lem :
    (ids : List ℕ)
    → IsDistinct ids
    → sort_throws ids ≡ true
    → (member 0 ids ≡ true) × ((m : ℕ) × (m ≢ 0) × (member m ids ≡ true))
unfolding sort_throws member IsDistinct
throws_lem [] i h = cc
throws_lem (x ∷ []) i h = cc
throws_lem (x ∷ y ∷ rest) i h = elim (Bool-cases (x == 0)) [
  | inl e ↦ (h, (y, (λ z. ground (arith, e, z, i.0)), ground arith))
  | inr e ↦ (h, (x, (λ z. ground (arith, e, z)), ground arith))
]

sorts_lem :
    (ids : List ℕ) → sort_throws ids ≡ false → (member 0 ids ≡ false) ⊎ (sort_ids ids ≡ 0 ∷ [])
unfolding sort_throws member sort_ids insert_id
sorts_lem [] h = inl refl
sorts_lem (x ∷ []) h = elim (Bool-cases (x == 0)) [
  | inl e ↦ inr (ap (λ y. y ∷ []) ((==_iff x 0).0 e))
  | inr e ↦ inl (ground (arith, e))
]
sorts_lem (x ∷ y ∷ rest) h = inl h

-- Either the sort throws, and the specification names the id 0 and another id, or the ids stand in
-- ascending order, none of them twice, an id is among them exactly if a part of the specification
-- names it, and 0 is not among them unless it is the only one.
pub parse_round_id_spec_lem :
    (parts : List Part)
    → ((parse_round_id_spec parts ≡ none)
        × (named 0 parts ≡ true)
        × ((m : ℕ) × (m ≢ 0) × (named m parts ≡ true)))
      ⊎ ((ids : List ℕ) × (parse_round_id_spec parts ≡ some ids)
          × IsAscending ids
          × ((n : ℕ) → member n ids ≡ named n parts)
          × ((named 0 parts ≡ false) ⊎ (ids ≡ 0 ∷ [])))
unfolding parse_round_id_spec IsDistinct
parse_round_id_spec_lem parts =
    let ids = add_parts [] parts in
    let distinct = IsDistinct-add_parts [] parts tt in
    elim (Bool-cases (sort_throws ids)) [
      | inl e ↦
          let (zeroed, (m, positive, other)) = throws_lem ids distinct e in
          inl (
            rw e refl,
            sym (named_lem parts 0) ∙ zeroed,
            (m, positive, sym (named_lem parts m) ∙ other),
          )
      | inr e ↦ inr (
        sort_ids ids,
        rw e refl,
        IsAscending-sort_ids ids distinct,
        (λ n. member-sort_ids n ids ∙ named_lem parts n),
        no_zero ids (sorts_lem ids e) (named_lem parts 0),
      )
    ]
  where
    no_zero :
        (ids : List ℕ)
        → (member 0 ids ≡ false) ⊎ (sort_ids ids ≡ 0 ∷ [])
        → member 0 ids ≡ named 0 parts
        → (named 0 parts ≡ false) ⊎ (sort_ids ids ≡ 0 ∷ [])
    no_zero ids (inl h) e = inl (sym e ∙ h)
    no_zero ids (inr h) e = inr h
