-- ===== src/Keeper/Guard/Statuses.antt =====
-- The status of each round after a call of services/keeper/src/settlement-guard.ts.
use sub_rosa_issue.Prelude.{
  ℕ, ◌==◌, ==_iff, ◌≡◌, inl, inr, refl, sym, ◌∙◌, ap, String, none, some, [], ◌∷◌, if◌then◌else◌,
  arith, if_same, Option-cases,
}
use sub_rosa_issue.Keeper.Guard.Machine.{
  GuardStatus, pending, submitted, terminal, Entry, Guard, get_entry, put, get_or_create,
  can_settle, mark_submitted, mark_terminal, mark_retryable,
}

pub get_entry-put :
    (e : Entry) (id : ℕ) (g : Guard)
    → get_entry id (put e g) ≡ (if e.round_id == id then some e else get_entry id g)
unfolding get_entry put
get_entry-put e id [] = refl
get_entry-put e id (x ∷ g) = ground (arith, get_entry-put e id g)

-- The status that the guard acts on: of a round without an entry, `pending`.
pub status_of : ℕ → Guard → GuardStatus
status_of id g = elim (get_entry id g) [ none ↦ pending | some e ↦ e.status ]

round_id-get_entry : (id : ℕ) (g : Guard) (e : Entry) → get_entry id g ≡ some e → e.round_id ≡ id
unfolding get_entry
round_id-get_entry id [] e h = cc
round_id-get_entry id (x ∷ g) e h = ground (arith, round_id-get_entry id g e)

status_of-put :
    (e : Entry) (id : ℕ) (g : Guard)
    → status_of id (put e g) ≡ (if e.round_id == id then e.status else status_of id g)
unfolding status_of
status_of-put e id g = ground (arith, get_entry-put e id g)

-- What `getOrCreate` returns and leaves behind: the entry of the round, and every status as it was.
module _ (now id : ℕ) (g : Guard) where
  pub created_id : (get_or_create now id g).0.round_id ≡ id
  unfolding get_or_create
  created_id = elim (Option-cases (get_entry id g)) [
    | inl e ↦ rw e
    | inr (x, e) ↦ rw e (round_id-get_entry id g x e)
  ]

  pub created_status : (get_or_create now id g).0.status ≡ status_of id g
  unfolding get_or_create status_of
  created_status = ground arith

  pub status_of-created : (j : ℕ) → status_of j (get_or_create now id g).1 ≡ status_of j g
  unfolding get_or_create
  status_of-created j =
      let e = (get_or_create now id g).0 in
      status_of-put e j g
      ∙ if_same (e.round_id == j) e.status (status_of j g) (λ p.
        created_status ∙ ap (λ i. status_of i g) (sym created_id ∙ (==_iff e.round_id j).0 p))

  -- A write to the entry of the round.
  pub status_of-rewritten :
      (e : Entry) (j : ℕ)
      → e.round_id ≡ id
      → status_of j (put e (get_or_create now id g).1)
        ≡ (if id == j then e.status else status_of j g)
  status_of-rewritten e j same =
      rw (status_of-put e j (get_or_create now id g).1, same, status_of-created j)

  pub status_of-submitted :
      (j : ℕ)
      → status_of j (mark_submitted now id g) ≡ (if id == j then submitted else status_of j g)
  unfolding mark_submitted
  status_of-submitted j = status_of-rewritten _ j created_id

  pub status_of-terminal :
      (reason : String) (j : ℕ)
      → status_of j (mark_terminal now id reason g) ≡ (if id == j then terminal else status_of j g)
  unfolding mark_terminal
  status_of-terminal reason j = status_of-rewritten _ j created_id

  pub status_of-retryable :
      (reason : String) (j : ℕ)
      → status_of j (mark_retryable now id reason g) ≡ (if id == j then pending else status_of j g)
  unfolding mark_retryable
  status_of-retryable reason j = status_of-rewritten _ j created_id

  pub status_of-can_settle : (j : ℕ) → status_of j (can_settle now id g).1 ≡ status_of j g
  unfolding can_settle
  status_of-can_settle j = status_of-created j
