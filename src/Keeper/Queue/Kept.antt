-- ===== src/Keeper/Queue/Kept.antt =====
-- The ids under which the rounds of a store stand, for the queue of services/keeper/src/queue.ts.
use sub_rosa_issue.Prelude.{
  ℕ, ◌≡◌, refl, Option-cases, List, [], ◌∷◌, ◌==◌, ==_iff, put, Unique, Unique-put, All, arith, inl,
  inr, Bool-cases,
}
use sub_rosa_issue.Keeper.Store.{WatchedRound, RoundUpdate, Store}
use sub_rosa_issue.Keeper.Store.Rounds.{add_round, update_round, get_round, merge, or_blank}

abbrev pub Keyed : List (ℕ × WatchedRound) → Type 0
Keyed rs = All (λ e. e.0 ≡ (e.1).round_id) rs

abbrev pub Kept : Store → Type 0
Kept s = Unique ◌==◌ s.rounds × Keyed s.rounds

Keyed-put :
    (rs : List (ℕ × WatchedRound)) (id : ℕ) (r : WatchedRound)
    → id ≡ r.round_id
    → Keyed rs
    → Keyed (put ◌==◌ rs id r)
Keyed-put [] id r h k = (h, tt)
Keyed-put (e ∷ es) id r h k = elim (Bool-cases (e.0 == id)) [
  | inl y ↦ rw y (ground (arith, y, h), k.1)
  | inr y ↦ rw y (k.0, Keyed-put es id r h k.1)
]

Kept-put :
    (s : Store) (id : ℕ) (r : WatchedRound)
    → id ≡ r.round_id
    → Kept s
    → Kept (record s { rounds = put ◌==◌ s.rounds id r })
Kept-put s id r h k = (Unique-put ◌==◌ ==_iff s.rounds id r k.0, Keyed-put s.rounds id r h k.1)

pub Kept-add_round : (s : Store) (id : ℕ) (u : RoundUpdate) → Kept s → Kept (add_round s id u)
unfolding add_round merge
Kept-add_round s id u k = Kept-put s id (merge id (or_blank id (get_round s id)) u) refl k

pub Kept-update_round : (s : Store) (id : ℕ) (u : RoundUpdate) → Kept s → Kept (update_round s id u)
unfolding update_round merge
Kept-update_round s id u k = elim (Option-cases (get_round s id)) [
  | inl n ↦ rw (n, update_round) k
  | inr q ↦ rw (q.1, update_round) (Kept-put s id (merge id (q.0) u) refl k)
]
