-- ===== src/Keeper/Checkpoint/Sane.antt =====
-- The cursors that the store of services/keeper/src/checkpoint.ts can reach from an empty file.
use sub_rosa_issue.Prelude.{
  ℕ, ◌≡◌, refl, true, false, ◌||◌, Option, none, some, Option-cases, Bool-cases, List, [], ◌∷◌,
  ◌++◌, String, ◌==◌, get, put, get-put, get-delete, arith, All, inl, inr, subst,
}
use sub_rosa_issue.Keeper.Checkpoint.{
  KeeperStep, KeeperCheckpoint, KeeperCheckpointFile, step_eq, step_eq_iff, includes, without,
  push_step, steps_of, hashes_of, note_hash, present, rolled_back, mark_complete,
  plan_checkpoint_step, plan_checkpoint_rollback,
}
use sub_rosa_issue.Keeper.Checkpoint.Marks.{includes-append, includes-push_step}
use sub_rosa_issue.Keeper.Checkpoint.Rollbacks.{includes-without}
use sub_rosa_issue.Keeper.Checkpoint.Reconciles.{is_none}

abbrev pub NoRepeat : List KeeperStep → Type 0
NoRepeat [] = Unit
NoRepeat (s ∷ ss) = (includes ss s ≡ false) × NoRepeat ss

-- No step is recorded twice, and every recorded hash belongs to a recorded step.
abbrev pub SaneEntry : KeeperCheckpoint → Type 0
SaneEntry e =
    NoRepeat e.completed_steps
    × ((t : KeeperStep)
        → (is_none (get step_eq e.step_hashes t) || includes e.completed_steps t) ≡ true)

abbrev pub Sane : List (ℕ × KeeperCheckpoint) → Type 0
Sane rs = All (λ r. SaneEntry (r.1)) rs

NoRepeat-append :
    (ss : List KeeperStep) (s : KeeperStep)
    → NoRepeat ss
    → includes ss s ≡ false
    → NoRepeat (ss ++ s ∷ [])
unfolding includes
NoRepeat-append [] s n f = (refl, tt)
NoRepeat-append (x ∷ xs) s n f =
    let ih = NoRepeat-append xs s n.1 (ground arith) in
    let a = includes-append xs s x in
    let i = step_eq_iff s x in let j = step_eq_iff x s in (grind (arith, a, i, j, n.0, f), ih)

NoRepeat-push_step :
    (ss : List KeeperStep) (s : KeeperStep) → NoRepeat ss → NoRepeat (push_step ss s)
unfolding push_step
NoRepeat-push_step ss s n = elim (Bool-cases (includes ss s)) [
  | inl y ↦ rw y n
  | inr y ↦ rw y (NoRepeat-append ss s n y)
]

NoRepeat-without : (ss : List KeeperStep) (s : KeeperStep) → NoRepeat ss → NoRepeat (without ss s)
unfolding without
NoRepeat-without [] s n = tt
NoRepeat-without (x ∷ xs) s n = elim (Bool-cases (step_eq x s)) [
  | inl y ↦ rw y (NoRepeat-without xs s n.1)
  | inr y ↦ rw y (rw (includes-without xs s x) (rw (n.0) refl), NoRepeat-without xs s n.1)
]

module _ (ss : List KeeperStep) (hashes : List (KeeperStep × String)) (s t : KeeperStep) where
  hashed-push_step :
      (h : Option String)
      → (is_none (get step_eq hashes t) || includes ss t) ≡ true
      → (is_none (get step_eq (note_hash hashes s h) t) || includes (push_step ss s) t) ≡ true
  hashed-push_step none o =
      let g = get-delete step_eq step_eq_iff hashes s t in
      rw (g, includes-push_step ss s t) (ground arith)
  hashed-push_step (some h) o =
      let g = get-put step_eq step_eq_iff hashes s h t in
      rw (g, includes-push_step ss s t) (ground arith)

-- The same of what is stored for a round, if anything is.
abbrev SaneOption : Option KeeperCheckpoint → Type 0
SaneOption o =
    NoRepeat (steps_of o)
    × ((t : KeeperStep) → (is_none (get step_eq (hashes_of o) t) || includes (steps_of o) t) ≡ true)

Sane-get : (rs : List (ℕ × KeeperCheckpoint)) (id : ℕ) → Sane rs → SaneOption (get ◌==◌ rs id)
Sane-get [] id a = (tt, λ t. refl)
Sane-get (r ∷ rs) id a = elim (Bool-cases (r.0 == id)) [
  | inl y ↦ rw y (a.0)
  | inr y ↦ rw y (Sane-get rs id a.1)
]

Sane-put :
    (rs : List (ℕ × KeeperCheckpoint)) (id : ℕ) (e : KeeperCheckpoint)
    → Sane rs
    → SaneEntry e
    → Sane (put ◌==◌ rs id e)
Sane-put [] id e a s = (s, tt)
Sane-put (r ∷ rs) id e a s = elim (Bool-cases (r.0 == id)) [
  | inl y ↦ rw y (s, a.1)
  | inr y ↦ rw y (a.0, Sane-put rs id e a.1 s)
]

pub Sane-mark_complete :
    (file : KeeperCheckpointFile) (id : ℕ) (s : KeeperStep) (h : Option String) (now : String)
    → Sane file.rounds
    → Sane (mark_complete file id s h now).rounds
unfolding mark_complete plan_checkpoint_step
Sane-mark_complete file id s h now a =
    let g = Sane-get file.rounds id a in
    Sane-put file.rounds id _ a (
      NoRepeat-push_step (steps_of (get ◌==◌ file.rounds id)) s (g.0),
      λ t.
          hashed-push_step (steps_of (get ◌==◌ file.rounds id))
            (hashes_of (get ◌==◌ file.rounds id)) s t (present h) (g.1 t),
    )

SaneEntry-rolled_back :
    (e : KeeperCheckpoint) (s : KeeperStep) → SaneEntry e → SaneEntry (rolled_back e s)
unfolding rolled_back
SaneEntry-rolled_back e s a = (
  NoRepeat-without e.completed_steps s (a.0),
  λ t.
      let o = a.1 t in
      rw (get-delete step_eq step_eq_iff e.step_hashes s t, includes-without e.completed_steps s t)
        (ground arith),
)

pub Sane-rollback :
    (file : KeeperCheckpointFile) (id : ℕ) (s : KeeperStep)
    → Sane file.rounds
    → Sane (plan_checkpoint_rollback file id s).rounds
unfolding plan_checkpoint_rollback
Sane-rollback file id s a = elim (Option-cases (get ◌==◌ file.rounds id)) [
  | inl n ↦ rw (n, plan_checkpoint_rollback) a
  | inr q ↦ elim (Bool-cases (includes (q.0).completed_steps s)) [
    | inl y ↦
        rw (q.1, plan_checkpoint_rollback, y)
          (Sane-put file.rounds id (rolled_back (q.0) s) a
            (SaneEntry-rolled_back (q.0) s (subst SaneOption (q.1) (Sane-get file.rounds id a))))
    | inr y ↦ rw (q.1, plan_checkpoint_rollback, y) a
  ]
]
