-- ===== src/Keeper/Checkpoint/Reconciles.antt =====
-- The chain reconciliation of services/keeper/src/checkpoint.ts: the reconcile method of the store.
use sub_rosa_issue.Prelude.{
  ℕ, ◌≡◌, refl, ◌∙◌, sym, ap, Bool, true, false, not, ◌&&◌, Option, none, some, Option-cases,
  Bool-cases, List, [], ◌∷◌, String, contains, if◌then◌else◌, ◌==◌, ==_iff, get, get-put,
  get-delete, arith, inl, inr,
}
use sub_rosa_issue.Keeper.Checkpoint.{
  KeeperStep, KeeperCheckpoint, KeeperCheckpointFile, step_eq, step_eq_iff, includes, rolled_back,
  hashes_of, present, step_satisfied_by_status, checkpoint_has_step, is_complete,
  plan_checkpoint_rollback,
}
use sub_rosa_issue.Keeper.Checkpoint.Rollbacks.{is_complete-rollback}

abbrev pub is_none {ℓ} : {A : Type ℓ} → Option A → Bool
is_none none = true
is_none (some a) = false

-- No hash vouches for the step, and the status does not prove it.
unfoldable pub unproved : List (KeeperStep × String) → String → KeeperStep → Bool
unproved hashes status s =
    is_none (present (get step_eq hashes s)) && not (contains (step_satisfied_by_status s) status)

unfoldable pub steps_where : (KeeperStep → Bool) → List KeeperStep → List KeeperStep
steps_where test [] = []
steps_where test (s ∷ ss) = let rest = steps_where test ss in if test s then s ∷ rest else rest

unfoldable pub roll_back_all : KeeperCheckpointFile → ℕ → List KeeperStep → KeeperCheckpointFile
roll_back_all file id [] = file
roll_back_all file id (s ∷ ss) = roll_back_all (plan_checkpoint_rollback file id s) id ss

-- The file after it and the steps dropped. With none to drop the loop leaves the file.
unfoldable pub reconcile :
    KeeperCheckpointFile → ℕ → String → KeeperCheckpointFile × List KeeperStep
reconcile file id status = elim (get ◌==◌ file.rounds id) [
  | none ↦ (file, [])
  | some e ↦
      let dropped = steps_where (unproved e.step_hashes status) e.completed_steps in
      (roll_back_all file id dropped, dropped)
]

includes-steps_where :
    (test : KeeperStep → Bool) (ss : List KeeperStep) (t : KeeperStep)
    → includes (steps_where test ss) t ≡ (includes ss t && test t)
unfolding includes steps_where
includes-steps_where test [] t = ground arith
includes-steps_where test (s ∷ ss) t = elim (Bool-cases (step_eq s t)) [
  | inl e ↦
      let same : s ≡ t = (step_eq_iff s t).0 e in
      let ih = includes-steps_where test ss t in
      elim (Bool-cases (test s)) [
        | inl y ↦ rw (y, e, sym (ap test same) ∙ y) refl
        | inr y ↦ rw (y, ih, e, sym (ap test same) ∙ y) (ground arith)
      ]
  | inr e ↦ let ih = includes-steps_where test ss t in ground (arith, ih, e)
]

pub is_complete-roll_back_all :
    (file : KeeperCheckpointFile) (id : ℕ) (ss : List KeeperStep) (j : ℕ) (t : KeeperStep)
    → is_complete (roll_back_all file id ss) j t
      ≡ (is_complete file j t && not (id == j && includes ss t))
unfolding roll_back_all includes
is_complete-roll_back_all file id [] j t = ground arith
is_complete-roll_back_all file id (s ∷ ss) j t =
    let ih = is_complete-roll_back_all (plan_checkpoint_rollback file id s) id ss j t in
    rw (ih, is_complete-rollback file id s j t) (ground arith)

-- The hash recorded for a step of a round.
abbrev pub hash_at : KeeperCheckpointFile → ℕ → KeeperStep → Option String
hash_at file j t = get step_eq (hashes_of (get ◌==◌ file.rounds j)) t

pub hash_at-rollback :
    (file : KeeperCheckpointFile) (id : ℕ) (s : KeeperStep) (j : ℕ) (t : KeeperStep)
    → step_eq s t ≡ false
    → hash_at (plan_checkpoint_rollback file id s) j t ≡ hash_at file j t
unfolding plan_checkpoint_rollback rolled_back
hash_at-rollback file id s j t ne = elim (Option-cases (get ◌==◌ file.rounds id)) [
  | inl n ↦ rw (n, plan_checkpoint_rollback) refl
  | inr q ↦ elim (Bool-cases (includes (q.0).completed_steps s)) [
    | inl y ↦
        rw (q.1, plan_checkpoint_rollback, y, get-put ◌==◌ ==_iff) (hash-rolled_back (q.0) (q.1))
    | inr y ↦ rw (q.1, plan_checkpoint_rollback, y) refl
  ]
]
  where
    hash-rolled_back :
        (e : KeeperCheckpoint)
        → get ◌==◌ file.rounds id ≡ some e
        → get step_eq
            (hashes_of (if id == j then some (rolled_back e s) else get ◌==◌ file.rounds j))
            t
          ≡ hash_at file j t
    hash-rolled_back e h = elim (Bool-cases (id == j)) [
      | inl y ↦
          let same : id ≡ j = (==_iff id j).0 y in
          rw
            (
              y,
              get-delete step_eq step_eq_iff e.step_hashes s t,
              ne,
              sym (ap (get ◌==◌ file.rounds) same) ∙ h,
            )
            refl
      | inr y ↦ rw y refl
    ]

pub hash_at-roll_back_all :
    (file : KeeperCheckpointFile) (id : ℕ) (ss : List KeeperStep) (j : ℕ) (t : KeeperStep)
    → includes ss t ≡ false
    → hash_at (roll_back_all file id ss) j t ≡ hash_at file j t
unfolding roll_back_all includes
hash_at-roll_back_all file id [] j t n = refl
hash_at-roll_back_all file id (s ∷ ss) j t n =
    hash_at-roll_back_all (plan_checkpoint_rollback file id s) id ss j t (ground arith)
    ∙ hash_at-rollback file id s j t (ground arith)

-- What reconciliation does to each step of each round.
abbrev pub refuted : KeeperCheckpointFile → String → ℕ → KeeperStep → Bool
refuted file status id t = unproved (hashes_of (get ◌==◌ file.rounds id)) status t

dropped_iff :
    (file : KeeperCheckpointFile) (id : ℕ) (status : String) (t : KeeperStep)
    → includes (reconcile file id status).1 t ≡ (is_complete file id t && refuted file status id t)
unfolding reconcile is_complete checkpoint_has_step includes
dropped_iff file id status t = elim (Option-cases (get ◌==◌ file.rounds id)) [
  | inl n ↦ rw (n, reconcile) (ground arith)
  | inr q ↦
      rw (q.1, reconcile)
        (includes-steps_where (unproved (q.0).step_hashes status) (q.0).completed_steps t)
]

pub rolled-reconcile :
    (file : KeeperCheckpointFile) (id : ℕ) (status : String)
    → (reconcile file id status).0 ≡ roll_back_all file id (reconcile file id status).1
unfolding reconcile roll_back_all
rolled-reconcile file id status = elim (Option-cases (get ◌==◌ file.rounds id)) [
  | inl n ↦ rw (n, reconcile) refl
  | inr q ↦ rw (q.1, reconcile) refl
]

-- What reconciliation does, by its own test.
pub reconcile-refuted :
    (file : KeeperCheckpointFile) (id : ℕ) (status : String) (j : ℕ) (t : KeeperStep)
    → (is_complete (reconcile file id status).0 j t ≡ (
        is_complete file j t
        && not (id == j && (is_complete file id t && refuted file status id t))))
      × (includes (reconcile file id status).1 t
          ≡ (is_complete file id t && refuted file status id t))
reconcile-refuted file id status j t =
    let d = dropped_iff file id status t in
    (
      rw
          (
            rolled-reconcile file id status,
            is_complete-roll_back_all file id (reconcile file id status).1 j t,
            d,
          )
          refl,
      d,
    )
