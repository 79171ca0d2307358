-- ===== src/Keeper/Checkpoint/Vouched.antt =====
-- Which steps the `reconcile` of services/keeper/src/checkpoint.ts keeps.
use sub_rosa_issue.Prelude.{
  ℕ, ◌≡◌, refl, ◌∙◌, Bool, false, not, ◌&&◌, ◌||◌, Option, none, some, String, str_eq, contains,
  if◌then◌else◌, leb, ◌==◌, ==_iff, arith, inl, inr, Bool-cases, subst,
}
use sub_rosa_issue.Keeper.Checkpoint.{
  KeeperStep, open_reveal, reveal, clear, settle, void, KeeperCheckpointFile, includes, present,
  step_satisfied_by_status, is_complete,
}
use sub_rosa_issue.Keeper.Checkpoint.Reconciles.{
  is_none, unproved, reconcile, refuted, hash_at, reconcile-refuted,
}

-- How far a round has come by its status, and how far a step brings it.
abbrev pub stage : String → ℕ
stage status =
    if str_eq "Voided" status
    then 4
    else if str_eq "Settled" status
    then 3
    else if str_eq "Cleared" status
    then 2
    else if str_eq "Revealing" status
    then 1
    else 0

abbrev pub stage_after : KeeperStep → ℕ
stage_after open_reveal = 1
stage_after reveal = 1
stage_after clear = 2
stage_after settle = 3
stage_after void = 4

abbrev pub has_text : Option String → Bool
has_text none = false
has_text (some h) = not (str_eq h "")

-- A hash is recorded for the step, or the round has come as far as the step brings it.
abbrev pub vouched : Option String → String → KeeperStep → Bool
vouched hash status t = has_text hash || leb (stage_after t) (stage status)

satisfied_lem :
    (t : KeeperStep) (status : String)
    → contains (step_satisfied_by_status t) status ≡ leb (stage_after t) (stage status)
unfolding contains step_satisfied_by_status
satisfied_lem open_reveal status = ground arith
satisfied_lem reveal status = ground arith
satisfied_lem clear status = ground arith
satisfied_lem settle status = ground arith
satisfied_lem void status = ground arith

present_lem : (hash : Option String) → is_none (present hash) ≡ not (has_text hash)
present_lem none = refl
present_lem (some h) = elim (Bool-cases (str_eq h "")) [ inl y ↦ rw y refl | inr n ↦ rw n refl ]

pub refuted-vouched :
    (file : KeeperCheckpointFile) (status : String) (id : ℕ) (t : KeeperStep)
    → refuted file status id t ≡ not (vouched (hash_at file id t) status t)
unfolding unproved
refuted-vouched file status id t =
    rw (satisfied_lem t status, present_lem (hash_at file id t)) (ground arith)

-- After a round is reconciled with an observed status, a step of a round is complete exactly if it was
-- before and it is of another round, or a hash is recorded for it, or the status is one that the
-- round reaches by this step or after it. The steps that are reported are exactly the complete ones of
-- this round for which neither holds.
pub reconcile_lem :
    (file : KeeperCheckpointFile) (id : ℕ) (status : String) (j : ℕ) (t : KeeperStep)
    → (is_complete (reconcile file id status).0 j t
        ≡ (is_complete file j t && (not (id == j) || vouched (hash_at file j t) status t)))
      × (includes (reconcile file id status).1 t
          ≡ (is_complete file id t && not (vouched (hash_at file id t) status t)))
reconcile_lem file id status j t =
    let (kept, dropped) = reconcile-refuted file id status j t in
    let spec = refuted-vouched file status id t in
    (
      elim (Bool-cases (id == j)) [
        | inl y ↦
            let same : id ≡ j = (==_iff id j).0 y in
            kept
            ∙ rw (spec, y)
                (subst
                  (λ k.
                    (is_complete file k t
                      && not (is_complete file id t && not (vouched (hash_at file id t) status t)))
                    ≡ (is_complete file k t && vouched (hash_at file k t) status t))
                  same (ground arith))
        | inr n ↦ kept ∙ rw n (ground arith)
      ],
      dropped ∙ rw spec refl,
    )
