-- ===== src/Keeper/Checkpoint/Verdicts.antt =====
-- The verdicts of the `verifyHashes` of services/keeper/src/checkpoint.ts.
use sub_rosa_issue.Prelude.{
  ℕ, ◌≡◌, refl, sym, ap₂, ◌∙◌, Bool, true, false, not, ◌&&◌, ◌||◌, Option, none, some, String, List,
  [], ◌∷◌, ◌++◌, map, ◌==◌, arith,
}
use sub_rosa_issue.Keeper.Checkpoint.{
  KeeperStep, KeeperCheckpoint, KeeperCheckpointFile, step_eq, is_complete,
}
use sub_rosa_issue.Keeper.Checkpoint.Hashes.{
  TransactionHashStatus, confirmed, failed, missing, CheckpointVerification, Verifier, verification,
  verify_hashes, rejects, rejects-append, expected, verify_hashes-rejects,
}

pub record Recorded : Type 0 where
  pub round_id : ℕ
  pub step : KeeperStep
  pub hash : String

-- The hashes that a file holds, round by round.
unfoldable pub recorded_of : ℕ → List (KeeperStep × String) → List Recorded
recorded_of id [] = []
recorded_of id (e ∷ es) = record { round_id = id; step = e.0; hash = e.1 } ∷ recorded_of id es

unfoldable pub recorded_hashes : List (ℕ × KeeperCheckpoint) → List Recorded
recorded_hashes [] = []
recorded_hashes (r ∷ rs) = recorded_of (r.0) ((r.1).step_hashes) ++ recorded_hashes rs

-- The answer of a lookup, the status that is reported and whether the step is retained. A lookup that
-- rejects says nothing against the step.
pub data Verdict : Option TransactionHashStatus → TransactionHashStatus → Bool → Type 0 where
  unreachable : Verdict none missing true
  found : Verdict (some confirmed) confirmed true
  found_failed : Verdict (some failed) failed false
  not_found : Verdict (some missing) missing false

abbrev pub Judged : Verifier → Recorded → CheckpointVerification → Type 0
Judged verify x v =
    (v.round_id ≡ x.round_id)
    × (v.step ≡ x.step)
    × (v.transaction_hash ≡ x.hash)
    × Verdict (verify x.hash) v.status v.retained

unfoldable pub HashReport : Verifier → List Recorded → List CheckpointVerification → Type 0
HashReport verify [] [] = Unit
HashReport verify (x ∷ xs) (v ∷ vs) = Judged verify x v × HashReport verify xs vs
HashReport verify [] (v ∷ vs) = ⊥
HashReport verify (x ∷ xs) [] = ⊥

-- The lookup says that the transaction failed or does not exist.
abbrev pub speaks_against : Option TransactionHashStatus → Bool
speaks_against none = false
speaks_against (some confirmed) = false
speaks_against (some failed) = true
speaks_against (some missing) = true

-- A lookup of some hash that is recorded for the step speaks against it.
unfoldable pub disproved : Verifier → List Recorded → ℕ → KeeperStep → Bool
disproved verify [] j t = false
disproved verify (x ∷ xs) j t =
    (speaks_against (verify x.hash) && (x.round_id == j && step_eq x.step t))
    || disproved verify xs j t

module _ (verify : Verifier) (id : ℕ) (e : KeeperStep × String) where
  verdict_at :
      (o : Option TransactionHashStatus)
      → verify (e.1) ≡ o
      → Judged verify (record { round_id = id; step = e.0; hash = e.1 }) (verification verify id e)
        × (not (verification verify id e).retained ≡ speaks_against (verify (e.1)))
        × ((verification verify id e).round_id ≡ id)
        × ((verification verify id e).step ≡ e.0)
  unfolding verification
  verdict_at none h = rw (h, verification) ((refl, refl, refl, unreachable), refl, refl, refl)
  verdict_at (some confirmed) h = rw (h, verification) ((refl, refl, refl, found), refl, refl, refl)
  verdict_at (some failed) h =
      rw (h, verification) ((refl, refl, refl, found_failed), refl, refl, refl)
  verdict_at (some missing) h =
      rw (h, verification) ((refl, refl, refl, not_found), refl, refl, refl)

module _ (verify : Verifier) where
  HashReport-append :
      (xs ys : List Recorded) (vs ws : List CheckpointVerification)
      → HashReport verify xs vs
      → HashReport verify ys ws
      → HashReport verify (xs ++ ys) (vs ++ ws)
  unfolding HashReport
  HashReport-append [] ys [] ws h k = k
  HashReport-append [] ys (v ∷ vs) ws h k = absurd h
  HashReport-append (x ∷ xs) ys [] ws h k = absurd h
  HashReport-append (x ∷ xs) ys (v ∷ vs) ws h k = (h.0, HashReport-append xs ys vs ws h.1 k)

  HashReport-recorded_of :
      (id : ℕ) (es : List (KeeperStep × String))
      → HashReport verify (recorded_of id es) (map (verification verify id) es)
  unfolding HashReport recorded_of
  HashReport-recorded_of id [] = tt
  HashReport-recorded_of id (e ∷ es) =
      ((verdict_at verify id e (verify (e.1)) refl).0, HashReport-recorded_of id es)

  HashReport-recorded_hashes :
      (rs : List (ℕ × KeeperCheckpoint))
      → HashReport verify (recorded_hashes rs) (expected verify rs)
  unfolding HashReport recorded_hashes expected
  HashReport-recorded_hashes [] = tt
  HashReport-recorded_hashes (r ∷ rs) =
      HashReport-append (recorded_of (r.0) ((r.1).step_hashes)) (recorded_hashes rs) _ _
        (HashReport-recorded_of (r.0) ((r.1).step_hashes)) (HashReport-recorded_hashes rs)

  module _ (j : ℕ) (t : KeeperStep) where
    disproved-append :
        (xs ys : List Recorded)
        → disproved verify (xs ++ ys) j t ≡ (disproved verify xs j t || disproved verify ys j t)
    unfolding disproved
    disproved-append [] ys = refl
    disproved-append (x ∷ xs) ys = rw (disproved-append xs ys) (ground arith)

    rejects-recorded_of :
        (id : ℕ) (es : List (KeeperStep × String))
        → rejects (map (verification verify id) es) j t ≡ disproved verify (recorded_of id es) j t
    unfolding disproved rejects recorded_of
    rejects-recorded_of id [] = refl
    rejects-recorded_of id (e ∷ es) =
        let (judged, against, same_id, same_step) = verdict_at verify id e (verify (e.1)) refl in
        rw (against, same_id, same_step, rejects-recorded_of id es) refl

    pub rejects-disproved :
        (rs : List (ℕ × KeeperCheckpoint))
        → rejects (expected verify rs) j t ≡ disproved verify (recorded_hashes rs) j t
    unfolding disproved rejects recorded_hashes expected
    rejects-disproved [] = refl
    rejects-disproved (r ∷ rs) =
        let es = (r.1).step_hashes in
        rejects-append (map (verification verify (r.0)) es) (expected verify rs) j t
        ∙ ap₂ (λ a b. a || b) (rejects-recorded_of (r.0) es) (rejects-disproved rs)
        ∙ sym (disproved-append (recorded_of (r.0) es) (recorded_hashes rs))

-- With a lookup of transactions, the report judges every hash that the file holds, once and in order.
-- A hash that is found confirmed is retained and so is one whose lookup rejects, which is reported as
-- missing; one that is found failed or not found is not. Afterwards a step is complete exactly if it
-- was before and no lookup of a hash that is recorded for it finds the transaction failed or missing.
pub verify_hashes_lem :
    (verify : Verifier) (file : KeeperCheckpointFile) (j : ℕ) (t : KeeperStep)
    → HashReport verify (recorded_hashes file.rounds) (verify_hashes (some verify) file).1
      × (is_complete (verify_hashes (some verify) file).0 j t
          ≡ (is_complete file j t && not (disproved verify (recorded_hashes file.rounds) j t)))
verify_hashes_lem verify file j t =
    let (reports, kept) = verify_hashes-rejects verify file j t in
    (
      rw reports (HashReport-recorded_hashes verify file.rounds),
      kept ∙ rw (rejects-disproved verify j t file.rounds) refl,
    )
