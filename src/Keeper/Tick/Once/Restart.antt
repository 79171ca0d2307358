-- ===== src/Keeper/Tick/Once/Restart.antt =====
-- Passes of services/keeper/src/keeper.ts that start with a step that the cursor records.
use sub_rosa_issue.Prelude.{
  ℕ, ◌≡◌, refl, Bool, true, false, ◌&&◌, ◌||◌, ◌==◌, ==_iff, List, [], ◌∷◌, arith, inl, inr,
  Bool-cases, Option, none, some,
}
use sub_rosa_issue.Keeper.Checkpoint.{KeeperStep, KeeperCheckpointFile, clear, settle}
use sub_rosa_issue.Keeper.Tick.World.{
  Outcome, Tx, Sent, opens, clears, settles, voids, reveals, KeeperDeps, KeeperState, recorded,
  submit, record_step, step_already_done, ◌>>=◌, when◌then◌otherwise◌, pure,
}
use sub_rosa_issue.Keeper.Tick.Close.{CloseResult, settle_unless_recorded, clear_revealing}
use sub_rosa_issue.Keeper.Tick.Watch.{watch_all}
use sub_rosa_issue.Keeper.Tick.Keeps.{Keeps}
use sub_rosa_issue.Keeper.Tick.Keeps.Passes.{Stable, watch_all-Keeps}
use sub_rosa_issue.Keeper.Tick.Keeps.Quiet.{settle-Keeps, clear-Keeps, void-Keeps}
use sub_rosa_issue.Keeper.Tick.Once.{recorded-record_in, has_checkpoint}
use sub_rosa_issue.Keeper.Tick.Once.Phases.{is_settles, is_clears}

-- Whether a transaction of a kind on a round was submitted, confirmed or not.
unfoldable pub submitted_to : (Tx → Bool) → ℕ → List Sent → Bool
submitted_to kind id [] = false
submitted_to kind id (x ∷ rest) = (kind x.tx && x.round_id == id) || submitted_to kind id rest

-- The step is recorded, and its transaction was not submitted.
unfoldable pub Quiet : {W : Type 0} → (Tx → Bool) → KeeperStep → ℕ → KeeperState W → Type 0
Quiet kind step id s =
    (recorded s.checkpoint id step ≡ true) × (submitted_to kind id s.sent ≡ false)

has_checkpoint-recorded :
    (c : Option KeeperCheckpointFile) (id : ℕ) (step : KeeperStep)
    → recorded c id step ≡ true
    → has_checkpoint c ≡ true
has_checkpoint-recorded none id step h = cc
has_checkpoint-recorded (some file) id step h = refl

module _ {W : Type 0} (kind : Tx → Bool) (step : KeeperStep) (j : ℕ) where
  Quiet-moves :
      (s : KeeperState W) (w : W) → Quiet kind step j s → Quiet kind step j (record s { world = w })
  unfolding Quiet
  Quiet-moves s w h = h

  Quiet-records :
      (d : KeeperDeps W) (id : ℕ) (t : KeeperStep) → Keeps (Quiet kind step j) (record_step d id t)
  unfolding Quiet Keeps record_step
  Quiet-records d id t s (r, n) = (
    rw
        (
          recorded-record_in s.checkpoint id t (d.now_iso s.world) j step
              (has_checkpoint-recorded s.checkpoint j step r),
          r,
        )
        (ground arith),
    n,
  )

  Quiet-other :
      {A : Type 0} (id : ℕ) (tx : Tx) (f : W → Outcome A × W)
      → kind tx ≡ false
      → Keeps (Quiet kind step j) (submit id tx f)
  unfolding Quiet Keeps submit submitted_to
  Quiet-other id tx f n s (r, h) = (r, rw (n, h) refl)

  -- On another round.
  Quiet-elsewhere :
      {A : Type 0} (id : ℕ) (tx : Tx) (f : W → Outcome A × W)
      → (id == j) ≡ false
      → Keeps (Quiet kind step j) (submit id tx f)
  unfolding Quiet Keeps submit submitted_to
  Quiet-elsewhere id tx f n s (r, h) = (r, rw (n, h) (ground arith))

module _ {W : Type 0} (d : KeeperDeps W) where
  settle_recorded-Quiet :
      (j : ℕ) (result : CloseResult)
      → Keeps (Quiet is_settles settle j) (settle_unless_recorded d j result)
  unfolding Quiet Keeps settle_unless_recorded ◌>>=◌ step_already_done when◌then◌otherwise◌ pure
  settle_recorded-Quiet j result s (r, n) = rw r (r, n)

  clear_recorded-Quiet :
      (j deadline : ℕ) (result : CloseResult)
      → Keeps (Quiet is_clears clear j) (clear_revealing d j deadline result)
  unfolding Quiet Keeps clear_revealing ◌>>=◌ step_already_done when◌then◌otherwise◌ pure
  clear_recorded-Quiet j deadline result s (r, n) = rw r (r, n)

module _ {W : Type 0} (d : KeeperDeps W) (j : ℕ) where
  settle-Quiet :
      (id : ℕ) (result : CloseResult)
      → Keeps (Quiet is_settles settle j) (settle_unless_recorded d id result)
  settle-Quiet id result = elim (Bool-cases (id == j)) [
    | inl same ↦ rw ((==_iff id j).0 same) (settle_recorded-Quiet d j result)
    | inr other ↦
        settle-Keeps d _ (Quiet-moves is_settles settle j) (Quiet-records is_settles settle j d) id
          result (Quiet-elsewhere is_settles settle j id settles _ other)
  ]

  clear-Quiet :
      (id deadline : ℕ) (result : CloseResult)
      → Keeps (Quiet is_clears clear j) (clear_revealing d id deadline result)
  clear-Quiet id deadline result = elim (Bool-cases (id == j)) [
    | inl same ↦ rw ((==_iff id j).0 same) (clear_recorded-Quiet d j deadline result)
    | inr other ↦
        clear-Keeps d _ (Quiet-moves is_clears clear j) (Quiet-records is_clears clear j d) id
          deadline result (Quiet-elsewhere is_clears clear j id clears _ other)
  ]

  settles_stable : Stable d (Quiet is_settles settle j)
  unfolding Quiet
  settles_stable = record {
    moves = Quiet-moves is_settles settle j;
    records = Quiet-records is_settles settle j d;
    opening = λ id sig. Quiet-other is_settles settle j id opens _ refl;
    revealing = λ id b o. Quiet-other is_settles settle j id (reveals b) _ refl;
    clearing = λ id deadline result.
        clear-Keeps d _ (Quiet-moves is_settles settle j) (Quiet-records is_settles settle j d) id
          deadline result (Quiet-other is_settles settle j id clears _ refl);
    settling = settle-Quiet;
    voiding =
        void-Keeps d _ (Quiet-moves is_settles settle j) (Quiet-records is_settles settle j d)
          (λ s g h. h) (λ id. Quiet-other is_settles settle j id voids _ refl);
  }

  clears_stable : Stable d (Quiet is_clears clear j)
  unfolding Quiet
  clears_stable = record {
    moves = Quiet-moves is_clears clear j;
    records = Quiet-records is_clears clear j d;
    opening = λ id sig. Quiet-other is_clears clear j id opens _ refl;
    revealing = λ id b o. Quiet-other is_clears clear j id (reveals b) _ refl;
    clearing = clear-Quiet;
    settling = λ id result.
        settle-Keeps d _ (Quiet-moves is_clears clear j) (Quiet-records is_clears clear j d) id
          result (Quiet-other is_clears clear j id settles _ refl);
    voiding =
        void-Keeps d _ (Quiet-moves is_clears clear j) (Quiet-records is_clears clear j d)
          (λ s g h. h) (λ id. Quiet-other is_clears clear j id voids _ refl);
  }

  -- After a restart with a cursor that records that a round is settled, no sequence of passes submits a
  -- settle of that round, whatever statuses the chain shows.
  pub restart_settle :
      (poll_ms : ℕ) (ids : List ℕ) (s : KeeperState W)
      → recorded s.checkpoint j settle ≡ true
      → s.sent ≡ []
      → submitted_to is_settles j (watch_all d poll_ms ids s).sent ≡ false
  unfolding Quiet submitted_to
  restart_settle poll_ms ids s r e =
      (watch_all-Keeps d _ settles_stable poll_ms ids s (r, rw e refl)).1

  -- After a restart with a cursor that records that a round is cleared, no sequence of passes submits a
  -- clear of that round, whatever statuses the chain shows.
  pub restart_clear :
      (poll_ms : ℕ) (ids : List ℕ) (s : KeeperState W)
      → recorded s.checkpoint j clear ≡ true
      → s.sent ≡ []
      → submitted_to is_clears j (watch_all d poll_ms ids s).sent ≡ false
  unfolding Quiet submitted_to
  restart_clear poll_ms ids s r e =
      (watch_all-Keeps d _ clears_stable poll_ms ids s (r, rw e refl)).1
