-- ===== src/Keeper/Tick/Once/Phases.antt =====
-- The settle and the clear of services/keeper/src/keeper.ts: what is confirmed is recorded, and what
-- is recorded is not submitted again.
use sub_rosa_issue.Prelude.{
  ℕ, ◌/◌, leb, ◌≡◌, refl, Bool, true, false, String, Option, inl, inr, Bool-cases,
}
use sub_rosa_issue.Keeper.Checkpoint.{clear, settle}
use sub_rosa_issue.Keeper.Tick.World.{
  ChainError, Outcome, ok, failed, Tx, clears, settles, KeeperDeps, KeeperState, is_ok, pure,
  attempt, ◌>>=◌, when◌then◌otherwise◌, recorded, step_already_done, record_step, now_seconds,
}
use sub_rosa_issue.Keeper.Tick.Close.{
  CloseResult, clear_answer, try_clear, clear_revealing, settle_answer, try_settle,
  settle_unless_recorded,
}
use sub_rosa_issue.Keeper.Tick.Keeps.{Keeps, Keeps-pure, Keeps-throw, Keeps-bind, Keeps-if}
use sub_rosa_issue.Keeper.Tick.Once.{
  OnceRecorded, OnceRecorded-records, Answered, Answered-submit, Answered-record_step,
  Answered-refused,
}

abbrev pub is_clears : Tx → Bool
is_clears clears = true
is_clears _ = false

abbrev pub is_settles : Tx → Bool
is_settles settles = true
is_settles _ = false

module _ {W : Type 0} (d : KeeperDeps W) (id j : ℕ) where
  -- The answers that end without a confirmation.
  settle_refused-Keeps :
      (result : CloseResult) (e : ChainError)
      → Keeps (OnceRecorded is_settles settle j) (settle_answer d id result (failed e))
  unfolding settle_answer
  settle_refused-Keeps result e =
      Keeps-if _ _ _ _
        (Keeps-bind _ _ _
          (Keeps-if _ _ _ _ (OnceRecorded-records is_settles settle j d id settle)
            (Keeps-pure _ tt))
          λ _. Keeps-pure _ _)
        (Keeps-throw _ _ e)

  settle_answer-OnceRecorded :
      (result : CloseResult) (r : Outcome (Unit {0})) (s : KeeperState W)
      → Answered is_settles settle j id (is_ok r) s
      → OnceRecorded is_settles settle j (settle_answer d id result r s).1
  unfolding settle_answer ◌>>=◌ pure record_step Keeps
  settle_answer-OnceRecorded result (ok _) s h =
      Answered-record_step is_settles settle j d id s refl h
  settle_answer-OnceRecorded result (failed e) s h =
      settle_refused-Keeps result e s (Answered-refused is_settles settle j id s h)

  pub settle-OnceRecorded :
      (result : CloseResult)
      → Keeps (OnceRecorded is_settles settle j) (settle_unless_recorded d id result)
  unfolding Keeps settle_unless_recorded try_settle ◌>>=◌ attempt step_already_done
      when◌then◌otherwise◌ pure
  settle-OnceRecorded result s h = elim (Bool-cases (recorded s.checkpoint id settle)) [
    | inl e ↦ rw e h
    | inr e ↦ rw e (
        settle_answer-OnceRecorded result _ _
          (Answered-submit is_settles settle j id settles (d.send_settle id) s e h))
  ]

  clear_refused-Keeps :
      (result : CloseResult) (e : ChainError)
      → Keeps (OnceRecorded is_clears clear j) (clear_answer d id result (failed e))
  unfolding clear_answer
  clear_refused-Keeps result e =
      Keeps-if _ _ _ _
        (Keeps-bind _ _ _
          (Keeps-if _ _ _ _ (OnceRecorded-records is_clears clear j d id clear) (Keeps-pure _ tt))
          λ _. Keeps-pure _ _)
        (Keeps-throw _ _ e)

  clear_answer-OnceRecorded :
      (result : CloseResult) (r : Outcome (Option String)) (s : KeeperState W)
      → Answered is_clears clear j id (is_ok r) s
      → OnceRecorded is_clears clear j (clear_answer d id result r s).1
  unfolding clear_answer ◌>>=◌ pure record_step Keeps
  clear_answer-OnceRecorded result (ok winner) s h =
      Answered-record_step is_clears clear j d id s refl h
  clear_answer-OnceRecorded result (failed e) s h =
      clear_refused-Keeps result e s (Answered-refused is_clears clear j id s h)

  try_clear-OnceRecorded :
      (result : CloseResult) (s : KeeperState W)
      → recorded s.checkpoint id clear ≡ false
      → OnceRecorded is_clears clear j s
      → OnceRecorded is_clears clear j (try_clear d id result s).1
  unfolding try_clear ◌>>=◌ attempt
  try_clear-OnceRecorded result s e h =
      clear_answer-OnceRecorded result _ _
        (Answered-submit is_clears clear j id clears (d.send_clear id) s e h)

  pub clear-OnceRecorded :
      (deadline : ℕ) (result : CloseResult)
      → Keeps (OnceRecorded is_clears clear j) (clear_revealing d id deadline result)
  unfolding Keeps clear_revealing ◌>>=◌ step_already_done when◌then◌otherwise◌ pure now_seconds
  clear-OnceRecorded deadline result s h = elim (Bool-cases (recorded s.checkpoint id clear)) [
    | inl e ↦ rw e h
    | inr e ↦ rw e (elim (Bool-cases (leb (d.now_ms s.world / 1000) deadline)) [
      | inl early ↦ rw early h
      | inr late ↦ rw late (try_clear-OnceRecorded result s e h)
    ])
  ]
