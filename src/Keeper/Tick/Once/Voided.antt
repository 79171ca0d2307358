-- ===== src/Keeper/Tick/Once/Voided.antt =====
-- Passes of services/keeper/src/keeper.ts with a settlement guard: how often they void a round.
use sub_rosa_issue.Prelude.{
  ℕ, ◌+◌, ◌≤◌, ◌≡◌, Bool, true, false, ◌&&◌, ◌==◌, arith, inl, inr, Bool-cases, if◌then◌else◌,
  String,
}
use sub_rosa_issue.Keeper.Guard.Machine.{mark_terminal, mark_retryable}
use sub_rosa_issue.Keeper.Checkpoint.{KeeperStep}
use sub_rosa_issue.Keeper.Tick.World.{
  Outcome, ok, failed, Tx, voids, KeeperDeps, KeeperState, is_ok, pure, throw, attempt, submit,
  ◌>>=◌, when◌then◌otherwise◌, error_name, error_matches, record_step,
}
use sub_rosa_issue.Keeper.Tick.Void.{VoidResult, void_skips, with_guard, void_answer, void_dispatch}
use sub_rosa_issue.Keeper.Tick.Keeps.{Keeps}
use sub_rosa_issue.Keeper.Tick.Once.{flag, confirmations}
use sub_rosa_issue.Keeper.Tick.Once.Voids.{
  is_voids, has_guard, ended, terminal_guard, retryable_guard,
}

-- There is a guard, and what was confirmed is at most one void, whose entry has ended.
unfoldable pub VoidedOnce : {W : Type 0} → ℕ → KeeperState W → Type 0
VoidedOnce j s =
    (has_guard s.guard ≡ true) × (confirmations is_voids j s.sent ≤ flag (ended s.guard j))

-- The same while a void of a round is on its way, and once it is answered.
unfoldable pub Sending : {W : Type 0} → ℕ → Bool → ℕ → KeeperState W → Type 0
Sending id confirmed j s =
    (has_guard s.guard ≡ true)
    × (confirmations is_voids j s.sent
        ≤ (if confirmed && id == j then 1 else flag (if id == j then false else ended s.guard j)))

sent_count :
    (c : ℕ) (same confirmed e : Bool)
    → c ≤ flag (if same then false else e)
    → c + flag (same && confirmed)
      ≤ (if confirmed && same then 1 else flag (if same then false else e))
sent_count c true true e h = omega (arith, h)
sent_count c true false e h = omega (arith, h)
sent_count c false true e h = omega (arith, h)
sent_count c false false e h = omega (arith, h)

ended_count :
    (c : ℕ) (same confirmed e : Bool)
    → c ≤ (if confirmed && same then 1 else flag (if same then false else e))
    → c ≤ flag (if same then true else e)
ended_count c true true e h = h
ended_count c true false e h = omega (arith, h)
ended_count c false true e h = h
ended_count c false false e h = h

module _ {W : Type 0} (d : KeeperDeps W) (j : ℕ) where
  submit-Sending :
      (id : ℕ) (s : KeeperState W)
      → Sending id false j s
      → Sending id
          (is_ok (submit id voids (d.send_void id) s).0)
          j
          (submit id voids (d.send_void id) s).1
  unfolding Sending submit confirmations
  submit-Sending id s (g, h) = (
    g,
    sent_count (confirmations is_voids j s.sent) (id == j) (is_ok (d.send_void id s.world).0)
        (ended s.guard j) h,
  )

  terminal-VoidedOnce :
      (id : ℕ) (confirmed : Bool) (reason : String) (s : KeeperState W)
      → Sending id confirmed j s
      → VoidedOnce j (with_guard d (λ now. mark_terminal now id reason) s).1
  unfolding Sending VoidedOnce with_guard
  terminal-VoidedOnce id confirmed reason s (g, h) =
      let (kept, e) = terminal_guard (d.now_ms s.world) id reason s.guard j g in
      (
        kept,
        rw e
            (ended_count (confirmations is_voids j s.sent) (id == j) confirmed (ended s.guard j) h),
      )

  retryable-VoidedOnce :
      (id : ℕ) (reason : String) (s : KeeperState W)
      → Sending id false j s
      → VoidedOnce j (with_guard d (λ now. mark_retryable now id reason) s).1
  unfolding Sending VoidedOnce with_guard
  retryable-VoidedOnce id reason s (g, h) =
      let (kept, e) = retryable_guard (d.now_ms s.world) id reason s.guard j g in (kept, rw e h)

  void_answer-VoidedOnce :
      (id : ℕ) (result : VoidResult) (r : Outcome (Unit {0})) (s : KeeperState W)
      → Sending id (is_ok r) j s
      → VoidedOnce j (void_answer d id result r s).1
  unfolding void_answer ◌>>=◌ pure throw record_step with_guard when◌then◌otherwise◌ VoidedOnce
  void_answer-VoidedOnce id result (ok _) s h = terminal-VoidedOnce id true "voided on-chain" s h
  void_answer-VoidedOnce id result (failed e) s h = elim (Bool-cases (error_matches e void_skips)) [
    | inl known ↦ rw known (terminal-VoidedOnce id false (error_name e) s h)
    | inr other ↦ rw other (retryable-VoidedOnce id (error_name e) s h)
  ]

  pub void_dispatch-VoidedOnce :
      (id : ℕ) (result : VoidResult) (s : KeeperState W)
      → Sending id false j s
      → VoidedOnce j (void_dispatch d id result s).1
  unfolding void_dispatch ◌>>=◌ attempt
  void_dispatch-VoidedOnce id result s h =
      void_answer-VoidedOnce id result _ _ (submit-Sending id s h)

  pub VoidedOnce-moves :
      (s : KeeperState W) (w : W) → VoidedOnce j s → VoidedOnce j (record s { world = w })
  unfolding VoidedOnce
  VoidedOnce-moves s w h = h

  pub VoidedOnce-records :
      (id : ℕ) (step : KeeperStep) → Keeps (VoidedOnce j) (record_step d id step)
  unfolding VoidedOnce Keeps record_step
  VoidedOnce-records id step s h = h

  pub VoidedOnce-other :
      {A : Type 0} (id : ℕ) (tx : Tx) (f : W → Outcome A × W)
      → is_voids tx ≡ false
      → Keeps (VoidedOnce j) (submit id tx f)
  unfolding VoidedOnce Keeps submit confirmations
  VoidedOnce-other id tx f n s (k, h) = (k, rw n (omega (arith, h)))
