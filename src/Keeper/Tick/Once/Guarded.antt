-- ===== src/Keeper/Tick/Once/Guarded.antt =====
-- Passes of services/keeper/src/keeper.ts whose guard is asked before each void.
use sub_rosa_issue.Prelude.{
  ℕ, ◌≤◌, ◌≡◌, refl, subst, Bool, true, false, ◌==◌, ==_iff, some, arith, inl, inr, Bool-cases,
  if◌then◌else◌,
}
use sub_rosa_issue.Keeper.Guard.{SettlementAction, RoundSettlementView}
use sub_rosa_issue.Keeper.Guard.Machine.{Guard, SettlementCheck, check}
use sub_rosa_issue.Keeper.Tick.World.{
  Outcome, ok, failed, KeeperDeps, KeeperState, pure, call, then_do, ◌>>=◌, when◌then◌otherwise◌,
}
use sub_rosa_issue.Keeper.Tick.Void.{
  VoidResult, is_permitted, check_void, with_guard, void_checked, void_guarded,
}
use sub_rosa_issue.Keeper.Tick.Once.{flag, confirmations}
use sub_rosa_issue.Keeper.Tick.Once.Voided.{VoidedOnce, Sending, void_dispatch-VoidedOnce}
use sub_rosa_issue.Keeper.Tick.Once.Voids.{
  is_voids, ended, check-ended, check-permitted, submitted_guard,
}

-- The view that is read of a round is a view of that round.
abbrev pub ReadsRound : {W : Type 0} → KeeperDeps W → Type 0
ReadsRound {W = W} d =
    (id now : ℕ) (w : W) (view : RoundSettlementView)
    → (d.read_settlement_view id now w).0 ≡ ok view
    → view.round_id ≡ id

sending_count :
    (c : ℕ) (same e e' : Bool)
    → c ≤ flag e
    → (same ≡ true → e ≡ false)
    → e' ≡ (if same then false else e)
    → c ≤ flag (if same then false else e')
sending_count c true e e' h n p = subst (λ b. c ≤ flag b) (n refl) h
sending_count c false e e' h n p = rw p h

module _ {W : Type 0} (d : KeeperDeps W) (j : ℕ) where
  pub check_void-VoidedOnce :
      (g : Guard) (view : RoundSettlementView) (s : KeeperState W)
      → s.guard ≡ some g
      → VoidedOnce j s
      → VoidedOnce j (check_void d g view s).1
  unfolding VoidedOnce check_void
  check_void-VoidedOnce g view s e (k, h) =
      let now = d.now_ms s.world in
      let held = subst (λ o. confirmations is_voids j s.sent ≤ flag (ended o j)) e h in
      (refl, omega (arith, held, check-ended now SettlementAction.void view g j))

  void_checked-VoidedOnce :
      (id : ℕ) (result : VoidResult) (checked : SettlementCheck) (s : KeeperState W)
      → VoidedOnce j s
      → (is_permitted checked ≡ true → ended s.guard id ≡ false)
      → VoidedOnce j (void_checked d id result checked s).1
  unfolding void_checked when◌then◌otherwise◌ ◌>>=◌ with_guard pure Sending VoidedOnce
  void_checked-VoidedOnce id result checked s (k, h) n = elim (Bool-cases (is_permitted checked)) [
    | inl fine ↦
        let (kept, e) = submitted_guard (d.now_ms s.world) id s.guard j k in
        rw fine (
          void_dispatch-VoidedOnce d j id result _ (
            kept,
            sending_count (confirmations is_voids j s.sent) (id == j) (ended s.guard j) _ h
                (λ same. subst (λ i. ended s.guard i ≡ false) ((==_iff id j).0 same) (n fine)) e,
          ))
    | inr refused ↦ rw refused (k, h)
  ]

  -- The view and the check of it, whatever the read answers.
  checked_view-VoidedOnce :
      (id : ℕ) (result : VoidResult) (g : Guard) (r : Outcome RoundSettlementView)
      (s : KeeperState W)
      → ((view : RoundSettlementView) → r ≡ ok view → view.round_id ≡ id)
      → s.guard ≡ some g
      → VoidedOnce j s
      → VoidedOnce j (then_do r s λ view. check_void d g view >>= void_checked d id result).1
  unfolding ◌>>=◌ check_void VoidedOnce
  checked_view-VoidedOnce id result g (failed e) s own held h = h
  checked_view-VoidedOnce id result g (ok view) s own held h =
      let now = d.now_ms s.world in
      void_checked-VoidedOnce id result (check now SettlementAction.void view g).0
        (check_void d g view s).1 (check_void-VoidedOnce g view s held h)
        (λ p.
          subst (λ i. ended (some (check now SettlementAction.void view g).1) i ≡ false)
            (own view refl) (check-permitted now SettlementAction.void view g p))

  pub void_guarded-VoidedOnce :
      (id now : ℕ) (g : Guard) (result : VoidResult) (s : KeeperState W)
      → ReadsRound d
      → s.guard ≡ some g
      → VoidedOnce j s
      → VoidedOnce j (void_guarded d id now g result s).1
  unfolding void_guarded ◌>>=◌ call VoidedOnce
  void_guarded-VoidedOnce id now g result s own held h =
      checked_view-VoidedOnce id result g (d.read_settlement_view id now s.world).0 _
        (own id now s.world) held h
