-- ===== src/Keeper/Tick/Keep/Waits.antt =====
-- The wait for the beacon of services/keeper/src/keeper.ts.
use sub_rosa_issue.Prelude.{
  ℕ, zero, suc, ◌+◌, ◌-◌, ◌*◌, ◌≤◌, ◌<◌, ◌≡◌, refl, Bool, true, false, leb, ltb, some, arith, inl,
  inr, Bool-cases,
}
use sub_rosa_issue.Keeper.Tick.World.{KeeperDeps}
use sub_rosa_issue.Keeper.Tick.Keep.{min, max, wait_loop, wait_until}

-- A sleep lasts at least as long as it was asked for.
abbrev pub ClockMoves : {W : Type 0} → KeeperDeps W → Type 0
ClockMoves {W = W} d = (ms : ℕ) (w : W) → d.now_ms w + ms ≤ d.now_ms (d.sleep ms w)

-- What the answer says of the time at the end: the beacon is due, or the wait was given up before it.
abbrev pub Waited : ℕ → ℕ → ℕ → Bool → Type 0
Waited publish_at give_up_at now true = publish_at ≤ now
Waited publish_at give_up_at now false = (give_up_at ≤ now) × (now < publish_at)

due_le : (a b : ℕ) → ltb a b ≡ false → b ≤ a
due_le a b h = ground arith

slept : (poll_ms remain : ℕ) → 0 < poll_ms → 0 < min poll_ms (max 250 remain)
slept poll_ms remain h = ground arith

module _ {W : Type 0} (d : KeeperDeps W) (moving : ClockMoves d) (poll_ms : ℕ) (polls : 0 < poll_ms)
    (publish_at give_up_at : ℕ) where
  wait_loop_lem :
      (fuel : ℕ) (w : W)
      → 0 < fuel
      → give_up_at < d.now_ms w + fuel
      → (b : Bool) × ((wait_loop d fuel publish_at give_up_at poll_ms w).0 ≡ some b)
        × Waited publish_at give_up_at
            (d.now_ms (wait_loop d fuel publish_at give_up_at poll_ms w).1)
            b
  unfolding wait_loop
  wait_loop_lem zero w positive f = absurd (omega arith)
  wait_loop_lem (suc fuel) w positive f = elim (Bool-cases (ltb (d.now_ms w) publish_at)) [
    | inr due ↦ rw due (true, refl, due_le (d.now_ms w) publish_at due)
    | inl early ↦ elim (Bool-cases (leb give_up_at (d.now_ms w))) [
      | inl over ↦ rw (early, over) (false, refl, (ground arith, ground arith))
      | inr more ↦
          rw (early, more)
            (wait_loop_lem fuel _ (ground arith) (
              ground (
                arith,
                moving (min poll_ms (max 250 (publish_at - d.now_ms w))) w,
                slept poll_ms (publish_at - d.now_ms w) polls,
              )))
    ]
  ]

module _ {W : Type 0} (d : KeeperDeps W) (moving : ClockMoves d) where
  -- If the poll interval is positive, and a sleep lasts at least as long as it was asked for, the wait
  -- for the beacon ends. It answers yes only once the round is due, and no only before that, and only
  -- once the longest wait is over.
  pub wait_until_lem :
      (max_wait_seconds poll_ms publish_at : ℕ) (w : W)
      → 0 < poll_ms
      → let after = wait_until d max_wait_seconds poll_ms publish_at w in
        (b : Bool) × (after.0 ≡ some b)
        × Waited publish_at (d.now_ms w + max_wait_seconds * 1000) (d.now_ms after.1) b
  unfolding wait_until
  wait_until_lem max_wait_seconds poll_ms publish_at w polls =
      wait_loop_lem d moving poll_ms polls publish_at (d.now_ms w + max_wait_seconds * 1000)
        (max_wait_seconds * 1000 + 1) w (omega arith) (omega arith)
