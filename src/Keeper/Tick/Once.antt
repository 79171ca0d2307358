-- ===== src/Keeper/Tick/Once.antt =====
-- The transactions of one kind that the contract confirmed for a round, against the step that the
-- cursor of services/keeper/src/keeper.ts records for it.
pub mod Phases
pub mod Settled
pub mod Restart
pub mod Voids
pub mod Voided
pub mod Guarded
pub mod Watched
use sub_rosa_issue.Prelude.{
  ℕ, ◌+◌, ◌≤◌, ◌≡◌, refl, ap, ◌==◌, ==_iff, ==_refl, Bool, true, false, ◌&&◌, ◌||◌, Option, none,
  some, List, [], ◌∷◌, arith, String, if◌then◌else◌, inl, inr, Bool-cases, ◌⊎◌,
}
use sub_rosa_issue.Keeper.Checkpoint.{
  KeeperStep, KeeperCheckpointFile, is_complete, mark_complete, step_eq, step_eq_iff,
}
use sub_rosa_issue.Keeper.Checkpoint.Marks.{is_complete-mark_complete}
use sub_rosa_issue.Keeper.Tick.World.{
  Outcome, ok, failed, Tx, Sent, KeeperDeps, KeeperState, is_ok, Keeper, submit, recorded,
  record_in, record_step,
}
use sub_rosa_issue.Keeper.Tick.Keeps.{Keeps}

abbrev pub flag : Bool → ℕ
flag true = 1
flag false = 0

-- How many transactions of a kind the contract confirmed for a round.
unfoldable pub confirmations : (Tx → Bool) → ℕ → List Sent → ℕ
confirmations kind id [] = 0
confirmations kind id (x ∷ rest) =
    confirmations kind id rest + flag (kind x.tx && ((x.round_id == id) && x.confirmed))

abbrev pub has_checkpoint : Option KeeperCheckpointFile → Bool
has_checkpoint none = false
has_checkpoint (some file) = true

-- There is a cursor, and what was confirmed is at most one transaction, which the cursor records.
unfoldable pub OnceRecorded : {W : Type 0} → (Tx → Bool) → KeeperStep → ℕ → KeeperState W → Type 0
OnceRecorded kind step id s =
    (has_checkpoint s.checkpoint ≡ true)
    × (confirmations kind id s.sent ≤ flag (recorded s.checkpoint id step))

pub has_checkpoint-record_in :
    (c : Option KeeperCheckpointFile) (id : ℕ) (step : KeeperStep) (now : String)
    → has_checkpoint (record_in c id step now) ≡ has_checkpoint c
has_checkpoint-record_in none id step now = refl
has_checkpoint-record_in (some file) id step now = refl

pub recorded-record_in :
    (c : Option KeeperCheckpointFile) (id : ℕ) (step : KeeperStep) (now : String) (j : ℕ)
    (t : KeeperStep)
    → has_checkpoint c ≡ true
    → recorded (record_in c id step now) j t ≡ ((id == j && step_eq step t) || recorded c j t)
recorded-record_in none id step now j t h = cc
recorded-record_in (some file) id step now j t h =
    is_complete-mark_complete file id step none now j t

flag-or : (a b : Bool) → flag b ≤ flag (a || b)
flag-or true true = omega arith
flag-or true false = omega arith
flag-or false b = omega arith

counted :
    (c : ℕ) (k same confirmed r : Bool)
    → c ≤ flag r
    → (same ≡ true → r ≡ false)
    → c + flag (k && (same && confirmed)) ≤ (if confirmed && same then 1 else flag r)
counted c k true true true h e = cc (e refl)
counted c true true true false h e = omega arith
counted c false true true false h e = omega arith
counted c true true false r h e = omega (arith, h)
counted c false true false r h e = omega (arith, h)
counted c true false true r h e = omega (arith, h)
counted c false false true r h e = omega (arith, h)
counted c true false false r h e = omega (arith, h)
counted c false false false r h e = omega (arith, h)

settled_count :
    (c : ℕ) (same r : Bool)
    → c ≤ (if true && same then 1 else flag r)
    → c ≤ flag ((same && true) || r)
settled_count c true r h = h
settled_count c false r h = h

module _ {W : Type 0} (kind : Tx → Bool) (step : KeeperStep) (j : ℕ) where
  pub OnceRecorded-moves :
      (s : KeeperState W) (w : W)
      → OnceRecorded kind step j s
      → OnceRecorded kind step j (record s { world = w })
  unfolding OnceRecorded
  OnceRecorded-moves s w h = h

  pub OnceRecorded-records :
      (d : KeeperDeps W) (id : ℕ) (t : KeeperStep)
      → Keeps (OnceRecorded kind step j) (record_step d id t)
  unfolding OnceRecorded Keeps record_step
  OnceRecorded-records d id t s (c, h) =
      let now = d.now_iso s.world in
      (
        rw (has_checkpoint-record_in s.checkpoint id t now) c,
        rw (recorded-record_in s.checkpoint id t now j step c)
            (omega (arith, flag-or (id == j && step_eq t step) (recorded s.checkpoint j step))),
      )

  -- A transaction of another kind.
  pub OnceRecorded-other :
      {A : Type 0} (id : ℕ) (tx : Tx) (f : W → Outcome A × W)
      → kind tx ≡ false
      → Keeps (OnceRecorded kind step j) (submit id tx f)
  unfolding OnceRecorded Keeps submit confirmations
  OnceRecorded-other id tx f n s (c, h) = (c, rw n (omega (arith, h)))

  -- The state after a transaction of this kind was submitted: its answer still has to be recorded.
  unfoldable pub Answered : ℕ → Bool → KeeperState W → Type 0
  Answered id confirmed s =
      (has_checkpoint s.checkpoint ≡ true)
      × (confirmations kind j s.sent
          ≤ (if confirmed && id == j then 1 else flag (recorded s.checkpoint j step)))

  pub Answered-submit :
      {A : Type 0} (id : ℕ) (tx : Tx) (f : W → Outcome A × W) (s : KeeperState W)
      → recorded s.checkpoint id step ≡ false
      → OnceRecorded kind step j s
      → Answered id (is_ok (submit id tx f s).0) (submit id tx f s).1
  unfolding OnceRecorded Answered submit confirmations
  Answered-submit id tx f s n (c, h) = (
    c,
    counted (confirmations kind j s.sent) (kind tx) (id == j) (is_ok (f s.world).0)
        (recorded s.checkpoint j step) h λ same. rw (← (==_iff id j).0 same) n,
  )

  pub Answered-record_step :
      (d : KeeperDeps W) (id : ℕ) (s : KeeperState W)
      → step_eq step step ≡ true
      → Answered id true s
      → OnceRecorded kind step j (record_step d id step s).1
  unfolding OnceRecorded Answered record_step
  Answered-record_step d id s e (c, h) =
      let now = d.now_iso s.world in
      (
        rw (has_checkpoint-record_in s.checkpoint id step now) c,
        rw (recorded-record_in s.checkpoint id step now j step c, e)
            (settled_count (confirmations kind j s.sent) (id == j) (recorded s.checkpoint j step)
              h),
      )

  pub Answered-refused :
      (id : ℕ) (s : KeeperState W) → Answered id false s → OnceRecorded kind step j s
  unfolding OnceRecorded Answered
  Answered-refused id s h = h
