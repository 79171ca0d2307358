-- ===== src/Keeper/Tick/Once/Voids.antt =====
-- The guard's part in `voidIfStale` of services/keeper/src/keeper.ts: how often a void is confirmed.
use sub_rosa_issue.Prelude.{
  ℕ, ◌≤◌, ◌≡◌, refl, sym, ap, Bool, true, false, ◌==◌, ==_iff, ==_refl, Option, none, some, arith,
  if◌then◌else◌, String,
}
use sub_rosa_issue.Keeper.Guard.{
  SettlementAction, RoundSettlementView, ContractDecision, allowed, refused,
}
use sub_rosa_issue.Keeper.Guard.Evaluate.{evaluate}
use sub_rosa_issue.Keeper.Guard.Machine.{
  Guard, GuardStatus, pending, submitted, terminal, SettlementCheck, check, mark_submitted,
  mark_terminal, mark_retryable,
}
use sub_rosa_issue.Keeper.Guard.Statuses.{
  status_of, status_of-submitted, status_of-terminal, status_of-retryable,
}
use sub_rosa_issue.Keeper.Guard.Suppression.{checked, Answers, check_lem}
use sub_rosa_issue.Keeper.Tick.World.{Tx, voids}
use sub_rosa_issue.Keeper.Tick.Void.{is_permitted, on_guard}
use sub_rosa_issue.Keeper.Tick.Once.{flag}

abbrev pub is_voids : Tx → Bool
is_voids voids = true
is_voids _ = false

abbrev pub is_terminal : GuardStatus → Bool
is_terminal terminal = true
is_terminal _ = false

abbrev pub has_guard : Option Guard → Bool
has_guard none = false
has_guard (some g) = true

-- The guard holds the round's entry as ended.
abbrev pub ended : Option Guard → ℕ → Bool
ended none id = false
ended (some g) id = is_terminal (status_of id g)

checked-ended :
    (s : GuardStatus) (d : ContractDecision)
    → flag (is_terminal s) ≤ flag (is_terminal (checked s d))
checked-ended pending d = omega arith
checked-ended submitted d = omega arith
checked-ended terminal d = omega arith

picked-ended :
    (b : Bool) (s t : GuardStatus) (d : ContractDecision)
    → (b ≡ true → t ≡ s)
    → flag (is_terminal t) ≤ flag (is_terminal (if b then checked s d else t))
picked-ended true s t d h = rw (h refl) (checked-ended s d)
picked-ended false s t d h = omega arith

-- A check leaves an ended entry ended.
pub check-ended :
    (now : ℕ) (action : SettlementAction) (view : RoundSettlementView) (g : Guard) (j : ℕ)
    → flag (ended (some g) j) ≤ flag (ended (some (check now action view g).1) j)
check-ended now action view g j = rw ((check_lem now action view g).1 j) (
    picked-ended (view.round_id == j) (status_of view.round_id g) (status_of j g)
      (evaluate action view)
      λ same. ap (λ i. status_of i g) (sym ((==_iff view.round_id j).0 same)))

permitted_pending :
    (s : GuardStatus) (d : ContractDecision) (r : SettlementCheck)
    → Answers s d r
    → is_permitted r ≡ true
    → is_terminal (checked s d) ≡ false
permitted_pending pending (allowed plan) r a h = refl
permitted_pending pending (refused event) r a h = cc
permitted_pending submitted d r a h = refl
permitted_pending terminal d r (e, a, _) h = cc

-- A check permits only what the guard holds as pending.
pub check-permitted :
    (now : ℕ) (action : SettlementAction) (view : RoundSettlementView) (g : Guard)
    → is_permitted (check now action view g).0 ≡ true
    → ended (some (check now action view g).1) view.round_id ≡ false
check-permitted now action view g h =
    rw ((check_lem now action view g).1 view.round_id, ==_refl view.round_id)
      (permitted_pending (status_of view.round_id g) (evaluate action view) _
        (check_lem now action view g).0 h)

-- The marks on a guard that is there.
pub submitted_guard :
    (now id : ℕ) (g : Option Guard) (j : ℕ)
    → has_guard g ≡ true
    → (has_guard (on_guard (mark_submitted now id) g) ≡ true)
      × (ended (on_guard (mark_submitted now id) g) j ≡ (if id == j then false else ended g j))
submitted_guard now id none j h = cc
submitted_guard now id (some g) j h = (refl, rw (status_of-submitted now id g j) (ground arith))

pub terminal_guard :
    (now id : ℕ) (reason : String) (g : Option Guard) (j : ℕ)
    → has_guard g ≡ true
    → (has_guard (on_guard (mark_terminal now id reason) g) ≡ true)
      × (ended (on_guard (mark_terminal now id reason) g) j ≡ (if id == j then true else ended g j))
terminal_guard now id reason none j h = cc
terminal_guard now id reason (some g) j h =
    (refl, rw (status_of-terminal now id g reason j) (ground arith))

pub retryable_guard :
    (now id : ℕ) (reason : String) (g : Option Guard) (j : ℕ)
    → has_guard g ≡ true
    → (has_guard (on_guard (mark_retryable now id reason) g) ≡ true)
      × (ended (on_guard (mark_retryable now id reason) g) j
          ≡ (if id == j then false else ended g j))
retryable_guard now id reason none j h = cc
retryable_guard now id reason (some g) j h =
    (refl, rw (status_of-retryable now id g reason j) (ground arith))
