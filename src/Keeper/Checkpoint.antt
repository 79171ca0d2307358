-- ===== src/Keeper/Checkpoint.antt =====
-- services/keeper/src/checkpoint.ts: the durable cursor of the watch loop. A round id in its normal
-- form is the number it prints. The file is a value; the logger is left out.
use sub_rosa_issue.Prelude.{
  or_else, ℕ, ◌≡◌, ◌↔◌, ap, Bool, true, false, not, ◌||◌, Option, none, some, some_inj, List, [],
  ◌∷◌, ◌++◌, String, str_eq, str_eq_iff, contains, if◌then◌else◌, ◌==◌, get, put, delete, arith,
  str_eq_refl, ◌∙◌, sym, refl, subst,
}
pub mod Marks
mod Rollbacks
mod Sane
mod Reach
pub mod Reconciles
pub mod Vouched
pub mod Verdicts
pub mod Hashes
mod Stored
mod Resume
mod Tests

pub data KeeperStep : Type 0 where
  open_reveal : KeeperStep
  reveal : KeeperStep
  clear : KeeperStep
  settle : KeeperStep
  void : KeeperStep

abbrev pub step_name : KeeperStep → String
step_name open_reveal = "open-reveal"
step_name reveal = "reveal"
step_name clear = "clear"
step_name settle = "settle"
step_name void = "void"

-- The step of a name, none for a text that is not a key of the table below.
abbrev pub keeper_step : String → Option KeeperStep
keeper_step s =
    if str_eq s "open-reveal"
    then some open_reveal
    else if str_eq s "reveal"
    then some reveal
    else if str_eq s "clear"
    then some clear
    else if str_eq s "settle"
    then some settle
    else if str_eq s "void"
    then some void
    else none

abbrev pub step_eq : KeeperStep → KeeperStep → Bool
step_eq a b = str_eq (step_name a) (step_name b)

pub keeper_step-step_name : (s : KeeperStep) → keeper_step (step_name s) ≡ some s
keeper_step-step_name open_reveal = refl
keeper_step-step_name reveal = refl
keeper_step-step_name clear = refl
keeper_step-step_name settle = refl
keeper_step-step_name void = refl

pub step_eq_iff : (a b : KeeperStep) → (step_eq a b ≡ true) ↔ (a ≡ b)
step_eq_iff a b = (
  λ h. some_inj a b (
      sym (keeper_step-step_name a)
      ∙ ap keeper_step ((str_eq_iff (step_name a) (step_name b)).0 h)
      ∙ keeper_step-step_name b),
  λ p. subst (λ c. step_eq a c ≡ true) p (str_eq_refl (step_name a)),
)

abbrev pub checkpoint_version : ℕ
checkpoint_version = 1

-- The on-chain statuses that prove that a step took effect.
unfoldable pub step_satisfied_by_status : KeeperStep → List String
step_satisfied_by_status open_reveal = "Revealing" ∷ "Cleared" ∷ "Settled" ∷ "Voided" ∷ []
step_satisfied_by_status reveal = "Revealing" ∷ "Cleared" ∷ "Settled" ∷ "Voided" ∷ []
step_satisfied_by_status clear = "Cleared" ∷ "Settled" ∷ "Voided" ∷ []
step_satisfied_by_status settle = "Settled" ∷ "Voided" ∷ []
step_satisfied_by_status void = "Voided" ∷ []

pub record KeeperCheckpoint : Type 0 where
  pub round_id : ℕ
  pub completed_steps : List KeeperStep
  pub last_completed_step : Option KeeperStep
  pub last_transaction_hash : Option String
  pub step_hashes : List (KeeperStep × String)
  pub updated_at : String

pub record KeeperCheckpointFile : Type 0 where
  pub version : ℕ
  pub network : String
  pub contract_id : String
  pub rounds : List (ℕ × KeeperCheckpoint)

abbrev pub empty_file : String → String → KeeperCheckpointFile
empty_file net c = record {
  version = checkpoint_version;
  network = net;
  contract_id = c;
  rounds = [];
}

abbrev pub unknown_timestamp : String
unknown_timestamp = "1970-01-01T00:00:00.000Z"

-- `steps.includes(step)`.
unfoldable pub includes : List KeeperStep → KeeperStep → Bool
includes [] s = false
includes (t ∷ ts) s = step_eq t s || includes ts s

abbrev pub last {ℓ} : {A : Type ℓ} → List A → Option A
last [] = none
last (x ∷ []) = some x
last (x ∷ y ∷ ys) = last (y ∷ ys)

-- A text that the source's truth test accepts: it is there and not empty.
abbrev pub present : Option String → Option String
present none = none
present (some s) = if str_eq s "" then none else some s

-- `[...previous.completedSteps]` or `[]`, and the same of the hashes and the time.
abbrev pub steps_of : Option KeeperCheckpoint → List KeeperStep
steps_of none = []
steps_of (some e) = e.completed_steps

abbrev pub hashes_of : Option KeeperCheckpoint → List (KeeperStep × String)
hashes_of none = []
hashes_of (some e) = e.step_hashes

abbrev pub time_of : Option KeeperCheckpoint → String
time_of none = unknown_timestamp
time_of (some e) = e.updated_at

unfoldable pub push_step : List KeeperStep → KeeperStep → List KeeperStep
push_step steps s = if includes steps s then steps else steps ++ s ∷ []

abbrev pub note_hash :
    List (KeeperStep × String) → KeeperStep → Option String → List (KeeperStep × String)
note_hash hashes s none = delete step_eq hashes s
note_hash hashes s (some h) = put step_eq hashes s h

unfoldable pub plan_checkpoint_step :
    KeeperCheckpointFile → ℕ → KeeperStep → Option String → Option String → KeeperCheckpointFile
plan_checkpoint_step file id step hash at =
    let previous = get ◌==◌ file.rounds id in
    let entry : KeeperCheckpoint = record {
      round_id = id;
      completed_steps = push_step (steps_of previous) step;
      last_completed_step = some step;
      last_transaction_hash = hash;
      step_hashes = note_hash (hashes_of previous) step (present hash);
      updated_at = or_else at (time_of previous);
    } in
    record file {
      version = if file.version == 0 then checkpoint_version else file.version;
      rounds = put ◌==◌ file.rounds id entry;
    }

-- `steps.filter((s) => s !== step)`.
unfoldable pub without : List KeeperStep → KeeperStep → List KeeperStep
without [] s = []
without (t ∷ ts) s = let rest = without ts s in if step_eq t s then rest else t ∷ rest

abbrev pub hash_of_last : List (KeeperStep × String) → Option KeeperStep → Option String
hash_of_last hashes none = none
hash_of_last hashes (some s) = get step_eq hashes s

unfoldable pub rolled_back : KeeperCheckpoint → KeeperStep → KeeperCheckpoint
rolled_back e step =
    let steps = without e.completed_steps step in
    let hashes = delete step_eq e.step_hashes step in
    record e {
      completed_steps = steps;
      step_hashes = hashes;
      last_completed_step = last steps;
      last_transaction_hash = hash_of_last hashes (last steps);
    }

unfoldable pub plan_checkpoint_rollback :
    KeeperCheckpointFile → ℕ → KeeperStep → KeeperCheckpointFile
plan_checkpoint_rollback file id step = elim (get ◌==◌ file.rounds id) [
  | none ↦ file
  | some e ↦
      if includes e.completed_steps step
      then record file { rounds = put ◌==◌ file.rounds id (rolled_back e step) }
      else file
]

unfoldable pub checkpoint_has_step : Option KeeperCheckpoint → KeeperStep → Bool
checkpoint_has_step none s = false
checkpoint_has_step (some e) s = includes e.completed_steps s

-- The operations of the store, on the file it keeps.
unfoldable pub is_complete : KeeperCheckpointFile → ℕ → KeeperStep → Bool
is_complete file id s = checkpoint_has_step (get ◌==◌ file.rounds id) s

unfoldable pub mark_complete :
    KeeperCheckpointFile → ℕ → KeeperStep → Option String → String → KeeperCheckpointFile
mark_complete file id step hash now = plan_checkpoint_step file id step hash (some now)

unfoldable pub read : KeeperCheckpointFile → ℕ → Option KeeperCheckpoint
read file id = get ◌==◌ file.rounds id
