-- ===== src/Keeper/Tick/World.antt =====
-- What services/keeper/src/keeper.ts works on: the chain, the beacon and the clock behind `KeeperDeps`
-- as functions of a world, the errors that their calls throw, and the keeper's own state around them.
-- `sent` lists the transactions that were submitted, the latest first. The clock moves only while the
-- keeper waits for a call. The logger is left out.

use text.Mathlib.Text.{find?}
use sub_rosa_issue.Prelude.{
  ℕ, ◌/◌, Bool, true, false, ◌&&◌, ◌||◌, ℤ, String, Option, none, some, List, [], ◌∷◌,
  if◌then◌else◌,
}
use sub_rosa_issue.Keeper.Guard.{Status, ClearingRule, RoundSettlementView}
use sub_rosa_issue.Keeper.Guard.Machine.{Guard}
use sub_rosa_issue.Keeper.Checkpoint.{
  KeeperStep, open_reveal, KeeperCheckpointFile, is_complete, mark_complete,
}

-- What `normalizeError` makes of a thrown value: its message, and the text of the whole.
pub record ChainError : Type 0 where
  pub message : String
  pub diagnostic : String

pub data Outcome (A : Type 0) : Type 0 where
  ok : A → Outcome A
  failed : ChainError → Outcome A

pub record OnChainRound : Type 0 where
  pub status : Status
  pub reveal_round : ℕ
  pub reveal_deadline : ℕ
  pub clearing_rule : ClearingRule
  pub winner : Option String
  pub winning_bid : Option ℤ

pub record OnChainBid : Type 0 where
  pub revealed_value : Option ℤ

pub record OpenedBid : Type 0 where
  pub value : ℤ
  pub nonce : List ℕ

-- A transaction on a round.
pub data Tx : Type 0 where
  opens clears settles voids : Tx
  reveals : String → Tx

pub record Sent : Type 0 where
  pub round_id : ℕ
  pub tx : Tx
  pub confirmed : Bool

-- The client of the contract, the beacon and the clock, as the keeper calls them. A bid's ciphertext
-- is its bytes.
pub record KeeperDeps (W : Type 0) : Type 0 where
  pub get_round : ℕ → W → Outcome OnChainRound × W
  pub bidders : ℕ → W → Outcome (List String) × W
  pub get_bid_state : ℕ → String → W → Outcome OnChainBid × W
  pub get_seal : ℕ → String → W → Outcome (Option (List ℕ)) × W
  pub read_settlement_view : ℕ → ℕ → W → Outcome RoundSettlementView × W
  pub chain_info : W → Outcome (ℕ × ℕ) × W
  pub fetch_round_signature : ℕ → W → Outcome (List ℕ) × W
  pub open_bid : List ℕ → W → Outcome OpenedBid × W
  pub send_open_reveal : ℕ → List ℕ → W → Outcome (Unit {0}) × W
  pub send_reveal : ℕ → String → OpenedBid → W → Outcome (Unit {0}) × W
  pub send_clear : ℕ → W → Outcome (Option String) × W
  pub send_settle : ℕ → W → Outcome (Unit {0}) × W
  pub send_void : ℕ → W → Outcome (Unit {0}) × W
  pub now_ms : W → ℕ
  pub now_iso : W → String
  pub sleep : ℕ → W → W

pub record KeeperState (W : Type 0) : Type 0 where
  pub world : W
  pub checkpoint : Option KeeperCheckpointFile
  pub guard : Option Guard
  pub sent : List Sent

-- A step of the keeper. What was done before a throw stays done.
abbrev pub Keeper : Type 0 → Type 0 → Type 0
Keeper W A = KeeperState W → Outcome A × KeeperState W

module _ {W A : Type 0} where
  unfoldable pub pure : A → Keeper W A
  pure a s = (ok a, s)

  unfoldable pub throw : ChainError → Keeper W A
  throw e s = (failed e, s)

  unfoldable pub gets : (KeeperState W → A) → Keeper W A
  gets f s = (ok (f s), s)

  -- A call that only reads.
  unfoldable pub call : (W → Outcome A × W) → Keeper W A
  call f s = let (r, w) = f s.world in (r, record s { world = w })

  -- `try`: the outcome as a value.
  unfoldable pub attempt : Keeper W A → Keeper W (Outcome A)
  attempt m s = let (r, s') = m s in (ok r, s')

abbrev pub is_ok : {A : Type 0} → Outcome A → Bool
is_ok (ok a) = true
is_ok (failed e) = false

-- A transaction that is submitted, whether the contract accepts it or not.
unfoldable pub submit : {W A : Type 0} → ℕ → Tx → (W → Outcome A × W) → Keeper W A
submit id tx f s =
    let (r, w) = f s.world in
    (
      r,
      record s {
        world = w;
        sent = record { round_id = id; tx = tx; confirmed = is_ok r } ∷ s.sent;
      },
    )

abbrev pub then_do :
    {W A B : Type 0} → Outcome A → KeeperState W → (A → Keeper W B) → Outcome B × KeeperState W
then_do (ok a) s f = f a s
then_do (failed e) s f = (failed e, s)

infixl 5 ◌>>=◌ ◌>>◌
unfoldable pub ◌>>=◌ : {W A B : Type 0} → Keeper W A → (A → Keeper W B) → Keeper W B
◌>>=◌ m f s = let (r, s') = m s in then_do r s' f

abbrev pub ◌>>◌ : {W A B : Type 0} → Keeper W A → Keeper W B → Keeper W B
m >> k = m >>= λ _. k

-- The branches of a step.
infix 1 when◌then◌otherwise◌
unfoldable pub when◌then◌otherwise◌ : {W A : Type 0} → Bool → Keeper W A → Keeper W A → Keeper W A
when b then m otherwise k = if b then m else k

unfoldable pub error_name : ChainError → String
error_name e = e.message

abbrev pub text_includes : String → String → Bool
text_includes text part = elim (find? text part) [ none ↦ false | some at ↦ true ]

unfoldable pub error_matches : ChainError → List String → Bool
error_matches e [] = false
error_matches e (name ∷ names) = text_includes e.diagnostic name || error_matches e names

-- The steps that the cursor may skip: all but the opening, which the status on the chain decides.
unfoldable pub checkpoint_skip_step : KeeperStep → Bool
checkpoint_skip_step open_reveal = false
checkpoint_skip_step _ = true

abbrev pub recorded : Option KeeperCheckpointFile → ℕ → KeeperStep → Bool
recorded none id step = false
recorded (some file) id step = is_complete file id step

abbrev pub record_in :
    Option KeeperCheckpointFile → ℕ → KeeperStep → String → Option KeeperCheckpointFile
record_in none id step now = none
record_in (some file) id step now = some (mark_complete file id step none now)

module _ {W : Type 0} where
  unfoldable pub step_already_done : ℕ → KeeperStep → Keeper W Bool
  unfolding checkpoint_skip_step
  step_already_done id step s = (ok (checkpoint_skip_step step && recorded s.checkpoint id step), s)

  -- No step that the keeper records carries a transaction hash.
  unfoldable pub record_step : KeeperDeps W → ℕ → KeeperStep → Keeper W (Unit {0})
  record_step d id step s =
      (ok tt, record s { checkpoint = record_in s.checkpoint id step (d.now_iso s.world) })

  unfoldable pub now_seconds : KeeperDeps W → Keeper W ℕ
  now_seconds d s = (ok (d.now_ms s.world / 1000), s)

  unfoldable pub sleep_for : KeeperDeps W → ℕ → Keeper W (Unit {0})
  sleep_for d ms s = (ok tt, record s { world = d.sleep ms s.world })
