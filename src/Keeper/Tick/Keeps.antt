-- ===== src/Keeper/Tick/Keeps.antt =====
-- Predicates of the keeper's state that the pass of services/keeper/src/keeper.ts keeps: rules for the
-- steps it is made of, and for its parts.
pub mod Passes
pub mod Reveals
pub mod Quiet
use sub_rosa_issue.Prelude.{
  ℕ, Bool, true, false, String, Option, none, some, List, [], ◌∷◌, if◌then◌else◌,
}
use sub_rosa_issue.Keeper.Guard.{Status, open_status, revealing, cleared, settled_status, voided}
use sub_rosa_issue.Keeper.Checkpoint.{KeeperStep}
use sub_rosa_issue.Keeper.Tick.World.{
  ChainError, Outcome, ok, failed, OnChainRound, OpenedBid, opens, reveals, KeeperDeps, KeeperState,
  Keeper, pure, throw, gets, call, attempt, submit, then_do, ◌>>=◌, ◌>>◌, when◌then◌otherwise◌,
  error_matches, step_already_done, record_step,
}

unfoldable pub Keeps {ℓ} : {W A : Type 0} → (KeeperState W → Type ℓ) → Keeper W A → Type ℓ
Keeps {W = W} P m = (s : KeeperState W) → P s → P (m s).1

module _ {ℓ} {W : Type 0} (P : KeeperState W → Type ℓ) where
  pub Keeps-pure : {A : Type 0} (a : A) → Keeps P (pure a)
  unfolding Keeps pure
  Keeps-pure a s h = h

  pub Keeps-throw : (A : Type 0) (e : ChainError) → Keeps P (throw {A = A} e)
  unfolding Keeps throw
  Keeps-throw A e s h = h

  pub then_do-Keeps :
      {A B : Type 0} (r : Outcome A) (s : KeeperState W) (f : A → Keeper W B)
      → P s
      → ((a : A) → Keeps P (f a))
      → P (then_do r s f).1
  unfolding Keeps
  then_do-Keeps (ok a) s f h k = k a s h
  then_do-Keeps (failed e) s f h k = h

  pub Keeps-bind :
      {A B : Type 0} (m : Keeper W A) (f : A → Keeper W B)
      → Keeps P m
      → ((a : A) → Keeps P (f a))
      → Keeps P (m >>= f)
  unfolding Keeps ◌>>=◌
  Keeps-bind m f hm hf s h = then_do-Keeps (m s).0 (m s).1 f (hm s h) hf

  pub Keeps-attempt : {A : Type 0} (m : Keeper W A) → Keeps P m → Keeps P (attempt m)
  unfolding Keeps attempt
  Keeps-attempt m h s p = h s p

  pub Keeps-if :
      {A : Type 0} (b : Bool) (m k : Keeper W A)
      → Keeps P m
      → Keeps P k
      → Keeps P (when b then m otherwise k)
  unfolding when◌then◌otherwise◌
  Keeps-if true m k hm hk = hm
  Keeps-if false m k hm hk = hk

  -- A call that only reads changes no more than the world.
  pub Keeps-call :
      {A : Type 0} (f : W → Outcome A × W)
      → ((s : KeeperState W) (w : W) → P s → P (record s { world = w }))
      → Keeps P (call f)
  unfolding Keeps call
  Keeps-call f moves s h = moves s (f s.world).1 h
