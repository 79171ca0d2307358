-- ===== src/Keeper/Checkpoint/Resume.antt =====
-- What the load method of services/keeper/src/checkpoint.ts accepts, and what a saved cursor keeps.
use sub_rosa_issue.Prelude.{
  ℕ, ◌≡◌, ◌↔◌, refl, ap₂, true, Option, none, some, Bool-cases, List, [], ◌∷◌, String, str_eq_iff,
  str_eq_refl, str_ne, ◌==◌, ==_iff, get, arith, map, inl, inr,
}
use sub_rosa_issue.Keeper.Checkpoint.{
  KeeperStep, KeeperCheckpoint, KeeperCheckpointFile, step_name, keeper_step-step_name,
  checkpoint_version, is_complete, checkpoint_has_step,
}
use sub_rosa_issue.Keeper.Checkpoint.Stored.{
  Value, text, other, StoredFile, parsed, resumed, mismatch_network, mismatch_contract_id, load,
  save, is_text, is_version, keeper_steps, parse_checkpoint_entry, parse_rounds, stored_entry,
  list_or_empty, push_some,
}

is_text_iff : (v : Value) (s : String) → (is_text v s ≡ true) ↔ (v ≡ text s)
is_text_iff (text t) s = ground (arith, str_eq_iff t s)
is_text_iff other s = ground arith

is_version_iff : (v : Option ℕ) → (is_version v ≡ true) ↔ (v ≡ some 1)
is_version_iff none = ground arith
is_version_iff (some n) = ground (arith, ==_iff n 1)

-- A parsed file is resumed just when it records this network, this contract and version 1; the
-- cursor that comes of it is bound to this network and contract and holds its entries as parsed.
pub load_iff :
    (network contract_id : String) (f : StoredFile) (g : KeeperCheckpointFile)
    → (load network contract_id (parsed f) ≡ resumed g) ↔ (
        (f.network ≡ text network)
        × (f.contract_id ≡ text contract_id)
        × (f.version ≡ some 1)
        × (g ≡ record {
          version = checkpoint_version;
          network = network;
          contract_id = contract_id;
          rounds = parse_rounds (list_or_empty f.rounds);
        }))
unfolding load
load_iff network contract_id f g =
    let n = is_text_iff f.network network in
    let c = is_text_iff f.contract_id contract_id in
    let v = is_version_iff f.version in ground (arith, n, c, v)

keeper_steps-map : (ss : List KeeperStep) → keeper_steps (map (λ s. text (step_name s)) ss) ≡ ss
unfolding keeper_steps
keeper_steps-map [] = refl
keeper_steps-map (s ∷ ss) = ap₂ push_some (keeper_step-step_name s) (keeper_steps-map ss)

pub restored : List (ℕ × KeeperCheckpoint) → List (ℕ × KeeperCheckpoint)
restored rs = parse_rounds (map (λ r. (r.0, some (stored_entry (r.1)))) rs)

has_step-restored :
    (rs : List (ℕ × KeeperCheckpoint)) (j : ℕ) (t : KeeperStep)
    → checkpoint_has_step (get ◌==◌ (restored rs) j) t ≡ checkpoint_has_step (get ◌==◌ rs j) t
unfolding restored parse_rounds parse_checkpoint_entry checkpoint_has_step
has_step-restored [] j t = refl
has_step-restored (r ∷ rs) j t = elim (Bool-cases (r.0 == j)) [
  | inl e ↦ rw (e, keeper_steps-map (r.1).completed_steps) refl
  | inr e ↦ rw e (has_step-restored rs j t)
]

-- A saved cursor of version 1 that is loaded by a process of the same network and contract resumes
-- with exactly the same completed steps of every round, and a process of another network, or of the
-- same network and another contract, refuses it.
pub load-save :
    (f : KeeperCheckpointFile) (network contract_id : String)
    → f.version ≡ 1
    → ((g : KeeperCheckpointFile) × (load f.network f.contract_id (save f) ≡ resumed g)
        × ((j : ℕ) (t : KeeperStep) → is_complete g j t ≡ is_complete f j t))
      × (¬ (f.network ≡ network)
          → load network contract_id (save f) ≡ mismatch_network (text f.network))
      × (¬ (f.contract_id ≡ contract_id)
          → load f.network contract_id (save f) ≡ mismatch_contract_id (text f.contract_id))
unfolding load save restored is_complete
load-save f network contract_id v = (
  (
    record {
      version = checkpoint_version;
      network = f.network;
      contract_id = f.contract_id;
      rounds = restored f.rounds;
    },
    rw (str_eq_refl f.network, str_eq_refl f.contract_id, v) refl,
    λ j t. has_step-restored f.rounds j t,
  ),
  λ d. rw (str_ne f.network network d) refl,
  λ d. rw (str_eq_refl f.network, str_ne f.contract_id contract_id d) refl,
)
