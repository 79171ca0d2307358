-- ===== src/Keeper/Checkpoint/Stored.antt =====
-- Loading and saving in services/keeper/src/checkpoint.ts: the parsed file is what JSON.parse gives,
-- cast to partial records as the source casts it, and any other JSON value is `other`.
use sub_rosa_issue.Prelude.{
  ℕ, Bool, false, Option, none, some, List, [], ◌∷◌, String, str_eq, if◌then◌else◌, ◌==◌, put, map,
}
use sub_rosa_issue.Keeper.Checkpoint.{
  KeeperStep, KeeperCheckpoint, KeeperCheckpointFile, step_eq, step_name, keeper_step, last,
  empty_file, checkpoint_version, unknown_timestamp,
}

pub data Value : Type 0 where
  text : String → Value
  other : Value

-- `Partial<KeeperCheckpoint>`: none for a list or an object that is not one.
pub record StoredEntry : Type 0 where
  pub completed_steps : Option (List Value)
  pub step_hashes : Option (List (String × Value))
  pub last_transaction_hash : Value
  pub updated_at : Value

pub record StoredFile : Type 0 where
  pub version : Option ℕ
  pub network : Value
  pub contract_id : Value
  pub rounds : Option (List (ℕ × Option StoredEntry))

abbrev pub text_or : Value → String → String
text_or (text s) d = s
text_or other d = d

abbrev pub text_of : Value → Option String
text_of (text s) = some s
text_of other = none

-- isKeeperStep of a list entry, with the step that it is.
abbrev pub step_value : Value → Option KeeperStep
step_value (text s) = keeper_step s
step_value other = none

abbrev pub push_some {ℓ} : {A : Type ℓ} → Option A → List A → List A
push_some none xs = xs
push_some (some a) xs = a ∷ xs

unfoldable pub keeper_steps : List Value → List KeeperStep
keeper_steps [] = []
keeper_steps (v ∷ vs) = push_some (step_value v) (keeper_steps vs)

abbrev pub set_hash :
    List (KeeperStep × String) → Option KeeperStep → Option String → List (KeeperStep × String)
set_hash hashes (some s) (some h) = if str_eq h "" then hashes else put step_eq hashes s h
set_hash hashes (some s) none = hashes
set_hash hashes none h = hashes

unfoldable pub read_hashes :
    List (KeeperStep × String) → List (String × Value) → List (KeeperStep × String)
read_hashes hashes [] = hashes
read_hashes hashes (e ∷ es) = read_hashes (set_hash hashes (keeper_step (e.0)) (text_of (e.1))) es

abbrev pub list_or_empty {ℓ} : {A : Type ℓ} → Option (List A) → List A
list_or_empty none = []
list_or_empty (some xs) = xs

-- `none` stands for an entry that is not an object, which is dropped.
unfoldable pub parse_checkpoint_entry : ℕ → Option StoredEntry → Option KeeperCheckpoint
parse_checkpoint_entry id none = none
parse_checkpoint_entry id (some e) =
    let steps = keeper_steps (list_or_empty e.completed_steps) in
    some (record {
      round_id = id;
      completed_steps = steps;
      last_completed_step = last steps;
      last_transaction_hash = text_of e.last_transaction_hash;
      step_hashes = read_hashes [] (list_or_empty e.step_hashes);
      updated_at = text_or e.updated_at unknown_timestamp;
    })

unfoldable pub parse_rounds : List (ℕ × Option StoredEntry) → List (ℕ × KeeperCheckpoint)
parse_rounds [] = []
parse_rounds (r ∷ rs) = elim (parse_checkpoint_entry (r.0) (r.1)) [
  | none ↦ parse_rounds rs
  | some e ↦ (r.0, e) ∷ parse_rounds rs
]

-- The file on disk: missing, not readable as JSON, blank, or parsed.
pub data OnDisk : Type 0 where
  absent : OnDisk
  unparseable : OnDisk
  blank : OnDisk
  parsed : StoredFile → OnDisk

pub data Loaded : Type 0 where
  mismatch_network : Value → Loaded
  mismatch_contract_id : Value → Loaded
  unsupported_version : Option ℕ → Loaded
  resumed : KeeperCheckpointFile → Loaded

abbrev pub is_text : Value → String → Bool
is_text (text s) t = str_eq s t
is_text other t = false

abbrev pub is_version : Option ℕ → Bool
is_version none = false
is_version (some v) = v == checkpoint_version

-- The binding is checked before the version, and both before any entry is read.
unfoldable pub load : String → String → OnDisk → Loaded
load network contract_id absent = resumed (empty_file network contract_id)
load network contract_id unparseable = resumed (empty_file network contract_id)
load network contract_id blank = resumed (empty_file network contract_id)
load network contract_id (parsed f) =
    if is_text f.network network
    then if is_text f.contract_id contract_id
      then if is_version f.version
        then resumed (record {
          version = checkpoint_version;
          network = network;
          contract_id = contract_id;
          rounds = parse_rounds (list_or_empty f.rounds);
        })
        else unsupported_version f.version
      else mismatch_contract_id f.contract_id
    else mismatch_network f.network

-- JSON.stringify of the file, read back by JSON.parse.
abbrev pub stored_text : Option String → Value
stored_text none = other
stored_text (some s) = text s

abbrev pub stored_entry : KeeperCheckpoint → StoredEntry
stored_entry e = record {
  completed_steps = some (map (λ s. text (step_name s)) e.completed_steps);
  step_hashes = some (map (λ h. (step_name (h.0), text (h.1))) e.step_hashes);
  last_transaction_hash = stored_text e.last_transaction_hash;
  updated_at = text e.updated_at;
}

unfoldable pub save : KeeperCheckpointFile → OnDisk
save f = parsed (record {
  version = some f.version;
  network = text f.network;
  contract_id = text f.contract_id;
  rounds = some (map (λ r. (r.0, some (stored_entry (r.1)))) f.rounds);
})
