-- ===== src/Keeper/Store.antt =====
-- services/keeper/src/store.ts: the watched rounds and the leases on them. The state is the store on
-- disk: every mutator re-reads it before it writes, and both run without a pause between. A round id
-- in normal form is the number it prints, an owner is its trimmed text. A duration is a natural number: the source refuses those
-- that are negative or not finite as it refuses 0.
use sub_rosa_issue.Prelude.{
  ℕ, zero, suc, ◌/◌, ◌%◌, ◌+◌, ◌≡◌, ◌↔◌, Bool, true, false, not, ◌&&◌, ◌||◌, Option, none, some,
  List, [], ◌∷◌, String, str_eq, str_eq_iff, str_eq_comm, if◌then◌else◌, ◌==◌, ==_iff, ltb, get,
  put, delete, arith, refl,
}
use Prim.Native.String.{◌++◌ as str_append}
pub mod Rounds
mod Leases
mod Exclusion
mod Release
mod Tests

pub data QueueStatus : Type 0 where
  queued : QueueStatus
  in_flight : QueueStatus
  terminal : QueueStatus

pub record LeaseScope : Type 0 where
  pub contract_id : Option String
  pub network : Option String

pub record RoundLease : Type 0 where
  pub owner : String
  pub round_id : ℕ
  pub scope : LeaseScope
  pub expires_at_ms : ℕ

abbrev pub default_lease_ms : ℕ
default_lease_ms = 120000

abbrev pub LeaseKey : Type 0
LeaseKey = String

abbrev pub digit : ℕ → String
digit d =
    if d == 0
    then "0"
    else if d == 1
    then "1"
    else if d == 2
    then "2"
    else if d == 3
    then "3"
    else if d == 4
    then "4"
    else if d == 5
    then "5"
    else if d == 6
    then "6"
    else if d == 7
    then "7"
    else if d == 8
    then "8"
    else "9"

-- The decimal text of a number, on fuel above the number.
unfoldable pub decimal_on : ℕ → ℕ → String
decimal_on zero n = ""
decimal_on (suc fuel) n = elim (ltb n 10) [
  | true ↦ digit n
  | false ↦ str_append (decimal_on fuel (n / 10)) (digit (n % 10))
]

unfoldable pub decimal_text : ℕ → String
decimal_text n = decimal_on (suc n) n

abbrev pub or_star : Option String → String
or_star none = "*"
or_star (some s) = s

-- `${contractId ?? "*"}|${network ?? "*"}|${roundId}`.
unfoldable pub lease_key : LeaseScope → ℕ → LeaseKey
lease_key s id =
    str_append (or_star s.contract_id)
      (str_append "|" (str_append (or_star s.network) (str_append "|" (decimal_text id))))

unfoldable pub key_eq : LeaseKey → LeaseKey → Bool
key_eq a b = str_eq a b

pub key_eq_iff : (a b : LeaseKey) → (key_eq a b ≡ true) ↔ (a ≡ b)
unfolding key_eq
key_eq_iff a b = str_eq_iff a b

-- An absent part matches anything.
abbrev pub part_overlap : Option String → Option String → Bool
part_overlap none b = true
part_overlap (some a) none = true
part_overlap (some a) (some b) = str_eq a b

unfoldable pub scopes_overlap : LeaseScope → LeaseScope → Bool
scopes_overlap a b = part_overlap a.contract_id b.contract_id && part_overlap a.network b.network

part_overlap_comm : (a b : Option String) → part_overlap a b ≡ part_overlap b a
part_overlap_comm none none = ground arith
part_overlap_comm none (some b) = ground arith
part_overlap_comm (some a) none = ground arith
part_overlap_comm (some a) (some b) = str_eq_comm a b

pub scopes_overlap_comm : (a b : LeaseScope) → scopes_overlap a b ≡ scopes_overlap b a
unfolding scopes_overlap
scopes_overlap_comm a b =
    rw (part_overlap_comm a.contract_id b.contract_id, part_overlap_comm a.network b.network) refl

pub record WatchedRound : Type 0 where
  pub round_id : ℕ
  pub contract_id : Option String
  pub network : Option String
  pub reveal_round : Option String
  pub last_status : String
  pub phase : Option String
  pub cursor : Option String
  pub last_hash : Option String
  pub retry_count : ℕ
  pub last_error : Option String
  pub last_action : Option String
  pub queue_status : Option QueueStatus

-- `Partial<WatchedRound>`: none for an absent key. A key that is there may hold `undefined`.
pub record RoundUpdate : Type 0 where
  pub contract_id : Option (Option String)
  pub network : Option (Option String)
  pub reveal_round : Option (Option String)
  pub last_status : Option String
  pub phase : Option (Option String)
  pub cursor : Option (Option String)
  pub last_hash : Option (Option String)
  pub retry_count : Option ℕ
  pub last_error : Option (Option String)
  pub last_action : Option (Option String)
  pub queue_status : Option (Option QueueStatus)

abbrev pub no_update : RoundUpdate
no_update = record {
  contract_id = none;
  network = none;
  reveal_round = none;
  last_status = none;
  phase = none;
  cursor = none;
  last_hash = none;
  retry_count = none;
  last_error = none;
  last_action = none;
  queue_status = none;
}

pub record Store : Type 0 where
  pub rounds : List (ℕ × WatchedRound)
  pub leases : List (LeaseKey × RoundLease)

abbrev pub empty_store : Store
empty_store = record { rounds = []; leases = [] }

pub record ClaimLeaseOptions : Type 0 where
  pub scope : LeaseScope
  pub owner : String
  pub lease_ms : Option ℕ

pub data ClaimResult : Type 0 where
  empty_owner : ClaimResult
  invalid_lease_ms : ℕ → ClaimResult
  held : RoundLease → ClaimResult
  claimed : RoundLease → ClaimResult

abbrev pub lease_ms_of : Option ℕ → ℕ
lease_ms_of none = default_lease_ms
lease_ms_of (some ms) = ms

-- A live lease of another owner that covers the same round.
unfoldable pub blocks : ℕ → ℕ → String → LeaseScope → RoundLease → Bool
blocks now id owner scope l =
    l.round_id == id
    && (not (str_eq l.owner owner) && (ltb now l.expires_at_ms && scopes_overlap l.scope scope))

-- `Object.values(leases).find(test)`.
unfoldable pub find_lease : (RoundLease → Bool) → List (LeaseKey × RoundLease) → Option RoundLease
find_lease test [] = none
find_lease test (e ∷ es) = let rest = find_lease test es in if test (e.1) then some (e.1) else rest

abbrev pub new_lease : ℕ → ℕ → ClaimLeaseOptions → RoundLease
new_lease now id o = record {
  owner = o.owner;
  round_id = id;
  scope = o.scope;
  expires_at_ms = now + lease_ms_of o.lease_ms;
}

unfoldable pub claim_round : ℕ → Store → ℕ → ClaimLeaseOptions → Store × ClaimResult
claim_round now s id o =
    if str_eq o.owner ""
    then (s, empty_owner)
    else if lease_ms_of o.lease_ms == 0
    then (s, invalid_lease_ms (lease_ms_of o.lease_ms))
    else elim (find_lease (blocks now id o.owner o.scope) s.leases) [
      | some l ↦ (s, held l)
      | none ↦
          let lease = new_lease now id o in
          (record s { leases = put key_eq s.leases (lease_key o.scope id) lease }, claimed lease)
    ]

-- A lease of this owner on this round.
unfoldable pub owned : ℕ → String → LeaseScope → RoundLease → Bool
owned id owner scope l = l.round_id == id && (str_eq l.owner owner && scopes_overlap l.scope scope)

unfoldable pub owned_keys : (RoundLease → Bool) → List (LeaseKey × RoundLease) → List LeaseKey
owned_keys test [] = []
owned_keys test (e ∷ es) = let rest = owned_keys test es in if test (e.1) then e.0 ∷ rest else rest

unfoldable pub delete_keys :
    List (LeaseKey × RoundLease) → List LeaseKey → List (LeaseKey × RoundLease)
delete_keys es [] = es
delete_keys es (k ∷ ks) = delete_keys (delete key_eq es k) ks

pub data ReleaseResult : Type 0 where
  no_owner : ReleaseResult
  released : Bool → ReleaseResult

unfoldable pub release_lease : Store → ℕ → LeaseScope → String → Store × ReleaseResult
release_lease s id scope owner =
    if str_eq owner "" then (s, no_owner) else elim (owned_keys (owned id owner scope) s.leases) [
      | [] ↦ (s, released false)
      | k ∷ ks ↦ (record s { leases = delete_keys s.leases (k ∷ ks) }, released true)
    ]

-- The lease of this very scope, else the first that covers the round.
unfoldable pub get_lease : Store → ℕ → LeaseScope → Option RoundLease
get_lease s id scope = elim (get key_eq s.leases (lease_key scope id)) [
  | some l ↦ some l
  | none ↦ find_lease (λ l. l.round_id == id && scopes_overlap l.scope scope) s.leases
]
