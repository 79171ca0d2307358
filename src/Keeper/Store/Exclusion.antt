-- ===== src/Keeper/Store/Exclusion.antt =====
-- Which leases of services/keeper/src/store.ts can be live at once, under claims and releases by any
-- number of processes.
use sub_rosa_issue.Prelude.{
  nil_or_cons, ℕ, ◌≤◌, ◌≡◌, ◌∙◌, Bool, false, not, ◌&&◌, none, Option-cases, Bool-cases, List, [],
  ◌∷◌, String, str_eq, str_eq_comm, str_eq_refl, ◌==◌, ltb, arith, put, delete, All, All-put,
  All-delete, inl, inr,
}
use sub_rosa_issue.Keeper.Store.{
  RoundLease, LeaseKey, LeaseScope, Store, ClaimLeaseOptions, empty_store, scopes_overlap,
  scopes_overlap_comm, blocks, find_lease, claim_round, new_lease, lease_key, key_eq, lease_ms_of,
  delete_keys, owned_keys, owned, release_lease, RoundUpdate,
}
use sub_rosa_issue.Keeper.Store.Rounds.{add_round, remove_round, update_round}

-- Two leases of different owners, both live at `now`, on the same round and overlapping scopes.
abbrev pub conflict : ℕ → RoundLease → RoundLease → Bool
conflict now a b =
    ltb now a.expires_at_ms
    && (ltb now b.expires_at_ms
        && (a.round_id == b.round_id
            && (not (str_eq a.owner b.owner) && scopes_overlap a.scope b.scope)))

-- No two stored leases conflict at `now`.
abbrev pub Exclusive : ℕ → List (LeaseKey × RoundLease) → Type 0
Exclusive now ls = All (λ a. All (λ b. conflict now (a.1) (b.1) ≡ false) ls) ls

conflict_comm : (now : ℕ) (a b : RoundLease) → conflict now a b ≡ conflict now b a
conflict_comm now a b =
    let o = str_eq_comm a.owner b.owner in
    let s = scopes_overlap_comm a.scope b.scope in rw (o, s) (ground arith)

conflict_self : (now : ℕ) (a : RoundLease) → conflict now a a ≡ false
conflict_self now a = let o = str_eq_refl a.owner in ground (arith, o)

All-map {ℓ κ μ ν} :
    {A : Type ℓ} (P : A → Type κ) (Q : A → Type μ) (R : A → Type ν) (xs : List A)
    → ((x : A) → P x → Q x → R x)
    → All P xs
    → All Q xs
    → All R xs
All-map P Q R [] f a b = tt
All-map P Q R (x ∷ xs) f a b = (f x (a.0) (b.0), All-map P Q R xs f a.1 b.1)

-- What a failed search says of the leases.
pub find_lease-none :
    (test : RoundLease → Bool) (es : List (LeaseKey × RoundLease))
    → find_lease test es ≡ none
    → All (λ e. test (e.1) ≡ false) es
unfolding find_lease
find_lease-none test [] h = tt
find_lease-none test (e ∷ es) h = (ground (arith, h), find_lease-none test es (ground (arith, h)))

Exclusive-put :
    (now : ℕ) (ls : List (LeaseKey × RoundLease)) (k : LeaseKey) (l : RoundLease)
    → Exclusive now ls
    → All (λ e. conflict now (e.1) l ≡ false) ls
    → Exclusive now (put key_eq ls k l)
Exclusive-put now ls k l x n =
    All-put key_eq (λ a. All (λ b. conflict now a (b.1) ≡ false) (put key_eq ls k l)) ls k l
      (All-map (λ e. All (λ b. conflict now (e.1) (b.1) ≡ false) ls)
        (λ e. conflict now (e.1) l ≡ false)
        (λ e. All (λ b. conflict now (e.1) (b.1) ≡ false) (put key_eq ls k l)) ls
        (λ e old new. All-put key_eq (λ b. conflict now (e.1) b ≡ false) ls k l old new) x n)
      (All-put key_eq (λ b. conflict now l b ≡ false) ls k l
        (All-map (λ e. conflict now (e.1) l ≡ false) (λ e. conflict now (e.1) l ≡ false)
          (λ e. conflict now l (e.1) ≡ false) ls (λ e h g. conflict_comm now l (e.1) ∙ h) n n)
        (conflict_self now l))

Exclusive-delete :
    (now : ℕ) (ls : List (LeaseKey × RoundLease)) (k : LeaseKey)
    → Exclusive now ls
    → Exclusive now (delete key_eq ls k)
Exclusive-delete now ls k x =
    All-delete key_eq (λ a. All (λ b. conflict now a (b.1) ≡ false) (delete key_eq ls k)) ls k
      (All-map (λ e. All (λ b. conflict now (e.1) (b.1) ≡ false) ls)
        (λ e. All (λ b. conflict now (e.1) (b.1) ≡ false) ls)
        (λ e. All (λ b. conflict now (e.1) (b.1) ≡ false) (delete key_eq ls k)) ls
        (λ e old again. All-delete key_eq (λ b. conflict now (e.1) b ≡ false) ls k old) x x)

Exclusive-delete_keys :
    (now : ℕ) (ls : List (LeaseKey × RoundLease)) (ks : List LeaseKey)
    → Exclusive now ls
    → Exclusive now (delete_keys ls ks)
unfolding delete_keys
Exclusive-delete_keys now ls [] x = x
Exclusive-delete_keys now ls (k ∷ ks) x =
    Exclusive-delete_keys now (delete key_eq ls k) ks (Exclusive-delete now ls k x)

Exclusive-later :
    (now later : ℕ) (ls : List (LeaseKey × RoundLease))
    → now ≤ later
    → Exclusive now ls
    → Exclusive later ls
Exclusive-later now later ls le x =
    All-map (λ a. All (λ b. conflict now (a.1) (b.1) ≡ false) ls)
      (λ a. All (λ b. conflict now (a.1) (b.1) ≡ false) ls)
      (λ a. All (λ b. conflict later (a.1) (b.1) ≡ false) ls) ls
      (λ a h h'.
        All-map (λ b. conflict now (a.1) (b.1) ≡ false) (λ b. conflict now (a.1) (b.1) ≡ false)
          (λ b. conflict later (a.1) (b.1) ≡ false) ls (λ b f g. ground arith) h h)
      x x

pub Exclusive-claim_round :
    (now : ℕ) (s : Store) (id : ℕ) (o : ClaimLeaseOptions)
    → Exclusive now s.leases
    → Exclusive now (claim_round now s id o).0.leases
unfolding claim_round blocks
Exclusive-claim_round now s id o x = elim (Bool-cases (str_eq o.owner "")) [
  | inl e ↦ rw e x
  | inr e ↦ elim (Bool-cases (lease_ms_of o.lease_ms == 0)) [
    | inl z ↦ rw (e, z) x
    | inr z ↦ elim (Option-cases (find_lease (blocks now id o.owner o.scope) s.leases)) [
      | inl n ↦ rw (e, z, n) (granted (find_lease-none (blocks now id o.owner o.scope) s.leases n))
      | inr q ↦ rw (e, z, q.1) x
    ]
  ]
]
  where
    granted :
        All (λ l. blocks now id o.owner o.scope (l.1) ≡ false) s.leases
        → Exclusive now (put key_eq s.leases (lease_key o.scope id) (new_lease now id o))
    granted n = Exclusive-put now s.leases (lease_key o.scope id) (new_lease now id o) x (
        All-map (λ l. blocks now id o.owner o.scope (l.1) ≡ false)
          (λ l. blocks now id o.owner o.scope (l.1) ≡ false)
          (λ l. conflict now (l.1) (new_lease now id o) ≡ false) s.leases (λ l f g. ground arith) n
          n)

pub Exclusive-release_lease :
    (now : ℕ) (s : Store) (id : ℕ) (scope : LeaseScope) (owner : String)
    → Exclusive now s.leases
    → Exclusive now (release_lease s id scope owner).0.leases
unfolding release_lease
Exclusive-release_lease now s id scope owner x = elim (Bool-cases (str_eq owner "")) [
  | inl e ↦ rw e x
  | inr e ↦ elim (nil_or_cons (owned_keys (owned id owner scope) s.leases)) [
    | inl n ↦ rw (e, n) x
    | inr q ↦ rw (e, q.2) (Exclusive-delete_keys now s.leases (q.0 ∷ q.1) x)
  ]
]

-- The stores that the processes on one file reach by `now`: claims and releases by any owner, and
-- changes of the rounds, in any order, on a clock that does not go back.
pub data Reached : ℕ → Store → Type 0 where
  started : (now : ℕ) → Reached now empty_store
  waited : (now later : ℕ) (s : Store) → now ≤ later → Reached now s → Reached later s
  claim :
      (now : ℕ) (s : Store) (id : ℕ) (o : ClaimLeaseOptions)
      → Reached now s
      → Reached now (claim_round now s id o).0
  release :
      (now : ℕ) (s : Store) (id : ℕ) (scope : LeaseScope) (owner : String)
      → Reached now s
      → Reached now (release_lease s id scope owner).0
  add :
      (now : ℕ) (s : Store) (id : ℕ) (extra : RoundUpdate)
      → Reached now s
      → Reached now (add_round s id extra)
  remove : (now : ℕ) (s : Store) (id : ℕ) → Reached now s → Reached now (remove_round s id)
  update :
      (now : ℕ) (s : Store) (id : ℕ) (u : RoundUpdate)
      → Reached now s
      → Reached now (update_round s id u)

pub leases-remove_round : (s : Store) (id : ℕ) → (remove_round s id).leases ≡ s.leases
unfolding remove_round
leases-remove_round s id = ground arith

pub leases-update_round :
    (s : Store) (id : ℕ) (u : RoundUpdate) → (update_round s id u).leases ≡ s.leases
unfolding update_round
leases-update_round s id u = ground arith

-- In every store that processes reach from an empty one, no two live leases of different owners are
-- on the same round with overlapping scopes.
pub Exclusive-Reached : (now : ℕ) (s : Store) → Reached now s → Exclusive now s.leases
unfolding add_round
Exclusive-Reached now s (started n) = tt
Exclusive-Reached now s (waited n later t le r) =
    Exclusive-later n now s.leases le (Exclusive-Reached n s r)
Exclusive-Reached now s (claim n t id o r) =
    Exclusive-claim_round now t id o (Exclusive-Reached now t r)
Exclusive-Reached now s (release n t id scope owner r) =
    Exclusive-release_lease now t id scope owner (Exclusive-Reached now t r)
Exclusive-Reached now s (add n t id extra r) = Exclusive-Reached now t r
Exclusive-Reached now s (remove n t id r) =
    rw (leases-remove_round t id) (Exclusive-Reached now t r)
Exclusive-Reached now s (update n t id u r) =
    rw (leases-update_round t id u) (Exclusive-Reached now t r)
