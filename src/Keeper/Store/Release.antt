-- ===== src/Keeper/Store/Release.antt =====
-- What releaseLease of services/keeper/src/store.ts removes.
use sub_rosa_issue.Prelude.{
  nil_or_cons, ℕ, ◌≡◌, ◌∙◌, refl, sym, ap, Bool, true, false, ◌||◌, Option, none, some,
  Option-cases, Bool-cases, List, [], ◌∷◌, String, str_eq, if◌then◌else◌, ◌==◌, get, delete,
  get-delete, arith, Unique, Unique-put, Unique-delete, has_key, inl, inr, ◌⊎◌, str_ne,
}
use sub_rosa_issue.Keeper.Store.{
  RoundLease, LeaseKey, LeaseScope, Store, ClaimLeaseOptions, find_lease, blocks, claim_round,
  new_lease, lease_key, key_eq, key_eq_iff, lease_ms_of, owned, owned_keys, delete_keys, released,
  release_lease,
}
use sub_rosa_issue.Keeper.Store.Exclusion.{
  leases-remove_round, leases-update_round, Reached, started, waited, claim, release, add, remove,
  update,
}
use sub_rosa_issue.Keeper.Store.Rounds.{add_round}

unfoldable member : List LeaseKey → LeaseKey → Bool
member [] k = false
member (j ∷ js) k = key_eq j k || member js k

get-delete_keys :
    (es : List (LeaseKey × RoundLease)) (ks : List LeaseKey) (k : LeaseKey)
    → get key_eq (delete_keys es ks) k ≡ (if member ks k then none else get key_eq es k)
unfolding delete_keys member
get-delete_keys es [] k = refl
get-delete_keys es (j ∷ js) k =
    let ih = get-delete_keys (delete key_eq es j) js k in
    let one = get-delete key_eq key_eq_iff es j k in rw (ih, one) (ground arith)

-- Whether what is stored under a key passes the test.
abbrev pub passes : (RoundLease → Bool) → Option RoundLease → Bool
passes test none = false
passes test (some l) = test l

member-owned_keys_none :
    (test : RoundLease → Bool) (es : List (LeaseKey × RoundLease)) (k : LeaseKey)
    → has_key key_eq es k ≡ false
    → member (owned_keys test es) k ≡ false
unfolding owned_keys member
member-owned_keys_none test [] k h = refl
member-owned_keys_none test (e ∷ es) k h =
    let ih = member-owned_keys_none test es k (ground (arith, h)) in
    elim (Bool-cases (test (e.1))) [ inl y ↦ rw y (ground (arith, h, ih)) | inr y ↦ rw y ih ]

member-owned_keys :
    (test : RoundLease → Bool) (es : List (LeaseKey × RoundLease)) (k : LeaseKey)
    → Unique key_eq es
    → member (owned_keys test es) k ≡ passes test (get key_eq es k)
unfolding owned_keys member
member-owned_keys test [] k u = refl
member-owned_keys test (e ∷ es) k u = elim (Bool-cases (key_eq e.0 k)) [
  | inl y ↦
      let same : e.0 ≡ k = (key_eq_iff (e.0) k).0 y in
      let gone = member-owned_keys_none test es k (sym (ap (has_key key_eq es) same) ∙ u.0) in
      elim (Bool-cases (test (e.1))) [
        | inl z ↦ rw (y, z) (ground (arith, y))
        | inr z ↦ rw (y, z) gone
      ]
  | inr y ↦
      let ih = member-owned_keys test es k u.1 in
      elim (Bool-cases (test (e.1))) [
        | inl z ↦ rw (y, z) (ground (arith, y, ih))
        | inr z ↦ rw (y, z) ih
      ]
]

Unique-delete_keys :
    (es : List (LeaseKey × RoundLease)) (ks : List LeaseKey)
    → Unique key_eq es
    → Unique key_eq (delete_keys es ks)
unfolding delete_keys
Unique-delete_keys es [] u = u
Unique-delete_keys es (k ∷ ks) u =
    Unique-delete_keys (delete key_eq es k) ks (Unique-delete key_eq key_eq_iff es k u)

module _ (s : Store) (id : ℕ) where
  Unique-claim_round :
      (now : ℕ) (o : ClaimLeaseOptions)
      → Unique key_eq s.leases
      → Unique key_eq (claim_round now s id o).0.leases
  unfolding claim_round
  Unique-claim_round now o u = elim (Bool-cases (str_eq o.owner "")) [
    | inl e ↦ rw e u
    | inr e ↦ elim (Bool-cases (lease_ms_of o.lease_ms == 0)) [
      | inl z ↦ rw (e, z) u
      | inr z ↦ elim (Option-cases (find_lease (blocks now id o.owner o.scope) s.leases)) [
        | inl n ↦
            rw (e, z, n)
              (Unique-put key_eq key_eq_iff s.leases (lease_key o.scope id) (new_lease now id o) u)
        | inr q ↦ rw (e, z, q.1) u
      ]
    ]
  ]

  leases-release_lease :
      (scope : LeaseScope) (owner : String)
      → str_eq owner "" ≡ false
      → (release_lease s id scope owner).0.leases
        ≡ delete_keys s.leases (owned_keys (owned id owner scope) s.leases)
  unfolding release_lease delete_keys
  leases-release_lease scope owner e =
      elim (nil_or_cons (owned_keys (owned id owner scope) s.leases)) [
        | inl n ↦ rw (e, n) refl
        | inr q ↦ rw (e, q.2) refl
      ]

  Unique-release_lease :
      (scope : LeaseScope) (owner : String)
      → Unique key_eq s.leases
      → Unique key_eq (release_lease s id scope owner).0.leases
  unfolding release_lease
  Unique-release_lease scope owner u = elim (Bool-cases (str_eq owner "")) [
    | inl e ↦ rw e u
    | inr e ↦
        rw (leases-release_lease scope owner e)
          (Unique-delete_keys s.leases (owned_keys (owned id owner scope) s.leases) u)
  ]

Unique-Reached : (now : ℕ) (s : Store) → Reached now s → Unique key_eq s.leases
unfolding add_round
Unique-Reached now s (started n) = tt
Unique-Reached now s (waited n later t le r) = Unique-Reached n s r
Unique-Reached now s (claim n t id o r) = Unique-claim_round t id now o (Unique-Reached now t r)
Unique-Reached now s (release n t id scope owner r) =
    Unique-release_lease t id scope owner (Unique-Reached now t r)
Unique-Reached now s (add n t id extra r) = Unique-Reached now t r
Unique-Reached now s (remove n t id r) = rw (leases-remove_round t id) (Unique-Reached now t r)
Unique-Reached now s (update n t id u r) = rw (leases-update_round t id u) (Unique-Reached now t r)

-- In every store that processes reach from an empty one, releasing a round with an owner removes
-- every lease of this owner on the round whose scope overlaps, and under every key keeps any other
-- lease as it was. It answers false just when no stored lease is such a one.
pub release_lease_lem :
    (now : ℕ) (s : Store) (id : ℕ) (scope : LeaseScope) (owner : String)
    → Reached now s
    → ¬ (owner ≡ "")
    → ((k : LeaseKey)
        → get key_eq (release_lease s id scope owner).0.leases k ≡ (
            if passes (owned id owner scope) (get key_eq s.leases k)
            then none
            else get key_eq s.leases k))
      × ((((release_lease s id scope owner).1 ≡ released false)
            × ((k : LeaseKey) → passes (owned id owner scope) (get key_eq s.leases k) ≡ false))
          ⊎ ((k : LeaseKey) × (passes (owned id owner scope) (get key_eq s.leases k) ≡ true)
              × ((release_lease s id scope owner).1 ≡ released true)))
unfolding release_lease member
release_lease_lem now s id scope owner r ho = (left, right)
  where
    e : str_eq owner "" ≡ false
    e = str_ne owner "" ho

    test : RoundLease → Bool
    test = owned id owner scope

    found :
        (k : LeaseKey) → member (owned_keys test s.leases) k ≡ passes test (get key_eq s.leases k)
    found k = member-owned_keys test s.leases k (Unique-Reached now s r)

    left :
        (k : LeaseKey)
        → get key_eq (release_lease s id scope owner).0.leases k
          ≡ (if passes test (get key_eq s.leases k) then none else get key_eq s.leases k)
    left k =
        rw
          (
            leases-release_lease s id scope owner e,
            get-delete_keys s.leases (owned_keys test s.leases) k,
            found k,
          )
          refl

    right :
        (((release_lease s id scope owner).1 ≡ released false)
          × ((k : LeaseKey) → passes test (get key_eq s.leases k) ≡ false))
        ⊎ ((k : LeaseKey) × (passes test (get key_eq s.leases k) ≡ true)
            × ((release_lease s id scope owner).1 ≡ released true))
    right = elim (nil_or_cons (owned_keys test s.leases)) [
      | inl n ↦ inl (rw (e, n) refl, λ k. sym (found k) ∙ ap (λ l. member l k) n)
      | inr q ↦
          let same = (key_eq_iff (q.0) (q.0)).1 refl in
          inr (
            q.0,
            sym (found (q.0))
                ∙ ap (λ l. member l (q.0)) (q.2)
                ∙ (let m = member (q.1) (q.0) in ground (arith, same)),
            rw (e, q.2) refl,
          )
    ]
