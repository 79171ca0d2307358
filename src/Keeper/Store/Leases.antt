-- ===== src/Keeper/Store/Leases.antt =====
-- What claimRound of services/keeper/src/store.ts answers, and what a grant does to later claims.
use sub_rosa_issue.Prelude.{
  ℕ, ◌+◌, ◌≤◌, ◌<◌, ◌≡◌, ◌≢◌, ◌∙◌, or_else, Option, String, str_eq_iff, refl, sym, ap, Bool, true,
  false, none, some, Option-cases, Bool-cases, List, [], ◌∷◌, str_eq, str_eq_refl, if◌then◌else◌,
  ◌==◌, get, put, get-put, arith, All, All-put, All-get, inl, inr, ◌⊎◌, ◌++◌, str_ne, ==_ne,
  some_inj,
}
use sub_rosa_issue.Keeper.Store.{
  RoundLease, LeaseKey, Store, ClaimLeaseOptions, held, claimed, blocks, find_lease, claim_round,
  new_lease, lease_key, key_eq, key_eq_iff, lease_ms_of, scopes_overlap, part_overlap,
}
use sub_rosa_issue.Keeper.Store.Exclusion.{find_lease-none}

-- The lease stands in the store.
abbrev pub Stored : RoundLease → List (LeaseKey × RoundLease) → Type 0
Stored l ls =
    (k : LeaseKey) × (before after : List (LeaseKey × RoundLease)) × (ls ≡ before ++ (k, l) ∷ after)

find_lease-some :
    (test : RoundLease → Bool) (es : List (LeaseKey × RoundLease)) (l : RoundLease)
    → find_lease test es ≡ some l
    → (test l ≡ true) × Stored l es
unfolding find_lease
find_lease-some test [] l h = cc
find_lease-some test (e ∷ es) l h = elim (Bool-cases (test (e.1))) [
  | inl y ↦
      let same : e.1 ≡ l = some_inj (e.1) l (ground (arith, h, y)) in
      (sym (ap test same) ∙ y, (e.0, [], es, ap (λ m. (e.0, m) ∷ es) same))
  | inr y ↦
      let r = find_lease-some test es l (ground (arith, h, y)) in
      (r.0, ((r.1).0, e ∷ (r.1).1, (r.1).2, ap (◌∷◌ e) ((r.1).3)))
]

find_lease-All :
    (test : RoundLease → Bool) (es : List (LeaseKey × RoundLease))
    → All (λ e. test (e.1) ≡ false) es
    → find_lease test es ≡ none
unfolding find_lease
find_lease-All test [] a = refl
find_lease-All test (e ∷ es) a = rw (a.0, find_lease-All test es a.1) refl

-- A claim with an owner and a duration, in terms of the search alone.
abbrev Proper : ClaimLeaseOptions → Type 0
Proper o = (str_eq o.owner "" ≡ false) × ((lease_ms_of o.lease_ms == 0) ≡ false)

claimed_when :
    (now : ℕ) (s : Store) (id : ℕ) (o : ClaimLeaseOptions)
    → Proper o
    → find_lease (blocks now id o.owner o.scope) s.leases ≡ none
    → claim_round now s id o ≡ (
      record s { leases = put key_eq s.leases (lease_key o.scope id) (new_lease now id o) },
      claimed (new_lease now id o),
    )
unfolding claim_round
claimed_when now s id o p n = rw (p.0, p.1, n) refl

held_when :
    (now : ℕ) (s : Store) (id : ℕ) (o : ClaimLeaseOptions) (l : RoundLease)
    → Proper o
    → find_lease (blocks now id o.owner o.scope) s.leases ≡ some l
    → claim_round now s id o ≡ (s, held l)
unfolding claim_round
held_when now s id o l p n = rw (p.0, p.1, n) refl

abbrev pub Agree : Option String → Option String → Type 0
Agree a b = (a ≡ none) ⊎ ((b ≡ none) ⊎ (a ≡ b))

-- A lease of another owner on the round, that has not expired and whose scope may be the same.
abbrev pub Blocking : ℕ → ℕ → ClaimLeaseOptions → RoundLease → Type 0
Blocking now id o l =
    (l.round_id ≡ id)
    × (l.owner ≢ o.owner)
    × (now < l.expires_at_ms)
    × Agree l.scope.contract_id o.scope.contract_id
    × Agree l.scope.network o.scope.network

-- The lease that is granted: for the duration asked for, or else for two minutes.
abbrev pub granted_lease : ℕ → ℕ → ClaimLeaseOptions → RoundLease
granted_lease now id o = record {
  owner = o.owner;
  round_id = id;
  scope = o.scope;
  expires_at_ms = now + or_else o.lease_ms 120000;
}

lease_ms_lem : (ms : Option ℕ) → lease_ms_of ms ≡ or_else ms 120000
lease_ms_lem none = refl
lease_ms_lem (some ms) = refl

new_lease_lem : (now id : ℕ) (o : ClaimLeaseOptions) → new_lease now id o ≡ granted_lease now id o
new_lease_lem now id o = rw (lease_ms_lem o.lease_ms) refl

positive_ms : (ms : Option ℕ) → ms ≢ some 0 → ¬ (lease_ms_of ms ≡ 0)
positive_ms none n h = absurd (omega (arith, h))
positive_ms (some ms) n h = n (ap some h)

part_overlap-Agree : (a b : Option String) → part_overlap a b ≡ true → Agree a b
part_overlap-Agree none b h = inl refl
part_overlap-Agree (some a) none h = inr (inl refl)
part_overlap-Agree (some a) (some b) h = inr (inr (ap some ((str_eq_iff a b).0 h)))

Agree-part_overlap : (a b : Option String) → Agree a b → part_overlap a b ≡ true
Agree-part_overlap none b h = refl
Agree-part_overlap (some a) none h = refl
Agree-part_overlap (some a) (some b) (inl h) = cc
Agree-part_overlap (some a) (some b) (inr (inl h)) = cc
Agree-part_overlap (some a) (some b) (inr (inr h)) = (str_eq_iff a b).1 (some_inj a b h)

blocks-Blocking :
    (now id : ℕ) (o : ClaimLeaseOptions) (l : RoundLease)
    → blocks now id o.owner o.scope l ≡ true
    → Blocking now id o l
unfolding blocks scopes_overlap
blocks-Blocking now id o l h =
    let names = str_eq_iff l.owner o.owner in
    let contract : part_overlap l.scope.contract_id o.scope.contract_id ≡ true =
      ground (arith, h) in
    let network : part_overlap l.scope.network o.scope.network ≡ true = ground (arith, h) in
    (
      ground (arith, h),
      (λ e. ground (arith, h, names, e)),
      ground (arith, h),
      part_overlap-Agree _ _ contract,
      part_overlap-Agree _ _ network,
    )

Blocking-blocks :
    (now id : ℕ) (o : ClaimLeaseOptions) (l : RoundLease)
    → Blocking now id o l
    → blocks now id o.owner o.scope l ≡ true
unfolding blocks scopes_overlap
Blocking-blocks now id o l (same, other, live, contract, network) =
    let apart = str_ne l.owner o.owner other in
    let c = Agree-part_overlap _ _ contract in
    let n = Agree-part_overlap _ _ network in ground (arith, same, apart, live, c, n)

none_Blocking :
    (now id : ℕ) (o : ClaimLeaseOptions) (ls : List (LeaseKey × RoundLease))
    → All (λ e. blocks now id o.owner o.scope (e.1) ≡ false) ls
    → All (λ e. ¬ Blocking now id o (e.1)) ls
none_Blocking now id o [] a = tt
none_Blocking now id o (e ∷ ls) a =
    ((λ b. cc (a.0, Blocking-blocks now id o (e.1) b)), none_Blocking now id o ls a.1)

-- A claim with an owner, and with a duration other than 0 or the default one, is refused just when a
-- stored lease of another owner on the round has not expired and its contract and network agree with
-- the claim's, where an absent one agrees with any: it then names such a lease and leaves the store.
-- Otherwise it is granted, the lease runs to now plus the duration, by default 120,000 milliseconds, it
-- is what the store then holds under the key of the scope and the round, and the leases under every
-- other key are as before.
pub claim_round_lem :
    (now : ℕ) (s : Store) (id : ℕ) (o : ClaimLeaseOptions)
    → ¬ (o.owner ≡ "")
    → o.lease_ms ≢ some 0
    → ((l : RoundLease) × (claim_round now s id o ≡ (s, held l))
        × Blocking now id o l
        × Stored l s.leases)
      ⊎ (All (λ e. ¬ Blocking now id o (e.1)) s.leases
          × ((claim_round now s id o).1 ≡ claimed (granted_lease now id o))
          × ((k : LeaseKey)
              → get key_eq (claim_round now s id o).0.leases k ≡ (
                  if key_eq (lease_key o.scope id) k
                  then some (granted_lease now id o)
                  else get key_eq s.leases k)))
claim_round_lem now s id o ho hm =
    let p : Proper o =
      (str_ne o.owner "" ho, ==_ne (lease_ms_of o.lease_ms) 0 (positive_ms o.lease_ms hm)) in
    let lease = new_lease_lem now id o in
    elim (Option-cases (find_lease (blocks now id o.owner o.scope) s.leases)) [
      | inl n ↦ inr (
        none_Blocking now id o s.leases
            (find_lease-none (blocks now id o.owner o.scope) s.leases n),
        rw (claimed_when now s id o p n) (ap claimed lease),
        λ k. rw (claimed_when now s id o p n) (
            get-put key_eq key_eq_iff s.leases (lease_key o.scope id) (new_lease now id o) k
            ∙ ap (λ l. if key_eq (lease_key o.scope id) k then some l else get key_eq s.leases k)
                lease),
      )
      | inr q ↦
          let f = find_lease-some (blocks now id o.owner o.scope) s.leases (q.0) (q.1) in
          inl (q.0, held_when now s id o (q.0) p (q.1), blocks-Blocking now id o (q.0) f.0, f.1)
    ]

module _ (now later : ℕ) (s : Store) (id : ℕ) (o : ClaimLeaseOptions) where
  -- What blocks none of the old leases and not the new one blocks none after the grant.
  All-granted :
      now ≤ later
      → All (λ e. blocks now id o.owner o.scope (e.1) ≡ false) s.leases
      → All
          (λ e. blocks later id o.owner o.scope (e.1) ≡ false)
          (put key_eq s.leases (lease_key o.scope id) (new_lease now id o))
  unfolding blocks
  All-granted le a =
      All-put key_eq (λ l. blocks later id o.owner o.scope l ≡ false) s.leases
        (lease_key o.scope id) (new_lease now id o) (go s.leases a)
        (let r = str_eq_refl o.owner in ground (arith, r))
    where
      go :
          (es : List (LeaseKey × RoundLease))
          → All (λ e. blocks now id o.owner o.scope (e.1) ≡ false) es
          → All (λ e. blocks later id o.owner o.scope (e.1) ≡ false) es
      go [] b = tt
      go (e ∷ es) b = (ground (arith, b.0), go es b.1)

  blocked_later :
      (other : ClaimLeaseOptions)
      → ¬ (o.owner ≡ other.owner)
      → scopes_overlap o.scope other.scope ≡ true
      → later < now + lease_ms_of o.lease_ms
      → blocks later id other.owner other.scope (new_lease now id o) ≡ true
  unfolding blocks
  blocked_later other d ov lt = let n = str_ne o.owner other.owner d in ground (arith, n, ov)

  -- After a grant, until the lease expires, every claim on the round with an overlapping scope by
  -- another owner is refused, and the same claim by the same owner is granted again.
  pub claim_round-claim_round :
      (other : ClaimLeaseOptions)
      → (claim_round now s id o).1 ≡ claimed (new_lease now id o)
      → ¬ (o.owner ≡ "")
      → ¬ (lease_ms_of o.lease_ms ≡ 0)
      → ¬ (other.owner ≡ "")
      → ¬ (lease_ms_of other.lease_ms ≡ 0)
      → ¬ (o.owner ≡ other.owner)
      → scopes_overlap o.scope other.scope ≡ true
      → now ≤ later
      → later < now + lease_ms_of o.lease_ms
      → ((claim_round later (claim_round now s id o).0 id o).1 ≡ claimed (new_lease later id o))
        × ((l : RoundLease) × (claim_round later (claim_round now s id o).0 id other
              ≡ ((claim_round now s id o).0, held l)))
  claim_round-claim_round other c ho hm po pm d ov le lt =
      elim (Option-cases (find_lease (blocks now id o.owner o.scope) s.leases)) [
        | inl n ↦ rw (claimed_when now s id o mine n) (renewed n, refused)
        | inr q ↦
            absurd
              (no_grant (q.0) (sym (ap (λ r. r.1) (held_when now s id o (q.0) mine (q.1))) ∙ c))
      ]
    where
      mine : Proper o
      mine = (str_ne o.owner "" ho, ==_ne (lease_ms_of o.lease_ms) 0 hm)

      theirs : Proper other
      theirs = (str_ne other.owner "" po, ==_ne (lease_ms_of other.lease_ms) 0 pm)

      no_grant : (l : RoundLease) → ¬ (held l ≡ claimed (new_lease now id o))
      no_grant l h = cc

      after : Store
      after = record s { leases = put key_eq s.leases (lease_key o.scope id) (new_lease now id o) }

      renewed :
          find_lease (blocks now id o.owner o.scope) s.leases ≡ none
          → (claim_round later after id o).1 ≡ claimed (new_lease later id o)
      renewed n =
          ap (λ r. r.1)
            (claimed_when later after id o mine (
              find_lease-All (blocks later id o.owner o.scope) after.leases
                (All-granted le (find_lease-none (blocks now id o.owner o.scope) s.leases n))))

      k : LeaseKey
      k = lease_key o.scope id

      granted : get key_eq after.leases k ≡ some (new_lease now id o)
      granted =
          let same = (key_eq_iff k k).1 refl in
          rw (get-put key_eq key_eq_iff s.leases k (new_lease now id o) k, same) refl

      blocked : ¬ (find_lease (blocks later id other.owner other.scope) after.leases ≡ none)
      blocked n =
          let free =
            All-get key_eq (λ l. blocks later id other.owner other.scope l ≡ false) after.leases k
              (new_lease now id o)
              (find_lease-none (blocks later id other.owner other.scope) after.leases n) granted in
          let taken = blocked_later other d ov lt in cc (free, taken)

      refused : (l : RoundLease) × (claim_round later after id other ≡ (after, held l))
      refused =
          elim (Option-cases (find_lease (blocks later id other.owner other.scope) after.leases)) [
            | inl n ↦ absurd (blocked n)
            | inr q ↦ (q.0, held_when later after id other (q.0) theirs (q.1))
          ]
