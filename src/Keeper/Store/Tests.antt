-- ===== src/Keeper/Store/Tests.antt =====
-- Two processes on one store of services/keeper/src/store.ts.
use sub_rosa_issue.Prelude.{
  ◌≡◌, refl, true, false, none, some, String, str_eq, str_eq_iff, if◌then◌else◌, get, ◌⊎◌, arith,
  All,
}
use sub_rosa_issue.Keeper.Store.{
  RoundLease, LeaseKey, LeaseScope, Store, ClaimLeaseOptions, claim_round, claimed, held,
  empty_store, new_lease, lease_key, decimal_text, decimal_on, key_eq, blocks, find_lease,
  scopes_overlap,
}
use sub_rosa_issue.Keeper.Store.Exclusion.{started, claim, waited, Exclusive, Exclusive-Reached}
use sub_rosa_issue.Keeper.Store.Leases.{Stored, Blocking, granted_lease, claim_round_lem}

abbrev scope : LeaseScope
scope = record { contract_id = some "CABC"; network = some "testnet" }

abbrev ana : ClaimLeaseOptions
ana = record { scope = scope; owner = "ana"; lease_ms = some 50 }

abbrev ben : ClaimLeaseOptions
ben = record {
  scope = record { contract_id = none; network = some "testnet" };
  owner = "ben";
  lease_ms = none;
}

abbrev leased : Store
leased = (claim_round 100 empty_store 7 ana).0

granted_run : (claim_round 100 empty_store 7 ana).1 ≡ claimed (new_lease 100 7 ana)
unfolding claim_round find_lease
granted_run = refl

refused_run : (claim_round 120 leased 7 ben).1 ≡ held (new_lease 100 7 ana)
unfolding claim_round find_lease blocks scopes_overlap
refused_run = refl

expired_run : (claim_round 150 leased 7 ben).1 ≡ claimed (new_lease 150 7 ben)
unfolding claim_round find_lease blocks scopes_overlap
expired_run = refl

Exclusive-Reached_example : Exclusive 120 (claim_round 120 leased 7 ben).0.leases
Exclusive-Reached_example = Exclusive-Reached 120 (claim_round 120 leased 7 ben).0 (
    claim 120 leased 7 ben
      (waited 100 120 leased (omega arith) (claim 100 empty_store 7 ana (started 100))))

differ : (s t : String) → str_eq s t ≡ false → ¬ (s ≡ t)
differ s t h = let e = str_eq_iff s t in ground (arith, e, h)

claim_round_lem_example :
    ((l : RoundLease) × (claim_round 120 leased 7 ben ≡ (leased, held l))
      × Blocking 120 7 ben l
      × Stored l leased.leases)
    ⊎ (All (λ e. ¬ Blocking 120 7 ben (e.1)) leased.leases
        × ((claim_round 120 leased 7 ben).1 ≡ claimed (granted_lease 120 7 ben))
        × ((k : LeaseKey)
            → get key_eq (claim_round 120 leased 7 ben).0.leases k ≡ (
                if key_eq (lease_key ben.scope 7) k
                then some (granted_lease 120 7 ben)
                else get key_eq leased.leases k)))
claim_round_lem_example = claim_round_lem 120 leased 7 ben (differ "ben" "" refl) (λ h. cc)

key_run : lease_key ben.scope 1207 ≡ "*|testnet|1207"
unfolding lease_key decimal_text decimal_on
key_run = refl

overlap_run : scopes_overlap ana.scope ben.scope ≡ true
unfolding scopes_overlap
overlap_run = refl
