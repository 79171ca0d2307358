-- ===== src/Keeper/Queue/Sync.antt =====
-- What syncWithStore of services/keeper/src/queue.ts queues.
use sub_rosa_issue.Prelude.{
  ℕ, ◌≡◌, refl, ◌∙◌, sym, ap, Bool, false, not, ◌&&◌, ◌||◌, Bool-cases, Option, none, some, List,
  [], ◌∷◌, ◌==◌, ==_iff, ==_refl, get, has_key, arith, inl, inr, if◌then◌else◌, ltb, subst,
}
use sub_rosa_issue.Keeper.Store.{WatchedRound, RoundUpdate, no_update, in_flight, queued}
use sub_rosa_issue.Keeper.Store.Rounds.{
  list_rounds, insert_round, sort_rounds, get_round, add_round,
}
use sub_rosa_issue.Keeper.Queue.{
  KeeperQueue, has, eligible, sync_round, sync_rounds, sync_with_store, new_queue, blank_queue,
  enqueue, claim, claim_next, complete, release, is_terminal_status, status_or_unknown,
}
use sub_rosa_issue.Keeper.Queue.Sets.{has-insert}
use sub_rosa_issue.Keeper.Queue.Kept.{Kept, Kept-add_round, Kept-update_round}
use sub_rosa_issue.Keeper.Queue.Apart.{
  Reached, started, synced, enqueued, claimed, completed, given_back, stopped,
}

-- The loop queues the round when it meets it.
abbrev wants : KeeperQueue → WatchedRound → ℕ → Bool
wants q r b =
    (eligible q.options r && not (has q.in_flight_round_ids r.round_id)) && r.round_id == b

unfoldable wanted : KeeperQueue → List WatchedRound → ℕ → Bool
wanted q [] b = false
wanted q (r ∷ rs) b = wants q r b || wanted q rs b

abbrev Alike : KeeperQueue → KeeperQueue → Type 0
Alike p q =
    (p.options ≡ q.options) × (p.store ≡ q.store) × (p.in_flight_round_ids ≡ q.in_flight_round_ids)

Alike-sync_round : (q : KeeperQueue) (r : WatchedRound) → Alike (sync_round q r) q
unfolding sync_round
Alike-sync_round q r =
    elim (Bool-cases (eligible q.options r && not (has q.in_flight_round_ids r.round_id))) [
      | inl e ↦ rw e (refl, refl, refl)
      | inr e ↦ rw e (refl, refl, refl)
    ]

Alike-sync_rounds : (q : KeeperQueue) (rs : List WatchedRound) → Alike (sync_rounds q rs) q
unfolding sync_rounds
Alike-sync_rounds q [] = (refl, refl, refl)
Alike-sync_rounds q (r ∷ rs) =
    let a = Alike-sync_rounds (sync_round q r) rs in
    let b = Alike-sync_round q r in (a.0 ∙ b.0, a.1 ∙ b.1, a.2 ∙ b.2)

wanted-Alike :
    (p q : KeeperQueue) (rs : List WatchedRound) (b : ℕ) → Alike p q → wanted p rs b ≡ wanted q rs b
unfolding wanted
wanted-Alike p q [] b a = refl
wanted-Alike p q (r ∷ rs) b a = rw (a.0, a.2, wanted-Alike p q rs b a) refl

has-sync_round :
    (q : KeeperQueue) (r : WatchedRound) (b : ℕ)
    → has (sync_round q r).queued_round_ids b ≡ (has q.queued_round_ids b || wants q r b)
unfolding sync_round
has-sync_round q r b =
    elim (Bool-cases (eligible q.options r && not (has q.in_flight_round_ids r.round_id))) [
      | inl e ↦ rw e (has-insert q.queued_round_ids r.round_id b)
      | inr e ↦ rw e (ground arith)
    ]

has-sync_rounds :
    (q : KeeperQueue) (rs : List WatchedRound) (b : ℕ)
    → has (sync_rounds q rs).queued_round_ids b ≡ (has q.queued_round_ids b || wanted q rs b)
unfolding sync_rounds wanted
has-sync_rounds q [] b = ground arith
has-sync_rounds q (r ∷ rs) b =
    let ih = has-sync_rounds (sync_round q r) rs b in
    let one = has-sync_round q r b in
    let same = wanted-Alike (sync_round q r) q rs b (Alike-sync_round q r) in
    rw (ih, one, same) (ground arith)

wanted-insert_round :
    (q : KeeperQueue) (r : WatchedRound) (rs : List WatchedRound) (b : ℕ)
    → wanted q (insert_round r rs) b ≡ (wants q r b || wanted q rs b)
unfolding insert_round wanted
wanted-insert_round q r [] b = refl
wanted-insert_round q r (x ∷ xs) b = elim (Bool-cases (ltb x.round_id r.round_id)) [
  | inl e ↦ rw (e, wanted-insert_round q r xs b) (ground arith)
  | inr e ↦ rw e refl
]

-- The round stored under an id is one that the loop queues.
abbrev pub awaited : KeeperQueue → Option WatchedRound → ℕ → Bool
awaited q none b = false
awaited q (some r) b = eligible q.options r && not (has q.in_flight_round_ids b)

wanted-missing :
    (q : KeeperQueue) (es : List (ℕ × WatchedRound)) (b : ℕ)
    → has_key ◌==◌ es b ≡ false
    → Kept (record q.store { rounds = es })
    → wanted q (sort_rounds es) b ≡ false
unfolding sort_rounds wanted
wanted-missing q [] b h k = refl
wanted-missing q (e ∷ es) b h k =
    let ih = wanted-missing q es b (ground (arith, h)) (k.0.1, k.1.1) in
    let key : e.0 ≡ (e.1).round_id = k.1.0 in
    rw (wanted-insert_round q (e.1) (sort_rounds es) b, ih) (ground (arith, h, key))

wanted-sort_rounds :
    (q : KeeperQueue) (es : List (ℕ × WatchedRound)) (b : ℕ)
    → Kept (record q.store { rounds = es })
    → wanted q (sort_rounds es) b ≡ awaited q (get ◌==◌ es b) b
unfolding sort_rounds wanted
wanted-sort_rounds q [] b k = refl
wanted-sort_rounds q (e ∷ es) b k = elim (Bool-cases (e.0 == b)) [
  | inl y ↦
      let id : e.0 ≡ b = (==_iff (e.0) b).0 y in
      let rid : (e.1).round_id ≡ b = sym (k.1.0) ∙ id in
      let gone : has_key ◌==◌ es b ≡ false = sym (ap (has_key ◌==◌ es) id) ∙ k.0.0 in
      rw
        (
          y,
          wanted-insert_round q (e.1) (sort_rounds es) b,
          wanted-missing q es b gone (k.0.1, k.1.1),
          rid,
          ==_refl b,
        )
        (ground arith)
  | inr y ↦
      let ih = wanted-sort_rounds q es b (k.0.1, k.1.1) in
      let key : e.0 ≡ (e.1).round_id = k.1.0 in
      rw (y, wanted-insert_round q (e.1) (sort_rounds es) b, ih) (ground (arith, key, y))
]

pub Alike-sync_with_store : (q : KeeperQueue) → Alike (sync_with_store q) q
unfolding sync_with_store
Alike-sync_with_store q = Alike-sync_rounds q (list_rounds q.store)

store-claim_next : (q : KeeperQueue) (ids : List ℕ) → Kept q.store → Kept (claim_next q ids).0.store
unfolding claim_next
store-claim_next q [] k = k
store-claim_next q (id ∷ ids) k =
    Kept-update_round q.store id (record no_update { queue_status = some (some in_flight) }) k

store-claim : (q : KeeperQueue) → Kept q.store → Kept (claim q).0.store
unfolding claim
store-claim q k = elim (Bool-cases q.stopping) [
  | inl s ↦
      subst (λ b. Kept ((if b then (q, none) else claim_next q q.queued_round_ids).0).store) (sym s)
        k
  | inr s ↦
      subst (λ b. Kept ((if b then (q, none) else claim_next q q.queued_round_ids).0).store) (sym s)
        (store-claim_next q q.queued_round_ids k)
]

store-enqueue :
    (q : KeeperQueue) (id : ℕ) (u : RoundUpdate) → Kept q.store → Kept (enqueue q id u).0.store
unfolding enqueue
store-enqueue q id u k =
    let status = if has q.in_flight_round_ids id then in_flight else queued in
    let store = add_round q.store id (record u { queue_status = some (some status) }) in
    let kept = Kept-add_round q.store id (record u { queue_status = some (some status) }) k in
    elim (Bool-cases (is_terminal_status (status_or_unknown (get_round store id)))) [
      | inl t ↦ rw t kept
      | inr t ↦ elim (Bool-cases (has q.in_flight_round_ids id)) [
        | inl f ↦
            rw (t, f)
              (Kept-add_round q.store id (record u { queue_status = some (some in_flight) }) k)
        | inr f ↦
            rw (t, f) (Kept-add_round q.store id (record u { queue_status = some (some queued) }) k)
      ]
    ]

-- Every queue that a process reaches holds each round of its store once, under its own id.
pub Kept-Reached : (q : KeeperQueue) → Reached q → Kept q.store
unfolding new_queue complete release
Kept-Reached q (started o s k) = rw ((Alike-sync_with_store (blank_queue o s)).1) k
Kept-Reached q (synced p r) = rw ((Alike-sync_with_store p).1) (Kept-Reached p r)
Kept-Reached q (enqueued p id u r) = store-enqueue p id u (Kept-Reached p r)
Kept-Reached q (claimed p r) = store-claim p (Kept-Reached p r)
Kept-Reached q (completed p id u r) = Kept-update_round p.store id _ (Kept-Reached p r)
Kept-Reached q (given_back p id u r) = Kept-update_round p.store id _ (Kept-Reached p r)
Kept-Reached q (stopped p r) = Kept-Reached p r

-- In every queue that a process reaches, the synchronisation leaves every waiting round, and adds
-- just the rounds of the store that are not in flight, not in a terminal status, and not of another
-- contract or network.
pub sync_with_store_lem :
    (q : KeeperQueue) (b : ℕ)
    → Reached q
    → has (sync_with_store q).queued_round_ids b
      ≡ (has q.queued_round_ids b || awaited q (get_round q.store b) b)
unfolding sync_with_store get_round
sync_with_store_lem q b r =
    has-sync_rounds q (list_rounds q.store) b
    ∙ ap (λ w. has q.queued_round_ids b || w)
        (wanted-sort_rounds q q.store.rounds b (Kept-Reached q r))
