-- ===== src/Keeper/Queue/Apart.antt =====
-- The rounds that wait and the rounds in flight in services/keeper/src/queue.ts, under every call.
use sub_rosa_issue.Prelude.{
  nil_or_cons, ℕ, ◌≡◌, refl, ◌∙◌, ap, ap₂, ◌⊎◌, Bool, true, false, not, ◌&&◌, ◌||◌, Bool-cases,
  none, List, [], ◌∷◌, ◌==◌, arith, inl, inr, if◌then◌else◌,
}
use sub_rosa_issue.Keeper.Store.{Store, WatchedRound, RoundUpdate}
use sub_rosa_issue.Keeper.Store.Rounds.{list_rounds}
use sub_rosa_issue.Keeper.Queue.{
  KeeperQueue, KeeperQueueOptions, has, sync_round, sync_rounds, sync_with_store, new_queue,
  blank_queue, enqueue, claim, claim_next, complete, release, stop,
}
use sub_rosa_issue.Keeper.Queue.Sets.{has-insert, has-erase}
use sub_rosa_issue.Keeper.Queue.Kept.{Kept}

-- No round waits and is in flight at once.
abbrev pub Apart : KeeperQueue → Type 0
Apart q = (b : ℕ) → (has q.queued_round_ids b && has q.in_flight_round_ids b) ≡ false

has_first : (id : ℕ) (ids : List ℕ) → has (id ∷ ids) id ≡ true
unfolding has
has_first id ids = ground arith

Apart-sync_round : (q : KeeperQueue) (r : WatchedRound) → Apart q → Apart (sync_round q r)
unfolding sync_round
Apart-sync_round q r a b =
    let one = a b in
    let more = has-insert q.queued_round_ids r.round_id b in grind (arith, one, more)

Apart-sync_rounds : (q : KeeperQueue) (rs : List WatchedRound) → Apart q → Apart (sync_rounds q rs)
unfolding sync_rounds
Apart-sync_rounds q [] a = a
Apart-sync_rounds q (r ∷ rs) a = Apart-sync_rounds (sync_round q r) rs (Apart-sync_round q r a)

pub Apart-sync_with_store : (q : KeeperQueue) → Apart q → Apart (sync_with_store q)
unfolding sync_with_store
Apart-sync_with_store q a = Apart-sync_rounds q (list_rounds q.store) a

Apart-enqueue :
    (q : KeeperQueue) (id : ℕ) (extra : RoundUpdate) → Apart q → Apart (enqueue q id extra).0
unfolding enqueue
Apart-enqueue q id extra a b =
    let one = a b in let more = has-insert q.queued_round_ids id b in grind (arith, one, more)

claim_when :
    (q : KeeperQueue) (stopped : Bool) (ids : List ℕ)
    → q.stopping ≡ stopped
    → q.queued_round_ids ≡ ids
    → claim q ≡ (if stopped then (q, none) else claim_next q ids)
unfolding claim
claim_when q stopped ids s p = ap₂ (λ b l. if b then (q, none) else claim_next q l) s p

-- What a claim that is not stopped does with the first waiting round.
claim_first :
    (q : KeeperQueue) (id : ℕ) (ids : List ℕ)
    → q.stopping ≡ false
    → q.queued_round_ids ≡ id ∷ ids
    → ((b : ℕ) → has (claim q).0.queued_round_ids b ≡ (has q.queued_round_ids b && not (id == b)))
      × ((b : ℕ) → has (claim q).0.in_flight_round_ids b ≡ (has q.in_flight_round_ids b || id == b))
unfolding claim_next
claim_first q id ids s p = (
  λ b.
      ap (λ c. has ((c.0).queued_round_ids) b) (claim_when q false (id ∷ ids) s p)
      ∙ has-erase q.queued_round_ids id b,
  λ b.
      ap (λ c. has ((c.0).in_flight_round_ids) b) (claim_when q false (id ∷ ids) s p)
      ∙ has-insert q.in_flight_round_ids id b,
)

-- A claim that is stopped, or finds nothing waiting, changes nothing.
claim_nothing :
    (q : KeeperQueue) → (q.stopping ≡ true) ⊎ (q.queued_round_ids ≡ []) → claim q ≡ (q, none)
unfolding claim_next
claim_nothing q (inl s) = claim_when q true q.queued_round_ids s refl
claim_nothing q (inr p) = elim (Bool-cases q.stopping) [
  | inl s ↦ claim_when q true [] s p
  | inr s ↦ claim_when q false [] s p
]

Apart-claim : (q : KeeperQueue) → Apart q → Apart (claim q).0
Apart-claim q a b = elim (Bool-cases q.stopping) [
  | inl s ↦ rw (claim_nothing q (inl s)) (a b)
  | inr s ↦ elim (nil_or_cons q.queued_round_ids) [
    | inl n ↦ rw (claim_nothing q (inr n)) (a b)
    | inr p ↦
        let f = claim_first q (p.0) (p.1) s (p.2) in
        let one = a b in rw (f.0 b, f.1 b) (ground (arith, one))
  ]
]

Apart-complete : (q : KeeperQueue) (id : ℕ) (u : RoundUpdate) → Apart q → Apart (complete q id u)
unfolding complete
Apart-complete q id u a b =
    let one = a b in
    let more = has-insert q.queued_round_ids id b in
    let less = has-erase q.in_flight_round_ids id b in grind (arith, one, more, less)

Apart-release : (q : KeeperQueue) (id : ℕ) (u : RoundUpdate) → Apart q → Apart (release q id u)
unfolding release
Apart-release q id u a b =
    let one = a b in
    let more = has-insert q.queued_round_ids id b in
    let less = has-erase q.in_flight_round_ids id b in grind (arith, one, more, less)

-- The queues that a process reaches on a store whose rounds stand once, under their own ids, by any
-- calls of the queue in any order.
pub data Reached : KeeperQueue → Type 0 where
  started : (o : KeeperQueueOptions) (s : Store) → Kept s → Reached (new_queue o s)
  synced : (q : KeeperQueue) → Reached q → Reached (sync_with_store q)
  enqueued : (q : KeeperQueue) (id : ℕ) (u : RoundUpdate) → Reached q → Reached (enqueue q id u).0
  claimed : (q : KeeperQueue) → Reached q → Reached (claim q).0
  completed : (q : KeeperQueue) (id : ℕ) (u : RoundUpdate) → Reached q → Reached (complete q id u)
  given_back : (q : KeeperQueue) (id : ℕ) (u : RoundUpdate) → Reached q → Reached (release q id u)
  stopped : (q : KeeperQueue) → Reached q → Reached (stop q)

-- In every queue that a process reaches, no round waits and is in flight at once.
pub Apart-Reached : (q : KeeperQueue) → Reached q → Apart q
unfolding new_queue has
Apart-Reached q (started o s k) = Apart-sync_with_store (blank_queue o s) (λ b. nothing b)
  where
    nothing : (b : ℕ) → (has [] b && has [] b) ≡ false
    nothing b = ground arith
Apart-Reached q (synced p r) = Apart-sync_with_store p (Apart-Reached p r)
Apart-Reached q (enqueued p id u r) = Apart-enqueue p id u (Apart-Reached p r)
Apart-Reached q (claimed p r) = Apart-claim p (Apart-Reached p r)
Apart-Reached q (completed p id u r) = Apart-complete p id u (Apart-Reached p r)
Apart-Reached q (given_back p id u r) = Apart-release p id u (Apart-Reached p r)
Apart-Reached q (stopped p r) = Apart-Reached p r

-- In every queue that a process reaches, a claim takes the first waiting round, which is not in
-- flight before: it leaves the waiting ones and joins those in flight, and every other round stays
-- where it is. A claim that is stopped or finds nothing waiting changes nothing.
pub claim_lem :
    (q : KeeperQueue)
    → Reached q
    → (((q.stopping ≡ true) ⊎ (q.queued_round_ids ≡ [])) × (claim q ≡ (q, none)))
      ⊎ ((id : ℕ) × (ids : List ℕ) × (q.queued_round_ids ≡ id ∷ ids)
          × (has q.in_flight_round_ids id ≡ false)
          × ((b : ℕ)
              → has (claim q).0.queued_round_ids b ≡ (has q.queued_round_ids b && not (id == b)))
          × ((b : ℕ)
              → has (claim q).0.in_flight_round_ids b ≡ (has q.in_flight_round_ids b || id == b)))
claim_lem q r = elim (Bool-cases q.stopping) [
  | inl s ↦ inl (inl s, claim_nothing q (inl s))
  | inr s ↦ elim (nil_or_cons q.queued_round_ids) [
    | inl n ↦ inl (inr n, claim_nothing q (inr n))
    | inr p ↦
        let f = claim_first q (p.0) (p.1) s (p.2) in
        let one = Apart-Reached q r (p.0) in
        inr (p.0, p.1, p.2, first_apart q (p.0) (p.1) (p.2) one, f.0, f.1)
  ]
]
  where
    first_apart :
        (q : KeeperQueue) (id : ℕ) (ids : List ℕ)
        → q.queued_round_ids ≡ id ∷ ids
        → (has q.queued_round_ids id && has q.in_flight_round_ids id) ≡ false
        → has q.in_flight_round_ids id ≡ false
    first_apart q id ids p h =
        let e = ap (λ l. has l id) p ∙ has_first id ids in ground (arith, e, h)
