-- ===== src/Keeper/Guard/Suppression.antt =====
-- What the guard of services/keeper/src/settlement-guard.ts suppresses, and for how long.
use sub_rosa_issue.Prelude.{
  ℕ, ◌==◌, ==_iff, ==_refl, ==_ne, ◌≡◌, ◌≢◌, inl, inr, refl, sym, ◌∙◌, ap, Bool, true, false,
  String, List, [], ◌∷◌, if◌then◌else◌, All, Bool-cases, if_same,
}
use sub_rosa_issue.Keeper.Guard.{
  SettlementAction, RoundSettlementView, ContractDecision, allowed, refused,
}
use sub_rosa_issue.Keeper.Guard.Evaluate.{evaluate}
use sub_rosa_issue.Keeper.Guard.Machine.{
  GuardStatus, pending, submitted, terminal, Entry, Guard, get_or_create, SettlementCheck,
  permitted, duplicate, rejected, answer, DuplicateSkipEvent, check, says_done, decided,
  check_entry, can_settle_entry, mark_submitted, mark_retryable, Call, asks, checks, submits, ends,
  retries, step, run,
}
use sub_rosa_issue.Keeper.Guard.Statuses.{
  status_of, created_id, created_status, status_of-created, status_of-rewritten,
  status_of-submitted, status_of-terminal, status_of-retryable, status_of-can_settle,
}

-- The status after a check: a decision changes it only if the round is done.
abbrev pub checked : GuardStatus → ContractDecision → GuardStatus
checked pending (refused event) = if says_done event.reason then terminal else pending
checked pending (allowed plan) = pending
checked submitted d = submitted
checked terminal d = terminal

-- The answer of a check, by the status that it finds.
abbrev pub Answers : GuardStatus → ContractDecision → SettlementCheck → Type 0
Answers pending (allowed plan) r = r ≡ permitted plan
Answers pending (refused event) r = r ≡ rejected event
Answers s d r = (e : DuplicateSkipEvent) × (r ≡ duplicate e) × (e.skipped_duplicate_reason ≡ s)

module _ (now : ℕ) (action : SettlementAction) (view : RoundSettlementView) (g : Guard) where
  untouched :
      (j : ℕ) (s : GuardStatus)
      → status_of view.round_id g ≡ s
      → status_of j (get_or_create now view.round_id g).1
        ≡ (if view.round_id == j then s else status_of j g)
  untouched j s found =
      status_of-created now view.round_id g j
      ∙ sym (
          if_same (view.round_id == j) s (status_of j g)
            (λ p. sym found ∙ ap (λ i. status_of i g) ((==_iff view.round_id j).0 p)))

  check_entry-lem :
      (e : Entry) (s : GuardStatus) (d : ContractDecision)
      → e.status ≡ s
      → evaluate action view ≡ d
      → e.round_id ≡ view.round_id
      → status_of view.round_id g ≡ s
      → let g' = (get_or_create now view.round_id g).1 in
        let r = check_entry now action view e g' (can_settle_entry e s) in
        Answers s d r.0
        × ((j : ℕ) → status_of j r.1 ≡ (if view.round_id == j then checked s d else status_of j g))
  unfolding check_entry can_settle_entry
  check_entry-lem e pending (allowed plan) st dec same found = (
    rw dec,
    λ j. rw (
      dec,
      status_of-rewritten now view.round_id g (decided now action e (allowed plan)) j same,
      st,
    ),
  )
  check_entry-lem e pending (refused event) st dec same found = (
    rw dec,
    λ j. rw (
      dec,
      status_of-rewritten now view.round_id g (decided now action e (refused event)) j same,
      st,
    ),
  )
  check_entry-lem e submitted d st dec same found =
      ((_, refl, refl), λ j. untouched j submitted found)
  check_entry-lem e terminal d st dec same found =
      ((_, refl, refl), λ j. untouched j terminal found)

  -- A check answers by the status of the round and, while that is pending, by the contract's rules. It
  -- changes the status of no other round, and of this one only to terminal, if the rules say that the
  -- round is done.
  pub check_lem :
      let s = status_of view.round_id g in
      let d = evaluate action view in
      Answers s d (check now action view g).0
      × ((j : ℕ)
          → status_of j (check now action view g).1
            ≡ (if view.round_id == j then checked s d else status_of j g))
  unfolding check
  check_lem =
      let e = (get_or_create now view.round_id g).0 in
      let st = created_status now view.round_id g in
      rw (← st) (
        check_entry-lem e e.status (evaluate action view) refl refl (created_id now view.round_id g)
          (sym st))

-- The call does not put the round back to pending.
abbrev pub IsNoRetry : ℕ → ℕ × Call → Type 0
IsNoRetry id (now, retries j reason) = j ≢ id
IsNoRetry id (now, _) = Unit

if_busy :
    (b : Bool) (s t : GuardStatus) → s ≢ pending → t ≢ pending → (if b then s else t) ≢ pending
if_busy true s t hs ht = hs
if_busy false s t hs ht = ht

checked_busy : (s : GuardStatus) (d : ContractDecision) → s ≢ pending → checked s d ≢ pending
checked_busy pending d h = absurd (h refl)
checked_busy submitted d h = h
checked_busy terminal d h = h

-- A status that is not pending stays so under every call but a retry of the round.
step-busy :
    (id : ℕ) (g : Guard) (c : ℕ × Call)
    → IsNoRetry id c
    → status_of id g ≢ pending
    → status_of id (step g c) ≢ pending
unfolding step
step-busy id g (now, asks j) n h = rw (status_of-can_settle now j g id) h
step-busy id g (now, checks action view) n h = elim (Bool-cases (view.round_id == id)) [
  | inl same ↦
      rw ((check_lem now action view g).1 id, same)
        (checked_busy _ (evaluate action view) (rw ((==_iff view.round_id id).0 same) h))
  | inr other ↦ rw ((check_lem now action view g).1 id, other) h
]
step-busy id g (now, submits j) n h =
    rw (status_of-submitted now j g id) (if_busy (j == id) _ _ (λ e. cc) h)
step-busy id g (now, ends j reason) n h =
    rw (status_of-terminal now j g reason id) (if_busy (j == id) _ _ (λ e. cc) h)
step-busy id g (now, retries j reason) n h =
    rw (status_of-retryable now j g reason id, ==_ne j id n) h

run-busy :
    (id : ℕ) (g : Guard) (calls : List (ℕ × Call))
    → All (IsNoRetry id) calls
    → status_of id g ≢ pending
    → status_of id (run g calls) ≢ pending
unfolding run
run-busy id g [] n h = h
run-busy id g (c ∷ calls) n h = run-busy id (step g c) calls n.1 (step-busy id g c n.0 h)

Answers-busy :
    (s : GuardStatus) (d : ContractDecision) (r : SettlementCheck)
    → s ≢ pending
    → Answers s d r
    → (e : DuplicateSkipEvent) × (r ≡ duplicate e)
Answers-busy pending d r h a = absurd (h refl)
Answers-busy submitted d r h a = (a.0, a.1)
Answers-busy terminal d r h a = (a.0, a.1)

Answers-pending :
    (s : GuardStatus) (d : ContractDecision) (r : SettlementCheck)
    → s ≡ pending
    → Answers s d r
    → r ≡ answer d
Answers-pending pending (allowed plan) r h a = a
Answers-pending pending (refused event) r h a = a
Answers-pending submitted d r h a = cc
Answers-pending terminal d r h a = cc

-- After a settle of a round was marked as submitted, and whatever is called then, but for a retry of
-- that round, each check of a view of the round is answered as a duplicate: nothing is submitted
-- twice.
pub check-submitted :
    (now id : ℕ) (g : Guard) (calls : List (ℕ × Call)) (later : ℕ) (action : SettlementAction)
    (view : RoundSettlementView)
    → All (IsNoRetry id) calls
    → view.round_id ≡ id
    → (e : DuplicateSkipEvent) × ((check later action view (run (mark_submitted now id g) calls)).0
        ≡ duplicate e)
check-submitted now id g calls later action view n same =
    let g' = run (mark_submitted now id g) calls in
    let started : status_of id (mark_submitted now id g) ≢ pending =
      rw (status_of-submitted now id g id, ==_refl id) (λ e. cc) in
    Answers-busy (status_of view.round_id g') (evaluate action view) _
      (rw same (run-busy id (mark_submitted now id g) calls n started))
      (check_lem later action view g').0

-- A retry puts the round back to pending, whatever its status was, the terminal one included: the
-- next check of a view of the round is answered by the contract's rules alone.
pub check-retryable :
    (now id : ℕ) (reason : String) (g : Guard) (later : ℕ) (action : SettlementAction)
    (view : RoundSettlementView)
    → view.round_id ≡ id
    → (check later action view (mark_retryable now id reason g)).0 ≡ answer (evaluate action view)
check-retryable now id reason g later action view same =
    let g' = mark_retryable now id reason g in
    let open_again : status_of view.round_id g' ≡ pending =
      rw (same, status_of-retryable now id g reason id, ==_refl id) in
    Answers-pending (status_of view.round_id g') (evaluate action view) _ open_again
      (check_lem later action view g').0
