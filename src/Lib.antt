-- ===== src/Lib.antt =====
-- Sub Rosa: sealed auctions on Stellar. Bidders lock an escrow with a bid that is encrypted to a
-- future Drand round; once the beacon is out the bids are revealed, the round is cleared to a winner,
-- and it is settled (the operator is paid, the others and the winner's surplus are refunded) or, if
-- nobody wins, voided with a full refund. The escrow is held by a contract in Rust; the TypeScript
-- around it decides when to act on a round, checks that no value is lost, and remembers what it has
-- sent. This library models that off-chain core and proves what makes it correct.
--
-- The parts, and how they meet:
--  - services/keeper/src/settlement-guard.ts (Keeper/Guard and its children). The keeper reads a round
--    page by page (Guard/Read, readSettlementView), works out the winner and the refunds from the bids
--    (Guard, expectedWinner, settleRefunds, voidRefunds), decides whether a settle or a void is allowed
--    (Guard/Evaluate, evaluateSettle, evaluateVoid), and refuses a second submission of a round by a
--    state machine in memory (Guard/Machine, createSettlementGuard). The proofs are in Guard/Winner,
--    Guard/Plans, Guard/Refunds, Guard/Rules, Guard/Payouts, Guard/Statuses and Guard/Suppression.
--  - services/keeper/src/checkpoint.ts (Keeper/Checkpoint). The same memory on disk, across restarts:
--    marking and rolling back a step (Checkpoint, planCheckpointStep, planCheckpointRollback), hash
--    verification (Checkpoint/Hashes, verifyHashes), chain reconciliation (Checkpoint/Reconciles,
--    reconcile), and loading with its binding check (Checkpoint/Stored, load, parseCheckpointEntry).
--    The hashes and steps that these keep are described in Checkpoint/Verdicts and Checkpoint/Vouched.
--  - services/keeper/src/store.ts (Keeper/Store). The watched rounds (Store/Rounds) and the leases by
--    which several keeper processes share one file (Store, claimRound, releaseLease, getLease).
--  - services/keeper/src/queue.ts (Keeper/Queue). The rounds that wait and those in flight, over the
--    rounds of the store (KeeperQueue with its methods enqueue, claim, complete, release,
--    syncWithStore and stop). It uses Keeper/Store.
--  - services/keeper/src/keeper.ts (Keeper/Tick). One pass of the keeper over a round: the chain, the
--    clock and the checkpoint that it acts on (Tick/World), closing a round (Tick/Close, closeRound),
--    revealing its bids and waiting for the deadline (Tick/Keep, keepRound, waitForRound),
--    voiding a round that is stuck (Tick/Void, voidIfStale), the pass that chooses among these
--    (Tick/Watch, watchRound), and the ids of the rounds to watch (Tick/Find,
--    parseRoundIdSpec, discoverRoundIds). The proofs are in Keep, Find,
--    Tick/Keeps and Tick/Once. It uses Keeper/Checkpoint for the steps it records and Keeper/Guard
--    for the void.
--  - services/keeper/src/watch-loop.ts (Keeper/Startup): the check of the cursor when the watch loop
--    starts (resumeCheckpoint), which verifies the hashes and reconciles each round with the chain by
--    the operations of Keeper/Checkpoint. The proofs are in
--    Startup/Kept and Startup/Cursor.
--  - packages/sdk/src/conservation.ts (Sdk/Conservation). The conservation predicate, its evaluation,
--    and the walk over the bidder pages that gives a report (proveEscrowConservationFromPages).
--  - packages/sdk/src/client.ts (Sdk/Preflight): proveEscrowConservation and the settle and void
--    preflights, which run that walk on a round; they are compared with the guard's rules.
--  - packages/sdk/src/receipt-events.ts (Sdk/ReceiptEvents): the check of the event log of a receipt
--    (verifyReceiptEvents), over the events of packages/round-bindings/src/event-snapshot.ts. The
--    entries are in ReceiptEvents/Entries, the whole log in ReceiptEvents/Story.
--  - packages/sdk/src/round-status.ts and apps/web/src/lib/round-phase.ts (Sdk/RoundStatus): classes of
--    statuses, dashboard phases, lifecycle steps.
--  - services/auction-template/template-rules.ts (Template): the template's phase gate and its escrow
--    check, which are compared with the SDK's preflights.
--  - services/agent/src/mandate.ts (Agent/Mandate): the caps of a signed mandate on what a bidding agent
--    pays for appraisals (assertAppraisalQuoteAllowed, remainingAppraisalSpend) and bids
--    (assertBidWithinMandate, bidFromAppraisal).
--  - packages/tlock/src (Tlock): the bytes that a bid is committed to and their hash (commitment.ts,
--    Tlock/Commitment), the envelope in which a value and a nonce are sealed (payload.ts,
--    Tlock/Payload), the check of the round that a seal names (window.ts, Tlock/Window), and the time at
--    which the beacon publishes a round (freshness.ts, Tlock/Freshness). Tlock/Hex has the
--    texts in hex of commitment.ts (toHex, isValidHex, fromHex).
-- Prelude holds what these share: Boolean tests on native numbers, lists, association lists
-- (Prelude/Assoc, for the source's maps and objects) and the integers (Prelude/Int, for bigint). The
-- module Tests of each part has runs on concrete inputs and an instance of each result.
--
-- How code corresponds to definitions. A function or method of the source is a function of the same
-- name, in snake case. A class's fields are a record or the value that its methods take and return;
-- the clock is an argument, read once for each call; in Keeper/Tick, where calls take time, chain
-- and clock are one world that each call may move. An exception or an early return is a constructor
-- of a result type or `none`. A bigint is an integer ℤ, of no fixed width, as in the source; a
-- count, a time or a round id in normal form is a natural number. Texts that only tell a human what
-- happened are left out or kept as the data they are made from. Reads of the network (the contract
-- through the SDK, the hash lookup) are arguments: functions from what is asked to what is answered,
-- in which `none` is a read that fails. Files are values, and a write always succeeds. In the store
-- a method runs without a pause between its re-read and its write, so that the processes on one file
-- take turns by whole methods.
--
-- Bounds and fuel. Three loops wait on answers from outside and are on fuel: the page walk of
-- Sdk/Conservation, the index walk of Guard/Read and the wait of Tick/Keep. The first counts its
-- pages and stops at the page limit of its options (by default the bidder bound, 500, over the page
-- size, rounded up, plus one), so fuel above that limit is enough whatever the pages are; the second
-- has no bound in the source, so that the model says when its fuel runs out, and one step is enough
-- for an index whose first page is refused; the third has one more than the milliseconds that it
-- waits for, which is enough because each sleep moves the clock. A number in decimal (Store,
-- decimal) is written with fuel above the number, which has fewer digits. Every other loop is over a
-- list and needs no fuel.
--
-- Not modelled: the contract (contracts/round, in Rust), the generated bindings
-- (packages/round-bindings), the loop around the passes of the keeper (runWatchLoop of
-- services/keeper/src/watch-loop.ts, which names what its file does not declare, and the entry
-- points), its status views and servers, the export of receipts and the check of their hashes
-- (packages/sdk/src/receipt.ts, verify.ts, services/receipt-cli), the encryption itself (the
-- ciphertext, the pairing and the auditor's key in packages/tlock, payloadCommitment, sealPayload
-- and openPayload of payload.ts, and services/drand-tools), which is over third-party cryptography,
-- the agent's run and its signatures (services/agent), the appraisal API (services/appraisal-api),
-- the network and asset configuration of the SDK, logging and time, the web pages, and the scripts.
-- Of the modelled files, the parsing of a stored lease or round in store.ts is left out, as is what
-- only reads or prints.
mod Prelude
pub mod Agent
pub mod Keeper
pub mod Sdk
pub mod Template
pub mod Tlock
