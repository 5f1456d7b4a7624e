-- ===== src/Lib.antt =====
-- A model of the core of Proofmark: the durable state of the relay worker, the epoch roster with its
-- proofs, and decisions of the pipeline around them.
--
-- The worker (worker/) follows a source chain, keeps a job for each transaction with events, and
-- relays each job to a hub chain with one signer. Everything it must not forget is in the class
-- `Store` (worker/store.ts); `RelaySender` (worker/relay.ts) signs and sends through it, and
-- `BoundedPool` (worker/pool.ts) bounds the tasks. The pipeline (pipeline/) publishes at each epoch
-- the root of a Merkle tree over sorted subject keys (pipeline/roster.ts); consumers check inclusion
-- and absence against that root. `newestPerSubject` (pipeline/source-order.ts) picks the event that
-- counts for each subject. The 32 bytes of a mark are packed in pipeline/attrs.ts; a bank account is
-- verified by a challenge (pipeline/bank-state.ts) before a mark is issued, and names are screened
-- within a bounded edit distance (aml/edit-distance.ts).
--
-- Files:
--   Prelude             shared: Boolean tests, lists, results of fallible calls, dictionaries, the
--                       stable sort, texts as lists of code units
--   Worker/Job          the persisted types of worker/store.ts
--   Worker/Store        worker/store.ts: load, commit, the holds, the scope, the signer baseline
--   Worker/Store/Source   initializeSource, commitSourceRange, rewindUnsignedSource
--   Worker/Store/Jobs     reserveRelay, finishRelay, setCursor, add, update, pending,
--                       jobsReadyForDispatch
--   Worker/Store/Invariant, JobSafety, SourceSafety, RewindSafety, Checkpoints, Anchors
--                       the invariants of the data and what each method commits
--   Worker/Store/Sync, Reach   memory and file over all calls, write errors and restarts
--   Worker/Store/Lifecycle, Queue   the life of a relay, and the order of the pending jobs
--   Worker/Relay        worker/relay.ts: `RelaySender.step` as a program of calls
--   Worker/Relay/Transport, Finality, Queries   validateRelay, EvmRelayTransport; what the node has shown
--                       where a receipt or a confirmed query is returned
--   Worker/Relay/World  its interleavings with all other calls of the store
--   Worker/Relay/Safety, Kept, Durable   what is broadcast, and what the store has on file then
--   Worker/Pool, Worker/Pool/Bounds   worker/pool.ts: `BoundedPool`
--   Worker/Pool/Refines the pool as a set of ids with a number of free places
--   Worker/Recovery     worker/recovery.ts: initializeHubRecovery, reconcileHubRecovery
--   Worker/Recovery/Canonical, Reconciled, Baseline   what the hub proved where they end well
--   Worker/SourceScan   worker/source-scan.ts: scanSourceStep
--   Worker/SourceScan/Events   worker/source-events.ts: groupSourceEvents
--   Worker/SourceScan/Range    what holds of a range that a step commits
--   Worker/Retry, Worker/Retry/Rounds   worker/retry.ts: Backoff, withRetry
--   Ethers              the functions of the package `ethers` that the rosters call, as parameters
--   Roster              pipeline/roster.ts: subjectKey, markHash, leafOf, hashNode, rosterRoot,
--                       buildRoster
--   Roster/Proof        inclusionProof, verifyInclusion, nonInclusionProof, verifyNonInclusion
--   Roster/Layers, Tower, Inclusion, Binding, Built, Listed, Gap, Verify, Absence, Distinct, Hashes,
--   Roster/Total        the layers of a built tree, the way of a leaf to the top, what a hash binds
--   SourceOrder, SourceOrder/Newest   pipeline/source-order.ts: newestPerSubject
--   Attrs, Attrs/RoundTrip, Decides   pipeline/attrs.ts: packAttrs, unpackAttrs, validCredentialAttrs
--   Bank                pipeline/bank-state.ts: the class DemoBankStateStore
--   Bank/Sound, Once, Answers   its records and budgets over all calls, one success, the attempts
--   Merkle              pipeline/merkle.ts: hashPair, merkleRoot, merkleProof, verifyProof
--   Merkle/Steps, Complete   one level, and the proofs of all leaves
--   EditDistance        aml/edit-distance.ts: boundedEditDistance, withinOneEdit,
--                       withinSupportedEdits
--   EditDistance/Reference, Table, Limits   the distance by recursion, and the table against it
--   RevocationObservation   pipeline/revocation-observation.ts: normalizeRevocationObservation
--   RevocationObservation/Verdict   what the state of an observation says
--   Vault/Data, Blockers    pipeline/vault.ts: the data of EvidenceVault, and what blocks a deletion
--   Vault/Retention, Outbox, Decisions   its operations on retention, revocations and records
--   Vault/Calls         what `mutate` runs, and the data after any calls
--   Vault/Locking, Exclusive   `mutate` over file and lock, as instances interleave; who is inside
--   Vault/Backup, Restored   `restoreBackup`, over the ends of its calls of the file system; what holds then
--   Vault/Effects, Changes   what each operation may change
--   Vault/Sound, Erasure, Kept, Blocking   the invariant; when a record is erased; what no call takes
--                       back; what a decision to block leaves
--   Vault/Reports       what the vault reports; Vault/Monitor  pipeline/vault-monitor.ts: `monitorVault`
--   Vault/Calm          what a report without findings says
--   Publication/Checks  pipeline/epoch-publication-journal.ts: its entries and `validate`
--   Publication/Journal, Operations   the class EpochPublicationJournal: opening, saving and closing;
--                       begin, prepare, confirm, abandonUnsigned
--   Publication/Growth, Plans, Safe, Reach, Durable   how entries may change; what operations save; what
--                       one call and any calls keep; what the file has when `prepare` returns
--   Publication/Delivery   pipeline/epoch-publication-delivery.ts: advancePublication, reobservePublication
--   Publication/Delivered, Advanced   what its calls do to the journal; what is on file at a broadcast
--   Worker/Tests, Worker/Relay/Tests, Worker/Relay/TransportTests, Worker/Pool/Tests, Roster/Tests, SourceOrder/Tests,
--   Attrs/Tests, Bank/Tests, EditDistance/Tests, Merkle/Tests, Worker/Recovery/Tests,
--   Worker/Retry/Tests, Worker/SourceScan/Tests, Vault/Tests, Vault/CalmTests, Vault/LockingTests, Vault/RestoreTests, Publication/Tests,
--   RevocationObservation/Tests
--                       runs on concrete data
--
-- State and errors. A method of `Store` is a function of the data in memory that gives an `Effect`:
-- either a result, or new data to commit and a result. `perform` carries it out on memory and file for
-- each of three ends of the write: saved, lost (an error before the rename) and renamed (an error after
-- it), after which the source loads the file again. A thrown error is `throw` with its code. The time
-- is an argument. Numbers are natural numbers: block heights, nonces and times in the source are
-- checked to be non-negative or come from a chain; `is_safe_integer` is the bound 2^53 - 1. An object
-- used as a table is a list of its entries in the order of insertion: its keys are taken not to be array
-- indices, which JavaScript lists first, and not to be names that every object inherits. The text of the file is not modelled: the file is the data
-- that `JSON.parse` gives.
--
-- The relay sender. A call of `step` is a tree of the calls that it makes: of the transport and the
-- two guards, which may answer anything or throw, and of the store. Between two calls any other call of
-- the store by the worker may take place. One call of `step` is under way at a time, as the flag
-- `active` has it; a restart ends it.
--
-- The vault. Vault/Calls is the sequence of the operations on the data; an operation that throws changes
-- nothing. Vault/Locking takes `mutate` apart: instances in several processes take the lock, load, run
-- an operation, write and give the lock back, in any order and with any end of each call of the file
-- system; an operator takes a lock away only when no instance is inside it. Waiting for the lock is a
-- number of attempts. Digests, deep equality and random ids are parameters, and nothing is assumed of
-- them.
--
-- The publication journal. Between two calls an operator may take away the lock of a process that is
-- dead. The file holds the entries that were written, for the scope that they were written for; a write
-- that fails leaves the old file or the new one. The file keeps the secret and the scope that it was sealed
-- with, and a parameter says whether a secret and a scope unseal it; `Unseals` says of it that the same two do. One
-- process has the journal at a time, as its lock has it.
-- `advancePublication` has a place for each `await`: the transport may answer anything there, and other
-- callers may call the journal, or open it again.
--
-- The hub and the moments. The answers of the hub in worker/recovery.ts are functions of the moment of
-- the call, so two calls may differ. The store may change while the audit waits: the audit is given
-- the data of its start and of its end. The scan of worker/source-scan.ts has a moment for each
-- `await`, with what other tasks do to the store until its answer comes. `EvmRelayTransport` asks its node
-- at moments too.
--
-- Hashing. `keccak256`, `solidityPacked`, `AbiCoder.encode` and `getAddress` are parameters. What is
-- assumed of them is said by `LowerHashes` (hashes are printed in lower case) and `PacksFields`
-- (packing at fixed widths loses nothing but the case of digits), and, for the termination of
-- `buildRoster` only, by `PacksWords` (words of 32 bytes are packed without an error). That a hash has no collision is never
-- assumed: a statement that needs it ends in "unless two texts have one hash", with the two texts.
-- Roster/Tests has functions that satisfy the assumptions.
--
-- Fuel. The loop of `buildRoster` takes the number of leaves as fuel, which is enough, since each
-- round halves the layer (`build_layers-total` in Roster/Hashes). The loops of `merkleRoot` and
-- `merkleProof` do the same. All other loops are recursion on a list or on a count of rounds.
--
-- Not modelled: `counts`, `has`, `get` and `recoverySnapshot` of `Store`, which only read;
-- `leafIndexOf` and `rosterLeaf`; `evmPublicationTransport`; `createBackup` and `rotateKey` of `EvidenceVault`; and the parts of the repository that no file above names.
pub mod Prelude
pub mod Worker
pub mod Ethers
pub mod Roster
pub mod SourceOrder
pub mod Attrs
pub mod Bank
pub mod EditDistance
pub mod Merkle
pub mod RevocationObservation
pub mod Vault
pub mod Publication
