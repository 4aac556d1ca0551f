-- ===== src/Lib.antt =====
-- Verification of the index node's core, packages/index-node/internal, in Go.
--
-- The node turns filesystem changes into tasks of a durable queue and works on them:
--   changes of a watcher -> debouncer -> task queue (SQLite) -> scheduler -> stages of the pipeline,
-- where the embedding stage calls a compute node behind a circuit breaker, and a failed task comes back
-- to the queue with a delay by its error class. The queue's rows are the state that these parts share;
-- everything else is private to a part and guarded by its mutex or by its one goroutine, so calls are
-- steps of a sequence here.
--
-- Base: Boolean tests, lists under native lengths, texts as bytes, integers, float64 numbers, Go maps.
-- FilePath: filepath.Clean on a Unix system, and that it is idempotent.
-- Task: the row types of store/models.go.
-- Debounce (debounce/debounce.go): changes and how two of them merge (mergeSamePath, mergeFromSource);
--   Pending is pendingState with its methods, Pending.Deadlines and Pending.Exact are about its heap and
--   map, Pending.Overwrite about a move onto a pending move; Flush is flushDue, flushAll and persist,
--   over a parameter for the file system, the store and the callbacks; Meaning says what a change means
--   for the set of indexed paths. The heap is the list of its entries in the order of heap.Pop. The
--   loops of a flush run on fuel: one round for each pending change and one more, which is proved to be
--   enough.
-- TaskQueue (store/taskqueue.go, supersede.go, reconcile_enqueue.go, deadletter.go, audit_outbox.go, the
--   crash recovery of store.go, pathKey of pathkey.go): the tables as lists of rows; History is the
--   capped failure history, Enqueue is EnqueueTx, Claim is claim, Release is releaseToPending, Finish is
--   markDoneTx, markRetry, MarkWaitingDepBatch and RetireTaskIfSuperseded, Bump is
--   EnqueueAndBumpGeneration and EnqueueReconcileIfCurrent, Complete is CompleteTask,
--   CompleteCommittedBatch, PrepareFileForTask and MarkDeadWithSource, and Recovery is beginStartup and
--   redriveDeadLettersTx. A statement is a function on the rows, with its WHERE and its ORDER BY; the
--   column path_key is computed from the path. Slots is about the unique indexes and the generation
--   fence: Run is about calls of the operations that leave the catalog alone, Accepted about the updates
--   that the indexes might refuse, Store about sequences of these and of the modelled operations on the
--   catalog, and Fenced about a change and the completions after it. The transactions of directory.go,
--   media_backfill.go, model_upgrade.go and vectors.go, which write tasks and files too, are not among
--   them.
-- Catalog (store/catalog.go, bumpFileGenerationByIDTx of store/directory.go): the statements on the
--   table of files; Rows, Fence and Paths are about its lookups, its generations and its paths.
-- Scheduler (scheduler/scheduler.go): Scope is pathScope and conflicts, Budget is retryBudget, Order is
--   orderClaimed, Store is the Store interface as a parameter, Claim is claimReady and claimSource,
--   Dispatch is dispatchClaimed, and Run is the loop of Run, one turn for each completed lease, tick or
--   wake-up. Exclusion, Turns and Accounting
--   are about the tasks in flight, and Queue has the task queue as the store. The float64 numbers of the retry budget
--   are those of Base.Float64, with their rounding.
-- Breaker (pipeline/embed/breaker.go): the breaker and its permits; System is any interleaving of their
--   calls, and Invariant, Probe, Trip and Diagram are about it. The observer of
--   transitions, which is called after the mutex is released, is not modelled.
-- Controller (pipeline/embed/controller.go): the waiting store as a parameter, drainWaiting on fuel that
--   exceeds the number of waiting tasks, which is proved to be enough; Calls is parking and acquiring,
--   Permits is the calls under a permit, Turn is one turn of Run. Closing, Drained, Stranded, Served and
--   Quiet are about tasks that wait, and Queue has the task queue as the waiting store.
-- Batcher (pipeline/embed/batcher.go): the loop of Run that gathers requests into batches, as events,
--   and observeModel; Tallies and Whole are about the requests and the sizes of batches, Models about the order of
--   models.
-- Retry (errclass/errclass.go): classes, classification and the policy; Backoff is about the loop of
--   Delay, and Wrapping about Classify.
--
-- Times are natural numbers, and the clock is an argument. Words of 64 bits wrap where the code counts
-- in them (sequence numbers, epochs); the theorems about them bound the number of calls. The Windows
-- branches are not modelled.
--
-- Not modelled: channels, timers and goroutines of the run loops; the float64 jitter of Delay, which is
-- an argument; the JSON text of a history, whose encoder is an argument; the tables of the store that the
-- queue does not read, and the transactions that expand directories, backfill media, upgrade a model or
-- set the version of an embedding; the processing of a batch and the client
-- of the embedding stage; the worker, extraction, search, reconciliation, reliability, lifecycle,
-- configuration and command line, which mostly call libraries, files and SQL.
pub mod Base
pub mod FilePath
pub mod Task
pub mod Catalog
pub mod Debounce
pub mod Retry
pub mod Scheduler
pub mod TaskQueue
pub mod Breaker
pub mod Batcher
pub mod Controller
