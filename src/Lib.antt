-- ===== src/Lib.antt =====
-- The control plane of `rex`, an agent that searches for recommendation models: its state machines,
-- budget trackers, repair policy, and the repository that keeps every run in a database.
--
-- Parts, and the files that model them
--   * src/rex/contracts.py: the enums, in Contracts. Of the pydantic models the fields that the
--     store reads are records beside the operation that takes them (Metrics in Store/Runs, Proposal in
--     Store/Experiments, ArtifactRef in Store/Artifacts, RunResult in Store/Attempts).
--   * src/rex/control/state_machine.py: Control/StateMachine, both transition tables and their guards.
--     Runs and Gates below it hold what the tables imply for whole paths.
--   * src/rex/control/budget.py: Control/Budget, metric units and convergence trackers; Rounding
--     below it.
--   * src/rex/agents/recovery.py: Agents/Recovery, both repair policies; Allowance below it.
--   * src/rex/store/schema.sql: Store/Schema, a record for each table and Db for the database.
--   * src/rex/store/repository.py: one function for each writing method of `ExperimentRepository`, in
--     Store/Runs, Experiments, Finalist, Artifacts, Attempts, Repairs, Measurements, Rejections, Shadow,
--     Promotions, Sessions (the leases of processes) and Journal (model calls, resource usage, lessons
--     and interventions); `_event` in Store/Events.
--   * src/rex/store/event_log.py: Store/Events, `export_events` and `verify_event_chain`.
--   * src/rex/store/db.py: `Database.transaction` in Store/Calls, where the writing calls are data, one
--     call is a transaction, and a history is a sequence of calls.
--
--   * src/rex/control/production_supervisor.py: Control/Supervisor, the decisions of the search loop, with
--     the deadline of the budget; Untried and Deadline below it, and Finalist, `_lock_shadow_finalist`,
--     with Candidates, Locked and Strongest below that.
--   * src/rex/agents/search_policy.py: Agents/Search, the cards, their eligibility and the choice of the
--     next one, and Agents/Search/Queue, the queue; Choice and Progress below it.
--   * src/rex/agents/patch_guard.py: Agents/PatchGuard, the scan of a unified diff and the policy on the
--     paths it names; Named and Renames below it.
--   * src/rex/execution/lease.py: Execution/Leases, `recover_orphan_worker` over the answers of the host,
--     and Begin, `begin_worker_lease`, whose loop makes 50 passes as in the code; Judged, Verified,
--     Sound and Outcomes, and Begin/Watched and Begin/Recovered, below them.
--   * src/rex/submission/repository.py and schema.sql: Submission, with States, Schema, Jobs, Checks and
--     Handoffs; its transactions are data in Submission/Calls, and what holds over a history of them is
--     below that module. Submission/Replays holds calls that are made again.
--   * src/rex/submission/coordinator.py: Submission/Coordinator, `handoff`, `reject` and `fail`; Handed
--     below it.
--   * src/rex/data/temporal.py and groups.py: Data/Temporal, the folds and the batches by date, and
--     Data/Groups, the rows of a user and the pairs of a sample; Temporal/Batches and Groups/SameUser
--     below them. Data/Arrays has the arrays, and numpy as a parameter.
--   * src/rex/features: Features/PointInTime, the loop that the builders share (write a batch of rows, then
--     learn from it), and the builders TemporalAggregates, RepeatExposure, Recency, MultiFeedback and
--     CandidateRecency, each with its fit and its frozen application; Calendar and TemporalOrder beside
--     them, and the results on each below it.
--
-- How the model stands to the code
--   * A method maps a database to a result: a raise is `err`, which rolls the transaction back, and what
--     the method returns is paired with the new database. Guards stand in the order of the code.
--   * A table is an association list by its primary key, or by the unique column that the code looks it
--     up by. The other UNIQUE and FOREIGN KEY constraints that a call can break are guards that fail with
--     `integrity_error`, where sqlite3 raises IntegrityError.
--   * A JSON column is its document; `sort_keys` makes the text a function of the document, and two
--     documents are compared where the code compares their texts. A finite float is the decimal that
--     `str` prints for it. A repair id is the pair that its text is made of.
--   * The digests, the printing of an integer and the clock are the fields of `Env`, a parameter of
--     every call. A call reads the clock once; the code reads it at each row it writes.
--   * A process takes from its host its name and number, the outcome of `os.kill(pid, 0)`, and the length
--     of a time span: the fields of Host in Store/Sessions.
--   * A call of the submission repository that is several transactions (`authorize_handoff`,
--     `complete_handoff`) keeps what the earlier ones wrote when a later one raises, and a history
--     interleaves transactions.
--   * The recovery of a worker returns the list of what it does, in order. Its host is a record of the
--     answers of psutil and of the operating system: each look at a process group has a number, and a
--     wait loop makes as many looks as the host allows before the deadline, which is its fuel. An error
--     that is no WorkerLeaseError leaves the recovery as the outcome `escaped`: one of `os.killpg`, of a
--     field of the lease that does not convert, of the process, or of a file that cannot be written. A
--     time of the lease is a finite number of microseconds, and the host always tells its name and boot
--     time. At the launch of a worker an error that the loop does not catch is left out.
--   * The float arithmetic of the utility of a card is a parameter. The texts of a card that no choice
--     reads are left out.
--   * A patch is the list of its lines, and a PatchRejected is `none`. `strip`, `split` and the paths of
--     pathlib are written out for ASCII white space; fnmatch is a parameter.
--   * The deadline is reckoned in whole milliseconds, where the code divides by 1000.0.
--   * An array is its length and a function of the position; a read past its end, which raises in the code,
--     has a value in the model and does not occur where the arrays of a call have one length. A result
--     array holds the rows that have been written. Arrays of features of one row are one record.
--   * numpy is a record of the functions that are called; the hypotheses on it are what it documents of
--     lexsort, argsort, diff, flatnonzero, split, repeat, choice and permutation. Floats are a parameter
--     without laws, and an integer column has no width. A ValueError is `none`.
--   * The lock of a finalist returns the database as it stands beside its answer, `none` where it raises:
--     what the store has committed stays. The files of the run are a parameter, Reports, with the floats
--     of a score and their order.
--   * Other loops are over finite lists and run on no fuel.
--
-- Not modelled: the reading calls of the repository, the migrations of db.py, and the temporary file
-- of an export; the end of a worker lease and its file lock; the stages of the
-- submission coordinator that run programs on files; the agents that call language models, the
-- supervisors apart from those decisions, execution in
-- sandboxes and containers, the sample of complete users and the rest of the data pipeline, the
-- user-author summaries and the other features, evaluation, models, reports and the
-- command line.
pub mod Prelude
pub mod Result
pub mod Contracts
pub mod Control
pub mod Agents
pub mod Store
pub mod Submission
pub mod Execution
pub mod Data
pub mod Features
pub mod Tests
