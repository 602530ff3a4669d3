-- ===== src/Lib.antt =====
-- CodexBridge runs coding tasks on repositories. The durable run store (soma/run_store.py) keeps one
-- row for each run; a launcher, a worker, a recovery pass and a publisher write to it from different
-- processes, each by a compare-and-set on status, version, lease token and lease generation. The
-- operation locks (soma/operation_locks.py) stand in the same database: one row for each repository
-- that is being worked on, owned by a run under the same token and generation. Payloads that
-- the processes exchange are stored in one file or in checked chunks (soma/payload_chunks.py). The
-- policy (soma/policy) rates an action, decides whether it is allowed, and keeps the approvals. A
-- canonical task (soma/tasks) takes its state from the status of its run; the task store keeps one
-- task for each request of a controller, and the task manager brings a task in line with its run, or
-- cancels it by the manager of runs. A parallel group (soma/parallel_groups.py) reserves several
-- runs at once, starts them as slots are free, and takes its status from theirs. A workflow
-- (soma/workflows) is a list of steps that depend on earlier ones; a worker under a lease takes them
-- in turn, each step starting a run of its own.
--
-- Files:
--   Prelude          names that all files share: tests, lists, results, tables, texts
--   Runs/Model       the tables of soma/run_store.py and the assignments of an update
--   Runs/RunId       RUN_ID_PATTERN
--   Runs/Update      _normalize_update_values, conditional_update, get_run
--   Runs/Worker      record_worker_launch, claim_worker, update_worker_progress, heartbeat_worker,
--                    attach_child_pid, adopt_worker
--   Runs/Terminal    mark_recovery_pending, transition_terminal, fail_infrastructure
--   Runs/Publication record_result_publication, record_public_result and both together
--   Runs/Progress    create_run, append_event, set_progress, heartbeat
--   Runs/Writes      all of these and conditional_update itself as steps, sequences of steps, and
--                    which of them are careful
--   Runs/Direct      the direct calls of conditional_update in soma/job_manager.py
--                    (reconcile_startup, cancel_run) and soma/job_worker.py (execute)
--   Runs/Cas, Runs/Untouched, Runs/Evolution, Runs/Lifecycle, Runs/Exclusion, Runs/Keys,
--   Runs/Late        proofs
--   Locks/Processes  process_is_running, process_identity, process_matches_identity of
--                    soma/process_control.py
--   Locks/Ops        _bump_run_state_version, _bind_run_ownership_in_connection, _is_stale, acquire
--   Locks/Owner      claim_owner, heartbeat, release, reserve_next_launch, recover_stale,
--                    repository_operation_lock
--   Locks/Validity, Locks/Calls, Locks/Binding, Locks/Acquire, Locks/Eviction,
--   Locks/Exclusion, Locks/Recovery, Locks/Release, Locks/Relaunch   proofs
--   Payloads/Names, Payloads/Codec   soma/payload_chunks.py; Payloads/RoundTrip and
--                    Payloads/Integrity   proofs
--   Policy/Model     soma/policy/models.py, soma/policy/profiles.py
--   Policy/Risk      soma/policy/risk_classifier.py
--   Policy/Approvals soma/policy/approval_store.py
--   Policy/Engine    soma/policy/policy_engine.py
--   Policy/Decisions, Policy/Authority   proofs
--   Tasks/States     soma/tasks/models.py, the states and their map; Tasks/Mirror   proofs
--   Tasks/Tables     soma/tasks/models.py and soma/tasks/schema.py, the tables
--   Tasks/Reserve    reserve_task, _insert_link, add_link of soma/tasks/store.py
--   Tasks/Update     conditional_update of soma/tasks/store.py
--   Tasks/Records    append_event, record_command, complete_command, create_checkpoint
--   Tasks/Reads      the reads of soma/tasks/store.py
--   Tasks/Create, Tasks/Changes, Tasks/Indexes, Tasks/Identity, Tasks/Bindings, Tasks/Cas   proofs
--   Tasks/Scopes     scope_for_task, require_task, require_task_attempt of
--                    soma/project_scope/store.py
--   Tasks/Observe    query of soma/tasks/backends.py
--   Tasks/Branches   _backend_identity_matches and the branches of _derive_target of
--                    soma/tasks/manager.py; Tasks/Derive   _derive_target
--   Tasks/Reconcile  reconcile_task, reconcile_startup
--   Tasks/Cancel     cancel_task, _load_task_scope
--   Tasks/Projection, Tasks/Follow, Tasks/Settle, Tasks/Reconciled, Tasks/Repeated, Tasks/Idempotent,
--   Tasks/Turns, Tasks/Startup, Tasks/Lookup, Tasks/Closed, Tasks/Cancelling   proofs
--   Groups/Tables    the tables of soma/parallel_groups.py, get_group, get_group_for_child,
--                    repository_lock_required_for_child
--   Groups/Reserve   reserve_group
--   Groups/Refresh   refresh_group, refresh_all_groups
--   Groups/Claim     claim_pending_launches
--   Groups/Slots, Groups/Within, Groups/Limits, Groups/Moving, Groups/Progress, Groups/Starts,
--   Groups/Final     proofs
--   Workflows/Models soma/workflows/models.py, the definition and its checks; Workflows/Graph and
--                    Workflows/Order   proofs
--   Workflows/Tables, Workflows/Reads   the tables and the reads of soma/workflows/store.py
--   Workflows/Update conditional_update_workflow
--   Workflows/Worker record_worker_launch, claim_worker, heartbeat_worker, adopt_worker,
--                    reserve_next_launch, request_cancellation, mark_cancellation_retry,
--                    mark_recovery_pending, transition_terminal
--   Workflows/Reports   begin_publication, mark_publication_complete, mark_publication_failed,
--                    mark_reported, append_event
--   Workflows/Steps  create_workflow, claim_step
--   Workflows/StepUpdate   conditional_update_step, reset_local_summary, finalize_cancellation,
--                    cancel_workflow
--   Workflows/Writes all of these and the two conditional updates themselves as steps, sequences of
--                    steps, and which of them are careful
--   Workflows/Direct the direct calls of conditional_update_workflow in soma/workflows/manager.py
--   Workflows/Lasting, Workflows/Kept, Workflows/Lifecycle, Workflows/Stale,
--   Workflows/OneChild   proofs
--   Tests            a sample database, and the theorems at concrete inputs
--
-- How the model stands to the code. A method is a function from the database to a result and the
-- database after it; an exception is a value of Error, and a transaction that raises restores the
-- database. A SQL table is the list of its rows, and a statement is a filter or a map of that list,
-- with the number of rows that it met. A method of a store of runs, tasks or workflows that reads a
-- row and then writes is two steps, so a sequence of steps is every interleaving of writers: the write
-- takes the row that was read as an argument. acquire reads the lock before its transaction begins:
-- look is what a request saw, acquire_seen writes with it, in whatever state the database is by then,
-- and acquire is both with nothing in between; the binding of the run, a transaction of its own,
-- follows at once. The other operations on locks are the transactions of the source, one step each;
-- recover_stale, which also reads before its transaction begins, is given as it runs alone. A
-- conditional update takes the fields and the conditions that its caller gives, so a sequence of
-- writes may hold any call of it. Such a call is careful if, on a run, it writes no lease, and what
-- the run reports only if it rejects terminal runs; on a workflow, if it rejects terminal workflows or
-- sets no status that is not terminal. Every other step is careful, and the direct calls in
-- Runs/Direct and Workflows/Direct are shown to be. Theorems on sequences of writes say whether they
-- ask for careful ones. Times are their texts, and the current time is an argument; durations are
-- natural numbers of milliseconds; JSON columns hold objects. The operating system's answers on
-- processes, the hash of an input and the text of a number are arguments. What the task manager takes
-- from outside, the lower case of a text, the printing of names and errors, the redaction of secrets
-- and the tables of projects, is a record, World; the cancellation of a run by its job manager is an
-- argument of cancel_task, from the database to a result and a database. The slices of a payload are
-- taken on fuel, the length of the payload, of which each slice uses at least one byte. The digits of
-- a number are taken on fuel, one more than the number. The search for cycles in a workflow is taken
-- on fuel, the number of steps, as no path of dependencies that are checked before is longer.
--
-- Not modelled: update_run of the run store, and update_workflow and update_step of the workflow
-- store, which set any columns and which nothing else calls, and the statement of
-- soma/evidence_backfill.py that sets the result of a run; the read projections and the schema
-- migrations of the stores; list_locks; the termination and the start of processes; the start of a
-- task, the resolution of its recovery by a controller and what it answers to reads; the bootstrap and
-- the quarantine of projects; the job manager, the job worker, and the manager, the worker and the
-- reports of workflows, but for their direct updates above; servers and user interfaces.
pub mod Prelude
pub mod Runs
pub mod Locks
pub mod Payloads
pub mod Policy
pub mod Tasks
pub mod Groups
pub mod Workflows
pub mod Tests
