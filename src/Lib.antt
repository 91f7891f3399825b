-- ===== src/Lib.antt =====
-- nana: a verification library beside the Go sources of the repository.
--
-- These parts of the program are modelled. The runtime (cmd/nana-runtime) is a command line
-- program that keeps an engine with the lease of an owner, a log of dispatches, a mailbox and an
-- event log in a state directory. The scheduler (internal/gocli/start_scheduler.go) chooses the
-- tasks of a repository, marks them as started, hands them to workers and applies their results
-- to the state of the repository, the file of internal/gocli/start_work.go. The queue
-- (internal/gocli/start_work.go) orders the issues that are ready for implementation. The
-- repository lock (internal/gocli/repo_access_lock.go) lets processes share a working copy by
-- lock files. The schedules (internal/gocli/scout_schedule.go) say when a scout role is due. The
-- retention (internal/gocli/dismissed_retention.go) deletes and purges dismissed items by their
-- age. The TOML functions (internal/gocli/toml.go) read and write single keys of configuration
-- files. The jobs of the scouts (internal/gocli/scout_jobs.go) are changed by a user's actions,
-- by the runs behind them and by a restart. The queue and the retention read the same state file
-- as the scheduler, and each is modelled on the fields of it that it uses.
--
-- Prelude has the shared names, Boolean tests, lists, texts (strings.TrimSpace), integers,
-- decimal numbers (strconv.Atoi), the cut of a text at a character and association lists, which
-- stand for Go maps: a missing key is none, and where the code reads the zero value, the zero
-- value.
--
-- Runtime models cmd/nana-runtime/main.go. State has the records and the error values; Lease has
-- acquireAuthority and renewAuthority; Dispatch has queueDispatch, markNotified, markDelivered
-- and markFailed; Mailbox has the mailbox methods; Command has the decoding and execution of
-- processRawCommand with its events and dirty flags; Replay has replayEvent; Snapshot has
-- snapshot, deriveReadiness, dispatchBacklog and compact; Files has the state directory,
-- persist, writeCompatibilityView, persistEventLog, loadRuntimeEngineWithOptions and the exec
-- and init commands of runCLI; Append has findJSONArrayAppendPosition on a list of bytes. An
-- engine is a record, a method returns the new engine and an error value, a record that a method
-- writes through a pointer is the first of its id in the slice, and a file is a value, so that
-- the bytes written, the rename of the atomic write, and failing writes are not modelled.
-- encoding/json is a parameter (Codec), and the times are arguments. The modules Atomic,
-- Holding, Lifecycle, Rebuild, Durable, Counts, Readiness, Requeue and Position are about these
-- definitions.
--
-- Scheduler models internal/gocli/start_scheduler.go with the parts of start_work.go,
-- start_triage.go, start_planned.go, scout_jobs.go, codex_rate_limit.go, github_defaults.go,
-- start_tasks.go and managed_prompt_recovery.go (all in internal/gocli) that it reads. State has
-- the records, with the fields that the modelled code reads or writes, the maps and the errors;
-- Begin has markTaskStarted; Failure has handleServiceTaskFailure; Triage has
-- applyStartWorkTriageResult; Reconcile, Launch and Outcome have applyTaskResult by the kind of
-- the task; Service has upsertServiceTask, serviceTaskReady, triageDependencyKeys and
-- serviceTaskPriority; Select has selectNextTask and nextStartRepoIndex; Sync has
-- syncServiceTasks, by the loop over the stored tasks (Reset) and what is queued behind it
-- (Due); Queues has buildServiceQueue (Recovery, Offers), buildImplementationQueue and
-- buildScoutJobQueue (Implementation), with the identifiers of the listed tasks (Identifiers),
-- and nextTask behind the read of the state. What the recovery records and the database answer
-- is an argument, and so is the time that a text parses to; a sort is an insertion sort by the
-- comparison of the code. Slots has availableWorkerSlots with startWorkImplementationInProgress,
-- and the loop of run over the free workers. The error that a write of the state file returns is
-- an argument, and the state in memory is changed before the write as in the code. Each function
-- is taken under the lock of the state, behind the read of the file by withPersistedStateLock;
-- in a sequence of events (Run) the state in memory passes from one to the next, and that the
-- file is read again, which another program may have written, is not modelled. Attempts are
-- natural numbers and priorities too. An error text is that of the worker, and the texts that
-- fmt.Errorf adds around it are the constructors of StepError. Workers has
-- runStartRepoCyclesSharedWorkers with nextStartRepoTask, over a record of the operations that
-- it calls on a coordinator, which Workers.Coordinators fills with those above: a list of
-- completions, each with the place of its task among those in flight, is the order in which the
-- workers answer, and what the coordinators read is an argument; the returned errors are not
-- sorted. Stored, Attempts, Writes, Kept, Run, Retry, Lifetime, Pause, Exhausted, Turns, Rounds,
-- Slots.Busy, Slots.Bounds and the other children of Workers, Sync and Queues are about these
-- definitions.
--
-- Queue models the priorities and the implementation queue of internal/gocli/start_work.go, with
-- normalizeGithubAutomationMode of internal/gocli/github_defaults.go. Priority has
-- startWorkManualPriority, startWorkResolvePriority, startWorkEffectivePriority and
-- startWorkIssueHasFreshPriority, with Go's int as an integer where a negative value makes a
-- difference; Order has startWorkIssueReadyForImplementation, the automation modes and labels
-- with strings.ToLower as far as its result is ASCII, and startWorkBuildImplementationQueue with
-- slices.SortFunc as an insertion sort. The issues of the state are the list of a map's values
-- in any order, and the time that a schedule parses to stands for it. Wanted, Sorted and Labels
-- are about these definitions.
--
-- RepoLock models internal/gocli/repo_access_lock.go. Record has the record of a lock, its label
-- and its age; World has the lock files of one repository, the clock and the processes, each
-- named by its token, with the point of acquireRepoAccessLock, Release or DowngradeToRead at
-- which it stands. A turn of a process is its next operation on the files: the creation of a
-- file and the write of its record are two, while cleanupStaleRepoAccessLocks and
-- listRepoAccessReaders are one each. A file between its creation and the write is blank, and a
-- read removes it, as one that does not decode. The heartbeat, a crash, the clock and a new call
-- are events of their own, so that a list of events is any interleaving. File operations
-- succeed, but for the creation of a file that exists; the time that a timestamp parses to
-- stands for it; a token is one that the owner gives. The errors that Release and
-- DowngradeToRead return, and the snapshots of all locks, are left out. Sound, Keeps, Fresh,
-- Moves, Turns, Steps, Exclusion, Abandoned and Alone are about these definitions.
--
-- Retention models internal/gocli/dismissed_retention.go. Days has the normalizers and the
-- resolved days of the settings, with Go's int as an integer; Items has
-- maintainDismissedStartWorkStateItems and the loop of maintainDismissedScoutPickupItems over
-- items with the fields that the passes read or write, retentionCutoff,
-- retentionTimestampExpired and the report with merge and total. A time is in nanoseconds from
-- 1970 on, the time that a timestamp parses to stands for it, and a cutoff is the window before
-- the pass. The pass over work items, which is SQL, is left out. Passes, Counted and Totals are
-- about these definitions.
--
-- Schedule models internal/gocli/scout_schedule.go: normalizeScoutSchedule,
-- effectiveScoutSchedule, recordSuccessfulScoutRun and scoutScheduleDecisionForRole, where the
-- count of the outstanding items and what the read of the file gives are arguments, and times
-- are as in Retention. Schedule.Spacing is about these definitions.
--
-- Toml models internal/gocli/toml.go on texts, all of it: UpsertTopLevelTomlString,
-- ReadTopLevelTomlString and ReadTopLevelTomlInt with what they call. Toml.Text has the
-- functions of the package strings that they use, by clauses. Lines, Assigned, File, Blank and
-- RoundTrip are about these definitions.
--
-- ScoutJobs models functions of internal/gocli/scout_jobs.go on one job, and the recovery at a
-- restart on the jobs of a state, with normalizeScoutDestination (improve.go) and
-- localWorkIsStaleCleanupError (work_local.go): Recovery has startWorkScoutJobNormalizeRecovery
-- and the ways in which a job is recovered, Actions has mutateStartWorkScoutJob between its read
-- and its write, Stale has reconcileStartWorkScoutJobRunState and
-- recoverStartWorkScoutJobsFromStaleManifests, where the manifest that is read, the times, and
-- whether the run of each job can be started again are arguments. Events, Normal and Recovered
-- are about these definitions.
--
-- All functions are total by structural recursion. Fuel bounds the chunks that
-- findJSONArrayAppendPosition reads, by the size of the file, which is enough since each chunk
-- has a byte, the calls in Scheduler.Turns, by the number of the queued tasks, and the inner
-- loop over the workers, by the free workers and the repositories.
--
-- Not modelled: the mirror of the issues in refreshRepoState, the recovery of stale jobs, the
-- rest of the loop over one repository (run), the rest of internal/gocli, which calls GitHub,
-- git, SQLite and agents, and the other programs in cmd.
pub mod Prelude
pub mod Runtime
pub mod Queue
pub mod RepoLock
pub mod Retention
pub mod Schedule
pub mod Scheduler
pub mod Toml
pub mod ScoutJobs
