-- ===== src/Lib.antt =====
-- Age of Agents runs coding agents in parallel and merges what they propose behind a verifier. Its
-- only memory is the Event Log: every decision is an event, and the state that the Scheduler, the
-- budgets and the command line work with is what replaying the log yields. The merge queue is the one
-- writer of the integration branch. This library models the replay with the queries on it, and the
-- queue with the Gate and the git operations that it runs.
--
-- The files and the code they model:
--
--   Base       shared names; Base/Dict is Go's map, Base/Partial the loops with an early return that
--              may run out of fuel.
--   Api        pkg/api: EventType and Payloads are the vocabulary of events.go, Event its envelope,
--              Contract the outcomes and conditions of contract.go.
--   State      internal/state. Model holds the data of state.go, spend.go and sessions.go. Handlers has
--              one function for each case of the switch in State.Apply, Sessions those of sessions.go,
--              Spend ChargeOf and Spend.Add; Apply puts them together: `apply` is State.Apply, `fold`
--              is Fold. Queries and Outcome are the methods that the Scheduler and `aoa status` call,
--              from DepsSatisfied to GoalConditions. Cycles has HasCycle and WouldCycle. Budget is
--              budget.go.
--   Git        internal/worktree/worktree.go (Worktree: Head, Tree, Merge, ResetHard, ChangedFiles) and
--              internal/verify/verify.go (Verify: Verifier.Run).
--   MergeQueue internal/mergequeue/mergequeue.go: `process` is Queue.Process, `dry_run` Queue.DryRun;
--              MergeQueue/Batch has Queue.ProcessBatch.
--   Invariant  internal/invariant/invariant.go: MonotonicGaplessSeq, MergeImpliesVerified,
--              MergedAtMostOnceByQueue, ApprovalGate, CancelHonored and ReplayDeterministicAndTotal.
--   Scheduler  internal/orchestrator. Scheduler itself is budget.go: `budgets_reached` is budgetsReached,
--              `budget_stop` the payloads that budgetStop emits. Of orchestrator.go, Dispatch has what
--              step 3 of ReconcileOnce starts (`wave`), dispatchable and nextBackoffWait; Rejection has
--              rejectOrFail and failAttempt; Merging has applyMergeOutcome, dropCancelled and
--              enforceCancellations; Proposals has processProposal, Spending the spend governor
--              (enforceBudgets), Decompose decompose.
--   Ledger     internal/ledger/ledger.go. Lines has scanLines and scanFrom, Ledger the rest: `sync`, `write`
--              and `with_lock` are the methods of those names, `append`, `update`, `read`, `read_from` and
--              `open_ledger` Append, Update, Read, ReadFrom and Open.
--
-- The other files under State and MergeQueue hold proofs: Closed is a rule for invariants of the
-- replay, which Indexed, Balanced and Cancelled use; Identity, GoalIdentity and Frame say what the
-- handlers leave alone; TicketView looks at the replay from one task, and Lifecycle and Decisions build
-- on it; Completion, Selection and Answers are about the queries on the task graph, and Settling,
-- Conditions and GoalReports about outcomes; Tally, Explained and Explaining say what the four conditions
-- of a Goal are to say. Under Invariant, Scan says when a loop over the log
-- finds nothing, and Checks, SingleWriter, Cancel and Replay apply it. Under Ledger, Scan and Encode say
-- what the bytes of whole and torn lines decode to, Log, Sync, Write, Durable, Refused and Open what one
-- call leaves, and Writers and Readers what follows of many. Examples run the code on small inputs.
--
-- How the model reads the code. A Go map is a list of entries in the order of first insertion; no
-- function here depends on that order but through the creation order, which the code keeps as well. A
-- pointer that may be nil is an Option, and a write through it a write to the map entry. A time is a
-- whole number of nanoseconds, a cost a whole number of picodollars and a price one of microdollars per
-- million tokens, where the source has floats, whose sums depend on the order; tokens and sequence numbers are natural numbers, where
-- the source has int. The JSON text of a payload is present through what encoding/json decodes from it:
-- an event carries the payload of its type, or that it does not decode, and beside it the decodes of
-- the keys that Event.TicketID and ChargeOf read on their own. A snapshot is the function that
-- json.Unmarshal of it performs on a state; the theorems about whole logs exclude snapshots or say what
-- they need of them.
--
-- Git, the Gate's commands, strings.TrimSpace and strings.Split are the fields of `External`, over a
-- world that they alone change. `GitLaws` and `DiffLaws` say what is relied on: reading a revision
-- and listing changed files change nothing, a hard reset to a commit that was read from HEAD checks it
-- out again, and no command of the Gate moves HEAD.
--
-- A log file is the list of its bytes. A call of the ledger takes the failures that the operating system
-- has in store for it, `Faults`: a write that fails has written some of its bytes, so a process that dies
-- in the middle of one is such a call. `Codec` is encoding/json and bytes.TrimSpace, and `CodecLaws` says
-- what the ledger needs of them: a marshalled event is one line that is not blank and is unmarshalled as
-- it was. Since the file lock puts the calls of all writers in an order, Writers runs lists of calls.
--
-- Fuel. ticketComplete and ticketDead recurse along the children of decomposed tasks, which the code
-- does without a bound; here they take fuel, and so do the queries that call them. A query that runs
-- out of it answers `none`. Where the children of each decomposed task have smaller ranks than the
-- task itself, fuel above the ranks is enough, and the theorems on these queries have an answer in
-- their conclusion.
--
-- HasCycle takes fuel as well, one for each node that it visits at most; `would_cycle` gives it one for
-- every mention of a node, which is enough.
--
-- A method of the Scheduler that appends events is a function to the list of those that it appends where
-- none of the appends fails; an append that fails ends the method there. The map from a task to its
-- checkout is an argument, with what becomes of it in `Effects`. Durations are natural numbers, without
-- the bound of an int64.
--
-- Not modelled: the rest of the Scheduler's passes (internal/orchestrator/orchestrator.go and deliver.go),
-- which drive goroutines, git and agents; the ledger's append hook, agents, configuration, locks, telemetry,
-- metrics, benchmarks and the command line; OrderedSessions, EffectiveText; the other checks of
-- internal/invariant; creating worktrees, commits, pushes and the observation of sessions in
-- internal/worktree.
pub mod Base
pub mod Api
pub mod State
pub mod Git
pub mod MergeQueue
pub mod Invariant
pub mod Scheduler
pub mod Ledger
