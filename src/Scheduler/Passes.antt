-- ===== src/Scheduler/Passes.antt =====
-- The parts of a pass of the Scheduler at work on small states.
use age_of_agents.Base.{
  ℕ, ◌+◌, ◌≤◌, String, true, false, ◌≡◌, ◌≢◌, ◌⊎◌, refl, some, List, [], ◌∷◌, ◌++◌, max, arith,
  length, get_or, inl, inr, if◌then◌else◌, ◌==◌,
}
use age_of_agents.Base.Dict.{Dict, get}
use age_of_agents.Api.Payloads.{ProposalSubmittedPayload}
use age_of_agents.Api.Event.{Body}
use age_of_agents.State.Model.{Ticket, State, new, no_spend, ready, failed}
use age_of_agents.State.Cycles.{
  would_cycle, has_cycle, dependencies, add_edges, neighbours, visit, visit_each, search, color_of,
}
use age_of_agents.State.Cycles.Exact.{would_cycle_exact}
use age_of_agents.State.Cycles.Search.{Cyclic}
use age_of_agents.Scheduler.Dispatch.{
  DispatchOptions, dispatchable, may_dispatch, next_backoff_wait, active_attempts, wave,
  mark_dispatching, wait_from, backoff_for,
}
use age_of_agents.Scheduler.Waiting.{next_backoff_wait_exact}
use age_of_agents.Scheduler.Waves.{wave-bounded, total_of, starts}
use age_of_agents.Scheduler.Rejection.{RetryOptions, Used}
use age_of_agents.Scheduler.Retries.{broke, rejected, attempts_of, attempts_of-failed}
use age_of_agents.Scheduler.Decompose.{Subtask, GraphOptions, Job, decompose}
use age_of_agents.Scheduler.Bounded.{IsBounded, decompose-IsBounded}

abbrev pub dispatch_options : DispatchOptions
dispatch_options = record { concurrency = 1; best_of_n = 1; retry_backoff = 10 }

-- A task with this id that failed once, at time 5.
abbrev pub retried : String → Ticket
retried id = record {
  id = id;
  goal_id = "g";
  title = id;
  depends_on = [];
  children = [];
  idempotency_key = "";
  status = ready;
  worker = "";
  active_workers = [];
  attempts = 1;
  branch = "";
  commit = "";
  summary = "";
  trace = "";
  depth = 0;
  amendments = [];
  approved = false;
  rejected = false;
  decided_seq = 0;
  failed_seq = 0;
  last_activity = 5;
  last_fail_reason = "";
  last_fail_output = "";
  same_fail_count = 0;
  worktree = "";
  spend = no_spend;
}

abbrev waiting : List Ticket
waiting = retried "a" ∷ retried "b" ∷ []

abbrev pub two_tasks : State
two_tasks = record new { tickets = ("a", retried "a") ∷ ("b", retried "b") ∷ [] }

waits : next_backoff_wait dispatch_options waiting 8 ≡ some 7
unfolding next_backoff_wait wait_from backoff_for
waits = refl

next_backoff_wait_exact_example :
    ((v : ℕ) → (dispatchable dispatch_options [] waiting (8 + v) ≡ []) ⊎ (7 ≤ v))
    × (dispatchable dispatch_options [] waiting (8 + 7) ≢ [])
next_backoff_wait_exact_example =
    next_backoff_wait_exact dispatch_options waiting 8 (omega arith) waits

-- An attempt of the second task whose claim is not on the log yet.
abbrev launched : Dict ℕ
launched = ("b", 1) ∷ []

abbrev runs : String → ℕ
runs k = if "b" == k then 1 else 0

abbrev two_at_once : DispatchOptions
two_at_once = record dispatch_options { concurrency = 2 }

abbrev starting : List Ticket
starting = wave two_at_once launched false two_tasks waiting 20

one_starts : starting ≡ retried "a" ∷ []
unfolding wave dispatchable may_dispatch active_attempts get backoff_for
one_starts = refl

wave-bounded_example :
    (total_of (λ k. runs k + starts starting k) two_tasks.tickets
      ≡ length starting + total_of runs two_tasks.tickets)
    × (total_of (λ k. runs k + starts starting k) two_tasks.tickets
        ≤ max 2 (total_of runs two_tasks.tickets))
    × ((k : String)
        → get_or (get k (mark_dispatching launched starting)) 0
          ≡ get_or (get k launched) 0 + starts starting k)
    × (wave two_at_once launched true two_tasks waiting 20 ≡ [])
unfolding get
wave-bounded_example =
    wave-bounded two_at_once launched two_tasks waiting 20 runs (refl, (refl, tt))
      (refl, (refl, tt)) (inl (omega arith), (inr (omega arith), tt))

abbrev pub retry_options : RetryOptions
retry_options = record { max_attempts = 3; crash_loop_threshold = 3 }

abbrev a_proposal : ProposalSubmittedPayload
a_proposal = record {
  ticket_id = "a";
  worker = "w";
  branch = "aoa/a";
  commit = "c";
  summary = "";
  trace = "";
  tokens = 0;
  model = "";
  cost_usd = 0;
}

abbrev nothing_used : Used
nothing_used = record { tokens = 0; model = ""; cost = 0 }

attempts_of-failed_example :
    (attempts_of 9 30 retry_options [] "worker/a" (retried "a") (
      broke "agent: exit 1" nothing_used
      ∷ rejected a_proposal "verification failed: go test" "" "tree"
      ∷ [])).status
    ≡ failed
attempts_of-failed_example =
    attempts_of-failed 9 30 retry_options [] "worker/a" (retried "a")
      (broke "agent: exit 1" nothing_used)
      (rejected a_proposal "verification failed: go test" "" "tree" ∷ []) refl refl (omega arith)

abbrev graph_options : GraphOptions
graph_options = record { max_graph_depth = 5; max_tickets_per_goal = 3; max_fan_out = 2 }

abbrev job : Job
job = record { ticket_id = "a"; goal_id = "g"; depth = 0 }

-- The second of these depends on the first.
abbrev subtasks : List Subtask
subtasks =
    record { local_id = "x"; title = "x"; depends_on = []; idempotency_key = "" }
    ∷ record { local_id = "y"; title = "y"; depends_on = "x" ∷ []; idempotency_key = "" }
    ∷ []

decompose-IsBounded_example :
    (bodies : List Body) × (decompose graph_options two_tasks job "worker/a" nothing_used subtasks
      ≡ some bodies)
    × IsBounded graph_options 9 30 two_tasks job bodies
decompose-IsBounded_example =
    decompose-IsBounded graph_options 9 30 two_tasks job "worker/a" nothing_used subtasks

abbrev new_edge : Dict (List String)
new_edge = ("c", "c" ∷ []) ∷ []

self_loop : would_cycle two_tasks new_edge ≡ some true
unfolding would_cycle has_cycle search visit visit_each color_of neighbours get
self_loop = refl

would_cycle_exact_example :
    ((n : String)
      → neighbours (add_edges (dependencies two_tasks.tickets) new_edge) n
        ≡ neighbours (dependencies two_tasks.tickets) n ++ neighbours new_edge n)
    × (((would_cycle two_tasks new_edge ≡ some true)
          × Cyclic (add_edges (dependencies two_tasks.tickets) new_edge))
        ⊎ ((would_cycle two_tasks new_edge ≡ some false)
            × (Cyclic (add_edges (dependencies two_tasks.tickets) new_edge) → ⊥)))
unfolding get
would_cycle_exact_example = would_cycle_exact two_tasks new_edge (refl, tt)
