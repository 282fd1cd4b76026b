-- ===== src/State/Examples.antt =====
-- Runs of internal/state/state.go and internal/state/budget.go on a small log, with the theorems about
-- them at work.
mod Tasks
mod Goals
use age_of_agents.Base.{
  ℕ, zero, suc, ◌<◌, String, ◌==◌, Bool, true, false, ◌≡◌, ◌≢◌, ◌⊎◌, ◌↔◌, refl, Option, none, some,
  List, [], ◌∷◌, All, arith, eq_iff, inl, inr, if◌then◌else◌, get_or,
}
use age_of_agents.Base.Dict.{get, put, modify, total}
use age_of_agents.Base.Partial.{Elem}
use age_of_agents.Api.EventType.{EventType}
use age_of_agents.Api.Payloads.{
  GoalSubmittedPayload, TicketCreatedPayload, TicketDecomposedPayload, TicketClaimedPayload,
  ProposalSubmittedPayload, MergedPayload, GoalCancelledPayload, ApprovalGrantedPayload,
  ApprovalDeniedPayload,
}
use age_of_agents.Api.Event.{Event, Body, ChargeKeys}
use age_of_agents.State.Model.{
  Spend, no_spend, is_terminal, TicketStatus, pending, ready, claimed, running, proposed, awaiting,
  merged, failed, decomposed, Goal, Ticket, State, new,
}
use age_of_agents.State.Handlers.{new_ticket, new_goal}
use age_of_agents.State.Spend.{add, charge_of}
use age_of_agents.State.Handlers.{on_claimed, on_proposal, on_merged, on_goal_merged}
use age_of_agents.State.Apply.{
  Result, ok, err, fold, fold_from, apply, apply_body, apply_merged, charge, apply_ticket_created,
  apply_goal_submitted, add_goal, add_ticket,
}
use age_of_agents.State.Closed.{AllRestore}
use age_of_agents.State.Indexed.{IsIndexed, fold-IsIndexed, keys_are_unique}
use age_of_agents.State.Balanced.{IsBalanced, fold-IsBalanced}
use age_of_agents.State.Budget.{usage_of}
use age_of_agents.State.Budget.Replay.{is_snapshot, ChargesKnown, usage_of-fold}
use age_of_agents.State.Replay.{is_ok, all_readable, fold_from-is_ok}
use age_of_agents.State.Queries.{
  ordered_tickets, goal_cancelled, ticket_complete, ticket_dead, newly_ready, blocked,
}
use age_of_agents.State.Completion.{
  Complete, Dead, IsRanked, ticket_complete-decides, ticket_dead-decides,
}
use age_of_agents.State.Answers.{newly_ready_decides, blocked_decides, promoted_not_blocked}

abbrev pub goal_submitted : GoalSubmittedPayload
goal_submitted = record {
  goal_id = "g";
  text = "add a cache";
  source = "cli";
  idempotency_key = "k";
  ref = "";
  by = "ann";
}

abbrev pub created : String → String → List String → TicketCreatedPayload
created id key deps = record {
  ticket_id = id;
  goal_id = "g";
  title = id;
  depends_on = deps;
  idempotency_key = key;
  created_by = "scheduler";
  depth = 0;
}

abbrev proposal : ProposalSubmittedPayload
proposal = record {
  ticket_id = "a";
  worker = "w";
  branch = "agent/a";
  commit = "c1";
  summary = "";
  trace = "";
  tokens = 70;
  model = "m";
  cost_usd = 5;
}

abbrev charged : ChargeKeys
charged = record { ticket_id = "a"; tokens = 70; model = "m"; cost_usd = 5 }

abbrev pub event : ℕ → Option ChargeKeys → Body → Event
event n keys body = record {
  seq = n;
  timestamp = n;
  actor = "orchestrator";
  body = body;
  ticket_key = none;
  charge_keys = keys;
}

abbrev merge_of_a : MergedPayload
merge_of_a = record { ticket_id = "a"; worker = "w"; commit = "c1"; branch = "" }

-- Two tasks, of which the first is proposed at a cost and merged.
abbrev pub log : List Event
log =
    event 1 none (Body.goal_submitted goal_submitted)
    ∷ event 2 none (Body.ticket_created (created "a" "ka" []))
    ∷ event 3 none (Body.ticket_created (created "b" "kb" ("a" ∷ [])))
    ∷ event 4 none (Body.ticket_claimed (record { ticket_id = "a"; worker = "w" }))
    ∷ event 5 (some charged) (Body.proposal_submitted proposal)
    ∷ event 6 none (Body.merged merge_of_a)
    ∷ []

abbrev pub priced : Spend
priced = record {
  tokens_spent = 70;
  tokens_by_model = ("m", 70) ∷ [];
  cost_usd_reported = 5;
  tokens_to_price = [];
}

abbrev pub goal : Goal
goal = record {
  id = "g";
  text = "add a cache";
  source = "cli";
  ref = "";
  by = "ann";
  submitted_at = 1;
  submitted_seq = 1;
  amendments = [];
  spend = priced;
  budget_exceeded = false;
  cancelled = false;
  cancelled_seq = 0;
  branch = "";
  delivered = false;
  pr_url = "";
  delivery_error = "";
  delivery_failed_seq = 0;
}

abbrev pub a_task : Ticket
a_task = record {
  id = "a";
  goal_id = "g";
  title = "a";
  depends_on = [];
  children = [];
  idempotency_key = "ka";
  status = merged;
  worker = "w";
  active_workers = [];
  attempts = 1;
  branch = "agent/a";
  commit = "c1";
  summary = "";
  trace = "";
  depth = 0;
  amendments = [];
  approved = false;
  rejected = false;
  decided_seq = 0;
  failed_seq = 0;
  last_activity = 6;
  last_fail_reason = "";
  last_fail_output = "";
  same_fail_count = 0;
  worktree = "";
  spend = priced;
}

abbrev pub b_task : Ticket
b_task = record {
  id = "b";
  goal_id = "g";
  title = "b";
  depends_on = "a" ∷ [];
  children = [];
  idempotency_key = "kb";
  status = pending;
  worker = "";
  active_workers = [];
  attempts = 0;
  branch = "";
  commit = "";
  summary = "";
  trace = "";
  depth = 0;
  amendments = [];
  approved = false;
  rejected = false;
  decided_seq = 0;
  failed_seq = 0;
  last_activity = 3;
  last_fail_reason = "";
  last_fail_output = "";
  same_fail_count = 0;
  worktree = "";
  spend = no_spend;
}

-- What the log replays to.
abbrev pub replayed : State
replayed = record {
  goals = ("g", goal) ∷ [];
  tickets = ("a", a_task) ∷ ("b", b_task) ∷ [];
  ticket_order = "a" ∷ "b" ∷ [];
  key_to_ticket = ("ka", "a") ∷ ("kb", "b") ∷ [];
  key_to_goal = ("k", "g") ∷ [];
  last_seq = 6;
  spend = priced;
  budgets_exhausted = [];
  sessions = [];
}

pub replay : fold log ≡ ok replayed
unfolding fold apply apply_body charge_of apply_merged charge modify apply_ticket_created
    apply_goal_submitted put get on_claimed on_proposal on_merged on_goal_merged add add_goal
    add_ticket new_ticket new_goal
replay = refl

pub no_snapshots : All (λ e. is_snapshot e.body ≡ false) log
no_snapshots = (refl, (refl, (refl, (refl, (refl, (refl, tt))))))

pub restores : (P : State → Type 0) → AllRestore P log
restores P = (tt, (tt, (tt, (tt, (tt, (tt, tt))))))

pub found_a : get "a" replayed.tickets ≡ some a_task
unfolding get
found_a = refl

has_key : a_task.idempotency_key ≢ ""
has_key e = ground (arith, e, eq_iff "ka" "")

keys_are_unique_example : (a_task.id) ≡ a_task.id
keys_are_unique_example =
    keys_are_unique log replayed "a" "a" a_task a_task (restores IsIndexed) replay found_a found_a
      has_key refl

fold-IsIndexed_example : IsIndexed replayed
fold-IsIndexed_example = fold-IsIndexed log replayed (restores IsIndexed) replay

-- The task graph has no decomposed task, so any ranks do.
abbrev pub flat : String → ℕ
flat id = 0

pub flat-IsRanked : IsRanked replayed flat
unfolding get
flat-IsRanked = record { below = λ id t h d. absurd (ground arith) }

pub flat_deep : (id : String) → flat id < 1
flat_deep id = omega arith

ticket_complete-decides_example :
    ((ticket_complete 1 replayed "a" ≡ some true) × Complete replayed "a")
    ⊎ ((ticket_complete 1 replayed "a" ≡ some false) × (Complete replayed "a" → ⊥))
ticket_complete-decides_example =
    ticket_complete-decides replayed flat 1 "a" flat-IsRanked (flat_deep "a")

ticket_dead-decides_example :
    ((ticket_dead 1 replayed "b" ≡ some true) × Dead replayed "b")
    ⊎ ((ticket_dead 1 replayed "b" ≡ some false) × (Dead replayed "b" → ⊥))
ticket_dead-decides_example = ticket_dead-decides replayed flat 1 "b" flat-IsRanked (flat_deep "b")

newly_ready_decides_example :
    (out : List Ticket) × (newly_ready 1 replayed ≡ some out)
    × (Elem b_task out ↔ (
        Elem b_task (ordered_tickets replayed)
        × (b_task.status ≡ pending)
        × All (Complete replayed) b_task.depends_on
        × (goal_cancelled replayed b_task ≡ false)))
newly_ready_decides_example = newly_ready_decides 1 replayed flat flat-IsRanked flat_deep b_task

no_blank : get "" replayed.tickets ≡ none
unfolding get
no_blank = refl

blocked_decides_example :
    (out : List Ticket) × (blocked 1 replayed ≡ some out)
    × (Elem b_task out ↔ (
        Elem b_task (ordered_tickets replayed)
        × (is_terminal b_task.status ≡ false)
        × ((dep : String) × Elem dep b_task.depends_on × Dead replayed dep)))
blocked_decides_example = blocked_decides 1 replayed flat flat-IsRanked flat_deep b_task no_blank

promoted_not_blocked_example :
    (promoted : List Ticket) × (given_up : List Ticket) × (newly_ready 1 replayed ≡ some promoted)
    × (blocked 1 replayed ≡ some given_up)
    × (Elem b_task promoted × Elem b_task given_up → ⊥)
promoted_not_blocked_example =
    promoted_not_blocked 1 replayed flat flat-IsRanked flat_deep b_task no_blank

fold-IsBalanced_example :
    (replayed.spend.tokens_spent ≡ total (λ t. t.spend.tokens_spent) replayed.tickets)
    × ((m : String)
        → get_or (get m replayed.spend.tokens_by_model) 0
          ≡ total (λ t. get_or (get m t.spend.tokens_by_model) 0) replayed.tickets)
    × ((m : String)
        → get_or (get m replayed.spend.tokens_to_price) 0
          ≡ total (λ t. get_or (get m t.spend.tokens_to_price) 0) replayed.tickets)
fold-IsBalanced_example = fold-IsBalanced log replayed (restores IsBalanced) replay

charges_known : ChargesKnown log new
unfolding apply apply_body charge_of apply_merged charge modify apply_ticket_created
    apply_goal_submitted put get on_claimed on_proposal on_merged on_goal_merged add add_goal
    add_ticket new_ticket new_goal
charges_known = (tt, (tt, (tt, (tt, (refl, (tt, tt))))))

usage_of-fold_example : (usage_of log (λ e. true)).spend ≡ replayed.spend
usage_of-fold_example = usage_of-fold log replayed no_snapshots charges_known replay
