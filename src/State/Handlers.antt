-- ===== src/State/Handlers.antt =====
-- internal/state/state.go: what each event of `Apply` does to the ticket or the Goal that it names. A
-- handler is the body of the `if t := s.Tickets[…]; t != nil` of its case, its guards included.
use age_of_agents.Base.{
  ℕ, suc, String, ◌==◌, not, ◌&&◌, ◌||◌, true, false, List, [], ◌∷◌, ◌++◌, keep, is_empty,
  if◌then◌else◌,
}
use Prim.Native.String.{◌++◌ as str_append}
use age_of_agents.Api.Payloads.{
  GoalSubmittedPayload, TicketCreatedPayload, TicketDecomposedPayload, TicketClaimedPayload,
  ProposalSubmittedPayload, VerificationFailedPayload, MergedPayload, TicketFailedPayload,
  WorkerRestartedPayload, GoalAmendedPayload, DeliveredPayload, DeliveryFailedPayload,
  TicketInvalidatedPayload, TicketAmendedPayload,
}
use age_of_agents.State.Model.{
  pending, ready, claimed, running, proposed, awaiting, merged, failed, decomposed, is_pending,
  is_dispatchable, is_open, is_proposed, is_awaiting, Goal, Ticket, no_spend,
}

-- removeWorker
unfoldable pub remove_worker : List String → String → List String
remove_worker workers worker = keep (λ w. not (w == worker)) workers

-- TicketCreated: the ticket that it makes.
unfoldable pub new_ticket : ℕ → TicketCreatedPayload → Ticket
new_ticket ts p = record {
  id = p.ticket_id;
  goal_id = p.goal_id;
  title = p.title;
  depends_on = p.depends_on;
  children = [];
  idempotency_key = p.idempotency_key;
  status = pending;
  worker = "";
  active_workers = [];
  attempts = 0;
  branch = "";
  commit = "";
  summary = "";
  trace = "";
  depth = p.depth;
  amendments = [];
  approved = false;
  rejected = false;
  decided_seq = 0;
  failed_seq = 0;
  last_activity = ts;
  last_fail_reason = "";
  last_fail_output = "";
  same_fail_count = 0;
  worktree = "";
  spend = no_spend;
}

-- GoalSubmitted: the Goal that it makes.
unfoldable pub new_goal : ℕ → ℕ → GoalSubmittedPayload → Goal
new_goal seq ts p = record {
  id = p.goal_id;
  text = p.text;
  source = p.source;
  ref = p.ref;
  by = p.by;
  submitted_at = ts;
  submitted_seq = seq;
  amendments = [];
  spend = no_spend;
  budget_exceeded = false;
  cancelled = false;
  cancelled_seq = 0;
  branch = "";
  delivered = false;
  pr_url = "";
  delivery_error = "";
  delivery_failed_seq = 0;
}

module _ (seq ts : ℕ) where
  unfoldable pub on_decomposed : TicketDecomposedPayload → Ticket → Ticket
  on_decomposed p t = record t {
    status = decomposed;
    active_workers = [];
    children = p.children;
    last_activity = ts;
  }

  unfoldable pub on_ready : Ticket → Ticket
  on_ready t = if is_pending t.status then record t { status = ready } else t

  unfoldable pub on_claimed : TicketClaimedPayload → Ticket → Ticket
  on_claimed p t = record t {
    status = claimed;
    worker = p.worker;
    active_workers = t.active_workers ++ p.worker ∷ [];
    attempts = suc t.attempts;
    last_activity = ts;
  }

  unfoldable pub on_work_started : Ticket → Ticket
  on_work_started t = record t { status = running; last_activity = ts }

  unfoldable pub on_heartbeat : Ticket → Ticket
  on_heartbeat t = record t { last_activity = ts }

  unfoldable pub on_proposal : ProposalSubmittedPayload → Ticket → Ticket
  unfolding remove_worker
  on_proposal p t =
      let left = record t { active_workers = remove_worker t.active_workers p.worker } in
      let taken =
        if is_open t.status
        then record left {
          status = proposed;
          worker = p.worker;
          branch = p.branch;
          commit = p.commit;
          summary = p.summary;
          trace = p.trace;
        }
        else left in
      record taken { last_activity = ts }

  -- The streak of consecutive failures with one reason, as a verification failure counts it.
  unfoldable pub count_failure : String → Ticket → Ticket
  count_failure reason t =
      if not (reason == "") && reason == t.last_fail_reason
      then record t { same_fail_count = suc t.same_fail_count }
      else record t { last_fail_reason = reason; same_fail_count = 1 }

  unfoldable pub on_verification_failed : VerificationFailedPayload → Ticket → Ticket
  unfolding remove_worker count_failure
  on_verification_failed p t =
      let left = record t { active_workers = remove_worker t.active_workers p.worker } in
      let next = if is_empty left.active_workers then ready else running in
      let moved =
        if is_proposed t.status && t.worker == p.worker
        then record left { status = next }
        else if is_open t.status
        then record left { status = next }
        else left in
      record (count_failure p.reason moved) {
        last_fail_output = p.output;
        worker = "";
        branch = "";
        commit = "";
        summary = "";
        trace = "";
        last_activity = ts;
      }

  unfoldable pub on_merged : MergedPayload → Ticket → Ticket
  on_merged p t = record t {
    status = merged;
    active_workers = [];
    commit = p.commit;
    last_activity = ts;
  }

  unfoldable pub on_ticket_failed : TicketFailedPayload → Ticket → Ticket
  unfolding remove_worker
  on_ticket_failed p t =
      let left = record t { active_workers = remove_worker t.active_workers p.worker } in
      let moved =
        if ((is_proposed t.status || is_awaiting t.status) && t.worker == p.worker)
          || is_open t.status
        then if is_empty left.active_workers
          then record left { status = failed; failed_seq = seq }
          else record left { status = running }
        else left in
      let stamped = record moved { last_activity = ts } in
      let noted =
        if not (p.reason == "") then record stamped { last_fail_reason = p.reason } else stamped in
      record noted { worktree = p.worktree }

  unfoldable pub on_approval_requested : Ticket → Ticket
  on_approval_requested t =
      if is_proposed t.status then record t { status = awaiting; last_activity = ts } else t

  unfoldable pub on_approval_granted : Ticket → Ticket
  on_approval_granted t =
      if is_awaiting t.status
      then record t { status = proposed; approved = true; decided_seq = seq; last_activity = ts }
      else t

  unfoldable pub on_approval_denied : Ticket → Ticket
  on_approval_denied t =
      if is_awaiting t.status
      then record t {
        status = failed;
        rejected = true;
        decided_seq = seq;
        failed_seq = seq;
        last_activity = ts;
      }
      else t

  -- The streak of failures, as a restart with a reason counts it.
  unfoldable pub carry_failure : String → Ticket → Ticket
  carry_failure reason t =
      if not (reason == "")
      then record (if reason == t.last_fail_reason
          then record t { same_fail_count = suc t.same_fail_count }
          else record t { last_fail_reason = reason; same_fail_count = 1 }) {
            last_fail_output = reason;
          }
      else t

  unfoldable pub on_worker_restarted : WorkerRestartedPayload → Ticket → Ticket
  unfolding remove_worker carry_failure
  on_worker_restarted p t =
      let left = record t { active_workers = remove_worker t.active_workers p.worker } in
      let moved =
        if is_empty left.active_workers && is_open t.status
        then record left { status = ready }
        else left in
      carry_failure p.reason
        (record moved { worker = ""; branch = ""; commit = ""; trace = ""; last_activity = ts })

  unfoldable pub on_invalidated : TicketInvalidatedPayload → Ticket → Ticket
  unfolding remove_worker
  on_invalidated p t =
      let left = record t { active_workers = remove_worker t.active_workers p.worker } in
      let moved = if is_dispatchable t.status then record left { status = pending } else left in
      let cleared = record moved {
        worker = "";
        branch = "";
        commit = "";
        trace = "";
        last_activity = ts;
      } in
      if not (p.reason == "")
      then record cleared { last_fail_reason = str_append "invalidated: " p.reason }
      else cleared

  unfoldable pub on_ticket_amended : TicketAmendedPayload → Ticket → Ticket
  on_ticket_amended p t =
      let titled = if not (p.title == "") then record t { title = p.title } else t in
      let guided =
        if not (p.guidance == "")
        then record titled { amendments = titled.amendments ++ p.guidance ∷ [] }
        else titled in
      record guided { last_activity = ts }

  -- A merge in pull-request mode names the Goal branch that it landed on.
  unfoldable pub on_goal_merged : MergedPayload → Goal → Goal
  on_goal_merged p g = if not (p.branch == "") then record g { branch = p.branch } else g

  unfoldable pub on_budget_exceeded : Goal → Goal
  on_budget_exceeded g = record g { budget_exceeded = true }

  unfoldable pub on_goal_amended : GoalAmendedPayload → Goal → Goal
  on_goal_amended p g =
      if not (p.guidance == "")
      then record g { amendments = g.amendments ++ p.guidance ∷ [] }
      else g

  unfoldable pub on_goal_cancelled : Goal → Goal
  on_goal_cancelled g =
      if not g.cancelled then record g { cancelled = true; cancelled_seq = seq } else g

  unfoldable pub on_delivered : DeliveredPayload → Goal → Goal
  on_delivered p g = record g {
    delivered = true;
    pr_url = p.url;
    delivery_error = "";
    delivery_failed_seq = 0;
  }

  unfoldable pub on_delivery_failed : DeliveryFailedPayload → Goal → Goal
  on_delivery_failed p g = record g { delivery_error = p.reason; delivery_failed_seq = seq }
