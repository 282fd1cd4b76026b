-- ===== src/State/Apply.antt =====
-- internal/state/state.go: `charge`, `Apply` and `Fold`. A handler that returns an error has changed
-- nothing that a caller keeps: `Fold` gives up.
use age_of_agents.Base.{
  ℕ, String, ◌==◌, not, Option, none, some, List, [], ◌∷◌, ◌++◌, is_some, if◌then◌else◌,
}
use Prim.Native.String.{◌++◌ as str_append}
use age_of_agents.Base.Dict.{get, put, modify}
use age_of_agents.Api.EventType.{EventType}
use age_of_agents.Api.Payloads.{
  GoalSubmittedPayload, TicketCreatedPayload, MergedPayload, BudgetExhaustedPayload,
}
use age_of_agents.Api.Event.{Event, Body}
use age_of_agents.State.Model.{Charge, Goal, Ticket, State, new}
use age_of_agents.State.Spend.{add, charge_of}
use age_of_agents.State.Handlers.{
  new_ticket, new_goal, on_decomposed, on_ready, on_claimed, on_work_started, on_heartbeat,
  on_proposal, on_verification_failed, on_merged, on_ticket_failed, on_approval_requested,
  on_approval_granted, on_approval_denied, on_worker_restarted, on_invalidated, on_ticket_amended,
  on_goal_merged, on_budget_exceeded, on_goal_amended, on_goal_cancelled, on_delivered,
  on_delivery_failed,
}
use age_of_agents.State.Sessions.{apply_session_observed, apply_session_checked}

pub data ApplyError : Type 0 where
  decode_payload : EventType → ApplyError
  decode_snapshot : ApplyError
  unknown_type : String → ℕ → ApplyError

pub data Result {ℓ} (A : Type ℓ) : Type ℓ where
  ok : A → Result A
  err : ApplyError → Result A

infixl 5 ◌>>=◌
abbrev pub ◌>>=◌ {ℓ κ} : {A : Type ℓ} {B : Type κ} → Result A → (A → Result B) → Result B
ok a >>= f = f a
err e >>= f = err e

abbrev pub add_to_ticket : Charge → Ticket → Ticket
add_to_ticket c t = record t { spend = add t.spend c }

abbrev pub add_to_goal : Charge → Goal → Goal
add_to_goal c g = record g { spend = add g.spend c }

-- charge
unfoldable pub charge : String → Charge → State → State
charge ticket_id c s = elim (get ticket_id s.tickets) [
  | none ↦ s
  | some t ↦ record s {
    tickets = modify ticket_id (add_to_ticket c) s.tickets;
    spend = add s.spend c;
    goals = modify t.goal_id (add_to_goal c) s.goals;
  }
]

-- BudgetWindow (budget.go)
unfoldable pub budget_window : String → String → String
budget_window scope day = if scope == "day" then str_append scope (str_append ":" day) else scope

abbrev pub with_ticket : String → (Ticket → Ticket) → State → State
with_ticket id f s = record s { tickets = modify id f s.tickets }

abbrev pub with_goal : String → (Goal → Goal) → State → State
with_goal id f s = record s { goals = modify id f s.goals }

abbrev pub restore : Option State → Result State
restore none = err decode_snapshot
restore (some s) = ok s

module _ (seq ts : ℕ) where
  unfoldable pub add_goal : GoalSubmittedPayload → State → State
  unfolding new_goal
  add_goal p s =
      if is_some (get p.goal_id s.goals)
      then s
      else record s { goals = put p.goal_id (new_goal seq ts p) s.goals }

  -- case GoalSubmitted
  unfoldable pub apply_goal_submitted : GoalSubmittedPayload → State → State
  unfolding add_goal
  apply_goal_submitted p s =
      if not (p.idempotency_key == "")
      then if is_some (get p.idempotency_key s.key_to_goal)
        then s
        else add_goal p (record s { key_to_goal = put p.idempotency_key p.goal_id s.key_to_goal })
      else add_goal p s

  unfoldable pub add_ticket : TicketCreatedPayload → State → State
  unfolding new_ticket
  add_ticket p s = if is_some (get p.ticket_id s.tickets) then s else record s {
    tickets = put p.ticket_id (new_ticket ts p) s.tickets;
    ticket_order = s.ticket_order ++ p.ticket_id ∷ [];
  }

  -- case TicketCreated
  unfoldable pub apply_ticket_created : TicketCreatedPayload → State → State
  unfolding add_ticket
  apply_ticket_created p s =
      if not (p.idempotency_key == "")
      then if is_some (get p.idempotency_key s.key_to_ticket)
        then s
        else add_ticket p
            (record s { key_to_ticket = put p.idempotency_key p.ticket_id s.key_to_ticket })
      else add_ticket p s

  -- case Merged; the Goal is that of the ticket.
  unfoldable pub apply_merged : MergedPayload → State → State
  apply_merged p s = elim (get p.ticket_id s.tickets) [
    | none ↦ s
    | some t ↦
        with_goal t.goal_id (on_goal_merged seq ts p)
          (with_ticket p.ticket_id (on_merged seq ts p) s)
  ]

  -- case BudgetExhausted
  unfoldable pub apply_budget_exhausted : BudgetExhaustedPayload → State → State
  apply_budget_exhausted p s = record s {
    budgets_exhausted = put (budget_window p.scope p.day) seq s.budgets_exhausted;
  }

  -- The three types whose payload the replay does not read.
  abbrev pub apply_undecoded : EventType → State → Result State
  apply_undecoded EventType.verification_passed s = ok s
  apply_undecoded EventType.regression_escaped s = ok s
  apply_undecoded EventType.worker_stalled s = ok s
  apply_undecoded (EventType.unknown name) s = err (unknown_type name seq)
  apply_undecoded t s = err (decode_payload t)

  -- The `switch e.Type` of Apply.
  unfoldable pub apply_body : Body → State → Result State
  apply_body (Body.state_snapshot unmarshal) s = restore (unmarshal s)
  apply_body (Body.goal_submitted p) s = ok (apply_goal_submitted p s)
  apply_body (Body.ticket_created p) s = ok (apply_ticket_created p s)
  apply_body (Body.ticket_decomposed p) s = ok (with_ticket p.ticket_id (on_decomposed seq ts p) s)
  apply_body (Body.ticket_ready p) s = ok (with_ticket p.ticket_id (on_ready seq ts) s)
  apply_body (Body.ticket_claimed p) s = ok (with_ticket p.ticket_id (on_claimed seq ts p) s)
  apply_body (Body.work_started p) s = ok (with_ticket p.ticket_id (on_work_started seq ts) s)
  apply_body (Body.heartbeat p) s = ok (with_ticket p.ticket_id (on_heartbeat seq ts) s)
  apply_body (Body.proposal_submitted p) s = ok (with_ticket p.ticket_id (on_proposal seq ts p) s)
  apply_body (Body.verification_passed p) s = ok s
  apply_body (Body.verification_failed p) s =
      ok (with_ticket p.ticket_id (on_verification_failed seq ts p) s)
  apply_body (Body.merged p) s = ok (apply_merged p s)
  apply_body (Body.ticket_failed p) s = ok (with_ticket p.ticket_id (on_ticket_failed seq ts p) s)
  apply_body (Body.approval_requested p) s =
      ok (with_ticket p.ticket_id (on_approval_requested seq ts) s)
  apply_body (Body.approval_granted p) s =
      ok (with_ticket p.ticket_id (on_approval_granted seq ts) s)
  apply_body (Body.approval_denied p) s = ok (with_ticket p.ticket_id (on_approval_denied seq ts) s)
  apply_body (Body.goal_budget_exceeded p) s =
      ok (with_goal p.goal_id (on_budget_exceeded seq ts) s)
  apply_body (Body.goal_amended p) s = ok (with_goal p.goal_id (on_goal_amended seq ts p) s)
  apply_body (Body.goal_cancelled p) s = ok (with_goal p.goal_id (on_goal_cancelled seq ts) s)
  apply_body (Body.delivered p) s = ok (with_goal p.goal_id (on_delivered seq ts p) s)
  apply_body (Body.delivery_failed p) s = ok (with_goal p.goal_id (on_delivery_failed seq ts p) s)
  apply_body (Body.regression_escaped p) s = ok s
  apply_body (Body.worker_stalled p) s = ok s
  apply_body (Body.worker_restarted p) s =
      ok (with_ticket p.ticket_id (on_worker_restarted seq ts p) s)
  apply_body (Body.ticket_invalidated p) s =
      ok (with_ticket p.ticket_id (on_invalidated seq ts p) s)
  apply_body (Body.ticket_amended p) s = ok (with_ticket p.ticket_id (on_ticket_amended seq ts p) s)
  apply_body (Body.budget_exhausted p) s = ok (apply_budget_exhausted p s)
  apply_body (Body.session_observed p) s = ok (apply_session_observed seq ts p s)
  apply_body (Body.session_checked p) s = ok (apply_session_checked seq ts p s)
  apply_body (Body.undecoded t) s = apply_undecoded t s

abbrev pub charge_if : Option (String × Charge) → State → State
charge_if none s = s
charge_if (some (id, c)) s = charge id c s

-- Apply: the switch, then the charge, then the sequence number.
unfoldable pub apply : Event → State → Result State
apply e s = do
  t ← apply_body e.seq e.timestamp e.body s
  ok (record (charge_if (charge_of e) t) { last_seq = e.seq })

unfoldable pub fold_from : List Event → State → Result State
fold_from [] s = ok s
fold_from (e ∷ es) s = apply e s >>= fold_from es

-- Fold
unfoldable pub fold : List Event → Result State
unfolding fold_from
fold es = fold_from es new
