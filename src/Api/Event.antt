-- ===== src/Api/Event.antt =====
-- pkg/api/events.go: the envelope of the Event Log. A payload's JSON text is present through what
-- encoding/json yields from it: `body` is the payload struct of the event's own type, or `undecoded`
-- where the payload is absent or does not decode; `ticket_key` is the decode of the key `ticket_id`
-- alone; `charge_keys` is the decode of the four keys that spend is read from. A snapshot's JSON is
-- the function that `json.Unmarshal` of it performs on a state.
use age_of_agents.Base.{ℕ, String, Option, get_or}
use age_of_agents.Api.EventType.{EventType}
use age_of_agents.Api.Payloads.{
  GoalSubmittedPayload, TicketCreatedPayload, TicketDecomposedPayload, TicketReadyPayload,
  TicketClaimedPayload, WorkStartedPayload, HeartbeatPayload, ProposalSubmittedPayload,
  VerificationPassedPayload, VerificationFailedPayload, MergedPayload, TicketFailedPayload,
  WorkerStalledPayload, WorkerRestartedPayload, ApprovalRequestedPayload, ApprovalGrantedPayload,
  ApprovalDeniedPayload, GoalBudgetExceededPayload, BudgetExhaustedPayload, GoalAmendedPayload,
  GoalCancelledPayload, DeliveredPayload, DeliveryFailedPayload, RegressionEscapedPayload,
  TicketInvalidatedPayload, TicketAmendedPayload, SessionObservedPayload, SessionCheckedPayload,
}
use age_of_agents.State.Model.{State}

pub data Body : Type 0 where
  goal_submitted : GoalSubmittedPayload → Body
  ticket_created : TicketCreatedPayload → Body
  ticket_decomposed : TicketDecomposedPayload → Body
  ticket_ready : TicketReadyPayload → Body
  ticket_claimed : TicketClaimedPayload → Body
  work_started : WorkStartedPayload → Body
  heartbeat : HeartbeatPayload → Body
  proposal_submitted : ProposalSubmittedPayload → Body
  verification_passed : VerificationPassedPayload → Body
  verification_failed : VerificationFailedPayload → Body
  merged : MergedPayload → Body
  ticket_failed : TicketFailedPayload → Body
  worker_stalled : WorkerStalledPayload → Body
  worker_restarted : WorkerRestartedPayload → Body
  approval_requested : ApprovalRequestedPayload → Body
  approval_granted : ApprovalGrantedPayload → Body
  approval_denied : ApprovalDeniedPayload → Body
  goal_budget_exceeded : GoalBudgetExceededPayload → Body
  regression_escaped : RegressionEscapedPayload → Body
  goal_amended : GoalAmendedPayload → Body
  goal_cancelled : GoalCancelledPayload → Body
  delivered : DeliveredPayload → Body
  delivery_failed : DeliveryFailedPayload → Body
  state_snapshot : (State → Option State) → Body
  ticket_invalidated : TicketInvalidatedPayload → Body
  ticket_amended : TicketAmendedPayload → Body
  budget_exhausted : BudgetExhaustedPayload → Body
  session_observed : SessionObservedPayload → Body
  session_checked : SessionCheckedPayload → Body
  undecoded : EventType → Body

-- e.Type
unfoldable pub event_type : Body → EventType
event_type (goal_submitted p) = EventType.goal_submitted
event_type (ticket_created p) = EventType.ticket_created
event_type (ticket_decomposed p) = EventType.ticket_decomposed
event_type (ticket_ready p) = EventType.ticket_ready
event_type (ticket_claimed p) = EventType.ticket_claimed
event_type (work_started p) = EventType.work_started
event_type (heartbeat p) = EventType.heartbeat
event_type (proposal_submitted p) = EventType.proposal_submitted
event_type (verification_passed p) = EventType.verification_passed
event_type (verification_failed p) = EventType.verification_failed
event_type (merged p) = EventType.merged
event_type (ticket_failed p) = EventType.ticket_failed
event_type (worker_stalled p) = EventType.worker_stalled
event_type (worker_restarted p) = EventType.worker_restarted
event_type (approval_requested p) = EventType.approval_requested
event_type (approval_granted p) = EventType.approval_granted
event_type (approval_denied p) = EventType.approval_denied
event_type (goal_budget_exceeded p) = EventType.goal_budget_exceeded
event_type (regression_escaped p) = EventType.regression_escaped
event_type (goal_amended p) = EventType.goal_amended
event_type (goal_cancelled p) = EventType.goal_cancelled
event_type (delivered p) = EventType.delivered
event_type (delivery_failed p) = EventType.delivery_failed
event_type (state_snapshot f) = EventType.state_snapshot
event_type (ticket_invalidated p) = EventType.ticket_invalidated
event_type (ticket_amended p) = EventType.ticket_amended
event_type (budget_exhausted p) = EventType.budget_exhausted
event_type (session_observed p) = EventType.session_observed
event_type (session_checked p) = EventType.session_checked
event_type (undecoded t) = t

-- The struct that ChargeOf decodes.
pub record ChargeKeys : Type 0 where
  pub ticket_id : String
  pub tokens : ℕ
  pub model : String
  pub cost_usd : ℕ

pub record Event : Type 0 where
  pub seq : ℕ
  pub timestamp : ℕ
  pub actor : String
  pub body : Body
  pub ticket_key : Option String
  pub charge_keys : Option ChargeKeys

-- TicketID
unfoldable pub ticket_id : Event → String
ticket_id e = get_or e.ticket_key ""
