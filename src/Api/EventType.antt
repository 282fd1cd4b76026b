-- ===== src/Api/EventType.antt =====
-- pkg/api/events.go: the type `EventType` and its constants. `unknown` is any other text.
use age_of_agents.Base.{String}

pub data EventType : Type 0 where
  goal_submitted : EventType
  ticket_created : EventType
  ticket_decomposed : EventType
  ticket_ready : EventType
  ticket_claimed : EventType
  work_started : EventType
  heartbeat : EventType
  proposal_submitted : EventType
  verification_passed : EventType
  verification_failed : EventType
  merged : EventType
  ticket_failed : EventType
  worker_stalled : EventType
  worker_restarted : EventType
  approval_requested : EventType
  approval_granted : EventType
  approval_denied : EventType
  goal_budget_exceeded : EventType
  regression_escaped : EventType
  goal_amended : EventType
  goal_cancelled : EventType
  delivered : EventType
  delivery_failed : EventType
  state_snapshot : EventType
  ticket_invalidated : EventType
  ticket_amended : EventType
  budget_exhausted : EventType
  session_observed : EventType
  session_checked : EventType
  unknown : String → EventType
