-- ===== src/Api/Payloads.antt =====
-- pkg/api/events.go: the payload structs. Times are nanoseconds, and a cost in dollars (a float64 in
-- the source) is a whole number of picodollars: tokens times a price in microdollars per million
-- tokens is then exact.
use age_of_agents.Base.{ℕ, String, List, Bool}

pub record GoalSubmittedPayload : Type 0 where
  pub goal_id : String
  pub text : String
  pub source : String
  pub idempotency_key : String
  pub ref : String
  pub by : String

pub record TicketCreatedPayload : Type 0 where
  pub ticket_id : String
  pub goal_id : String
  pub title : String
  pub depends_on : List String
  pub idempotency_key : String
  pub created_by : String
  pub depth : ℕ

pub record TicketDecomposedPayload : Type 0 where
  pub ticket_id : String
  pub worker : String
  pub children : List String
  pub tokens : ℕ
  pub model : String
  pub cost_usd : ℕ

pub record TicketReadyPayload : Type 0 where
  pub ticket_id : String

pub record TicketClaimedPayload : Type 0 where
  pub ticket_id : String
  pub worker : String

pub record WorkStartedPayload : Type 0 where
  pub ticket_id : String
  pub worker : String
  pub worktree : String

pub record HeartbeatPayload : Type 0 where
  pub ticket_id : String
  pub worker : String

pub record ProposalSubmittedPayload : Type 0 where
  pub ticket_id : String
  pub worker : String
  pub branch : String
  pub commit : String
  pub summary : String
  pub trace : String
  pub tokens : ℕ
  pub model : String
  pub cost_usd : ℕ

pub record VerificationPassedPayload : Type 0 where
  pub ticket_id : String
  pub worker : String
  pub tree : String

pub record VerificationFailedPayload : Type 0 where
  pub ticket_id : String
  pub worker : String
  pub reason : String
  pub output : String
  pub tree : String

pub record MergedPayload : Type 0 where
  pub ticket_id : String
  pub worker : String
  pub commit : String
  pub branch : String

pub record TicketFailedPayload : Type 0 where
  pub ticket_id : String
  pub worker : String
  pub reason : String
  pub output : String
  pub tree : String
  pub worktree : String
  pub tokens : ℕ
  pub model : String
  pub cost_usd : ℕ

pub record WorkerStalledPayload : Type 0 where
  pub ticket_id : String
  pub worker : String

pub record WorkerRestartedPayload : Type 0 where
  pub ticket_id : String
  pub worker : String
  pub reason : String
  pub tokens : ℕ
  pub model : String
  pub cost_usd : ℕ

pub record ApprovalRequestedPayload : Type 0 where
  pub ticket_id : String
  pub worker : String
  pub commit : String

pub record ApprovalGrantedPayload : Type 0 where
  pub ticket_id : String
  pub by : String
  pub reason : String

pub record ApprovalDeniedPayload : Type 0 where
  pub ticket_id : String
  pub by : String
  pub reason : String

pub record GoalBudgetExceededPayload : Type 0 where
  pub goal_id : String
  pub spent_tokens : ℕ
  pub limit : ℕ
  pub spent_usd : ℕ
  pub limit_usd : ℕ

pub record BudgetExhaustedPayload : Type 0 where
  pub scope : String
  pub day : String
  pub spent_usd : ℕ
  pub limit_usd : ℕ
  pub spent_tokens : ℕ
  pub limit_tokens : ℕ
  pub goals : ℕ
  pub limit_goals : ℕ

pub record GoalAmendedPayload : Type 0 where
  pub goal_id : String
  pub guidance : String

pub record GoalCancelledPayload : Type 0 where
  pub goal_id : String
  pub by : String
  pub reason : String

pub record DeliveredPayload : Type 0 where
  pub goal_id : String
  pub branch : String
  pub commit : String
  pub url : String

pub record DeliveryFailedPayload : Type 0 where
  pub goal_id : String
  pub branch : String
  pub reason : String

pub record RegressionEscapedPayload : Type 0 where
  pub ticket_id : String
  pub worker : String
  pub reason : String

pub record TicketInvalidatedPayload : Type 0 where
  pub ticket_id : String
  pub worker : String
  pub reason : String

pub record TicketAmendedPayload : Type 0 where
  pub ticket_id : String
  pub worker : String
  pub title : String
  pub guidance : String

pub record SessionObservedPayload : Type 0 where
  pub session_id : String
  pub path : String
  pub branch : String
  pub head : String
  pub base : String
  pub files : List String
  pub test_files : List String
  pub dirty : Bool
  pub fingerprint : String
  pub last_change : ℕ
  pub removed : Bool

pub record SessionCheckedPayload : Type 0 where
  pub session_id : String
  pub fingerprint : String
  pub after_fingerprint : String
  pub passed : Bool
  pub command : String
  pub output : String
