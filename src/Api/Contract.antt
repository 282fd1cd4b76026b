-- ===== src/Api/Contract.antt =====
-- pkg/api/contract.go: goal outcomes and conditions, as the replayed state reports them.
use age_of_agents.Base.{ℕ, String}

-- The `Outcome…` constants; an id that names no Goal reports "", here `none` of an `Option`.
pub data Outcome : Type 0 where
  queued running awaiting_approval merged failed cancelled delivered : Outcome

pub data ConditionType : Type 0 where
  accepted verified delivered complete : ConditionType

pub data ConditionStatus : Type 0 where
  is_true is_false unknown : ConditionStatus

pub record Condition : Type 0 where
  pub kind : ConditionType
  pub status : ConditionStatus
  pub reason : String
  pub message : String
  pub last_transition_time : ℕ
