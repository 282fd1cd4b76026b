-- ===== src/State/Frame.antt =====
-- What submitting a Goal leaves alone: everything that is kept about tasks.
use age_of_agents.Base.{ℕ, ◌≡◌, arith}
use age_of_agents.Api.Payloads.{GoalSubmittedPayload}
use age_of_agents.State.Model.{State}
use age_of_agents.State.Apply.{apply_goal_submitted}

-- Two states that hold the same tasks.
pub record SameTasks (s u : State) : Type 0 where
  pub same_tickets : u.tickets ≡ s.tickets
  pub same_order : u.ticket_order ≡ s.ticket_order
  pub same_keys : u.key_to_ticket ≡ s.key_to_ticket
  pub same_spend : u.spend ≡ s.spend

pub apply_goal_submitted-SameTasks :
    (seq ts : ℕ) (p : GoalSubmittedPayload) (s : State)
    → SameTasks s (apply_goal_submitted seq ts p s)
unfolding apply_goal_submitted
apply_goal_submitted-SameTasks seq ts p s = ground arith
