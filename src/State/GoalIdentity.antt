-- ===== src/State/GoalIdentity.antt =====
-- What the handlers of `Apply` leave alone on a Goal: its id, a cancellation once made, and a delivery
-- once made.
use age_of_agents.Base.{ℕ, true, ◌≡◌, arith}
use age_of_agents.Api.Payloads.{
  MergedPayload, GoalAmendedPayload, DeliveredPayload, DeliveryFailedPayload,
}
use age_of_agents.State.Model.{Goal}
use age_of_agents.State.Handlers.{
  on_goal_merged, on_budget_exceeded, on_goal_amended, on_goal_cancelled, on_delivered,
  on_delivery_failed,
}

pub record SameGoal (g k : Goal) : Type 0 where
  pub same_id : k.id ≡ g.id
  pub cancelled : g.cancelled ≡ true → k.cancelled ≡ true
  pub first_cancel : g.cancelled ≡ true → k.cancelled_seq ≡ g.cancelled_seq
  pub delivered : g.delivered ≡ true → k.delivered ≡ true

pub record KeepsGoal (f : Goal → Goal) : Type 0 where
  pub same : (g : Goal) → SameGoal g (f g)

module _ (seq ts : ℕ) where
  pub on_goal_merged-KeepsGoal : (p : MergedPayload) → KeepsGoal (on_goal_merged seq ts p)
  unfolding on_goal_merged
  on_goal_merged-KeepsGoal p = record { same = λ g. ground arith }

  pub on_budget_exceeded-KeepsGoal : KeepsGoal (on_budget_exceeded seq ts)
  unfolding on_budget_exceeded
  on_budget_exceeded-KeepsGoal = record { same = λ g. ground arith }

  pub on_goal_amended-KeepsGoal : (p : GoalAmendedPayload) → KeepsGoal (on_goal_amended seq ts p)
  unfolding on_goal_amended
  on_goal_amended-KeepsGoal p = record { same = λ g. ground arith }

  pub on_goal_cancelled-KeepsGoal : KeepsGoal (on_goal_cancelled seq ts)
  unfolding on_goal_cancelled
  on_goal_cancelled-KeepsGoal = record { same = λ g. ground arith }

  pub on_delivered-KeepsGoal : (p : DeliveredPayload) → KeepsGoal (on_delivered seq ts p)
  unfolding on_delivered
  on_delivered-KeepsGoal p = record { same = λ g. ground arith }

  pub on_delivery_failed-KeepsGoal :
      (p : DeliveryFailedPayload) → KeepsGoal (on_delivery_failed seq ts p)
  unfolding on_delivery_failed
  on_delivery_failed-KeepsGoal p = record { same = λ g. ground arith }
