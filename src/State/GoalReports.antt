-- ===== src/State/GoalReports.antt =====
-- What GoalOutcome, GoalConditions and Deliverable report of a Goal, with fuel above the rank of every
-- task.
use age_of_agents.Base.{
  ℕ, ◌<◌, String, Bool, true, ◌≡◌, ◌∙◌, ap, some, [], ◌∷◌, arith, inl, inr, Option-cases,
}
use age_of_agents.Base.Dict.{get}
use age_of_agents.Api.Contract.{Outcome, running, Condition, ConditionType}
use age_of_agents.State.Model.{Goal, State}
use age_of_agents.State.Queries.{goal_complete, deliverable, ordered_tickets}
use age_of_agents.State.Outcome.{goal_outcome, goal_conditions}
use age_of_agents.State.Explained.{SaysAccepted, SaysVerified, SaysDelivered, SaysComplete}
use age_of_agents.State.Indexed.{IsIndexed}
use age_of_agents.State.Completion.{IsRanked}
use age_of_agents.State.Answers.{goal_complete-total, goal_outcome-total}
use age_of_agents.State.Conditions.{goal_conditions_exact, deliverable-running}

module _ (fuel : ℕ) (s : State) (rank : String → ℕ) (ranked : IsRanked s rank)
    (deep : (id : String) → rank id < fuel) (id : String) where
  -- On a task graph whose decompositions have ranks below the fuel, a Goal on the log has an outcome
  -- and four conditions, in the order Accepted, Verified, Delivered, Complete. The status, reason and
  -- message of the first three, and the status and reason of the last, are those that SaysAccepted,
  -- SaysVerified, SaysDelivered and SaysComplete give: from which of the Goal's tasks there are, parked,
  -- under way, failed or turned down, from what the Goal records, and, for Verified, Delivered and
  -- Complete, from the answers of GoalComplete and GoalOutcome.
  pub goal_conditions_decide :
      (g : Goal)
      → get id s.goals ≡ some g
      → let ts = ordered_tickets s in
        (o : Outcome) × (done : Bool) × (goal_outcome fuel s id ≡ some (some o))
        × (goal_complete fuel s id ≡ some done)
        × (a : Condition) × (v : Condition) × (d : Condition) × (c : Condition) × (goal_conditions
              fuel s id
            ≡ some (a ∷ v ∷ d ∷ c ∷ []))
        × (a.kind ≡ ConditionType.accepted)
        × (v.kind ≡ ConditionType.verified)
        × (d.kind ≡ ConditionType.delivered)
        × (c.kind ≡ ConditionType.complete)
        × SaysAccepted g id ts a.status a.reason a.message
        × SaysVerified g id ts done v.status v.reason v.message
        × SaysDelivered g id ts done d.status d.reason d.message
        × SaysComplete g id ts o done c.status c.reason
  goal_conditions_decide g found =
      let (o, h) = goal_outcome-total fuel s rank ranked deep id g found in
      let (done, t) = goal_complete-total fuel s rank ranked deep id in
      let (a, v, d, end, r, ka, kv, kd, kc, sa, sv, sd, sc) =
        goal_conditions_exact fuel s id g o done found h t in
      (o, done, h, t, a, v, d, end, r, ka, kv, kd, kc, sa, sv, sd, sc)

  -- On such a task graph, in an indexed state, a Goal that may be delivered has the outcome running.
  pub deliverable_is_running :
      IsIndexed s → deliverable fuel s id ≡ some true → goal_outcome fuel s id ≡ some (some running)
  unfolding deliverable
  deliverable_is_running x h = elim (Option-cases (get id s.goals)) [
    | inl missing ↦ absurd (ground arith)
    | inr (g, found) ↦
        let (o, e) = goal_outcome-total fuel s rank ranked deep id g found in
        e ∙ ap some (deliverable-running fuel s id (some o) x h e)
  ]
