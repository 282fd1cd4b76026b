-- ===== src/State/Conditions.antt =====
-- What a Goal's outcome and its conditions promise a caller.
use age_of_agents.Base.{
  ℕ, String, Bool, true, ◌≡◌, refl, Option, some, [], ◌∷◌, arith, inl, inr, Option-cases,
}
use age_of_agents.Base.Dict.{get, values}
use age_of_agents.Api.Contract.{Outcome, running, merged, Condition, ConditionType}
use age_of_agents.State.Model.{Goal, State}
use age_of_agents.State.Queries.{goal_complete, deliverable, ordered_tickets}
use age_of_agents.State.Outcome.{
  no_flags, scan_outcome, outcome_of, goal_outcome, Tasks, no_tasks, scan_tasks, accepted_condition,
  verified_condition, delivered_condition, complete_condition, goal_conditions,
}
use age_of_agents.State.Indexed.{IsIndexed, IsIndexed-values}
use age_of_agents.State.Tally.{scan_tasks-Tallies}
use age_of_agents.State.Explained.{SaysAccepted, SaysVerified, SaysDelivered, SaysComplete}
use age_of_agents.State.Explaining.{
  accepted_condition-Says, verified_condition-Says, delivered_condition-Says,
  complete_condition-Says,
}
use age_of_agents.State.Settling.{scan-complete, scan-parked}

accepted-kind : (g : Goal) (k : Tasks) → (accepted_condition g k).kind ≡ ConditionType.accepted
unfolding accepted_condition
accepted-kind g k = ground arith

verified-kind :
    (g : Goal) (done : Bool) (k : Tasks)
    → (verified_condition g done k).kind ≡ ConditionType.verified
unfolding verified_condition
verified-kind g done k = ground arith

delivered-kind :
    (g : Goal) (done : Bool) → (delivered_condition g done).kind ≡ ConditionType.delivered
unfolding delivered_condition
delivered-kind g done = ground arith

complete-kind :
    (g : Goal) (done : Bool) (k : Tasks) (o : Outcome)
    → (complete_condition g done k o).kind ≡ ConditionType.complete
unfolding complete_condition
complete-kind g done k _ = ground arith

module _ (fuel : ℕ) (s : State) (id : String) where
  conditions-list :
      (g : Goal) (o : Outcome) (done : Bool)
      → get id s.goals ≡ some g
      → goal_outcome fuel s id ≡ some (some o)
      → goal_complete fuel s id ≡ some done
      → let k = scan_tasks id no_tasks (ordered_tickets s) in
        goal_conditions fuel s id
        ≡ some (
            accepted_condition g k
            ∷ verified_condition g done k
            ∷ delivered_condition g done
            ∷ complete_condition g done k o
            ∷ [])
  unfolding goal_conditions goal_outcome
  conditions-list g o done found h c = elim (Option-cases (outcome_of fuel s id g)) [
    | inl e ↦ absurd (ground arith)
    | inr (o', e) ↦ ground arith
  ]

  -- A Goal whose outcome is merged is complete: GoalComplete returns, and returns true.
  pub merged_complete :
      goal_outcome fuel s id ≡ some (some merged) → goal_complete fuel s id ≡ some true
  unfolding goal_outcome goal_complete
  merged_complete h = elim (Option-cases (get id s.goals)) [
    | inl missing ↦ absurd (ground arith)
    | inr (g, found) ↦ elim (Option-cases (scan_outcome fuel s id no_flags (values s.tickets))) [
      | inl e ↦ absurd (ground arith)
      | inr (f, e) ↦ ground (arith, scan-complete fuel s id no_flags f (values s.tickets) refl e)
    ]
  ]

  -- A Goal that may be delivered is neither merged nor failed nor queued: in an indexed state its
  -- outcome, if there is fuel to find it, is running.
  pub deliverable-running :
      (o : Option Outcome)
      → IsIndexed s
      → deliverable fuel s id ≡ some true
      → goal_outcome fuel s id ≡ some o
      → o ≡ some running
  unfolding goal_outcome goal_complete deliverable
  deliverable-running o x d h = elim (Option-cases (get id s.goals)) [
    | inl missing ↦ absurd (ground arith)
    | inr (g, found) ↦ elim (Option-cases (scan_outcome fuel s id no_flags (values s.tickets))) [
      | inl e ↦ absurd (ground arith)
      | inr (f, e) ↦ ground (
        arith,
        scan-complete fuel s id no_flags f (values s.tickets) refl e,
        scan-parked fuel s id no_flags f (values s.tickets) (IsIndexed-values s x) (inl refl) e,
      )
    ]
  ]

  pub goal_conditions_exact :
      (g : Goal) (o : Outcome) (done : Bool)
      → get id s.goals ≡ some g
      → goal_outcome fuel s id ≡ some (some o)
      → goal_complete fuel s id ≡ some done
      → let ts = ordered_tickets s in
        (a : Condition) × (v : Condition) × (d : Condition) × (c : Condition) × (goal_conditions
            fuel s id
          ≡ some (a ∷ v ∷ d ∷ c ∷ []))
        × (a.kind ≡ ConditionType.accepted)
        × (v.kind ≡ ConditionType.verified)
        × (d.kind ≡ ConditionType.delivered)
        × (c.kind ≡ ConditionType.complete)
        × SaysAccepted g id ts a.status a.reason a.message
        × SaysVerified g id ts done v.status v.reason v.message
        × SaysDelivered g id ts done d.status d.reason d.message
        × SaysComplete g id ts o done c.status c.reason
  goal_conditions_exact g o done found h c =
      let ts = ordered_tickets s in
      let k = scan_tasks id no_tasks ts in
      let fits = scan_tasks-Tallies id ts in
      (
        accepted_condition g k,
        verified_condition g done k,
        delivered_condition g done,
        complete_condition g done k o,
        conditions-list g o done found h c,
        accepted-kind g k,
        verified-kind g done k,
        delivered-kind g done,
        complete-kind g done k o,
        accepted_condition-Says g id ts k fits,
        verified_condition-Says g id ts k fits done,
        delivered_condition-Says g id ts done,
        complete_condition-Says g id ts k fits done o,
      )
