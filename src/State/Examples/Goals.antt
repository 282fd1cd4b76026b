-- ===== src/State/Examples/Goals.antt =====
-- What internal/state/state.go reports of a Goal that merged, one that may be delivered and one that
-- was cancelled, with the theorems about it at work.
use age_of_agents.Base.{
  String, Bool, true, ◌≡◌, refl, none, some, [], ◌∷◌, arith, ◌==◌, ◌∙◌, ap, sym, subst, eq_iff, inl,
  inr, Bool-cases, some-injective, none-ne-some,
}
use age_of_agents.Base.Dict.{get, modify, values}
use age_of_agents.Api.Contract.{Outcome, running, merged, Condition, ConditionType}
use age_of_agents.Api.Event.{Event, Body}
use age_of_agents.State.Model.{Goal, Ticket, State}
use age_of_agents.State.Spend.{charge_of}
use age_of_agents.State.Handlers.{on_heartbeat}
use age_of_agents.State.Apply.{ok, apply, apply_body, fold_from}
use age_of_agents.State.Explained.{SaysAccepted, SaysVerified, SaysDelivered, SaysComplete}
use age_of_agents.State.Indexed.{IsIndexed}
use age_of_agents.State.Cancelled.{IsCancelled, cancel_is_final}
use age_of_agents.State.Queries.{
  goal_complete, ticket_complete, ticket_dead, deliverable, ordered_tickets,
}
use age_of_agents.State.Outcome.{scan_outcome, goal_outcome, goal_conditions}
use age_of_agents.State.Completion.{IsRanked}
use age_of_agents.State.Conditions.{merged_complete}
use age_of_agents.State.GoalReports.{goal_conditions_decide, deliverable_is_running}
use age_of_agents.State.Examples.{event, goal, a_task, replayed, flat, flat-IsRanked, flat_deep}

found_goal : get "g" replayed.goals ≡ some goal
unfolding get
found_goal = refl

goal_conditions_decide_example :
    let ts = ordered_tickets replayed in
    (o : Outcome) × (done : Bool) × (goal_outcome 1 replayed "g" ≡ some (some o))
    × (goal_complete 1 replayed "g" ≡ some done)
    × (a : Condition) × (v : Condition) × (d : Condition) × (c : Condition) × (goal_conditions 1
          replayed "g"
        ≡ some (a ∷ v ∷ d ∷ c ∷ []))
    × (a.kind ≡ ConditionType.accepted)
    × (v.kind ≡ ConditionType.verified)
    × (d.kind ≡ ConditionType.delivered)
    × (c.kind ≡ ConditionType.complete)
    × SaysAccepted goal "g" ts a.status a.reason a.message
    × SaysVerified goal "g" ts done v.status v.reason v.message
    × SaysDelivered goal "g" ts done d.status d.reason d.message
    × SaysComplete goal "g" ts o done c.status c.reason
goal_conditions_decide_example =
    goal_conditions_decide 1 replayed flat flat-IsRanked flat_deep "g" goal found_goal

-- One task, merged to the integration branch.
abbrev landed : State
landed = record replayed {
  tickets = ("a", a_task) ∷ [];
  ticket_order = "a" ∷ [];
  key_to_ticket = ("ka", "a") ∷ [];
}

landed_merged : goal_outcome 1 landed "g" ≡ some (some merged)
unfolding goal_outcome scan_outcome get ticket_dead ticket_complete values
landed_merged = refl

merged_complete_example : goal_complete 1 landed "g" ≡ some true
merged_complete_example = merged_complete 1 landed "g" landed_merged

-- The same on a branch of the Goal's own.
abbrev branched : State
branched = record landed { goals = ("g", record goal { branch = "aoa/g" }) ∷ [] }

found_branched :
    (id : String) (t : Ticket) → get id branched.tickets ≡ some t → ("a" ≡ id) × (a_task ≡ t)
unfolding get
found_branched id t h = elim (Bool-cases ("a" == id)) [
  | inl same ↦ ((eq_iff "a" id).0 same, some-injective a_task t (rw same at h))
  | inr other ↦ absurd (none-ne-some t (rw other at h))
]

branched-IsIndexed : IsIndexed branched
unfolding get
branched-IsIndexed = record {
  ids = λ id t h. let (same, task) = found_branched id t h in ap (λ u. u.id) (sym task) ∙ same;
  owner = λ id t h.
      let (same, task) = found_branched id t h in
      inr (subst (λ u. get u.idempotency_key branched.key_to_ticket ≡ some id) task (ap some same));
  order = λ id. ground arith;
  distinct = (refl, tt);
}

branched-IsRanked : IsRanked branched flat
unfolding get
branched-IsRanked = record { below = λ id t h d. absurd (ground arith) }

branched-deliverable : deliverable 1 branched "g" ≡ some true
unfolding deliverable goal_complete get ticket_complete values
branched-deliverable = refl

deliverable_is_running_example : goal_outcome 1 branched "g" ≡ some (some running)
deliverable_is_running_example =
    deliverable_is_running 1 branched flat branched-IsRanked flat_deep "g" branched-IsIndexed
      branched-deliverable

abbrev stopped_goal : Goal
stopped_goal = record goal { cancelled = true; cancelled_seq = 7 }

abbrev stopped : State
stopped = record replayed { goals = ("g", stopped_goal) ∷ [] }

stopped-IsCancelled : IsCancelled "g" 7 stopped
unfolding get
stopped-IsCancelled = record { goal = stopped_goal; found = refl; cancelled = refl; at_seq = refl }

abbrev beat : Event
beat = event 8 none (Body.heartbeat (record { ticket_id = "a"; worker = "w" }))

abbrev beaten : State
beaten = record stopped { tickets = modify "a" (on_heartbeat 8 8) stopped.tickets; last_seq = 8 }

beats : fold_from (beat ∷ []) stopped ≡ ok beaten
unfolding fold_from apply apply_body charge_of modify on_heartbeat
beats = refl

cancel_is_final_example : IsCancelled "g" 7 beaten
cancel_is_final_example =
    cancel_is_final "g" 7 (beat ∷ []) stopped beaten (tt, tt) stopped-IsCancelled beats
