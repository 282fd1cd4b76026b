-- ===== src/Scheduler/Landings.antt =====
-- Merge outcomes and cancellations on small states.
use age_of_agents.Base.{
  ℕ, String, ◌==◌, true, false, ◌≡◌, ◌↔◌, inl, inr, refl, sym, ◌∙◌, ap, none, some, some-injective,
  none-ne-some, List, [], ◌∷◌, ◌++◌, Bool-cases, eq_iff, arith,
}
use age_of_agents.Base.Dict.{get, values}
use age_of_agents.Base.Partial.{Elem}
use age_of_agents.Base.Sorting.{sort_by_id}
use age_of_agents.State.Spend.{cost_usd}
use age_of_agents.Scheduler.Spending.{
  CeilingOptions, trip, over_budget, enforce_budgets, enforce_budget, undispatched, sorted_goals,
}
use age_of_agents.Scheduler.Ceiling.{
  Emitted, fails_task, trips_goal, IsHeld, IsReached, enforce_budgets_exact,
}
use age_of_agents.Api.Event.{Body, Event, ticket_id}
use age_of_agents.MergeQueue.{Outcome, zero_outcome}
use age_of_agents.State.Model.{Ticket, Goal, State, proposed, no_spend}
use age_of_agents.Invariant.{merge_implies_verified, scan}
use age_of_agents.Scheduler.Merging.{apply_outcomes, apply_merge_outcome, enforce_cancellations}
use age_of_agents.Scheduler.Verified.{apply_outcomes_verified}
use age_of_agents.Scheduler.Cancelling.{IsStopped, enforce_cancellations-IsStopped}
use age_of_agents.Scheduler.Retries.{emitted}
use age_of_agents.Scheduler.Passes.{retried, two_tasks, retry_options}

abbrev waiting_proposal : Ticket
waiting_proposal = record (retried "a") { status = proposed; worker = "worker/a" }

abbrev landed_outcome : Outcome
landed_outcome = record zero_outcome {
  ticket_id = "a";
  worker = "worker/a";
  merged = true;
  verified = true;
  merge_commit = "c9";
  tree = "t9";
}

abbrev stored : ℕ → Body → Event
stored n b = record {
  seq = n;
  timestamp = 50;
  actor = "orchestrator";
  body = b;
  ticket_key = some "a";
  charge_keys = none;
}

abbrev landing : List Event
landing =
    stored 1
      (Body.verification_passed (record { ticket_id = "a"; worker = "worker/a"; tree = "t9" }))
    ∷ stored 2
        (Body.merged (record { ticket_id = "a"; worker = "worker/a"; commit = "c9"; branch = "" }))
    ∷ []

apply_outcomes_verified_example : merge_implies_verified ([] ++ landing) ≡ []
unfolding merge_implies_verified scan apply_outcomes apply_merge_outcome ticket_id
apply_outcomes_verified_example =
    apply_outcomes_verified retry_options false [] ((waiting_proposal, landed_outcome) ∷ []) []
      landing 0 tt refl (refl, refl, refl, (refl, refl, refl, tt))

abbrev stopped_goal : Goal
stopped_goal = record {
  id = "g";
  text = "g";
  source = "";
  ref = "";
  by = "";
  submitted_at = 1;
  submitted_seq = 1;
  amendments = [];
  spend = no_spend;
  budget_exceeded = false;
  cancelled = true;
  cancelled_seq = 8;
  branch = "";
  delivered = false;
  pr_url = "";
  delivery_error = "";
  delivery_failed_seq = 0;
}

abbrev cancelled_state : State
cancelled_state = record two_tasks {
  goals = ("g", stopped_goal) ∷ [];
  ticket_order = "a" ∷ "b" ∷ [];
}

own_ids : (k : String) (u : Ticket) → get k cancelled_state.tickets ≡ some u → u.id ≡ k
unfolding get
own_ids k u h = elim (Bool-cases ("a" == k)) [
  | inl a ↦ sym (ap (λ t. t.id) (some-injective _ _ (rw a at h))) ∙ ground (arith, eq_iff "a" k, a)
  | inr not_a ↦ elim (Bool-cases ("b" == k)) [
    | inl b ↦
        sym (ap (λ t. t.id) (some-injective _ _ (rw (not_a, b) at h)))
        ∙ ground (arith, eq_iff "b" k, b)
    | inr not_b ↦ absurd (none-ne-some _ (rw (not_a, not_b) at h))
  ]
]

enforce_cancellations-IsStopped_example : IsStopped (
    emitted 9 50 (enforce_cancellations cancelled_state [] [] ("a" ∷ "b" ∷ [])).emits (retried "b"))
unfolding get
enforce_cancellations-IsStopped_example =
    enforce_cancellations-IsStopped cancelled_state [] [] 9 50 (retried "b") stopped_goal own_ids
      refl (inr (inl refl)) refl refl refl refl

abbrev ceiling : CeilingOptions
ceiling = record { max_tokens_per_goal = 10; max_usd_per_goal = 0; pricing = [] }

abbrev spent_goal : Goal
spent_goal = record stopped_goal {
  cancelled = false;
  spend = record no_spend { tokens_spent = 12 };
}

abbrev spent_state : State
spent_state = record two_tasks { goals = ("g", spent_goal) ∷ [] }

enforce_budgets_exact_example :
    (Emitted (fails_task "b") (enforce_budgets ceiling spent_state)
      ↔ ((t : Ticket) × (t.id ≡ "b") × IsHeld ceiling spent_state t))
    × (Emitted (trips_goal "b") (enforce_budgets ceiling spent_state) ↔ (
        (g : Goal) × Elem g (values spent_state.goals)
        × (g.id ≡ "b")
        × IsReached ceiling g
        × (g.budget_exceeded ≡ false)))
enforce_budgets_exact_example = enforce_budgets_exact ceiling spent_state "b"

both_held :
    enforce_budgets ceiling spent_state
    ≡ trip ceiling spent_goal
      ∷ over_budget "goal token budget exceeded" (retried "a")
      ∷ over_budget "goal token budget exceeded" (retried "b")
      ∷ []
unfolding enforce_budgets enforce_budget undispatched sorted_goals sort_by_id values cost_usd
both_held = refl
