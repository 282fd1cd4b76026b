-- ===== src/Scheduler/Spending.antt =====
-- internal/orchestrator/orchestrator.go: the spend governor of a Goal.
use age_of_agents.Base.{
  ℕ, String, Bool, true, false, not, ◌&&◌, List, [], ◌∷◌, ◌++◌, keep, map, ltb, leb, ◌==◌,
  if◌then◌else◌,
}
use age_of_agents.Base.Dict.{Dict, values}
use age_of_agents.Base.Sorting.{sort_by_id}
use age_of_agents.Api.Event.{Body}
use age_of_agents.State.Model.{Ticket, Goal, State, pending, ready, TicketStatus}
use age_of_agents.State.Spend.{cost_usd}

-- The fields of Options that the governor reads. Money is in picodollars.
pub record CeilingOptions : Type 0 where
  pub max_tokens_per_goal : ℕ
  pub max_usd_per_goal : ℕ
  pub pricing : Dict ℕ

-- sortedGoals
unfoldable pub sorted_goals : State → List Goal
unfolding sort_by_id values
sorted_goals s = sort_by_id (λ g. g.id) (values s.goals)

abbrev pub token_exceeded : CeilingOptions → Goal → Bool
token_exceeded o g = ltb 0 o.max_tokens_per_goal && leb o.max_tokens_per_goal g.spend.tokens_spent

abbrev pub usd_exceeded : CeilingOptions → Goal → Bool
usd_exceeded o g = ltb 0 o.max_usd_per_goal && leb o.max_usd_per_goal (cost_usd g.spend o.pricing)

abbrev pub trip : CeilingOptions → Goal → Body
trip o g = Body.goal_budget_exceeded (record {
  goal_id = g.id;
  spent_tokens = g.spend.tokens_spent;
  limit = if token_exceeded o g then o.max_tokens_per_goal else 0;
  spent_usd = cost_usd g.spend o.pricing;
  limit_usd = if usd_exceeded o g then o.max_usd_per_goal else 0;
})

abbrev pub over_budget : String → Ticket → Body
over_budget reason t = Body.ticket_failed (record {
  ticket_id = t.id;
  worker = t.worker;
  reason = reason;
  output = "";
  tree = "";
  worktree = "";
  tokens = 0;
  model = "";
  cost_usd = 0;
})

abbrev pub not_started : TicketStatus → Bool
not_started pending = true
not_started ready = true
not_started _ = false

abbrev pub reason_for : CeilingOptions → Goal → String
reason_for o g =
    if usd_exceeded o g && not (token_exceeded o g)
    then "goal cost budget exceeded"
    else "goal token budget exceeded"

-- The tickets `doomed` of a Goal.
unfoldable pub undispatched : State → Goal → List Ticket
unfolding sort_by_id values
undispatched s g =
    sort_by_id (λ t. t.id)
      (keep (λ t. t.goal_id == g.id && not_started t.status) (values s.tickets))

-- The body of the loop of enforceBudgets.
unfoldable pub enforce_budget : CeilingOptions → State → Goal → List Body
unfolding undispatched cost_usd
enforce_budget o s g =
    if not (token_exceeded o g) && not (usd_exceeded o g)
    then []
    else (if not g.budget_exceeded then trip o g ∷ [] else [])
      ++ map (over_budget (reason_for o g)) (undispatched s g)

abbrev pub enforce_each : CeilingOptions → State → List Goal → List Body
enforce_each o s [] = []
enforce_each o s (g ∷ gs) = enforce_budget o s g ++ enforce_each o s gs

-- enforceBudgets, where every emit succeeds: the events in order
unfoldable pub enforce_budgets : CeilingOptions → State → List Body
unfolding enforce_budget sorted_goals
enforce_budgets o s = enforce_each o s (sorted_goals s)
