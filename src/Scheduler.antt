-- ===== src/Scheduler.antt =====
-- internal/orchestrator/budget.go: what the run and day budgets hold back, and the record of a window
-- that tripped. Reading the ledger is an argument, with its error; so are the options of the
-- orchestrator that it uses, and what the clock says the day is.
pub mod Budgets
pub mod Dispatch
pub mod Waiting
pub mod Waves
pub mod Decompose
pub mod Governors
pub mod Bounded
pub mod Merging
pub mod Verified
pub mod Cancelling
pub mod Spending
pub mod Tripped
pub mod Ceiling
pub mod Proposals
pub mod Approved
pub mod Rejection
pub mod Retries
mod Examples
mod Passes
mod Landings
mod Proposed
use age_of_agents.Base.{
  ℕ, ◌-◌, String, Bool, true, false, not, ◌&&◌, ◌||◌, Option, none, some, List, [], ◌∷◌, ◌++◌, eqb,
  ltb, is_some, if◌then◌else◌,
}
use age_of_agents.Base.Dict.{Dict, get}
use age_of_agents.Api.Payloads.{BudgetExhaustedPayload}
use age_of_agents.Api.Event.{Event}
use age_of_agents.Git.{Try, ok, err}
use age_of_agents.State.Model.{State}
use age_of_agents.State.Spend.{cost_usd}
use age_of_agents.State.Apply.{budget_window}
use age_of_agents.State.Budget.{
  Budget, Usage, is_zero, run_usage, day_usage, spend_reached, goals_reached,
}

pub record BudgetWindow : Type 0 where
  pub scope : String
  pub day : String
  pub budget : Budget
  pub usage : Usage

-- The fields of the orchestrator's options that budgets read.
pub record BudgetOptions : Type 0 where
  pub run_budget : Budget
  pub day_budget : Budget
  pub run_since : ℕ
  pub pricing : Dict ℕ

-- The results of budgetsReached. `goals_left` is `none` for budgetUnlimited.
pub record Reached : Type 0 where
  pub spend : Bool
  pub goals_left : Option ℕ
  pub tripped : List BudgetWindow

abbrev pub nothing_reached : Reached
nothing_reached = record { spend = false; goals_left = none; tripped = [] }

-- left < goalsLeft, or goalsLeft == budgetUnlimited
abbrev pub lower : ℕ → Option ℕ → Option ℕ
lower left none = some left
lower left (some g) = if ltb left g then some left else some g

-- The body of the loop over the two windows.
unfoldable pub reach : Dict ℕ → Reached → BudgetWindow → Reached
unfolding is_zero spend_reached goals_reached
reach pricing r w =
    let left =
      if ltb 0 w.budget.goals
      then lower (w.budget.goals - w.usage.goals) r.goals_left
      else r.goals_left in
    let spent = spend_reached w.budget w.usage pricing in
    if is_zero w.budget then r else record {
      spend = spent || r.spend;
      goals_left = if spent then some 0 else left;
      tripped = if spent || goals_reached w.budget w.usage then r.tripped ++ w ∷ [] else r.tripped;
    }

abbrev pub reach_all : Dict ℕ → Reached → List BudgetWindow → Reached
reach_all pricing r [] = r
reach_all pricing r (w ∷ ws) = reach_all pricing (reach pricing r w) ws

abbrev pub windows : (ℕ → String) → BudgetOptions → String → List Event → List BudgetWindow
windows day_of o day events =
    record { scope = "run"; day = ""; budget = o.run_budget; usage = run_usage events o.run_since }
    ∷ record {
      scope = "day";
      day = day;
      budget = o.day_budget;
      usage = day_usage day_of events day;
    }
    ∷ []

-- budgetsReached
unfoldable pub budgets_reached :
    (ℕ → String) → BudgetOptions → String → Try (List Event) → Try Reached
unfolding is_zero
budgets_reached day_of o day (err e) =
    if is_zero o.run_budget && is_zero o.day_budget then ok nothing_reached else err e
budgets_reached day_of o day (ok events) =
    if is_zero o.run_budget && is_zero o.day_budget
    then ok nothing_reached
    else ok (reach_all o.pricing nothing_reached (windows day_of o day events))

abbrev pub exhausted : Dict ℕ → BudgetWindow → BudgetExhaustedPayload
exhausted pricing w = record {
  scope = w.scope;
  day = w.day;
  spent_usd = cost_usd w.usage.spend pricing;
  limit_usd = w.budget.usd;
  spent_tokens = w.usage.spend.tokens_spent;
  limit_tokens = w.budget.tokens;
  goals = w.usage.goals;
  limit_goals = w.budget.goals;
}

-- The loop of budgetStop: the payloads that it emits, with the state as it was when the pass began.
unfoldable pub budget_stop : Dict ℕ → State → List BudgetWindow → List BudgetExhaustedPayload
unfolding cost_usd budget_window get
budget_stop pricing s [] = []
budget_stop pricing s (w ∷ ws) =
    let rest = budget_stop pricing s ws in
    if is_some (get (budget_window w.scope w.day) s.budgets_exhausted)
    then rest
    else exhausted pricing w ∷ rest

-- budgetPaused
unfoldable pub budget_paused : Try Reached → Bool
budget_paused (err e) = false
budget_paused (ok r) = r.spend || nothing_left r.goals_left
  where
    nothing_left : Option ℕ → Bool
    nothing_left none = false
    nothing_left (some g) = eqb g 0
