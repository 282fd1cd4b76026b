-- ===== src/Scheduler/Examples.antt =====
-- The budgets at work on small windows.
use age_of_agents.Base.{ℕ, String, not, ◌||◌, ◌≡◌, is_empty, [], ◌∷◌}
use age_of_agents.Git.{ok}
use age_of_agents.State.Model.{State, new, no_spend}
use age_of_agents.State.Budget.{Budget, run_usage, day_usage, spend_reached, goals_reached}
use age_of_agents.State.Apply
use age_of_agents.State.Apply.{fold_from}
use age_of_agents.Scheduler.{BudgetWindow, BudgetOptions, Reached, budgets_reached, budget_stop}
use age_of_agents.Scheduler.Budgets.{may_start, stamped, budgets_reached_exact, budget_stop_once}

-- One Goal for each run, and no limit for the day.
abbrev one_goal : Budget
one_goal = record { usd = 0; tokens = 0; goals = 1 }

abbrev options : BudgetOptions
options = record {
  run_budget = one_goal;
  day_budget = record { usd = 0; tokens = 0; goals = 0 };
  run_since = 0;
  pricing = [];
}

abbrev any_day : ℕ → String
any_day ts = "2026-01-02"

budgets_reached_exact_example :
    let run = run_usage [] 0 in
    let today = day_usage any_day [] "2026-01-02" in
    let spent =
      spend_reached options.run_budget run [] || spend_reached options.day_budget today [] in
    let started = goals_reached options.run_budget run || goals_reached options.day_budget today in
    (r : Reached) × (budgets_reached any_day options "2026-01-02" (ok []) ≡ ok r)
    × (r.spend ≡ spent)
    × (may_start r.goals_left ≡ not (spent || started))
    × (is_empty r.tripped ≡ may_start r.goals_left)
budgets_reached_exact_example = budgets_reached_exact any_day options "2026-01-02" []

abbrev full : BudgetWindow
full = record {
  scope = "run";
  day = "";
  budget = one_goal;
  usage = record { spend = no_spend; goals = 1 };
}

budget_stop_once_example :
    (t : State) × (fold_from (stamped 1 0 (budget_stop [] new (full ∷ []))) new ≡ Apply.ok t)
    × (budget_stop [] t (full ∷ []) ≡ [])
budget_stop_once_example = budget_stop_once [] new (full ∷ []) 1 0
