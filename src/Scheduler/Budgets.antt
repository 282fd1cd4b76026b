-- ===== src/Scheduler/Budgets.antt =====
-- What internal/orchestrator/budget.go holds back, and how often it records a window.
use age_of_agents.Base.{
  ℕ, ◌-◌, suc, String, ◌==◌, Bool, true, false, not, ◌&&◌, ◌||◌, ◌≡◌, refl, inl, inr, Option, none,
  some, List, [], ◌∷◌, ◌++◌, All, ltb, is_some, arith, Bool-cases, if◌then◌else◌, eq_refl, is_empty,
}
use age_of_agents.Base.Dict.{Dict, get, put, get-put}
use age_of_agents.Api.Payloads.{BudgetExhaustedPayload}
use age_of_agents.Api.Event.{Event, Body}
use age_of_agents.Git.{ok}
use age_of_agents.State.Model.{State}
use age_of_agents.State.Spend.{charge_of}
use age_of_agents.State.Budget.{
  Budget, Usage, is_zero, run_usage, day_usage, spend_reached, goals_reached,
}
use age_of_agents.State.Apply.{budget_window, apply_body, apply, fold_from, apply_budget_exhausted}
use age_of_agents.State.Apply
use age_of_agents.Scheduler.{
  BudgetWindow, BudgetOptions, Reached, nothing_reached, lower, reach, budgets_reached, budget_stop,
}

zero-spend_reached :
    (b : Budget) (u : Usage) (p : Dict ℕ)
    → is_zero b ≡ true
    → (spend_reached b u p ≡ false) × (goals_reached b u ≡ false)
unfolding is_zero spend_reached goals_reached
zero-spend_reached b u p h = (ground arith, ground arith)

reach-spend :
    (p : Dict ℕ) (r : Reached) (w : BudgetWindow)
    → (reach p r w).spend ≡ (spend_reached w.budget w.usage p || r.spend)
unfolding reach
reach-spend p r w = ground (arith, zero-spend_reached w.budget w.usage p)

reach-tripped :
    (p : Dict ℕ) (r : Reached) (w : BudgetWindow)
    → (reach p r w).tripped ≡ (
        if spend_reached w.budget w.usage p || goals_reached w.budget w.usage
        then r.tripped ++ w ∷ []
        else r.tripped)
unfolding reach
reach-tripped p r w = ground (arith, zero-spend_reached w.budget w.usage p)

-- A Goal may start.
abbrev pub may_start : Option ℕ → Bool
may_start none = true
may_start (some g) = ltb 0 g

lower-may_start : (left : ℕ) (g : Option ℕ) → may_start (lower left g) ≡ (ltb 0 left && may_start g)
lower-may_start left none = ground arith
lower-may_start left (some g) = ground arith

reach-may_start :
    (p : Dict ℕ) (r : Reached) (w : BudgetWindow)
    → may_start (reach p r w).goals_left ≡ (
        not (spend_reached w.budget w.usage p || goals_reached w.budget w.usage)
        && may_start r.goals_left)
unfolding reach goals_reached
reach-may_start p r w = ground (
  arith,
  zero-spend_reached w.budget w.usage p,
  lower-may_start (w.budget.goals - w.usage.goals) r.goals_left,
)

-- The budgets bite exactly at their limits: on a log that can be read, budgetsReached returns; it
-- holds back new attempts exactly if the run or the day has reached its spend limit; Goals may still
-- start exactly if neither has reached its spend limit or its limit of Goals; and a window has tripped
-- exactly if none may.
pub budgets_reached_exact :
    (day_of : ℕ → String) (o : BudgetOptions) (day : String) (events : List Event)
    → let run = run_usage events o.run_since in
      let today = day_usage day_of events day in
      let spent =
        spend_reached o.run_budget run o.pricing || spend_reached o.day_budget today o.pricing in
      let started = goals_reached o.run_budget run || goals_reached o.day_budget today in
      (r : Reached) × (budgets_reached day_of o day (ok events) ≡ ok r)
      × (r.spend ≡ spent)
      × (may_start r.goals_left ≡ not (spent || started))
      × (is_empty r.tripped ≡ may_start r.goals_left)
unfolding budgets_reached
budgets_reached_exact day_of o day events =
    let run = run_usage events o.run_since in
    let today = day_usage day_of events day in
    let w : BudgetWindow = record { scope = "run"; day = ""; budget = o.run_budget; usage = run } in
    let v : BudgetWindow = record {
      scope = "day";
      day = day;
      budget = o.day_budget;
      usage = today;
    } in
    let one = reach o.pricing nothing_reached w in
    elim (Bool-cases (is_zero o.run_budget && is_zero o.day_budget)) [
      | inl none_set ↦ (
        nothing_reached,
        rw none_set refl,
        ground (
          arith,
          none_set,
          zero-spend_reached o.run_budget run o.pricing,
          zero-spend_reached o.day_budget today o.pricing,
        ),
        ground (
          arith,
          none_set,
          zero-spend_reached o.run_budget run o.pricing,
          zero-spend_reached o.day_budget today o.pricing,
        ),
        refl,
      )
      | inr some_set ↦ (
        reach o.pricing one v,
        rw some_set refl,
        ground (arith, reach-spend o.pricing nothing_reached w, reach-spend o.pricing one v),
        ground
            (arith, reach-may_start o.pricing nothing_reached w, reach-may_start o.pricing one v),
        ground (
          arith,
          reach-may_start o.pricing nothing_reached w,
          reach-may_start o.pricing one v,
          reach-tripped o.pricing nothing_reached w,
          reach-tripped o.pricing one v,
        ),
      )
    ]

-- The events that append the payloads, from the sequence number `n` on.
abbrev pub stamped : ℕ → ℕ → List BudgetExhaustedPayload → List Event
stamped n ts [] = []
stamped n ts (p ∷ ps) =
    record {
      seq = n;
      timestamp = ts;
      actor = "orchestrator";
      body = Body.budget_exhausted p;
      ticket_key = none;
      charge_keys = none;
    }
    ∷ stamped (suc n) ts ps

abbrev names : String → List BudgetExhaustedPayload → Bool
names k [] = false
names k (p ∷ ps) = budget_window p.scope p.day == k || names k ps

recorded :
    (ps : List BudgetExhaustedPayload) (n ts : ℕ) (s : State)
    → (t : State) × (fold_from (stamped n ts ps) s ≡ Apply.ok t)
      × ((k : String)
          → is_some (get k t.budgets_exhausted)
            ≡ (names k ps || is_some (get k s.budgets_exhausted)))
unfolding fold_from apply apply_body charge_of apply_budget_exhausted
recorded [] n ts s = (s, refl, λ k. refl)
recorded (p ∷ ps) n ts s =
    let window = budget_window p.scope p.day in
    let (t, e, h) =
      recorded ps (suc n) ts
        (record s { budgets_exhausted = put window n s.budgets_exhausted; last_seq = n }) in
    (t, e, λ k. ground (arith, h k, get-put window k n s.budgets_exhausted))

quiet :
    (pricing : Dict ℕ) (t : State) (ws : List BudgetWindow)
    → All (λ w. is_some (get (budget_window w.scope w.day) t.budgets_exhausted) ≡ true) ws
    → budget_stop pricing t ws ≡ []
unfolding budget_stop
quiet pricing t [] h = refl
quiet pricing t (w ∷ ws) h = rw h.0 (quiet pricing t ws h.1)

covered :
    (pricing : Dict ℕ) (s t : State) (all : List BudgetExhaustedPayload) (ws : List BudgetWindow)
    → ((k : String)
        → is_some (get k t.budgets_exhausted)
          ≡ (names k all || is_some (get k s.budgets_exhausted)))
    → ((k : String) → names k (budget_stop pricing s ws) ≡ true → names k all ≡ true)
    → All (λ w. is_some (get (budget_window w.scope w.day) t.budgets_exhausted) ≡ true) ws
unfolding budget_stop
covered pricing s t all [] h sub = tt
covered pricing s t all (w ∷ ws) h sub =
    let k = budget_window w.scope w.day in
    (
      elim (Bool-cases (is_some (get k s.budgets_exhausted))) [
        | inl there ↦ ground (arith, h k, there)
        | inr fresh ↦ ground (arith, h k, sub k, fresh, eq_refl k)
      ],
      covered pricing s t all ws h (λ j m. ground (arith, sub j, m)),
    )

-- A window is recorded once: the log with the BudgetExhausted events that budgetStop emits replays, and
-- to a state in which budgetStop emits nothing for the same windows.
pub budget_stop_once :
    (pricing : Dict ℕ) (s : State) (ws : List BudgetWindow) (n ts : ℕ)
    → (t : State) × (fold_from (stamped n ts (budget_stop pricing s ws)) s ≡ Apply.ok t)
      × (budget_stop pricing t ws ≡ [])
budget_stop_once pricing s ws n ts =
    let (t, e, h) = recorded (budget_stop pricing s ws) n ts s in
    (t, e, quiet pricing t ws (covered pricing s t (budget_stop pricing s ws) ws h (λ k m. m)))
