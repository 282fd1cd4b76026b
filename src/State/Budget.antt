-- ===== src/State/Budget.antt =====
-- internal/state/budget.go: what a window of the Event Log spent, and the limits on it. `day_of` is
-- the UTC calendar day of a time, which Go's `time` package computes.
pub mod Windows
pub mod Replay
use age_of_agents.Base.{
  ℕ, suc, ◌+◌, String, ◌==◌, Bool, true, false, ◌&&◌, ◌||◌, not, Option, none, some, List, [], ◌∷◌,
  ltb, leb, eqb, get_or, if◌then◌else◌,
}
use age_of_agents.Base.Dict.{Dict, get, put}
use age_of_agents.Api.Event.{Event, Body}
use age_of_agents.State.Model.{Charge, Spend, no_spend}
use age_of_agents.State.Spend.{add, charge_of, cost_usd}

pub record Usage : Type 0 where
  pub spend : Spend
  pub goals : ℕ

abbrev pub no_usage : Usage
no_usage = record { spend = no_spend; goals = 0 }

-- The Goal that an event starts, if it is a task's creation and the Goal has no task before it.
abbrev pub started_goal : Body → Dict Bool → Option String
started_goal (Body.ticket_created p) started =
    if get_or (get p.goal_id started) false then none else some p.goal_id
started_goal _ started = none

abbrev pub mark : Option String → Dict Bool → Dict Bool
mark none started = started
mark (some goal) started = put goal true started

abbrev pub count_start : Bool → Option String → Usage → Usage
count_start true (some goal) u = record u { goals = suc u.goals }
count_start _ _ u = u

abbrev pub count_charge : Bool → Option (String × Charge) → Usage → Usage
count_charge true (some (id, c)) u = record u { spend = add u.spend c }
count_charge _ _ u = u

-- The loop of usageOf over the events, with its set of started Goals.
unfoldable pub usage_from : (Event → Bool) → Dict Bool → Usage → List Event → Usage
usage_from within started u [] = u
usage_from within started u (e ∷ es) =
    let start = started_goal e.body started in
    usage_from within (mark start started)
      (count_charge (within e) (charge_of e) (count_start (within e) start u)) es

-- usageOf
unfoldable pub usage_of : List Event → (Event → Bool) → Usage
unfolding usage_from
usage_of events within = usage_from within [] no_usage events

-- RunUsage
unfoldable pub run_usage : List Event → ℕ → Usage
unfolding usage_of
run_usage events since = usage_of events (λ e. ltb since e.seq)

-- DayUsage
unfoldable pub day_usage : (ℕ → String) → List Event → String → Usage
unfolding usage_of
day_usage day_of events day = usage_of events (λ e. day_of e.timestamp == day)

pub record Budget : Type 0 where
  pub usd : ℕ
  pub tokens : ℕ
  pub goals : ℕ

-- Budget.IsZero
unfoldable pub is_zero : Budget → Bool
is_zero b = eqb b.usd 0 && eqb b.tokens 0 && eqb b.goals 0

-- Budget.SpendReached
unfoldable pub spend_reached : Budget → Usage → Dict ℕ → Bool
spend_reached b u pricing =
    (ltb 0 b.usd && leb b.usd (cost_usd u.spend pricing))
    || (ltb 0 b.tokens && leb b.tokens u.spend.tokens_spent)

-- Budget.GoalsReached
unfoldable pub goals_reached : Budget → Usage → Bool
goals_reached b u = ltb 0 b.goals && leb b.goals u.goals
