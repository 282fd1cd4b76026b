-- ===== src/State/Budget/Windows.antt =====
-- Windows of the log, as internal/state/budget.go counts them, and their complements.
use age_of_agents.Base.{
  ◌+◌, Bool, true, false, not, ◌≡◌, Option, none, some, List, [], ◌∷◌, arith, String,
}
use age_of_agents.Base.Dict.{Dict}
use age_of_agents.Api.Event.{Event}
use age_of_agents.State.Model.{Charge, Spend}
use age_of_agents.State.Spend.{charge_of, add}
use age_of_agents.State.Budget.{
  Usage, no_usage, started_goal, mark, count_start, count_charge, usage_from, usage_of,
}

add_tokens : (sp : Spend) (c : Charge) → (add sp c).tokens_spent ≡ sp.tokens_spent + c.tokens
unfolding add
add_tokens sp c = ground arith

add_cost :
    (sp : Spend) (c : Charge) → (add sp c).cost_usd_reported ≡ sp.cost_usd_reported + c.cost_usd
unfolding add
add_cost sp c = ground arith

-- The whole is the sum of two parts, and of a start from `a`, `b` and `c`.
record Splits (a b c : Usage) : Type 0 where
  tokens : a.spend.tokens_spent + b.spend.tokens_spent ≡ c.spend.tokens_spent
  cost : a.spend.cost_usd_reported + b.spend.cost_usd_reported ≡ c.spend.cost_usd_reported
  goals : a.goals + b.goals ≡ c.goals

count-Splits :
    (x : Bool) (start : Option String) (ch : Option (String × Charge)) (a b c : Usage)
    → Splits a b c
    → Splits
        (count_charge x ch (count_start x start a))
        (count_charge (not x) ch (count_start (not x) start b))
        (count_charge true ch (count_start true start c))
count-Splits true start none a b c h = ground arith
count-Splits false start none a b c h = ground arith
count-Splits true start (some (id, k)) a b c h = ground (
  arith,
  add_tokens (count_start true start a).spend k,
  add_tokens (count_start true start c).spend k,
  add_cost (count_start true start a).spend k,
  add_cost (count_start true start c).spend k,
)
count-Splits false start (some (id, k)) a b c h = ground (
  arith,
  add_tokens (count_start true start b).spend k,
  add_tokens (count_start true start c).spend k,
  add_cost (count_start true start b).spend k,
  add_cost (count_start true start c).spend k,
)

usage_from-Splits :
    (within : Event → Bool) (started : Dict Bool) (a b c : Usage) (es : List Event)
    → Splits a b c
    → Splits
        (usage_from within started a es)
        (usage_from (λ e. not (within e)) started b es)
        (usage_from (λ e. true) started c es)
unfolding usage_from
usage_from-Splits within started a b c [] h = h
usage_from-Splits within started a b c (e ∷ es) h =
    usage_from-Splits within (mark (started_goal e.body started) started) _ _ _ es
      (count-Splits (within e) (started_goal e.body started) (charge_of e) a b c h)

-- Every token, every reported cost and every Goal start of a log is counted in a window or in its
-- complement, and in only one of them.
pub usage_of_split :
    (events : List Event) (within : Event → Bool)
    → let u = usage_of events within in
      let v = usage_of events (λ e. not (within e)) in
      let all = usage_of events (λ e. true) in
      (u.spend.tokens_spent + v.spend.tokens_spent ≡ all.spend.tokens_spent)
      × (u.spend.cost_usd_reported + v.spend.cost_usd_reported ≡ all.spend.cost_usd_reported)
      × (u.goals + v.goals ≡ all.goals)
unfolding usage_of
usage_of_split events within =
    let s = usage_from-Splits within [] no_usage no_usage no_usage events (omega arith) in
    (s.tokens, s.cost, s.goals)
