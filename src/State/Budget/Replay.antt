-- ===== src/State/Budget/Replay.antt =====
-- The spend that internal/state/budget.go counts against the spend that the replay charges.
use age_of_agents.Base.{
  ℕ, Bool, true, false, ◌≡◌, refl, Option, none, some, List, [], ◌∷◌, arith, String, is_some, All,
}
use age_of_agents.Base.Dict.{Dict, get}
use age_of_agents.Api.Event.{Event, Body}
use age_of_agents.State.Model.{Charge, State, new}
use age_of_agents.State.Spend.{charge_of}
use age_of_agents.Api.EventType.{EventType, verification_passed, regression_escaped, worker_stalled}
use age_of_agents.State.Frame.{apply_goal_submitted-SameTasks}
use age_of_agents.State.Sessions.{apply_session_observed, apply_session_checked}
use age_of_agents.State.Apply.{
  apply_undecoded, apply_merged, apply_ticket_created, apply_budget_exhausted, Result, ok, err,
  ◌>>=◌, charge, charge_if, apply_body, apply, fold_from, fold,
}
use age_of_agents.State.Closed.{Ensures}
use age_of_agents.State.Budget.{
  Usage, no_usage, started_goal, mark, count_start, count_charge, usage_from, usage_of,
}

-- An event charges nothing, or a task that the state has.
abbrev pub IsCharged : Option (String × Charge) → State → Type 0
IsCharged none s = Unit {0}
IsCharged (some (id, c)) s = is_some (get id s.tickets) ≡ true

-- Every charge of a log is to a task that its replay knows when it is charged.
abbrev pub ChargesKnown : List Event → State → Type 0
ChargesKnown [] s = Unit {0}
ChargesKnown (e ∷ es) s =
    Ensures (IsCharged (charge_of e)) (apply_body e.seq e.timestamp e.body s)
    × Ensures (ChargesKnown es) (apply e s)

abbrev pub is_snapshot : Body → Bool
is_snapshot (Body.state_snapshot u) = true
is_snapshot _ = false

apply_body-spend :
    (seq ts : ℕ) (b : Body) (s : State)
    → is_snapshot b ≡ false
    → Ensures (λ t. t.spend ≡ s.spend) (apply_body seq ts b s)
unfolding apply_body apply_merged apply_ticket_created apply_budget_exhausted apply_session_observed
    apply_session_checked
apply_body-spend seq ts (Body.state_snapshot u) s h = absurd (cc)
apply_body-spend seq ts (Body.goal_submitted p) s h =
    (apply_goal_submitted-SameTasks seq ts p s).same_spend
apply_body-spend seq ts (Body.ticket_created p) s h = ground arith
apply_body-spend seq ts (Body.merged p) s h = ground arith
apply_body-spend seq ts (Body.undecoded t) s h = undecoded-spend t
  where
    undecoded-spend :
        (t : EventType) → Ensures (λ t. t.spend ≡ s.spend) (apply_undecoded seq ts t s)
    undecoded-spend verification_passed = refl
    undecoded-spend regression_escaped = refl
    undecoded-spend worker_stalled = refl
    undecoded-spend _ = tt
apply_body-spend seq ts _ s h = refl

charge_if-spend :
    (o : Option (String × Charge)) (start : Option String) (s t : State) (u : Usage)
    → IsCharged o t
    → t.spend ≡ s.spend
    → u.spend ≡ s.spend
    → (count_charge true o (count_start true start u)).spend ≡ (charge_if o t).spend
unfolding charge
charge_if-spend none none s t u k h e = cc
charge_if-spend none (some g) s t u k h e = cc
charge_if-spend (some (id, c)) none s t u k h e = ground arith
charge_if-spend (some (id, c)) (some g) s t u k h e = ground arith

-- One event adds to a window that it lies in what it adds to the replayed spend.
apply-spend :
    (e : Event) (start : Option String) (s : State) (u : Usage)
    → is_snapshot e.body ≡ false
    → Ensures (IsCharged (charge_of e)) (apply_body e.seq e.timestamp e.body s)
    → u.spend ≡ s.spend
    → Ensures
        (λ t. (count_charge true (charge_of e) (count_start true start u)).spend ≡ t.spend)
        (apply e s)
unfolding apply
apply-spend e start s u h k same =
    go (apply_body e.seq e.timestamp e.body s) k (apply_body-spend e.seq e.timestamp e.body s h)
  where
    go :
        (x : Result State)
        → Ensures (IsCharged (charge_of e)) x
        → Ensures (λ t. t.spend ≡ s.spend) x
        → Ensures
            (λ t. (count_charge true (charge_of e) (count_start true start u)).spend ≡ t.spend)
            (x >>= λ t. ok (record (charge_if (charge_of e) t) { last_seq = e.seq }))
    go (ok t) known kept = charge_if-spend (charge_of e) start s t u known kept same
    go (err x) known kept = tt

usage_from-spend :
    (es : List Event) (started : Dict Bool) (s t : State) (u : Usage)
    → All (λ e. is_snapshot e.body ≡ false) es
    → ChargesKnown es s
    → u.spend ≡ s.spend
    → fold_from es s ≡ ok t
    → (usage_from (λ e. true) started u es).spend ≡ t.spend
unfolding usage_from fold_from
usage_from-spend [] started s t u plain known same h = cc
usage_from-spend (e ∷ es) started s t u plain known same h =
    let start = started_goal e.body started in
    let u' = count_charge true (charge_of e) (count_start true start u) in
    elim (apply e s)
        as (λ x.
          Ensures (ChargesKnown es) x
          → Ensures (λ v. u'.spend ≡ v.spend) x
          → (x >>= fold_from es) ≡ ok t
          → (usage_from (λ e. true) (mark start started) u' es).spend ≡ t.spend) [
            | ok v ↦ λ k p q. usage_from-spend es (mark start started) v t u' plain.1 k p q
            | err x ↦ λ k p q. absurd (cc)
          ]
      known.1 (apply-spend e start s u plain.0 known.0 same) h

-- The budgets and the replay cannot disagree: the usage of a whole log and the state that the log
-- replays to have the same spend, per model too, on a log with no snapshot all of whose charges are to
-- tasks that are on the log when they are charged.
pub usage_of-fold :
    (es : List Event) (s : State)
    → All (λ e. is_snapshot e.body ≡ false) es
    → ChargesKnown es new
    → fold es ≡ ok s
    → (usage_of es (λ e. true)).spend ≡ s.spend
unfolding usage_of fold
usage_of-fold es s plain known h = usage_from-spend es [] new s no_usage plain known refl h
