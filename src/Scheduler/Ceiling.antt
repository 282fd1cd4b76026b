-- ===== src/Scheduler/Ceiling.antt =====
-- Which tasks the spend governor fails, and which trips it records.
use age_of_agents.Base.{
  ◌<◌, ◌≤◌, String, ◌==◌, Bool, true, false, ◌≡◌, ◌⊎◌, ◌↔◌, inl, inr, refl, sym, subst, List, arith,
  Bool-cases, eq_iff,
}
use age_of_agents.Base.Dict.{values}
use age_of_agents.Base.Partial.{Elem}
use age_of_agents.Api.Event.{Body}
use age_of_agents.State.Model.{Ticket, Goal, State, TicketStatus, pending, ready}
use age_of_agents.State.Spend.{cost_usd}
use age_of_agents.Scheduler.Spending.{
  CeilingOptions, token_exceeded, trip, over_budget, reason_for, not_started, enforce_budgets,
}
use age_of_agents.Scheduler.Tripped.{IsOver, Elem-enforce_budgets, Elem-undispatched}

abbrev pub fails_task : String → Body → Bool
fails_task id (Body.ticket_failed p) = p.ticket_id == id
fails_task id _ = false

abbrev pub trips_goal : String → Body → Bool
trips_goal id (Body.goal_budget_exceeded p) = p.goal_id == id
trips_goal id _ = false

-- An event that passes the test is emitted.
abbrev pub Emitted : (Body → Bool) → List Body → Type 0
Emitted is bs = (b : Body) × Elem b bs × (is b ≡ true)

-- A ceiling of the Goal's spend is set and reached.
abbrev pub IsReached : CeilingOptions → Goal → Type 0
IsReached o g =
    ((0 < o.max_tokens_per_goal) × (o.max_tokens_per_goal ≤ g.spend.tokens_spent))
    ⊎ ((0 < o.max_usd_per_goal) × (o.max_usd_per_goal ≤ cost_usd g.spend o.pricing))

over : (o : CeilingOptions) (g : Goal) → IsReached o g → IsOver o g
over o g (inl h) = ground (arith, h)
over o g (inr h) = ground (arith, h)

reached : (o : CeilingOptions) (g : Goal) → IsOver o g → IsReached o g
reached o g h = elim (Bool-cases (token_exceeded o g)) [
  | inl tokens ↦ inl (ground (arith, tokens))
  | inr few ↦ inr (ground (arith, h, few))
]

idle : (s : TicketStatus) → (s ≡ pending) ⊎ (s ≡ ready) → not_started s ≡ true
idle s (inl h) = rw h refl
idle s (inr h) = rw h refl

waits : (s : TicketStatus) → not_started s ≡ true → (s ≡ pending) ⊎ (s ≡ ready)
waits pending h = inl refl
waits ready h = inr refl
waits _ h = absurd (cc)

-- A pending or ready task of a Goal over a ceiling.
abbrev pub IsHeld : CeilingOptions → State → Ticket → Type 0
IsHeld o s t =
    Elem t (values s.tickets)
    × ((t.status ≡ pending) ⊎ (t.status ≡ ready))
    × ((g : Goal) × Elem g (values s.goals) × (t.goal_id ≡ g.id) × IsReached o g)

module _ (o : CeilingOptions) (s : State) (id : String) where
  failing :
      Emitted (fails_task id) (enforce_budgets o s) → (t : Ticket) × (t.id ≡ id) × IsHeld o s t
  failing (b, i, is) =
      let (g, j, above, e) = (Elem-enforce_budgets o s b).0 i in
      elim e [
        | inl (first, same) ↦
            absurd (ground (arith, is, subst (λ x. fails_task id x ≡ false) same refl))
        | inr (t, k, same) ↦
            let (m, chosen) = (Elem-undispatched s g t).0 k in
            let mine = subst (λ x. fails_task id x ≡ true) (sym same) is in
            (
              t,
              ground (arith, eq_iff t.id id, mine),
              (
                m,
                waits t.status (ground (arith, chosen)),
                (g, j, ground (arith, eq_iff t.goal_id g.id, chosen), reached o g above),
              ),
            )
      ]

  fails :
      ((t : Ticket) × (t.id ≡ id) × IsHeld o s t) → Emitted (fails_task id) (enforce_budgets o s)
  fails (t, same, (m, unstarted, (g, j, of, spent))) = (
    over_budget (reason_for o g) t,
    (Elem-enforce_budgets o s (over_budget (reason_for o g) t)).1 (
      g,
      j,
      over o g spent,
      inr (
        t,
        (Elem-undispatched s g t).1
            (m, ground (arith, eq_iff t.goal_id g.id, of, idle t.status unstarted)),
        refl,
      ),
    ),
    ground (arith, eq_iff t.id id, same),
  )

  tripping :
      Emitted (trips_goal id) (enforce_budgets o s)
      → (g : Goal) × Elem g (values s.goals)
        × (g.id ≡ id)
        × IsReached o g
        × (g.budget_exceeded ≡ false)
  tripping (b, i, is) =
      let (g, j, above, e) = (Elem-enforce_budgets o s b).0 i in
      elim e [
        | inl (first, same) ↦ (
          g,
          j,
          ground (arith, eq_iff g.id id, subst (λ x. trips_goal id x ≡ true) (sym same) is),
          reached o g above,
          first,
        )
        | inr (t, k, same) ↦
            absurd (ground (arith, is, subst (λ x. trips_goal id x ≡ false) same refl))
      ]

  trips :
      ((g : Goal) × Elem g (values s.goals)
        × (g.id ≡ id)
        × IsReached o g
        × (g.budget_exceeded ≡ false))
      → Emitted (trips_goal id) (enforce_budgets o s)
  trips (g, j, same, spent, first) = (
    trip o g,
    (Elem-enforce_budgets o s (trip o g)).1 (g, j, over o g spent, inl (first, refl)),
    ground (arith, eq_iff g.id id, same),
  )

-- enforceBudgets fails exactly the tasks with a pending or ready ticket whose Goal has reached a ceiling
-- that is set, and it records a trip of exactly the Goals over a ceiling that have no trip recorded.
pub enforce_budgets_exact :
    (o : CeilingOptions) (s : State) (id : String)
    → (Emitted (fails_task id) (enforce_budgets o s) ↔ ((t : Ticket) × (t.id ≡ id) × IsHeld o s t))
      × (Emitted (trips_goal id) (enforce_budgets o s) ↔ (
          (g : Goal) × Elem g (values s.goals)
          × (g.id ≡ id)
          × IsReached o g
          × (g.budget_exceeded ≡ false)))
enforce_budgets_exact o s id = ((failing o s id, fails o s id), (tripping o s id, trips o s id))
