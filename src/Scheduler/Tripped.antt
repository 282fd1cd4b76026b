-- ===== src/Scheduler/Tripped.antt =====
-- The events that the spend governor emits, one for one.
use age_of_agents.Base.{
  ◌==◌, Bool, true, false, not, ◌&&◌, ◌||◌, ◌≡◌, ◌⊎◌, ◌↔◌, inl, inr, refl, sym, subst, List, [],
  ◌∷◌, ◌++◌, keep, map, if◌then◌else◌, Bool-cases,
}
use age_of_agents.Base.Dict.{values}
use age_of_agents.Base.Partial.{Elem}
use age_of_agents.Base.Members.{Elem-append, Elem-keep, Elem-map}
use age_of_agents.Base.Sorting.{Elem-sort_by_id}
use age_of_agents.Api.Event.{Body}
use age_of_agents.State.Model.{Ticket, Goal, State}
use age_of_agents.Scheduler.Spending.{
  CeilingOptions, sorted_goals, token_exceeded, usd_exceeded, trip, over_budget, reason_for,
  not_started, undispatched, enforce_budget, enforce_each, enforce_budgets,
}

abbrev pub IsOver : CeilingOptions → Goal → Type 0
IsOver o g = (token_exceeded o g || usd_exceeded o g) ≡ true

-- What the governor emits of a Goal.
abbrev pub Emits : CeilingOptions → State → Goal → Body → Type 0
Emits o s g b =
    ((g.budget_exceeded ≡ false) × (trip o g ≡ b))
    ⊎ ((t : Ticket) × Elem t (undispatched s g) × (over_budget (reason_for o g) t ≡ b))

Elem-trip :
    (o : CeilingOptions) (g : Goal) (b : Body)
    → Elem b (if not g.budget_exceeded then trip o g ∷ [] else [])
      ↔ ((g.budget_exceeded ≡ false) × (trip o g ≡ b))
Elem-trip o g b = elim (Bool-cases g.budget_exceeded) [
  | inl tripped ↦ rw tripped (λ i. absurd i, λ h. absurd (cc))
  | inr first ↦ rw first (λ i. elim i [ inl e ↦ (refl, e) | inr j ↦ absurd j ], λ h. inl h.1)
]

Elem-guarded :
    {A : Type 0} (p q : Bool) (a : A) (xs : List A)
    → Elem a (if not p && not q then [] else xs) ↔ (((p || q) ≡ true) × Elem a xs)
Elem-guarded true q a xs = (λ i. (refl, i), λ h. h.1)
Elem-guarded false true a xs = (λ i. (refl, i), λ h. h.1)
Elem-guarded false false a xs = (λ i. absurd i, λ h. absurd (cc))

Elem-enforce_budget :
    (o : CeilingOptions) (s : State) (g : Goal) (b : Body)
    → Elem b (enforce_budget o s g) ↔ (IsOver o g × Emits o s g b)
unfolding enforce_budget
Elem-enforce_budget o s g b =
    let failures = map (over_budget (reason_for o g)) (undispatched s g) in
    let first = if not g.budget_exceeded then trip o g ∷ [] else [] in
    let (allowed, emitted) =
      Elem-guarded (token_exceeded o g) (usd_exceeded o g) b (first ++ failures) in
    let (split, join) = Elem-append b first failures in
    let (trips, tripped) = Elem-trip o g b in
    let (fails, failed) = Elem-map (over_budget (reason_for o g)) b (undispatched s g) in
    (
      λ i.
          let (over, j) = allowed i in
          (over, elim (split j) [ inl k ↦ inl (trips k) | inr k ↦ inr (fails k) ]),
      λ h. emitted (h.0, join (elim h.1 [ inl k ↦ inl (tripped k) | inr k ↦ inr (failed k) ])),
    )

Elem-enforce_each :
    (o : CeilingOptions) (s : State) (gs : List Goal) (b : Body)
    → Elem b (enforce_each o s gs) ↔ ((g : Goal) × Elem g gs × IsOver o g × Emits o s g b)
Elem-enforce_each o s [] b = (λ i. absurd i, λ h. absurd h.1)
Elem-enforce_each o s (g ∷ gs) b =
    let (split, join) = Elem-append b (enforce_budget o s g) (enforce_each o s gs) in
    let (now, at_once) = Elem-enforce_budget o s g b in
    let (later, afterwards) = Elem-enforce_each o s gs b in
    (
      λ i. elim (split i) [
        | inl j ↦ let (over, e) = now j in (g, inl refl, over, e)
        | inr j ↦ let (x, k, over, e) = later j in (x, inr k, over, e)
      ],
      λ (x, i, over, e). join (elim i [
        | inl same ↦ inl (at_once (subst (λ y. IsOver o y × Emits o s y b) (sym same) (over, e)))
        | inr k ↦ inr (afterwards (x, k, over, e))
      ]),
    )

pub Elem-enforce_budgets :
    (o : CeilingOptions) (s : State) (b : Body)
    → Elem b (enforce_budgets o s)
      ↔ ((g : Goal) × Elem g (values s.goals) × IsOver o g × Emits o s g b)
unfolding enforce_budgets sorted_goals
Elem-enforce_budgets o s b =
    let (split, join) = Elem-enforce_each o s (sorted_goals s) b in
    (
      λ i.
          let (g, j, over, e) = split i in
          (g, (Elem-sort_by_id (λ (x : Goal). x.id) g (values s.goals)).0 j, over, e),
      λ (g, j, over, e).
          join (g, (Elem-sort_by_id (λ (x : Goal). x.id) g (values s.goals)).1 j, over, e),
    )

pub Elem-undispatched :
    (s : State) (g : Goal) (t : Ticket)
    → Elem t (undispatched s g)
      ↔ (Elem t (values s.tickets) × ((t.goal_id == g.id && not_started t.status) ≡ true))
unfolding undispatched
Elem-undispatched s g t =
    let chosen = λ (x : Ticket). x.goal_id == g.id && not_started x.status in
    let (into, out) = Elem-sort_by_id (λ (x : Ticket). x.id) t (keep chosen (values s.tickets)) in
    let (kept, keeps) = Elem-keep chosen t (values s.tickets) in
    (λ i. kept (into i), λ h. out (keeps h))
