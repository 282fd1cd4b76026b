-- ===== src/State/Tally.antt =====
-- What the loop of GoalConditions over the tasks gathers.
use age_of_agents.Base.{
  String, ◌==◌, Bool, true, false, not, ◌&&◌, ◌||◌, ◌≡◌, refl, sym, ap, ◌∙◌, subst, true≢false,
  Option, none, some, List, [], ◌∷◌, if◌then◌else◌, arith, Bool-cases, inl, inr,
}
use age_of_agents.Base.Partial.{Elem}
use age_of_agents.State.Model.{
  Ticket, TicketStatus, pending, ready, claimed, running, proposed, is_awaiting, is_failed,
}
use age_of_agents.State.Outcome.{Tasks, no_tasks, note_task, scan_tasks}

-- The first task of these that passes a test.
abbrev pub first_of : (Ticket → Bool) → List Ticket → Option Ticket
first_of p [] = none
first_of p (t ∷ ts) = let rest = first_of p ts in if p t then some t else rest

abbrev pub exists : (Ticket → Bool) → List Ticket → Bool
exists p [] = false
exists p (t ∷ ts) = p t || exists p ts

abbrev otherwise : Option Ticket → Option Ticket → Option Ticket
otherwise (some t) o = some t
otherwise none o = o

-- Pending, ready, claimed, running or proposed.
abbrev pub is_working : TicketStatus → Bool
is_working pending = true
is_working ready = true
is_working claimed = true
is_working running = true
is_working proposed = true
is_working _ = false

module _ (id : String) where
  abbrev pub of_goal : Ticket → Bool
  of_goal t = t.goal_id == id

  abbrev pub parked : Ticket → Bool
  parked t = t.goal_id == id && is_awaiting t.status

  abbrev pub working : Ticket → Bool
  working t = t.goal_id == id && is_working t.status

  abbrev pub lost : Ticket → Bool
  lost t = t.goal_id == id && is_failed t.status

  abbrev pub denied : Ticket → Bool
  denied t = t.goal_id == id && is_failed t.status && t.rejected

  abbrev Gathered : Tasks → Tasks → List Ticket → Type 0
  Gathered k u ts =
      (u.has_tickets ≡ (k.has_tickets || exists of_goal ts))
      × (u.is_parked ≡ (k.is_parked || exists parked ts))
      × (u.in_flight ≡ (k.in_flight || exists working ts))
      × (u.first_failed ≡ otherwise k.first_failed (first_of lost ts))
      × (u.first_rejected ≡ otherwise k.first_rejected (first_of denied ts))

  note_task-Gathered :
      (k : Tasks) (t : Ticket) → (t.goal_id == id) ≡ true → Gathered k (note_task k t) (t ∷ [])
  note_task-Gathered k t h = (
    ground (arith, h),
    ground (arith, h),
    ground (arith, h),
    ground (arith, h),
    ground (arith, h),
  )

  abbrev seen : Tasks → Ticket → Tasks
  seen k t = if not (t.goal_id == id) then k else note_task k t

  seen-Gathered : (k : Tasks) (t : Ticket) → Gathered k (seen k t) (t ∷ [])
  seen-Gathered k t = elim (Bool-cases (t.goal_id == id)) [
    | inl own ↦
        subst (λ b. Gathered k (if not b then k else note_task k t) (t ∷ [])) (sym own)
          (note_task-Gathered k t own)
    | inr other ↦
        subst (λ b. Gathered k (if not b then k else note_task k t) (t ∷ [])) (sym other)
          (skipped k t other)
  ]
    where
      skipped : (k : Tasks) (t : Ticket) → (t.goal_id == id) ≡ false → Gathered k k (t ∷ [])
      skipped k t h = (
        ground (arith, h),
        ground (arith, h),
        ground (arith, h),
        ground (arith, h),
        ground (arith, h),
      )

  otherwise_assoc :
      (a b c : Option Ticket) → otherwise (otherwise a b) c ≡ otherwise a (otherwise b c)
  otherwise_assoc (some t) b c = refl
  otherwise_assoc none b c = refl

  first_of-cons :
      (p : Ticket → Bool) (t : Ticket) (ts : List Ticket)
      → first_of p (t ∷ ts) ≡ otherwise (first_of p (t ∷ [])) (first_of p ts)
  first_of-cons p t ts = elim (Bool-cases (p t)) [ inl h ↦ rw h refl | inr h ↦ rw h refl ]

  Gathered-next :
      (k k' u : Tasks) (t : Ticket) (ts : List Ticket)
      → Gathered k k' (t ∷ [])
      → Gathered k' u ts
      → Gathered k u (t ∷ ts)
  Gathered-next k k' u t ts (a, b, c, d, e) (a', b', c', d', e') = (
    ground (arith, a, a'),
    ground (arith, b, b'),
    ground (arith, c, c'),
    d'
        ∙ ap (λ o. otherwise o (first_of lost ts)) d
        ∙ otherwise_assoc k.first_failed (first_of lost (t ∷ [])) (first_of lost ts)
        ∙ ap (λ o. otherwise k.first_failed o) (sym (first_of-cons lost t ts)),
    e'
        ∙ ap (λ o. otherwise o (first_of denied ts)) e
        ∙ otherwise_assoc k.first_rejected (first_of denied (t ∷ [])) (first_of denied ts)
        ∙ ap (λ o. otherwise k.first_rejected o) (sym (first_of-cons denied t ts)),
  )

  scan_tasks-Gathered : (k : Tasks) (ts : List Ticket) → Gathered k (scan_tasks id k ts) ts
  unfolding scan_tasks
  scan_tasks-Gathered k [] = (ground arith, ground arith, ground arith, ground arith, ground arith)
  scan_tasks-Gathered k (t ∷ ts) =
      Gathered-next k (seen k t) (scan_tasks id (seen k t) ts) t ts (seen-Gathered k t)
        (scan_tasks-Gathered (seen k t) ts)

  -- The flags and the tickets of the loop, read off the tasks.
  abbrev pub Tallies : Tasks → List Ticket → Type 0
  Tallies k ts =
      (k.has_tickets ≡ exists of_goal ts)
      × (k.is_parked ≡ exists parked ts)
      × (k.in_flight ≡ exists working ts)
      × (k.first_failed ≡ first_of lost ts)
      × (k.first_rejected ≡ first_of denied ts)

  pub scan_tasks-Tallies : (ts : List Ticket) → Tallies (scan_tasks id no_tasks ts) ts
  scan_tasks-Tallies ts = scan_tasks-Gathered no_tasks ts

-- A task of these passes the test.
abbrev pub Has : (Ticket → Bool) → List Ticket → Type 0
Has p ts = (t : Ticket) × Elem t ts × (p t ≡ true)

pub exists-Has : (p : Ticket → Bool) (ts : List Ticket) → exists p ts ≡ true → Has p ts
exists-Has p [] h = absurd (cc)
exists-Has p (t ∷ ts) h = elim (Bool-cases (p t)) [
  | inl holds ↦ (t, inl refl, holds)
  | inr fails ↦ let (u, i, k) = exists-Has p ts (ground (arith, h, fails)) in (u, inr i, k)
]

Has-exists : (p : Ticket → Bool) (ts : List Ticket) → Has p ts → exists p ts ≡ true
Has-exists p [] (t, i, h) = absurd i
Has-exists p (u ∷ ts) (t, inl same, h) =
    let holds = subst (λ x. p x ≡ true) (sym same) h in ground (arith, holds)
Has-exists p (u ∷ ts) (t, inr i, h) = let later = Has-exists p ts (t, i, h) in ground (arith, later)

pub exists-none : (p : Ticket → Bool) (ts : List Ticket) → exists p ts ≡ false → Has p ts → ⊥
exists-none p ts h k = true≢false (sym (Has-exists p ts k) ∙ h)

pub first_of-Has : (p : Ticket → Bool) (ts : List Ticket) → first_of p ts ≡ none → Has p ts → ⊥
first_of-Has p [] h (t, i, k) = i
first_of-Has p (u ∷ ts) h (t, inl same, k) =
    let holds = subst (λ x. p x ≡ true) (sym same) k in absurd (ground (arith, h, holds))
first_of-Has p (u ∷ ts) h (t, inr i, k) = elim (Bool-cases (p u)) [
  | inl holds ↦ absurd (ground (arith, h, holds))
  | inr fails ↦ first_of-Has p ts (ground (arith, h, fails)) (t, i, k)
]
