-- ===== src/State/Closed.antt =====
-- A rule for invariants of the replay: a predicate that is closed under the writes that `Apply` makes
-- holds after every event, and after every log.
use age_of_agents.Base.{
  ℕ, String, ◌≡◌, refl, subst, Option, none, some, List, [], ◌∷◌, All, Option-cases, inl, inr,
}
use age_of_agents.Base.Dict.{Dict, get, modify}
use age_of_agents.Api.EventType.{EventType, verification_passed, regression_escaped, worker_stalled}
use age_of_agents.Api.Payloads.{
  GoalSubmittedPayload, TicketCreatedPayload, SessionObservedPayload, SessionCheckedPayload,
  BudgetExhaustedPayload, MergedPayload,
}
use age_of_agents.Api.Event.{Event, Body}
use age_of_agents.State.Model.{Charge, Goal, Ticket, Session, State, new}
use age_of_agents.State.Spend.{charge_of}
use age_of_agents.State.Handlers.{
  on_decomposed, on_ready, on_claimed, on_work_started, on_heartbeat, on_proposal,
  on_verification_failed, on_merged, on_goal_merged, on_ticket_failed, on_approval_requested,
  on_approval_granted, on_approval_denied, on_worker_restarted, on_invalidated, on_ticket_amended,
  on_budget_exceeded, on_goal_amended, on_goal_cancelled, on_delivered, on_delivery_failed,
}
use age_of_agents.State.Identity.{
  Keeps, on_decomposed-Keeps, on_ready-Keeps, on_claimed-Keeps, on_work_started-Keeps,
  on_heartbeat-Keeps, on_proposal-Keeps, on_verification_failed-Keeps, on_merged-Keeps,
  on_ticket_failed-Keeps, on_approval_requested-Keeps, on_approval_granted-Keeps,
  on_approval_denied-Keeps, on_worker_restarted-Keeps, on_invalidated-Keeps,
  on_ticket_amended-Keeps,
}
use age_of_agents.State.GoalIdentity.{
  KeepsGoal, on_goal_merged-KeepsGoal, on_budget_exceeded-KeepsGoal, on_goal_amended-KeepsGoal,
  on_goal_cancelled-KeepsGoal, on_delivered-KeepsGoal, on_delivery_failed-KeepsGoal,
}
use age_of_agents.State.Sessions.{apply_session_observed, apply_session_checked}
use age_of_agents.State.Apply.{
  Result, ok, err, ◌>>=◌, restore, apply_undecoded, charge, charge_if, apply_goal_submitted,
  apply_ticket_created, apply_merged, apply_budget_exhausted, apply_body, apply, fold_from, fold,
}

pub record Closed (P : State → Type 0) : Type 0 where
  pub ticket :
      (id : String) (f : Ticket → Ticket) (s : State)
      → Keeps f
      → P s
      → P (record s { tickets = modify id f s.tickets })
  pub goal :
      (id : String) (f : Goal → Goal) (s : State)
      → KeepsGoal f
      → P s
      → P (record s { goals = modify id f s.goals })
  pub goal_submitted :
      (seq ts : ℕ) (p : GoalSubmittedPayload) (s : State)
      → P s
      → P (apply_goal_submitted seq ts p s)
  pub ticket_created :
      (seq ts : ℕ) (p : TicketCreatedPayload) (s : State)
      → P s
      → P (apply_ticket_created seq ts p s)
  pub budgets : (m : Dict ℕ) (s : State) → P s → P (record s { budgets_exhausted = m })
  pub sessions : (m : Dict Session) (s : State) → P s → P (record s { sessions = m })
  pub charged : (id : String) (c : Charge) (s : State) → P s → P (charge id c s)
  pub sequenced : (n : ℕ) (s : State) → P s → P (record s { last_seq = n })

-- A snapshot, if the body is one, restores only states that satisfy the predicate.
abbrev pub Restores : (State → Type 0) → Body → Type 0
Restores P (Body.state_snapshot unmarshal) = (s t : State) → P s → unmarshal s ≡ some t → P t
Restores P _ = Unit {0}

-- What holds of the state that a result carries, if it carries one.
abbrev pub Ensures : (State → Type 0) → Result State → Type 0
Ensures P (ok t) = P t
Ensures P (err e) = Unit {0}

-- Every snapshot of a log restores only states that satisfy the predicate.
abbrev pub AllRestore : (State → Type 0) → List Event → Type 0
AllRestore P es = All (λ e. Restores P e.body) es

module _ {P : State → Type 0} (c : Closed P) where
  closed_session_observed :
      (seq ts : ℕ) (p : SessionObservedPayload) (s : State)
      → P s
      → P (apply_session_observed seq ts p s)
  unfolding apply_session_observed
  closed_session_observed seq ts p s h = c.sessions _ s h

  closed_session_checked :
      (seq ts : ℕ) (p : SessionCheckedPayload) (s : State)
      → P s
      → P (apply_session_checked seq ts p s)
  unfolding apply_session_checked
  closed_session_checked seq ts p s h = c.sessions _ s h

  closed_budget_exhausted :
      (seq ts : ℕ) (p : BudgetExhaustedPayload) (s : State)
      → P s
      → P (apply_budget_exhausted seq ts p s)
  unfolding apply_budget_exhausted
  closed_budget_exhausted seq ts p s h = c.budgets _ s h

  closed_merged : (seq ts : ℕ) (p : MergedPayload) (s : State) → P s → P (apply_merged seq ts p s)
  unfolding apply_merged
  closed_merged seq ts p s h = elim (Option-cases (get p.ticket_id s.tickets)) [
    | inl missing ↦ rw (missing, apply_merged) h
    | inr (t, found) ↦
        rw (found, apply_merged)
          (c.goal t.goal_id (on_goal_merged seq ts p) _ (on_goal_merged-KeepsGoal seq ts p)
            (c.ticket p.ticket_id (on_merged seq ts p) s (on_merged-Keeps seq ts p) h))
  ]

  closed_charge_if : (o : Option (String × Charge)) (s : State) → P s → P (charge_if o s)
  closed_charge_if none s h = h
  closed_charge_if (some (id, k)) s h = c.charged id k s h

  closed_restore : (o : Option State) → ((t : State) → o ≡ some t → P t) → Ensures P (restore o)
  closed_restore none keep = tt
  closed_restore (some t) keep = keep t refl

  module _ (seq ts : ℕ) where
    closed_undecoded : (t : EventType) (s : State) → P s → Ensures P (apply_undecoded seq ts t s)
    closed_undecoded verification_passed s h = h
    closed_undecoded regression_escaped s h = h
    closed_undecoded worker_stalled s h = h
    closed_undecoded _ s h = tt

    closed_body : (b : Body) (s : State) → Restores P b → P s → Ensures P (apply_body seq ts b s)
    unfolding apply_body
    closed_body (Body.state_snapshot u) s r h = closed_restore (u s) (λ t e. r s t h e)
    closed_body (Body.goal_submitted p) s r h = c.goal_submitted seq ts p s h
    closed_body (Body.ticket_created p) s r h = c.ticket_created seq ts p s h
    closed_body (Body.merged p) s r h = closed_merged seq ts p s h
    closed_body (Body.budget_exhausted p) s r h = closed_budget_exhausted seq ts p s h
    closed_body (Body.session_observed p) s r h = closed_session_observed seq ts p s h
    closed_body (Body.session_checked p) s r h = closed_session_checked seq ts p s h
    closed_body (Body.undecoded t) s r h = closed_undecoded t s h
    closed_body (Body.ticket_decomposed p) s r h =
        c.ticket p.ticket_id (on_decomposed seq ts p) s (on_decomposed-Keeps seq ts p) h
    closed_body (Body.ticket_ready p) s r h =
        c.ticket p.ticket_id (on_ready seq ts) s (on_ready-Keeps seq ts) h
    closed_body (Body.ticket_claimed p) s r h =
        c.ticket p.ticket_id (on_claimed seq ts p) s (on_claimed-Keeps seq ts p) h
    closed_body (Body.work_started p) s r h =
        c.ticket p.ticket_id (on_work_started seq ts) s (on_work_started-Keeps seq ts) h
    closed_body (Body.heartbeat p) s r h =
        c.ticket p.ticket_id (on_heartbeat seq ts) s (on_heartbeat-Keeps seq ts) h
    closed_body (Body.proposal_submitted p) s r h =
        c.ticket p.ticket_id (on_proposal seq ts p) s (on_proposal-Keeps seq ts p) h
    closed_body (Body.verification_failed p) s r h =
        c.ticket p.ticket_id (on_verification_failed seq ts p) s
          (on_verification_failed-Keeps seq ts p) h
    closed_body (Body.ticket_failed p) s r h =
        c.ticket p.ticket_id (on_ticket_failed seq ts p) s (on_ticket_failed-Keeps seq ts p) h
    closed_body (Body.approval_requested p) s r h =
        c.ticket p.ticket_id (on_approval_requested seq ts) s (on_approval_requested-Keeps seq ts) h
    closed_body (Body.approval_granted p) s r h =
        c.ticket p.ticket_id (on_approval_granted seq ts) s (on_approval_granted-Keeps seq ts) h
    closed_body (Body.approval_denied p) s r h =
        c.ticket p.ticket_id (on_approval_denied seq ts) s (on_approval_denied-Keeps seq ts) h
    closed_body (Body.worker_restarted p) s r h =
        c.ticket p.ticket_id (on_worker_restarted seq ts p) s (on_worker_restarted-Keeps seq ts p) h
    closed_body (Body.ticket_invalidated p) s r h =
        c.ticket p.ticket_id (on_invalidated seq ts p) s (on_invalidated-Keeps seq ts p) h
    closed_body (Body.ticket_amended p) s r h =
        c.ticket p.ticket_id (on_ticket_amended seq ts p) s (on_ticket_amended-Keeps seq ts p) h
    closed_body (Body.goal_budget_exceeded p) s r h =
        c.goal p.goal_id (on_budget_exceeded seq ts) s (on_budget_exceeded-KeepsGoal seq ts) h
    closed_body (Body.goal_amended p) s r h =
        c.goal p.goal_id (on_goal_amended seq ts p) s (on_goal_amended-KeepsGoal seq ts p) h
    closed_body (Body.goal_cancelled p) s r h =
        c.goal p.goal_id (on_goal_cancelled seq ts) s (on_goal_cancelled-KeepsGoal seq ts) h
    closed_body (Body.delivered p) s r h =
        c.goal p.goal_id (on_delivered seq ts p) s (on_delivered-KeepsGoal seq ts p) h
    closed_body (Body.delivery_failed p) s r h =
        c.goal p.goal_id (on_delivery_failed seq ts p) s (on_delivery_failed-KeepsGoal seq ts p) h
    closed_body (Body.verification_passed p) s r h = h
    closed_body (Body.regression_escaped p) s r h = h
    closed_body (Body.worker_stalled p) s r h = h

  -- One event.
  pub closed_apply : (e : Event) (s : State) → Restores P e.body → P s → Ensures P (apply e s)
  unfolding apply
  closed_apply e s r h =
      charge_result (apply_body e.seq e.timestamp e.body s)
        (closed_body e.seq e.timestamp e.body s r h)
    where
      charge_result :
          (x : Result State)
          → Ensures P x
          → Ensures P (x >>= λ t. ok (record (charge_if (charge_of e) t) { last_seq = e.seq }))
      charge_result (ok t) k = c.sequenced e.seq _ (closed_charge_if (charge_of e) t k)
      charge_result (err x) k = tt

  -- Every event of a log.
  pub closed_fold_from :
      (es : List Event) (s : State) → AllRestore P es → P s → Ensures P (fold_from es s)
  unfolding fold_from
  closed_fold_from [] s r h = h
  closed_fold_from (e ∷ es) s r h =
      elim (apply e s) as (λ x. Ensures P x → Ensures P (x >>= fold_from es)) [
        | ok t ↦ λ k. closed_fold_from es t r.1 k
        | err x ↦ λ k. tt
      ]
        (closed_apply e s r.0 h)

  pub closed_fold : (es : List Event) (s : State) → AllRestore P es → P new → fold es ≡ ok s → P s
  unfolding fold
  closed_fold es s r h e = subst (Ensures P) e (closed_fold_from es new r h)
