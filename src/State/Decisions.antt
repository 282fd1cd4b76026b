-- ===== src/State/Decisions.antt =====
-- What the replay records of a human's decision on a parked proposal, and of dispatches.
use age_of_agents.Base.{
  ℕ, ◌+◌, String, ◌==◌, true, false, ◌≡◌, refl, sym, ◌∙◌, subst, some-injective, List, [], ◌∷◌,
  arith, none, some, if◌then◌else◌,
}
use age_of_agents.Api.EventType
use age_of_agents.Api.Event.{Event, Body, event_type}
use age_of_agents.State.Model.{Ticket, State, awaiting, proposed, failed}
use age_of_agents.State.Spend.{charge_of}
use age_of_agents.State.Handlers.{
  on_decomposed, on_ready, on_claimed, on_work_started, on_heartbeat, on_proposal,
  on_verification_failed, on_merged, on_ticket_failed, on_approval_requested, on_approval_granted,
  on_approval_denied, on_worker_restarted, on_invalidated, on_ticket_amended,
}
use age_of_agents.Base.Dict.{get}
use age_of_agents.State.Apply.{ok, apply}
use age_of_agents.State.Budget.Replay.{is_snapshot}
use age_of_agents.State.TicketView.{apply-found, effect, charged, after, after_all}

charged-flags :
    (o : _) (j : String) (t : Ticket)
    → ((charged o j t).approved ≡ t.approved)
      × ((charged o j t).rejected ≡ t.rejected)
      × ((charged o j t).attempts ≡ t.attempts)
      × ((charged o j t).status ≡ t.status)
      × ((charged o j t).decided_seq ≡ t.decided_seq)
charged-flags none j t = (refl, refl, refl, refl, refl)
charged-flags (some (id, c)) j t = ground arith

module _ (seq ts : ℕ) where
  effect-approved :
      (b : Body) (j : String) (t : Ticket)
      → t.approved ≡ false
      → (effect seq ts b j t).approved ≡ true
      → (event_type b ≡ EventType.approval_granted)
        × (t.status ≡ awaiting)
        × ((effect seq ts b j t).status ≡ proposed)
        × ((effect seq ts b j t).decided_seq ≡ seq)
  unfolding event_type on_decomposed on_ready on_claimed on_work_started on_heartbeat on_proposal
      on_verification_failed on_merged on_ticket_failed on_approval_requested on_approval_granted
      on_approval_denied on_worker_restarted on_invalidated on_ticket_amended
  effect-approved (Body.goal_submitted p) j t h k = cc
  effect-approved _ j t h k = ground arith

  effect-rejected :
      (b : Body) (j : String) (t : Ticket)
      → t.rejected ≡ false
      → (effect seq ts b j t).rejected ≡ true
      → (event_type b ≡ EventType.approval_denied)
        × (t.status ≡ awaiting)
        × ((effect seq ts b j t).status ≡ failed)
        × ((effect seq ts b j t).decided_seq ≡ seq)
  unfolding event_type on_decomposed on_ready on_claimed on_work_started on_heartbeat on_proposal
      on_verification_failed on_merged on_ticket_failed on_approval_requested on_approval_granted
      on_approval_denied on_worker_restarted on_invalidated on_ticket_amended
  effect-rejected (Body.goal_submitted p) j t h k = cc
  effect-rejected _ j t h k = ground arith

after-approved :
    (e : Event) (j : String) (t : Ticket)
    → t.approved ≡ false
    → (after e j t).approved ≡ true
    → (event_type e.body ≡ EventType.approval_granted)
      × (t.status ≡ awaiting)
      × ((after e j t).status ≡ proposed)
      × ((after e j t).decided_seq ≡ e.seq)
after-approved e j t h k =
    let u = effect e.seq e.timestamp e.body j t in
    let f = charged-flags (charge_of e) j u in
    ground (arith, effect-approved e.seq e.timestamp e.body j t h, f)

after-rejected :
    (e : Event) (j : String) (t : Ticket)
    → t.rejected ≡ false
    → (after e j t).rejected ≡ true
    → (event_type e.body ≡ EventType.approval_denied)
      × (t.status ≡ awaiting)
      × ((after e j t).status ≡ failed)
      × ((after e j t).decided_seq ≡ e.seq)
after-rejected e j t h k =
    let u = effect e.seq e.timestamp e.body j t in
    let f = charged-flags (charge_of e) j u in
    ground (arith, effect-rejected e.seq e.timestamp e.body j t h, f)

module _ (e : Event) (j : String) (s u : State) (t x : Ticket) (whole : is_snapshot e.body ≡ false)
    (found : get j s.tickets ≡ some t) (done : apply e s ≡ ok u)
    (now : get j u.tickets ≡ some x) where
  same_task : after e j t ≡ x
  same_task = some-injective _ _ (sym (apply-found e j s u t whole found done) ∙ now)

  -- A task that Apply makes approved, other than by restoring a StateSnapshot, was parked for approval,
  -- the event is an ApprovalGranted, and it leaves the task proposed again, decided by that event.
  pub approved_needs_grant :
      t.approved ≡ false
      → x.approved ≡ true
      → (event_type e.body ≡ EventType.approval_granted)
        × (t.status ≡ awaiting)
        × (x.status ≡ proposed)
        × (x.decided_seq ≡ e.seq)
  approved_needs_grant h k =
      subst
        (λ y.
          y.approved ≡ true
          → (event_type e.body ≡ EventType.approval_granted)
            × (t.status ≡ awaiting)
            × (y.status ≡ proposed)
            × (y.decided_seq ≡ e.seq))
        same_task (after-approved e j t h) k

  -- A task that Apply makes rejected, other than by restoring a StateSnapshot, was parked for approval,
  -- the event is an ApprovalDenied, and it leaves the task failed, decided by that event.
  pub rejected_needs_denial :
      t.rejected ≡ false
      → x.rejected ≡ true
      → (event_type e.body ≡ EventType.approval_denied)
        × (t.status ≡ awaiting)
        × (x.status ≡ failed)
        × (x.decided_seq ≡ e.seq)
  rejected_needs_denial h k =
      subst
        (λ y.
          y.rejected ≡ true
          → (event_type e.body ≡ EventType.approval_denied)
            × (t.status ≡ awaiting)
            × (y.status ≡ failed)
            × (y.decided_seq ≡ e.seq))
        same_task (after-rejected e j t h) k

-- The dispatches of a task on a log: the claims that name it.
abbrev pub claims_of : Body → String → ℕ
claims_of (Body.ticket_claimed p) j = if p.ticket_id == j then 1 else 0
claims_of _ j = 0

abbrev pub claims : List Event → String → ℕ
claims [] j = 0
claims (e ∷ es) j = claims_of e.body j + claims es j

effect-attempts :
    (seq ts : ℕ) (b : Body) (j : String) (t : Ticket)
    → (effect seq ts b j t).attempts ≡ t.attempts + claims_of b j
unfolding on_decomposed on_ready on_claimed on_work_started on_heartbeat on_proposal
    on_verification_failed on_merged on_ticket_failed on_approval_requested on_approval_granted
    on_approval_denied on_worker_restarted on_invalidated on_ticket_amended
effect-attempts seq ts (Body.goal_submitted p) j t = omega arith
effect-attempts seq ts _ j t = ground arith

-- A task's attempts are its claims: after any events, snapshots aside, they have grown by the number of TicketClaimed
-- events that name it.
pub after_all-attempts :
    (es : List Event) (j : String) (t : Ticket)
    → (after_all es j t).attempts ≡ t.attempts + claims es j
after_all-attempts [] j t = omega arith
after_all-attempts (e ∷ es) j t = omega (
  arith,
  after_all-attempts es j (after e j t),
  effect-attempts e.seq e.timestamp e.body j t,
  (charged-flags (charge_of e) j (effect e.seq e.timestamp e.body j t)).2,
)
