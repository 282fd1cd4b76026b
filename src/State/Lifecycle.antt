-- ===== src/State/Lifecycle.antt =====
-- The lifecycle of a task: the diagram of its statuses, and what only a human's decision may change.
use age_of_agents.Base.{
  ℕ, String, ◌==◌, Bool, true, false, ◌≡◌, refl, ◌∙◌, ◌⊎◌, inl, inr, List, [], ◌∷◌, All, arith,
  Bool-cases, Option, none, some,
}
use age_of_agents.Api.EventType.{EventType}
use age_of_agents.Api.Payloads.{
  ProposalSubmittedPayload, VerificationFailedPayload, TicketFailedPayload, WorkerRestartedPayload,
  TicketInvalidatedPayload,
}
use age_of_agents.Api.Event.{Event, Body, event_type}
use age_of_agents.State.Model.{
  TicketStatus, pending, ready, claimed, running, proposed, awaiting, merged, failed, decomposed,
  is_open, is_dispatchable, is_terminal, Ticket, Charge, State,
}
use age_of_agents.State.Spend.{charge_of}
use age_of_agents.State.Handlers.{
  on_decomposed, on_ready, on_claimed, on_work_started, on_heartbeat, on_proposal,
  on_verification_failed, on_merged, on_ticket_failed, on_approval_requested, on_approval_granted,
  on_approval_denied, on_worker_restarted, on_invalidated, on_ticket_amended,
}
use age_of_agents.Base.Dict.{get}
use age_of_agents.State.Apply.{ok, apply, fold_from}
use age_of_agents.State.Budget.Replay.{is_snapshot}
use age_of_agents.State.TicketView.{
  at, effect, charged, after, after_all, apply-found, fold_from-get,
}

-- The diagram: the event that moves a task, the status that it leaves and the one that it reaches.
-- The four events at the top are facts about work that was done, and are taken in any status.
pub data Step : EventType → TicketStatus → TicketStatus → Type 0 where
  claim : {s : TicketStatus} → Step EventType.ticket_claimed s claimed
  start : {s : TicketStatus} → Step EventType.work_started s running
  split : {s : TicketStatus} → Step EventType.ticket_decomposed s decomposed
  land : {s : TicketStatus} → Step EventType.merged s merged
  promote : Step EventType.ticket_ready pending ready
  propose : {s : TicketStatus} → is_open s ≡ true → Step EventType.proposal_submitted s proposed
  retry_proposal : Step EventType.verification_failed proposed ready
  wait_proposal : Step EventType.verification_failed proposed running
  retry : {s : TicketStatus} → is_open s ≡ true → Step EventType.verification_failed s ready
  wait : {s : TicketStatus} → is_open s ≡ true → Step EventType.verification_failed s running
  give_up_proposal : Step EventType.ticket_failed proposed failed
  give_up_parked : Step EventType.ticket_failed awaiting failed
  give_up : {s : TicketStatus} → is_open s ≡ true → Step EventType.ticket_failed s failed
  hold_proposal : Step EventType.ticket_failed proposed running
  hold_parked : Step EventType.ticket_failed awaiting running
  hold : {s : TicketStatus} → is_open s ≡ true → Step EventType.ticket_failed s running
  park : Step EventType.approval_requested proposed awaiting
  grant : Step EventType.approval_granted awaiting proposed
  deny : Step EventType.approval_denied awaiting failed
  restart : {s : TicketStatus} → is_open s ≡ true → Step EventType.worker_restarted s ready
  invalidate :
      {s : TicketStatus} → is_dispatchable s ≡ true → Step EventType.ticket_invalidated s pending

ruleset edges = (
  claim, start, split, land, promote, propose, retry_proposal, wait_proposal, retry, wait,
  give_up_proposal, give_up_parked, give_up, hold_proposal, hold_parked, hold, park, grant, deny,
  restart, invalidate,
)

abbrev Moved : EventType → TicketStatus → TicketStatus → Type 0
Moved k s u = (u ≡ s) ⊎ Step k s u

at-Moved :
    (k : EventType) (id j : String) (f : Ticket → Ticket) (t : Ticket)
    → Moved k t.status (f t).status
    → Moved k t.status (at id j f t).status
at-Moved k id j f t h = elim (Bool-cases (id == j)) [ inl e ↦ rw e h | inr e ↦ rw e (inl refl) ]

module _ (seq ts : ℕ) where
  on_proposal-Moved :
      (p : ProposalSubmittedPayload) (t : Ticket)
      → Moved EventType.proposal_submitted t.status (on_proposal seq ts p t).status
  unfolding on_proposal
  on_proposal-Moved p t = grind (arith, edges)

  on_verification_failed-Moved :
      (p : VerificationFailedPayload) (t : Ticket)
      → Moved EventType.verification_failed t.status (on_verification_failed seq ts p t).status
  unfolding on_verification_failed
  on_verification_failed-Moved p t = grind (arith, edges)

  on_ticket_failed-Moved :
      (p : TicketFailedPayload) (t : Ticket)
      → Moved EventType.ticket_failed t.status (on_ticket_failed seq ts p t).status
  unfolding on_ticket_failed
  on_ticket_failed-Moved p t = grind (arith, edges)

  on_worker_restarted-Moved :
      (p : WorkerRestartedPayload) (t : Ticket)
      → Moved EventType.worker_restarted t.status (on_worker_restarted seq ts p t).status
  unfolding on_worker_restarted
  on_worker_restarted-Moved p t = grind (arith, edges)

  on_invalidated-Moved :
      (p : TicketInvalidatedPayload) (t : Ticket)
      → Moved EventType.ticket_invalidated t.status (on_invalidated seq ts p t).status
  unfolding on_invalidated
  on_invalidated-Moved p t = grind (arith, edges)

  on_ready-Moved : (t : Ticket) → Moved EventType.ticket_ready t.status (on_ready seq ts t).status
  unfolding on_ready
  on_ready-Moved t = grind (arith, edges)

  on_approval_requested-Moved :
      (t : Ticket)
      → Moved EventType.approval_requested t.status (on_approval_requested seq ts t).status
  unfolding on_approval_requested
  on_approval_requested-Moved t = grind (arith, edges)

  on_approval_granted-Moved :
      (t : Ticket) → Moved EventType.approval_granted t.status (on_approval_granted seq ts t).status
  unfolding on_approval_granted
  on_approval_granted-Moved t = grind (arith, edges)

  on_approval_denied-Moved :
      (t : Ticket) → Moved EventType.approval_denied t.status (on_approval_denied seq ts t).status
  unfolding on_approval_denied
  on_approval_denied-Moved t = grind (arith, edges)

  effect-Moved :
      (b : Body) (j : String) (t : Ticket)
      → Moved (event_type b) t.status (effect seq ts b j t).status
  unfolding event_type on_claimed on_work_started on_decomposed on_merged on_heartbeat
      on_ticket_amended
  effect-Moved (Body.ticket_claimed p) j t =
      at-Moved _ p.ticket_id j (on_claimed seq ts p) t (inr claim)
  effect-Moved (Body.work_started p) j t =
      at-Moved _ p.ticket_id j (on_work_started seq ts) t (inr start)
  effect-Moved (Body.ticket_decomposed p) j t =
      at-Moved _ p.ticket_id j (on_decomposed seq ts p) t (inr split)
  effect-Moved (Body.merged p) j t = at-Moved _ p.ticket_id j (on_merged seq ts p) t (inr land)
  effect-Moved (Body.ticket_ready p) j t =
      at-Moved _ p.ticket_id j (on_ready seq ts) t (on_ready-Moved t)
  effect-Moved (Body.proposal_submitted p) j t =
      at-Moved _ p.ticket_id j (on_proposal seq ts p) t (on_proposal-Moved p t)
  effect-Moved (Body.verification_failed p) j t =
      at-Moved _ p.ticket_id j (on_verification_failed seq ts p) t
        (on_verification_failed-Moved p t)
  effect-Moved (Body.ticket_failed p) j t =
      at-Moved _ p.ticket_id j (on_ticket_failed seq ts p) t (on_ticket_failed-Moved p t)
  effect-Moved (Body.approval_requested p) j t =
      at-Moved _ p.ticket_id j (on_approval_requested seq ts) t (on_approval_requested-Moved t)
  effect-Moved (Body.approval_granted p) j t =
      at-Moved _ p.ticket_id j (on_approval_granted seq ts) t (on_approval_granted-Moved t)
  effect-Moved (Body.approval_denied p) j t =
      at-Moved _ p.ticket_id j (on_approval_denied seq ts) t (on_approval_denied-Moved t)
  effect-Moved (Body.worker_restarted p) j t =
      at-Moved _ p.ticket_id j (on_worker_restarted seq ts p) t (on_worker_restarted-Moved p t)
  effect-Moved (Body.ticket_invalidated p) j t =
      at-Moved _ p.ticket_id j (on_invalidated seq ts p) t (on_invalidated-Moved p t)
  effect-Moved (Body.heartbeat p) j t = at-Moved _ p.ticket_id j (on_heartbeat seq ts) t (inl refl)
  effect-Moved (Body.ticket_amended p) j t = inl (ground arith)
  effect-Moved _ j t = inl refl

charged-status :
    (o : Option (String × Charge)) (j : String) (t : Ticket) → (charged o j t).status ≡ t.status
charged-status none j t = refl
charged-status (some (id, c)) j t = ground arith

after-Step :
    (e : Event) (j : String) (t : Ticket)
    → ((after e j t).status ≡ t.status) ⊎ Step (event_type e.body) t.status (after e j t).status
after-Step e j t =
    rw (charged-status (charge_of e) j (effect e.seq e.timestamp e.body j t))
      (effect-Moved e.seq e.timestamp e.body j t)

-- Applying any event but a StateSnapshot, which replaces the whole state, leaves every task that is there,
-- with its status, or with the one that an edge of the diagram labelled with the event's type reaches.
pub apply-Step :
    (e : Event) (j : String) (s u : State) (t : Ticket)
    → is_snapshot e.body ≡ false
    → get j s.tickets ≡ some t
    → apply e s ≡ ok u
    → (x : Ticket) × (get j u.tickets ≡ some x)
      × ((x.status ≡ t.status) ⊎ Step (event_type e.body) t.status x.status)
apply-Step e j s u t whole found done =
    (after e j t, apply-found e j s u t whole found done, after-Step e j t)

-- The four types that are taken in any status.
abbrev pub is_fact : EventType → Bool
is_fact EventType.ticket_claimed = true
is_fact EventType.work_started = true
is_fact EventType.ticket_decomposed = true
is_fact EventType.merged = true
is_fact _ = false

Step-terminal :
    {k : EventType} {s u : TicketStatus} → Step k s u → is_terminal s ≡ true → is_fact k ≡ false → ⊥
Step-terminal claim h f = cc
Step-terminal start h f = cc
Step-terminal split h f = cc
Step-terminal land h f = cc
Step-terminal {s = s} (propose o) h f = ground arith
Step-terminal {s = s} (retry o) h f = ground arith
Step-terminal {s = s} (wait o) h f = ground arith
Step-terminal {s = s} (give_up o) h f = ground arith
Step-terminal {s = s} (hold o) h f = ground arith
Step-terminal {s = s} (restart o) h f = ground arith
Step-terminal {s = s} (invalidate o) h f = ground arith
Step-terminal _ h f = cc

after_all-status :
    (es : List Event) (j : String) (t : Ticket)
    → All (λ e. is_fact (event_type e.body) ≡ false) es
    → is_terminal t.status ≡ true
    → (after_all es j t).status ≡ t.status
after_all-status [] j t h term = refl
after_all-status (e ∷ es) j t h term = elim (after-Step e j t) [
  | inl same ↦ after_all-status es j (after e j t) h.1 (rw same term) ∙ same
  | inr step ↦ absurd (Step-terminal step term h.0)
]

-- A merged, failed or decomposed task is there with the same status after the replay of any events but
-- claims, starts, decompositions, merges and snapshots: late proposals, verdicts, failures, approvals
-- and restarts change nothing.
pub terminal_absorbs :
    (es : List Event) (j : String) (s u : State) (t : Ticket)
    → All (λ e. is_snapshot e.body ≡ false) es
    → All (λ e. is_fact (event_type e.body) ≡ false) es
    → get j s.tickets ≡ some t
    → is_terminal t.status ≡ true
    → fold_from es s ≡ ok u
    → (x : Ticket) × (get j u.tickets ≡ some x) × (x.status ≡ t.status)
terminal_absorbs es j s u t whole late found term done =
    (after_all es j t, fold_from-get es j s u t whole found done, after_all-status es j t late term)
