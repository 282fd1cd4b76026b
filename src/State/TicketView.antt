-- ===== src/State/TicketView.antt =====
-- The replay of internal/state/state.go seen from one task: `effect` and `after` are what an event does
-- to a task that exists.
use age_of_agents.Base.{
  ℕ, String, ◌==◌, false, ◌≡◌, subst, Option, none, some, List, [], ◌∷◌, All, arith, eq_iff,
  Option-cases, inl, inr, if◌then◌else◌,
}
use age_of_agents.Base.Dict.{get, modify, get-put, get-modify}
use age_of_agents.Api.EventType.{EventType, verification_passed, regression_escaped, worker_stalled}
use age_of_agents.Api.Payloads.{TicketCreatedPayload, MergedPayload}
use age_of_agents.Api.Event.{Event, Body}
use age_of_agents.State.Model.{Charge, Ticket, State}
use age_of_agents.State.Spend.{charge_of}
use age_of_agents.State.Handlers.{
  new_ticket, on_decomposed, on_ready, on_claimed, on_work_started, on_heartbeat, on_proposal,
  on_verification_failed, on_merged, on_ticket_failed, on_approval_requested, on_approval_granted,
  on_approval_denied, on_worker_restarted, on_invalidated, on_ticket_amended,
}
use age_of_agents.State.Frame.{apply_goal_submitted-SameTasks}
use age_of_agents.State.Sessions.{apply_session_observed, apply_session_checked}
use age_of_agents.State.Apply.{
  Result, ok, err, ◌>>=◌, add_to_ticket, charge, charge_if, apply_undecoded, apply_ticket_created,
  apply_merged, apply_budget_exhausted, apply_body, apply, fold_from,
}
use age_of_agents.State.Closed.{Ensures}
use age_of_agents.State.Budget.Replay.{is_snapshot}

-- A handler of the task `id`, as the task `j` sees it.
abbrev pub at : String → String → (Ticket → Ticket) → Ticket → Ticket
at id j f t = if id == j then f t else t

module _ (seq ts : ℕ) where
  -- What the switch of `Apply` does to the task `j`.
  abbrev pub effect : Body → String → Ticket → Ticket
  effect (Body.ticket_decomposed p) j t = at p.ticket_id j (on_decomposed seq ts p) t
  effect (Body.ticket_ready p) j t = at p.ticket_id j (on_ready seq ts) t
  effect (Body.ticket_claimed p) j t = at p.ticket_id j (on_claimed seq ts p) t
  effect (Body.work_started p) j t = at p.ticket_id j (on_work_started seq ts) t
  effect (Body.heartbeat p) j t = at p.ticket_id j (on_heartbeat seq ts) t
  effect (Body.proposal_submitted p) j t = at p.ticket_id j (on_proposal seq ts p) t
  effect (Body.verification_failed p) j t = at p.ticket_id j (on_verification_failed seq ts p) t
  effect (Body.merged p) j t = at p.ticket_id j (on_merged seq ts p) t
  effect (Body.ticket_failed p) j t = at p.ticket_id j (on_ticket_failed seq ts p) t
  effect (Body.approval_requested p) j t = at p.ticket_id j (on_approval_requested seq ts) t
  effect (Body.approval_granted p) j t = at p.ticket_id j (on_approval_granted seq ts) t
  effect (Body.approval_denied p) j t = at p.ticket_id j (on_approval_denied seq ts) t
  effect (Body.worker_restarted p) j t = at p.ticket_id j (on_worker_restarted seq ts p) t
  effect (Body.ticket_invalidated p) j t = at p.ticket_id j (on_invalidated seq ts p) t
  effect (Body.ticket_amended p) j t = at p.ticket_id j (on_ticket_amended seq ts p) t
  effect _ j t = t

  modified :
      (id j : String) (f : Ticket → Ticket) (s : State) (t : Ticket)
      → get j s.tickets ≡ some t
      → get j (modify id f s.tickets) ≡ some (at id j f t)
  modified id j f s t found = ground (arith, get-modify id j f s.tickets)

  created-get :
      (p : TicketCreatedPayload) (j : String) (s : State) (t : Ticket)
      → get j s.tickets ≡ some t
      → get j (apply_ticket_created seq ts p s).tickets ≡ some t
  unfolding apply_ticket_created
  created-get p j s t found =
      ground (arith, eq_iff p.ticket_id j, get-put p.ticket_id j (new_ticket ts p) s.tickets)

  merged-get :
      (p : MergedPayload) (j : String) (s : State) (t : Ticket)
      → get j s.tickets ≡ some t
      → get j (apply_merged seq ts p s).tickets ≡ some (at p.ticket_id j (on_merged seq ts p) t)
  unfolding apply_merged
  merged-get p j s t found = elim (Option-cases (get p.ticket_id s.tickets)) [
    | inl missing ↦ ground (arith, eq_iff p.ticket_id j)
    | inr (u, there) ↦
        rw (there, apply_merged) (modified p.ticket_id j (on_merged seq ts p) s t found)
  ]

  undecoded-get :
      (k : EventType) (j : String) (s : State) (t : Ticket)
      → get j s.tickets ≡ some t
      → Ensures (λ u. get j u.tickets ≡ some t) (apply_undecoded seq ts k s)
  undecoded-get verification_passed j s t found = found
  undecoded-get regression_escaped j s t found = found
  undecoded-get worker_stalled j s t found = found
  undecoded-get _ j s t found = tt

  apply_body-get :
      (b : Body) (j : String) (s : State) (t : Ticket)
      → is_snapshot b ≡ false
      → get j s.tickets ≡ some t
      → Ensures (λ u. get j u.tickets ≡ some (effect b j t)) (apply_body seq ts b s)
  unfolding apply_body apply_budget_exhausted apply_session_observed apply_session_checked
  apply_body-get (Body.state_snapshot u) j s t h found = absurd (cc)
  apply_body-get (Body.goal_submitted p) j s t h found =
      rw (apply_goal_submitted-SameTasks seq ts p s).same_tickets found
  apply_body-get (Body.ticket_created p) j s t h found = created-get p j s t found
  apply_body-get (Body.merged p) j s t h found = merged-get p j s t found
  apply_body-get (Body.undecoded k) j s t h found = undecoded-get k j s t found
  apply_body-get (Body.ticket_decomposed p) j s t h found =
      modified p.ticket_id j (on_decomposed seq ts p) s t found
  apply_body-get (Body.ticket_ready p) j s t h found =
      modified p.ticket_id j (on_ready seq ts) s t found
  apply_body-get (Body.ticket_claimed p) j s t h found =
      modified p.ticket_id j (on_claimed seq ts p) s t found
  apply_body-get (Body.work_started p) j s t h found =
      modified p.ticket_id j (on_work_started seq ts) s t found
  apply_body-get (Body.heartbeat p) j s t h found =
      modified p.ticket_id j (on_heartbeat seq ts) s t found
  apply_body-get (Body.proposal_submitted p) j s t h found =
      modified p.ticket_id j (on_proposal seq ts p) s t found
  apply_body-get (Body.verification_failed p) j s t h found =
      modified p.ticket_id j (on_verification_failed seq ts p) s t found
  apply_body-get (Body.ticket_failed p) j s t h found =
      modified p.ticket_id j (on_ticket_failed seq ts p) s t found
  apply_body-get (Body.approval_requested p) j s t h found =
      modified p.ticket_id j (on_approval_requested seq ts) s t found
  apply_body-get (Body.approval_granted p) j s t h found =
      modified p.ticket_id j (on_approval_granted seq ts) s t found
  apply_body-get (Body.approval_denied p) j s t h found =
      modified p.ticket_id j (on_approval_denied seq ts) s t found
  apply_body-get (Body.worker_restarted p) j s t h found =
      modified p.ticket_id j (on_worker_restarted seq ts p) s t found
  apply_body-get (Body.ticket_invalidated p) j s t h found =
      modified p.ticket_id j (on_invalidated seq ts p) s t found
  apply_body-get (Body.ticket_amended p) j s t h found =
      modified p.ticket_id j (on_ticket_amended seq ts p) s t found
  apply_body-get _ j s t h found = found

-- What the charge of an event does to the task `j`.
abbrev pub charged : Option (String × Charge) → String → Ticket → Ticket
charged none j t = t
charged (some (id, c)) j t = at id j (add_to_ticket c) t

charge_if-get :
    (o : Option (String × Charge)) (j : String) (s : State) (t : Ticket)
    → get j s.tickets ≡ some t
    → get j (charge_if o s).tickets ≡ some (charged o j t)
unfolding charge
charge_if-get none j s t found = found
charge_if-get (some (id, c)) j s t found =
    ground (arith, eq_iff id j, get-modify id j (add_to_ticket c) s.tickets)

-- A task after an event.
abbrev pub after : Event → String → Ticket → Ticket
after e j t = charged (charge_of e) j (effect e.seq e.timestamp e.body j t)

abbrev pub after_all : List Event → String → Ticket → Ticket
after_all [] j t = t
after_all (e ∷ es) j t = after_all es j (after e j t)

apply-get :
    (e : Event) (j : String) (s : State) (t : Ticket)
    → is_snapshot e.body ≡ false
    → get j s.tickets ≡ some t
    → Ensures (λ u. get j u.tickets ≡ some (after e j t)) (apply e s)
unfolding apply
apply-get e j s t h found =
    go (apply_body e.seq e.timestamp e.body s)
      (apply_body-get e.seq e.timestamp e.body j s t h found)
  where
    go :
        (x : Result State)
        → Ensures (λ u. get j u.tickets ≡ some (effect e.seq e.timestamp e.body j t)) x
        → Ensures
            (λ u. get j u.tickets ≡ some (after e j t))
            (x >>= λ u. ok (record (charge_if (charge_of e) u) { last_seq = e.seq }))
    go (ok u) k = charge_if-get (charge_of e) j u _ k
    go (err x) k = tt

pub apply-found :
    (e : Event) (j : String) (s u : State) (t : Ticket)
    → is_snapshot e.body ≡ false
    → get j s.tickets ≡ some t
    → apply e s ≡ ok u
    → get j u.tickets ≡ some (after e j t)
apply-found e j s u t h found done =
    subst (Ensures (λ u. get j u.tickets ≡ some (after e j t))) done (apply-get e j s t h found)

fold_from-Ensures :
    (es : List Event) (j : String) (s : State) (t : Ticket)
    → All (λ e. is_snapshot e.body ≡ false) es
    → get j s.tickets ≡ some t
    → Ensures (λ u. get j u.tickets ≡ some (after_all es j t)) (fold_from es s)
unfolding fold_from
fold_from-Ensures [] j s t h found = found
fold_from-Ensures (e ∷ es) j s t h found =
    elim (apply e s)
        as (λ x.
          Ensures (λ u. get j u.tickets ≡ some (after e j t)) x
          → Ensures (λ u. get j u.tickets ≡ some (after_all (e ∷ es) j t)) (x >>= fold_from es)) [
            | ok u ↦ λ k. fold_from-Ensures es j u (after e j t) h.1 k
            | err x ↦ λ k. tt
          ]
      (apply-get e j s t h.0 found)

-- The tasks of a log are independent: a task that exists is there after any further events, snapshots
-- aside, in the state that folding those events over it alone gives; no event of another task, and
-- nothing else in the replayed state, has a part in it.
pub fold_from-get :
    (es : List Event) (j : String) (s u : State) (t : Ticket)
    → All (λ e. is_snapshot e.body ≡ false) es
    → get j s.tickets ≡ some t
    → fold_from es s ≡ ok u
    → get j u.tickets ≡ some (after_all es j t)
fold_from-get es j s u t h found e =
    subst (Ensures (λ u. get j u.tickets ≡ some (after_all es j t))) e
      (fold_from-Ensures es j s t h found)
