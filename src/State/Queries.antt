-- ===== src/State/Queries.antt =====
-- internal/state/state.go: what the Scheduler asks of the replayed state. `ticketComplete` and
-- `ticketDead` recurse along the children of decomposed tasks; here they take fuel, and `none` says
-- that it ran out. A pointer to a ticket is the ticket.
use age_of_agents.Base.{
  ℕ, zero, suc, String, ◌==◌, Bool, true, false, not, ◌&&◌, Option, none, some, List, [], ◌∷◌, keep,
  length, if◌then◌else◌,
}
use age_of_agents.Base.Dict.{get, values, total}
use age_of_agents.Base.Partial.{◌>>=◌, all_of, any_of, select}
use age_of_agents.State.Model.{
  TicketStatus, merged, failed, decomposed, is_terminal, is_pending, is_dispatchable, is_proposed,
  is_awaiting, Goal, Ticket, State,
}

abbrev pub found_tickets : State → List String → List Ticket
found_tickets s [] = []
found_tickets s (id ∷ ids) =
    let rest = found_tickets s ids in elim (get id s.tickets) [ none ↦ rest | some t ↦ t ∷ rest ]

-- orderedTickets
unfoldable pub ordered_tickets : State → List Ticket
ordered_tickets s = found_tickets s s.ticket_order

abbrev pub status_complete : (String → Option Bool) → TicketStatus → List String → Option Bool
status_complete recur merged children = some true
status_complete recur decomposed children = all_of recur children
status_complete recur _ children = some false

abbrev pub found_complete : (String → Option Bool) → Option Ticket → Option Bool
found_complete recur none = some false
found_complete recur (some d) = status_complete recur d.status d.children

-- ticketComplete
unfoldable pub ticket_complete : ℕ → State → String → Option Bool
ticket_complete zero s id = none
ticket_complete (suc fuel) s id = found_complete (λ c. ticket_complete fuel s c) (get id s.tickets)

abbrev pub status_dead : (String → Option Bool) → TicketStatus → List String → Option Bool
status_dead recur failed children = some true
status_dead recur decomposed children = any_of recur children
status_dead recur _ children = some false

abbrev pub found_dead : (String → Option Bool) → Option Ticket → Option Bool
found_dead recur none = some false
found_dead recur (some d) = status_dead recur d.status d.children

-- ticketDead
unfoldable pub ticket_dead : ℕ → State → String → Option Bool
ticket_dead zero s id = none
ticket_dead (suc fuel) s id = found_dead (λ c. ticket_dead fuel s c) (get id s.tickets)

-- goalCancelled
unfoldable pub goal_cancelled : State → Ticket → Bool
goal_cancelled s t = elim (get t.goal_id s.goals) [ none ↦ false | some g ↦ g.cancelled ]

module _ (fuel : ℕ) (s : State) where
  -- DepsSatisfied
  unfoldable pub deps_satisfied : Ticket → Option Bool
  deps_satisfied t = all_of (ticket_complete fuel s) t.depends_on

  -- The loop of DeadDependency: the first dead dependency, or "".
  unfoldable pub first_dead : List String → Option String
  first_dead [] = some ""
  first_dead (dep ∷ deps) = ticket_dead fuel s dep >>= λ dead.
      let rest = first_dead deps in if dead then some dep else rest

  -- DeadDependency
  unfoldable pub dead_dependency : Ticket → Option String
  unfolding first_dead
  dead_dependency t = first_dead t.depends_on

  abbrev pub is_blocked : Ticket → Option Bool
  is_blocked t =
      if is_terminal t.status
      then some false
      else (dead_dependency t >>= λ dep. some (not (dep == "")))

  -- Blocked
  unfoldable pub blocked : Option (List Ticket)
  unfolding ordered_tickets
  blocked = select is_blocked (ordered_tickets s)

  abbrev pub is_newly_ready : Ticket → Option Bool
  is_newly_ready t =
      if is_pending t.status
      then (deps_satisfied t >>= λ done. some (done && not (goal_cancelled s t)))
      else some false

  -- NewlyReady
  unfoldable pub newly_ready : Option (List Ticket)
  unfolding ordered_tickets
  newly_ready = select is_newly_ready (ordered_tickets s)

  -- GoalComplete: the loop over the tasks of the Goal, with `has`.
  unfoldable pub complete_from : String → Bool → List Ticket → Option Bool
  complete_from goal_id has [] = some has
  complete_from goal_id has (t ∷ ts) =
      let skip = complete_from goal_id has ts in
      let next = complete_from goal_id true ts in
      if not (t.goal_id == goal_id)
      then skip
      else (ticket_complete fuel s t.id >>= λ done. if not done then some false else next)

  -- GoalComplete
  unfoldable pub goal_complete : String → Option Bool
  unfolding complete_from
  goal_complete goal_id = complete_from goal_id false (values s.tickets)

  abbrev pub deliverable_goal : String → Option Goal → Option Bool
  deliverable_goal goal_id none = some false
  deliverable_goal goal_id (some g) =
      if not g.cancelled && not g.delivered && not (g.branch == "")
      then goal_complete goal_id
      else some false

  -- Deliverable
  unfoldable pub deliverable : String → Option Bool
  deliverable goal_id = deliverable_goal goal_id (get goal_id s.goals)

module _ (s : State) where
  -- TicketForKey
  unfoldable pub ticket_for_key : String → Option String
  ticket_for_key key = get key s.key_to_ticket

  -- ReadyTickets
  unfoldable pub ready_tickets : List Ticket
  unfolding ordered_tickets goal_cancelled
  ready_tickets =
      keep (λ t. is_dispatchable t.status && not (goal_cancelled s t)) (ordered_tickets s)

  -- Proposed
  unfoldable pub proposed_tickets : List Ticket
  unfolding ordered_tickets
  proposed_tickets = keep (λ t. is_proposed t.status) (ordered_tickets s)

  -- AwaitingApproval
  unfoldable pub awaiting_approval : List Ticket
  unfolding ordered_tickets
  awaiting_approval = keep (λ t. is_awaiting t.status) (ordered_tickets s)

  -- ActiveCount
  unfoldable pub active_count : ℕ
  unfolding total
  active_count = total (λ t. length t.active_workers) s.tickets

abbrev pub all_terminal : List Ticket → Bool
all_terminal [] = true
all_terminal (t ∷ ts) = is_terminal t.status && all_terminal ts

-- Settled
unfoldable pub settled : State → Bool
unfolding values
settled s = all_terminal (values s.tickets)
