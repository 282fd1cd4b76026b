-- ===== src/State/Answers.antt =====
-- The queries of internal/state/state.go with fuel above the rank of every task.
use age_of_agents.Base.{
  ℕ, ◌<◌, String, ◌==◌, Bool, true, false, not, ◌&&◌, ◌≡◌, ◌↔◌, refl, none, some, List, [], ◌∷◌,
  All, arith, inl, inr, Bool-cases, if◌then◌else◌,
}
use age_of_agents.Base.Dict.{get, values}
use age_of_agents.Base.Partial.{Elem, all_of-total, select-total, is_some-answers}
use age_of_agents.State.Model.{pending, is_pending, is_terminal, Goal, Ticket, State}
use age_of_agents.Api.Contract.{Outcome}
use age_of_agents.State.Queries.{
  ordered_tickets, ticket_complete, goal_cancelled, deps_satisfied, first_dead, dead_dependency,
  is_blocked, blocked, is_newly_ready, newly_ready, complete_from, goal_complete,
}
use age_of_agents.State.Outcome.{
  Flags, no_flags, note_status, note_complete, scan_outcome, outcome_of, goal_outcome,
}
use age_of_agents.State.Completion.{
  Complete, Dead, IsRanked, ticket_complete-total, ticket_dead-total,
}
use age_of_agents.State.Selection.{newly_ready_exact, blocked_exact, ready_or_blocked}

module _ (fuel : ℕ) (s : State) (rank : String → ℕ) (ranked : IsRanked s rank)
    (deep : (id : String) → rank id < fuel) where
  tickets_answer :
      (ids : List String) → All (λ d. (b : Bool) × (ticket_complete fuel s d ≡ some b)) ids
  tickets_answer [] = tt
  tickets_answer (d ∷ ds) = (ticket_complete-total s rank ranked fuel d (deep d), tickets_answer ds)

  is_newly_ready-total : (t : Ticket) → (b : Bool) × (is_newly_ready fuel s t ≡ some b)
  unfolding deps_satisfied
  is_newly_ready-total t =
      let (b, e) =
        all_of-total (ticket_complete fuel s) t.depends_on (tickets_answer t.depends_on) in
      ((if is_pending t.status then b && not (goal_cancelled s t) else false), ground arith)

  first_dead-total : (deps : List String) → (dep : String) × (first_dead fuel s deps ≡ some dep)
  unfolding first_dead
  first_dead-total [] = ("", refl)
  first_dead-total (d ∷ ds) =
      let (b, e) = ticket_dead-total s rank ranked fuel d (deep d) in
      let (dep, k) = first_dead-total ds in ((if b then d else dep), ground arith)

  is_blocked-total : (t : Ticket) → (b : Bool) × (is_blocked fuel s t ≡ some b)
  unfolding dead_dependency
  is_blocked-total t =
      let (dep, e) = first_dead-total t.depends_on in
      ((if is_terminal t.status then false else not (dep == "")), ground arith)

  -- On a task graph whose decompositions have ranks below the fuel, NewlyReady returns the tasks in
  -- creation order that are pending, whose dependencies are all complete and whose Goal is not
  -- cancelled, and no others.
  pub newly_ready_decides :
      (t : Ticket)
      → (out : List Ticket) × (newly_ready fuel s ≡ some out)
        × (Elem t out ↔ (
            Elem t (ordered_tickets s)
            × (t.status ≡ pending)
            × All (Complete s) t.depends_on
            × (goal_cancelled s t ≡ false)))
  unfolding newly_ready
  newly_ready_decides t =
      let (out, e) =
        select-total (is_newly_ready fuel s) (ordered_tickets s) is_newly_ready-total in
      (out, e, newly_ready_exact fuel s out t e)

  -- On a task graph whose decompositions have ranks below the fuel, and in which no task has the empty
  -- id, Blocked returns the tasks in creation order that are not terminal and have a dead dependency,
  -- and no others.
  pub blocked_decides :
      (t : Ticket)
      → get "" s.tickets ≡ none
      → (out : List Ticket) × (blocked fuel s ≡ some out)
        × (Elem t out ↔ (
            Elem t (ordered_tickets s)
            × (is_terminal t.status ≡ false)
            × ((dep : String) × Elem dep t.depends_on × Dead s dep)))
  unfolding blocked
  blocked_decides t blank =
      let (out, e) = select-total (is_blocked fuel s) (ordered_tickets s) is_blocked-total in
      (out, e, blocked_exact fuel s out t blank e)

  -- No task is both promoted and given up: under the same conditions NewlyReady and Blocked both
  -- return, and have no task in common.
  pub promoted_not_blocked :
      (t : Ticket)
      → get "" s.tickets ≡ none
      → (promoted : List Ticket) × (given_up : List Ticket) × (newly_ready fuel s ≡ some promoted)
        × (blocked fuel s ≡ some given_up)
        × (Elem t promoted × Elem t given_up → ⊥)
  promoted_not_blocked t blank =
      let (promoted, p, i) = newly_ready_decides t in
      let (given_up, g, j) = blocked_decides t blank in
      (promoted, given_up, p, g, λ m. ready_or_blocked fuel s promoted given_up t blank p g m.0 m.1)

  complete_from-total :
      (id : String) (has : Bool) (ts : List Ticket)
      → (b : Bool) × (complete_from fuel s id has ts ≡ some b)
  unfolding complete_from
  complete_from-total id has [] = (has, refl)
  complete_from-total id has (t ∷ ts) =
      let (a, skip) = complete_from-total id has ts in
      let (b, next) = complete_from-total id true ts in
      let (done, e) = ticket_complete-total s rank ranked fuel t.id (deep t.id) in
      ((if not (t.goal_id == id) then a else if done then b else false), ground arith)

  pub goal_complete-total : (id : String) → (b : Bool) × (goal_complete fuel s id ≡ some b)
  unfolding goal_complete
  goal_complete-total id = complete_from-total id false (values s.tickets)

  note_status-total : (f : Flags) (t : Ticket) → (f' : Flags) × (note_status fuel s f t ≡ some f')
  note_status-total f t =
      let (gone, e) = ticket_dead-total s rank ranked fuel t.id (deep t.id) in
      is_some-answers (note_status fuel s f t) (ground arith)

  note_complete-total :
      (f : Flags) (t : Ticket) → (f' : Flags) × (note_complete fuel s f t ≡ some f')
  note_complete-total f t =
      let (done, e) = ticket_complete-total s rank ranked fuel t.id (deep t.id) in
      is_some-answers (note_complete fuel s f t) (ground arith)

  scan_outcome-total :
      (id : String) (ts : List Ticket) (f : Flags)
      → (f' : Flags) × (scan_outcome fuel s id f ts ≡ some f')
  unfolding scan_outcome
  scan_outcome-total id [] f = (f, refl)
  scan_outcome-total id (t ∷ ts) f = elim (Bool-cases (t.goal_id == id)) [
    | inr other ↦ let (f', k) = scan_outcome-total id ts f in (f', rw other k)
    | inl ours ↦
        let (g, a) = note_status-total f t in
        let (h, b) = note_complete-total g t in
        let (f', k) = scan_outcome-total id ts h in (f', rw (ours, a, b) k)
  ]

  outcome_of-total : (id : String) (g : Goal) → (o : Outcome) × (outcome_of fuel s id g ≡ some o)
  outcome_of-total id g =
      let (f, e) = scan_outcome-total id (values s.tickets) no_flags in
      is_some-answers (outcome_of fuel s id g) (ground arith)

  pub goal_outcome-total :
      (id : String) (g : Goal)
      → get id s.goals ≡ some g
      → (o : Outcome) × (goal_outcome fuel s id ≡ some (some o))
  unfolding goal_outcome
  goal_outcome-total id g found = let (o, e) = outcome_of-total id g in (o, ground arith)
