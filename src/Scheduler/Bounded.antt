-- ===== src/Scheduler/Bounded.antt =====
-- The governors of the task graph.
use age_of_agents.Base.{
  ℕ, suc, ◌+◌, ◌≤◌, String, ◌≡◌, inl, inr, refl, ◌∙◌, Option, none, some, List, [], ◌∷◌, ◌++◌, All,
  max, arith, Bool-cases,
}
use age_of_agents.Api.Payloads.{TicketFailedPayload, TicketDecomposedPayload}
use age_of_agents.Api.Event.{Body}
use age_of_agents.Git.{Try}
use age_of_agents.State.Model.{Ticket, State}
use age_of_agents.State.Handlers.{on_ticket_failed, on_decomposed}
use age_of_agents.State.Apply.{ok, apply_body, with_ticket}
use age_of_agents.State.Cycles.Exact.{would_cycle_exact}
use age_of_agents.Scheduler.Rejection.{Used}
use age_of_agents.Scheduler.Decompose.{
  Subtask, GraphOptions, Job, Handles, Child, children_of, new_edges, in_goal, added, governed,
  fail_decompose, created, ids, split_into, unless_refused, with_handles, decompose,
}
use age_of_agents.Scheduler.Governors.{
  replayed, in_goal-modify, created-replayed, children_of-Distinct, governed-none,
}

-- A task that is created lies no deeper than this.
abbrev pub IsWithin : ℕ → Body → Type 0
IsWithin depth (Body.ticket_created p) = p.depth ≤ depth
IsWithin depth _ = Unit

on_ticket_failed-goal_id :
    (seq ts : ℕ) (p : TicketFailedPayload) (t : Ticket)
    → (on_ticket_failed seq ts p t).goal_id ≡ t.goal_id
unfolding on_ticket_failed
on_ticket_failed-goal_id seq ts p t = ground arith

on_decomposed-goal_id :
    (seq ts : ℕ) (p : TicketDecomposedPayload) (t : Ticket)
    → (on_decomposed seq ts p t).goal_id ≡ t.goal_id
unfolding on_decomposed
on_decomposed-goal_id seq ts p t = refl

replayed-decomposed :
    (seq ts : ℕ) (p : TicketDecomposedPayload) (s : State)
    → replayed seq ts (Body.ticket_decomposed p ∷ []) s
      ≡ ok (with_ticket p.ticket_id (on_decomposed seq ts p) s)
unfolding replayed apply_body
replayed-decomposed seq ts p s = refl

created-IsWithin :
    (depth : ℕ) (j : Job) (worker : String) (cs : List Child) (rest : List Body)
    → suc j.depth ≤ depth
    → All (IsWithin depth) rest
    → All (IsWithin depth) (created j worker cs ++ rest)
created-IsWithin depth j worker [] rest h k = k
created-IsWithin depth j worker (c ∷ cs) rest h k = elim (Bool-cases c.adopt) [
  | inl shared ↦ rw shared (created-IsWithin depth j worker cs rest h k)
  | inr new ↦ rw new (h, created-IsWithin depth j worker cs rest h k)
]

module _ (o : GraphOptions) (seq ts : ℕ) (s : State) (j : Job) where
  -- What the events that decompose emits do to the state that it read.
  abbrev pub IsBounded : List Body → Type 0
  IsBounded bodies =
      (s' : State) × (replayed seq ts bodies s ≡ ok s')
      × (in_goal j.goal_id s'.tickets ≤ max o.max_tickets_per_goal (in_goal j.goal_id s.tickets))
      × (in_goal j.goal_id s'.tickets ≤ in_goal j.goal_id s.tickets + o.max_fan_out)
      × All (IsWithin o.max_graph_depth) bodies

  module _ (worker : String) (u : Used) where
    fail_decompose-IsBounded : (reason : String) → IsBounded (fail_decompose j worker u reason)
    unfolding replayed apply_body
    fail_decompose-IsBounded reason =
        let p : TicketFailedPayload = record {
          ticket_id = j.ticket_id;
          worker = worker;
          reason = reason;
          output = "";
          tree = "";
          worktree = "";
          tokens = u.tokens;
          model = u.model;
          cost_usd = u.cost;
        } in
        let same =
          in_goal-modify j.goal_id j.ticket_id (on_ticket_failed seq ts p) s.tickets
            (on_ticket_failed-goal_id seq ts p) in
        (
          with_ticket j.ticket_id (on_ticket_failed seq ts p) s,
          refl,
          omega (arith, same),
          omega (arith, same),
          (tt, tt),
        )

    split_into-IsBounded :
        (cs : List Child)
        → suc j.depth ≤ o.max_graph_depth
        → added s.tickets cs ≤ o.max_fan_out
        → in_goal j.goal_id s.tickets + added s.tickets cs ≤ o.max_tickets_per_goal
        → IsBounded (split_into j worker u cs)
    split_into-IsBounded cs deep wide many =
        let p : TicketDecomposedPayload = record {
          ticket_id = j.ticket_id;
          worker = worker;
          children = ids cs;
          tokens = u.tokens;
          model = u.model;
          cost_usd = u.cost;
        } in
        let rest : List Body = Body.ticket_decomposed p ∷ [] in
        let (seq', s1, run, few) = created-replayed ts j worker cs rest seq s in
        let same =
          in_goal-modify j.goal_id j.ticket_id (on_decomposed seq' ts p) s1.tickets
            (on_decomposed-goal_id seq' ts p) in
        (
          with_ticket j.ticket_id (on_decomposed seq' ts p) s1,
          run ∙ replayed-decomposed seq' ts p s1,
          omega (arith, same, few, many),
          omega (arith, same, few, wide),
          created-IsWithin o.max_graph_depth j worker cs rest deep (tt, tt),
        )

    abbrev Returned : Option (List Body) → Type 0
    Returned r = (bodies : List Body) × (r ≡ some bodies) × IsBounded bodies

    governed-Returned :
        (h : Handles) (subs : List Subtask) (refusal : Option String)
        → governed o s j h (children_of h [] subs) ≡ refusal
        → Returned (unless_refused j worker u (children_of h [] subs) s refusal)
    governed-Returned h subs (some reason) e =
        (fail_decompose j worker u reason, refl, fail_decompose-IsBounded reason)
    governed-Returned h subs none e =
        let cs = children_of h [] subs in
        let (deep, wide, many) = governed-none o s j h cs e in
        elim (would_cycle_exact s (new_edges cs) (children_of-Distinct h [] subs)).1 [
          | inl (cycle, x) ↦ (
            fail_decompose j worker u "decomposition would create a cycle",
            rw cycle refl,
            fail_decompose-IsBounded "decomposition would create a cycle",
          )
          | inr (acyclic, x) ↦
              (split_into j worker u cs, rw acyclic refl, split_into-IsBounded cs deep wide many)
        ]

    handled-Returned :
        (subs : List Subtask) (r : Try Handles) → Returned (with_handles o s j worker u subs r)
    handled-Returned subs (Try.err reason) =
        (fail_decompose j worker u reason, refl, fail_decompose-IsBounded reason)
    handled-Returned subs (Try.ok h) = governed-Returned h subs _ refl

-- decompose returns, whatever subtasks it is given; the events that it emits replay on the state that it
-- read; the Goal then has at most MaxTicketsPerGoal tasks, or as many as before, and at most MaxFanOut
-- more than before; and no task is created deeper than MaxGraphDepth.
pub decompose-IsBounded :
    (o : GraphOptions) (seq ts : ℕ) (s : State) (j : Job) (worker : String) (u : Used)
    (subs : List Subtask)
    → (bodies : List Body) × (decompose o s j worker u subs ≡ some bodies)
      × IsBounded o seq ts s j bodies
unfolding decompose
decompose-IsBounded o seq ts s j worker u subs = handled-Returned o seq ts s j worker u subs _
