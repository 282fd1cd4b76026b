-- ===== src/Scheduler/Governors.antt =====
-- What the children that decompose makes add to the task graph.
use age_of_agents.Base.{
  ℕ, suc, ◌+◌, ◌≤◌, String, ◌==◌, true, false, ◌≡◌, inl, inr, refl, ◌∙◌, none, List, [], ◌∷◌, ◌++◌,
  contains, is_some, if◌then◌else◌, arith, Bool-cases, eq_iff, eq_refl,
}
use age_of_agents.Base.Dict.{Dict, get, put, modify, get-put, Distinct}
use age_of_agents.Api.Payloads.{TicketCreatedPayload}
use age_of_agents.Api.Event.{Body}
use age_of_agents.State.Model.{Ticket, State}
use age_of_agents.State.Handlers.{new_ticket}
use age_of_agents.State.Apply.{Result, ok, ◌>>=◌, apply_body, apply_ticket_created, add_ticket}
use age_of_agents.Scheduler.Decompose.{
  Subtask, GraphOptions, Job, Handles, Child, child_of, children_of, new_edges, in_goal, added,
  governed, created,
}

-- The events, replayed one after the other.
unfoldable pub replayed : ℕ → ℕ → List Body → State → Result State
unfolding apply_body
replayed seq ts [] s = ok s
replayed seq ts (b ∷ bs) s = apply_body seq ts b s >>= replayed (suc seq) ts bs

in_goal-put :
    (g k : String) (t : Ticket) (m : Dict Ticket)
    → get k m ≡ none
    → in_goal g (put k t m) ≤ suc (in_goal g m)
unfolding get put
in_goal-put g k t [] h = ground arith
in_goal-put g k t ((j, u) ∷ m) h = ground (arith, in_goal-put g k t m)

pub in_goal-modify :
    (g k : String) (f : Ticket → Ticket) (m : Dict Ticket)
    → ((t : Ticket) → (f t).goal_id ≡ t.goal_id)
    → in_goal g (modify k f m) ≡ in_goal g m
unfolding modify
in_goal-modify g k f [] h = refl
in_goal-modify g k f ((j, u) ∷ m) h = ground (arith, h u, in_goal-modify g k f m h)

-- A map that has all the keys of another.
abbrev Covers : Dict Ticket → Dict Ticket → Type 0
Covers m n = (k : String) → is_some (get k m) ≡ true → is_some (get k n) ≡ true

added-Covers : (m n : Dict Ticket) (cs : List Child) → Covers m n → added n cs ≤ added m cs
added-Covers m n [] h = omega arith
added-Covers m n (c ∷ cs) h = ground (arith, h c.id, added-Covers m n cs h)

module _ (seq ts : ℕ) where
  apply_ticket_created-Covers :
      (p : TicketCreatedPayload) (s : State)
      → Covers s.tickets (apply_ticket_created seq ts p s).tickets
  unfolding apply_ticket_created add_ticket
  apply_ticket_created-Covers p s k h =
      ground (arith, get-put p.ticket_id k (new_ticket ts p) s.tickets)

  apply_ticket_created-in_goal :
      (p : TicketCreatedPayload) (s : State) (g : String)
      → in_goal g (apply_ticket_created seq ts p s).tickets
        ≤ (if is_some (get p.ticket_id s.tickets) then 0 else 1) + in_goal g s.tickets
  unfolding apply_ticket_created add_ticket
  apply_ticket_created-in_goal p s g =
      ground (arith, in_goal-put g p.ticket_id (new_ticket ts p) s.tickets)

replayed-created :
    (seq ts : ℕ) (p : TicketCreatedPayload) (bs : List Body) (s : State)
    → replayed seq ts (Body.ticket_created p ∷ bs) s
      ≡ replayed (suc seq) ts bs (apply_ticket_created seq ts p s)
unfolding replayed apply_body
replayed-created seq ts p bs s = refl

module _ (ts : ℕ) (j : Job) (worker : String) where
  -- The replay of the children: at most one ticket more for each that was not there.
  pub created-replayed :
      (cs : List Child) (rest : List Body) (seq : ℕ) (s : State)
      → (seq' : ℕ) × (s' : State) × (replayed seq ts (created j worker cs ++ rest) s
          ≡ replayed seq' ts rest s')
        × (in_goal j.goal_id s'.tickets ≤ added s.tickets cs + in_goal j.goal_id s.tickets)
  created-replayed [] rest seq s = (seq, s, refl, omega arith)
  created-replayed (c ∷ cs) rest seq s = elim (Bool-cases c.adopt) [
    | inl shared ↦
        let (seq', s', same, few) = created-replayed cs rest seq s in
        (seq', s', rw shared same, ground (arith, few))
    | inr new ↦
        let p : TicketCreatedPayload = record {
          ticket_id = c.id;
          goal_id = j.goal_id;
          title = c.title;
          depends_on = c.deps;
          idempotency_key = c.key;
          created_by = worker;
          depth = suc j.depth;
        } in
        let s1 = apply_ticket_created seq ts p s in
        let (seq', s', same, few) = created-replayed cs rest (suc seq) s1 in
        (
          seq',
          s',
          rw new (replayed-created seq ts p (created j worker cs ++ rest) s ∙ same),
          ground (
            arith,
            few,
            apply_ticket_created-in_goal seq ts p s j.goal_id,
            added-Covers s.tickets s1.tickets cs (apply_ticket_created-Covers seq ts p s),
          ),
        )
  ]

new_edges-absent :
    (id : String) (c : Child) (cs : List Child)
    → (c.id == id) ≡ false
    → get id (new_edges cs) ≡ none
    → get id (new_edges (c ∷ cs)) ≡ none
unfolding get
new_edges-absent id c cs other h = elim (Bool-cases c.adopt) [
  | inl shared ↦ rw shared h
  | inr new ↦ rw (new, other) h
]

new_edges-Distinct :
    (c : Child) (cs : List Child)
    → get c.id (new_edges cs) ≡ none
    → Distinct (new_edges cs)
    → Distinct (new_edges (c ∷ cs))
new_edges-Distinct c cs h d = elim (Bool-cases c.adopt) [
  | inl shared ↦ rw shared d
  | inr new ↦ rw new (h, d)
]

children_of-absent :
    (h : Handles) (id : String) (seen : List String) (subs : List Subtask)
    → contains id seen ≡ true
    → get id (new_edges (children_of h seen subs)) ≡ none
unfolding children_of get contains
children_of-absent h id seen [] k = refl
children_of-absent h id seen (t ∷ subs) k =
    let c = child_of h t in
    elim (Bool-cases (contains c.id seen)) [
      | inl old ↦ rw old (children_of-absent h id seen subs k)
      | inr new ↦ rw new (
          new_edges-absent id c (children_of h (c.id ∷ seen) subs)
            (ground (arith, eq_iff c.id id, k, new))
            (children_of-absent h id (c.id ∷ seen) subs (ground (arith, k))))
    ]

pub children_of-Distinct :
    (h : Handles) (seen : List String) (subs : List Subtask)
    → Distinct (new_edges (children_of h seen subs))
unfolding children_of contains
children_of-Distinct h seen [] = tt
children_of-Distinct h seen (t ∷ subs) =
    let c = child_of h t in
    elim (Bool-cases (contains c.id seen)) [
      | inl old ↦ rw old (children_of-Distinct h seen subs)
      | inr new ↦ rw new (
          new_edges-Distinct c (children_of h (c.id ∷ seen) subs)
            (children_of-absent h c.id (c.id ∷ seen) subs (ground (arith, eq_refl c.id)))
            (children_of-Distinct h (c.id ∷ seen) subs))
    ]

pub governed-none :
    (o : GraphOptions) (s : State) (j : Job) (h : Handles) (cs : List Child)
    → governed o s j h cs ≡ none
    → (suc j.depth ≤ o.max_graph_depth)
      × (added s.tickets cs ≤ o.max_fan_out)
      × (in_goal j.goal_id s.tickets + added s.tickets cs ≤ o.max_tickets_per_goal)
unfolding governed
governed-none o s j h cs e = (ground arith, ground arith, ground arith)
