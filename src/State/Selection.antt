-- ===== src/State/Selection.antt =====
-- Which tasks the Scheduler promotes, and which it gives up because a dependency is dead.
use age_of_agents.Base.{
  ℕ, String, Bool, true, false, ◌≡◌, ◌≢◌, ◌↔◌, sym, subst, none, some, some-injective, none-ne-some,
  List, [], ◌∷◌, All, arith, eq_iff, inl, inr, Option-cases,
}
use age_of_agents.Base.Dict.{get}
use age_of_agents.Base.Partial.{Elem, all_of, all_of-true, all_of-false, select_iff, select-answers}
use age_of_agents.State.Model.{pending, is_terminal, Ticket, State}
use age_of_agents.State.Queries.{
  ordered_tickets, ticket_complete, ticket_dead, goal_cancelled, deps_satisfied, first_dead,
  dead_dependency, is_blocked, blocked, is_newly_ready, newly_ready,
}
use age_of_agents.State.Completion.{
  Complete, Dead, lost, lost_child, ticket_complete-Complete, ticket_complete-refutes,
  ticket_dead-Dead, ticket_dead-refutes, Complete-not-Dead,
}

module _ (fuel : ℕ) (s : State) where
  All-Complete :
      (deps : List String)
      → All (λ d. ticket_complete fuel s d ≡ some true) deps
      → All (Complete s) deps
  All-Complete [] h = tt
  All-Complete (d ∷ ds) h = (ticket_complete-Complete s fuel d h.0, All-Complete ds h.1)

  All-Elem : (deps : List String) (d : String) → All (Complete s) deps → Elem d deps → Complete s d
  All-Elem [] d h m = absurd m
  All-Elem (x ∷ xs) d h (inl same) = subst (Complete s) same h.0
  All-Elem (x ∷ xs) d h (inr m) = All-Elem xs d h.1 m

  -- The test of NewlyReady.
  ready_sound :
      (t : Ticket)
      → is_newly_ready fuel s t ≡ some true
      → (t.status ≡ pending) × All (Complete s) t.depends_on × (goal_cancelled s t ≡ false)
  unfolding deps_satisfied
  ready_sound t h = elim (Option-cases (all_of (ticket_complete fuel s) t.depends_on)) [
    | inl e ↦ absurd (ground arith)
    | inr (true, e) ↦ (
      ground arith,
      All-Complete t.depends_on (all_of-true (ticket_complete fuel s) t.depends_on e),
      ground arith,
    )
    | inr (false, e) ↦ absurd (ground arith)
  ]

  ready-refuted :
      (t : Ticket)
      → is_newly_ready fuel s t ≡ some false
      → t.status ≡ pending
      → All (Complete s) t.depends_on
      → goal_cancelled s t ≡ false
      → ⊥
  unfolding deps_satisfied
  ready-refuted t h p c g = elim (Option-cases (all_of (ticket_complete fuel s) t.depends_on)) [
    | inl e ↦ ground arith
    | inr (true, e) ↦ ground arith
    | inr (false, e) ↦
        let (d, m, k) = all_of-false (ticket_complete fuel s) t.depends_on e in
        ticket_complete-refutes s fuel d k (All-Elem t.depends_on d c m)
  ]

  -- NewlyReady returns the tasks in creation order that are pending, whose dependencies are all
  -- complete and whose Goal is not cancelled, and no others, whenever the fuel lets it return.
  pub newly_ready_exact :
      (out : List Ticket) (t : Ticket)
      → newly_ready fuel s ≡ some out
      → Elem t out ↔ (
          Elem t (ordered_tickets s)
          × (t.status ≡ pending)
          × All (Complete s) t.depends_on
          × (goal_cancelled s t ≡ false))
  unfolding newly_ready
  newly_ready_exact out t h = (there, back)
    where
      iff : Elem t out ↔ (Elem t (ordered_tickets s) × (is_newly_ready fuel s t ≡ some true))
      iff = select_iff (is_newly_ready fuel s) (ordered_tickets s) out t h

      there :
          Elem t out
          → Elem t (ordered_tickets s)
            × (t.status ≡ pending)
            × All (Complete s) t.depends_on
            × (goal_cancelled s t ≡ false)
      there m = let (o, k) = iff.0 m in let r = ready_sound t k in (o, r.0, r.1, r.2)

      pick :
          (b : Bool)
          → is_newly_ready fuel s t ≡ some b
          → Elem t (ordered_tickets s)
          → t.status ≡ pending
          → All (Complete s) t.depends_on
          → goal_cancelled s t ≡ false
          → Elem t out
      pick true e o p c g = iff.1 (o, e)
      pick false e o p c g = absurd (ready-refuted t e p c g)

      back :
          Elem t (ordered_tickets s)
            × (t.status ≡ pending)
            × All (Complete s) t.depends_on
            × (goal_cancelled s t ≡ false)
          → Elem t out
      back (o, p, c, g) =
          let (b, e) = select-answers (is_newly_ready fuel s) (ordered_tickets s) out t h o in
          pick b e o p c g

  first_dead-Dead :
      (deps : List String) (dep : String)
      → first_dead fuel s deps ≡ some dep
      → dep ≢ ""
      → Elem dep deps × Dead s dep
  unfolding first_dead
  first_dead-Dead [] dep h n = absurd (n (sym (some-injective "" dep h)))
  first_dead-Dead (d ∷ ds) dep h n = elim (Option-cases (ticket_dead fuel s d)) [
    | inl e ↦ absurd (none-ne-some dep (rw e at h))
    | inr (true, e) ↦
        let same : d ≡ dep = some-injective d dep (rw e at h) in
        (inl same, subst (Dead s) same (ticket_dead-Dead s fuel d e))
    | inr (false, e) ↦ let (m, k) = first_dead-Dead ds dep (rw e at h) n in (inr m, k)
  ]

  -- An id that names no task is not dead.
  not-Dead : (id : String) → get id s.tickets ≡ none → Dead s id → ⊥
  not-Dead id h (lost t e m) = cc
  not-Dead id h (lost_child t c e m mem d) = cc

  first_dead-none :
      (deps : List String)
      → get "" s.tickets ≡ none
      → first_dead fuel s deps ≡ some ""
      → (dep : String) → Elem dep deps
      → Dead s dep
      → ⊥
  unfolding first_dead
  first_dead-none [] blank h dep m d = absurd m
  first_dead-none (x ∷ xs) blank h dep m d = elim (Option-cases (ticket_dead fuel s x)) [
    | inl e ↦ none-ne-some "" (rw e at h)
    | inr (true, e) ↦
        not-Dead "" blank
          (subst (Dead s) (some-injective x "" (rw e at h)) (ticket_dead-Dead s fuel x e))
    | inr (false, e) ↦ elim m [
      | inl same ↦ ticket_dead-refutes s fuel x e (subst (Dead s) (sym same) d)
      | inr later ↦ first_dead-none xs blank (rw e at h) dep later d
    ]
  ]

  blocked_sound :
      (t : Ticket)
      → is_blocked fuel s t ≡ some true
      → (is_terminal t.status ≡ false) × ((dep : String) × Elem dep t.depends_on × Dead s dep)
  unfolding dead_dependency
  blocked_sound t h = elim (Option-cases (first_dead fuel s t.depends_on)) [
    | inl e ↦ absurd (ground arith)
    | inr (dep, e) ↦
        let n : dep ≢ "" = λ same. ground (arith, eq_iff dep "") in
        let (m, d) = first_dead-Dead t.depends_on dep e n in (ground arith, (dep, m, d))
  ]

  blocked-refuted :
      (t : Ticket)
      → get "" s.tickets ≡ none
      → is_blocked fuel s t ≡ some false
      → is_terminal t.status ≡ false
      → (dep : String) → Elem dep t.depends_on
      → Dead s dep
      → ⊥
  unfolding dead_dependency
  blocked-refuted t blank h term dep m d = elim (Option-cases (first_dead fuel s t.depends_on)) [
    | inl e ↦ ground arith
    | inr (x, e) ↦
        let empty : x ≡ "" = ground (arith, eq_iff x "") in
        first_dead-none t.depends_on blank (rw empty at e) dep m d
  ]

  -- Blocked returns the tasks in creation order that are not terminal and have a dead dependency, and
  -- no others, whenever the fuel lets it return and no task has the empty id.
  pub blocked_exact :
      (out : List Ticket) (t : Ticket)
      → get "" s.tickets ≡ none
      → blocked fuel s ≡ some out
      → Elem t out ↔ (
          Elem t (ordered_tickets s)
          × (is_terminal t.status ≡ false)
          × ((dep : String) × Elem dep t.depends_on × Dead s dep))
  unfolding blocked
  blocked_exact out t blank h = (there, back)
    where
      iff : Elem t out ↔ (Elem t (ordered_tickets s) × (is_blocked fuel s t ≡ some true))
      iff = select_iff (is_blocked fuel s) (ordered_tickets s) out t h

      there :
          Elem t out
          → Elem t (ordered_tickets s)
            × (is_terminal t.status ≡ false)
            × ((dep : String) × Elem dep t.depends_on × Dead s dep)
      there m = let (o, k) = iff.0 m in let r = blocked_sound t k in (o, r.0, r.1)

      pick :
          (b : Bool)
          → is_blocked fuel s t ≡ some b
          → Elem t (ordered_tickets s)
          → is_terminal t.status ≡ false
          → (dep : String) → Elem dep t.depends_on
          → Dead s dep
          → Elem t out
      pick true e o term dep m d = iff.1 (o, e)
      pick false e o term dep m d = absurd (blocked-refuted t blank e term dep m d)

      back :
          Elem t (ordered_tickets s)
            × (is_terminal t.status ≡ false)
            × ((dep : String) × Elem dep t.depends_on × Dead s dep)
          → Elem t out
      back (o, term, (dep, m, d)) =
          let (b, e) = select-answers (is_blocked fuel s) (ordered_tickets s) out t h o in
          pick b e o term dep m d

  -- No task is both promoted and given up: NewlyReady and Blocked have no task in common, whenever the
  -- fuel lets both return and no task has the empty id.
  pub ready_or_blocked :
      (promoted given_up : List Ticket) (t : Ticket)
      → get "" s.tickets ≡ none
      → newly_ready fuel s ≡ some promoted
      → blocked fuel s ≡ some given_up
      → Elem t promoted
      → Elem t given_up
      → ⊥
  ready_or_blocked promoted given_up t blank h k m n =
      let r = (newly_ready_exact promoted t h).0 m in
      let (dep, dm, dead) = ((blocked_exact given_up t blank k).0 n).2 in
      Complete-not-Dead s (All-Elem t.depends_on dep r.2 dm) dead
