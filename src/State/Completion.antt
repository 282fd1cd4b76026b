-- ===== src/State/Completion.antt =====
-- When a task is complete, and when it can never be: the recursions of state.go against inductive
-- descriptions of the task graph.
use age_of_agents.Base.{
  ℕ, zero, suc, ◌<◌, String, Bool, true, false, ◌≡◌, refl, sym, ◌∙◌, subst, Option, none, some,
  some-injective, true≢false, none-ne-some, List, [], ◌∷◌, All, arith, ◌⊎◌, inl, inr,
}
use age_of_agents.Base.Dict.{get}
use age_of_agents.Base.Partial.{
  Elem, all_of, any_of, all_of-true, all_of-false, all_of-total, any_of-total, any_of-true,
  any_of-false,
}
use age_of_agents.State.Model.{TicketStatus, merged, failed, decomposed, Ticket, State}
use age_of_agents.State.Queries.{
  found_complete, found_dead, status_complete, status_dead, ticket_complete, ticket_dead,
}

module _ (s : State) where
  -- A task is complete if it merged, or was split into tasks all of which are complete.
  mutual
    pub data Complete : String → Type 0 where
      landed :
          {id : String} (t : Ticket) → get id s.tickets ≡ some t → t.status ≡ merged → Complete id
      split :
          {id : String} (t : Ticket)
          → get id s.tickets ≡ some t
          → t.status ≡ decomposed
          → AllComplete t.children
          → Complete id

    pub data AllComplete : List String → Type 0 where
      none_left : AllComplete []
      and_then :
          {c : String} {cs : List String} → Complete c → AllComplete cs → AllComplete (c ∷ cs)

  -- A task is dead if it failed, or was split into tasks one of which is dead.
  pub data Dead : String → Type 0 where
    lost : {id : String} (t : Ticket) → get id s.tickets ≡ some t → t.status ≡ failed → Dead id
    lost_child :
        {id : String} (t : Ticket) (c : String)
        → get id s.tickets ≡ some t
        → t.status ≡ decomposed
        → Elem c t.children
        → Dead c
        → Dead id

  children-AllComplete :
      (p : String → Option Bool) (cs : List String)
      → ((c : String) → p c ≡ some true → Complete c)
      → All (λ c. p c ≡ some true) cs
      → AllComplete cs
  children-AllComplete p [] rec h = none_left
  children-AllComplete p (c ∷ cs) rec h = and_then (rec c h.0) (children-AllComplete p cs rec h.1)

  status-Complete :
      (p : String → Option Bool) (k : TicketStatus) (id : String) (t : Ticket)
      → get id s.tickets ≡ some t
      → t.status ≡ k
      → ((c : String) → p c ≡ some true → Complete c)
      → status_complete p k t.children ≡ some true
      → Complete id
  status-Complete p merged id t found e rec h = landed t found e
  status-Complete p decomposed id t found e rec h =
      split t found e (children-AllComplete p t.children rec (all_of-true p t.children h))
  status-Complete p _ id t found e rec h = absurd (cc)

  found-Complete :
      (p : String → Option Bool) (id : String) (o : Option Ticket)
      → get id s.tickets ≡ o
      → ((c : String) → p c ≡ some true → Complete c)
      → found_complete p o ≡ some true
      → Complete id
  found-Complete p id none e rec h = absurd (cc)
  found-Complete p id (some t) e rec h = status-Complete p t.status id t e refl rec h

  pub ticket_complete-Complete :
      (fuel : ℕ) (id : String) → ticket_complete fuel s id ≡ some true → Complete id
  unfolding ticket_complete
  ticket_complete-Complete zero id h = absurd (none-ne-some true h)
  ticket_complete-Complete (suc fuel) id h =
      found-Complete (λ c. ticket_complete fuel s c) id (get id s.tickets) refl
        (λ c. ticket_complete-Complete fuel c) h

  AllComplete-Elem : {cs : List String} (c : String) → AllComplete cs → Elem c cs → Complete c
  AllComplete-Elem c none_left m = absurd m
  AllComplete-Elem c (and_then x xs) (inl same) = subst Complete same x
  AllComplete-Elem c (and_then x xs) (inr m) = AllComplete-Elem c xs m

  module _ (id : String) (u : Ticket) (e : get id s.tickets ≡ some u) where
    merged-answers :
        (p : String → Option Bool)
        → u.status ≡ merged
        → found_complete p (get id s.tickets) ≡ some true
    merged-answers p m = ground arith

    split-asks :
        (p : String → Option Bool)
        → u.status ≡ decomposed
        → found_complete p (get id s.tickets) ≡ all_of p u.children
    split-asks p m = ground arith

    failed-answers :
        (p : String → Option Bool) → u.status ≡ failed → found_dead p (get id s.tickets) ≡ some true
    failed-answers p m = ground arith

    split-asks_dead :
        (p : String → Option Bool)
        → u.status ≡ decomposed
        → found_dead p (get id s.tickets) ≡ any_of p u.children
    split-asks_dead p m = ground arith

  -- The answer "no" is right too.
  pub ticket_complete-refutes :
      (fuel : ℕ) (id : String) → ticket_complete fuel s id ≡ some false → Complete id → ⊥
  unfolding ticket_complete
  ticket_complete-refutes zero id h c = absurd (none-ne-some false h)
  ticket_complete-refutes (suc fuel) id h (landed u e m) = true≢false (
      some-injective true false (sym (merged-answers id u e (λ c. ticket_complete fuel s c) m) ∙ h))
  ticket_complete-refutes (suc fuel) id h (split u e m cs) =
      let (c, mem, no_child) =
        all_of-false (ticket_complete fuel s) u.children
          (sym (split-asks id u e (λ c. ticket_complete fuel s c) m) ∙ h) in
      ticket_complete-refutes fuel c no_child (AllComplete-Elem c cs mem)

  found-Dead :
      (p : String → Option Bool) (id : String) (o : Option Ticket)
      → get id s.tickets ≡ o
      → ((c : String) → p c ≡ some true → Dead c)
      → found_dead p o ≡ some true
      → Dead id
  found-Dead p id none e rec h = absurd (cc)
  found-Dead p id (some t) e rec h = status-Dead t.status refl h
    where
      status-Dead :
          (k : TicketStatus) → t.status ≡ k → status_dead p k t.children ≡ some true → Dead id
      status-Dead failed m h' = lost t e m
      status-Dead decomposed m h' =
          let (c, mem, gone) = any_of-true p t.children h' in lost_child t c e m mem (rec c gone)
      status-Dead _ m h' = absurd (cc)

  pub ticket_dead-Dead : (fuel : ℕ) (id : String) → ticket_dead fuel s id ≡ some true → Dead id
  unfolding ticket_dead
  ticket_dead-Dead zero id h = absurd (none-ne-some true h)
  ticket_dead-Dead (suc fuel) id h =
      found-Dead (λ c. ticket_dead fuel s c) id (get id s.tickets) refl
        (λ c. ticket_dead-Dead fuel c) h

  pub ticket_dead-refutes :
      (fuel : ℕ) (id : String) → ticket_dead fuel s id ≡ some false → Dead id → ⊥
  unfolding ticket_dead
  ticket_dead-refutes zero id h d = absurd (none-ne-some false h)
  ticket_dead-refutes (suc fuel) id h (lost u e m) =
      true≢false
        (some-injective true false (sym (failed-answers id u e (λ c. ticket_dead fuel s c) m) ∙ h))
  ticket_dead-refutes (suc fuel) id h (lost_child u c e m mem d) =
      ticket_dead-refutes fuel c
        (any_of-false (ticket_dead fuel s) u.children
          (sym (split-asks_dead id u e (λ c. ticket_dead fuel s c) m) ∙ h) c mem)
        d

  -- A complete task is not dead.
  pub Complete-not-Dead : {id : String} → Complete id → Dead id → ⊥
  Complete-not-Dead (landed t e m) (lost u f k) = absurd (cc)
  Complete-not-Dead (landed t e m) (lost_child u c f k mem d) = absurd (cc)
  Complete-not-Dead (split t e m cs) (lost u f k) = absurd (cc)
  Complete-not-Dead (split t e m cs) (lost_child u c f k mem d) =
      Complete-not-Dead
        (AllComplete-Elem c cs
          (subst (λ (v : Ticket). Elem c v.children) (some-injective u t (sym f ∙ e)) mem))
        d

  -- Children stand below their parent: what rules out a cycle among decompositions.
  pub record IsRanked (rank : String → ℕ) : Type 0 where
    pub below :
        (id : String) (t : Ticket)
        → get id s.tickets ≡ some t
        → t.status ≡ decomposed
        → All (λ c. rank c < rank id) t.children

  module _ (rank : String → ℕ) (ranked : IsRanked rank) where
    below_fuel :
        (n r : ℕ) (p : String → Option Bool) (cs : List String)
        → r < suc n
        → ((c : String) → rank c < n → (b : Bool) × (p c ≡ some b))
        → All (λ c. rank c < r) cs
        → All (λ c. (b : Bool) × (p c ≡ some b)) cs
    below_fuel n r p [] le rec h = tt
    below_fuel n r p (c ∷ cs) le rec h = (rec c (omega arith), below_fuel n r p cs le rec h.1)

    complete-answers :
        (n : ℕ) (p : String → Option Bool) (id : String) (o : Option Ticket)
        → get id s.tickets ≡ o
        → rank id < suc n
        → ((c : String) → rank c < n → (b : Bool) × (p c ≡ some b))
        → (b : Bool) × (found_complete p o ≡ some b)
    complete-answers n p id none e le rec = (false, refl)
    complete-answers n p id (some t) e le rec = answer t.status refl
      where
        answer :
            (k : TicketStatus)
            → t.status ≡ k
            → (b : Bool) × (status_complete p k t.children ≡ some b)
        answer decomposed m =
            all_of-total p t.children
              (below_fuel n (rank id) p t.children le rec (ranked.below id t e m))
        answer merged m = (true, refl)
        answer _ m = (false, refl)

    dead-answers :
        (n : ℕ) (p : String → Option Bool) (id : String) (o : Option Ticket)
        → get id s.tickets ≡ o
        → rank id < suc n
        → ((c : String) → rank c < n → (b : Bool) × (p c ≡ some b))
        → (b : Bool) × (found_dead p o ≡ some b)
    dead-answers n p id none e le rec = (false, refl)
    dead-answers n p id (some t) e le rec = answer t.status refl
      where
        answer :
            (k : TicketStatus) → t.status ≡ k → (b : Bool) × (status_dead p k t.children ≡ some b)
        answer decomposed m =
            any_of-total p t.children
              (below_fuel n (rank id) p t.children le rec (ranked.below id t e m))
        answer failed m = (true, refl)
        answer _ m = (false, refl)

    pub ticket_complete-total :
        (fuel : ℕ) (id : String)
        → rank id < fuel
        → (b : Bool) × (ticket_complete fuel s id ≡ some b)
    unfolding ticket_complete
    ticket_complete-total zero id le = absurd (omega arith)
    ticket_complete-total (suc fuel) id le =
        complete-answers fuel (λ c. ticket_complete fuel s c) id (get id s.tickets) refl le
          (λ c. ticket_complete-total fuel c)

    pub ticket_dead-total :
        (fuel : ℕ) (id : String) → rank id < fuel → (b : Bool) × (ticket_dead fuel s id ≡ some b)
    unfolding ticket_dead
    ticket_dead-total zero id le = absurd (omega arith)
    ticket_dead-total (suc fuel) id le =
        dead-answers fuel (λ c. ticket_dead fuel s c) id (get id s.tickets) refl le
          (λ c. ticket_dead-total fuel c)

-- On a task graph whose decompositions have ranks, and with fuel above the rank of the task,
-- `ticketComplete` returns, and answers true exactly if the task is complete.
pub ticket_complete-decides :
    (s : State) (rank : String → ℕ) (fuel : ℕ) (id : String)
    → IsRanked s rank
    → rank id < fuel
    → ((ticket_complete fuel s id ≡ some true) × Complete s id)
      ⊎ ((ticket_complete fuel s id ≡ some false) × (Complete s id → ⊥))
ticket_complete-decides s rank fuel id ranked le =
    let (b, e) = ticket_complete-total s rank ranked fuel id le in answer b e
  where
    answer :
        (b : Bool)
        → ticket_complete fuel s id ≡ some b
        → ((ticket_complete fuel s id ≡ some true) × Complete s id)
          ⊎ ((ticket_complete fuel s id ≡ some false) × (Complete s id → ⊥))
    answer true e = inl (e, ticket_complete-Complete s fuel id e)
    answer false e = inr (e, ticket_complete-refutes s fuel id e)

-- Under the same conditions `ticketDead` returns, and answers true exactly if the task is dead.
pub ticket_dead-decides :
    (s : State) (rank : String → ℕ) (fuel : ℕ) (id : String)
    → IsRanked s rank
    → rank id < fuel
    → ((ticket_dead fuel s id ≡ some true) × Dead s id)
      ⊎ ((ticket_dead fuel s id ≡ some false) × (Dead s id → ⊥))
ticket_dead-decides s rank fuel id ranked le =
    let (b, e) = ticket_dead-total s rank ranked fuel id le in answer b e
  where
    answer :
        (b : Bool)
        → ticket_dead fuel s id ≡ some b
        → ((ticket_dead fuel s id ≡ some true) × Dead s id)
          ⊎ ((ticket_dead fuel s id ≡ some false) × (Dead s id → ⊥))
    answer true e = inl (e, ticket_dead-Dead s fuel id e)
    answer false e = inr (e, ticket_dead-refutes s fuel id e)
