-- ===== src/State/Indexed.antt =====
-- The indexes that the replay of internal/state/state.go keeps: ids, idempotency keys and the creation
-- order.
use age_of_agents.Base.{
  All, sym, ℕ, String, ◌==◌, ◌≡◌, ◌≢◌, refl, subst, ◌⊎◌, inl, inr, none, some, eq_iff, arith, List,
  eq_refl, count, count-append_one, is_some, Option-cases, Bool-cases, if◌then◌else◌,
}
use age_of_agents.Base.Dict.{
  get, put, modify, get-put, get-modify, Distinct, Distinct-put, Distinct-modify, values,
  values-All,
}
use age_of_agents.Api.Payloads.{GoalSubmittedPayload, TicketCreatedPayload}
use age_of_agents.Api.Event.{Event}
use age_of_agents.State.Model.{Charge, Ticket, State, new}
use age_of_agents.State.Handlers.{new_ticket}
use age_of_agents.State.Identity.{SameTicket, before_modify}
use age_of_agents.State.Apply.{
  ok, add_to_ticket, charge, apply_goal_submitted, add_ticket, apply_ticket_created, fold,
}
use age_of_agents.State.Frame.{apply_goal_submitted-SameTasks}
use age_of_agents.State.Closed.{Closed, AllRestore, closed_fold}

pub record IsIndexed (s : State) : Type 0 where
  pub ids : (id : String) (t : Ticket) → get id s.tickets ≡ some t → t.id ≡ id
  pub owner :
      (id : String) (t : Ticket)
      → get id s.tickets ≡ some t
      → (t.idempotency_key ≡ "") ⊎ (get t.idempotency_key s.key_to_ticket ≡ some id)
  pub order :
      (id : String) → count id s.ticket_order ≡ (if is_some (get id s.tickets) then 1 else 0)
  pub distinct : Distinct s.tickets

new-IsIndexed : IsIndexed new
unfolding get
new-IsIndexed = record {
  ids = λ id t h. cc;
  owner = λ id t h. cc;
  order = λ id. refl;
  distinct = tt;
}

-- A write to one task that keeps what it is.
modify-IsIndexed :
    (id : String) (f : Ticket → Ticket) (s : State)
    → ((t : Ticket) → SameTicket t (f t))
    → IsIndexed s
    → IsIndexed (record s { tickets = modify id f s.tickets })
modify-IsIndexed id f s same x = record {
  ids = λ j u h.
      let (t, found, k) = before_modify id j f s.tickets u same h in
      ground (arith, k.same_id, x.ids j t found);
  owner = λ j u h.
      let (t, found, k) = before_modify id j f s.tickets u same h in
      rw k.same_key (x.owner j t found);
  order = λ j. ground (arith, x.order j, get-modify id j f s.tickets);
  distinct = Distinct-modify id f s.tickets x.distinct;
}

add_ticket-IsIndexed :
    (seq ts : ℕ) (p : TicketCreatedPayload) (s : State)
    → (p.idempotency_key ≡ "") ⊎ (get p.idempotency_key s.key_to_ticket ≡ some p.ticket_id)
    → IsIndexed s
    → IsIndexed (add_ticket seq ts p s)
unfolding add_ticket new_ticket
add_ticket-IsIndexed seq ts p s own x = elim (Option-cases (get p.ticket_id s.tickets)) [
  | inr (t, found) ↦ rw found x
  | inl missing ↦ rw missing (record {
    ids = λ j t h.
        ground (
          arith,
          eq_iff p.ticket_id j,
          x.ids j t,
          get-put p.ticket_id j (new_ticket ts p) s.tickets,
        );
    owner = λ j t h. ground (
      arith,
      eq_iff p.ticket_id j,
      x.owner j t,
      get-put p.ticket_id j (new_ticket ts p) s.tickets,
    );
    order = λ j. ground (
      arith,
      eq_iff p.ticket_id j,
      x.order j,
      count-append_one j p.ticket_id s.ticket_order,
      get-put p.ticket_id j (new_ticket ts p) s.tickets,
    );
    distinct = Distinct-put p.ticket_id (new_ticket ts p) s.tickets x.distinct;
  })
]

-- A fresh key disturbs no owner.
claim_key-IsIndexed :
    (k id : String) (s : State)
    → get k s.key_to_ticket ≡ none
    → IsIndexed s
    → IsIndexed (record s { key_to_ticket = put k id s.key_to_ticket })
claim_key-IsIndexed k id s fresh x = record {
  ids = x.ids;
  owner = λ j t h. ground (
    arith,
    eq_iff k t.idempotency_key,
    x.owner j t h,
    get-put k t.idempotency_key id s.key_to_ticket,
  );
  order = x.order;
  distinct = x.distinct;
}

apply_ticket_created-IsIndexed :
    (seq ts : ℕ) (p : TicketCreatedPayload) (s : State)
    → IsIndexed s
    → IsIndexed (apply_ticket_created seq ts p s)
unfolding apply_ticket_created
apply_ticket_created-IsIndexed seq ts p s x = elim (Bool-cases (p.idempotency_key == "")) [
  | inl blank ↦
      rw (blank, apply_ticket_created)
        (add_ticket-IsIndexed seq ts p s (inl ((eq_iff p.idempotency_key "").0 blank)) x)
  | inr keyed ↦ elim (Option-cases (get p.idempotency_key s.key_to_ticket)) [
    | inr (id, seen) ↦ rw (keyed, seen) x
    | inl fresh ↦
        rw (keyed, fresh)
          (add_ticket-IsIndexed seq ts p _ (inr (simp (get-put, eq_refl)))
            (claim_key-IsIndexed p.idempotency_key p.ticket_id s fresh x))
  ]
]

apply_goal_submitted-IsIndexed :
    (seq ts : ℕ) (p : GoalSubmittedPayload) (s : State)
    → IsIndexed s
    → IsIndexed (apply_goal_submitted seq ts p s)
apply_goal_submitted-IsIndexed seq ts p s x =
    let k = apply_goal_submitted-SameTasks seq ts p s in
    record {
      ids = rw k.same_tickets x.ids;
      owner = rw (k.same_tickets, k.same_keys) x.owner;
      order = rw (k.same_order, k.same_tickets) x.order;
      distinct = rw k.same_tickets x.distinct;
    }

charge-IsIndexed : (id : String) (c : Charge) (s : State) → IsIndexed s → IsIndexed (charge id c s)
unfolding charge
charge-IsIndexed id c s x = elim (Option-cases (get id s.tickets)) [
  | inl missing ↦ rw (missing, charge) x
  | inr (t, found) ↦
      let y = modify-IsIndexed id (add_to_ticket c) s (λ u. ground arith) x in
      rw (found, charge)
        (record { ids = y.ids; owner = y.owner; order = y.order; distinct = y.distinct })
]

IsIndexed-Closed : Closed IsIndexed
IsIndexed-Closed = record {
  ticket = λ id f s keep x. modify-IsIndexed id f s keep.same x;
  goal =
      λ id f s k x. record { ids = x.ids; owner = x.owner; order = x.order; distinct = x.distinct };
  goal_submitted = apply_goal_submitted-IsIndexed;
  ticket_created = apply_ticket_created-IsIndexed;
  budgets =
      λ m s x. record { ids = x.ids; owner = x.owner; order = x.order; distinct = x.distinct };
  sessions =
      λ m s x. record { ids = x.ids; owner = x.owner; order = x.order; distinct = x.distinct };
  charged = charge-IsIndexed;
  sequenced =
      λ n s x. record { ids = x.ids; owner = x.owner; order = x.order; distinct = x.distinct };
}

-- A replayed log leaves every task under its own id, gives each non-empty idempotency key to at most
-- one task, holds no id twice, and lists each task exactly once in the creation order and nothing
-- else; provided that the snapshots on the log restore states of which this holds.
pub fold-IsIndexed :
    (es : List Event) (s : State) → AllRestore IsIndexed es → fold es ≡ ok s → IsIndexed s
fold-IsIndexed es s r h = closed_fold IsIndexed-Closed es s r new-IsIndexed h

-- No step repetition: after a replay, two tasks with one non-empty idempotency key are one task,
-- provided that the snapshots on the log restore indexed states.
pub keys_are_unique :
    (es : List Event) (s : State) (i j : String) (t u : Ticket)
    → AllRestore IsIndexed es
    → fold es ≡ ok s
    → get i s.tickets ≡ some t
    → get j s.tickets ≡ some u
    → t.idempotency_key ≢ ""
    → t.idempotency_key ≡ u.idempotency_key
    → i ≡ j
keys_are_unique es s i j t u r h ti uj keyed same =
    let x = fold-IsIndexed es s r h in ground (arith, x.owner i t ti, x.owner j u uj)

-- Every task of an indexed state is the one that its own id finds.
pub IsIndexed-values :
    (s : State) → IsIndexed s → All (λ t. get t.id s.tickets ≡ some t) (values s.tickets)
IsIndexed-values s x =
    values-All (λ t. get t.id s.tickets ≡ some t) s.tickets x.distinct
      (λ k t found. subst (λ i. get i s.tickets ≡ some t) (sym (x.ids k t found)) found)
