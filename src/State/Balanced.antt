-- ===== src/State/Balanced.antt =====
-- What the replay of internal/state/state.go charges to the log and to its tasks.
use age_of_agents.Base.{
  ℕ, ◌+◌, String, ◌≡◌, refl, List, arith, Option-cases, Bool-cases, inl, inr, ap, ◌==◌, not, ◌&&◌,
  eqb, get_or, if◌then◌else◌, eq_iff,
}
use age_of_agents.Base.Dict.{
  get, bump, get-put, total, total-modify, total-modify_same, total-put_fresh,
}
use age_of_agents.Api.Payloads.{TicketCreatedPayload}
use age_of_agents.Api.Event.{Event}
use age_of_agents.State.Model.{Charge, Spend, State, new, no_spend}
use age_of_agents.State.Spend.{add}
use age_of_agents.State.Handlers.{new_ticket}
use age_of_agents.State.Apply.{ok, add_to_ticket, charge, add_ticket, apply_ticket_created, fold}
use age_of_agents.State.Frame.{apply_goal_submitted-SameTasks}
use age_of_agents.State.Closed.{Closed, AllRestore, closed_fold}

-- The counts of tokens in a Spend: all of them, those of a model, and those of a model that pricing
-- prices. They are whole numbers in the source, which adds them in any order alike; the reported cost,
-- which is a float64 there, is none of them.
pub data Count : Type 0 where
  all_tokens : Count
  by_model : String → Count
  to_price : String → Count

abbrev pub counted : Count → Spend → ℕ
counted all_tokens sp = sp.tokens_spent
counted (by_model m) sp = get_or (get m sp.tokens_by_model) 0
counted (to_price m) sp = get_or (get m sp.tokens_to_price) 0

abbrev of_charge : Count → Charge → ℕ
of_charge all_tokens c = c.tokens
of_charge (by_model m) c = if not (c.model == "") && c.model == m then c.tokens else 0
of_charge (to_price m) c =
    if not (c.model == "") && c.model == m && eqb c.cost_usd 0 then c.tokens else 0

-- Every count of the log is the sum of that count over its tasks.
abbrev pub IsBalanced : State → Type 0
IsBalanced s = (k : Count) → counted k s.spend ≡ total (λ t. counted k t.spend) s.tickets

add-counted :
    (k : Count) (sp : Spend) (c : Charge) → counted k (add sp c) ≡ counted k sp + of_charge k c
unfolding add bump
add-counted all_tokens sp c = ground arith
add-counted (by_model m) sp c = ground (
  arith,
  eq_iff c.model m,
  get-put c.model m (get_or (get c.model sp.tokens_by_model) 0 + c.tokens) sp.tokens_by_model,
)
add-counted (to_price m) sp c = ground (
  arith,
  eq_iff c.model m,
  get-put c.model m (get_or (get c.model sp.tokens_to_price) 0 + c.tokens) sp.tokens_to_price,
)

charge-IsBalanced :
    (id : String) (c : Charge) (s : State) → IsBalanced s → IsBalanced (charge id c s)
unfolding charge
charge-IsBalanced id c s x k = elim (Option-cases (get id s.tickets)) [
  | inl missing ↦ rw (missing, charge) (x k)
  | inr (t, found) ↦
      rw (found, charge)
        (omega (
          arith,
          x k,
          add-counted k s.spend c,
          add-counted k t.spend c,
          total-modify (λ u. counted k u.spend) id (add_to_ticket c) s.tickets t found,
        ))
]

counted-no_spend : (k : Count) → counted k no_spend ≡ 0
unfolding get
counted-no_spend all_tokens = refl
counted-no_spend (by_model m) = refl
counted-no_spend (to_price m) = refl

add_ticket-IsBalanced :
    (seq ts : ℕ) (p : TicketCreatedPayload) (s : State)
    → IsBalanced s
    → IsBalanced (add_ticket seq ts p s)
unfolding add_ticket new_ticket
add_ticket-IsBalanced seq ts p s x k = elim (Option-cases (get p.ticket_id s.tickets)) [
  | inr (t, found) ↦ rw found (x k)
  | inl missing ↦ rw missing (
      omega (
        arith,
        x k,
        counted-no_spend k,
        total-put_fresh (λ u. counted k u.spend) p.ticket_id (new_ticket ts p) s.tickets missing,
      ))
]

apply_ticket_created-IsBalanced :
    (seq ts : ℕ) (p : TicketCreatedPayload) (s : State)
    → IsBalanced s
    → IsBalanced (apply_ticket_created seq ts p s)
unfolding apply_ticket_created
apply_ticket_created-IsBalanced seq ts p s x k = elim (Bool-cases (p.idempotency_key == "")) [
  | inl blank ↦ rw (blank, apply_ticket_created) (add_ticket-IsBalanced seq ts p s x k)
  | inr keyed ↦ elim (Option-cases (get p.idempotency_key s.key_to_ticket)) [
    | inr (id, seen) ↦ rw (keyed, seen) (x k)
    | inl fresh ↦ rw (keyed, fresh) (add_ticket-IsBalanced seq ts p _ x k)
  ]
]

IsBalanced-Closed : Closed IsBalanced
IsBalanced-Closed = record {
  ticket = λ id f s keep x k.
      rw
        (total-modify_same (λ u. counted k u.spend) id f s.tickets
          (λ t. ap (λ (sp : Spend). counted k sp) (keep.spends t)))
        (x k);
  goal = λ id f s k x. x;
  goal_submitted = λ seq ts p s x k.
      let same = apply_goal_submitted-SameTasks seq ts p s in
      rw (same.same_spend, same.same_tickets) (x k);
  ticket_created = apply_ticket_created-IsBalanced;
  budgets = λ m s x. x;
  sessions = λ m s x. x;
  charged = charge-IsBalanced;
  sequenced = λ n s x. x;
}

new-IsBalanced : IsBalanced new
unfolding total
new-IsBalanced k = counted-no_spend k

-- After a replay, the tokens of the whole log are the sum over its tasks of what every attempt at them
-- spent, and so are, for each model, its tokens and those of them that pricing prices, provided that the
-- snapshots on the log restore such states.
pub fold-IsBalanced :
    (es : List Event) (s : State)
    → AllRestore IsBalanced es
    → fold es ≡ ok s
    → (s.spend.tokens_spent ≡ total (λ t. t.spend.tokens_spent) s.tickets)
      × ((m : String)
          → get_or (get m s.spend.tokens_by_model) 0
            ≡ total (λ t. get_or (get m t.spend.tokens_by_model) 0) s.tickets)
      × ((m : String)
          → get_or (get m s.spend.tokens_to_price) 0
            ≡ total (λ t. get_or (get m t.spend.tokens_to_price) 0) s.tickets)
fold-IsBalanced es s r h =
    let x = closed_fold IsBalanced-Closed es s r new-IsBalanced h in
    (x all_tokens, (λ m. x (by_model m)), λ m. x (to_price m))
