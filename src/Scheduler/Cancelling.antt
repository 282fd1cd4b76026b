-- ===== src/Scheduler/Cancelling.antt =====
-- What enforceCancellations leaves of the tasks of a cancelled Goal.
use age_of_agents.Base.{
  ℕ, String, ◌==◌, true, false, ◌||◌, ◌≡◌, ◌⊎◌, inl, inr, refl, sym, subst, Option, none, some,
  List, [], ◌∷◌, arith, Bool-cases, eq_iff,
}
use age_of_agents.Base.Dict.{Dict, get}
use age_of_agents.Base.Partial.{Elem}
use age_of_agents.Api.Payloads.{TicketFailedPayload}
use age_of_agents.Api.Event.{Body}
use age_of_agents.State.Model.{failed, running, is_terminal, Goal, Ticket, State}
use age_of_agents.State.Handlers.{on_ticket_failed}
use age_of_agents.State.TicketView.{effect}
use age_of_agents.Scheduler.Retries.{emitted}
use age_of_agents.Scheduler.Merging.{
  in_progress, is_doomed, fail_cancelled, cancel_doomed, enforce_cancellations,
}

-- No longer to be dispatched or merged.
abbrev pub IsStopped : Ticket → Type 0
IsStopped t = (t.status ≡ failed) ⊎ (t.status ≡ running)

module _ (seq ts : ℕ) where
  hit-IsStopped :
      (p : TicketFailedPayload) (x : Ticket)
      → IsStopped x
      → IsStopped (effect seq ts (Body.ticket_failed p) x.id x)
  unfolding on_ticket_failed
  hit-IsStopped p x h = ground arith

  hit_doomed :
      (p : TicketFailedPayload) (t : Ticket)
      → (is_terminal t.status || in_progress t.status) ≡ false
      → p.ticket_id ≡ t.id
      → p.worker ≡ t.worker
      → IsStopped (effect seq ts (Body.ticket_failed p) t.id t)
  unfolding on_ticket_failed
  hit_doomed p t h same worker = ground (arith, eq_iff p.ticket_id t.id, eq_iff t.worker p.worker)

  miss :
      (p : TicketFailedPayload) (t : Ticket)
      → (p.ticket_id == t.id) ≡ false
      → effect seq ts (Body.ticket_failed p) t.id t ≡ t
  miss p t h = rw h refl

  -- The payload of failCancelled.
  cancelling : Ticket → TicketFailedPayload
  cancelling u = record {
    ticket_id = u.id;
    worker = u.worker;
    reason = "goal cancelled";
    output = "";
    tree = "";
    worktree = "";
    tokens = 0;
    model = "";
    cost_usd = 0;
  }

  module _ (s : State) (in_flight : Dict ℕ) where
    cancel_doomed-cases :
        (worktrees : Dict String) (o : Option Ticket)
        → ((cancel_doomed s in_flight worktrees o).emits ≡ [])
          ⊎ ((u : Ticket) × (o ≡ some u)
              × ((cancel_doomed s in_flight worktrees o).emits
                  ≡ Body.ticket_failed (cancelling u) ∷ []))
    unfolding fail_cancelled cancelling
    cancel_doomed-cases worktrees none = inl refl
    cancel_doomed-cases worktrees (some u) = elim (Bool-cases (is_doomed s in_flight u)) [
      | inl doomed ↦ inr (u, refl, rw doomed refl)
      | inr spared ↦ inl (rw spared refl)
    ]

    IsStopped-enforced :
        (order : List String) (worktrees : Dict String) (x : Ticket)
        → IsStopped x
        → IsStopped (emitted seq ts (enforce_cancellations s in_flight worktrees order).emits x)
    unfolding enforce_cancellations
    IsStopped-enforced [] worktrees x h = h
    IsStopped-enforced (k ∷ order) worktrees x h =
        elim (cancel_doomed-cases worktrees (get k s.tickets)) [
          | inl e ↦ rw e (IsStopped-enforced order _ x h)
          | inr (u, found, e) ↦ rw e (
              IsStopped-enforced order _ (effect seq ts (Body.ticket_failed (cancelling u)) x.id x)
                (hit-IsStopped (cancelling u) x h))
        ]

    module _ (ids : (k : String) (u : Ticket) → get k s.tickets ≡ some u → u.id ≡ k) (t : Ticket)
        (found : get t.id s.tickets ≡ some t) where
      hit_enforced :
          (order : List String) (worktrees : Dict String)
          → is_doomed s in_flight t ≡ true
          → IsStopped
              (emitted seq ts (enforce_cancellations s in_flight worktrees (t.id ∷ order)).emits t)
      unfolding enforce_cancellations fail_cancelled cancelling is_doomed
      hit_enforced order worktrees doomed =
          rw (found, doomed)
            (IsStopped-enforced order _ (effect seq ts (Body.ticket_failed (cancelling t)) t.id t)
              (hit_doomed (cancelling t) t (ground (arith, doomed)) refl refl))

      enforced :
          (order : List String) (worktrees : Dict String)
          → is_doomed s in_flight t ≡ true
          → Elem t.id order
          → IsStopped (emitted seq ts (enforce_cancellations s in_flight worktrees order).emits t)
      unfolding enforce_cancellations cancelling
      enforced [] worktrees doomed i = elim i [ ]
      enforced (k ∷ order) worktrees doomed i = elim (Bool-cases (k == t.id)) [
        | inl same ↦
            subst
              (λ q.
                IsStopped (
                  emitted seq ts (enforce_cancellations s in_flight worktrees (q ∷ order)).emits t))
              (ground (arith, eq_iff k t.id, same)) (hit_enforced order worktrees doomed)
        | inr other ↦ elim (cancel_doomed-cases worktrees (get k s.tickets)) [
          | inl e ↦ rw e (enforced order _ doomed (later k order other i))
          | inr (u, at, e) ↦ rw e (
              subst
                (λ y. IsStopped (
                  emitted seq ts
                    (enforce_cancellations s in_flight
                      (cancel_doomed s in_flight worktrees (get k s.tickets)).worktrees order).emits
                    y))
                (sym (
                  miss (cancelling u) t
                    (subst (λ q. (q == t.id) ≡ false) (sym (ids k u at)) other)))
                (enforced order _ doomed (later k order other i)))
        ]
      ]
        where
          later :
              (k : String) (order : List String)
              → (k == t.id) ≡ false
              → Elem t.id (k ∷ order)
              → Elem t.id order
          later k order h (inl e) = absurd (ground (arith, eq_iff k t.id, e, h))
          later k order h (inr i) = i

doomed_when :
    (s : State) (in_flight : Dict ℕ) (t : Ticket) (g : Goal)
    → (is_terminal t.status || in_progress t.status) ≡ false
    → get t.goal_id s.goals ≡ some g
    → g.cancelled ≡ true
    → get t.id in_flight ≡ none
    → is_doomed s in_flight t ≡ true
unfolding is_doomed
doomed_when s in_flight t g idle of cancelled still = rw (idle, of, cancelled, still) refl

-- Where every task is stored under its own id, a task of a cancelled Goal that is in the creation order,
-- is not finished, claimed or running, and has no attempt in flight, is failed or left to other workers
-- by the events that enforceCancellations emits, replayed on the task.
pub enforce_cancellations-IsStopped :
    (s : State) (in_flight : Dict ℕ) (worktrees : Dict String) (seq ts : ℕ) (t : Ticket) (g : Goal)
    → ((k : String) (u : Ticket) → get k s.tickets ≡ some u → u.id ≡ k)
    → get t.id s.tickets ≡ some t
    → Elem t.id s.ticket_order
    → (is_terminal t.status || in_progress t.status) ≡ false
    → get t.goal_id s.goals ≡ some g
    → g.cancelled ≡ true
    → get t.id in_flight ≡ none
    → IsStopped
        (emitted seq ts (enforce_cancellations s in_flight worktrees s.ticket_order).emits t)
enforce_cancellations-IsStopped s in_flight worktrees seq ts t g ids found i idle of cancelled
      still =
    enforced seq ts s in_flight ids t found s.ticket_order worktrees
      (doomed_when s in_flight t g idle of cancelled still) i
