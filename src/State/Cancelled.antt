-- ===== src/State/Cancelled.antt =====
-- What the replay of internal/state/state.go does to a Goal that was cancelled.
use age_of_agents.Base.{
  ℕ, String, ◌==◌, true, ◌≡◌, refl, ◌∙◌, subst, some, List, arith, eq_iff, inl, inr, Option-cases,
  Bool-cases,
}
use age_of_agents.Base.Dict.{get, modify, get-put, get-modify}
use age_of_agents.Api.Payloads.{GoalSubmittedPayload, TicketCreatedPayload}
use age_of_agents.Api.Event.{Event}
use age_of_agents.State.Model.{Charge, Goal, State}
use age_of_agents.State.Handlers.{new_goal}
use age_of_agents.State.GoalIdentity.{SameGoal}
use age_of_agents.State.Apply.{
  ok, add_to_goal, charge, apply_goal_submitted, apply_ticket_created, fold_from,
}
use age_of_agents.State.Closed.{Closed, AllRestore, Ensures, closed_fold_from}

-- The Goal is on the log, and was first cancelled by the event `seq`.
pub record IsCancelled (id : String) (seq : ℕ) (s : State) : Type 0 where
  pub goal : Goal
  pub found : get id s.goals ≡ some goal
  pub cancelled : goal.cancelled ≡ true
  pub at_seq : goal.cancelled_seq ≡ seq

module _ (id : String) (n : ℕ) where
  modify-IsCancelled :
      (k : String) (f : Goal → Goal) (s u : State)
      → ((g : Goal) → SameGoal g (f g))
      → u.goals ≡ modify k f s.goals
      → IsCancelled id n s
      → IsCancelled id n u
  modify-IsCancelled k f s u same e x = elim (Bool-cases (k == id)) [
    | inl touched ↦ record {
      goal = f x.goal;
      found = rw (e, get-modify, touched, x.found);
      cancelled = (same x.goal).cancelled x.cancelled;
      at_seq = (same x.goal).first_cancel x.cancelled ∙ x.at_seq;
    }
    | inr other ↦ record {
      goal = x.goal;
      found = rw (e, get-modify, other) x.found;
      cancelled = x.cancelled;
      at_seq = x.at_seq;
    }
  ]

  same-IsCancelled : (s u : State) → u.goals ≡ s.goals → IsCancelled id n s → IsCancelled id n u
  same-IsCancelled s u e x = record {
    goal = x.goal;
    found = rw e x.found;
    cancelled = x.cancelled;
    at_seq = x.at_seq;
  }

  submitted-IsCancelled :
      (seq ts : ℕ) (p : GoalSubmittedPayload) (s : State)
      → IsCancelled id n s
      → IsCancelled id n (apply_goal_submitted seq ts p s)
  unfolding apply_goal_submitted
  submitted-IsCancelled seq ts p s x = record {
    goal = x.goal;
    found =
        ground
          (arith, x.found, eq_iff p.goal_id id, get-put p.goal_id id (new_goal seq ts p) s.goals);
    cancelled = x.cancelled;
    at_seq = x.at_seq;
  }

  created-goals :
      (seq ts : ℕ) (p : TicketCreatedPayload) (s : State)
      → (apply_ticket_created seq ts p s).goals ≡ s.goals
  unfolding apply_ticket_created
  created-goals seq ts p s = ground arith

  charge-IsCancelled :
      (k : String) (c : Charge) (s : State) → IsCancelled id n s → IsCancelled id n (charge k c s)
  unfolding charge
  charge-IsCancelled k c s x = elim (Option-cases (get k s.tickets)) [
    | inl missing ↦ rw (missing, charge) x
    | inr (t, found) ↦
        rw (found, charge)
          (modify-IsCancelled t.goal_id (add_to_goal c) s _ (λ g. ground arith) refl x)
  ]

  IsCancelled-Closed : Closed (IsCancelled id n)
  IsCancelled-Closed = record {
    ticket = λ k f s keep x. same-IsCancelled s _ refl x;
    goal = λ k f s keep x. modify-IsCancelled k f s _ keep.same refl x;
    goal_submitted = submitted-IsCancelled;
    ticket_created = λ seq ts p s x. same-IsCancelled s _ (created-goals seq ts p s) x;
    budgets = λ m s x. same-IsCancelled s _ refl x;
    sessions = λ m s x. same-IsCancelled s _ refl x;
    charged = charge-IsCancelled;
    sequenced = λ m s x. same-IsCancelled s _ refl x;
  }

-- A Goal that is cancelled stays cancelled, and stays cancelled by its first GoalCancelled, whatever
-- events follow, provided that the snapshots among them keep it so.
pub cancel_is_final :
    (id : String) (n : ℕ) (es : List Event) (s t : State)
    → AllRestore (IsCancelled id n) es
    → IsCancelled id n s
    → fold_from es s ≡ ok t
    → IsCancelled id n t
cancel_is_final id n es s t r x h =
    subst (Ensures (IsCancelled id n)) h (closed_fold_from (IsCancelled-Closed id n) es s r x)
