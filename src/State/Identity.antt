-- ===== src/State/Identity.antt =====
-- What the handlers of `Apply` leave alone: the fields that say which ticket or Goal it is.
use age_of_agents.Base.{
  ℕ, String, ◌==◌, ◌≡◌, refl, subst, Bool, true, false, Option, none, some, some-injective, arith,
  if◌then◌else◌,
}
use age_of_agents.Base.Dict.{Dict, get, modify, get-modify, option_map}
use age_of_agents.Api.Payloads.{
  TicketDecomposedPayload, TicketClaimedPayload, ProposalSubmittedPayload,
  VerificationFailedPayload, MergedPayload, TicketFailedPayload, WorkerRestartedPayload,
  TicketInvalidatedPayload, TicketAmendedPayload,
}
use age_of_agents.State.Model.{Ticket}
use age_of_agents.State.Handlers.{
  on_decomposed, on_ready, on_claimed, on_work_started, on_heartbeat, on_proposal,
  on_verification_failed, on_merged, on_ticket_failed, on_approval_requested, on_approval_granted,
  on_approval_denied, on_worker_restarted, on_invalidated, on_ticket_amended,
}

pub record SameTicket (t u : Ticket) : Type 0 where
  pub same_id : u.id ≡ t.id
  pub same_goal : u.goal_id ≡ t.goal_id
  pub same_key : u.idempotency_key ≡ t.idempotency_key
  pub same_deps : u.depends_on ≡ t.depends_on
  pub same_depth : u.depth ≡ t.depth

pub SameTicket-refl : (t : Ticket) → SameTicket t t
SameTicket-refl t = ground arith

-- A handler that changes neither what a ticket is nor what it has spent.
pub record Keeps (f : Ticket → Ticket) : Type 0 where
  pub same : (t : Ticket) → SameTicket t (f t)
  pub spends : (t : Ticket) → (f t).spend ≡ t.spend

-- A ticket found after a write was there before it, and is the same ticket.
pub before_modify :
    (k j : String) (f : Ticket → Ticket) (m : Dict Ticket) (u : Ticket)
    → ((t : Ticket) → SameTicket t (f t))
    → get j (modify k f m) ≡ some u
    → (t : Ticket) × (get j m ≡ some t) × SameTicket t u
before_modify k j f m u same h = choose (k == j) (get j m) refl (rw get-modify at h)
  where
    choose :
        (b : Bool) (o : Option Ticket)
        → get j m ≡ o
        → (if b then option_map f o else o) ≡ some u
        → (t : Ticket) × (get j m ≡ some t) × SameTicket t u
    choose true none e p = absurd (cc)
    choose true (some t) e p = (t, e, subst (SameTicket t) (some-injective (f t) u p) (same t))
    choose false none e p = absurd (cc)
    choose false (some t) e p =
        (t, e, subst (SameTicket t) (some-injective t u p) (SameTicket-refl t))

module _ (seq ts : ℕ) where
  pub on_decomposed-Keeps : (p : TicketDecomposedPayload) → Keeps (on_decomposed seq ts p)
  unfolding on_decomposed
  on_decomposed-Keeps p = record { same = λ t. ground arith; spends = λ t. refl }

  pub on_ready-Keeps : Keeps (on_ready seq ts)
  unfolding on_ready
  on_ready-Keeps = record { same = λ t. ground arith; spends = λ t. ground arith }

  pub on_claimed-Keeps : (p : TicketClaimedPayload) → Keeps (on_claimed seq ts p)
  unfolding on_claimed
  on_claimed-Keeps p = record { same = λ t. ground arith; spends = λ t. refl }

  pub on_work_started-Keeps : Keeps (on_work_started seq ts)
  unfolding on_work_started
  on_work_started-Keeps = record { same = λ t. ground arith; spends = λ t. refl }

  pub on_heartbeat-Keeps : Keeps (on_heartbeat seq ts)
  unfolding on_heartbeat
  on_heartbeat-Keeps = record { same = λ t. ground arith; spends = λ t. refl }

  pub on_proposal-Keeps : (p : ProposalSubmittedPayload) → Keeps (on_proposal seq ts p)
  unfolding on_proposal
  on_proposal-Keeps p = record { same = λ t. ground arith; spends = λ t. ground arith }

  pub on_verification_failed-Keeps :
      (p : VerificationFailedPayload) → Keeps (on_verification_failed seq ts p)
  unfolding on_verification_failed
  on_verification_failed-Keeps p = record { same = λ t. ground arith; spends = λ t. ground arith }

  pub on_merged-Keeps : (p : MergedPayload) → Keeps (on_merged seq ts p)
  unfolding on_merged
  on_merged-Keeps p = record { same = λ t. ground arith; spends = λ t. refl }

  pub on_ticket_failed-Keeps : (p : TicketFailedPayload) → Keeps (on_ticket_failed seq ts p)
  unfolding on_ticket_failed
  on_ticket_failed-Keeps p = record { same = λ t. ground arith; spends = λ t. ground arith }

  pub on_approval_requested-Keeps : Keeps (on_approval_requested seq ts)
  unfolding on_approval_requested
  on_approval_requested-Keeps = record { same = λ t. ground arith; spends = λ t. ground arith }

  pub on_approval_granted-Keeps : Keeps (on_approval_granted seq ts)
  unfolding on_approval_granted
  on_approval_granted-Keeps = record { same = λ t. ground arith; spends = λ t. ground arith }

  pub on_approval_denied-Keeps : Keeps (on_approval_denied seq ts)
  unfolding on_approval_denied
  on_approval_denied-Keeps = record { same = λ t. ground arith; spends = λ t. ground arith }

  pub on_worker_restarted-Keeps :
      (p : WorkerRestartedPayload) → Keeps (on_worker_restarted seq ts p)
  unfolding on_worker_restarted
  on_worker_restarted-Keeps p = record { same = λ t. ground arith; spends = λ t. ground arith }

  pub on_invalidated-Keeps : (p : TicketInvalidatedPayload) → Keeps (on_invalidated seq ts p)
  unfolding on_invalidated
  on_invalidated-Keeps p = record { same = λ t. ground arith; spends = λ t. ground arith }

  pub on_ticket_amended-Keeps : (p : TicketAmendedPayload) → Keeps (on_ticket_amended seq ts p)
  unfolding on_ticket_amended
  on_ticket_amended-Keeps p = record { same = λ t. ground arith; spends = λ t. ground arith }
