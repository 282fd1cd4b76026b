-- ===== src/Scheduler/Retries.antt =====
-- How often the Scheduler tries a task again whose attempts keep coming to nothing, one at a time.
use age_of_agents.Base.{
  ℕ, suc, ◌+◌, ◌≤◌, ◌<◌, String, ◌||◌, false, ◌≡◌, ◌⊎◌, inl, inr, refl, subst, ◌∙◌, some, List, [],
  ◌∷◌, length, if◌then◌else◌, arith, Bool-cases, eq_refl, eq_iff,
}
use age_of_agents.Base.Dict.{Dict}
use age_of_agents.Api.Payloads.{
  TicketFailedPayload, VerificationFailedPayload, ProposalSubmittedPayload,
}
use age_of_agents.Api.Event.{Body}
use age_of_agents.State.Model.{ready, proposed, failed, is_failed, Ticket}
use age_of_agents.State.Handlers.{
  remove_worker, count_failure, on_claimed, on_proposal, on_verification_failed, on_ticket_failed,
  on_worker_restarted,
}
use age_of_agents.State.TicketView.{effect}
use age_of_agents.Scheduler.Rejection.{
  RetryOptions, Used, is_crash_loop, is_spent, reject_or_fail, fail_attempt,
}

-- How an attempt comes to nothing: it fails before there is a proposal, or its proposal is rejected.
pub data Setback : Type 0 where
  broke : String → Used → Setback
  rejected : ProposalSubmittedPayload → String → String → String → Setback

abbrev pub emitted : ℕ → ℕ → List Body → Ticket → Ticket
emitted seq ts [] t = t
emitted seq ts (b ∷ bs) t = emitted seq ts bs (effect seq ts b t.id t)

module _ (seq ts : ℕ) (o : RetryOptions) (worktrees : Dict String) (worker : String) where
  -- One attempt: the claim, what the worker does, and what the Scheduler emits, replayed on the ticket.
  unfoldable pub attempt : Ticket → Setback → Ticket
  unfolding on_claimed on_proposal on_verification_failed on_ticket_failed on_worker_restarted
      reject_or_fail fail_attempt
  attempt t (broke reason used) =
      let c = on_claimed seq ts (record { ticket_id = t.id; worker = worker }) t in
      emitted seq ts
        (fail_attempt o worktrees (some c) t.id (suc t.attempts) worker reason used).emits c
  attempt t (rejected p reason output tree) =
      let c = on_claimed seq ts (record { ticket_id = t.id; worker = worker }) t in
      let q = on_proposal seq ts (record p { ticket_id = t.id; worker = worker }) c in
      emitted seq ts (reject_or_fail o worktrees q q.worker reason output tree).emits q

  -- Attempts of a task until it has failed.
  unfoldable pub attempts_of : Ticket → List Setback → Ticket
  unfolding attempt
  attempts_of t [] = t
  attempts_of t (x ∷ xs) =
      let u = attempt t x in let rest = attempts_of u xs in if is_failed u.status then u else rest

  -- Failed, or ready again with one attempt more.
  abbrev Again : Ticket → Ticket → Type 0
  Again t u =
      (u.status ≡ failed)
      ⊎ ((u.status ≡ ready)
          × (u.active_workers ≡ [])
          × (u.attempts ≡ suc t.attempts)
          × (suc t.attempts < o.max_attempts))

  -- The ticket whose proposal is rejected.
  proposal_of : ProposalSubmittedPayload → Ticket → Ticket
  unfolding on_claimed on_proposal
  proposal_of p t =
      on_proposal seq ts (record p { ticket_id = t.id; worker = worker })
        (on_claimed seq ts (record { ticket_id = t.id; worker = worker }) t)

  proposal_of_lem :
      (p : ProposalSubmittedPayload) (t : Ticket)
      → t.status ≡ ready
      → t.active_workers ≡ []
      → (let q = proposal_of p t in
          (q.status ≡ proposed) × (q.active_workers ≡ []) × (q.attempts ≡ suc t.attempts))
  unfolding proposal_of on_claimed on_proposal remove_worker
  proposal_of_lem p t r a = ground (arith, eq_refl worker)

  failed-status :
      (p : TicketFailedPayload) (q : Ticket)
      → p.ticket_id ≡ q.id
      → p.worker ≡ q.worker
      → q.status ≡ proposed
      → q.active_workers ≡ []
      → (effect seq ts (Body.ticket_failed p) q.id q).status ≡ failed
  unfolding on_ticket_failed remove_worker
  failed-status p q same worker r a =
      ground (arith, eq_iff p.ticket_id q.id, eq_iff q.worker p.worker)

  retried :
      (p : VerificationFailedPayload) (q : Ticket)
      → p.ticket_id ≡ q.id
      → p.worker ≡ q.worker
      → q.status ≡ proposed
      → q.active_workers ≡ []
      → (let u = effect seq ts (Body.verification_failed p) q.id q in
          (u.status ≡ ready) × (u.active_workers ≡ []) × (u.attempts ≡ q.attempts))
  unfolding on_verification_failed remove_worker count_failure
  retried p q same worker r a = ground (arith, eq_iff p.ticket_id q.id, eq_iff q.worker p.worker)

  unspent :
      (q : Ticket) (reason : String)
      → q.active_workers ≡ []
      → (is_crash_loop o q reason || is_spent o q) ≡ false
      → q.attempts < o.max_attempts
  unfolding is_spent
  unspent q reason a h = ground arith

  rejection-Again :
      (q : Ticket) (reason output tree : String)
      → q.status ≡ proposed
      → q.active_workers ≡ []
      → (let u =
            emitted seq ts (reject_or_fail o worktrees q q.worker reason output tree).emits q in
          (u.status ≡ failed)
          ⊎ ((u.status ≡ ready)
              × (u.active_workers ≡ [])
              × (u.attempts ≡ q.attempts)
              × (q.attempts < o.max_attempts)))
  unfolding reject_or_fail
  rejection-Again q reason output tree r a =
      elim (Bool-cases (is_crash_loop o q reason || is_spent o q)) [
        | inl stop ↦ inl (rw stop (failed-status _ q refl refl r a))
        | inr go ↦
            let (status, workers, attempts) = retried _ q refl refl r a in
            rw go (inr (status, workers, attempts, unspent q reason a go))
      ]

  attempt-Again :
      (t : Ticket) (x : Setback) → t.status ≡ ready → t.active_workers ≡ [] → Again t (attempt t x)
  unfolding attempt on_claimed on_worker_restarted on_ticket_failed fail_attempt proposal_of
  attempt-Again t (broke reason used) r a = ground (arith, eq_refl t.id, eq_refl worker)
  attempt-Again t (rejected p reason output tree) r a =
      let (status, workers, attempts) = proposal_of_lem p t r a in
      elim (rejection-Again (proposal_of p t) reason output tree status workers) [
        | inl e ↦ inl e
        | inr (e, w, n, m) ↦ inr (e, w, n ∙ attempts, subst (λ k. k < o.max_attempts) attempts m)
      ]

  -- A ready task with no attempt under way, whose attempts all come to nothing, has failed after as many
  -- as MaxAttempts allows it, and after one at the latest where it allows no more.
  pub attempts_of-failed :
      (t : Ticket) (x : Setback) (xs : List Setback)
      → t.status ≡ ready
      → t.active_workers ≡ []
      → o.max_attempts ≤ t.attempts + length (x ∷ xs)
      → (attempts_of t (x ∷ xs)).status ≡ failed
  unfolding attempts_of
  attempts_of-failed t x [] r a n = elim (attempt-Again t x r a) [
    | inl e ↦ rw e e
    | inr (e, w, m, less) ↦ absurd (omega (arith, n, less))
  ]
  attempts_of-failed t x (y ∷ ys) r a n = elim (attempt-Again t x r a) [
    | inl e ↦ rw e e
    | inr (e, w, m, less) ↦ rw e (attempts_of-failed (attempt t x) y ys e w (omega (arith, n, m)))
  ]
