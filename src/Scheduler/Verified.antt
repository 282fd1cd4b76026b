-- ===== src/Scheduler/Verified.antt =====
-- The merges that a pass records, against the check that each was verified.
use age_of_agents.Base.{
  ℕ, suc, ◌≤◌, String, Bool, true, false, ◌||◌, ◌≡◌, refl, sym, ◌∙◌, inl, inr, List, [], ◌∷◌, ◌++◌,
  All, arith, Bool-cases, eq_iff,
}
use age_of_agents.Base.Dict.{Dict, get, get-put}
use age_of_agents.Api.EventType.{EventType}
use age_of_agents.Api.Payloads.{VerificationPassedPayload, MergedPayload}
use age_of_agents.Api.Event.{Body, Event, event_type, ticket_id}
use age_of_agents.MergeQueue.{Outcome}
use age_of_agents.State.Model.{Ticket}
use age_of_agents.Invariant.{
  scan, Verdicts, seq_at, note_verdict, verdict_step, unverified, verdict_check,
  merge_implies_verified,
}
use age_of_agents.Invariant.Scan.{run}
use age_of_agents.Invariant.Checks.{note_verdict-seq_at}
use mathlib.Core.List.{append_assoc}
use age_of_agents.Scheduler.Rejection.{RetryOptions, reject_or_fail, is_crash_loop, is_spent}
use age_of_agents.Scheduler.Merging.{merged_events, apply_merge_outcome, apply_outcomes}

abbrev no_verdicts : Verdicts
no_verdicts = record { prop_seq = []; pass_seq = [] }

-- The task that such an event is about.
abbrev pub subject : Body → String
subject (Body.verification_passed p) = p.ticket_id
subject (Body.merged p) = p.ticket_id
subject (Body.regression_escaped p) = p.ticket_id
subject (Body.verification_failed p) = p.ticket_id
subject (Body.ticket_failed p) = p.ticket_id
subject _ = ""

-- The events that the ledger stores for these payloads, from this sequence number on.
abbrev pub Logged : ℕ → List Body → List Event → Type 0
Logged n [] [] = Unit
Logged n [] (e ∷ es) = ⊥
Logged n (b ∷ bs) [] = ⊥
Logged n (b ∷ bs) (e ∷ es) =
    (e.seq ≡ n) × (e.body ≡ b) × (ticket_id e ≡ subject b) × Logged (suc n) bs es

abbrev is_neutral : Body → Bool
is_neutral (Body.regression_escaped p) = true
is_neutral (Body.verification_failed p) = true
is_neutral (Body.ticket_failed p) = true
is_neutral _ = false

-- Every merge stands right behind a pass of its task.
data Settles : List Body → Type 0 where
  nothing : Settles []
  lands :
      {bs : List Body} (p : VerificationPassedPayload) (q : MergedPayload)
      → p.ticket_id ≡ q.ticket_id
      → Settles bs
      → Settles (Body.verification_passed p ∷ Body.merged q ∷ bs)
  other : {bs : List Body} (b : Body) → is_neutral b ≡ true → Settles bs → Settles (b ∷ bs)

-- No proposal is noted later than this.
abbrev Low : ℕ → Verdicts → Type 0
Low n v = (id : String) → seq_at id v.prop_seq ≤ n

neutral-step :
    (b : Body) (id : String) (n : ℕ) (v : Verdicts)
    → is_neutral b ≡ true
    → (note_verdict (event_type b) id n v ≡ v) × (unverified (event_type b) id n v ≡ [])
unfolding event_type
neutral-step (Body.regression_escaped p) id n v h = (refl, refl)
neutral-step (Body.verification_failed p) id n v h = (refl, refl)
neutral-step (Body.ticket_failed p) id n v h = (refl, refl)
neutral-step _ id n v h = absurd (cc)

-- A merge behind a pass of its task, both later than every proposal, is no violation.
landed :
    (id j : String) (n : ℕ) (v : Verdicts)
    → id ≡ j
    → Low n v
    → unverified EventType.merged j
        (suc (suc n))
        (note_verdict EventType.verification_passed id (suc n) v)
      ≡ []
landed id j n v same low = ground (arith, get-put id j (suc n) v.pass_seq, eq_iff id j, same, low j)

-- What the check says and notes at an event, from its payload.
at_event :
    (e : Event) (b : Body) (n : ℕ) (v : Verdicts)
    → e.seq ≡ n
    → e.body ≡ b
    → ticket_id e ≡ subject b
    → (verdict_check v e ≡ unverified (event_type b) (subject b) n v)
      × (verdict_step v e ≡ note_verdict (event_type b) (subject b) n v)
at_event e b n v s h i = (
  (λ k. unverified (event_type (h k)) (i k) (s k) v),
  (λ k. note_verdict (event_type (h k)) (i k) (s k) v),
)

scan-next :
    (e : Event) (es : List Event) (v w : Verdicts)
    → verdict_check v e ≡ []
    → verdict_step v e ≡ w
    → scan verdict_check verdict_step w es ≡ []
    → scan verdict_check verdict_step v (e ∷ es) ≡ []
unfolding scan
scan-next e es v w h k r = rw (h, k) r

Low-later : (n : ℕ) (v : Verdicts) → Low n v → Low (suc n) v
Low-later n v low id = omega (arith, low id)

Low-landed :
    (id : String) (n m : ℕ) (v : Verdicts)
    → Low n v
    → Low (suc (suc n)) (
        note_verdict EventType.merged id m
          (note_verdict EventType.verification_passed id (suc n) v))
Low-landed id n m v low j = omega (arith, low j)

scan-Settles :
    {bs : List Body}
    → Settles bs
    → (es : List Event) (n : ℕ) (v : Verdicts) → Low n v
    → Logged (suc n) bs es
    → scan verdict_check verdict_step v es ≡ []
unfolding scan event_type
scan-Settles nothing [] n v low h = refl
scan-Settles nothing (e ∷ es) n v low h = elim h [ ]
scan-Settles (lands p q same r) [] n v low h = elim h [ ]
scan-Settles (lands p q same r) (e ∷ []) n v low h = elim h.3 [ ]
scan-Settles (other b neutral r) [] n v low h = elim h [ ]
scan-Settles (lands p q same r) (e ∷ d ∷ es) n v low (s, b, i, (s', b', i', h)) =
    let (c, k) = at_event e (Body.verification_passed p) (suc n) v s b i in
    let w = note_verdict EventType.verification_passed p.ticket_id (suc n) v in
    let (c', k') = at_event d (Body.merged q) (suc (suc n)) w s' b' i' in
    scan-next e (d ∷ es) v w c k (
      scan-next d es w w (c' ∙ landed p.ticket_id q.ticket_id n v same low) k'
        (scan-Settles r es (suc (suc n)) w (Low-landed p.ticket_id n n v low) h))
scan-Settles (other b neutral r) (e ∷ es) n v low (s, b', i, h) =
    let (c, k) = at_event e b (suc n) v s b' i in
    let (note, none) = neutral-step b (subject b) (suc n) v neutral in
    scan-next e es v v (c ∙ none) (k ∙ note) (scan-Settles r es (suc n) v (Low-later n v low) h)

Settles-append : {xs ys : List Body} → Settles xs → Settles ys → Settles (xs ++ ys)
Settles-append nothing k = k
Settles-append (lands p q same r) k = lands p q same (Settles-append r k)
Settles-append (other b neutral r) k = other b neutral (Settles-append r k)

reject_or_fail-Settles :
    (o : RetryOptions) (worktrees : Dict String) (t : Ticket) (worker reason output tree : String)
    → Settles (reject_or_fail o worktrees t worker reason output tree).emits
unfolding reject_or_fail
reject_or_fail-Settles o worktrees t worker reason output tree =
    elim (Bool-cases (is_crash_loop o t reason || is_spent o t)) [
      | inl stop ↦ rw stop (other _ refl nothing)
      | inr go ↦ rw go (other _ refl nothing)
    ]

merged_events-Settles :
    (pr_mode : Bool) (t : Ticket) (out : Outcome) → Settles (merged_events pr_mode t out)
merged_events-Settles pr_mode t out = elim (Bool-cases out.regression_escaped) [
  | inl escaped ↦ rw escaped (lands _ _ refl (other _ refl nothing))
  | inr kept ↦ rw kept (lands _ _ refl nothing)
]

module _ (o : RetryOptions) (pr_mode : Bool) where
  apply_merge_outcome-Settles :
      (worktrees : Dict String) (t : Ticket) (out : Outcome)
      → Settles (apply_merge_outcome o pr_mode worktrees t out).emits
  unfolding apply_merge_outcome
  apply_merge_outcome-Settles worktrees t out = elim (Bool-cases out.merged) [
    | inl yes_merged ↦ rw yes_merged (merged_events-Settles pr_mode t out)
    | inr rejected ↦
        rw rejected (reject_or_fail-Settles o worktrees t t.worker out.reason out.output out.tree)
  ]

  apply_outcomes-Settles :
      (worktrees : Dict String) (results : List (Ticket × Outcome))
      → Settles (apply_outcomes o pr_mode worktrees results).emits
  unfolding apply_outcomes
  apply_outcomes-Settles worktrees [] = nothing
  apply_outcomes-Settles worktrees ((t, out) ∷ rest) =
      Settles-append (apply_merge_outcome-Settles worktrees t out)
        (apply_outcomes-Settles (apply_merge_outcome o pr_mode worktrees t out).worktrees rest)

run-Low :
    (es : List Event) (n : ℕ) (v : Verdicts)
    → All (λ e. e.seq ≤ n) es
    → Low n v
    → Low n (run verdict_step v es)
run-Low [] n v h low = low
run-Low (e ∷ es) n v h low = run-Low es n (verdict_step v e) h.1 (λ id.
    ground (arith, note_verdict-seq_at (event_type e.body) (ticket_id e) id e.seq v, low id, h.0))

scan-append :
    (es new : List Event) (v : Verdicts)
    → scan verdict_check verdict_step v (es ++ new)
      ≡ scan verdict_check verdict_step v es
        ++ scan verdict_check verdict_step (run verdict_step v es) new
unfolding scan
scan-append [] new v = refl
scan-append (e ∷ es) new v = rw (scan-append es new (verdict_step v e)) (
    sym
      (append_assoc (verdict_check v e) (scan verdict_check verdict_step (verdict_step v e) es) _))

-- On a log in which MergeImpliesVerified finds nothing, and whose sequence numbers are at most n, it finds
-- nothing either after the events that applyMergeOutcome emits for any proposals and any outcomes of the
-- merge queue, stored from n + 1 on.
pub apply_outcomes_verified :
    (o : RetryOptions) (pr_mode : Bool) (worktrees : Dict String)
    (results : List (Ticket × Outcome)) (es new : List Event) (n : ℕ)
    → All (λ e. e.seq ≤ n) es
    → merge_implies_verified es ≡ []
    → Logged (suc n) (apply_outcomes o pr_mode worktrees results).emits new
    → merge_implies_verified (es ++ new) ≡ []
unfolding merge_implies_verified get
apply_outcomes_verified o pr_mode worktrees results es new n low clean logged =
    scan-append es new no_verdicts
    ∙ rw (clean) (
        scan-Settles (apply_outcomes-Settles o pr_mode worktrees results) new n
          (run verdict_step no_verdicts es) (run-Low es n no_verdicts low (λ id. omega arith))
          logged)
