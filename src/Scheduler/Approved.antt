-- ===== src/Scheduler/Approved.antt =====
-- When processProposal records a merge.
use age_of_agents.Base.{
  String, Bool, true, false, not, ◌&&◌, ◌||◌, ◌≡◌, ◌⊎◌, inl, inr, refl, sym, ◌∙◌, Option, none,
  some, List, [], ◌∷◌, if◌then◌else◌, Bool-cases, arith, true≢false,
}
use age_of_agents.Base.Dict.{Dict, get}
use age_of_agents.Api.Event.{Body}
use age_of_agents.Git.{Try, ok, err, External}
use age_of_agents.Git.Worktree
use age_of_agents.Git.Verify.{Verifier}
use age_of_agents.MergeQueue.{Outcome, QueueError, Reply, process, dry_run}
use age_of_agents.State.Model.{Ticket, State}
use age_of_agents.Scheduler.Rejection.{RetryOptions, reject_or_fail, is_crash_loop, is_spent}
use age_of_agents.Scheduler.Merging.{apply_merge_outcome, is_cancelled, drop_cancelled}
use age_of_agents.Scheduler.Proposals.{
  ProposalOptions, proposal_of, goal_ref, after_dry_run, advanced, after_process, on_branch,
  process_proposal, Processed,
}

-- A merge is among the events.
abbrev pub lands : List Body → Bool
lands [] = false
lands (Body.merged p ∷ bs) = true
lands (_ ∷ bs) = lands bs

reject_or_fail-quiet :
    (o : RetryOptions) (worktrees : Dict String) (t : Ticket) (worker reason output tree : String)
    → lands (reject_or_fail o worktrees t worker reason output tree).emits ≡ false
unfolding reject_or_fail
reject_or_fail-quiet o worktrees t worker reason output tree =
    elim (Bool-cases (is_crash_loop o t reason || is_spent o t)) [
      | inl stop ↦ rw stop refl
      | inr go ↦ rw go refl
    ]

apply_merge_outcome-quiet :
    (o : RetryOptions) (pr_mode : Bool) (worktrees : Dict String) (t : Ticket) (out : Outcome)
    → out.merged ≡ false
    → lands (apply_merge_outcome o pr_mode worktrees t out).emits ≡ false
unfolding apply_merge_outcome
apply_merge_outcome-quiet o pr_mode worktrees t out h =
    rw h (reject_or_fail-quiet o worktrees t t.worker out.reason out.output out.tree)

if-both : {A : Type 0} (a b : Bool) (x y : A) → a ≡ true → b ≡ true → (if a && b then x else y) ≡ x
if-both true true x y h k = refl
if-both true false x y h k = absurd (cc)
if-both false b x y h k = absurd (cc)

-- A test that led to the events of a merge, where one branch has none.
either :
    {W : Type 0} (b : Bool) (p q : Processed W) (P : W → Type 0)
    → lands p.effects.emits ≡ false
    → (lands q.effects.emits ≡ true → P q.world)
    → lands (if b then p else q).effects.emits ≡ true
    → (b ≡ false) × P (if b then p else q).world
either true p q P quiet k h = absurd (true≢false (sym h ∙ quiet))
either false p q P quiet k h = (refl, k h)

module _ (x : External) (dir : String) (gate shadow : Verifier) (o : ProposalOptions) where
  open x use {World}

  advanced-lands :
      (worktrees : Dict String) (t : Ticket) (out : Outcome) (r : World × Try (Unit {0}))
      → lands (advanced x dir gate shadow o worktrees t out r).effects.emits ≡ true
      → (out.merged ≡ true) × (r ≡ ((advanced x dir gate shadow o worktrees t out r).world, ok tt))
  advanced-lands worktrees t out (w, err e) h = absurd (cc)
  advanced-lands worktrees t out (w, ok u) h = elim (Bool-cases out.merged) [
    | inl kept ↦ (kept, refl)
    | inr sent_back ↦
        absurd
          (ground (arith, h, apply_merge_outcome-quiet o.retry o.pr_mode worktrees t out sent_back))
  ]

  -- The queue kept the merge, and in PR mode the Goal's branch was moved from `tip` to it.
  abbrev pub Kept : Ticket → String → Reply World → World → Type 0
  Kept t tip r w =
      (r.error ≡ none)
      × (r.outcome.merged ≡ true)
      × ((o.pr_mode ≡ false)
          ⊎ (Worktree.update_ref x (goal_ref t) r.outcome.merge_commit tip r.world ≡ (w, ok tt)))

  after_process-lands :
      (worktrees : Dict String) (t : Ticket) (tip : String) (w : World) (out : Outcome)
      (e : Option QueueError)
      → (let r : Reply World = record { world = w; outcome = out; error = e } in
          let done = after_process x dir gate shadow o worktrees t tip r in
          lands done.effects.emits ≡ true → Kept t tip r done.world)
  after_process-lands worktrees t tip w out (some e) h =
      absurd (true≢false (sym h ∙ reject_or_fail-quiet o.retry worktrees t t.worker _ "" out.tree))
  after_process-lands worktrees t tip w out none h =
      let moved = Worktree.update_ref x (goal_ref t) out.merge_commit tip w in
      let (kept, at) =
        advanced-lands worktrees t out (if out.merged && o.pr_mode then moved else (w, ok tt)) h in
      (
        refl,
        kept,
        elim (Bool-cases o.pr_mode) [
          | inl pr ↦ inr (sym (if-both out.merged o.pr_mode moved (w, ok tt) kept pr) ∙ at)
          | inr direct ↦ inl direct
        ],
      )

  after_dry_run-quiet :
      (worktrees : Dict String) (t : Ticket) (w : World) (out : Outcome) (e : Option QueueError)
      → lands
          (after_dry_run x dir gate shadow o worktrees t
            (record { world = w; outcome = out; error = e })).effects.emits
        ≡ false
  after_dry_run-quiet worktrees t w out (some e) =
      reject_or_fail-quiet o.retry worktrees t t.worker _ "" out.tree
  after_dry_run-quiet worktrees t w out none = elim (Bool-cases out.verified) [
    | inl passed ↦ rw passed refl
    | inr failed ↦
        rw failed (reject_or_fail-quiet o.retry worktrees t t.worker out.reason out.output out.tree)
  ]

  -- The proposal needs no approval that it lacks, and the queue kept its merge.
  abbrev pub Merged : Ticket → World × Try String → World → Type 0
  Merged t from w =
      ((o.require_approval && not t.approved) ≡ false)
      × ((v : World) × (tip : String) × (from ≡ (v, ok tip))
          × Kept t tip (process x dir gate shadow (proposal_of t) v) w)

  on_branch-lands :
      (worktrees : Dict String) (t : Ticket) (from : World × Try String)
      → (let done = on_branch x dir gate shadow o worktrees t from in
          lands done.effects.emits ≡ true → Merged t from done.world)
  on_branch-lands worktrees t (w, err e) h = absurd (cc)
  on_branch-lands worktrees t (w, ok tip) h =
      let dry = dry_run x dir gate shadow (proposal_of t) w in
      let r = process x dir gate shadow (proposal_of t) w in
      let (needless, kept) =
        either (o.require_approval && not t.approved)
          (after_dry_run x dir gate shadow o worktrees t dry)
          (after_process x dir gate shadow o worktrees t tip r) (λ end. Kept t tip r end)
          (after_dry_run-quiet worktrees t dry.world dry.outcome dry.error)
          (after_process-lands worktrees t tip r.world r.outcome r.error) h in
      (needless, (w, tip, refl, kept))

  -- processProposal records a merge only where a fresh read of the log says that the Goal is not
  -- cancelled, where no approval is missing, and where the queue returned without an error and kept the
  -- merge; in PR mode only where the Goal's branch was moved to that merge from the commit at which it
  -- was checked out.
  pub process_proposal-lands :
      (fresh : Try State) (worktrees : Dict String) (t : Ticket) (w : World)
      → lands (process_proposal x dir gate shadow o fresh worktrees t w).effects.emits ≡ true
      → ((s : State) × (fresh ≡ ok s) × (is_cancelled (get t.goal_id s.goals) ≡ false))
        × Merged t
            (if o.pr_mode then Worktree.detach x (goal_ref t) w else (w, ok ""))
            (process_proposal x dir gate shadow o fresh worktrees t w).world
  unfolding process_proposal drop_cancelled
  process_proposal-lands (err e) worktrees t w h = absurd (cc)
  process_proposal-lands (ok s) worktrees t w h =
      elim (Bool-cases (is_cancelled (get t.goal_id s.goals))) [
        | inl cancelled ↦ absurd (true≢false (sym h ∙ rw cancelled refl))
        | inr live ↦ ((s, refl, live), rw live (on_branch-lands worktrees t _ (rw live at h)))
      ]
