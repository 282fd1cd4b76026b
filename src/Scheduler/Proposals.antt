-- ===== src/Scheduler/Proposals.antt =====
-- internal/orchestrator/orchestrator.go: what a pass does of one proposal. `fresh` is the state that it
-- reads of the log, and a result has the events that it appends where no append fails.
use Prim.Native.String.{◌++◌ as str_append}
use age_of_agents.Base.{
  String, Bool, not, ◌&&◌, Option, none, some, List, [], ◌∷◌, if◌then◌else◌, is_empty,
}
use age_of_agents.Base.Dict.{Dict}
use age_of_agents.Api.Event.{Body}
use age_of_agents.Git.{Try, ok, err, External}
use age_of_agents.Git.Worktree
use age_of_agents.Git.Verify.{Verifier}
use age_of_agents.MergeQueue.{
  Proposal, Outcome, QueueError, Reply, process, dry_run, read_head, rollback_merge, rollback_tree,
  read_tree, rollback_verify, rollback_dry_run, rollback_batch,
}
use age_of_agents.State.Model.{Ticket, State}
use age_of_agents.Scheduler.Rejection.{Effects, RetryOptions, reject_or_fail}
use age_of_agents.Scheduler.Merging.{goal_branch, apply_merge_outcome, nothing_done, drop_cancelled}

-- The fields of Options that processProposal reads; `pr_mode` is prMode().
pub record ProposalOptions : Type 0 where
  pub retry : RetryOptions
  pub require_approval : Bool
  pub pr_mode : Bool

abbrev wrapping : String → String → String → String
wrapping what inner e = str_append what (str_append " (" (str_append inner (str_append "): " e)))

-- The texts of the queue's errors.
unfoldable pub queue_text : QueueError → String
queue_text (read_head e) = str_append "read head: " e
queue_text (rollback_merge inner e) = wrapping "rollback after failed merge" inner e
queue_text (rollback_tree inner e) = wrapping "rollback after failed tree read" inner e
queue_text (read_tree e) = str_append "read merged tree: " e
queue_text (rollback_verify e) = str_append "rollback after failed verify: " e
queue_text (rollback_dry_run e) = str_append "rollback after dry run: " e
queue_text (rollback_batch e) = str_append "rollback after batch: " e

pub record Processed (W : Type 0) : Type 0 where
  pub world : W
  pub effects : Effects
  pub error : Option String

abbrev pub proposal_of : Ticket → Proposal
proposal_of t = record { ticket_id = t.id; worker = t.worker; branch = t.branch }

abbrev pub goal_ref : Ticket → String
goal_ref t = str_append "refs/heads/" (goal_branch t.goal_id)

abbrev pub rejected : ProposalOptions → Dict String → Ticket → String → Outcome → Effects
rejected o worktrees t reason out =
    reject_or_fail o.retry worktrees t t.worker reason out.output out.tree

-- An error of the queue counts as a failed attempt, without output.
abbrev pub queue_failed : ProposalOptions → Dict String → Ticket → QueueError → Outcome → Effects
queue_failed o worktrees t e out =
    reject_or_fail o.retry worktrees t t.worker (str_append "merge queue: " (queue_text e)) ""
      out.tree

-- The events of a candidate that passed the Gate and waits for a decision.
abbrev pub parked : Ticket → Outcome → List Body
parked t out =
    Body.verification_passed (record { ticket_id = t.id; worker = t.worker; tree = out.tree })
    ∷ Body.approval_requested
        (record { ticket_id = t.id; worker = t.worker; commit = out.merge_commit })
    ∷ []

module _ (x : External) (dir : String) (gate shadow : Verifier) (o : ProposalOptions) where
  open x use {World}

  abbrev pub answers : World → Effects → Processed World
  answers w e = record { world = w; effects = e; error = none }

  abbrev pub stops : World → Dict String → String → Processed World
  stops w worktrees e = record { world = w; effects = nothing_done worktrees; error = some e }

  -- After the dry run.
  abbrev pub after_dry_run : Dict String → Ticket → Reply World → Processed World
  after_dry_run worktrees t r = elim r.error [
    | some e ↦ answers r.world (queue_failed o worktrees t e r.outcome)
    | none ↦ answers r.world (
        if not r.outcome.verified
        then rejected o worktrees t r.outcome.reason r.outcome
        else record { emits = parked t r.outcome; worktrees = worktrees; removed = [] })
  ]

  -- After the Goal's branch was advanced.
  abbrev pub advanced : Dict String → Ticket → Outcome → World × Try (Unit {0}) → Processed World
  advanced worktrees t out (w, err e) =
      stops w worktrees
        (str_append "advance " (str_append (goal_branch t.goal_id) (str_append ": " e)))
  advanced worktrees t out (w, ok u) =
      answers w (apply_merge_outcome o.retry o.pr_mode worktrees t out)

  -- After Queue.Process, which started from the commit `tip` in PR mode.
  abbrev pub after_process : Dict String → Ticket → String → Reply World → Processed World
  after_process worktrees t tip r = elim r.error [
    | some e ↦ answers r.world (queue_failed o worktrees t e r.outcome)
    | none ↦ advanced worktrees t r.outcome (
        if r.outcome.merged && o.pr_mode
        then Worktree.update_ref x (goal_ref t) r.outcome.merge_commit tip r.world
        else (r.world, ok tt))
  ]

  -- Once the branch to merge into is checked out.
  abbrev pub on_branch : Dict String → Ticket → World × Try String → Processed World
  on_branch worktrees t (w, err e) =
      stops w worktrees
        (str_append "check out " (str_append (goal_branch t.goal_id) (str_append ": " e)))
  on_branch worktrees t (w, ok tip) =
      if o.require_approval && not t.approved
      then after_dry_run worktrees t (dry_run x dir gate shadow (proposal_of t) w)
      else after_process worktrees t tip (process x dir gate shadow (proposal_of t) w)

  -- processProposal
  unfoldable pub process_proposal : Try State → Dict String → Ticket → World → Processed World
  unfolding drop_cancelled reject_or_fail apply_merge_outcome goal_branch
  process_proposal (err e) worktrees t w = stops w worktrees e
  process_proposal (ok s) worktrees t w =
      let (live, dropped) = drop_cancelled s worktrees (t ∷ []) in
      if is_empty live
      then answers w dropped
      else on_branch worktrees t
          (if o.pr_mode then Worktree.detach x (goal_ref t) w else (w, ok ""))
