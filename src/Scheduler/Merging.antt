-- ===== src/Scheduler/Merging.antt =====
-- internal/orchestrator/orchestrator.go: the events that a pass makes of what the merge queue did, and of
-- cancelled Goals. `SanitizeBranch` is in internal/worktree/worktree.go, `goalBranch` in deliver.go.
use Prim.Native.String.{[] as no_text, ◌∷◌ as char_then, ◌++◌ as str_append}
use Prim.Native.Char.{Char, code}
use age_of_agents.Base.{
  ℕ, String, Bool, true, false, not, ◌&&◌, ◌||◌, Option, none, some, List, [], ◌∷◌, ◌++◌, eqb,
  get_or, if◌then◌else◌,
}
use age_of_agents.Base.Dict.{Dict, get}
use age_of_agents.Api.Event.{Body}
use age_of_agents.MergeQueue.{Outcome}
use age_of_agents.State.Model.{Ticket, Goal, State, claimed, running, TicketStatus, is_terminal}
use age_of_agents.Scheduler.Rejection.{
  Effects, RetryOptions, reject_or_fail, cleaned, forget, paths,
}

abbrev is_dot : Char → Bool
is_dot c = eqb (code c) 46

abbrev starts_with_dot : String → Bool
starts_with_dot no_text = false
starts_with_dot (char_then c s) = is_dot c

-- A slash or a space, replaced.
abbrev piece : Char → String
piece c = if eqb (code c) 47 || eqb (code c) 32 then "-" else char_then c ""

-- `skip` after the first of two dots, which are replaced together.
abbrev sanitize : Bool → String → String
sanitize skip no_text = ""
sanitize skip (char_then c s) =
    let two = not skip && is_dot c && starts_with_dot s in
    let rest = sanitize two s in
    if skip then rest else if two then str_append "-" rest else str_append (piece c) rest

-- SanitizeBranch
unfoldable pub sanitize_branch : String → String
sanitize_branch s = sanitize false s

-- goalBranch
unfoldable pub goal_branch : String → String
unfolding sanitize_branch
goal_branch goal_id = str_append "aoa/" (sanitize_branch goal_id)

-- The events of a proposal that merged.
abbrev pub merged_events : Bool → Ticket → Outcome → List Body
merged_events pr_mode t out =
    Body.verification_passed (record { ticket_id = t.id; worker = t.worker; tree = out.tree })
    ∷ Body.merged (record {
      ticket_id = t.id;
      worker = t.worker;
      commit = out.merge_commit;
      branch = if pr_mode then goal_branch t.goal_id else "";
    })
    ∷ (if out.regression_escaped
        then Body.regression_escaped
            (record { ticket_id = t.id; worker = t.worker; reason = out.shadow_reason })
          ∷ []
        else [])

-- applyMergeOutcome
unfoldable pub apply_merge_outcome : RetryOptions → Bool → Dict String → Ticket → Outcome → Effects
unfolding reject_or_fail goal_branch get
apply_merge_outcome o pr_mode worktrees t out =
    if out.merged
    then record {
      emits = merged_events pr_mode t out;
      worktrees = forget t.id worktrees;
      removed = paths (get t.id worktrees);
    }
    else reject_or_fail o worktrees t t.worker out.reason out.output out.tree

abbrev pub nothing_done : Dict String → Effects
nothing_done worktrees = record { emits = []; worktrees = worktrees; removed = [] }

abbrev pub and_then : Effects → (Dict String → Effects) → Effects
and_then e next =
    let f = next e.worktrees in
    record { emits = e.emits ++ f.emits; worktrees = f.worktrees; removed = e.removed ++ f.removed }

-- The loop over the outcomes of a batch in step 4 of ReconcileOnce.
unfoldable pub apply_outcomes :
    RetryOptions → Bool → Dict String → List (Ticket × Outcome) → Effects
unfolding apply_merge_outcome
apply_outcomes o pr_mode worktrees [] = nothing_done worktrees
apply_outcomes o pr_mode worktrees ((t, out) ∷ rest) =
    and_then (apply_merge_outcome o pr_mode worktrees t out)
      (λ left. apply_outcomes o pr_mode left rest)

-- failCancelled
unfoldable pub fail_cancelled : Dict String → Ticket → Effects
unfolding get
fail_cancelled worktrees t = cleaned t.id worktrees (
    Body.ticket_failed (record {
      ticket_id = t.id;
      worker = t.worker;
      reason = "goal cancelled";
      output = "";
      tree = "";
      worktree = "";
      tokens = 0;
      model = "";
      cost_usd = 0;
    }))

-- g != nil && g.Cancelled
abbrev pub is_cancelled : Option Goal → Bool
is_cancelled none = false
is_cancelled (some g) = g.cancelled

-- dropCancelled, on the state of a fresh read: the proposals to merge, and what it did of the others.
unfoldable pub drop_cancelled : State → Dict String → List Ticket → List Ticket × Effects
unfolding fail_cancelled get
drop_cancelled s worktrees [] = ([], nothing_done worktrees)
drop_cancelled s worktrees (t ∷ ts) =
    let cancelled = is_cancelled (get t.goal_id s.goals) in
    let now = if cancelled then fail_cancelled worktrees t else nothing_done worktrees in
    let (keep, later) = drop_cancelled s now.worktrees ts in
    (if cancelled then keep else t ∷ keep, and_then now (λ left. later))

abbrev pub in_progress : TicketStatus → Bool
in_progress claimed = true
in_progress running = true
in_progress _ = false

-- The tests of enforceCancellations.
unfoldable pub is_doomed : State → Dict ℕ → Ticket → Bool
unfolding get
is_doomed s in_flight t =
    not (is_terminal t.status || in_progress t.status)
    && is_cancelled (get t.goal_id s.goals)
    && eqb (get_or (get t.id in_flight) 0) 0

-- The body of the loop of enforceCancellations.
abbrev pub cancel_doomed : State → Dict ℕ → Dict String → Option Ticket → Effects
cancel_doomed s in_flight worktrees none = nothing_done worktrees
cancel_doomed s in_flight worktrees (some t) =
    if is_doomed s in_flight t then fail_cancelled worktrees t else nothing_done worktrees

-- enforceCancellations, over the ids of the creation order
unfoldable pub enforce_cancellations : State → Dict ℕ → Dict String → List String → Effects
unfolding is_doomed fail_cancelled get
enforce_cancellations s in_flight worktrees [] = nothing_done worktrees
enforce_cancellations s in_flight worktrees (id ∷ order) =
    and_then (cancel_doomed s in_flight worktrees (get id s.tickets))
      (λ left. enforce_cancellations s in_flight left order)
