-- ===== src/Scheduler/Proposed.antt =====
-- One proposal in PR mode, over a git that keeps the name of the commit checked out.
use age_of_agents.Base.{String, true, false, ◌≡◌, refl, none, List, [], ◌∷◌}
use age_of_agents.Base.Dict.{get}
use age_of_agents.Git.{Try, ok, err, External}
use age_of_agents.Git.Worktree
use age_of_agents.Git.Verify.{Verifier, run, run_commands}
use age_of_agents.MergeQueue.{process, shadow_check}
use age_of_agents.State.Model.{Ticket, State, proposed}
use age_of_agents.Scheduler.Merging.{apply_merge_outcome, is_cancelled, drop_cancelled}
use age_of_agents.Scheduler.Proposals.{ProposalOptions, goal_ref, process_proposal}
use age_of_agents.Scheduler.Approved.{lands, Merged, process_proposal-lands}
use age_of_agents.Scheduler.Passes.{retried, two_tasks, retry_options}

abbrev branch_git : List String → String → String × Try String
branch_git (command ∷ what ∷ []) w = (w, ok w)
branch_git (command ∷ flag ∷ what ∷ []) w = (what, ok "")
branch_git (command ∷ ref ∷ to ∷ from ∷ []) w = (w, ok "")
branch_git (command ∷ no_ff ∷ no_edit ∷ m ∷ msg ∷ branch ∷ []) w = (branch, ok "")
branch_git args w = (w, err "usage")

abbrev branches : External
branches = record {
  World = String;
  git = branch_git;
  exec = λ argv w. (w, "output", none);
  trim_space = λ s. s;
  split_lines = λ s. s ∷ [];
}

abbrev tests : Verifier
tests = record { commands = ("go" ∷ "test" ∷ []) ∷ []; sandbox = ""; image = "" }

abbrev no_shadow : Verifier
no_shadow = record { commands = []; sandbox = ""; image = "" }

abbrev options : ProposalOptions
options = record { retry = retry_options; require_approval = true; pr_mode = true }

abbrev approved_task : Ticket
approved_task = record (retried "a") {
  status = proposed;
  worker = "worker/a";
  branch = "agent/a";
  approved = true;
}

landed_once :
    lands
      (process_proposal branches "." tests no_shadow options
        (ok two_tasks)
        []
        approved_task
        "main").effects.emits
    ≡ true
unfolding process_proposal drop_cancelled get Worktree.detach process Worktree.head Worktree.merge
    Worktree.tree run run_commands shadow_check Worktree.update_ref apply_merge_outcome
landed_once = refl

process_proposal-lands_example :
    ((s : State) × (ok two_tasks ≡ ok s)
      × (is_cancelled (get approved_task.goal_id s.goals) ≡ false))
    × Merged branches "." tests no_shadow options approved_task
        (Worktree.detach branches (goal_ref approved_task) "main")
        (process_proposal branches "." tests no_shadow options
          (ok two_tasks)
          []
          approved_task
          "main").world
process_proposal-lands_example =
    process_proposal-lands branches "." tests no_shadow options (ok two_tasks) [] approved_task
      "main" landed_once
