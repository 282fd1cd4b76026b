-- ===== src/MergeQueue/Examples.antt =====
-- The queue over a git that keeps the name of the commit checked out, with the theorems about it at
-- work.
use age_of_agents.Base.{
  String, true, false, ◌≡◌, refl, ◌⊎◌, Option, none, some, List, [], ◌∷◌, contains, ◌==◌,
  if◌then◌else◌,
}
use age_of_agents.Git.{Try, ok, err, External, ExecError, exit_status}
use age_of_agents.Git.Worktree
use age_of_agents.Git.Worktree.{head_of}
use age_of_agents.Git.Verify.{Verifier, run, run_commands}
use age_of_agents.Git.Laws.{GitLaws}
use age_of_agents.MergeQueue.{Proposal, process, dry_run, shadow_check, overlaps}
use age_of_agents.MergeQueue.Safety.{GatePassed, process-Kept, dry_run-Restored}
use age_of_agents.MergeQueue.Batch.{process_batch, select_disjoint, process_each, merge_all}
use age_of_agents.MergeQueue.BatchSafety.{DiffLaws, process_batch-Green}

-- A merge checks out a commit named like its branch; a branch changes one file of its name.
abbrev toy_git : List String → String → String × Try String
toy_git (command ∷ what ∷ []) w = (w, ok w)
toy_git (command ∷ flag ∷ what ∷ []) w = if command == "reset" then (what, ok "") else (w, ok what)
toy_git (command ∷ no_ff ∷ no_edit ∷ m ∷ msg ∷ branch ∷ []) w = (branch, ok "")
toy_git args w = (w, err "usage")

-- The Gate fails on the branch "agent/bad" alone.
abbrev toy_exec : List String → String → String × String × Option ExecError
toy_exec argv w = (w, "output", if w == "agent/bad" then some (exit_status 1) else none)

abbrev toy : External
toy = record {
  World = String;
  git = toy_git;
  exec = toy_exec;
  trim_space = λ s. s;
  split_lines = λ s. s ∷ [];
}

toy-GitLaws : GitLaws toy
unfolding Worktree.head Worktree.reset_hard
toy-GitLaws = record {
  rev_parse = λ what w. refl;
  reset = λ sha w v h k. refl;
  exec = λ argv w. refl;
}

toy-DiffLaws : DiffLaws toy
unfolding Worktree.head Worktree.changed_files
toy-DiffLaws = record { diff = λ branch w. refl }

abbrev gate : Verifier
gate = record { commands = ("go" ∷ "test" ∷ []) ∷ []; sandbox = ""; image = "" }

abbrev shadow : Verifier
shadow = record { commands = []; sandbox = ""; image = "" }

abbrev proposal : String → Proposal
proposal branch = record { ticket_id = "t"; worker = "w"; branch = branch }

at_main : head_of toy "main" ≡ ok "main"
unfolding Worktree.head
at_main = refl

processed : (process toy "." gate shadow (proposal "agent/a") "main").error ≡ none
unfolding process Worktree.head Worktree.merge Worktree.tree run run_commands shadow_check
processed = refl

tried : (dry_run toy "." gate shadow (proposal "agent/bad") "main").error ≡ none
unfolding dry_run Worktree.head Worktree.merge Worktree.tree run run_commands Worktree.reset_hard
tried = refl

abbrev two : List Proposal
two = proposal "agent/a" ∷ proposal "agent/bad" ∷ []

batched : (process_batch toy "." gate shadow two "main").error ≡ none
unfolding process_batch select_disjoint process_each merge_all process Worktree.head Worktree.merge
    Worktree.tree run run_commands shadow_check Worktree.reset_hard Worktree.changed_files overlaps
    contains
batched = refl

process-Kept_example :
    let r = process toy "." gate shadow (proposal "agent/a") "main" in
    ((r.outcome.merged ≡ true)
      × (r.outcome.verified ≡ true)
      × (head_of toy r.world ≡ ok r.outcome.merge_commit)
      × GatePassed toy toy-GitLaws "." gate shadow r.outcome.merge_commit)
    ⊎ ((r.outcome.merged ≡ false) × (head_of toy r.world ≡ ok "main"))
process-Kept_example =
    process-Kept toy toy-GitLaws "." gate shadow (proposal "agent/a") "main" "main" at_main
      processed

dry_run-Restored_example :
    let r = dry_run toy "." gate shadow (proposal "agent/bad") "main" in
    (r.outcome.merged ≡ false) × (head_of toy r.world ≡ ok "main")
dry_run-Restored_example =
    dry_run-Restored toy toy-GitLaws "." gate shadow (proposal "agent/bad") "main" "main" at_main
      tried

process_batch-Green_example :
    (c : String) × (head_of toy (process_batch toy "." gate shadow two "main").world ≡ ok c)
    × ((c ≡ "main") ⊎ GatePassed toy toy-GitLaws "." gate shadow c)
process_batch-Green_example =
    process_batch-Green toy toy-GitLaws toy-DiffLaws "." gate shadow two "main" "main" at_main
      batched
