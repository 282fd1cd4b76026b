-- ===== src/MergeQueue.antt =====
-- internal/mergequeue/mergequeue.go: the queue that is the only writer of the integration branch. A
-- method returns the world it leaves, the outcome, and the error if there is one.
pub mod Safety
pub mod Batch
pub mod BatchSafety
mod Examples
use Prim.Native.String.{◌++◌ as str_append}
use age_of_agents.Base.{
  ℕ, zero, suc, String, Bool, true, false, not, ◌&&◌, ◌||◌, Option, none, some, List, [], ◌∷◌, ◌++◌,
  contains, is_empty, length, ltb, if◌then◌else◌,
}
use age_of_agents.Git.{Try, ok, err, External}
use age_of_agents.Git.Worktree
use age_of_agents.Git.Verify
use age_of_agents.Git.Verify.{Verifier, Result, run}

pub record Proposal : Type 0 where
  pub ticket_id : String
  pub worker : String
  pub branch : String

pub record Outcome : Type 0 where
  pub ticket_id : String
  pub worker : String
  pub merged : Bool
  pub verified : Bool
  pub merge_commit : String
  pub reason : String
  pub output : String
  pub tree : String
  pub regression_escaped : Bool
  pub shadow_reason : String

-- The errors, with the texts that they wrap: that of the rollback, and of what led to it.
pub data QueueError : Type 0 where
  read_head : String → QueueError
  rollback_merge : String → String → QueueError
  rollback_tree : String → String → QueueError
  read_tree : String → QueueError
  rollback_verify : String → QueueError
  rollback_dry_run : String → QueueError
  rollback_batch : String → QueueError

-- verifyFailureReason
unfoldable pub verify_failure_reason : Result → String
verify_failure_reason res =
    if res.infra
    then str_append "gate could not run (sandbox failure): " res.failed
    else str_append "verification failed: " res.failed

abbrev pub zero_outcome : Outcome
zero_outcome = record {
  ticket_id = "";
  worker = "";
  merged = false;
  verified = false;
  merge_commit = "";
  reason = "";
  output = "";
  tree = "";
  regression_escaped = false;
  shadow_reason = "";
}

abbrev pub outcome_for : Proposal → Outcome
outcome_for p = record zero_outcome { ticket_id = p.ticket_id; worker = p.worker }

abbrev pub merge_message : Proposal → String
merge_message p = str_append "merge: " p.ticket_id

-- overlaps
unfoldable pub overlaps : List String → List String → Bool
overlaps [] used = false
overlaps (f ∷ fs) used = contains f used || overlaps fs used

pub record Reply (W : Type 0) : Type 0 where
  pub world : W
  pub outcome : Outcome
  pub error : Option QueueError

abbrev pub fails : {W : Type 0} → W → Outcome → QueueError → Reply W
fails w out e = record { world = w; outcome = out; error = some e }

abbrev pub returns : {W : Type 0} → W → Outcome → Reply W
returns w out = record { world = w; outcome = out; error = none }

-- What a dry run reports once main is restored.
abbrev pub dry_verdict : String → Outcome → Result → Outcome
dry_verdict sha out res =
    if not res.passed
    then record out { reason = verify_failure_reason res }
    else record out { verified = true; merge_commit = sha; reason = "dry-run verified" }

-- `gate` is the queue's Verifier and `shadow` its Shadow; `dir` is the repository's directory.
module _ (x : External) (dir : String) (gate shadow : Verifier) where
  open x use {World}

  abbrev pub rolled_back :
      Outcome → (String → QueueError) → (World → Reply World) → World × Try (Unit {0}) → Reply World
  rolled_back out wrap resume (w, err rb) = fails w out (wrap rb)
  rolled_back out wrap resume (w, ok u) = resume w

  -- if rbErr := q.Repo.ResetHard(ctx, pre); rbErr != nil { return out, … }
  abbrev pub roll_back :
      String → Outcome → (String → QueueError) → (World → Reply World) → World → Reply World
  roll_back pre out wrap resume w = rolled_back out wrap resume (Worktree.reset_hard x pre w)

  -- The Shadow check on a kept merge.
  unfoldable pub shadow_check : Outcome → World → Reply World
  shadow_check out w =
      if is_empty shadow.commands
      then returns w out
      else let (w', res) = run x dir shadow w in
        returns w' (
          if not res.passed
          then record out { regression_escaped = true; shadow_reason = res.failed }
          else out)

  -- After the Gate ran on the merge.
  abbrev pub judged : String → String → Outcome → World × Result → Reply World
  judged pre sha out (w, res) =
      let seen = record out { output = res.output } in
      if not res.passed
      then roll_back pre seen rollback_verify
          (λ w'. returns w' (record seen { reason = verify_failure_reason res })) w
      else shadow_check (record seen { verified = true; merged = true; merge_commit = sha }) w

  -- After the dry run's Gate: the merge is rolled back, whatever the verdict.
  abbrev pub judged_dry : String → String → Outcome → World × Result → Reply World
  judged_dry pre sha out (w, res) =
      let seen = record out { output = res.output } in
      roll_back pre seen rollback_dry_run (λ w'. returns w' (dry_verdict sha seen res)) w

  -- verifiedTree, and the Gate run that follows it; `judge` is what the method does with the verdict.
  abbrev pub with_tree :
      (Outcome → World × Result → Reply World) → String → Outcome → World × Try String → Reply World
  with_tree judge pre out (w, err e) =
      roll_back pre out (rollback_tree e) (λ w'. fails w' out (read_tree e)) w
  with_tree judge pre out (w, ok tree) = judge (record out { tree = tree }) (run x dir gate w)

  -- After the merge of the proposal's branch.
  abbrev pub with_merge :
      (String → Outcome → World × Result → Reply World)
      → String
      → Outcome
      → World × Try String
      → Reply World
  with_merge judge pre out (w, err e) =
      roll_back pre out (rollback_merge e)
        (λ w'. returns w' (record out { reason = str_append "merge failed: " e })) w
  with_merge judge pre out (w, ok sha) = with_tree (judge sha) pre out (Worktree.tree x w)

  abbrev pub with_head :
      (String → String → Outcome → World × Result → Reply World)
      → Proposal
      → World × Try String
      → Reply World
  with_head judge p (w, err e) = fails w (outcome_for p) (read_head e)
  with_head judge p (w, ok pre) =
      with_merge (judge pre) pre (outcome_for p) (Worktree.merge x p.branch (merge_message p) w)

  -- Queue.Process
  unfoldable pub process : Proposal → World → Reply World
  unfolding shadow_check
  process p w = with_head judged p (Worktree.head x w)

  -- Queue.DryRun
  unfoldable pub dry_run : Proposal → World → Reply World
  dry_run p w = with_head judged_dry p (Worktree.head x w)
