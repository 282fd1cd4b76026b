-- ===== src/MergeQueue/Safety.antt =====
-- Which commits internal/mergequeue/mergequeue.go leaves checked out after Process and DryRun.
use Prim.Native.String.{◌++◌ as str_append}
use age_of_agents.Base.{
  String, Bool, true, false, not, ◌≡◌, refl, sym, ◌∙◌, ap, subst, ◌⊎◌, inl, inr, none, arith,
  is_empty, Bool-cases, some-ne-none, if◌then◌else◌,
}
use age_of_agents.Git.{Try, ok, err, External}
use age_of_agents.Git.Worktree
use age_of_agents.Git.Worktree.{head_of}
use age_of_agents.Git.Verify.{Verifier, Result, run}
use age_of_agents.Git.Laws.{GitLaws, tree-world, merge-head, run-head}
use age_of_agents.MergeQueue.{
  Proposal, Outcome, outcome_for, merge_message, Reply, rollback_verify, rollback_dry_run,
  rollback_tree, rollback_merge, read_tree, roll_back, rolled_back, fails, returns, QueueError,
  shadow_check, judged, judged_dry, dry_verdict, verify_failure_reason, with_tree, with_merge,
  with_head, process, dry_run,
}

module _ (x : External) (laws : GitLaws x) (dir : String) (gate shadow : Verifier) where
  -- The Gate passed with the commit checked out.
  pub record GatePassed (commit : String) : Type 0 where
    pub seen : External.World x
    pub at_head : head_of x seen ≡ ok commit
    pub passes : (run x dir gate seen).1.passed ≡ true

  -- A reply without an error either merged a commit that the Gate passed on and that is now checked out,
  -- or left the commit that was checked out before.
  abbrev pub Kept : String → Reply (External.World x) → Type 0
  Kept pre r =
      r.error ≡ none
      → ((r.outcome.merged ≡ true)
          × (r.outcome.verified ≡ true)
          × (head_of x r.world ≡ ok r.outcome.merge_commit)
          × GatePassed r.outcome.merge_commit)
        ⊎ ((r.outcome.merged ≡ false) × (head_of x r.world ≡ ok pre))

  abbrev pub Restored : String → Reply (External.World x) → Type 0
  Restored pre r = r.error ≡ none → (r.outcome.merged ≡ false) × (head_of x r.world ≡ ok pre)

  roll_back-rule :
      (P : Reply (External.World x) → Type 0) (pre : String) (out : Outcome)
      (wrap : String → QueueError) (resume : External.World x → Reply (External.World x))
      (w v : External.World x)
      → head_of x v ≡ ok pre
      → ((u : External.World x) (e : QueueError) → P (fails u out e))
      → ((u : External.World x) → head_of x u ≡ ok pre → P (resume u))
      → P (roll_back x dir gate shadow pre out wrap resume w)
  roll_back-rule P pre out wrap resume w v h failed resumed =
      go (Worktree.reset_hard x pre w).1 refl
    where
      go :
          (r : Try (Unit {0}))
          → (Worktree.reset_hard x pre w).1 ≡ r
          → P (rolled_back x dir gate shadow out wrap resume ((Worktree.reset_hard x pre w).0, r))
      go (err e) k = failed _ (wrap e)
      go (ok u) k = resumed _ (laws.reset pre w v h k)

  fails-Kept :
      (pre : String) (u : External.World x) (out : Outcome) (e : QueueError)
      → Kept pre (fails u out e)
  fails-Kept pre u out e k = absurd (some-ne-none e k)

  fails-Restored :
      (pre : String) (u : External.World x) (out : Outcome) (e : QueueError)
      → Restored pre (fails u out e)
  fails-Restored pre u out e k = absurd (some-ne-none e k)

  abbrev Merged : Outcome → Type 0
  Merged out = (out.merged ≡ true) × (out.verified ≡ true) × GatePassed out.merge_commit

  shadowed-Merged :
      (out : Outcome) (res : Result)
      → Merged out
      → Merged (
          if not res.passed
          then record out { regression_escaped = true; shadow_reason = res.failed }
          else out)
  shadowed-Merged out res m = elim (Bool-cases res.passed) [
    | inl passed ↦ rw passed m
    | inr escaped ↦ rw escaped m
  ]

  shadowed-commit :
      (out : Outcome) (res : Result)
      → (if not res.passed
          then record out { regression_escaped = true; shadow_reason = res.failed }
          else out).merge_commit
        ≡ out.merge_commit
  shadowed-commit out res = ground arith

  shadow_check-Kept :
      (pre : String) (out : Outcome) (w : External.World x)
      → Merged out
      → head_of x w ≡ ok out.merge_commit
      → Kept pre (shadow_check x dir gate shadow out w)
  unfolding shadow_check
  shadow_check-Kept pre out w m h e = elim (Bool-cases (is_empty shadow.commands)) [
    | inl off ↦ rw off (inl (m.0, m.1, h, m.2))
    | inr on ↦
        let res = (run x dir shadow w).1 in
        let m' = shadowed-Merged out res m in
        rw on (
          inl (
            m'.0,
            m'.1,
            run-head x laws dir shadow w ∙ h ∙ ap ok (sym (shadowed-commit out res)),
            m'.2,
          ))
  ]

  judged-Kept :
      (pre sha : String) (out : Outcome) (w v : External.World x)
      → out.merged ≡ false
      → head_of x v ≡ ok pre
      → head_of x w ≡ ok sha
      → Kept pre (judged x dir gate shadow pre sha out (run x dir gate w))
  judged-Kept pre sha out w v fresh at_pre at_sha = go (run x dir gate w).1.passed refl
    where
      go :
          (b : Bool)
          → (run x dir gate w).1.passed ≡ b
          → Kept pre (judged x dir gate shadow pre sha out (run x dir gate w))
      go true passed = rw passed (
          shadow_check-Kept pre
            (record out {
              output = (run x dir gate w).1.output;
              verified = true;
              merged = true;
              merge_commit = sha;
            })
            (run x dir gate w).0
            (refl, refl, record { seen = w; at_head = at_sha; passes = passed })
            (run-head x laws dir gate w ∙ at_sha))
      go false failed =
          let res = (run x dir gate w).1 in
          let seen = record out { output = res.output } in
          rw failed (
            roll_back-rule (Kept pre) pre seen rollback_verify
              (λ u. returns u (record seen { reason = verify_failure_reason res }))
              (run x dir gate w).0 v at_pre (λ u e. fails-Kept pre u seen e)
              (λ u h k. inr (fresh, h)))

  dry_verdict-merged :
      (sha : String) (out : Outcome) (res : Result) → (dry_verdict sha out res).merged ≡ out.merged
  dry_verdict-merged sha out res = ground arith

  judged_dry-Restored :
      (pre sha : String) (out : Outcome) (t : External.World x × Result) (v : External.World x)
      → out.merged ≡ false
      → head_of x v ≡ ok pre
      → Restored pre (judged_dry x dir gate shadow pre sha out t)
  judged_dry-Restored pre sha out (w, res) v fresh at_pre =
      let seen = record out { output = res.output } in
      roll_back-rule (Restored pre) pre seen rollback_dry_run
        (λ u. returns u (dry_verdict sha seen res)) w v at_pre (λ u e. fails-Restored pre u seen e)
        (λ u h k. (dry_verdict-merged sha seen res ∙ fresh, h))

  -- The steps that Process and DryRun share, for any verdict rule `judge` and any promise `P`.
  module _ (P : String → Reply (External.World x) → Type 0)
      (judge : String → String → Outcome → External.World x × Result → Reply (External.World x))
      (fail_rule : (pre : String) (u : External.World x) (out : Outcome) (e : QueueError)
        → P pre (fails u out e))
      (keep_rule : (pre : String) (u : External.World x) (out : Outcome)
        → out.merged ≡ false
        → head_of x u ≡ ok pre
        → P pre (returns u out))
      (judge_rule : (pre sha : String) (out : Outcome) (w v : External.World x)
        → out.merged ≡ false
        → head_of x v ≡ ok pre
        → head_of x w ≡ ok sha
        → P pre (judge pre sha out (run x dir gate w))) where
    tree_rule :
        (pre sha : String) (out : Outcome) (r : Try String) (w v : External.World x)
        → out.merged ≡ false
        → head_of x v ≡ ok pre
        → head_of x w ≡ ok sha
        → P pre (with_tree x dir gate shadow (judge pre sha) pre out (w, r))
    tree_rule pre sha out (err e) w v fresh at_pre at_sha =
        roll_back-rule (P pre) pre out (rollback_tree e) (λ u. fails u out (read_tree e)) w v at_pre
          (λ u q. fail_rule pre u out q) (λ u h. fail_rule pre u out (read_tree e))
    tree_rule pre sha out (ok tree) w v fresh at_pre at_sha =
        judge_rule pre sha (record out { tree = tree }) w v fresh at_pre at_sha

    merge_rule :
        (pre : String) (out : Outcome) (r : Try String) (w v : External.World x)
        → out.merged ≡ false
        → head_of x v ≡ ok pre
        → ((sha : String) → r ≡ ok sha → head_of x w ≡ ok sha)
        → P pre (with_merge x dir gate shadow (judge pre) pre out (w, r))
    merge_rule pre out (err e) w v fresh at_pre at_sha =
        roll_back-rule (P pre) pre out (rollback_merge e)
          (λ u. returns u (record out { reason = str_append "merge failed: " e })) w v at_pre
          (λ u q. fail_rule pre u out q)
          (λ u h. keep_rule pre u (record out { reason = str_append "merge failed: " e }) fresh h)
    merge_rule pre out (ok sha) w v fresh at_pre at_sha =
        tree_rule pre sha out (Worktree.tree x w).1 (Worktree.tree x w).0 v fresh at_pre
          (ap (head_of x) (tree-world x laws w) ∙ at_sha sha refl)

    head_rule :
        (pre : String) (p : Proposal) (w : External.World x)
        → head_of x w ≡ ok pre
        → P pre (with_head x dir gate shadow judge p (Worktree.head x w))
    head_rule pre p w at_pre =
        subst (λ r. P pre (with_head x dir gate shadow judge p ((Worktree.head x w).0, r)))
          (sym at_pre)
          (merge_rule pre (outcome_for p)
            (Worktree.merge x p.branch (merge_message p) (Worktree.head x w).0).1
            (Worktree.merge x p.branch (merge_message p) (Worktree.head x w).0).0 w refl at_pre
            (λ sha e. merge-head x laws p.branch (merge_message p) sha (Worktree.head x w).0 e))

  -- Main is always green. A proposal that Process handles without an error was either merged and
  -- verified, with the merge commit checked out and the Gate passed on exactly that commit, or not merged,
  -- with the commit checked out that was there before. It is stated of any git and any Gate that obey
  -- `GitLaws`, the queue's Shadow being of no consequence.
  pub process-Kept :
      (p : Proposal) (w : External.World x) (pre : String)
      → head_of x w ≡ ok pre
      → (process x dir gate shadow p w).error ≡ none
      → (((process x dir gate shadow p w).outcome.merged ≡ true)
          × ((process x dir gate shadow p w).outcome.verified ≡ true)
          × (head_of x (process x dir gate shadow p w).world
              ≡ ok (process x dir gate shadow p w).outcome.merge_commit)
          × GatePassed (process x dir gate shadow p w).outcome.merge_commit)
        ⊎ (((process x dir gate shadow p w).outcome.merged ≡ false)
            × (head_of x (process x dir gate shadow p w).world ≡ ok pre))
  unfolding process
  process-Kept p w pre at_pre =
      head_rule Kept (judged x dir gate shadow) fails-Kept (λ q u out m h k. inr (m, h)) judged-Kept
        pre p w at_pre

  -- A dry run never writes to main: without an error it merged nothing, and the commit checked out is the
  -- one that was there before.
  pub dry_run-Restored :
      (p : Proposal) (w : External.World x) (pre : String)
      → head_of x w ≡ ok pre
      → (dry_run x dir gate shadow p w).error ≡ none
      → ((dry_run x dir gate shadow p w).outcome.merged ≡ false)
        × (head_of x (dry_run x dir gate shadow p w).world ≡ ok pre)
  unfolding dry_run
  dry_run-Restored p w pre at_pre =
      head_rule Restored (judged_dry x dir gate shadow) fails-Restored (λ q u out m h k. (m, h))
        (λ q sha out u v m h k. judged_dry-Restored q sha out (run x dir gate u) v m h) pre p w
        at_pre
