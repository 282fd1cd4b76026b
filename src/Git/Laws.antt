-- ===== src/Git/Laws.antt =====
-- What is relied on of git and of the Gate's commands, and what follows for the repository.
use Prim.Native.String.{◌++◌ as str_append}
use age_of_agents.Base.{
  String, not, ◌&&◌, ◌≡◌, refl, ◌∙◌, inl, inr, Option, none, some, List, [], ◌∷◌, is_empty,
  Bool-cases,
}
use age_of_agents.Git.{Try, ok, err, External, ExecError}
use age_of_agents.Git.Worktree
use age_of_agents.Git.Worktree.{head_of}
use age_of_agents.Git.Verify.{
  Verifier, run_commands, run, after_probe, after_command, argv, in_docker, probe,
}

-- What the queue relies on: `git rev-parse` changes nothing; `git reset --hard` to a commit that
-- `Head` read checks that commit out again; and no Gate command moves HEAD.
pub record GitLaws (x : External) : Type 0 where
  pub rev_parse :
      (what : String) (w : External.World x) → (External.git x ("rev-parse" ∷ what ∷ []) w).0 ≡ w
  pub reset :
      (sha : String) (w v : External.World x)
      → head_of x v ≡ ok sha
      → (Worktree.reset_hard x sha w).1 ≡ ok tt
      → head_of x (Worktree.reset_hard x sha w).0 ≡ ok sha
  pub exec :
      (argv : List String) (w : External.World x)
      → head_of x (External.exec x argv w).0 ≡ head_of x w

module _ (x : External) (laws : GitLaws x) where
  pub head-world : (w : External.World x) → (Worktree.head x w).0 ≡ w
  unfolding Worktree.head
  head-world w = laws.rev_parse "HEAD" w

  pub tree-world : (w : External.World x) → (Worktree.tree x w).0 ≡ w
  unfolding Worktree.tree
  tree-world w = laws.rev_parse "HEAD^{tree}" w

  -- A merge that succeeds reports the commit that it leaves checked out.
  pub merge-head :
      (branch msg sha : String) (w : External.World x)
      → (Worktree.merge x branch msg w).1 ≡ ok sha
      → head_of x (Worktree.merge x branch msg w).0 ≡ ok sha
  unfolding Worktree.merge Worktree.head
  merge-head branch msg sha w h =
      go (External.git x ("merge" ∷ "--no-ff" ∷ "--no-edit" ∷ "-m" ∷ msg ∷ branch ∷ []) w).1 _ h
    where
      go :
          (r : Try String) (v : External.World x)
          → (Worktree.after_merge x r v).1 ≡ ok sha
          → head_of x (Worktree.after_merge x r v).0 ≡ ok sha
      go (err e) v k = absurd (cc)
      go (ok out) v k = rw (laws.rev_parse "HEAD" v) k

module _ (x : External) (laws : GitLaws x) (dir : String) (v : Verifier) where
  run_commands-head :
      (cs : List (List String)) (out : String) (w : External.World x)
      → head_of x (run_commands x dir v cs out w).0 ≡ head_of x w
  unfolding run_commands
  run_commands-head [] out w = refl
  run_commands-head (c ∷ cs) out w = elim (Bool-cases (is_empty c)) [
    | inl skip ↦ rw skip (run_commands-head cs out w)
    | inr there ↦ rw there (
        ran (External.exec x (argv x dir v c) w) (laws.exec (argv x dir v c) w)
          (λ b w'. run_commands-head cs b w'))
  ]
    where
      ran :
          (t : External.World x × String × Option ExecError)
          → head_of x t.0 ≡ head_of x w
          → ((b : String) (w' : External.World x)
              → head_of x (run_commands x dir v cs b w').0 ≡ head_of x w')
          → head_of x (after_command x dir v (run_commands x dir v cs) c out t).0 ≡ head_of x w
      ran (w', b, none) h ih = ih (str_append out b) w' ∙ h
      ran (w', b, some e) h ih = h

  -- The Gate moves no branch.
  pub run-head : (w : External.World x) → head_of x (run x dir v w).0 ≡ head_of x w
  unfolding run
  run-head w = elim (Bool-cases (in_docker v && not (is_empty v.commands))) [
    | inr direct ↦ rw direct (run_commands-head v.commands "" w)
    | inl docker ↦ rw docker (probed (External.exec x probe w) (laws.exec probe w))
  ]
    where
      probed :
          (t : External.World x × String × Option ExecError)
          → head_of x t.0 ≡ head_of x w
          → head_of x (after_probe x dir v t).0 ≡ head_of x w
      probed (w', b, none) h = run_commands-head v.commands "" w' ∙ h
      probed (w', b, some e) h = h
