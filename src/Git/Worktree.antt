-- ===== src/Git/Worktree.antt =====
-- internal/worktree/worktree.go: the operations on the integration repository that the merge queue
-- calls.
use Prim.Native.String.{◌++◌ as str_append}
use age_of_agents.Base.{String, ◌==◌, List, [], ◌∷◌, keep, not, map}
use age_of_agents.Git.{Try, ok, err, External}

module _ (x : External) where
  open x use {World, git, trim_space, split_lines}

  abbrev pub trimmed : Try String → Try String
  trimmed (ok out) = ok (trim_space out)
  trimmed (err e) = err e

  -- Repo.Head
  unfoldable pub head : World → World × Try String
  head w = let (w', r) = git ("rev-parse" ∷ "HEAD" ∷ []) w in (w', trimmed r)

  -- Repo.Tree
  unfoldable pub tree : World → World × Try String
  tree w = let (w', r) = git ("rev-parse" ∷ "HEAD^{tree}" ∷ []) w in (w', trimmed r)

  abbrev pub after_merge : Try String → World → World × Try String
  after_merge (err e) w = (w, err e)
  after_merge (ok out) w = let (w', r) = git ("rev-parse" ∷ "HEAD" ∷ []) w in (w', trimmed r)

  -- Repo.Merge
  unfoldable pub merge : String → String → World → World × Try String
  merge branch msg w =
      let (w', r) = git ("merge" ∷ "--no-ff" ∷ "--no-edit" ∷ "-m" ∷ msg ∷ branch ∷ []) w in
      after_merge r w'

  abbrev pub done : Try String → Try (Unit {0})
  done (ok out) = ok tt
  done (err e) = err e

  -- Repo.ResetHard
  unfoldable pub reset_hard : String → World → World × Try (Unit {0})
  reset_hard sha w = let (w', r) = git ("reset" ∷ "--hard" ∷ sha ∷ []) w in (w', done r)

  abbrev pub lines : Try String → Try (List String)
  lines (ok out) =
      ok (keep (λ line. not (line == "")) (map trim_space (split_lines (trim_space out))))
  lines (err e) = err e

  -- Repo.ChangedFiles
  unfoldable pub changed_files : String → World → World × Try (List String)
  changed_files branch w =
      let (w', r) = git ("diff" ∷ "--name-only" ∷ str_append "HEAD..." branch ∷ []) w in
      (w', lines r)

  abbrev after_checkout : Try String → World → World × Try String
  after_checkout (err e) w = (w, err e)
  after_checkout (ok out) w = head w

  -- Repo.Detach
  unfoldable pub detach : String → World → World × Try String
  unfolding head
  detach ref w = let (w', r) = git ("checkout" ∷ "--detach" ∷ ref ∷ []) w in after_checkout r w'

  -- Repo.UpdateRef
  unfoldable pub update_ref : String → String → String → World → World × Try (Unit {0})
  update_ref ref new_sha old_sha w =
      let (w', r) = git ("update-ref" ∷ ref ∷ new_sha ∷ old_sha ∷ []) w in (w', done r)

  -- The commit that is checked out, as `Head` reads it.
  abbrev pub head_of : World → Try String
  head_of w = (head w).1
