-- ===== src/Git.antt =====
-- What the merge queue uses of the world outside the program: the git commands that
-- internal/worktree/worktree.go runs, and the Gate commands that internal/verify/verify.go runs. Git, the
-- commands and two text functions of Go are parameters; the functions of the two packages are over them.
pub mod Worktree
pub mod Verify
pub mod Laws
use age_of_agents.Base.{ℕ, String, Option, List, []}

-- A Go result with an error, whose text is kept.
pub data Try {ℓ} (A : Type ℓ) : Type ℓ where
  ok : A → Try A
  err : String → Try A

-- How a command failed: it exited with a status, was killed by a signal, or never started.
pub data ExecError : Type 0 where
  exit_status : ℕ → ExecError
  killed : ExecError
  not_started : ExecError

pub record External : Type 1 where
  pub World : Type 0
  -- git(ctx, dir, args...), with what it prints
  pub git : List String → World → World × Try String
  -- exec.CommandContext(…).CombinedOutput()
  pub exec : List String → World → World × String × Option ExecError
  -- strings.TrimSpace
  pub trim_space : String → String
  -- strings.Split(s, "\n")
  pub split_lines : String → List String
