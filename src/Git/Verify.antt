-- ===== src/Git/Verify.antt =====
-- internal/verify/verify.go: the Gate, an ordered list of commands that must all succeed.
use Prim.Native.String.{◌++◌ as str_append}
use age_of_agents.Base.{
  String, ◌==◌, Bool, true, false, not, ◌&&◌, Option, none, some, List, [], ◌∷◌, ◌++◌, leb,
  is_empty, if◌then◌else◌,
}
use age_of_agents.Git.{ExecError, exit_status, killed, not_started, External}

pub record Verifier : Type 0 where
  pub commands : List (List String)
  pub sandbox : String
  pub image : String

pub record Result : Type 0 where
  pub passed : Bool
  pub failed : String
  pub output : String
  pub infra : Bool

-- Command.String: strings.Join(c, " ")
unfoldable pub join : List String → String
join [] = ""
join (a ∷ []) = a
join (a ∷ b ∷ r) = str_append a (str_append " " (join (b ∷ r)))

-- isDockerInfraFailure
unfoldable pub is_docker_infra_failure : ExecError → Bool
is_docker_infra_failure not_started = true
is_docker_infra_failure killed = false
is_docker_infra_failure (exit_status code) = leb 125 code && leb code 127

-- dockerArgs
unfoldable pub docker_args : Verifier → String → List String → List String
docker_args v dir c =
    let image = if v.image == "" then "golang:1.26" else v.image in
    ("run" ∷ "--rm" ∷ "-v" ∷ str_append dir ":/workspace" ∷ "-w" ∷ "/workspace" ∷ image ∷ []) ++ c

-- ToCommands
unfoldable pub to_commands : List (List String) → List (List String)
to_commands [] = []
to_commands (c ∷ cs) = c ∷ to_commands cs

abbrev pub in_docker : Verifier → Bool
in_docker v = v.sandbox == "docker"

abbrev pub probe : List String
probe = "docker" ∷ "version" ∷ "--format" ∷ "{{.Server.Version}}" ∷ []

module _ (x : External) (dir : String) (v : Verifier) where
  open x use {World, exec}

  abbrev pub argv : List String → List String
  argv c = if in_docker v then "docker" ∷ docker_args v dir c else c

  -- A command that failed ends the run.
  abbrev pub failure : List String → ExecError → String → Result
  failure c e out =
      let infra = in_docker v && is_docker_infra_failure e in
      record {
        passed = false;
        failed = join c;
        output =
            if infra
            then str_append out "\n[gate could not run: docker failed to start the container]\n"
            else out;
        infra = infra;
      }

  abbrev pub after_command :
      (String → World → World × Result)
      → List String
      → String
      → World × String × Option ExecError
      → World × Result
  after_command rest c out (w, b, none) = rest (str_append out b) w
  after_command rest c out (w, b, some e) = (w, failure c e (str_append out b))

  -- The loop over the commands. An empty command is skipped.
  unfoldable pub run_commands : List (List String) → String → World → World × Result
  unfolding join docker_args is_docker_infra_failure
  run_commands [] out w = (w, record { passed = true; failed = ""; output = out; infra = false })
  run_commands (c ∷ cs) out w =
      let skip = run_commands cs out w in
      let ran = after_command (run_commands cs) c out (exec (argv c) w) in
      if is_empty c then skip else ran

  abbrev pub unreachable : String → Result
  unreachable b = record {
    passed = false;
    failed = "docker version";
    output = str_append b "\n[gate could not run: the docker daemon is unreachable]\n";
    infra = true;
  }

  abbrev pub after_probe : World × String × Option ExecError → World × Result
  after_probe (w, b, none) = run_commands v.commands "" w
  after_probe (w, b, some e) = (w, unreachable b)

  -- Verifier.Run: the docker daemon is asked first, if there is anything to run in it.
  unfoldable pub run : World → World × Result
  unfolding run_commands
  run w =
      if in_docker v && not (is_empty v.commands)
      then after_probe (exec probe w)
      else run_commands v.commands "" w
