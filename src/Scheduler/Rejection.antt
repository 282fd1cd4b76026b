-- ===== src/Scheduler/Rejection.antt =====
-- internal/orchestrator/orchestrator.go: what the Scheduler makes of an attempt that came to nothing. The
-- events are those that it emits, in order, where each is appended. `worktrees` is the map of that
-- name from a task to the path of its checkout, and `removed` are the checkouts that Repo.Remove
-- is called with.
use Prim.Native.String.{◌++◌ as str_append}
use Prim.Native.Nat.{◌/◌, ◌%◌}
use age_of_agents.Base.{
  ℕ, zero, suc, ◌+◌, String, ◌==◌, Bool, true, not, ◌&&◌, ◌||◌, Option, none, some, List, [], ◌∷◌,
  length, keep, eqb, ltb, leb, get_or, if◌then◌else◌,
}
use age_of_agents.Base.Dict.{Dict, get}
use age_of_agents.Api.Event.{Body}
use age_of_agents.State.Model.{Ticket}

pub record Effects : Type 0 where
  pub emits : List Body
  pub worktrees : Dict String
  pub removed : List String

-- The fields of Options that decide on another attempt.
pub record RetryOptions : Type 0 where
  pub max_attempts : ℕ
  pub crash_loop_threshold : ℕ

-- usage
pub record Used : Type 0 where
  pub tokens : ℕ
  pub model : String
  pub cost : ℕ

abbrev pub forget : String → Dict String → Dict String
forget id worktrees = keep (λ e. not (e.0 == id)) worktrees

abbrev pub paths : Option String → List String
paths none = []
paths (some p) = p ∷ []

-- cleanupWorktree, and an event after it.
abbrev pub cleaned : String → Dict String → Body → Effects
cleaned id worktrees b = record {
  emits = b ∷ [];
  worktrees = forget id worktrees;
  removed = paths (get id worktrees);
}

-- preserveWorktree, and an event that holds the path it returns.
abbrev pub preserved : String → Dict String → (String → Body) → Effects
preserved id worktrees b = record {
  emits = b (get_or (get id worktrees) "") ∷ [];
  worktrees = forget id worktrees;
  removed = [];
}

abbrev digit : ℕ → String
digit n =
    if eqb n 0
    then "0"
    else if eqb n 1
    then "1"
    else if eqb n 2
    then "2"
    else if eqb n 3
    then "3"
    else if eqb n 4
    then "4"
    else if eqb n 5
    then "5"
    else if eqb n 6
    then "6"
    else if eqb n 7
    then "7"
    else if eqb n 8
    then "8"
    else "9"

-- The decimal digits that %d prints; n digits are more than enough.
abbrev digits : ℕ → ℕ → String
digits zero n = ""
digits (suc f) n =
    let front = digits f (n / 10) in if ltb n 10 then digit n else str_append front (digit (n % 10))

unfoldable pub crash_loop : String → ℕ → String
crash_loop reason n =
    str_append "crash loop: "
      (str_append reason (str_append " (×" (str_append (digits (suc n) n) ")")))

-- The tests of rejectOrFail.
unfoldable pub is_crash_loop : RetryOptions → Ticket → String → Bool
is_crash_loop o t reason =
    leb (length t.active_workers) 1
    && ltb 0 o.crash_loop_threshold
    && not (reason == "")
    && reason == t.last_fail_reason
    && leb o.crash_loop_threshold (t.same_fail_count + 1)

unfoldable pub is_spent : RetryOptions → Ticket → Bool
is_spent o t = leb (length t.active_workers) 1 && leb o.max_attempts t.attempts

-- rejectOrFail
unfoldable pub reject_or_fail :
    RetryOptions → Dict String → Ticket → String → String → String → String → Effects
unfolding get is_crash_loop is_spent
reject_or_fail o worktrees t worker reason output tree =
    if is_crash_loop o t reason || is_spent o t
    then preserved t.id worktrees (λ path. Body.ticket_failed (record {
      ticket_id = t.id;
      worker = worker;
      reason =
          if is_crash_loop o t reason then crash_loop reason (t.same_fail_count + 1) else reason;
      output = output;
      tree = tree;
      worktree = path;
      tokens = 0;
      model = "";
      cost_usd = 0;
    }))
    else cleaned t.id worktrees (
        Body.verification_failed (record {
          ticket_id = t.id;
          worker = worker;
          reason = reason;
          output = output;
          tree = tree;
        }))

-- isLastWorker of failAttempt, from the ticket on a log that could be read.
abbrev pub last_worker : Option Ticket → Bool
last_worker none = true
last_worker (some t) = leb (length t.active_workers) 1

-- failAttempt, of attempt number `attempt` of the task `id`.
unfoldable pub fail_attempt :
    RetryOptions → Dict String → Option Ticket → String → ℕ → String → String → Used → Effects
unfolding get
fail_attempt o worktrees found id attempt worker reason u =
    if last_worker found && leb o.max_attempts attempt
    then preserved id worktrees (λ path. Body.ticket_failed (record {
      ticket_id = id;
      worker = worker;
      reason = reason;
      output = "";
      tree = "";
      worktree = path;
      tokens = u.tokens;
      model = u.model;
      cost_usd = u.cost;
    }))
    else cleaned id worktrees (
        Body.worker_restarted (record {
          ticket_id = id;
          worker = worker;
          reason = reason;
          tokens = u.tokens;
          model = u.model;
          cost_usd = u.cost;
        }))
