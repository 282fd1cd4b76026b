-- ===== src/Scheduler/Dispatch.antt =====
-- internal/orchestrator/orchestrator.go: which tasks a pass starts attempts of, and how long Run sleeps
-- where only a backoff holds tasks back. Durations are nanoseconds. `in_flight` is the map
-- `dispatching` of the goroutines that run, by task.
use age_of_agents.Base.{
  ℕ, zero, suc, ◌+◌, ◌-◌, ◌*◌, Bool, false, not, ◌&&◌, ◌||◌, Option, none, some, List, [], ◌∷◌,
  length, take, keep, max, eqb, ltb, leb, get_or, if◌then◌else◌,
}
use age_of_agents.Base.Dict.{Dict, get, bump, values}
use age_of_agents.State.Model.{Ticket, State, is_terminal, is_awaiting}

-- The fields of Options that dispatching reads.
pub record DispatchOptions : Type 0 where
  pub concurrency : ℕ
  pub best_of_n : ℕ
  pub retry_backoff : ℕ

abbrev pub doubled : ℕ → ℕ → ℕ
doubled base zero = base
doubled base (suc n) = 2 * doubled base n

-- backoffFor
unfoldable pub backoff_for : ℕ → ℕ → ℕ
backoff_for base attempts =
    let shift = attempts - 1 in
    if eqb base 0 || eqb attempts 0 then 0 else doubled base (if ltb 6 shift then 6 else shift)

abbrev pub flying : Dict ℕ → Ticket → ℕ
flying in_flight t = get_or (get t.id in_flight) 0

-- The body of the loop of dispatchable.
unfoldable pub may_dispatch : DispatchOptions → Dict ℕ → ℕ → Ticket → Bool
unfolding backoff_for
may_dispatch o in_flight now t =
    let active = max (length t.active_workers) (flying in_flight t) in
    let best = if eqb o.best_of_n 0 then 1 else o.best_of_n in
    let d = backoff_for o.retry_backoff t.attempts in
    if leb best active
    then false
    else not (ltb 0 o.retry_backoff && eqb active 0 && ltb 0 d && ltb (now - t.last_activity) d)

-- dispatchable
unfoldable pub dispatchable : DispatchOptions → Dict ℕ → List Ticket → ℕ → List Ticket
unfolding may_dispatch
dispatchable o in_flight ready now = keep (may_dispatch o in_flight now) ready

-- wait < 0 || remaining < wait
abbrev pub sooner : Option ℕ → ℕ → Option ℕ
sooner none remaining = some remaining
sooner (some w) remaining = some (if ltb remaining w then remaining else w)

-- The loop of nextBackoffWait; `none` where it reports false.
unfoldable pub wait_from : DispatchOptions → ℕ → Option ℕ → List Ticket → Option ℕ
unfolding backoff_for
wait_from o now wait [] = wait
wait_from o now wait (t ∷ ts) =
    let saturated = leb o.best_of_n (length t.active_workers) in
    let d = backoff_for o.retry_backoff t.attempts in
    let remaining = (d + t.last_activity) - now in
    let rest = wait_from o now (if saturated then wait else sooner wait remaining) ts in
    if saturated
    then rest
    else if ltb 0 (length t.active_workers) || eqb d 0 || eqb remaining 0
    then none
    else rest

-- nextBackoffWait, of the tickets that State.ReadyTickets returns.
unfoldable pub next_backoff_wait : DispatchOptions → List Ticket → ℕ → Option ℕ
unfolding wait_from
next_backoff_wait o ready now = if eqb o.retry_backoff 0 then none else wait_from o now none ready

-- activeAttempts
unfoldable pub active_attempts : Dict ℕ → Dict Ticket → ℕ
unfolding get
active_attempts in_flight [] = 0
active_attempts in_flight ((id, t) ∷ ts) =
    max (length t.active_workers) (get_or (get id in_flight) 0) + active_attempts in_flight ts

-- Step 3 of ReconcileOnce: the tasks that it starts an attempt of.
unfoldable pub wave : DispatchOptions → Dict ℕ → Bool → State → List Ticket → ℕ → List Ticket
unfolding dispatchable active_attempts
wave o in_flight spend_stopped s ready now =
    let slots = if spend_stopped then 0 else o.concurrency - active_attempts in_flight s.tickets in
    take slots (dispatchable o in_flight ready now)

-- markDispatching of each, before its goroutine starts.
unfoldable pub mark_dispatching : Dict ℕ → List Ticket → Dict ℕ
unfolding bump
mark_dispatching in_flight [] = in_flight
mark_dispatching in_flight (t ∷ ts) = mark_dispatching (bump t.id 1 in_flight) ts

-- The loop of pausedForApproval, with `awaiting > 0`.
abbrev pub paused_from : Bool → List Ticket → Bool
paused_from awaiting [] = awaiting
paused_from awaiting (t ∷ ts) =
    let rest = paused_from (awaiting || is_awaiting t.status) ts in
    if is_terminal t.status || is_awaiting t.status then rest else false

-- pausedForApproval
unfoldable pub paused_for_approval : State → Bool
unfolding values
paused_for_approval s = paused_from false (values s.tickets)
