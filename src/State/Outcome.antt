-- ===== src/State/Outcome.antt =====
-- internal/state/state.go: GoalOutcome and GoalConditions. The loop of each over the tasks is a
-- function of its own, which gathers the flags that the `switch` after it reads.
use age_of_agents.Base.{
  ℕ, String, ◌==◌, Bool, true, false, not, ◌&&◌, ◌||◌, Option, none, some, List, [], ◌∷◌,
  if◌then◌else◌,
}
use Prim.Native.String.{◌++◌ as str_append}
use age_of_agents.Base.Dict.{get, values}
use age_of_agents.Base.Partial.{◌>>=◌}
use age_of_agents.Api.Contract.{
  Outcome, queued, running, awaiting_approval, merged, failed, cancelled, delivered, Condition,
  ConditionType, ConditionStatus,
}
use age_of_agents.State.Model.{is_awaiting, is_terminal, is_failed, Goal, Ticket, State}
use age_of_agents.State.Queries.{ticket_complete, ticket_dead, goal_complete, ordered_tickets}

-- The variables of GoalOutcome's loop.
pub record Flags : Type 0 where
  pub has_tickets : Bool
  pub is_parked : Bool
  pub in_flight : Bool
  pub dead : Bool
  pub complete : Bool

abbrev pub no_flags : Flags
no_flags = record {
  has_tickets = false;
  is_parked = false;
  in_flight = false;
  dead = false;
  complete = true;
}

module _ (fuel : ℕ) (s : State) where
  -- The inner `switch` on a task's status.
  abbrev pub note_status : Flags → Ticket → Option Flags
  note_status f t =
      if is_awaiting t.status
      then some (record f { has_tickets = true; is_parked = true })
      else if not (is_terminal t.status)
      then some (record f { has_tickets = true; in_flight = true })
      else (ticket_dead fuel s t.id >>= λ gone. some (
          if gone
          then record f { has_tickets = true; dead = true }
          else record f { has_tickets = true }))

  abbrev pub note_complete : Flags → Ticket → Option Flags
  note_complete f t = ticket_complete fuel s t.id >>= λ done.
      some (if not done then record f { complete = false } else f)

  unfoldable pub scan_outcome : String → Flags → List Ticket → Option Flags
  scan_outcome goal_id f [] = some f
  scan_outcome goal_id f (t ∷ ts) =
      let skip = scan_outcome goal_id f ts in
      if not (t.goal_id == goal_id)
      then skip
      else (note_status f t >>= λ f'. note_complete f' t >>= λ f''. scan_outcome goal_id f'' ts)

  -- The `switch` at the end of GoalOutcome.
  abbrev pub judge : Goal → Flags → Outcome
  judge g f =
      if not f.has_tickets
      then queued
      else if f.is_parked
      then awaiting_approval
      else if f.in_flight
      then running
      else if f.complete && not (g.branch == "")
      then running
      else if f.dead || g.budget_exceeded
      then failed
      else if f.complete
      then merged
      else running

  abbrev pub outcome_of : String → Goal → Option Outcome
  outcome_of goal_id g =
      if g.cancelled
      then some cancelled
      else if g.delivered
      then some delivered
      else (scan_outcome goal_id no_flags (values s.tickets) >>= λ f. some (judge g f))

  -- GoalOutcome; the inner `none` is the "" of an id that names no Goal.
  unfoldable pub goal_outcome : String → Option (Option Outcome)
  unfolding scan_outcome
  goal_outcome goal_id = elim (get goal_id s.goals) [
    | none ↦ some none
    | some g ↦ outcome_of goal_id g >>= λ o. some (some o)
  ]

-- The variables of GoalConditions' loop; `failed` and `rejected` are the first of each.
pub record Tasks : Type 0 where
  pub has_tickets : Bool
  pub is_parked : Bool
  pub in_flight : Bool
  pub first_failed : Option Ticket
  pub first_rejected : Option Ticket

abbrev pub no_tasks : Tasks
no_tasks = record {
  has_tickets = false;
  is_parked = false;
  in_flight = false;
  first_failed = none;
  first_rejected = none;
}

abbrev pub or_else : Option Ticket → Ticket → Option Ticket
or_else none t = some t
or_else (some u) t = some u

abbrev pub note_failed : Ticket → Tasks → Tasks
note_failed t k = if t.rejected then record k { first_rejected = or_else k.first_rejected t } else k

abbrev pub note_task : Tasks → Ticket → Tasks
note_task k t =
    let seen = record k { has_tickets = true } in
    if is_awaiting t.status
    then record seen { is_parked = true }
    else if not (is_terminal t.status)
    then record seen { in_flight = true }
    else if is_failed t.status
    then note_failed t (record seen { first_failed = or_else k.first_failed t })
    else seen

unfoldable pub scan_tasks : String → Tasks → List Ticket → Tasks
scan_tasks goal_id k [] = k
scan_tasks goal_id k (t ∷ ts) =
    scan_tasks goal_id (if not (t.goal_id == goal_id) then k else note_task k t) ts

abbrev pub condition : ConditionType → ConditionStatus → String → String → Condition
condition kind status reason message = record {
  kind = kind;
  status = status;
  reason = reason;
  message = message;
  last_transition_time = 0;
}

abbrev pub cond_true : ConditionType → String → String → Condition
cond_true kind = condition kind ConditionStatus.is_true

abbrev pub cond_false : ConditionType → String → String → Condition
cond_false kind = condition kind ConditionStatus.is_false

unfoldable pub accepted_condition : Goal → Tasks → Condition
accepted_condition g k =
    if k.has_tickets
    then cond_true ConditionType.accepted "TasksCreated" ""
    else if g.cancelled
    then cond_false ConditionType.accepted "Cancelled" ""
    else cond_false ConditionType.accepted "Queued" ""

abbrev pub failure_message : Ticket → String
failure_message t =
    if not (t.last_fail_reason == "")
    then str_append t.id (str_append ": " t.last_fail_reason)
    else str_append t.id " failed"

-- The last four cases of the Verified condition.
abbrev pub verified_settled : Goal → Option Ticket → Option Ticket → Condition
verified_settled g rejected lost =
    if g.budget_exceeded
    then cond_false ConditionType.verified "BudgetExceeded" ""
    else elim rejected [
      | some r ↦
          cond_false ConditionType.verified "ApprovalDenied"
            (str_append r.id " was rejected at the approval gate")
      | none ↦ elim lost [
        | some t ↦ cond_false ConditionType.verified "TaskFailed" (failure_message t)
        | none ↦ cond_false ConditionType.verified "WorkInProgress" ""
      ]
    ]

unfoldable pub verified_condition : Goal → Bool → Tasks → Condition
verified_condition g verified k =
    if verified
    then cond_true ConditionType.verified "AllMerged" ""
    else if g.cancelled
    then cond_false ConditionType.verified "Cancelled" ""
    else if not k.has_tickets
    then cond_false ConditionType.verified "Queued" ""
    else if k.is_parked
    then cond_false ConditionType.verified "AwaitingApproval" ""
    else if k.in_flight
    then cond_false ConditionType.verified "WorkInProgress" ""
    else verified_settled g k.first_rejected k.first_failed

unfoldable pub delivered_condition : Goal → Bool → Condition
delivered_condition g verified =
    if g.delivered && not (g.pr_url == "")
    then cond_true ConditionType.delivered "PullRequestOpened" g.pr_url
    else if g.delivered
    then cond_true ConditionType.delivered "BranchPushed" (str_append "pushed " g.branch)
    else if g.cancelled
    then cond_false ConditionType.delivered "Cancelled" ""
    else if not (g.delivery_error == "")
    then cond_false ConditionType.delivered "DeliveryFailed" g.delivery_error
    else if g.branch == ""
    then condition ConditionType.delivered ConditionStatus.unknown "NoGoalBranch" ""
    else if verified
    then cond_false ConditionType.delivered "DeliveryPending" ""
    else cond_false ConditionType.delivered "NotVerified" ""

abbrev pub is_cancelled : Outcome → Bool
is_cancelled cancelled = true
is_cancelled _ = false

-- outcomeReasons; "" for an outcome that is not settled.
abbrev pub outcome_reason : Outcome → String
outcome_reason merged = "Merged"
outcome_reason delivered = "Delivered"
outcome_reason failed = "Failed"
outcome_reason cancelled = "Cancelled"
outcome_reason _ = ""

abbrev pub is_settled : Outcome → Bool
is_settled o = not (outcome_reason o == "")

-- The cases of the Complete condition for an outcome that is not settled.
abbrev pub pending_condition : Goal → Bool → Outcome → Condition
pending_condition g verified queued = cond_false ConditionType.complete "Queued" ""
pending_condition g verified awaiting_approval =
    cond_false ConditionType.complete "AwaitingApproval" ""
pending_condition g verified _ =
    if verified && not (g.branch == "") && not (g.delivery_error == "")
    then cond_false ConditionType.complete "DeliveryFailed" ""
    else if verified && not (g.branch == "")
    then cond_false ConditionType.complete "DeliveryPending" ""
    else cond_false ConditionType.complete "WorkInProgress" ""

unfoldable pub complete_condition : Goal → Bool → Tasks → Outcome → Condition
complete_condition g verified k o =
    if is_cancelled o && (k.in_flight || k.is_parked)
    then cond_false ConditionType.complete "Cancelling" ""
    else if is_settled o
    then cond_true ConditionType.complete (outcome_reason o) ""
    else pending_condition g verified o

module _ (fuel : ℕ) (s : State) where
  abbrev pub conditions_of : String → Goal → Option (List Condition)
  conditions_of goal_id g = do
    o ← outcome_of fuel s goal_id g
    verified ← goal_complete fuel s goal_id
    let k = scan_tasks goal_id no_tasks (ordered_tickets s)
    some (
        accepted_condition g k
        ∷ verified_condition g verified k
        ∷ delivered_condition g verified
        ∷ complete_condition g verified k o
        ∷ [])

  -- GoalConditions; an id that names no Goal has none.
  unfoldable pub goal_conditions : String → Option (List Condition)
  unfolding ordered_tickets scan_outcome
  goal_conditions goal_id = elim (get goal_id s.goals) [
    | none ↦ some []
    | some g ↦ conditions_of goal_id g
  ]
