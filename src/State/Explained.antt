-- ===== src/State/Explained.antt =====
-- What each of a Goal's conditions says, from the tasks of the Goal in creation order. The cases of a
-- condition exclude each other.
use age_of_agents.Base.{String, Bool, true, false, ◌≡◌, ◌⊎◌, ◌≢◌, some, List}
use Prim.Native.String.{◌++◌ as str_append}
use age_of_agents.Api.Contract.{
  Outcome, queued, running, awaiting_approval, merged, failed, cancelled, delivered,
  ConditionStatus, is_true, is_false, unknown,
}
use age_of_agents.State.Model.{Goal, Ticket}
use age_of_agents.State.Tally.{Has, first_of, of_goal, parked, working, lost, denied}

module _ (g : Goal) (id : String) (ts : List Ticket) where
  pub data SaysAccepted : ConditionStatus → String → String → Type 0 where
    created : Has (of_goal id) ts → SaysAccepted is_true "TasksCreated" ""
    called_off :
        (Has (of_goal id) ts → ⊥) → g.cancelled ≡ true → SaysAccepted is_false "Cancelled" ""
    no_tasks_yet :
        (Has (of_goal id) ts → ⊥) → g.cancelled ≡ false → SaysAccepted is_false "Queued" ""

  -- Why a Goal with tasks, none parked or working, is not verified.
  pub data Blames : String → String → Type 0 where
    over_budget : g.budget_exceeded ≡ true → Blames "BudgetExceeded" ""
    turned_down :
        (t : Ticket)
        → g.budget_exceeded ≡ false
        → first_of (denied id) ts ≡ some t
        → Blames "ApprovalDenied" (str_append t.id " was rejected at the approval gate")
    gave_up :
        (t : Ticket)
        → g.budget_exceeded ≡ false
        → (Has (denied id) ts → ⊥)
        → first_of (lost id) ts ≡ some t
        → t.last_fail_reason ≡ ""
        → Blames "TaskFailed" (str_append t.id " failed")
    gave_up_because :
        (t : Ticket)
        → g.budget_exceeded ≡ false
        → (Has (denied id) ts → ⊥)
        → first_of (lost id) ts ≡ some t
        → t.last_fail_reason ≢ ""
        → Blames "TaskFailed" (str_append t.id (str_append ": " t.last_fail_reason))
    unknown_child : g.budget_exceeded ≡ false → (Has (lost id) ts → ⊥) → Blames "WorkInProgress" ""

  -- The Verified condition, where GoalComplete answers this.
  pub data SaysVerified : Bool → ConditionStatus → String → String → Type 0 where
    all_merged : SaysVerified true is_true "AllMerged" ""
    called_off : g.cancelled ≡ true → SaysVerified false is_false "Cancelled" ""
    no_tasks_yet :
        g.cancelled ≡ false → (Has (of_goal id) ts → ⊥) → SaysVerified false is_false "Queued" ""
    waiting :
        g.cancelled ≡ false → Has (parked id) ts → SaysVerified false is_false "AwaitingApproval" ""
    in_progress :
        g.cancelled ≡ false
        → (Has (parked id) ts → ⊥)
        → Has (working id) ts
        → SaysVerified false is_false "WorkInProgress" ""
    settled :
        {reason message : String}
        → g.cancelled ≡ false
        → Has (of_goal id) ts
        → (Has (parked id) ts → ⊥)
        → (Has (working id) ts → ⊥)
        → Blames reason message
        → SaysVerified false is_false reason message

  -- The Delivered condition, where GoalComplete answers this.
  pub data SaysDelivered : Bool → ConditionStatus → String → String → Type 0 where
    opened :
        {done : Bool}
        → g.delivered ≡ true
        → g.pr_url ≢ ""
        → SaysDelivered done is_true "PullRequestOpened" g.pr_url
    pushed :
        {done : Bool}
        → g.delivered ≡ true
        → g.pr_url ≡ ""
        → SaysDelivered done is_true "BranchPushed" (str_append "pushed " g.branch)
    called_off :
        {done : Bool}
        → g.delivered ≡ false
        → g.cancelled ≡ true
        → SaysDelivered done is_false "Cancelled" ""
    refused :
        {done : Bool}
        → g.delivered ≡ false
        → g.cancelled ≡ false
        → g.delivery_error ≢ ""
        → SaysDelivered done is_false "DeliveryFailed" g.delivery_error
    no_branch :
        {done : Bool}
        → g.delivered ≡ false
        → g.cancelled ≡ false
        → g.delivery_error ≡ ""
        → g.branch ≡ ""
        → SaysDelivered done unknown "NoGoalBranch" ""
    due :
        {done : Bool} {reason : String}
        → g.delivered ≡ false
        → g.cancelled ≡ false
        → g.delivery_error ≡ ""
        → g.branch ≢ ""
        → ((done ≡ true) × (reason ≡ "DeliveryPending"))
          ⊎ ((done ≡ false) × (reason ≡ "NotVerified"))
        → SaysDelivered done is_false reason ""

  -- The Complete condition of a Goal with this outcome, where GoalComplete answers this.
  pub data SaysComplete : Outcome → Bool → ConditionStatus → String → Type 0 where
    cancelling :
        {done : Bool}
        → Has (working id) ts ⊎ Has (parked id) ts
        → SaysComplete cancelled done is_false "Cancelling"
    called_off :
        {done : Bool}
        → (Has (working id) ts → ⊥)
        → (Has (parked id) ts → ⊥)
        → SaysComplete cancelled done is_true "Cancelled"
    landed : {done : Bool} → SaysComplete merged done is_true "Merged"
    delivers : {done : Bool} → SaysComplete delivered done is_true "Delivered"
    fails : {done : Bool} → SaysComplete failed done is_true "Failed"
    queues : {done : Bool} → SaysComplete queued done is_false "Queued"
    waits : {done : Bool} → SaysComplete awaiting_approval done is_false "AwaitingApproval"
    refused :
        g.branch ≢ "" → g.delivery_error ≢ "" → SaysComplete running true is_false "DeliveryFailed"
    pending :
        g.branch ≢ "" → g.delivery_error ≡ "" → SaysComplete running true is_false "DeliveryPending"
    runs :
        {done : Bool}
        → (done ≡ false) ⊎ (g.branch ≡ "")
        → SaysComplete running done is_false "WorkInProgress"
