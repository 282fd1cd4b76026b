-- ===== src/State/Examples/Tasks.antt =====
-- Events of internal/state/state.go on one task, with the theorems about them at work.
use age_of_agents.Base.{true, false, ◌≡◌, refl, ◌⊎◌, none, some, [], ◌∷◌, All}
use age_of_agents.Base.Dict.{get, put, modify}
use age_of_agents.Api.EventType
use age_of_agents.Api.Event.{Event, Body, event_type}
use age_of_agents.State.Model.{Ticket, State, awaiting, proposed, failed}
use age_of_agents.State.Spend.{charge_of}
use age_of_agents.State.Handlers.{on_heartbeat, on_approval_granted, on_approval_denied}
use age_of_agents.State.Apply.{ok, apply, apply_body, fold_from}
use age_of_agents.State.TicketView.{after_all, fold_from-get}
use age_of_agents.State.Lifecycle.{Step, apply-Step, is_fact, terminal_absorbs}
use age_of_agents.State.Decisions.{approved_needs_grant, rejected_needs_denial}
use age_of_agents.State.Examples.{event, a_task, replayed, found_a}

abbrev parked : Ticket
parked = record a_task { status = awaiting }

abbrev grant : Event
grant = event 7 none (Body.approval_granted (record { ticket_id = "a"; by = "ann"; reason = "" }))

abbrev denial : Event
denial = event 7 none (Body.approval_denied (record { ticket_id = "a"; by = "ann"; reason = "" }))

abbrev beat : Event
beat = event 8 none (Body.heartbeat (record { ticket_id = "a"; worker = "w" }))

-- The log's state with its first task parked, and after each of the decisions.
abbrev waiting_state : State
waiting_state = record replayed { tickets = put "a" parked replayed.tickets }

abbrev granted_task : Ticket
granted_task = record parked {
  status = proposed;
  approved = true;
  decided_seq = 7;
  last_activity = 7;
}

abbrev denied_task : Ticket
denied_task = record parked {
  status = failed;
  rejected = true;
  decided_seq = 7;
  failed_seq = 7;
  last_activity = 7;
}

abbrev decided : Ticket → State
decided t = record waiting_state { tickets = put "a" t waiting_state.tickets; last_seq = 7 }

grants : apply grant waiting_state ≡ ok (decided granted_task)
unfolding apply apply_body charge_of modify put on_approval_granted
grants = refl

denies : apply denial waiting_state ≡ ok (decided denied_task)
unfolding apply apply_body charge_of modify put on_approval_denied
denies = refl

found_parked : get "a" waiting_state.tickets ≡ some parked
unfolding get put
found_parked = refl

found_granted : get "a" (decided granted_task).tickets ≡ some granted_task
unfolding get put
found_granted = refl

found_denied : get "a" (decided denied_task).tickets ≡ some denied_task
unfolding get put
found_denied = refl

approved_needs_grant_example :
    (event_type grant.body ≡ EventType.approval_granted)
    × (parked.status ≡ awaiting)
    × (granted_task.status ≡ proposed)
    × (granted_task.decided_seq ≡ 7)
approved_needs_grant_example =
    approved_needs_grant grant "a" waiting_state (decided granted_task) parked granted_task refl
      found_parked grants found_granted refl refl

rejected_needs_denial_example :
    (event_type denial.body ≡ EventType.approval_denied)
    × (parked.status ≡ awaiting)
    × (denied_task.status ≡ failed)
    × (denied_task.decided_seq ≡ 7)
rejected_needs_denial_example =
    rejected_needs_denial denial "a" waiting_state (decided denied_task) parked denied_task refl
      found_parked denies found_denied refl refl

apply-Step_example :
    (x : Ticket) × (get "a" (decided granted_task).tickets ≡ some x)
    × ((x.status ≡ parked.status) ⊎ Step (event_type grant.body) parked.status x.status)
apply-Step_example =
    apply-Step grant "a" waiting_state (decided granted_task) parked refl found_parked grants

-- The state that follows a heartbeat of the first task.
abbrev beaten : State
beaten = record replayed { tickets = modify "a" (on_heartbeat 8 8) replayed.tickets; last_seq = 8 }

beats : fold_from (beat ∷ []) replayed ≡ ok beaten
unfolding fold_from apply apply_body charge_of modify on_heartbeat
beats = refl

late : All (λ e. is_fact (event_type e.body) ≡ false) (beat ∷ [])
unfolding event_type
late = (refl, tt)

terminal_absorbs_example :
    (x : Ticket) × (get "a" beaten.tickets ≡ some x) × (x.status ≡ a_task.status)
terminal_absorbs_example =
    terminal_absorbs (beat ∷ []) "a" replayed beaten a_task (refl, tt) late found_a refl beats

fold_from-get_example : get "a" beaten.tickets ≡ some (after_all (beat ∷ []) "a" a_task)
fold_from-get_example =
    fold_from-get (beat ∷ []) "a" replayed beaten a_task (refl, tt) found_a beats
