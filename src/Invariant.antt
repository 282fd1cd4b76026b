-- ===== src/Invariant.antt =====
-- internal/invariant/invariant.go: checks of the Event Log. A violation carries the values that the
-- source formats into its text.
pub mod Scan
pub mod Checks
pub mod SingleWriter
pub mod Cancel
pub mod Replay
mod Examples
use age_of_agents.Base.{
  ℕ, zero, suc, length, String, ◌==◌, Bool, true, false, not, ◌&&◌, ◌||◌, Option, none, some, List,
  [], ◌∷◌, ◌++◌, eqb, ltb, get_or, if◌then◌else◌,
}
use age_of_agents.Base.Dict.{Dict, get, put}
use age_of_agents.Api.EventType.{
  EventType, proposal_submitted, verification_passed, merged, approval_requested, approval_granted,
}
use age_of_agents.Api.Event.{Body, Event, event_type, ticket_id}
use age_of_agents.State.Model.{State, new}
use age_of_agents.State.Apply.{ApplyError, Result, ok, err, apply, fold}

pub data Violation : Type 0 where
  wrong_seq : ℕ → ℕ → ℕ → Violation
  unverified_merge : String → ℕ → Violation
  merged_again : String → Violation
  merged_by : String → String → Violation
  ungranted_merge : String → ℕ → Violation
  cancelled_merge : String → ℕ → ℕ → String → ℕ → Violation
  prefix_fails : ℕ → ApplyError → Violation

-- for … { vs = append(vs, …) }, with what the loop keeps of the events before.
module _ {S : Type 0} (check : S → Event → List Violation) (step : S → Event → S) where
  unfoldable pub scan : S → List Event → List Violation
  scan s [] = []
  scan s (e ∷ es) = check s e ++ scan (step s e) es

-- MonotonicGaplessSeq, whose loop index is `i`.
unfoldable pub seq_from : ℕ → List Event → List Violation
seq_from i [] = []
seq_from i (e ∷ es) =
    let rest = seq_from (suc i) es in
    if not (eqb e.seq (suc i)) then wrong_seq i e.seq (suc i) ∷ rest else rest

unfoldable pub monotonic_gapless_seq : List Event → List Violation
unfolding seq_from
monotonic_gapless_seq events = seq_from 0 events

-- The two maps of MergeImpliesVerified.
pub record Verdicts : Type 0 where
  pub prop_seq : Dict ℕ
  pub pass_seq : Dict ℕ

abbrev pub seq_at : String → Dict ℕ → ℕ
seq_at id m = get_or (get id m) 0

abbrev pub note_verdict : EventType → String → ℕ → Verdicts → Verdicts
note_verdict proposal_submitted id seq v = record v { prop_seq = put id seq v.prop_seq }
note_verdict verification_passed id seq v = record v { pass_seq = put id seq v.pass_seq }
note_verdict _ id seq v = v

abbrev pub verdict_step : Verdicts → Event → Verdicts
verdict_step v e = note_verdict (event_type e.body) (ticket_id e) e.seq v

abbrev pub unverified : EventType → String → ℕ → Verdicts → List Violation
unverified merged id seq v =
    if eqb (seq_at id v.pass_seq) 0 || ltb (seq_at id v.pass_seq) (seq_at id v.prop_seq)
    then unverified_merge id seq ∷ []
    else []
unverified _ id seq v = []

abbrev pub verdict_check : Verdicts → Event → List Violation
verdict_check v e = unverified (event_type e.body) (ticket_id e) e.seq v

-- MergeImpliesVerified
unfoldable pub merge_implies_verified : List Event → List Violation
unfolding scan event_type ticket_id get put
merge_implies_verified events =
    scan verdict_check verdict_step (record { prop_seq = []; pass_seq = [] }) events

abbrev pub noted : String → Dict Bool → Bool
noted id m = get_or (get id m) false

abbrev pub note_merged : EventType → String → Dict Bool → Dict Bool
note_merged merged id m = put id true m
note_merged _ id m = m

abbrev pub merged_step : Dict Bool → Event → Dict Bool
merged_step m e = note_merged (event_type e.body) (ticket_id e) m

abbrev pub second_writer : EventType → String → String → Dict Bool → List Violation
second_writer merged id actor m =
    (if noted id m then merged_again id ∷ [] else [])
    ++ (if not (actor == "orchestrator") then merged_by id actor ∷ [] else [])
second_writer _ id actor m = []

abbrev pub merged_check : Dict Bool → Event → List Violation
merged_check m e = second_writer (event_type e.body) (ticket_id e) e.actor m

-- MergedAtMostOnceByQueue
unfoldable pub merged_at_most_once_by_queue : List Event → List Violation
unfolding scan event_type ticket_id get put
merged_at_most_once_by_queue events = scan merged_check merged_step [] events

-- The two maps of ApprovalGate.
pub record Approvals : Type 0 where
  pub requested : Dict Bool
  pub granted : Dict Bool

abbrev pub note_approval : EventType → String → Approvals → Approvals
note_approval approval_requested id a = record a { requested = put id true a.requested }
note_approval approval_granted id a = record a { granted = put id true a.granted }
note_approval _ id a = a

abbrev pub approval_step : Approvals → Event → Approvals
approval_step a e = note_approval (event_type e.body) (ticket_id e) a

abbrev pub ungranted : EventType → String → ℕ → Approvals → List Violation
ungranted merged id seq a =
    if noted id a.requested && not (noted id a.granted) then ungranted_merge id seq ∷ [] else []
ungranted _ id seq a = []

abbrev pub approval_check : Approvals → Event → List Violation
approval_check a e = ungranted (event_type e.body) (ticket_id e) e.seq a

-- ApprovalGate
unfoldable pub approval_gate : List Event → List Violation
unfolding scan event_type ticket_id get put
approval_gate events =
    scan approval_check approval_step (record { requested = []; granted = [] }) events

-- The three maps of CancelHonored.
pub record Cancels : Type 0 where
  pub goal_of : Dict String
  pub cancelled_at : Dict ℕ
  pub last_proposal : Dict ℕ

abbrev pub goal_at : String → Dict String → String
goal_at id m = get_or (get id m) ""

-- The two cases that decode a payload.
abbrev pub note_payload : Body → ℕ → Cancels → Cancels
note_payload (Body.ticket_created p) seq c = record c {
  goal_of = put p.ticket_id p.goal_id c.goal_of;
}
note_payload (Body.goal_cancelled p) seq c =
    if eqb (seq_at p.goal_id c.cancelled_at) 0
    then record c { cancelled_at = put p.goal_id seq c.cancelled_at }
    else c
note_payload _ seq c = c

abbrev pub note_proposal : EventType → String → ℕ → Cancels → Cancels
note_proposal proposal_submitted id seq c = record c { last_proposal = put id seq c.last_proposal }
note_proposal approval_granted id seq c = record c { last_proposal = put id seq c.last_proposal }
note_proposal _ id seq c = c

abbrev pub cancel_step : Cancels → Event → Cancels
cancel_step c e =
    note_proposal (event_type e.body) (ticket_id e) e.seq (note_payload e.body e.seq c)

abbrev pub late_merge : EventType → String → ℕ → Cancels → List Violation
late_merge merged id seq c =
    let goal = goal_at id c.goal_of in
    let at = seq_at goal c.cancelled_at in
    let proposed = seq_at id c.last_proposal in
    if ltb 0 at && ltb at proposed then cancelled_merge id seq proposed goal at ∷ [] else []
late_merge _ id seq c = []

abbrev pub cancel_check : Cancels → Event → List Violation
cancel_check c e = late_merge (event_type e.body) (ticket_id e) e.seq c

-- CancelHonored
unfoldable pub cancel_honored : List Event → List Violation
unfolding scan event_type ticket_id get put
cancel_honored events =
    scan cancel_check cancel_step (record { goal_of = []; cancelled_at = []; last_proposal = [] })
      events

-- The prefix of the first `k` events.
abbrev pub first : ℕ → List Event → List Event
first zero es = []
first (suc k) [] = []
first (suc k) (e ∷ es) = e ∷ first k es

-- The loop of ReplayDeterministicAndTotal, with `n` prefixes to go from length `k` on.
unfoldable pub replay_from : ℕ → ℕ → List Event → List Violation
unfolding fold
replay_from zero k events = []
replay_from (suc n) k events =
    let rest = replay_from n (suc k) events in
    elim (fold (first k events)) [ ok s ↦ rest | err e ↦ prefix_fails k e ∷ [] ]

-- ReplayDeterministicAndTotal
unfoldable pub replay_deterministic_and_total : List Event → List Violation
unfolding replay_from
replay_deterministic_and_total events = replay_from (suc (length events)) 0 events
