-- ===== src/Invariant/Examples.antt =====
-- The checks of invariant.go on a small log, with the theorems about them at work.
use age_of_agents.Base.{ℕ, ◌≡◌, ◌↔◌, refl, Option, none, List, [], ◌∷◌}
use age_of_agents.Api.Event.{Event, Body}
use age_of_agents.Invariant.{merge_implies_verified, approval_gate, ungranted_merge}
use age_of_agents.Invariant.Cancel.{LateMerge, cancel_honored_exact}
use age_of_agents.Invariant.{cancel_honored, cancelled_merge}
use age_of_agents.Invariant.Scan.{Breach}
use age_of_agents.Invariant.Checks.{
  UngrantedMerge, approval_gate_exact, UnverifiedMerge, merge_implies_verified_exact,
}
use age_of_agents.Invariant.SingleWriter.{StrayMerge, merged_at_most_once_exact}
use age_of_agents.Invariant.{merged_at_most_once_by_queue}

abbrev event : ℕ → Body → Event
event n body = record {
  seq = n;
  timestamp = n;
  actor = "orchestrator";
  body = body;
  ticket_key = Option.some "a";
  charge_keys = none;
}

abbrev merge : Body
merge = Body.merged (record { ticket_id = "a"; worker = "w"; commit = "c"; branch = "" })

abbrev pass : Body
pass = Body.verification_passed (record { ticket_id = "a"; worker = "w"; tree = "t" })

abbrev request : Body
request = Body.approval_requested (record { ticket_id = "a"; worker = "w"; commit = "c" })

-- A merge that passed the Gate, and that nobody granted.
abbrev log : List Event
log = event 1 request ∷ event 2 pass ∷ event 3 merge ∷ []

log_verified : merge_implies_verified log ≡ []
unfolding merge_implies_verified
log_verified = refl

log_ungranted : approval_gate log ≡ ungranted_merge "a" 3 ∷ []
unfolding approval_gate
log_ungranted = refl

approval_gate_exact_example : (approval_gate log ≡ []) ↔ (Breach UngrantedMerge log → ⊥)
approval_gate_exact_example = approval_gate_exact log

merge_implies_verified_exact_example :
    (merge_implies_verified log ≡ []) ↔ (Breach UnverifiedMerge log → ⊥)
merge_implies_verified_exact_example = merge_implies_verified_exact log

merged_at_most_once_exact_example :
    (merged_at_most_once_by_queue log ≡ []) ↔ (Breach StrayMerge log → ⊥)
merged_at_most_once_exact_example = merged_at_most_once_exact log

-- A merge that was proposed after its Goal was cancelled.
abbrev late_log : List Event
late_log =
    event 1 (
      Body.ticket_created (record {
        ticket_id = "a";
        goal_id = "g";
        title = "";
        depends_on = [];
        idempotency_key = "";
        created_by = "";
        depth = 0;
      }))
    ∷ event 2 (Body.goal_cancelled (record { goal_id = "g"; by = "ann"; reason = "" }))
    ∷ event 3 (Body.approval_granted (record { ticket_id = "a"; by = "ann"; reason = "" }))
    ∷ event 4 merge
    ∷ []

late_found : cancel_honored late_log ≡ cancelled_merge "a" 4 3 "g" 2 ∷ []
unfolding cancel_honored
late_found = refl

cancel_honored_exact_example : (cancel_honored late_log ≡ []) ↔ (Breach LateMerge late_log → ⊥)
cancel_honored_exact_example = cancel_honored_exact late_log
