-- ===== src/Invariant/SingleWriter.antt =====
-- What MergedAtMostOnceByQueue promises of a log in which it finds nothing.
use age_of_agents.Base.{
  String, ◌==◌, Bool, true, false, ◌&&◌, ◌||◌, ◌≡◌, refl, ◌↔◌, ◌⊎◌, inl, inr, List, [], ◌∷◌, arith,
  Bool-cases,
}
use age_of_agents.Base.Dict.{Dict, get, get-put}
use age_of_agents.Api.EventType.{EventType, merged}
use age_of_agents.Api.Event.{Event, event_type, ticket_id}
use age_of_agents.Invariant.{
  noted, note_merged, merged_step, second_writer, merged_check, merged_at_most_once_by_queue,
}
use age_of_agents.Invariant.Scan.{Breach, run, has, scan-clean}
use age_of_agents.Invariant.Checks.{is_merge}

note_merged-noted :
    (t : EventType) (i id : String) (m : Dict Bool)
    → noted id (note_merged t i m) ≡ ((is_merge t && i == id) || noted id m)
note_merged-noted merged i id m = ground (arith, get-put i id true m)
note_merged-noted _ i id m = refl

run-noted :
    (es : List Event) (id : String) (m : Dict Bool)
    → noted id (run merged_step m es) ≡ (has is_merge id es || noted id m)
run-noted [] id m = refl
run-noted (e ∷ es) id m =
    let h = run-noted es id (merged_step m e) in
    let k = note_merged-noted (event_type e.body) (ticket_id e) id m in ground (arith, h, k)

merged_before :
    (pre : List Event) (id : String) → noted id (run merged_step [] pre) ≡ has is_merge id pre
unfolding get
merged_before pre id = let h = run-noted pre id [] in ground (arith, h)

-- A merge of a task that merged before, or one that the orchestrator did not make.
abbrev pub StrayMerge : List Event → Event → Type 0
StrayMerge pre e =
    (is_merge (event_type e.body) ≡ true)
    × ((has is_merge (ticket_id e) pre ≡ true) ⊎ ((e.actor == "orchestrator") ≡ false))

second_writer-found :
    (t : EventType) (id actor : String) (m : Dict Bool)
    → (second_writer t id actor m ≡ [])
      ⊎ ((is_merge t ≡ true) × ((noted id m ≡ true) ⊎ ((actor == "orchestrator") ≡ false)))
second_writer-found merged id actor m = elim (Bool-cases (noted id m)) [
  | inl again ↦ inr (refl, inl again)
  | inr fresh ↦ elim (Bool-cases (actor == "orchestrator")) [
    | inl queue ↦ inl (ground arith)
    | inr other ↦ inr (refl, inr other)
  ]
]
second_writer-found _ id actor m = inl refl

second_writer_sound :
    (t : EventType) (id actor : String) (m : Dict Bool)
    → second_writer t id actor m ≡ []
    → is_merge t ≡ true
    → (noted id m ≡ true) ⊎ ((actor == "orchestrator") ≡ false)
    → ⊥
second_writer_sound merged id actor m h k b = ground arith
second_writer_sound _ id actor m h k b = absurd (cc)

-- Main has one writer: MergedAtMostOnceByQueue reports nothing exactly if every merge is the
-- orchestrator's, and is the first of its task.
pub merged_at_most_once_exact :
    (es : List Event) → (merged_at_most_once_by_queue es ≡ []) ↔ (Breach StrayMerge es → ⊥)
unfolding merged_at_most_once_by_queue
merged_at_most_once_exact es =
    scan-clean merged_check merged_step StrayMerge [] es
      (λ pre e.
        let k = merged_before pre (ticket_id e) in
        elim (second_writer-found (event_type e.body) (ticket_id e) e.actor
          (run merged_step [] pre)) [ inl h ↦ inl h | inr b ↦ inr (b.0, rw (← k) b.1) ])
      (λ pre e h b.
        let k = merged_before pre (ticket_id e) in
        second_writer_sound (event_type e.body) (ticket_id e) e.actor (run merged_step [] pre) h b.0
          (rw k b.1))
