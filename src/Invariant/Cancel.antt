-- ===== src/Invariant/Cancel.antt =====
-- What CancelHonored of invariant.go promises of a log in which it finds nothing.
use age_of_agents.Base.{
  ℕ, ◌<◌, String, ◌==◌, Bool, true, false, not, ◌&&◌, ◌||◌, ◌≡◌, refl, ◌∙◌, ap, ◌↔◌, ◌⊎◌, inl, inr,
  List, [], ◌∷◌, eqb, ltb, if◌then◌else◌, arith, Bool-cases, eq_iff,
}
use age_of_agents.Base.Dict.{get, get-put}
use age_of_agents.Api.EventType.{EventType, merged, proposal_submitted, approval_granted}
use age_of_agents.Api.Event.{Event, Body, event_type, ticket_id}
use age_of_agents.Invariant.{
  seq_at, goal_at, Cancels, note_payload, note_proposal, cancel_step, late_merge, cancel_check,
  cancel_honored,
}
use age_of_agents.Invariant.Scan.{Breach, run, scan-clean}
use age_of_agents.Invariant.Checks.{is_merge, is_proposal, is_grant, last_seq_of}

-- The Goal that the last creation of the task names, or `d`.
abbrev pub created_in : Body → String → String → String
created_in (Body.ticket_created p) id d = if p.ticket_id == id then p.goal_id else d
created_in _ id d = d

abbrev pub goal_in : String → String → List Event → String
goal_in id d [] = d
goal_in id d (e ∷ es) = goal_in id (created_in e.body id d) es

abbrev pub cancels : Body → String → Bool
cancels (Body.goal_cancelled p) goal = p.goal_id == goal
cancels _ goal = false

-- The first numbered GoalCancelled of the Goal, or 0.
abbrev pub first_cancel : String → List Event → ℕ
first_cancel goal [] = 0
first_cancel goal (e ∷ es) =
    let rest = first_cancel goal es in
    if cancels e.body goal && not (eqb e.seq 0) then e.seq else rest

abbrev pub is_decision : EventType → Bool
is_decision t = is_proposal t || is_grant t

note_payload-maps :
    (b : Body) (n : ℕ) (id : String) (c : Cancels)
    → (goal_at id (note_payload b n c).goal_of ≡ created_in b id (goal_at id c.goal_of))
      × (seq_at id (note_payload b n c).cancelled_at ≡ (
          if cancels b id && eqb (seq_at id c.cancelled_at) 0 then n else seq_at id c.cancelled_at))
      × ((note_payload b n c).last_proposal ≡ c.last_proposal)
note_payload-maps (Body.ticket_created p) n id c =
    (ground (arith, get-put p.ticket_id id p.goal_id c.goal_of), refl, refl)
note_payload-maps (Body.goal_cancelled p) n id c = elim (Bool-cases (p.goal_id == id)) [
  | inl same ↦
      let at : p.goal_id ≡ id = (eq_iff p.goal_id id).0 same in
      (ground arith, ground (arith, get-put p.goal_id id n c.cancelled_at, at), ground arith)
  | inr other ↦ (ground arith, ground (arith, get-put p.goal_id id n c.cancelled_at), ground arith)
]
note_payload-maps _ n id c = (refl, refl, refl)

note_proposal-maps :
    (t : EventType) (i id : String) (n : ℕ) (c : Cancels)
    → ((note_proposal t i n c).goal_of ≡ c.goal_of)
      × ((note_proposal t i n c).cancelled_at ≡ c.cancelled_at)
      × (seq_at id (note_proposal t i n c).last_proposal
          ≡ (if is_decision t && i == id then n else seq_at id c.last_proposal))
note_proposal-maps proposal_submitted i id n c =
    (refl, refl, ground (arith, get-put i id n c.last_proposal))
note_proposal-maps approval_granted i id n c =
    (refl, refl, ground (arith, get-put i id n c.last_proposal))
note_proposal-maps _ i id n c = (refl, refl, refl)

cancel_step-maps :
    (e : Event) (id : String) (c : Cancels)
    → (goal_at id (cancel_step c e).goal_of ≡ created_in e.body id (goal_at id c.goal_of))
      × (seq_at id (cancel_step c e).cancelled_at ≡ (
          if cancels e.body id && eqb (seq_at id c.cancelled_at) 0
          then e.seq
          else seq_at id c.cancelled_at))
      × (seq_at id (cancel_step c e).last_proposal ≡ (
          if is_decision (event_type e.body) && ticket_id e == id
          then e.seq
          else seq_at id c.last_proposal))
cancel_step-maps e id c =
    let mid = note_payload e.body e.seq c in
    let h = note_payload-maps e.body e.seq id c in
    let k = note_proposal-maps (event_type e.body) (ticket_id e) id e.seq mid in
    (
      ap (λ m. goal_at id m) k.0 ∙ h.0,
      ap (λ m. seq_at id m) k.1 ∙ h.1,
      k.2
          ∙ ap
              (λ m.
                if is_decision (event_type e.body) && ticket_id e == id then e.seq else seq_at id m)
              h.2,
    )

run-maps :
    (es : List Event) (id : String) (c : Cancels)
    → (goal_at id (run cancel_step c es).goal_of ≡ goal_in id (goal_at id c.goal_of) es)
      × (seq_at id (run cancel_step c es).cancelled_at ≡ (
          if eqb (seq_at id c.cancelled_at) 0
          then first_cancel id es
          else seq_at id c.cancelled_at))
      × (seq_at id (run cancel_step c es).last_proposal
          ≡ last_seq_of is_decision id (seq_at id c.last_proposal) es)
run-maps [] id c = (refl, ground arith, refl)
run-maps (e ∷ es) id c =
    let h = run-maps es id (cancel_step c e) in
    let k = cancel_step-maps e id c in
    (
      h.0 ∙ ap (λ d. goal_in id d es) k.0,
      ground (arith, h.1, k.1),
      h.2 ∙ ap (λ d. last_seq_of is_decision id d es) k.2,
    )

-- A merge of a task whose Goal was cancelled before the task's last proposal or approval.
abbrev pub LateMerge : List Event → Event → Type 0
LateMerge pre e =
    let id = ticket_id e in
    let at = first_cancel (goal_in id "" pre) pre in
    (is_merge (event_type e.body) ≡ true) × (0 < at) × (at < last_seq_of is_decision id 0 pre)

late_merge-found :
    (t : EventType) (id : String) (n : ℕ) (c : Cancels)
    → (late_merge t id n c ≡ [])
      ⊎ ((is_merge t ≡ true)
          × (0 < seq_at (goal_at id c.goal_of) c.cancelled_at)
          × (seq_at (goal_at id c.goal_of) c.cancelled_at < seq_at id c.last_proposal))
late_merge-found merged id n c =
    let at = seq_at (goal_at id c.goal_of) c.cancelled_at in
    elim (Bool-cases (ltb 0 at)) [
      | inr never ↦ inl (ground arith)
      | inl cancelled ↦ elim (Bool-cases (ltb at (seq_at id c.last_proposal))) [
        | inr before ↦ inl (ground arith)
        | inl late ↦ inr (refl, ground arith, ground arith)
      ]
    ]
late_merge-found _ id n c = inl refl

late_merge_sound :
    (t : EventType) (id : String) (n : ℕ) (c : Cancels)
    → late_merge t id n c ≡ []
    → is_merge t ≡ true
    → 0 < seq_at (goal_at id c.goal_of) c.cancelled_at
    → seq_at (goal_at id c.goal_of) c.cancelled_at < seq_at id c.last_proposal
    → ⊥
late_merge_sound merged id n c h m p q = ground arith
late_merge_sound _ id n c h m p q = absurd (cc)

abbrev no_cancels : Cancels
no_cancels = record { goal_of = []; cancelled_at = []; last_proposal = [] }

cancels_before :
    (pre : List Event) (id : String)
    → let c = run cancel_step no_cancels pre in
      (seq_at (goal_at id c.goal_of) c.cancelled_at ≡ first_cancel (goal_in id "" pre) pre)
      × (seq_at id c.last_proposal ≡ last_seq_of is_decision id 0 pre)
unfolding get
cancels_before pre id =
    let c = run cancel_step no_cancels pre in
    let h = run-maps pre id no_cancels in
    (ap (λ g. seq_at g c.cancelled_at) h.0 ∙ (run-maps pre (goal_in id "" pre) no_cancels).1, h.2)

-- A cancel is honoured: CancelHonored reports nothing exactly if no task merged whose Goal was cancelled
-- before the task's last proposal or approval.
pub cancel_honored_exact : (es : List Event) → (cancel_honored es ≡ []) ↔ (Breach LateMerge es → ⊥)
unfolding cancel_honored
cancel_honored_exact es =
    scan-clean cancel_check cancel_step LateMerge no_cancels es
      (λ pre e.
        let k = cancels_before pre (ticket_id e) in
        elim (late_merge-found (event_type e.body) (ticket_id e) e.seq
          (run cancel_step no_cancels pre)) [
            | inl h ↦ inl h
            | inr b ↦ inr (b.0, ground (arith, b.1, k.0), ground (arith, b.2, k.0, k.1))
          ])
      (λ pre e h b.
        let k = cancels_before pre (ticket_id e) in
        late_merge_sound (event_type e.body) (ticket_id e) e.seq (run cancel_step no_cancels pre) h
          b.0 (ground (arith, b.1, k.0)) (ground (arith, b.2, k.0, k.1)))
