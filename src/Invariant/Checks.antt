-- ===== src/Invariant/Checks.antt =====
-- What the checks of invariant.go promise of a log in which they find nothing.
use age_of_agents.Base.{
  ℕ, ◌<◌, String, ◌==◌, Bool, true, false, ◌&&◌, ◌||◌, ◌≡◌, refl, sym, ◌∙◌, ap, ◌↔◌, ◌⊎◌, inl, inr,
  List, [], ◌∷◌, eqb, ltb, if◌then◌else◌, arith, Bool-cases,
}
use age_of_agents.Base.Dict.{get, get-put}
use age_of_agents.Api.EventType.{
  EventType, proposal_submitted, verification_passed, merged, approval_requested, approval_granted,
}
use age_of_agents.Api.Event.{Event, event_type, ticket_id}
use age_of_agents.Invariant.{
  seq_at, noted, Verdicts, note_verdict, verdict_step, unverified, verdict_check,
  merge_implies_verified, Approvals, note_approval, approval_step, ungranted, approval_check,
  approval_gate,
}
use age_of_agents.Invariant.Scan.{Breach, run, has, scan-clean}

abbrev pub is_merge : EventType → Bool
is_merge merged = true
is_merge _ = false

abbrev pub is_request : EventType → Bool
is_request approval_requested = true
is_request _ = false

abbrev pub is_grant : EventType → Bool
is_grant approval_granted = true
is_grant _ = false

note_approval-noted :
    (t : EventType) (i id : String) (a : Approvals)
    → (noted id (note_approval t i a).requested
        ≡ ((is_request t && i == id) || noted id a.requested))
      × (noted id (note_approval t i a).granted ≡ ((is_grant t && i == id) || noted id a.granted))
note_approval-noted approval_requested i id a = ground (arith, get-put i id true a.requested)
note_approval-noted approval_granted i id a = ground (arith, get-put i id true a.granted)
note_approval-noted _ i id a = (refl, refl)

run-noted :
    (es : List Event) (id : String) (a : Approvals)
    → (noted id (run approval_step a es).requested ≡ (has is_request id es || noted id a.requested))
      × (noted id (run approval_step a es).granted ≡ (has is_grant id es || noted id a.granted))
run-noted [] id a = (refl, refl)
run-noted (e ∷ es) id a =
    let h = run-noted es id (approval_step a e) in
    let k = note_approval-noted (event_type e.body) (ticket_id e) id a in ground (arith, h, k)

-- A merge of a task whose approval was requested before, and not granted before.
abbrev pub UngrantedMerge : List Event → Event → Type 0
UngrantedMerge pre e =
    (is_merge (event_type e.body) ≡ true)
    × (has is_request (ticket_id e) pre ≡ true)
    × (has is_grant (ticket_id e) pre ≡ false)

ungranted-found :
    (t : EventType) (id : String) (n : ℕ) (a : Approvals)
    → (ungranted t id n a ≡ [])
      ⊎ ((is_merge t ≡ true) × (noted id a.requested ≡ true) × (noted id a.granted ≡ false))
ungranted-found merged id n a = elim (Bool-cases (noted id a.requested)) [
  | inr unasked ↦ inl (ground arith)
  | inl asked ↦ elim (Bool-cases (noted id a.granted)) [
    | inl agreed ↦ inl (ground arith)
    | inr withheld ↦ inr (refl, asked, withheld)
  ]
]
ungranted-found _ id n a = inl refl

ungranted_sound :
    (t : EventType) (id : String) (n : ℕ) (a : Approvals)
    → ungranted t id n a ≡ []
    → is_merge t ≡ true
    → noted id a.requested ≡ true
    → noted id a.granted ≡ false
    → ⊥
ungranted_sound merged id n a h m r g = ground arith
ungranted_sound _ id n a h m r g = absurd (cc)

abbrev no_approvals : Approvals
no_approvals = record { requested = []; granted = [] }

seen_before :
    (pre : List Event) (id : String)
    → (noted id (run approval_step no_approvals pre).requested ≡ has is_request id pre)
      × (noted id (run approval_step no_approvals pre).granted ≡ has is_grant id pre)
unfolding get
seen_before pre id = let h = run-noted pre id no_approvals in ground (arith, h)

-- The approval gate is honoured: ApprovalGate reports nothing exactly if no task merged after its
-- approval was requested and before it was granted.
pub approval_gate_exact :
    (es : List Event) → (approval_gate es ≡ []) ↔ (Breach UngrantedMerge es → ⊥)
unfolding approval_gate
approval_gate_exact es =
    scan-clean approval_check approval_step UngrantedMerge no_approvals es
      (λ pre e.
        let k = seen_before pre (ticket_id e) in
        elim (ungranted-found (event_type e.body) (ticket_id e) e.seq
          (run approval_step no_approvals pre)) [
            | inl h ↦ inl h
            | inr b ↦ inr (b.0, sym k.0 ∙ b.1, sym k.1 ∙ b.2)
          ])
      (λ pre e h b.
        let k = seen_before pre (ticket_id e) in
        ungranted_sound (event_type e.body) (ticket_id e) e.seq (run approval_step no_approvals pre)
          h b.0 (k.0 ∙ b.1) (k.1 ∙ b.2))

abbrev pub is_proposal : EventType → Bool
is_proposal proposal_submitted = true
is_proposal _ = false

abbrev pub is_pass : EventType → Bool
is_pass verification_passed = true
is_pass _ = false

-- The sequence number of the last event of such a type about the task, or `d`.
abbrev pub last_seq_of : (EventType → Bool) → String → ℕ → List Event → ℕ
last_seq_of is id d [] = d
last_seq_of is id d (e ∷ es) =
    last_seq_of is id (if is (event_type e.body) && ticket_id e == id then e.seq else d) es

pub note_verdict-seq_at :
    (t : EventType) (i id : String) (n : ℕ) (v : Verdicts)
    → (seq_at id (note_verdict t i n v).prop_seq
        ≡ (if is_proposal t && i == id then n else seq_at id v.prop_seq))
      × (seq_at id (note_verdict t i n v).pass_seq
          ≡ (if is_pass t && i == id then n else seq_at id v.pass_seq))
note_verdict-seq_at proposal_submitted i id n v = ground (arith, get-put i id n v.prop_seq)
note_verdict-seq_at verification_passed i id n v = ground (arith, get-put i id n v.pass_seq)
note_verdict-seq_at _ i id n v = (refl, refl)

run-seq_at :
    (es : List Event) (id : String) (v : Verdicts)
    → (seq_at id (run verdict_step v es).prop_seq
        ≡ last_seq_of is_proposal id (seq_at id v.prop_seq) es)
      × (seq_at id (run verdict_step v es).pass_seq
          ≡ last_seq_of is_pass id (seq_at id v.pass_seq) es)
run-seq_at [] id v = (refl, refl)
run-seq_at (e ∷ es) id v =
    let h = run-seq_at es id (verdict_step v e) in
    let k = note_verdict-seq_at (event_type e.body) (ticket_id e) id e.seq v in
    (
      h.0 ∙ ap (λ d. last_seq_of is_proposal id d es) k.0,
      h.1 ∙ ap (λ d. last_seq_of is_pass id d es) k.1,
    )

-- A merge of a task that never passed the Gate before, or whose last pass is older than its last
-- proposal.
abbrev pub UnverifiedMerge : List Event → Event → Type 0
UnverifiedMerge pre e =
    let pass = last_seq_of is_pass (ticket_id e) 0 pre in
    (is_merge (event_type e.body) ≡ true)
    × ((pass ≡ 0) ⊎ (pass < last_seq_of is_proposal (ticket_id e) 0 pre))

unverified-found :
    (t : EventType) (id : String) (n : ℕ) (v : Verdicts)
    → (unverified t id n v ≡ [])
      ⊎ ((is_merge t ≡ true)
          × ((seq_at id v.pass_seq ≡ 0) ⊎ (seq_at id v.pass_seq < seq_at id v.prop_seq)))
unverified-found merged id n v = elim (Bool-cases (eqb (seq_at id v.pass_seq) 0)) [
  | inl never ↦ inr (refl, inl (ground arith))
  | inr some_pass ↦ elim (Bool-cases (ltb (seq_at id v.pass_seq) (seq_at id v.prop_seq))) [
    | inl older ↦ inr (refl, inr (ground arith))
    | inr newer ↦ inl (ground arith)
  ]
]
unverified-found _ id n v = inl refl

unverified_sound :
    (t : EventType) (id : String) (n : ℕ) (v : Verdicts)
    → unverified t id n v ≡ []
    → is_merge t ≡ true
    → (seq_at id v.pass_seq ≡ 0) ⊎ (seq_at id v.pass_seq < seq_at id v.prop_seq)
    → ⊥
unverified_sound merged id n v h m b = ground arith
unverified_sound _ id n v h m b = absurd (cc)

abbrev no_verdicts : Verdicts
no_verdicts = record { prop_seq = []; pass_seq = [] }

verdicts_before :
    (pre : List Event) (id : String)
    → (seq_at id (run verdict_step no_verdicts pre).prop_seq ≡ last_seq_of is_proposal id 0 pre)
      × (seq_at id (run verdict_step no_verdicts pre).pass_seq ≡ last_seq_of is_pass id 0 pre)
unfolding get
verdicts_before pre id = run-seq_at pre id no_verdicts

-- A merge means a pass: MergeImpliesVerified reports nothing exactly if each merge comes after a pass
-- of the Gate on its task that is no older than the task's last proposal.
pub merge_implies_verified_exact :
    (es : List Event) → (merge_implies_verified es ≡ []) ↔ (Breach UnverifiedMerge es → ⊥)
unfolding merge_implies_verified
merge_implies_verified_exact es =
    scan-clean verdict_check verdict_step UnverifiedMerge no_verdicts es
      (λ pre e.
        let k = verdicts_before pre (ticket_id e) in
        elim (unverified-found (event_type e.body) (ticket_id e) e.seq
          (run verdict_step no_verdicts pre)) [
            | inl h ↦ inl h
            | inr b ↦ inr (b.0, rw (← k.0, ← k.1) b.1)
          ])
      (λ pre e h b.
        let k = verdicts_before pre (ticket_id e) in
        unverified_sound (event_type e.body) (ticket_id e) e.seq (run verdict_step no_verdicts pre)
          h b.0 (rw (k.0, k.1) b.1))
