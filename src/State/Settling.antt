-- ===== src/State/Settling.antt =====
-- The loop of GoalOutcome in internal/state/state.go against GoalComplete.
use age_of_agents.Base.{
  ℕ, zero, suc, String, ◌==◌, Bool, true, false, not, ◌&&◌, ◌≡◌, ◌∙◌, some, some-injective,
  none-ne-some, List, [], ◌∷◌, All, arith, inl, inr, Bool-cases, ◌⊎◌, if◌then◌else◌,
}
use age_of_agents.Base.Dict.{get}
use age_of_agents.Base.Partial.{>>=-eq-some}
use age_of_agents.State.Model.{is_awaiting, Ticket, State}
use age_of_agents.State.Queries.{ticket_complete, complete_from}
use age_of_agents.State.Outcome.{Flags, note_status, note_complete, scan_outcome}

module _ (fuel : ℕ) (s : State) where
  note_status-keeps :
      (f f' : Flags) (t : Ticket)
      → note_status fuel s f t ≡ some f'
      → (f'.complete ≡ f.complete)
        × (f'.has_tickets ≡ true)
        × ((f'.is_parked ≡ f.is_parked) ⊎ (is_awaiting t.status ≡ true))
  note_status-keeps f f' t h = ground arith

  -- An incomplete task keeps its Goal incomplete to the end of the loop.
  scan-incomplete :
      (goal_id : String) (f f' : Flags) (ts : List Ticket)
      → f.complete ≡ false
      → scan_outcome fuel s goal_id f ts ≡ some f'
      → f'.complete ≡ false
  unfolding scan_outcome
  scan-incomplete goal_id f f' [] c h = rw (← some-injective f f' h) c
  scan-incomplete goal_id f f' (t ∷ ts) c h = elim (Bool-cases (t.goal_id == goal_id)) [
    | inr other ↦ scan-incomplete goal_id f f' ts c (rw other at h)
    | inl mine ↦
        let (f1, e1, h1) = >>=-eq-some (note_status fuel s f t) _ (rw mine at h) in
        let (f2, e2, h2) = >>=-eq-some (note_complete fuel s f1 t) _ h1 in
        scan-incomplete goal_id f2 f' ts (ground (arith, note_status-keeps f f1 t e1)) h2
  ]

  -- The flags of GoalOutcome say what GoalComplete returns.
  pub scan-complete :
      (goal_id : String) (f f' : Flags) (ts : List Ticket)
      → f.complete ≡ true
      → scan_outcome fuel s goal_id f ts ≡ some f'
      → complete_from fuel s goal_id f.has_tickets ts ≡ some (f'.has_tickets && f'.complete)
  unfolding scan_outcome complete_from
  scan-complete goal_id f f' [] c h = ground arith
  scan-complete goal_id f f' (t ∷ ts) c h = elim (Bool-cases (t.goal_id == goal_id)) [
    | inr other ↦ rw other (scan-complete goal_id f f' ts c (rw other at h))
    | inl mine ↦
        let (f1, e1, h1) = >>=-eq-some (note_status fuel s f t) _ (rw mine at h) in
        let (f2, e2, h2) = >>=-eq-some (note_complete fuel s f1 t) _ h1 in
        let (done, e3, h3) = >>=-eq-some (ticket_complete fuel s t.id) _ e2 in
        let k = note_status-keeps f f1 t e1 in
        rw (mine, e3)
          (answer done f1 f2 (k.0 ∙ c) k.1 h3 h2 (λ d. scan-complete goal_id f2 f' ts d h2))
  ]
    where
      answer :
          (done : Bool) (f1 f2 : Flags)
          → f1.complete ≡ true
          → f1.has_tickets ≡ true
          → some (if not done then record f1 { complete = false } else f1) ≡ some f2
          → scan_outcome fuel s goal_id f2 ts ≡ some f'
          → (f2.complete ≡ true
              → complete_from fuel s goal_id f2.has_tickets ts
                ≡ some (f'.has_tickets && f'.complete))
          → (if not done then some false else complete_from fuel s goal_id true ts)
            ≡ some (f'.has_tickets && f'.complete)
      answer true f1 f2 c1 has e h2 ih = ground (arith, ih)
      answer false f1 f2 c1 has e h2 ih =
          ground (arith, scan-incomplete goal_id f2 f' ts (ground arith) h2)

  parked-incomplete :
      (n : ℕ) (t : Ticket) (d : Bool)
      → get t.id s.tickets ≡ some t
      → is_awaiting t.status ≡ true
      → ticket_complete n s t.id ≡ some d
      → d ≡ false
  unfolding ticket_complete
  parked-incomplete zero t d filed a e = absurd (none-ne-some d e)
  parked-incomplete (suc n) t d filed a e = ground arith

  -- A parked task is not complete, so a Goal that has one is not.
  pub scan-parked :
      (goal_id : String) (f f' : Flags) (ts : List Ticket)
      → All (λ t. get t.id s.tickets ≡ some t) ts
      → ((f.is_parked ≡ false) ⊎ (f.complete ≡ false))
      → scan_outcome fuel s goal_id f ts ≡ some f'
      → (f'.is_parked ≡ false) ⊎ (f'.complete ≡ false)
  unfolding scan_outcome
  scan-parked goal_id f f' [] filed c h = ground arith
  scan-parked goal_id f f' (t ∷ ts) filed c h = elim (Bool-cases (t.goal_id == goal_id)) [
    | inr other ↦ scan-parked goal_id f f' ts filed.1 c (rw other at h)
    | inl mine ↦
        let (f1, e1, h1) = >>=-eq-some (note_status fuel s f t) _ (rw mine at h) in
        let (f2, e2, h2) = >>=-eq-some (note_complete fuel s f1 t) _ h1 in
        scan-parked goal_id f2 f' ts filed.1 (noted f1 f2 (note_status-keeps f f1 t e1) e2 c) h2
  ]
    where
      noted :
          (f1 f2 : Flags)
          → (f1.complete ≡ f.complete)
            × (f1.has_tickets ≡ true)
            × ((f1.is_parked ≡ f.is_parked) ⊎ (is_awaiting t.status ≡ true))
          → note_complete fuel s f1 t ≡ some f2
          → ((f.is_parked ≡ false) ⊎ (f.complete ≡ false))
          → (f2.is_parked ≡ false) ⊎ (f2.complete ≡ false)
      noted f1 f2 k e2 c =
          let (d, e3, h3) = >>=-eq-some (ticket_complete fuel s t.id) _ e2 in
          ground
            (arith, λ (a : is_awaiting t.status ≡ true). parked-incomplete fuel t d filed.0 a e3)
