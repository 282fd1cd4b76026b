-- ===== src/Invariant/Scan.antt =====
-- When a loop over the log finds nothing.
use age_of_agents.Base.{
  ◌≡◌, refl, sym, ap, subst, ◌↔◌, ◌⊎◌, inl, inr, List, [], ◌∷◌, ◌++◌, String, Bool, ◌&&◌, ◌||◌,
  ◌==◌, false,
}
use age_of_agents.Api.EventType.{EventType}
use age_of_agents.Api.Event.{Event, event_type, ticket_id}
use age_of_agents.Invariant.{Violation, scan}

-- The log has an event that, with the events before it, is a breach.
abbrev pub Breach : (List Event → Event → Type 0) → List Event → Type 0
Breach P es =
    (pre : List Event) × (e : Event) × (post : List Event) × (es ≡ pre ++ e ∷ post) × P pre e

-- What a loop keeps of the events that it has seen.
abbrev pub run : {S : Type 0} → (S → Event → S) → S → List Event → S
run step s [] = s
run step s (e ∷ es) = run step (step s e) es

-- Some event of the log is of such a type and about this task.
abbrev pub has : (EventType → Bool) → String → List Event → Bool
has is id [] = false
has is id (e ∷ es) = (is (event_type e.body) && ticket_id e == id) || has is id es

append-nil : (vs ws : List Violation) → vs ++ ws ≡ [] → (vs ≡ []) × (ws ≡ [])
append-nil [] ws h = (refl, h)
append-nil (v ∷ vs) ws h = absurd (cc)

no_split : (pre : List Event) (e : Event) (post : List Event) → [] ≡ pre ++ e ∷ post → ⊥
no_split [] e post h = cc
no_split (x ∷ pre) e post h = cc

module _ {S : Type 0} (check : S → Event → List Violation) (step : S → Event → S) where
  scan-cons :
      (P : List Event → Event → Type 0) (s : S) (e : Event) (es : List Event)
      → ((check s e ≡ []) ⊎ P [] e)
      → (check s e ≡ [] → P [] e → ⊥)
      → (scan check step (step s e) es ≡ []) ↔ (Breach (λ pre. P (e ∷ pre)) es → ⊥)
      → (check s e ++ scan check step (step s e) es ≡ []) ↔ (Breach P (e ∷ es) → ⊥)
  scan-cons P s e es dec sound ih = (there, back)
    where
      there : check s e ++ scan check step (step s e) es ≡ [] → Breach P (e ∷ es) → ⊥
      there h ([], e', post, same, p) =
          let at : e ≡ e' = cc in sound (append-nil (check s e) _ h).0 (subst (P []) (sym at) p)
      there h (x ∷ pre, e', post, same, p) =
          let at : e ≡ x = cc in
          ih.0 (append-nil (check s e) _ h).1
            (pre, e', post, cc, subst (λ y. P (y ∷ pre) e') (sym at) p)

      back : (Breach P (e ∷ es) → ⊥) → check s e ++ scan check step (step s e) es ≡ []
      back none = elim dec [
        | inl k ↦ rw k (ih.1 (λ b. none (e ∷ b.0, b.1, b.2, ap (λ xs. e ∷ xs) b.3, b.4)))
        | inr p ↦ absurd (none ([], e, es, refl, p))
      ]

  -- A loop finds nothing exactly if there is no breach, when its test finds exactly the breaches.
  pub scan-clean :
      (P : List Event → Event → Type 0) (s : S) (es : List Event)
      → ((pre : List Event) (e : Event) → (check (run step s pre) e ≡ []) ⊎ P pre e)
      → ((pre : List Event) (e : Event) → check (run step s pre) e ≡ [] → P pre e → ⊥)
      → (scan check step s es ≡ []) ↔ (Breach P es → ⊥)
  unfolding scan
  scan-clean P s [] dec sound = ((λ h b. no_split b.0 b.1 b.2 b.3), λ h. refl)
  scan-clean P s (e ∷ es) dec sound = scan-cons P s e es (dec [] e) (sound [] e) (
      scan-clean (λ pre. P (e ∷ pre)) (step s e) es (λ pre. dec (e ∷ pre)) (λ pre. sound (e ∷ pre)))
