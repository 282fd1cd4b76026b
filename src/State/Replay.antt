-- ===== src/State/Replay.antt =====
-- The replay as a whole: which logs fold, and folding a log in parts.
use age_of_agents.Base.{ℕ, Bool, true, false, ◌&&◌, ◌≡◌, refl, ◌∙◌, List, [], ◌∷◌, ◌++◌, All}
use age_of_agents.Api.EventType.{EventType, verification_passed, regression_escaped, worker_stalled}
use age_of_agents.Api.Event.{Event, Body}
use age_of_agents.State.Model.{State}
use age_of_agents.State.Spend.{charge_of}
use age_of_agents.State.Apply.{
  Result, ok, err, ◌>>=◌, apply_undecoded, apply_body, charge_if, apply, fold_from,
}
use age_of_agents.State.Budget.Replay.{is_snapshot}

abbrev pub is_ok : Result State → Bool
is_ok (ok s) = true
is_ok (err e) = false

-- The replay reads no payload of these types.
abbrev pub needs_no_payload : EventType → Bool
needs_no_payload verification_passed = true
needs_no_payload regression_escaped = true
needs_no_payload worker_stalled = true
needs_no_payload _ = false

-- The payload decodes, or is not read.
abbrev pub is_readable : Body → Bool
is_readable (Body.undecoded t) = needs_no_payload t
is_readable _ = true

abbrev pub all_readable : List Event → Bool
all_readable [] = true
all_readable (e ∷ es) = is_readable e.body && all_readable es

-- A log that is folded in two parts is folded as a whole, errors included.
pub fold_from-append :
    (es fs : List Event) (s : State) → fold_from (es ++ fs) s ≡ (fold_from es s >>= fold_from fs)
unfolding fold_from
fold_from-append [] fs s = refl
fold_from-append (e ∷ es) fs s =
    elim (apply e s)
      as (λ x. (x >>= fold_from (es ++ fs)) ≡ ((x >>= fold_from es) >>= fold_from fs)) [
        | ok t ↦ fold_from-append es fs t
        | err x ↦ refl
      ]

undecoded-is_ok :
    (seq ts : ℕ) (t : EventType) (s : State)
    → is_ok (apply_undecoded seq ts t s) ≡ needs_no_payload t
undecoded-is_ok seq ts verification_passed s = refl
undecoded-is_ok seq ts _ s = refl

apply_body-is_ok :
    (seq ts : ℕ) (b : Body) (s : State)
    → is_snapshot b ≡ false
    → is_ok (apply_body seq ts b s) ≡ is_readable b
unfolding apply_body
apply_body-is_ok seq ts (Body.state_snapshot u) s h = absurd (cc)
apply_body-is_ok seq ts (Body.undecoded t) s h = undecoded-is_ok seq ts t s
apply_body-is_ok seq ts _ s h = refl

finish-is_ok : (x : Result State) (f : State → State) → is_ok (x >>= λ t. ok (f t)) ≡ is_ok x
finish-is_ok (ok t) f = refl
finish-is_ok (err e) f = refl

apply-is_ok :
    (e : Event) (s : State) → is_snapshot e.body ≡ false → is_ok (apply e s) ≡ is_readable e.body
unfolding apply
apply-is_ok e s h =
    finish-is_ok (apply_body e.seq e.timestamp e.body s)
      (λ t. record (charge_if (charge_of e) t) { last_seq = e.seq })
    ∙ apply_body-is_ok e.seq e.timestamp e.body s h

-- The replay is total on what it can read: a log without snapshots folds, from any state, exactly when
-- the payload of each event decodes or is of a type whose payload the replay does not read.
pub fold_from-is_ok :
    (es : List Event) (s : State)
    → All (λ e. is_snapshot e.body ≡ false) es
    → is_ok (fold_from es s) ≡ all_readable es
unfolding fold_from
fold_from-is_ok [] s h = refl
fold_from-is_ok (e ∷ es) s h =
    elim (apply e s)
        as (λ x.
          is_ok x ≡ is_readable e.body → is_ok (x >>= fold_from es) ≡ all_readable (e ∷ es)) [
            | ok t ↦ λ k. rw (← k) (fold_from-is_ok es t h.1)
            | err x ↦ λ k. rw (← k)
          ]
      (apply-is_ok e s h.0)
