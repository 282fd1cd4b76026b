-- ===== src/Scheduler/Waiting.antt =====
-- How long Run sleeps where only retry backoffs hold work back, and how long a backoff can be.
use age_of_agents.Base.{
  ℕ, zero, suc, ◌+◌, ◌-◌, ◌*◌, ◌≤◌, ◌<◌, Bool, true, false, ◌||◌, ◌≡◌, ◌≢◌, ◌⊎◌, inl, inr, refl,
  sym, ◌∙◌, ap, Option, none, some, some-injective, none-ne-some, true≢false, List, [], ◌∷◌, length,
  keep, eqb, ltb, leb, is_empty, if◌then◌else◌, arith, Bool-cases,
}
use age_of_agents.Base.Dict.{get}
use age_of_agents.State.Model.{Ticket}
use age_of_agents.Scheduler.Dispatch.{
  DispatchOptions, doubled, backoff_for, may_dispatch, dispatchable, sooner, wait_from,
  next_backoff_wait,
}

sooner-low :
    (acc : Option ℕ) (r w : ℕ)
    → ((a : ℕ) → sooner acc r ≡ some a → w ≤ a)
    → (w ≤ r) × ((a : ℕ) → acc ≡ some a → w ≤ a)
sooner-low none r w h = (h r refl, λ a e. absurd (none-ne-some _ e))
sooner-low (some b) r w h =
    let low = h (if ltb r b then r else b) refl in
    (ground (arith, low), λ a e. ground (arith, low, some-injective _ _ e))

sooner-is : (acc : Option ℕ) (r w : ℕ) → sooner acc r ≡ some w → (acc ≡ some w) ⊎ (r ≡ w)
sooner-is none r w h = inr (some-injective _ _ h)
sooner-is (some b) r w h = elim (Bool-cases (ltb r b)) [
  | inl less ↦ inr (some-injective _ _ (rw less at h))
  | inr more ↦ inl (rw more at h)
]

not_yet : (r v : ℕ) → v < r → leb r v ≡ false
not_yet r v h = ground arith

by_now : (r v : ℕ) → r ≡ v → leb r v ≡ true
by_now r v h = ground arith

keep-cons :
    (p : Ticket → Bool) (t : Ticket) (ts : List Ticket)
    → is_empty (keep p ts) ≡ false
    → is_empty (keep p (t ∷ ts)) ≡ false
keep-cons p t ts h = elim (Bool-cases (p t)) [ inl e ↦ rw e refl | inr e ↦ rw e h ]

module _ (o : DispatchOptions) (now : ℕ) where
  abbrev saturated : Ticket → Bool
  saturated t = leb o.best_of_n (length t.active_workers)

  abbrev remaining : Ticket → ℕ
  remaining t = (backoff_for o.retry_backoff t.attempts + t.last_activity) - now

  abbrev stops : Ticket → Bool
  stops t =
      ltb 0 (length t.active_workers)
      || eqb (backoff_for o.retry_backoff t.attempts) 0
      || eqb (remaining t) 0

  module _ (some_best : 0 < o.best_of_n) (some_backoff : 0 < o.retry_backoff) where
    saturated-may_dispatch :
        (t : Ticket) (v : ℕ) → saturated t ≡ true → may_dispatch o [] (now + v) t ≡ false
    unfolding may_dispatch get
    saturated-may_dispatch t v h = ground arith

    held-may_dispatch :
        (t : Ticket) (v : ℕ)
        → saturated t ≡ false
        → stops t ≡ false
        → may_dispatch o [] (now + v) t ≡ leb (remaining t) v
    unfolding may_dispatch get
    held-may_dispatch t v h k = ground arith

    -- The three ways that the loop goes on at a task.
    step-full :
        (acc : Option ℕ) (t : Ticket) (ts : List Ticket) {r : Option ℕ}
        → saturated t ≡ true
        → wait_from o now acc (t ∷ ts) ≡ r
        → wait_from o now acc ts ≡ r
    unfolding wait_from
    step-full acc t ts full h = rw full at h

    step-stop :
        (acc : Option ℕ) (t : Ticket) (ts : List Ticket) {r : Option ℕ}
        → saturated t ≡ false
        → stops t ≡ true
        → wait_from o now acc (t ∷ ts) ≡ r
        → none ≡ r
    unfolding wait_from
    step-stop acc t ts free stop h = rw (free, stop) at h

    step-go :
        (acc : Option ℕ) (t : Ticket) (ts : List Ticket) {r : Option ℕ}
        → saturated t ≡ false
        → stops t ≡ false
        → wait_from o now acc (t ∷ ts) ≡ r
        → wait_from o now (sooner acc (remaining t)) ts ≡ r
    unfolding wait_from
    step-go acc t ts free go h = rw (free, go) at h

    due :
        (acc : Option ℕ) (t : Ticket) (ts : List Ticket) (w : ℕ)
        → saturated t ≡ false
        → stops t ≡ false
        → (sooner acc (remaining t) ≡ some w)
          ⊎ (is_empty (keep (may_dispatch o [] (now + w)) ts) ≡ false)
        → (acc ≡ some w) ⊎ (is_empty (keep (may_dispatch o [] (now + w)) (t ∷ ts)) ≡ false)
    due acc t ts w free go (inr later) = inr (keep-cons (may_dispatch o [] (now + w)) t ts later)
    due acc t ts w free go (inl now_w) = elim (sooner-is acc (remaining t) w now_w) [
      | inl e ↦ inl e
      | inr e ↦ inr (rw (held-may_dispatch t w free go ∙ by_now (remaining t) w e) refl)
    ]

    wait_from_sound :
        (acc : Option ℕ) (ts : List Ticket) (w : ℕ)
        → wait_from o now acc ts ≡ some w
        → ((v : ℕ) → v < w → keep (may_dispatch o [] (now + v)) ts ≡ [])
          × ((acc ≡ some w) ⊎ (is_empty (keep (may_dispatch o [] (now + w)) ts) ≡ false))
          × ((a : ℕ) → acc ≡ some a → w ≤ a)
    unfolding wait_from
    wait_from_sound acc [] w h =
        ((λ v l. refl), inl h, (λ a e. omega (arith, some-injective _ _ (sym h ∙ e))))
    wait_from_sound acc (t ∷ ts) w h = elim (Bool-cases (saturated t)) [
      | inl full ↦
          let (before, at, low) = wait_from_sound acc ts w (step-full acc t ts full h) in
          (
            (λ v l. rw (saturated-may_dispatch t v full) (before v l)),
            rw (saturated-may_dispatch t w full) at,
            low,
          )
      | inr free ↦ elim (Bool-cases (stops t)) [
        | inl stop ↦ absurd (none-ne-some _ (step-stop acc t ts free stop h))
        | inr go ↦
            let (before, at, low) =
              wait_from_sound (sooner acc (remaining t)) ts w (step-go acc t ts free go h) in
            let (least, kept) = sooner-low acc (remaining t) w low in
            (
              (λ v l.
                  rw
                    (held-may_dispatch t v free go
                      ∙ not_yet (remaining t) v (omega (arith, l, least)))
                    (before v l)),
              due acc t ts w free go at,
              kept,
            )
      ]
    ]

doubled-bounded : (base n m : ℕ) → n ≤ m → doubled base n ≤ doubled base m
doubled-bounded base zero zero h = omega arith
doubled-bounded base zero (suc m) h = omega (arith, doubled-bounded base zero m (omega arith))
doubled-bounded base (suc n) zero h = absurd (omega arith)
doubled-bounded base (suc n) (suc m) h = omega (arith, doubled-bounded base n m (omega (arith, h)))

-- A backoff is at most 64 times the base, and does not shrink as attempts are made.
shift : ℕ → ℕ
shift a = if ltb 6 (a - 1) then 6 else a - 1

shift-bounded : (a b : ℕ) → a ≤ b → (shift a ≤ shift b) × (shift b ≤ 6)
unfolding shift
shift-bounded a b h = (ground arith, ground arith)

pub backoff_for-bounded :
    (base : ℕ) (a b : ℕ)
    → a ≤ b
    → (backoff_for base a ≤ backoff_for base b) × (backoff_for base b ≤ 64 * base)
unfolding backoff_for shift
backoff_for-bounded base a b h =
    let (up, cap) = shift-bounded a b h in
    let grows = doubled-bounded base (shift a) (shift b) up in
    let capped = doubled-bounded base (shift b) 6 cap in
    (ground (arith, grows, h), ground (arith, capped))

-- Where no attempt is under way, BestOfN and RetryBackoff are positive and nextBackoffWait returns a
-- time, no ready task may be dispatched before that time has passed, and one may be then.
pub next_backoff_wait_exact :
    (o : DispatchOptions) (ready : List Ticket) (now : ℕ) {w : ℕ}
    → 0 < o.best_of_n
    → next_backoff_wait o ready now ≡ some w
    → ((v : ℕ) → (dispatchable o [] ready (now + v) ≡ []) ⊎ (w ≤ v))
      × (dispatchable o [] ready (now + w) ≢ [])
unfolding next_backoff_wait dispatchable
next_backoff_wait_exact o ready now {w} best h = elim (Bool-cases (eqb o.retry_backoff 0)) [
  | inl off ↦ absurd (none-ne-some w (rw off at h))
  | inr on ↦
      let (before, at, low) = wait_from_sound o now best (ground arith) none ready w (rw on at h) in
      (
        (λ v. elim (Bool-cases (ltb v w)) [
          | inl early ↦ inl (before v (ground arith))
          | inr late ↦ inr (ground arith)
        ]),
        nonempty at,
      )
]
  where
    nonempty :
        (◌≡◌ {A = Option ℕ} none (some w))
          ⊎ (is_empty (keep (may_dispatch o [] (now + w)) ready) ≡ false)
        → keep (may_dispatch o [] (now + w)) ready ≢ []
    nonempty (inl e) q = none-ne-some w e
    nonempty (inr e) q = absurd (true≢false (sym (ap is_empty q) ∙ e))
