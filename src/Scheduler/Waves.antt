-- ===== src/Scheduler/Waves.antt =====
-- How many attempts one pass of the Scheduler leaves under way.
use age_of_agents.Base.{
  ℕ, zero, suc, ◌+◌, ◌-◌, ◌≤◌, String, ◌==◌, Bool, true, false, ◌≡◌, refl, none, List, [], ◌∷◌,
  length, take, max, get_or, if◌then◌else◌, arith, eq_iff, ◌⊎◌, inl, inr, All, is_some, Bool-cases,
  subst, keep,
}
use age_of_agents.Base.Dict.{Dict, get, bump, get-put, Distinct}
use age_of_agents.State.Model.{Ticket, State}
use age_of_agents.Scheduler.Dispatch.{
  DispatchOptions, may_dispatch, dispatchable, active_attempts, wave, mark_dispatching,
}

bump-get :
    (k j : String) (f : Dict ℕ)
    → get_or (get j (bump k 1 f)) 0
      ≡ (if k == j then suc (get_or (get j f) 0) else get_or (get j f) 0)
unfolding bump
bump-get k j f = ground (arith, get-put k j (get_or (get k f) 0 + 1) f, eq_iff k j)

-- How many attempts there are of all the tasks, with so many of each.
abbrev pub total_of : (String → ℕ) → Dict Ticket → ℕ
total_of running [] = 0
total_of running ((k, t) ∷ m) = running k + total_of running m

-- How many of these tasks have the id.
abbrev pub starts : List Ticket → String → ℕ
starts [] k = 0
starts (t ∷ ts) k = (if t.id == k then 1 else 0) + starts ts k

-- The attempts of a task that run are all in the log or all in the process.
abbrev pub IsSeen : Dict ℕ → (String → ℕ) → Dict Ticket → Type 0
IsSeen f running [] = Unit
IsSeen f running ((k, t) ∷ m) =
    ((running k ≤ length t.active_workers) ⊎ (running k ≤ get_or (get k f) 0)) × IsSeen f running m

-- No count of attempts that run is above the one that the slots are computed from.
total_of-active_attempts :
    (f : Dict ℕ) (running : String → ℕ) (m : Dict Ticket)
    → IsSeen f running m
    → total_of running m ≤ active_attempts f m
unfolding active_attempts
total_of-active_attempts f running [] h = omega arith
total_of-active_attempts f running ((k, t) ∷ m) (inl h, seen) =
    ground (arith, h, total_of-active_attempts f running m seen)
total_of-active_attempts f running ((k, t) ∷ m) (inr h, seen) =
    ground (arith, h, total_of-active_attempts f running m seen)

module _ (running : String → ℕ) (id : String) where
  abbrev more : String → ℕ
  more k = running k + (if id == k then 1 else 0)

  total_of-absent : (m : Dict Ticket) → get id m ≡ none → total_of more m ≡ total_of running m
  unfolding get
  total_of-absent [] h = refl
  total_of-absent ((k, t) ∷ m) h =
      ground (arith, eq_iff id k, eq_iff k id, total_of-absent m (ground (arith, h)))

  -- One more attempt of a task that stands once in the state.
  total_of-more :
      (m : Dict Ticket)
      → Distinct m
      → is_some (get id m) ≡ true
      → total_of more m ≡ suc (total_of running m)
  unfolding get
  total_of-more [] d h = absurd (cc)
  total_of-more ((k, t) ∷ m) d h = elim (Bool-cases (k == id)) [
    | inl same ↦ ground (
      arith,
      same,
      eq_iff id k,
      eq_iff k id,
      total_of-absent m (subst (λ j. get j m ≡ none) ((eq_iff k id).0 same) d.0),
    )
    | inr other ↦
        ground (arith, other, eq_iff id k, eq_iff k id, total_of-more m d.1 (rw other at h))
  ]

total_of-cong :
    (f g : String → ℕ) (m : Dict Ticket) → ((k : String) → f k ≡ g k) → total_of f m ≡ total_of g m
total_of-cong f g [] h = refl
total_of-cong f g ((k, t) ∷ m) h = omega (arith, h k, total_of-cong f g m h)

-- Every one of these tasks is in the state.
abbrev pub IsIn : Dict Ticket → List Ticket → Type 0
IsIn m ts = All (λ t. is_some (get t.id m) ≡ true) ts

total_of-starts :
    (ts : List Ticket) (running : String → ℕ) (m : Dict Ticket)
    → Distinct m
    → IsIn m ts
    → total_of (λ k. running k + starts ts k) m ≡ length ts + total_of running m
total_of-starts [] running m d h =
    omega (arith, total_of-cong (λ k. running k + 0) running m (λ k. omega arith))
total_of-starts (t ∷ ts) running m d h = omega (
  arith,
  total_of-cong (λ k. running k + starts (t ∷ ts) k)
      (λ k. (running k + (if t.id == k then 1 else 0)) + starts ts k) m (λ k. omega arith),
  total_of-starts ts (more running t.id) m d h.1,
  total_of-more running t.id m d h.0,
)

mark_dispatching-get :
    (ts : List Ticket) (f : Dict ℕ) (k : String)
    → get_or (get k (mark_dispatching f ts)) 0 ≡ get_or (get k f) 0 + starts ts k
unfolding mark_dispatching
mark_dispatching-get [] f k = omega arith
mark_dispatching-get (t ∷ ts) f k =
    ground (arith, mark_dispatching-get ts (bump t.id 1 f) k, bump-get t.id k f)

length-take : (n : ℕ) (ts : List Ticket) → length (take n ts) ≤ n
length-take zero ts = omega arith
length-take (suc n) [] = omega arith
length-take (suc n) (t ∷ ts) = omega (arith, length-take n ts)

IsIn-take : (n : ℕ) (m : Dict Ticket) (ts : List Ticket) → IsIn m ts → IsIn m (take n ts)
IsIn-take zero m ts h = tt
IsIn-take (suc n) m [] h = tt
IsIn-take (suc n) m (t ∷ ts) h = (h.0, IsIn-take n m ts h.1)

IsIn-keep :
    (p : Ticket → Bool) (m : Dict Ticket) (ts : List Ticket) → IsIn m ts → IsIn m (keep p ts)
IsIn-keep p m [] h = tt
IsIn-keep p m (t ∷ ts) h = elim (Bool-cases (p t)) [
  | inl kept ↦ rw kept (h.0, IsIn-keep p m ts h.1)
  | inr left ↦ rw left (IsIn-keep p m ts h.1)
]

-- Take any count of the attempts of each task that run, of which those in the log, or those in the
-- process, are at least as many. If every task stands once in the state and the ready ones stand in it,
-- the attempts that a pass starts are added to the count one for one; together they are no more than the
-- concurrency limit, or than ran before where that were more; the process's own count of every task grows
-- by the attempts started of it; and none is started where the spend budget has stopped.
pub wave-bounded :
    (o : DispatchOptions) (in_flight : Dict ℕ) (s : State) (ready : List Ticket) (now : ℕ)
    (running : String → ℕ)
    → Distinct s.tickets
    → IsIn s.tickets ready
    → IsSeen in_flight running s.tickets
    → let chosen = wave o in_flight false s ready now in
      (total_of (λ k. running k + starts chosen k) s.tickets
        ≡ length chosen + total_of running s.tickets)
      × (total_of (λ k. running k + starts chosen k) s.tickets
          ≤ max o.concurrency (total_of running s.tickets))
      × ((k : String)
          → get_or (get k (mark_dispatching in_flight chosen)) 0
            ≡ get_or (get k in_flight) 0 + starts chosen k)
      × (wave o in_flight true s ready now ≡ [])
unfolding wave dispatchable
wave-bounded o in_flight s ready now running d stored seen =
    let slots = o.concurrency - active_attempts in_flight s.tickets in
    let able = dispatchable o in_flight ready now in
    let inside =
      IsIn-take slots s.tickets able
        (IsIn-keep (may_dispatch o in_flight now) s.tickets ready stored) in
    let grown = total_of-starts (take slots able) running s.tickets d inside in
    (
      grown,
      omega (
        arith,
        grown,
        length-take slots able,
        total_of-active_attempts in_flight running s.tickets seen,
      ),
      mark_dispatching-get (take slots able) in_flight,
      refl,
    )
