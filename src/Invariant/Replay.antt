-- ===== src/Invariant/Replay.antt =====
-- What the checks of the log's numbering and of its replay promise.
use age_of_agents.Base.{
  ℕ, zero, suc, ◌+◌, true, ◌≡◌, refl, subst, ap, ◌↔◌, inl, inr, List, [], ◌∷◌, map, length, eqb,
  arith, Bool-cases,
}
use age_of_agents.Api.Event.{Event}
use age_of_agents.State.Model.{State, new}
use age_of_agents.State.Apply.{Result, ok, err, ◌>>=◌, apply, fold_from, fold}
use age_of_agents.State.Replay.{is_ok}
use age_of_agents.Invariant.{
  Violation, seq_from, monotonic_gapless_seq, first, replay_from, prefix_fails,
  replay_deterministic_and_total,
}

-- The `n` numbers from `i` on.
abbrev pub count_up : ℕ → ℕ → List ℕ
count_up i zero = []
count_up i (suc n) = i ∷ count_up (suc i) n

seqs_from :
    (i : ℕ) (es : List Event)
    → (seq_from i es ≡ []) ↔ (map (λ e. e.seq) es ≡ count_up (suc i) (length es))
unfolding seq_from
seqs_from i [] = ((λ h. refl), λ h. refl)
seqs_from i (e ∷ es) =
    let ih = seqs_from (suc i) es in
    elim (Bool-cases (eqb e.seq (suc i))) [
      | inl same ↦
          let at : e.seq ≡ suc i = ground arith in
          (
            (λ h. rw at (ap (λ xs. suc i ∷ xs) (ih.0 (rw same at h)))),
            λ h.
                let tail : map (λ x. x.seq) es ≡ count_up (suc (suc i)) (length es) = cc in
                rw same (ih.1 tail),
          )
      | inr differs ↦
          ((λ h. absurd (ground arith)), λ h. let at : e.seq ≡ suc i = cc in absurd (ground arith))
    ]

-- The log has no gap: MonotonicGaplessSeq reports nothing exactly if the sequence numbers are 1 to N in
-- order.
pub monotonic_gapless_exact :
    (es : List Event)
    → (monotonic_gapless_seq es ≡ []) ↔ (map (λ e. e.seq) es ≡ count_up 1 (length es))
unfolding monotonic_gapless_seq
monotonic_gapless_exact es = seqs_from 0 es

first-is_ok :
    (k : ℕ) (es : List Event) (s : State)
    → is_ok (fold_from es s) ≡ true
    → is_ok (fold_from (first k es) s) ≡ true
unfolding fold_from
first-is_ok zero es s h = refl
first-is_ok (suc k) [] s h = refl
first-is_ok (suc k) (e ∷ es) s h =
    elim (apply e s)
        as (λ x. is_ok (x >>= fold_from es) ≡ true → is_ok (x >>= fold_from (first k es)) ≡ true) [
          | ok t ↦ λ m. first-is_ok k es t m
          | err x ↦ λ m. m
        ]
      h

first-length : (es : List Event) → first (length es) es ≡ es
first-length [] = refl
first-length (e ∷ es) = ap (λ xs. e ∷ xs) (first-length es)

replay_from-none :
    (n k : ℕ) (es : List Event)
    → ((j : ℕ) → is_ok (fold (first j es)) ≡ true)
    → replay_from n k es ≡ []
unfolding replay_from
replay_from-none zero k es h = refl
replay_from-none (suc n) k es h =
    let ih = replay_from-none n (suc k) es h in
    elim (fold (first k es))
        as (λ x.
          is_ok x ≡ true
          → ◌≡◌ {A = List Violation}
              (elim x [ ok s ↦ replay_from n (suc k) es | err e ↦ prefix_fails k e ∷ [] ]) []) [
                | ok s ↦ λ m. ih
                | err e ↦ λ m. absurd (cc)
              ]
      (h k)

replay_from-cases :
    (n k : ℕ) (es : List Event) (x : Result State)
    → ◌≡◌ {A = List Violation}
        (elim x [ ok s ↦ replay_from n (suc k) es | err e ↦ prefix_fails k e ∷ [] ])
        []
    → (is_ok x ≡ true) × (replay_from n (suc k) es ≡ [])
replay_from-cases n k es (ok s) h = (refl, h)
replay_from-cases n k es (err e) h = absurd (cc)

replay_from-last :
    (n k : ℕ) (es : List Event)
    → replay_from (suc n) k es ≡ []
    → is_ok (fold (first (k + n) es)) ≡ true
unfolding replay_from
replay_from-last zero k es h =
    let at : k + 0 ≡ k = omega arith in rw at (replay_from-cases zero k es (fold (first k es)) h).0
replay_from-last (suc n) k es h =
    let at : k + suc n ≡ suc k + n = omega arith in
    rw at (replay_from-last n (suc k) es (replay_from-cases (suc n) k es (fold (first k es)) h).1)

-- The replay is total: ReplayDeterministicAndTotal, which folds every prefix of the log, reports nothing
-- exactly if the whole log folds.
pub replay_total_exact :
    (es : List Event) → (replay_deterministic_and_total es ≡ []) ↔ (is_ok (fold es) ≡ true)
unfolding replay_deterministic_and_total
replay_total_exact es =
    let start : 0 + length es ≡ length es = omega arith in
    (
      (λ h.
          subst (λ xs. is_ok (fold xs) ≡ true) (first-length es)
            (subst (λ n. is_ok (fold (first n es)) ≡ true) start
              (replay_from-last (length es) 0 es h))),
      λ h. replay_from-none (suc (length es)) 0 es (λ j. unfold fold in first-is_ok j es new h),
    )
