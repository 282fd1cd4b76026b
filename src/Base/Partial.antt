-- ===== src/Base/Partial.antt =====
-- Recursions that may run out of fuel return an `Option`: `none` says only that the fuel ran out. The
-- loops over a list with an early return, and what they find.
use mathlib.Core.Path.{◌≡◌, refl, sym, ap, ◌∙◌, subst}
use mathlib.Core.Logic.{◌⊎◌, ◌↔◌, inl, inr}
use mathlib.Core.Bool.{Bool, true, false, true≢false}
use mathlib.Core.Option.{Option, none, some, some-injective, none-ne-some}
use mathlib.Core.List.{List, [], ◌∷◌}
use native.Mathlib.Omega.{arith}
use age_of_agents.Base.Tests.{if◌then◌else◌, Option-cases, is_some}
use age_of_agents.Base.Lists.{All}

infixl 5 ◌>>=◌
abbrev pub ◌>>=◌ {ℓ κ} : {A : Type ℓ} {B : Type κ} → Option A → (A → Option B) → Option B
none >>= f = none
some a >>= f = f a

-- A step that returns has a step before it that returned.
pub >>=-eq-some {ℓ κ} :
    {A : Type ℓ} {B : Type κ} (m : Option A) (f : A → Option B) {b : B}
    → (m >>= f) ≡ some b
    → (a : A) × (m ≡ some a) × (f a ≡ some b)
>>=-eq-some none f h = absurd (none-ne-some _ h)
>>=-eq-some (some a) f h = (a, refl, h)

pub is_some-answers {ℓ} : {A : Type ℓ} (m : Option A) → is_some m ≡ true → (a : A) × (m ≡ some a)
is_some-answers none h = absurd (cc)
is_some-answers (some a) h = (a, refl)

abbrev pub Elem : {A : Type 0} → A → List A → Type 0
Elem x [] = ⊥
Elem x (y ∷ ys) = (y ≡ x) ⊎ Elem x ys

module _ {ℓ} {A : Type ℓ} where
  -- for … { if !p(x) { return false } }; return true
  unfoldable pub all_of : (A → Option Bool) → List A → Option Bool
  all_of p [] = some true
  all_of p (x ∷ xs) = p x >>= λ b. let rest = all_of p xs in if b then rest else some false

  -- for … { if p(x) { return true } }; return false
  unfoldable pub any_of : (A → Option Bool) → List A → Option Bool
  any_of p [] = some false
  any_of p (x ∷ xs) = p x >>= λ b. let rest = any_of p xs in if b then some true else rest

  -- for … { if p(x) { out = append(out, x) } }
  unfoldable pub select : (A → Option Bool) → List A → Option (List A)
  select p [] = some []
  select p (x ∷ xs) = do b ← p x; rest ← select p xs; some (if b then x ∷ rest else rest)

  pub all_of-true :
      (p : A → Option Bool) (xs : List A) → all_of p xs ≡ some true → All (λ x. p x ≡ some true) xs
  unfolding all_of
  all_of-true p [] h = tt
  all_of-true p (x ∷ xs) h = elim (Option-cases (p x)) [
    | inl e ↦ absurd (cc)
    | inr (true, e) ↦ (e, all_of-true p xs (rw e at h))
    | inr (false, e) ↦ absurd (ground arith)
  ]

  pub true-all_of :
      (p : A → Option Bool) (xs : List A) → All (λ x. p x ≡ some true) xs → all_of p xs ≡ some true
  unfolding all_of
  true-all_of p [] h = refl
  true-all_of p (x ∷ xs) h = rw h.0 (true-all_of p xs h.1)

  -- A loop whose test answers on every element answers.
  pub all_of-total :
      (p : A → Option Bool) (xs : List A)
      → All (λ x. (b : Bool) × (p x ≡ some b)) xs
      → (b : Bool) × (all_of p xs ≡ some b)
  unfolding all_of
  all_of-total p [] h = (true, refl)
  all_of-total p (x ∷ xs) ((true, e), h) = let (b, k) = all_of-total p xs h in (b, rw e k)
  all_of-total p (x ∷ xs) ((false, e), h) = (false, rw e)

  pub any_of-total :
      (p : A → Option Bool) (xs : List A)
      → All (λ x. (b : Bool) × (p x ≡ some b)) xs
      → (b : Bool) × (any_of p xs ≡ some b)
  unfolding any_of
  any_of-total p [] h = (false, refl)
  any_of-total p (x ∷ xs) ((true, e), h) = (true, rw e)
  any_of-total p (x ∷ xs) ((false, e), h) = let (b, k) = any_of-total p xs h in (b, rw e k)

  pub select-total :
      (p : A → Option Bool) (xs : List A)
      → ((x : A) → (b : Bool) × (p x ≡ some b))
      → (out : List A) × (select p xs ≡ some out)
  unfolding select
  select-total p [] h = ([], refl)
  select-total p (x ∷ xs) h =
      let (b, e) = h x in
      let (rest, k) = select-total p xs h in ((if b then x ∷ rest else rest), rw (e, k))

module _ {A : Type 0} where
  pub any_of-true :
      (p : A → Option Bool) (xs : List A)
      → any_of p xs ≡ some true
      → (x : A) × Elem x xs × (p x ≡ some true)
  unfolding any_of
  any_of-true p [] h = absurd (cc)
  any_of-true p (x ∷ xs) h = elim (Option-cases (p x)) [
    | inl e ↦ absurd (cc)
    | inr (true, e) ↦ (x, inl refl, e)
    | inr (false, e) ↦ let (y, m, k) = any_of-true p xs (rw e at h) in (y, inr m, k)
  ]

  passed_on :
      (p : A → Option Bool) (x a : A) (xs rest : List A)
      → p x ≡ some true
      → Elem a rest ↔ (Elem a xs × (p a ≡ some true))
      → Elem a (x ∷ rest) ↔ (Elem a (x ∷ xs) × (p a ≡ some true))
  passed_on p x a xs rest e ih = (there, back)
    where
      there : Elem a (x ∷ rest) → Elem a (x ∷ xs) × (p a ≡ some true)
      there (inl same) = (inl same, subst (λ y. p y ≡ some true) same e)
      there (inr m) = (inr (ih.0 m).0, (ih.0 m).1)

      back : Elem a (x ∷ xs) × (p a ≡ some true) → Elem a (x ∷ rest)
      back (inl same, k) = inl same
      back (inr m, k) = inr (ih.1 (m, k))

  dropped :
      (p : A → Option Bool) (x a : A) (xs rest : List A)
      → p x ≡ some false
      → Elem a rest ↔ (Elem a xs × (p a ≡ some true))
      → Elem a rest ↔ (Elem a (x ∷ xs) × (p a ≡ some true))
  dropped p x a xs rest e ih = (there, back)
    where
      there : Elem a rest → Elem a (x ∷ xs) × (p a ≡ some true)
      there m = (inr (ih.0 m).0, (ih.0 m).1)

      back : Elem a (x ∷ xs) × (p a ≡ some true) → Elem a rest
      back (inl same, k) =
          absurd (true≢false (some-injective true false (sym k ∙ ap p (sym same) ∙ e)))
      back (inr m, k) = ih.1 (m, k)

  pub all_of-false :
      (p : A → Option Bool) (xs : List A)
      → all_of p xs ≡ some false
      → (x : A) × Elem x xs × (p x ≡ some false)
  unfolding all_of
  all_of-false p [] h = absurd (cc)
  all_of-false p (x ∷ xs) h = elim (Option-cases (p x)) [
    | inl e ↦ absurd (cc)
    | inr (false, e) ↦ (x, inl refl, e)
    | inr (true, e) ↦ let (y, m, k) = all_of-false p xs (rw e at h) in (y, inr m, k)
  ]

  pub any_of-false :
      (p : A → Option Bool) (xs : List A)
      → any_of p xs ≡ some false
      → (x : A) → Elem x xs
      → p x ≡ some false
  unfolding any_of
  any_of-false p [] h x m = absurd m
  any_of-false p (y ∷ ys) h x m = elim (Option-cases (p y)) [
    | inl e ↦ absurd (cc)
    | inr (true, e) ↦ absurd (ground arith)
    | inr (false, e) ↦ elim m [
      | inl same ↦ subst (λ z. p z ≡ some false) same e
      | inr later ↦ any_of-false p ys (rw e at h) x later
    ]
  ]

  -- What the loop collects: the elements that pass, and no others.
  pub select_iff :
      (p : A → Option Bool) (xs out : List A) (a : A)
      → select p xs ≡ some out
      → Elem a out ↔ (Elem a xs × (p a ≡ some true))
  unfolding select
  select_iff p [] out a h =
      let e : out ≡ [] = sym (some-injective [] out h) in (λ m. absurd (rw e at m), λ m. absurd m.0)
  select_iff p (x ∷ xs) out a h =
      split (p x) (select p xs) refl refl (λ rest k. select_iff p xs rest a k) h
    where
      split :
          (o : Option Bool) (r : Option (List A))
          → p x ≡ o
          → select p xs ≡ r
          → ((rest : List A)
              → select p xs ≡ some rest
              → Elem a rest ↔ (Elem a xs × (p a ≡ some true)))
          → (o >>= λ b. r >>= λ rest. some (if b then x ∷ rest else rest)) ≡ some out
          → Elem a out ↔ (Elem a (x ∷ xs) × (p a ≡ some true))
      split none r e f ih k = absurd (none-ne-some out k)
      split (some b) none e f ih k = absurd (none-ne-some out k)
      split (some true) (some rest) e f ih k =
          rw (sym (some-injective _ out k)) (passed_on p x a xs rest e (ih rest f))
      split (some false) (some rest) e f ih k =
          rw (sym (some-injective _ out k)) (dropped p x a xs rest e (ih rest f))

  -- A loop that ends has asked every element.
  pub select-answers :
      (p : A → Option Bool) (xs out : List A) (a : A)
      → select p xs ≡ some out
      → Elem a xs
      → (b : Bool) × (p a ≡ some b)
  unfolding select
  select-answers p [] out a h m = absurd m
  select-answers p (x ∷ xs) out a h m = elim (Option-cases (p x)) [
    | inl e ↦ absurd (cc)
    | inr (b, e) ↦ elim (Option-cases (select p xs)) [
      | inl k ↦ absurd (none-ne-some out (rw (e, k) at h))
      | inr (rest, k) ↦ elim m [
        | inl same ↦ (b, subst (λ y. p y ≡ some b) same e)
        | inr later ↦ select-answers p xs rest a k later
      ]
    ]
  ]
