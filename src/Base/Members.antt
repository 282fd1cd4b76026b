-- ===== src/Base/Members.antt =====
-- Membership in the lists that the library's functions build.
use mathlib.Core.Path.{◌≡◌, refl, sym, subst}
use mathlib.Core.Logic.{◌⊎◌, ◌↔◌, inl, inr}
use mathlib.Core.Bool.{Bool, true}
use mathlib.Core.List.{List, [], ◌∷◌, ◌++◌, map}
use age_of_agents.Base.Tests.{if◌then◌else◌, Bool-cases}
use age_of_agents.Base.Lists.{keep}
use age_of_agents.Base.Partial.{Elem}

module _ {A : Type 0} where
  pub Elem-append : (a : A) (xs ys : List A) → Elem a (xs ++ ys) ↔ (Elem a xs ⊎ Elem a ys)
  Elem-append a xs ys = (there xs, back xs)
    where
      there : (xs : List A) → Elem a (xs ++ ys) → Elem a xs ⊎ Elem a ys
      there [] i = inr i
      there (x ∷ xs) (inl e) = inl (inl e)
      there (x ∷ xs) (inr i) = elim (there xs i) [ inl j ↦ inl (inr j) | inr j ↦ inr j ]

      back : (xs : List A) → Elem a xs ⊎ Elem a ys → Elem a (xs ++ ys)
      back [] (inl i) = absurd i
      back [] (inr j) = j
      back (x ∷ xs) (inl (inl e)) = inl e
      back (x ∷ xs) (inl (inr i)) = inr (back xs (inl i))
      back (x ∷ xs) (inr j) = inr (back xs (inr j))

  pub Elem-keep :
      (p : A → Bool) (a : A) (xs : List A) → Elem a (keep p xs) ↔ (Elem a xs × (p a ≡ true))
  Elem-keep p a xs = (there xs, λ h. back xs h.0 h.1)
    where
      there : (xs : List A) → Elem a (keep p xs) → Elem a xs × (p a ≡ true)
      there [] i = elim i [ ]
      there (x ∷ xs) i = elim (Bool-cases (p x)) [
        | inl kept ↦ elim (subst (λ b. Elem a (if b then x ∷ keep p xs else keep p xs)) kept i) [
          | inl e ↦ (inl e, subst (λ y. p y ≡ true) e kept)
          | inr j ↦ let k = there xs j in (inr k.0, k.1)
        ]
        | inr left ↦
            let k =
              there xs (subst (λ b. Elem a (if b then x ∷ keep p xs else keep p xs)) left i) in
            (inr k.0, k.1)
      ]

      back : (xs : List A) → Elem a xs → p a ≡ true → Elem a (keep p xs)
      back [] i h = elim i [ ]
      back (x ∷ xs) (inl e) h = rw (subst (λ y. p y ≡ true) (sym e) h) (inl e)
      back (x ∷ xs) (inr i) h = elim (Bool-cases (p x)) [
        | inl kept ↦ rw kept (inr (back xs i h))
        | inr left ↦ rw left (back xs i h)
      ]

pub Elem-map :
    {A B : Type 0} (f : A → B) (b : B) (xs : List A)
    → Elem b (map f xs) ↔ ((a : A) × Elem a xs × (f a ≡ b))
Elem-map {A} f b xs = (there xs, λ h. back xs h.0 h.1 h.2)
  where
    there : (xs : List A) → Elem b (map f xs) → (a : A) × Elem a xs × (f a ≡ b)
    there [] i = elim i [ ]
    there (x ∷ xs) (inl e) = (x, inl refl, e)
    there (x ∷ xs) (inr i) = let (a, j, e) = there xs i in (a, inr j, e)

    back : (xs : List A) (a : A) → Elem a xs → f a ≡ b → Elem b (map f xs)
    back [] a i h = elim i [ ]
    back (x ∷ xs) a (inl e) h = inl (subst (λ y. f y ≡ b) (sym e) h)
    back (x ∷ xs) a (inr i) h = inr (back xs a i h)
