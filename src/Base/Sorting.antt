-- ===== src/Base/Sorting.antt =====
-- Go's sort.Slice by id, of elements with different ids. Texts are in the order of their bytes: for UTF-8,
-- that of their code points.
use Prim.Native.String.{String, [] as no_text, ◌∷◌ as char_then}
use Prim.Native.Char.{code}
use mathlib.Core.Path.{subst}
use mathlib.Core.Logic.{◌↔◌, inl, inr}
use mathlib.Core.Bool.{Bool, true, false, ◌&&◌, ◌||◌}
use mathlib.Core.List.{List, [], ◌∷◌}
use age_of_agents.Base.Tests.{if◌then◌else◌, Bool-cases, ltb, eqb}
use age_of_agents.Base.Partial.{Elem}

-- s < t
abbrev pub text_before : String → String → Bool
text_before s no_text = false
text_before no_text (char_then d t) = true
text_before (char_then c s) (char_then d t) =
    ltb (code c) (code d) || (eqb (code c) (code d) && text_before s t)

-- sort.Slice by id, of elements with different ids.
module _ {A : Type 0} (id_of : A → String) where
  abbrev pub insert : A → List A → List A
  insert a [] = a ∷ []
  insert a (b ∷ bs) =
      let rest = insert a bs in if text_before (id_of b) (id_of a) then b ∷ rest else a ∷ b ∷ bs

  unfoldable pub sort_by_id : List A → List A
  sort_by_id [] = []
  sort_by_id (a ∷ rest) = insert a (sort_by_id rest)

  Elem-insert : (a b : A) (xs : List A) → Elem a (insert b xs) ↔ Elem a (b ∷ xs)
  Elem-insert a b xs = (there xs, back xs)
    where
      there : (xs : List A) → Elem a (insert b xs) → Elem a (b ∷ xs)
      there [] i = i
      there (x ∷ xs) i = elim (Bool-cases (text_before (id_of x) (id_of b))) [
        | inl before ↦
            elim (subst (λ q. Elem a (if q then x ∷ insert b xs else b ∷ x ∷ xs)) before i) [
              | inl e ↦ inr (inl e)
              | inr j ↦ elim (there xs j) [ inl e ↦ inl e | inr k ↦ inr (inr k) ]
            ]
        | inr after ↦ subst (λ q. Elem a (if q then x ∷ insert b xs else b ∷ x ∷ xs)) after i
      ]

      back : (xs : List A) → Elem a (b ∷ xs) → Elem a (insert b xs)
      back [] i = i
      back (x ∷ xs) i = elim (Bool-cases (text_before (id_of x) (id_of b))) [
        | inl before ↦ rw before (elim i [
          | inl e ↦ inr (back xs (inl e))
          | inr (inl e) ↦ inl e
          | inr (inr k) ↦ inr (back xs (inr k))
        ])
        | inr after ↦ rw after i
      ]

  pub Elem-sort_by_id : (a : A) (xs : List A) → Elem a (sort_by_id xs) ↔ Elem a xs
  unfolding sort_by_id
  Elem-sort_by_id a [] = (λ i. i, λ i. i)
  Elem-sort_by_id a (x ∷ xs) =
      let (into, out) = Elem-insert a x (sort_by_id xs) in
      let (less, more) = Elem-sort_by_id a xs in
      (
        λ i. elim (into i) [ inl e ↦ inl e | inr k ↦ inr (less k) ],
        λ i. out (elim i [ inl e ↦ inl e | inr k ↦ inr (more k) ]),
      )
