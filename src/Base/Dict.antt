-- ===== src/Base/Dict.antt =====
-- Go's `map[string]V`. A write replaces the entry of its key or appends one, so the entries keep the
-- order of first insertion; the program's loops over a map read `values`, and Go fixes no order.
use Prim.Native.Nat.{ℕ, ◌+◌}
use Prim.Native.String.{String}
use mathlib.Core.Path.{◌≡◌, refl, subst}
use mathlib.Core.Option.{Option, none, some, some-injective, none-ne-some}
use mathlib.Core.Logic.{inl, inr}
use mathlib.Core.List.{List, [], ◌∷◌}
use native.Mathlib.Omega.{arith}
use text.Mathlib.Text.{◌==◌}
use text.Mathlib.TextEquality.{eq_iff}
use text.Mathlib.TextPositions.{eq_refl}
use age_of_agents.Base.Tests.{if◌then◌else◌, get_or, Bool-cases}
use age_of_agents.Base.Lists.{All}

abbrev pub Dict {ℓ} : Type ℓ → Type ℓ
Dict V = List (String × V)

abbrev pub empty {ℓ} : {V : Type ℓ} → Dict V
empty = []

abbrev pub option_map {ℓ κ} : {A : Type ℓ} {B : Type κ} → (A → B) → Option A → Option B
option_map f none = none
option_map f (some a) = some (f a)

module _ {ℓ} {V : Type ℓ} where
  unfoldable pub get : String → Dict V → Option V
  get k [] = none
  get k ((j, v) ∷ m) = if j == k then some v else get k m

  -- m[k] = v
  unfoldable pub put : String → V → Dict V → Dict V
  put k v [] = (k, v) ∷ []
  put k v ((j, w) ∷ m) = if j == k then (j, v) ∷ m else (j, w) ∷ put k v m

  -- A write through the pointer that the map holds at `k`; nothing if it holds none.
  unfoldable pub modify : String → (V → V) → Dict V → Dict V
  modify k f [] = []
  modify k f ((j, w) ∷ m) = if j == k then (j, f w) ∷ m else (j, w) ∷ modify k f m

  unfoldable pub values : Dict V → List V
  values [] = []
  values ((j, v) ∷ m) = v ∷ values m

  pub get-put :
      (k j : String) (v : V) (m : Dict V) → get j (put k v m) ≡ (if k == j then some v else get j m)
  unfolding get put
  get-put k j v [] = refl
  get-put k j v ((i, w) ∷ m) = ground (arith, eq_iff k j, eq_iff i k, eq_iff i j, get-put k j v m)

  pub get-modify :
      (k j : String) (f : V → V) (m : Dict V)
      → get j (modify k f m) ≡ (if k == j then option_map f (get j m) else get j m)
  unfolding get modify
  get-modify k j f [] = ground arith
  get-modify k j f ((i, w) ∷ m) =
      ground (arith, eq_iff k j, eq_iff i k, eq_iff i j, get-modify k j f m)

  pub modify_missing : (k : String) (f : V → V) (m : Dict V) → get k m ≡ none → modify k f m ≡ m
  unfolding get modify
  modify_missing k f [] h = refl
  modify_missing k f ((i, w) ∷ m) h = ground (arith, modify_missing k f m)

  -- What holds of every value holds of what a lookup finds.
  pub All-get {κ} :
      (P : V → Type κ) (k : String) (m : Dict V) (v : V) → All P (values m) → get k m ≡ some v → P v
  unfolding get values
  All-get P k [] v all h = absurd (none-ne-some v h)
  All-get P k ((i, w) ∷ m) v all h = elim (Bool-cases (i == k)) [
    | inl same ↦ subst P (some-injective w v (rw same at h)) all.0
    | inr other ↦ All-get P k m v all.1 (rw other at h)
  ]

  -- A sum over the values, and how a write moves it.
  unfoldable pub total : (V → ℕ) → Dict V → ℕ
  total f [] = 0
  total f ((j, v) ∷ m) = f v + total f m

  pub total-modify :
      (f : V → ℕ) (k : String) (g : V → V) (m : Dict V) (v : V)
      → get k m ≡ some v
      → total f (modify k g m) + f v ≡ total f m + f (g v)
  unfolding get modify total
  total-modify f k g [] v h = cc
  total-modify f k g ((i, w) ∷ m) v h = ground (arith, total-modify f k g m v)

  pub total-modify_same :
      (f : V → ℕ) (k : String) (g : V → V) (m : Dict V)
      → ((v : V) → f (g v) ≡ f v)
      → total f (modify k g m) ≡ total f m
  unfolding modify total
  total-modify_same f k g [] h = refl
  total-modify_same f k g ((i, w) ∷ m) h = ground (arith, h w, total-modify_same f k g m h)

  pub total-put_fresh :
      (f : V → ℕ) (k : String) (v : V) (m : Dict V)
      → get k m ≡ none
      → total f (put k v m) ≡ total f m + f v
  unfolding get put total
  total-put_fresh f k v [] h = omega arith
  total-put_fresh f k v ((i, w) ∷ m) h = ground (arith, total-put_fresh f k v m)

-- m[k] += n, on a map of counters.
unfoldable pub bump : String → ℕ → Dict ℕ → Dict ℕ
bump k n m = put k (get_or (get k m) 0 + n) m

pub ruleset dict_laws = (get-put, get-modify)

module _ {ℓ} {V : Type ℓ} where
  -- Every key stands once, as in a map.
  abbrev pub Distinct : Dict V → Type ℓ
  Distinct [] = Unit
  Distinct ((k, v) ∷ m) = (get k m ≡ none) × Distinct m

  pub Distinct-put : (k : String) (v : V) (m : Dict V) → Distinct m → Distinct (put k v m)
  unfolding get put
  Distinct-put k v [] d = (refl, tt)
  Distinct-put k v ((j, w) ∷ m) d = elim (Bool-cases (j == k)) [
    | inl same ↦ rw same d
    | inr other ↦
        rw other
          (ground (arith, get-put k j v m, eq_iff j k, eq_iff k j, d.0), Distinct-put k v m d.1)
  ]

  pub Distinct-modify : (k : String) (f : V → V) (m : Dict V) → Distinct m → Distinct (modify k f m)
  unfolding get modify
  Distinct-modify k f [] d = tt
  Distinct-modify k f ((j, w) ∷ m) d = elim (Bool-cases (j == k)) [
    | inl same ↦ rw same d
    | inr other ↦
        rw other (
          ground (arith, get-modify k j f m, eq_iff j k, eq_iff k j, d.0),
          Distinct-modify k f m d.1,
        )
  ]

  -- What holds of all that lookups find holds of every value.
  pub values-All {κ} :
      (P : V → Type κ) (m : Dict V)
      → Distinct m
      → ((k : String) (v : V) → get k m ≡ some v → P v)
      → All P (values m)
  unfolding get values
  values-All P [] d h = tt
  values-All P ((j, w) ∷ m) d h =
      (h j w (rw eq_refl), values-All P m d.1 (λ k v e. h k v (ground (arith, eq_iff j k, d.0))))
