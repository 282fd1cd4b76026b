-- ===== src/State/Cycles/Exact.antt =====
-- What HasCycle and WouldCycle answer.
use age_of_agents.Base.{
  ℕ, ◌≤◌, String, ◌==◌, true, false, ◌≡◌, ◌⊎◌, inl, inr, refl, sym, ◌∙◌, some, List, [], ◌∷◌, ◌++◌,
  All, length, length-append, arith, Bool-cases, eq_iff,
}
use mathlib.Core.List.{append-nil}
use age_of_agents.Base.Dict.{Dict, get, put, get-put, Distinct}
use age_of_agents.Base.Partial.{Elem}
use age_of_agents.State.Model.{State}
use age_of_agents.State.Cycles.{
  Color, white, gray, black, color_of, neighbours, Found, by_color, visit, search, keys, answer,
  has_cycle, size_of, dependencies, add_edges, would_cycle,
}
use age_of_agents.State.Cycles.Search.{
  whites, Edge, Way, edge, more, Way-snoc, Cyclic, Grounded, grounded, Blacks, Searched, cycle,
  clear, Visits, then_Searched, visit-Visits, All-Elem,
}

-- Every mention of a node.
abbrev mentions : Dict (List String) → List String
mentions [] = []
mentions ((n, ms) ∷ adj) = n ∷ ms ++ mentions adj

Elem-left : (m : String) (xs ys : List String) → Elem m xs → Elem m (xs ++ ys)
Elem-left m [] ys i = elim i [ ]
Elem-left m (x ∷ xs) ys (inl e) = inl e
Elem-left m (x ∷ xs) ys (inr i) = inr (Elem-left m xs ys i)

Elem-right : (m : String) (xs ys : List String) → Elem m ys → Elem m (xs ++ ys)
Elem-right m [] ys i = i
Elem-right m (x ∷ xs) ys i = inr (Elem-right m xs ys i)

whites-start : (us : List String) → whites us [] ≡ length us
unfolding color_of get
whites-start [] = refl
whites-start (u ∷ us) = omega (arith, whites-start us)

length-mentions : (adj : Dict (List String)) → length (mentions adj) ≡ size_of adj
length-mentions [] = refl
length-mentions ((n, ms) ∷ adj) =
    omega (arith, length-append {0} ms (mentions adj), length-mentions adj)

keys-mentions : (adj : Dict (List String)) (n : String) → Elem n (keys adj) → Elem n (mentions adj)
keys-mentions [] n i = elim i [ ]
keys-mentions ((k, ms) ∷ adj) n (inl e) = inl e
keys-mentions ((k, ms) ∷ adj) n (inr i) =
    inr (Elem-right n ms (mentions adj) (keys-mentions adj n i))

Edge-mentions :
    (adj : Dict (List String)) (n m : String)
    → Edge adj n m
    → Elem m (mentions adj) × Elem n (keys adj)
unfolding neighbours get
Edge-mentions [] n m i = elim i [ ]
Edge-mentions ((k, ms) ∷ adj) n m i = elim (Bool-cases (k == n)) [
  | inl same ↦
      (inr (Elem-left m ms (mentions adj) (rw same at i)), inl (ground (arith, eq_iff k n, same)))
  | inr other ↦
      let (there, key) = Edge-mentions adj n m (rw other at i) in
      (inr (Elem-right m ms (mentions adj) there), inr key)
]

no_cycle : (adj : Dict (List String)) {n : String} → Grounded adj n → Way adj n n → ⊥
no_cycle adj {n} (grounded h) (edge e) = no_cycle adj (h n e) (edge e)
no_cycle adj (grounded h) (more {m} e p) = no_cycle adj (h m e) (Way-snoc adj p e)

first-Edge : (adj : Dict (List String)) {n k : String} → Way adj n k → (m : String) × Edge adj n m
first-Edge adj {k} (edge e) = (k, e)
first-Edge adj (more {m} e p) = (m, e)

module _ (adj : Dict (List String)) (us : List String) (f : ℕ) (visit : String → Dict Color → Found)
    (visits : Visits adj us f visit) where
  search-Searched :
      (ns : List String) (c : Dict Color)
      → ((n : String) → Elem n ns → Elem n us)
      → whites us c ≤ f
      → Blacks adj c
      → ((g : String) → color_of c g ≡ gray → ⊥)
      → Searched adj us c ns (search visit ns c)
  unfolding search
  search-Searched [] c e w b s = clear c tt b (λ g h. h) (omega arith)
  search-Searched (n ∷ ns) c e w b s =
      then_Searched adj us n ns c _ (search visit ns) (at (color_of c n) refl) (λ d bd od wd.
        search-Searched ns d (λ k i. e k (inr i)) (omega (arith, w, wd)) bd (λ g h. s g (od g h)))
    where
      at :
          (k : Color)
          → color_of c n ≡ k
          → Searched adj us c (n ∷ []) (by_color k (visit n c) (some (false, c)) (some (false, c)))
      at white h = visits n c (e n (inl refl)) h w b (λ g q. absurd (s g q))
      at gray h = absurd (s n h)
      at black h = clear c (b n h, tt) b (λ g q. q) (omega arith)

-- With fuel for every mention of a node, HasCycle returns, and it returns true exactly if the graph has a
-- cycle.
pub has_cycle_exact :
    (fuel : ℕ) (adj : Dict (List String))
    → size_of adj ≤ fuel
    → ((has_cycle fuel adj ≡ some true) × Cyclic adj)
      ⊎ ((has_cycle fuel adj ≡ some false) × (Cyclic adj → ⊥))
unfolding has_cycle color_of get
has_cycle_exact fuel adj enough = conclude (search (visit fuel adj) (keys adj) []) (
    search-Searched adj (mentions adj) fuel (visit fuel adj)
      (visit-Visits adj (mentions adj) fuel (λ n m e. (Edge-mentions adj n m e).0)) (keys adj) []
      (keys-mentions adj) (omega (arith, enough, whites-start (mentions adj), length-mentions adj))
      no_blacks no_grays)
  where
    no_blacks : Blacks adj []
    no_blacks b h = absurd (cc)

    no_grays : (g : String) → color_of [] g ≡ gray → ⊥
    no_grays g h = cc

    ends : All (Grounded adj) (keys adj) → (n : String) → Way adj n n → ⊥
    ends all n p =
        let (m, e) = first-Edge adj p in
        no_cycle adj (All-Elem (Grounded adj) (keys adj) all n (Edge-mentions adj n m e).1) p

    conclude :
        (r : Found)
        → Searched adj (mentions adj) [] (keys adj) r
        → ((answer r ≡ some true) × Cyclic adj) ⊎ ((answer r ≡ some false) × (Cyclic adj → ⊥))
    conclude r (cycle d x) = inl (refl, x)
    conclude r (clear d all b o w) = inr (refl, λ (n, p). ends all n p)

neighbours-add_edges :
    (extra adj : Dict (List String)) (n : String)
    → Distinct extra
    → neighbours (add_edges adj extra) n ≡ neighbours adj n ++ neighbours extra n
unfolding neighbours get
neighbours-add_edges [] adj n d = sym (append-nil (neighbours adj n))
neighbours-add_edges ((k, ms) ∷ extra) adj n d =
    neighbours-add_edges extra (put k (neighbours adj k ++ ms) adj) n d.1
    ∙ elim (Bool-cases (k == n)) [ inl same ↦ added same | inr other ↦ kept other ]
  where
    added :
        (k == n) ≡ true
        → neighbours (put k (neighbours adj k ++ ms) adj) n ++ neighbours extra n
          ≡ neighbours adj n ++ neighbours ((k, ms) ∷ extra) n
    added same =
        let e : k ≡ n = ground (arith, eq_iff k n, same) in
        rw (get-put k n (neighbours adj k ++ ms) adj, same, sym e, d.0)
          (append-nil (neighbours adj k ++ ms))

    kept :
        (k == n) ≡ false
        → neighbours (put k (neighbours adj k ++ ms) adj) n ++ neighbours extra n
          ≡ neighbours adj n ++ neighbours ((k, ms) ∷ extra) n
    kept other = rw (get-put k n (neighbours adj k ++ ms) adj, other) refl

-- WouldCycle returns, and it returns true exactly if there is a cycle in the graph in which each task has
-- its dependencies and then those that are to be added, each node once.
pub would_cycle_exact :
    (s : State) (extra : Dict (List String))
    → Distinct extra
    → (let adj = add_edges (dependencies s.tickets) extra in
        ((n : String)
          → neighbours adj n ≡ neighbours (dependencies s.tickets) n ++ neighbours extra n)
        × (((would_cycle s extra ≡ some true) × Cyclic adj)
            ⊎ ((would_cycle s extra ≡ some false) × (Cyclic adj → ⊥))))
unfolding would_cycle
would_cycle_exact s extra d =
    let adj = add_edges (dependencies s.tickets) extra in
    (
      (λ n. neighbours-add_edges extra (dependencies s.tickets) n d),
      has_cycle_exact (size_of adj) adj (omega arith),
    )
