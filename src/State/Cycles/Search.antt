-- ===== src/State/Cycles/Search.antt =====
-- What the search finds from one node, against cycles and their absence as relations.
use age_of_agents.Base.{
  ℕ, zero, suc, ◌+◌, ◌≤◌, ◌<◌, String, ◌==◌, true, false, ◌≡◌, ◌⊎◌, inl, inr, refl, sym, ◌∙◌, subst,
  some, List, [], ◌∷◌, All, arith, Bool-cases, eq_iff, if◌then◌else◌,
}
use age_of_agents.Base.Dict.{Dict, put, get-put}
use age_of_agents.Base.Partial.{Elem}
use age_of_agents.State.Cycles.{
  Color, white, gray, black, color_of, neighbours, Found, unless_found, by_color, visit_each, visit,
}

color_of-put :
    (n m : String) (k : Color) (c : Dict Color)
    → color_of (put n k c) m ≡ (if n == m then k else color_of c m)
unfolding color_of
color_of-put n m k c = ground (arith, get-put n m k c)

color_of-other :
    (n m : String) (k : Color) (c : Dict Color)
    → (n == m) ≡ false
    → color_of (put n k c) m ≡ color_of c m
color_of-other n m k c h = ground (arith, color_of-put n m k c, h)

same_text : (n m : String) → (n == m) ≡ true → n ≡ m
same_text n m h = ground (arith, eq_iff n m, h)

pub All-Elem : (P : String → Type 0) (ms : List String) → All P ms → (m : String) → Elem m ms → P m
All-Elem P [] all m i = elim i [ ]
All-Elem P (x ∷ ms) all m (inl e) = subst P e all.0
All-Elem P (x ∷ ms) all m (inr i) = All-Elem P ms all.1 m i

abbrev pub one : Color → ℕ
one white = 1
one gray = 0
one black = 0

-- How many of the nodes are white.
abbrev pub whites : List String → Dict Color → ℕ
whites [] c = 0
whites (u ∷ us) c = one (color_of c u) + whites us c

whites-put_le :
    (us : List String) (n : String) (k : Color) (c : Dict Color)
    → one k ≡ 0
    → whites us (put n k c) ≤ whites us c
whites-put_le [] n k c h = omega arith
whites-put_le (u ∷ us) n k c h = ground (arith, color_of-put n u k c, whites-put_le us n k c h)

whites-put_lt :
    (us : List String) (n : String) (c : Dict Color)
    → Elem n us
    → color_of c n ≡ white
    → whites us (put n gray c) < whites us c
whites-put_lt [] n c i w = elim i [ ]
whites-put_lt (u ∷ us) n c (inl e) w =
    ground (arith, color_of-put n u gray c, whites-put_le us n gray c refl, eq_iff n u, e, w)
whites-put_lt (u ∷ us) n c (inr i) w =
    ground (arith, color_of-put n u gray c, whites-put_lt us n c i w, w, eq_iff n u)

module _ (adj : Dict (List String)) where
  abbrev pub Edge : String → String → Type 0
  Edge n m = Elem m (neighbours adj n)

  pub data Way : String → String → Type 0 where
    edge : {n m : String} → Edge n m → Way n m
    more : {n m k : String} → Edge n m → Way m k → Way n k

  abbrev pub Cyclic : Type 0
  Cyclic = (n : String) × Way n n

  -- Every way from the node ends.
  pub data Grounded : String → Type 0 where
    grounded : {n : String} → ((m : String) → Edge n m → Grounded m) → Grounded n

  pub Way-snoc : {n m k : String} → Way n m → Edge m k → Way n k
  Way-snoc (edge e) f = more e (edge f)
  Way-snoc (more e p) f = more e (Way-snoc p f)

  abbrev pub Blacks : Dict Color → Type 0
  Blacks c = (b : String) → color_of c b ≡ black → Grounded b

  -- No node becomes gray.
  abbrev pub NoMore : Dict Color → Dict Color → Type 0
  NoMore c d = (g : String) → color_of d g ≡ gray → color_of c g ≡ gray

  -- A way from one node to another, or the same node.
  abbrev pub Reaches : String → String → Type 0
  Reaches g n = (g ≡ n) ⊎ Way g n

  module _ (us : List String) where
    -- What a search from nodes `ms` promises of what it finds.
    pub data Searched (c : Dict Color) (ms : List String) : Found → Type 0 where
      cycle : (d : Dict Color) → Cyclic → Searched c ms (some (true, d))
      clear :
          (d : Dict Color)
          → All Grounded ms
          → Blacks d
          → NoMore c d
          → whites us d ≤ whites us c
          → Searched c ms (some (false, d))

    -- What visit promises, called on a white node that every gray node reaches.
    abbrev pub Visits : ℕ → (String → Dict Color → Found) → Type 0
    Visits f visit =
        (n : String) (c : Dict Color)
        → Elem n us
        → color_of c n ≡ white
        → whites us c ≤ f
        → Blacks c
        → ((g : String) → color_of c g ≡ gray → Way g n)
        → Searched c (n ∷ []) (visit n c)

    pub then_Searched :
        (m : String) (ms : List String) (c : Dict Color) (r : Found) (next : Dict Color → Found)
        → Searched c (m ∷ []) r
        → ((d : Dict Color)
            → Blacks d
            → NoMore c d
            → whites us d ≤ whites us c
            → Searched d ms (next d))
        → Searched c (m ∷ ms) (unless_found r next)
    then_Searched m ms c r next (cycle d x) k = cycle d x
    then_Searched m ms c r next (clear d g b o w) k = onward (next d) (k d b o w)
      where
        onward : (q : Found) → Searched d ms q → Searched c (m ∷ ms) q
        onward q (cycle d' x) = cycle d' x
        onward q (clear d' g' b' o' w') =
            clear d' (g.0, g') b' (λ i h. o i (o' i h)) (omega (arith, w, w'))

    module _ (f : ℕ) (visit : String → Dict Color → Found) (visits : Visits f visit)
        (n : String) where
      each-Searched :
          (ms : List String) (c : Dict Color)
          → ((m : String) → Elem m ms → Edge n m × Elem m us)
          → whites us c ≤ f
          → Blacks c
          → ((g : String) → color_of c g ≡ gray → Reaches g n)
          → Searched c ms (visit_each visit ms c)
      unfolding visit_each
      each-Searched [] c e w b s = clear c tt b (λ g h. h) (omega arith)
      each-Searched (m ∷ ms) c e w b s =
          then_Searched m ms c _ (visit_each visit ms) (at (color_of c m) refl) (λ d bd od wd.
            each-Searched ms d (λ k i. e k (inr i)) (omega (arith, w, wd)) bd (λ g h. s g (od g h)))
        where
          here : Edge n m
          here = (e m (inl refl)).0

          there : Elem m us
          there = (e m (inl refl)).1

          through : (g : String) → Reaches g n → Way g m
          through g (inl same) = edge (subst (λ q. Edge q m) (sym same) here)
          through g (inr p) = Way-snoc p here

          at :
              (k : Color)
              → color_of c m ≡ k
              → Searched c (m ∷ []) (by_color k (visit m c) (some (true, c)) (some (false, c)))
          at white h = visits m c there h w b (λ g q. through g (s g q))
          at gray h = cycle c (m, through m (s m h))
          at black h = clear c (b m h, tt) b (λ g q. q) (omega arith)

    abbrev pub ClosedUnder : Type 0
    ClosedUnder = (n m : String) → Edge n m → Elem m us

    -- A node whose neighbours are done is black, and grounded.
    done_Searched :
        (n : String) (c : Dict Color)
        → color_of c n ≡ white
        → {r : Found} → Searched (put n gray c) (neighbours adj n) r
        → Searched c (n ∷ []) (unless_found r (λ d. some (false, put n black d)))
    done_Searched n c white_n (cycle d x) = cycle d x
    done_Searched n c white_n (clear d all b o w) =
        let ground_n : Grounded n =
          grounded (λ m e. All-Elem Grounded (neighbours adj n) all m e) in
        clear (put n black d) (ground_n, tt) (blackened ground_n) kept
          (omega (arith, w, whites-put_le us n black d refl, whites-put_le us n gray c refl))
      where
        blackened : Grounded n → Blacks (put n black d)
        blackened g m h = elim (Bool-cases (n == m)) [
          | inl same ↦ subst Grounded (same_text n m same) g
          | inr other ↦ b m (sym (color_of-other n m black d other) ∙ h)
        ]

        kept : NoMore c (put n black d)
        kept m h = elim (Bool-cases (n == m)) [
          | inl same ↦ absurd (ground (arith, color_of-put n m black d, h, same))
          | inr other ↦
              sym (color_of-other n m gray c other)
              ∙ o m (sym (color_of-other n m black d other) ∙ h)
        ]

    -- With fuel for each white node, visit promises so much.
    pub visit-Visits : (f : ℕ) → ClosedUnder → Visits f (visit f adj)
    unfolding visit
    visit-Visits zero closed n c i white_n w b s =
        absurd (omega (arith, w, whites-put_lt us n c i white_n))
    visit-Visits (suc f) closed n c i white_n w b s = done_Searched n c white_n (
        each-Searched f (visit f adj) (visit-Visits f closed) n (neighbours adj n) (put n gray c)
          (λ m e. (e, closed n m e)) (omega (arith, w, whites-put_lt us n c i white_n)) grayed
          stacked)
      where
        grayed : Blacks (put n gray c)
        grayed m h = elim (Bool-cases (n == m)) [
          | inl same ↦ absurd (ground (arith, color_of-put n m gray c, h, same))
          | inr other ↦ b m (sym (color_of-other n m gray c other) ∙ h)
        ]

        stacked : (g : String) → color_of (put n gray c) g ≡ gray → Reaches g n
        stacked g h = elim (Bool-cases (n == g)) [
          | inl same ↦ inl (sym (same_text n g same))
          | inr other ↦ inr (s g (sym (color_of-other n g gray c other) ∙ h))
        ]
