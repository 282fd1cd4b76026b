-- ===== src/State/Cycles.antt =====
-- internal/state/state.go: HasCycle and WouldCycle. The search goes at most one call deep for every node,
-- and takes fuel for that; a search that runs out of it answers `none`.
pub mod Search
pub mod Exact
use age_of_agents.Base.{
  ℕ, zero, suc, ◌+◌, String, Bool, true, false, Option, none, some, List, [], ◌∷◌, ◌++◌, length,
  get_or,
}
use age_of_agents.Base.Dict.{Dict, get, put}
use age_of_agents.Base.Partial.{◌>>=◌}
use age_of_agents.State.Model.{State, Ticket}

pub data Color : Type 0 where
  white gray black : Color

-- color[n]
unfoldable pub color_of : Dict Color → String → Color
unfolding get
color_of c n = get_or (get n c) white

-- adj[n]
unfoldable pub neighbours : Dict (List String) → String → List String
unfolding get
neighbours adj n = get_or (get n adj) []

-- The answer of a search, and the colours that it leaves.
abbrev pub Found : Type 0
Found = Option (Bool × Dict Color)

abbrev pub unless_found : Found → (Dict Color → Found) → Found
unless_found none next = none
unless_found (some (true, c)) next = some (true, c)
unless_found (some (false, c)) next = next c

abbrev pub by_color : Color → Found → Found → Found → Found
by_color white w g b = w
by_color gray w g b = g
by_color black w g b = b

-- The loop of visit over the neighbours.
unfoldable pub visit_each : (String → Dict Color → Found) → List String → Dict Color → Found
unfolding color_of
visit_each visit [] c = some (false, c)
visit_each visit (m ∷ ms) c =
    unless_found (by_color (color_of c m) (visit m c) (some (true, c)) (some (false, c)))
      (visit_each visit ms)

-- visit
unfoldable pub visit : ℕ → Dict (List String) → String → Dict Color → Found
unfolding visit_each neighbours put
visit zero adj n c = none
visit (suc fuel) adj n c =
    unless_found (visit_each (visit fuel adj) (neighbours adj n) (put n gray c))
      (λ c'. some (false, put n black c'))

-- The loop of HasCycle over the nodes.
unfoldable pub search : (String → Dict Color → Found) → List String → Dict Color → Found
unfolding color_of
search visit [] c = some (false, c)
search visit (n ∷ ns) c =
    unless_found (by_color (color_of c n) (visit n c) (some (false, c)) (some (false, c)))
      (search visit ns)

abbrev pub keys {ℓ} : {V : Type ℓ} → Dict V → List String
keys [] = []
keys ((k, v) ∷ m) = k ∷ keys m

abbrev pub answer : Found → Option Bool
answer none = none
answer (some (b, c)) = some b

-- HasCycle
unfoldable pub has_cycle : ℕ → Dict (List String) → Option Bool
unfolding search visit
has_cycle fuel adj = answer (search (visit fuel adj) (keys adj) [])

abbrev pub dependencies : Dict Ticket → Dict (List String)
dependencies [] = []
dependencies ((id, t) ∷ ts) = (id, t.depends_on) ∷ dependencies ts

abbrev pub add_edges : Dict (List String) → Dict (List String) → Dict (List String)
add_edges adj [] = adj
add_edges adj ((n, deps) ∷ extra) = add_edges (put n (neighbours adj n ++ deps) adj) extra

-- Every mention of a node, more than there are nodes to visit.
abbrev pub size_of : Dict (List String) → ℕ
size_of [] = 0
size_of ((n, ms) ∷ adj) = suc (length ms) + size_of adj

-- WouldCycle
unfoldable pub would_cycle : State → Dict (List String) → Option Bool
unfolding has_cycle neighbours put
would_cycle s extra =
    let adj = add_edges (dependencies s.tickets) extra in has_cycle (size_of adj) adj
