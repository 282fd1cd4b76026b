-- ===== src/Scheduler/Decompose.antt =====
-- internal/orchestrator/orchestrator.go: decompose, which turns the subtasks that a worker proposes into
-- tasks. It returns the events that it emits, in order, where each is appended.
use Prim.Native.String.{◌++◌ as str_append}
use age_of_agents.Base.{
  ℕ, suc, ◌+◌, String, ◌==◌, Bool, true, false, not, ◌&&◌, Option, none, some, List, [], ◌∷◌, ◌++◌,
  map, contains, is_some, ltb, leb, get_or, if◌then◌else◌,
}
use age_of_agents.Base.Dict.{Dict, get, put, values}
use age_of_agents.Api.Event.{Body}
use age_of_agents.Git.{Try, ok, err}
use age_of_agents.State.Model.{Ticket, State}
use age_of_agents.State.Cycles.{would_cycle}
use age_of_agents.Scheduler.Rejection.{Used}

-- agent.Subtask
pub record Subtask : Type 0 where
  pub local_id : String
  pub title : String
  pub depends_on : List String
  pub idempotency_key : String

-- The fields of Options that bound the graph.
pub record GraphOptions : Type 0 where
  pub max_graph_depth : ℕ
  pub max_tickets_per_goal : ℕ
  pub max_fan_out : ℕ

-- The fields of dispatchJob that decompose reads.
pub record Job : Type 0 where
  pub ticket_id : String
  pub goal_id : String
  pub depth : ℕ

-- The three maps of the first loop.
pub record Handles : Type 0 where
  pub local_to_id : Dict String
  pub key_to_id : Dict String
  pub adopted : List String

-- childID
unfoldable pub child_id : String → String → String
child_id parent local = str_append parent (str_append "/" local)

abbrev pub local_id : String → String → Handles → Handles
local_id local id h = record h { local_to_id = put local id h.local_to_id }

abbrev pub keyed : String → String → Handles → Handles
keyed key id h = record h { key_to_id = put key id h.key_to_id }

-- What the first loop does with a subtask whose local id is new.
unfoldable pub assign : State → String → Handles → Subtask → Handles
unfolding child_id get put
assign s parent h t =
    let own = child_id parent t.local_id in
    if t.idempotency_key == ""
    then local_id t.local_id own h
    else elim (get t.idempotency_key h.key_to_id) [
      | some id ↦ local_id t.local_id id h
      | none ↦ elim (get t.idempotency_key s.key_to_ticket) [
        | some id ↦
            let k = keyed t.idempotency_key id (local_id t.local_id id h) in
            record k { adopted = id ∷ k.adopted }
        | none ↦ keyed t.idempotency_key own (local_id t.local_id own h)
      ]
    ]

-- The first loop; an error is the reason that it fails the parent with.
unfoldable pub resolve : State → String → Handles → List Subtask → Try Handles
unfolding assign get
resolve s parent h [] = ok h
resolve s parent h (t ∷ ts) =
    let rest = resolve s parent (assign s parent h t) ts in
    if t.local_id == ""
    then err "subtask missing local id"
    else if is_some (get t.local_id h.local_to_id)
    then err (str_append "duplicate subtask local id " t.local_id)
    else rest

pub record Child : Type 0 where
  pub id : String
  pub title : String
  pub key : String
  pub deps : List String
  pub adopt : Bool

abbrev pub child_of : Handles → Subtask → Child
child_of h t =
    let id = get_or (get t.local_id h.local_to_id) "" in
    record {
      id = id;
      title = t.title;
      key = t.idempotency_key;
      deps = map (λ d. get_or (get d h.local_to_id) d) t.depends_on;
      adopt = contains id h.adopted;
    }

-- The second loop: `seen` is childIDs.
unfoldable pub children_of : Handles → List String → List Subtask → List Child
unfolding get contains
children_of h seen [] = []
children_of h seen (t ∷ ts) =
    let c = child_of h t in
    let rest = children_of h (if contains c.id seen then seen else c.id ∷ seen) ts in
    if contains c.id seen then rest else c ∷ rest

-- newEdges
abbrev pub new_edges : List Child → Dict (List String)
new_edges [] = []
new_edges (c ∷ cs) = let rest = new_edges cs in if c.adopt then rest else (c.id, c.deps) ∷ rest

abbrev pub in_goal : String → Dict Ticket → ℕ
in_goal goal [] = 0
in_goal goal ((id, t) ∷ ts) =
    let rest = in_goal goal ts in if t.goal_id == goal then suc rest else rest

abbrev pub added : Dict Ticket → List Child → ℕ
added tickets [] = 0
added tickets (c ∷ cs) =
    let rest = added tickets cs in if is_some (get c.id tickets) then rest else suc rest

-- The first dependency that is neither a sibling nor a ticket.
abbrev pub unknown_of : Dict Ticket → List String → List String → Option String
unknown_of tickets siblings [] = none
unknown_of tickets siblings (d ∷ ds) =
    let rest = unknown_of tickets siblings ds in
    if not (contains d siblings) && not (is_some (get d tickets)) then some d else rest

abbrev pub unknown_in : Dict Ticket → List String → List Child → Option String
unknown_in tickets siblings [] = none
unknown_in tickets siblings (c ∷ cs) = elim (unknown_of tickets siblings c.deps) [
  | some d ↦ some d
  | none ↦ unknown_in tickets siblings cs
]

-- The governors and the check of the dependencies, as the reason that they give, if any.
unfoldable pub governed : GraphOptions → State → Job → Handles → List Child → Option String
unfolding get contains values
governed o s j h cs =
    if leb o.max_graph_depth j.depth
    then some "decomposition depth budget exceeded"
    else if ltb o.max_fan_out (added s.tickets cs)
    then some "decomposition fan-out budget exceeded"
    else if ltb o.max_tickets_per_goal (in_goal j.goal_id s.tickets + added s.tickets cs)
    then some "per-goal ticket budget exceeded"
    else elim (unknown_in s.tickets (values h.local_to_id) cs) [
      | some d ↦ some (str_append "unknown dependency " d)
      | none ↦ none
    ]

-- failDecompose
abbrev pub fail_decompose : Job → String → Used → String → List Body
fail_decompose j worker u reason =
    Body.ticket_failed (record {
      ticket_id = j.ticket_id;
      worker = worker;
      reason = reason;
      output = "";
      tree = "";
      worktree = "";
      tokens = u.tokens;
      model = u.model;
      cost_usd = u.cost;
    })
    ∷ []

abbrev pub created : Job → String → List Child → List Body
created j worker [] = []
created j worker (c ∷ cs) =
    let rest = created j worker cs in
    if c.adopt
    then rest
    else Body.ticket_created (record {
      ticket_id = c.id;
      goal_id = j.goal_id;
      title = c.title;
      depends_on = c.deps;
      idempotency_key = c.key;
      created_by = worker;
      depth = suc j.depth;
    })
      ∷ rest

abbrev pub ids : List Child → List String
ids [] = []
ids (c ∷ cs) = c.id ∷ ids cs

abbrev pub split_into : Job → String → Used → List Child → List Body
split_into j worker u cs =
    created j worker cs
    ++ Body.ticket_decomposed (record {
      ticket_id = j.ticket_id;
      worker = worker;
      children = ids cs;
      tokens = u.tokens;
      model = u.model;
      cost_usd = u.cost;
    })
      ∷ []

abbrev pub unless_cyclic : Job → String → Used → List Child → Option Bool → Option (List Body)
unless_cyclic j worker u cs none = none
unless_cyclic j worker u cs (some true) =
    some (fail_decompose j worker u "decomposition would create a cycle")
unless_cyclic j worker u cs (some false) = some (split_into j worker u cs)

abbrev pub unless_refused :
    Job → String → Used → List Child → State → Option String → Option (List Body)
unless_refused j worker u cs s (some reason) = some (fail_decompose j worker u reason)
unless_refused j worker u cs s none = unless_cyclic j worker u cs (would_cycle s (new_edges cs))

abbrev pub with_handles :
    GraphOptions → State → Job → String → Used → List Subtask → Try Handles → Option (List Body)
with_handles o s j worker u subs (err reason) = some (fail_decompose j worker u reason)
with_handles o s j worker u subs (ok h) =
    let cs = children_of h [] subs in unless_refused j worker u cs s (governed o s j h cs)

-- decompose, from the state of a log that could be read
unfoldable pub decompose :
    GraphOptions → State → Job → String → Used → List Subtask → Option (List Body)
unfolding resolve children_of governed would_cycle
decompose o s j worker u subs =
    with_handles o s j worker u subs
      (resolve s j.ticket_id (record { local_to_id = []; key_to_id = []; adopted = [] }) subs)
