-- ===== src/MergeQueue/Batch.antt =====
-- internal/mergequeue/mergequeue.go: ProcessBatch. An index into the proposals is kept beside the
-- proposal that it names.
use age_of_agents.Base.{
  ℕ, zero, suc, String, Bool, true, false, ◌||◌, Option, none, some, List, [], ◌∷◌, ◌++◌, map,
  is_empty, length, ltb, if◌then◌else◌,
}
use age_of_agents.Git.{Try, ok, err, External}
use age_of_agents.Git.Worktree
use age_of_agents.Git.Verify.{Verifier, Result, run}
use age_of_agents.MergeQueue.{
  Proposal, Outcome, zero_outcome, outcome_for, merge_message, QueueError, read_head,
  rollback_batch, overlaps, Reply, process,
}

abbrev pub Item : Type 0
Item = ℕ × Proposal

abbrev pub set : List Outcome → ℕ → Outcome → List Outcome
set [] i v = []
set (x ∷ xs) zero v = v ∷ xs
set (x ∷ xs) (suc i) v = x ∷ set xs i v

abbrev pub get_elem? : List Outcome → ℕ → Option Outcome
get_elem? [] i = none
get_elem? (x ∷ xs) zero = some x
get_elem? (x ∷ xs) (suc i) = get_elem? xs i

-- The proposals with their indices, from `i` on.
abbrev pub indexed : ℕ → List Proposal → List Item
indexed i [] = []
indexed i (p ∷ ps) = (i, p) ∷ indexed (suc i) ps

-- The two lists that the selection loop builds, with the files in use.
pub record Plan : Type 0 where
  pub used : List String
  pub batch : List Item
  pub serial : List Item

abbrev pub plan_item : Plan → Item → Try (List String) → Plan
plan_item k i (err e) = record k { serial = k.serial ++ i ∷ [] }
plan_item k i (ok files) =
    if is_empty files || overlaps files k.used
    then record k { serial = k.serial ++ i ∷ [] }
    else record k { used = files ++ k.used; batch = k.batch ++ i ∷ [] }

pub record BatchReply (W : Type 0) : Type 0 where
  pub world : W
  pub outcomes : List Outcome
  pub error : Option QueueError

-- A batch that passed: the fields that every member gets.
abbrev pub batch_passed : String → String → Outcome → Outcome
batch_passed output tree o = record o {
  verified = true;
  merged = true;
  output = output;
  tree = tree;
}

abbrev pub at_index : (Outcome → Outcome) → ℕ → List Outcome → List Outcome
at_index f i [] = []
at_index f zero (o ∷ os) = f o ∷ os
at_index f (suc i) (o ∷ os) = o ∷ at_index f i os

abbrev pub accept : String → String → List Item → List Outcome → List Outcome
accept output tree [] outcomes = outcomes
accept output tree ((i, p) ∷ items) outcomes =
    accept output tree items (at_index (batch_passed output tree) i outcomes)

module _ (x : External) (dir : String) (gate shadow : Verifier) where
  open x use {World}

  -- The selection loop.
  unfoldable pub select_disjoint : Plan → List Item → World → World × Plan
  unfolding overlaps
  select_disjoint k [] w = (w, k)
  select_disjoint k ((i, p) ∷ items) w =
      let (w', r) = Worktree.changed_files x p.branch w in
      select_disjoint (plan_item k (i, p) r) items w'

  -- A loop of Process over some of the proposals, which stops at the first error.
  abbrev pub processed :
      (List Outcome → World → BatchReply World) → ℕ → List Outcome → Reply World → BatchReply World
  processed rest i outcomes r = elim r.error [
    | none ↦ rest (set outcomes i r.outcome) r.world
    | some e ↦ record { world = r.world; outcomes = outcomes; error = some e }
  ]

  unfoldable pub process_each : List Item → List Outcome → World → BatchReply World
  process_each [] outcomes w = record { world = w; outcomes = outcomes; error = none }
  process_each ((i, p) ∷ items) outcomes w =
      processed (process_each items) i outcomes (process x dir gate shadow p w)

  abbrev pub merged_next :
      (List Outcome → World → World × List Outcome × Bool)
      → Item
      → List Outcome
      → World × Try String
      → World × List Outcome × Bool
  merged_next rest (i, p) outcomes (w, err e) = (w, outcomes, false)
  merged_next rest (i, p) outcomes (w, ok sha) =
      rest (set outcomes i (record (outcome_for p) { merge_commit = sha })) w

  -- Merges the members of the batch; `false` when one does not merge.
  unfoldable pub merge_all : List Item → List Outcome → World → World × List Outcome × Bool
  merge_all [] outcomes w = (w, outcomes, true)
  merge_all ((i, p) ∷ items) outcomes w =
      merged_next (merge_all items) (i, p) outcomes (Worktree.merge x p.branch (merge_message p) w)

  abbrev pub gated :
      List Item → List Outcome → String → World × Result → World × List Outcome × Bool
  gated batch outcomes tree (w, res) =
      if res.passed then (w, accept res.output tree batch outcomes, true) else (w, outcomes, false)

  abbrev pub tree_read :
      List Item → List Outcome → Bool → World × Try String → World × List Outcome × Bool
  tree_read batch outcomes merged (w, err e) = (w, outcomes, false)
  tree_read batch outcomes false (w, ok tree) = (w, outcomes, false)
  tree_read batch outcomes true (w, ok tree) = gated batch outcomes tree (run x dir gate w)

  -- Merges the batch and runs the Gate once on the union.
  abbrev pub try_batch : List Item → List Outcome → World → World × List Outcome × Bool
  try_batch batch outcomes w =
      let (w', outcomes', merged) = merge_all batch outcomes w in
      tree_read batch outcomes' merged (Worktree.tree x w')

  -- Goes on after a loop of Process, if it met no error.
  abbrev pub and_then :
      (List Outcome → World → BatchReply World) → BatchReply World → BatchReply World
  and_then next r = elim r.error [ none ↦ next r.outcomes r.world | some e ↦ r ]

  abbrev pub isolate :
      List Item → List Item → List Outcome → World × Try (Unit {0}) → BatchReply World
  isolate batch serial outcomes (w, err rb) = record {
    world = w;
    outcomes = outcomes;
    error = some (rollback_batch rb);
  }
  isolate batch serial outcomes (w, ok u) =
      and_then (process_each serial) (process_each batch outcomes w)

  abbrev pub settle_batch :
      String → List Item → List Item → World × List Outcome × Bool → BatchReply World
  settle_batch pre batch serial (w, outcomes, true) = process_each serial outcomes w
  settle_batch pre batch serial (w, outcomes, false) =
      isolate batch serial outcomes (Worktree.reset_hard x pre w)

  abbrev pub with_batch_head :
      List Item → List Item → List Outcome → World × Try String → BatchReply World
  with_batch_head batch serial outcomes (w, err e) = record {
    world = w;
    outcomes = outcomes;
    error = some (read_head e);
  }
  with_batch_head batch serial outcomes (w, ok pre) =
      settle_batch pre batch serial (try_batch batch outcomes w)

  abbrev pub run_plan : List Proposal → List Outcome → World × Plan → BatchReply World
  run_plan props outcomes (w, k) =
      if ltb (length k.batch) 2
      then process_each (indexed 0 props) outcomes w
      else with_batch_head k.batch k.serial outcomes (Worktree.head x w)

  -- Queue.ProcessBatch
  unfoldable pub process_batch : List Proposal → World → BatchReply World
  unfolding select_disjoint process_each merge_all
  process_batch props w =
      run_plan props (map (λ p. zero_outcome) props)
        (select_disjoint (record { used = []; batch = []; serial = [] }) (indexed 0 props) w)
