-- ===== src/MergeQueue/BatchSafety.antt =====
-- Which commits internal/mergequeue/mergequeue.go leaves checked out after ProcessBatch.
use age_of_agents.Base.{
  ℕ, String, Bool, true, false, ◌≡◌, refl, sym, ◌∙◌, ap, subst, ◌⊎◌, inl, inr, Option, none, some,
  some-ne-none, List, [], ◌∷◌, map, arith, Bool-cases, length, ltb,
}
use age_of_agents.Git.{Try, ok, err, External}
use age_of_agents.Git.Worktree
use age_of_agents.Git.Worktree.{head_of}
use age_of_agents.Git.Verify.{Verifier, run}
use age_of_agents.Git.Laws.{GitLaws, head-world, tree-world, merge-head, run-head}
use age_of_agents.MergeQueue.{
  Proposal, Outcome, zero_outcome, Reply, process, QueueError, merge_message, rollback_batch,
}
use age_of_agents.MergeQueue.Safety.{GatePassed, process-Kept}
use age_of_agents.MergeQueue.Batch.{
  Item, indexed, Plan, plan_item, BatchReply, select_disjoint, processed, process_each, merge_all,
  merged_next, tree_read, try_batch, and_then, isolate, settle_batch, with_batch_head, run_plan,
  process_batch,
}

-- Listing the files that a branch changes leaves the repository alone.
pub record DiffLaws (x : External) : Type 0 where
  pub diff :
      (branch : String) (w : External.World x)
      → head_of x (Worktree.changed_files x branch w).0 ≡ head_of x w

module _ (x : External) (laws : GitLaws x) (diffs : DiffLaws x) (dir : String)
    (gate shadow : Verifier) where
  -- The commit `start`, or one that the Gate passed on.
  abbrev pub Green : String → String → Type 0
  Green start c = (c ≡ start) ⊎ GatePassed x laws dir gate shadow c

  abbrev pub GreenWorld : String → External.World x → Type 0
  GreenWorld start w = (c : String) × (head_of x w ≡ ok c) × Green start c

  abbrev EndsGreen : String → BatchReply (External.World x) → Type 0
  EndsGreen start r = r.error ≡ none → GreenWorld start r.world

  process-Green :
      (start : String) (p : Proposal) (w : External.World x)
      → GreenWorld start w
      → (process x dir gate shadow p w).error ≡ none
      → GreenWorld start (process x dir gate shadow p w).world
  process-Green start p w (c, at_c, good) e =
      elim (process-Kept x laws dir gate shadow p w c at_c e) [
        | inl m ↦ (_, m.2, inr m.3)
        | inr k ↦ (c, k.1, good)
      ]

  processed-Green :
      (start : String) (rest : List Outcome → External.World x → BatchReply (External.World x))
      (i : ℕ) (outcomes : List Outcome) (r : Reply (External.World x))
      → (r.error ≡ none → GreenWorld start r.world)
      → ((os : List Outcome) (w : External.World x)
          → GreenWorld start w
          → EndsGreen start (rest os w))
      → EndsGreen start (processed x dir gate shadow rest i outcomes r)
  processed-Green start rest i outcomes r g ih = go r.error refl
    where
      go :
          (e : Option QueueError)
          → r.error ≡ e
          → EndsGreen start (processed x dir gate shadow rest i outcomes r)
      go none h = rw (h, processed) (ih _ r.world (g h))
      go (some e) h = rw (h, processed) (λ k. absurd (some-ne-none e k))

  process_each-Green :
      (start : String) (items : List Item) (outcomes : List Outcome) (w : External.World x)
      → GreenWorld start w
      → EndsGreen start (process_each x dir gate shadow items outcomes w)
  unfolding process_each
  process_each-Green start [] outcomes w g = λ e. g
  process_each-Green start ((i, p) ∷ items) outcomes w g =
      processed-Green start (process_each x dir gate shadow items) i outcomes
        (process x dir gate shadow p w) (process-Green start p w g)
        (λ os v h. process_each-Green start items os v h)

  and_then-Green :
      (start : String) (next : List Outcome → External.World x → BatchReply (External.World x))
      (r : BatchReply (External.World x))
      → EndsGreen start r
      → ((os : List Outcome) (w : External.World x)
          → GreenWorld start w
          → EndsGreen start (next os w))
      → EndsGreen start (and_then x dir gate shadow next r)
  and_then-Green start next r g ih = go r.error refl
    where
      go :
          (e : Option QueueError)
          → r.error ≡ e
          → EndsGreen start (and_then x dir gate shadow next r)
      go none h = rw (h, and_then) (ih r.outcomes r.world (g h))
      go (some e) h = rw (h, and_then) (λ k. absurd (some-ne-none e (sym h ∙ k)))

  abbrev HasHead : External.World x → Type 0
  HasHead w = (c : String) × (head_of x w ≡ ok c)

  merge_all-head :
      (items : List Item) (outcomes : List Outcome) (w : External.World x)
      → HasHead w
      → (merge_all x dir gate shadow items outcomes w).2 ≡ true
      → HasHead (merge_all x dir gate shadow items outcomes w).0
  unfolding merge_all
  merge_all-head [] outcomes w h = λ e. h
  merge_all-head ((i, p) ∷ items) outcomes w h =
      go (Worktree.merge x p.branch (merge_message p) w).1 refl
        (λ os v k. merge_all-head items os v k)
    where
      v : External.World x
      v = (Worktree.merge x p.branch (merge_message p) w).0

      go :
          (r : Try String)
          → (Worktree.merge x p.branch (merge_message p) w).1 ≡ r
          → ((os : List Outcome) (u : External.World x)
              → HasHead u
              → (merge_all x dir gate shadow items os u).2 ≡ true
              → HasHead (merge_all x dir gate shadow items os u).0)
          → (merged_next x dir gate shadow
              (merge_all x dir gate shadow items)
              (i, p)
              outcomes
              (v, r)).2
            ≡ true
          → HasHead
              (merged_next x dir gate shadow
                (merge_all x dir gate shadow items)
                (i, p)
                outcomes
                (v, r)).0
      go (err e) k ih t = absurd (cc)
      go (ok sha) k ih t = ih _ v (sha, merge-head x laws p.branch (merge_message p) sha w k) t

  -- A batch that is kept ended with a pass of the Gate on the union.
  tree_read-Green :
      (start : String) (batch : List Item) (outcomes : List Outcome) (merged : Bool)
      (r : Try String) (w : External.World x)
      → (merged ≡ true → HasHead w)
      → (tree_read x dir gate shadow batch outcomes merged (w, r)).2 ≡ true
      → GreenWorld start (tree_read x dir gate shadow batch outcomes merged (w, r)).0
  tree_read-Green start batch outcomes merged (err e) w h t = absurd (cc)
  tree_read-Green start batch outcomes false (ok tree) w h t = absurd (cc)
  tree_read-Green start batch outcomes true (ok tree) w h t =
      elim (Bool-cases (run x dir gate w).1.passed) [
        | inr failed ↦ absurd (ground arith)
        | inl passed ↦
            let (c, at_c) = h refl in
            rw passed (
              c,
              run-head x laws dir gate w ∙ at_c,
              inr (record { seen = w; at_head = at_c; passes = passed }),
            )
      ]

  try_batch-Green :
      (start : String) (batch : List Item) (outcomes : List Outcome) (w : External.World x)
      → HasHead w
      → (try_batch x dir gate shadow batch outcomes w).2 ≡ true
      → GreenWorld start (try_batch x dir gate shadow batch outcomes w).0
  try_batch-Green start batch outcomes w h =
      let m = merge_all x dir gate shadow batch outcomes w in
      tree_read-Green start batch m.1 m.2 (Worktree.tree x m.0).1 (Worktree.tree x m.0).0
        (λ t. subst HasHead (sym (tree-world x laws m.0)) (merge_all-head batch outcomes w h t))

  settle_batch-Green :
      (start pre : String) (batch serial : List Item) (t : External.World x × List Outcome × Bool)
      (w : External.World x)
      → head_of x w ≡ ok pre
      → Green start pre
      → (t.2 ≡ true → GreenWorld start t.0)
      → EndsGreen start (settle_batch x dir gate shadow pre batch serial t)
  settle_batch-Green start pre batch serial (v, outcomes, true) w at_pre good h =
      process_each-Green start serial outcomes v (h refl)
  settle_batch-Green start pre batch serial (v, outcomes, false) w at_pre good h =
      go (Worktree.reset_hard x pre v).1 refl
    where
      go :
          (r : Try (Unit {0}))
          → (Worktree.reset_hard x pre v).1 ≡ r
          → EndsGreen start
              (isolate x dir gate shadow batch serial outcomes ((Worktree.reset_hard x pre v).0, r))
      go (err e) k = λ q. absurd (some-ne-none (rollback_batch e) q)
      go (ok u) k =
          and_then-Green start (process_each x dir gate shadow serial)
            (process_each x dir gate shadow batch outcomes (Worktree.reset_hard x pre v).0)
            (process_each-Green start batch outcomes _ (pre, laws.reset pre v w at_pre k, good))
            (λ os u g. process_each-Green start serial os u g)

  select_disjoint-head :
      (k : Plan) (items : List Item) (w : External.World x)
      → head_of x (select_disjoint x dir gate shadow k items w).0 ≡ head_of x w
  unfolding select_disjoint
  select_disjoint-head k [] w = refl
  select_disjoint-head k ((i, p) ∷ items) w =
      select_disjoint-head (plan_item k (i, p) (Worktree.changed_files x p.branch w).1) items
        (Worktree.changed_files x p.branch w).0
      ∙ diffs.diff p.branch w

  run_plan-Green :
      (start : String) (props : List Proposal) (outcomes : List Outcome) (w : External.World x)
      (k : Plan)
      → GreenWorld start w
      → EndsGreen start (run_plan x dir gate shadow props outcomes (w, k))
  run_plan-Green start props outcomes w k (pre, at_pre, good) =
      elim (Bool-cases (ltb (length k.batch) 2)) [
        | inl few ↦
            rw few (process_each-Green start (indexed 0 props) outcomes w (pre, at_pre, good))
        | inr many ↦
            rw (many, at_pre, with_batch_head)
              (settle_batch-Green start pre k.batch k.serial
                (try_batch x dir gate shadow k.batch outcomes (Worktree.head x w).0) w at_pre good
                (try_batch-Green start k.batch outcomes (Worktree.head x w).0
                  (pre, ap (head_of x) (head-world x laws w) ∙ at_pre)))
      ]

  -- Main is always green, batched or not: if the commit checked out before is good, then after a batch
  -- that ended without an error the commit checked out is that one, or one that the Gate passed on.
  pub process_batch-Green :
      (props : List Proposal) (w : External.World x) (start : String)
      → head_of x w ≡ ok start
      → (process_batch x dir gate shadow props w).error ≡ none
      → (c : String) × (head_of x (process_batch x dir gate shadow props w).world ≡ ok c)
        × ((c ≡ start) ⊎ GatePassed x laws dir gate shadow c)
  unfolding process_batch
  process_batch-Green props w start at_start =
      let s =
        select_disjoint x dir gate shadow (record { used = []; batch = []; serial = [] })
          (indexed 0 props) w in
      run_plan-Green start props (map (λ p. zero_outcome) props) s.0 s.1
        (start, select_disjoint-head _ (indexed 0 props) w ∙ at_start, inl refl)
