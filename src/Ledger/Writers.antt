-- ===== src/Ledger/Writers.antt =====
-- Several `Ledger` values on one log, in one process or in many. Each call runs with its own faults;
-- the file lock puts the calls in some order.
use age_of_agents.Base.{
  ℕ, Bool, true, false, ◌≡◌, refl, sym, ◌∙◌, ap, subst, List, [], ◌∷◌, ◌++◌, eqb, if◌then◌else◌,
}
use mathlib.Core.List.{append_assoc, append-nil}
use age_of_agents.Git.{Try}
use age_of_agents.Ledger.{Codec, Faults, Handle, fresh, Reply, append, update, open_ledger}
use age_of_agents.Ledger.Log.{Log, Knows, fresh-Knows, Knows-extends}
use age_of_agents.Ledger.Durable.{append-Grown, update-Grown}
use age_of_agents.Ledger.Open.{handle_of, open_ledger-Knows}
use age_of_agents.Ledger.Write.{Grown}
use age_of_agents.Ledger.Scan.{CodecLaws, Encodes, none_yet, Encodes-append}

-- The log and the handle of each writer.
pub record Machine : Type 0 where
  pub file : List ℕ
  pub handles : ℕ → Handle

unfoldable pub started : Machine
started = record { file = []; handles = λ w. fresh }

abbrev pub put : (ℕ → Handle) → ℕ → Handle → ℕ → Handle
put handles w h v = if eqb v w then h else handles v

module _ (c : Codec) where
  open c use {Event}

  pub data Call : Type 0 where
    opens : ℕ → Faults → Call
    appends : ℕ → Faults → Event → Call
    updates : ℕ → Faults → (List Event → Try (List Event)) → Call

  abbrev pub after_call : {A : Type 0} → ℕ → Handle → Reply A → Machine → Machine
  after_call w h r m = record { file = r.file; handles = put m.handles w h }

  unfoldable pub step : Call → Machine → Machine
  unfolding open_ledger append update
  step (opens w f) m = let r = open_ledger c f m.file in after_call w (handle_of r.answer) r m
  step (appends w f e) m = let r = append c f (m.handles w) m.file e in after_call w r.handle r m
  step (updates w f decide) m =
      let r = update c f decide (m.handles w) m.file in after_call w r.handle r m

  unfoldable pub run : List Call → Machine → Machine
  unfolding step
  run [] m = m
  run (x ∷ xs) m = run xs (step x m)

  pub record Sound (whole : List ℕ) (es : List Event) (m : Machine) : Type 0 where
    pub log : Log c m.file whole es
    pub knows : (w : ℕ) → Knows c (m.handles w) whole es

  -- The machine holds these events, and others after them.
  pub record Extends (whole : List ℕ) (es : List Event) (m : Machine) : Type 0 where
    pub grown : List ℕ
    pub new_bytes : List ℕ
    pub new : List Event
    pub grown_splits : grown ≡ whole ++ new_bytes
    pub new_encodes : Encodes c new_bytes new
    pub sound : Sound grown (es ++ new) m

  put-Knows :
      (handles : ℕ → Handle) (w : ℕ) {h : Handle} {whole : List ℕ} {es : List Event}
      → ((v : ℕ) → Knows c (handles v) whole es)
      → Knows c h whole es
      → (v : ℕ) → Knows c (put handles w h v) whole es
  put-Knows handles w k x v = choose (eqb v w) (k v) x
    where
      choose :
          {h g : Handle} {whole : List ℕ} {es : List Event} (b : Bool)
          → Knows c g whole es
          → Knows c h whole es
          → Knows c (if b then h else g) whole es
      choose true y x = x
      choose false y x = y

  Grown-Extends :
      (w : ℕ) (m : Machine) {r : Reply (List Event)} {whole : List ℕ} {es : List Event}
      → Sound whole es m
      → Grown c whole es r
      → Extends whole es (after_call w r.handle r m)
  Grown-Extends w m s g = record {
    grown = g.grown;
    new_bytes = g.new_bytes;
    new = g.new;
    grown_splits = g.grown_splits;
    new_encodes = g.new_encodes;
    sound = record {
      log = g.log;
      knows =
          put-Knows m.handles w (λ v. rw g.grown_splits (Knows-extends c (s.knows v) g.new_encodes))
            g.knows;
    };
  }

  same-Extends :
      {whole : List ℕ} {es : List Event} {m : Machine} → Sound whole es m → Extends whole es m
  same-Extends {whole} {es} {m} s = record {
    grown = whole;
    new_bytes = [];
    new = [];
    grown_splits = sym (append-nil whole);
    new_encodes = none_yet;
    sound = subst (λ l. Sound whole l m) (sym (append-nil es)) s;
  }

  Extends-trans :
      {whole : List ℕ} {es : List Event} {m n : Machine}
      → (x : Extends whole es m) → Extends x.grown (es ++ x.new) n
      → Extends whole es n
  Extends-trans {whole} {es} {n} x y = record {
    grown = y.grown;
    new_bytes = x.new_bytes ++ y.new_bytes;
    new = x.new ++ y.new;
    grown_splits =
        y.grown_splits
        ∙ ap (λ w. w ++ y.new_bytes) x.grown_splits
        ∙ append_assoc whole x.new_bytes y.new_bytes;
    new_encodes = Encodes-append c x.new_encodes y.new_encodes;
    sound = subst (λ l. Sound y.grown l n) (append_assoc es x.new y.new) y.sound;
  }

module _ (c : Codec) (laws : CodecLaws c) where
  open c use {Event}

  opens-Extends :
      (w : ℕ) (f : Faults) (m : Machine) {whole : List ℕ} {es : List Event}
      → Sound c whole es m
      → Extends c whole es (step c (opens w f) m)
  unfolding step open_ledger
  opens-Extends w f m {whole} {es} s =
      let (log, knows) = open_ledger-Knows c laws s.log f in
      same-Extends c (record { log = log; knows = put-Knows c m.handles w s.knows knows })

  step-Extends :
      (x : Call c) (m : Machine) {whole : List ℕ} {es : List Event}
      → Sound c whole es m
      → Extends c whole es (step c x m)
  unfolding step
  step-Extends (opens w f) m s = opens-Extends w f m s
  step-Extends (appends w f e) m s =
      Grown-Extends c w m s (append-Grown c laws s.log (s.knows w) f e)
  step-Extends (updates w f decide) m s =
      Grown-Extends c w m s (update-Grown c laws s.log (s.knows w) f decide)

  pub run-Extends :
      (xs : List (Call c)) (m : Machine) {whole : List ℕ} {es : List Event}
      → Sound c whole es m
      → Extends c whole es (run c xs m)
  unfolding run
  run-Extends [] m s = same-Extends c s
  run-Extends (x ∷ xs) m s =
      let one = step-Extends x m s in Extends-trans c one (run-Extends xs (step c x m) one.sound)

  started-Sound : Sound c [] [] started
  unfolding started
  started-Sound = record {
    log = record { tail = []; splits = refl; torn = tt; encodes = none_yet; numbered = tt };
    knows = λ w. fresh-Knows c none_yet;
  }

  pub run-Sound : (xs : List (Call c)) → Extends c [] [] (run c xs started)
  run-Sound xs = run-Extends xs started started-Sound
