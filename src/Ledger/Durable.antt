-- ===== src/Ledger/Durable.antt =====
-- Ledger.Append, Ledger.Update and Open on a log that others write to as well.
use age_of_agents.Base.{ℕ, String, ◌≡◌, refl, subst, Option, none, some, List, [], ◌∷◌}
use age_of_agents.Git.{Try}
use age_of_agents.Ledger.{
  Codec, LedgerError, Answer, ok, err, ◌>>=◌, Faults, Handle, Reply, guarded, unlocked, with_lock,
  after, decided, asked, sync, write, append, update, scan_from, unlock_failed, lock_failed,
  lock_unavailable, read_failed, decide_failed,
}
use age_of_agents.Ledger.Log.{Log, Knows, at_end, at_end-Knows, Log-scan_from}
use age_of_agents.Ledger.Sync.{Synced, sync-Synced}
use age_of_agents.Ledger.Write.{Grown, refused-Grown, write-Grown}
use age_of_agents.Ledger.Scan.{CodecLaws, scan_from-failing}

module _ (c : Codec) where
  open c use {Event}

  unlocked-Grown :
      {whole : List ℕ} {es : List Event} {r : Reply (List Event)} (fault : Option String)
      → Grown c whole es r
      → Grown c whole es (unlocked c fault r)
  unlocked-Grown none x = x
  unlocked-Grown {r} (some e) x = record {
    grown = x.grown;
    new_bytes = x.new_bytes;
    new = x.new;
    grown_splits = x.grown_splits;
    new_encodes = x.new_encodes;
    log = x.log;
    knows = x.knows;
    when_ok = λ stored q. never r.answer stored q;
  }
    where
      never :
          (a : Answer (List Event)) (stored : List Event)
          → (a >>= λ b. err (unlock_failed e)) ≡ ok stored
          → stored ≡ x.new
      never (ok b) stored q = absurd (cc)
      never (err y) stored q = absurd (cc)

  module _ {file whole : List ℕ} {es : List Event} where
    guarded-Grown :
        {h : Handle} {r : Reply (List Event)}
        → Log c file whole es
        → Knows c h whole es
        → (fault : Option String) (wrap : String → LedgerError) → Grown c whole es r
        → Grown c whole es (guarded fault wrap h file r)
    guarded-Grown log k none wrap x = x
    guarded-Grown log k (some e) wrap x = refused-Grown c log k (wrap e)

    with_lock-Grown :
        {h : Handle} {r : Reply (List Event)}
        → Log c file whole es
        → Knows c h whole es
        → (f : Faults) → Grown c whole es r
        → Grown c whole es (with_lock c f h file r)
    with_lock-Grown log k f x =
        guarded-Grown log k f.open_lock lock_unavailable
          (guarded-Grown log k f.lock lock_failed (unlocked-Grown f.unlock x))

    -- What follows a sync that succeeded runs on the whole lines, from the end of them.
    after-Grown :
        (a : Answer (Unit {0})) (next : Handle → List ℕ → Reply (List Event)) (h : Handle)
        (left : List ℕ)
        → Synced c file whole es (record { handle = h; file = left; answer = a })
        → (Log c whole whole es → Grown c whole es (next (at_end c whole es) whole))
        → Grown c whole es (after c a next h left)
    after-Grown (err e) next h left s x = refused-Grown c s.log s.knows e
    after-Grown (ok u) next h left s x =
        let (at, same) = s.when_ok refl in
        rw (at, same) (x (subst (λ w. Log c w whole es) same s.log))

module _ (c : Codec) (laws : CodecLaws c) where
  open c use {Event}

  module _ {h : Handle} {file whole : List ℕ} {es : List Event} (log : Log c file whole es)
      (k : Knows c h whole es) (f : Faults) where
    pub append-Grown : (e : Event) → Grown c whole es (append c f h file e)
    unfolding append
    append-Grown e = with_lock-Grown c log k f (
        after-Grown c (sync c f h file).answer (λ h' file'. write c f.write h' file' (e ∷ []))
          (sync c f h file).handle (sync c f h file).file
          (sync-Synced c laws f file whole es log h k) (λ w. write-Grown c laws w (e ∷ []) f.write))

    decided-Grown :
        (decide : List Event → Try (List Event))
        → Log c whole whole es
        → (fault : Option String)
        → Grown c whole es (
            decided c
              (scan_from c fault whole 0 >>= λ r. asked c (decide r.0))
              f.write
              (at_end c whole es)
              whole)
    decided-Grown decide w (some x) =
        rw (scan_from-failing c laws x whole 0)
          (refused-Grown c w (at_end-Knows c w.encodes) (read_failed x))
    decided-Grown decide w none = rw (Log-scan_from c laws w) (chosen (decide es))
      where
        chosen :
            (d : Try (List Event))
            → Grown c whole es (decided c (asked c d) f.write (at_end c whole es) whole)
        chosen (Try.ok pending) = write-Grown c laws w pending f.write
        chosen (Try.err x) = refused-Grown c w (at_end-Knows c w.encodes) (decide_failed x)

    pub update-Grown :
        (decide : List Event → Try (List Event)) → Grown c whole es (update c f decide h file)
    unfolding update
    update-Grown decide = with_lock-Grown c log k f (
        after-Grown c (sync c f h file).answer _ (sync c f h file).handle (sync c f h file).file
          (sync-Synced c laws f file whole es log h k) (λ w. decided-Grown decide w f.scan))
