-- ===== src/Ledger/Refused.antt =====
-- Ledger.Update where the decision is an error.
use age_of_agents.Base.{ℕ, String, ◌≡◌, refl, ap, subst, Option, none, some, List}
use age_of_agents.Git.{Try}
use age_of_agents.Ledger.{
  Codec, LedgerError, Answer, ok, err, ◌>>=◌, Faults, no_faults, Handle, Reply, guarded, unlocked,
  after, decided, asked, sync, update, scan_from, unlock_failed, lock_failed, lock_unavailable,
  read_failed, decide_failed,
}
use age_of_agents.Ledger.Log.{Log, whole-Log, Knows, at_end, Log-scan_from}
use age_of_agents.Ledger.Sync.{Synced, sync-Synced, sync-no_faults}
use age_of_agents.Ledger.Scan.{CodecLaws, scan_from-failing}

module _ (c : Codec) where
  open c use {Event}

  -- The call answers an error, and the log holds the same whole lines.
  pub record Refused (whole : List ℕ) (es : List Event) (r : Reply (List Event)) : Type 0 where
    pub log : Log c r.file whole es
    pub error : LedgerError
    pub answer_lem : r.answer ≡ err error

  refusal :
      {h : Handle} {file whole : List ℕ} {es : List Event}
      → Log c file whole es
      → (e : LedgerError) → Refused whole es (record { handle = h; file = file; answer = err e })
  refusal log e = record { log = log; error = e; answer_lem = refl }

  unlocked-Refused :
      {whole : List ℕ} {es : List Event} {r : Reply (List Event)} (fault : Option String)
      → Refused whole es r
      → Refused whole es (unlocked c fault r)
  unlocked-Refused none x = x
  unlocked-Refused (some e) x = record {
    log = x.log;
    error = x.error;
    answer_lem = ap (λ a. a >>= λ b. err (unlock_failed e)) x.answer_lem;
  }

  module _ {file whole : List ℕ} {es : List Event} where
    guarded-Refused :
        (h : Handle) {r : Reply (List Event)}
        → Log c file whole es
        → (fault : Option String) (wrap : String → LedgerError) → Refused whole es r
        → Refused whole es (guarded fault wrap h file r)
    guarded-Refused h log none wrap x = x
    guarded-Refused h log (some e) wrap x = refusal log (wrap e)

    after-Refused :
        (a : Answer (Unit {0})) (next : Handle → List ℕ → Reply (List Event)) (h : Handle)
        (left : List ℕ)
        → Synced c file whole es (record { handle = h; file = left; answer = a })
        → (Log c whole whole es → Refused whole es (next (at_end c whole es) whole))
        → Refused whole es (after c a next h left)
    after-Refused (err e) next h left s x = refusal s.log e
    after-Refused (ok u) next h left s x =
        let (at, same) = s.when_ok refl in
        rw (at, same) (x (subst (λ w. Log c w whole es) same s.log))

module _ (c : Codec) (laws : CodecLaws c) where
  open c use {Event}

  module _ {h : Handle} {file whole : List ℕ} {es : List Event} (log : Log c file whole es)
      (k : Knows c h whole es) (f : Faults) (decide : List Event → Try (List Event)) {x : String}
      (refuses : decide es ≡ Try.err x) where
    decided-Refused :
        Log c whole whole es
        → (fault : Option String)
        → Refused c whole es (
            decided c
              (scan_from c fault whole 0 >>= λ r. asked c (decide r.0))
              f.write
              (at_end c whole es)
              whole)
    decided-Refused w (some y) =
        rw (scan_from-failing c laws y whole 0) (refusal c w (read_failed y))
    decided-Refused w none = rw (Log-scan_from c laws w, refuses) (refusal c w (decide_failed x))

    pub update-Refused : Refused c whole es (update c f decide h file)
    unfolding update
    update-Refused = guarded-Refused c h log f.open_lock lock_unavailable (
        guarded-Refused c h log f.lock lock_failed (
          unlocked-Refused c f.unlock (
            after-Refused c (sync c f h file).answer _ (sync c f h file).handle
              (sync c f h file).file (sync-Synced c laws f file whole es log h k)
              (λ w. decided-Refused w f.scan))))

  -- Where nothing else fails, the error is the decision's.
  pub update-decide_failed :
      {h : Handle} {file whole : List ℕ} {es : List Event}
      → Log c file whole es
      → Knows c h whole es
      → (decide : List Event → Try (List Event)) {x : String} → decide es ≡ Try.err x
      → (update c no_faults decide h file).answer ≡ err (decide_failed x)
  unfolding update
  update-decide_failed log k decide refuses =
      rw (sync-no_faults c laws log k, Log-scan_from c laws (whole-Log c log), refuses) refl
