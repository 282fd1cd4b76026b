-- ===== src/Ledger/Open.antt =====
-- What Open leaves of a log, and the handle it returns.
use age_of_agents.Base.{ℕ, String, refl, sym, ◌∙◌, subst, Option, none, some, List, arith}
use age_of_agents.Ledger.{
  Codec, LedgerError, Answer, ok, err, ◌>>=◌, Faults, Handle, fresh, Reply, guarded, unlocked,
  with_lock, sync, open_ledger, opened, opened_for_reading, scan_from, lock_failed,
  lock_unavailable, mkdir_failed,
}
use age_of_agents.Ledger.Log.{
  Handle-eq, last_seq-Numbered, Log, Knows, fresh-Knows, at_end-Knows, Log-scan_from,
}
use age_of_agents.Ledger.Sync.{sync-Synced}
use age_of_agents.Ledger.Scan.{CodecLaws, scan_from-failing}

-- The handle that Open returns, `fresh` where it fails.
abbrev pub handle_of : Answer Handle → Handle
handle_of (ok h) = h
handle_of (err e) = fresh

-- What Open leaves of a log.
module _ (c : Codec) (whole : List ℕ) (es : List (Codec.Event c)) where
  pub record Kept {A : Type 0} (r : Reply A) : Type 0 where
    pub log : Log c r.file whole es
    pub knows : Knows c r.handle whole es

  guarded-Kept :
      {A : Type 0} {h : Handle} {file : List ℕ} {r : Reply A}
      → Log c file whole es
      → Knows c h whole es
      → (fault : Option String) (wrap : String → LedgerError) → Kept r
      → Kept (guarded fault wrap h file r)
  guarded-Kept log k none wrap x = x
  guarded-Kept log k (some e) wrap x = record { log = log; knows = k }

  unlocked-Kept :
      {A : Type 0} {r : Reply A} (fault : Option String) → Kept r → Kept (unlocked c fault r)
  unlocked-Kept none x = x
  unlocked-Kept (some e) x = record { log = x.log; knows = x.knows }

  opened-handle_of :
      (r : Reply (Unit {0})) (a : Answer (Unit {0}))
      → Log c r.file whole es
      → Knows c r.handle whole es
      → Knows c (handle_of (a >>= λ u. ok r.handle)) whole es
  opened-handle_of r (ok u) log k = k
  opened-handle_of r (err e) log k = fresh-Knows c log.encodes

module _ (c : Codec) (laws : CodecLaws c) where
  -- A log that is opened without the lock is as it was.
  scanned-Knows :
      {file whole : List ℕ} {es : List (Codec.Event c)}
      → Log c file whole es
      → (fault : Option String)
      → Knows c (handle_of (opened_for_reading c fresh (scan_from c fault file 0))) whole es
  scanned-Knows {file} log (some e) =
      rw (scan_from-failing c laws e file 0) (fresh-Knows c log.encodes)
  scanned-Knows {whole} {es} log none = rw (Log-scan_from c laws log) (
      subst (λ h. Knows c h whole es)
        (Handle-eq (sym (last_seq-Numbered c 1 es log.numbered ∙ omega arith)) refl)
        (at_end-Knows c log.encodes))

  module _ {file whole : List ℕ} {es : List (Codec.Event c)} (log : Log c file whole es) where
    abbrev OpenedKept : Reply Handle → Type 0
    OpenedKept r = Log c r.file whole es × Knows c (handle_of r.answer) whole es

    opened-OpenedKept :
        (fault unread : Option String) (r : Reply (Unit {0}))
        → Kept c whole es r
        → OpenedKept
            (opened c fault (opened_for_reading c fresh (scan_from c unread file 0)) file r)
    opened-OpenedKept (some e) unread r k = (log, scanned-Knows log unread)
    opened-OpenedKept none unread r k =
        (k.log, opened-handle_of c whole es r r.answer k.log k.knows)

    guarded-OpenedKept :
        (fault : Option String) (r : Reply Handle)
        → OpenedKept r
        → OpenedKept (guarded fault mkdir_failed fresh file r)
    guarded-OpenedKept none r k = k
    guarded-OpenedKept (some e) r k = (log, fresh-Knows c log.encodes)

    pub open_ledger-Knows :
        (f : Faults)
        → Log c (open_ledger c f file).file whole es
          × Knows c (handle_of (open_ledger c f file).answer) whole es
    unfolding open_ledger
    open_ledger-Knows f =
        let k = fresh-Knows c log.encodes in
        let s = sync-Synced c laws f file whole es log fresh k in
        guarded-OpenedKept f.mkdir _ (
          opened-OpenedKept f.open_lock f.scan (with_lock c f fresh file (sync c f fresh file)) (
            guarded-Kept c whole es log k f.open_lock lock_unavailable (
              guarded-Kept c whole es log k f.lock lock_failed
                (unlocked-Kept c whole es f.unlock (record { log = s.log; knows = s.knows })))))
