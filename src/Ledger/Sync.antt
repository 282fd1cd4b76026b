-- ===== src/Ledger/Sync.antt =====
-- How sync brings a handle up to date with the log.
use age_of_agents.Base.{
  ℕ, suc, String, true, false, ◌≡◌, ◌⊎◌, inl, inr, refl, sym, ◌∙◌, subst, Option, none, some, List,
  length, eqb, ltb, Bool-cases, Option-cases, arith,
}
use age_of_agents.Ledger.{
  Codec, LedgerError, ok, err, Faults, no_faults, Handle, fresh, Reply, guarded, last_seq, synced,
  rescan, sync, scan_from, stat_failed, truncate_failed, read_failed,
}
use age_of_agents.Ledger.Log.{
  Log, Knows, at_end, last_seq-Numbered, at_end-Knows, fresh-Knows, whole-Log, Log-length,
  Log-whole, take-Log, Knows-before, Knows-at_end, Knows-last_seq, Knows-scan_from, Log-scan_from,
}
use age_of_agents.Ledger.Scan.{CodecLaws, scan_from-failing}

module _ (c : Codec) where
  -- What sync leaves behind, whatever fails.
  pub record Synced (file whole : List ℕ) (es : List (Codec.Event c)) (r : Reply (Unit {0}))
      : Type 0 where
    pub knows : Knows c r.handle whole es
    pub log : Log c r.file whole es
    pub when_ok : r.answer ≡ ok tt → (r.handle ≡ at_end c whole es) × (r.file ≡ whole)

  abbrev pub clean : List ℕ → List (Codec.Event c) → Reply (Unit {0})
  clean whole es = record { handle = at_end c whole es; file = whole; answer = ok tt }

  module _ (f : Faults) (file whole : List ℕ) (es : List (Codec.Event c))
      (log : Log c file whole es) where
    stopped-Synced :
        (h : Handle) (e : LedgerError)
        → Knows c h whole es
        → Synced file whole es (record { handle = h; file = file; answer = err e })
    stopped-Synced h e k = record { knows = k; log = log; when_ok = λ q. cc }

    clean-Synced : Synced file whole es (clean whole es)
    clean-Synced = record {
      knows = at_end-Knows c log.encodes;
      log = whole-Log c log;
      when_ok = λ q. (refl, refl);
    }

    module _ (h : Handle) (after : List (Codec.Event c)) (k : Knows c h whole es)
        (last : last_seq c after h.next_seq ≡ suc (length es)) where
      synced-whole :
          (f.truncate ≡ none) ⊎ (ltb (length whole) (length file) ≡ false)
          → synced c f file h (ok (after, length whole)) ≡ clean whole es
      synced-whole x = ground (arith, x, last, Log-length c log, Log-whole c log, take-Log c log)

      synced-stops :
          (e : String)
          → ltb (length whole) (length file) ≡ true
          → f.truncate ≡ some e
          → synced c f file h (ok (after, length whole))
            ≡ record { handle = h; file = file; answer = err (truncate_failed e) }
      synced-stops e big p = ground (arith, big, p)

      synced-Synced : Synced file whole es (synced c f file h (ok (after, length whole)))
      synced-Synced = elim (Bool-cases (ltb (length whole) (length file))) [
        | inl big ↦ elim (Option-cases f.truncate) [
          | inl e ↦ subst (Synced file whole es) (sym (synced-whole (inl e))) clean-Synced
          | inr (e, p) ↦
              subst (Synced file whole es) (sym (synced-stops e big p))
                (stopped-Synced h (truncate_failed e) k)
        ]
        | inr small ↦ subst (Synced file whole es) (sym (synced-whole (inr small))) clean-Synced
      ]

module _ (c : Codec) (laws : CodecLaws c) where
  module _ (f : Faults) (file whole : List ℕ) (es : List (Codec.Event c))
      (log : Log c file whole es) where
    fresh_scan-Synced :
        (fault : Option String)
        → Synced c file whole es (synced c f file fresh (scan_from c fault file 0))
    fresh_scan-Synced none = rw (Log-scan_from c laws log) (
        synced-Synced c f file whole es log fresh es (fresh-Knows c log.encodes)
          (last_seq-Numbered c 1 es log.numbered ∙ omega arith))
    fresh_scan-Synced (some e) =
        rw (scan_from-failing c laws e file 0)
          (stopped-Synced c f file whole es log fresh (read_failed e) (fresh-Knows c log.encodes))

    rescan-Synced :
        (fault : Option String) (h : Handle)
        → Knows c h whole es
        → Synced c file whole es (rescan c f file h (scan_from c fault file h.size))
    rescan-Synced none h k =
        rw (Knows-scan_from c laws k log)
          (synced-Synced c f file whole es log h k.after k (Knows-last_seq c k log.numbered))
    rescan-Synced (some e) h k =
        rw (scan_from-failing c laws e file h.size) (elim (Bool-cases (ltb 0 h.size)) [
          | inl p ↦ rw p (fresh_scan-Synced f.reread)
          | inr p ↦ rw p (stopped-Synced c f file whole es log h (read_failed e) k)
        ])

    -- A handle that has seen as many bytes as the file has.
    module _ (h : Handle) (k : Knows c h whole es) (e : eqb (length file) h.size ≡ true) where
      known-file : file ≡ whole
      known-file = Log-whole c log (ground (arith, e, Knows-before c k))

      known-handle : h ≡ at_end c whole es
      known-handle = Knows-at_end c k (ground (arith, e, Log-length c log))

      known-Synced : Synced c file whole es (record { handle = h; file = file; answer = ok tt })
      known-Synced = record { knows = k; log = log; when_ok = λ q. (known-handle, known-file) }

    guarded-Synced :
        (fault : Option String) (h : Handle) (r : Reply (Unit {0}))
        → Knows c h whole es
        → Synced c file whole es r
        → Synced c file whole es (guarded fault stat_failed h file r)
    guarded-Synced none h r k x = x
    guarded-Synced (some e) h r k x = stopped-Synced c f file whole es log h (stat_failed e) k

    not_shrunk : (h : Handle) → Knows c h whole es → ltb (length file) h.size ≡ false
    not_shrunk h k = ground (arith, Knows-before c k, Log-length c log)

    pub sync-Synced : (h : Handle) → Knows c h whole es → Synced c file whole es (sync c f h file)
    unfolding sync
    sync-Synced h k = guarded-Synced f.stat h _ k (
        rw (not_shrunk h k) (elim (Bool-cases (eqb (length file) h.size)) [
          | inl e ↦ rw e (known-Synced h k e)
          | inr e ↦ rw e (rescan-Synced f.read h k)
        ]))

  -- Where nothing fails, the torn tail is gone and the handle stands at the end.
  pub sync-no_faults :
      {h : Handle} {file whole : List ℕ} {es : List (Codec.Event c)}
      → Log c file whole es
      → Knows c h whole es
      → sync c no_faults h file ≡ clean c whole es
  unfolding sync
  sync-no_faults {h} {file} {whole} {es} log k =
      rw (not_shrunk no_faults file whole es log h k)
        (elim (Bool-cases (eqb (length file) h.size)) [
          | inl e ↦ rw e (λ i. record {
            handle = known-handle no_faults file whole es log h k e i;
            file = known-file no_faults file whole es log h k e i;
            answer = ok tt;
          })
          | inr e ↦
              rw (e, Knows-scan_from c laws k log)
                (synced-whole c no_faults file whole es log h k.after k
                  (Knows-last_seq c k log.numbered) (inl refl))
        ])
