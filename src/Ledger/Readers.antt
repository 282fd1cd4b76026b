-- ===== src/Ledger/Readers.antt =====
-- What Read, ReadFrom and Update answer on a log that any number of writers have called, each call with
-- faults of its own.
use age_of_agents.Base.{
  ℕ, suc, ◌+◌, String, ◌≡◌, refl, sym, ◌∙◌, ap, subst, none, List, ◌++◌, map, length, All, arith,
}
use age_of_agents.Git.{Try}
use age_of_agents.Ledger.{
  Codec, LedgerError, ok, err, Faults, no_faults, Handle, update, read, read_from, RawLine,
  decide_failed,
}
use age_of_agents.Ledger.Log.{Log, Knows, Numbered, whole-Log, Log-scan_from}
use age_of_agents.Ledger.Sync.{sync-no_faults}
use age_of_agents.Ledger.Durable.{update-Grown}
use age_of_agents.Ledger.Refused.{update-Refused, update-decide_failed}
use age_of_agents.Ledger.Write.{write-answer}
use age_of_agents.Ledger.Encode.{renumber, Marshals, ok-injective}
use age_of_agents.Ledger.Writers.{started, Call, run, run-Sound, run-Extends}
use age_of_agents.Ledger.Scan.{CodecLaws, Encodes, none_yet, scan_lines-Encodes}

module _ (c : Codec) (laws : CodecLaws c) where
  open c use {Event}

  Log-read :
      {file whole : List ℕ} {es : List Event} → Log c file whole es → read c none file ≡ ok es
  unfolding read
  Log-read log = rw (Log-scan_from c laws log) refl

  -- Read after any calls of any writers, with any faults, succeeds; what a later Read returns begins with
  -- what an earlier one did; and the sequence numbers are 1, 2, 3 and so on.
  pub read-run :
      (xs ys : List (Call c))
      → (let m = run c xs started in
          (es : List Event) × (new : List Event) × (read c none m.file ≡ ok es)
          × (read c none (run c ys m).file ≡ ok (es ++ new))
          × Numbered c 1 (es ++ new))
  read-run xs ys =
      let x = run-Sound c laws xs in
      let y = run-Extends c laws ys (run c xs started) x.sound in
      (x.new, y.new, Log-read x.sound.log, Log-read y.sound.log, y.sound.log.numbered)

  Log-read_from :
      {file pre suf : List ℕ} {es before after : List Event}
      → Log c file (pre ++ suf) es
      → Encodes c pre before
      → Encodes c suf after
      → (ls : List (RawLine c)) × (read_from c none file (length pre)
          ≡ ok (ls, length pre + length suf))
        × (map (λ l. l.event) ls ≡ after)
  unfolding read_from
  Log-read_from log x y = rw (log.splits) (scan_lines-Encodes c laws log.tail x y log.torn)

  -- ReadFrom from the start, and then, after any calls of any writers, ReadFrom from the offset that the
  -- first returned: the lines of the two together are what Read returns in the end.
  pub read_from-run :
      (xs ys : List (Call c))
      → (let m = run c xs started in
          let n = run c ys m in
          (ls : List (RawLine c)) × (ms : List (RawLine c)) × (next : ℕ) × (last : ℕ) × (read_from c
              none m.file 0
            ≡ ok (ls, next))
          × (read_from c none n.file next ≡ ok (ms, last))
          × (read c none n.file ≡ ok (map (λ l. l.event) ls ++ map (λ l. l.event) ms)))
  read_from-run xs ys =
      let x = run-Sound c laws xs in
      let y = run-Extends c laws ys (run c xs started) x.sound in
      let (ls, first, ls_events) = Log-read_from x.sound.log none_yet x.sound.log.encodes in
      let grown : Log c (run c ys (run c xs started)).file (x.grown ++ y.new_bytes)
          (x.new ++ y.new) =
        subst (λ g. Log c (run c ys (run c xs started)).file g (x.new ++ y.new)) y.grown_splits
          y.sound.log in
      let (ms, second, ms_events) = Log-read_from grown x.sound.log.encodes y.new_encodes in
      (
        ls,
        ms,
        length x.grown,
        length x.grown + length y.new_bytes,
        first ∙ ap (λ n. ok (ls, n)) (omega arith),
        second,
        rw (ls_events, ms_events) (Log-read y.sound.log),
      )

  update-no_faults :
      {h : Handle} {file whole : List ℕ} {es : List Event} {pending : List Event}
      → Log c file whole es
      → Knows c h whole es
      → (decide : List Event → Try (List Event)) → decide es ≡ Try.ok pending
      → All (Marshals c) pending
      → (update c no_faults decide h file).answer ≡ ok (renumber c (suc (length es)) pending)
  unfolding update
  update-no_faults {h} {file} {whole} {es} {pending} log k decide d p =
      rw (sync-no_faults c laws log k, Log-scan_from c laws (whole-Log c log), d)
        (write-answer c whole es pending p)

  -- Update where nothing fails, after any calls of any writers, where Read returns `es` and `decide`
  -- answers `pending`, events that json.Marshal takes: it returns them with the numbers that follow, and
  -- Read then returns `es` and those.
  pub update-run :
      (xs : List (Call c)) (w : ℕ) (decide : List Event → Try (List Event))
      {es pending : List Event}
      → read c none (run c xs started).file ≡ ok es
      → decide es ≡ Try.ok pending
      → All (Marshals c) pending
      → (let m = run c xs started in
          let r = update c no_faults decide (m.handles w) m.file in
          let stored = renumber c (suc (length es)) pending in
          (r.answer ≡ ok stored) × (read c none r.file ≡ ok (es ++ stored)))
  update-run xs w decide {es} {pending} h d p =
      let x = run-Sound c laws xs in
      let m = run c xs started in
      let same : x.new ≡ es = ok-injective (sym (Log-read x.sound.log) ∙ h) in
      let grown = update-Grown c laws x.sound.log (x.sound.knows w) no_faults decide in
      let answer : (update c no_faults decide (m.handles w) m.file).answer
          ≡ ok (renumber c (suc (length es)) pending) =
        subst
          (λ l.
            (update c no_faults decide (m.handles w) m.file).answer
            ≡ ok (renumber c (suc (length l)) pending))
          same (update-no_faults x.sound.log (x.sound.knows w) decide (ap decide same ∙ d) p) in
      (answer, rw (grown.when_ok _ answer, sym same) (Log-read grown.log))

  -- Update where `decide` answers an error on what Read returns, after any calls of any writers and
  -- whatever else fails in the call: it answers an error, and Read returns what it did before. Where
  -- nothing else fails, it is the error of `decide`.
  pub update-refused :
      (xs : List (Call c)) (w : ℕ) (f : Faults) (decide : List Event → Try (List Event))
      {es : List Event} {x : String}
      → read c none (run c xs started).file ≡ ok es
      → decide es ≡ Try.err x
      → (let m = run c xs started in
          let r = update c f decide (m.handles w) m.file in
          ((e : LedgerError) × (r.answer ≡ err e))
          × (read c none r.file ≡ ok es)
          × ((update c no_faults decide (m.handles w) m.file).answer ≡ err (decide_failed x)))
  update-refused xs w f decide {es} {x} h d =
      let s = (run-Sound c laws xs).sound in
      let same : (run-Sound c laws xs).new ≡ es = ok-injective (sym (Log-read s.log) ∙ h) in
      let refuses = ap decide same ∙ d in
      let r = update-Refused c laws s.log (s.knows w) f decide refuses in
      (
        (r.error, r.answer_lem),
        Log-read r.log ∙ ap (λ l. ok l) same,
        update-decide_failed c laws s.log (s.knows w) decide refuses,
      )
