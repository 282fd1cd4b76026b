-- ===== src/Ledger/Write.antt =====
-- What a write adds to the log, the whole of it or a part.
use age_of_agents.Base.{
  ℕ, suc, ◌+◌, String, ◌≡◌, inl, inr, refl, sym, ◌∙◌, ap, subst, Option, none, some, List, [], ◌∷◌,
  ◌++◌, length, length-append, take, All, arith,
}
use mathlib.Core.List.{append_assoc, append-nil}
use age_of_agents.Ledger.{
  Codec, LedgerError, Answer, ok, err, Handle, fresh, Reply, encode, appended, write, write_failed,
}
use age_of_agents.Ledger.Log.{
  Log, Knows, Numbered, Numbered-append, Handle-eq, at_end, at_end-Knows, fresh-Knows,
}
use age_of_agents.Ledger.Scan.{CodecLaws, Encodes, none_yet, Encodes-append}
use age_of_agents.Ledger.Encode.{
  cut, renumber, encode-cases, renumber-Numbered, Numbered-take, Marshals, encode-Marshals,
  ok-injective,
}

module _ (c : Codec) where
  open c use {Event}

  -- What a call leaves of a log of these events: as many more, in whole lines.
  pub record Grown (whole : List ℕ) (es : List Event) (r : Reply (List Event)) : Type 0 where
    pub grown : List ℕ
    pub new_bytes : List ℕ
    pub new : List Event
    pub grown_splits : grown ≡ whole ++ new_bytes
    pub new_encodes : Encodes c new_bytes new
    pub log : Log c r.file grown (es ++ new)
    pub knows : Knows c r.handle grown (es ++ new)
    pub when_ok : (stored : List Event) → r.answer ≡ ok stored → stored ≡ new

  pub unchanged-Grown :
      {h : Handle} {file whole : List ℕ} {es : List Event}
      → Log c file whole es
      → Knows c h whole es
      → (a : Answer (List Event)) → ((stored : List Event) → a ≡ ok stored → stored ≡ [])
      → Grown whole es (record { handle = h; file = file; answer = a })
  unchanged-Grown {h} {file} {whole} {es} log k a x = record {
    grown = whole;
    new_bytes = [];
    new = [];
    grown_splits = sym (append-nil whole);
    new_encodes = none_yet;
    log = subst (Log c file whole) (sym (append-nil es)) log;
    knows = subst (Knows c h whole) (sym (append-nil es)) k;
    when_ok = x;
  }

  pub refused-Grown :
      {h : Handle} {file whole : List ℕ} {es : List Event}
      → Log c file whole es
      → Knows c h whole es
      → (e : LedgerError) → Grown whole es (record { handle = h; file = file; answer = err e })
  refused-Grown log k e = unchanged-Grown log k (err e) (λ stored q. absurd (cc))

module _ (c : Codec) (laws : CodecLaws c) where
  open c use {Event, with_seq, marshal}

  module _ {whole bytes : List ℕ} {es new : List Event} (log : Log c whole whole es)
      (enc : Encodes c bytes new) (num : Numbered c (suc (length es)) new) where
    grown-Log : Log c (whole ++ bytes) (whole ++ bytes) (es ++ new)
    grown-Log = record {
      tail = [];
      splits = sym (append-nil (whole ++ bytes));
      torn = tt;
      encodes = Encodes-append c log.encodes enc;
      numbered =
          Numbered-append c 1 es new log.numbered (subst (λ n. Numbered c n new) (omega arith) num);
    }

    -- A write that is cut short leaves whole lines and a part of one.
    torn-Grown :
        (k : ℕ) (x : LedgerError)
        → Grown c whole es (record { handle = fresh; file = whole ++ take k bytes; answer = err x })
    torn-Grown k x =
        let part = cut c laws enc k in
        let encodes : Encodes c (whole ++ part.whole) (es ++ part.kept) =
          Encodes-append c log.encodes part.encodes in
        record {
          grown = whole ++ part.whole;
          new_bytes = part.whole;
          new = part.kept;
          grown_splits = refl;
          new_encodes = part.encodes;
          log = record {
            tail = part.torn;
            splits =
                ap (λ w. whole ++ w) part.splits ∙ sym (append_assoc whole part.whole part.torn);
            torn = part.no_newline;
            encodes = encodes;
            numbered = Numbered-append c 1 es part.kept log.numbered (
                rw part.first (
                  subst (λ n. Numbered c n (take part.n new)) (omega arith)
                    (Numbered-take c laws (suc (length es)) part.n new num)));
          };
          knows = fresh-Knows c encodes;
          when_ok = λ stored q. absurd (cc);
        }

    written-Grown : Grown c whole es (record {
      handle = record {
        next_seq = suc (length es) + length new;
        size = length whole + length bytes;
      };
      file = whole ++ bytes;
      answer = ok new;
    })
    written-Grown = record {
      grown = whole ++ bytes;
      new_bytes = bytes;
      new = new;
      grown_splits = refl;
      new_encodes = enc;
      log = grown-Log;
      knows =
          subst (λ h. Knows c h (whole ++ bytes) (es ++ new))
            (Handle-eq (omega (arith, length-append {0} es new))
              (omega (arith, length-append {0} whole bytes)))
            (at_end-Knows c grown-Log.encodes);
      when_ok = λ stored q. sym (ok-injective q);
    }

  appended-Grown :
      {whole : List ℕ} {es : List Event} (log : Log c whole whole es) (pending : List Event)
      (fault : Option (ℕ × String))
      → Grown c whole es
          (appended c (encode c (suc (length es)) pending) fault (at_end c whole es) whole)
  appended-Grown {whole} {es} log pending fault =
      elim (encode-cases c laws (suc (length es)) pending) [
        | inl (x, q) ↦ rw q (refused-Grown c log (at_end-Knows c log.encodes) x)
        | inr (bytes, q, enc) ↦ rw q (buffer enc fault)
      ]
    where
      buffer :
          {bytes : List ℕ}
          → Encodes c bytes (renumber c (suc (length es)) pending)
          → (w : Option (ℕ × String))
          → Grown c whole es (
              appended c
                (ok (bytes, renumber c (suc (length es)) pending))
                w
                (at_end c whole es)
                whole)
      buffer enc none = written-Grown log enc (renumber-Numbered c laws (suc (length es)) pending)
      buffer enc (some (k, x)) =
          torn-Grown log enc (renumber-Numbered c laws (suc (length es)) pending) k (write_failed x)

  pub write-Grown :
      {whole : List ℕ} {es : List Event}
      → Log c whole whole es
      → (pending : List Event) (fault : Option (ℕ × String))
      → Grown c whole es (write c fault (at_end c whole es) whole pending)
  write-Grown log [] fault =
      unchanged-Grown c log (at_end-Knows c log.encodes) (ok []) (λ stored q. sym (ok-injective q))
  write-Grown log (e ∷ pending) fault = appended-Grown log (e ∷ pending) fault

module _ (c : Codec) where
  open c use {Event}

  pub write-answer :
      (whole : List ℕ) (es pending : List Event)
      → All (Marshals c) pending
      → (write c none (at_end c whole es) whole pending).answer
        ≡ ok (renumber c (suc (length es)) pending)
  write-answer whole es [] h = refl
  write-answer whole es (e ∷ pending) h =
      let (bytes, q) = encode-Marshals c (suc (length es)) (e ∷ pending) h in rw q refl
