-- ===== src/Ledger/Log.antt =====
-- The state of a log, and of the handles on it.
use age_of_agents.Base.{
  ℕ, suc, ◌+◌, ◌≤◌, ◌≡◌, refl, sym, ◌∙◌, ap, subst, none, List, [], ◌∷◌, ◌++◌, length,
  length-append, take, arith,
}
use mathlib.Core.List.{append_assoc, append-nil}
use age_of_agents.Ledger.{Codec, ok, newline, Handle, fresh, last_seq, scan_from}
use age_of_agents.Ledger.Scan.{
  CodecLaws, HasNoNewline, Encodes, Encodes-append, none_yet, line, scan_from-Encodes,
}

pub take-append : (q x : List ℕ) → take (length q) (q ++ x) ≡ q
take-append [] x = refl
take-append (b ∷ q) x = ap (λ r. b ∷ r) (take-append q x)

pub append-none : (q x : List ℕ) → length x ≡ 0 → q ++ x ≡ q
append-none q [] h = append-nil q
append-none q (b ∷ x) h = absurd (omega arith)

pub Handle-eq : {h g : Handle} → h.next_seq ≡ g.next_seq → h.size ≡ g.size → h ≡ g
Handle-eq p q = λ i. record { next_seq = p i; size = q i }

module _ (c : Codec) where
  -- The sequence numbers run from n without a gap.
  abbrev pub Numbered : ℕ → List (Codec.Event c) → Type 0
  Numbered n [] = Unit
  Numbered n (e ∷ es) = (Codec.seq c e ≡ n) × Numbered (suc n) es

  -- The file holds these events in whole lines, and after them at most part of a line.
  pub record Log (file whole : List ℕ) (es : List (Codec.Event c)) : Type 0 where
    pub tail : List ℕ
    pub splits : file ≡ whole ++ tail
    pub torn : HasNoNewline tail
    pub encodes : Encodes c whole es
    pub numbered : Numbered 1 es

  -- The handle stands at the end of a line of the log.
  pub record Knows (h : Handle) (whole : List ℕ) (es : List (Codec.Event c)) : Type 0 where
    pub before : List (Codec.Event c)
    pub after : List (Codec.Event c)
    pub seen : List ℕ
    pub unseen : List ℕ
    pub whole_splits : whole ≡ seen ++ unseen
    pub es_splits : es ≡ before ++ after
    pub seen_encodes : Encodes c seen before
    pub unseen_encodes : Encodes c unseen after
    pub size_lem : h.size ≡ length seen
    pub next_seq_lem : h.next_seq ≡ suc (length before)

  pub Numbered-append :
      (n : ℕ) (es fs : List (Codec.Event c))
      → Numbered n es
      → Numbered (n + length es) fs
      → Numbered n (es ++ fs)
  Numbered-append n [] fs x y = subst (λ k. Numbered k fs) (omega arith) y
  Numbered-append n (e ∷ es) fs x y =
      (x.0, Numbered-append (suc n) es fs x.1 (subst (λ k. Numbered k fs) (omega arith) y))

  pub Numbered-after :
      (n : ℕ) (es fs : List (Codec.Event c)) → Numbered n (es ++ fs) → Numbered (n + length es) fs
  Numbered-after n [] fs x = subst (λ k. Numbered k fs) (omega arith) x
  Numbered-after n (e ∷ es) fs x =
      subst (λ k. Numbered k fs) (omega arith) (Numbered-after (suc n) es fs x.1)

  last_seq-start :
      (e : Codec.Event c) (es : List (Codec.Event c)) (n m : ℕ)
      → last_seq c (e ∷ es) n ≡ last_seq c (e ∷ es) m
  last_seq-start e [] n m = refl
  last_seq-start e (d ∷ es) n m = last_seq-start d es n m

  pub last_seq-Numbered :
      (n : ℕ) (es : List (Codec.Event c)) → Numbered n es → last_seq c es n ≡ n + length es
  last_seq-Numbered n [] x = omega arith
  last_seq-Numbered n (e ∷ []) x = omega (arith, x.0)
  last_seq-Numbered n (e ∷ d ∷ es) x =
      last_seq-start d es n (suc n) ∙ last_seq-Numbered (suc n) (d ∷ es) x.1 ∙ omega arith

  pub Encodes-length :
      {bs : List ℕ} {es : List (Codec.Event c)}
      → Encodes c bs es
      → length bs ≡ 0
      → (bs ≡ []) × (es ≡ [])
  Encodes-length none_yet h = (refl, refl)
  Encodes-length (line {bs} e b m r) h =
      absurd (omega (arith, h, length-append {0} b (newline ∷ bs)))

  -- What a handle at the end of the log says.
  abbrev pub at_end : List ℕ → List (Codec.Event c) → Handle
  at_end whole es = record { next_seq = suc (length es); size = length whole }

  pub at_end-Knows :
      {whole : List ℕ} {es : List (Codec.Event c)}
      → Encodes c whole es
      → Knows (at_end whole es) whole es
  at_end-Knows {whole} {es} x = record {
    before = es;
    after = [];
    seen = whole;
    unseen = [];
    whole_splits = sym (append-nil whole);
    es_splits = sym (append-nil es);
    seen_encodes = x;
    unseen_encodes = none_yet;
    size_lem = refl;
    next_seq_lem = refl;
  }

  pub fresh-Knows :
      {whole : List ℕ} {es : List (Codec.Event c)} → Encodes c whole es → Knows fresh whole es
  fresh-Knows {whole} {es} x = record {
    before = [];
    after = es;
    seen = [];
    unseen = whole;
    whole_splits = refl;
    es_splits = refl;
    seen_encodes = none_yet;
    unseen_encodes = x;
    size_lem = refl;
    next_seq_lem = refl;
  }

  pub Knows-extends :
      {h : Handle} {whole more : List ℕ} {es new : List (Codec.Event c)}
      → Knows h whole es
      → Encodes c more new
      → Knows h (whole ++ more) (es ++ new)
  Knows-extends {more} {new} k x = record {
    before = k.before;
    after = k.after ++ new;
    seen = k.seen;
    unseen = k.unseen ++ more;
    whole_splits = rw (k.whole_splits) (append_assoc k.seen k.unseen more);
    es_splits = rw (k.es_splits) (append_assoc k.before k.after new);
    seen_encodes = k.seen_encodes;
    unseen_encodes = Encodes-append c k.unseen_encodes x;
    size_lem = k.size_lem;
    next_seq_lem = k.next_seq_lem;
  }

  pub whole-Log :
      {file whole : List ℕ} {es : List (Codec.Event c)} → Log file whole es → Log whole whole es
  whole-Log {whole} log = record {
    tail = [];
    splits = sym (append-nil whole);
    torn = tt;
    encodes = log.encodes;
    numbered = log.numbered;
  }

  pub Log-length :
      {file whole : List ℕ} {es : List (Codec.Event c)}
      → Log file whole es
      → length whole ≤ length file
  Log-length {file} {whole} log =
      omega (arith, ap length log.splits, length-append {0} whole log.tail)

  pub Log-whole :
      {file whole : List ℕ} {es : List (Codec.Event c)}
      → Log file whole es
      → length file ≤ length whole
      → file ≡ whole
  Log-whole {file} {whole} log h =
      log.splits
      ∙ append-none whole log.tail
          (omega (arith, h, ap length log.splits, length-append {0} whole log.tail))

  pub take-Log :
      {file whole : List ℕ} {es : List (Codec.Event c)}
      → Log file whole es
      → take (length whole) file ≡ whole
  take-Log {file} {whole} log = rw (log.splits) (take-append whole log.tail)

  pub Knows-before :
      {h : Handle} {whole : List ℕ} {es : List (Codec.Event c)}
      → Knows h whole es
      → h.size ≤ length whole
  Knows-before k =
      omega (arith, k.size_lem, ap length k.whole_splits, length-append {0} k.seen k.unseen)

  -- A handle that has seen as many bytes as the log has stands at its end.
  pub Knows-at_end :
      {h : Handle} {whole : List ℕ} {es : List (Codec.Event c)}
      → Knows h whole es
      → length whole ≤ h.size
      → h ≡ at_end whole es
  Knows-at_end {h} {whole} {es} k reached =
      let sum : length whole ≡ length k.seen + length k.unseen =
        ap length k.whole_splits ∙ length-append {0} k.seen k.unseen in
      let (u, a) = Encodes-length k.unseen_encodes (omega (arith, sum, reached, k.size_lem)) in
      let same : es ≡ k.before = k.es_splits ∙ rw a (append-nil k.before) in
      Handle-eq (k.next_seq_lem ∙ ap (λ l. suc (length l)) (sym same))
        (omega (arith, Knows-before k, reached))

  -- What a handle has not seen is numbered from its next number on.
  pub Knows-last_seq :
      {h : Handle} {whole : List ℕ} {es : List (Codec.Event c)}
      → (k : Knows h whole es) → Numbered 1 es
      → last_seq c k.after h.next_seq ≡ suc (length es)
  Knows-last_seq {h} {es} k x =
      last_seq-Numbered h.next_seq k.after (
        subst (λ n. Numbered n k.after) (omega (arith, k.next_seq_lem))
          (Numbered-after 1 k.before k.after (subst (Numbered 1) k.es_splits x)))
      ∙ omega (arith, k.next_seq_lem, ap length k.es_splits, length-append {0} k.before k.after)

module _ (c : Codec) (laws : CodecLaws c) where
  -- A scan from where a handle stands reads what it has not seen.
  pub Knows-scan_from :
      {h : Handle} {file whole : List ℕ} {es : List (Codec.Event c)}
      → (k : Knows c h whole es) → Log c file whole es
      → scan_from c none file h.size ≡ ok (k.after, length whole)
  Knows-scan_from {h} {file} {whole} k log =
      let same : file ≡ k.seen ++ k.unseen ++ log.tail =
        log.splits ∙ ap (λ w. w ++ log.tail) k.whole_splits in
      let size : length k.seen + length k.unseen ≡ length whole =
        omega (arith, ap length k.whole_splits, length-append {0} k.seen k.unseen) in
      rw (same, k.size_lem)
        (scan_from-Encodes c laws log.tail k.seen_encodes k.unseen_encodes log.torn
          ∙ ap (λ n. ok (k.after, n)) size)

  pub Log-scan_from :
      {file whole : List ℕ} {es : List (Codec.Event c)}
      → Log c file whole es
      → scan_from c none file 0 ≡ ok (es, length whole)
  Log-scan_from {whole} {es} log =
      subst (λ w. scan_from c none w 0 ≡ ok (es, length whole)) (sym log.splits)
        (scan_from-Encodes c laws log.tail none_yet log.encodes log.torn
          ∙ ap (λ n. ok (es, n)) (omega arith))
