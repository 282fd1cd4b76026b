-- ===== src/Ledger/Scan.antt =====
-- What a scan reads of a file that holds whole lines and, after them, part of one.
use age_of_agents.Base.{
  ℕ, suc, String, ◌+◌, ◌-◌, false, ◌≡◌, ◌⊎◌, inl, inr, refl, sym, ◌∙◌, ap, subst, none, some, List,
  [], ◌∷◌, ◌++◌, map, length, length-append, is_empty, drop, eqb, All, arith,
}
use mathlib.Core.List.{append_assoc}
use age_of_agents.Git.{Try}
use age_of_agents.Ledger.{
  Codec, ok, err, newline, lines_of, RawLine, decode, decode_all, decode_after, scan_lines,
  scan_from, read_failed,
}

-- What the ledger relies on of encoding/json: a marshalled event is one line, is not blank, and is
-- unmarshalled as it was.
pub record CodecLaws (c : Codec) : Type 0 where
  pub one_line :
      (e : Codec.Event c) (b : List ℕ)
      → Codec.marshal c e ≡ Try.ok b
      → All (λ x. eqb x newline ≡ false) b
  pub not_blank :
      (e : Codec.Event c) (b : List ℕ)
      → Codec.marshal c e ≡ Try.ok b
      → is_empty (Codec.trim c b) ≡ false
  pub decodes :
      (e : Codec.Event c) (b : List ℕ)
      → Codec.marshal c e ≡ Try.ok b
      → Codec.unmarshal c (Codec.trim c b) ≡ some e
  pub seq-with_seq : (n : ℕ) (e : Codec.Event c) → Codec.seq c (Codec.with_seq c n e) ≡ n

abbrev pub HasNoNewline : List ℕ → Type 0
HasNoNewline bs = All (λ b. eqb b newline ≡ false) bs

lines_of-tail : (t : List ℕ) → HasNoNewline t → lines_of t ≡ ([], t)
unfolding lines_of
lines_of-tail [] h = refl
lines_of-tail (b ∷ t) h = rw (h.0, lines_of-tail t h.1)

lines_of-line :
    (l rest : List ℕ)
    → HasNoNewline l
    → lines_of (l ++ newline ∷ rest) ≡ (l ∷ (lines_of rest).0, (lines_of rest).1)
unfolding lines_of
lines_of-line [] rest h = refl
lines_of-line (b ∷ l) rest h = rw (h.0, lines_of-line l rest h.1)

pub drop-append : (q x : List ℕ) → drop (length q) (q ++ x) ≡ x
drop-append [] x = refl
drop-append (b ∷ q) x = drop-append q x

module _ (c : Codec) where
  -- The bytes of a list of events, a line for each.
  pub data Encodes : List ℕ → List (Codec.Event c) → Type 0 where
    none_yet : Encodes [] []
    line :
        {bs : List ℕ} {es : List (Codec.Event c)} (e : Codec.Event c) (b : List ℕ)
        → Codec.marshal c e ≡ Try.ok b
        → Encodes bs es
        → Encodes (b ++ newline ∷ bs) (e ∷ es)

  pub Encodes-append :
      {xs bs : List ℕ} {es fs : List (Codec.Event c)}
      → Encodes xs es
      → Encodes bs fs
      → Encodes (xs ++ bs) (es ++ fs)
  Encodes-append none_yet x = x
  Encodes-append {bs} {fs} (line {bs = xs} {es} e b m r) x =
      subst (λ q. Encodes q (e ∷ es ++ fs)) (sym (append_assoc b (newline ∷ xs) bs))
        (line e b m (Encodes-append r x))

  pub EndsLine : List ℕ → Type 0
  EndsLine bs = (bs ≡ []) ⊎ ((q : List ℕ) × (bs ≡ q ++ newline ∷ []))

  EndsLine-append : (b bs : List ℕ) → EndsLine bs → EndsLine (b ++ newline ∷ bs)
  unfolding EndsLine
  EndsLine-append b bs (inl e) = inr (b, rw e refl)
  EndsLine-append b bs (inr (q, e)) =
      inr (b ++ newline ∷ q, rw e (sym (append_assoc b (newline ∷ q) (newline ∷ []))))

  pub Encodes-EndsLine : {bs : List ℕ} {es : List (Codec.Event c)} → Encodes bs es → EndsLine bs
  unfolding EndsLine
  Encodes-EndsLine none_yet = inl refl
  Encodes-EndsLine (line {bs} e b m r) = EndsLine-append b bs (Encodes-EndsLine r)

  -- An offset that ends a line is accepted, and the bytes after it are scanned.
  pub decode_after-EndsLine :
      (pre x : List ℕ)
      → EndsLine pre
      → decode_after c (length pre) (drop (length pre - 1) (pre ++ x)) ≡ decode_all c (length pre) x
  unfolding EndsLine
  decode_after-EndsLine pre x (inl e) = rw e refl
  decode_after-EndsLine pre x (inr (q, e)) =
      rw (e, append_assoc q (newline ∷ []) x)
        (let size : length (q ++ newline ∷ []) ≡ suc (length q) =
            omega (arith, length-append {0} q (newline ∷ [])) in
          rw (size) (
            ap (decode_after c (suc (length q)))
              (ap (λ n. drop n (q ++ newline ∷ x)) (omega arith) ∙ drop-append q (newline ∷ x))))

module _ (c : Codec) (laws : CodecLaws c) where
  -- Whole lines are read, and the rest is not.
  pub decode-Encodes :
      {bs : List ℕ} {es : List (Codec.Event c)} (at : ℕ) (tail : List ℕ)
      → Encodes c bs es
      → HasNoNewline tail
      → (ls : List (RawLine c)) × (decode_all c at (bs ++ tail) ≡ ok (ls, at + length bs))
        × (map (λ l. l.event) ls ≡ es)
  unfolding decode
  decode-Encodes at tail none_yet h =
      ([], rw (lines_of-tail tail h) (ap (λ n. ok ([], n)) (omega arith)), refl)
  decode-Encodes at tail (line {bs} {es} e b m r) h =
      let (ls, k, same) = decode-Encodes (suc (at + length b)) tail r h in
      (
        record { event = e; bytes = b } ∷ ls,
        rw
            (
              append_assoc b (newline ∷ bs) tail,
              lines_of-line b (bs ++ tail) (laws.one_line e b m),
              laws.not_blank e b m,
              laws.decodes e b m,
              k,
            )
            (ap (λ n. ok (record { event = e; bytes = b } ∷ ls, n))
              (omega (arith, length-append {0} b (newline ∷ bs)))),
        ap (λ xs. e ∷ xs) same,
      )

  -- A scan from the end of a line reads the whole lines that follow.
  pub scan_lines-Encodes :
      {pre suf : List ℕ} {before after : List (Codec.Event c)} (tail : List ℕ)
      → Encodes c pre before
      → Encodes c suf after
      → HasNoNewline tail
      → (ls : List (RawLine c)) × (scan_lines c none (pre ++ suf ++ tail) (length pre)
          ≡ ok (ls, length pre + length suf))
        × (map (λ l. l.event) ls ≡ after)
  unfolding scan_lines
  scan_lines-Encodes {pre} {suf} tail x y h =
      let (ls, k, same) = decode-Encodes (length pre) tail y h in
      (
        ls,
        rw (append_assoc pre suf tail)
            (decode_after-EndsLine c pre (suf ++ tail) (Encodes-EndsLine c x) ∙ k),
        same,
      )

  pub scan_from-Encodes :
      {pre suf : List ℕ} {before after : List (Codec.Event c)} (tail : List ℕ)
      → Encodes c pre before
      → Encodes c suf after
      → HasNoNewline tail
      → scan_from c none (pre ++ suf ++ tail) (length pre) ≡ ok (after, length pre + length suf)
  unfolding scan_from
  scan_from-Encodes tail x y h =
      let (ls, k, same) = scan_lines-Encodes tail x y h in rw (k, same) refl

  pub scan_from-failing :
      (e : String) (file : List ℕ) (n : ℕ) → scan_from c (some e) file n ≡ err (read_failed e)
  unfolding scan_from scan_lines
  scan_from-failing e file n = refl
