-- ===== src/Ledger/Encode.antt =====
-- What the buffer of a write holds, and what is left of it when it is cut short.
use age_of_agents.Base.{
  ℕ, zero, suc, String, ◌≡◌, ◌⊎◌, inl, inr, refl, sym, ◌∙◌, ap, List, [], ◌∷◌, ◌++◌, take, All,
}
use mathlib.Core.List.{append_assoc}
use age_of_agents.Git.{Try}
use age_of_agents.Ledger.{Codec, LedgerError, Answer, ok, err, newline, encode, marshal_failed}
use age_of_agents.Ledger.Log.{Numbered}
use age_of_agents.Ledger.Scan.{CodecLaws, Encodes, none_yet, line, HasNoNewline}

take_line :
    (k : ℕ) (b bs : List ℕ)
    → HasNoNewline b
    → HasNoNewline (take k (b ++ newline ∷ bs))
      ⊎ ((j : ℕ) × (take k (b ++ newline ∷ bs) ≡ b ++ newline ∷ take j bs))
take_line zero b bs h = inl tt
take_line (suc k) [] bs h = inr (k, refl)
take_line (suc k) (x ∷ b) bs (p, h) = elim (take_line k b bs h) [
  | inl t ↦ inl (p, t)
  | inr (j, e) ↦ inr (j, ap (λ r. x ∷ r) e)
]

Try-cases : {A : Type 0} (m : Try A) → ((a : A) × (m ≡ Try.ok a)) ⊎ ((x : String) × (m ≡ Try.err x))
Try-cases (Try.ok a) = inl (a, refl)
Try-cases (Try.err x) = inr (x, refl)

answer_or : {A : Type 0} → A → Answer A → A
answer_or d (ok a) = a
answer_or d (err e) = d

pub ok-injective : {A : Type 0} {a b : A} → ok a ≡ ok b → a ≡ b
unfolding answer_or
ok-injective {a} q = ap (answer_or a) q

module _ (c : Codec) where
  open c use {Event, with_seq, marshal}

  -- What is left of encoded lines that are cut short.
  pub record Cut (bs : List ℕ) (es : List Event) : Type 0 where
    pub whole : List ℕ
    pub torn : List ℕ
    pub kept : List Event
    pub splits : bs ≡ whole ++ torn
    pub no_newline : HasNoNewline torn
    pub encodes : Encodes c whole kept
    pub n : ℕ
    pub first : kept ≡ take n es

  -- The events with consecutive numbers.
  abbrev pub renumber : ℕ → List Event → List Event
  renumber n [] = []
  renumber n (e ∷ es) = with_seq n e ∷ renumber (suc n) es

module _ (c : Codec) (laws : CodecLaws c) where
  open c use {Event, with_seq, marshal}

  nothing-Cut : {es : List Event} (torn : List ℕ) → HasNoNewline torn → Cut c torn es
  nothing-Cut torn h = record {
    whole = [];
    torn = torn;
    kept = [];
    splits = refl;
    no_newline = h;
    encodes = none_yet;
    n = 0;
    first = refl;
  }

  pub cut : {bs : List ℕ} {es : List Event} → Encodes c bs es → (k : ℕ) → Cut c (take k bs) es
  cut none_yet zero = nothing-Cut [] tt
  cut none_yet (suc k) = nothing-Cut [] tt
  cut (line {bs} {es} e b m r) k = elim (take_line k b bs (laws.one_line e b m)) [
    | inl t ↦ nothing-Cut (take k (b ++ newline ∷ bs)) t
    | inr (j, same) ↦
        let rest = cut r j in
        record {
          whole = b ++ newline ∷ rest.whole;
          torn = rest.torn;
          kept = e ∷ rest.kept;
          splits =
              same
              ∙ ap (λ w. b ++ newline ∷ w) rest.splits
              ∙ sym (append_assoc b (newline ∷ rest.whole) rest.torn);
          no_newline = rest.no_newline;
          encodes = line e b m rest.encodes;
          n = suc rest.n;
          first = ap (λ l. e ∷ l) rest.first;
        }
  ]

  -- The buffer of a write holds the renumbered events, a line for each, unless one is not marshalled.
  pub encode-cases :
      (n : ℕ) (es : List Event)
      → ((x : LedgerError) × (encode c n es ≡ err x))
        ⊎ ((bytes : List ℕ) × (encode c n es ≡ ok (bytes, renumber c n es))
            × Encodes c bytes (renumber c n es))
  unfolding encode
  encode-cases n [] = inr ([], refl, none_yet)
  encode-cases n (e ∷ es) = elim (Try-cases (marshal (with_seq n e))) [
    | inl (b, m) ↦ elim (encode-cases (suc n) es) [
      | inl (x, q) ↦ inl (x, rw (m, q) refl)
      | inr (bytes, q, enc) ↦
          inr (b ++ newline ∷ bytes, rw (m, q) refl, line (with_seq n e) b m enc)
    ]
    | inr (x, m) ↦ inl (marshal_failed x, rw m refl)
  ]

  pub renumber-Numbered : (n : ℕ) (es : List Event) → Numbered c n (renumber c n es)
  renumber-Numbered n [] = tt
  renumber-Numbered n (e ∷ es) = (laws.seq-with_seq n e, renumber-Numbered (suc n) es)

  pub Numbered-take : (n k : ℕ) (es : List Event) → Numbered c n es → Numbered c n (take k es)
  Numbered-take n zero es h = tt
  Numbered-take n (suc k) [] h = tt
  Numbered-take n (suc k) (e ∷ es) h = (h.0, Numbered-take (suc n) k es h.1)

module _ (c : Codec) where
  open c use {Event, with_seq, marshal}

  -- json.Marshal takes the event, whatever number it is given.
  abbrev pub Marshals : Event → Type 0
  Marshals e = (n : ℕ) → (b : List ℕ) × (marshal (with_seq n e) ≡ Try.ok b)

  pub encode-Marshals :
      (n : ℕ) (es : List Event)
      → All Marshals es
      → (bytes : List ℕ) × (encode c n es ≡ ok (bytes, renumber c n es))
  unfolding encode
  encode-Marshals n [] h = ([], refl)
  encode-Marshals n (e ∷ es) (p, h) =
      let (b, m) = p n in
      let (bytes, q) = encode-Marshals (suc n) es h in (b ++ newline ∷ bytes, rw (m, q) refl)
