-- ===== src/Ledger/Lines.antt =====
-- internal/ledger/ledger.go: the lines of a log file, and scanLines and scanFrom over them.
-- encoding/json, bytes.TrimSpace and the event type are the fields of `Codec`.
use age_of_agents.Base.{
  ℕ, zero, suc, ◌+◌, ◌-◌, String, ◌&&◌, Option, none, some, List, [], ◌∷◌, map, length, is_empty,
  drop, eqb, if◌then◌else◌,
}
use age_of_agents.Git.{Try}

pub record Codec : Type 1 where
  -- api.Event, of which the ledger reads and writes Seq
  pub Event : Type 0
  pub seq : Event → ℕ
  pub with_seq : ℕ → Event → Event
  -- json.Marshal and json.Unmarshal
  pub marshal : Event → Try (List ℕ)
  pub unmarshal : List ℕ → Option Event
  -- bytes.TrimSpace
  pub trim : List ℕ → List ℕ

pub data LedgerError : Type 0 where
  mkdir_failed lock_unavailable lock_failed unlock_failed stat_failed read_failed :
      String → LedgerError
  truncate_failed marshal_failed write_failed decide_failed : String → LedgerError
  past_end not_line_start corrupt : ℕ → LedgerError

pub data Answer {ℓ} (A : Type ℓ) : Type ℓ where
  ok : A → Answer A
  err : LedgerError → Answer A

infixl 5 ◌>>=◌
abbrev pub ◌>>=◌ {ℓ κ} : {A : Type ℓ} {B : Type κ} → Answer A → (A → Answer B) → Answer B
ok a >>= f = f a
err e >>= f = err e

abbrev pub newline : ℕ
newline = 10

abbrev pub cons_first : ℕ → List (List ℕ) × List ℕ → List (List ℕ) × List ℕ
cons_first b ([], tail) = ([], b ∷ tail)
cons_first b (l ∷ ls, tail) = ((b ∷ l) ∷ ls, tail)

-- The lines that a newline ends, and the bytes after the last newline.
unfoldable pub lines_of : List ℕ → List (List ℕ) × List ℕ
lines_of [] = ([], [])
lines_of (b ∷ bs) =
    if eqb b newline then ([] ∷ (lines_of bs).0, (lines_of bs).1) else cons_first b (lines_of bs)

abbrev pub faulty {ℓ} : {A : Type ℓ} → Option String → (String → LedgerError) → Answer A → Answer A
faulty none wrap r = r
faulty (some e) wrap r = err (wrap e)

module _ (c : Codec) where
  open c use {Event, seq, with_seq, marshal, unmarshal, trim}

  pub record RawLine : Type 0 where
    pub event : Event
    pub bytes : List ℕ

  abbrev pub add_line : RawLine → List RawLine × ℕ → List RawLine × ℕ
  add_line l (ls, valid) = (l ∷ ls, valid)

  -- The loop of scanLines from the offset `at` on, over the complete lines and what follows the last.
  unfoldable pub decode : ℕ → List (List ℕ) → List ℕ → Answer (List RawLine × ℕ)
  decode at [] tail = ok ([], at)
  decode at (l ∷ ls) tail =
      let rest = decode (suc (at + length l)) ls tail in
      if is_empty (trim l) then rest else elim (unmarshal (trim l)) [
        | none ↦ if is_empty ls && is_empty tail then ok ([], at) else err (corrupt (at + length l))
        | some e ↦ rest >>= λ r. ok (add_line (record { event = e; bytes = l }) r)
      ]

  abbrev pub decode_all : ℕ → List ℕ → Answer (List RawLine × ℕ)
  decode_all at bytes = decode at (lines_of bytes).0 (lines_of bytes).1

  -- The byte before the offset must end a line.
  abbrev pub decode_after : ℕ → List ℕ → Answer (List RawLine × ℕ)
  decode_after zero bytes = decode_all zero bytes
  decode_after (suc n) [] = err (past_end (suc n))
  decode_after (suc n) (b ∷ bytes) =
      if eqb b newline then decode_all (suc n) bytes else err (not_line_start (suc n))

  -- scanLines, with readFrom
  unfoldable pub scan_lines : Option String → List ℕ → ℕ → Answer (List RawLine × ℕ)
  unfolding lines_of decode
  scan_lines fault file offset =
      faulty fault read_failed (decode_after offset (drop (offset - 1) file))

  -- scanFrom
  unfoldable pub scan_from : Option String → List ℕ → ℕ → Answer (List Event × ℕ)
  unfolding scan_lines
  scan_from fault file offset =
      scan_lines fault file offset >>= λ r. ok (map (λ l. l.event) r.0, r.1)
