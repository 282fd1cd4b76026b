-- ===== src/Ledger/Examples.antt =====
-- Tests of the ledger, with a small codec: a note is its number and a flag, and is marshalled in unary.
use age_of_agents.Base.{
  ℕ, zero, suc, Bool, true, false, ◌≡◌, refl, subst, Option, none, some, List, [], ◌∷◌, ◌++◌, map,
  is_empty, eqb, if◌then◌else◌,
}
use age_of_agents.Git.{Try}
use age_of_agents.Ledger.{
  Codec, ok, err, Faults, no_faults, lines_of, decode, scan_lines, scan_from, sync, encode, read,
  read_from, update, append, open_ledger, RawLine, LedgerError, decide_failed,
}
use age_of_agents.Ledger.Log.{Numbered}
use age_of_agents.Ledger.Scan.{CodecLaws, HasNoNewline}
use age_of_agents.Ledger.Writers.{started, Call, opens, appends, updates, step, run}
use age_of_agents.Ledger.Readers.{read-run, read_from-run, update-run, update-refused}

pub record Note : Type 0 where
  pub number : ℕ
  pub flag : Bool

abbrev mark : Bool → ℕ
mark true = 3
mark false = 2

abbrev unary : ℕ → Bool → List ℕ
unary zero b = mark b ∷ []
unary (suc n) b = 1 ∷ unary n b

abbrev one_more : Option Note → Option Note
one_more none = none
one_more (some n) = some (record { number = suc n.number; flag = n.flag })

abbrev from_unary : List ℕ → Option Note
from_unary [] = none
from_unary (x ∷ xs) =
    let rest = one_more (from_unary xs) in
    if eqb x 1
    then rest
    else if eqb x 2
    then some (record { number = 0; flag = false })
    else if eqb x 3
    then some (record { number = 0; flag = true })
    else none

abbrev notes : Codec
notes = record {
  Event = Note;
  seq = λ e. e.number;
  with_seq = λ n e. record { number = n; flag = e.flag };
  marshal = λ e. Try.ok (unary e.number e.flag);
  unmarshal = from_unary;
  trim = λ bs. bs;
}

unary_line : (n : ℕ) (b : Bool) → HasNoNewline (unary n b)
unary_line zero true = (refl, tt)
unary_line zero false = (refl, tt)
unary_line (suc n) b = (refl, unary_line n b)

unary_full : (n : ℕ) (b : Bool) → is_empty (unary n b) ≡ false
unary_full zero b = refl
unary_full (suc n) b = refl

from_unary-unary :
    (n : ℕ) (b : Bool) → from_unary (unary n b) ≡ some (record { number = n; flag = b })
from_unary-unary zero true = refl
from_unary-unary zero false = refl
from_unary-unary (suc n) b = rw (from_unary-unary n b) refl

marshalled_as :
    (e : Note) {b : List ℕ}
    → ◌≡◌ {A = Try (List ℕ)} (Try.ok (unary e.number e.flag)) (Try.ok b)
    → unary e.number e.flag ≡ b
marshalled_as e m = cc

notes-laws : CodecLaws notes
notes-laws = record {
  one_line = λ e b m. subst HasNoNewline (marshalled_as e m) (unary_line e.number e.flag);
  not_blank =
      λ e b m. subst (λ x. is_empty x ≡ false) (marshalled_as e m) (unary_full e.number e.flag);
  decodes = λ e b m.
      subst (λ x. from_unary x ≡ some e) (marshalled_as e m) (from_unary-unary e.number e.flag);
  seq-with_seq = λ n e. refl;
}

abbrev raised : Note
raised = record { number = 0; flag = true }

abbrev lowered : Note
lowered = record { number = 0; flag = false }

-- The second write fails after 4 bytes of 7: one whole line, and part of another.
abbrev torn : Faults
torn = record no_faults { write = some (4, "no space left on device") }

abbrev adds : List Note → List Note → Try (List Note)
adds pending es = Try.ok pending

abbrev calls : List (Call notes)
calls =
    opens 0 no_faults
    ∷ appends 0 no_faults raised
    ∷ updates 1 torn (adds (lowered ∷ raised ∷ []))
    ∷ []

abbrev two_notes : List Note
two_notes = record { number = 1; flag = true } ∷ record { number = 2; flag = false } ∷ []

calls-read : read notes none (run notes calls started).file ≡ ok two_notes
unfolding run step open_ledger append update sync encode read scan_from scan_lines decode lines_of
    started
calls-read = refl

read-run_example :
    (es : List Note) × (new : List Note) × (read notes none (run notes calls started).file ≡ ok es)
    × (read notes none (run notes calls (run notes calls started)).file ≡ ok (es ++ new))
    × Numbered notes 1 (es ++ new)
read-run_example = read-run notes notes-laws calls calls

read_from-run_example :
    (ls : List (RawLine notes)) × (ms : List (RawLine notes)) × (next : ℕ) × (last : ℕ) × (read_from
        notes none
        (run notes calls started).file
        0
      ≡ ok (ls, next))
    × (read_from notes none (run notes calls (run notes calls started)).file next ≡ ok (ms, last))
    × (read notes none (run notes calls (run notes calls started)).file
        ≡ ok (map (λ l. l.event) ls ++ map (λ l. l.event) ms))
read_from-run_example = read_from-run notes notes-laws calls calls

update-run_example :
    ((update notes no_faults
        (adds (lowered ∷ []))
        ((run notes calls started).handles 1)
        (run notes calls started).file).answer
      ≡ ok (record { number = 3; flag = false } ∷ []))
    × (read notes none
          (update notes no_faults
            (adds (lowered ∷ []))
            ((run notes calls started).handles 1)
            (run notes calls started).file).file
        ≡ ok (two_notes ++ record { number = 3; flag = false } ∷ []))
update-run_example =
    update-run notes notes-laws calls 1 (adds (lowered ∷ [])) calls-read refl
      ((λ n. (unary n false, refl)), tt)

abbrev full : List Note → Try (List Note)
full es = Try.err "the queue is full"

update-refused_example :
    ((e : LedgerError) × ((update notes torn full
          ((run notes calls started).handles 0)
          (run notes calls started).file).answer
        ≡ err e))
    × (read notes none
          (update notes torn full
            ((run notes calls started).handles 0)
            (run notes calls started).file).file
        ≡ ok two_notes)
    × ((update notes no_faults full
          ((run notes calls started).handles 0)
          (run notes calls started).file).answer
        ≡ err (decide_failed "the queue is full"))
update-refused_example = update-refused notes notes-laws calls 0 torn full calls-read refl
