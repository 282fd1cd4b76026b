-- ===== src/Ledger.antt =====
-- internal/ledger/ledger.go: the append-only log file. A file is its bytes, and a missing file reads as
-- an empty one; a handle is what a `Ledger` value remembers of it. What the operating system refuses in
-- the course of one call is `Faults`. The mutex and the append hook have no part in what a call returns
-- or writes. The lines of the file are in Ledger/Lines.antt, passed on here.
mod Lines
pub mod Scan
pub mod Log
pub mod Sync
pub mod Encode
pub mod Write
pub mod Durable
pub mod Open
pub mod Refused
pub mod Writers
pub mod Readers
mod Examples
unfoldable pub use Lines.*
use age_of_agents.Base.{
  ℕ, zero, suc, ◌+◌, ◌-◌, String, Bool, true, false, ◌&&◌, Option, none, some, List, [], ◌∷◌, ◌++◌,
  map, length, is_empty, take, drop, eqb, ltb, if◌then◌else◌,
}
use age_of_agents.Git.{Try}

-- What goes wrong in one call, `none` where nothing does. A write that fails has written some bytes.
pub record Faults : Type 0 where
  pub mkdir : Option String
  pub open_lock : Option String
  pub lock : Option String
  pub stat : Option String
  pub read : Option String
  pub reread : Option String
  pub truncate : Option String
  pub scan : Option String
  pub write : Option (ℕ × String)
  pub unlock : Option String

abbrev pub no_faults : Faults
no_faults = record {
  mkdir = none;
  open_lock = none;
  lock = none;
  stat = none;
  read = none;
  reread = none;
  truncate = none;
  scan = none;
  write = none;
  unlock = none;
}

-- The fields nextSeq and size.
pub record Handle : Type 0 where
  pub next_seq : ℕ
  pub size : ℕ

abbrev pub fresh : Handle
fresh = record { next_seq = 1; size = 0 }

pub record Reply (A : Type 0) : Type 0 where
  pub handle : Handle
  pub file : List ℕ
  pub answer : Answer A

-- A call that fails leaves the handle and the file as they are.
abbrev pub guarded :
    {A : Type 0} → Option String → (String → LedgerError) → Handle → List ℕ → Reply A → Reply A
guarded none wrap h file r = r
guarded (some e) wrap h file r = record { handle = h; file = file; answer = err (wrap e) }

module _ (c : Codec) where
  open c use {Event, seq, with_seq, marshal, unmarshal, trim}

  abbrev pub last_seq : List Event → ℕ → ℕ
  last_seq [] next = next
  last_seq (e ∷ []) next = suc (seq e)
  last_seq (e ∷ d ∷ es) next = last_seq (d ∷ es) next

  -- The end of sync: the torn tail is cut off, and the handle brought up to date.
  abbrev pub synced : Faults → List ℕ → Handle → Answer (List Event × ℕ) → Reply (Unit {0})
  synced f file h (err e) = record { handle = h; file = file; answer = err e }
  synced f file h (ok (events, valid)) =
      let h' : Handle = record { next_seq = last_seq events h.next_seq; size = valid } in
      if ltb valid (length file)
      then guarded f.truncate truncate_failed h file
          (record { handle = h'; file = take valid file; answer = ok tt })
      else record { handle = h'; file = file; answer = ok tt }

  -- The first scan, and the second from the start if the first fails.
  abbrev pub rescan : Faults → List ℕ → Handle → Answer (List Event × ℕ) → Reply (Unit {0})
  rescan f file h (ok r) = synced f file h (ok r)
  rescan f file h (err e) =
      if ltb 0 h.size
      then synced f file fresh (scan_from c f.reread file 0)
      else synced f file h (err e)

  -- sync
  unfoldable pub sync : Faults → Handle → List ℕ → Reply (Unit {0})
  unfolding scan_from
  sync f h file =
      let h' = if ltb (length file) h.size then fresh else h in
      guarded f.stat stat_failed h file (
        if eqb (length file) h.size
        then record { handle = h; file = file; answer = ok tt }
        else rescan f file h' (scan_from c f.read file h'.size))

  abbrev pub add_stored : List ℕ → Event → List ℕ × List Event → List ℕ × List Event
  add_stored line e (bytes, stored) = (line ++ newline ∷ bytes, e ∷ stored)

  abbrev pub marshalled : Try (List ℕ) → Answer (List ℕ)
  marshalled (Try.ok line) = ok line
  marshalled (Try.err e) = err (marshal_failed e)

  -- The loop of write, from the sequence number `n` on: the buffer and the events as stored.
  unfoldable pub encode : ℕ → List Event → Answer (List ℕ × List Event)
  encode n [] = ok ([], [])
  encode n (e ∷ es) = marshalled (marshal (with_seq n e)) >>= λ line.
      encode (suc n) es >>= λ r. ok (add_stored line (with_seq n e) r)

  -- appendLine and what follows it in write.
  abbrev pub appended :
      Answer (List ℕ × List Event) → Option (ℕ × String) → Handle → List ℕ → Reply (List Event)
  appended (err e) fault h file = record { handle = h; file = file; answer = err e }
  appended (ok (bytes, stored)) (some (n, e)) h file = record {
    handle = fresh;
    file = file ++ take n bytes;
    answer = err (write_failed e);
  }
  appended (ok (bytes, stored)) none h file = record {
    handle = record { next_seq = h.next_seq + length stored; size = h.size + length bytes };
    file = file ++ bytes;
    answer = ok stored;
  }

  -- write
  abbrev pub write : Option (ℕ × String) → Handle → List ℕ → List Event → Reply (List Event)
  write fault h file [] = record { handle = h; file = file; answer = ok [] }
  write fault h file (e ∷ es) = appended (encode h.next_seq (e ∷ es)) fault h file

  abbrev pub unlocked : {A : Type 0} → Option String → Reply A → Reply A
  unlocked none r = r
  unlocked (some e) r = record r { answer = r.answer >>= λ a. err (unlock_failed e) }

  -- withLock
  abbrev pub with_lock : {A : Type 0} → Faults → Handle → List ℕ → Reply A → Reply A
  with_lock f h file r =
      guarded f.open_lock lock_unavailable h file
        (guarded f.lock lock_failed h file (unlocked f.unlock r))

  abbrev pub after :
      {A : Type 0} → Answer (Unit {0}) → (Handle → List ℕ → Reply A) → Handle → List ℕ → Reply A
  after (ok u) next h file = next h file
  after (err e) next h file = record { handle = h; file = file; answer = err e }

  abbrev pub after_sync : {A : Type 0} → (Handle → List ℕ → Reply A) → Reply (Unit {0}) → Reply A
  after_sync next r = after r.answer next r.handle r.file

  abbrev pub decided :
      Answer (List Event) → Option (ℕ × String) → Handle → List ℕ → Reply (List Event)
  decided (err e) fault h file = record { handle = h; file = file; answer = err e }
  decided (ok pending) fault h file = write fault h file pending

  -- Ledger.Append, with the stored event in a list.
  unfoldable pub append : Faults → Handle → List ℕ → Event → Reply (List Event)
  unfolding sync encode
  append f h file e =
      with_lock f h file (after_sync (λ h' file'. write f.write h' file' (e ∷ [])) (sync f h file))

  abbrev pub asked : Try (List Event) → Answer (List Event)
  asked (Try.ok pending) = ok pending
  asked (Try.err e) = err (decide_failed e)

  -- Ledger.Update
  unfoldable pub update :
      Faults → (List Event → Try (List Event)) → Handle → List ℕ → Reply (List Event)
  unfolding sync encode
  update f decide h file = with_lock f h file (
      after_sync
        (λ h' file'.
          decided (scan_from c f.scan file' 0 >>= λ r. asked (decide r.0)) f.write h' file')
        (sync f h file))

  -- Ledger.Read
  unfoldable pub read : Option String → List ℕ → Answer (List Event)
  unfolding scan_from
  read fault file = scan_from c fault file 0 >>= λ r. ok r.0

  -- Ledger.ReadFrom
  unfoldable pub read_from : Option String → List ℕ → ℕ → Answer (List (RawLine c) × ℕ)
  unfolding scan_lines
  read_from fault file offset = scan_lines c fault file offset

  abbrev pub opened_for_reading : Handle → Answer (List Event × ℕ) → Answer Handle
  opened_for_reading h (err e) = err e
  opened_for_reading h (ok (events, valid)) =
      ok (record { next_seq = last_seq events h.next_seq; size = valid })

  abbrev pub opened : Option String → Answer Handle → List ℕ → Reply (Unit {0}) → Reply Handle
  opened (some e) scanned file r = record { handle = fresh; file = file; answer = scanned }
  opened none scanned file r = record {
    handle = r.handle;
    file = r.file;
    answer = r.answer >>= λ u. ok r.handle;
  }

  -- Open: a log whose lock file cannot be made is scanned and not repaired.
  unfoldable pub open_ledger : Faults → List ℕ → Reply Handle
  unfolding sync
  open_ledger f file = guarded f.mkdir mkdir_failed fresh file (
      opened f.open_lock (opened_for_reading fresh (scan_from c f.scan file 0)) file
        (with_lock f fresh file (sync f fresh file)))
