-- ===== src/State/Sessions.antt =====
-- internal/state/sessions.go: the fold of the observations of a worktree that aoa did not create.
use age_of_agents.Base.{
  ℕ, String, ◌==◌, Bool, true, false, not, ◌&&◌, ◌||◌, Option, none, some, [], get_or,
  if◌then◌else◌,
}
use age_of_agents.Base.Dict.{get, put, modify}
use age_of_agents.Api.Payloads.{SessionObservedPayload, SessionCheckedPayload}
use age_of_agents.State.Model.{Session, SessionCheck, State}

abbrev pub stale_against : String → Option SessionCheck → Bool
stale_against fingerprint none = false
stale_against fingerprint (some c) =
    if fingerprint == c.fingerprint
    then false
    else c.after_fingerprint == "" || not (fingerprint == c.after_fingerprint)

-- Session.CheckStale
unfoldable pub check_stale : Session → Bool
check_stale x = stale_against x.fingerprint x.check

-- Session.Same
unfoldable pub same : Session → SessionObservedPayload → Bool
same x p =
    not x.removed
    && not p.removed
    && x.fingerprint == p.fingerprint
    && x.branch == p.branch
    && x.base == p.base
    && x.path == p.path

module _ (seq ts : ℕ) where
  unfoldable pub new_session : String → Session
  new_session id = record {
    id = id;
    path = "";
    branch = "";
    head = "";
    base = "";
    files = [];
    test_files = [];
    dirty = false;
    fingerprint = "";
    last_change = 0;
    first_seen = ts;
    last_seen = 0;
    first_seq = seq;
    removed = false;
    check = none;
  }

  unfoldable pub observe : SessionObservedPayload → Session → Session
  observe p x =
      let seen = record x { path = p.path; last_seen = ts } in
      if p.removed then record seen { removed = true } else record seen {
        removed = false;
        branch = p.branch;
        head = p.head;
        base = p.base;
        files = p.files;
        test_files = p.test_files;
        dirty = p.dirty;
        fingerprint = p.fingerprint;
        last_change = p.last_change;
      }

  -- applySessionObserved
  unfoldable pub apply_session_observed : SessionObservedPayload → State → State
  unfolding new_session observe
  apply_session_observed p s =
      let x = get_or (get p.session_id s.sessions) (new_session p.session_id) in
      record s { sessions = put p.session_id (observe p x) s.sessions }

  unfoldable pub on_checked : SessionCheckedPayload → Session → Session
  on_checked p x = record x {
    check = some (record {
      fingerprint = p.fingerprint;
      after_fingerprint = p.after_fingerprint;
      passed = p.passed;
      command = p.command;
      output = p.output;
      checked_at = ts;
    });
  }

  -- applySessionChecked; a check of an unknown session records nothing.
  unfoldable pub apply_session_checked : SessionCheckedPayload → State → State
  unfolding on_checked
  apply_session_checked p s = record s { sessions = modify p.session_id (on_checked p) s.sessions }
