-- ===== src/State/Model.antt =====
-- internal/state: the data of state.go, spend.go and sessions.go. A Go map is a `Dict`, and a pointer
-- that may be nil an `Option`. Times are nanoseconds and costs picodollars.
use age_of_agents.Base.{ℕ, String, Bool, true, false, Option, List, [], ◌||◌}
use age_of_agents.Base.Dict.{Dict, empty}

pub data TicketStatus : Type 0 where
  pending ready claimed running proposed awaiting merged failed decomposed : TicketStatus

abbrev pub is_merged : TicketStatus → Bool
is_merged merged = true
is_merged _ = false

abbrev pub is_failed : TicketStatus → Bool
is_failed failed = true
is_failed _ = false

abbrev pub is_decomposed : TicketStatus → Bool
is_decomposed decomposed = true
is_decomposed _ = false

abbrev pub is_awaiting : TicketStatus → Bool
is_awaiting awaiting = true
is_awaiting _ = false

abbrev pub is_proposed : TicketStatus → Bool
is_proposed proposed = true
is_proposed _ = false

abbrev pub is_pending : TicketStatus → Bool
is_pending pending = true
is_pending _ = false

-- Ready, claimed or running.
abbrev pub is_dispatchable : TicketStatus → Bool
is_dispatchable ready = true
is_dispatchable claimed = true
is_dispatchable running = true
is_dispatchable _ = false

-- Pending, ready, claimed or running: the test that the replay writes out for an attempt that may
-- still be going on.
abbrev pub is_open : TicketStatus → Bool
is_open s = is_pending s || is_dispatchable s

abbrev pub is_terminal : TicketStatus → Bool
is_terminal s = is_merged s || is_failed s || is_decomposed s

pub record Charge : Type 0 where
  pub tokens : ℕ
  pub model : String
  pub cost_usd : ℕ

pub record Spend : Type 0 where
  pub tokens_spent : ℕ
  pub tokens_by_model : Dict ℕ
  pub cost_usd_reported : ℕ
  pub tokens_to_price : Dict ℕ

abbrev pub no_spend : Spend
no_spend = record {
  tokens_spent = 0;
  tokens_by_model = empty;
  cost_usd_reported = 0;
  tokens_to_price = empty;
}

pub record Goal : Type 0 where
  pub id : String
  pub text : String
  pub source : String
  pub ref : String
  pub by : String
  pub submitted_at : ℕ
  pub submitted_seq : ℕ
  pub amendments : List String
  pub spend : Spend
  pub budget_exceeded : Bool
  pub cancelled : Bool
  pub cancelled_seq : ℕ
  pub branch : String
  pub delivered : Bool
  pub pr_url : String
  pub delivery_error : String
  pub delivery_failed_seq : ℕ

pub record Ticket : Type 0 where
  pub id : String
  pub goal_id : String
  pub title : String
  pub depends_on : List String
  pub children : List String
  pub idempotency_key : String
  pub status : TicketStatus
  pub worker : String
  pub active_workers : List String
  pub attempts : ℕ
  pub branch : String
  pub commit : String
  pub summary : String
  pub trace : String
  pub depth : ℕ
  pub amendments : List String
  pub approved : Bool
  pub rejected : Bool
  pub decided_seq : ℕ
  pub failed_seq : ℕ
  pub last_activity : ℕ
  pub last_fail_reason : String
  pub last_fail_output : String
  pub same_fail_count : ℕ
  pub worktree : String
  pub spend : Spend

pub record SessionCheck : Type 0 where
  pub fingerprint : String
  pub after_fingerprint : String
  pub passed : Bool
  pub command : String
  pub output : String
  pub checked_at : ℕ

pub record Session : Type 0 where
  pub id : String
  pub path : String
  pub branch : String
  pub head : String
  pub base : String
  pub files : List String
  pub test_files : List String
  pub dirty : Bool
  pub fingerprint : String
  pub last_change : ℕ
  pub first_seen : ℕ
  pub last_seen : ℕ
  pub first_seq : ℕ
  pub removed : Bool
  pub check : Option SessionCheck

pub record State : Type 0 where
  pub goals : Dict Goal
  pub tickets : Dict Ticket
  pub ticket_order : List String
  pub key_to_ticket : Dict String
  pub key_to_goal : Dict String
  pub last_seq : ℕ
  pub spend : Spend
  pub budgets_exhausted : Dict ℕ
  pub sessions : Dict Session

-- New
abbrev pub new : State
new = record {
  goals = empty;
  tickets = empty;
  ticket_order = [];
  key_to_ticket = empty;
  key_to_goal = empty;
  last_seq = 0;
  spend = no_spend;
  budgets_exhausted = empty;
  sessions = empty;
}
