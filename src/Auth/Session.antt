-- ===== src/Auth/Session.antt =====
-- crates/avix-core/src/auth/session.rs. Times and lengths of time are nanoseconds.
use avix.Base.{ℕ, ◌-◌, ◌*◌, String, Bool, false, ltb, List, Option, none, some}
use avix.Types.Role.{Role}

pub data SessionState : Type 0 where
  active idle closed : SessionState

pub record SessionEntry : Type 0 where
  pub session_id : String
  pub identity_name : String
  pub uid : ℕ
  pub role : Role
  pub crews : List String
  pub scope : List String
  pub state : SessionState
  pub connected_at : ℕ
  pub last_activity_at : ℕ
  pub idle_since : Option ℕ
  pub closed_at : Option ℕ
  pub closed_reason : Option String
  pub agents : List ℕ
  pub ttl : ℕ

-- A clock that has gone back gives an elapsed time of zero, as subtraction does here.
unfoldable pub session_expired : SessionEntry → ℕ → Bool
session_expired entry now = ltb entry.ttl (now - entry.connected_at)

unfoldable pub mark_idle : ℕ → SessionEntry → SessionEntry
mark_idle now entry = record entry { state = idle; idle_since = some now }

unfoldable pub mark_active : ℕ → SessionEntry → SessionEntry
mark_active now entry = record entry { state = active; idle_since = none; last_activity_at = now }

unfoldable pub mark_closed : String → ℕ → SessionEntry → SessionEntry
mark_closed reason now entry = record entry {
  state = closed;
  closed_at = some now;
  closed_reason = some reason;
}

abbrev pub grace : ℕ
grace = 60 * 1_000_000_000

unfoldable pub grace_expired : SessionEntry → ℕ → Bool
grace_expired entry now = elim entry.idle_since [ none ↦ false | some t ↦ ltb grace (now - t) ]
