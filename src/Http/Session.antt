-- ===== src/Http/Session.antt =====
-- Session.hpp.
use linux_advance.Base.{ℕ, ◌+◌, ◌%◌, ◌^◌, Option}
use linux_advance.Base.Text.{Text}
use linux_advance.Base.Text.Decimal.{to_string}
use linux_advance.Base.TextMap.{TextMap, lookup, insert}

pub record Session : Type 0 where
  pub username : Text
  pub status : Text
  pub create_time : ℕ

abbrev pub Sessions : Type 0
Sessions = TextMap Session

-- What rand() and time(nullptr) return.
pub record Moment : Type 0 where
  pub rand : ℕ
  pub now : ℕ

-- Session(username, status)
abbrev pub new_session : Moment → Text → Text → Session
new_session m username status = record {
  username = username;
  status = status;
  create_time = m.now % 2 ^ 32;
}

-- The number that AddSession draws, a uint32_t.
unfoldable pub session_id : Moment → Text
session_id m = to_string ((m.rand + m.now) % 2 ^ 32)

-- AddSession: the id, and the sessions; an entry that has this id already stays.
unfoldable pub add_session : Moment → Session → Sessions → Text × Sessions
add_session m s sessions = (session_id m, insert (session_id m) s sessions)

-- GetSession
unfoldable pub get_session : Text → Sessions → Option Session
get_session k sessions = lookup k sessions
