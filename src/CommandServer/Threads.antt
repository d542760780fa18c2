-- ===== src/CommandServer/Threads.antt =====
-- TcpServer.hpp of the server that executes commands: the loop of Start, and a thread for each client,
-- in any interleaving of their ::read calls.
pub mod Harmless
pub mod Calm
pub mod Answers
use linux_advance.Base.{
  ℕ, Bool, true, false, Option, none, some, List, [], ◌∷◌, ◌++◌, length, leb, get_elem?, set,
  if◌then◌else◌,
}
use linux_advance.Base.Monad.{Result, ok, fault, undefined, ◌>>=◌}
use linux_advance.Base.Text.{Text, c_str}
use linux_advance.EchoServer.{
  End, closes, exits_recv, exits_send, exits_listen, Round, message, quits, read_fails, buff_size,
}
use linux_advance.CommandServer.{Trace, on_message}

-- A thread: its descriptor, the answers that it has sent, and whether it has closed the descriptor.
pub record Thread : Type 0 where
  pub sockfd : ℕ
  pub sent : List Text
  pub closed : Bool

-- The threads in the order of their clients, the commands that popen was called with, and whether the
-- process still runs.
pub record Server : Type 0 where
  pub threads : List Thread
  pub ran : List Text
  pub exited : Option End

abbrev pub new_server : Server
new_server = record { threads = []; ran = []; exited = none }

-- A round of Start, with the results of ::listen, ::accept and pthread_create, or a round of the loop of Service in the
-- thread with this place.
pub data Happening : Type 0 where
  accepts : Bool → Option ℕ → Bool → Happening
  rounds : ℕ → Round → Happening

abbrev pub new_thread : ℕ → Thread
new_thread fd = record { sockfd = fd; sent = []; closed = false }

-- A round of Start. Where pthread_create fails, which is not looked at, nobody serves the client.
unfoldable pub accept_round : Bool → Option ℕ → Bool → Server → Server
accept_round false peer created s = record s { exited = some exits_listen }
accept_round true none created s = s
accept_round true (some fd) false s = s
accept_round true (some fd) true s = record s { threads = s.threads ++ new_thread fd ∷ [] }

module _ (popen : Text → Option (List Text)) where
  -- A message that was read: the command runs and its answer is written. A read that fills the buffer writes
  -- the byte behind it.
  unfoldable pub answer_round : ℕ → Thread → Text → Bool → Server → Result Server
  answer_round i t b wrote s =
      let done = on_message popen (c_str b) (record { ran = s.ran; sent = t.sent }) in
      if leb buff_size (length b)
      then fault undefined
      else if wrote
      then ok
          (record s { threads = set s.threads i (record t { sent = done.sent }); ran = done.ran })
      else ok (record s { ran = done.ran; exited = some exits_send })

  -- A round of the loop of Service; a thread that has closed its descriptor has ended.
  unfoldable pub service_round : Bool → ℕ → Thread → Round → Server → Result Server
  service_round true i t r s = ok s
  service_round false i t quits s =
      ok (record s { threads = set s.threads i (record t { closed = true }) })
  service_round false i t read_fails s = ok (record s { exited = some exits_recv })
  service_round false i t (message b wrote) s = answer_round i t b wrote s

  unfoldable pub at_thread : Option Thread → ℕ → Round → Server → Result Server
  at_thread none i r s = ok s
  at_thread (some t) i r s = service_round t.closed i t r s

  unfoldable pub happen : Happening → Server → Result Server
  happen (accepts listening peer created) s = ok (accept_round listening peer created s)
  happen (rounds i r) s = at_thread (get_elem? s.threads i) i r s

  -- Nothing happens behind the exit of the process.
  unfoldable pub step : Option End → Happening → Server → Result Server
  step none h s = happen h s
  step (some e) h s = ok s

  -- Any interleaving.
  unfoldable pub run : List Happening → Server → Result Server
  run [] s = ok s
  run (h ∷ hs) s = do s' ← step s.exited h s; run hs s'
