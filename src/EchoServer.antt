-- ===== src/EchoServer.antt =====
-- TcpServer.hpp of day_01/demo_01/tcp_server_echo: the service of a client, and the loop that accepts
-- clients and hands them to the pool of threads.
pub mod Order
pub mod Datagrams
use linux_advance.Base.{
  ℕ, Bool, true, false, Option, none, some, List, [], ◌∷◌, ◌++◌, if◌then◌else◌, leb, length,
}
use linux_advance.Base.Monad.{Result, ok, fault, undefined, blocked}
use linux_advance.Base.Text.{Text, c_str}
use linux_advance.Threadpool.{Pool, Event, enqueue, step}

-- How a service or a server ends: it closes the client, or the process exits with this error.
pub data End : Type 0 where
  closes exits_recv exits_send exits_listen : End

-- A round of the loop of Service: the bytes that ::read gives and whether ::write of the answer succeeds,
-- the end of the stream, or an error of ::read.
pub data Round : Type 0 where
  message : Text → Bool → Round
  quits read_fails : Round

abbrev pub buff_size : ℕ
buff_size = 1024

-- Service, with the texts that were written. A read that fills the buffer writes the byte behind it.
unfoldable pub service : List Round → List Text → Result (End × List Text)
service [] sent = fault blocked
service (quits ∷ rounds) sent = ok (closes, sent)
service (read_fails ∷ rounds) sent = ok (exits_recv, sent)
service (message b wrote ∷ rounds) sent =
    let rest = service rounds (sent ++ c_str b ∷ []) in
    if leb buff_size (length b)
    then fault undefined
    else if wrote
    then rest
    else ok (exits_send, sent)

-- The server: the pool, whose tasks are the descriptors of clients, the clients that were accepted, in
-- order, and whether the process still runs.
pub record Server : Type 0 where
  pub pool : Pool ℕ
  pub clients : List ℕ
  pub exited : Option End

-- What happens next: a round of Start, with the results of ::listen and of ::accept and the thread that
-- a signal wakes, or a step of the pool.
pub data Happening : Type 0 where
  accepts : Bool → Option ℕ → ℕ → Happening
  pool_step : Event ℕ → Happening

-- The task of a new client is put in the queue; the result of Enqueue is not looked at.
unfoldable pub submit : ℕ → ℕ → Server → Server
submit client k s = record s {
  pool = (enqueue client k s.pool).1;
  clients = s.clients ++ client ∷ [];
}

-- A round of Start.
unfoldable pub accept_round : Bool → Option ℕ → ℕ → Server → Server
accept_round false peer k s = record s { exited = some exits_listen }
accept_round true none k s = s
accept_round true (some client) k s = submit client k s

unfoldable pub happen : Happening → Server → Server
happen (accepts listening peer k) s = accept_round listening peer k s
happen (pool_step e) s = record s { pool = step e s.pool }

-- Nothing happens behind the exit of the process.
abbrev pub unless_exited : Option End → Server → Server → Server
unless_exited none next s = next
unless_exited (some e) next s = s

-- Any interleaving, up to the exit of the process.
unfoldable pub run : List Happening → Server → Server
run [] s = s
run (h ∷ hs) s = unless_exited s.exited (run hs (happen h s)) s
