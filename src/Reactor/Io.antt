-- ===== src/Reactor/Io.antt =====
-- IOService.hpp, Listener.hpp and the end of PackageParse.hpp: what a ready socket sets off. What the
-- kernel answers to the system calls is a script, one entry for a call; a call beyond its end blocks.
use linux_advance.Base.{
  ℕ, zero, suc, true, false, Option, none, some, List, [], ◌∷◌, ◌++◌, ◌==◌, if◌then◌else◌, is_empty,
  length, take,
}
use linux_advance.Base.Monad.{Result, ok, fault, blocked, ◌>>=◌}
use linux_advance.Base.Map.{update}
use linux_advance.Base.Text.{Text, c_str}
use linux_advance.Protocol.Messages.{Request}
use linux_advance.Protocol.Json.{Json}
use linux_advance.PackageParse.{parse_loop}
use linux_advance.Reactor.Connection.{
  Callbacks, Connection, io_callbacks, listener_callbacks, read_edge, append_inbuff,
  out_buffer_remove,
}
use linux_advance.Reactor.Core.{
  Reactor, sent, make_call, add_connection, enable_read_write, remove_connection,
}

-- EAGAIN and EWOULDBLOCK are one number.
abbrev pub eagain : ℕ
eagain = 11

abbrev pub eintr : ℕ
eintr = 4

-- ::recv gives bytes, 0 at the end of the stream, or -1 with errno.
pub data Received : Type 0 where
  bytes : Text → Received
  at_end : Received
  failed : ℕ → Received

-- One round of HandlerRecv: what ::recv gives, and errno if the calls of SetNonBlock failed.
pub record RecvRound : Type 0 where
  pub received : Received
  pub fcntl_errno : Option ℕ

abbrev errno_after : ℕ → Option ℕ → ℕ
errno_after errno none = errno
errno_after errno (some e) = e

-- How a loop ends: the socket is drained, full or done; or the excepter is called.
pub data Ending : Type 0 where
  finished broken : Ending

-- What a failed call makes its loop do: EWOULDBLOCK and EAGAIN end it, EINTR repeats the call, and
-- any other value of errno is an error.
pub data Retry : Type 0 where
  stop again give_up : Retry

unfoldable pub retry_of : ℕ → Retry
retry_of errno = if errno == eagain then stop else if errno == eintr then again else give_up

-- errno behind the round: ::recv sets it when it fails, SetNonBlock when one of its calls fails.
unfoldable pub errno_behind : ℕ → RecvRound → ℕ
errno_behind errno round = elim round.received [
  | bytes b ↦ errno_after errno round.fcntl_errno
  | at_end ↦ errno_after errno round.fcntl_errno
  | failed e ↦ errno_after e round.fcntl_errno
]

-- The bytes that come are read as a C string; `none` where no bytes came.
abbrev pub bytes_of : Received → Option Text
bytes_of (bytes b) = some (c_str b)
bytes_of at_end = none
bytes_of (failed e) = none

-- The loop of HandlerRecv: errno keeps its value over a call that does not set it.
unfoldable pub recv_loop :
    List RecvRound → ℕ → Connection → Result (Ending × Connection × List RecvRound)
unfolding errno_behind retry_of
recv_loop [] errno conn = fault blocked
recv_loop (round ∷ rest) errno conn = elim (bytes_of round.received) [
  | some b ↦ recv_loop rest (errno_behind errno round) (append_inbuff conn b)
  | none ↦ elim (retry_of (errno_behind errno round)) [
    | stop ↦ ok (finished, conn, rest)
    | again ↦ recv_loop rest (errno_behind errno round) conn
    | give_up ↦ ok (broken, conn, rest)
  ]
]

-- ::send takes some bytes (or none), or fails with errno.
pub data SendRound : Type 0 where
  took : ℕ → SendRound
  send_failed : ℕ → SendRound

-- The loop of HandlerSend, and the bytes that the kernel took.
unfoldable pub send_loop :
    List SendRound → Connection → Text → Result (Ending × Connection × Text × List SendRound)
unfolding retry_of
send_loop [] conn wire = fault blocked
send_loop (took zero ∷ rest) conn wire = ok (finished, conn, wire, rest)
send_loop (took (suc n) ∷ rest) conn wire =
    elim (is_empty (out_buffer_remove conn (suc n)).outbuffer) [
      | true ↦
          ok (finished, out_buffer_remove conn (suc n), wire ++ take (suc n) conn.outbuffer, rest)
      | false ↦
          send_loop rest (out_buffer_remove conn (suc n)) (wire ++ take (suc n) conn.outbuffer)
    ]
send_loop (send_failed e ∷ rest) conn wire = elim (retry_of e) [
  | stop ↦ ok (finished, conn, wire, rest)
  | again ↦ send_loop rest conn wire
  | give_up ↦ ok (broken, conn, wire, rest)
]

-- ::accept gives a new socket, or fails with errno.
pub data AcceptRound : Type 0 where
  accepted : ℕ → AcceptRound
  accept_failed : ℕ → AcceptRound

-- The reactor and the scripts of the kernel.
pub record State : Type 0 where
  pub reactor : Reactor
  pub recvs : List RecvRound
  pub sends : List SendRound
  pub accepts : List AcceptRound

-- The loop of Listener::Accepter: EAGAIN, and any error but EINTR, ends it.
unfoldable pub accept_loop : List AcceptRound → Reactor → Result (Reactor × List AcceptRound)
unfolding retry_of
accept_loop [] r = fault blocked
accept_loop (accepted fd ∷ rest) r = accept_loop rest (add_connection fd read_edge io_callbacks r)
accept_loop (accept_failed e ∷ rest) r = elim (retry_of e) [
  | again ↦ accept_loop rest r
  | _ ↦ ok (r, rest)
]

-- A Connection object is written where the map holds it.
unfoldable pub store : Connection → Reactor → Reactor
store conn r = record r { connections = update conn.sockfd conn r.connections }

-- HandlerExcept
unfoldable pub handler_except : Connection → Reactor → Reactor
handler_except conn r = remove_connection conn.sockfd r

-- The end of HandlerSend, behind its loop.
unfoldable pub after_send : Ending → Connection → Reactor → Reactor
unfolding handler_except
after_send broken conn r = handler_except conn r
after_send finished conn r =
    if is_empty conn.outbuffer
    then enable_read_write conn.sockfd false true r
    else enable_read_write conn.sockfd true true r

-- HandlerSend
unfoldable pub handler_send : Connection → State → Result State
handler_send conn s = do
  (ending, conn', wire, rest) ← send_loop s.sends conn []
  let logged = make_call (sent conn'.sockfd wire) s.reactor
  ok (record s { reactor = after_send ending conn' (store conn' logged); sends = rest })

-- The request object of Parse before anything is read into it holds `garbage`.
module _ (j : Json) (garbage : Request) where
  -- PackageParse::Parse
  unfoldable pub parse : Connection → State → Result State
  parse conn s = do
    (inb, outb) ← parse_loop j (suc (length conn.inbuffer)) garbage conn.inbuffer conn.outbuffer
    let conn' = record conn { inbuffer = inb; outbuffer = outb }
    let s' = record s { reactor = store conn' s.reactor }
    if is_empty outb then ok s' else handler_send conn' s'

  -- The end of HandlerRecv, behind its loop.
  unfoldable pub after_recv : Ending → Connection → State → Result State
  unfolding handler_except
  after_recv broken conn s = ok (record s { reactor = handler_except conn s.reactor })
  after_recv finished conn s = parse conn s

  -- HandlerRecv
  unfoldable pub handler_recv : Connection → State → Result State
  handler_recv conn s = do
    (ending, conn', rest) ← recv_loop s.recvs 0 conn
    after_recv ending conn' (record s { reactor = store conn' s.reactor; recvs = rest })

  -- Listener::Accepter
  unfoldable pub accepter : State → Result State
  accepter s = do
    (reactor, rest) ← accept_loop s.accepts s.reactor
    ok (record s { reactor = reactor; accepts = rest })

  -- _recver(conn)
  unfoldable pub recver : Callbacks → Connection → State → Result State
  recver listener_callbacks conn s = accepter s
  recver io_callbacks conn s = handler_recv conn s
