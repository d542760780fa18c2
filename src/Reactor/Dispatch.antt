-- ===== src/Reactor/Dispatch.antt =====
-- LoopOnce of Reactor.hpp: the events of one ::epoll_wait, one after the other.
use linux_advance.Base.{ℕ, Bool, true, Option, none, some, List, [], ◌∷◌, ◌||◌, if◌then◌else◌}
use linux_advance.Base.Monad.{Result, ok, ◌>>=◌}
use linux_advance.Base.Map.{lookup}
use linux_advance.Protocol.Messages.{Request}
use linux_advance.Protocol.Json.{Json}
use linux_advance.Reactor.Connection.{Events, Connection, has_sender}
use linux_advance.Reactor.Io.{State, handler_send, recver}

-- EPOLLHUP and EPOLLERR stand for both read and write.
unfoldable pub readable_now : Events → Bool
readable_now ev = ev.readable || (ev.hung || ev.error)

unfoldable pub writable_now : Events → Bool
writable_now ev = ev.writable || (ev.hung || ev.error)

-- The sender of a connection, if it has one.
unfoldable pub on_write : Option Connection → State → Result State
on_write none s = ok s
on_write (some conn) s = if has_sender conn.callbacks then handler_send conn s else ok s

module _ (j : Json) (garbage : Request) where
  unfoldable pub on_read : Option Connection → State → Result State
  on_read none s = ok s
  on_read (some conn) s = recver j garbage conn.callbacks conn s

  -- One ready descriptor: the connection is looked up again for the write, since the read may have
  -- removed it.
  unfoldable pub dispatch : ℕ → Events → State → Result State
  dispatch fd ev s = do
    s' ← (if readable_now ev then on_read (lookup fd s.reactor.connections) s else ok s)
    if writable_now ev then on_write (lookup fd s'.reactor.connections) s' else ok s'

  -- LoopOnce, on the events that ::epoll_wait returned.
  unfoldable pub loop_once : List (ℕ × Events) → State → Result State
  loop_once [] s = ok s
  loop_once ((fd, ev) ∷ rest) s = do s' ← dispatch fd ev s; loop_once rest s'

  unfoldable pub wait_loop : List (List (ℕ × Events)) → State → Result State
  wait_loop [] s = ok s
  wait_loop (events ∷ later) s = do s' ← loop_once events s; wait_loop later s'

  -- Despatcher, up to the ::epoll_wait that follows these, which returned one list of events each.
  unfoldable pub despatcher : List (List (ℕ × Events)) → State → Result State
  despatcher waits s =
      wait_loop waits (record s { reactor = record s.reactor { is_running = true } })
