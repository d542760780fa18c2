-- ===== src/Multiplex/Epoll.antt =====
-- EpollServer.hpp. What epoll_ctl returns is not looked at.
pub mod Interest
use linux_advance.Base.{ℕ, Bool, Option, none, some, List, [], ◌∷◌, ◌==◌, if◌then◌else◌}
use linux_advance.Base.Monad.{Result, ok, fault, undefined, blocked, ◌>>=◌}
use linux_advance.Multiplex.Echo.{
  Received, bytes, at_end, failed, Call, opened, ctl_add, ctl_del, close, sent, echo_of, Kernel,
}

pub record EpollServer : Type 0 where
  pub listensock : ℕ
  pub calls : List Call
  pub kernel : Kernel
  pub open kernel use *

-- EpollServer(port), once the listening socket and the epoll descriptor are there.
unfoldable pub new_server : ℕ → Kernel → EpollServer
new_server fd k = record { listensock = fd; calls = ctl_add fd ∷ (opened fd ∷ []); kernel = k }

abbrev pub accept_with : List (Option ℕ) → EpollServer → Result EpollServer
accept_with [] s = fault blocked
accept_with (none ∷ rest) s = fault undefined
accept_with (some fd ∷ rest) s = ok (record s {
  calls = ctl_add fd ∷ (opened fd ∷ s.calls);
  kernel = record s.kernel { accepts = rest };
})

-- AcceptClient: Accepter returns a null pointer where ::accept fails, and its descriptor is asked for
-- before it is tested.
unfoldable pub accept_client : EpollServer → Result EpollServer
accept_client s = accept_with s.accepts s

-- The branches of ServiceIO for one result of ::recv.
unfoldable pub serve : ℕ → Received → EpollServer → EpollServer
serve fd (bytes b) s = record s { calls = sent fd (echo_of b) ∷ s.calls }
serve fd at_end s = record s { calls = close fd ∷ (ctl_del fd ∷ s.calls) }
serve fd failed s = record s { calls = close fd ∷ (ctl_del fd ∷ s.calls) }

abbrev pub service_with : List Received → ℕ → EpollServer → Result EpollServer
service_with [] fd s = fault blocked
service_with (r ∷ rest) fd s =
    ok (serve fd r (record s { kernel = record s.kernel { recvs = rest } }))

-- ServiceIO
unfoldable pub service_io : ℕ → EpollServer → Result EpollServer
service_io fd s = service_with s.recvs fd s

-- One event: the descriptor, and whether EPOLLIN is among its events. One that is only writable is left
-- alone.
unfoldable pub handle_event : ℕ → Bool → EpollServer → Result EpollServer
handle_event fd readable s =
    if readable then (if fd == s.listensock then accept_client s else service_io fd s) else ok s

-- HandlerRead over the events of ::epoll_wait.
unfoldable pub handler_read : List (ℕ × Bool) → EpollServer → Result EpollServer
handler_read [] s = ok s
handler_read ((fd, readable) ∷ rest) s = do s' ← handle_event fd readable s; handler_read rest s'

-- What ::epoll_wait returns.
pub data Waited : Type 0 where
  ready : List (ℕ × Bool) → Waited
  timed_out failed_wait : Waited

-- One round of Loop.
unfoldable pub loop_round : Waited → EpollServer → Result EpollServer
loop_round (ready evs) s = handler_read evs s
loop_round timed_out s = ok s
loop_round failed_wait s = ok s
