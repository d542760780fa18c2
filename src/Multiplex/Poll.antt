-- ===== src/Multiplex/Poll.antt =====
-- PollServer.hpp. The descriptor -1 of a free place of `_fds` is `none`; of the event masks the bits
-- POLLIN and POLLOUT are kept.
pub mod Held
use linux_advance.Base.{
  ℕ, zero, suc, Bool, true, false, Option, none, some, List, [], ◌∷◌, ◌++◌, ◌==◌, if◌then◌else◌,
  get_elem?, set, replicate,
}
use linux_advance.Base.Monad.{Result, ok, fault, undefined, blocked, ◌>>=◌}
use linux_advance.Base.Text.{Text}
use linux_advance.Base.Text.Decimal.{to_string}
use linux_advance.Multiplex.Echo.{
  Received, bytes, at_end, failed, Call, close, sent, echo_of, Kernel,
}
use linux_advance.Multiplex.Slots.{first_free, bump}

abbrev pub is_none : Option ℕ → Bool
is_none none = true
is_none (some fd) = false

abbrev pub capacity : ℕ
capacity = 1024

pub record Mask : Type 0 where
  pub readable : Bool
  pub writable : Bool

abbrev pub no_events : Mask
no_events = record { readable = false; writable = false }

abbrev pub poll_in : Mask
poll_in = record { readable = true; writable = false }

pub record PollFd : Type 0 where
  pub fd : Option ℕ
  pub events : Mask
  pub revents : Mask

abbrev pub free_fd : PollFd
free_fd = record { fd = none; events = no_events; revents = no_events }

abbrev pub client_fd : ℕ → PollFd
client_fd fd = record { fd = some fd; events = poll_in; revents = no_events }

abbrev pub is_free : PollFd → Bool
is_free p = is_none p.fd

pub record PollServer : Type 0 where
  pub listensock : ℕ
  pub fds : List PollFd
  pub calls : List Call
  pub kernel : Kernel
  pub open kernel use *

-- PollServer(port), once the listening socket is there.
unfoldable pub new_server : ℕ → Kernel → PollServer
new_server fd k = record {
  listensock = fd;
  fds = set (replicate capacity free_fd) 0 (client_fd fd);
  calls = [];
  kernel = k;
}

abbrev pub free_place : List PollFd → Option ℕ
free_place [] = none
free_place (x ∷ xs) = bump (first_free is_free xs)

abbrev pub put_client : ℕ → Option ℕ → PollServer → PollServer
put_client fd none s = record s { calls = close fd ∷ s.calls }
put_client fd (some i) s = record s { fds = set s.fds i (client_fd fd) }

-- The steps of AcceptClient behind Accepter.
unfoldable pub place_client : ℕ → PollServer → PollServer
place_client fd s = put_client fd (free_place s.fds) s

abbrev pub accept_with : List (Option ℕ) → PollServer → Result PollServer
accept_with [] s = fault blocked
accept_with (none ∷ rest) s = fault undefined
accept_with (some fd ∷ rest) s =
    ok (place_client fd (record s { kernel = record s.kernel { accepts = rest } }))

-- AcceptClient
unfoldable pub accept_client : PollServer → Result PollServer
accept_client s = accept_with s.accepts s

-- The branches of ServiceIO for one result of ::recv.
unfoldable pub serve : ℕ → ℕ → Received → PollServer → PollServer
serve i fd (bytes b) s = record s { calls = sent fd (echo_of b) ∷ s.calls }
serve i fd at_end s = record s { fds = set s.fds i free_fd; calls = close fd ∷ s.calls }
serve i fd failed s = record s { fds = set s.fds i free_fd; calls = close fd ∷ s.calls }

abbrev pub service_with : List Received → ℕ → ℕ → PollServer → Result PollServer
service_with [] i fd s = fault blocked
service_with (r ∷ rest) i fd s =
    ok (serve i fd r (record s { kernel = record s.kernel { recvs = rest } }))

-- ServiceIO
unfoldable pub service_io : ℕ → ℕ → PollServer → Result PollServer
service_io i fd s = service_with s.recvs i fd s

abbrev or_free : Option PollFd → PollFd
or_free none = free_fd
or_free (some x) = x

abbrev pub at_place : List PollFd → ℕ → PollFd
at_place xs i = or_free (get_elem? xs i)

-- One round of HandlerRead: a place that is only writable is left alone.
unfoldable pub handle_place : ℕ → Option ℕ → Bool → PollServer → Result PollServer
handle_place i none readable s = ok s
handle_place i (some fd) readable s =
    if readable then (if fd == s.listensock then accept_client s else service_io i fd s) else ok s

-- HandlerRead over `n` places from `i` on.
unfoldable pub handler_read : ℕ → ℕ → PollServer → Result PollServer
handler_read i zero s = ok s
handler_read i (suc n) s = do
  s' ← handle_place i (at_place s.fds i).fd (at_place s.fds i).revents.readable s
  handler_read (suc i) n s'

-- ::poll writes the events that came into `_fds`, and says how many places have one; or 0, or -1.
pub data Polled : Type 0 where
  ready : List Mask → Polled
  timed_out failed_poll : Polled

unfoldable pub write_revents : List Mask → List PollFd → List PollFd
write_revents [] xs = xs
write_revents (m ∷ ms) [] = []
write_revents (m ∷ ms) (x ∷ xs) = record x { revents = m } ∷ write_revents ms xs

-- One round of Loop.
unfoldable pub loop_round : Polled → PollServer → Result PollServer
loop_round (ready ms) s = handler_read 0 capacity (record s { fds = write_revents ms s.fds })
loop_round timed_out s = ok s
loop_round failed_poll s = ok s

-- Loop, over what its waits give; when they are used up it still waits.
unfoldable pub loop : List Polled → PollServer → Result PollServer
loop [] s = ok s
loop (e ∷ es) s = do s' ← loop_round e s; loop es s'

-- RfdsToStr
unfoldable pub rfds_to_str : List PollFd → Text
rfds_to_str [] = []
rfds_to_str (x ∷ xs) = elim x.fd [
  | none ↦ rfds_to_str xs
  | some fd ↦ to_string fd ++ (32 ∷ rfds_to_str xs)
]
