-- ===== src/Multiplex/Select.antt =====
-- SelectServer.hpp. A free place of `_fd_array`, which holds -1 there, is `none`.
pub mod Table
pub mod Held
use linux_advance.Base.{
  ℕ, zero, suc, Bool, true, false, Option, none, some, List, [], ◌∷◌, ◌++◌, ltb, leb, ◌==◌, ◌&&◌,
  ◌||◌, if◌then◌else◌, get_elem?, set, replicate,
}
use linux_advance.Base.Monad.{Result, ok, fault, undefined, blocked, ◌>>=◌}
use linux_advance.Base.Text.{Text}
use linux_advance.Base.Text.Decimal.{to_string}
use linux_advance.Multiplex.Echo.{
  Received, bytes, at_end, failed, Call, close, sent, echo_of, Kernel,
}
use linux_advance.Multiplex.Slots.{bump, first_free}

-- sizeof(fd_set) * 8
abbrev pub capacity : ℕ
capacity = 1024

abbrev pub is_free : Option ℕ → Bool
is_free none = true
is_free (some fd) = false

pub record SelectServer : Type 0 where
  pub listensock : ℕ
  pub fd_array : List (Option ℕ)
  pub calls : List Call
  pub kernel : Kernel
  pub open kernel use *

-- SelectServer(port), once the listening socket is there: it takes the first place.
unfoldable pub new_server : ℕ → Kernel → SelectServer
new_server fd k = record {
  listensock = fd;
  fd_array = set (replicate capacity none) 0 (some fd);
  calls = [];
  kernel = k;
}

-- The place that AcceptClient finds, from 1 on.
abbrev pub free_place : List (Option ℕ) → Option ℕ
free_place [] = none
free_place (x ∷ xs) = bump (first_free is_free xs)

-- The steps of AcceptClient behind Accepter, for a new descriptor and the place that was found.
abbrev pub put_client : ℕ → Option ℕ → SelectServer → SelectServer
put_client fd none s = record s { calls = close fd ∷ s.calls }
put_client fd (some i) s = record s { fd_array = set s.fd_array i (some fd) }

unfoldable pub place_client : ℕ → SelectServer → SelectServer
place_client fd s = put_client fd (free_place s.fd_array) s

abbrev pub accept_with : List (Option ℕ) → SelectServer → Result SelectServer
accept_with [] s = fault blocked
accept_with (none ∷ rest) s = fault undefined
accept_with (some fd ∷ rest) s =
    ok (place_client fd (record s { kernel = record s.kernel { accepts = rest } }))

-- AcceptClient: Accepter returns a null pointer where ::accept fails, and its descriptor is asked for.
unfoldable pub accept_client : SelectServer → Result SelectServer
accept_client s = accept_with s.accepts s

-- The branches of ServiceIO for one result of ::recv.
unfoldable pub serve : ℕ → ℕ → Received → SelectServer → SelectServer
serve i fd (bytes b) s = record s { calls = sent fd (echo_of b) ∷ s.calls }
serve i fd at_end s = record s { fd_array = set s.fd_array i none; calls = close fd ∷ s.calls }
serve i fd failed s = record s { fd_array = set s.fd_array i none; calls = close fd ∷ s.calls }

abbrev pub service_with : List Received → ℕ → ℕ → SelectServer → Result SelectServer
service_with [] i fd s = fault blocked
service_with (r ∷ rest) i fd s =
    ok (serve i fd r (record s { kernel = record s.kernel { recvs = rest } }))

-- ServiceIO
unfoldable pub service_io : ℕ → ℕ → SelectServer → Result SelectServer
service_io i fd s = service_with s.recvs i fd s

abbrev or_free : Option (Option ℕ) → Option ℕ
or_free none = none
or_free (some x) = x

-- A place of the array, read while it is walked.
abbrev pub at_place : List (Option ℕ) → ℕ → Option ℕ
at_place xs i = or_free (get_elem? xs i)

-- FD_SET and FD_ISSET are undefined for descriptors from FD_SETSIZE on.
abbrev pub fd_setsize : ℕ
fd_setsize = 1024

-- One round of HandlerRead, on the descriptor that place `i` holds.
unfoldable pub handle_place : (ℕ → Bool) → ℕ → Option ℕ → SelectServer → Result SelectServer
handle_place is_set i none s = ok s
handle_place is_set i (some fd) s =
    if leb fd_setsize fd
    then fault undefined
    else if is_set fd
    then (if fd == s.listensock then accept_client s else service_io i fd s)
    else ok s

-- HandlerRead over `n` places from `i` on; `is_set` is FD_ISSET on what ::select left in rfds.
unfoldable pub handler_read : (ℕ → Bool) → ℕ → ℕ → SelectServer → Result SelectServer
handler_read is_set i zero s = ok s
handler_read is_set i (suc n) s = do
  s' ← handle_place is_set i (at_place s.fd_array i) s
  handler_read is_set (suc i) n s'

-- The rfds that Loop passes to ::select.
unfoldable pub watch_set : List (Option ℕ) → Result (List ℕ)
watch_set [] = ok []
watch_set (none ∷ xs) = watch_set xs
watch_set (some fd ∷ xs) =
    let rest = watch_set xs in
    if leb fd_setsize fd then fault undefined else (do fds ← rest; ok (fd ∷ fds))

abbrev larger : Option ℕ → ℕ → Option ℕ
larger none fd = some fd
larger (some m) fd = if ltb m fd then some fd else some m

-- The maxfd that Loop passes to ::select; -1 is `none`.
unfoldable pub max_fd : Option ℕ → List (Option ℕ) → Option ℕ
max_fd m [] = m
max_fd m (none ∷ xs) = max_fd m xs
max_fd m (some fd ∷ xs) = max_fd (larger m fd) xs

-- What ::select returns: descriptors are ready, the time is over, or -1.
pub data Selected : Type 0 where
  ready : (ℕ → Bool) → Selected
  timed_out failed_select : Selected

abbrev pub among : ℕ → List ℕ → Bool
among fd [] = false
among fd (k ∷ ks) = (k == fd) || among fd ks

-- What ::select leaves in rfds: of the descriptors up to maxfd that stand there, those that are ready.
abbrev pub left_in : Option ℕ → List ℕ → (ℕ → Bool) → ℕ → Bool
left_in none rfds is_ready fd = false
left_in (some maxfd) rfds is_ready fd = is_ready fd && (leb fd maxfd && among fd rfds)

-- What Loop does behind ::select.
unfoldable pub after_select : Selected → Option ℕ → List ℕ → SelectServer → Result SelectServer
after_select (ready is_ready) maxfd rfds s = handler_read (left_in maxfd rfds is_ready) 0 capacity s
after_select timed_out maxfd rfds s = ok s
after_select failed_select maxfd rfds s = ok s

-- One round of Loop.
unfoldable pub loop_round : Selected → SelectServer → Result SelectServer
loop_round e s = do rfds ← watch_set s.fd_array; after_select e (max_fd none s.fd_array) rfds s

-- Loop, over what its waits give; when they are used up it still waits.
unfoldable pub loop : List Selected → SelectServer → Result SelectServer
loop [] s = ok s
loop (e ∷ es) s = do s' ← loop_round e s; loop es s'

-- RfdsToStr
unfoldable pub rfds_to_str : List (Option ℕ) → Text
rfds_to_str [] = []
rfds_to_str (none ∷ xs) = rfds_to_str xs
rfds_to_str (some fd ∷ xs) = to_string fd ++ (32 ∷ rfds_to_str xs)
