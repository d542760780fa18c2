-- ===== src/Reactor/Core.antt =====
-- Reactor.hpp and Epoller.hpp: the map of connections, and the system calls that the reactor makes.
-- What a call returns is not used by the reactor, so the calls are kept as a log, the newest first.
use linux_advance.Base.{ℕ, Bool, true, false, Option, none, some, List, [], ◌∷◌, if◌then◌else◌}
use linux_advance.Base.Map.{Map, is_some, lookup, insert, update, remove}
use linux_advance.Base.Text.{Text}
use linux_advance.Reactor.Connection.{Events, Callbacks, Connection, new_connection}

pub data Call : Type 0 where
  ctl_add ctl_mod : ℕ → Events → Call
  ctl_del close : ℕ → Call
  sent : ℕ → Text → Call

pub record Reactor : Type 0 where
  pub connections : Map Connection
  pub calls : List Call
  pub is_running : Bool

-- Reactor()
abbrev pub new_reactor : Reactor
new_reactor = record { connections = []; calls = []; is_running = false }

unfoldable pub make_call : Call → Reactor → Reactor
make_call c r = record r { calls = c ∷ r.calls }

-- Epoller::AddEvent, Epoller::ModEvent and Epoller::DelEvent. Whether epoll_ctl works, which EventCore
-- returns, nobody looks at; what it makes of the interest list is `in_kernel` of Reactor/Proofs/Consistent.
abbrev pub add_event : ℕ → Events → Reactor → Reactor
add_event fd ev = make_call (ctl_add fd ev)

abbrev pub mod_event : ℕ → Events → Reactor → Reactor
mod_event fd ev = make_call (ctl_mod fd ev)

abbrev pub del_event : ℕ → Reactor → Reactor
del_event fd = make_call (ctl_del fd)

-- AddConnection: the map keeps an entry that it has.
unfoldable pub add_connection : ℕ → Events → Callbacks → Reactor → Reactor
unfolding make_call
add_connection fd ev cb r =
    let conn = new_connection fd ev cb in
    let watching = add_event conn.sockfd conn.events r in
    record watching { connections = insert conn.sockfd conn watching.connections }

unfoldable pub connection_is_exist : ℕ → Reactor → Bool
connection_is_exist fd r = is_some (lookup fd r.connections)

-- (wr ? EPOLLOUT : 0) | (rd ? EPOLLIN : 0) | EPOLLET
abbrev pub events_of : Bool → Bool → Events
events_of wr rd = record { readable = rd; writable = wr; edge = true; hung = false; error = false }

abbrev set_event : Option Connection → ℕ → Events → Reactor → Reactor
set_event none fd ev r = r
set_event (some conn) fd ev r =
    mod_event fd ev
      (record r { connections = update fd (record conn { events = ev }) r.connections })

-- EnableReadWrite
unfoldable pub enable_read_write : ℕ → Bool → Bool → Reactor → Reactor
unfolding make_call
enable_read_write fd wr rd r = set_event (lookup fd r.connections) fd (events_of wr rd) r

-- RemoveConnection
unfoldable pub remove_connection : ℕ → Reactor → Reactor
unfolding make_call connection_is_exist
remove_connection fd r =
    if connection_is_exist fd r
    then (let closed = make_call (close fd) (del_event fd r) in
        record closed { connections = remove fd closed.connections })
    else r
