-- ===== src/Reactor/Proofs/Joining.antt =====
-- Listener::Accepter: the clients that it adds to the reactor.
use linux_advance.Base.{
  ℕ, ◌≡◌, refl, ap, ◌∙◌, Bool, true, false, Option, List, [], ◌∷◌, ◌==◌, if◌then◌else◌, arith,
}
use linux_advance.Base.Monad.{ok}
use linux_advance.Base.Map.{lookup, lookup-insert, or_else}
use linux_advance.Protocol.Messages.{Request}
use linux_advance.Protocol.Json.{Json}
use linux_advance.Reactor.Connection.{Connection, new_connection, read_edge, io_callbacks}
use linux_advance.Reactor.Core.{Reactor, add_connection}
use linux_advance.Reactor.Io.{
  State, AcceptRound, accepted, accept_failed, accept_loop, accepter, eagain, retry_of,
}
use linux_advance.Reactor.Proofs.Apart.{wire_of}

-- The clients of one event of the listener, until no more are waiting.
abbrev pub batch : List ℕ → List AcceptRound → List AcceptRound
batch [] later = accept_failed eagain ∷ later
batch (fd ∷ fds) later = accepted fd ∷ batch fds later

unfoldable pub add_all : List ℕ → Reactor → Reactor
add_all [] r = r
add_all (fd ∷ fds) r = add_all fds (add_connection fd read_edge io_callbacks r)

unfoldable pub is_in : ℕ → List ℕ → Bool
is_in g [] = false
is_in g (fd ∷ fds) = if fd == g then true else is_in g fds

accept_loop-batch :
    (fds : List ℕ) (later : List AcceptRound) (r : Reactor)
    → accept_loop (batch fds later) r ≡ ok (add_all fds r, later)
unfolding accept_loop add_all retry_of
accept_loop-batch [] later r = refl
accept_loop-batch (fd ∷ fds) later r =
    accept_loop-batch fds later (add_connection fd read_edge io_callbacks r)

pub accepter-batch :
    (j : Json) (garbage : Request) (fds : List ℕ) (later : List AcceptRound) (s : State)
    → s.accepts ≡ batch fds later
    → accepter j garbage s ≡ ok (record s { reactor = add_all fds s.reactor; accepts = later })
unfolding accepter
accepter-batch j garbage fds later s e = rw (e, accept_loop-batch fds later s.reactor) refl

-- A connection that is there stays; the others are new.
abbrev pub joined : ℕ → Bool → Option Connection → Option Connection
joined g b old = if b then or_else old (new_connection g read_edge io_callbacks) else old

lookup-add_connection :
    (fd g : ℕ) (r : Reactor)
    → lookup g (add_connection fd read_edge io_callbacks r).connections
      ≡ joined g (fd == g) (lookup g r.connections)
unfolding add_connection
lookup-add_connection fd g r =
    lookup-insert fd g (new_connection fd read_edge io_callbacks) r.connections ∙ ground arith

pub lookup-add_all :
    (fds : List ℕ) (g : ℕ) (r : Reactor)
    → lookup g (add_all fds r).connections ≡ joined g (is_in g fds) (lookup g r.connections)
unfolding add_all is_in
lookup-add_all [] g r = refl
lookup-add_all (fd ∷ fds) g r =
    lookup-add_all fds g (add_connection fd read_edge io_callbacks r)
    ∙ (ap (joined g (is_in g fds)) (lookup-add_connection fd g r) ∙ ground arith)

pub wire_of-add_all :
    (fds : List ℕ) (g : ℕ) (r : Reactor) → wire_of g (add_all fds r).calls ≡ wire_of g r.calls
unfolding add_all add_connection wire_of
wire_of-add_all [] g r = refl
wire_of-add_all (fd ∷ fds) g r = wire_of-add_all fds g (add_connection fd read_edge io_callbacks r)
