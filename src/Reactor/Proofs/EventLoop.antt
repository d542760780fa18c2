-- ===== src/Reactor/Proofs/EventLoop.antt =====
-- LoopOnce of Reactor.hpp and the handlers that it calls, over the connections and the interest list.
use linux_advance.Base.{
  ℕ, ◌≡◌, Bool, true, false, Option, none, some, List, [], ◌∷◌, arith, if◌then◌else◌, Bool-cases,
  inl, inr, suc, length, is_empty,
}
use linux_advance.Base.Map.{lookup}
use linux_advance.Base.Monad.{Result, ok, OnOk, OnOk-bind, OnOk-at}
use linux_advance.Protocol.Messages.{Request}
use linux_advance.Protocol.Json.{Json}
use linux_advance.PackageParse.{parse_loop}
use linux_advance.Reactor.Connection.{
  Events, Callbacks, Connection, listener_callbacks, io_callbacks, read_edge, has_sender,
}
use linux_advance.Reactor.Io.{
  State, Ending, broken, finished, handler_send, send_loop, recv_loop, accept_loop, AcceptRound,
  accepted, accept_failed, parse, after_recv, handler_recv, accepter, recver,
}
use linux_advance.Reactor.Dispatch.{
  readable_now, writable_now, on_read, on_write, dispatch, loop_once,
}
use linux_advance.Reactor.Core.{Call, Reactor}
use linux_advance.Reactor.Proofs.Consistent.{
  Agrees, Agrees-IsConsistent, IsConsistent-Agrees, IsConsistent, add_connection-IsConsistent,
  remove_connection-IsConsistent, store-IsConsistent, sent-IsConsistent, after_send-IsConsistent,
}

abbrev Keeps : Result State → Type 0
Keeps = OnOk (λ (s : State). IsConsistent s.reactor)

handler_send-IsConsistent :
    (conn : Connection) (s : State) → IsConsistent s.reactor → Keeps (handler_send conn s)
unfolding handler_send
handler_send-IsConsistent conn s h =
    OnOk-bind (λ (s : State). IsConsistent s.reactor) (send_loop s.sends conn []) _
      λ r e.
        after_send-IsConsistent r.0 r.1 _
          (store-IsConsistent r.1 _ (sent-IsConsistent r.1.sockfd r.2 s.reactor h))

accept_loop-IsConsistent :
    (script : List AcceptRound) (r : Reactor)
    → IsConsistent r
    → OnOk (λ (a : Reactor × List AcceptRound). IsConsistent a.0) (accept_loop script r)
unfolding accept_loop
accept_loop-IsConsistent [] r h = tt
accept_loop-IsConsistent (accepted fd ∷ rest) r h =
    accept_loop-IsConsistent rest _ (add_connection-IsConsistent fd read_edge io_callbacks r h)
accept_loop-IsConsistent (accept_failed e ∷ rest) r h =
    ground (arith, accept_loop-IsConsistent rest r h)

module _ (j : Json) (garbage : Request) where
  parse-IsConsistent :
      (conn : Connection) (s : State) → IsConsistent s.reactor → Keeps (parse j garbage conn s)
  unfolding parse
  parse-IsConsistent conn s h =
      OnOk-bind (λ (s : State). IsConsistent s.reactor)
        (parse_loop j (suc (length conn.inbuffer)) garbage conn.inbuffer conn.outbuffer) _
        λ r e. elim (Bool-cases (is_empty r.1)) [
          | inl none_out ↦ rw none_out (store-IsConsistent _ s.reactor h)
          | inr some_out ↦
              rw some_out (handler_send-IsConsistent _ _ (store-IsConsistent _ s.reactor h))
        ]

  after_recv-IsConsistent :
      (e : Ending) (conn : Connection) (s : State)
      → IsConsistent s.reactor
      → Keeps (after_recv j garbage e conn s)
  unfolding after_recv
  after_recv-IsConsistent broken conn s h = remove_connection-IsConsistent conn.sockfd s.reactor h
  after_recv-IsConsistent finished conn s h = parse-IsConsistent conn s h

  handler_recv-IsConsistent :
      (conn : Connection) (s : State)
      → IsConsistent s.reactor
      → Keeps (handler_recv j garbage conn s)
  unfolding handler_recv
  handler_recv-IsConsistent conn s h =
      OnOk-bind (λ (s : State). IsConsistent s.reactor) (recv_loop s.recvs 0 conn) _
        λ r e. after_recv-IsConsistent r.0 r.1 _ (store-IsConsistent r.1 s.reactor h)

  accepter-IsConsistent : (s : State) → IsConsistent s.reactor → Keeps (accepter j garbage s)
  unfolding accepter
  accepter-IsConsistent s h =
      OnOk-bind (λ (s : State). IsConsistent s.reactor) (accept_loop s.accepts s.reactor) _
        λ r e. OnOk-at _ _ r (accept_loop-IsConsistent s.accepts s.reactor h) e

  on_read-IsConsistent :
      (o : Option Connection) (s : State) → IsConsistent s.reactor → Keeps (on_read j garbage o s)
  unfolding on_read recver
  on_read-IsConsistent none s h = h
  on_read-IsConsistent (some conn) s h = by_callbacks conn.callbacks
    where
      by_callbacks : (cb : Callbacks) → Keeps (recver j garbage cb conn s)
      by_callbacks listener_callbacks = accepter-IsConsistent s h
      by_callbacks io_callbacks = handler_recv-IsConsistent conn s h

on_write-IsConsistent :
    (o : Option Connection) (s : State) → IsConsistent s.reactor → Keeps (on_write o s)
unfolding on_write
on_write-IsConsistent none s h = h
on_write-IsConsistent (some conn) s h = elim (Bool-cases (has_sender conn.callbacks)) [
  | inl sends ↦ rw sends (handler_send-IsConsistent conn s h)
  | inr silent ↦ rw silent h
]

abbrev optional : Bool → Result State → State → Result State
optional b m s = if b then m else ok s

optional-Keeps :
    (b : Bool) (m : Result State) (s : State)
    → IsConsistent s.reactor
    → Keeps m
    → Keeps (optional b m s)
optional-Keeps true m s h k = k
optional-Keeps false m s h k = h

module _ (j : Json) (garbage : Request) where
  dispatch-IsConsistent :
      (fd : ℕ) (ev : Events) (s : State)
      → IsConsistent s.reactor
      → Keeps (dispatch j garbage fd ev s)
  unfolding dispatch
  dispatch-IsConsistent fd ev s h =
      OnOk-bind (λ (s : State). IsConsistent s.reactor)
        (optional (readable_now ev) (on_read j garbage (lookup fd s.reactor.connections) s) s) _
        λ s' e.
          let h' =
            OnOk-at (λ (s : State). IsConsistent s.reactor) _ s'
              (optional-Keeps (readable_now ev) _ s h (on_read-IsConsistent j garbage _ s h)) e in
          optional-Keeps (writable_now ev) (on_write (lookup fd s'.reactor.connections) s') s' h'
            (on_write-IsConsistent _ s' h')

  loop_once-Keeps :
      (ready : List (ℕ × Events)) (s : State)
      → IsConsistent s.reactor
      → Keeps (loop_once j garbage ready s)
  unfolding loop_once
  loop_once-Keeps [] s h = h
  loop_once-Keeps ((fd, ev) ∷ rest) s h =
      OnOk-bind (λ (s : State). IsConsistent s.reactor) (dispatch j garbage fd ev s) _
        λ s' e.
          loop_once-Keeps rest s' (
            OnOk-at (λ (s : State). IsConsistent s.reactor) _ s' (dispatch-IsConsistent fd ev s h)
              e)

  -- Where every epoll_ctl works, and whatever else the kernel reports and answers: an iteration of the
  -- event loop that ends leaves the map of connections and the interest list of epoll with the same
  -- descriptors, each connection under its own, if they agreed before.
  pub loop_once-Agrees :
      (works : List Call → Bool)
      → ((cs : List Call) → works cs ≡ true)
      → (ready : List (ℕ × Events)) (s t : State) → Agrees works s.reactor
      → loop_once j garbage ready s ≡ ok t
      → Agrees works t.reactor
  loop_once-Agrees works all ready s t h e = IsConsistent-Agrees works all t.reactor (
      OnOk-at (λ (s : State). IsConsistent s.reactor) _ t
        (loop_once-Keeps ready s (Agrees-IsConsistent works all s.reactor h)) e)
