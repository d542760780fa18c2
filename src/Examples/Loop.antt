-- ===== src/Examples/Loop.antt =====
-- The event loop and the handlers of the reactor.
use linux_advance.Base.{◌≡◌, refl, [], ◌∷◌, arith, true}
use linux_advance.Base.Monad.{ok, fault, is_ok, blocked}
use linux_advance.Base.Int.{pos}
use linux_advance.Base.Map.{lookup, insert}
use linux_advance.Base.Text.{codes}
use linux_advance.Protocol.Messages.{Request}
use linux_advance.Reactor.Connection.{
  Connection, listener_callbacks, io_callbacks, read_edge, append_inbuff, new_connection,
}
use linux_advance.Reactor.Core.{Reactor, new_reactor, make_call, sent, add_connection}
use linux_advance.Reactor.Io.{
  State, broken, finished, at_end, failed, recv_loop, eagain, eintr, handler_send, send_loop,
  after_send, store, took, send_failed, accepted, accept_failed, retry_of, accept_loop, accepter,
  recver,
}
use linux_advance.Reactor.Dispatch.{loop_once, dispatch, readable_now, writable_now, on_read}
use linux_advance.Reactor.Proofs.Consistent.{
  Agrees, IsConsistent-Agrees, IsConsistent, is_watched, add_connection-IsConsistent,
}
use linux_advance.Reactor.Proofs.EventLoop.{loop_once-Agrees}
use linux_advance.Reactor.Proofs.Sending.{SendOutcome, handler_send-SendOutcome, handler_send_ends}
use linux_advance.Reactor.Proofs.Receiving.{
  plain, reads, texts_of, recv_loop-reads, recv_loop-interrupted,
}
use linux_advance.Examples.ToyJson.{toy_json}

abbrev client : Connection
client = record (new_connection 5 read_edge io_callbacks) { outbuffer = codes "abc" }

recv_loop-reads_example :
    (recv_loop (reads (codes "ab" ∷ []) (plain (failed eagain) ∷ [])) 0 client
      ≡ ok (finished, append_inbuff client (texts_of (codes "ab" ∷ [])), []))
    × (recv_loop (reads (codes "ab" ∷ []) (plain at_end ∷ [])) 0 client
        ≡ ok (broken, append_inbuff client (texts_of (codes "ab" ∷ [])), []))
    × (recv_loop (reads (codes "ab" ∷ []) (plain (failed 104) ∷ [])) 0 client
        ≡ ok (broken, append_inbuff client (texts_of (codes "ab" ∷ [])), []))
recv_loop-reads_example =
    recv_loop-reads (codes "ab" ∷ []) [] client 104 (ground arith) (ground arith)

recv_loop-interrupted_example :
    recv_loop
      (reads (codes "ab" ∷ []) (plain (failed eintr) ∷ (plain at_end ∷ (plain at_end ∷ []))))
      0
      client
    ≡ fault blocked
recv_loop-interrupted_example = recv_loop-interrupted 2 (codes "ab" ∷ []) client

-- A reactor that only listens.
abbrev listening : Reactor
listening = add_connection 3 read_edge listener_callbacks new_reactor

new_reactor-IsConsistent : IsConsistent new_reactor
unfolding is_watched lookup
new_reactor-IsConsistent = record { watched = λ fd. refl; own = λ fd. tt }

abbrev idle_state : Reactor → State
idle_state r = record { reactor = r; recvs = []; sends = []; accepts = [] }

abbrev a_request : Request
a_request = record { x = pos 0; y = pos 0; oper = 0 }

loop_once-Agrees_example : Agrees (λ cs. true) (add_connection 5 read_edge io_callbacks listening)
unfolding loop_once dispatch readable_now writable_now on_read recver accepter accept_loop retry_of
    add_connection insert lookup make_call
loop_once-Agrees_example =
    loop_once-Agrees toy_json a_request (λ cs. true) (λ cs. refl) ((3, read_edge) ∷ [])
      (record (idle_state listening) { accepts = accepted 5 ∷ accept_failed eagain ∷ [] })
      (idle_state (add_connection 5 read_edge io_callbacks listening))
      (IsConsistent-Agrees (λ cs. true) (λ cs. refl) listening
        (add_connection-IsConsistent 3 read_edge listener_callbacks new_reactor
          new_reactor-IsConsistent))
      refl

-- The kernel takes two of three bytes.
abbrev one_client : Reactor
one_client = record { connections = (5, client) ∷ []; calls = []; is_running = true }

abbrev behind_send : Reactor
behind_send =
    after_send finished (record client { outbuffer = codes "c" })
      (store (record client { outbuffer = codes "c" }) (make_call (sent 5 (codes "ab")) one_client))

handler_send-SendOutcome_example :
    SendOutcome (took 2 ∷ send_failed eagain ∷ []) client one_client behind_send
unfolding handler_send send_loop retry_of lookup
handler_send-SendOutcome_example =
    handler_send-SendOutcome client client
      (record (idle_state one_client) { sends = took 2 ∷ send_failed eagain ∷ [] })
      (idle_state behind_send) refl refl

handler_send_ends_example :
    is_ok (
      handler_send client
        (record (idle_state one_client) { sends = took 2 ∷ send_failed eagain ∷ [] }))
    ≡ true
handler_send_ends_example = handler_send_ends (took 2 ∷ []) client _ refl
