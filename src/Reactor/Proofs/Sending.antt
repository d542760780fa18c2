-- ===== src/Reactor/Proofs/Sending.antt =====
-- HandlerSend of IOService.hpp: the interest in writable events, and its end.
use linux_advance.Base.{
  ◌≡◌, refl, sym, ap, ◌∙◌, Bool, true, false, not, Option, none, some, List, [], ◌∷◌, ◌++◌,
  Bool-cases, inl, inr, is_empty, ◌⊎◌, subst,
}
use linux_advance.Base.Monad.{ok, OnOk-at, OnOk-bind, is_ok, is_ok-bind}
use linux_advance.Base.Map.{lookup, lookup-update_self, lookup-remove_self, is_some}
use linux_advance.Base.Text.{Text}
use linux_advance.Reactor.Connection.{Connection}
use linux_advance.Reactor.Core.{
  Reactor, sent, ctl_mod, make_call, enable_read_write, remove_connection, events_of,
}
use linux_advance.Reactor.Io.{
  State, Ending, broken, finished, SendRound, send_failed, send_loop, store, after_send, eagain,
  handler_send,
}
use linux_advance.Reactor.Proofs.SendLoop.{
  send_loop-Carries, HasError, Explained, send_loop-Explained, send_loop_ends,
}

-- What HandlerSend leaves. Either a call failed and the connection is gone; or the kernel took the first
-- bytes of the output buffer, the rest is still there, and the connection waits for the next writable
-- event exactly if there is a rest.
abbrev pub SendOutcome : List SendRound → Connection → Reactor → Reactor → Type 0
SendOutcome script conn before after =
    ((lookup conn.sockfd after.connections ≡ none) × HasError script)
    ⊎ ((conn' : Connection) × (wire : Text) × (wire ++ conn'.outbuffer ≡ conn.outbuffer)
        × (conn' ≡ record conn { outbuffer = conn'.outbuffer; events = conn'.events })
        × (conn'.events ≡ events_of (not (is_empty conn'.outbuffer)) true)
        × (lookup conn.sockfd after.connections ≡ some conn')
        × (after.calls ≡ ctl_mod conn.sockfd conn'.events ∷ (sent conn.sockfd wire ∷ before.calls)))

is_none_of : (o : Option Connection) → is_some o ≡ false → o ≡ none
is_none_of none h = refl
is_none_of (some c) h = cc

after_send-broken :
    (conn : Connection) (r : Reactor)
    → lookup conn.sockfd (after_send broken conn r).connections ≡ none
unfolding after_send remove_connection
after_send-broken conn r = elim (Bool-cases (is_some (lookup conn.sockfd r.connections))) [
  | inl there ↦ rw there (lookup-remove_self conn.sockfd r.connections)
  | inr gone ↦ rw gone (is_none_of (lookup conn.sockfd r.connections) gone)
]

-- EnableReadWrite on a connection that is there.
enabled :
    (wr rd : Bool) (conn : Connection) (r : Reactor)
    → lookup conn.sockfd r.connections ≡ some conn
    → let done = enable_read_write conn.sockfd wr rd r in
      (lookup conn.sockfd done.connections ≡ some (record conn { events = events_of wr rd }))
      × (done.calls ≡ ctl_mod conn.sockfd (events_of wr rd) ∷ r.calls)
unfolding enable_read_write
enabled wr rd conn r h =
    rw (h, enable_read_write)
      (
        lookup-update_self conn.sockfd (record conn { events = events_of wr rd }) conn r.connections
            h,
        refl,
      )

abbrev Finished : Connection → Text → Reactor → Reactor → Type 0
Finished conn wire before after =
    let ev = events_of (not (is_empty conn.outbuffer)) true in
    (lookup conn.sockfd after.connections ≡ some (record conn { events = ev }))
    × (after.calls ≡ ctl_mod conn.sockfd ev ∷ (sent conn.sockfd wire ∷ before.calls))

after_send-finished :
    (conn old : Connection) (r : Reactor) (wire : Text)
    → lookup conn.sockfd r.connections ≡ some old
    → Finished conn wire r
        (after_send finished conn (store conn (make_call (sent conn.sockfd wire) r)))
unfolding after_send store make_call
after_send-finished conn old r wire h =
    let stored = lookup-update_self conn.sockfd conn old r.connections h in
    elim (Bool-cases (is_empty conn.outbuffer)) [
      | inl all_sent ↦ rw all_sent (enabled false true conn _ stored)
      | inr some_left ↦ rw some_left (enabled true true conn _ stored)
    ]

outcome :
    (conn old : Connection) (s : State) (r : Ending × Connection × Text × List SendRound)
    → lookup conn.sockfd s.reactor.connections ≡ some old
    → (r.2 ++ r.1.outbuffer ≡ conn.outbuffer) × (r.1 ≡ record conn { outbuffer = r.1.outbuffer })
    → Explained s.sends r.0
    → SendOutcome s.sends conn s.reactor
        (after_send r.0 r.1 (store r.1 (make_call (sent r.1.sockfd r.2) s.reactor)))
outcome conn old s (broken, conn', wire, rest) h (carried, same) (inl fin) = cc
outcome conn old s (broken, conn', wire, rest) h (carried, same) (inr err) =
    let fd : conn'.sockfd ≡ conn.sockfd = ap (λ (c : Connection). c.sockfd) same in
    inl (rw (← fd) (after_send-broken conn' _), err)
outcome conn old s (finished, conn', wire, rest) h (carried, same) why =
    let fd : conn'.sockfd ≡ conn.sockfd = ap (λ (c : Connection). c.sockfd) same in
    let (stored, called) =
      after_send-finished conn' old s.reactor wire
        (subst (λ k. lookup k s.reactor.connections ≡ some old) (sym fd) h) in
    let ev = events_of (not (is_empty conn'.outbuffer)) true in
    inr (
      record conn' { events = ev },
      wire,
      carried,
      ap (λ (c : Connection). record c { events = ev }) same,
      refl,
      rw (← fd) stored,
      rw (← fd) called,
    )

-- When HandlerSend ends on a connection of the map, either a call of ::send in the script failed with
-- neither EAGAIN nor EINTR and the connection is gone from the map, or the kernel took the first bytes
-- of the output buffer, the rest is still in the buffer, the connection waits for the next writable
-- event exactly if there is a rest, and nothing else of it has changed.
pub handler_send-SendOutcome :
    (conn old : Connection) (s t : State)
    → lookup conn.sockfd s.reactor.connections ≡ some old
    → handler_send conn s ≡ ok t
    → SendOutcome s.sends conn s.reactor t.reactor
unfolding handler_send
handler_send-SendOutcome conn old s t h e =
    OnOk-at (λ (t : State). SendOutcome s.sends conn s.reactor t.reactor) _ t
      (OnOk-bind (λ (t : State). SendOutcome s.sends conn s.reactor t.reactor)
        (send_loop s.sends conn []) _
        (λ r sent_so.
          outcome conn old s r h (OnOk-at _ _ r (send_loop-Carries s.sends conn []) sent_so)
            (OnOk-at _ _ r (send_loop-Explained s.sends conn []) sent_so)))
      e

-- HandlerSend ends, whatever ::send does before it reports, with EAGAIN, that the socket is full.
pub handler_send_ends :
    (script : List SendRound) (conn : Connection) (s : State)
    → s.sends ≡ script ++ send_failed eagain ∷ []
    → is_ok (handler_send conn s) ≡ true
unfolding handler_send
handler_send_ends script conn s e =
    is_ok-bind (send_loop s.sends conn []) _
    ∙ (ap (λ l. is_ok (send_loop l conn [])) e ∙ send_loop_ends script conn [])
