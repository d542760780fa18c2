-- ===== src/Reactor/Proofs/Apart.antt =====
-- What the handlers of one connection of the reactor leave alone: every other connection, and the
-- bytes sent for it.
use linux_advance.Base.{
  ℕ, ◌≡◌, ◌≢◌, refl, sym, ap, ◌∙◌, Bool, true, false, List, [], ◌∷◌, ◌++◌, ◌==◌, if◌then◌else◌,
  is_empty, suc, length, arith, Bool-cases, Option-cases, inl, inr, ne→==,
}
use linux_advance.Base.Monad.{OnOk, OnOk-bind, OnOk-at, OnOk-map}
use linux_advance.Base.Map.{lookup, lookup-update, lookup-remove, is_some}
use linux_advance.Base.Text.{Text}
use linux_advance.Protocol.Messages.{Request}
use linux_advance.Protocol.Json.{Json}
use linux_advance.PackageParse.{parse_loop}
use linux_advance.Reactor.Connection.{Connection, append_inbuff}
use linux_advance.Reactor.Core.{
  Reactor, Call, ctl_add, ctl_mod, ctl_del, close, sent, make_call, enable_read_write,
  remove_connection, connection_is_exist,
}
use linux_advance.Reactor.Io.{
  State, RecvRound, Ending, finished, broken, errno_behind, bytes_of, recv_loop, send_loop, store,
  handler_except, after_send, handler_send, parse, after_recv, handler_recv,
}
use linux_advance.Reactor.Proofs.SendLoop.{send_loop-Carries}

-- The bytes that the kernel took for a descriptor, from a log with the newest call first.
unfoldable pub wire_of : ℕ → List Call → Text
wire_of fd [] = []
wire_of fd (ctl_add g ev ∷ cs) = wire_of fd cs
wire_of fd (ctl_mod g ev ∷ cs) = wire_of fd cs
wire_of fd (ctl_del g ∷ cs) = wire_of fd cs
wire_of fd (close g ∷ cs) = wire_of fd cs
wire_of fd (sent g t ∷ cs) = let rest = wire_of fd cs in if g == fd then rest ++ t else rest

-- The reactor is the same as far as `g` is concerned.
pub record Same (g : ℕ) (r r' : Reactor) : Type 0 where
  pub entry : lookup g r'.connections ≡ lookup g r.connections
  pub wire : wire_of g r'.calls ≡ wire_of g r.calls

pub Same-refl : (g : ℕ) (r : Reactor) → Same g r r
Same-refl g r = record { entry = refl; wire = refl }

pub Same-trans : (g : ℕ) (a b c : Reactor) → Same g a b → Same g b c → Same g a c
Same-trans g a b c h k = record { entry = k.entry ∙ h.entry; wire = k.wire ∙ h.wire }

module _ (g : ℕ) where
  store-Same : (conn : Connection) (r : Reactor) → conn.sockfd ≢ g → Same g r (store conn r)
  unfolding store
  store-Same conn r ne = record {
    entry = lookup-update conn.sockfd g conn r.connections ∙ rw (ne→== conn.sockfd g ne) refl;
    wire = refl;
  }

  sent-Same : (k : ℕ) (t : Text) (r : Reactor) → k ≢ g → Same g r (make_call (sent k t) r)
  unfolding make_call wire_of
  sent-Same k t r ne = record { entry = refl; wire = rw (ne→== k g ne) refl }

  enable_read_write-Same :
      (k : ℕ) (wr rd : Bool) (r : Reactor) → k ≢ g → Same g r (enable_read_write k wr rd r)
  unfolding enable_read_write wire_of
  enable_read_write-Same k wr rd r ne = elim (Option-cases (lookup k r.connections)) [
    | inl gone ↦ rw (gone, enable_read_write) (Same-refl g r)
    | inr (conn, there) ↦
        rw (there, enable_read_write)
          (record {
            entry = lookup-update k g _ r.connections ∙ rw (ne→== k g ne) refl;
            wire = refl;
          })
  ]

  remove_connection-Same : (k : ℕ) (r : Reactor) → k ≢ g → Same g r (remove_connection k r)
  unfolding remove_connection connection_is_exist make_call wire_of
  remove_connection-Same k r ne = elim (Bool-cases (is_some (lookup k r.connections))) [
    | inl there ↦
        rw there
          (record { entry = lookup-remove k g r.connections ∙ rw (ne→== k g ne) refl; wire = refl })
    | inr gone ↦ rw gone (Same-refl g r)
  ]

  after_send-Same :
      (ending : Ending) (conn : Connection) (r : Reactor)
      → conn.sockfd ≢ g
      → Same g r (after_send ending conn r)
  unfolding after_send handler_except
  after_send-Same broken conn r ne = remove_connection-Same conn.sockfd r ne
  after_send-Same finished conn r ne = elim (Bool-cases (is_empty conn.outbuffer)) [
    | inl e ↦ rw e (enable_read_write-Same conn.sockfd false true r ne)
    | inr e ↦ rw e (enable_read_write-Same conn.sockfd true true r ne)
  ]

  -- HandlerSend changes only its own connection.
  pub handler_send-Same :
      (conn : Connection) (s : State)
      → conn.sockfd ≢ g
      → OnOk (λ (t : State). Same g s.reactor t.reactor) (handler_send conn s)
  unfolding handler_send
  handler_send-Same conn s ne = OnOk-bind _ (send_loop s.sends conn []) _ (λ r e.
      let own =
        ap (λ (c : Connection). c.sockfd) (OnOk-at _ _ r (send_loop-Carries s.sends conn []) e).1 in
      let ne' : r.1.sockfd ≢ g = λ p. ne (sym own ∙ p) in
      let logged = make_call (sent r.1.sockfd r.2) s.reactor in
      Same-trans g s.reactor logged _ (sent-Same r.1.sockfd r.2 s.reactor ne') (
        Same-trans g logged (store r.1 logged) _ (store-Same r.1 logged ne')
          (after_send-Same r.0 r.1 (store r.1 logged) ne')))

recv_loop-sockfd :
    (script : List RecvRound) (errno : ℕ) (conn : Connection)
    → OnOk (λ r. r.1.sockfd ≡ conn.sockfd) (recv_loop script errno conn)
unfolding recv_loop
recv_loop-sockfd [] errno conn = tt
recv_loop-sockfd (round ∷ rest) errno conn = elim (Option-cases (bytes_of round.received)) [
  | inl e ↦ ground (arith, e, recv_loop-sockfd rest (errno_behind errno round) conn)
  | inr (b, e) ↦
      rw (e, recv_loop) (recv_loop-sockfd rest (errno_behind errno round) (append_inbuff conn b))
]

module _ (g : ℕ) (j : Json) (garbage : Request) where
  parse-Same :
      (conn : Connection) (s : State)
      → conn.sockfd ≢ g
      → OnOk (λ (t : State). Same g s.reactor t.reactor) (parse j garbage conn s)
  unfolding parse
  parse-Same conn s ne =
      OnOk-bind _ (parse_loop j (suc (length conn.inbuffer)) garbage conn.inbuffer conn.outbuffer) _
        (λ r e.
          let conn' : Connection = record conn { inbuffer = r.0; outbuffer = r.1 } in
          let s' : State = record s { reactor = store conn' s.reactor } in
          let stored = store-Same g conn' s.reactor ne in
          elim (Bool-cases (is_empty r.1)) [
            | inl none_left ↦ rw none_left stored
            | inr some_left ↦ rw some_left (
                OnOk-map _ _ (handler_send conn' s')
                  (λ t h. Same-trans g s.reactor s'.reactor t.reactor stored h)
                  (handler_send-Same g conn' s' ne))
          ])

  after_recv-Same :
      (ending : Ending) (conn : Connection) (s : State)
      → conn.sockfd ≢ g
      → OnOk (λ (t : State). Same g s.reactor t.reactor) (after_recv j garbage ending conn s)
  unfolding after_recv handler_except
  after_recv-Same broken conn s ne = remove_connection-Same g conn.sockfd s.reactor ne
  after_recv-Same finished conn s ne = parse-Same conn s ne

  -- HandlerRecv changes only its own connection.
  pub handler_recv-Same :
      (conn : Connection) (s : State)
      → conn.sockfd ≢ g
      → OnOk (λ (t : State). Same g s.reactor t.reactor) (handler_recv j garbage conn s)
  unfolding handler_recv
  handler_recv-Same conn s ne = OnOk-bind _ (recv_loop s.recvs 0 conn) _ (λ r e.
      let own = OnOk-at _ _ r (recv_loop-sockfd s.recvs 0 conn) e in
      let ne' : r.1.sockfd ≢ g = λ p. ne (sym own ∙ p) in
      let s' : State = record s { reactor = store r.1 s.reactor; recvs = r.2 } in
      OnOk-map _ _ (after_recv j garbage r.0 r.1 s')
        (λ t h. Same-trans g s.reactor s'.reactor t.reactor (store-Same g r.1 s.reactor ne') h)
        (after_recv-Same r.0 r.1 s' ne'))

-- HandlerSend and HandlerRecv accept nobody.
pub handler_send-accepts :
    (conn : Connection) (s : State)
    → OnOk (λ (t : State). t.accepts ≡ s.accepts) (handler_send conn s)
unfolding handler_send
handler_send-accepts conn s = OnOk-bind _ (send_loop s.sends conn []) _ (λ r e. refl)

module _ (j : Json) (garbage : Request) where
  parse-accepts :
      (conn : Connection) (s : State)
      → OnOk (λ (t : State). t.accepts ≡ s.accepts) (parse j garbage conn s)
  unfolding parse
  parse-accepts conn s =
      OnOk-bind _ (parse_loop j (suc (length conn.inbuffer)) garbage conn.inbuffer conn.outbuffer) _
        (λ r e. elim (Bool-cases (is_empty r.1)) [
          | inl none_left ↦ rw none_left refl
          | inr some_left ↦ rw some_left (handler_send-accepts _ _)
        ])

  after_recv-accepts :
      (ending : Ending) (conn : Connection) (s : State)
      → OnOk (λ (t : State). t.accepts ≡ s.accepts) (after_recv j garbage ending conn s)
  unfolding after_recv
  after_recv-accepts broken conn s = refl
  after_recv-accepts finished conn s = parse-accepts conn s

  pub handler_recv-accepts :
      (conn : Connection) (s : State)
      → OnOk (λ (t : State). t.accepts ≡ s.accepts) (handler_recv j garbage conn s)
  unfolding handler_recv
  handler_recv-accepts conn s =
      OnOk-bind _ (recv_loop s.recvs 0 conn) _ (λ r e. after_recv-accepts r.0 r.1 _)
