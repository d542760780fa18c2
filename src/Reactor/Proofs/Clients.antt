-- ===== src/Reactor/Proofs/Clients.antt =====
-- What is to hold of a client of the reactor while it is served, and HandlerSend.
use linux_advance.Base.{
  suc, ◌≤◌, ◌<◌, arith, ℕ, ◌≡◌, refl, sym, ap, ◌∙◌, subst, some, List, [], ◌∷◌, ◌++◌, ◌==◌, All,
  append_assoc, ==-refl, inl, inr,
}
use linux_advance.Base.Monad.{Goes, Goes-bind, OnOk, OnOk-at, OnOk-bind}
use linux_advance.Base.Map.{lookup, lookup-update_self}
use linux_advance.Base.Text.{Text}
use linux_advance.Protocol.Frame.{decode}
use linux_advance.Protocol.Json.{Json}
use linux_advance.PackageParse.Stream.{frames, IsPayload}
use linux_advance.PackageParse.Chunks.{IsAnswered, replies}
use linux_advance.Reactor.Connection.{Events, Connection, io_callbacks}
use linux_advance.Reactor.Core.{Reactor, Call, ctl_mod, sent}
use linux_advance.Reactor.Io.{State, RecvRound, failed, eagain, send_loop, store, handler_send}
use linux_advance.Reactor.Proofs.Apart.{wire_of, Same}
use linux_advance.Reactor.Proofs.SendLoop.{pauses, send_loop-Goes, HasError, send_loop-HasError}
use linux_advance.Reactor.Proofs.Sending.{SendOutcome, handler_send-SendOutcome}
use linux_advance.Reactor.Proofs.Receiving.{plain, reads, texts_of}

-- For each readable event a run of reads, until the socket has no more.
abbrev pub bursts : List (List Text) → List RecvRound
bursts [] = []
bursts (bs ∷ bss) = reads bs (plain (failed eagain) ∷ bursts bss)

-- All that is read.
unfoldable pub all_texts : List (List Text) → Text
all_texts [] = []
all_texts (bs ∷ bss) = texts_of bs ++ all_texts bss

handler_send_keeps :
    (conn : Connection) (s : State)
    → OnOk
        (λ (t : State). (t.recvs ≡ s.recvs) × (HasError t.sends → HasError s.sends))
        (handler_send conn s)
unfolding handler_send
handler_send_keeps conn s =
    OnOk-bind _ (send_loop s.sends conn []) _
      (λ r e. (refl, OnOk-at _ _ r (send_loop-HasError s.sends conn []) e))

handler_send-Goes :
    (conn : Connection) (s : State)
    → 0 < pauses s.sends
    → Goes (λ (t : State). pauses s.sends ≤ suc (pauses t.sends)) (handler_send conn s)
unfolding handler_send
handler_send-Goes conn s h =
    Goes-bind _ _ (send_loop s.sends conn []) _ (send_loop-Goes s.sends conn [] h)
      (λ r p. (_, refl, p))

module _ (j : Json) (reply : Text → Text) (fd : ℕ) (total : Text) where
  -- A client with this connection: `bss` and `rest` are still to come and to be answered, and what was
  -- sent, what waits in the output buffer and what will be answered make up `total`.
  pub record IsClient (bss : List (List Text)) (conn : Connection) (calls : List Call)
      : Type 0 where
    pub rest : List Text
    pub own : conn.sockfd ≡ fd
    pub callbacks : conn.callbacks ≡ io_callbacks
    pub waits : decode conn.inbuffer ≡ some ([], conn.inbuffer)
    pub coming : conn.inbuffer ++ all_texts bss ≡ frames rest
    pub payloads : All IsPayload rest
    pub answered : All (IsAnswered j reply) rest
    pub accounted : wire_of fd calls ++ (conn.outbuffer ++ replies j reply rest) ≡ total

  -- A state with this client, in which ::send will report at least `n` times that the socket is full, and
  -- what comes from all clients is `all`.
  pub record IsServed (bss all : List (List Text)) (n : ℕ) (s : State) : Type 0 where
    pub conn : Connection
    pub there : lookup fd s.reactor.connections ≡ some conn
    pub client : IsClient bss conn s.reactor.calls
    pub script : s.recvs ≡ bursts all
    pub no_error : HasError s.sends → ⊥
    pub paused : n ≤ pauses s.sends

  sent_accounted :
      (calls : List Call) (g : ℕ) (ev : Events) (wire out out' r : Text)
      → g ≡ fd
      → wire ++ out' ≡ out
      → wire_of fd calls ++ (out ++ r) ≡ total
      → wire_of fd (ctl_mod g ev ∷ (sent g wire ∷ calls)) ++ (out' ++ r) ≡ total
  unfolding wire_of
  sent_accounted calls g ev wire out out' r own e h =
      let w = wire_of fd calls in
      rw (ap (λ k. k == fd) own ∙ ==-refl fd) (
        append_assoc w wire (out' ++ r)
        ∙ (ap (◌++◌ w) (sym (append_assoc wire out' r) ∙ ap (λ t. t ++ r) e) ∙ h))

  -- HandlerSend on a client.
  sent-IsServed :
      (bss all : List (List Text)) (n : ℕ) (conn old : Connection) (s t : State)
      → IsClient bss conn s.reactor.calls
      → s.recvs ≡ bursts all
      → lookup fd s.reactor.connections ≡ some old
      → (HasError s.sends → ⊥)
      → (t.recvs ≡ s.recvs) × (HasError t.sends → HasError s.sends)
      → n ≤ pauses t.sends
      → SendOutcome s.sends conn s.reactor t.reactor
      → IsServed bss all n t
  sent-IsServed bss all n conn old s t c script h fine (same, fewer) pause (inl (gone, err)) =
      absurd (fine err)
  sent-IsServed bss all n conn old s t c script h fine (same, fewer) pause
        (inr (conn', wire, carried, kept, ev, there, calls)) =
      record {
        conn = conn';
        there = subst (λ k. lookup k t.reactor.connections ≡ some conn') c.own there;
        client = record {
          rest = c.rest;
          own = ap (λ (x : Connection). x.sockfd) kept ∙ c.own;
          callbacks = ap (λ (x : Connection). x.callbacks) kept ∙ c.callbacks;
          waits = rw (ap (λ (x : Connection). x.inbuffer) kept) c.waits;
          coming = rw (ap (λ (x : Connection). x.inbuffer) kept) c.coming;
          payloads = c.payloads;
          answered = c.answered;
          accounted =
              ap (λ cs. wire_of fd cs ++ (conn'.outbuffer ++ replies j reply c.rest)) calls
              ∙ sent_accounted s.reactor.calls conn.sockfd conn'.events wire conn.outbuffer
                  conn'.outbuffer (replies j reply c.rest) c.own carried c.accounted;
        };
        script = same ∙ script;
        no_error = λ x. fine (fewer x);
        paused = pause;
      }

  pub handler_send-IsServed :
      (bss all : List (List Text)) (n : ℕ) (conn old : Connection) (s : State)
      → IsClient bss conn s.reactor.calls
      → s.recvs ≡ bursts all
      → lookup fd s.reactor.connections ≡ some old
      → (HasError s.sends → ⊥)
      → n < pauses s.sends
      → Goes (IsServed bss all n) (handler_send conn s)
  handler_send-IsServed bss all n conn old s c script h fine pause =
      let (t, e, spent) = handler_send-Goes conn s (omega arith) in
      (
        t,
        e,
        sent-IsServed bss all n conn old s t c script h fine
            (OnOk-at _ _ t (handler_send_keeps conn s) e) (omega arith)
            (handler_send-SendOutcome conn old s t
              (subst (λ k. lookup k s.reactor.connections ≡ some old) (sym c.own) h) e),
      )

  pub lookup-store :
      (conn old : Connection) (r : Reactor)
      → conn.sockfd ≡ fd
      → lookup fd r.connections ≡ some old
      → lookup fd (store conn r).connections ≡ some conn
  unfolding store
  lookup-store conn old r own h =
      subst (λ k. lookup k (store conn r).connections ≡ some conn) own
        (lookup-update_self conn.sockfd conn old r.connections
          (subst (λ k. lookup k r.connections ≡ some old) (sym own) h))

-- What is done elsewhere leaves a client as it is.
pub Same-IsServed :
    (j : Json) (reply : Text → Text) (g : ℕ) (total : Text) (bss all all' : List (List Text))
    (n n' : ℕ) (s t : State)
    → IsServed j reply g total bss all n s
    → Same g s.reactor t.reactor
    → t.recvs ≡ bursts all'
    → (HasError t.sends → ⊥)
    → n' ≤ pauses t.sends
    → IsServed j reply g total bss all' n' t
Same-IsServed j reply g total bss all all' n n' s t v same script fine pause =
    let c = v.client in
    record {
      conn = v.conn;
      there = same.entry ∙ v.there;
      client = record {
        rest = c.rest;
        own = c.own;
        callbacks = c.callbacks;
        waits = c.waits;
        coming = c.coming;
        payloads = c.payloads;
        answered = c.answered;
        accounted =
            ap (λ l. l ++ (v.conn.outbuffer ++ replies j reply c.rest)) same.wire ∙ c.accounted;
      };
      script = script;
      no_error = fine;
      paused = pause;
    }
