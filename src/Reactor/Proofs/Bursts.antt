-- ===== src/Reactor/Proofs/Bursts.antt =====
-- HandlerRecv on a client of the reactor, and Parse behind it.
use linux_advance.Base.{
  suc, ◌<◌, ℕ, ◌≡◌, refl, sym, ap, ◌∙◌, subst, some, List, ◌∷◌, ◌++◌, is_empty, arith, All,
  append_assoc,
}
use linux_advance.Base.Monad.{Goes, Goes-if}
use linux_advance.Base.Map.{lookup}
use linux_advance.Base.Text.{Text}
use linux_advance.Protocol.Messages.{Request}
use linux_advance.Protocol.Json.{Json}
use linux_advance.PackageParse.Stream.{frames, IsPayload, frames-Cut}
use linux_advance.PackageParse.Chunks.{
  IsAnswered, replies, replies_append, feed_round, All-append_left,
}
use linux_advance.Reactor.Connection.{Connection, io_callbacks, append_inbuff}
use linux_advance.Reactor.Io.{State, recv_loop, store, handler_recv, after_recv, parse}
use linux_advance.Reactor.Proofs.Apart.{wire_of}
use linux_advance.Reactor.Proofs.SendLoop.{pauses, HasError}
use linux_advance.Reactor.Proofs.Receiving.{texts_of, recv_loop-reads}
use linux_advance.Reactor.Proofs.Clients.{
  bursts, all_texts, IsClient, IsServed, handler_send-IsServed, lookup-store,
}

module _ (j : Json) (reply : Text → Text) (fd : ℕ) (total : Text) (garbage : Request) where
  abbrev Served : List (List Text) → List (List Text) → ℕ → State → Type 0
  Served = IsServed j reply fd total

  -- Parse on a client whose input buffer has grown.
  parse-IsServed :
      (conn old : Connection) (s : State) (bss all : List (List Text)) (rest : List Text) (n : ℕ)
      → conn.sockfd ≡ fd
      → conn.callbacks ≡ io_callbacks
      → s.recvs ≡ bursts all
      → conn.inbuffer ++ all_texts bss ≡ frames rest
      → All IsPayload rest × All (IsAnswered j reply) rest
      → wire_of fd s.reactor.calls ++ (conn.outbuffer ++ replies j reply rest) ≡ total
      → lookup fd s.reactor.connections ≡ some old
      → (HasError s.sends → ⊥)
      → n < pauses s.sends
      → Goes (Served bss all n) (parse j garbage conn s)
  unfolding parse store
  parse-IsServed conn old s bss all rest n own cb script coming (h, a) acc there fine pause =
      let u = frames-Cut rest conn.inbuffer (all_texts bss) h coming in
      let out = conn.outbuffer ++ replies j reply u.whole in
      let conn' : Connection = record conn { inbuffer = u.tail; outbuffer = out } in
      let c : IsClient j reply fd total bss conn' s.reactor.calls = record {
        rest = u.rest;
        own = own;
        callbacks = cb;
        waits = u.waits;
        coming = u.left;
        payloads =
            (All-append_left IsPayload u.whole u.rest (subst (All IsPayload) u.payloads h)).1;
        answered =
            (All-append_left (IsAnswered j reply) u.whole u.rest
              (subst (All (IsAnswered j reply)) u.payloads a)).1;
        accounted =
            ap (◌++◌ (wire_of fd s.reactor.calls)) (
              append_assoc conn.outbuffer (replies j reply u.whole) (replies j reply u.rest)
              ∙ ap (◌++◌ conn.outbuffer)
                  (sym (ap (replies j reply) u.payloads ∙ replies_append j reply u.whole u.rest)))
            ∙ acc;
      } in
      let stored = lookup-store j reply fd total conn' old s.reactor own there in
      rw (feed_round j reply rest garbage conn.inbuffer conn.outbuffer (all_texts bss) u h a) (
        Goes-if (Served bss all n) (is_empty out) _ _
          (
            _,
            refl,
            record {
              conn = conn';
              there = stored;
              client = c;
              script = script;
              no_error = fine;
              paused = omega arith;
            },
          )
          (handler_send-IsServed j reply fd total bss all n conn' conn'
            (record s { reactor = store conn' s.reactor }) c script stored fine pause))

  pub burst-IsServed :
      (bs : List Text) (bss all : List (List Text)) (n : ℕ) (s : State)
      (v : Served (bs ∷ bss) (bs ∷ all) (suc n) s)
      → Goes (Served bss all n) (handler_recv j garbage v.conn s)
  unfolding handler_recv after_recv recv_loop store all_texts
  burst-IsServed bs bss all n s v =
      let c = v.client in
      let conn = append_inbuff v.conn (texts_of bs) in
      let read = (recv_loop-reads bs (bursts all) v.conn 104 (ground arith) (ground arith)).0 in
      rw (v.script, read)
        (parse-IsServed conn conn (record s { reactor = store conn s.reactor; recvs = bursts all })
          bss all c.rest n c.own c.callbacks refl
          (append_assoc v.conn.inbuffer (texts_of bs) (all_texts bss) ∙ c.coming)
          (c.payloads, c.answered) c.accounted
          (lookup-store j reply fd total conn v.conn s.reactor c.own v.there) v.no_error
          (omega (arith, v.paused)))
