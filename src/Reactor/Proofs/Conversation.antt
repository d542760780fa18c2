-- ===== src/Reactor/Proofs/Conversation.antt =====
-- The reactor from its first event on: clients that are accepted, what HandlerRecv reads, Parse answers
-- and HandlerSend writes for them, in whatever order the events come.
use linux_advance.Base.{
  false, true, none, subst, true, ◌≤◌, ℕ, ◌≡◌, refl, sym, ap, ◌∙◌, some, List, [], ◌∷◌, ◌++◌, map,
  All, append-nil,
}
use linux_advance.Base.Monad.{ok}
use linux_advance.Base.Map.{lookup}
use linux_advance.Base.Text.{Text}
use linux_advance.Protocol.Messages.{Request}
use linux_advance.Protocol.Json.{Json}
use linux_advance.PackageParse.Stream.{frames, IsPayload}
use linux_advance.PackageParse.Chunks.{IsAnswered, replies, only_empty_waits}
use linux_advance.Reactor.Connection.{Connection, listener_callbacks, new_connection, read_edge}
use linux_advance.Reactor.Io.{State}
use linux_advance.Reactor.Dispatch.{despatcher}
use linux_advance.Reactor.Proofs.SendLoop.{pauses, HasError}
use linux_advance.Reactor.Proofs.Apart.{wire_of}
use linux_advance.Reactor.Proofs.Clients.{bursts, all_texts}
use linux_advance.Reactor.Proofs.Stages.{
  Ready, event_of, own_runs, all_readers, all_accepting, all_known_after, AllOrderly, all_two_each,
  texts, Stage,
}
use linux_advance.Reactor.Proofs.Turns.{After}
use linux_advance.Reactor.Proofs.Rounds.{wait_loop-After}

nothing_left : (runs : List (ℕ × List Text)) → map (λ r. r.0) runs ≡ [] → runs ≡ []
nothing_left [] h = refl
nothing_left (r ∷ runs) h = absurd (cc)

module _ (j : Json) (reply : Text → Text) (garbage : Request) where
  -- From a reactor with its listening socket `lfd` and none of the clients, over events in any order
  -- and interleaving: the listening socket is readable, with the clients that wait there until ::accept
  -- has no more, or a client that has been accepted is ready, with a run of reads for each readable
  -- event, until its socket has no more. If the bytes of each client, over its runs, are whole frames
  -- with payloads that are each answered whatever request the request object held, no ::send fails with
  -- neither EAGAIN nor EINTR, and ::send reports at least twice for each event that the socket is full,
  -- then Despatcher handles all events without running out of the script, and each client `fd` that has
  -- been accepted is connected, its input buffer is empty, and the bytes that the kernel took for it
  -- since, followed by its output buffer, are the answers to its payloads, in order.
  pub despatcher-replies :
      (lfd : ℕ) (Client : ℕ → Type 0) (waits : List (List Ready)) (runs : List (ℕ × List Text))
      (ps : ℕ → List Text) (s : State) (fd : ℕ)
      → (Client lfd → ⊥)
      → Client fd
      → all_known_after waits (λ g. false) fd ≡ true
      → lookup lfd s.reactor.connections ≡ some (new_connection lfd read_edge listener_callbacks)
      → ((g : ℕ) → Client g → lookup g s.reactor.connections ≡ none)
      → AllOrderly Client waits (λ g. false)
      → s.accepts ≡ all_accepting waits
      → s.recvs ≡ bursts (texts runs)
      → map (λ r. r.0) runs ≡ all_readers waits
      → (HasError s.sends → ⊥)
      → all_two_each waits ≤ pauses s.sends
      → ((g : ℕ) → Client g → all_texts (own_runs g runs) ≡ frames (ps g))
      → ((g : ℕ) → Client g → All IsPayload (ps g))
      → ((g : ℕ) → Client g → All (IsAnswered j reply) (ps g))
      → (t : State) × (conn : Connection) × (despatcher j garbage (map (map (event_of lfd)) waits) s
          ≡ ok t)
        × (lookup fd t.reactor.connections ≡ some conn)
        × (conn.inbuffer ≡ [])
        × (wire_of fd t.reactor.calls ++ conn.outbuffer
            ≡ wire_of fd s.reactor.calls ++ replies j reply (ps fd))
  unfolding all_texts replies despatcher own_runs
  despatcher-replies lfd Client waits runs ps s fd stranger here known listening nowhere orderly
        accepts script order fine pause e h a =
      let total : ℕ → Text = λ g. wire_of g s.reactor.calls ++ replies j reply (ps g) in
      let running : State = record s { reactor = record s.reactor { is_running = true } } in
      let start : After j reply garbage lfd Client stranger total (λ g. false) (all_readers waits)
          (all_accepting waits) (all_two_each waits) running =
        record {
          runs = runs;
          order = order;
          listening = listening;
          waiting = accepts;
          script = script;
          no_error = fine;
          paused = pause;
          stages = λ g own. record {
            rest = ps g;
            nowhere = nowhere g own;
            coming = e g own;
            payloads = h g own;
            answered = a g own;
            accounted = refl;
          };
        } in
      let (t, run, done) =
        wait_loop-After j reply garbage lfd Client stranger total waits (λ g. false) running orderly
          start in
      let v = subst (λ b. Stage j reply total b done.runs 0 t fd) known (done.stages fd here) in
      let c = v.client in
      let (no_ps, no_inb) =
        only_empty_waits j reply c.rest v.conn.inbuffer c.payloads
          (sym (append-nil v.conn.inbuffer)
            ∙ (ap (λ l. v.conn.inbuffer ++ all_texts (own_runs fd l))
                  (sym (nothing_left done.runs done.order))
                ∙ c.coming))
          c.waits in
      (
        t,
        v.conn,
        run,
        v.there,
        no_inb,
        ap (λ l. wire_of fd t.reactor.calls ++ l)
              (sym (append-nil v.conn.outbuffer)
                ∙ ap (λ l. v.conn.outbuffer ++ replies j reply l) (sym no_ps))
            ∙ c.accounted,
      )
