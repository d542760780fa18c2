-- ===== src/Reactor/Proofs/Turns.antt =====
-- An event of a client of the reactor.
use linux_advance.Base.{
  Bool, true, false, ◌==◌, ◌≢◌, ◌≤◌, suc, arith, ℕ, ◌≡◌, refl, sym, ap, ◌∙◌, subst, some, List, [],
  ◌∷◌, if◌then◌else◌, map, Bool-cases, inl, inr,
}
use linux_advance.Base.Monad.{Result, ok, Goes, Goes-bind, Goes-if, OnOk, OnOk-at}
use linux_advance.Base.Map.{lookup}
use linux_advance.Base.Text.{Text}
use linux_advance.Protocol.Messages.{Request}
use linux_advance.Protocol.Json.{Json}
use linux_advance.Reactor.Connection.{
  Events, Connection, listener_callbacks, has_sender, new_connection, read_edge,
}
use linux_advance.Reactor.Io.{State, AcceptRound, handler_send, recver}
use linux_advance.Reactor.Dispatch.{readable_now, writable_now, on_read, on_write, dispatch}
use linux_advance.Reactor.Proofs.SendLoop.{pauses, HasError}
use linux_advance.Reactor.Proofs.Apart.{
  Same, handler_send-Same, handler_recv-Same, handler_send-accepts, handler_recv-accepts,
}
use linux_advance.Reactor.Proofs.Clients.{bursts, IsServed, handler_send-IsServed}
use linux_advance.Reactor.Proofs.Bursts.{burst-IsServed}
use linux_advance.Reactor.Proofs.Stages.{
  own_runs, own_first, other_first, reader, texts, Served, Stage, Same-Stage,
}

abbrev pub listener_of : ℕ → Connection
listener_of lfd = new_connection lfd read_edge listener_callbacks

module _ (j : Json) (reply : Text → Text) (garbage : Request) (lfd : ℕ) (Client : ℕ → Type 0)
    (stranger : Client lfd → ⊥) (total : ℕ → Text) where
  -- What is still to come: runs of these clients, and these rounds of ::accept; so often will ::send
  -- report that the socket is full.
  pub record After (known : ℕ → Bool) (fds : List ℕ) (accepts : List AcceptRound) (n : ℕ)
      (s : State) : Type 0 where
    pub runs : List (ℕ × List Text)
    pub order : map (λ r. r.0) runs ≡ fds
    pub listening : lookup lfd s.reactor.connections ≡ some (listener_of lfd)
    pub waiting : s.accepts ≡ accepts
    pub script : s.recvs ≡ bursts (texts runs)
    pub no_error : HasError s.sends → ⊥
    pub paused : n ≤ pauses s.sends
    pub stages : (g : ℕ) → Client g → Stage j reply total (known g) runs n s g

  spare-Stage :
      (b : Bool) (runs : List (ℕ × List Text)) (n : ℕ) (s : State) (g : ℕ)
      → Stage j reply total b runs (suc n) s g
      → Stage j reply total b runs n s g
  spare-Stage true runs n s g v = record {
    conn = v.conn;
    there = v.there;
    client = v.client;
    script = v.script;
    no_error = v.no_error;
    paused = omega (arith, v.paused);
  }
  spare-Stage false runs n s g v = v

  pub spare :
      (known : ℕ → Bool) (fds : List ℕ) (accepts : List AcceptRound) (n : ℕ) (s : State)
      → After known fds accepts (suc n) s
      → After known fds accepts n s
  spare known fds accepts n s a = record {
    runs = a.runs;
    order = a.order;
    listening = a.listening;
    waiting = a.waiting;
    script = a.script;
    no_error = a.no_error;
    paused = omega (arith, a.paused);
    stages = λ g h. spare-Stage (known g) a.runs n s g (a.stages g h);
  }

  -- A turn of the client `fd`, after which the runs to come are `later`.
  turn :
      (fd : ℕ) (known : ℕ → Bool) (fds fds' : List ℕ) (accepts : List AcceptRound) (n n' : ℕ)
      (later : List (ℕ × List Text)) (s : State) (m : Result State)
      → Client fd
      → known fd ≡ true
      → (a : After known fds accepts n s) → map (λ r. r.0) later ≡ fds'
      → ((g : ℕ) → (fd == g) ≡ false → own_runs g a.runs ≡ own_runs g later)
      → Goes (λ t. Served j reply total later n' t fd) m
      → ((g : ℕ) → fd ≢ g → OnOk (λ (t : State). Same g s.reactor t.reactor) m)
      → OnOk (λ (t : State). t.accepts ≡ s.accepts) m
      → Goes (After known fds' accepts n') m
  turn fd known fds fds' accepts n n' later s m here known_fd a order others (t, e, w) apart same =
      let ne : fd ≢ lfd = λ p. stranger (subst Client p here) in
      (
        t,
        e,
        record {
          runs = later;
          order = order;
          listening = (OnOk-at _ m t (apart lfd ne) e).entry ∙ a.listening;
          waiting = OnOk-at _ m t same e ∙ a.waiting;
          script = w.script;
          no_error = w.no_error;
          paused = w.paused;
          stages = λ g h. elim (Bool-cases (fd == g)) [
            | inl own ↦
                subst (λ k. Stage j reply total (known k) later n' t k) (ground arith)
                  (subst (λ b. Stage j reply total b later n' t fd) (sym known_fd) w)
            | inr other ↦
                Same-Stage j reply total (known g) g fd a.runs later n n' s t (others g other)
                  (a.stages g h) w (OnOk-at _ m t (apart g (ground arith)) e)
          ];
        },
      )

  served :
      (known : ℕ → Bool) (runs : List (ℕ × List Text)) (n : ℕ) (s : State) (fd : ℕ)
      → known fd ≡ true
      → Stage j reply total (known fd) runs n s fd
      → Served j reply total runs n s fd
  served known runs n s fd e v = subst (λ b. Stage j reply total b runs n s fd) e v

  write-After :
      (fd : ℕ) (known : ℕ → Bool) (fds : List ℕ) (accepts : List AcceptRound) (n : ℕ) (s : State)
      → Client fd
      → known fd ≡ true
      → After known fds accepts (suc n) s
      → Goes (After known fds accepts n) (on_write (lookup fd s.reactor.connections) s)
  unfolding on_write
  write-After fd known fds accepts n s here e a =
      let v = served known a.runs (suc n) s fd e (a.stages fd here) in
      rw v.there (
        subst
          (λ cb.
            Goes (After known fds accepts n)
              (if has_sender cb then handler_send v.conn s else ok s))
          (sym v.client.callbacks)
          (turn fd known fds fds accepts (suc n) n a.runs s (handler_send v.conn s) here e a a.order
            (λ g other. refl)
            (handler_send-IsServed j reply fd (total fd) (own_runs fd a.runs) (texts a.runs) n
              v.conn v.conn s v.client v.script v.there v.no_error (omega (arith, v.paused)))
            (λ g ne. handler_send-Same g v.conn s (λ p. ne (sym v.client.own ∙ p)))
            (handler_send-accepts v.conn s)))

  -- A readable event of `fd`, whose run is the next one.
  read_own :
      (fd : ℕ) (bs : List Text) (later : List (ℕ × List Text)) (known : ℕ → Bool) (fds : List ℕ)
      (accepts : List AcceptRound) (n : ℕ) (s : State)
      → Client fd
      → known fd ≡ true
      → (a : After known (fd ∷ fds) accepts (suc n) s) → a.runs ≡ (fd, bs) ∷ later
      → map (λ r. r.0) later ≡ fds
      → Goes (After known fds accepts n) (on_read j garbage (lookup fd s.reactor.connections) s)
  unfolding on_read recver
  read_own fd bs later known fds accepts n s here e a first order =
      let v =
        subst (λ bss. IsServed j reply fd (total fd) bss (bs ∷ texts later) (suc n) s)
          (own_first fd bs later)
          (subst (λ l. Served j reply total l (suc n) s fd) first
            (served known a.runs (suc n) s fd e (a.stages fd here))) in
      rw v.there (
        subst (λ cb. Goes (After known fds accepts n) (recver j garbage cb v.conn s))
          (sym v.client.callbacks)
          (turn fd known (fd ∷ fds) fds accepts (suc n) n later s _ here e a order
            (λ g other. ap (own_runs g) first ∙ other_first fd g bs later other)
            (burst-IsServed j reply fd (total fd) garbage bs (own_runs fd later) (texts later) n s
              v)
            (λ g ne. handler_recv-Same g j garbage v.conn s (λ p. ne (sym v.client.own ∙ p)))
            (handler_recv-accepts j garbage v.conn s)))

  next_run :
      (runs : List (ℕ × List Text)) (fd : ℕ) (fds : List ℕ)
      → map (λ r. r.0) runs ≡ fd ∷ fds
      → (bs : List Text) × (later : List (ℕ × List Text)) × (runs ≡ (fd, bs) ∷ later)
        × (map (λ r. r.0) later ≡ fds)
  next_run [] fd fds h = absurd (cc)
  next_run ((k, bs) ∷ later) fd fds h =
      let first : k ≡ fd = cc in
      let rest : map (λ r. r.0) later ≡ fds = cc in
      (bs, later, ap (λ (i : ℕ). (i, bs) ∷ later) first, rest)

  read_if-After :
      (b : Bool) (fd : ℕ) (known : ℕ → Bool) (fds : List ℕ) (accepts : List AcceptRound) (n : ℕ)
      (s : State)
      → Client fd
      → known fd ≡ true
      → After known (reader b fd fds) accepts (suc n) s
      → Goes
          (After known fds accepts n)
          (if b then on_read j garbage (lookup fd s.reactor.connections) s else ok s)
  read_if-After true fd known fds accepts n s here e a =
      let (bs, later, first, order) = next_run a.runs fd fds a.order in
      read_own fd bs later known fds accepts n s here e a first order
  read_if-After false fd known fds accepts n s here e a = (s, refl, spare known fds accepts n s a)

  pub talks-After :
      (fd : ℕ) (ev : Events) (known : ℕ → Bool) (fds : List ℕ) (accepts : List AcceptRound) (n : ℕ)
      (s : State)
      → Client fd
      → known fd ≡ true
      → After known (reader (readable_now ev) fd fds) accepts (suc (suc n)) s
      → Goes (After known fds accepts n) (dispatch j garbage fd ev s)
  unfolding dispatch
  talks-After fd ev known fds accepts n s here e a =
      Goes-bind (After known fds accepts (suc n)) (After known fds accepts n) _ _
        (read_if-After (readable_now ev) fd known fds accepts (suc n) s here e a)
        (λ s' a'.
          Goes-if (After known fds accepts n) (writable_now ev) _ _
            (write-After fd known fds accepts n s' here e a')
            (s', refl, spare known fds accepts n s' a'))
