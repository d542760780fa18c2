-- ===== src/Reactor/Proofs/Stages.antt =====
-- The clients of the reactor before and after they are accepted, while the events are handled in
-- whatever order they come.
use linux_advance.Base.{
  Bool, true, false, ◌==◌, ◌||◌, ◌≤◌, suc, ℕ, ◌≡◌, refl, sym, ap, ◌∙◌, subst, Option, none, some,
  List, [], ◌∷◌, ◌++◌, if◌then◌else◌, map, All, ==-refl,
}
use linux_advance.Base.Map.{lookup}
use linux_advance.Base.Text.{Text}
use linux_advance.Protocol.Json.{Json}
use linux_advance.PackageParse.Stream.{frames, IsPayload, decode-nil}
use linux_advance.PackageParse.Chunks.{IsAnswered, replies}
use linux_advance.Reactor.Connection.{Events, Connection, io_callbacks, new_connection, read_edge}
use linux_advance.Reactor.Io.{State, AcceptRound}
use linux_advance.Reactor.Dispatch.{readable_now}
use linux_advance.Reactor.Proofs.SendLoop.{pauses, HasError}
use linux_advance.Reactor.Proofs.Apart.{wire_of, Same}
use linux_advance.Reactor.Proofs.Clients.{bursts, all_texts, IsServed, Same-IsServed}
use linux_advance.Reactor.Proofs.Joining.{batch, is_in, joined}

-- A ready descriptor: the listening socket, with the clients that are waiting there, or a client.
pub data Ready : Type 0 where
  listens : Events → List ℕ → Ready
  talks : ℕ → Events → Ready

abbrev pub event_of : ℕ → Ready → ℕ × Events
event_of lfd (listens ev fds) = (lfd, ev)
event_of lfd (talks fd ev) = (fd, ev)

-- The runs of one client.
unfoldable pub own_runs : ℕ → List (ℕ × List Text) → List (List Text)
own_runs g [] = []
own_runs g ((fd, bs) ∷ runs) = let rest = own_runs g runs in if fd == g then bs ∷ rest else rest

pub own_first :
    (fd : ℕ) (bs : List Text) (runs : List (ℕ × List Text))
    → own_runs fd ((fd, bs) ∷ runs) ≡ bs ∷ own_runs fd runs
unfolding own_runs
own_first fd bs runs = rw ==-refl refl

pub other_first :
    (fd g : ℕ) (bs : List Text) (runs : List (ℕ × List Text))
    → (fd == g) ≡ false
    → own_runs g ((fd, bs) ∷ runs) ≡ own_runs g runs
unfolding own_runs
other_first fd g bs runs e = rw e refl

abbrev pub reader : Bool → ℕ → List ℕ → List ℕ
reader true fd later = fd ∷ later
reader false fd later = later

-- The clients whose events are readable, in front of `later`.
unfoldable pub readers : List Ready → List ℕ → List ℕ
readers [] later = later
readers (listens ev fds ∷ rs) later = readers rs later
readers (talks fd ev ∷ rs) later = reader (readable_now ev) fd (readers rs later)

unfoldable pub all_readers : List (List Ready) → List ℕ
all_readers [] = []
all_readers (rs ∷ waits) = readers rs (all_readers waits)

-- What ::accept gives, in front of `later`.
unfoldable pub accepting : List Ready → List AcceptRound → List AcceptRound
accepting [] later = later
accepting (listens ev fds ∷ rs) later = batch fds (accepting rs later)
accepting (talks fd ev ∷ rs) later = accepting rs later

unfoldable pub all_accepting : List (List Ready) → List AcceptRound
all_accepting [] = []
all_accepting (rs ∷ waits) = accepting rs (all_accepting waits)

-- Who is connected behind these events.
abbrev pub with_batch : List ℕ → (ℕ → Bool) → ℕ → Bool
with_batch fds known g = known g || is_in g fds

unfoldable pub known_after : List Ready → (ℕ → Bool) → ℕ → Bool
known_after [] known = known
known_after (listens ev fds ∷ rs) known = known_after rs (with_batch fds known)
known_after (talks fd ev ∷ rs) known = known_after rs known

unfoldable pub all_known_after : List (List Ready) → (ℕ → Bool) → ℕ → Bool
all_known_after [] known = known
all_known_after (rs ∷ waits) known = all_known_after waits (known_after rs known)

-- The listening socket is readable, and every other event is one of a client that is connected.
unfoldable pub Orderly : (ℕ → Type 0) → List Ready → (ℕ → Bool) → Type 0
Orderly Client [] known = Unit
Orderly Client (listens ev fds ∷ rs) known =
    (readable_now ev ≡ true) × Orderly Client rs (with_batch fds known)
Orderly Client (talks fd ev ∷ rs) known = Client fd × (known fd ≡ true) × Orderly Client rs known

unfoldable pub AllOrderly : (ℕ → Type 0) → List (List Ready) → (ℕ → Bool) → Type 0
AllOrderly Client [] known = Unit
AllOrderly Client (rs ∷ waits) known =
    Orderly Client rs known × AllOrderly Client waits (known_after rs known)

-- Two for each event, behind `n`.
abbrev pub two_each : List Ready → ℕ → ℕ
two_each [] n = n
two_each (r ∷ rs) n = suc (suc (two_each rs n))

abbrev pub all_two_each : List (List Ready) → ℕ
all_two_each [] = 0
all_two_each (rs ∷ waits) = two_each rs (all_two_each waits)

abbrev pub texts : List (ℕ × List Text) → List (List Text)
texts runs = map (λ r. r.1) runs

pub there_stays :
    (g : ℕ) (c : Bool) (o : Option Connection) (conn : Connection)
    → o ≡ some conn
    → joined g c o ≡ o
there_stays g true o conn e = ap (joined g true) e ∙ sym e
there_stays g false o conn e = refl

module _ (j : Json) (reply : Text → Text) (total : ℕ → Text) where
  -- A client that has not been accepted yet.
  pub record IsAbsent (runs : List (ℕ × List Text)) (s : State) (g : ℕ) : Type 0 where
    pub rest : List Text
    pub nowhere : lookup g s.reactor.connections ≡ none
    pub coming : all_texts (own_runs g runs) ≡ frames rest
    pub payloads : All IsPayload rest
    pub answered : All (IsAnswered j reply) rest
    pub accounted : wire_of g s.reactor.calls ++ replies j reply rest ≡ total g

  abbrev pub Served : List (ℕ × List Text) → ℕ → State → ℕ → Type 0
  Served runs n s g = IsServed j reply g (total g) (own_runs g runs) (texts runs) n s

  abbrev pub Stage : Bool → List (ℕ × List Text) → ℕ → State → ℕ → Type 0
  Stage true runs n s g = Served runs n s g
  Stage false runs n s g = IsAbsent runs s g

  -- The turn of `fd` leaves every other client where it is.
  pub Same-Stage :
      (b : Bool) (g fd : ℕ) (runs later : List (ℕ × List Text)) (n n' : ℕ) (s t : State)
      → own_runs g runs ≡ own_runs g later
      → Stage b runs n s g
      → Served later n' t fd
      → Same g s.reactor t.reactor
      → Stage b later n' t g
  Same-Stage true g fd runs later n n' s t e v w same =
      Same-IsServed j reply g (total g) (own_runs g later) (texts runs) (texts later) n n' s t
        (subst (λ bss. IsServed j reply g (total g) bss (texts runs) n s) e v) same w.script
        w.no_error w.paused
  Same-Stage false g fd runs later n n' s t e v w same = record {
    rest = v.rest;
    nowhere = same.entry ∙ v.nowhere;
    coming = ap all_texts (sym e) ∙ v.coming;
    payloads = v.payloads;
    answered = v.answered;
    accounted = ap (λ l. l ++ replies j reply v.rest) same.wire ∙ v.accounted;
  }

  -- A client that has just been accepted.
  pub IsAbsent-IsServed :
      (runs : List (ℕ × List Text)) (n : ℕ) (s t : State) (g : ℕ)
      → IsAbsent runs s g
      → lookup g t.reactor.connections ≡ some (new_connection g read_edge io_callbacks)
      → wire_of g t.reactor.calls ≡ wire_of g s.reactor.calls
      → t.recvs ≡ bursts (texts runs)
      → (HasError t.sends → ⊥)
      → n ≤ pauses t.sends
      → Served runs n t g
  IsAbsent-IsServed runs n s t g v there wire script fine pause = record {
    conn = new_connection g read_edge io_callbacks;
    there = there;
    client = record {
      rest = v.rest;
      own = refl;
      callbacks = refl;
      waits = decode-nil;
      coming = v.coming;
      payloads = v.payloads;
      answered = v.answered;
      accounted = ap (λ l. l ++ replies j reply v.rest) wire ∙ v.accounted;
    };
    script = script;
    no_error = fine;
    paused = pause;
  }

  -- The stage of a client behind an event of the listening socket: it is `c` whether it was accepted.
  pub accepted-Stage :
      (b c : Bool) (runs : List (ℕ × List Text)) (n n' : ℕ) (s t : State) (g : ℕ)
      → Stage b runs n s g
      → lookup g t.reactor.connections ≡ joined g c (lookup g s.reactor.connections)
      → wire_of g t.reactor.calls ≡ wire_of g s.reactor.calls
      → t.recvs ≡ bursts (texts runs)
      → (HasError t.sends → ⊥)
      → n' ≤ pauses t.sends
      → Stage (b || c) runs n' t g
  accepted-Stage true c runs n n' s t g v entry wire script fine pause =
      let stays = λ (c : Bool). there_stays g c (lookup g s.reactor.connections) v.conn v.there in
      Same-IsServed j reply g (total g) (own_runs g runs) (texts runs) (texts runs) n n' s t v
        (record { entry = entry ∙ stays c; wire = wire }) script fine pause
  accepted-Stage false true runs n n' s t g v entry wire script fine pause =
      IsAbsent-IsServed runs n' s t g v (entry ∙ ap (joined g true) v.nowhere) wire script fine
        pause
  accepted-Stage false false runs n n' s t g v entry wire script fine pause = record {
    rest = v.rest;
    nowhere = entry ∙ v.nowhere;
    coming = v.coming;
    payloads = v.payloads;
    answered = v.answered;
    accounted = ap (λ l. l ++ replies j reply v.rest) wire ∙ v.accounted;
  }
