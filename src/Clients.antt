-- ===== src/Clients.antt =====
-- The clients of day_01/demo_01 that send a line and show the answer: TcpClient.cc of the echo server and
-- UdpClient.cc of the chat room.
use linux_advance.Base.{
  not, leb, length, ◌==◌, ℕ, ◌≡◌, Bool, true, false, Option, none, some, List, [], ◌∷◌, ◌++◌,
  if◌then◌else◌, map, All, append_assoc, append-nil, ap, sym, ◌∙◌,
}
use mathlib.Core.Path.{ap₂}
use linux_advance.Base.Monad.{Fault, blocked, undefined}
use linux_advance.Base.Text.{Text, codes, c_str, text_eq}
use linux_advance.Multiplex.Echo.{Received, bytes, at_end, failed}

-- A round of a client: the line that std::getline reads, whether ::send works, and what ::recv gives.
pub record Round : Type 0 where
  pub line : Text
  pub sending : Bool
  pub received : Received

-- What was sent and what was shown, and whether the process has exited with SEND_ERROR.
pub record Session : Type 0 where
  pub sent : List Text
  pub shown : List Text
  pub send_error : Bool

abbrev pub answer_of : Received → List Text
answer_of (bytes b) = (codes "Server Echo$ " ++ c_str b) ∷ []
answer_of at_end = []
answer_of failed = []

-- The loop of main of TcpClient.cc.
unfoldable pub talk : List Round → Session → Session
talk [] s = s
talk (r ∷ rounds) s =
    let rest =
      talk rounds
        (record s { sent = s.sent ++ r.line ∷ []; shown = s.shown ++ answer_of r.received }) in
    if r.sending then rest else record s { send_error = true }

-- What ::sendto returns: the number of bytes that it took, 0 for an empty line, or none for -1.
abbrev pub is_sent : Option ℕ → Bool
is_sent none = false
is_sent (some n) = not (n == 0)

-- How SenderRoute ends, or waits for the next line.
pub data Sender : Type 0 where
  waiting leaves sendto_error : Sender

-- SenderRoute of the chat client, over the lines and what ::sendto returns for them; and what it sent.
unfoldable pub sender_route : List (Text × Option ℕ) → List Text → Sender × List Text
sender_route [] sent = (waiting, sent)
sender_route ((line, n) ∷ lines) sent =
    let rest = sender_route lines (sent ++ line ∷ []) in
    if text_eq line (codes "QUIT")
    then (leaves, sent)
    else if is_sent n
    then rest
    else (sendto_error, sent)

abbrev buff_size : ℕ
buff_size = 1024

-- RecverRoute of the chat client: what is shown, with the name of the thread. A datagram that fills the
-- buffer makes it write the byte behind it.
unfoldable pub recver_route : Text → List Received → List Text → Fault × List Text
recver_route name [] shown = (blocked, shown)
recver_route name (at_end ∷ rs) shown = recver_route name rs shown
recver_route name (failed ∷ rs) shown = recver_route name rs shown
recver_route name (bytes b ∷ rs) shown =
    let rest = recver_route name rs (shown ++ (name ++ (codes " | " ++ c_str b)) ∷ []) in
    if leb buff_size (length b) then (undefined, shown) else rest

-- The answers to these rounds, in order.
abbrev answers_to : List Round → List Text
answers_to [] = []
answers_to (r ∷ rounds) = answer_of r.received ++ answers_to rounds

-- While every ::send works, the client sends its lines in order and shows the answers in order.
pub talk_lem :
    (rounds : List Round) (s : Session)
    → All (λ (r : Round). r.sending ≡ true) rounds
    → talk rounds s ≡ record s {
      sent = s.sent ++ map (λ (r : Round). r.line) rounds;
      shown = s.shown ++ answers_to rounds;
    }
unfolding talk
talk_lem [] s h =
    ap₂ (λ a b. record s { sent = a; shown = b }) (sym (append-nil s.sent))
      (sym (append-nil s.shown))
talk_lem (r ∷ rounds) s (works, h) = rw works (
    talk_lem rounds _ h
    ∙ ap₂ (λ a b. record s { sent = a; shown = b }) (append_assoc s.sent (r.line ∷ []) _)
        (append_assoc s.shown (answer_of r.received) _))

-- Lines that ::sendto takes, up to "QUIT", are sent in order, and then the sender leaves.
pub sender_route-quit :
    (lines later : List (Text × Option ℕ)) (n : Option ℕ) (sent : List Text)
    → All (λ l. (text_eq l.0 (codes "QUIT") ≡ false) × (is_sent l.1 ≡ true)) lines
    → sender_route (lines ++ (codes "QUIT", n) ∷ later) sent
      ≡ (leaves, sent ++ map (λ l. l.0) lines)
unfolding sender_route text_eq
sender_route-quit [] later n sent h = ap (λ l. (leaves, l)) (sym (append-nil sent))
sender_route-quit ((line, k) ∷ lines) later n sent ((other, taken), h) =
    rw (other, taken)
      (sender_route-quit lines later n (sent ++ line ∷ []) h
        ∙ ap (λ l. (leaves, l)) (append_assoc sent (line ∷ []) (map (λ l. l.0) lines)))
