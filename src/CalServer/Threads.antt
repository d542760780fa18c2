-- ===== src/CalServer/Threads.antt =====
-- TcpServer.hpp of day_01/demo_01/tcp_server_cal: a thread for each client that the loop of Start
-- accepts. The threads take turns, one ::recv and what AddService does with it at a time.
pub mod Alone
pub mod Answers
use linux_advance.Base.{
  ℕ, Bool, true, false, Option, none, some, List, [], ◌∷◌, ◌++◌, length, get_elem?, set, suc,
}
use linux_advance.Base.Monad.{Result, ok, fault, undefined, ◌>>=◌}
use linux_advance.Base.Text.{Text, c_str}
use linux_advance.Protocol.Messages.{Request}
use linux_advance.Protocol.Json.{Json}
use linux_advance.CalServer.{serve_packages}

-- A thread: the descriptor of its ThreadData, none where Accepter gave a null pointer; what it has
-- received and not yet decoded, what it has sent, and whether it has closed its descriptor.
pub record Thread : Type 0 where
  pub sockfd : Option ℕ
  pub recvmessage : Text
  pub sent : List Text
  pub closed : Bool

-- A thread that has just been created.
unfoldable pub new_thread : Option ℕ → Thread
new_thread sockfd = record { sockfd = sockfd; recvmessage = []; sent = []; closed = false }

-- What happens next: a round of Start, with the descriptor that ::accept gives, or what ::recv gives to
-- the thread with this place in the order of creation.
pub data Happening : Type 0 where
  accepts : Option ℕ → Happening
  receives : ℕ → Option Text → Happening

-- A round of Start. The socket of Accepter is not compared with the null pointer.
unfoldable pub accept_round : Option ℕ → List Thread → List Thread
accept_round sockfd threads = threads ++ new_thread sockfd ∷ []

module _ (j : Json) (garbage : Request) where
  -- A round of the loop of AddService, and behind the loop the end of HandlerService.
  unfoldable pub receive : Option Text → Thread → Result Thread
  receive none t = ok (record t { closed = true })
  receive (some b) t = do
    served ←
        serve_packages j (suc (length (t.recvmessage ++ c_str b))) garbage
          (t.recvmessage ++ c_str b) t.sent
    ok (record t { recvmessage = served.0; sent = served.1 })

  -- A thread that has ended does nothing more; one whose socket is a null pointer calls its Recv.
  unfoldable pub turn_of : Bool → Option ℕ → Option Text → Thread → Result Thread
  turn_of true sockfd r t = ok t
  turn_of false none r t = fault undefined
  turn_of false (some fd) r t = receive r t

  unfoldable pub turn : Option Thread → ℕ → Option Text → List Thread → Result (List Thread)
  turn none i r threads = ok threads
  turn (some t) i r threads = do t' ← turn_of t.closed t.sockfd r t; ok (set threads i t')

  unfoldable pub happen : Happening → List Thread → Result (List Thread)
  happen (accepts sockfd) threads = ok (accept_round sockfd threads)
  happen (receives i r) threads = turn (get_elem? threads i) i r threads

  -- Any interleaving. A fault of one thread is one of the process.
  unfoldable pub run : List Happening → List Thread → Result (List Thread)
  run [] threads = ok threads
  run (h ∷ hs) threads = do threads' ← happen h threads; run hs threads'
