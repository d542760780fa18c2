-- ===== src/Examples/Servers.antt =====
-- The pool of threads, the chat room, the dictionary, the commands, and the client.
use linux_advance.Base.{ℕ, ◌≡◌, ◌↔◌, refl, none, List, [], ◌∷◌, ◌++◌, take, arith, true, false, map}
use linux_advance.Base.Monad.{ok, fault, undefined}
use linux_advance.Base.Int.{pos}
use linux_advance.Base.Text.{Text, codes, find?, starts_with, text_eq, c_str}
use linux_advance.Base.Text.Decimal.{to_string, digits}
use linux_advance.Threadpool.{Event, enqueues, locks, finishes, stops, run, new_pool}
use linux_advance.Threadpool.Users.{IsSound}
use linux_advance.Threadpool.Soundness.{run-IsSound, new_pool-IsSound}
use linux_advance.Chat.{InetAddr, UdpServer, is_online, on_datagram, message_of}
use linux_advance.Chat.Users.{IsDistinct, on_datagram_quit, on_datagram_text}
use linux_advance.Command.{check_command, ContainsOne, words, check_command-eq-false_iff}
use linux_advance.Protocol.Frame.Partial.{decode_waits}
use linux_advance.Protocol.Messages.{Response}
use linux_advance.Protocol.Json.{serialize_response, deserialize_response}
use linux_advance.PackageParse.Stream.{frames}
use linux_advance.TcpClient.{
  Connection, attempt, no_socket, reconnect, print_loop, disconnected, retry_max_times,
}
use linux_advance.TcpClient.Reconnect.{reconnect_lem, outcome, status_of}
use linux_advance.TcpClient.Printing.{IsReadBack, print_loop-frames}
use linux_advance.Examples.ToyJson.{toy_json}

-- Two tasks for two threads, one of which sleeps; then the end of the pool.
abbrev events : List (Event ℕ)
events =
    locks 0 ∷ enqueues 7 0 ∷ enqueues 8 0 ∷ locks 0 ∷ locks 1 ∷ stops ∷ finishes 0 ∷ locks 0 ∷ []

run-IsSound_example : IsSound (run events (new_pool 2))
run-IsSound_example = run-IsSound 2 events (omega arith)

abbrev ann : InetAddr
ann = record { ip = codes "10.0.0.1"; port = 4000 }

abbrev bob : InetAddr
bob = record { ip = codes "10.0.0.2"; port = 4000 }

abbrev room : UdpServer
room = record { online_user = ann ∷ []; pool = new_pool 2 }

on_datagram_quit_example : on_datagram bob (codes "QUIT") 0 room ≡ fault undefined
unfolding text_eq c_str
on_datagram_quit_example = on_datagram_quit bob (codes "QUIT") 0 room refl refl

on_datagram_text_example :
    (s' : UdpServer) × (on_datagram bob (codes "hi") 0 room ≡ ok s')
    × (is_online bob s'.online_user ≡ true)
    × IsDistinct s'.online_user
    × (s'.pool.accepted ≡ room.pool.accepted ++ message_of bob (codes "hi") ∷ [])
    × IsSound s'.pool
unfolding text_eq c_str new_pool is_online
on_datagram_text_example =
    on_datagram_text bob (codes "hi") 0 room refl (omega arith) refl refl (refl, tt)
      (new_pool-IsSound 2 (omega arith))

check_command-eq-false_iff_example :
    (check_command (codes "ls; rm -r x") ≡ false) ↔ ContainsOne words (codes "ls; rm -r x")
check_command-eq-false_iff_example = check_command-eq-false_iff (codes "ls; rm -r x")

abbrev entries : List (Text × Text)
entries = (codes "cat", codes "mao") ∷ (codes "dog", codes "gou") ∷ (codes "cat", codes "miao") ∷ []

-- The third attempt works.
abbrev lost : Connection
lost = record {
  sockfd = none;
  status = disconnected;
  calls = [];
  shown = [];
  attempts = attempt 4 false ∷ attempt 5 false ∷ attempt 6 true ∷ no_socket ∷ no_socket ∷ [];
  rounds = [];
}

reconnect_lem_example : status_of (reconnect lost) ≡ outcome (take retry_max_times lost.attempts)
reconnect_lem_example = reconnect_lem lost (omega arith)

abbrev a_response : Response
a_response = record { result = pos 3; flag = pos 0; equation = codes "1 + 2 = 3" }

a_response-IsReadBack : IsReadBack toy_json a_response
unfolding serialize_response deserialize_response find? starts_with to_string digits
a_response-IsReadBack = (refl, (ground arith, refl))

print_loop-frames_example :
    print_loop toy_json 3
      (frames (map (serialize_response toy_json) (a_response ∷ a_response ∷ [])) ++ codes "4")
      []
    ≡ ok (a_response ∷ a_response ∷ [])
unfolding find? starts_with
print_loop-frames_example =
    print_loop-frames toy_json (a_response ∷ a_response ∷ []) (codes "4") [] 3
      (a_response-IsReadBack, (a_response-IsReadBack, tt)) (decode_waits (codes "4") refl)
      (omega arith)
