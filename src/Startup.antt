-- ===== src/Startup.antt =====
-- What the processes of day_01/demo_01 do before their loops: the arguments of main, InitServer, and the
-- connection of TcpClient.cc. What ::socket, ::bind and ::connect answer are arguments.
use linux_advance.Base.{
  ℕ, ◌≡◌, ◌<◌, ◌%◌, ◌^◌, ◌-◌, refl, Bool, true, false, Option, none, some, List, [], ◌∷◌, arith,
  ◌⊎◌, inl, inr, Option-cases,
}
use mathlib.Core.Sum.{inr-injective}
use linux_advance.Base.Int.{ℤ, pos, negsuc}
use linux_advance.Base.Monad.{Result, ok, fault, thrown, or_fault, ◌>>=◌}
use linux_advance.Base.Text.{Text, c_str}
use linux_advance.Base.Text.Decimal.{stoi}

pub data ExitCode : Type 0 where
  usage_error create_error bind_error connect_error : ExitCode

-- SOCK_STREAM, SOCK_DGRAM
pub data Kind : Type 0 where
  stream datagram : Kind

-- The calls that worked, with the descriptor, and the port in host byte order.
pub data Call : Type 0 where
  creates : Kind → ℕ → Call
  binds : ℕ → ℕ → Call
  connects : ℕ → Text → ℕ → Call

-- A process that has got to its loop.
pub record Started : Type 0 where
  pub sockfd : ℕ
  pub calls : List Call

abbrev pub bound_to : Kind → ℕ → ℕ → Started
bound_to kind fd port = record { sockfd = fd; calls = creates kind fd ∷ (binds fd port ∷ []) }

abbrev pub connected_to : ℕ → Text → ℕ → Started
connected_to fd ip port = record {
  sockfd = fd;
  calls = creates stream fd ∷ (connects fd ip port ∷ []);
}

-- The conversion of an int to uint16_t.
unfoldable pub to_port : ℤ → ℕ
to_port (pos n) = n % 2 ^ 16
to_port (negsuc n) = 2 ^ 16 - 1 - n % 2 ^ 16

-- InitServer of the servers over TCP: ::socket gives a descriptor or fails, then ::bind works or not.
unfoldable pub init_server : Option ℕ → Bool → ℕ → ExitCode ⊎ Started
init_server none bound port = inl create_error
init_server (some fd) false port = inl bind_error
init_server (some fd) true port = inr (bound_to stream fd port)

-- InitServer of the servers over UDP.
unfoldable pub init_datagrams : Option ℕ → Bool → ℕ → ExitCode ⊎ Started
init_datagrams none bound port = inl create_error
init_datagrams (some fd) false port = inl bind_error
init_datagrams (some fd) true port = inr (bound_to datagram fd port)

-- main of a server, with the arguments behind its name, up to Start. std::stoi may throw.
unfoldable pub server_main : (ℕ → ExitCode ⊎ Started) → List Text → Result (ExitCode ⊎ Started)
server_main init (port ∷ []) = do n ← or_fault thrown (stoi port); ok (init (to_port n))
server_main init [] = ok (inl usage_error)
server_main init (a ∷ (b ∷ args)) = ok (inl usage_error)

unfoldable pub connect : Option ℕ → Bool → Text → ℕ → ExitCode ⊎ Started
connect none connected ip port = inl create_error
connect (some fd) false ip port = inl connect_error
connect (some fd) true ip port = inr (connected_to fd ip port)

-- main of TcpClient.cc up to its loop.
unfoldable pub client_main : Option ℕ → Bool → List Text → Result (ExitCode ⊎ Started)
client_main created connected (ip ∷ (port ∷ [])) = do
  n ← or_fault thrown (stoi port)
  ok (connect created connected (c_str ip) (to_port n))
client_main created connected [] = ok (inl usage_error)
client_main created connected (a ∷ []) = ok (inl usage_error)
client_main created connected (a ∷ (b ∷ (c ∷ args))) = ok (inl usage_error)

-- A client over UDP at its loop: the socket, -1 as none, and the address of the server.
pub record Peer : Type 0 where
  pub socket : Option ℕ
  pub ip : Text
  pub port : ℕ

-- main of UdpClient.cc up to its loop: a socket that could not be made is only reported.
unfoldable pub datagram_client_main : Option ℕ → List Text → Result (ExitCode ⊎ Peer)
datagram_client_main created (ip ∷ (port ∷ [])) = do
  n ← or_fault thrown (stoi port)
  ok (inr (record { socket = created; ip = c_str ip; port = to_port n }))
datagram_client_main created [] = ok (inl usage_error)
datagram_client_main created (a ∷ []) = ok (inl usage_error)
datagram_client_main created (a ∷ (b ∷ (c ∷ args))) = ok (inl usage_error)

to_port-lt : (n : ℤ) → to_port n < 2 ^ 16
unfolding to_port
to_port-lt (pos n) = omega arith
to_port-lt (negsuc n) = omega arith

init_server-bound :
    (created : Option ℕ) (bound : Bool) (port : ℕ) (s : Started)
    → init_server created bound port ≡ inr s
    → s ≡ bound_to stream s.sockfd port
unfolding init_server
init_server-bound none bound port s e = absurd (cc)
init_server-bound (some fd) false port s e = absurd (cc)
init_server-bound (some fd) true port s e = rw (← inr-injective _ _ e) refl

connect-connected :
    (created : Option ℕ) (connected : Bool) (ip : Text) (port : ℕ) (s : Started)
    → connect created connected ip port ≡ inr s
    → s ≡ connected_to s.sockfd ip port
unfolding connect
connect-connected none connected ip port s e = absurd (cc)
connect-connected (some fd) false ip port s e = absurd (cc)
connect-connected (some fd) true ip port s e = rw (← inr-injective _ _ e) refl

-- A server and a client that are started with the same text for the port, and get to their loops, use the
-- same port, which fits 16 bits.
pub mains_meet :
    (created created' : Option ℕ) (bound connected : Bool) (ip port : Text) (s c : Started)
    → server_main (init_server created bound) (port ∷ []) ≡ ok (inr s)
    → client_main created' connected (ip ∷ (port ∷ [])) ≡ ok (inr c)
    → (n : ℕ) × (n < 2 ^ 16)
      × (s ≡ bound_to stream s.sockfd n)
      × (c ≡ connected_to c.sockfd (c_str ip) n)
unfolding server_main client_main
mains_meet created created' bound connected ip port s c hs hc = elim (Option-cases (stoi port)) [
  | inl e ↦ absurd (not_ok (rw e at hs))
  | inr (n, e) ↦ (
    to_port n,
    to_port-lt n,
    init_server-bound created bound (to_port n) s (ok_injective (rw e at hs)),
    connect-connected created' connected (c_str ip) (to_port n) c (ok_injective (rw e at hc)),
  )
]
  where
    not_ok : {a : ExitCode ⊎ Started} → fault thrown ≡ ok a → ⊥
    not_ok h = cc

    ok_injective : {a b : ExitCode ⊎ Started} → ok a ≡ ok b → a ≡ b
    ok_injective h = cc
