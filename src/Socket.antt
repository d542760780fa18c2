-- ===== src/Socket.antt =====
-- Socket.hpp of the reactor: a TcpSocket, and the calls that make it listen or connect. What the kernel
-- answers is an argument.
use linux_advance.Base.{
  ℕ, ◌≡◌, refl, sym, Bool, true, false, Option, none, some, List, [], ◌∷◌, ◌++◌, if◌then◌else◌, ◌⊎◌,
  inl, inr,
}
use mathlib.Core.Sum.{inr-injective}
use linux_advance.Base.Text.{Text, c_str}
use linux_advance.Reactor.Io.{Received, bytes, at_end, failed}

-- The errors with which the process exits.
pub data ErrorCode : Type 0 where
  create_error bind_error listen_error : ErrorCode

-- What is done to the descriptor, in order. `reuse_port` is the option SO_REUSEADDR | SO_REUSEPORT, which is
-- SO_REUSEPORT.
pub data SocketCall : Type 0 where
  reuse_port : ℕ → SocketCall
  binds : ℕ → ℕ → SocketCall
  listens : ℕ → ℕ → SocketCall
  connects : ℕ → Text → ℕ → SocketCall
  nonblocking : ℕ → SocketCall
  sends : ℕ → Text → SocketCall

-- A TcpSocket: its descriptor, -1 as none, and the calls so far.
pub record TcpSocket : Type 0 where
  pub socktfd : Option ℕ
  pub calls : List SocketCall

-- TcpSocket()
abbrev pub new_socket : TcpSocket
new_socket = record { socktfd = none; calls = [] }

-- An address, its port in host byte order.
pub record InetAddr : Type 0 where
  pub ip : Text
  pub port : ℕ

-- The operations that exit the process where a call fails.
abbrev pub OrDie {ℓ} : Type ℓ → Type ℓ
OrDie A = ErrorCode ⊎ A

infixl 5 ◌>>=◌
abbrev ◌>>=◌ {ℓ κ} : {A : Type ℓ} {B : Type κ} → OrDie A → (A → OrDie B) → OrDie B
inl e >>= f = inl e
inr a >>= f = f a

-- CreateSocketOrDie: ::socket gives a descriptor or fails.
unfoldable pub create_socket_or_die : Option ℕ → TcpSocket → OrDie (ℕ × TcpSocket)
create_socket_or_die none s = inl create_error
create_socket_or_die (some fd) s = inr (fd, record s { socktfd = some fd })

abbrev call : SocketCall → TcpSocket → TcpSocket
call c s = record s { calls = s.calls ++ c ∷ [] }

-- SetSocketAddrReuse
unfoldable pub set_socket_addr_reuse : ℕ → TcpSocket → TcpSocket
set_socket_addr_reuse fd s = call (reuse_port fd) s

-- BindSocketOrDie, to any address
unfoldable pub bind_socket_or_die : Bool → ℕ → InetAddr → TcpSocket → OrDie TcpSocket
bind_socket_or_die bound fd addr s =
    if bound then inr (call (binds fd addr.port) s) else inl bind_error

abbrev gbacklog : ℕ
gbacklog = 8

-- ListenSocketOrDie
unfoldable pub listen_socket_or_die : Bool → ℕ → TcpSocket → OrDie TcpSocket
listen_socket_or_die listening fd s =
    if listening then inr (call (listens fd gbacklog) s) else inl listen_error

-- What ::socket, ::bind and ::listen answer.
pub record Answers : Type 0 where
  pub created : Option ℕ
  pub bound : Bool
  pub listening : Bool

abbrev pub answers_of : Option ℕ → Bool → Bool → Answers
answers_of created bound listening = record {
  created = created;
  bound = bound;
  listening = listening;
}

-- BuildListenSocket
unfoldable pub build_listen_socket : Answers → InetAddr → TcpSocket → OrDie TcpSocket
build_listen_socket k addr s = do
  (fd, s₁) ← create_socket_or_die k.created s
  s₂ ← bind_socket_or_die k.bound fd addr (set_socket_addr_reuse fd s₁)
  listen_socket_or_die k.listening fd s₂

-- Connector
unfoldable pub connector : Bool → ℕ → InetAddr → TcpSocket → Bool × TcpSocket
connector connected fd addr s = (connected, call (connects fd addr.ip addr.port) s)

-- BuildClientSocket
unfoldable pub build_client_socket :
    Option ℕ → Bool → InetAddr → TcpSocket → OrDie (Bool × TcpSocket)
build_client_socket created connected addr s = do
  (fd, s₁) ← create_socket_or_die created s
  inr (connector connected fd addr s₁)

-- Recv: bytes are appended as a C string, whether there were any.
unfoldable pub recv : Received → Text → Bool × Text
recv (bytes b) out = (true, out ++ c_str b)
recv at_end out = (false, out)
recv (failed e) out = (false, out)

-- ::accept gives a descriptor with its peer, or fails.
pub data Accepted : Type 0 where
  peer : ℕ → InetAddr → Accepted
  no_peer : Accepted

-- What Accepter returns, and what it writes to errcode and addr.
pub record Accepting : Type 0 where
  pub newsockfd : Option ℕ
  pub errcode : ℕ
  pub addr : InetAddr

-- Accepter of the socket `listensock`: where it works it makes this socket, not the new one,
-- nonblocking.
unfoldable pub accepter : Accepted → ℕ → ℕ → InetAddr → TcpSocket → Accepting × TcpSocket
accepter (peer fd from) errno listensock addr s =
    (record { newsockfd = some fd; errcode = errno; addr = from }, call (nonblocking listensock) s)
accepter no_peer errno listensock addr s =
    (record { newsockfd = none; errcode = errno; addr = addr }, s)

-- Send, with what ::send returns.
unfoldable pub send : Option ℕ → ℕ → Text → TcpSocket → Option ℕ × TcpSocket
send n fd in_buffer s = (n, call (sends fd in_buffer) s)

-- The socket listens if and only if each of the three calls succeeds, and then it was bound to the port,
-- with the option set before and ::listen called behind it.
pub build_listen_socket_lem :
    (k : Answers) (addr : InetAddr) (s : TcpSocket)
    → build_listen_socket k addr new_socket ≡ inr s
    → (fd : ℕ) × (k ≡ answers_of (some fd) true true)
      × (s ≡ record {
        socktfd = some fd;
        calls = reuse_port fd ∷ (binds fd addr.port ∷ (listens fd gbacklog ∷ []));
      })
unfolding build_listen_socket create_socket_or_die bind_socket_or_die listen_socket_or_die
    set_socket_addr_reuse
build_listen_socket_lem k addr s e = built k.created k.bound k.listening e
  where
    built :
        (created : Option ℕ) (bound listening : Bool)
        → build_listen_socket (answers_of created bound listening) addr new_socket ≡ inr s
        → (fd : ℕ) × (answers_of created bound listening ≡ answers_of (some fd) true true)
          × (s ≡ record {
            socktfd = some fd;
            calls = reuse_port fd ∷ (binds fd addr.port ∷ (listens fd gbacklog ∷ []));
          })
    built none b l h = cc
    built (some fd) false l h = cc
    built (some fd) true false h = cc
    built (some fd) true true h = (fd, refl, sym (inr-injective _ _ h))
