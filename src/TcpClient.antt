-- ===== src/TcpClient.antt =====
-- TcpClient.cc of the calculator: the connection, its attempts to connect again, and the switch over
-- its status.
pub mod Reconnect
pub mod Printing
use linux_advance.Base.{
  ℕ, zero, suc, Bool, true, false, Option, none, some, List, [], ◌∷◌, ◌++◌, ltb, if◌then◌else◌,
  is_empty, length,
}
use linux_advance.Base.Monad.{Result, ok, fault, thrown, blocked, no_fuel, exited, or_fault, ◌>>=◌}
use linux_advance.Base.Text.{Text, c_str}
use linux_advance.Protocol.Messages.{Request, Response, default_response}
use linux_advance.Protocol.Frame.{encode, decode}
use linux_advance.Protocol.Json.{Json, serialize_request, deserialize_response}

pub data Status : Type 0 where
  new connected connecting disconnected closed : Status

-- What is done to sockets, the newest first.
pub data Call : Type 0 where
  opened shut : ℕ → Call
  sent : ℕ → Text → Call

-- One round of Process: the request that CalFactory makes, whether ::send works, and what ::recv gives:
-- bytes, or none for the end of the stream or an error.
pub record Round : Type 0 where
  pub product : Request
  pub sends : Bool
  pub received : Option Text

-- An attempt to connect: ::socket fails, or gives a descriptor, and ::connect works or not.
pub data Attempt : Type 0 where
  no_socket : Attempt
  attempt : ℕ → Bool → Attempt

-- The connection, what it did and showed, and what its environment has for it: the attempts to
-- connect, and the rounds of Process.
pub record Connection : Type 0 where
  pub sockfd : Option ℕ
  pub status : Status
  pub calls : List Call
  pub shown : List Response
  pub attempts : List Attempt
  pub rounds : List Round

abbrev pub retry_max_times : ℕ
retry_max_times = 5

-- DisConnect: the descriptor stays in the socket.
unfoldable pub disconnect : Connection → Connection
disconnect c = elim c.sockfd [ none ↦ c | some fd ↦ record c { calls = shut fd ∷ c.calls } ]

abbrev pub after_connector : Bool → Connection → Connection
after_connector true c = record c { status = connected }
after_connector false c = record (disconnect c) { status = disconnected }

-- What an attempt does: a new socket, then ::connect.
abbrev pub attempted : ℕ → Bool → List Attempt → Connection → Connection
attempted fd works rest c =
    after_connector works
      (record c { sockfd = some fd; calls = opened fd ∷ c.calls; attempts = rest })

abbrev pub try_connect : List Attempt → Connection → Result Connection
try_connect [] c = fault blocked
try_connect (no_socket ∷ rest) c = fault exited
try_connect (attempt fd works ∷ rest) c = ok (attempted fd works rest c)

-- Connect: CreateSocketOrDie of BuildClientSocket exits where ::socket fails.
unfoldable pub connect : Connection → Result Connection
unfolding disconnect
connect c = try_connect c.attempts c

abbrev pub is_connected : Status → Bool
is_connected connected = true
is_connected new = false
is_connected connecting = false
is_connected disconnected = false
is_connected closed = false

-- The loop of ReConnect.
unfoldable pub reconnect_loop : ℕ → ℕ → Connection → Result Connection
reconnect_loop zero cnt c = fault no_fuel
reconnect_loop (suc fuel) cnt c = do
  c' ← connect c
  if is_connected c'.status
      then ok c'
      else if ltb retry_max_times (suc cnt)
      then ok (record c' { status = closed })
      else reconnect_loop fuel (suc cnt) c'

-- ReConnect
unfoldable pub reconnect : Connection → Result Connection
unfolding reconnect_loop
reconnect c = reconnect_loop retry_max_times 1 (record c { status = connecting })

module _ (j : Json) where
  -- The inner loop of Process over what was received in this round; whatever is left is dropped.
  unfoldable pub print_loop : ℕ → Text → List Response → Result (List Response)
  print_loop zero recvmessage shown = fault no_fuel
  print_loop (suc fuel) recvmessage shown = do
    decoded ← or_fault thrown (decode recvmessage)
    elim (is_empty decoded.0) [
      | true ↦ ok shown
      | false ↦ do
        resp ← or_fault thrown (deserialize_response j default_response decoded.0)
        print_loop fuel decoded.1 (shown ++ resp.0 ∷ [])
    ]

  abbrev socket_of : Option ℕ → ℕ
  socket_of none = 0
  socket_of (some fd) = fd

  -- Process
  unfoldable pub process_loop : ℕ → List Round → Connection → Result Connection
  unfolding print_loop
  process_loop fuel [] c = fault blocked
  process_loop fuel (r ∷ rs) c =
      if r.sends
      then elim r.received [
        | none ↦ ok (record c {
          status = disconnected;
          rounds = rs;
          calls = sent (socket_of c.sockfd) (encode (serialize_request j r.product)) ∷ c.calls;
        })
        | some bytes ↦ do
          shown ← print_loop fuel (c_str bytes) c.shown
          process_loop fuel rs (record c {
            rounds = rs;
            shown = shown;
            calls = sent (socket_of c.sockfd) (encode (serialize_request j r.product)) ∷ c.calls;
          })
      ]
      else ok (record c { status = closed; rounds = rs })

  -- One round of TcpClient::Execute, where its status is not CLOSE: then it disconnects and returns.
  unfoldable pub execute_round : ℕ → Connection → Result Connection
  unfolding process_loop
  execute_round fuel c = elim c.status [
    | new ↦ connect c
    | connected ↦ process_loop fuel c.rounds c
    | disconnected ↦ reconnect c
    | closed ↦ ok (disconnect c)
    | connecting ↦ ok c
  ]
