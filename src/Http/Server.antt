-- ===== src/Http/Server.antt =====
-- TcpServer.hpp of the web server with sessions: the thread of a client, and the loop that accepts. The
-- service is that of Http.hpp.
use linux_advance.Base.{ℕ, Option, none, some, List, [], ◌∷◌, ◌++◌}
use linux_advance.Base.Monad.{Result, ok, fault, undefined, ◌>>=◌}
use linux_advance.Base.Text.{Text, c_str}
use linux_advance.Multiplex.Echo.{Received, bytes, at_end, failed, Call, sent, close}

-- A client: its descriptor, or none where ::accept failed and Accepter gave a null pointer, and what the
-- one ::recv on it gives.
pub record Client : Type 0 where
  pub sockfd : Option ℕ
  pub received : Received

module _ {ℓ} {S : Type ℓ} (http_service : Text → S → Result (Text × S)) where
  -- The answer of HandlerService: the request is what one ::recv gives, as a C string.
  unfoldable pub answer_request : ℕ → Received → S → Result (List Call × S)
  answer_request fd (bytes b) s = do
    (response, s') ← http_service (c_str b) s
    ok (sent fd response ∷ [], s')
  answer_request fd at_end s = ok ([], s)
  answer_request fd (failed) s = ok ([], s)

  -- HandlerService: the client is closed in the end. A null pointer is read.
  unfoldable pub handler_service : Client → S → Result (List Call × S)
  handler_service c s = elim c.sockfd [
    | none ↦ fault undefined
    | some fd ↦ do (calls, s') ← answer_request fd c.received s; ok (calls ++ close fd ∷ [], s')
  ]

  -- Start, for clients whose threads run one after the other.
  unfoldable pub start : List Client → S → Result (List Call × S)
  start [] s = ok ([], s)
  start (c ∷ cs) s = do
    (calls, s') ← handler_service c s
    (later, s'') ← start cs s'
    ok (calls ++ later, s'')
