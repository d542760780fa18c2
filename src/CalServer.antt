-- ===== src/CalServer.antt =====
-- Service::AddService of Main.cc of the calculator server, which answers each frame with a ::send of its
-- own.
pub mod Sends
pub mod Threads
use linux_advance.Base.{
  ℕ, zero, suc, true, false, Option, none, some, List, [], ◌∷◌, ◌++◌, is_empty, length,
}
use linux_advance.Base.Monad.{Result, ok, fault, thrown, blocked, no_fuel, or_fault, ◌>>=◌}
use linux_advance.Base.Text.{Text, c_str}
use linux_advance.Protocol.Messages.{Request}
use linux_advance.Protocol.Frame.{decode}
use linux_advance.Protocol.Json.{Json}
use linux_advance.PackageParse.{answer_package}

module _ (j : Json) where
  -- The inner loop over the request object, the buffer and what was sent.
  unfoldable pub serve_packages : ℕ → Request → Text → List Text → Result (Text × List Text)
  serve_packages zero req recvmessage sent = fault no_fuel
  serve_packages (suc fuel) req recvmessage sent = do
    decoded ← or_fault thrown (decode recvmessage)
    elim (is_empty decoded.0) [
      | true ↦ ok (decoded.1, sent)
      | false ↦ do
        answered ← answer_package j req decoded.0
        serve_packages fuel answered.0 decoded.1 (sent ++ answered.1 ∷ [])
    ]

  -- AddService over what ::recv gives: bytes, read as a C string, or none for the end of the stream or an
  -- error. `garbage` is what a new request object holds.
  unfoldable pub add_service : Request → List (Option Text) → Text → List Text → Result (List Text)
  add_service garbage [] recvmessage sent = fault blocked
  add_service garbage (none ∷ recvs) recvmessage sent = ok sent
  add_service garbage (some b ∷ recvs) recvmessage sent = do
    served ←
        serve_packages (suc (length (recvmessage ++ c_str b))) garbage (recvmessage ++ c_str b) sent
    add_service garbage recvs served.0 served.1
