-- ===== src/PackageParse.antt =====
-- PackageParse.hpp of the reactor: every whole frame of the input buffer is decoded, calculated and
-- answered into the output buffer.
pub mod Stream
pub mod Chunks
pub mod Negative
use linux_advance.Base.{
  ℕ, zero, suc, true, false, Option, none, some, List, [], ◌∷◌, ◌++◌, if◌then◌else◌, is_empty,
}
use linux_advance.Base.Monad.{Result, Fault, ok, fault, thrown, undefined, no_fuel, or_fault, ◌>>=◌}
use linux_advance.Base.Text.{Text}
use linux_advance.Protocol.Messages.{Request}
use linux_advance.Protocol.Frame.{encode, decode}
use linux_advance.Protocol.Json.{Json, deserialize_request, serialize_response}
use linux_advance.Calculate.{execute}

module _ (j : Json) where
  -- Steps 3 to 6, for one payload: the result of DeSerialize is not looked at, so the request may be
  -- the one of the payload before.
  unfoldable pub answer_package : Request → Text → Result (Request × Text)
  answer_package req payload = do
    parsed ← or_fault thrown (deserialize_request j req payload)
    resp ← or_fault undefined (execute parsed.0)
    ok (parsed.0, encode (serialize_response j resp))

  -- The loop of Parse over the request object and the two buffers.
  unfoldable pub parse_loop : ℕ → Request → Text → Text → Result (Text × Text)
  parse_loop zero req inbuff outbuff = fault no_fuel
  parse_loop (suc fuel) req inbuff outbuff = do
    decoded ← or_fault thrown (decode inbuff)
    elim (is_empty decoded.0) [
      | true ↦ ok (decoded.1, outbuff)
      | false ↦ do
        answered ← answer_package req decoded.0
        parse_loop fuel answered.0 decoded.1 (outbuff ++ answered.1)
    ]
