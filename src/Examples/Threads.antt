-- ===== src/Examples/Threads.antt =====
-- Two clients of the calculator server, whose threads take turns.
use linux_advance.Base.{
  ℕ, zero, suc, ◌≡◌, refl, ap, arith, true, false, none, some, List, [], ◌∷◌, take, drop, get_elem?,
}
use linux_advance.Base.Monad.{ok, is_ok}
use linux_advance.Base.Text.{codes}
use linux_advance.Protocol.Frame.{encode}
use linux_advance.CalServer.{add_service}
use linux_advance.CalServer.Threads.{Thread, Happening, accepts, receives, run}
use linux_advance.CalServer.Threads.Alone.{only}
use linux_advance.CalServer.Threads.Answers.{script, serving, run-add_service}
use linux_advance.Examples.ToyJson.{toy_json}
use linux_advance.Examples.Wire.{sum_payload, sum_reply, three_less_two}

abbrev two_clients : List Thread
two_clients = serving 5 [] [] ∷ serving 6 [] [] ∷ []

-- The request of the first comes in two pieces, with one byte of the second between them.
abbrev turns : List Happening
turns =
    receives 0 (some (take 1 (encode sum_payload)))
    ∷ receives 1 (some (codes "1"))
    ∷ accepts none
    ∷ receives 0 (some (drop 1 (encode sum_payload)))
    ∷ receives 0 none
    ∷ []

neither_lem : (i : ℕ) → only (suc (suc i)) turns ≡ accepts none ∷ []
unfolding only
neither_lem i = ground arith

alone_lem : (i : ℕ) → is_ok (run toy_json three_less_two (only i turns) two_clients) ≡ true
unfolding only script run linux_advance.CalServer.Threads.happen
    linux_advance.CalServer.Threads.turn linux_advance.CalServer.Threads.turn_of
    linux_advance.CalServer.Threads.receive linux_advance.CalServer.Threads.accept_round add_service
    linux_advance.CalServer.serve_packages linux_advance.Protocol.Frame.decode
    linux_advance.Base.Int.to_int linux_advance.Base.Text.find linux_advance.Base.Text.find?
    linux_advance.Base.Text.c_str linux_advance.Base.Text.Decimal.digits
    linux_advance.Base.Text.Decimal.int_to_string linux_advance.Base.Text.Decimal.is_digit
    linux_advance.Base.Text.Decimal.is_space linux_advance.Base.Text.Decimal.magnitude
    linux_advance.Base.Text.Decimal.scan linux_advance.Base.Text.Decimal.signed
    linux_advance.Base.Text.Decimal.skip_space linux_advance.Base.Text.Decimal.stoi
    linux_advance.Base.Text.Decimal.to_string linux_advance.Base.Text.starts_with
    linux_advance.Base.Text.substr linux_advance.Calculate.execute
    linux_advance.PackageParse.answer_package linux_advance.Protocol.Frame.decode_at encode
    linux_advance.Protocol.Json.char_of linux_advance.Protocol.Json.deserialize_request
    linux_advance.Protocol.Json.request_of linux_advance.Protocol.Json.serialize_response
alone_lem zero = refl
alone_lem (suc zero) = refl
alone_lem (suc (suc i)) =
    ap (λ hs. is_ok (run toy_json three_less_two hs two_clients)) (neither_lem i)

served_lem : add_service toy_json three_less_two (script 0 turns) [] [] ≡ ok (sum_reply ∷ [])
unfolding only script run linux_advance.CalServer.Threads.happen
    linux_advance.CalServer.Threads.turn linux_advance.CalServer.Threads.turn_of
    linux_advance.CalServer.Threads.receive linux_advance.CalServer.Threads.accept_round add_service
    linux_advance.CalServer.serve_packages linux_advance.Protocol.Frame.decode
    linux_advance.Base.Int.to_int linux_advance.Base.Text.find linux_advance.Base.Text.find?
    linux_advance.Base.Text.c_str linux_advance.Base.Text.Decimal.digits
    linux_advance.Base.Text.Decimal.int_to_string linux_advance.Base.Text.Decimal.is_digit
    linux_advance.Base.Text.Decimal.is_space linux_advance.Base.Text.Decimal.magnitude
    linux_advance.Base.Text.Decimal.scan linux_advance.Base.Text.Decimal.signed
    linux_advance.Base.Text.Decimal.skip_space linux_advance.Base.Text.Decimal.stoi
    linux_advance.Base.Text.Decimal.to_string linux_advance.Base.Text.starts_with
    linux_advance.Base.Text.substr linux_advance.Calculate.execute
    linux_advance.PackageParse.answer_package linux_advance.Protocol.Frame.decode_at encode
    linux_advance.Protocol.Json.char_of linux_advance.Protocol.Json.deserialize_request
    linux_advance.Protocol.Json.request_of linux_advance.Protocol.Json.serialize_response
served_lem = refl

run-add_service_example :
    (threads' : List Thread) × (t : Thread) × (run toy_json three_less_two turns two_clients
      ≡ ok threads')
    × (get_elem? threads' 0 ≡ some t)
    × (t.closed ≡ true)
    × (t.sent ≡ sum_reply ∷ [])
run-add_service_example =
    run-add_service toy_json three_less_two turns two_clients 0 5 [] [] (sum_reply ∷ []) alone_lem
      refl served_lem
