-- ===== src/Examples/Wire.antt =====
-- Frames, messages, and the streams of them.
use linux_advance.Base.{
  ℕ, ◌*◌, ◌%◌, ◌<◌, ◌≡◌, ◌↔◌, refl, sym, ap, ◌∙◌, append_assoc, take-append-drop, none, some, List,
  [], ◌∷◌, ◌++◌, take, drop, arith,
}
use linux_advance.Base.Monad.{ok, fault, ◌>>=◌, no_fuel}
use linux_advance.Base.Int.{pos, negsuc, ◌*ℤ◌, ◌+ℤ◌, abs}
use linux_advance.Base.Text.{Text, codes, find?, starts_with}
use linux_advance.Base.Text.Decimal.{to_string, int_to_string, digits}
use linux_advance.Protocol.Messages.{
  Request, Response, serialize_request, deserialize_request, serialize_response,
  deserialize_response,
}
use linux_advance.Protocol.Json.{
  serialize_response as to_json, deserialize_request as deserialize_json, request_of, char_of,
}
use linux_advance.Protocol.Messages.RoundTrip.{
  deserialize-serialize_request, deserialize-serialize_response,
}
use linux_advance.Protocol.Frame.{encode, decode}
use linux_advance.Protocol.Frame.Partial.{Fits, decode-encode, decode-encode_cut}
use linux_advance.Calculate.{execute}
use linux_advance.Protocol.Factory.{product}
use linux_advance.Protocol.Factory.Answers.{flag_for, execute-product}
use linux_advance.Calculate.Division.{calc, execute_division_law, execute-eq-none_iff, int_min}
use linux_advance.PackageParse.{answer_package, parse_loop}
use linux_advance.PackageParse.Stream.{frames, IsPayload}
use linux_advance.PackageParse.Chunks.{concat, feed, feed-frames, replies, IsAnswered}
use linux_advance.PackageParse.Negative.{negative_frame, parse_loop-negative}
use linux_advance.CalServer.{add_service}
use linux_advance.CalServer.Sends.{stream_of, add_service-feed}
use linux_advance.Examples.ToyJson.{toy_json}

abbrev word : Text
word = codes "12 + 3"

word-Fits : Fits word
unfolding to_string digits
word-Fits = ground arith

decode-encode_example : decode (encode word ++ codes "5") ≡ some (word, codes "5")
decode-encode_example = decode-encode word (codes "5") word-Fits

decode-encode_cut_example : decode (take 3 (encode word)) ≡ some ([], take 3 (encode word))
unfolding encode to_string
decode-encode_cut_example = decode-encode_cut word 3 word-Fits (ground arith)

abbrev pub three_less_two : Request
three_less_two = record { x = pos 3; y = negsuc 1; oper = b'-' }

request_example :
    deserialize_request (serialize_request three_less_two) ≡ some (some three_less_two)
unfolding serialize_request int_to_string to_string
request_example = deserialize-serialize_request three_less_two refl refl (ground arith)

abbrev a_response : Response
a_response = record { result = negsuc 4; flag = pos 2; equation = codes "3 % 0 = ?" }

response_example : deserialize_response (serialize_response a_response) ≡ some (some a_response)
unfolding int_to_string to_string
response_example =
    deserialize-serialize_response a_response 2 refl refl (ground arith) refl (ground arith)

execute-eq-none_iff_example :
    (calc int_min b'/' (negsuc 0) ≡ none) ↔ ((int_min ≡ int_min) × (negsuc 0 ≡ negsuc 0))
execute-eq-none_iff_example = execute-eq-none_iff int_min (negsuc 0) refl

-- The payload of 1 + 2 and the frame that answers it.
abbrev pub sum_payload : Text
sum_payload = codes "x" ++ (1 ∷ (codes "y" ++ (2 ∷ (codes "oper" ++ b'+' ∷ []))))

abbrev sum_response : Response
sum_response = record { result = pos 3; flag = pos 0; equation = codes "1 + 2 = 3" }

abbrev pub sum_reply : Text
sum_reply = encode (to_json toy_json sum_response)

pub sum_payload-IsAnswered : IsAnswered toy_json (λ p. sum_reply) sum_payload
unfolding answer_package deserialize_json request_of execute to_json find? char_of starts_with
    int_to_string
sum_payload-IsAnswered r = (record { x = pos 1; y = pos 2; oper = b'+' }, refl)

pub sum_IsPayload : IsPayload sum_payload
unfolding to_string digits
sum_IsPayload = (ground arith, refl)

-- The stream of two frames, read in three chunks.
abbrev chunks : List Text
chunks = take 1 (encode sum_payload) ∷ drop 1 (encode sum_payload) ∷ encode sum_payload ∷ []

cut_lem :
    (p : Text)
    → concat (take 1 (encode p) ∷ drop 1 (encode p) ∷ encode p ∷ []) ≡ frames (p ∷ p ∷ [])
unfolding concat frames
cut_lem p =
    sym (append_assoc (take 1 (encode p)) (drop 1 (encode p)) (encode p ++ []))
    ∙ ap (λ t. t ++ (encode p ++ [])) (take-append-drop 1 (encode p))

feed-frames_example :
    feed toy_json three_less_two [] [] chunks ≡ ok ([], sum_reply ++ (sum_reply ++ []))
unfolding replies concat frames
feed-frames_example =
    feed-frames toy_json (λ p. sum_reply) chunks (sum_payload ∷ sum_payload ∷ []) three_less_two []
      (sum_IsPayload, (sum_IsPayload, tt)) (sum_payload-IsAnswered, (sum_payload-IsAnswered, tt))
      (cut_lem sum_payload)

parse_loop-negative_example :
    parse_loop toy_json 9 three_less_two (negative_frame sum_payload) [] ≡ fault no_fuel
parse_loop-negative_example =
    parse_loop-negative toy_json sum_payload sum_reply 9 three_less_two [] (ground arith) refl
      sum_payload-IsAnswered

abbrev quotient : Response
quotient = record { result = negsuc 2; flag = pos 0; equation = codes "-7 / 2 = -3" }

abbrev remainder : Response
remainder = record { result = negsuc 0; flag = pos 0; equation = codes "-7 % 2 = -1" }

execute_division_law_example :
    (quotient.result *ℤ pos 2 +ℤ remainder.result ≡ negsuc 6) × (abs remainder.result < abs (pos 2))
unfolding execute int_to_string to_string digits
execute_division_law_example =
    execute_division_law (negsuc 6) (pos 2) quotient remainder refl refl refl

add_service-feed_example :
    (add_service toy_json three_less_two (stream_of (encode sum_payload ∷ [])) [] [] >>= λ s.
    ok (concat s))
    ≡ (feed toy_json three_less_two [] (concat []) (encode sum_payload ∷ []) >>= λ r. ok r.1)
unfolding encode to_string digits
add_service-feed_example =
    add_service-feed toy_json (encode sum_payload ∷ []) three_less_two [] [] (ground arith)

execute-product_example :
    (k : ℕ) × (r : Response) × (k < 4)
    × ((product 7 9 4 three_less_two).x ≡ pos (k * 2))
    × (execute (product 7 9 4 three_less_two) ≡ some r)
    × (r.flag ≡ pos (flag_for (4 % 7)))
execute-product_example = execute-product 7 9 4 three_less_two
