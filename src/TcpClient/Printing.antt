-- ===== src/TcpClient/Printing.antt =====
-- What the client shows of the answers that it reads.
use linux_advance.Base.{
  ℕ, zero, suc, ◌<◌, ◌≡◌, ap, ◌∙◌, true, false, some, List, [], ◌∷◌, ◌++◌, is_empty, length, arith,
  All, append_assoc, append-nil, map, sym,
}
use linux_advance.Base.Monad.{ok}
use linux_advance.Base.Text.{Text}
use linux_advance.Protocol.Messages.{Response, default_response}
use linux_advance.Protocol.Frame.{encode, decode}
use linux_advance.Protocol.Frame.Partial.{decode-encode}
use linux_advance.Protocol.Json.{Json, serialize_response, deserialize_response}
use linux_advance.PackageParse.Stream.{frames, IsPayload}
use linux_advance.TcpClient.{print_loop}

module _ (j : Json) where
  -- The library reads this response back from what it wrote, and a frame can carry it.
  abbrev pub IsReadBack : Response → Type 0
  IsReadBack r =
      (deserialize_response j default_response (serialize_response j r) ≡ some (r, true))
      × IsPayload (serialize_response j r)

  print_step :
      (b m rest : Text) (r : Response) (fuel : ℕ) (shown : List Response)
      → decode b ≡ some (m, rest)
      → is_empty m ≡ false
      → deserialize_response j default_response m ≡ some (r, true)
      → print_loop j (suc fuel) b shown ≡ print_loop j fuel rest (shown ++ r ∷ [])
  unfolding print_loop
  print_step b m rest r fuel shown e full d = ground (arith, e, full, d)

  -- From frames of responses that the JSON library reads back, whose texts a frame can carry, and a
  -- tail in which Decode finds no frame, with more fuel than there are responses, the client shows
  -- these responses, in order, once each.
  pub print_loop-frames :
      (rs : List Response) (tail : Text) (shown : List Response) (fuel : ℕ)
      → All IsReadBack rs
      → decode tail ≡ some ([], tail)
      → length rs < fuel
      → print_loop j fuel (frames (map (serialize_response j) rs) ++ tail) shown ≡ ok (shown ++ rs)
  unfolding print_loop frames
  print_loop-frames rs tail shown zero h w l = absurd (omega arith)
  print_loop-frames [] tail shown (suc fuel) h w l =
      rw w (ap (λ (t : List Response). ok t) (sym (append-nil shown)))
  print_loop-frames (r ∷ rs) tail shown (suc fuel) ((back, (fits, full)), h) w l =
      let p = serialize_response j r in
      let later = frames (map (serialize_response j) rs) ++ tail in
      ap (λ b. print_loop j (suc fuel) b shown)
        (append_assoc (encode p) (frames (map (serialize_response j) rs)) tail)
      ∙ (print_step (encode p ++ later) p later r fuel shown (decode-encode p later fits) full back
          ∙ (print_loop-frames rs tail (shown ++ r ∷ []) fuel h w (omega arith)
              ∙ ap (λ (t : List Response). ok t) (append_assoc shown (r ∷ []) rs)))
