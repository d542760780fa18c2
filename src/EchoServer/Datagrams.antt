-- ===== src/EchoServer/Datagrams.antt =====
-- UdpServer.hpp of the echo server over UDP, and its client UdpClient.cc.
use linux_advance.Base.{
  ◌≡◌, ◌<◌, sym, ap, false, Option, none, some, List, [], ◌∷◌, ◌++◌, if◌then◌else◌, is_empty,
  length, leb, map, arith, All, append_assoc, append-nil,
}
use linux_advance.Base.Monad.{Fault, blocked, undefined}
use linux_advance.Base.Text.{Text, codes, c_str}
use linux_advance.EchoServer.{buff_size}

module _ {ℓ} {Peer : Type ℓ} where
  -- The loop of Start over what ::recvfrom gives, a datagram and its sender or an error, with what was sent
  -- to whom. An empty datagram is not answered; one that fills the buffer makes the loop write the byte
  -- behind it.
  unfoldable pub start :
      List (Option (Peer × Text)) → List (Peer × Text) → Fault × List (Peer × Text)
  start [] sent = (blocked, sent)
  start (none ∷ ds) sent = start ds sent
  start (some (peer, b) ∷ ds) sent =
      let ignored = start ds sent in
      let rest = start ds (sent ++ (peer, c_str b) ∷ []) in
      if is_empty b then ignored else if leb buff_size (length b) then (undefined, sent) else rest

  -- Datagrams that are not empty and leave room for the final 0 are sent back, in order, each to its sender
  -- and up to its first zero byte.
  pub start-echoes :
      (ds : List (Peer × Text)) (sent : List (Peer × Text))
      → All (λ d. (is_empty d.1 ≡ false) × (length d.1 < buff_size)) ds
      → start (map some ds) sent ≡ (blocked, sent ++ map (λ d. (d.0, c_str d.1)) ds)
  unfolding start
  start-echoes [] sent h = ap (λ l. (blocked, l)) (sym (append-nil sent))
  start-echoes ((peer, b) ∷ ds) sent ((full, short), h) = ground (
    arith,
    full,
    short,
    start-echoes ds (sent ++ (peer, c_str b) ∷ []) h,
    append_assoc sent ((peer, c_str b) ∷ []) (map (λ d. (d.0, c_str d.1)) ds),
  )

-- The loop of the client, over the lines and what ::recvfrom gives for each, or none for an error: what was
-- sent, and what was shown.
unfoldable pub client :
    List (Text × Option Text) → List Text → List Text → Fault × List Text × List Text
client [] sent shown = (blocked, sent, shown)
client ((line, none) ∷ rounds) sent shown = client rounds (sent ++ line ∷ []) shown
client ((line, some b) ∷ rounds) sent shown =
    let quiet = client rounds (sent ++ line ∷ []) shown in
    let rest =
      client rounds (sent ++ line ∷ []) (shown ++ (codes "Server Echo:# " ++ c_str b) ∷ []) in
    if is_empty b
    then quiet
    else if leb buff_size (length b)
    then (undefined, sent ++ line ∷ [], shown)
    else rest
