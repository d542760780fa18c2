-- ===== src/Reactor/Proofs/Receiving.antt =====
-- HandlerRecv of IOService.hpp: its reads and its end.
use linux_advance.Base.{
  ℕ, zero, suc, ◌≡◌, ◌≢◌, refl, sym, ap, ◌∙◌, none, List, [], ◌∷◌, ◌++◌, arith, replicate,
  append_assoc, append-nil,
}
use linux_advance.Base.Monad.{ok, fault, blocked}
use linux_advance.Base.Text.{Text, c_str}
use linux_advance.Reactor.Connection.{Connection, append_inbuff}
use linux_advance.Reactor.Io.{
  broken, finished, Received, bytes, at_end, failed, RecvRound, recv_loop, eagain, eintr,
}

-- A round in which SetNonBlock succeeds.
abbrev pub plain : Received → RecvRound
plain r = record { received = r; fcntl_errno = none }

-- What a run of reads leaves in the input buffer: each is cut at its first zero byte.
unfoldable pub texts_of : List Text → Text
texts_of [] = []
texts_of (b ∷ bs) = c_str b ++ texts_of bs

abbrev pub reads : List Text → List RecvRound → List RecvRound
reads [] rest = rest
reads (b ∷ bs) rest = plain (bytes b) ∷ reads bs rest

recv_reads :
    (bs : List Text) (rest : List RecvRound) (errno : ℕ) (conn : Connection)
    → recv_loop (reads bs rest) errno conn ≡ recv_loop rest errno (append_inbuff conn (texts_of bs))
unfolding recv_loop texts_of
recv_reads [] rest errno conn =
    ap (λ t. recv_loop rest errno (record conn { inbuffer = t })) (sym (append-nil conn.inbuffer))
recv_reads (b ∷ bs) rest errno conn =
    recv_reads bs rest errno (append_inbuff conn (c_str b))
    ∙ ap (λ t. recv_loop rest errno (record conn { inbuffer = t }))
        (append_assoc conn.inbuffer (c_str b) (texts_of bs))

-- After a run of reads, SetNonBlock succeeding each time, HandlerRecv has their texts behind the input
-- buffer: it ends well when the socket has no more, and gives the connection up, with this buffer, at
-- the end of the stream and on an error that is neither EAGAIN nor EINTR.
pub recv_loop-reads :
    (bs : List Text) (rest : List RecvRound) (conn : Connection) (e : ℕ)
    → e ≢ eagain
    → e ≢ eintr
    → (recv_loop (reads bs (plain (failed eagain) ∷ rest)) 0 conn
        ≡ ok (finished, append_inbuff conn (texts_of bs), rest))
      × (recv_loop (reads bs (plain at_end ∷ rest)) 0 conn
          ≡ ok (broken, append_inbuff conn (texts_of bs), rest))
      × (recv_loop (reads bs (plain (failed e) ∷ rest)) 0 conn
          ≡ ok (broken, append_inbuff conn (texts_of bs), rest))
unfolding recv_loop
recv_loop-reads bs rest conn e h k =
    (recv_reads bs _ 0 conn, recv_reads bs _ 0 conn, recv_reads bs _ 0 conn ∙ ground arith)

at_end_again :
    (n : ℕ) (conn : Connection) → recv_loop (replicate n (plain at_end)) eintr conn ≡ fault blocked
unfolding recv_loop
at_end_again zero conn = refl
at_end_again (suc n) conn = at_end_again n conn

-- When ::recv is interrupted by a signal and then reports the end of the stream, errno still holds
-- EINTR, and the loop of HandlerRecv calls ::recv again after every such report, however many there
-- are.
pub recv_loop-interrupted :
    (n : ℕ) (bs : List Text) (conn : Connection)
    → recv_loop (reads bs (plain (failed eintr) ∷ replicate n (plain at_end))) 0 conn
      ≡ fault blocked
unfolding recv_loop
recv_loop-interrupted n bs conn = recv_reads bs _ 0 conn ∙ at_end_again n _
