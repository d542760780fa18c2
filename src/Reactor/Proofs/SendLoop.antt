-- ===== src/Reactor/Proofs/SendLoop.antt =====
-- The loop of HandlerSend of IOService.hpp: the bytes that the kernel took, and why it ends.
use linux_advance.Base.{
  false, ◌==◌, ◌≤◌, ◌<◌, if◌then◌else◌, ℕ, zero, suc, ◌≡◌, refl, ap, ◌∙◌, true, List, [], ◌∷◌, ◌++◌,
  arith, Bool-cases, inl, inr, is_empty, take, drop, take-append-drop, append_assoc, ◌⊎◌,
}
use linux_advance.Base.Monad.{Goes, Result, ok, fault, OnOk, is_ok}
use linux_advance.Base.Text.{Text}
use linux_advance.Reactor.Connection.{Connection, out_buffer_remove}
use linux_advance.Reactor.Io.{
  Ending, broken, finished, SendRound, took, send_failed, send_loop, retry_of, Retry, stop, again,
  give_up, eagain,
}

-- The bytes on the wire and those left in the buffer, in this order.
abbrev pub stream : Text → Connection → Text
stream wire conn = wire ++ conn.outbuffer

abbrev pub Carries :
    Connection → Text → Result (Ending × Connection × Text × List SendRound) → Type 0
Carries conn wire =
    OnOk
      (λ r. (stream r.2 r.1 ≡ stream wire conn) × (r.1 ≡ record conn { outbuffer = r.1.outbuffer }))

removal :
    (n : ℕ) (conn : Connection) (wire : Text)
    → stream (wire ++ take n conn.outbuffer) (out_buffer_remove conn n) ≡ stream wire conn
removal n conn wire =
    append_assoc wire (take n conn.outbuffer) (drop n conn.outbuffer)
    ∙ ap (◌++◌ wire) (take-append-drop n conn.outbuffer)

pub send_loop-Carries :
    (script : List SendRound) (conn : Connection) (wire : Text)
    → Carries conn wire (send_loop script conn wire)
unfolding send_loop
send_loop-Carries [] conn wire = tt
send_loop-Carries (took zero ∷ rest) conn wire = (refl, refl)
send_loop-Carries (took (suc n) ∷ rest) conn wire =
    elim (Bool-cases (is_empty (drop (suc n) conn.outbuffer))) [
      | inl sent_all ↦ ground (arith, removal (suc n) conn wire)
      | inr some_left ↦ ground (
        arith,
        removal (suc n) conn wire,
        send_loop-Carries rest (out_buffer_remove conn (suc n))
            (wire ++ take (suc n) conn.outbuffer),
      )
    ]
send_loop-Carries (send_failed e ∷ rest) conn wire =
    ground (arith, send_loop-Carries rest conn wire)

-- A call of ::send failed, with an errno that is neither EAGAIN nor EINTR.
abbrev pub HasError : List SendRound → Type 0
HasError [] = ⊥
HasError (took n ∷ rest) = HasError rest
HasError (send_failed e ∷ rest) = (retry_of e ≡ give_up) ⊎ HasError rest

abbrev pub Explained : List SendRound → Ending → Type 0
Explained script ending = (ending ≡ finished) ⊎ HasError script

later_error :
    (e : ℕ) (script : List SendRound) (m : Result (Ending × Connection × Text × List SendRound))
    → OnOk (λ r. Explained script r.0) m
    → OnOk (λ r. Explained (send_failed e ∷ script) r.0) m
later_error e script (fault f) h = tt
later_error e script (ok r) (inl fin) = inl fin
later_error e script (ok r) (inr err) = inr (inr err)

on_retry :
    (P : Ending × Connection × Text × List SendRound → Type 0) (y : Retry) (e : ℕ)
    (rest : List SendRound) (conn : Connection) (wire : Text)
    → retry_of e ≡ y
    → P (finished, conn, wire, rest)
    → OnOk P (send_loop rest conn wire)
    → (retry_of e ≡ give_up → P (broken, conn, wire, rest))
    → OnOk P (send_loop (send_failed e ∷ rest) conn wire)
unfolding send_loop
on_retry P stop e rest conn wire h fin later err = rw (h, send_loop) fin
on_retry P again e rest conn wire h fin later err = rw (h, send_loop) later
on_retry P give_up e rest conn wire h fin later err = rw (h, send_loop) (err h)

pub send_loop-Explained :
    (script : List SendRound) (conn : Connection) (wire : Text)
    → OnOk (λ r. Explained script r.0) (send_loop script conn wire)
unfolding send_loop
send_loop-Explained [] conn wire = tt
send_loop-Explained (took zero ∷ rest) conn wire = inl refl
send_loop-Explained (took (suc n) ∷ rest) conn wire =
    elim (Bool-cases (is_empty (drop (suc n) conn.outbuffer))) [
      | inl all ↦ ground (arith, all)
      | inr left ↦
          rw (left, send_loop)
            (send_loop-Explained rest (out_buffer_remove conn (suc n))
              (wire ++ take (suc n) conn.outbuffer))
    ]
send_loop-Explained (send_failed e ∷ rest) conn wire =
    on_retry (λ r. Explained (send_failed e ∷ rest) r.0) (retry_of e) e rest conn wire refl
      (inl refl)
      (later_error e rest (send_loop rest conn wire) (send_loop-Explained rest conn wire))
      (λ h. inr (inl h))

pub send_loop_ends :
    (script : List SendRound) (conn : Connection) (wire : Text)
    → is_ok (send_loop (script ++ send_failed eagain ∷ []) conn wire) ≡ true
unfolding send_loop retry_of
send_loop_ends [] conn wire = refl
send_loop_ends (took zero ∷ rest) conn wire = refl
send_loop_ends (took (suc n) ∷ rest) conn wire = ground (
  arith,
  send_loop_ends rest (out_buffer_remove conn (suc n)) (wire ++ take (suc n) conn.outbuffer),
)
send_loop_ends (send_failed e ∷ rest) conn wire = ground (arith, send_loop_ends rest conn wire)

-- What is left of the script holds no error that the script did not hold.
pub send_loop-HasError :
    (script : List SendRound) (conn : Connection) (wire : Text)
    → OnOk (λ r. HasError r.3 → HasError script) (send_loop script conn wire)
unfolding send_loop
send_loop-HasError [] conn wire = tt
send_loop-HasError (took zero ∷ rest) conn wire = λ h. h
send_loop-HasError (took (suc n) ∷ rest) conn wire =
    elim (Bool-cases (is_empty (drop (suc n) conn.outbuffer))) [
      | inl all ↦ rw (all, send_loop) (λ h. h)
      | inr left ↦
          rw (left, send_loop)
            (send_loop-HasError rest (out_buffer_remove conn (suc n))
              (wire ++ take (suc n) conn.outbuffer))
    ]
send_loop-HasError (send_failed e ∷ rest) conn wire =
    on_retry (λ r. HasError r.3 → HasError (send_failed e ∷ rest)) (retry_of e) e rest conn wire
      refl (λ h. inr h) (weaken (send_loop rest conn wire) (send_loop-HasError rest conn wire))
      (λ give_up h. inr h)
  where
    weaken :
        (m : Result (Ending × Connection × Text × List SendRound))
        → OnOk (λ r. HasError r.3 → HasError rest) m
        → OnOk (λ r. HasError r.3 → HasError (send_failed e ∷ rest)) m
    weaken (ok r) h = λ x. inr (h x)
    weaken (fault f) h = tt

-- How often ::send reports in a script that the socket is full.
unfoldable pub pauses : List SendRound → ℕ
pauses [] = 0
pauses (took n ∷ rest) = pauses rest
pauses (send_failed e ∷ rest) = let n = pauses rest in if e == eagain then suc n else n

abbrev Paused : List SendRound → Ending × Connection × Text × List SendRound → Type 0
Paused script r = pauses script ≤ suc (pauses r.3)

not_again : (e : ℕ) → retry_of e ≡ again → (e == eagain) ≡ false
unfolding retry_of
not_again e h = ground arith

-- The loop ends where the socket is reported full, which it needs once at most.
pub send_loop-Goes :
    (script : List SendRound) (conn : Connection) (wire : Text)
    → 0 < pauses script
    → Goes (Paused script) (send_loop script conn wire)
unfolding send_loop pauses
send_loop-Goes [] conn wire h = absurd (omega arith)
send_loop-Goes (took zero ∷ rest) conn wire h = (_, refl, omega arith)
send_loop-Goes (took (suc n) ∷ rest) conn wire h =
    elim (Bool-cases (is_empty (drop (suc n) conn.outbuffer))) [
      | inl all ↦ rw (all, send_loop) (_, refl, omega arith)
      | inr left ↦
          rw (left, send_loop)
            (send_loop-Goes rest (out_buffer_remove conn (suc n))
              (wire ++ take (suc n) conn.outbuffer) h)
    ]
send_loop-Goes (send_failed e ∷ rest) conn wire h =
    failed_goes (retry_of e) refl (send_loop-Goes rest conn wire)
  where
    failed_goes :
        (y : Retry)
        → retry_of e ≡ y
        → (0 < pauses rest → Goes (Paused rest) (send_loop rest conn wire))
        → Goes (Paused (send_failed e ∷ rest)) (send_loop (send_failed e ∷ rest) conn wire)
    failed_goes stop r later = rw (r, send_loop) (_, refl, ground arith)
    failed_goes give_up r later = rw (r, send_loop) (_, refl, ground arith)
    failed_goes again r later =
        let other = not_again e r in
        let (a, run, p) = later (ground (arith, other, h)) in
        rw (r, send_loop) (a, run, ground (arith, other, p))
