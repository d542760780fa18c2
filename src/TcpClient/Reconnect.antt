-- ===== src/TcpClient/Reconnect.antt =====
-- The attempts to connect again.
use linux_advance.Base.{
  ℕ, zero, suc, ◌+◌, ◌<◌, ◌≤◌, ◌≡◌, refl, ap, ◌∙◌, true, false, List, [], ◌∷◌, if◌then◌else◌, ltb,
  length, take, arith,
}
use linux_advance.Base.Monad.{Result, ok, fault, exited, ◌>>=◌}
use linux_advance.TcpClient.{
  Attempt, no_socket, attempt, Status, connected, connecting, disconnected, closed, Connection,
  attempted, disconnect, connect, reconnect_loop, reconnect, retry_max_times,
}

-- What a run of attempts comes to: CONNECTED at the first that works, CLOSE where none does, and the end of
-- the process where ::socket fails before one works.
abbrev pub outcome : List Attempt → Result Status
outcome [] = ok closed
outcome (no_socket ∷ rest) = fault exited
outcome (attempt fd true ∷ rest) = ok connected
outcome (attempt fd false ∷ rest) = outcome rest

abbrev pub status_of : Result Connection → Result Status
status_of r = r >>= λ c. ok c.status

connect_fails :
    (fd : ℕ) (rest : List Attempt) (c : Connection)
    → c.attempts ≡ attempt fd false ∷ rest
    → (c' : Connection) × (connect c ≡ ok c') × (c'.status ≡ disconnected) × (c'.attempts ≡ rest)
unfolding connect disconnect
connect_fails fd rest c e = (attempted fd false rest c, rw e refl, refl, refl)

reconnect_again :
    (fuel cnt : ℕ) (c c' : Connection)
    → connect c ≡ ok c'
    → c'.status ≡ disconnected
    → reconnect_loop (suc fuel) cnt c ≡ (
        if ltb retry_max_times (suc cnt)
        then ok (record c' { status = closed })
        else reconnect_loop fuel (suc cnt) c')
unfolding reconnect_loop
reconnect_again fuel cnt c c' e h = rw (e, h) refl

-- The loop from its round `cnt` on, with `fuel` rounds left.
reconnect_from :
    (fuel : ℕ) (tries : List Attempt) (cnt : ℕ) (c : Connection)
    → c.attempts ≡ tries
    → 0 < fuel
    → fuel + cnt ≡ suc retry_max_times
    → fuel ≤ length tries
    → status_of (reconnect_loop fuel cnt c) ≡ outcome (take fuel tries)
unfolding reconnect_loop connect
reconnect_from zero tries cnt c e p h l = absurd (omega arith)
reconnect_from (suc fuel) [] cnt c e p h l = absurd (omega arith)
reconnect_from (suc fuel) (no_socket ∷ rest) cnt c e p h l = rw e refl
reconnect_from (suc fuel) (attempt fd true ∷ rest) cnt c e p h l = rw e refl
reconnect_from (suc zero) (attempt fd false ∷ rest) cnt c e p h l =
    let (c', e', disc, left) = connect_fails fd rest c e in
    let last : ltb retry_max_times (suc cnt) ≡ true = ground arith in
    ap status_of (reconnect_again 0 cnt c c' e' disc) ∙ rw last refl
reconnect_from (suc (suc fuel)) (attempt fd false ∷ rest) cnt c e p h l =
    let (c', e', disc, left) = connect_fails fd rest c e in
    let more : ltb retry_max_times (suc cnt) ≡ false = ground arith in
    ap status_of (reconnect_again (suc fuel) cnt c c' e' disc)
    ∙ rw more
        (reconnect_from (suc fuel) rest (suc cnt) c' left (omega arith) (omega arith) (omega arith))

-- While the environment has five attempts to connect or more, ReConnect ends as the first five come to:
-- with CONNECTED at the first whose ::connect works, with the exit of the process at the first whose
-- ::socket fails before that, and with CLOSE where all five have a socket and none works.
pub reconnect_lem :
    (c : Connection)
    → retry_max_times ≤ length c.attempts
    → status_of (reconnect c) ≡ outcome (take retry_max_times c.attempts)
unfolding reconnect
reconnect_lem c h =
    reconnect_from retry_max_times c.attempts 1 (record c { status = connecting }) refl
      (omega arith) refl h
