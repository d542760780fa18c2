-- ===== src/CommandServer/Threads/Harmless.antt =====
-- No thread executes a command with one of the words.
use linux_advance.Base.{
  ℕ, Bool, true, false, Option, none, some, List, [], ◌∷◌, length, leb, get_elem?, Bool-cases,
  Option-cases, inl, inr,
}
use linux_advance.Base.Monad.{OnOk, OnOk-bind, OnOk-at}
use linux_advance.Base.Text.{Text}
use linux_advance.EchoServer.{End, Round, message, quits, read_fails, buff_size}
use linux_advance.CommandServer.{IsHarmless, on_message-IsHarmless}
use linux_advance.CommandServer.Threads.{
  Thread, Server, Happening, accepts, rounds, accept_round, answer_round, service_round, at_thread,
  happen, step, run,
}

abbrev pub AllHarmless : Server → Type 0
AllHarmless s = IsHarmless (record { ran = s.ran; sent = [] })

module _ (popen : Text → Option (List Text)) where
  accept_round-AllHarmless :
      (listening : Bool) (peer : Option ℕ) (created : Bool) (s : Server)
      → AllHarmless s
      → AllHarmless (accept_round listening peer created s)
  unfolding accept_round
  accept_round-AllHarmless false peer created s h = h
  accept_round-AllHarmless true none created s h = h
  accept_round-AllHarmless true (some fd) false s h = h
  accept_round-AllHarmless true (some fd) true s h = h

  answer_round-AllHarmless :
      (i : ℕ) (t : Thread) (b : Text) (wrote : Bool) (s : Server)
      → AllHarmless s
      → OnOk AllHarmless (answer_round popen i t b wrote s)
  unfolding answer_round
  answer_round-AllHarmless i t b wrote s h =
      let fine = on_message-IsHarmless popen b (record { ran = s.ran; sent = t.sent }) h in
      elim (Bool-cases (leb buff_size (length b))) [
        | inl full ↦ rw full tt
        | inr short ↦ elim (Bool-cases wrote) [
          | inl w ↦ rw (short, w) fine
          | inr w ↦ rw (short, w) fine
        ]
      ]

  service_round-AllHarmless :
      (closed : Bool) (i : ℕ) (t : Thread) (r : Round) (s : Server)
      → AllHarmless s
      → OnOk AllHarmless (service_round popen closed i t r s)
  unfolding service_round
  service_round-AllHarmless true i t r s h = h
  service_round-AllHarmless false i t quits s h = h
  service_round-AllHarmless false i t read_fails s h = h
  service_round-AllHarmless false i t (message b wrote) s h =
      answer_round-AllHarmless i t b wrote s h

  step-AllHarmless :
      (e : Option End) (x : Happening) (s : Server)
      → AllHarmless s
      → OnOk AllHarmless (step popen e x s)
  unfolding step happen at_thread
  step-AllHarmless (some e) x s h = h
  step-AllHarmless none (accepts listening peer created) s h =
      accept_round-AllHarmless listening peer created s h
  step-AllHarmless none (rounds i r) s h = elim (Option-cases (get_elem? s.threads i)) [
    | inl gone ↦ rw (gone, at_thread) h
    | inr (t, there) ↦ rw (there, at_thread) (service_round-AllHarmless t.closed i t r s h)
  ]

  -- No command that a thread has executed holds one of the words.
  pub run-AllHarmless :
      (hs : List Happening) (s : Server) → AllHarmless s → OnOk AllHarmless (run popen hs s)
  unfolding run
  run-AllHarmless [] s h = h
  run-AllHarmless (x ∷ hs) s h =
      OnOk-bind AllHarmless (step popen s.exited x s) (run popen hs) (λ s' e.
        run-AllHarmless hs s'
          (OnOk-at AllHarmless (step popen s.exited x s) s' (step-AllHarmless s.exited x s h) e))
