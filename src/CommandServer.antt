-- ===== src/CommandServer.antt =====
-- TcpServer.hpp of the server that executes commands, and UdpServer.hpp of its version over UDP, both
-- with OnCommand as their callback.
pub mod Threads
use linux_advance.Base.{
  ◌≡◌, refl, ap, sym, ◌∙◌, All-append, Bool, true, false, Option, none, some, List, [], ◌∷◌, ◌++◌,
  if◌then◌else◌, length, leb, is_empty, All, Bool-cases, inl, inr, ◌==◌,
}
use linux_advance.Base.Monad.{Fault, Result, ok, fault, undefined, blocked}
use linux_advance.Base.Text.{Text, c_str}
use linux_advance.EchoServer.{
  End, closes, exits_recv, exits_send, Round, message, quits, read_fails, buff_size,
}
use linux_advance.Command.{
  words, check_command, on_command, ContainsOne, check_command-eq-false_iff,
}

-- The commands that popen was called with, and the texts that were sent.
pub record Trace : Type 0 where
  pub ran : List Text
  pub sent : List Text

module _ (popen : Text → Option (List Text)) where
  -- The call of OnCommand in Service and in Start, with the commands that it runs and its answer.
  unfoldable pub on_message : Text → Trace → Trace
  on_message command t =
      let (answer, executed) = on_command popen command in
      record { ran = t.ran ++ executed; sent = t.sent ++ answer ∷ [] }

  -- Service. The round whose write fails has executed its command, but its answer is not sent.
  unfoldable pub service : List Round → Trace → Result End × Trace
  service [] t = (fault blocked, t)
  service (quits ∷ rounds) t = (ok closes, t)
  service (read_fails ∷ rounds) t = (ok exits_recv, t)
  service (message b wrote ∷ rounds) t =
      let t' = on_message (c_str b) t in
      let rest = service rounds t' in
      if leb buff_size (length b)
      then (fault undefined, t)
      else if wrote
      then rest
      else (ok exits_send, record t' { sent = t.sent })

  -- The loop of Start over UDP, for the datagrams that ::recvfrom gives, or none for an error.
  unfoldable pub start : List (Option Text) → Trace → Fault × Trace
  start [] t = (blocked, t)
  start (none ∷ ds) t = start ds t
  start (some b ∷ ds) t =
      let later = start ds t in
      let rest = start ds (on_message (c_str b) t) in
      if is_empty b then later else if leb buff_size (length b) then (undefined, t) else rest

-- No command that was executed holds one of the words.
abbrev pub IsHarmless : Trace → Type 0
IsHarmless t = All (λ c. ContainsOne words c → ⊥) t.ran

c_str_idem : (s : Text) → c_str (c_str s) ≡ c_str s
unfolding c_str
c_str_idem [] = refl
c_str_idem (x ∷ s) = elim (Bool-cases (x == 0)) [
  | inl e ↦ rw e refl
  | inr e ↦ rw e (rw e (ap (λ t. x ∷ t) (c_str_idem s)))
]

allowed : (c : Text) → check_command c ≡ true → ContainsOne words c → ⊥
allowed c h k =
    let (sound, complete) = check_command-eq-false_iff c in absurd (true_false (sym h ∙ complete k))
  where
    true_false : true ≡ false → ⊥
    true_false e = cc

on_command-harmless :
    (popen : Text → Option (List Text)) (command : Text)
    → c_str command ≡ command
    → All (λ c. ContainsOne words c → ⊥) (on_command popen command).1
unfolding on_command
on_command-harmless popen command whole = elim (Bool-cases (check_command command)) [
  | inl fine ↦ rw (fine, whole) (allowed command fine, tt)
  | inr refused ↦ rw refused tt
]

either_branch :
    {E : Type 0} (b : Bool) (x y : E × Trace)
    → IsHarmless x.1
    → IsHarmless y.1
    → IsHarmless (if b then x else y).1
either_branch true x y hx hy = hx
either_branch false x y hx hy = hy

abbrev pub nothing_ran : Trace
nothing_ran = record { ran = []; sent = [] }

module _ (popen : Text → Option (List Text)) where
  pub on_message-IsHarmless :
      (b : Text) (t : Trace) → IsHarmless t → IsHarmless (on_message popen (c_str b) t)
  unfolding on_message
  on_message-IsHarmless b t h =
      All-append _ t.ran (on_command popen (c_str b)).1 h
        (on_command-harmless popen (c_str b) (c_str_idem b))

  service_from :
      (rounds : List Round) (t : Trace) → IsHarmless t → IsHarmless (service popen rounds t).1
  unfolding service
  service_from [] t h = h
  service_from (quits ∷ rounds) t h = h
  service_from (read_fails ∷ rounds) t h = h
  service_from (message b wrote ∷ rounds) t h =
      let run = on_message-IsHarmless b t h in
      let rest = service_from rounds (on_message popen (c_str b) t) run in
      either_branch (leb buff_size (length b)) _ _ h (either_branch wrote _ _ rest run)

  start_from :
      (ds : List (Option Text)) (t : Trace) → IsHarmless t → IsHarmless (start popen ds t).1
  unfolding start
  start_from [] t h = h
  start_from (none ∷ ds) t h = start_from ds t h
  start_from (some b ∷ ds) t h =
      let later = start_from ds t h in
      let rest = start_from ds (on_message popen (c_str b) t) (on_message-IsHarmless b t h) in
      either_branch (is_empty b) _ _ later (either_branch (leb buff_size (length b)) _ _ h rest)

  -- Whatever the clients send, no command that OnCommand has passed to popen holds one of the words of
  -- CheckCommand, over TCP and over UDP, also where the server ends by an error or in undefined
  -- behaviour.
  pub service-IsHarmless :
      (rounds : List Round) (ds : List (Option Text))
      → IsHarmless (service popen rounds nothing_ran).1 × IsHarmless (start popen ds nothing_ran).1
  service-IsHarmless rounds ds = (service_from rounds nothing_ran tt, start_from ds nothing_ran tt)
