-- ===== src/CommandServer/Threads/Calm.antt =====
-- What a round of a thread changes where no call fails.
use linux_advance.Base.{
  ℕ, ◌≡◌, ◌<◌, refl, subst, Bool, true, false, Option, none, some, List, [], ◌∷◌, ◌++◌, length, leb,
  get_elem?, set, if◌then◌else◌, arith, Bool-cases, inl, inr, ◌==◌, map, get_elem?-set_self,
  get_elem?-set_ne, get_elem?-lt,
}
use linux_advance.Base.Monad.{Goes}
use linux_advance.Base.Text.{Text, c_str}
use linux_advance.Command.{on_command}
use linux_advance.EchoServer.{Round, message, quits, read_fails, buff_size}
use linux_advance.CommandServer.{on_message}
use linux_advance.CommandServer.Threads.{
  Thread, Server, Happening, accepts, rounds, answer_round, service_round,
}

-- A calm round: no call fails, and no read fills the buffer.
abbrev pub IsCalm : Happening → Type 0
IsCalm (accepts true peer created) = Unit
IsCalm (accepts false peer created) = ⊥
IsCalm (rounds i quits) = Unit
IsCalm (rounds i read_fails) = ⊥
IsCalm (rounds i (message b true)) = length b < buff_size
IsCalm (rounds i (message b false)) = ⊥

abbrev pub message_of : Round → List Text → List Text
message_of quits later = []
message_of read_fails later = []
message_of (message b wrote) later = c_str b ∷ later

-- The messages that thread `k` reads, up to the end of its client.
unfoldable pub asked : ℕ → List Happening → List Text
asked k [] = []
asked k (accepts listening peer created ∷ hs) = asked k hs
asked k (rounds i r ∷ hs) = let rest = asked k hs in if i == k then message_of r rest else rest

module _ (popen : Text → Option (List Text)) where
  -- A thread behind a round.
  abbrev pub later_thread : Bool → Round → Thread → Thread
  later_thread true r t = t
  later_thread false quits t = record t { closed = true }
  later_thread false read_fails t = t
  later_thread false (message b wrote) t = record t {
    sent = t.sent ++ (on_command popen (c_str b)).0 ∷ [];
  }

  -- The process goes on, and only thread `i` has changed.
  abbrev pub Changed : ℕ → Thread → Server → Server → Type 0
  Changed i t s s' =
      (s'.exited ≡ none)
      × ((m : ℕ) → get_elem? s'.threads m ≡ (if i == m then some t else get_elem? s.threads m))

  get_elem?-set :
      (ts : List Thread) (i m : ℕ) (t u : Thread)
      → get_elem? ts i ≡ some t
      → get_elem? (set ts i u) m ≡ (if i == m then some u else get_elem? ts m)
  get_elem?-set ts i m t u h = elim (Bool-cases (i == m)) [
    | inl e ↦
        let same : i ≡ m = ground arith in
        rw e (
          subst (λ n. get_elem? (set ts i u) n ≡ some u) same
            (get_elem?-set_self ts i u (get_elem?-lt ts i t h)))
    | inr e ↦ rw e (get_elem?-set_ne ts i m u (ground arith))
  ]

  unchanged :
      (ts : List Thread) (i m : ℕ) (t : Thread)
      → get_elem? ts i ≡ some t
      → get_elem? ts m ≡ (if i == m then some t else get_elem? ts m)
  unchanged ts i m t h = elim (Bool-cases (i == m)) [
    | inl e ↦ let same : i ≡ m = ground arith in rw e (subst (λ n. get_elem? ts n ≡ some t) same h)
    | inr e ↦ rw e refl
  ]

  pub service_round-Goes :
      (closed : Bool) (i : ℕ) (t : Thread) (r : Round) (s : Server)
      → get_elem? s.threads i ≡ some t
      → s.exited ≡ none
      → IsCalm (rounds i r)
      → Goes (Changed i (later_thread closed r t) s) (service_round popen closed i t r s)
  unfolding service_round answer_round on_message
  service_round-Goes true i t r s there alive c =
      (s, refl, (alive, λ m. unchanged s.threads i m t there))
  service_round-Goes false i t quits s there alive c =
      (_, refl, (alive, λ m. get_elem?-set s.threads i m t (record t { closed = true }) there))
  service_round-Goes false i t read_fails s there alive c = absurd c
  service_round-Goes false i t (message b false) s there alive c = absurd c
  service_round-Goes false i t (message b true) s there alive c =
      let short : leb buff_size (length b) ≡ false = ground arith in
      rw short (
        _,
        refl,
        (alive, λ m. get_elem?-set s.threads i m t (later_thread false (message b true) t) there),
      )

  -- What thread `k` has still to send.
  abbrev pub due : Bool → ℕ → List Happening → List Text
  due true k hs = []
  due false k hs = map (λ c. (on_command popen c).0) (asked k hs)
