-- ===== src/CommandServer/Threads/Answers.antt =====
-- What the threads of the server that executes commands have run and sent.
use linux_advance.Base.{
  ℕ, ◌≡◌, refl, sym, ap, ◌∙◌, subst, Bool, true, false, Option, none, some, List, [], ◌∷◌, ◌++◌,
  length, get_elem?, All, arith, Bool-cases, Option-cases, inl, inr, ◌==◌, map, get_elem?-append,
  append_assoc, append-nil,
}
use linux_advance.Base.Monad.{ok, ◌>>=◌, OnOk-at, Goes, Goes-bind}
use linux_advance.Base.Text.{Text, c_str}
use linux_advance.Command.{on_command}
use linux_advance.EchoServer.{Round, message, quits, read_fails}
use linux_advance.CommandServer.Threads.{
  Thread, Server, Happening, accepts, rounds, accept_round, at_thread, happen, step, run,
  new_thread,
}
use linux_advance.CommandServer.Threads.Calm.{
  IsCalm, asked, later_thread, Changed, service_round-Goes, due,
}
use linux_advance.CommandServer.Threads.Harmless.{AllHarmless, run-AllHarmless}

get_elem?-last : (ts : List Thread) (t : Thread) → get_elem? (ts ++ t ∷ []) (length ts) ≡ some t
get_elem?-last [] t = refl
get_elem?-last (u ∷ ts) t = get_elem?-last ts t

module _ (popen : Text → Option (List Text)) where
  abbrev Sent : ℕ → List Text → Server → Type 0
  Sent k ys s = (s.exited ≡ none) × (t : Thread) × (get_elem? s.threads k ≡ some t) × (t.sent ≡ ys)

  -- With what is due popen from here, a thread has all that it had at first.
  abbrev Keeps : ℕ → List Text → List Happening → Server → Type 0
  Keeps k ys hs s =
      (s.exited ≡ none)
      × (t : Thread) × (get_elem? s.threads k ≡ some t)
      × (t.sent ++ due popen t.closed k hs ≡ ys)

  due-later_thread :
      (closed : Bool) (k : ℕ) (r : Round) (t : Thread) (hs : List Happening)
      → t.closed ≡ closed
      → IsCalm (rounds k r)
      → (later_thread popen closed r t).sent
          ++ due popen (later_thread popen closed r t).closed k hs
        ≡ t.sent ++ due popen closed k (rounds k r ∷ hs)
  unfolding asked
  due-later_thread true k r t hs e c = rw e refl
  due-later_thread false k quits t hs e c = let same : k == k ≡ true = ground arith in rw same refl
  due-later_thread false k read_fails t hs e c = absurd c
  due-later_thread false k (message b wrote) t hs e c =
      let same : k == k ≡ true = ground arith in
      rw (same, e) (append_assoc t.sent ((on_command popen (c_str b)).0 ∷ []) _)

  own_round :
      (k : ℕ) (r : Round) (t : Thread) (hs : List Happening) (s s' : Server)
      → IsCalm (rounds k r)
      → Changed popen k (later_thread popen t.closed r t) s s'
      → Keeps k (t.sent ++ due popen t.closed k (rounds k r ∷ hs)) hs s'
  own_round k r t hs s s' c (alive, each) =
      let same : k == k ≡ true = ground arith in
      (
        alive,
        later_thread popen t.closed r t,
        each k ∙ rw same refl,
        due-later_thread t.closed k r t hs refl c,
      )

  due_other :
      (closed : Bool) (i k : ℕ) (r : Round) (hs : List Happening)
      → i == k ≡ false
      → due popen closed k (rounds i r ∷ hs) ≡ due popen closed k hs
  unfolding asked
  due_other true i k r hs e = refl
  due_other false i k r hs e = rw e refl

  due_accepts :
      (closed : Bool) (k : ℕ) (listening : Bool) (peer : Option ℕ) (created : Bool)
      (hs : List Happening)
      → due popen closed k (accepts listening peer created ∷ hs) ≡ due popen closed k hs
  unfolding asked
  due_accepts true k listening peer created hs = refl
  due_accepts false k listening peer created hs = refl

  calm_accept :
      (listening : Bool) (peer : Option ℕ) (created : Bool) (k : ℕ) (t : Thread) (s : Server)
      → IsCalm (accepts listening peer created)
      → s.exited ≡ none
      → get_elem? s.threads k ≡ some t
      → ((accept_round listening peer created s).exited ≡ none)
        × (get_elem? (accept_round listening peer created s).threads k ≡ some t)
  unfolding accept_round
  calm_accept false peer created k t s c alive there = absurd c
  calm_accept true none created k t s c alive there = (alive, there)
  calm_accept true (some fd) false k t s c alive there = (alive, there)
  calm_accept true (some fd) true k t s c alive there =
      (alive, get_elem?-append s.threads _ k t there)

  other_round :
      (i k : ℕ) (r : Round) (t u : Thread) (hs : List Happening) (s s' : Server)
      → i == k ≡ false
      → get_elem? s.threads k ≡ some t
      → Changed popen i u s s'
      → Keeps k (t.sent ++ due popen t.closed k (rounds i r ∷ hs)) hs s'
  other_round i k r t u hs s s' e there (alive, each) =
      (alive, t, each k ∙ rw e there, ap (λ ys. t.sent ++ ys) (sym (due_other t.closed i k r hs e)))

  calm_round :
      (i k : ℕ) (r : Round) (t : Thread) (hs : List Happening) (s : Server)
      → IsCalm (rounds i r)
      → s.exited ≡ none
      → get_elem? s.threads k ≡ some t
      → Goes
          (Keeps k (t.sent ++ due popen t.closed k (rounds i r ∷ hs)) hs)
          (happen popen (rounds i r) s)
  unfolding happen at_thread
  calm_round i k r t hs s c alive there = elim (Bool-cases (i == k)) [
    | inl own ↦
        let same : i ≡ k = ground arith in
        let mine : get_elem? s.threads i ≡ some t = rw same there in
        let (s', e, p) = service_round-Goes popen t.closed i t r s mine alive c in
        (
          s',
          rw mine e,
          subst (λ n. Keeps n (t.sent ++ due popen t.closed n (rounds i r ∷ hs)) hs s') same
              (own_round i r t hs s s' c p),
        )
    | inr other ↦ elim (Option-cases (get_elem? s.threads i)) [
      | inl gone ↦ (
        s,
        rw gone refl,
        (alive, t, there, ap (λ ys. t.sent ++ ys) (sym (due_other t.closed i k r hs other))),
      )
      | inr (u, his) ↦
          let (s', e, p) = service_round-Goes popen u.closed i u r s his alive c in
          (
            s',
            rw his e,
            other_round i k r t (later_thread popen u.closed r u) hs s s' other there p,
          )
    ]
  ]

  calm_step :
      (x : Happening) (k : ℕ) (t : Thread) (hs : List Happening) (s : Server)
      → IsCalm x
      → s.exited ≡ none
      → get_elem? s.threads k ≡ some t
      → Goes (Keeps k (t.sent ++ due popen t.closed k (x ∷ hs)) hs) (happen popen x s)
  unfolding happen
  calm_step (accepts listening peer created) k t hs s c alive there =
      let (alive', there') = calm_accept listening peer created k t s c alive there in
      (
        _,
        refl,
        (
          alive',
          t,
          there',
          ap (λ ys. t.sent ++ ys) (sym (due_accepts t.closed k listening peer created hs)),
        ),
      )
  calm_step (rounds i r) k t hs s c alive there = calm_round i k r t hs s c alive there

  due_nothing : (closed : Bool) (k : ℕ) → due popen closed k [] ≡ []
  unfolding asked
  due_nothing true k = refl
  due_nothing false k = refl

  nothing_due : (k : ℕ) (t : Thread) → t.sent ≡ t.sent ++ due popen t.closed k []
  nothing_due k t = sym (ap (λ ys. t.sent ++ ys) (due_nothing t.closed k) ∙ append-nil t.sent)

  run-Sent :
      (hs : List Happening) (s : Server) (k : ℕ) (t : Thread)
      → All IsCalm hs
      → s.exited ≡ none
      → get_elem? s.threads k ≡ some t
      → Goes (Sent k (t.sent ++ due popen t.closed k hs)) (run popen hs s)
  unfolding run step
  run-Sent [] s k t c alive there = (s, refl, (alive, t, there, nothing_due k t))
  run-Sent (x ∷ hs) s k t (c, cs) alive there =
      let ys = t.sent ++ due popen t.closed k (x ∷ hs) in
      Goes-bind (Keeps k ys hs) (Sent k ys) (step popen s.exited x s) (run popen hs)
        (subst (λ e. Goes (Keeps k ys hs) (step popen e x s)) (sym alive)
          (calm_step x k t hs s c alive there))
        (λ s' (alive', t', there', e).
          subst (λ zs. Goes (Sent k zs) (run popen hs s')) e (run-Sent hs s' k t' cs alive' there'))

  after_accept :
      (s : Server) (fd : ℕ) (hs : List Happening)
      → s.exited ≡ none
      → All IsCalm hs
      → Goes
          (Sent
            (length s.threads)
            (map (λ c. (on_command popen c).0) (asked (length s.threads) hs)))
          (run popen (accepts true (some fd) true ∷ hs) s)
  unfolding run step happen accept_round
  after_accept s fd hs alive calm =
      let events = accepts true (some fd) true ∷ hs in
      let P =
        Sent (length s.threads) (map (λ c. (on_command popen c).0) (asked (length s.threads) hs)) in
      subst (λ e. Goes P (step popen e (accepts true (some fd) true) s >>= run popen hs))
        (sym alive)
        (run-Sent hs (accept_round true (some fd) true s) (length s.threads) (new_thread fd) calm
          alive (get_elem?-last s.threads (new_thread fd)))

  -- From a server that has not exited and has executed no command with one of the words of
  -- CheckCommand: when a further client is accepted and its thread is made, and then no ::listen,
  -- ::read or ::write fails in any thread and no read fills its buffer, the server runs through any
  -- interleaving of the threads and of further clients, whether their threads are made or not, without
  -- a fault and without exiting, the thread of that client has sent exactly the answers of OnCommand to
  -- what its own reads gave up to the end of its stream, in order, whatever the other clients sent, and
  -- still no command that OnCommand has passed to popen holds one of the words.
  pub run-answers :
      (s : Server) (fd : ℕ) (hs : List Happening)
      → s.exited ≡ none
      → AllHarmless s
      → All IsCalm hs
      → (s' : Server) × (t : Thread) × (run popen (accepts true (some fd) true ∷ hs) s ≡ ok s')
        × (s'.exited ≡ none)
        × (get_elem? s'.threads (length s.threads) ≡ some t)
        × (t.sent ≡ map (λ c. (on_command popen c).0) (asked (length s.threads) hs))
        × AllHarmless s'
  unfolding asked
  run-answers s fd hs alive harmless calm =
      let events = accepts true (some fd) true ∷ hs in
      let (s', e, (alive', t, there, sends)) = after_accept s fd hs alive calm in
      (
        s',
        t,
        e,
        alive',
        there,
        sends,
        OnOk-at AllHarmless (run popen events s) s' (run-AllHarmless popen events s harmless) e,
      )
