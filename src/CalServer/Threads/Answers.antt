-- ===== src/CalServer/Threads/Answers.antt =====
-- The threads of the calculator server, beside AddService for each client on its own.
use linux_advance.Base.{
  ℕ, suc, ◌≡◌, refl, sym, ap, ◌∙◌, true, false, Option, none, some, List, [], ◌∷◌, ◌++◌, get_elem?,
  set, get_elem?-lt, get_elem?-append, get_elem?-set_self, ◌==◌, if◌then◌else◌, subst, inl, inr,
  Bool-cases, length,
}
use linux_advance.Base.Monad.{ok, is_ok, bind-ok, ◌>>=◌}
use linux_advance.Base.Text.{Text, c_str}
use linux_advance.Protocol.Messages.{Request}
use linux_advance.Protocol.Json.{Json}
use linux_advance.CalServer.{add_service, serve_packages}
use linux_advance.CalServer.Threads.{
  Thread, Happening, accepts, receives, accept_round, new_thread, receive, turn, turn_of, happen,
  run,
}
use linux_advance.CalServer.Threads.Alone.{only, own_first, other_first, run-alone}

-- What ::recv gives to thread `k`, in order.
unfoldable pub script : ℕ → List Happening → List (Option Text)
script k [] = []
script k (accepts sockfd ∷ hs) = script k hs
script k (receives i r ∷ hs) = let rest = script k hs in if i == k then r ∷ rest else rest

-- A thread that serves the client `fd`.
abbrev pub serving : ℕ → Text → List Text → Thread
serving fd b sent = record { sockfd = some fd; recvmessage = b; sent = sent; closed = false }

-- The thread `k` of these has closed its descriptor, and sent this.
HasClosed : ℕ → List Text → List Thread → Type 0
HasClosed k out threads =
    (t : Thread) × (get_elem? threads k ≡ some t) × (t.closed ≡ true) × (t.sent ≡ out)

module _ (j : Json) (garbage : Request) where
  turn_closed :
      (k : ℕ) (r : Option Text) (v : List Thread) (t : Thread)
      → get_elem? v k ≡ some t
      → t.closed ≡ true
      → happen j garbage (receives k r) v ≡ ok (set v k t)
  unfolding happen turn turn_of
  turn_closed k r v t e h = rw (e, h) refl

  run_first :
      (h : Happening) (hs : List Happening) (v v₁ : List Thread)
      → happen j garbage h v ≡ ok v₁
      → run j garbage (h ∷ hs) v ≡ run j garbage hs v₁
  unfolding run
  run_first h hs v v₁ e = rw e refl

  -- What it has sent stays behind its end.
  run-closed :
      (k : ℕ) (out : List Text) (hs : List Happening) (v v' : List Thread)
      → HasClosed k out v
      → run j garbage (only k hs) v ≡ ok v'
      → HasClosed k out v'
  unfolding run happen accept_round only HasClosed
  run-closed k out [] v v' c e = subst (λ x. HasClosed k out x) (cc) c
  run-closed k out (accepts sockfd ∷ hs) v v' (t, there, h, sent) e =
      run-closed k out hs (accept_round sockfd v) v'
        (t, get_elem?-append v (new_thread sockfd ∷ []) k t there, h, sent) e
  run-closed k out (receives i r ∷ hs) v v' (t, there, h, sent) e = elim (Bool-cases (i == k)) [
    | inl own ↦
        run-closed k out hs (set v k t) v'
          (t, get_elem?-set_self v k t (get_elem?-lt v k t there), h, sent)
          (sym (run_first (receives k r) (only k hs) v (set v k t) (turn_closed k r v t there h))
            ∙ subst (λ l. run j garbage l v ≡ ok v') (own_first j garbage i k r hs own) e)
    | inr other ↦
        run-closed k out hs v v' (t, there, h, sent)
          (subst (λ l. run j garbage l v ≡ ok v') (other_first j garbage i k r hs other) e)
  ]

  turn_serving :
      (k fd : ℕ) (r : Option Text) (b : Text) (sent : List Text) (v : List Thread) (t : Thread)
      → get_elem? v k ≡ some (serving fd b sent)
      → receive j garbage r (serving fd b sent) ≡ ok t
      → happen j garbage (receives k r) v ≡ ok (set v k t)
  unfolding happen turn turn_of
  turn_serving k fd r b sent v t e h = rw (e, h) refl

  script_own :
      (i k : ℕ) (r : Option Text) (hs : List Happening)
      → (i == k) ≡ true
      → script k (receives i r ∷ hs) ≡ r ∷ script k hs
  unfolding script
  script_own i k r hs e = rw e refl

  script_other :
      (i k : ℕ) (r : Option Text) (hs : List Happening)
      → (i == k) ≡ false
      → script k (receives i r ∷ hs) ≡ script k hs
  unfolding script
  script_other i k r hs e = rw e refl

  -- A run of one thread that ends has sent what AddService sends.
  abbrev Follows : ℕ → ℕ → List Text → List Happening → Type 0
  Follows k fd out hs =
      (b : Text) (sent : List Text) (v v' : List Thread)
      → get_elem? v k ≡ some (serving fd b sent)
      → add_service j garbage (script k hs) b sent ≡ ok out
      → run j garbage (only k hs) v ≡ ok v'
      → HasClosed k out v'

  own-Follows :
      (k fd : ℕ) (out : List Text) (r : Option Text) (hs : List Happening)
      → Follows k fd out hs
      → (b : Text) (sent : List Text) (v v' : List Thread)
      → get_elem? v k ≡ some (serving fd b sent)
      → add_service j garbage (r ∷ script k hs) b sent ≡ ok out
      → run j garbage (receives k r ∷ only k hs) v ≡ ok v'
      → HasClosed k out v'
  unfolding add_service receive HasClosed
  own-Follows k fd out none hs ih b sent v v' there e h =
      let t : Thread = record (serving fd b sent) { closed = true } in
      run-closed k out hs (set v k t) v'
        (t, get_elem?-set_self v k t (get_elem?-lt v k _ there), refl, cc)
        (sym (
            run_first (receives k none) (only k hs) v (set v k t)
              (turn_serving k fd none b sent v t there refl))
          ∙ h)
  own-Follows k fd out (some c) hs ih b sent v v' there e h =
      let (served, parsed, later) =
        bind-ok (serve_packages j (suc (length (b ++ c_str c))) garbage (b ++ c_str c) sent)
          (λ r. add_service j garbage (script k hs) r.0 r.1) out e in
      let t = serving fd served.0 served.1 in
      ih served.0 served.1 (set v k t) v' (get_elem?-set_self v k t (get_elem?-lt v k _ there))
        later
        (sym (
            run_first (receives k (some c)) (only k hs) v (set v k t) (
              turn_serving k fd (some c) b sent v t there
                (ap (λ m. m >>= λ r. ok (serving fd r.0 r.1)) parsed)))
          ∙ h)

  run-Follows : (k fd : ℕ) (out : List Text) (hs : List Happening) → Follows k fd out hs
  unfolding run happen accept_round only script add_service
  run-Follows k fd out [] b sent v v' there e h = absurd (cc)
  run-Follows k fd out (accepts sockfd ∷ hs) b sent v v' there e h =
      run-Follows k fd out hs b sent (accept_round sockfd v) v'
        (get_elem?-append v (new_thread sockfd ∷ []) k _ there) e h
  run-Follows k fd out (receives i r ∷ hs) b sent v v' there e h = elim (Bool-cases (i == k)) [
    | inl own ↦
        own-Follows k fd out r hs (run-Follows k fd out hs) b sent v v' there
          (subst (λ l. add_service j garbage l b sent ≡ ok out) (script_own i k r hs own) e)
          (subst (λ l. run j garbage l v ≡ ok v') (own_first j garbage i k r hs own) h)
    | inr other ↦
        run-Follows k fd out hs b sent v v' there
          (subst (λ l. add_service j garbage l b sent ≡ ok out) (script_other i k r hs other) e)
          (subst (λ l. run j garbage l v ≡ ok v') (other_first j garbage i k r hs other) h)
  ]

  -- Where no thread runs into a fault when it is the only one that gets what ::recv gave it, and thread
  -- `k` serves a client for which AddService, over what ::recv gives to this thread, ends: the server
  -- runs through the interleaving of all threads and of the accepted clients, and then thread `k` has
  -- closed its descriptor and has sent exactly what AddService sends, whatever the others have
  -- received.
  pub run-add_service :
      (hs : List Happening) (threads : List Thread) (k fd : ℕ) (b : Text) (sent out : List Text)
      → ((i : ℕ) → is_ok (run j garbage (only i hs) threads) ≡ true)
      → get_elem? threads k ≡ some (serving fd b sent)
      → add_service j garbage (script k hs) b sent ≡ ok out
      → (threads' : List Thread) × (t : Thread) × (run j garbage hs threads ≡ ok threads')
        × (get_elem? threads' k ≡ some t)
        × (t.closed ≡ true)
        × (t.sent ≡ out)
  unfolding HasClosed
  run-add_service hs threads k fd b sent out fine there e =
      let (threads', all_run, each) = run-alone j garbage hs threads fine in
      let (own, own_run, same) = each k in
      let (t, last, closed, sends) = run-Follows k fd out hs b sent threads own there e own_run in
      (threads', t, all_run, sym same ∙ last, closed, sends)
