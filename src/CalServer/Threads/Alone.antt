-- ===== src/CalServer/Threads/Alone.antt =====
-- The threads of the calculator server, beside a run in which only one of them gets anything.
use linux_advance.Base.{
  ℕ, ◌≡◌, ◌≢◌, refl, sym, ap, ◌∙◌, true, false, Option, none, some, List, [], ◌∷◌, length, arith,
  get_elem?, set, get_elem?-snoc, get_elem?-lt, length-append, length-set, get_elem?-set_self,
  get_elem?-set_ne, ◌==◌, if◌then◌else◌, ◌<◌, Bool-cases, ==-refl, subst, inl, inr,
}
use linux_advance.Base.Monad.{Result, ok, fault, Goes, Goes-bind, is_ok, ok-bind, bind-ok, ◌>>=◌}
use linux_advance.Protocol.Messages.{Request}
use linux_advance.Protocol.Json.{Json}
use linux_advance.Base.Text.{Text}
use linux_advance.CalServer.Threads.{
  Thread, Happening, accepts, receives, accept_round, new_thread, turn, turn_of, happen, run,
}

-- The same clients are accepted, and only thread `k` gets what ::recv gave it.
unfoldable pub only : ℕ → List Happening → List Happening
only k [] = []
only k (accepts sockfd ∷ hs) = accepts sockfd ∷ only k hs
only k (receives i r ∷ hs) = let rest = only k hs in if i == k then receives i r ∷ rest else rest

-- As many threads, and the same thread `k`.
record Agree (k : ℕ) (v w : List Thread) : Type 0 where
  many : length v ≡ length w
  same : get_elem? v k ≡ get_elem? w k

accept_round-Agree :
    (k : ℕ) (sockfd : Option ℕ) (v w : List Thread)
    → Agree k v w
    → Agree k (accept_round sockfd v) (accept_round sockfd w)
unfolding accept_round
accept_round-Agree k sockfd v w a = record {
  many = omega (
    arith,
    length-append v (new_thread sockfd ∷ []),
    length-append w (new_thread sockfd ∷ []),
    a.many,
  );
  same = get_elem?-snoc v w (new_thread sockfd) k a.many a.same;
}

sym-Agree : (k : ℕ) (v w : List Thread) → Agree k v w → Agree k w v
sym-Agree k v w a = record { many = sym a.many; same = sym a.same }

set-Agree :
    (k : ℕ) (t : Thread) (v w : List Thread)
    → Agree k v w
    → k < length v
    → Agree k (set v k t) (set w k t)
set-Agree k t v w a h = record {
  many = length-set v k t ∙ (a.many ∙ sym (length-set w k t));
  same = get_elem?-set_self v k t h ∙ sym (get_elem?-set_self w k t (subst (λ n. k < n) a.many h));
}

abbrev Ends : {A : Type 0} → Result A → Type 0
Ends m = Goes {0, 0} (λ a. Unit) m

module _ (j : Json) (garbage : Request) where
  -- The turn of another thread.
  turn_other :
      (k i : ℕ) (r : Option Text) (o : Option Thread) (v w w' : List Thread)
      → i ≢ k
      → Agree k v w
      → turn j garbage o i r w ≡ ok w'
      → Agree k v w'
  unfolding turn
  turn_other k i r none v w w' ne a e = subst (λ x. Agree k v x) (cc) a
  turn_other k i r (some t) v w w' ne a e =
      let (t', _, same) =
        ok-bind (turn_of j garbage t.closed t.sockfd r t) (λ t'. set w i t') w' e in
      subst (λ x. Agree k v x) (sym same)
        (record {
          many = a.many ∙ sym (length-set w i t');
          same = a.same ∙ sym (get_elem?-set_ne w i k t' ne);
        })

  -- The turn of the thread itself.
  turn_own :
      (k : ℕ) (r : Option Text) (o : Option Thread) (v w w' : List Thread)
      → get_elem? w k ≡ o
      → Agree k v w
      → turn j garbage o k r w ≡ ok w'
      → Goes (λ v'. Agree k v' w') (turn j garbage o k r v)
  unfolding turn
  turn_own k r none v w w' there a e = (v, refl, subst (λ x. Agree k v x) (cc) a)
  turn_own k r (some t) v w w' there a e =
      let (t', run, same) =
        ok-bind (turn_of j garbage t.closed t.sockfd r t) (λ t'. set w k t') w' e in
      (
        set v k t',
        ap (λ m. m >>= λ t'. ok (set v k t')) run,
        subst (λ x. Agree k (set v k t') x) (sym same)
            (set-Agree k t' v w a (get_elem?-lt v k t (a.same ∙ there))),
      )

  turn-Agree :
      (k : ℕ) (r : Option Text) (v w w' : List Thread)
      → Agree k v w
      → happen j garbage (receives k r) w ≡ ok w'
      → Goes (λ v'. Agree k v' w') (happen j garbage (receives k r) v)
  unfolding happen
  turn-Agree k r v w w' a e =
      subst (λ o. Goes (λ v'. Agree k v' w') (turn j garbage o k r v)) (sym a.same)
        (turn_own k r (get_elem? w k) v w w' refl a e)

  pub own_first :
      (i k : ℕ) (r : Option Text) (hs : List Happening)
      → (i == k) ≡ true
      → only k (receives i r ∷ hs) ≡ receives k r ∷ only k hs
  unfolding only
  own_first i k r hs e =
      let same : i ≡ k = ground arith in rw e (ap (λ n. receives n r ∷ only k hs) same)

  pub other_first :
      (i k : ℕ) (r : Option Text) (hs : List Happening)
      → (i == k) ≡ false
      → only k (receives i r ∷ hs) ≡ only k hs
  unfolding only
  other_first i k r hs e = rw e refl

  -- Where the whole run ends, so does the run of one thread, and the thread is the same.
  alone :
      (k : ℕ) (hs : List Happening) (v w w' : List Thread)
      → Agree k v w
      → run j garbage hs w ≡ ok w'
      → Goes (λ v'. Agree k v' w') (run j garbage (only k hs) v)
  unfolding run happen only
  alone k [] v w w' a e = (v, refl, subst (λ x. Agree k v x) (cc) a)
  alone k (accepts sockfd ∷ hs) v w w' a e =
      alone k hs (accept_round sockfd v) (accept_round sockfd w) w'
        (accept_round-Agree k sockfd v w a) e
  alone k (receives i r ∷ hs) v w w' a e =
      let (w₁, first, later) =
        bind-ok (happen j garbage (receives i r) w) (run j garbage hs) w' e in
      elim (Bool-cases (i == k)) [
        | inl own ↦
            let same : i ≡ k = ground arith in
            subst (λ l. Goes (λ v'. Agree k v' w') (run j garbage l v))
              (sym (own_first i k r hs own))
              (Goes-bind (λ v₁. Agree k v₁ w₁) (λ v'. Agree k v' w')
                (happen j garbage (receives k r) v) (run j garbage (only k hs))
                (turn-Agree k r v w w₁ a
                  (subst (λ n. happen j garbage (receives n r) w ≡ ok w₁) same first))
                (λ v₁ a₁. alone k hs v₁ w₁ w' a₁ later))
        | inr other ↦
            subst (λ l. Goes (λ v'. Agree k v' w') (run j garbage l v))
              (sym (other_first i k r hs other))
              (alone k hs v w₁ w' (turn_other k i r (get_elem? w i) v w w₁ (ground arith) a first)
                later)
      ]

  -- A thread that runs to the end when it is alone, from a state where it is the same.
  abbrev Ready : List Happening → List Thread → ℕ → Type 0
  Ready hs w k = (v : List Thread) × Agree k v w × Ends (run j garbage (only k hs) v)

  whole :
      (hs : List Happening) (w : List Thread) → ((k : ℕ) → Ready hs w k) → Ends (run j garbage hs w)
  unfolding run happen only
  whole [] w ready = (w, refl, tt)
  whole (accepts sockfd ∷ hs) w ready = whole hs (accept_round sockfd w) (λ k.
      let (v, a, g) = ready k in (accept_round sockfd v, accept_round-Agree k sockfd v w a, g))
  whole (receives i r ∷ hs) w ready =
      let (v, a, (v', e, u)) = ready i in
      let (v₁, first, later) =
        bind-ok (happen j garbage (receives i r) v) (run j garbage (only i hs)) v'
          (subst (λ l. run j garbage l v ≡ ok v') (own_first i i r hs (==-refl i)) e) in
      let (w₁, run₁, a₁) = turn-Agree i r w v v₁ (sym-Agree i v w a) first in
      Goes-bind (λ w'. w' ≡ w₁) (λ w'. Unit {0}) (happen j garbage (receives i r) w)
        (run j garbage hs) (w₁, run₁, refl)
        (λ w' same.
          subst (λ x. Ends (run j garbage hs x)) (sym same)
            (whole hs w₁ (λ k. elim (Bool-cases (i == k)) [
              | inl own ↦
                  subst (λ n. Ready hs w₁ n) (ground arith)
                    (v₁, sym-Agree i w₁ v₁ a₁, (v', later, tt))
              | inr other ↦
                  let (x, b, g) = ready k in
                  (
                    x,
                    turn_other k i r (get_elem? w i) x w w₁ (ground arith) b run₁,
                    subst (λ l. Ends (run j garbage l x)) (other_first i k r hs other) g,
                  )
            ])))

  is_ok-Goes : {A : Type 0} (m : Result A) → is_ok m ≡ true → Ends m
  is_ok-Goes (ok a) e = (a, refl, tt)
  is_ok-Goes (fault f) e = absurd (cc)

  -- Where no thread runs into a fault when it is the only one that gets what ::recv gave it, the server
  -- runs through every interleaving of these rounds, and each thread then has received, sent and closed
  -- what it has when it is the only one.
  pub run-alone :
      (hs : List Happening) (threads : List Thread)
      → ((k : ℕ) → is_ok (run j garbage (only k hs) threads) ≡ true)
      → (threads' : List Thread) × (run j garbage hs threads ≡ ok threads')
        × ((k : ℕ)
            → (own : List Thread) × (run j garbage (only k hs) threads ≡ ok own)
              × (get_elem? own k ≡ get_elem? threads' k))
  run-alone hs threads fine =
      let there : (k : ℕ) → Agree k threads threads = λ k. record { many = refl; same = refl } in
      let (threads', e, u) = whole hs threads (λ k. (threads, there k, is_ok-Goes _ (fine k))) in
      (
        threads',
        e,
        λ k.
            let (own, run_own, a) = alone k hs threads threads threads' (there k) e in
            (own, run_own, a.same),
      )
