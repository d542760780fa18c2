-- ===== src/Reactor/Proofs/Rounds.antt =====
-- The events of the listening socket of the reactor, and the loops over all events.
use linux_advance.Base.{Bool, true, suc, arith, ℕ, ◌≡◌, refl, ◌∙◌, List, [], ◌∷◌, map}
use linux_advance.Base.Monad.{Goes, Goes-bind, Goes-if}
use linux_advance.Base.Map.{lookup}
use linux_advance.Base.Text.{Text}
use linux_advance.Protocol.Messages.{Request}
use linux_advance.Protocol.Json.{Json}
use linux_advance.Reactor.Connection.{Events}
use linux_advance.Reactor.Io.{State, AcceptRound, recver}
use linux_advance.Reactor.Dispatch.{
  readable_now, writable_now, on_read, on_write, dispatch, loop_once, wait_loop,
}
use linux_advance.Reactor.Proofs.Joining.{
  batch, is_in, add_all, accepter-batch, lookup-add_all, wire_of-add_all,
}
use linux_advance.Reactor.Proofs.Stages.{
  Ready, listens, talks, event_of, readers, all_readers, accepting, all_accepting, with_batch,
  known_after, all_known_after, Orderly, AllOrderly, two_each, all_two_each, accepted-Stage,
  there_stays,
}
use linux_advance.Reactor.Proofs.Turns.{After, listener_of, spare, talks-After}

module _ (j : Json) (reply : Text → Text) (garbage : Request) (lfd : ℕ) (Client : ℕ → Type 0)
    (stranger : Client lfd → ⊥) (total : ℕ → Text) where
  abbrev Coming : (ℕ → Bool) → List ℕ → List AcceptRound → ℕ → State → Type 0
  Coming = After j reply garbage lfd Client stranger total

  -- The clients that are waiting at the listening socket join.
  joins-After :
      (new : List ℕ) (known : ℕ → Bool) (fds : List ℕ) (accepts : List AcceptRound) (n : ℕ)
      (s : State)
      → Coming known fds (batch new accepts) (suc n) s
      → Goes
          (Coming (with_batch new known) fds accepts n)
          (on_read j garbage (lookup lfd s.reactor.connections) s)
  unfolding on_read recver
  joins-After new known fds accepts n s a =
      let t : State = record s { reactor = add_all new s.reactor; accepts = accepts } in
      rw (a.listening, accepter-batch j garbage new accepts s a.waiting)
        (
          t,
          refl,
          record {
            runs = a.runs;
            order = a.order;
            listening =
                lookup-add_all new lfd s.reactor
                ∙ there_stays lfd (is_in lfd new) _ (listener_of lfd) a.listening
                ∙ a.listening;
            waiting = refl;
            script = a.script;
            no_error = a.no_error;
            paused = omega (arith, a.paused);
            stages = λ g h.
                accepted-Stage j reply total (known g) (is_in g new) a.runs (suc n) n s t g
                  (a.stages g h) (lookup-add_all new g s.reactor) (wire_of-add_all new g s.reactor)
                  a.script a.no_error (omega (arith, a.paused));
          },
        )

  listens-After :
      (ev : Events) (new : List ℕ) (known : ℕ → Bool) (fds : List ℕ) (accepts : List AcceptRound)
      (n : ℕ) (s : State)
      → readable_now ev ≡ true
      → Coming known fds (batch new accepts) (suc (suc n)) s
      → Goes (Coming (with_batch new known) fds accepts n) (dispatch j garbage lfd ev s)
  unfolding dispatch on_write
  listens-After ev new known fds accepts n s readable a = rw readable (
      Goes-bind (Coming (with_batch new known) fds accepts (suc n))
        (Coming (with_batch new known) fds accepts n) _ _
        (joins-After new known fds accepts (suc n) s a)
        (λ s' a'.
          Goes-if (Coming (with_batch new known) fds accepts n) (writable_now ev) _ _
            (rw a'.listening (
              s',
              refl,
              spare j reply garbage lfd Client stranger total (with_batch new known) fds accepts n
                  s' a',
            ))
            (
              s',
              refl,
              spare j reply garbage lfd Client stranger total (with_batch new known) fds accepts n
                  s' a',
            )))

  loop-After :
      (rs : List Ready) (known : ℕ → Bool) (fds : List ℕ) (accepts : List AcceptRound) (n : ℕ)
      (s : State)
      → Orderly Client rs known
      → Coming known (readers rs fds) (accepting rs accepts) (two_each rs n) s
      → Goes
          (Coming (known_after rs known) fds accepts n)
          (loop_once j garbage (map (event_of lfd) rs) s)
  unfolding loop_once readers accepting known_after Orderly
  loop-After [] known fds accepts n s o a = (s, refl, a)
  loop-After (listens ev new ∷ rs) known fds accepts n s (readable, o) a =
      let known' = with_batch new known in
      Goes-bind (Coming known' (readers rs fds) (accepting rs accepts) (two_each rs n))
        (Coming (known_after rs known') fds accepts n) (dispatch j garbage lfd ev s) _
        (listens-After ev new known (readers rs fds) (accepting rs accepts) (two_each rs n) s
          readable a)
        (λ s'. loop-After rs known' fds accepts n s' o)
  loop-After (talks fd ev ∷ rs) known fds accepts n s (here, e, o) a =
      Goes-bind (Coming known (readers rs fds) (accepting rs accepts) (two_each rs n))
        (Coming (known_after rs known) fds accepts n) (dispatch j garbage fd ev s) _
        (talks-After j reply garbage lfd Client stranger total fd ev known (readers rs fds)
          (accepting rs accepts) (two_each rs n) s here e a)
        (λ s'. loop-After rs known fds accepts n s' o)

  pub wait_loop-After :
      (waits : List (List Ready)) (known : ℕ → Bool) (s : State)
      → AllOrderly Client waits known
      → Coming known (all_readers waits) (all_accepting waits) (all_two_each waits) s
      → Goes
          (Coming (all_known_after waits known) [] [] 0)
          (wait_loop j garbage (map (map (event_of lfd)) waits) s)
  unfolding wait_loop all_readers all_accepting all_known_after AllOrderly
  wait_loop-After [] known s o a = (s, refl, a)
  wait_loop-After (rs ∷ waits) known s (these, o) a =
      Goes-bind
        (Coming (known_after rs known) (all_readers waits) (all_accepting waits)
          (all_two_each waits))
        (Coming (all_known_after waits (known_after rs known)) [] [] 0)
        (loop_once j garbage (map (event_of lfd) rs) s) _
        (loop-After rs known (all_readers waits) (all_accepting waits) (all_two_each waits) s these
          a)
        (λ s'. wait_loop-After waits (known_after rs known) s' o)
