-- ===== src/Multiplex/Epoll/Interest.antt =====
-- The interest list of EpollServer.hpp.
use linux_advance.Base.{
  ℕ, ◌≡◌, refl, Bool, true, false, Option, none, some, List, [], ◌∷◌, arith, ◌==◌, if◌then◌else◌,
  Bool-cases, inl, inr, ==-refl,
}
use linux_advance.Base.Monad.{ok, OnOk, OnOk-bind, OnOk-at}
use linux_advance.Multiplex.Echo.{
  Received, bytes, at_end, failed, Call, opened, ctl_add, ctl_del, close, sent, Kernel,
}
use linux_advance.Multiplex.Epoll.{
  EpollServer, new_server, accept_with, accept_client, serve, service_with, service_io,
  handle_event, handler_read, Waited, ready, timed_out, failed_wait, loop_round,
}

-- What a log of calls, the newest first, leaves: whether a descriptor is on the interest list, as the
-- calls of epoll_ctl leave it, and whether it is open.
unfoldable pub is_watched : (List Call → Bool) → ℕ → List Call → Bool
is_watched works fd [] = false
is_watched works fd (opened k ∷ cs) = is_watched works fd cs
is_watched works fd (ctl_add k ∷ cs) =
    let rest = is_watched works fd cs in
    if works (ctl_add k ∷ cs) then (if k == fd then true else rest) else rest
is_watched works fd (ctl_del k ∷ cs) =
    let rest = is_watched works fd cs in
    if works (ctl_del k ∷ cs) then (if k == fd then false else rest) else rest
is_watched works fd (close k ∷ cs) = is_watched works fd cs
is_watched works fd (sent k t ∷ cs) = is_watched works fd cs

unfoldable pub is_open : ℕ → List Call → Bool
is_open fd [] = false
is_open fd (opened k ∷ cs) = if k == fd then true else is_open fd cs
is_open fd (ctl_add k ∷ cs) = is_open fd cs
is_open fd (ctl_del k ∷ cs) = is_open fd cs
is_open fd (close k ∷ cs) = if k == fd then false else is_open fd cs
is_open fd (sent k t ∷ cs) = is_open fd cs

-- `works` says whether an epoll_ctl works, given the calls up to it.
pub record IsServing (works : List Call → Bool) (s : EpollServer) : Type 0 where
  pub listens : is_watched works s.listensock s.calls ≡ true
  pub same : (fd : ℕ) → is_watched works fd s.calls ≡ is_open fd s.calls

module _ (works : List Call → Bool) (all : (cs : List Call) → works cs ≡ true) where
  pub new_server-IsServing : (fd : ℕ) (k : Kernel) → IsServing works (new_server fd k)
  unfolding new_server is_watched is_open
  new_server-IsServing fd k = record {
    listens = rw (all, ==-refl fd) refl;
    same = λ i. rw all refl;
  }

  accept_with-IsServing :
      (script : List (Option ℕ)) (s : EpollServer)
      → IsServing works s
      → OnOk (IsServing works) (accept_with script s)
  unfolding is_watched is_open
  accept_with-IsServing [] s h = tt
  accept_with-IsServing (none ∷ rest) s h = tt
  accept_with-IsServing (some fd ∷ rest) s h = record {
    listens = ground (arith, all (ctl_add fd ∷ (opened fd ∷ s.calls)), h.listens);
    same = λ i. ground (arith, all (ctl_add fd ∷ (opened fd ∷ s.calls)), h.same i);
  }

  serve-IsServing :
      (fd : ℕ) (r : Received) (s : EpollServer)
      → (fd == s.listensock) ≡ false
      → IsServing works s
      → IsServing works (serve fd r s)
  unfolding serve is_watched is_open
  serve-IsServing fd (bytes b) s other h = record { listens = h.listens; same = h.same }
  serve-IsServing fd at_end s other h = record {
    listens = ground (arith, all (ctl_del fd ∷ s.calls), other, h.listens);
    same = λ i. ground (arith, all (ctl_del fd ∷ s.calls), h.same i);
  }
  serve-IsServing fd failed s other h = record {
    listens = ground (arith, all (ctl_del fd ∷ s.calls), other, h.listens);
    same = λ i. ground (arith, all (ctl_del fd ∷ s.calls), h.same i);
  }

  service_with-IsServing :
      (script : List Received) (fd : ℕ) (s : EpollServer)
      → (fd == s.listensock) ≡ false
      → IsServing works s
      → OnOk (IsServing works) (service_with script fd s)
  service_with-IsServing [] fd s other h = tt
  service_with-IsServing (r ∷ rest) fd s other h =
      serve-IsServing fd r _ other (record { listens = h.listens; same = h.same })

  handle_event-IsServing :
      (fd : ℕ) (readable : Bool) (s : EpollServer)
      → IsServing works s
      → OnOk (IsServing works) (handle_event fd readable s)
  unfolding handle_event accept_client service_io
  handle_event-IsServing fd false s h = h
  handle_event-IsServing fd true s h = elim (Bool-cases (fd == s.listensock)) [
    | inl listens ↦ rw listens (accept_with-IsServing s.accepts s h)
    | inr other ↦ rw other (service_with-IsServing s.recvs fd s other h)
  ]

  handler_read-IsServing :
      (evs : List (ℕ × Bool)) (s : EpollServer)
      → IsServing works s
      → OnOk (IsServing works) (handler_read evs s)
  unfolding handler_read
  handler_read-IsServing [] s h = h
  handler_read-IsServing ((fd, readable) ∷ rest) s h =
      OnOk-bind (IsServing works) (handle_event fd readable s) (handler_read rest) (λ t e.
        handler_read-IsServing rest t
          (OnOk-at (IsServing works) _ t (handle_event-IsServing fd readable s h) e))

  loop_round_on :
      (e : Waited) (s : EpollServer) → IsServing works s → OnOk (IsServing works) (loop_round e s)
  unfolding loop_round
  loop_round_on (ready evs) s h = handler_read-IsServing evs s h
  loop_round_on timed_out s h = h
  loop_round_on failed_wait s h = h

  -- Where every epoll_ctl works, and whatever ::epoll_wait, ::accept and ::recv give: a round of Loop
  -- of the epoll server that ends leaves the listening socket watched, and the watched descriptors are
  -- those that ::accept or the constructor opened and nothing has closed since, if this held before.
  pub loop_round-IsServing :
      (e : Waited) (s t : EpollServer)
      → IsServing works s
      → loop_round e s ≡ ok t
      → IsServing works t
  loop_round-IsServing e s t h ends =
      OnOk-at (IsServing works) (loop_round e s) t (loop_round_on e s h) ends
