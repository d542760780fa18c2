-- ===== src/Multiplex/Select/Held.antt =====
-- What becomes of the descriptors that SelectServer.hpp accepts.
use linux_advance.Base.{
  leb, replicate, ℕ, zero, suc, ◌+◌, ◌≡◌, refl, ap, ◌∙◌, Bool, true, Option, none, some, List, [],
  ◌∷◌, arith, ◌==◌, get_elem?, set, Bool-cases, Option-cases, inl, inr,
}
use linux_advance.Base.Monad.{ok, OnOk, OnOk-bind, OnOk-at}
use linux_advance.Multiplex.Echo.{Kernel, Received, bytes, at_end, failed, close}
use linux_advance.Multiplex.Slots.{first_free}
use linux_advance.Multiplex.Held.{
  one_if, held, held-set, held-replicate, closings, arrivals, IsEmptyAt, bump-IsEmptyAt,
  first_free-IsEmptyAt,
}
use linux_advance.Multiplex.Select.{
  SelectServer, capacity, is_free, free_place, put_client, place_client, accept_with, accept_client,
  serve, service_with, service_io, at_place, handle_place, handler_read, Selected, ready, timed_out,
  failed_select, loop_round, loop, new_server, after_select, left_in, fd_setsize, watch_set, max_fd,
}

abbrev pub same : Option ℕ → Option ℕ
same p = p

-- How often `d` stands in the table, has been closed, or is still to be accepted.
abbrev pub tally : ℕ → SelectServer → ℕ
tally d s = held same d s.fd_array + closings d s.calls + arrivals d s.accepts

is_free-none : (p : Option ℕ) → is_free p ≡ true → p ≡ none
is_free-none none h = refl
is_free-none (some fd) h = cc

free_place-IsEmptyAt : (xs : List (Option ℕ)) (i : ℕ) → free_place xs ≡ some i → IsEmptyAt same xs i
free_place-IsEmptyAt [] i h = absurd (cc)
free_place-IsEmptyAt (y ∷ ys) i h =
    bump-IsEmptyAt same is_free is_free-none y ys (first_free is_free ys) i h
      (λ k e. first_free-IsEmptyAt same is_free is_free-none ys k e)

module _ (d : ℕ) where
  leave-tally :
      (i fd : ℕ) (s : SelectServer) (x : Option ℕ)
      → get_elem? s.fd_array i ≡ some x
      → x ≡ some fd
      → tally d (record s { fd_array = set s.fd_array i none; calls = close fd ∷ s.calls })
        ≡ tally d s
  unfolding closings
  leave-tally i fd s x there is =
      let change = held-set same d s.fd_array i x none there in
      let moved : held same d (set s.fd_array i none) + one_if d fd ≡ held same d s.fd_array + 0 =
        rw is at change in
      omega arith

  serve-tally :
      (i fd : ℕ) (r : Received) (s : SelectServer) (x : Option ℕ)
      → get_elem? s.fd_array i ≡ some x
      → x ≡ some fd
      → tally d (serve i fd r s) ≡ tally d s
  unfolding serve closings
  serve-tally i fd (bytes b) s x there is = omega arith
  serve-tally i fd at_end s x there is = leave-tally i fd s x there is
  serve-tally i fd failed s x there is = leave-tally i fd s x there is

  put_client-tally :
      (fd : ℕ) (o : Option ℕ) (s : SelectServer)
      → free_place s.fd_array ≡ o
      → tally d (put_client fd o s) ≡ one_if d fd + tally d s
  unfolding closings
  put_client-tally fd none s e = omega arith
  put_client-tally fd (some i) s e =
      let (x, there, free) = free_place-IsEmptyAt s.fd_array i e in
      let change = held-set same d s.fd_array i x (some fd) there in
      let moved : held same d (set s.fd_array i (some fd)) + 0
          ≡ held same d s.fd_array + one_if d fd =
        rw free at change in
      omega arith

  abbrev pub Same : ℕ → SelectServer → Type 0
  Same n s = tally d s ≡ n

  accept_with-tally :
      (script : List (Option ℕ)) (s : SelectServer)
      → s.accepts ≡ script
      → OnOk (Same (tally d s)) (accept_with script s)
  unfolding place_client arrivals
  accept_with-tally [] s e = tt
  accept_with-tally (none ∷ rest) s e = tt
  accept_with-tally (some fd ∷ rest) s e =
      let s₁ = record s { kernel = record s.kernel { accepts = rest } } in
      let put = put_client-tally fd (free_place s.fd_array) s₁ refl in
      let came : arrivals d s.accepts ≡ one_if d fd + arrivals d rest = ap (arrivals d) e in
      put ∙ omega arith

  service_with-tally :
      (script : List Received) (i fd : ℕ) (s : SelectServer) (x : Option ℕ)
      → get_elem? s.fd_array i ≡ some x
      → x ≡ some fd
      → OnOk (Same (tally d s)) (service_with script i fd s)
  service_with-tally [] i fd s x there is = tt
  service_with-tally (r ∷ rest) i fd s x there is = serve-tally i fd r _ x there is

  at_place_lem :
      (xs : List (Option ℕ)) (i fd : ℕ) → at_place xs i ≡ some fd → get_elem? xs i ≡ some (some fd)
  at_place_lem xs i fd h = elim (Option-cases (get_elem? xs i)) [
    | inl e ↦ absurd (nothing (rw e at h))
    | inr (x, e) ↦ e ∙ ap some (rw e at h)
  ]
    where
      nothing : at_place [] 0 ≡ some fd → ⊥
      nothing e = cc

  handle_place-tally :
      (is_set : ℕ → Bool) (i : ℕ) (o : Option ℕ) (s : SelectServer)
      → at_place s.fd_array i ≡ o
      → OnOk (Same (tally d s)) (handle_place is_set i o s)
  unfolding handle_place accept_client service_io
  handle_place-tally is_set i none s e = refl
  handle_place-tally is_set i (some fd) s e = elim (Bool-cases (leb fd_setsize fd)) [
    | inl beyond ↦ rw beyond tt
    | inr within ↦ elim (Bool-cases (is_set fd)) [
      | inl set ↦ elim (Bool-cases (fd == s.listensock)) [
        | inl listens ↦ rw (within, set, listens) (accept_with-tally s.accepts s refl)
        | inr other ↦
            rw (within, set, other)
              (service_with-tally s.recvs i fd s (some fd) (at_place_lem s.fd_array i fd e) refl)
      ]
      | inr unset ↦ rw (within, unset) refl
    ]
  ]

  handler_read-tally :
      (is_set : ℕ → Bool) (i n m : ℕ) (s : SelectServer)
      → Same m s
      → OnOk (Same m) (handler_read is_set i n s)
  unfolding handler_read
  handler_read-tally is_set i zero m s h = h
  handler_read-tally is_set i (suc n) m s h =
      let p = at_place s.fd_array i in
      OnOk-bind (Same m) (handle_place is_set i p s) (handler_read is_set (suc i) n) (λ t e.
        handler_read-tally is_set (suc i) n m t (
          OnOk-at (Same (tally d s)) (handle_place is_set i p s) t
            (handle_place-tally is_set i p s refl) e
          ∙ h))

  after_select-tally :
      (e : Selected) (maxfd : Option ℕ) (rfds : List ℕ) (s : SelectServer)
      → OnOk (Same (tally d s)) (after_select e maxfd rfds s)
  unfolding after_select
  after_select-tally (ready is_ready) maxfd rfds s =
      handler_read-tally (left_in maxfd rfds is_ready) 0 capacity (tally d s) s refl
  after_select-tally timed_out maxfd rfds s = refl
  after_select-tally failed_select maxfd rfds s = refl

  loop_round_on : (e : Selected) (s : SelectServer) → OnOk (Same (tally d s)) (loop_round e s)
  unfolding loop_round
  loop_round_on e s =
      OnOk-bind (Same (tally d s)) (watch_set s.fd_array)
        (λ rfds. after_select e (max_fd none s.fd_array) rfds s)
        (λ rfds done. after_select-tally e (max_fd none s.fd_array) rfds s)

  loop_on : (es : List Selected) (n : ℕ) (s : SelectServer) → Same n s → OnOk (Same n) (loop es s)
  unfolding loop
  loop_on [] n s h = h
  loop_on (e ∷ es) n s h = OnOk-bind (Same n) (loop_round e s) (loop es) (λ t ends.
      loop_on es n t (OnOk-at (Same (tally d s)) (loop_round e s) t (loop_round_on e s) ends ∙ h))

new_server-tally :
    (d fd : ℕ) (k : Kernel) → tally d (new_server fd k) ≡ one_if d fd + arrivals d k.accepts
unfolding new_server closings
new_server-tally d fd k =
    let empty = held-replicate same d capacity none refl in
    let put : held same d (set (replicate capacity none) 0 (some fd)) + 0
        ≡ held same d (replicate capacity none) + one_if d fd =
      held-set same d (replicate capacity none) 0 none (some fd) refl in
    omega arith

-- From a new select server with its listening socket, through any rounds of Loop that end without
-- passing a descriptor from FD_SETSIZE on to FD_SET or FD_ISSET, whatever ::select, ::accept and ::recv
-- give: for each descriptor, the number of times that it stands in the table, that it has been closed,
-- and that ::accept is still to give it, added up, is the number of times that ::accept gives it, and
-- one more for the listening socket. So what is accepted is in the table or closed, and what leaves the
-- table is closed once.
pub loop-tally :
    (d fd : ℕ) (k : Kernel) (es : List Selected) (t : SelectServer)
    → loop es (new_server fd k) ≡ ok t
    → tally d t ≡ one_if d fd + arrivals d k.accepts
loop-tally d fd k es t ends =
    OnOk-at (Same d (tally d (new_server fd k))) (loop es (new_server fd k)) t
      (loop_on d es _ (new_server fd k) refl) ends
    ∙ new_server-tally d fd k
