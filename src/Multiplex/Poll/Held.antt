-- ===== src/Multiplex/Poll/Held.antt =====
-- What becomes of the descriptors that PollServer.hpp accepts.
use linux_advance.Base.{
  replicate, ℕ, zero, suc, ◌+◌, ◌≡◌, refl, sym, ap, ◌∙◌, Bool, true, false, Option, none, some,
  List, [], ◌∷◌, arith, ◌==◌, get_elem?, set, Bool-cases, Option-cases, inl, inr,
}
use linux_advance.Base.Monad.{ok, OnOk, OnOk-bind, OnOk-at}
use linux_advance.Multiplex.Echo.{Kernel, Received, bytes, at_end, failed, close}
use linux_advance.Multiplex.Slots.{first_free}
use linux_advance.Multiplex.Held.{
  one_if, one_of, held, held-set, held-replicate, closings, arrivals, IsEmptyAt, bump-IsEmptyAt,
  first_free-IsEmptyAt,
}
use linux_advance.Multiplex.Poll.{
  Mask, PollFd, PollServer, capacity, is_none, is_free, free_fd, client_fd, free_place, put_client,
  place_client, accept_with, accept_client, serve, service_with, service_io, at_place, handle_place,
  handler_read, Polled, ready, timed_out, failed_poll, write_revents, loop_round, loop, new_server,
}

abbrev pub place_fd : PollFd → Option ℕ
place_fd p = p.fd

-- How often `d` stands in the table, has been closed, or is still to be accepted.
abbrev pub balance : ℕ → PollServer → ℕ
balance d s = held place_fd d s.fds + closings d s.calls + arrivals d s.accepts

is_free-none : (p : PollFd) → is_free p ≡ true → p.fd ≡ none
is_free-none p h = elim (Option-cases p.fd) [
  | inl e ↦ e
  | inr (fd, e) ↦ absurd (true_false (sym h ∙ ap is_none e))
]
  where
    true_false : true ≡ false → ⊥
    true_false e = cc

free_place-IsEmptyAt : (xs : List PollFd) (i : ℕ) → free_place xs ≡ some i → IsEmptyAt place_fd xs i
free_place-IsEmptyAt [] i h = absurd (cc)
free_place-IsEmptyAt (y ∷ ys) i h =
    bump-IsEmptyAt place_fd is_free is_free-none y ys (first_free is_free ys) i h
      (λ k e. first_free-IsEmptyAt place_fd is_free is_free-none ys k e)

module _ (d : ℕ) where
  held-write_revents :
      (ms : List Mask) (xs : List PollFd)
      → held place_fd d (write_revents ms xs) ≡ held place_fd d xs
  unfolding held write_revents
  held-write_revents [] xs = refl
  held-write_revents (m ∷ ms) [] = refl
  held-write_revents (m ∷ ms) (x ∷ xs) = ap (λ n. one_of d x.fd + n) (held-write_revents ms xs)

  leave-balance :
      (i fd : ℕ) (s : PollServer) (x : PollFd)
      → get_elem? s.fds i ≡ some x
      → x.fd ≡ some fd
      → balance d (record s { fds = set s.fds i free_fd; calls = close fd ∷ s.calls }) ≡ balance d s
  unfolding closings
  leave-balance i fd s x there is =
      let change = held-set place_fd d s.fds i x free_fd there in
      let moved : held place_fd d (set s.fds i free_fd) + one_if d fd ≡ held place_fd d s.fds + 0 =
        rw is at change in
      omega arith

  serve-balance :
      (i fd : ℕ) (r : Received) (s : PollServer) (x : PollFd)
      → get_elem? s.fds i ≡ some x
      → x.fd ≡ some fd
      → balance d (serve i fd r s) ≡ balance d s
  unfolding serve closings
  serve-balance i fd (bytes b) s x there is = omega arith
  serve-balance i fd at_end s x there is = leave-balance i fd s x there is
  serve-balance i fd failed s x there is = leave-balance i fd s x there is

  put_client-balance :
      (fd : ℕ) (o : Option ℕ) (s : PollServer)
      → free_place s.fds ≡ o
      → balance d (put_client fd o s) ≡ one_if d fd + balance d s
  unfolding closings
  put_client-balance fd none s e = omega arith
  put_client-balance fd (some i) s e =
      let (x, there, free) = free_place-IsEmptyAt s.fds i e in
      let change = held-set place_fd d s.fds i x (client_fd fd) there in
      let moved : held place_fd d (set s.fds i (client_fd fd)) + 0
          ≡ held place_fd d s.fds + one_if d fd =
        rw free at change in
      omega arith

  abbrev pub Same : ℕ → PollServer → Type 0
  Same n s = balance d s ≡ n

  accept_with-balance :
      (script : List (Option ℕ)) (s : PollServer)
      → s.accepts ≡ script
      → OnOk (Same (balance d s)) (accept_with script s)
  unfolding place_client arrivals
  accept_with-balance [] s e = tt
  accept_with-balance (none ∷ rest) s e = tt
  accept_with-balance (some fd ∷ rest) s e =
      let s₁ = record s { kernel = record s.kernel { accepts = rest } } in
      let put = put_client-balance fd (free_place s.fds) s₁ refl in
      let came : arrivals d s.accepts ≡ one_if d fd + arrivals d rest = ap (arrivals d) e in
      put ∙ omega arith

  service_with-balance :
      (script : List Received) (i fd : ℕ) (s : PollServer) (x : PollFd)
      → get_elem? s.fds i ≡ some x
      → x.fd ≡ some fd
      → OnOk (Same (balance d s)) (service_with script i fd s)
  service_with-balance [] i fd s x there is = tt
  service_with-balance (r ∷ rest) i fd s x there is = serve-balance i fd r _ x there is

  at_place_lem :
      (xs : List PollFd) (i fd : ℕ)
      → (at_place xs i).fd ≡ some fd
      → (x : PollFd) × (get_elem? xs i ≡ some x) × (x.fd ≡ some fd)
  at_place_lem xs i fd h = elim (Option-cases (get_elem? xs i)) [
    | inl e ↦ absurd (nothing (rw e at h))
    | inr (x, e) ↦ (x, e, rw e at h)
  ]
    where
      nothing : free_fd.fd ≡ some fd → ⊥
      nothing e = cc

  handle_place-balance :
      (i : ℕ) (o : Option ℕ) (readable : Bool) (s : PollServer)
      → (at_place s.fds i).fd ≡ o
      → OnOk (Same (balance d s)) (handle_place i o readable s)
  unfolding handle_place accept_client service_io
  handle_place-balance i none readable s e = refl
  handle_place-balance i (some fd) false s e = refl
  handle_place-balance i (some fd) true s e = elim (Bool-cases (fd == s.listensock)) [
    | inl listens ↦ rw listens (accept_with-balance s.accepts s refl)
    | inr other ↦
        let (x, there, is) = at_place_lem s.fds i fd e in
        rw other (service_with-balance s.recvs i fd s x there is)
  ]

  handler_read-balance :
      (i n m : ℕ) (s : PollServer) → Same m s → OnOk (Same m) (handler_read i n s)
  unfolding handler_read
  handler_read-balance i zero m s h = h
  handler_read-balance i (suc n) m s h =
      let p = at_place s.fds i in
      OnOk-bind (Same m) (handle_place i p.fd p.revents.readable s) (handler_read (suc i) n) (λ t e.
        handler_read-balance (suc i) n m t (
          OnOk-at (Same (balance d s)) (handle_place i p.fd p.revents.readable s) t
            (handle_place-balance i p.fd p.revents.readable s refl) e
          ∙ h))

  loop_round_on : (e : Polled) (s : PollServer) → OnOk (Same (balance d s)) (loop_round e s)
  unfolding loop_round
  loop_round_on (ready ms) s =
      handler_read-balance 0 capacity (balance d s) _
        (ap (λ n. n + closings d s.calls + arrivals d s.accepts) (held-write_revents ms s.fds))
  loop_round_on timed_out s = refl
  loop_round_on failed_poll s = refl

  loop_on : (es : List Polled) (n : ℕ) (s : PollServer) → Same n s → OnOk (Same n) (loop es s)
  unfolding loop
  loop_on [] n s h = h
  loop_on (e ∷ es) n s h = OnOk-bind (Same n) (loop_round e s) (loop es) (λ t ends.
      loop_on es n t (OnOk-at (Same (balance d s)) (loop_round e s) t (loop_round_on e s) ends ∙ h))

new_server-balance :
    (d fd : ℕ) (k : Kernel) → balance d (new_server fd k) ≡ one_if d fd + arrivals d k.accepts
unfolding new_server closings
new_server-balance d fd k =
    let empty = held-replicate place_fd d capacity free_fd refl in
    let put : held place_fd d (set (replicate capacity free_fd) 0 (client_fd fd)) + 0
        ≡ held place_fd d (replicate capacity free_fd) + one_if d fd =
      held-set place_fd d (replicate capacity free_fd) 0 free_fd (client_fd fd) refl in
    omega arith

-- From a new poll server with its listening socket, through any rounds of Loop that end, whatever
-- ::poll, ::accept and ::recv give: for each descriptor, the number of times that it stands in the
-- table, that it has been closed, and that ::accept is still to give it, added up, is the number of
-- times that ::accept gives it, and one more for the listening socket. So what is accepted is in the
-- table or closed, also where the table is full, and what leaves the table is closed once.
pub loop-balance :
    (d fd : ℕ) (k : Kernel) (es : List Polled) (t : PollServer)
    → loop es (new_server fd k) ≡ ok t
    → balance d t ≡ one_if d fd + arrivals d k.accepts
loop-balance d fd k es t ends =
    OnOk-at (Same d (balance d (new_server fd k))) (loop es (new_server fd k)) t
      (loop_on d es _ (new_server fd k) refl) ends
    ∙ new_server-balance d fd k
