-- ===== src/Multiplex/Select/Table.antt =====
-- The table of descriptors of SelectServer.hpp.
use linux_advance.Base.{
  ℕ, zero, suc, ◌≡◌, refl, ap, ◌∙◌, Bool, false, Option, none, some, List, [], ◌∷◌, inl, inr, arith,
  leb, ◌==◌, length, length-set, length-replicate, get_elem?, set, replicate, Bool-cases,
}
use linux_advance.Base.Monad.{ok, OnOk, OnOk-bind, OnOk-at}
use linux_advance.Multiplex.Echo.{Received, bytes, at_end, failed, Kernel}
use linux_advance.Multiplex.Slots.{bump, first_free}
use linux_advance.Multiplex.Select.{
  is_free, put_client, accept_with, service_with, SelectServer, capacity, new_server, free_place,
  place_client, accept_client, serve, service_io, at_place, handle_place, handler_read, watch_set,
  max_fd, Selected, ready, timed_out, failed_select, loop_round, after_select, left_in, fd_setsize,
}

-- The table has its size, and its first place holds the listening socket.
pub record IsListening (s : SelectServer) : Type 0 where
  pub size : length s.fd_array ≡ capacity
  pub first : get_elem? s.fd_array 0 ≡ some (some s.listensock)

set_later :
    (xs : List (Option ℕ)) (i : ℕ) (v : Option ℕ) → get_elem? (set xs (suc i) v) 0 ≡ get_elem? xs 0
set_later [] i v = refl
set_later (x ∷ xs) i v = refl

-- A write to the table behind its first place.
put-IsListening :
    (s t : SelectServer) (i : ℕ) (v : Option ℕ)
    → t.fd_array ≡ set s.fd_array (suc i) v
    → t.listensock ≡ s.listensock
    → IsListening s
    → IsListening t
put-IsListening s t i v e l h = record {
  size = ap length e ∙ (length-set s.fd_array (suc i) v ∙ h.size);
  first = rw (e, l) (set_later s.fd_array i v ∙ h.first);
}

same-IsListening :
    (s t : SelectServer)
    → t.fd_array ≡ s.fd_array
    → t.listensock ≡ s.listensock
    → IsListening s
    → IsListening t
same-IsListening s t e l h = record { size = rw e h.size; first = rw (e, l) h.first }

serve-IsListening :
    (i fd : ℕ) (r : Received) (s : SelectServer)
    → IsListening s
    → IsListening (serve (suc i) fd r s)
unfolding serve
serve-IsListening i fd (bytes b) s h = same-IsListening s _ refl refl h
serve-IsListening i fd at_end s h = put-IsListening s _ i none refl refl h
serve-IsListening i fd failed s h = put-IsListening s _ i none refl refl h

bump_later : (o : Option ℕ) (i : ℕ) → bump o ≡ some i → (k : ℕ) × (i ≡ suc k)
bump_later none i h = cc
bump_later (some k) i h = (k, ground arith)

free_place_later : (xs : List (Option ℕ)) (i : ℕ) → free_place xs ≡ some i → (k : ℕ) × (i ≡ suc k)
free_place_later [] i h = cc
free_place_later (x ∷ xs) i h = bump_later (first_free is_free xs) i h

put_client-IsListening :
    (fd : ℕ) (o : Option ℕ) (s : SelectServer)
    → free_place s.fd_array ≡ o
    → IsListening s
    → IsListening (put_client fd o s)
put_client-IsListening fd none s e h = same-IsListening s _ refl refl h
put_client-IsListening fd (some i) s e h =
    let (k, later) = free_place_later s.fd_array i e in
    put-IsListening s _ k (some fd) (ap (λ i. set s.fd_array i (some fd)) later) refl h

place_client-IsListening :
    (fd : ℕ) (s : SelectServer) → IsListening s → IsListening (place_client fd s)
unfolding place_client
place_client-IsListening fd s h = put_client-IsListening fd (free_place s.fd_array) s refl h

accept_with-IsListening :
    (script : List (Option ℕ)) (s : SelectServer)
    → IsListening s
    → OnOk IsListening (accept_with script s)
accept_with-IsListening [] s h = tt
accept_with-IsListening (none ∷ rest) s h = tt
accept_with-IsListening (some fd ∷ rest) s h =
    place_client-IsListening fd _ (same-IsListening s _ refl refl h)

service_with-IsListening :
    (script : List Received) (i fd : ℕ) (s : SelectServer)
    → IsListening s
    → OnOk IsListening (service_with script (suc i) fd s)
service_with-IsListening [] i fd s h = tt
service_with-IsListening (r ∷ rest) i fd s h =
    serve-IsListening i fd r _ (same-IsListening s _ refl refl h)

-- The first place is served by AcceptClient.
service_io-IsListening :
    (i fd : ℕ) (s : SelectServer)
    → at_place s.fd_array i ≡ some fd
    → (fd == s.listensock) ≡ false
    → IsListening s
    → OnOk IsListening (service_io i fd s)
unfolding service_io
service_io-IsListening zero fd s e other h = absurd (ground (arith, e, other, h.first))
service_io-IsListening (suc i) fd s e other h = service_with-IsListening s.recvs i fd s h

handle_place-IsListening :
    (is_set : ℕ → Bool) (i : ℕ) (o : Option ℕ) (s : SelectServer)
    → at_place s.fd_array i ≡ o
    → IsListening s
    → OnOk IsListening (handle_place is_set i o s)
unfolding handle_place accept_client
handle_place-IsListening is_set i none s e h = h
handle_place-IsListening is_set i (some fd) s e h = elim (Bool-cases (leb fd_setsize fd)) [
  | inl beyond ↦ rw beyond tt
  | inr within ↦ elim (Bool-cases (is_set fd)) [
    | inl set ↦ elim (Bool-cases (fd == s.listensock)) [
      | inl listens ↦ rw (within, set, listens) (accept_with-IsListening s.accepts s h)
      | inr other ↦ rw (within, set, other) (service_io-IsListening i fd s e other h)
    ]
    | inr unset ↦ rw (within, unset) h
  ]
]

handler_read-IsListening :
    (is_set : ℕ → Bool) (i n : ℕ) (s : SelectServer)
    → IsListening s
    → OnOk IsListening (handler_read is_set i n s)
unfolding handler_read
handler_read-IsListening is_set i zero s h = h
handler_read-IsListening is_set i (suc n) s h =
    OnOk-bind IsListening (handle_place is_set i (at_place s.fd_array i) s)
      (handler_read is_set (suc i) n)
      (λ t e. handler_read-IsListening is_set (suc i) n t (
        OnOk-at IsListening _ t (handle_place-IsListening is_set i (at_place s.fd_array i) s refl h)
          e))

after_select-IsListening :
    (e : Selected) (maxfd : Option ℕ) (rfds : List ℕ) (s : SelectServer)
    → IsListening s
    → OnOk IsListening (after_select e maxfd rfds s)
unfolding after_select
after_select-IsListening (ready is_ready) maxfd rfds s h =
    handler_read-IsListening (left_in maxfd rfds is_ready) 0 capacity s h
after_select-IsListening timed_out maxfd rfds s h = h
after_select-IsListening failed_select maxfd rfds s h = h

loop_round_on :
    (e : Selected) (s : SelectServer) → IsListening s → OnOk IsListening (loop_round e s)
unfolding loop_round
loop_round_on e s h =
    OnOk-bind IsListening (watch_set s.fd_array)
      (λ rfds. after_select e (max_fd none s.fd_array) rfds s)
      (λ rfds done. after_select-IsListening e (max_fd none s.fd_array) rfds s h)

-- Whatever ::select, ::accept and ::recv give, a round of Loop of the select server that ends keeps the
-- size of the table and the listening socket in its first place, if this held before.
pub loop_round-IsListening :
    (e : Selected) (s t : SelectServer) → IsListening s → loop_round e s ≡ ok t → IsListening t
loop_round-IsListening e s t h ends =
    OnOk-at IsListening (loop_round e s) t (loop_round_on e s h) ends

pub new_server-IsListening : (fd : ℕ) (k : Kernel) → IsListening (new_server fd k)
unfolding new_server
new_server-IsListening fd k = record {
  size =
      length-set (replicate capacity none) 0 (some fd)
      ∙ length-replicate {A = Option ℕ} capacity none;
  first = refl;
}
