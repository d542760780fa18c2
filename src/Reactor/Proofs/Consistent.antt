-- ===== src/Reactor/Proofs/Consistent.antt =====
-- The map of connections of Reactor.hpp and the interest list of epoll.
use linux_advance.Base.{
  ℕ, ◌≡◌, refl, sym, ◌∙◌, Bool, true, false, Option, none, some, List, [], ◌∷◌, arith, ◌==◌,
  if◌then◌else◌, Bool-cases, inl, inr, Option-cases, is_empty,
}
use linux_advance.Base.Map.{is_some, lookup, lookup-insert, lookup-update, lookup-remove}
use linux_advance.Base.Text.{Text}
use linux_advance.Reactor.Connection.{Events, Callbacks, Connection, new_connection}
use linux_advance.Reactor.Io.{Ending, broken, finished, store, after_send}
use linux_advance.Reactor.Core.{
  Call, ctl_add, ctl_mod, ctl_del, close, sent, Reactor, make_call, add_connection,
  enable_read_write, remove_connection, events_of,
}

-- Whether a log of calls, the newest first, leaves a descriptor on the interest list.
unfoldable pub is_watched : ℕ → List Call → Bool
is_watched fd [] = false
is_watched fd (ctl_add k ev ∷ cs) = if k == fd then true else is_watched fd cs
is_watched fd (ctl_del k ∷ cs) = if k == fd then false else is_watched fd cs
is_watched fd (ctl_mod k ev ∷ cs) = is_watched fd cs
is_watched fd (close k ∷ cs) = is_watched fd cs
is_watched fd (sent k t ∷ cs) = is_watched fd cs

-- A connection stands under its own descriptor.
abbrev pub IsOwn : ℕ → Option Connection → Type 0
IsOwn fd none = Unit {0}
IsOwn fd (some conn) = conn.sockfd ≡ fd

-- The map and the interest list agree.
pub record IsConsistent (r : Reactor) : Type 0 where
  pub watched : (fd : ℕ) → is_watched fd r.calls ≡ is_some (lookup fd r.connections)
  pub own : (fd : ℕ) → IsOwn fd (lookup fd r.connections)

pub add_connection-IsConsistent :
    (fd : ℕ) (ev : Events) (cb : Callbacks) (r : Reactor)
    → IsConsistent r
    → IsConsistent (add_connection fd ev cb r)
unfolding add_connection is_watched
add_connection-IsConsistent fd ev cb r h = record {
  watched = λ k.
      rw (lookup-insert fd k (new_connection fd ev cb) r.connections)
        (ground (arith, h.watched k, h.watched fd));
  own = λ k.
      rw (lookup-insert fd k (new_connection fd ev cb) r.connections)
        (ground (arith, h.own k, h.own fd));
}

enable_read_write-IsConsistent :
    (fd : ℕ) (wr rd : Bool) (r : Reactor)
    → IsConsistent r
    → IsConsistent (enable_read_write fd wr rd r)
unfolding enable_read_write is_watched
enable_read_write-IsConsistent fd wr rd r h = elim (Option-cases (lookup fd r.connections)) [
  | inl gone ↦ rw (gone, enable_read_write) h
  | inr (conn, there) ↦
      rw (there, enable_read_write)
        (record {
          watched = λ k.
              rw (lookup-update fd k (record conn { events = events_of wr rd }) r.connections)
                (ground (arith, there, h.watched k));
          own = λ k.
              rw (lookup-update fd k (record conn { events = events_of wr rd }) r.connections)
                (ground (arith, there, h.own k, h.own fd));
        })
]

pub remove_connection-IsConsistent :
    (fd : ℕ) (r : Reactor) → IsConsistent r → IsConsistent (remove_connection fd r)
unfolding remove_connection is_watched
remove_connection-IsConsistent fd r h = elim (Bool-cases (is_some (lookup fd r.connections))) [
  | inl there ↦ rw there (record {
    watched = λ k. rw (lookup-remove fd k r.connections) (ground (arith, h.watched k));
    own = λ k. rw (lookup-remove fd k r.connections) (ground (arith, h.own k));
  })
  | inr gone ↦ rw gone h
]

-- Writing a connection back where the map holds it, and logging what was sent.
pub store-IsConsistent :
    (conn : Connection) (r : Reactor) → IsConsistent r → IsConsistent (store conn r)
unfolding store
store-IsConsistent conn r h = record {
  watched = λ k.
      rw (lookup-update conn.sockfd k conn r.connections)
        (ground (arith, h.watched k, h.watched conn.sockfd));
  own = λ k.
      rw (lookup-update conn.sockfd k conn r.connections)
        (ground (arith, h.own k, h.own conn.sockfd));
}

pub sent-IsConsistent :
    (fd : ℕ) (t : Text) (r : Reactor) → IsConsistent r → IsConsistent (make_call (sent fd t) r)
unfolding make_call is_watched
sent-IsConsistent fd t r h = record { watched = h.watched; own = h.own }

pub after_send-IsConsistent :
    (e : Ending) (conn : Connection) (r : Reactor)
    → IsConsistent r
    → IsConsistent (after_send e conn r)
unfolding after_send
after_send-IsConsistent broken conn r h = remove_connection-IsConsistent conn.sockfd r h
after_send-IsConsistent finished conn r h = elim (Bool-cases (is_empty conn.outbuffer)) [
  | inl sent_all ↦ rw sent_all (enable_read_write-IsConsistent conn.sockfd false true r h)
  | inr some_left ↦ rw some_left (enable_read_write-IsConsistent conn.sockfd true true r h)
]

-- The interest list where an epoll_ctl may fail: `works` says whether one does, given the calls up to it. No
-- caller looks at what AddEvent, ModEvent and DelEvent return.
unfoldable pub in_kernel : (List Call → Bool) → ℕ → List Call → Bool
in_kernel works fd [] = false
in_kernel works fd (ctl_add k ev ∷ cs) =
    let rest = in_kernel works fd cs in
    if works (ctl_add k ev ∷ cs) then (if k == fd then true else rest) else rest
in_kernel works fd (ctl_del k ∷ cs) =
    let rest = in_kernel works fd cs in
    if works (ctl_del k ∷ cs) then (if k == fd then false else rest) else rest
in_kernel works fd (ctl_mod k ev ∷ cs) = in_kernel works fd cs
in_kernel works fd (close k ∷ cs) = in_kernel works fd cs
in_kernel works fd (sent k t ∷ cs) = in_kernel works fd cs

-- The map and the interest list of the kernel agree.
pub record Agrees (works : List Call → Bool) (r : Reactor) : Type 0 where
  pub same : (fd : ℕ) → in_kernel works fd r.calls ≡ is_some (lookup fd r.connections)
  pub own : (fd : ℕ) → IsOwn fd (lookup fd r.connections)

module _ (works : List Call → Bool) (all : (cs : List Call) → works cs ≡ true) where
  in_kernel-is_watched : (fd : ℕ) (cs : List Call) → in_kernel works fd cs ≡ is_watched fd cs
  unfolding in_kernel is_watched
  in_kernel-is_watched fd [] = refl
  in_kernel-is_watched fd (ctl_add k ev ∷ cs) =
      rw (all (ctl_add k ev ∷ cs), in_kernel-is_watched fd cs) refl
  in_kernel-is_watched fd (ctl_del k ∷ cs) =
      rw (all (ctl_del k ∷ cs), in_kernel-is_watched fd cs) refl
  in_kernel-is_watched fd (ctl_mod k ev ∷ cs) = in_kernel-is_watched fd cs
  in_kernel-is_watched fd (close k ∷ cs) = in_kernel-is_watched fd cs
  in_kernel-is_watched fd (sent k t ∷ cs) = in_kernel-is_watched fd cs

  pub Agrees-IsConsistent : (r : Reactor) → Agrees works r → IsConsistent r
  Agrees-IsConsistent r h = record {
    watched = λ fd. sym (in_kernel-is_watched fd r.calls) ∙ h.same fd;
    own = h.own;
  }

  pub IsConsistent-Agrees : (r : Reactor) → IsConsistent r → Agrees works r
  IsConsistent-Agrees r h = record {
    same = λ fd. in_kernel-is_watched fd r.calls ∙ h.watched fd;
    own = h.own;
  }
