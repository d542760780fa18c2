-- ===== src/EchoServer/Order.antt =====
-- The answers of Service, and the order in which the threads of the pool serve the clients.
use linux_advance.Base.{
  ℕ, ◌≡◌, refl, sym, ap, ◌∙◌, ◌<◌, Bool, true, false, Option, none, some, List, [], ◌∷◌, ◌++◌,
  length, map, arith, All, append_assoc, append-nil, Option-cases, inl, inr, ◌-◌, get_elem?,
}
use linux_advance.Base.Text.{Text, c_str}
use linux_advance.Threadpool.{
  Worker, idle, asleep, woken, quit, busy, Pool, Event, enqueues, stops, locks, wakes, finishes,
  new_pool, enqueue, with_queue, with_lock, lock_turn, at_worker, step,
}
use linux_advance.Threadpool.Users.{IsSound, enqueue-IsSound}
use linux_advance.Threadpool.Soundness.{new_pool-IsSound, step-IsSound}
use linux_advance.EchoServer.{
  End, Round, message, service, buff_size, Server, Happening, accepts, pool_step, submit,
  accept_round, happen, unless_exited, run,
}

-- Rounds in which these messages are read and answered.
abbrev pub answered : List Text → List Round → List Round
answered [] rounds = rounds
answered (b ∷ bs) rounds = message b true ∷ answered bs rounds

-- Service answers messages shorter than its buffer with their C strings.
pub service-answered :
    (bs : List Text) (rounds : List Round) (sent : List Text)
    → All (λ b. length b < buff_size) bs
    → service (answered bs rounds) sent ≡ service rounds (sent ++ map c_str bs)
unfolding service
service-answered [] rounds sent h = ap (service rounds) (sym (append-nil sent))
service-answered (b ∷ bs) rounds sent (short, h) = ground (
  arith,
  short,
  service-answered bs rounds (sent ++ c_str b ∷ []) h,
  append_assoc sent (c_str b ∷ []) (map c_str bs),
)

-- Stop is never called by the server.
abbrev pub IsOwn : Happening → Type 0
IsOwn (accepts listening peer k) = Unit
IsOwn (pool_step (locks i)) = Unit
IsOwn (pool_step (wakes i)) = Unit
IsOwn (pool_step (finishes i)) = Unit
IsOwn (pool_step stops) = ⊥
IsOwn (pool_step (enqueues t k)) = ⊥

-- Every client that was accepted is with the pool, in order.
pub record IsOrderly (s : Server) : Type 0 where
  pub sound : IsSound s.pool
  pub running : s.pool.isrunning ≡ true
  pub handed : s.pool.accepted ≡ s.clients

-- A step of a thread neither stops the pool nor accepts a task.
abbrev Keeps : Pool ℕ → Pool ℕ → Type 0
Keeps p q = (q.isrunning ≡ p.isrunning) × (q.accepted ≡ p.accepted)

with_queue-Keeps :
    (ts : List ℕ) (b : Bool) (n : ℕ) (p : Pool ℕ)
    → Keeps p (with_queue ts b (record p { waitnum = n })).1
with_queue-Keeps [] true n p = (refl, refl)
with_queue-Keeps [] false n p = (refl, refl)
with_queue-Keeps (t ∷ ts) b n p = (refl, refl)

lock_turn-Keeps : (w : Worker ℕ) (p : Pool ℕ) → Keeps p (lock_turn w p).1
unfolding lock_turn with_lock
lock_turn-Keeps idle p = with_queue-Keeps p.task_queue p.isrunning p.waitnum p
lock_turn-Keeps woken p = with_queue-Keeps p.task_queue p.isrunning (p.waitnum - 1) p
lock_turn-Keeps asleep p = (refl, refl)
lock_turn-Keeps quit p = (refl, refl)
lock_turn-Keeps (busy t) p = (refl, refl)

at_worker-Keeps :
    (f : Worker ℕ → Pool ℕ → Worker ℕ × Pool ℕ) (i : ℕ) (p : Pool ℕ)
    → ((w : Worker ℕ) → Keeps p (f w p).1)
    → Keeps p (at_worker f i p)
unfolding at_worker
at_worker-Keeps f i p h = elim (Option-cases (get_elem? p.workers i)) [
  | inl e ↦ rw (e, at_worker) (refl, refl)
  | inr (w, e) ↦ rw (e, at_worker) (h w)
]

step-Keeps : (e : Event ℕ) (p : Pool ℕ) → IsOwn (pool_step e) → Keeps p (step e p)
unfolding step
step-Keeps (locks i) p own = at_worker-Keeps lock_turn i p (λ w. lock_turn-Keeps w p)
step-Keeps (wakes i) p own = at_worker-Keeps _ i p (λ w. (refl, refl))
step-Keeps (finishes i) p own = at_worker-Keeps _ i p (λ w. (refl, refl))
step-Keeps (enqueues t k) p own = absurd own
step-Keeps stops p own = absurd own

submit-IsOrderly : (client k : ℕ) (s : Server) → IsOrderly s → IsOrderly (submit client k s)
unfolding submit enqueue
submit-IsOrderly client k s o = record {
  sound = enqueue-IsSound client k s.pool o.sound;
  running = rw o.running refl;
  handed = rw o.running (ap (λ l. l ++ client ∷ []) o.handed);
}

happen-IsOrderly : (h : Happening) (s : Server) → IsOwn h → IsOrderly s → IsOrderly (happen h s)
unfolding happen accept_round
happen-IsOrderly (accepts false peer k) s own o = record {
  sound = o.sound;
  running = o.running;
  handed = o.handed;
}
happen-IsOrderly (accepts true none k) s own o = o
happen-IsOrderly (accepts true (some client) k) s own o = submit-IsOrderly client k s o
happen-IsOrderly (pool_step e) s own o =
    let (on, same) = step-Keeps e s.pool own in
    record {
      sound = step-IsSound e s.pool o.sound;
      running = on ∙ o.running;
      handed = same ∙ o.handed;
    }

unless_exited-IsOrderly :
    {next s : Server} (x : Option End)
    → IsOrderly next
    → IsOrderly s
    → IsOrderly (unless_exited x next s)
unless_exited-IsOrderly none n o = n
unless_exited-IsOrderly (some e) n o = o

run-IsOrderly :
    (hs : List Happening) (s : Server) → All IsOwn hs → IsOrderly s → IsOrderly (run hs s)
unfolding run
run-IsOrderly [] s own o = o
run-IsOrderly (h ∷ hs) s (own, owns) o =
    unless_exited-IsOrderly s.exited
      (run-IsOrderly hs (happen h s) owns (happen-IsOrderly h s own o)) o

-- The server with a new pool of this many threads.
abbrev pub new_server : ℕ → Server
new_server n = record { pool = new_pool n; clients = []; exited = none }

new_server-IsOrderly : (n : ℕ) → 0 < n → IsOrderly (new_server n)
unfolding new_pool
new_server-IsOrderly n h = record { sound = new_pool-IsSound n h; running = refl; handed = refl }

-- Whatever ::listen and ::accept give, and however the threads of a pool of at least one thread take
-- turns with the loop that accepts, the clients that threads have taken up and those in the queue are,
-- in order, the clients that were accepted: none is lost, and none is served twice or overtaken.
pub clients-run :
    (n : ℕ) (hs : List Happening)
    → 0 < n
    → All IsOwn hs
    → let s = run hs (new_server n) in s.clients ≡ s.pool.taken ++ s.pool.task_queue
clients-run n hs h own =
    let o = run-IsOrderly hs (new_server n) own (new_server-IsOrderly n h) in
    sym o.handed ∙ o.sound.fifo
