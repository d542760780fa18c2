-- ===== src/Threadpool.antt =====
-- Threadpool.hpp of the echo server: a queue of tasks behind a mutex, and threads that sleep on a
-- condition while it is empty. What a thread does between taking the mutex and giving it back, or
-- giving it back to sleep, is one step.
pub mod Counts
pub mod Users
pub mod Soundness
pub mod Threads
pub mod Drain
pub mod Instance
use linux_advance.Base.{
  ℕ, zero, suc, ◌+◌, ◌-◌, Bool, true, false, Option, none, some, List, [], ◌∷◌, ◌++◌, ltb, ◌==◌,
  if◌then◌else◌, is_empty, set, get_elem?, replicate,
}

-- Where a thread is in TaskHandler: before LockQueue, asleep in pthread_cond_wait, woken in it but
-- without the mutex, in the task it took, or behind the loop.
pub data Worker (A : Type 0) : Type 0 where
  idle asleep woken quit : Worker A
  busy : A → Worker A

-- The pool, every task that Enqueue accepted and every task that a thread took, both in order.
pub record Pool (A : Type 0) : Type 0 where
  pub task_queue : List A
  pub waitnum : ℕ
  pub isrunning : Bool
  pub workers : List (Worker A)
  pub accepted : List A
  pub taken : List A

-- What the scheduler and the users of the pool do next; the numbers choose a thread.
pub data Event (A : Type 0) : Type 0 where
  enqueues : A → ℕ → Event A
  stops : Event A
  locks wakes finishes : ℕ → Event A

abbrev pub one : Bool → ℕ
one true = 1
one false = 0

module _ {A : Type 0} where
  -- Threadpool(threadnum), InitThreadPool and Start.
  unfoldable pub new_pool : ℕ → Pool A
  new_pool threadnum = record {
    task_queue = [];
    waitnum = 0;
    isrunning = true;
    workers = replicate threadnum idle;
    accepted = [];
    taken = [];
  }

  abbrev pub is_asleep : Worker A → Bool
  is_asleep asleep = true
  is_asleep idle = false
  is_asleep woken = false
  is_asleep quit = false
  is_asleep (busy t) = false

  unfoldable pub count : (Worker A → Bool) → List (Worker A) → ℕ
  count f [] = 0
  count f (w ∷ ws) = one (f w) + count f ws

  -- pthread_cond_signal wakes one sleeping thread, if there is one; `k` says which.
  unfoldable pub signal : ℕ → List (Worker A) → List (Worker A)
  signal k [] = []
  signal k (w ∷ ws) =
      let later = signal (k - 1) ws in
      let same = signal k ws in
      if is_asleep w
      then (if (k == 0)
          then woken ∷ ws
          else (if (count is_asleep ws == 0) then woken ∷ ws else w ∷ later))
      else w ∷ same

  -- pthread_cond_broadcast
  unfoldable pub broadcast : List (Worker A) → List (Worker A)
  broadcast [] = []
  broadcast (w ∷ ws) = (if is_asleep w then woken else w) ∷ broadcast ws

  abbrev pub pushed : A → List (Worker A) → Pool A → Pool A
  pushed t ws p = record p {
    task_queue = p.task_queue ++ t ∷ [];
    workers = ws;
    accepted = p.accepted ++ t ∷ [];
  }

  -- Enqueue
  unfoldable pub enqueue : A → ℕ → Pool A → Bool × Pool A
  enqueue t k p =
      if p.isrunning
      then (true, pushed t (if ltb 0 p.waitnum then signal k p.workers else p.workers) p)
      else (false, p)

  -- Stop
  unfoldable pub stop : Pool A → Pool A
  stop p = record p {
    isrunning = false;
    workers = if ltb 0 p.waitnum then broadcast p.workers else p.workers;
  }

  -- TaskHandler with the mutex taken: the test of the inner `while`, then the test of the `if`.
  abbrev pub with_queue : List A → Bool → Pool A → Worker A × Pool A
  with_queue [] true p = (asleep, record p { waitnum = suc p.waitnum })
  with_queue [] false p = (quit, p)
  with_queue (t ∷ ts) b p = (busy t, record p { task_queue = ts; taken = p.taken ++ t ∷ [] })

  unfoldable pub with_lock : Pool A → Worker A × Pool A
  with_lock p = with_queue p.task_queue p.isrunning p

  -- A thread takes the mutex, in LockQueue or behind pthread_cond_wait, where it takes itself off
  -- `_waitnum`.
  unfoldable pub lock_turn : Worker A → Pool A → Worker A × Pool A
  lock_turn idle p = with_lock p
  lock_turn woken p = with_lock (record p { waitnum = p.waitnum - 1 })
  lock_turn asleep p = (asleep, p)
  lock_turn quit p = (quit, p)
  lock_turn (busy t) p = (busy t, p)

  -- The system may wake a thread at any time.
  abbrev pub wake_up : Worker A → Worker A
  wake_up asleep = woken
  wake_up idle = idle
  wake_up woken = woken
  wake_up quit = quit
  wake_up (busy t) = busy t

  -- A task returns.
  abbrev pub finish : Worker A → Worker A
  finish (busy t) = idle
  finish asleep = asleep
  finish idle = idle
  finish woken = woken
  finish quit = quit

  abbrev pub put : ℕ → Worker A × Pool A → Pool A
  put i (w, p) = record p { workers = set p.workers i w }

  unfoldable pub at_worker : (Worker A → Pool A → Worker A × Pool A) → ℕ → Pool A → Pool A
  at_worker f i p = elim (get_elem? p.workers i) [ none ↦ p | some w ↦ put i (f w p) ]

  unfoldable pub step : Event A → Pool A → Pool A
  step (enqueues t k) p = (enqueue t k p).1
  step stops p = stop p
  step (locks i) p = at_worker lock_turn i p
  step (wakes i) p = at_worker (λ w q. (wake_up w, q)) i p
  step (finishes i) p = at_worker (λ w q. (finish w, q)) i p

  -- Any interleaving of the threads and the users of the pool.
  unfoldable pub run : List (Event A) → Pool A → Pool A
  run [] p = p
  run (e ∷ es) p = run es (step e p)
