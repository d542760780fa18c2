-- ===== src/Threadpool/Soundness.antt =====
-- The steps of the threads of the pool, and every interleaving of them with its users.
use linux_advance.Base.{
  ℕ, ◌+◌, ◌-◌, ◌<◌, ◌≤◌, ◌≡◌, refl, sym, ap, ◌∙◌, Bool, true, false, some, List, [], ◌∷◌, ◌++◌,
  arith, get_elem?, append_assoc, Option-cases, inl, inr,
}
use linux_advance.Threadpool.{
  Worker, idle, asleep, woken, quit, busy, Pool, Event, enqueues, stops, locks, wakes, finishes,
  new_pool, is_asleep, one, with_queue, with_lock, lock_turn, wake_up, finish, put, at_worker, step,
  run,
}
use linux_advance.Threadpool.Counts.{is_woken, is_quit, put_counts, new_workers}
use linux_advance.Threadpool.Users.{IsSound, stop-IsSound, enqueue-IsSound}

module _ {A : Type 0} where
  put-IsSound :
      (p : Pool A) (i : ℕ) (w v : Worker A)
      → get_elem? p.workers i ≡ some w
      → (is_quit w ≡ is_quit v)
      → one (is_asleep v) + one (is_woken v) ≡ one (is_asleep w) + one (is_woken w)
      → one (is_asleep v) ≤ one (is_asleep w)
      → IsSound p
      → IsSound (put i (v, p))
  put-IsSound p i w v h q m a s =
      let c = put_counts p.workers i w v h in
      record {
        fifo = s.fifo;
        waits = ground (arith, c, s.waits);
        stopped = ground (arith, c, s.stopped);
        drained = ground (arith, c, s.drained);
        awake = ground (arith, c, s.awake);
        threads = ground (arith, c, s.threads);
      }

  -- A worker that is neither asleep nor quit looks at the queue; `n` counts the others that wait.
  with_queue-IsSound :
      (ts : List A) (b : Bool) (p : Pool A) (i n : ℕ) (w : Worker A)
      → get_elem? p.workers i ≡ some w
      → (is_asleep w ≡ false) × (is_quit w ≡ false) × (n + one (is_woken w) ≡ p.waitnum)
      → p.task_queue ≡ ts
      → p.isrunning ≡ b
      → IsSound p
      → IsSound (put i (with_queue ts b (record p { waitnum = n })))
  with_queue-IsSound [] true p i n w h (a, q, m) e r s =
      let c = put_counts p.workers i w asleep h in
      record {
        fifo = s.fifo;
        waits = ground (arith, a, q, c, s.waits);
        stopped = inl r;
        drained = ground (arith, a, q, c, r, s.drained);
        awake = inl e;
        threads = ground (arith, c, s.threads);
      }
  with_queue-IsSound [] false p i n w h (a, q, m) e r s =
      let c = put_counts p.workers i w quit h in
      record {
        fifo = s.fifo;
        waits = ground (arith, a, q, c, s.waits);
        stopped = inr (ground (arith, a, c, r, s.stopped));
        drained = inr (r, e);
        awake = inl e;
        threads = ground (arith, c, s.threads);
      }
  with_queue-IsSound (t ∷ ts) b p i n w h (a, q, m) e r s =
      let c = put_counts p.workers i w (busy t) h in
      record {
        fifo = s.fifo ∙ (ap (λ l. p.taken ++ l) e ∙ sym (append_assoc p.taken (t ∷ []) ts));
        waits = ground (arith, a, q, c, s.waits);
        stopped = ground (arith, a, c, s.stopped);
        drained = inl (ground (arith, q, c, e, s.drained));
        awake = inr (ground (arith, a, q, c, e, s.drained, s.awake));
        threads = ground (arith, c, s.threads);
      }

  lock_turn-IsSound :
      (w : Worker A) (i : ℕ) (p : Pool A)
      → get_elem? p.workers i ≡ some w
      → IsSound p
      → IsSound (put i (lock_turn w p))
  unfolding lock_turn with_lock
  lock_turn-IsSound idle i p h s =
      with_queue-IsSound p.task_queue p.isrunning p i p.waitnum idle h (refl, refl, omega arith)
        refl refl s
  lock_turn-IsSound woken i p h s =
      let c = put_counts p.workers i woken idle h in
      with_queue-IsSound p.task_queue p.isrunning p i (p.waitnum - 1) woken h
        (refl, refl, ground (arith, c, s.waits)) refl refl s
  lock_turn-IsSound asleep i p h s = put-IsSound p i asleep asleep h refl refl (omega arith) s
  lock_turn-IsSound quit i p h s = put-IsSound p i quit quit h refl refl (omega arith) s
  lock_turn-IsSound (busy t) i p h s = put-IsSound p i (busy t) (busy t) h refl refl (omega arith) s

  at_worker-IsSound :
      (f : Worker A → Pool A → Worker A × Pool A) (i : ℕ) (p : Pool A)
      → ((w : Worker A) → get_elem? p.workers i ≡ some w → IsSound (put i (f w p)))
      → IsSound p
      → IsSound (at_worker f i p)
  unfolding at_worker
  at_worker-IsSound f i p h s = elim (Option-cases (get_elem? p.workers i)) [
    | inl e ↦ rw (e, at_worker) s
    | inr (w, e) ↦ rw (e, at_worker) (h w e)
  ]

  wake_up-IsSound :
      (i : ℕ) (p : Pool A) (w : Worker A)
      → get_elem? p.workers i ≡ some w
      → IsSound p
      → IsSound (put i (wake_up w, p))
  wake_up-IsSound i p asleep h s = put-IsSound p i asleep woken h refl refl (omega arith) s
  wake_up-IsSound i p idle h s = put-IsSound p i idle idle h refl refl (omega arith) s
  wake_up-IsSound i p woken h s = put-IsSound p i woken woken h refl refl (omega arith) s
  wake_up-IsSound i p quit h s = put-IsSound p i quit quit h refl refl (omega arith) s
  wake_up-IsSound i p (busy t) h s = put-IsSound p i (busy t) (busy t) h refl refl (omega arith) s

  finish-IsSound :
      (i : ℕ) (p : Pool A) (w : Worker A)
      → get_elem? p.workers i ≡ some w
      → IsSound p
      → IsSound (put i (finish w, p))
  finish-IsSound i p asleep h s = put-IsSound p i asleep asleep h refl refl (omega arith) s
  finish-IsSound i p idle h s = put-IsSound p i idle idle h refl refl (omega arith) s
  finish-IsSound i p woken h s = put-IsSound p i woken woken h refl refl (omega arith) s
  finish-IsSound i p quit h s = put-IsSound p i quit quit h refl refl (omega arith) s
  finish-IsSound i p (busy t) h s = put-IsSound p i (busy t) idle h refl refl (omega arith) s

  pub step-IsSound : (e : Event A) (p : Pool A) → IsSound p → IsSound (step e p)
  unfolding step
  step-IsSound (enqueues t k) p s = enqueue-IsSound t k p s
  step-IsSound stops p s = stop-IsSound p s
  step-IsSound (locks i) p s =
      at_worker-IsSound lock_turn i p (λ w h. lock_turn-IsSound w i p h s) s
  step-IsSound (wakes i) p s = at_worker-IsSound _ i p (λ w h. wake_up-IsSound i p w h s) s
  step-IsSound (finishes i) p s = at_worker-IsSound _ i p (λ w h. finish-IsSound i p w h s) s

  pub new_pool-IsSound : (n : ℕ) → 0 < n → IsSound {A = A} (new_pool n)
  unfolding new_pool
  new_pool-IsSound n h =
      let c = new_workers idle n (refl, refl, refl) in
      record {
        fifo = refl;
        waits = ground (arith, c);
        stopped = inl refl;
        drained = inl c.2;
        awake = inl refl;
        threads = ground (arith, c);
      }

  pub run_from : (es : List (Event A)) (p : Pool A) → IsSound p → IsSound (run es p)
  unfolding run
  run_from [] p s = s
  run_from (e ∷ es) p s = run_from es (step e p) (step-IsSound e p s)

  -- After any interleaving of its threads and its users, a pool of at least one thread has taken the
  -- tasks in the order in which Enqueue accepted them, none lost and none twice; `_waitnum` counts the
  -- threads in pthread_cond_wait; if it is stopped, no thread sleeps; if a thread has quit, the pool is
  -- stopped and no task is left; and while a task waits, some thread neither sleeps nor has quit.
  pub run-IsSound : (n : ℕ) (es : List (Event A)) → 0 < n → IsSound {A = A} (run es (new_pool n))
  run-IsSound n es h = run_from es (new_pool n) (new_pool-IsSound n h)
