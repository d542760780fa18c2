-- ===== src/Threadpool/Drain.antt =====
-- The tasks that wait in the pool can be taken, whatever has happened before.
use linux_advance.Base.{
  ℕ, zero, suc, ◌+◌, ◌-◌, append-nil, get_elem?-set_self, ◌<◌, ◌≡◌, refl, sym, ap, ◌∙◌, some, List,
  [], ◌∷◌, ◌++◌, arith, All, All-append, get_elem?, length, inl, inr, ◌⊎◌,
}
use linux_advance.Threadpool.{
  Worker, idle, asleep, woken, quit, busy, Pool, Event, enqueues, stops, locks, wakes, finishes,
  new_pool, is_asleep, count, with_queue, with_lock, lock_turn, finish, put, at_worker, step, run,
}
use linux_advance.Threadpool.Counts.{is_quit}
use linux_advance.Threadpool.Users.{IsSound}
use linux_advance.Threadpool.Soundness.{run_from, run-IsSound}

module _ {A : Type 0} where
  -- A step of a thread of the pool: it takes the mutex, or its task returns.
  abbrev pub IsThreadStep : Event A → Type 0
  IsThreadStep (locks i) = Unit
  IsThreadStep (finishes i) = Unit
  IsThreadStep (wakes i) = ⊥
  IsThreadStep (enqueues t k) = ⊥
  IsThreadStep stops = ⊥

  abbrev IsUp : Worker A → Type 0
  IsUp idle = Unit
  IsUp woken = Unit
  IsUp (busy t) = Unit
  IsUp asleep = ⊥
  IsUp quit = ⊥

  abbrev Up : List (Worker A) → Type 0
  Up ws = (i : ℕ) × (w : Worker A) × (get_elem? ws i ≡ some w) × IsUp w

  later-Up : (w : Worker A) (ws : List (Worker A)) → Up ws → Up (w ∷ ws)
  later-Up w ws (i, v, e, up) = (suc i, v, e, up)

  some-Up : (ws : List (Worker A)) → count is_asleep ws + count is_quit ws < length ws → Up ws
  unfolding count
  some-Up [] h = absurd (omega arith)
  some-Up (idle ∷ ws) h = (zero, idle, refl, tt)
  some-Up (woken ∷ ws) h = (zero, woken, refl, tt)
  some-Up (busy t ∷ ws) h = (zero, busy t, refl, tt)
  some-Up (asleep ∷ ws) h = later-Up asleep ws (some-Up ws (ground arith))
  some-Up (quit ∷ ws) h = later-Up quit ws (some-Up ws (ground arith))

  run_append : (es fs : List (Event A)) (p : Pool A) → run (es ++ fs) p ≡ run fs (run es p)
  unfolding run
  run_append [] fs p = refl
  run_append (e ∷ es) fs p = run_append es fs (step e p)

  at_worker-some :
      (f : Worker A → Pool A → Worker A × Pool A) (i : ℕ) (w : Worker A) (p : Pool A)
      → get_elem? p.workers i ≡ some w
      → at_worker f i p ≡ put i (f w p)
  unfolding at_worker
  at_worker-some f i w p e = rw (e, at_worker) refl

  -- A thread that is about to look at the queue takes the first task.
  takes_first :
      (w : Worker A) (p : Pool A) (t : A) (ts : List A)
      → (w ≡ idle) ⊎ (w ≡ woken)
      → p.task_queue ≡ t ∷ ts
      → (lock_turn w p).1.task_queue ≡ ts
  unfolding lock_turn with_lock
  takes_first w p t ts (inl h) q =
      ap (λ v. (lock_turn v p).1.task_queue) h
      ∙ ap (λ l. (with_queue l p.isrunning p).1.task_queue) q
  takes_first w p t ts (inr h) q =
      ap (λ v. (lock_turn v p).1.task_queue) h
      ∙ ap (λ l. (with_queue l p.isrunning (record p { waitnum = p.waitnum - 1 })).1.task_queue) q

  lock_takes :
      (i : ℕ) (w : Worker A) (p : Pool A) (t : A) (ts : List A)
      → get_elem? p.workers i ≡ some w
      → (w ≡ idle) ⊎ (w ≡ woken)
      → p.task_queue ≡ t ∷ ts
      → (step (locks i) p).task_queue ≡ ts
  unfolding step
  lock_takes i w p t ts e h q =
      ap (λ (r : Pool A). r.task_queue) (at_worker-some lock_turn i w p e)
      ∙ takes_first w p t ts h q

  in_range : (ws : List (Worker A)) (i : ℕ) (w : Worker A) → get_elem? ws i ≡ some w → i < length ws
  in_range [] i w e = absurd (cc)
  in_range (x ∷ ws) zero w e = omega arith
  in_range (x ∷ ws) (suc i) w e = omega (arith, in_range ws i w e)

  -- The steps in which a thread takes the first task, behind the task it has.
  abbrev Taking : Pool A → List A → Type 0
  Taking p ts = (es : List (Event A)) × All IsThreadStep es × ((run es p).task_queue ≡ ts)

  take_one :
      (p : Pool A) (t : A) (ts : List A) (i : ℕ) (w : Worker A)
      → get_elem? p.workers i ≡ some w
      → IsUp w
      → p.task_queue ≡ t ∷ ts
      → Taking p ts
  unfolding run
  take_one p t ts i idle e up q = (locks i ∷ [], (tt, tt), lock_takes i idle p t ts e (inl refl) q)
  take_one p t ts i woken e up q =
      (locks i ∷ [], (tt, tt), lock_takes i woken p t ts e (inr refl) q)
  take_one p t ts i (busy x) e up q =
      let back : step (finishes i) p ≡ put i (idle, p) =
        unfold step in at_worker-some (λ w p'. (finish w, p')) i (busy x) p e in
      let free : get_elem? (step (finishes i) p).workers i ≡ some idle =
        ap (λ (r : Pool A). get_elem? r.workers i) back
        ∙ get_elem?-set_self p.workers i idle (in_range p.workers i (busy x) e) in
      (
        finishes i ∷ (locks i ∷ []),
        (tt, (tt, tt)),
        lock_takes i idle (step (finishes i) p) t ts free (inl refl)
            (ap (λ (r : Pool A). r.task_queue) back ∙ q),
      )
  take_one p t ts i asleep e up q = absurd up
  take_one p t ts i quit e up q = absurd up

  still_waiting :
      (p : Pool A) (t : A) (ts : List A) → IsSound p → p.task_queue ≡ t ∷ ts → Up p.workers
  still_waiting p t ts s q = some-Up p.workers (ground (arith, s.awake, q))

  drain : (ts : List A) (p : Pool A) → IsSound p → p.task_queue ≡ ts → Taking p []
  unfolding run
  drain [] p s q = ([], tt, q)
  drain (t ∷ ts) p s q =
      let (i, w, e, up) = still_waiting p t ts s q in
      let (es, own, left) = take_one p t ts i w e up q in
      let (fs, own', done) = drain ts (run es p) (run_from es p s) left in
      (
        es ++ fs,
        All-append IsThreadStep es fs own own',
        ap (λ (r : Pool A). r.task_queue) (run_append es fs p) ∙ done,
      )

  -- Whatever its users and its threads have done, a pool of at least one thread can take every task
  -- that waits, in steps in which a thread takes the mutex or its task returns, without another signal:
  -- no wake-up is lost, and then the tasks that were taken are those that Enqueue accepted, in order.
  pub run-drains :
      (n : ℕ) (es : List (Event A))
      → 0 < n
      → (fs : List (Event A)) × All IsThreadStep fs
        × (let p = run fs (run es (new_pool n)) in (p.task_queue ≡ []) × (p.taken ≡ p.accepted))
  run-drains n es h =
      let s = run-IsSound n es h in
      let (fs, own, done) = drain (run es (new_pool n)).task_queue (run es (new_pool n)) s refl in
      let s' = run_from fs (run es (new_pool n)) s in
      (
        fs,
        own,
        (
          done,
          sym (s'.fifo ∙ (ap (λ l. (run fs (run es (new_pool n))).taken ++ l) done ∙ append-nil _)),
        ),
      )
