-- ===== src/Threadpool/Users.antt =====
-- What is to hold of the pool whatever the order of its steps, and the steps of its users: Enqueue and
-- Stop.
use linux_advance.Base.{
  ℕ, ◌+◌, ◌<◌, ◌⊎◌, ◌≡◌, refl, sym, ap, subst, ◌∙◌, Bool, true, false, List, [], ◌∷◌, ◌++◌, arith,
  ltb, if◌then◌else◌, length, append_assoc, Bool-cases, inl, inr,
}
use linux_advance.Threadpool.{Worker, Pool, is_asleep, count, signal, pushed, enqueue, stop}
use linux_advance.Threadpool.Counts.{
  is_woken, is_quit, Signalled, length-broadcast, broadcast_lem, asleep_quit_le, signal-Signalled,
}

module _ {A : Type 0} where
  -- The pool has threads; tasks are taken in the order in which they were accepted, none lost and none
  -- twice; `_waitnum` counts the threads in pthread_cond_wait; behind Stop no thread sleeps; a thread
  -- quits only behind Stop, when no task is left; while a task waits some thread is awake.
  pub record IsSound (p : Pool A) : Type 0 where
    pub fifo : p.accepted ≡ p.taken ++ p.task_queue
    pub waits : p.waitnum ≡ count is_asleep p.workers + count is_woken p.workers
    pub stopped : (p.isrunning ≡ true) ⊎ (count is_asleep p.workers ≡ 0)
    pub drained : (count is_quit p.workers ≡ 0) ⊎ ((p.isrunning ≡ false) × (p.task_queue ≡ []))
    pub awake :
        (p.task_queue ≡ [])
        ⊎ (count is_asleep p.workers + count is_quit p.workers < length p.workers)
    pub threads : 0 < length p.workers

  abbrev Roused : List (Worker A) → List (Worker A) → Type 0
  Roused ws vs =
      (count is_asleep vs ≡ 0)
      × (count is_woken vs ≡ count is_asleep ws + count is_woken ws)
      × (count is_quit vs ≡ count is_quit ws)
      × (length vs ≡ length ws)

  stop_workers : (p : Pool A) → IsSound p → Roused p.workers (stop p).workers
  unfolding stop
  stop_workers p s = elim (Bool-cases (ltb 0 p.waitnum)) [
    | inl e ↦ rw e (ground (arith, broadcast_lem p.workers, length-broadcast p.workers))
    | inr e ↦ rw e (ground (arith, s.waits))
  ]

  pub stop-IsSound : (p : Pool A) → IsSound p → IsSound (stop p)
  unfolding stop
  stop-IsSound p s =
      let r = stop_workers p s in
      record {
        fifo = s.fifo;
        waits = ground (arith, r, s.waits);
        stopped = inr r.0;
        drained = ground (arith, r, s.drained);
        awake = ground (arith, r, s.awake);
        threads = ground (arith, r, s.threads);
      }

  enqueue_workers :
      (k : ℕ) (p : Pool A)
      → IsSound p
      → Signalled p.workers (if ltb 0 p.waitnum then signal k p.workers else p.workers)
  enqueue_workers k p s = elim (Bool-cases (ltb 0 p.waitnum)) [
    | inl e ↦ rw e (signal-Signalled k p.workers)
    | inr e ↦ rw e (refl, inr (refl, ground (arith, s.waits)))
  ]

  push-IsSound :
      (t : A) (vs : List (Worker A)) (p : Pool A)
      → IsSound p
      → p.isrunning ≡ true
      → Signalled p.workers vs
      → IsSound (pushed t vs p)
  push-IsSound t vs p s on r = record {
    fifo = ap (λ l. l ++ t ∷ []) s.fifo ∙ append_assoc p.taken p.task_queue (t ∷ []);
    waits = ground (arith, r, s.waits);
    stopped = inl on;
    drained = ground (arith, r, on, s.drained);
    awake = inr (ground (arith, r, on, s.drained, s.threads, asleep_quit_le p.workers));
    threads = ground (arith, r, s.threads);
  }

  pub enqueue-IsSound : (t : A) (k : ℕ) (p : Pool A) → IsSound p → IsSound (enqueue t k p).1
  unfolding enqueue
  enqueue-IsSound t k p s =
      let ws = if ltb 0 p.waitnum then signal k p.workers else p.workers in
      elim (Bool-cases p.isrunning) [
        | inl on ↦
            subst
              (λ b.
                IsSound (if◌then◌else◌ {A = Bool × Pool A} b (true, pushed t ws p) (false, p)).1)
              (sym on) (push-IsSound t ws p s on (enqueue_workers k p s))
        | inr off ↦
            subst
              (λ b.
                IsSound (if◌then◌else◌ {A = Bool × Pool A} b (true, pushed t ws p) (false, p)).1)
              (sym off) s
      ]
