-- ===== src/Threadpool/Instance/Single.antt =====
-- The callers of GetInstance at the same time: who holds the lock, and how many pools there are.
use linux_advance.Base.{
  ℕ, zero, suc, ◌≡◌, refl, ◌⊎◌, inl, inr, Bool, true, false, Option, none, some, List, [], ◌∷◌,
  arith, get_elem?, replicate,
}
use linux_advance.Threadpool.Instance.{
  Caller, arriving, waiting, checking, made, initialised, started, returned, Shared, first_test,
  take_lock, second_test, get_instance, put, at_caller, step, run, no_instance,
}
use linux_advance.Threadpool.Instance.Places.{
  is_inside, is_building, is_served, count, IsSingle, moved,
}

-- A step that changes nothing but where its caller is.
stay-IsSingle :
    (s : Shared) (i : ℕ) (c d : Caller)
    → get_elem? s.callers i ≡ some c
    → is_inside c ≡ is_inside d
    → is_building c ≡ is_building d
    → (is_served c ≡ is_served d) ⊎ (s.published ≡ true)
    → IsSingle s
    → IsSingle (put i (d, s))
stay-IsSingle s i c d h a b e o =
    let m = moved s i c d h in
    record {
      exclusive = ground (arith, m, a, o.exclusive);
      single = o.single;
      served = ground (arith, m, e, o.served);
      ready = ground (arith, m, b, o.ready);
    }

-- The lock is given back.
release-IsSingle :
    (s : Shared) (i : ℕ) (c : Caller)
    → get_elem? s.callers i ≡ some c
    → is_inside c ≡ true
    → is_building c ≡ false
    → s.published ≡ true
    → IsSingle s
    → IsSingle (put i (returned, record s { locked = false }))
release-IsSingle s i c h a b e o =
    let m = moved s i c returned h in
    record {
      exclusive = ground (arith, m, a, o.exclusive);
      single = o.single;
      served = inl e;
      ready = ground (arith, m, b, o.ready);
    }

first_test-IsSingle :
    (b : Bool) (i : ℕ) (s : Shared)
    → s.published ≡ b
    → get_elem? s.callers i ≡ some arriving
    → IsSingle s
    → IsSingle (put i (first_test b, s))
first_test-IsSingle true i s e h o = stay-IsSingle s i arriving returned h refl refl (inr e) o
first_test-IsSingle false i s e h o = stay-IsSingle s i arriving waiting h refl refl (inl refl) o

take_lock-IsSingle :
    (b : Bool) (i : ℕ) (s : Shared)
    → s.locked ≡ b
    → get_elem? s.callers i ≡ some waiting
    → IsSingle s
    → IsSingle (put i (take_lock b s))
take_lock-IsSingle true i s e h o = stay-IsSingle s i waiting waiting h refl refl (inl refl) o
take_lock-IsSingle false i s e h o =
    let m = moved s i waiting checking h in
    record {
      exclusive = ground (arith, m, e, o.exclusive);
      single = o.single;
      served = ground (arith, m, o.served);
      ready = ground (arith, m, o.ready);
    }

second_test-IsSingle :
    (b : Bool) (i : ℕ) (s : Shared)
    → s.published ≡ b
    → get_elem? s.callers i ≡ some checking
    → IsSingle s
    → IsSingle (put i (second_test b s))
second_test-IsSingle true i s e h o = release-IsSingle s i checking h refl refl e o
second_test-IsSingle false i s e h o =
    let m = moved s i checking made h in
    record {
      exclusive = ground (arith, m, o.exclusive);
      single = ground (arith, e, o.single);
      served = inl refl;
      ready = ground (arith, m, e, o.ready);
    }

-- A caller with a pool is there only where one is published.
served_published :
    (s : Shared) (i : ℕ) (c : Caller)
    → get_elem? s.callers i ≡ some c
    → is_served c ≡ true
    → IsSingle s
    → s.published ≡ true
served_published s i c h e o = ground (arith, e, moved s i c arriving h, o.served)

put-IsSingle :
    (c : Caller) (i : ℕ) (s : Shared)
    → get_elem? s.callers i ≡ some c
    → IsSingle s
    → IsSingle (put i (get_instance c s))
unfolding get_instance
put-IsSingle arriving i s h o = first_test-IsSingle s.published i s refl h o
put-IsSingle waiting i s h o = take_lock-IsSingle s.locked i s refl h o
put-IsSingle checking i s h o = second_test-IsSingle s.published i s refl h o
put-IsSingle made i s h o =
    let m = moved s i made initialised h in
    let p = served_published s i made h refl o in
    record {
      exclusive = ground (arith, m, o.exclusive);
      single = o.single;
      served = inl p;
      ready = ground (arith, m, p, o.ready);
    }
put-IsSingle initialised i s h o = stay-IsSingle s i initialised started h refl refl (inl refl) o
put-IsSingle started i s h o =
    release-IsSingle s i started h refl refl (served_published s i started h refl o) o
put-IsSingle returned i s h o = stay-IsSingle s i returned returned h refl refl (inl refl) o

at_caller-IsSingle :
    (x : Option Caller) (i : ℕ) (s : Shared)
    → get_elem? s.callers i ≡ x
    → IsSingle s
    → IsSingle (at_caller x i s)
at_caller-IsSingle none i s h o = o
at_caller-IsSingle (some c) i s h o = put-IsSingle c i s h o

run_from : (is : List ℕ) (s : Shared) → IsSingle s → IsSingle (run is s)
unfolding run step
run_from [] s o = o
run_from (i ∷ is) s o =
    run_from is (step i s) (at_caller-IsSingle (get_elem? s.callers i) i s refl o)

count-replicate :
    (f : Caller → Bool) (n : ℕ) → f arriving ≡ false → count f (replicate n arriving) ≡ 0
unfolding count
count-replicate f zero h = refl
count-replicate f (suc n) h = ground (arith, h, count-replicate f n h)

-- However the callers of GetInstance take turns, at most one is between the lock and its release, and
-- the lock says so; one pool was made if one is published, and none otherwise, and then no caller has a
-- pool; a published pool is set running, except while the caller that made it has not yet called
-- InitThreadPool.
pub run-IsSingle : (n : ℕ) (is : List ℕ) → IsSingle (run is (no_instance n))
run-IsSingle n is = run_from is (no_instance n) (record {
  exclusive = count-replicate is_inside n refl;
  single = refl;
  served = inr (count-replicate is_served n refl);
  ready = ground (arith, count-replicate is_building n refl);
})
