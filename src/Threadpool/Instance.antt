-- ===== src/Threadpool/Instance.antt =====
-- GetInstance of Threadpool.hpp: threads that ask for the one pool at the same time, and make it under
-- the lock where there is none. A step is one access to what the threads share.
pub mod Places
pub mod Single
use linux_advance.Base.{
  ℕ, zero, suc, ◌+◌, ◌≡◌, refl, ◌⊎◌, inl, inr, Bool, true, false, Option, none, some, List, [], ◌∷◌,
  arith, set, get_elem?, replicate,
}

-- Where a caller is: before the first test of `_instance`, before the lock, before the second test, behind
-- `new`, behind InitThreadPool, behind Start with the lock still held, or back with the pool.
pub data Caller : Type 0 where
  arriving waiting checking made initialised started returned : Caller

-- Whether `_lock` is taken, how many pools were made, whether `_instance` points to one, whether that one
-- is set running, and the callers.
pub record Shared : Type 0 where
  pub locked : Bool
  pub made_pools : ℕ
  pub published : Bool
  pub isrunning : Bool
  pub callers : List Caller

-- The tests of a caller.
abbrev pub first_test : Bool → Caller
first_test true = returned
first_test false = waiting

abbrev pub take_lock : Bool → Shared → Caller × Shared
take_lock true s = (waiting, s)
take_lock false s = (checking, record s { locked = true })

-- Behind the second test the guard gives the lock back, or the pool is made and published.
abbrev pub second_test : Bool → Shared → Caller × Shared
second_test true s = (returned, record s { locked = false })
second_test false s = (made, record s { made_pools = suc s.made_pools; published = true })

-- GetInstance, one step of a caller.
unfoldable pub get_instance : Caller → Shared → Caller × Shared
get_instance arriving s = (first_test s.published, s)
get_instance waiting s = take_lock s.locked s
get_instance checking s = second_test s.published s
get_instance made s = (initialised, record s { isrunning = true })
get_instance initialised s = (started, s)
get_instance started s = (returned, record s { locked = false })
get_instance returned s = (returned, s)

abbrev pub put : ℕ → Caller × Shared → Shared
put i (c, s) = record s { callers = set s.callers i c }

abbrev pub at_caller : Option Caller → ℕ → Shared → Shared
at_caller none i s = s
at_caller (some c) i s = put i (get_instance c s)

-- A caller that the scheduler chooses takes a step.
unfoldable pub step : ℕ → Shared → Shared
step i s = at_caller (get_elem? s.callers i) i s

unfoldable pub run : List ℕ → Shared → Shared
run [] s = s
run (i ∷ is) s = run is (step i s)

-- Callers before there is a pool.
abbrev pub no_instance : ℕ → Shared
no_instance n = record {
  locked = false;
  made_pools = 0;
  published = false;
  isrunning = false;
  callers = replicate n arriving;
}
