-- ===== src/Threadpool/Instance/Places.antt =====
-- Where the callers of GetInstance are, in numbers, and what is to hold of them.
use linux_advance.Base.{
  ℕ, zero, suc, ◌+◌, ◌≡◌, ◌⊎◌, Bool, true, false, some, List, [], ◌∷◌, arith, set, get_elem?,
}
use linux_advance.Threadpool.{one}
use linux_advance.Threadpool.Instance.{
  Caller, arriving, waiting, checking, made, initialised, started, returned, Shared,
}

-- Between the lock and its release.
abbrev pub is_inside : Caller → Bool
is_inside arriving = false
is_inside waiting = false
is_inside checking = true
is_inside made = true
is_inside initialised = true
is_inside started = true
is_inside returned = false

abbrev pub is_building : Caller → Bool
is_building arriving = false
is_building waiting = false
is_building checking = false
is_building made = true
is_building initialised = false
is_building started = false
is_building returned = false

-- With a pool: made by the caller itself, or returned to it.
abbrev pub is_served : Caller → Bool
is_served arriving = false
is_served waiting = false
is_served checking = false
is_served made = true
is_served initialised = true
is_served started = true
is_served returned = true

unfoldable pub count : (Caller → Bool) → List Caller → ℕ
count f [] = 0
count f (c ∷ cs) = one (f c) + count f cs

-- The lock is held by at most one caller, the flag says whether it is; one pool was made if `_instance`
-- points to it, and none otherwise, and then no caller has a pool; a pool that is published runs, unless
-- the caller that made it is about to set it running.
pub record IsSingle (s : Shared) : Type 0 where
  pub exclusive : count is_inside s.callers ≡ one s.locked
  pub single : s.made_pools ≡ one s.published
  pub served : (s.published ≡ true) ⊎ (count is_served s.callers ≡ 0)
  pub ready : one s.isrunning + count is_building s.callers ≡ one s.published

count-set :
    (f : Caller → Bool) (cs : List Caller) (i : ℕ) (c d : Caller)
    → get_elem? cs i ≡ some c
    → count f (set cs i d) + one (f c) ≡ count f cs + one (f d)
unfolding count
count-set f [] i c d h = cc
count-set f (x ∷ cs) zero c d h = ground arith
count-set f (x ∷ cs) (suc i) c d h = ground (arith, count-set f cs i c d h)

-- How the counts change where a caller goes from `c` to `d`.
pub moved :
    (s : Shared) (i : ℕ) (c d : Caller)
    → get_elem? s.callers i ≡ some c
    → let cs = set s.callers i d in
      (count is_inside cs + one (is_inside c) ≡ count is_inside s.callers + one (is_inside d))
      × (count is_building cs + one (is_building c)
          ≡ count is_building s.callers + one (is_building d))
      × (count is_served cs + one (is_served c) ≡ count is_served s.callers + one (is_served d))
moved s i c d h = (
  count-set is_inside s.callers i c d h,
  count-set is_building s.callers i c d h,
  count-set is_served s.callers i c d h,
)
