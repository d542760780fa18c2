-- ===== src/Threadpool/Threads.antt =====
-- Thread.hpp, and Start and Wait of Threadpool.hpp, which run over the threads.
use linux_advance.Base.{
  arith, ap, ℕ, ◌≡◌, refl, Bool, true, false, Option, none, some, List, [], ◌∷◌, ◌++◌, map,
  if◌then◌else◌, length,
}
use linux_advance.Base.Text.{Text}

-- A Thread: its name, its id once it has one, and `_stop`.
pub record Thread : Type 0 where
  pub threadname : Text
  pub tid : Option ℕ
  pub stopped : Bool

-- Thread(func, name)
abbrev pub new_thread : Text → Thread
new_thread name = record { threadname = name; tid = none; stopped = true }

-- Start: ::pthread_create gives an id, or fails.
unfoldable pub start : Option ℕ → Thread → Bool × Thread
start none t = (false, t)
start (some id) t = (true, record t { tid = some id; stopped = false })

-- Stop
abbrev pub stop : Thread → Thread
stop t = record t { stopped = true }

-- Join and Detach: the id that is given to ::pthread_join or to ::pthread_detach, if the thread runs.
unfoldable pub joined : Thread → List (Option ℕ)
joined t = if t.stopped then [] else t.tid ∷ []

-- Start of the pool, with the answer of each ::pthread_create; the results are not looked at.
unfoldable pub start_all : List (Option ℕ) → List Thread → List Thread
start_all answers [] = []
start_all [] (t ∷ ts) = t ∷ ts
start_all (a ∷ answers) (t ∷ ts) = (start a t).1 ∷ start_all answers ts

-- Wait of the pool: the ids that are joined, in order.
unfoldable pub wait : List Thread → List (Option ℕ)
wait [] = []
wait (t ∷ ts) = joined t ++ wait ts

-- The ids that ::pthread_create gave.
abbrev pub given : List (Option ℕ) → List (Option ℕ)
given [] = []
given (none ∷ answers) = given answers
given (some id ∷ answers) = some id ∷ given answers

-- Wait joins each thread that was started, once and in order, and no other, if there is an answer for every
-- thread.
pub wait-start_all :
    (names : List Text) (answers : List (Option ℕ))
    → length answers ≡ length names
    → wait (start_all answers (map new_thread names)) ≡ given answers
unfolding wait start_all start joined
wait-start_all [] [] h = refl
wait-start_all [] (a ∷ answers) h = absurd (omega arith)
wait-start_all (n ∷ names) [] h = absurd (omega arith)
wait-start_all (n ∷ names) (none ∷ answers) h = wait-start_all names answers (omega arith)
wait-start_all (n ∷ names) (some id ∷ answers) h =
    ap (λ l. some id ∷ l) (wait-start_all names answers (omega arith))
