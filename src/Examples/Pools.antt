-- ===== src/Examples/Pools.antt =====
-- The pool and its callers, and the servers of day_01/demo_01, at concrete inputs.
use linux_advance.Base.{All, ℕ, ◌≡◌, true, Option, none, some, List, [], ◌∷◌, ◌++◌, arith, map}
use linux_advance.Base.Monad.{ok}
use linux_advance.Base.Text.{Text, codes}
use linux_advance.Threadpool.{Event, locks, finishes, enqueues, new_pool, run as pool_run}
use linux_advance.Threadpool.Drain.{IsThreadStep, run-drains}
use linux_advance.Threadpool.Instance as instance_calls
use linux_advance.Threadpool.Instance.Places.{IsSingle}
use linux_advance.Threadpool.Instance.Single.{run-IsSingle}
use linux_advance.EchoServer.{Happening, accepts, pool_step, run, message, quits}
use linux_advance.EchoServer.Order.{new_server, clients-run}
use linux_advance.CommandServer.{IsHarmless, nothing_ran, service, start, service-IsHarmless}
use linux_advance.DictServer as dict_server
use linux_advance.DictServer.{Question, arrival_of, answer_of, start-questions}

abbrev schedule : List ℕ
schedule = 0 ∷ 1 ∷ 0 ∷ 1 ∷ 0 ∷ 2 ∷ 0 ∷ 0 ∷ 0 ∷ 1 ∷ 1 ∷ []

run-IsSingle_example : IsSingle (instance_calls.run schedule (instance_calls.no_instance 3))
run-IsSingle_example = run-IsSingle 3 schedule

abbrev happenings : List Happening
happenings =
    accepts true (some 5) 0
    ∷ pool_step (locks 0)
    ∷ accepts true none 0
    ∷ accepts true (some 6) 0
    ∷ pool_step (finishes 0)
    ∷ []

clients-run_example :
    (run happenings (new_server 2)).clients
    ≡ (run happenings (new_server 2)).pool.taken ++ (run happenings (new_server 2)).pool.task_queue
clients-run_example = clients-run 2 happenings (omega arith) (ground arith)

abbrev a_shell : Text → Option (List Text)
a_shell command = some (codes "a.txt" ∷ [])

service-IsHarmless_example :
    IsHarmless
      (service a_shell
        (message (codes "ls") true ∷ message (codes "rm a") true ∷ quits ∷ [])
        nothing_ran).1
    × IsHarmless (start a_shell (some (codes "ls") ∷ none ∷ []) nothing_ran).1
service-IsHarmless_example =
    service-IsHarmless a_shell
      (message (codes "ls") true ∷ message (codes "rm a") true ∷ quits ∷ [])
      (some (codes "ls") ∷ none ∷ [])

abbrev asked : List (Question ℕ)
asked =
    record { peer = 1; word = codes "cat"; entries = (codes "cat", codes "mao") ∷ [] }
    ∷ record { peer = 2; word = codes "dog"; entries = (codes "cat", codes "mao") ∷ [] }
    ∷ []

start-questions_example : dict_server.start (map arrival_of asked) ≡ ok (map answer_of asked)
start-questions_example = start-questions asked (ground arith)

-- Two tasks, and the one thread of the pool asleep before they came.
abbrev before : List (Event ℕ)
before = locks 0 ∷ enqueues 7 0 ∷ enqueues 8 0 ∷ []

run-drains_example :
    (fs : List (Event ℕ)) × All IsThreadStep fs
    × (((pool_run fs (pool_run before (new_pool 1))).task_queue ≡ [])
        × ((pool_run fs (pool_run before (new_pool 1))).taken
            ≡ (pool_run fs (pool_run before (new_pool 1))).accepted))
run-drains_example = run-drains 1 before (omega arith)
