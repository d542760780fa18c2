-- ===== src/Examples/Processes.antt =====
-- A daemon, and two clients of the server that executes commands.
use linux_advance.Base.{
  ◌≡◌, refl, arith, true, false, Option, none, some, List, [], ◌∷◌, map, get_elem?,
}
use linux_advance.Base.Monad.{ok}
use linux_advance.Base.Map.{lookup}
use linux_advance.Base.Text.{Text, codes}
use linux_advance.Command.{on_command}
use linux_advance.EchoServer.{message, quits}
use linux_advance.CommandServer.Threads.{
  Thread, Server, Happening, accepts, rounds, run, new_server, new_thread,
}
use linux_advance.CommandServer.Threads.Calm.{asked}
use linux_advance.CommandServer.Threads.Harmless.{AllHarmless}
use linux_advance.CommandServer.Threads.Answers.{run-answers}
use linux_advance.Daemon.{
  other, Process, in_child, continues, daemon, behind, sigpipe, sigchld, daemon-in_child,
}

-- A process on a terminal, with a log file.
abbrev in_terminal : Process
in_terminal = record {
  ignored = [];
  session_leader = false;
  working_directory = codes "/home";
  descriptors = (0, other 7) ∷ (1, other 7) ∷ (2, other 7) ∷ (3, other 8) ∷ [];
}

daemon-in_child_example :
    (q : Process) × (daemon in_child true true false (some 4) in_terminal ≡ continues q)
    × (q.session_leader ≡ true)
    × (q.working_directory ≡ codes "/")
    × (q.ignored ≡ sigpipe ∷ (sigchld ∷ []))
    × (lookup 1 q.descriptors ≡ behind false (some 4) 1 (lookup 1 in_terminal.descriptors))
unfolding lookup
daemon-in_child_example = daemon-in_child false true (some 4) in_terminal 1 refl

abbrev echoes : Text → Option (List Text)
echoes command = some (command ∷ [])

-- A server with one client, while a second comes.
abbrev one_client : Server
one_client = record new_server { threads = new_thread 4 ∷ [] }

abbrev two_talk : List Happening
two_talk =
    rounds 0 (message (codes "pwd") true)
    ∷ rounds 1 (message (codes "ls") true)
    ∷ rounds 0 quits
    ∷ rounds 1 (message (codes "rm x") true)
    ∷ []

run-answers_example :
    (s' : Server) × (t : Thread) × (run echoes (accepts true (some 5) true ∷ two_talk) one_client
      ≡ ok s')
    × (s'.exited ≡ none)
    × (get_elem? s'.threads 1 ≡ some t)
    × (t.sent ≡ map (λ c. (on_command echoes c).0) (asked 1 two_talk))
    × AllHarmless s'
run-answers_example = run-answers echoes one_client 5 two_talk refl tt (ground arith)
