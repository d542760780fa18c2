-- ===== src/Examples/Multiplex.antt =====
-- The echo servers over select, poll and epoll.
use linux_advance.Base.{◌+◌, ◌≡◌, refl, true, some, [], ◌∷◌, ◌==◌}
use linux_advance.Multiplex.Echo.{Kernel, opened, at_end, close, ctl_add, ctl_del}
use linux_advance.Multiplex.Held.{one_if, arrivals}
use linux_advance.Multiplex.Slots.{first_free}
use linux_advance.Multiplex.Select as Select
use linux_advance.Multiplex.Epoll as Epoll
use linux_advance.Multiplex.Poll as Poll
use linux_advance.Multiplex.Select.Held.{tally, loop-tally}
use linux_advance.Multiplex.Poll.Held.{balance, loop-balance}
use linux_advance.Multiplex.Epoll.Interest.{IsServing, loop_round-IsServing, new_server-IsServing}

-- A client comes.
abbrev kernel : Kernel
kernel = record { accepts = some 5 ∷ []; recvs = [] }

abbrev quiet : Kernel
quiet = record { accepts = []; recvs = [] }

-- The client is in the table.
loop-tally_example :
    tally 5 (Select.place_client 5 (Select.new_server 3 quiet))
    ≡ one_if 5 3 + arrivals 5 (some 5 ∷ [])
unfolding Select.loop Select.watch_set Select.max_fd Select.after_select Select.loop_round
    Select.handler_read Select.handle_place Select.accept_client Select.new_server
    Select.place_client first_free
loop-tally_example =
    loop-tally 5 3 kernel (Select.ready (λ fd. fd == 3) ∷ Select.timed_out ∷ [])
      (Select.place_client 5 (Select.new_server 3 quiet)) refl

abbrev polled : Kernel → Poll.PollServer
polled k = record (Poll.new_server 3 k) {
  fds = Poll.write_revents (Poll.poll_in ∷ []) (Poll.new_server 3 k).fds;
}

loop-balance_example :
    balance 5 (Poll.place_client 5 (polled quiet)) ≡ one_if 5 3 + arrivals 5 (some 5 ∷ [])
unfolding Poll.loop Poll.loop_round Poll.handler_read Poll.handle_place Poll.accept_client
    Poll.new_server Poll.place_client first_free Poll.write_revents
loop-balance_example =
    loop-balance 5 3 kernel (Poll.ready (Poll.poll_in ∷ []) ∷ Poll.timed_out ∷ [])
      (Poll.place_client 5 (polled quiet)) refl

-- A client comes and leaves.
loop_round-IsServing_example :
    IsServing
      (λ cs. true)
      (record {
        listensock = 3;
        calls = close 5 ∷ ctl_del 5 ∷ ctl_add 5 ∷ opened 5 ∷ ctl_add 3 ∷ opened 3 ∷ [];
        kernel = quiet;
      })
unfolding Epoll.new_server Epoll.loop_round Epoll.handler_read Epoll.handle_event
    Epoll.accept_client Epoll.service_io Epoll.serve
loop_round-IsServing_example =
    loop_round-IsServing (λ cs. true) (λ cs. refl) (Epoll.ready ((3, true) ∷ (5, true) ∷ []))
      (Epoll.new_server 3 (record { accepts = some 5 ∷ []; recvs = at_end ∷ [] })) _
      (new_server-IsServing (λ cs. true) (λ cs. refl) 3
        (record { accepts = some 5 ∷ []; recvs = at_end ∷ [] }))
      refl
