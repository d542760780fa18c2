-- ===== src/Examples/Talk.antt =====
-- Two clients that connect to the reactor and each ask for a sum, at the same time.
use linux_advance.Base.{
  none, take, drop, replicate, ◌⊎◌, zero, suc, subst, sym, length, ◌≤◌, inl, inr, true, false, ℕ,
  ◌≡◌, refl, some, List, [], ◌∷◌, ◌++◌, arith, map,
}
use linux_advance.Base.Monad.{ok}
use linux_advance.Base.Map.{lookup}
use linux_advance.Base.Text.{Text, codes}
use linux_advance.Protocol.Frame.{encode}
use linux_advance.PackageParse.Stream.{frames}
use linux_advance.PackageParse.Chunks.{replies}
use linux_advance.Reactor.Connection.{Connection, new_connection, read_edge, listener_callbacks}
use linux_advance.Reactor.Core.{new_reactor, add_connection, events_of}
use linux_advance.Reactor.Io.{State, took, send_failed, eagain}
use linux_advance.Reactor.Dispatch.{despatcher, readable_now}
use linux_advance.Reactor.Proofs.SendLoop.{pauses, HasError}
use linux_advance.Reactor.Proofs.Receiving.{texts_of}
use linux_advance.Reactor.Proofs.Clients.{bursts, all_texts}
use linux_advance.Reactor.Proofs.Apart.{wire_of}
use linux_advance.Reactor.Proofs.Conversation.{despatcher-replies}
use linux_advance.Reactor.Proofs.Joining.{is_in}
use linux_advance.Reactor.Proofs.Stages.{
  Ready, listens, talks, event_of, own_runs, readers, all_readers, all_accepting, known_after,
  all_known_after, Orderly, AllOrderly, texts,
}
use linux_advance.Examples.ToyJson.{toy_json}
use linux_advance.Examples.Wire.{
  sum_payload, sum_reply, sum_payload-IsAnswered, sum_IsPayload, three_less_two,
}

-- The request of client 5 comes in two pieces, with that of client 6 between them. An answer is taken in
-- two calls, and the socket is full again and again.
abbrev runs : List (ℕ × List Text)
runs =
    (5, take 3 (encode sum_payload) ∷ [])
    ∷ (6, encode sum_payload ∷ [])
    ∷ (5, drop 3 (encode sum_payload) ∷ [])
    ∷ []

-- Three returns of ::epoll_wait.
abbrev waits : List (List Ready)
waits =
    (listens read_edge (5 ∷ 6 ∷ []) ∷ [])
    ∷ (talks 5 read_edge ∷ talks 6 read_edge ∷ [])
    ∷ (talks 6 (events_of true false) ∷ talks 5 read_edge ∷ [])
    ∷ []

abbrev asking : State
asking = record {
  reactor = add_connection 3 read_edge listener_callbacks new_reactor;
  recvs = bursts (texts runs);
  sends = took 2 ∷ (send_failed eagain ∷ (took 1000 ∷ replicate 9 (send_failed eagain)));
  accepts = all_accepting waits;
}

abbrev Client : ℕ → Type 0
Client g = (g ≡ 5) ⊎ (g ≡ 6)

-- What holds of both clients.
both : (P : ℕ → Type 0) → P 5 → P 6 → (g : ℕ) → Client g → P g
both P five six g (inl e) = subst P (sym e) five
both P five six g (inr e) = subst P (sym e) six

listening_lem :
    lookup 3 asking.reactor.connections ≡ some (new_connection 3 read_edge listener_callbacks)
unfolding lookup add_connection linux_advance.Base.Map.insert
listening_lem = refl

nobody_five : lookup 5 asking.reactor.connections ≡ none
unfolding lookup add_connection linux_advance.Base.Map.insert
nobody_five = refl

nobody_six : lookup 6 asking.reactor.connections ≡ none
unfolding lookup add_connection linux_advance.Base.Map.insert
nobody_six = refl

stranger : Client 3 → ⊥
stranger (inl e) = absurd (omega arith)
stranger (inr e) = absurd (omega arith)

orderly : AllOrderly Client waits (λ g. false)
unfolding AllOrderly Orderly known_after is_in readable_now
orderly = (
  (refl, tt),
  ((inl refl, refl, (inr refl, refl, tt)), ((inr refl, refl, (inl refl, refl, tt)), tt)),
)

five_known : all_known_after waits (λ g. false) 5 ≡ true
unfolding all_known_after known_after is_in
five_known = refl

calm : (n : ℕ) → HasError (replicate n (send_failed eagain)) → ⊥
unfolding linux_advance.Reactor.Io.retry_of
calm zero h = h
calm (suc n) (inl e) = cc
calm (suc n) (inr h) = calm n h

no_error : HasError asking.sends → ⊥
unfolding linux_advance.Reactor.Io.retry_of
no_error (inl e) = cc
no_error (inr h) = calm 9 h

pauses_lem : pauses asking.sends ≡ 10
unfolding pauses
pauses_lem = refl

order_lem : map (λ r. r.0) runs ≡ all_readers waits
unfolding all_readers readers readable_now
order_lem = refl

asked_five : all_texts (own_runs 5 runs) ≡ frames (sum_payload ∷ [])
unfolding all_texts texts_of frames encode own_runs linux_advance.Base.Text.c_str
asked_five = refl

asked_six : all_texts (own_runs 6 runs) ≡ frames (sum_payload ∷ [])
unfolding all_texts texts_of frames encode own_runs linux_advance.Base.Text.c_str
asked_six = refl

despatcher-replies_example :
    (t : State) × (conn : Connection) × (despatcher toy_json three_less_two
        (map (map (event_of 3)) waits)
        asking
      ≡ ok t)
    × (lookup 5 t.reactor.connections ≡ some conn)
    × (conn.inbuffer ≡ [])
    × (wire_of 5 t.reactor.calls ++ conn.outbuffer
        ≡ wire_of 5 asking.reactor.calls ++ replies toy_json (λ p. sum_reply) (sum_payload ∷ []))
despatcher-replies_example =
    despatcher-replies toy_json (λ p. sum_reply) three_less_two 3 Client waits runs
      (λ g. sum_payload ∷ []) asking 5 stranger (inl refl) five_known listening_lem
      (both _ nobody_five nobody_six) orderly refl refl order_lem no_error
      (subst (λ n. 10 ≤ n) (sym pauses_lem) (omega arith)) (both _ asked_five asked_six)
      (λ g h. (sum_IsPayload, tt)) (λ g h. (sum_payload-IsAnswered, tt))
