-- ===== src/RcvQueue/Tests.antt =====
-- udt4/src/queue.cpp: the packets that `CRcvQueue` keeps, on small queues.
use udt_patch_for_epoll.Prelude.{◌≤◌, ◌≡◌, refl, some, List, [], ◌∷◌, length}
use udt_patch_for_epoll.RcvQueue.{
  Packet, Connector, new_queue, register_connector, remove_connector_of, retrieve, set_listener,
  take_pkt,
}
use udt_patch_for_epoll.RcvQueue.Buffers.{
  Call, stored, asked, disconnected, calls, own_calls, queue_of, reply,
}
use udt_patch_for_epoll.RcvQueue.Bounds.{take_pkt-calls}

abbrev hello : Packet
hello = record { header = 0 ∷ 0 ∷ 0 ∷ 0 ∷ []; bytes = 1 ∷ 2 ∷ 3 ∷ [] }

abbrev history : List Call
history =
    stored 5 hello ∷ stored 6 hello ∷ asked 5 2 ∷ asked 5 10 ∷ stored 5 hello ∷ disconnected 6 ∷ []

take_pkt-calls_example :
    let q = calls new_queue history in
    (queue_of q 5 ≡ own_calls 5 [] history)
    × (length (queue_of q 5) ≤ 17)
    × ((take_pkt q 5 10).0 ≡ reply 10 (own_calls 5 [] history))
take_pkt-calls_example = take_pkt-calls history 5 10

abbrev peer : Connector
peer = record { id = 7; udt = 70; address = 99; ttl = 3 }

any_id_matches : retrieve (register_connector new_queue peer).connectors 99 0 ≡ some peer
unfolding retrieve
any_id_matches = refl

gone_again : remove_connector_of 7 (register_connector new_queue peer).connectors ≡ []
unfolding remove_connector_of
gone_again = refl

one_listener : (set_listener (set_listener new_queue 4).1 5).1.listener ≡ some 4
one_listener = refl
