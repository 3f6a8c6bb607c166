-- ===== src/UdtClient/Receiving.antt =====
-- client_epoll/udt_client.cpp: the read loop of `TryRecvMsg`, and what it hands to the callback.
use udt_patch_for_epoll.Prelude.{
  ℕ, zero, suc, ◌≡◌, ◌⊎◌, refl, sym, ap, ◌∙◌, Bool, List, [], ◌++◌, Bool-cases, inl, inr,
}
use udt_patch_for_epoll.SendMsgBuf.{Bytes}
use udt_patch_for_epoll.Udt.{Udt, FillsBuffer}
use udt_patch_for_epoll.UdtServer.Echo.{Takes, finished, Spins, not_asked, once_more}
use udt_patch_for_epoll.UdtClient.{
  UdtClient, Outcome, returned, out_of_fuel, do_recv_msg, recv_loop,
}
use udt_patch_for_epoll.UdtClient.Ledger.{Ledger}
use udt_patch_for_epoll.UdtClient.Turns.{
  heard, heard-nil, heard_twice, SameSending, same, Turn, more_reported, do_recv_msg-Turn,
}

module _ (u : Udt) (l : Ledger u) (sock : ℕ) where
  -- The loop came back, having taken the messages `ms`, which are what `recvmsg` gave: the callback,
  -- if there is one, was called with exactly these, in order. The fields for sending are what they
  -- were, and nothing was sent.
  pub record Delivered (c : UdtClient) (w : u.World) (o : Outcome u) : Type 0 where
    pub client : UdtClient
    pub world : u.World
    pub ms : List Bytes
    pub returns : o ≡ returned client world
    pub takes : Takes u sock world w ms
    pub called : client.called_with ≡ heard c.has_callback c.called_with ms
    pub others : SameSending c client
    pub sent : l.sent world ≡ l.sent w

  after-Turn :
      (c : UdtClient) (w taken : u.World) (c2 : UdtClient) (w2 : u.World) (o : Outcome u)
      → Turn u l sock c w taken c2 w2
      → Delivered c2 w2 o
      → Delivered c w o
  after-Turn c w taken c2 w2 o r t = record {
    client = t.client;
    world = t.world;
    ms = r.ms ++ t.ms;
    returns = t.returns;
    takes = r.before t.world t.ms t.takes;
    called =
        t.called
        ∙ ap (λ (b : Bool). heard b c2.called_with t.ms) r.others.callback
        ∙ ap (λ (x : List Bytes). heard c.has_callback x t.ms) r.called
        ∙ heard_twice c.has_callback c.called_with r.ms t.ms;
    others = same c c2 t.client r.others t.others;
    sent = t.sent ∙ r.sent;
  }

  last-Turn : (c : UdtClient) (w : u.World) → Delivered c w (returned c w)
  last-Turn c w = record {
    client = c;
    world = w;
    ms = [];
    returns = refl;
    takes = finished refl;
    called = sym (heard-nil c.has_callback c.called_with);
    others = record { buff = refl; queue = refl; sock = refl; callback = refl };
    sent = refl;
  }

  -- The loop came back, or all its fuel went into calls that reported messages left.
  abbrev pub DeliveredOrSpins : ℕ → UdtClient → u.World → Outcome u → Type 0
  DeliveredOrSpins fuel c w o = Delivered c w o ⊎ ((o ≡ out_of_fuel) × Spins u sock fuel w)

  -- The read loop on a socket, whatever number of rounds it may take: if `recvmsg` reports the sizes
  -- that it wrote, the loop comes back, unless `recvmsg` said at every one of these rounds that
  -- messages are left. When it comes back, it took messages from the library and called the
  -- callback, if there is one, with exactly those, in order; it sent nothing and left the messages
  -- that wait to be sent alone.
  pub recv_loop_delivers :
      (fuel : ℕ) (c : UdtClient) (w : u.World)
      → FillsBuffer u
      → DeliveredOrSpins fuel c w (recv_loop u fuel c w sock)
  unfolding recv_loop
  recv_loop_delivers zero c w law = inr (refl, not_asked)
  recv_loop_delivers (suc fuel) c w law =
      let r = do_recv_msg-Turn u l sock c w law in
      elim (Bool-cases (do_recv_msg u c w sock).0) [
        | inl t ↦
            rw (t, recv_loop)
              (elim (recv_loop_delivers fuel _ _ law) [
                | inl d ↦ inl (after-Turn _ _ _ _ _ _ r d)
                | inr (o, k) ↦
                    inr (o, once_more _ (sym (more_reported u l sock c w) ∙ t) r.between k)
              ])
        | inr t ↦ rw (t, recv_loop) (inl (after-Turn _ _ _ _ _ _ r (last-Turn _ _)))
      ]
