-- ===== src/SockSend/Tests.antt =====
-- A send that fills the buffer of a socket with one epoll, at the state of the theorem.
use udt_patch_for_epoll.Prelude.{
  ℕ, ◌<◌, ◌≤◌, ◌≡◌, refl, true, false, none, List, [], ◌∷◌, ◌++◌, arith, ◌⊎◌,
}
use udt_patch_for_epoll.Std.Set.{contains}
use udt_patch_for_epoll.Udt.{ret, error, easyncsnd}
use udt_patch_for_epoll.Epoll.{EpollDesc, Epoll}
use udt_patch_for_epoll.RcvBuffer.{done}
use udt_patch_for_epoll.SndBuffer.{Block, SndBuffer}
use udt_patch_for_epoll.SockSend.{Sender, Sending, room, sendmsg}
use udt_patch_for_epoll.SockSend.Sent.{IsReady, Accepted, packets, sendmsg_lem}

abbrev memory : Block
memory = record { payload = []; msg_no = 0; origin_time = 0; ttl = none }

abbrev desc : EpollDesc
desc = record {
  id = 1;
  udt_socks_out = 5 ∷ [];
  udt_socks_in = [];
  local_id = 3;
  locals = [];
  udt_writes = 5 ∷ [];
  udt_reads = [];
}

abbrev poll : Epoll
poll = record { id_seed = 1; polls = (1, desc) ∷ [] }

abbrev empty_buffer : SndBuffer
empty_buffer = record {
  blocks = memory ∷ memory ∷ [];
  curr = 0;
  last = 0;
  next_msg_no = 1;
  size = 2;
  mss = 2;
  count = 0;
  unit_size = 2;
}

abbrev sock : Sender
sock = record {
  poll_ids = 1 ∷ [];
  is_stream = false;
  connected = true;
  broken = false;
  closing = false;
  snd_buf_size = 3;
  payload_size = 2;
  snd_buffer = empty_buffer;
}

sock-IsReady : IsReady sock [] []
sock-IsReady = record {
  dgram = refl;
  alive = refl;
  connected = refl;
  sending = record {
    queue = record {
      free = memory ∷ memory ∷ [];
      split = refl;
      room = omega arith;
      count = refl;
      last = refl;
      size = refl;
      sent = omega arith;
      unit_size = omega arith;
    };
    curr = refl;
  };
  mss = refl;
  some_payload = omega arith;
  bounded = omega arith;
}

abbrev five : List ℕ
five = 1 ∷ 2 ∷ 3 ∷ 4 ∷ 5 ∷ []

sendmsg_lem_example :
    (r : Sending) × (sendmsg poll 5 sock five none true 9 memory ≡ done r)
    × (((5 ≤ room sock)
          × (r.0 ≡ ret 5)
          × Accepted poll 5 1 sock [] ([] ++ packets sock five none true 9) r)
        ⊎ ((room sock < 5) × (r ≡ (error easyncsnd, poll, sock))))
unfolding contains
sendmsg_lem_example =
    sendmsg_lem poll 5 1 sock [] [] five none true 9 memory sock-IsReady refl (omega arith)
      (omega arith)
