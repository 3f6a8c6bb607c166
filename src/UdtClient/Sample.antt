-- ===== src/UdtClient/Sample.antt =====
-- A small library with a log of what it took, clients and a schedule, for the tests.
use udt_patch_for_epoll.Prelude.{ℕ, ◌≡◌, ◌≢◌, ap, true, none, some, List, [], ◌∷◌, arith}
use udt_patch_for_epoll.SendMsgBuf.{Bytes, MsgPtr}
use udt_patch_for_epoll.ThreadsafeQueue
use udt_patch_for_epoll.Udt.{Udt, Received, FillsBuffer}
use udt_patch_for_epoll.Udt.Toy.{two_waiting, toy, receive_in_fills}
use udt_patch_for_epoll.UdtClient.{UdtClient}
use udt_patch_for_epoll.UdtClient.Logged.{logged}

-- The small library with a log, its socket 5 having two messages.
abbrev pub lib : Udt
lib = logged toy

abbrev pub busy : lib.World
busy = record { log = []; world = record { space = 1; inbox = two_waiting (1 ∷ 2 ∷ []) (3 ∷ []) } }

abbrev pub client : UdtClient
client = record {
  has_callback = true;
  called_with = [];
  send_msg_queue = ThreadsafeQueue.new_queue;
  send_msg_buff = some (8 ∷ []) ∷ some (9 ∷ 9 ∷ []) ∷ [];
  local_port = 1;
  ip_connect_to = [];
  port_connect_to = 2;
  sock = 5;
  udtbuf = [];
  udtbuf_recved_len = 0;
  udt_running = true;
  udt_eid = 7;
}

abbrev pub idle : UdtClient
idle = record client { send_msg_buff = [] }

abbrev pub schedule : List (List MsgPtr)
schedule = (some (4 ∷ []) ∷ []) ∷ [] ∷ (some (5 ∷ 6 ∷ []) ∷ []) ∷ []

pub unlogged :
    (w w' : lib.World) (sock len : ℕ) (r : Received)
    → lib.recvmsg w sock len ≡ (r, w')
    → toy.recvmsg w.world sock len ≡ (r, w'.world)
unlogged w w' sock len r e = ap (λ (x : Received × lib.World). (x.0, x.1.world)) e

pub lib-FillsBuffer : FillsBuffer lib
lib-FillsBuffer w w' sock len n r e h =
    receive_in_fills w.world.inbox w.world w'.world n r (unlogged w w' sock len r e) h

pub some_null : (m : Bytes) → some m ≢ none
some_null m e = ground (arith, e)
