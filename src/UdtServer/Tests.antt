-- ===== src/UdtServer/Tests.antt =====
-- The server with the small library, and its theorems at such runs.
use udt_patch_for_epoll.Prelude.{[], ◌∷◌, true}
use udt_patch_for_epoll.Udt.Toy.{World, two_waiting, toy, toy-FillsBuffer}
use udt_patch_for_epoll.SendMsgCtrl.{new_ctrl}
use udt_patch_for_epoll.SendMsgCtrl.Armed.{new_ctrl-IsArmed}
use udt_patch_for_epoll.UdtServer.{UdtServer, recv_loop}
use udt_patch_for_epoll.UdtServer.ReadLoop.{EchoedOrSpins, recv_loop_echoes}

abbrev busy : World
busy = record { space = 1; inbox = two_waiting (1 ∷ 2 ∷ []) (3 ∷ []) }

abbrev idle_server : UdtServer
idle_server = record {
  listen_sock = 7;
  udtbuf = [];
  udtbuf_recved_len = 0;
  udt_running = true;
  udt_eid = 7;
  send_msg_ctrl = new_ctrl 7;
}

recv_loop_echoes_example :
    EchoedOrSpins toy 5 3 idle_server busy (recv_loop toy 3 idle_server busy 5)
recv_loop_echoes_example =
    recv_loop_echoes toy 5 3 idle_server busy toy-FillsBuffer (new_ctrl-IsArmed 7)
