-- ===== src/UdtClient/Tests.antt =====
-- The client with the small library, and its theorems at such runs.
use Prim.{tt}
use udt_patch_for_epoll.Prelude.{[], ◌∷◌}
use udt_patch_for_epoll.Udt.Toy.{toy}
use udt_patch_for_epoll.UdtClient.{try_send_msg, recv_loop}
use udt_patch_for_epoll.UdtClient.Ledger.{Kept}
use udt_patch_for_epoll.UdtClient.Logged.{logged_ledger}
use udt_patch_for_epoll.UdtClient.Sending.{try_send_msg-Kept}
use udt_patch_for_epoll.UdtClient.Receiving.{DeliveredOrSpins, recv_loop_delivers}
use udt_patch_for_epoll.UdtClient.Sample.{lib, busy, client, lib-FillsBuffer, some_null}

try_send_msg-Kept_example :
    Kept lib (logged_ledger toy) client busy (try_send_msg lib client busy (5 ∷ []))
try_send_msg-Kept_example =
    try_send_msg-Kept lib (logged_ledger toy) client busy (5 ∷ [])
      ((some_null _, (some_null _, tt)), tt)

recv_loop_delivers_example :
    DeliveredOrSpins lib (logged_ledger toy) 5 3 client busy (recv_loop lib 3 client busy 5)
recv_loop_delivers_example =
    recv_loop_delivers lib (logged_ledger toy) 5 3 client busy lib-FillsBuffer
