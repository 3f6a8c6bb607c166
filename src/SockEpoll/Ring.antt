-- ===== src/SockEpoll/Ring.antt =====
-- udt4/src/core.cpp and buffer.cpp: the ring of received packets as the buffer of `recvmsg`.
use udt_patch_for_epoll.Prelude.{ℕ, ◌≡◌, true, false, ◌||◌, ◌<◌, if◌then◌else◌}
use udt_patch_for_epoll.Std.Set.{contains}
use udt_patch_for_epoll.Udt.{econnlost, easyncrcv}
use udt_patch_for_epoll.Epoll.{Epoll}
use udt_patch_for_epoll.RcvBuffer.{RcvBuffer, done, rcv_data_size, read_msg, rcv_msg_num}
use udt_patch_for_epoll.RcvBuffer.Skip.{InRing}
use udt_patch_for_epoll.RcvBuffer.Safe.{read_msg_returns, rcv_msg_num_returns}
use udt_patch_for_epoll.SockEpoll.{MsgBuffer, Socket, recvmsg}
use udt_patch_for_epoll.SockEpoll.Receive.{Taken, recvmsg-Taken}

-- The ring with its positions in the array, whose calls always come back.
abbrev pub ring : MsgBuffer
ring = record {
  Buffer = (b : RcvBuffer) × InRing b;
  read_msg = λ r len.
      let (bytes, b1, e, within, s) = read_msg_returns r.0 len r.1 in (bytes, (b1, s.in_ring));
  msg_num = λ r. let (n, b1, e, s) = rcv_msg_num_returns r.0 r.1 in (n, (b1, s.in_ring));
  data_size = λ r. rcv_data_size r.0;
}

-- The buffer's calls are those of the ring.
pub ring-read_msg :
    (r : ring.Buffer) (len : ℕ)
    → read_msg r.0 len ≡ done ((ring.read_msg r len).0, (ring.read_msg r len).1.0)
ring-read_msg r len = (read_msg_returns r.0 len r.1).2

pub ring-msg_num :
    (r : ring.Buffer) → rcv_msg_num r.0 ≡ done ((ring.msg_num r).0, (ring.msg_num r).1.0)
ring-msg_num r = (rcv_msg_num_returns r.0 r.1).2

-- `recvmsg` over the ring.
pub recvmsg-ring :
    (e : Epoll) (u : ℕ) (s : Socket ring) (len eid : ℕ)
    → s.is_stream ≡ false
    → s.connected ≡ true
    → 0 < len
    → contains eid s.poll_ids ≡ true
    → Taken ring e u s len
        (if s.broken || s.closing then econnlost else easyncrcv)
        eid
        (recvmsg ring e u s len)
recvmsg-ring = recvmsg-Taken ring
