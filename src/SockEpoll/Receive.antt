-- ===== src/SockEpoll/Receive.antt =====
-- udt4/src/core.cpp: the patched `recvmsg`, and what the epolls show of the socket after it.
use mathlib.Core.Path.{subst}
use udt_patch_for_epoll.Prelude.{
  ℕ, ◌<◌, ◌≡◌, refl, sym, true, false, ◌&&◌, ◌||◌, arith, ltb, ◌==◌, if◌then◌else◌, length,
  Bool-cases, inl, inr,
}
use udt_patch_for_epoll.Std.Set.{contains}
use udt_patch_for_epoll.Epoll.{Epoll}
use udt_patch_for_epoll.Udt.{ret, error, econnlost, easyncrcv}
use udt_patch_for_epoll.SockEpoll.{MsgBuffer, Socket, Received, take_msg, recvmsg}
use udt_patch_for_epoll.SockEpoll.Views.{view, view-disable_read}

module _ (rb : MsgBuffer) where
  -- What `recvmsg` did with the message that it took: the flag says whether messages are left, and
  -- in an epoll of the socket it stays readable only if they are.
  pub record Taken (e : Epoll) (u : ℕ) (s : Socket rb) (len code eid : ℕ) (r : Received rb)
      : Type 0 where
    pub flag : r.have_msg_still ≡ ltb 0 (rb.msg_num (rb.read_msg s.rcv_buffer len).1).0
    pub buffer : r.socket.rcv_buffer ≡ (rb.msg_num (rb.read_msg s.rcv_buffer len).1).1
    pub payload : r.bytes ≡ (rb.read_msg s.rcv_buffer len).0
    pub replied : r.reply ≡ (if length r.bytes == 0 then error code else ret (length r.bytes))
    pub shown :
        view r.epoll eid u
        ≡ record (view e eid u) { in_read = r.have_msg_still && (view e eid u).in_read }

  take_msg-Taken :
      (e : Epoll) (u : ℕ) (s : Socket rb) (len code eid : ℕ)
      → contains eid s.poll_ids ≡ true
      → Taken e u s len code eid (take_msg rb e u s len code)
  unfolding take_msg
  take_msg-Taken e u s len code eid h =
      elim (Bool-cases (ltb 0 (rb.msg_num (rb.read_msg s.rcv_buffer len).1).0)) [
        | inl t ↦
            rw t
              (record { flag = sym t; buffer = refl; payload = refl; replied = refl; shown = refl })
        | inr t ↦ rw t (record {
          flag = sym t;
          buffer = refl;
          payload = refl;
          replied = refl;
          shown = ground (arith, view-disable_read e u s.poll_ids eid);
        })
      ]

  recvmsg-ready :
      (e : Epoll) (u : ℕ) (s : Socket rb) (len : ℕ)
      → s.is_stream ≡ false
      → s.connected ≡ true
      → 0 < len
      → recvmsg rb e u s len
        ≡ take_msg rb e u s len (if s.broken || s.closing then econnlost else easyncrcv)
  unfolding recvmsg
  recvmsg-ready e u s len dgram conn some_room = ground arith

  -- On a connected datagram socket that does not wait, `recvmsg` returns the message that the
  -- receive buffer gives, or the error for an empty read; it says exactly whether more messages are
  -- left; and in every epoll that the socket is registered with, it withdraws the socket's
  -- readability exactly when none are, and changes nothing else that the epoll shows of the socket.
  pub recvmsg-Taken :
      (e : Epoll) (u : ℕ) (s : Socket rb) (len eid : ℕ)
      → s.is_stream ≡ false
      → s.connected ≡ true
      → 0 < len
      → contains eid s.poll_ids ≡ true
      → Taken e u s len
          (if s.broken || s.closing then econnlost else easyncrcv)
          eid
          (recvmsg rb e u s len)
  recvmsg-Taken e u s len eid dgram conn some_room h =
      subst (Taken e u s len (if s.broken || s.closing then econnlost else easyncrcv) eid)
        (sym (recvmsg-ready e u s len dgram conn some_room)) (take_msg-Taken e u s len _ eid h)
