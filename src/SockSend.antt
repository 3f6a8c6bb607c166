-- ===== src/SockSend.antt =====
-- udt4/src/core.cpp: `CUDT::sendmsg` of a socket whose `m_bSynSending` is false, over the send buffer
-- of the socket and the event poll. The timers, the lock and the list of sending sockets are left out.
pub mod Room
pub mod Sent
mod Tests
use udt_patch_for_epoll.Prelude.{
  ℕ, ◌-◌, ◌*◌, Bool, true, false, not, ◌&&◌, ◌||◌, Option, none, some, ltb, leb, ◌==◌,
  if◌then◌else◌, length,
}
use udt_patch_for_epoll.Std.Set.{Set}
use udt_patch_for_epoll.SendMsgBuf.{Bytes}
use udt_patch_for_epoll.Udt.{Reply, ret, error, econnlost, easyncsnd}
use udt_patch_for_epoll.Epoll.{Epoll, disable_write}
use udt_patch_for_epoll.RcvBuffer.{Run, done, ◌>>=◌}
use udt_patch_for_epoll.SockEpoll.{estreamill, enoconn}
use udt_patch_for_epoll.SndBuffer.{Block, SndBuffer, add_buffer}

-- `CUDTException(5, 12, 0)`.
abbrev pub elargemsg : ℕ
elargemsg = 5012

-- The fields of `CUDT` that the function reads or writes.
pub record Sender : Type 0 where
  pub poll_ids : Set
  pub is_stream : Bool
  pub connected : Bool
  pub broken : Bool
  pub closing : Bool
  pub snd_buf_size : ℕ
  pub payload_size : ℕ
  pub snd_buffer : SndBuffer

abbrev pub Sending : Type 0
Sending = Reply × Epoll × Sender

-- What is left after `addBuffer`: the writability goes when the buffer is full.
unfoldable pub after_add : Epoll → ℕ → Sender → SndBuffer → Epoll × Sender
after_add e u s b =
    let s1 : Sender = record s { snd_buffer = b } in
    if leb s.snd_buf_size b.count
    then (let (e1, ids) = disable_write e u s.poll_ids in (e1, record s1 { poll_ids = ids }))
    else (e, s1)

-- The room in the buffer, in bytes; nothing when it holds more than `m_iSndBufSize` packets.
abbrev pub room : Sender → ℕ
room s = (s.snd_buf_size - s.snd_buffer.count) * s.payload_size

-- The part of `sendmsg` after its first guards.
unfoldable pub insert_msg : Epoll → ℕ → Sender → Bytes → Option ℕ → Bool → ℕ → Block → Run Sending
insert_msg e u s bytes ttl order now memory =
    if ltb (room s) (length bytes)
    then done (error easyncsnd, e, s)
    else add_buffer s.snd_buffer bytes ttl order now memory >>= λ b.
        let (e1, s1) = after_add e u s b in done (ret (length bytes), e1, s1)

-- `sendmsg`
unfoldable pub sendmsg : Epoll → ℕ → Sender → Bytes → Option ℕ → Bool → ℕ → Block → Run Sending
sendmsg e u s bytes ttl order now memory =
    let fail : ℕ → Run Sending = λ code. done (error code, e, s) in
    if s.is_stream
    then fail estreamill
    else if s.broken || s.closing
    then fail econnlost
    else if not s.connected
    then fail enoconn
    else if length bytes == 0
    then done (ret 0, e, s)
    else if ltb (s.snd_buf_size * s.payload_size) (length bytes)
    then fail elargemsg
    else insert_msg e u s bytes ttl order now memory
