-- ===== src/SockEpoll.antt =====
-- How the library's sockets and its event poll work together: `CUDTUnited::epoll_add_usock` and
-- `epoll_remove_usock` (udt4/src/api.cpp), `CUDT::addEPoll`, `removeEPoll` and the patched `recvmsg`
-- of a non-blocking socket (udt4/src/core.cpp).
-- The receive buffer is an interface here, what `recvmsg` asks of it; SockEpoll/Ring fills it.
pub mod Views
pub mod Rearm
pub mod Receive
pub mod Ring
mod Tests
use udt_patch_for_epoll.Prelude.{
  ℕ, Bool, true, false, not, ◌&&◌, ◌||◌, Option, none, some, List, [], ◌∷◌, ltb, ◌==◌,
  if◌then◌else◌, length,
}
use udt_patch_for_epoll.Std.Set
use udt_patch_for_epoll.Std.Set.{Set}
use udt_patch_for_epoll.Std.Map
use udt_patch_for_epoll.Std.Map.{Map, lookup}
use udt_patch_for_epoll.SendMsgBuf.{Bytes}
use udt_patch_for_epoll.Udt.{Reply, ret, error, econnlost, einvsock, easyncrcv}
use udt_patch_for_epoll.Epoll
use udt_patch_for_epoll.Epoll.{
  Epoll, Result, ok, throws, throws_system, add_usock, remove_usock, enable_read, enable_write,
  disable_read, disable_write,
}

-- `readMsg`, `getRcvMsgNum` and `getRcvDataSize` of `CRcvBuffer`; counting the messages skips bad ones.
pub record MsgBuffer : Type 1 where
  pub Buffer : Type 0
  pub read_msg : Buffer → ℕ → Bytes × Buffer
  pub msg_num : Buffer → ℕ × Buffer
  pub data_size : Buffer → ℕ

-- `CUDTException(5, 9, 0)` and `CUDTException(2, 2, 0)`.
abbrev pub estreamill : ℕ
estreamill = 5009

abbrev pub enoconn : ℕ
enoconn = 2002

module _ (rb : MsgBuffer) where
  -- The fields of `CUDT` and `CUDTSocket` that these functions read or write.
  pub record Socket : Type 0 where
    pub poll_ids : Set
    pub is_closed : Bool
    pub is_stream : Bool
    pub connected : Bool
    pub broken : Bool
    pub closing : Bool
    pub rcv_buffer : rb.Buffer
    pub snd_buf_size : ℕ
    pub curr_buf_size : ℕ

  -- The event poll and `m_Sockets`.
  pub record Lib : Type 0 where
    pub epoll : Epoll
    pub sockets : Map Socket

  -- `locate`
  unfoldable pub locate : Lib → ℕ → Option Socket
  locate lib u = elim (lookup u lib.sockets) [
    | none ↦ none
    | some s ↦ if s.is_closed then none else some s
  ]

  abbrev pub put_socket : Lib → ℕ → Epoll → Socket → Lib
  put_socket lib u e s = record { epoll = e; sockets = Map.insert u s lib.sockets }

  -- `addEPoll`: after the epoll id is noted, what is there already is signalled.
  unfoldable pub signal_read : Epoll → ℕ → Socket → Epoll × Set × rb.Buffer
  signal_read e u s =
      let (n, b) =
        if s.is_stream
        then (rb.data_size s.rcv_buffer, s.rcv_buffer)
        else rb.msg_num s.rcv_buffer in
      if ltb 0 n
      then (let (e1, ids) = enable_read e u s.poll_ids in (e1, ids, b))
      else (e, s.poll_ids, b)

  unfoldable pub signal_write : Epoll → ℕ → Set → Socket → Epoll × Set
  signal_write e u ids s =
      if ltb s.curr_buf_size s.snd_buf_size then enable_write e u ids else (e, ids)

  unfoldable pub add_epoll : Epoll → ℕ → Socket → ℕ → Epoll × Socket
  add_epoll e u s eid =
      let s1 : Socket = record s { poll_ids = Set.insert eid s.poll_ids } in
      if not s.connected || s.broken || s.closing
      then (e, s1)
      else (let (e1, ids1, b) = signal_read e u s1 in
          let (e2, ids2) = signal_write e1 u ids1 s1 in
          (e2, record s1 { poll_ids = ids2; rcv_buffer = b }))

  -- `removeEPoll`
  unfoldable pub remove_epoll : Epoll → ℕ → Socket → ℕ → Epoll × Socket
  remove_epoll e u s eid =
      let ids = Set.erase eid s.poll_ids in
      let (e1, ids1) = disable_read e u ids in
      let (e2, ids2) = disable_write e1 u ids1 in (e2, record s { poll_ids = ids2 })

  -- What a method threw, as the API's wrapper reports it.
  abbrev pub reply_of : Result Epoll → Reply
  reply_of (ok e) = ret 0
  reply_of (throws code) = error code
  reply_of throws_system = error 0

  abbrev pub after_add : Lib → ℕ → Socket → ℕ → Result Epoll → Lib
  after_add lib u s eid (ok e) = let (e', s') = add_epoll e u s eid in put_socket lib u e' s'
  after_add lib u s eid (throws code) = lib
  after_add lib u s eid throws_system = lib

  -- `CUDTUnited::epoll_add_usock`
  unfoldable pub epoll_add_usock : Lib → ℕ → ℕ → Option ℕ → Reply × Lib
  epoll_add_usock lib eid u events = elim (locate lib u) [
    | none ↦ (error einvsock, lib)
    | some s ↦ (let r = add_usock lib.epoll eid u events in (reply_of r, after_add lib u s eid r))
  ]

  abbrev pub after_remove : Lib → Result Epoll → Lib
  after_remove lib (ok e) = record lib { epoll = e }
  after_remove lib (throws code) = lib
  after_remove lib throws_system = lib

  -- The first part of `epoll_remove_usock`, for a socket that is there.
  unfoldable pub detach : Lib → ℕ → ℕ → Lib
  detach lib eid u = elim (locate lib u) [
    | none ↦ lib
    | some s ↦ (let (e', s') = remove_epoll lib.epoll u s eid in put_socket lib u e' s')
  ]

  -- `CUDTUnited::epoll_remove_usock`. A socket that is gone is removed from the poll all the same.
  unfoldable pub epoll_remove_usock : Lib → ℕ → ℕ → Reply × Lib
  epoll_remove_usock lib eid u =
      let lib' = detach lib eid u in
      let r = remove_usock lib'.epoll eid u in (reply_of r, after_remove lib' r)

  -- What a call of `recvmsg` gives: the reply, the bytes, and `*pHaveMsgStill`.
  pub record Received : Type 0 where
    pub reply : Reply
    pub bytes : Bytes
    pub have_msg_still : Bool
    pub epoll : Epoll
    pub socket : Socket

  -- The common part of the two paths of `recvmsg` that do not wait: read a message, then withdraw
  -- the readiness if no message is left, and otherwise tell the caller that there are more.
  unfoldable pub take_msg : Epoll → ℕ → Socket → ℕ → ℕ → Received
  take_msg e u s len code =
      let (bytes, b) = rb.read_msg s.rcv_buffer len in
      let reply = if length bytes == 0 then error code else ret (length bytes) in
      let (n, b1) = rb.msg_num b in
      let s1 : Socket = record s { rcv_buffer = b1 } in
      if ltb 0 n
      then record { reply = reply; bytes = bytes; have_msg_still = true; epoll = e; socket = s1 }
      else (let (e1, ids) = disable_read e u s.poll_ids in
          record {
            reply = reply;
            bytes = bytes;
            have_msg_still = false;
            epoll = e1;
            socket = record s1 { poll_ids = ids };
          })

  abbrev pub plain : Epoll → Socket → Reply → Received
  plain e s r = record { reply = r; bytes = []; have_msg_still = false; epoll = e; socket = s }

  -- `recvmsg` of a socket whose `m_bSynRecving` is false.
  unfoldable pub recvmsg : Epoll → ℕ → Socket → ℕ → Received
  recvmsg e u s len =
      if s.is_stream
      then plain e s (error estreamill)
      else if not s.connected
      then plain e s (error enoconn)
      else if len == 0
      then plain e s (ret 0)
      else if s.broken || s.closing
      then take_msg e u s len econnlost
      else take_msg e u s len easyncrcv
