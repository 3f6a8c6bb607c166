-- ===== src/Udt.antt =====
-- The calls of the UDT library (udt4/src/udt.h) as the server and the client make them: an
-- interface over an abstract state of the library and of the network behind it.
-- A handle, which is an `int` in the source, is its 32-bit pattern; -1 is `invalid_handle`.
pub mod Toy
use udt_patch_for_epoll.Prelude.{ℕ, ◌+◌, ◌-◌, ◌^◌, ◌≤◌, ◌<◌, ◌≡◌, Bool, true, false, length}
use Prim.Native.Nat.{bit_or}
use udt_patch_for_epoll.Std.Set.{Set}
use udt_patch_for_epoll.SendMsgBuf.{Bytes}

-- What a call returns: its value, or `UDT::ERROR` with the code that `getlasterror` gives then.
pub data Reply : Type 0 where
  ret : ℕ → Reply
  error : ℕ → Reply

-- `UDT::INVALID_SOCK` and `UDT::ERROR`, both -1.
abbrev pub invalid_handle : ℕ
invalid_handle = 2 ^ 32 - 1

-- `EPOLLOpt`
abbrev pub epoll_in : ℕ
epoll_in = 1

abbrev pub epoll_out : ℕ
epoll_out = 4

abbrev pub epoll_err : ℕ
epoll_err = 8

-- `UDTOpt`, the options that the programs set.
abbrev pub udt_sndsyn : ℕ
udt_sndsyn = 1

abbrev pub udt_rcvsyn : ℕ
udt_rcvsyn = 2

abbrev pub udt_sndbuf : ℕ
udt_sndbuf = 5

abbrev pub udt_rcvbuf : ℕ
udt_rcvbuf = 6

abbrev pub udt_rendezvous : ℕ
udt_rendezvous = 12

abbrev pub udt_reuseaddr : ℕ
udt_reuseaddr = 15

-- The error codes of `CUDTException` that the programs test.
abbrev pub econnlost : ℕ
econnlost = 2001

abbrev pub einvparam : ℕ
einvparam = 5003

abbrev pub einvsock : ℕ
einvsock = 5004

abbrev pub easyncsnd : ℕ
easyncsnd = 6001

abbrev pub easyncrcv : ℕ
easyncrcv = 6002

-- What `recvmsg` gives back: the reply, the bytes written to the buffer, `*pHaveMsgStill`.
pub record Received : Type 0 where
  pub reply : Reply
  pub bytes : Bytes
  pub have_msg_still : Bool

-- What `epoll_wait` gives back: the reply and the two sets that it fills.
pub record Ready : Type 0 where
  pub reply : Reply
  pub readfds : Set
  pub writefds : Set

-- One field for each call. `sendmsg` is called with ttl -1 and in order, `epoll_wait` with the
-- timeout that the program passes and no system sockets.
pub record Udt : Type 1 where
  pub World : Type 0
  pub sendmsg : World → ℕ → Bytes → Reply × World
  pub recvmsg : World → ℕ → ℕ → Received × World
  pub socket : World → Reply × World
  pub setsockopt : World → ℕ → ℕ → ℕ → Reply × World
  pub bind : World → ℕ → ℕ → Reply × World
  pub listen : World → ℕ → ℕ → Reply × World
  pub connect : World → ℕ → Bytes → ℕ → Reply × World
  pub accept : World → ℕ → Reply × World
  pub epoll_create : World → Reply × World
  pub epoll_add_usock : World → ℕ → ℕ → ℕ → Reply × World
  pub epoll_remove_usock : World → ℕ → ℕ → Reply × World
  pub epoll_wait : World → ℕ → ℕ → Ready × World
  pub epoll_release : World → ℕ → Reply × World
  pub close : World → ℕ → Reply × World

-- An `int` variable that is set from a call's result.
abbrev pub handle_of : Reply → ℕ
handle_of (ret n) = n
handle_of (error code) = invalid_handle

abbrev pub is_error : Reply → Bool
is_error (ret n) = false
is_error (error code) = true

-- The documentation of `sendmsg`: on success it returns the size of the message, which is sent
-- whole or not at all.
abbrev pub SendsWhole : Udt → Type 0
SendsWhole u =
    (w w' : u.World) (sock : ℕ) (msg : Bytes) (n : ℕ)
    → u.sendmsg w sock msg ≡ (ret n, w')
    → n ≡ length msg

-- The documentation of `recvmsg`: on success it returns the number of bytes that it wrote.
abbrev pub FillsBuffer : Udt → Type 0
FillsBuffer u =
    (w w' : u.World) (sock len n : ℕ) (r : Received)
    → u.recvmsg w sock len ≡ (r, w')
    → r.reply ≡ ret n
    → n ≡ length r.bytes
