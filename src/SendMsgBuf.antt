-- ===== src/SendMsgBuf.antt =====
-- server_udt/send_msg_buf.h and send_msg_buf.cpp: the queue of unsent messages of each socket.
-- The class holds one `std::map` from a socket to a `std::queue`; that map is the state here.
pub mod Fifo
pub mod Compact
mod Tests
use udt_patch_for_epoll.Prelude.{ℕ, Bool, true, false, Option, none, some, List, [], ◌∷◌, ◌++◌}
use udt_patch_for_epoll.Std.Map.{Map, lookup, insert, erase}

-- The bytes of a `std::string`.
abbrev pub Bytes : Type 0
Bytes = List ℕ

-- `msg_ptr_t`, a `std::shared_ptr<std::string>`; `none` is the null pointer. The program never
-- changes a message behind the pointer.
abbrev pub MsgPtr : Type 0
MsgPtr = Option Bytes

-- `std::queue<msg_ptr_t>`, the front first.
abbrev pub MsgQueue : Type 0
MsgQueue = List MsgPtr

abbrev pub SendMsgBuf : Type 0
SendMsgBuf = Map MsgQueue

unfoldable pub empty_buf : SendMsgBuf
empty_buf = []

abbrev pub or_empty : Option MsgQueue → MsgQueue
or_empty none = []
or_empty (some q) = q

-- `GetMsgQueue`: the static empty queue where the socket has no entry.
unfoldable pub get_msg_queue : SendMsgBuf → ℕ → MsgQueue
get_msg_queue b sock = or_empty (lookup sock b)

abbrev pub is_nonempty : MsgQueue → Bool
is_nonempty [] = false
is_nonempty (m ∷ q) = true

-- `HasMsg`
unfoldable pub has_msg : SendMsgBuf → ℕ → Bool
has_msg b sock = elim (lookup sock b) [ none ↦ false | some q ↦ is_nonempty q ]

abbrev pub front : MsgQueue → MsgPtr
front [] = none
front (m ∷ q) = m

-- `PeekFrontMsg`: a null pointer where there is no message.
unfoldable pub peek_front_msg : SendMsgBuf → ℕ → MsgPtr
peek_front_msg b sock = elim (lookup sock b) [ none ↦ none | some q ↦ front q ]

-- The two tests of `PopMsg` on the queue found: drop the front if there is one, then erase the
-- entry if nothing is left, and keep it otherwise.
unfoldable pub pop_found : SendMsgBuf → ℕ → MsgQueue → SendMsgBuf
pop_found b sock [] = erase sock b
pop_found b sock (m ∷ []) = erase sock b
pop_found b sock (m ∷ n ∷ q) = insert sock (n ∷ q) b

-- `PopMsg`
unfoldable pub pop_msg : SendMsgBuf → ℕ → SendMsgBuf
unfolding pop_found
pop_msg b sock = elim (lookup sock b) [ none ↦ b | some q ↦ pop_found b sock q ]

-- `AddMsg`
unfoldable pub add_msg : SendMsgBuf → ℕ → MsgPtr → SendMsgBuf
add_msg b sock ptr = elim (lookup sock b) [
  | some q ↦ insert sock (q ++ (ptr ∷ [])) b
  | none ↦ insert sock (ptr ∷ []) b
]

-- `CleanMsg`
unfoldable pub clean_msg : SendMsgBuf → ℕ → SendMsgBuf
clean_msg b sock = elim (lookup sock b) [ some q ↦ erase sock b | none ↦ b ]

-- `CleanAllMsg`
unfoldable pub clean_all_msg : SendMsgBuf → SendMsgBuf
clean_all_msg b = []
