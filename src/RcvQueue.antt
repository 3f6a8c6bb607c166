-- ===== src/RcvQueue.antt =====
-- udt4/src/queue.h and queue.cpp: what `CRcvQueue` keeps for the sockets beside its worker: the
-- listener, the sockets that wait to be listed, the packets for sockets that are connecting, and
-- `CRendezvousQueue`, the sockets that connect.
-- An address is a number, and `CIPAddress::ipcmp` is equality. Each method is one step, under its lock.
-- The buffers of a packet are its bytes; copies are not freed here.
mod Buffers
pub mod Bounds
mod Tests
use udt_patch_for_epoll.Prelude.{
  ℕ, Bool, true, false, not, ◌&&◌, ◌||◌, Option, none, some, List, [], ◌∷◌, ◌++◌, ◌==◌, ltb,
  if◌then◌else◌, length,
}
use udt_patch_for_epoll.Std.Map.{Map, lookup, insert, erase}

pub record Packet : Type 0 where
  pub header : List ℕ
  pub bytes : List ℕ

-- `CRL`
pub record Connector : Type 0 where
  pub id : ℕ
  pub udt : ℕ
  pub address : ℕ
  pub ttl : ℕ

pub record RcvQueue : Type 0 where
  pub listener : Option ℕ
  pub new_entries : List ℕ
  pub connectors : List Connector
  pub buffer : Map (List Packet)

abbrev pub new_queue : RcvQueue
new_queue = record { listener = none; new_entries = []; connectors = []; buffer = [] }

-- `CRendezvousQueue::insert`
abbrev pub insert_connector : List Connector → Connector → List Connector
insert_connector cs c = cs ++ (c ∷ [])

-- `CRendezvousQueue::remove`
unfoldable pub remove_connector_of : ℕ → List Connector → List Connector
remove_connector_of id [] = []
remove_connector_of id (c ∷ cs) =
    let rest = remove_connector_of id cs in if c.id == id then cs else c ∷ rest

-- `CRendezvousQueue::retrieve`; an id of 0 stands for any socket.
unfoldable pub retrieve : List Connector → ℕ → ℕ → Option Connector
retrieve [] address id = none
retrieve (c ∷ cs) address id =
    let rest = retrieve cs address id in
    if (address == c.address) && ((0 == id) || (id == c.id)) then some c else rest

-- `setListener`; the answer is whether it was free.
abbrev pub set_listener : RcvQueue → ℕ → Bool × RcvQueue
set_listener q u = elim q.listener [
  | some v ↦ (false, q)
  | none ↦ (true, record q { listener = some u })
]

abbrev pub remove_listener : RcvQueue → ℕ → RcvQueue
remove_listener q u = elim q.listener [
  | some v ↦ if u == v then record q { listener = none } else q
  | none ↦ q
]

abbrev pub register_connector : RcvQueue → Connector → RcvQueue
register_connector q c = record q { connectors = insert_connector q.connectors c }

-- `removeConnector`
unfoldable pub remove_connector : RcvQueue → ℕ → RcvQueue
remove_connector q id = record q {
  connectors = remove_connector_of id q.connectors;
  buffer = erase id q.buffer;
}

abbrev pub set_new_entry : RcvQueue → ℕ → RcvQueue
set_new_entry q u = record q { new_entries = q.new_entries ++ (u ∷ []) }

-- `getNewEntry`
abbrev pub get_new_entry : RcvQueue → Option ℕ × RcvQueue
get_new_entry q = elim q.new_entries [
  | [] ↦ (none, q)
  | u ∷ us ↦ (some u, record q { new_entries = us })
]

abbrev pub store_behind : RcvQueue → ℕ → Packet → Option (List Packet) → RcvQueue
store_behind q id p none = record q { buffer = insert id (p ∷ []) q.buffer }
store_behind q id p (some ps) =
    if ltb 16 (length ps) then q else record q { buffer = insert id (ps ++ (p ∷ [])) q.buffer }

-- `storePkt`
unfoldable pub store_pkt : RcvQueue → ℕ → Packet → RcvQueue
store_pkt q id p = store_behind q id p (lookup id q.buffer)

-- What `recvfrom` comes to: a packet, -1, or the front of an empty queue, which is undefined.
pub data Reply : Type 0 where
  received : Packet → Reply
  refused : Reply
  undefined : Reply

abbrev pub left : RcvQueue → ℕ → List Packet → RcvQueue
left q id [] = record q { buffer = erase id q.buffer }
left q id (p ∷ ps) = record q { buffer = insert id (p ∷ ps) q.buffer }

abbrev pub take_front : RcvQueue → ℕ → ℕ → Option (List Packet) → Reply × RcvQueue
take_front q id room none = (refused, q)
take_front q id room (some []) = (undefined, q)
take_front q id room (some (p ∷ ps)) =
    if ltb room (length p.bytes) then (refused, q) else (received p, left q id ps)

-- `recvfrom` from the look at the buffer that is the last, with room for a packet of so many bytes.
unfoldable pub take_pkt : RcvQueue → ℕ → ℕ → Reply × RcvQueue
take_pkt q id room = take_front q id room (lookup id q.buffer)

-- `recvfrom`; when the socket has no packets it lets others go on for a while, up to the state `later`.
unfoldable pub recvfrom : RcvQueue → RcvQueue → ℕ → ℕ → Reply × RcvQueue
recvfrom q later id room = elim (lookup id q.buffer) [
  | some ps ↦ take_pkt q id room
  | none ↦ take_pkt later id room
]
