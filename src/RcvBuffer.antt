-- ===== src/RcvBuffer.antt =====
-- udt4/src/buffer.h and buffer.cpp: `CRcvBuffer`, the ring of packets that a socket has received.
-- A pointer `m_pUnit[i]` is an optional unit, the array a function of the position; a position that
-- the source sets to -1 is none. The unit queue is its counter, and a unit that goes back to it
-- leaves the model. What the mutexes and timers do is left out.
pub mod Positions
pub mod Skip
pub mod Found
pub mod Search
pub mod Copying
pub mod Safe
pub mod Message
pub mod Whole
pub mod Pending
pub mod Stream
pub mod Acked
pub mod Reach
mod Tests
use udt_patch_for_epoll.Prelude.{
  ℕ, zero, suc, ◌+◌, ◌-◌, ◌*◌, ◌/◌, ◌%◌, ◌^◌, Bool, true, false, not, ◌&&◌, ◌||◌, Option, none,
  some, List, [], ◌∷◌, ◌++◌, ◌==◌, ltb, leb, if◌then◌else◌, length, take, drop,
}
use udt_patch_for_epoll.SendMsgBuf.{Bytes}

-- `CUnit`, with the payload of its packet and the word `m_nHeader[1]`, which `m_iMsgNo` names: two
-- bits for the place in the message, one for the order, and the message number.
pub record RcvUnit : Type 0 where
  pub payload : Bytes
  pub msg_no : ℕ
  pub flag : ℕ

-- `getMsgBoundary`: 2 is the first packet of a message, 1 the last, 3 the only one.
unfoldable pub msg_boundary : RcvUnit → ℕ
msg_boundary u = u.msg_no / 2 ^ 30 % 4

-- `getMsgOrderFlag`
unfoldable pub msg_order_flag : RcvUnit → Bool
msg_order_flag u = u.msg_no / 2 ^ 29 % 2 == 1

pub record RcvBuffer : Type 0 where
  pub units : ℕ → Option RcvUnit
  pub size : ℕ
  pub start_pos : ℕ
  pub last_ack_pos : ℕ
  pub max_pos : ℕ
  pub notch : ℕ
  pub unit_count : ℕ

-- How a loop comes back: normally, after a null pointer was dereferenced, or (in the model alone)
-- because it ran out of fuel.
pub data Run {ℓ} (A : Type ℓ) : Type ℓ where
  done : A → Run A
  null_dereferenced : Run A
  out_of_fuel : Run A

infixl 5 ◌>>=◌
abbrev pub ◌>>=◌ {ℓ κ} : {A : Type ℓ} {B : Type κ} → Run A → (A → Run B) → Run B
done a >>= f = f a
null_dereferenced >>= f = null_dereferenced
out_of_fuel >>= f = out_of_fuel

abbrev pub store : (ℕ → Option RcvUnit) → ℕ → Option RcvUnit → ℕ → Option RcvUnit
store units i v = λ j. if i == j then v else units j

-- `if (++ p == m_iSize) p = 0;`
abbrev pub next_pos : ℕ → ℕ → ℕ
next_pos size p = if p + 1 == size then 0 else p + 1

-- The test of a unit at which a message ends.
abbrev pub ends_msg : RcvUnit → Bool
ends_msg u = msg_boundary u == 1 || msg_boundary u == 3

abbrev pub starts_msg : RcvUnit → Bool
starts_msg u = u.flag == 1 && ltb 1 (msg_boundary u)

abbrev pub is_some {ℓ} : {A : Type ℓ} → Option A → Bool
is_some none = false
is_some (some a) = true

-- `if (msgno == m_pUnit[i]->m_Packet.m_iMsgNo) m_pUnit[i]->m_iFlag = 3;`
abbrev pub dropped : ℕ → Option RcvUnit → Option RcvUnit
dropped msgno none = none
dropped msgno (some u) = some (if msgno == u.msg_no then record u { flag = 3 } else u)

-- The constructor.
unfoldable pub new_buffer : ℕ → ℕ → RcvBuffer
new_buffer bufsize unit_count = record {
  units = λ i. none;
  size = bufsize;
  start_pos = 0;
  last_ack_pos = 0;
  max_pos = 0;
  notch = 0;
  unit_count = unit_count;
}

-- `getRcvDataSize`
unfoldable pub rcv_data_size : RcvBuffer → ℕ
rcv_data_size b =
    if leb b.start_pos b.last_ack_pos
    then b.last_ack_pos - b.start_pos
    else b.size + b.last_ack_pos - b.start_pos

-- `getAvailBufSize`
unfoldable pub avail_buf_size : RcvBuffer → ℕ
avail_buf_size b = b.size - rcv_data_size b - 1

-- `addData`. The Boolean says whether it returns 0.
unfoldable pub add_data : RcvBuffer → RcvUnit → ℕ → Bool × RcvBuffer
add_data b u offset =
    let pos = (b.last_ack_pos + offset) % b.size in
    let b1 : RcvBuffer = if ltb b.max_pos offset then record b { max_pos = offset } else b in
    elim (b1.units pos) [
      | some v ↦ (false, b1)
      | none ↦ (
        true,
        record b1 {
          units = store b1.units pos (some (record u { flag = 1 }));
          unit_count = b1.unit_count + 1;
        },
      )
    ]

-- `ackData`
unfoldable pub ack_data : RcvBuffer → ℕ → RcvBuffer
ack_data b len = record b {
  last_ack_pos = (b.last_ack_pos + len) % b.size;
  max_pos = b.max_pos - len;
}

-- A unit goes back to the unit queue.
abbrev pub release : RcvBuffer → ℕ → RcvBuffer
release b p = record b { units = store b.units p none; unit_count = b.unit_count - 1 }

-- What a loop of `readBuffer` has done: the bytes that it copied, the room left, the buffer.
abbrev pub Copied : Type 0
Copied = Bytes × ℕ × RcvBuffer

abbrev pub after_copy : Bytes → Run Copied → Run Copied
after_copy front r = r >>= λ c. done (front ++ c.0, c.1, c.2)

-- The loop of `readBuffer` at position `p` with room for `rs` bytes.
unfoldable pub read_units : ℕ → RcvBuffer → ℕ → ℕ → Run Copied
read_units zero b p rs = out_of_fuel
read_units (suc fuel) b p rs = elim (p == b.last_ack_pos || rs == 0) [
  | true ↦ done ([], rs, record b { start_pos = p })
  | false ↦ elim (b.units p) [
    | none ↦ null_dereferenced
    | some u ↦
        (let rest = drop b.notch u.payload in
          let unitsize = if ltb rs (length rest) then rs else length rest in
          after_copy (take unitsize rest) (elim (ltb unitsize rs || rs == length rest) [
            | true ↦
                read_units fuel (record (release b p) { notch = 0 }) (next_pos b.size p)
                  (rs - unitsize)
            | false ↦ read_units fuel (record b { notch = b.notch + rs }) p (rs - unitsize)
          ]))
  ]
]

-- `readBuffer`: each round but the last passes a unit or fills the room.
unfoldable pub read_buffer : RcvBuffer → ℕ → Run Copied
read_buffer b len = read_units (b.size + 2) b b.start_pos len

-- `dropMsg`, at the positions from `i` on to `n`.
unfoldable pub drop_units : ℕ → RcvBuffer → ℕ → ℕ → ℕ → Run RcvBuffer
drop_units zero b msgno i n = out_of_fuel
drop_units (suc fuel) b msgno i n = elim (i == n) [
  | true ↦ done b
  | false ↦
      drop_units fuel (record b { units = store b.units i (dropped msgno (b.units i)) }) msgno
        ((i + 1) % b.size) n
]

unfoldable pub drop_msg : RcvBuffer → ℕ → Run RcvBuffer
drop_msg b msgno =
    drop_units (b.size + 1) b msgno b.start_pos ((b.last_ack_pos + b.max_pos) % b.size)

-- `scanMsg`'s look ahead from position `i` for a whole message: false at a hole or a unit that was
-- read or dropped.
unfoldable pub look_ahead : ℕ → RcvBuffer → ℕ → Run Bool
look_ahead zero b i = out_of_fuel
look_ahead (suc fuel) b i = elim (i == b.last_ack_pos) [
  | true ↦ done true
  | false ↦ elim (b.units i) [
    | none ↦ done false
    | some u ↦ elim (u.flag == 1) [
      | false ↦ done false
      | true ↦ elim (ends_msg u) [
        | true ↦ done true
        | false ↦ look_ahead fuel b (next_pos b.size i)
      ]
    ]
  ]
]

-- Whether a whole message starts at the unit at `m_iStartPos`.
unfoldable pub whole_msg : RcvBuffer → RcvUnit → Run Bool
whole_msg b u = elim (starts_msg u) [
  | true ↦ look_ahead (b.size + 1) b b.start_pos
  | false ↦ done false
]

-- The first loop of `scanMsg`, which skips bad messages.
unfoldable pub skip_bad : ℕ → RcvBuffer → Run RcvBuffer
skip_bad zero b = out_of_fuel
skip_bad (suc fuel) b =
    let next = next_pos b.size b.start_pos in
    elim (b.start_pos == b.last_ack_pos) [
      | true ↦ done b
      | false ↦ elim (b.units b.start_pos) [
        | none ↦ skip_bad fuel (record b { start_pos = next })
        | some u ↦
            (whole_msg b u >>= λ good. elim good [
              | true ↦ done b
              | false ↦ skip_bad fuel (record (release b b.start_pos) { start_pos = next })
            ])
      ]
    ]

-- `p`, `q`, `passack` and `found` of `scanMsg`.
pub record Scan : Type 0 where
  pub p : Option ℕ
  pub q : ℕ
  pub passack : Bool
  pub found : Bool

-- The body of the second loop up to the test of `found`.
unfoldable pub visit : Option RcvUnit → Scan → Scan
visit none s = record s { p = none }
visit (some u) s =
    if u.flag == 1
    then if msg_boundary u == 3
      then record s { p = some s.q; found = true }
      else if msg_boundary u == 2
      then record s { p = some s.q }
      else if msg_boundary u == 1
      then record s { found = is_some s.p }
      else s
    else record s { p = none }

-- Whether the loop stops at a message that it found: it is acknowledged, or may be read out of order.
abbrev pub may_read : Option RcvUnit → Scan → Bool
may_read none s = false
may_read (some u) s = s.found && (not s.passack || not (msg_order_flag u))

-- The second loop of `scanMsg`, over the rounds left.
unfoldable pub find_msg : ℕ → RcvBuffer → Scan → Scan
find_msg zero b s = s
find_msg (suc rounds) b s =
    let s1 = visit (b.units s.q) s in
    let q = next_pos b.size s.q in
    elim (may_read (b.units s.q) s1) [
      | true ↦ s1
      | false ↦
          find_msg rounds b
            (record s1 { q = q; found = false; passack = s1.passack || q == b.last_ack_pos })
    ]

-- `if ((p != -1) && ((q + 1) % m_iSize == p)) found = true;`
abbrev pub whole_ring : RcvBuffer → Option ℕ → Scan → Scan
whole_ring b none s = s
whole_ring b (some p) s = if (s.q + 1) % b.size == p then record s { found = true } else s

abbrev pub or_part : RcvBuffer → Scan → Scan
or_part b s = if s.found then s else whole_ring b s.p s

-- `scanMsg`. On the empty buffer `p` and `q` are not set.
unfoldable pub scan_msg : RcvBuffer → Run (Scan × RcvBuffer)
scan_msg b = elim (b.start_pos == b.last_ack_pos && b.max_pos == 0) [
  | true ↦ done (record { p = none; q = 0; passack = false; found = false }, b)
  | false ↦ skip_bad (b.size + 1) b >>= λ b1.
      let s : Scan = record {
        p = none;
        q = b1.start_pos;
        passack = b1.start_pos == b1.last_ack_pos;
        found = false;
      } in
      done (or_part b1 (find_msg (b1.max_pos + rcv_data_size b1 + 1) b1 s), b1)
]

-- What a unit becomes when it was read: it goes back to the queue, or is marked if it was not yet
-- acknowledged.
abbrev pub mark_read : Bool → RcvBuffer → ℕ → RcvUnit → RcvBuffer
mark_read false b p u = release b p
mark_read true b p u = record b { units = store b.units p (some (record u { flag = 2 })) }

abbrev pub after_read : Bytes → Run (Bytes × RcvBuffer) → Run (Bytes × RcvBuffer)
after_read front r = r >>= λ c. done (front ++ c.0, c.1)

-- The loop of `readMsg` from position `p` to `stop` with room for `rs` bytes.
unfoldable pub read_msg_units : ℕ → RcvBuffer → Bool → ℕ → ℕ → ℕ → Run (Bytes × RcvBuffer)
read_msg_units zero b passack p stop rs = out_of_fuel
read_msg_units (suc fuel) b passack p stop rs = elim (p == stop) [
  | true ↦ done ([], b)
  | false ↦ elim (b.units p) [
    | none ↦ null_dereferenced
    | some u ↦
        (let unitsize = if ltb rs (length u.payload) then rs else length u.payload in
          after_read (take unitsize u.payload) (
            read_msg_units fuel (mark_read passack b p u) passack (next_pos b.size p) stop
              (rs - unitsize)))
  ]
]

abbrev pub start_after : Bool → ℕ → Bytes × RcvBuffer → Bytes × RcvBuffer
start_after false stop (bytes, b) = (bytes, record b { start_pos = stop })
start_after true stop (bytes, b) = (bytes, b)

-- `readMsg` after `scanMsg`. Position -1 of the array is no position.
abbrev pub read_found : Option ℕ → Scan → RcvBuffer → ℕ → Run (Bytes × RcvBuffer)
read_found none s b len = null_dereferenced
read_found (some p) s b len =
    let stop = (s.q + 1) % b.size in
    read_msg_units (b.size + 1) b s.passack p stop len >>= λ r. done (start_after s.passack stop r)

-- `readMsg`: the bytes copied, whose number it returns.
unfoldable pub read_msg : RcvBuffer → ℕ → Run (Bytes × RcvBuffer)
read_msg b len = scan_msg b >>= λ r. elim r.0.found [
  | true ↦ read_found r.0.p r.0 r.1 len
  | false ↦ done ([], r.1)
]

-- `getRcvMsgNum`
unfoldable pub rcv_msg_num : RcvBuffer → Run (ℕ × RcvBuffer)
rcv_msg_num b = scan_msg b >>= λ r. done (if r.0.found then 1 else 0, r.1)
