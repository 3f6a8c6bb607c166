-- ===== src/AckWindow.antt =====
-- udt4/src/window.h and window.cpp: `CACKWindow`, the acknowledgements that were sent and not yet
-- acknowledged themselves. An array is a function of the position, an `int` its 32-bit pattern; the
-- clock is an argument and does not go back.
pub mod Entries
pub mod Refines
pub mod Storing
mod Tests
use udt_patch_for_epoll.Prelude.{
  ℕ, zero, suc, ◌+◌, ◌-◌, ◌%◌, ◌^◌, Bool, true, false, Option, none, some, ◌==◌, leb, if◌then◌else◌,
}

pub record AckWindow : Type 0 where
  pub seqs : ℕ → ℕ
  pub acks : ℕ → ℕ
  pub times : ℕ → ℕ
  pub size : ℕ
  pub head : ℕ
  pub tail : ℕ

abbrev pub write : (ℕ → ℕ) → ℕ → ℕ → ℕ → ℕ
write values i v = λ j. if i == j then v else values j

abbrev pub minus_one : ℕ
minus_one = 2 ^ 32 - 1

-- The constructor; the rest of the arrays is not set.
unfoldable pub new_window : ℕ → (ℕ → ℕ) → AckWindow
new_window size memory = record {
  seqs = write memory 0 minus_one;
  acks = memory;
  times = memory;
  size = size;
  head = 0;
  tail = 0;
}

-- `store`
unfoldable pub store_ack : AckWindow → ℕ → ℕ → ℕ → AckWindow
store_ack w seq ack now =
    let head = (w.head + 1) % w.size in
    record w {
      seqs = write w.seqs w.head seq;
      acks = write w.acks w.head ack;
      times = write w.times w.head now;
      head = head;
      tail = if head == w.tail then (w.tail + 1) % w.size else w.tail;
    }

-- A loop of `acknowledge` over `n` positions from `i` on.
unfoldable pub find_seq : ℕ → (ℕ → ℕ) → ℕ → ℕ → Option ℕ
find_seq zero seqs seq i = none
find_seq (suc n) seqs seq i = elim (seq == seqs i) [
  | true ↦ some i
  | false ↦ find_seq n seqs seq (i + 1)
]

-- `m_iTail = m_iHead = 0; m_piACKSeqNo[0] = -1;`
abbrev pub reset : AckWindow → AckWindow
reset w = record w { seqs = write w.seqs 0 minus_one; head = 0; tail = 0 }

-- What `acknowledge` does with the position found, before it returns: the number acknowledged and
-- the round trip time. `at_end` is the test of the position.
abbrev pub on_found : AckWindow → ℕ → Bool → ℕ → Option (ℕ × ℕ) × AckWindow
on_found w i at_end now = (
  some (w.acks i, (now - w.times i) % 2 ^ 32),
  if at_end then reset w else record w { tail = (i + 1) % w.size },
)

-- `acknowledge`; none stands for -1.
unfoldable pub acknowledge : AckWindow → ℕ → ℕ → Option (ℕ × ℕ) × AckWindow
acknowledge w seq now = elim (leb w.tail w.head) [
  | true ↦ elim (find_seq (w.head - w.tail) w.seqs seq w.tail) [
    | none ↦ (none, w)
    | some i ↦ on_found w i (i + 1 == w.head) now
  ]
  | false ↦ elim (find_seq (w.head + w.size - w.tail) (λ j. w.seqs (j % w.size)) seq w.tail) [
    | none ↦ (none, w)
    | some j ↦ on_found w (j % w.size) (j % w.size == w.head) now
  ]
]
