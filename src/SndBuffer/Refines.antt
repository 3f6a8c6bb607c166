-- ===== src/SndBuffer/Refines.antt =====
-- udt4/src/buffer.cpp: sequences of calls of the send buffer, beside two plain lists of packets.
use udt_patch_for_epoll.Prelude.{
  ℕ, ◌-◌, ◌<◌, ◌≤◌, ◌≡◌, refl, ap, ◌∙◌, Bool, Option, none, some, List, [], ◌∷◌, ◌++◌, arith,
  length, length-append, append_assoc, drop,
}
use udt_patch_for_epoll.SendMsgBuf.{Bytes}
use udt_patch_for_epoll.RcvBuffer.{Run, done, ◌>>=◌}
use udt_patch_for_epoll.SndBuffer.{
  Block, SndBuffer, replicate, new_snd_buffer, packets_of, next_number, packet_of, add_buffer,
  read_data, ack_data,
}
use udt_patch_for_epoll.SndBuffer.Chunks.{segment}
use udt_patch_for_epoll.SndBuffer.Growing.{length-replicate}
use udt_patch_for_epoll.SndBuffer.Adding.{add_buffer-IsQueue}
use udt_patch_for_epoll.SndBuffer.Reading.{
  IsSending, read_data-none, read_data-some, ack_data-IsSending,
}

pub data Op : Type 0 where
  send : Bytes → Option ℕ → Bool → ℕ → Op
  next : Op
  ack : ℕ → Op

abbrev pub perform : SndBuffer → Block → Op → Run (Option Block × SndBuffer)
perform b memory (send bytes ttl order now) =
    add_buffer b bytes ttl order now memory >>= λ b1. done (none, b1)
perform b memory next = done (read_data b)
perform b memory (ack n) = done (none, ack_data b n)

abbrev pub with_packet : Option Block → List Block → List Block
with_packet none packets = packets
with_packet (some p) packets = p ∷ packets

-- The packets that the calls read, one after the other.
abbrev pub run : SndBuffer → Block → List Op → Run (List Block × SndBuffer)
run b memory [] = done ([], b)
run b memory (op ∷ ops) = perform b memory op >>= λ r.
    run r.1 memory ops >>= λ rest. done (with_packet r.0 rest.0, rest.1)

-- The packets sent and not acknowledged, and those to be sent.
pub record Sender : Type 0 where
  pub mss : ℕ
  pub number : ℕ
  pub sent : List Block
  pub unsent : List Block

abbrev pub read_first : Sender → List Block → Option Block × Sender
read_first s [] = (none, s)
read_first s (p ∷ unsent) = (some p, record s { sent = s.sent ++ (p ∷ []); unsent = unsent })

abbrev pub spec : Sender → Op → Option Block × Sender
spec s (send bytes ttl order now) = (
  none,
  record s {
    number = next_number s.number;
    unsent =
        s.unsent
        ++ segment (packet_of s.mss s.number bytes ttl order now) 0
            (packets_of (length bytes) s.mss);
  },
)
spec s next = read_first s s.unsent
spec s (ack n) = (none, record s { sent = drop n s.sent })

abbrev pub spec_run : Sender → List Op → List Block × Sender
spec_run s [] = ([], s)
spec_run s (op ∷ ops) =
    let r = spec s op in let rest = spec_run r.1 ops in (with_packet r.0 rest.0, rest.1)

-- An acknowledgement is of packets that were sent.
abbrev pub AcksSent : Sender → Op → Type 0
AcksSent s (send bytes ttl order now) = Unit
AcksSent s next = Unit
AcksSent s (ack n) = n ≤ length s.sent

abbrev pub AllAckSent : Sender → List Op → Type 0
AllAckSent s [] = Unit
AllAckSent s (op ∷ ops) = AcksSent s op × AllAckSent (spec s op).1 ops

pub record Refines (b : SndBuffer) (s : Sender) : Type 0 where
  pub sending : IsSending b s.sent s.unsent
  pub mss : b.mss ≡ s.mss
  pub number : b.next_msg_no ≡ s.number

read_data-Refines :
    (b : SndBuffer) (s : Sender) (unsent : List Block)
    → IsSending b s.sent unsent
    → s.unsent ≡ unsent
    → Refines b s
    → (b1 : SndBuffer) × (read_data b ≡ ((read_first s unsent).0, b1))
      × Refines b1 (read_first s unsent).1
read_data-Refines b s [] v e r = (b, read_data-none b s.sent v, r)
read_data-Refines b s (p ∷ unsent) v e r =
    let (b1, e1, w, m, k) = read_data-some b s.sent unsent p v in
    (b1, e1, record { sending = w; mss = m ∙ r.mss; number = k ∙ r.number })

perform-Refines :
    (b : SndBuffer) (memory : Block) (s : Sender) (op : Op)
    → Refines b s
    → AcksSent s op
    → (b1 : SndBuffer) × (perform b memory op ≡ done ((spec s op).0, b1)) × Refines b1 (spec s op).1
perform-Refines b memory s next r a =
    let (b1, e, w) = read_data-Refines b s s.unsent r.sending refl r in (b1, ap done e, w)
perform-Refines b memory s (ack n) r a =
    let (w, m, k) = ack_data-IsSending b n s.sent s.unsent a r.sending in
    (ack_data b n, refl, record { sending = w; mss = m ∙ r.mss; number = k ∙ r.number })
perform-Refines b memory s (send bytes ttl order now) r a =
    let (b1, e, w, c, m, k) =
      add_buffer-IsQueue b (s.sent ++ s.unsent) bytes ttl order now memory r.sending.queue in
    (
      b1,
      rw e refl,
      record {
        sending = record {
          queue =
              rw
                (
                  ← r.mss,
                  ← r.number,
                  ← append_assoc s.sent s.unsent (
                      segment (packet_of b.mss b.next_msg_no bytes ttl order now) 0
                        (packets_of (length bytes) b.mss)),
                )
                w;
          curr = c ∙ r.sending.curr;
        };
        mss = m ∙ r.mss;
        number = k ∙ ap (λ x. next_number x) r.number;
      },
    )

run-Refines :
    (b : SndBuffer) (memory : Block) (s : Sender) (ops : List Op)
    → Refines b s
    → AllAckSent s ops
    → (b1 : SndBuffer) × (run b memory ops ≡ done ((spec_run s ops).0, b1))
      × Refines b1 (spec_run s ops).1
run-Refines b memory s [] r a = (b, refl, r)
run-Refines b memory s (op ∷ ops) r (a, more) =
    let (b1, e, w) = perform-Refines b memory s op r a in
    let (b2, e2, w2) = run-Refines b1 memory (spec s op).1 ops w more in (b2, rw (e, e2) refl, w2)

abbrev pub new_sender : ℕ → Sender
new_sender mss = record { mss = mss; number = 1; sent = []; unsent = [] }

new_snd_buffer-Refines :
    (size mss : ℕ) (memory : Block)
    → 0 < size
    → Refines (new_snd_buffer size mss memory) (new_sender mss)
unfolding new_snd_buffer
new_snd_buffer-Refines size mss memory h =
    let l = length-append (replicate (size - 1) (record memory { msg_no = 0 })) (memory ∷ []) in
    let k = length-replicate (size - 1) (record memory { msg_no = 0 }) in
    record {
      sending = record {
        queue = record {
          free = replicate (size - 1) (record memory { msg_no = 0 }) ++ (memory ∷ []);
          split = refl;
          room = omega (arith, l);
          count = refl;
          last = refl;
          size = omega (arith, l, k, h);
          sent = omega arith;
          unit_size = h;
        };
        curr = refl;
      };
      mss = refl;
      number = refl;
    }

-- From a new send buffer of at least one block on, every sequence of messages added, packets read
-- and acknowledgements of packets that were sent comes back, with the packets of the messages in
-- order, each read once, as from two plain lists, however often the buffer had to grow.
pub run_sends_in_order :
    (size mss : ℕ) (memory : Block) (ops : List Op)
    → 0 < size
    → AllAckSent (new_sender mss) ops
    → (b1 : SndBuffer) × (run (new_snd_buffer size mss memory) memory ops
        ≡ done ((spec_run (new_sender mss) ops).0, b1))
      × Refines b1 (spec_run (new_sender mss) ops).1
run_sends_in_order size mss memory ops h a =
    run-Refines (new_snd_buffer size mss memory) memory (new_sender mss) ops
      (new_snd_buffer-Refines size mss memory h) a
