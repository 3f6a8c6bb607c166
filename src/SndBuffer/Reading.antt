-- ===== src/SndBuffer/Reading.antt =====
-- udt4/src/buffer.cpp: the queue that `readData` and `ackData` go along.
use udt_patch_for_epoll.Prelude.{
  ℕ, zero, suc, ◌+◌, ◌-◌, ◌≤◌, ◌≡◌, refl, sym, ap, ◌∙◌, true, false, none, some, List, [], ◌∷◌,
  ◌++◌, arith, ◌==◌, get_elem?, length, length-append, append_assoc, drop,
}
use udt_patch_for_epoll.RcvBuffer.{next_pos}
use udt_patch_for_epoll.SndBuffer.{
  Block, SndBuffer, rotate, prev_pos, move_first, read_data, ack_data,
}
use udt_patch_for_epoll.SndBuffer.Growing.{IsQueue}

-- The packets sent and not yet acknowledged, and those not yet sent.
pub record IsSending (b : SndBuffer) (sent unsent : List Block) : Type 0 where
  pub queue : IsQueue b (sent ++ unsent)
  pub curr : b.curr ≡ length sent

get_elem?-append :
    (xs ys : List Block) (x : Block) → get_elem? (xs ++ (x ∷ ys)) (length xs) ≡ some x
get_elem?-append [] ys x = refl
get_elem?-append (z ∷ xs) ys x = get_elem?-append xs ys x

pub read_data-none :
    (b : SndBuffer) (sent : List Block) → IsSending b sent [] → read_data b ≡ (none, b)
unfolding read_data
read_data-none b sent v =
    let here : (b.curr == b.last) ≡ true =
      ground (arith, v.curr, v.queue.last, length-append sent []) in
    rw here refl

pub read_data-some :
    (b : SndBuffer) (sent unsent : List Block) (x : Block)
    → IsSending b sent (x ∷ unsent)
    → (b1 : SndBuffer) × (read_data b ≡ (some x, b1))
      × IsSending b1 (sent ++ (x ∷ [])) unsent
      × (b1.mss ≡ b.mss)
      × (b1.next_msg_no ≡ b.next_msg_no)
unfolding read_data
read_data-some b sent unsent x v =
    let q = v.queue in
    let sizes = length-append sent (x ∷ unsent) in
    let all = ap length q.split ∙ length-append (sent ++ (x ∷ unsent)) q.free in
    let apart : (b.curr == b.last) ≡ false = ground (arith, v.curr, q.last, sizes) in
    let next : next_pos (length b.blocks) b.curr ≡ length sent + 1 =
      ground (arith, v.curr, sizes, all, q.room) in
    let one : length (sent ++ (x ∷ [])) ≡ length sent + 1 = length-append sent (x ∷ []) in
    let read : get_elem? b.blocks b.curr ≡ some x =
      rw (v.curr, q.split, append_assoc sent (x ∷ unsent) q.free)
        (get_elem?-append sent (unsent ++ q.free) x) in
    (
      record b { curr = next_pos (length b.blocks) b.curr },
      rw (apart, read) refl,
      record {
        queue = rw (append_assoc sent (x ∷ []) unsent) (record {
          free = q.free;
          split = q.split;
          room = q.room;
          count = q.count;
          last = q.last;
          size = q.size;
          sent = omega (arith, next, sizes);
          unit_size = q.unit_size;
        });
        curr = next ∙ sym one;
      },
      refl,
      refl,
    )

-- One step of `m_pFirstBlock` past a packet that was sent.
first_step :
    (b : SndBuffer) (sent unsent : List Block) (x : Block) (count : ℕ)
    → IsSending b (x ∷ sent) unsent
    → count ≡ length (sent ++ unsent)
    → IsSending
        (record b {
          blocks = rotate b.blocks;
          curr = prev_pos (length b.blocks) b.curr;
          last = prev_pos (length b.blocks) b.last;
          count = count;
        })
        sent
        unsent
first_step b sent unsent x count v e =
    let q = v.queue in
    let turned : rotate b.blocks ≡ (sent ++ unsent) ++ (q.free ++ (x ∷ [])) =
      rw q.split (append_assoc (sent ++ unsent) q.free (x ∷ [])) in
    let all = ap length q.split ∙ ap suc (length-append (sent ++ unsent) q.free) in
    let curr : prev_pos (length b.blocks) b.curr ≡ length sent = ground (arith, v.curr) in
    let last : prev_pos (length b.blocks) b.last ≡ length (sent ++ unsent) =
      ground (arith, q.last) in
    let after = length-append (sent ++ unsent) (q.free ++ (x ∷ [])) in
    record {
      queue = record {
        free = q.free ++ (x ∷ []);
        split = turned;
        room = omega (arith, length-append q.free (x ∷ []));
        count = e;
        last = last;
        size = omega (arith, ap length turned, after, all, q.size, length-append q.free (x ∷ []));
        sent = omega (arith, curr, length-append sent unsent);
        unit_size = q.unit_size;
      };
      curr = curr;
    }

abbrev with_count : SndBuffer → ℕ → SndBuffer
with_count b count = record b { count = count }

move_first-IsSending :
    (n : ℕ) (b : SndBuffer) (count : ℕ) (sent unsent : List Block)
    → n ≤ length sent
    → IsSending (with_count b count) sent unsent
    → IsSending (with_count (move_first n b) (count - n)) (drop n sent) unsent
      × ((move_first n b).count ≡ b.count)
      × ((move_first n b).mss ≡ b.mss)
      × ((move_first n b).next_msg_no ≡ b.next_msg_no)
unfolding move_first
move_first-IsSending zero b count sent unsent h v =
    let e : count - 0 ≡ count = omega arith in (rw e v, refl, refl, refl)
move_first-IsSending (suc n) b count [] unsent h v = absurd (omega (arith, h))
move_first-IsSending (suc n) b count (x ∷ sent) unsent h v =
    let e : count - 1 ≡ length (sent ++ unsent) = omega (arith, v.queue.count) in
    let k : count - suc n ≡ count - 1 - n = omega arith in
    rw k (
      move_first-IsSending n _ (count - 1) sent unsent (omega (arith, h))
        (first_step (with_count b count) sent unsent x (count - 1) v e))

-- The packets of an acknowledgement leave the queue.
pub ack_data-IsSending :
    (b : SndBuffer) (n : ℕ) (sent unsent : List Block)
    → n ≤ length sent
    → IsSending b sent unsent
    → IsSending (ack_data b n) (drop n sent) unsent
      × ((ack_data b n).mss ≡ b.mss)
      × ((ack_data b n).next_msg_no ≡ b.next_msg_no)
unfolding ack_data
ack_data-IsSending b n sent unsent h v =
    let (w, c, m, k) = move_first-IsSending n b b.count sent unsent h v in (rw c w, m, k)
