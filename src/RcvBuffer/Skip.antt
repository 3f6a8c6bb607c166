-- ===== src/RcvBuffer/Skip.antt =====
-- udt4/src/buffer.cpp: the first loop of `scanMsg`, which skips messages that cannot be read.
use udt_patch_for_epoll.Prelude.{
  ℕ, zero, suc, ◌+◌, ◌<◌, ◌≤◌, ◌≡◌, refl, ◌∙◌, true, false, arith, ◌==◌, Bool-cases, Option-cases,
  inl, inr,
}
use udt_patch_for_epoll.RcvBuffer.{
  RcvUnit, RcvBuffer, Run, done, next_pos, release, starts_msg, ends_msg, look_ahead, whole_msg,
  skip_bad,
}
use udt_patch_for_epoll.RcvBuffer.Positions.{dist, next_pos-lt, dist-lt, dist-next_pos}

-- The positions lie in the array.
pub record InRing (b : RcvBuffer) : Type 0 where
  pub start : b.start_pos < b.size
  pub last_ack : b.last_ack_pos < b.size

abbrev pub Done {ℓ} : {A : Type ℓ} → Run A → Type ℓ
Done {A} r = (a : A) × (r ≡ done a)

pub look_ahead-Done :
    (fuel : ℕ) (b : RcvBuffer) (i : ℕ)
    → b.last_ack_pos < b.size
    → i < b.size
    → dist b.size i b.last_ack_pos < fuel
    → Done (look_ahead fuel b i)
unfolding look_ahead
look_ahead-Done zero b i k h f = absurd (omega arith)
look_ahead-Done (suc fuel) b i k h f = elim (Bool-cases (i == b.last_ack_pos)) [
  | inl t ↦ rw (t, look_ahead) (true, refl)
  | inr t ↦ elim (Option-cases (b.units i)) [
    | inl n ↦ rw (t, look_ahead, n) (false, refl)
    | inr (u, e) ↦ elim (Bool-cases (u.flag == 1)) [
      | inr g ↦ rw (t, look_ahead, e, g) (false, refl)
      | inl g ↦ elim (Bool-cases (ends_msg u)) [
        | inl m ↦ rw (t, look_ahead, e, g, m) (true, refl)
        | inr m ↦
            rw (t, look_ahead, e, g, m)
              (look_ahead-Done fuel b (next_pos b.size i) k (next_pos-lt b.size i h)
                (ground (arith, dist-next_pos b.size i b.last_ack_pos)))
      ]
    ]
  ]
]

pub whole_msg-Done : (b : RcvBuffer) (u : RcvUnit) → InRing b → Done (whole_msg b u)
unfolding whole_msg
whole_msg-Done b u v = elim (Bool-cases (starts_msg u)) [
  | inl t ↦
      rw (t, whole_msg)
        (look_ahead-Done (b.size + 1) b b.start_pos v.last_ack v.start
          (omega (arith, dist-lt b.size b.start_pos b.last_ack_pos v.start v.last_ack)))
  | inr t ↦ rw (t, whole_msg) (false, refl)
]

-- What the first loop of `scanMsg` keeps.
pub record Skipped (b b1 : RcvBuffer) : Type 0 where
  pub size : b1.size ≡ b.size
  pub last_ack : b1.last_ack_pos ≡ b.last_ack_pos
  pub start : b1.start_pos < b1.size
  pub max_pos : b1.max_pos ≡ b.max_pos
  pub nearer : dist b1.size b1.start_pos b1.last_ack_pos ≤ dist b.size b.start_pos b.last_ack_pos

pub Skipped-InRing : (b b1 : RcvBuffer) → InRing b → Skipped b b1 → InRing b1
Skipped-InRing b b1 v s = record {
  start = s.start;
  last_ack = omega (arith, s.size, s.last_ack, v.last_ack);
}

pub after_skip : (b b1 b2 : RcvBuffer) → Skipped b b1 → Skipped b1 b2 → Skipped b b2
after_skip b b1 b2 s t = record {
  size = t.size ∙ s.size;
  last_ack = t.last_ack ∙ s.last_ack;
  start = t.start;
  max_pos = t.max_pos ∙ s.max_pos;
  nearer = omega (arith, t.nearer, s.nearer);
}

pub Skipped-self : (b : RcvBuffer) → b.start_pos < b.size → Skipped b b
Skipped-self b h = record {
  size = refl;
  last_ack = refl;
  start = h;
  max_pos = refl;
  nearer = omega arith;
}

module _ (b : RcvBuffer) (h : next_pos b.size b.start_pos < b.size)
    (e : suc (dist b.size (next_pos b.size b.start_pos) b.last_ack_pos)
      ≡ dist b.size b.start_pos b.last_ack_pos) where
  moved : Skipped b (record b { start_pos = next_pos b.size b.start_pos })
  moved = record {
    size = refl;
    last_ack = refl;
    start = h;
    max_pos = refl;
    nearer = omega (arith, e);
  }

  released_first :
      Skipped b (record (release b b.start_pos) { start_pos = next_pos b.size b.start_pos })
  released_first = record {
    size = refl;
    last_ack = refl;
    start = h;
    max_pos = refl;
    nearer = omega (arith, e);
  }

pub skip_bad-Done :
    (fuel : ℕ) (b : RcvBuffer)
    → InRing b
    → dist b.size b.start_pos b.last_ack_pos < fuel
    → (b1 : RcvBuffer) × (skip_bad fuel b ≡ done b1) × Skipped b b1
unfolding skip_bad
skip_bad-Done zero b v f = absurd (omega arith)
skip_bad-Done (suc fuel) b v f =
    let next = next_pos b.size b.start_pos in
    let n = next_pos-lt b.size b.start_pos v.start in
    elim (Bool-cases (b.start_pos == b.last_ack_pos)) [
      | inl t ↦ rw (t, skip_bad) (b, refl, Skipped-self b v.start)
      | inr t ↦
          (let shorter : suc (dist b.size next b.last_ack_pos)
                ≡ dist b.size b.start_pos b.last_ack_pos =
              ground (arith, dist-next_pos b.size b.start_pos b.last_ack_pos v.start v.last_ack) in
            let d : dist b.size next b.last_ack_pos < fuel = omega (arith, f, shorter) in
            elim (Option-cases (b.units b.start_pos)) [
              | inl e ↦
                  (let (b1, r, s) =
                      skip_bad-Done fuel (record b { start_pos = next })
                        (record { start = n; last_ack = v.last_ack }) d in
                    rw (t, skip_bad, e)
                      (
                        b1,
                        r,
                        after_skip b (record b { start_pos = next }) b1 (moved b n shorter) s,
                      ))
              | inr (u, e) ↦
                  (let (good, g) = whole_msg-Done b u v in
                    elim (Bool-cases good) [
                      | inl z ↦ rw (t, skip_bad, e, g, z) (b, refl, Skipped-self b v.start)
                      | inr z ↦
                          (let b' : RcvBuffer = record (release b b.start_pos) {
                            start_pos = next;
                          } in
                            let (b1, r, s) =
                              skip_bad-Done fuel b' (record { start = n; last_ack = v.last_ack })
                                d in
                            rw (t, skip_bad, e, g, z)
                              (b1, r, after_skip b b' b1 (released_first b n shorter) s))
                    ])
            ])
    ]
