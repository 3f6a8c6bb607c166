-- ===== src/RcvUList/Worker/Ends.antt =====
-- udt4/src/queue.cpp: how the loop of `CRcvQueue::worker` over the timers ends.
use udt_patch_for_epoll.Prelude.{
  ℕ, zero, suc, ◌<◌, ◌≤◌, ◌≡◌, refl, ap, ◌∙◌, true, false, Option, none, some, ◌==◌, ltb, arith,
  Bool-cases, inl, inr,
}
use udt_patch_for_epoll.Hash.{Hash, remove_id}
use udt_patch_for_epoll.RcvUList.{RcvUList}
use udt_patch_for_epoll.RcvUList.Line.{Line, joined, without}
use udt_patch_for_epoll.RcvUList.Unlinking.{update-IsLine}
use udt_patch_for_epoll.RcvUList.Worker.{
  Sockets, dropped, after_update, handle, if_due, at_head, check_sockets,
}
use udt_patch_for_epoll.RcvUList.Worker.Due.{
  IsDue, updated-IsDue, dropped-IsDue, IsWithin, moved-IsWithin, without-IsWithin, IsWithin-trans,
  Checked,
}

module _ {W : Type 0} (sockets : Sockets W) where
  abbrev rest_of : ℕ → ℕ → RcvUList → Hash → W → Option (RcvUList × Hash × W)
  rest_of fuel ctime = λ l h w. check_sockets sockets fuel ctime l h w

  empty-Checked :
      (again : RcvUList → Hash → W → Option (RcvUList × Hash × W)) (ctime : ℕ) (l : RcvUList)
      (q : Line) (h : Hash) (w : W)
      → IsDue l q ctime 0
      → Checked q ctime (at_head sockets again ctime l h w l.first)
  empty-Checked again ctime l q h w v = elim (Bool-cases (q.size == 0)) [
    | inl z ↦
        let e : l.first ≡ none = v.line.first ∙ ground (arith, z) in
        (l, h, w, q, ap (at_head sockets again ctime l h w) e, v, λ i k. (i, k, refl))
    | inr z ↦
        let e : l.first ≡ some (q.at 0) = v.line.first ∙ ground (arith, z) in
        let t : ltb (l.times (q.at 0)) ctime ≡ false =
          ground (arith, v.early 0 (omega arith) (ground (arith, z))) in
        (
          l,
          h,
          w,
          q,
          ap (at_head sockets again ctime l h w) e ∙ ap (if_due sockets again l h w (q.at 0)) t,
          v,
          λ i k. (i, k, refl),
        )
  ]

  within-Checked :
      (q r : Line) (ctime : ℕ) (o p : Option (RcvUList × Hash × W))
      → IsWithin r q
      → o ≡ p
      → Checked r ctime p
      → Checked q ctime o
  within-Checked q r ctime o p f e (l1, h1, w1, q1, z, v, g) =
      (l1, h1, w1, q1, e ∙ z, v, IsWithin-trans q1 r q g f)

  due-Checked :
      (again : RcvUList → Hash → W → Option (RcvUList × Hash × W)) (ctime d : ℕ) (l : RcvUList)
      (q : Line) (h : Hash) (w : W)
      → ((w : W) → ctime ≤ sockets.clock w)
      → IsDue l q ctime (suc d)
      → ((l1 : RcvUList) (q1 : Line) (h1 : Hash) (w1 : W)
          → IsDue l1 q1 ctime d
          → Checked q1 ctime (again l1 h1 w1))
      → Checked q ctime (at_head sockets again ctime l h w l.first)
  due-Checked again ctime d l q h w late v rest =
      let u = q.at 0 in
      let inside : 0 < q.size = omega (arith, v.few) in
      let e : l.first ≡ some u = v.line.first ∙ ground (arith, inside) in
      let t : ltb (l.times u) ctime ≡ true = ground (arith, v.due 0 (omega arith)) in
      let head = ap (at_head sockets again ctime l h w) e ∙ ap (if_due sockets again l h w u) t in
      elim (Bool-cases (sockets.is_usable w u)) [
        | inl z ↦
            let w1 = sockets.check_timers w u in
            let now = sockets.clock w1 in
            let (l1, made, line, alike) =
              update-IsLine l q 0 now v.line inside (v.marked 0 inside) in
            within-Checked q (joined (without q 0) u) ctime
              (at_head sockets again ctime l h w l.first) (again l1 h w1) (moved-IsWithin q inside)
              (head
                ∙ ap (handle sockets again l h w u) z
                ∙ ap (after_update sockets again h w1) made)
              (rest l1 (joined (without q 0) u) h w1
                (updated-IsDue l l1 q ctime d now v (late w1) line alike))
        | inr z ↦
            let h1 = remove_id h (sockets.socket_id u) in
            within-Checked q (without q 0) ctime (at_head sockets again ctime l h w l.first)
              (again (dropped sockets l u) h1 w) (without-IsWithin q)
              (head ∙ ap (handle sockets again l h w u) z)
              (rest (dropped sockets l u) (without q 0) h1 w (dropped-IsDue sockets l q ctime d v))
      ]

  -- On a list whose first `d` sockets and no others are due, with a clock that is not before `ctime`, the
  -- loop comes back when its fuel is more than `d`: it follows no null pointer, and leaves a list of
  -- sockets of the first one that is linked right and on which none is due.
  pub check_sockets_ends :
      (fuel ctime d : ℕ) (l : RcvUList) (q : Line) (h : Hash) (w : W)
      → ((w : W) → ctime ≤ sockets.clock w)
      → d < fuel
      → IsDue l q ctime d
      → Checked q ctime (check_sockets sockets fuel ctime l h w)
  unfolding check_sockets
  check_sockets_ends zero ctime d l q h w late f v = absurd (omega (arith, f))
  check_sockets_ends (suc fuel) ctime zero l q h w late f v =
      empty-Checked (rest_of fuel ctime) ctime l q h w v
  check_sockets_ends (suc fuel) ctime (suc d) l q h w late f v =
      due-Checked (rest_of fuel ctime) ctime d l q h w late v
        (λ l1 q1 h1 w1 x. check_sockets_ends fuel ctime d l1 q1 h1 w1 late (omega (arith, f)) x)
