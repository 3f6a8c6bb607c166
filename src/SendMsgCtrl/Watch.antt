-- ===== src/SendMsgCtrl/Watch.antt =====
-- server_udt/send_msg_ctrl.cpp: what the sender asks of the epoll about the sockets that have
-- messages, over sequences of calls.
use udt_patch_for_epoll.Prelude.{
  ℕ, ◌≡◌, ◌≢◌, refl, sym, ap, ◌∙◌, true, Option, none, some, List, [], ◌∷◌, map, length, arith,
  ◌==◌, ◌&&◌, if◌then◌else◌, Bool-cases, inl, inr,
}
use udt_patch_for_epoll.Std.Set.{Set, contains, contains-insert}
use udt_patch_for_epoll.SendMsgBuf.{Bytes, get_msg_queue}
use udt_patch_for_epoll.Udt.{Udt, Reply, ret, SendsWhole}
use udt_patch_for_epoll.SendMsgCtrl.{
  SendMsgCtrl, new_ctrl, clean_msg, event_with_write, event_only_read, Outcome, returned,
  add_write_event, add_msg_to_send_buf, and_then, try_send_msg,
}
use udt_patch_for_epoll.SendMsgCtrl.Drain.{
  Sends, Unwatched, taken_out, only_read, with_buf, Drained, emptied, blocked, broken, cut_short,
  try_send_msg_of_one_sock-Drained,
}
use udt_patch_for_epoll.SendMsgCtrl.Armed.{
  IsArmed, new_ctrl-IsArmed, Unwatched-IsArmed, with_buf-IsArmed, rest_watched,
  add_msg_to_send_buf-IsArmed, clean_msg-IsArmed,
}

-- A record, kept beside the library's state, of what a program last asked of an epoll about a socket:
-- the events that it added the socket with; nothing, if it took the socket out since.
pub record EpollLedger (u : Udt) : Type 0 where
  pub asked : u.World → ℕ → ℕ → Option ℕ
  pub add_asks :
      (w : u.World) (eid sock events e s : ℕ)
      → asked (u.epoll_add_usock w eid sock events).1 e s
        ≡ (if eid == e && sock == s then some events else asked w e s)
  pub remove_asks :
      (w : u.World) (eid sock e s : ℕ)
      → asked (u.epoll_remove_usock w eid sock).1 e s
        ≡ (if eid == e && sock == s then none else asked w e s)
  pub sendmsg_keeps :
      (w : u.World) (sock : ℕ) (msg : Bytes) (e s : ℕ)
      → asked (u.sendmsg w sock msg).1 e s ≡ asked w e s

-- The calls that the server makes of the sender.
pub data Call : Type 0 where
  add : ℕ → Bytes → Call
  clean : ℕ → Call
  try : Set → Call

module _ (u : Udt) where
  pub step : SendMsgCtrl → u.World → Call → Outcome u
  step c w (add sock m) = let (c', w') = add_msg_to_send_buf u c w sock (some m) in returned c' w'
  step c w (clean sock) = returned (clean_msg c sock) w
  step c w (try fds) = try_send_msg u c w fds

  pub run : SendMsgCtrl → u.World → List Call → Outcome u
  unfolding step
  run c w [] = returned c w
  run c w (x ∷ xs) = and_then u (step c w x) (λ c' w'. run c' w' xs)

module _ (u : Udt) (l : EpollLedger u) (eid : ℕ) where
  -- Every socket in `events_with_write_` was last added to the sender's epoll with the events for
  -- writing too.
  pub record IsWatching (c : SendMsgCtrl) (w : u.World) : Type 0 where
    pub same_eid : c.udt_eid ≡ eid
    pub watched :
        (s : ℕ) → contains s c.events_with_write ≡ true → l.asked w eid s ≡ some event_with_write

  sent_keeps :
      (sock : ℕ) (w w' : u.World) (m : Bytes) (r : Reply) (s : ℕ)
      → u.sendmsg w sock m ≡ (r, w')
      → l.asked w' eid s ≡ l.asked w eid s
  sent_keeps sock w w' m r s e =
      sym (ap (λ (x : Reply × u.World). l.asked x.1 eid s) e) ∙ l.sendmsg_keeps w sock m eid s

  Sends-keeps :
      (sock : ℕ) (w : u.World) (ms : List Bytes) (w' : u.World) (s : ℕ)
      → Sends u sock w ms w'
      → l.asked w' eid s ≡ l.asked w eid s
  Sends-keeps sock w [] w' s e = ap (λ (x : u.World). l.asked x eid s) (sym e)
  Sends-keeps sock w (m ∷ ms) w' s (w1, e, t) =
      Sends-keeps sock w1 ms w' s t ∙ sent_keeps sock w w1 m (ret (length m)) s e

  -- A world in which the same was asked as before about the sockets that stay watched.
  Unwatched-IsWatching :
      (sock : ℕ) (c c' : SendMsgCtrl) (w w' : u.World)
      → IsWatching c w
      → Unwatched u sock c c'
      → ((s : ℕ) → sock ≢ s → l.asked w' eid s ≡ l.asked w eid s)
      → IsWatching c' w'
  Unwatched-IsWatching sock c c' w w' v k h = record {
    same_eid = k.same_eid ∙ v.same_eid;
    watched = λ s e. ground (arith, k.events s, v.watched s, h s, e);
  }

  taken_out_keeps :
      (sock : ℕ) (c : SendMsgCtrl) (w : u.World) (s : ℕ)
      → sock ≢ s
      → l.asked (taken_out u sock c w) eid s ≡ l.asked w eid s
  taken_out_keeps sock c w s n = ground (arith, l.remove_asks w c.udt_eid sock eid s, n)

  only_read_keeps :
      (sock : ℕ) (c : SendMsgCtrl) (w : u.World) (s : ℕ)
      → sock ≢ s
      → l.asked (only_read u sock c w) eid s ≡ l.asked w eid s
  only_read_keeps sock c w s n = ground (
    arith,
    l.add_asks (taken_out u sock c w) c.udt_eid sock event_only_read eid s,
    taken_out_keeps sock c w s n,
    n,
  )

  -- What an operation must reach: a normal return, in a state that satisfies both invariants.
  abbrev pub ReturnsWatching : Outcome u → Type 0
  ReturnsWatching o =
      (c : SendMsgCtrl) × (w : u.World) × (o ≡ returned c w) × IsArmed c × IsWatching c w

  emptied-IsWatching :
      (sock : ℕ) (c c' : SendMsgCtrl) (w w1 w' : u.World)
      → IsWatching c w
      → ((s : ℕ) → l.asked w1 eid s ≡ l.asked w eid s)
      → Unwatched u sock c c'
      → w' ≡ (if contains sock c.events_with_write then only_read u sock c w1 else w1)
      → IsWatching c' w'
  emptied-IsWatching sock c c' w w1 w' v h k e =
      Unwatched-IsWatching sock c c' w w' v k
        (elim (Bool-cases (contains sock c.events_with_write)) [
          | inl t ↦ λ s n. rw (e, t) (only_read_keeps sock c w1 s n ∙ h s)
          | inr t ↦ λ s n. rw (e, t) (h s)
        ])

  Drained-ReturnsWatching :
      (c : SendMsgCtrl) (w : u.World) (sock : ℕ) (ms : List Bytes) (o : Outcome u)
      → SendsWhole u
      → IsArmed c
      → IsWatching c w
      → get_msg_queue c.send_msg_buf sock ≡ map some ms
      → Drained u sock c w ms o
      → ReturnsWatching o
  Drained-ReturnsWatching c w sock ms o law a v e (emptied c' w1 w' t k h r) = (
    c',
    w',
    r,
    Unwatched-IsArmed u sock c c' a k,
    emptied-IsWatching sock c c' w w1 w' v (λ s. Sends-keeps sock w ms w1 s t) k h,
  )
  Drained-ReturnsWatching c w sock ms o law a v e (blocked sent rest m b w1 w2 p t y q r) = (
    with_buf c b,
    w2,
    r,
    with_buf-IsArmed c b sock (m ∷ rest) a (rest_watched u c sock ms sent rest m a e p) q,
    record {
      same_eid = v.same_eid;
      watched =
          λ s h. sent_keeps sock w1 w2 m _ s y ∙ Sends-keeps sock w sent w1 s t ∙ v.watched s h;
    },
  )
  Drained-ReturnsWatching c w sock ms o law a v e (broken sent rest m code c' w1 w2 p t y k q r) = (
    c',
    taken_out u sock c w2,
    r,
    Unwatched-IsArmed u sock c c' a q,
    Unwatched-IsWatching sock c c' w (taken_out u sock c w2) v q (λ s n.
        taken_out_keeps sock c w2 s n
        ∙ sent_keeps sock w1 w2 m _ s y
        ∙ Sends-keeps sock w sent w1 s t),
  )
  Drained-ReturnsWatching c w sock ms o law a v e (cut_short sent rest m n b w1 w2 p t y k q r) =
      absurd (k (law w1 w2 sock m n y))

  try_send_msg-ReturnsWatching :
      (writefds : Set) (c : SendMsgCtrl) (w : u.World)
      → SendsWhole u
      → IsArmed c
      → IsWatching c w
      → ReturnsWatching (try_send_msg u c w writefds)
  unfolding try_send_msg
  try_send_msg-ReturnsWatching [] c w law a v = (c, w, refl, a, v)
  try_send_msg-ReturnsWatching (sock ∷ fds) c w law a v =
      let (ms, q) = a.ready sock in
      let (c', w', e, a', v') =
        Drained-ReturnsWatching c w sock ms _ law a v q
          (try_send_msg_of_one_sock-Drained u sock c w ms q) in
      rw e (try_send_msg-ReturnsWatching fds c' w' law a' v')

  add_msg_to_send_buf-IsWatching :
      (c : SendMsgCtrl) (w : u.World) (sock : ℕ) (m : Bytes)
      → IsWatching c w
      → let (c', w') = add_msg_to_send_buf u c w sock (some m) in IsWatching c' w'
  unfolding add_msg_to_send_buf add_write_event
  add_msg_to_send_buf-IsWatching c w sock m v =
      elim (Bool-cases (contains sock c.events_with_write)) [
        | inl t ↦ rw t (record { same_eid = v.same_eid; watched = v.watched })
        | inr t ↦ rw t (record {
          same_eid = v.same_eid;
          watched = λ s e. ground (
            arith,
            contains-insert s sock c.events_with_write,
            l.add_asks w c.udt_eid sock event_with_write eid s,
            v.watched s,
            v.same_eid,
            e,
          );
        })
      ]

  step-ReturnsWatching :
      (c : SendMsgCtrl) (w : u.World) (x : Call)
      → SendsWhole u
      → IsArmed c
      → IsWatching c w
      → ReturnsWatching (step u c w x)
  unfolding step clean_msg
  step-ReturnsWatching c w (add sock m) law a v = (
    _,
    _,
    refl,
    add_msg_to_send_buf-IsArmed u c w sock m a,
    add_msg_to_send_buf-IsWatching c w sock m v,
  )
  step-ReturnsWatching c w (clean sock) law a v = (
    _,
    _,
    refl,
    clean_msg-IsArmed c sock a,
    record { same_eid = v.same_eid; watched = v.watched },
  )
  step-ReturnsWatching c w (try fds) law a v = try_send_msg-ReturnsWatching fds c w law a v

  run-ReturnsWatching :
      (xs : List Call) (c : SendMsgCtrl) (w : u.World)
      → SendsWhole u
      → IsArmed c
      → IsWatching c w
      → ReturnsWatching (run u c w xs)
  unfolding run
  run-ReturnsWatching [] c w law a v = (c, w, refl, a, v)
  run-ReturnsWatching (x ∷ xs) c w law a v =
      let (c', w', e, a', v') = step-ReturnsWatching c w x law a v in
      rw e (run-ReturnsWatching xs c' w' law a' v')

  -- If the library sends messages whole or not at all, then every sequence of calls of a new sender,
  -- in which no message added is a null pointer, comes back with no assertion failed. In the state
  -- that it leaves, each socket with queued messages is in `events_with_write_`, and what the sender
  -- last asked of its epoll about such a socket, or any other in `events_with_write_`, was to watch
  -- it for writing too; no queued pointer is null.
  pub run-watches :
      (xs : List Call) (w : u.World) → SendsWhole u → ReturnsWatching (run u (new_ctrl eid) w xs)
  unfolding new_ctrl contains
  run-watches xs w law =
      run-ReturnsWatching xs (new_ctrl eid) w law (new_ctrl-IsArmed eid)
        (record { same_eid = refl; watched = λ s e. absurd (ground (arith, e)) })
