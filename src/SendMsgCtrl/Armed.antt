-- ===== src/SendMsgCtrl/Armed.antt =====
-- server_udt/send_msg_ctrl.cpp: every socket with messages is in `events_with_write_`.
use mathlib.Core.Path.{fun_ext}
use udt_patch_for_epoll.Prelude.{
  ℕ, ◌≡◌, ◌≢◌, refl, ap, true, some, List, [], ◌∷◌, ◌++◌, map, arith, ◌==◌, if◌then◌else◌,
  Bool-cases, inl, inr,
}
use udt_patch_for_epoll.Std.Set.{Set, contains, insert, contains-insert}
use udt_patch_for_epoll.Std.Map.{lookup}
use udt_patch_for_epoll.SendMsgBuf.{Bytes, SendMsgBuf, empty_buf, get_msg_queue, add_msg}
use udt_patch_for_epoll.SendMsgBuf.Fifo.{get_msg_queue-add_msg, get_msg_queue-clean_msg}
use udt_patch_for_epoll.Udt.{Udt, SendsWhole}
use udt_patch_for_epoll.SendMsgCtrl.{
  SendMsgCtrl, new_ctrl, clean_msg, Outcome, returned, add_msg_to_send_buf,
  try_send_msg_of_one_sock, try_send_msg,
}
use udt_patch_for_epoll.SendMsgCtrl.Drain.{
  with_buf, with_queue, Unwatched, Drained, emptied, blocked, broken, cut_short,
  try_send_msg_of_one_sock-Drained,
}

-- Every socket with messages is in `events_with_write_`, and no queued pointer is null.
pub record IsArmed (c : SendMsgCtrl) : Type 0 where
  pub armed : (s : ℕ) → get_msg_queue c.send_msg_buf s ≢ [] → contains s c.events_with_write ≡ true
  pub ready : (s : ℕ) → (ms : List Bytes) × (get_msg_queue c.send_msg_buf s ≡ map some ms)

pub new_ctrl-IsArmed : (eid : ℕ) → IsArmed (new_ctrl eid)
unfolding new_ctrl empty_buf get_msg_queue lookup
new_ctrl-IsArmed eid = record { armed = λ s h. absurd (h refl); ready = λ s. ([], refl) }

at_queue :
    (b b' : SendMsgBuf) (sock j : ℕ) (ms : List Bytes)
    → get_msg_queue b' ≡ with_queue (get_msg_queue b) sock ms
    → get_msg_queue b' j ≡ (if sock == j then map some ms else get_msg_queue b j)
at_queue b b' sock j ms e = ap (λ f. f j) e

ready_at :
    (c : SendMsgCtrl) (b : SendMsgBuf) (sock : ℕ) (ms : List Bytes)
    → IsArmed c
    → get_msg_queue b ≡ with_queue (get_msg_queue c.send_msg_buf) sock ms
    → (s : ℕ) → (xs : List Bytes) × (get_msg_queue b s ≡ map some xs)
ready_at c b sock ms v e s = (
  if sock == s then ms else (v.ready s).0,
  ground (arith, at_queue c.send_msg_buf b sock s ms e, (v.ready s).1),
)

-- A queue of one watched socket may become any list of messages.
pub with_buf-IsArmed :
    (c : SendMsgCtrl) (b : SendMsgBuf) (sock : ℕ) (ms : List Bytes)
    → IsArmed c
    → contains sock c.events_with_write ≡ true
    → get_msg_queue b ≡ with_queue (get_msg_queue c.send_msg_buf) sock ms
    → IsArmed (with_buf c b)
with_buf-IsArmed c b sock ms v k e = record {
  armed = λ s h. ground (arith, at_queue c.send_msg_buf b sock s ms e, v.armed s);
  ready = ready_at c b sock ms v e;
}

-- A socket without messages need not be watched.
pub Unwatched-IsArmed :
    (u : Udt) (sock : ℕ) (c c' : SendMsgCtrl) → IsArmed c → Unwatched u sock c c' → IsArmed c'
Unwatched-IsArmed u sock c c' v k = record {
  armed = λ s h.
      ground
        (arith, at_queue c.send_msg_buf c'.send_msg_buf sock s [] k.queues, k.events s, v.armed s);
  ready = ready_at c c'.send_msg_buf sock [] v k.queues;
}

-- Unwatching changes nothing where the socket was not watched.
emptied-IsArmed :
    (c : SendMsgCtrl) (b : SendMsgBuf) (sock : ℕ)
    → IsArmed c
    → get_msg_queue b ≡ with_queue (get_msg_queue c.send_msg_buf) sock []
    → IsArmed (with_buf c b)
emptied-IsArmed c b sock v e = record {
  armed = λ s h. ground (arith, at_queue c.send_msg_buf b sock s [] e, v.armed s);
  ready = ready_at c b sock [] v e;
}

-- Whatever is queued for a socket that becomes watched is watched.
watched-IsArmed :
    (c : SendMsgCtrl) (b : SendMsgBuf) (sock : ℕ) (ms : List Bytes)
    → IsArmed c
    → get_msg_queue b ≡ with_queue (get_msg_queue c.send_msg_buf) sock ms
    → IsArmed (record c { events_with_write = insert sock c.events_with_write; send_msg_buf = b })
watched-IsArmed c b sock ms v e = record {
  armed = λ s h. ground (
    arith,
    at_queue c.send_msg_buf b sock s ms e,
    contains-insert s sock c.events_with_write,
    v.armed s,
  );
  ready = ready_at c b sock ms v e;
}

map_snoc : (ms : List Bytes) (m : Bytes) → map some (ms ++ (m ∷ [])) ≡ map some ms ++ (some m ∷ [])
map_snoc [] m = refl
map_snoc (x ∷ ms) m = ap (◌∷◌ (some x)) (map_snoc ms m)

queued :
    (b : SendMsgBuf) (sock : ℕ) (ms : List Bytes) (m : Bytes)
    → get_msg_queue b sock ≡ map some ms
    → get_msg_queue (add_msg b sock (some m)) ≡ with_queue (get_msg_queue b) sock (ms ++ (m ∷ []))
queued b sock ms m e =
    fun_ext λ j. ground (arith, get_msg_queue-add_msg b sock (some m) j, map_snoc ms m)

module _ (u : Udt) where
  -- What an operation must reach: a normal return, in a state that satisfies the invariant.
  abbrev pub ReturnsArmed : Outcome u → Type 0
  ReturnsArmed o = (c : SendMsgCtrl) × (w : u.World) × (o ≡ returned c w) × IsArmed c

  pub rest_watched :
      (c : SendMsgCtrl) (sock : ℕ) (ms sent rest : List Bytes) (m : Bytes)
      → IsArmed c
      → get_msg_queue c.send_msg_buf sock ≡ map some ms
      → ms ≡ sent ++ (m ∷ rest)
      → contains sock c.events_with_write ≡ true
  rest_watched c sock ms [] rest m v e p = v.armed sock (λ h. ground arith)
  rest_watched c sock ms (x ∷ sent) rest m v e p = v.armed sock (λ h. ground arith)

  Drained-ReturnsArmed :
      (c : SendMsgCtrl) (w : u.World) (sock : ℕ) (ms : List Bytes) (o : Outcome u)
      → SendsWhole u
      → IsArmed c
      → get_msg_queue c.send_msg_buf sock ≡ map some ms
      → Drained u sock c w ms o
      → ReturnsArmed o
  Drained-ReturnsArmed c w sock ms o law v e (emptied c' w1 w' t k h r) =
      (c', w', r, Unwatched-IsArmed u sock c c' v k)
  Drained-ReturnsArmed c w sock ms o law v e (blocked sent rest m b w1 w2 p t y q r) =
      (_, _, r, with_buf-IsArmed c b sock (m ∷ rest) v (rest_watched c sock ms sent rest m v e p) q)
  Drained-ReturnsArmed c w sock ms o law v e (broken sent rest m code c' w1 w2 p t y k q r) =
      (c', _, r, Unwatched-IsArmed u sock c c' v q)
  Drained-ReturnsArmed c w sock ms o law v e (cut_short sent rest m n b w1 w2 p t y k q r) =
      absurd (k (law w1 w2 sock m n y))

  pub try_send_msg_of_one_sock-ReturnsArmed :
      (c : SendMsgCtrl) (w : u.World) (sock : ℕ)
      → SendsWhole u
      → IsArmed c
      → ReturnsArmed (try_send_msg_of_one_sock u c w sock)
  try_send_msg_of_one_sock-ReturnsArmed c w sock law v =
      Drained-ReturnsArmed c w sock (v.ready sock).0 _ law v (v.ready sock).1
        (try_send_msg_of_one_sock-Drained u sock c w (v.ready sock).0 (v.ready sock).1)

  pub try_send_msg-ReturnsArmed :
      (writefds : Set) (c : SendMsgCtrl) (w : u.World)
      → SendsWhole u
      → IsArmed c
      → ReturnsArmed (try_send_msg u c w writefds)
  unfolding try_send_msg
  try_send_msg-ReturnsArmed [] c w law v = (c, w, refl, v)
  try_send_msg-ReturnsArmed (sock ∷ fds) c w law v =
      let (c', w', e, v') = try_send_msg_of_one_sock-ReturnsArmed c w sock law v in
      rw e (try_send_msg-ReturnsArmed fds c' w' law v')

  pub add_msg_to_send_buf-IsArmed :
      (c : SendMsgCtrl) (w : u.World) (sock : ℕ) (m : Bytes)
      → IsArmed c
      → IsArmed (add_msg_to_send_buf u c w sock (some m)).0
  unfolding add_msg_to_send_buf
  add_msg_to_send_buf-IsArmed c w sock m v =
      let (ms, e) = v.ready sock in
      let q = queued c.send_msg_buf sock ms m e in
      elim (Bool-cases (contains sock c.events_with_write)) [
        | inl t ↦ rw t (with_buf-IsArmed c _ sock (ms ++ (m ∷ [])) v t q)
        | inr t ↦ rw t (watched-IsArmed c _ sock (ms ++ (m ∷ [])) v q)
      ]

-- `CleanMsg` drops messages, and a socket without messages may stay watched.
pub clean_msg-IsArmed : (c : SendMsgCtrl) (sock : ℕ) → IsArmed c → IsArmed (clean_msg c sock)
unfolding clean_msg
clean_msg-IsArmed c sock v =
    emptied-IsArmed c _ sock v (fun_ext (get_msg_queue-clean_msg c.send_msg_buf sock))
