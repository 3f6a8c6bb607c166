-- ===== src/SendMsgBuf/Fifo.antt =====
-- `SendMsgBuf` against its abstract view: an independent FIFO of messages for each socket.
use udt_patch_for_epoll.Prelude.{
  ℕ, ◌≡◌, refl, ap, ◌∙◌, List, [], ◌∷◌, ◌++◌, arith, ◌==◌, if◌then◌else◌,
}
use mathlib.Core.Path.{fun_ext}
use udt_patch_for_epoll.Std.Map.{lookup, lookup-insert, lookup-erase}
use udt_patch_for_epoll.SendMsgBuf.{
  SendMsgBuf, MsgPtr, MsgQueue, empty_buf, get_msg_queue, has_msg, peek_front_msg, pop_msg, add_msg,
  clean_msg, clean_all_msg, front, is_nonempty,
}

-- The view: what each socket's queue holds.
abbrev pub Fifos : Type 0
Fifos = ℕ → MsgQueue

pub data Call : Type 0 where
  add : ℕ → MsgPtr → Call
  pop clean : ℕ → Call
  clean_all : Call

abbrev tail : MsgQueue → MsgQueue
tail [] = []
tail (m ∷ q) = q

-- What each call means for the queues.
unfoldable pub spec_step : Fifos → Call → Fifos
spec_step f (add s m) = λ j. if s == j then f s ++ (m ∷ []) else f j
spec_step f (pop s) = λ j. if s == j then tail (f s) else f j
spec_step f (clean s) = λ j. if s == j then [] else f j
spec_step f clean_all = λ j. []

unfoldable pub step : SendMsgBuf → Call → SendMsgBuf
step b (add s m) = add_msg b s m
step b (pop s) = pop_msg b s
step b (clean s) = clean_msg b s
step b clean_all = clean_all_msg b

pub get_msg_queue-add_msg :
    (b : SendMsgBuf) (s : ℕ) (m : MsgPtr) (j : ℕ)
    → get_msg_queue (add_msg b s m) j
      ≡ (if s == j then get_msg_queue b s ++ (m ∷ []) else get_msg_queue b j)
unfolding get_msg_queue add_msg
get_msg_queue-add_msg b s m j =
    ground
      (arith, lookup-insert j s (m ∷ []) b, lookup-insert j s (get_msg_queue b s ++ (m ∷ [])) b)

pub get_msg_queue-pop_msg :
    (b : SendMsgBuf) (s j : ℕ)
    → get_msg_queue (pop_msg b s) j
      ≡ (if s == j then tail (get_msg_queue b s) else get_msg_queue b j)
unfolding get_msg_queue pop_msg
get_msg_queue-pop_msg b s j =
    ground (arith, lookup-erase j s b, lookup-insert j s (tail (get_msg_queue b s)) b)

pub get_msg_queue-clean_msg :
    (b : SendMsgBuf) (s j : ℕ)
    → get_msg_queue (clean_msg b s) j ≡ (if s == j then [] else get_msg_queue b j)
unfolding get_msg_queue clean_msg
get_msg_queue-clean_msg b s j = ground (arith, lookup-erase j s b)

-- One call of the class does to every queue what the view says.
step_refines :
    (b : SendMsgBuf) (c : Call) (j : ℕ)
    → get_msg_queue (step b c) j ≡ spec_step (get_msg_queue b) c j
unfolding step spec_step
step_refines b (add s m) j = get_msg_queue-add_msg b s m j
step_refines b (pop s) j = get_msg_queue-pop_msg b s j
step_refines b (clean s) j = get_msg_queue-clean_msg b s j
step_refines b clean_all j = unfold get_msg_queue clean_all_msg lookup in refl

unfoldable pub run : SendMsgBuf → List Call → SendMsgBuf
run b [] = b
run b (c ∷ cs) = run (step b c) cs

unfoldable pub spec_run : Fifos → List Call → Fifos
spec_run f [] = f
spec_run f (c ∷ cs) = spec_run (spec_step f c) cs

-- After any sequence of calls each socket's queue holds what the sequence leaves in a FIFO of that
-- socket's own: no call reorders, loses or moves a message between sockets.
pub run_refines :
    (b : SendMsgBuf) (cs : List Call) → get_msg_queue (run b cs) ≡ spec_run (get_msg_queue b) cs
unfolding run spec_run
run_refines b [] = refl
run_refines b (c ∷ cs) =
    run_refines (step b c) cs ∙ ap (λ f. spec_run f cs) (fun_ext (step_refines b c))

pub peek_front_msg-front : (b : SendMsgBuf) (s : ℕ) → peek_front_msg b s ≡ front (get_msg_queue b s)
unfolding peek_front_msg get_msg_queue
peek_front_msg-front b s = ground arith

pub has_msg-is_nonempty : (b : SendMsgBuf) (s : ℕ) → has_msg b s ≡ is_nonempty (get_msg_queue b s)
unfolding has_msg get_msg_queue
has_msg-is_nonempty b s = ground arith

-- The observers after any sequence of calls from the empty buffer: `HasMsg` says whether the
-- socket's FIFO has a message, and `PeekFrontMsg` gives the oldest one, or a null pointer.
pub observers_refine :
    (cs : List Call) (s : ℕ)
    → let q = spec_run (λ _. []) cs s in
      (has_msg (run empty_buf cs) s ≡ is_nonempty q)
      × (peek_front_msg (run empty_buf cs) s ≡ front q)
unfolding empty_buf get_msg_queue lookup
observers_refine cs s =
    let e = run_refines empty_buf cs in
    (
      has_msg-is_nonempty (run empty_buf cs) s ∙ ap (λ (f : Fifos). is_nonempty (f s)) e,
      peek_front_msg-front (run empty_buf cs) s ∙ ap (λ (f : Fifos). front (f s)) e,
    )
