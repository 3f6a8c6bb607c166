-- ===== src/SendMsgBuf/Tests.antt =====
-- Runs of `SendMsgBuf`, as in utest_server/SendMsgBufTest.cpp, and its theorems at such runs.
use udt_patch_for_epoll.Prelude.{◌≡◌, refl, ◌++◌, some, none, List, [], ◌∷◌}
use udt_patch_for_epoll.Std.Map.{lookup, insert, erase}
use udt_patch_for_epoll.SendMsgBuf.{
  MsgPtr, empty_buf, get_msg_queue, has_msg, peek_front_msg, pop_msg, add_msg, front, is_nonempty,
}
use udt_patch_for_epoll.SendMsgBuf.Fifo.{
  Call, add, pop, step, run, spec_run, run_refines, observers_refine,
}

abbrev hello : MsgPtr
hello = some (104 ∷ 105 ∷ [])

abbrev bye : MsgPtr
bye = some (98 ∷ [])

-- Two messages for socket 1, one for socket 2, then one sent from socket 1.
abbrev history : List Call
history = add 1 hello ∷ add 2 bye ∷ add 1 bye ∷ pop 1 ∷ []

queue_one : get_msg_queue (run empty_buf history) 1 ≡ bye ∷ []
unfolding run step get_msg_queue add_msg pop_msg empty_buf lookup insert erase
queue_one = refl

popped_out : lookup 1 (run empty_buf (history ++ (pop 1 ∷ []))) ≡ none
unfolding run step get_msg_queue add_msg pop_msg empty_buf lookup insert erase
popped_out = refl

run_refines_example :
    get_msg_queue (run empty_buf history) ≡ spec_run (get_msg_queue empty_buf) history
run_refines_example = run_refines empty_buf history

observers_refine_example :
    let q = spec_run (λ _. []) history 1 in
    (has_msg (run empty_buf history) 1 ≡ is_nonempty q)
    × (peek_front_msg (run empty_buf history) 1 ≡ front q)
observers_refine_example = observers_refine history 1
