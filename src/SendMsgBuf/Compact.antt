-- ===== src/SendMsgBuf/Compact.antt =====
-- server_udt/send_msg_buf.cpp: for which sockets the map of `SendMsgBuf` has entries.
use udt_patch_for_epoll.Prelude.{
  ℕ, ◌≡◌, ◌≢◌, ◌↔◌, true, none, some, List, [], ◌∷◌, ◌++◌, arith, Option-cases, inl, inr,
}
use udt_patch_for_epoll.Std.Map.{lookup, insert, erase, lookup-insert, lookup-erase}
use udt_patch_for_epoll.SendMsgBuf.{
  SendMsgBuf, MsgPtr, MsgQueue, empty_buf, has_msg, pop_msg, pop_found, add_msg, clean_msg,
  clean_all_msg,
}
use udt_patch_for_epoll.SendMsgBuf.Fifo.{Call, add, pop, clean, clean_all, step, run}

-- No socket has an entry with an empty queue.
abbrev pub IsCompact : SendMsgBuf → Type 0
IsCompact b = (s : ℕ) → lookup s b ≢ some []

insert-IsCompact :
    (b : SendMsgBuf) (k : ℕ) (q : MsgQueue) → q ≢ [] → IsCompact b → IsCompact (insert k q b)
insert-IsCompact b k q h v s = ground (arith, lookup-insert s k q b, v s)

erase-IsCompact : (b : SendMsgBuf) (k : ℕ) → IsCompact b → IsCompact (erase k b)
erase-IsCompact b k v s = ground (arith, lookup-erase s k b, v s)

snoc-ne-nil : (q : MsgQueue) (m : MsgPtr) → q ++ (m ∷ []) ≢ []
snoc-ne-nil [] m e = cc
snoc-ne-nil (x ∷ q) m e = cc

add_msg-IsCompact : (b : SendMsgBuf) (s : ℕ) (m : MsgPtr) → IsCompact b → IsCompact (add_msg b s m)
unfolding add_msg
add_msg-IsCompact b s m v = elim (Option-cases (lookup s b)) [
  | inl e ↦ rw (e, add_msg) (insert-IsCompact b s (m ∷ []) (λ p. cc) v)
  | inr (q, e) ↦ rw (e, add_msg) (insert-IsCompact b s (q ++ (m ∷ [])) (snoc-ne-nil q m) v)
]

pop_found-IsCompact :
    (b : SendMsgBuf) (s : ℕ) (q : MsgQueue) → IsCompact b → IsCompact (pop_found b s q)
unfolding pop_found
pop_found-IsCompact b s [] v = erase-IsCompact b s v
pop_found-IsCompact b s (m ∷ []) v = erase-IsCompact b s v
pop_found-IsCompact b s (m ∷ n ∷ q) v = insert-IsCompact b s (n ∷ q) (λ p. cc) v

pop_msg-IsCompact : (b : SendMsgBuf) (s : ℕ) → IsCompact b → IsCompact (pop_msg b s)
unfolding pop_msg
pop_msg-IsCompact b s v = elim (Option-cases (lookup s b)) [
  | inl e ↦ rw (e, pop_msg) v
  | inr (q, e) ↦ rw (e, pop_msg) (pop_found-IsCompact b s q v)
]

clean_msg-IsCompact : (b : SendMsgBuf) (s : ℕ) → IsCompact b → IsCompact (clean_msg b s)
unfolding clean_msg
clean_msg-IsCompact b s v = elim (Option-cases (lookup s b)) [
  | inl e ↦ rw (e, clean_msg) v
  | inr (q, e) ↦ rw (e, clean_msg) (erase-IsCompact b s v)
]

step-IsCompact : (b : SendMsgBuf) (c : Call) → IsCompact b → IsCompact (step b c)
unfolding step
step-IsCompact b (add s m) v = add_msg-IsCompact b s m v
step-IsCompact b (pop s) v = pop_msg-IsCompact b s v
step-IsCompact b (clean s) v = clean_msg-IsCompact b s v
step-IsCompact b clean_all v = λ s. unfold clean_all_msg lookup in λ e. cc

run-IsCompact : (b : SendMsgBuf) (cs : List Call) → IsCompact b → IsCompact (run b cs)
unfolding run
run-IsCompact b [] v = v
run-IsCompact b (c ∷ cs) v = run-IsCompact (step b c) cs (step-IsCompact b c v)

empty-IsCompact : IsCompact empty_buf
unfolding empty_buf lookup
empty-IsCompact s e = cc

has_msg-lookup : (b : SendMsgBuf) (s : ℕ) → IsCompact b → (has_msg b s ≡ true) ↔ (lookup s b ≢ none)
unfolding has_msg
has_msg-lookup b s v = elim (Option-cases (lookup s b)) [
  | inl e ↦ (λ h. ground arith, λ h. absurd (h e))
  | inr (q, e) ↦ (λ h. ground arith, λ h. ground (arith, v s))
]

-- After any sequence of calls from the empty buffer the map has an entry for a socket exactly when
-- `HasMsg` says that it has a message: a drained or cleaned socket leaves nothing behind.
pub has_entry_iff_has_msg :
    (cs : List Call) (s : ℕ)
    → (has_msg (run empty_buf cs) s ≡ true) ↔ (lookup s (run empty_buf cs) ≢ none)
has_entry_iff_has_msg cs s =
    has_msg-lookup (run empty_buf cs) s (run-IsCompact empty_buf cs empty-IsCompact)
