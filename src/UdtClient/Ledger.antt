-- ===== src/UdtClient/Ledger.antt =====
-- Where the client's messages are: sent, in its buffer, or in the shared queue.
use udt_patch_for_epoll.Prelude.{
  ℕ, ◌≡◌, ◌≢◌, refl, ap, ◌∙◌, none, some, List, [], ◌∷◌, ◌++◌, map, ◌==◌, if◌then◌else◌, length,
  map_append_some, append_assoc, All,
}
use udt_patch_for_epoll.SendMsgBuf.{Bytes, MsgPtr}
use udt_patch_for_epoll.Udt.{Udt, Reply, ret, error}
use udt_patch_for_epoll.UdtClient.{UdtClient, Outcome, returned}

-- What the library took after a call of `sendmsg`: the message, if it reported the message's size.
abbrev pub sent_after : List Bytes → Bytes → Reply → List Bytes
sent_after sent msg (error code) = sent
sent_after sent msg (ret n) = if n == length msg then sent ++ (msg ∷ []) else sent

-- A record of the messages that the library took, kept beside its state: `sendmsg` writes to it, and
-- no other call of the client's thread does.
pub record Ledger (u : Udt) : Type 0 where
  pub sent : u.World → List Bytes
  pub sendmsg_writes :
      (w : u.World) (sock : ℕ) (msg : Bytes)
      → sent (u.sendmsg w sock msg).1 ≡ sent_after (sent w) msg (u.sendmsg w sock msg).0
  pub recvmsg_keeps : (w : u.World) (sock len : ℕ) → sent (u.recvmsg w sock len).1 ≡ sent w
  pub epoll_create_keeps : (w : u.World) → sent (u.epoll_create w).1 ≡ sent w
  pub epoll_wait_keeps : (w : u.World) (eid ms : ℕ) → sent (u.epoll_wait w eid ms).1 ≡ sent w
  pub epoll_add_keeps :
      (w : u.World) (eid sock events : ℕ) → sent (u.epoll_add_usock w eid sock events).1 ≡ sent w
  pub epoll_remove_keeps :
      (w : u.World) (eid sock : ℕ) → sent (u.epoll_remove_usock w eid sock).1 ≡ sent w

abbrev pub NotNull : List MsgPtr → Type 0
NotNull ms = All (λ (m : MsgPtr). m ≢ none) ms

pub NotNull-append : (xs ys : List MsgPtr) → NotNull xs → NotNull ys → NotNull (xs ++ ys)
NotNull-append [] ys v h = h
NotNull-append (x ∷ xs) ys (v, vs) h = (v, NotNull-append xs ys vs h)

-- No message of the client is a null pointer.
abbrev pub Sendable : UdtClient → Type 0
Sendable c = NotNull c.send_msg_buff × NotNull c.send_msg_queue.data_queue

-- A message more at the end of those sent is one less at the front of those that wait.
pub handed_over :
    (sent : List Bytes) (m : Bytes) (rest : List MsgPtr)
    → map some (sent ++ (m ∷ [])) ++ rest ≡ map some sent ++ (some m ∷ rest)
handed_over sent m rest =
    ap (λ (xs : List MsgPtr). xs ++ rest) (map_append_some sent (m ∷ []))
    ∙ append_assoc (map some sent) (some m ∷ []) rest

module _ (u : Udt) (l : Ledger u) where
  -- The messages sent, then those in the buffer, then those in the shared queue.
  abbrev pub trail : UdtClient → u.World → List MsgPtr
  trail c w = map some (l.sent w) ++ (c.send_msg_buff ++ c.send_msg_queue.data_queue)

  -- A method came back. It left the trail as it was and no null pointer in it; it put nothing into
  -- an empty buffer.
  pub record Kept (c : UdtClient) (w : u.World) (o : Outcome u) : Type 0 where
    pub client : UdtClient
    pub world : u.World
    pub returns : o ≡ returned client world
    pub same_trail : trail client world ≡ trail c w
    pub sendable : Sendable client
    pub stays_empty : c.send_msg_buff ≡ [] → client.send_msg_buff ≡ []

  -- What a step keeps that moves no message.
  pub unmoved :
      (c c' : UdtClient) (w w' : u.World)
      → l.sent w' ≡ l.sent w
      → c'.send_msg_buff ≡ c.send_msg_buff
      → c'.send_msg_queue.data_queue ≡ c.send_msg_queue.data_queue
      → Sendable c
      → (trail c' w' ≡ trail c w) × Sendable c'
  unmoved c c' w w' e b q (vb, vq) = (rw (e, b, q) refl, (rw b vb, rw q vq))

  pub returned-Kept :
      (c c' : UdtClient) (w w' : u.World)
      → l.sent w' ≡ l.sent w
      → c'.send_msg_buff ≡ c.send_msg_buff
      → c'.send_msg_queue.data_queue ≡ c.send_msg_queue.data_queue
      → Sendable c
      → Kept c w (returned c' w')
  returned-Kept c c' w w' e b q v =
      let (t, v') = unmoved c c' w w' e b q v in
      record {
        client = c';
        world = w';
        returns = refl;
        same_trail = t;
        sendable = v';
        stays_empty = λ h. b ∙ h;
      }

  -- What follows steps that keep the trail.
  pub after-Kept :
      (c c1 : UdtClient) (w w1 : u.World) (o : Outcome u)
      → trail c1 w1 ≡ trail c w
      → (c.send_msg_buff ≡ [] → c1.send_msg_buff ≡ [])
      → Kept c1 w1 o
      → Kept c w o
  after-Kept c c1 w w1 o e h k = record {
    client = k.client;
    world = k.world;
    returns = k.returns;
    same_trail = k.same_trail ∙ e;
    sendable = k.sendable;
    stays_empty = λ b. k.stays_empty (h b);
  }
