-- ===== src/SockEpoll/Rearm.antt =====
-- udt4/src/api.cpp and core.cpp: removing a socket from an epoll and adding it again, which is how the
-- senders stop watching for writing.
use udt_patch_for_epoll.Prelude.{
  ℕ, ◌≡◌, refl, ap, ◌∙◌, Bool, true, false, ◌&&◌, ◌||◌, Option, some, arith, ltb, if◌then◌else◌,
  Bool-cases, inl, inr,
}
use udt_patch_for_epoll.Std.Set
use udt_patch_for_epoll.Std.Set.{Set, contains, contains-insert}
use udt_patch_for_epoll.Std.Map.{lookup-insert}
use udt_patch_for_epoll.Udt.{epoll_in, epoll_out}
use udt_patch_for_epoll.Epoll.{Epoll, ok, asks, add_usock, remove_usock, disable_read}
use udt_patch_for_epoll.SockEpoll.{
  MsgBuffer, Socket, Lib, locate, put_socket, signal_read, signal_write, add_epoll, remove_epoll,
  epoll_add_usock, epoll_remove_usock, detach,
}
use udt_patch_for_epoll.SockEpoll.Views.{
  View, view, view-enable_read, view-enable_write, view-disable_read, view-disable_write,
  contains-enable_read, view-remove_usock, view-add_usock,
}

abbrev nothing_shown : View
nothing_shown = record {
  there = true;
  in_read = false;
  in_write = false;
  for_read = false;
  for_write = false;
}

-- From nothing, through `add_usock` and then `add_epoll`.
shown :
    (m sp i o : Bool) (v2 v3 v4 : View)
    → v2 ≡ nothing_shown
    → v3 ≡ record v2 { for_read = i || v2.for_read; for_write = o || v2.for_write }
    → v4 ≡ record v3 {
      in_read = if m && v3.for_read then true else v3.in_read;
      in_write = if sp && v3.for_write then true else v3.in_write;
    }
    → v4
      ≡ record { there = true; in_read = m && i; in_write = sp && o; for_read = i; for_write = o }
shown m sp i o v2 v3 v4 p q r = ground arith

module _ (rb : MsgBuffer) where
  -- A connected datagram socket.
  pub record IsLive (s : Socket rb) : Type 0 where
    pub here : s.is_closed ≡ false
    pub dgram : s.is_stream ≡ false
    pub conn : s.connected ≡ true
    pub whole : (s.broken || s.closing) ≡ false

  -- A live socket with a message to read; with space to send.
  abbrev pub has_message : Socket rb → Bool
  has_message s = ltb 0 (rb.msg_num s.rcv_buffer).0

  abbrev pub has_space : Socket rb → Bool
  has_space s = ltb s.curr_buf_size s.snd_buf_size

  signal_read-view :
      (e : Epoll) (u eid : ℕ) (s : Socket rb)
      → s.is_stream ≡ false
      → contains eid s.poll_ids ≡ true
      → let v = view e eid u in
        view (signal_read rb e u s).0 eid u
        ≡ record v { in_read = if has_message s && v.for_read then true else v.in_read }
  unfolding signal_read
  signal_read-view e u eid s h k = elim (Bool-cases (has_message s)) [
    | inl t ↦ rw (h, t) (view-enable_read e u s.poll_ids eid ∙ rw k)
    | inr t ↦ rw (h, t)
  ]

  signal_read-ids :
      (e : Epoll) (u eid : ℕ) (s : Socket rb)
      → s.is_stream ≡ false
      → contains eid s.poll_ids ≡ true
      → (view e eid u).there ≡ true
      → contains eid (signal_read rb e u s).1 ≡ true
  unfolding signal_read
  signal_read-ids e u eid s h k t = elim (Bool-cases (has_message s)) [
    | inl m ↦ rw (h, m) (contains-enable_read e u s.poll_ids eid ∙ rw (k, t))
    | inr m ↦ rw (h, m) k
  ]

  signal_write-view :
      (e : Epoll) (u eid : ℕ) (ids : Set) (s : Socket rb)
      → contains eid ids ≡ true
      → let v = view e eid u in
        view (signal_write rb e u ids s).0 eid u
        ≡ record v { in_write = if has_space s && v.for_write then true else v.in_write }
  unfolding signal_write
  signal_write-view e u eid ids s k = elim (Bool-cases (has_space s)) [
    | inl t ↦ rw t (view-enable_write e u ids eid ∙ rw k)
    | inr t ↦ rw t
  ]

  -- Adding the epoll to a live socket signals what is there.
  add_epoll-view :
      (e : Epoll) (u eid : ℕ) (s : Socket rb)
      → IsLive s
      → (view e eid u).there ≡ true
      → let v = view e eid u in
        view (add_epoll rb e u s eid).0 eid u ≡ record v {
          in_read = if has_message s && v.for_read then true else v.in_read;
          in_write = if has_space s && v.for_write then true else v.in_write;
        }
  unfolding add_epoll
  add_epoll-view e u eid s l h = ground (arith, first, kept, second)
    where
      s1 : Socket rb
      s1 = record s { poll_ids = Set.insert eid s.poll_ids }

      registered : contains eid s1.poll_ids ≡ true
      registered = ground (arith, contains-insert eid eid s.poll_ids)

      e1 : Epoll
      e1 = (signal_read rb e u s1).0

      ids1 : Set
      ids1 = (signal_read rb e u s1).1

      first :
          let v = view e eid u in
          view e1 eid u
          ≡ record v { in_read = if has_message s && v.for_read then true else v.in_read }
      first = signal_read-view e u eid s1 l.dgram registered

      kept : contains eid ids1 ≡ true
      kept = signal_read-ids e u eid s1 l.dgram registered h

      second :
          let v = view e1 eid u in
          view (signal_write rb e1 u ids1 s1).0 eid u
          ≡ record v { in_write = if has_space s && v.for_write then true else v.in_write }
      second = signal_write-view e1 u eid ids1 s1 kept

  remove_epoll-there :
      (e : Epoll) (u eid j : ℕ) (s : Socket rb)
      → (view (remove_epoll rb e u s eid).0 j u).there ≡ (view e j u).there
  unfolding remove_epoll
  remove_epoll-there e u eid j s =
      let ids = Set.erase eid s.poll_ids in
      ap (λ (v : View). v.there)
        (view-disable_write (disable_read e u ids).0 u (disable_read e u ids).1 j)
      ∙ ap (λ (v : View). v.there) (view-disable_read e u ids j)

  remove_epoll-IsLive :
      (e : Epoll) (u eid : ℕ) (s : Socket rb) → IsLive s → IsLive (remove_epoll rb e u s eid).1
  unfolding remove_epoll
  remove_epoll-IsLive e u eid s l = record {
    here = l.here;
    dgram = l.dgram;
    conn = l.conn;
    whole = l.whole;
  }

  same_buffers :
      (e : Epoll) (u eid : ℕ) (s : Socket rb)
      → let s' = (remove_epoll rb e u s eid).1 in
        (has_message s' ≡ has_message s) × (has_space s' ≡ has_space s)
  unfolding remove_epoll
  same_buffers e u eid s = (refl, refl)

  locate-put :
      (lib : Lib rb) (u : ℕ) (e e' : Epoll) (s : Socket rb)
      → s.is_closed ≡ false
      → locate rb (record (put_socket rb lib u e s) { epoll = e' }) u ≡ some s
  unfolding locate
  locate-put lib u e e' s h = ground (arith, lookup-insert u u s lib.sockets)

  detach-live :
      (lib : Lib rb) (eid u : ℕ) (s : Socket rb)
      → locate rb lib u ≡ some s
      → let (e', s') = remove_epoll rb lib.epoll u s eid in
        detach rb lib eid u ≡ put_socket rb lib u e' s'
  unfolding detach
  detach-live lib eid u s e = rw (e, detach)

  removed_lib :
      (lib : Lib rb) (eid u : ℕ) (s : Socket rb) (e2 : Epoll)
      → locate rb lib u ≡ some s
      → remove_usock (remove_epoll rb lib.epoll u s eid).0 eid u ≡ ok e2
      → let (e', s') = remove_epoll rb lib.epoll u s eid in
        (epoll_remove_usock rb lib eid u).1 ≡ record (put_socket rb lib u e' s') { epoll = e2 }
  unfolding epoll_remove_usock
  removed_lib lib eid u s e2 e q = rw (detach-live lib eid u s e, q)

  added_lib :
      (lib : Lib rb) (eid u : ℕ) (s : Socket rb) (events : Option ℕ) (e3 : Epoll)
      → locate rb lib u ≡ some s
      → add_usock lib.epoll eid u events ≡ ok e3
      → (epoll_add_usock rb lib eid u events).1.epoll ≡ (add_epoll rb e3 u s eid).0
  unfolding epoll_add_usock
  added_lib lib eid u s events e3 e q = rw (e, q, epoll_add_usock)

  -- Take a live socket out of an epoll that is there, and add it again for some events: afterwards
  -- the epoll watches it for exactly those, shows it as readable exactly when it has a message and
  -- reading is watched, and as writable exactly when it has space and writing is watched. So when a
  -- sender stops watching for writing in this way, no message that waits to be read goes unnoticed.
  pub remove_then_add_rearms :
      (lib : Lib rb) (eid u : ℕ) (s : Socket rb) (events : Option ℕ)
      → locate rb lib u ≡ some s
      → IsLive s
      → (view lib.epoll eid u).there ≡ true
      → let lib1 = (epoll_remove_usock rb lib eid u).1 in
        let lib2 = (epoll_add_usock rb lib1 eid u events).1 in
        view lib2.epoll eid u ≡ record {
          there = true;
          in_read = has_message s && asks events epoll_in;
          in_write = has_space s && asks events epoll_out;
          for_read = asks events epoll_in;
          for_write = asks events epoll_out;
        }
  remove_then_add_rearms lib eid u s events e l h =
      let (e1, s1) = remove_epoll rb lib.epoll u s eid in
      let live = remove_epoll-IsLive lib.epoll u eid s l in
      let (e2, q2, v2) =
        view-remove_usock e1 eid u (remove_epoll-there lib.epoll u eid eid s ∙ h) in
      let (e3, q3, v3) = view-add_usock e2 eid u events (ap (λ (v : View). v.there) v2) in
      let found = locate-put lib u e1 e2 s1 live.here in
      let there : (view e3 eid u).there ≡ true =
        ap (λ (v : View). v.there) v3 ∙ ap (λ (v : View). v.there) v2 in
      let (same_m, same_s) = same_buffers lib.epoll u eid s in
      rw
        (
          removed_lib lib eid u s e2 e q2,
          added_lib _ eid u s1 events e3 found q3,
          ← same_m,
          ← same_s,
        )
        (shown (has_message s1) (has_space s1) (asks events epoll_in) (asks events epoll_out) _ _ _
          v2 v3 (add_epoll-view e3 u eid s1 live there))
