-- ===== src/SndUList/Room.antt =====
-- udt4/src/queue.cpp: the heap's array, and when a node is written behind its end.
use udt_patch_for_epoll.Prelude.{
  ℕ, suc, ◌+◌, ◌-◌, ◌<◌, ◌≤◌, ◌≡◌, refl, Bool, true, false, ◌||◌, ◌⊎◌, Option, none, some, arith,
  ◌==◌, leb, Option-cases, inl, inr,
}
use udt_patch_for_epoll.SndUList.{
  SndUList, insert_node, insert, appended, settle, replaced, detached, remove,
}
use udt_patch_for_epoll.SndUList.Order.{IsPlaced}
use udt_patch_for_epoll.SndUList.Up.{Sifted}
use udt_patch_for_epoll.SndUList.Down.{sift_down-Sunk}
use udt_patch_for_epoll.SndUList.Inserting.{
  appended-Sifted, insert_node-new, insert_node-on, enlarged, enlarged-IsPlaced,
}
use udt_patch_for_epoll.SndUList.Removing.{woken, replaced-DownPlaces, remove-IsPlaced}

-- After at most `n` calls, `m` of them of `update`: as long as no node was written behind the end of
-- the array, the nodes fit in it; and when one was, there were more than 4096 calls and `update` was
-- among them.
pub record HasRoom (n m : ℕ) (l : SndUList) : Type 0 where
  pub long : 4096 ≤ l.array_length
  pub few : l.count ≤ n
  pub fits : l.overrun ≡ false → l.count ≤ l.array_length
  pub late : l.overrun ≡ true → (4096 < n) × (0 < m)

pub more_calls : (n m n' m' : ℕ) (l : SndUList) → n ≤ n' → m ≤ m' → HasRoom n m l → HasRoom n' m' l
more_calls n m n' m' l h k r = record {
  long = r.long;
  few = omega (arith, r.few, h);
  fits = r.fits;
  late = λ e. (omega (arith, (r.late e).0, h), omega (arith, (r.late e).1, k));
}

-- One node more, behind the last one.
record Appended (l l1 : SndUList) : Type 0 where
  room : l1.array_length ≡ l.array_length
  count : l1.count ≡ l.count + 1
  overrun : l1.overrun ≡ (l.overrun || leb l.array_length l.count)

settle-Appended :
    (l : SndUList) (ts u : ℕ) (end : SndUList × ℕ)
    → Sifted (appended l ts u) u end
    → Appended l (settle end u)
settle-Appended l ts u (r, q) s = record { room = s.room; count = s.counted; overrun = s.overrun }

insert_node-Appended :
    (l : SndUList) (ts u : ℕ)
    → IsPlaced l
    → (insert_node l ts u ≡ l) ⊎ Appended l (insert_node l ts u)
insert_node-Appended l ts u v = elim (Option-cases (l.locs u)) [
  | inl e ↦
      inr (rw (insert_node-new l ts u e) (settle-Appended l ts u _ (appended-Sifted l ts u v e)))
  | inr (i, e) ↦ inl (insert_node-on l ts u i e)
]

Appended-HasRoom :
    (n m m' : ℕ) (l l1 : SndUList)
    → m ≤ m'
    → (l.overrun ≡ false → l.array_length ≤ l.count → 0 < m')
    → HasRoom n m l
    → Appended l l1
    → HasRoom (suc n) m' l1
Appended-HasRoom n m m' l l1 h k r a = record {
  long = omega (arith, a.room, r.long);
  few = omega (arith, a.count, r.few);
  fits = λ e. ground (arith, a.room, a.count, a.overrun, r.fits, e);
  late = λ e. ground (arith, a.overrun, r.late, r.long, r.few, h, k, e);
}

-- `insert_`, where an `update` is counted if the array may be full.
pub insert_node-HasRoom :
    (n m m' : ℕ) (l : SndUList) (ts u : ℕ)
    → IsPlaced l
    → m ≤ m'
    → (l.overrun ≡ false → l.array_length ≤ l.count → 0 < m')
    → HasRoom n m l
    → HasRoom (suc n) m' (insert_node l ts u)
insert_node-HasRoom n m m' l ts u v h k r = elim (insert_node-Appended l ts u v) [
  | inl e ↦ rw e (more_calls n m (suc n) m' l (omega arith) h r)
  | inr a ↦ Appended-HasRoom n m m' l (insert_node l ts u) h k r a
]

enlarged-HasRoom :
    (n m : ℕ) (b : Bool) (l : SndUList)
    → b ≡ (l.count == l.array_length)
    → HasRoom n m l
    → HasRoom n m (enlarged b l)
      × ((enlarged b l).overrun ≡ false → (enlarged b l).count < (enlarged b l).array_length)
enlarged-HasRoom n m true l e r = (
  record {
    long = omega (arith, r.long);
    few = r.few;
    fits = λ h. omega (arith, r.fits h);
    late = r.late;
  },
  λ h. omega (arith, r.fits h, r.long),
)
enlarged-HasRoom n m false l e r = (r, λ h. ground (arith, r.fits h, e))

-- `insert` never writes behind the end of the array.
pub insert-HasRoom :
    (n m : ℕ) (l : SndUList) (ts u : ℕ)
    → IsPlaced l
    → HasRoom n m l
    → HasRoom (suc n) m (insert l ts u)
unfolding insert
insert-HasRoom n m l ts u v r =
    let b = l.count == l.array_length in
    let (r', inside) = enlarged-HasRoom n m b l refl r in
    insert_node-HasRoom n m m (enlarged b l) ts u (enlarged-IsPlaced b l v) (omega arith)
      (λ h k. absurd (omega (arith, inside h, k))) r'

-- What is left of the array's use when the node of a socket is taken out.
record Shrunk (l l1 : SndUList) (o : Option ℕ) : Type 0 where
  room : l1.array_length ≡ l.array_length
  overrun : l1.overrun ≡ l.overrun
  at_most : l1.count ≤ l.count
  fewer : (i : ℕ) → o ≡ some i → l1.count ≡ l.count - 1

detached-Shrunk :
    (l : SndUList) (u : ℕ) (o : Option ℕ) → IsPlaced l → l.locs u ≡ o → Shrunk l (detached l u o) o
detached-Shrunk l u none v e = record {
  room = refl;
  overrun = refl;
  at_most = omega arith;
  fewer = λ i h. absurd (ground (arith, h));
}
detached-Shrunk l u (some i) v e =
    let s = sift_down-Sunk l.count (replaced l i) u i (replaced-DownPlaces l u i v e) in
    record {
      room = s.room;
      overrun = s.overrun;
      at_most = omega (arith, s.counted);
      fewer = λ j h. s.counted;
    }

woken-Shrunk : (b : Bool) (l l1 : SndUList) (o : Option ℕ) → Shrunk l l1 o → Shrunk l (woken b l1) o
woken-Shrunk true l l1 o s = record {
  room = s.room;
  overrun = s.overrun;
  at_most = s.at_most;
  fewer = s.fewer;
}
woken-Shrunk false l l1 o s = s

remove-Shrunk : (l : SndUList) (u : ℕ) → IsPlaced l → Shrunk l (remove l u) (l.locs u)
unfolding remove
remove-Shrunk l u v =
    let end = detached l u (l.locs u) in
    woken-Shrunk (end.count == 1) l end (l.locs u) (detached-Shrunk l u (l.locs u) v refl)

pub remove-HasRoom :
    (n m : ℕ) (l : SndUList) (u : ℕ) → IsPlaced l → HasRoom n m l → HasRoom n m (remove l u)
remove-HasRoom n m l u v r =
    let s = remove-Shrunk l u v in
    record {
      long = omega (arith, s.room, r.long);
      few = omega (arith, s.at_most, r.few);
      fits = λ e. ground (arith, s.room, s.at_most, s.overrun, r.fits, e);
      late = λ e. ground (arith, s.overrun, r.late, e);
    }

-- A socket whose node was taken out finds room again.
pub reinserted-HasRoom :
    (n m : ℕ) (l : SndUList) (ts u i : ℕ)
    → IsPlaced l
    → l.locs u ≡ some i
    → HasRoom n m l
    → HasRoom (suc n) m (insert_node (remove l u) ts u)
reinserted-HasRoom n m l ts u i v e r =
    let s = remove-Shrunk l u v in
    let inside = (v.on_heap u i e).0 in
    insert_node-HasRoom n m m (remove l u) ts u (remove-IsPlaced l u v) (omega arith)
      (λ h k. absurd (ground (arith, s.room, s.overrun, s.fewer i e, r.fits, r.long, inside, h, k)))
      (remove-HasRoom n m l u v r)
