-- ===== src/Epoll/Wait/Collect.antt =====
-- What one pass of `CEPoll::wait` collects.
use udt_patch_for_epoll.Prelude.{
  ℕ, ◌≤◌, ◌<◌, ◌≡◌, refl, ◌∙◌, Bool, true, false, Option, none, some, List, [], ◌∷◌, arith, ◌&&◌,
  ◌||◌, if◌then◌else◌, length, Bool-cases, inl, inr,
}
use udt_patch_for_epoll.Std.Set.{Set}
use udt_patch_for_epoll.Std.Map.{lookup}
use udt_patch_for_epoll.Epoll.{EpollDesc, einvpollid}
use udt_patch_for_epoll.Epoll.Wait.{
  Wanted, Found, SystemEvent, Pass, throws, nothing_found, is_empty, add_in, add_out, add_events,
  add_reads, add_writes, collect, pass_on, wait_loop,
}

-- Events leave the sets of UDT sockets alone, and are counted if they are recorded.
pub record Extends (r r' : Found) : Type 0 where
  pub same_reads : r'.reads ≡ r.reads
  pub same_writes : r'.writes ≡ r.writes
  pub grows : r.total ≤ r'.total
  pub unchanged : r'.total ≡ r.total → r' ≡ r

Extends-trans : (a b c : Found) → Extends a b → Extends b c → Extends a c
Extends-trans a b c h k = record {
  same_reads = k.same_reads ∙ h.same_reads;
  same_writes = k.same_writes ∙ h.same_writes;
  grows = omega arith;
  unchanged = λ e. k.unchanged (omega arith) ∙ h.unchanged (omega arith);
}

add_in-Extends : (want : Wanted) (ev : SystemEvent) (r : Found) → Extends r (add_in want ev r)
add_in-Extends want ev r = elim (Bool-cases (want.lrfds && ev.is_in)) [
  | inl t ↦ rw t (record {
    same_reads = refl;
    same_writes = refl;
    grows = omega arith;
    unchanged = λ e. absurd (omega arith);
  })
  | inr t ↦
      rw t (record {
        same_reads = refl;
        same_writes = refl;
        grows = omega arith;
        unchanged = λ e. refl;
      })
]

add_out-Extends : (want : Wanted) (ev : SystemEvent) (r : Found) → Extends r (add_out want ev r)
add_out-Extends want ev r = elim (Bool-cases (want.lwfds && ev.is_out)) [
  | inl t ↦ rw t (record {
    same_reads = refl;
    same_writes = refl;
    grows = omega arith;
    unchanged = λ e. absurd (omega arith);
  })
  | inr t ↦
      rw t (record {
        same_reads = refl;
        same_writes = refl;
        grows = omega arith;
        unchanged = λ e. refl;
      })
]

add_events-Extends :
    (want : Wanted) (evs : List SystemEvent) (r : Found) → Extends r (add_events want evs r)
unfolding add_events
add_events-Extends want [] r = record {
  same_reads = refl;
  same_writes = refl;
  grows = omega arith;
  unchanged = λ e. refl;
}
add_events-Extends want (ev ∷ evs) r = Extends-trans _ _ _ (add_in-Extends want ev r) (
    Extends-trans _ _ _ (add_out-Extends want ev (add_in want ev r))
      (add_events-Extends want evs _))

abbrev udt_part : Wanted → EpollDesc → Found
udt_part want d = add_writes want d (add_reads want d nothing_found)

collect-Extends :
    (want : Wanted) (d : EpollDesc) (evs : List SystemEvent)
    → Extends (udt_part want d) (collect want d evs nothing_found)
unfolding collect
collect-Extends want d evs = elim (Bool-cases (want.lrfds || want.lwfds)) [
  | inl t ↦ rw t (add_events-Extends want evs (udt_part want d))
  | inr t ↦ rw t (add_events-Extends want [] (udt_part want d))
]

abbrev pub asked : Bool → Set → Set
asked b s = if b then s else []

is_empty-nil : (s : Set) → is_empty s ≡ true → s ≡ []
is_empty-nil [] e = refl
is_empty-nil (x ∷ s) e = cc

-- The UDT sets of a pass.
udt_part-sets :
    (want : Wanted) (d : EpollDesc)
    → ((udt_part want d).reads ≡ asked want.readfds d.udt_reads)
      × ((udt_part want d).writes ≡ asked want.writefds d.udt_writes)
udt_part-sets want d = ground (arith, is_empty-nil d.udt_reads, is_empty-nil d.udt_writes)

nonempty_length : (s : Set) → is_empty s ≡ false → 0 < length s
nonempty_length [] e = cc
nonempty_length (x ∷ s) e = omega arith

udt_part-zero :
    (want : Wanted) (d : EpollDesc) → (udt_part want d).total ≡ 0 → udt_part want d ≡ nothing_found
udt_part-zero want d e = ground (arith, nonempty_length d.udt_reads, nonempty_length d.udt_writes)

-- A pass that counts nothing leaves the sets as they were.
pub collect-zero :
    (want : Wanted) (d : EpollDesc) (evs : List SystemEvent)
    → (collect want d evs nothing_found).total ≡ 0
    → collect want d evs nothing_found ≡ nothing_found
collect-zero want d evs e =
    let x = collect-Extends want d evs in
    let z : (udt_part want d).total ≡ 0 = omega arith in
    x.unchanged (omega arith) ∙ udt_part-zero want d z

pub collect-sets :
    (want : Wanted) (d : EpollDesc) (evs : List SystemEvent)
    → ((collect want d evs nothing_found).reads ≡ asked want.readfds d.udt_reads)
      × ((collect want d evs nothing_found).writes ≡ asked want.writefds d.udt_writes)
collect-sets want d evs =
    let x = collect-Extends want d evs in
    (x.same_reads ∙ (udt_part-sets want d).0, x.same_writes ∙ (udt_part-sets want d).1)

-- The loop meets an epoll that is gone, or goes on with its descriptor.
pub wait_loop-gone :
    (eid : ℕ) (want : Wanted) (timeout : Option ℕ) (p : Pass) (ps : List Pass) (r : Found)
    → lookup eid p.epoll.polls ≡ none
    → wait_loop eid want timeout (p ∷ ps) r ≡ throws einvpollid
unfolding wait_loop
wait_loop-gone eid want timeout p ps r e = rw (e, wait_loop)

pub wait_loop-there :
    (eid : ℕ) (want : Wanted) (timeout : Option ℕ) (p : Pass) (ps : List Pass) (r : Found)
    (d : EpollDesc)
    → lookup eid p.epoll.polls ≡ some d
    → wait_loop eid want timeout (p ∷ ps) r
      ≡ pass_on want timeout d p r (wait_loop eid want timeout ps)
unfolding wait_loop
wait_loop-there eid want timeout p ps r d e = rw (e, wait_loop)
