-- ===== src/Epoll/Wait/Reports.antt =====
-- What `CEPoll::wait` puts in the sets of its caller.
use udt_patch_for_epoll.Prelude.{
  ℕ, ◌<◌, ◌≡◌, ap, ◌∙◌, sym, Bool, true, false, Option, some, List, [], ◌∷◌, arith, Bool-cases,
  Option-cases, inl, inr, ◌⊎◌, All,
}
use udt_patch_for_epoll.Std.Set.{Set, contains}
use udt_patch_for_epoll.Std.Map.{lookup}
use udt_patch_for_epoll.Epoll.{EpollDesc}
use udt_patch_for_epoll.Epoll.Watched.{IsWatched}
use udt_patch_for_epoll.Epoll.Wait.{
  Wanted, Found, Pass, Waited, returned, nothing_found, refused, collect, pass_on, wait_loop, wait,
}
use udt_patch_for_epoll.Epoll.Wait.Collect.{
  asked, collect-zero, collect-sets, wait_loop-gone, wait_loop-there,
}

-- Some pass satisfies the predicate.
abbrev pub AnyPass : (Pass → Type 0) → List Pass → Type 0
AnyPass P [] = ⊥
AnyPass P (p ∷ ps) = P p ⊎ AnyPass P ps

-- The sets found are the ready sets of `eid` in this pass, those that the caller asked for.
pub data ReadySets (eid : ℕ) (want : Wanted) (f : Found) (p : Pass) : Type 0 where
  ready_sets :
      (d : EpollDesc)
      → lookup eid p.epoll.polls ≡ some d
      → f.reads ≡ asked want.readfds d.udt_reads
      → f.writes ≡ asked want.writefds d.udt_writes
      → ReadySets eid want f p

-- What comes of a pass: an error, a report of this pass, or what the rest of the loop gives.
pass_on-cases :
    (want : Wanted) (timeout : Option ℕ) (d : EpollDesc) (p : Pass) (next : Found → Waited)
    (f : Found)
    → pass_on want timeout d p nothing_found next ≡ returned f
    → 0 < f.total
    → (f ≡ collect want d p.events nothing_found) ⊎ (next nothing_found ≡ returned f)
unfolding pass_on
pass_on-cases want timeout d p next f e h =
    let z = collect-zero want d p.events in ground (arith, z)

found_in :
    (eid : ℕ) (want : Wanted) (timeout : Option ℕ) (passes : List Pass) (f : Found)
    → wait_loop eid want timeout passes nothing_found ≡ returned f
    → 0 < f.total
    → AnyPass (ReadySets eid want f) passes
found_in eid want timeout [] f e h = absurd (waiting-ne-returned f e)
  where
    waiting-ne-returned : (g : Found) → wait_loop eid want timeout [] nothing_found ≡ returned g → ⊥
    waiting-ne-returned g q = unfold wait_loop in cc q
found_in eid want timeout (p ∷ ps) f e h = elim (Option-cases (lookup eid p.epoll.polls)) [
  | inl q ↦ absurd (cc (wait_loop-gone eid want timeout p ps nothing_found q))
  | inr (d, q) ↦
      elim (pass_on-cases want timeout d p (wait_loop eid want timeout ps) f
        (sym (wait_loop-there eid want timeout p ps nothing_found d q) ∙ e) h) [
          | inl c ↦ inl (
              ready_sets d q (ap (λ (g : Found). g.reads) c ∙ (collect-sets want d p.events).0)
                (ap (λ (g : Found). g.writes) c ∙ (collect-sets want d p.events).1))
          | inr c ↦ inr (found_in eid want timeout ps f c h)
        ]
]

-- When `wait` returns a positive count, the two sets of UDT sockets are, where the caller asked for
-- them, exactly the ready sets that the epoll had in one of the passes.
pub wait_reports :
    (eid : ℕ) (want : Wanted) (timeout : Option ℕ) (passes : List Pass) (f : Found)
    → wait eid want timeout passes ≡ returned f
    → 0 < f.total
    → AnyPass (ReadySets eid want f) passes
unfolding wait
wait_reports eid want timeout passes f e h = elim (Bool-cases (refused want timeout)) [
  | inl t ↦ absurd (ground arith)
  | inr t ↦ found_in eid want timeout passes f (ground arith) h
]

-- The epoll of this pass watches the socket for reading.
pub data WatchesRead (eid u : ℕ) (p : Pass) : Type 0 where
  watches_read :
      (d : EpollDesc)
      → lookup eid p.epoll.polls ≡ some d
      → contains u d.udt_socks_in ≡ true
      → WatchesRead eid u p

asked-contains :
    (b : Bool) (u : ℕ) (s t : Set) → t ≡ asked b s → contains u t ≡ true → contains u s ≡ true
unfolding contains
asked-contains true u s t e h = rw (← e) h
asked-contains false u s t e h = ground arith

watched_in :
    (eid u : ℕ) (want : Wanted) (f : Found) (passes : List Pass)
    → All (λ p. IsWatched p.epoll) passes
    → contains u f.reads ≡ true
    → AnyPass (ReadySets eid want f) passes
    → AnyPass (WatchesRead eid u) passes
watched_in eid u want f [] w h a = a
watched_in eid u want f (p ∷ ps) w h (inl (ready_sets d q r x)) =
    inl (watches_read d q ((w.0 eid d q).reads u (asked-contains want.readfds u _ _ r h)))
watched_in eid u want f (p ∷ ps) w h (inr a) = inr (watched_in eid u want f ps w.1 h a)

-- A socket that `wait` reports as readable was watched for reading in one of the passes, if every
-- state that it met came from calls of the class, which keep `IsWatched`.
pub wait_reports_watched :
    (eid u : ℕ) (want : Wanted) (timeout : Option ℕ) (passes : List Pass) (f : Found)
    → wait eid want timeout passes ≡ returned f
    → 0 < f.total
    → All (λ p. IsWatched p.epoll) passes
    → contains u f.reads ≡ true
    → AnyPass (WatchesRead eid u) passes
wait_reports_watched eid u want timeout passes f e h w k =
    watched_in eid u want f passes w k (wait_reports eid want timeout passes f e h)
