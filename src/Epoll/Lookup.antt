-- ===== src/Epoll/Lookup.antt =====
-- What the methods of `CEPoll` that take a socket's set of epoll ids do to each descriptor, and
-- which ids they keep.
use udt_patch_for_epoll.Prelude.{
  ℕ, ◌≡◌, refl, Bool, true, false, Option, none, some, List, [], ◌∷◌, arith, if◌then◌else◌,
  Option-cases, inl, inr,
}
use udt_patch_for_epoll.Std.Set
use udt_patch_for_epoll.Std.Set.{Set, contains, contains-erase}
use udt_patch_for_epoll.Std.Map.{lookup, lookup-insert}
use udt_patch_for_epoll.Epoll.{EpollDesc, Epoll, store, for_eids, erase_lost, update}

abbrev pub map_desc : (EpollDesc → EpollDesc) → Option EpollDesc → Option EpollDesc
map_desc f none = none
map_desc f (some d) = some (f d)

abbrev pub is_there : Option EpollDesc → Bool
is_there none = false
is_there (some d) = true

module _ (f : EpollDesc → EpollDesc) (twice : (d : EpollDesc) → f (f d) ≡ f d) where
  -- Each descriptor among the ids is changed, and no other.
  pub lookup-for_eids :
      (eids : Set) (e : Epoll) (j : ℕ)
      → lookup j (for_eids f eids e).0.polls
        ≡ (if contains j eids then map_desc f (lookup j e.polls) else lookup j e.polls)
  unfolding for_eids contains
  lookup-for_eids [] e j = refl
  lookup-for_eids (i ∷ eids) e j = elim (Option-cases (lookup i e.polls)) [
    | inl p ↦ ground (arith, lookup-for_eids eids e j)
    | inr (d, p) ↦
        ground (
          arith,
          lookup-for_eids eids (store e i (f d)) j,
          lookup-insert j i (f d) e.polls,
          twice d,
        )
  ]

-- The ids that are lost are those without a descriptor.
lost_ids :
    (f : EpollDesc → EpollDesc) (eids : Set) (e : Epoll) (j : ℕ)
    → contains j (for_eids f eids e).1
      ≡ (if contains j eids then (if is_there (lookup j e.polls) then false else true) else false)
unfolding for_eids contains
lost_ids f [] e j = refl
lost_ids f (i ∷ eids) e j = elim (Option-cases (lookup i e.polls)) [
  | inl p ↦ ground (arith, lost_ids f eids e j)
  | inr (d, p) ↦
      ground (arith, lost_ids f eids (store e i (f d)) j, lookup-insert j i (f d) e.polls)
]

contains-erase_lost :
    (lost : List ℕ) (eids : Set) (j : ℕ)
    → contains j (erase_lost lost eids) ≡ (if contains j lost then false else contains j eids)
unfolding erase_lost contains
contains-erase_lost [] eids j = refl
contains-erase_lost (i ∷ lost) eids j =
    ground (arith, contains-erase_lost lost (Set.erase i eids) j, contains-erase j i eids)

-- The ids kept are those with a descriptor.
pub contains-update :
    (f : EpollDesc → EpollDesc) (e : Epoll) (eids : Set) (j : ℕ)
    → contains j (update f e eids).1
      ≡ (if contains j eids then is_there (lookup j e.polls) else false)
contains-update f e eids j =
    ground (arith, contains-erase_lost (for_eids f eids e).1 eids j, lost_ids f eids e j)
