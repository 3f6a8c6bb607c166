-- ===== src/Epoll.antt =====
-- udt4/src/epoll.h and epoll.cpp: `CEPoll`, the patched event poll of the library.
-- Each operation runs under `m_EPollLock`, so it is one step on the state. The system's own epoll is
-- not part of the program: what its calls return is an argument.
pub mod Wait
pub mod Lookup
pub mod Watched
pub mod Calls
mod Tests
use Prim.Native.Nat.{bit_and}
use udt_patch_for_epoll.Prelude.{
  ℕ, ◌+◌, Bool, true, false, not, ◌&&◌, ◌||◌, Option, none, some, List, [], ◌∷◌, leb, ◌==◌,
  if◌then◌else◌,
}
use udt_patch_for_epoll.Std.Set
use udt_patch_for_epoll.Std.Set.{Set, contains}
use udt_patch_for_epoll.Std.Map
use udt_patch_for_epoll.Std.Map.{Map, lookup}
use udt_patch_for_epoll.Udt.{epoll_in, epoll_out}

-- `CEPollDesc`
pub record EpollDesc : Type 0 where
  pub id : ℕ
  pub udt_socks_out : Set
  pub udt_socks_in : Set
  pub local_id : ℕ
  pub locals : Set
  pub udt_writes : Set
  pub udt_reads : Set

-- `m_iIDSeed` and `m_mPolls`.
pub record Epoll : Type 0 where
  pub id_seed : ℕ
  pub polls : Map EpollDesc

-- What a method returns, or the code of the `CUDTException` that it throws; `throws_system` is the
-- exception for a call of the system that failed.
pub data Result {ℓ} (A : Type ℓ) : Type ℓ where
  ok : A → Result A
  throws : ℕ → Result A
  throws_system : Result A

-- `CUDTException(5, 13)` and `CUDTException(5, 3)`; the code is 1000 * major + minor.
abbrev pub einvpollid : ℕ
einvpollid = 5013

abbrev pub einvparam : ℕ
einvparam = 5003

-- The constructor.
unfoldable pub new_epoll : Epoll
new_epoll = record { id_seed = 0; polls = [] }

abbrev pub fresh_desc : ℕ → ℕ → EpollDesc
fresh_desc id local_id = record {
  id = id;
  udt_socks_out = [];
  udt_socks_in = [];
  local_id = local_id;
  locals = [];
  udt_writes = [];
  udt_reads = [];
}

-- `++ m_iIDSeed`, back to 0 at the largest `int`.
abbrev pub next_seed : ℕ → ℕ
next_seed seed = if leb 0x7FFFFFFF (seed + 1) then 0 else seed + 1

-- `create`; `localid` is what the system's `epoll_create` returned, `none` for a negative result.
unfoldable pub create : Epoll → Option ℕ → Result (ℕ × Epoll)
create e none = throws_system
create e (some localid) =
    let id = next_seed e.id_seed in
    ok (id, record { id_seed = id; polls = Map.insert id (fresh_desc id localid) e.polls })

abbrev pub store : Epoll → ℕ → EpollDesc → Epoll
store e eid d = record e { polls = Map.insert eid d e.polls }

-- The methods that look up `eid`, throw if it is not there, and change its descriptor.
abbrev pub on_desc : Epoll → ℕ → (EpollDesc → EpollDesc) → Result Epoll
on_desc e eid f = elim (lookup eid e.polls) [
  | none ↦ throws einvpollid
  | some d ↦ ok (store e eid (f d))
]

-- `!events || (*events & flag)`
abbrev pub asks : Option ℕ → ℕ → Bool
asks none flag = true
asks (some events) flag = not (bit_and events flag == 0)

abbrev pub insert_if : Bool → ℕ → Set → Set
insert_if b u s = if b then Set.insert u s else s

-- `add_usock`
unfoldable pub add_usock : Epoll → ℕ → ℕ → Option ℕ → Result Epoll
add_usock e eid u events = on_desc e eid λ d. record d {
  udt_socks_in = insert_if (asks events epoll_in) u d.udt_socks_in;
  udt_socks_out = insert_if (asks events epoll_out) u d.udt_socks_out;
}

-- `remove_usock`
unfoldable pub remove_usock : Epoll → ℕ → ℕ → Result Epoll
remove_usock e eid u = on_desc e eid λ d. record d {
  udt_socks_in = Set.erase u d.udt_socks_in;
  udt_socks_out = Set.erase u d.udt_socks_out;
  udt_reads = Set.erase u d.udt_reads;
  udt_writes = Set.erase u d.udt_writes;
}

-- `add_ssock` and `remove_ssock`; `done` says whether the system's `epoll_ctl` succeeded.
unfoldable pub add_ssock : Epoll → ℕ → ℕ → Bool → Result Epoll
add_ssock e eid s done = elim (lookup eid e.polls) [
  | none ↦ throws einvpollid
  | some d ↦
      if done then ok (store e eid (record d { locals = Set.insert s d.locals })) else throws_system
]

unfoldable pub remove_ssock : Epoll → ℕ → ℕ → Bool → Result Epoll
remove_ssock e eid s done = elim (lookup eid e.polls) [
  | none ↦ throws einvpollid
  | some d ↦
      if done then ok (store e eid (record d { locals = Set.erase s d.locals })) else throws_system
]

-- `release`
unfoldable pub release : Epoll → ℕ → Result Epoll
release e eid = elim (lookup eid e.polls) [
  | none ↦ throws einvpollid
  | some d ↦ ok (record e { polls = Map.erase eid e.polls })
]

-- The loop over `eids` that the next four methods share: change each descriptor that is there, and
-- collect the ids of those that are not.
unfoldable pub for_eids : (EpollDesc → EpollDesc) → Set → Epoll → Epoll × List ℕ
for_eids f [] e = (e, [])
for_eids f (eid ∷ eids) e = elim (lookup eid e.polls) [
  | none ↦ (let (e', lost) = for_eids f eids e in (e', eid ∷ lost))
  | some d ↦ for_eids f eids (store e eid (f d))
]

-- The second loop: `eids` without the lost ones.
unfoldable pub erase_lost : List ℕ → Set → Set
erase_lost [] eids = eids
erase_lost (i ∷ lost) eids = erase_lost lost (Set.erase i eids)

abbrev pub update : (EpollDesc → EpollDesc) → Epoll → Set → Epoll × Set
update f e eids = let (e', lost) = for_eids f eids e in (e', erase_lost lost eids)

abbrev pub set_write : ℕ → EpollDesc → EpollDesc
set_write uid d = record d {
  udt_writes = insert_if (contains uid d.udt_socks_out) uid d.udt_writes;
}

abbrev pub set_read : ℕ → EpollDesc → EpollDesc
set_read uid d = record d { udt_reads = insert_if (contains uid d.udt_socks_in) uid d.udt_reads }

abbrev pub clear_write : ℕ → EpollDesc → EpollDesc
clear_write uid d = record d { udt_writes = Set.erase uid d.udt_writes }

abbrev pub clear_read : ℕ → EpollDesc → EpollDesc
clear_read uid d = record d { udt_reads = Set.erase uid d.udt_reads }

-- `enable_write`, with the epoll ids of the socket, `eids`, as state and result.
unfoldable pub enable_write : Epoll → ℕ → Set → Epoll × Set
unfolding for_eids erase_lost
enable_write e uid eids = update (set_write uid) e eids

-- `enable_read`
unfoldable pub enable_read : Epoll → ℕ → Set → Epoll × Set
unfolding for_eids erase_lost
enable_read e uid eids = update (set_read uid) e eids

-- `disable_write`
unfoldable pub disable_write : Epoll → ℕ → Set → Epoll × Set
unfolding for_eids erase_lost
disable_write e uid eids = update (clear_write uid) e eids

-- `disable_read`
unfoldable pub disable_read : Epoll → ℕ → Set → Epoll × Set
unfolding for_eids erase_lost
disable_read e uid eids = update (clear_read uid) e eids
