-- ===== src/RcvUList/Worker.antt =====
-- udt4/src/queue.cpp: the loops of `CRcvQueue::worker` over the sockets that wait to be listed, and over
-- those whose timers are to be checked.
-- What `checkTimers` does, whether a socket is usable and the clock belong to the sockets' state.
pub mod Due
pub mod Ends
pub mod Entries
pub mod Sorted
use udt_patch_for_epoll.Prelude.{
  List, [], ◌∷◌, ℕ, zero, suc, ◌+◌, ◌-◌, ◌<◌, ◌≤◌, ◌≡◌, ◌≢◌, refl, sym, ap, ◌∙◌, Bool, true, false,
  not, Option, none, some, ◌==◌, ltb, if◌then◌else◌, put, arith, Bool-cases, inl, inr,
}
use udt_patch_for_epoll.Hash.{Hash, insert_id, remove_id}
use udt_patch_for_epoll.RcvUList.{RcvUList, insert, remove, update}
use udt_patch_for_epoll.RcvUList.Line.{Line, IsLine, joined, without}
use udt_patch_for_epoll.RcvUList.Linking.{IsAlike}
use udt_patch_for_epoll.RcvUList.Unlinking.{remove-IsLine, update-IsLine, remove-IsAlike}

-- The sockets as the loop sees them.
pub record Sockets (W : Type 0) : Type 0 where
  pub is_usable : W → ℕ → Bool
  pub check_timers : W → ℕ → W
  pub clock : W → ℕ
  pub socket_id : ℕ → ℕ

module _ {W : Type 0} (sockets : Sockets W) where
  abbrev pub dropped : RcvUList → ℕ → RcvUList
  dropped l u = let l1 = remove l u in record l1 { on_list = put l1.on_list u false }

  -- A round of the loop; `again` is the rest. No result is a null pointer that is followed.
  abbrev pub after_update :
      (RcvUList → Hash → W → Option (RcvUList × Hash × W))
      → Hash
      → W
      → Option RcvUList
      → Option (RcvUList × Hash × W)
  after_update again h w none = none
  after_update again h w (some l) = again l h w

  abbrev pub handle :
      (RcvUList → Hash → W → Option (RcvUList × Hash × W))
      → RcvUList
      → Hash
      → W
      → ℕ
      → Bool
      → Option (RcvUList × Hash × W)
  handle again l h w u true =
      let w1 = sockets.check_timers w u in after_update again h w1 (update l u (sockets.clock w1))
  handle again l h w u false = again (dropped l u) (remove_id h (sockets.socket_id u)) w

  abbrev pub if_due :
      (RcvUList → Hash → W → Option (RcvUList × Hash × W))
      → RcvUList
      → Hash
      → W
      → ℕ
      → Bool
      → Option (RcvUList × Hash × W)
  if_due again l h w u true = handle again l h w u (sockets.is_usable w u)
  if_due again l h w u false = some (l, h, w)

  abbrev pub at_head :
      (RcvUList → Hash → W → Option (RcvUList × Hash × W))
      → ℕ
      → RcvUList
      → Hash
      → W
      → Option ℕ
      → Option (RcvUList × Hash × W)
  at_head again ctime l h w none = some (l, h, w)
  at_head again ctime l h w (some u) = if_due again l h w u (ltb (l.times u) ctime)

  -- The loop for the time `ctime`; no result is also no fuel.
  unfoldable pub check_sockets : ℕ → ℕ → RcvUList → Hash → W → Option (RcvUList × Hash × W)
  check_sockets zero ctime l h w = none
  check_sockets (suc fuel) ctime l h w =
      at_head (λ l1 h1 w1. check_sockets fuel ctime l1 h1 w1) ctime l h w l.first

  -- The loop over the sockets that wait to be listed, each with the time at which its turn comes.
  abbrev pub after_insert :
      (RcvUList → Option (RcvUList × Hash)) → Option RcvUList → Option (RcvUList × Hash)
  after_insert again none = none
  after_insert again (some l) = again l

  unfoldable pub add_entries : List (ℕ × ℕ) → RcvUList → Hash → Option (RcvUList × Hash)
  add_entries [] l h = some (l, h)
  add_entries ((u, now) ∷ us) l h =
      after_insert (λ l1. add_entries us l1 (insert_id h (sockets.socket_id u) u)) (insert l u now)
