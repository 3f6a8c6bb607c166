-- ===== src/UdtServer/Rounds.antt =====
-- server_udt/udt_server.cpp: `HandleReadFds` and the loop of `Run`, with the sender's invariant.
use udt_patch_for_epoll.Prelude.{ℕ, ◌≡◌, ◌⊎◌}
use udt_patch_for_epoll.Std.Set.{Set}
use udt_patch_for_epoll.Udt.{FillsBuffer, Udt}
use udt_patch_for_epoll.SendMsgCtrl.Armed.{IsArmed}
use udt_patch_for_epoll.UdtServer.{UdtServer, Outcome, returned, out_of_fuel}
use udt_patch_for_epoll.UdtServer.Echo.{SpinsSomewhere}

module _ (u : Udt) where
  -- The method came back, and the sender satisfies its invariant.
  abbrev pub Returns : Outcome u → Type 0
  Returns o = (s : UdtServer) × (w : u.World) × (o ≡ returned s w) × IsArmed s.send_msg_ctrl

  module _ (fuel : ℕ) (fills : FillsBuffer u) where
    -- The method came back, or some read loop's fuel went into calls that reported messages left.
    abbrev pub ReturnsOrSpins : Outcome u → Type 0
    ReturnsOrSpins o = Returns o ⊎ ((o ≡ out_of_fuel) × SpinsSomewhere u fuel)
