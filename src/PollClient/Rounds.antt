-- ===== src/PollClient/Rounds.antt =====
-- client/udt_client.cpp: the loop of `Run` of the client without an event poll, and where the messages
-- are after its rounds.
use udt_patch_for_epoll.Prelude.{ℕ, ◌≡◌, ◌⊎◌, List, ◌++◌}
use udt_patch_for_epoll.SendMsgBuf.{MsgPtr}
use udt_patch_for_epoll.Udt.{Udt}
use udt_patch_for_epoll.ThreadsafeQueue.{ThreadsafeQueue}
use udt_patch_for_epoll.UdtClient.{UdtClient, Outcome, returned, out_of_fuel}
use udt_patch_for_epoll.UdtServer.Echo.{SpinsSomewhere}
use udt_patch_for_epoll.UdtClient.Ledger.{Ledger, trail}

module _ (u : Udt) (l : Ledger u) where
  -- Rounds came back. What is in the trail afterwards is what was there and what was sent by other
  -- threads meanwhile, in order.
  pub record Ran (c : UdtClient) (w : u.World) (more : List MsgPtr) (o : Outcome u) : Type 0 where
    pub client : UdtClient
    pub world : u.World
    pub returns : o ≡ returned client world
    pub conserved : trail u l client world ≡ trail u l c w ++ more

  module _ (fuel : ℕ) where
    -- Rounds came back, or some read loop's fuel went into calls that reported messages left.
    abbrev pub RanOrSpins : UdtClient → u.World → List MsgPtr → Outcome u → Type 0
    RanOrSpins c w more o = Ran c w more o ⊎ ((o ≡ out_of_fuel) × SpinsSomewhere u fuel)
