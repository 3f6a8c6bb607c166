-- ===== src/UdtClient/Rounds.antt =====
-- client_epoll/udt_client.cpp: the loop of `Run`, and where the messages are after its rounds.
use udt_patch_for_epoll.Prelude.{ℕ, ◌≡◌, ◌⊎◌, refl, Bool, List, ◌++◌, inl, inr}
use udt_patch_for_epoll.Std.Set.{Set}
use udt_patch_for_epoll.SendMsgBuf.{MsgPtr}
use udt_patch_for_epoll.Udt.{Udt}
use udt_patch_for_epoll.UdtClient.{UdtClient, Outcome, returned, out_of_fuel, and_then}
use udt_patch_for_epoll.UdtClient.Ledger.{Ledger, Sendable, trail, Kept, after-Kept}
use udt_patch_for_epoll.UdtServer.Echo.{SpinsSomewhere}
use udt_patch_for_epoll.UdtClient.Moves.{Armed}

module _ (u : Udt) (l : Ledger u) where
  -- Rounds came back. What is in the trail afterwards is what was there and what was sent by
  -- other threads meanwhile, in order; while the buffer has messages `only_read` is false.
  pub record Went (c : UdtClient) (w : u.World) (more : List MsgPtr) (o : Bool × Outcome u)
      : Type 0 where
    pub client : UdtClient
    pub world : u.World
    pub only_read : Bool
    pub returns : o ≡ (only_read, returned client world)
    pub conserved : trail u l client world ≡ trail u l c w ++ more
    pub sendable : Sendable client
    pub armed : Armed only_read client

  module _ (fuel : ℕ) where
    -- A method came back, or some read loop's fuel went into calls that reported messages left.
    abbrev pub KeptOrSpins : UdtClient → u.World → Outcome u → Type 0
    KeptOrSpins c w o = Kept u l c w o ⊎ ((o ≡ out_of_fuel) × SpinsSomewhere u fuel)

    -- The same for rounds.
    abbrev pub WentOrSpins : UdtClient → u.World → List MsgPtr → Bool × Outcome u → Type 0
    WentOrSpins c w more o = Went c w more o ⊎ ((o.1 ≡ out_of_fuel) × SpinsSomewhere u fuel)

    -- What follows a call that may spin.
    pub and_then-KeptOrSpins :
        (c : UdtClient) (w : u.World) (o : Outcome u) (f : UdtClient → u.World → Outcome u)
        → KeptOrSpins c w o
        → ((c1 : UdtClient) (w1 : u.World) → Sendable c1 → KeptOrSpins c1 w1 (f c1 w1))
        → KeptOrSpins c w (and_then u o f)
    and_then-KeptOrSpins c w o f (inl k) h = rw k.returns (elim (h k.client k.world k.sendable) [
      | inl n ↦ inl (after-Kept u l c k.client w k.world _ k.same_trail k.stays_empty n)
      | inr s ↦ inr s
    ])
    and_then-KeptOrSpins c w o f (inr (e, s)) h = rw e (inr (refl, s))
