-- ===== src/Sync/Loop.antt =====
-- pkg/failover/leader.go, `secondarySyncLoop`: the synchronisations of a secondary, tick by tick.
-- Its ends at `stopCh` and at the context are between two ticks.
pub mod Laws
use architect_networking.Base.{
  ℕ, String, Option, List, [], ◌∷◌, Except, done, fail, panic, if◌then◌else◌,
}
use architect_networking.Message.{FailoverSyncStateRequest, FailoverSyncStateResponse}
use architect_networking.Node.{NodeRole, is_secondary}
use architect_networking.Sync.{Conduit, SyncCall, sync_from_primary}

-- What one tick meets: the node's role, its fRPC client, if there is one, and the time.
pub record Tick : Type 0 where
  pub role : NodeRole
  pub rpc : Option SyncCall
  pub now : ℕ

-- The local conduit's state also changes by itself.
pub data SyncEvent (S : Type 0) : Type 0 where
  ticked : Tick → SyncEvent S
  elsewhere : (S → S) → SyncEvent S

pub data LoopEnd : Type 0 where
  running returned panicked : LoopEnd

module _ (D : Conduit) where
  -- What is left to happen once the loop has returned.
  unfoldable pub without_loop : List (SyncEvent D.State) → D.State → D.State
  without_loop [] s = s
  without_loop (ticked t ∷ es) s = without_loop es s
  without_loop (elsewhere change ∷ es) s = without_loop es (change s)

  -- An error is logged; a panic ends the process.
  unfoldable pub secondary_sync_loop : List (SyncEvent D.State) → D.State → LoopEnd × D.State
  unfolding is_secondary without_loop
  secondary_sync_loop [] s = (running, s)
  secondary_sync_loop (elsewhere change ∷ es) s = secondary_sync_loop es (change s)
  secondary_sync_loop (ticked t ∷ es) s =
      let (r, s') = sync_from_primary D t.rpc t.now s in
      let rest = secondary_sync_loop es s' in
      if is_secondary t.role
      then elim r [ done _ ↦ rest | fail _ ↦ rest | panic ↦ (panicked, s') ]
      else (returned, without_loop es s)
