-- ===== src/RemoteComm/Ended.antt =====
-- What the end of a transaction leaves of it in the coordinator of
-- falcon/distributed_backend/remote_comm_falcon.c.
use falconfs.Common.{elem, ℕ, ◌≡◌, true, false, Option, none, some, List, Eq, nat_eq, list_eq, All}
use falconfs.RemoteComm.Connections.{Reachable}
use falconfs.RemoteComm.{committing, connected, not_begun, Control, Net, Coordinator}

-- The server's connection is in no transaction, and the coordinator has no transaction of `gid`.
pub record Released {Gid : Type 0} ⦃e : Eq Gid⦄ (gid : Option Gid) (w : ℕ) (c : Coordinator Gid)
    : Type 0 where
  pub idle : c.states w ≡ not_begun
  pub no_workers : c.workers ≡ none
  pub no_local_write : c.local_write ≡ false
  pub no_name : c.gid ≡ none
  pub not_under_way : (g : Gid) → gid ≡ some g → elem g c.in_progress ≡ false

module _ {Gid : Type 0} (net : Net Gid) where
  -- A server that can be reached, has no results left, takes what is sent, and answers with success
  -- and the end of the pipeline.
  abbrev pub Serves : ℕ → Type 0
  Serves w =
      (Reachable net committing w)
      × (connected net committing w ≡ true)
      × (net.unfetched w ≡ false)
      × (net.ends w ≡ true)
      × ((k : Control Gid) → (net.sends w k ≡ true) × (net.confirms w k ≡ true))

  abbrev pub AllServe : List ℕ → Type 0
  AllServe = All Serves
