-- ===== src/Engine/RemoteTools/Contract.antt =====
-- The registry keeps its contract: its steps are those of the ledger.
use voxedge.Base.{◌≡◌, none}
use voxedge.Text.Strip.{Text}
use voxedge.Engine.RemoteTools.{Future, Outcome}
use voxedge.Engine.RemoteTools.Ledger.{Status, ended, Ledger, status_of}

module _ {R : Type 0} where
  -- What the end of a dispatch makes of its status.
  abbrev Concludes : (Future R → Outcome R) → (Status R → Status R) → Type 0
  Concludes o g = (f : Future R) → ended (o f) ≡ g (status_of f none)
