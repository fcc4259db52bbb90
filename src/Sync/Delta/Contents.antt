-- ===== src/Sync/Delta/Contents.antt =====
-- What a delta holds.
use geo_crdt.Clock.Vector.{VectorClock}
use geo_crdt.Ops.DocumentOp.Beyond.{IsSelection, beyond-IsSelection}
use geo_crdt.Document.State.{Document}
use geo_crdt.Sync.Delta.{wire, delta_since}

-- A delta holds, by site and sequence number, exactly the operations of the log that the peer's
-- vector clock does not have, each in wire form.
pub delta_since-IsSelection :
    (d : Document) (clock : VectorClock) → IsSelection wire clock d.ops (delta_since d clock).ops
unfolding delta_since
delta_since-IsSelection d clock = beyond-IsSelection wire clock d.ops
