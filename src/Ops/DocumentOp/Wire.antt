-- ===== src/Ops/DocumentOp/Wire.antt =====
-- What the wire form of an operation keeps.
use geo_crdt.Common.{◌≡◌, arith}
use geo_crdt.Ops.DocumentOp.{DocumentOp, normalize, strip_embedded_identity}

-- The identity of the geometry payload is left out on the wire, and the receiver restores it:
-- whatever identity the payload had, normalizing an operation before it is sent or only after it is
-- received is the same, and normalizing twice is the same as once.
pub normalize-strip :
    (op : DocumentOp)
    → (normalize (strip_embedded_identity (normalize op)) ≡ normalize op)
      × (normalize (strip_embedded_identity op) ≡ normalize op)
      × (normalize (normalize op) ≡ normalize op)
unfolding normalize strip_embedded_identity
normalize-strip op = (ground arith, ground arith, ground arith)
