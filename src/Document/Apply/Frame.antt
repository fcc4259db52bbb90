-- ===== src/Document/Apply/Frame.antt =====
-- What applying an operation leaves alone: only features and waiting edits change.
use geo_crdt.Common.{Bool, true, false, not, Option, ◌≡◌, refl, arith, Bool-cases, inl, inr}
use geo_crdt.Errors.{Result-cases}
use geo_crdt.Clock.OpRef.{OpRef}
use geo_crdt.Clock.Stamp
use geo_crdt.Clock.Stamp.{Stamp}
use geo_crdt.Ops.DocumentOp.{DocumentOp}
use geo_crdt.Ops.DocumentOp
use geo_crdt.Geometry.State.{GeometryState}
use geo_crdt.Document.State.{FeatureState, Document, feature_of, put_feature}
use geo_crdt.Document.Apply.{
  adopt_generation, created, parse_op_geometry, apply_insert_feature, apply_delete_feature,
  apply_set_geometry, apply_write_property, apply_edit_geometry, apply_op,
}

-- The second document is the first but for its features and its waiting edits.
abbrev pub IsFrame : Document → Document → Type 0
IsFrame d d' = d' ≡ record d { features = d'.features; pending_gen = d'.pending_gen }

adopt_generation-IsFrame :
    (d : Document) (f : FeatureState) (ref : OpRef) (stamp : Stamp) (engine : Option GeometryState)
    → IsFrame d (adopt_generation d f ref stamp engine).0
unfolding adopt_generation put_feature
adopt_generation-IsFrame d f ref stamp engine = ground arith

apply_insert_feature-IsFrame :
    (d : Document) (op : DocumentOp) → IsFrame d (apply_insert_feature d op).0
unfolding apply_insert_feature
apply_insert_feature-IsFrame d op = elim (Result-cases (parse_op_geometry op.geometry)) [
  | inl (e, h) ↦ rw (apply_insert_feature, h)
  | inr (engine, h) ↦
      rw (apply_insert_feature, h)
        (adopt_generation-IsFrame d (created d op) (DocumentOp.ref op) (DocumentOp.stamp op) engine)
]

apply_delete_feature-IsFrame :
    (d : Document) (op : DocumentOp) → IsFrame d (apply_delete_feature d op).0
unfolding apply_delete_feature put_feature
apply_delete_feature-IsFrame d op = ground arith

apply_set_geometry-IsFrame :
    (d : Document) (op : DocumentOp) → IsFrame d (apply_set_geometry d op).0
unfolding apply_set_geometry put_feature adopt_generation
apply_set_geometry-IsFrame d op = elim (Result-cases (parse_op_geometry op.geometry)) [
  | inl (e, h) ↦ rw (apply_set_geometry, h)
  | inr (engine, h) ↦
      elim (Bool-cases
        (not (Stamp.newer (DocumentOp.stamp op) (feature_of d op.feature_id).gen_stamp))) [
          | inl e ↦ rw (apply_set_geometry, h, e)
          | inr e ↦ rw (apply_set_geometry, h, e)
        ]
]

apply_write_property-IsFrame :
    (d : Document) (op : DocumentOp) (deleted : Bool)
    → IsFrame d (apply_write_property d op deleted).0
unfolding apply_write_property put_feature
apply_write_property-IsFrame d op deleted = refl

apply_edit_geometry-IsFrame :
    (d : Document) (op : DocumentOp) → IsFrame d (apply_edit_geometry d op).0
unfolding apply_edit_geometry put_feature
apply_edit_geometry-IsFrame d op = ground arith

-- Applying an operation, of whatever type and outcome, changes nothing but features and waiting
-- edits: the log, the identity index, the clocks and the counters are as they were.
pub apply_op-IsFrame : (d : Document) (op : DocumentOp) → IsFrame d (apply_op d op).0
unfolding apply_op
apply_op-IsFrame d op = ground (
  arith,
  apply_insert_feature-IsFrame d op,
  apply_delete_feature-IsFrame d op,
  apply_set_geometry-IsFrame d op,
  apply_write_property-IsFrame d op true,
  apply_write_property-IsFrame d op false,
  apply_edit_geometry-IsFrame d op,
)
