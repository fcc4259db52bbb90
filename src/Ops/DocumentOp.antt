-- ===== src/Ops/DocumentOp.antt =====
-- ops.go: `DocumentOp` and the local commands.
pub mod Wire
pub mod Beyond
use geo_crdt.Common.{
  Bool, ltb, ℕ, String, not, ◌&&◌, ◌||◌, Option, none, some, List, [], ◌∷◌, if◌then◌else◌, Map,
}
use geo_crdt.Common.Texts.{text_eq, text_lt}
use geo_crdt.Common.Decimal.{is_blank}
use geo_crdt.Errors.{Result, ok, err, invalid_op, refuse_if, ◌>>◌}
use geo_crdt.Json.{Raw, is_empty, is_valid, is_null_geometry}
use geo_crdt.Clock.OpRef
use geo_crdt.Clock.OpRef.{OpRef}
use geo_crdt.Clock.Stamp.{Stamp}
use geo_crdt.Ops.Kinds.{DocumentOpType, Coord}
use geo_crdt.Ops.GeometryOp
use geo_crdt.Ops.GeometryOp.{GeometryOp, validate_identity}

pub record DocumentOp : Type 0 where
  pub op_type : DocumentOpType
  pub site_id : String
  pub seq : ℕ
  pub timestamp : ℕ
  pub feature_id : String
  pub geometry : Raw
  pub properties : Map String Raw
  pub property_key : String
  pub property_value : Raw
  pub gen : Option OpRef
  pub geometry_op : Option GeometryOp

abbrev pub ref : DocumentOp → OpRef
ref op = record { site_id = op.site_id; seq = op.seq }

abbrev pub stamp : DocumentOp → Stamp
stamp op = record { timestamp = op.timestamp; site_id = op.site_id; seq = op.seq }

unfoldable pub gen_ref : DocumentOp → OpRef
gen_ref op = elim op.gen [ none ↦ OpRef.zero_ref | some g ↦ g ]

-- The loop over the properties: `len(value) == 0 || !json.Valid(value)`.
unfoldable pub validate_properties : Map String Raw → Result (Unit {0})
validate_properties [] = ok tt
validate_properties ((key, raw) ∷ properties) =
    if is_empty raw || not (is_valid raw) then err invalid_op else validate_properties properties

unfoldable pub validate_payload : DocumentOp → Result (Unit {0})
unfolding validate_properties is_null_geometry
validate_payload op = elim op.op_type [
  | DocumentOpType.insert_feature ↦ do
    refuse_if (not (is_null_geometry op.geometry) && not (is_valid op.geometry)) invalid_op
    validate_properties op.properties
  | DocumentOpType.delete_feature ↦ ok tt
  | DocumentOpType.set_geometry ↦
      refuse_if (not (is_null_geometry op.geometry) && not (is_valid op.geometry)) invalid_op
  | DocumentOpType.set_property ↦ do
    refuse_if (is_blank op.property_key) invalid_op
    refuse_if (is_empty op.property_value || not (is_valid op.property_value)) invalid_op
  | DocumentOpType.delete_property ↦ refuse_if (is_blank op.property_key) invalid_op
  | DocumentOpType.edit_geometry ↦ elim op.geometry_op [
    | none ↦ err invalid_op
    | some g ↦ GeometryOp.validate_shape g
  ]
  | DocumentOpType.other_op _ ↦ err invalid_op
]

-- `DocumentOp.validateEnvelope`
unfoldable pub validate_envelope : DocumentOp → Result (Unit {0})
unfolding validate_payload
validate_envelope op = do
  validate_identity op.site_id op.seq op.timestamp
  refuse_if (is_blank op.feature_id) invalid_op
  validate_payload op

-- `normalize`: the payload inherits the identity of the envelope. (Values are copied in any case.)
unfoldable pub normalize : DocumentOp → DocumentOp
normalize op = record op {
  geometry_op = elim op.geometry_op [
    | none ↦ none
    | some g ↦ some (record g { site_id = op.site_id; seq = op.seq; timestamp = op.timestamp })
  ];
}

unfoldable pub strip_embedded_identity : DocumentOp → DocumentOp
strip_embedded_identity op = record op {
  geometry_op = elim op.geometry_op [
    | none ↦ none
    | some g ↦ some (record g { site_id = ""; seq = 0; timestamp = 0 })
  ];
}

-- The order of `sort.SliceStable` in deltas and snapshots: by site, then by sequence number.
unfoldable pub dot_less : DocumentOp → DocumentOp → Bool
dot_less a b =
    if not (text_eq a.site_id b.site_id) then text_lt a.site_id b.site_id else ltb a.seq b.seq

-- The commands. A property value of any Go type comes as what `json.Marshal` makes of it, none
-- where it fails.
pub data Command : Type 0 where
  insert_feature : String → Raw → Map String (Option Raw) → Command
  delete_feature : String → Command
  set_geometry : String → Raw → Command
  set_property : String → String → Option Raw → Command
  delete_property : String → String → Command
  edit_geometry : String → GeometryOp → Command
  move_feature_vertex : String → String → String → String → Coord → Command
  insert_feature_vertex : String → String → String → String → Coord → Command
  delete_feature_vertex : String → String → String → String → Command
  add_feature_ring : String → String → List Coord → Command
  remove_feature_ring : String → String → String → Command
  add_feature_part : String → Raw → Command
  remove_feature_part : String → String → Command
  other_command : Command

unfoldable pub geometry_op_for_command : Command → Option (String × GeometryOp)
geometry_op_for_command (edit_geometry id op) = some (id, op)
geometry_op_for_command (move_feature_vertex id part ring vertex coord) =
    some (id, GeometryOp.move_vertex_op part ring vertex coord)
geometry_op_for_command (insert_feature_vertex id part ring after coord) =
    some (id, GeometryOp.insert_vertex_op part ring after coord)
geometry_op_for_command (delete_feature_vertex id part ring vertex) =
    some (id, GeometryOp.delete_vertex_op part ring vertex)
geometry_op_for_command (add_feature_ring id part coords) =
    some (id, GeometryOp.add_ring_op part coords)
geometry_op_for_command (remove_feature_ring id part ring) =
    some (id, GeometryOp.remove_ring_op part ring)
geometry_op_for_command (add_feature_part id geometry) = some (id, GeometryOp.add_part_op geometry)
geometry_op_for_command (remove_feature_part id part) = some (id, GeometryOp.remove_part_op part)
geometry_op_for_command _ = none
