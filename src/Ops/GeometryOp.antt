-- ===== src/Ops/GeometryOp.antt =====
-- ops.go: `GeometryOp`.
use geo_crdt.Common.{
  ℕ, String, Bool, true, false, not, ◌&&◌, ◌||◌, List, [], ◌∷◌, leb, ◌==◌, if◌then◌else◌, map,
}
use geo_crdt.Common.Decimal.{is_blank}
use geo_crdt.Common.Texts.{text_eq}
use geo_crdt.Float.{Float}
use geo_crdt.Errors.{Result, ok, err, invalid_op, refuse_if, ◌>>◌}
use geo_crdt.Json.{Raw, empty, is_empty}
use geo_crdt.Ids.{inserted_vertex_id, added_ring_id, added_part_id}
use geo_crdt.Clock.Limits.{max_timestamp}
use geo_crdt.Clock.OpRef.{OpRef}
use geo_crdt.Clock.Stamp.{Stamp}
use geo_crdt.Ops.Kinds.{GeometryOpAction, Coord, operation_position}

pub record GeometryOp : Type 0 where
  pub action : GeometryOpAction
  pub site_id : String
  pub seq : ℕ
  pub timestamp : ℕ
  pub part_id : String
  pub ring_id : String
  pub vertex_id : String
  pub after_vertex_id : String
  pub coord : List Float
  pub ring : List (List Float)
  pub part : Raw

abbrev pub ref : GeometryOp → OpRef
ref op = record { site_id = op.site_id; seq = op.seq }

abbrev pub stamp : GeometryOp → Stamp
stamp op = record { timestamp = op.timestamp; site_id = op.site_id; seq = op.seq }

-- `vertexID`, `ringID` and `partID`: the ID on the wire, or the one derived from the identity.
unfoldable pub vertex_id_of : GeometryOp → String
vertex_id_of op =
    if not (text_eq op.vertex_id "") then op.vertex_id else inserted_vertex_id op.site_id op.seq

unfoldable pub ring_id_of : GeometryOp → String
ring_id_of op = if not (text_eq op.ring_id "") then op.ring_id else added_ring_id op.site_id op.seq

unfoldable pub part_id_of : GeometryOp → String
part_id_of op = if not (text_eq op.part_id "") then op.part_id else added_part_id op.site_id op.seq

-- `op.XID != "" && op.XID != expected`
abbrev mismatches : String → String → Bool
mismatches id expected = not (text_eq id "") && not (text_eq id expected)

unfoldable pub derive_created_ids : GeometryOp → Result GeometryOp
derive_created_ids op = elim op.action [
  | GeometryOpAction.insert_vertex ↦
      let expected = inserted_vertex_id op.site_id op.seq in
      if mismatches op.vertex_id expected
      then err invalid_op
      else ok (record op { vertex_id = expected })
  | GeometryOpAction.add_ring ↦
      let expected = added_ring_id op.site_id op.seq in
      if mismatches op.ring_id expected
      then err invalid_op
      else ok (record op { ring_id = expected })
  | GeometryOpAction.add_part ↦
      let expected = added_part_id op.site_id op.seq in
      if mismatches op.part_id expected
      then err invalid_op
      else ok (record op { part_id = expected })
  | _ ↦ ok op
]

unfoldable pub validate_identity : String → ℕ → ℕ → Result (Unit {0})
validate_identity site_id seq timestamp = do
  refuse_if (is_blank site_id) invalid_op
  refuse_if ((seq == 0) || leb max_timestamp seq) invalid_op
  refuse_if ((timestamp == 0) || leb max_timestamp timestamp) invalid_op

abbrev is_nil {ℓ} : {A : Type ℓ} → List A → Bool
is_nil [] = true
is_nil (_ ∷ _) = false

-- `op.XID == ""`
abbrev lacks : String → Bool
lacks id = text_eq id ""

unfoldable pub validate_shape : GeometryOp → Result (Unit {0})
validate_shape op = elim op.action [
  | GeometryOpAction.insert_vertex ↦ refuse_if (lacks op.part_id || lacks op.ring_id) invalid_op
  | GeometryOpAction.move_vertex ↦
      refuse_if (lacks op.part_id || lacks op.ring_id || lacks op.vertex_id) invalid_op
  | GeometryOpAction.delete_vertex ↦
      refuse_if (lacks op.part_id || lacks op.ring_id || lacks op.vertex_id) invalid_op
  | GeometryOpAction.add_ring ↦ do
    refuse_if (lacks op.part_id) invalid_op
    refuse_if (is_nil op.ring) invalid_op
  | GeometryOpAction.remove_ring ↦ refuse_if (lacks op.part_id || lacks op.ring_id) invalid_op
  | GeometryOpAction.add_part ↦ refuse_if (is_empty op.part) invalid_op
  | GeometryOpAction.remove_part ↦ refuse_if (lacks op.part_id) invalid_op
  | GeometryOpAction.other_action _ ↦ err invalid_op
]

-- `GeometryOp.validateEnvelope`
unfoldable pub validate_envelope : GeometryOp → Result (Unit {0})
unfolding validate_identity validate_shape
validate_envelope op = do validate_identity op.site_id op.seq op.timestamp; validate_shape op

abbrev pub zero_op : GeometryOp
zero_op = record {
  action = GeometryOpAction.other_action "";
  site_id = "";
  seq = 0;
  timestamp = 0;
  part_id = "";
  ring_id = "";
  vertex_id = "";
  after_vertex_id = "";
  coord = [];
  ring = [];
  part = empty;
}

-- The constructors for local application.
unfoldable pub insert_vertex_op : String → String → String → Coord → GeometryOp
insert_vertex_op part_id ring_id after_vertex_id coord = record zero_op {
  action = GeometryOpAction.insert_vertex;
  part_id = part_id;
  ring_id = ring_id;
  after_vertex_id = after_vertex_id;
  coord = operation_position coord;
}

unfoldable pub move_vertex_op : String → String → String → Coord → GeometryOp
move_vertex_op part_id ring_id vertex_id coord = record zero_op {
  action = GeometryOpAction.move_vertex;
  part_id = part_id;
  ring_id = ring_id;
  vertex_id = vertex_id;
  coord = operation_position coord;
}

unfoldable pub delete_vertex_op : String → String → String → GeometryOp
delete_vertex_op part_id ring_id vertex_id = record zero_op {
  action = GeometryOpAction.delete_vertex;
  part_id = part_id;
  ring_id = ring_id;
  vertex_id = vertex_id;
}

unfoldable pub add_ring_op : String → List Coord → GeometryOp
add_ring_op part_id coords = record zero_op {
  action = GeometryOpAction.add_ring;
  part_id = part_id;
  ring = map operation_position coords;
}

unfoldable pub remove_ring_op : String → String → GeometryOp
remove_ring_op part_id ring_id = record zero_op {
  action = GeometryOpAction.remove_ring;
  part_id = part_id;
  ring_id = ring_id;
}

unfoldable pub add_part_op : Raw → GeometryOp
add_part_op geometry = record zero_op { action = GeometryOpAction.add_part; part = geometry }

unfoldable pub remove_part_op : String → GeometryOp
remove_part_op part_id = record zero_op { action = GeometryOpAction.remove_part; part_id = part_id }
