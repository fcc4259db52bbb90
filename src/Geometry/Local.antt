-- ===== src/Geometry/Local.antt =====
-- geometry.go: `validateLocalOp`, the strict check of an operation that is created here.
use geo_crdt.Common.{ℕ, ◌-◌, not, ◌&&◌, ◌||◌, Option, none, some, List, ltb, ◌==◌, length}
use geo_crdt.Common.Texts.{text_eq}
use geo_crdt.Errors.{Result, ok, err, invalid_command, refuse_if, ◌>>=◌, ◌>>◌, rewrap}
use geo_crdt.Float.{Float}
use geo_crdt.Ops.Kinds.{
  GeometryOpAction, GeometryType, point, polygon, is_multi, part_type, type_eq,
}
use geo_crdt.Ops.GeometryOp.{GeometryOp}
use geo_crdt.Seq.Vertices.{has_vertex}
use geo_crdt.Geometry.State.{RingState, PartState, GeometryState, find_part, find_ring}
use geo_crdt.Geometry.Parse.{parse_line, open_ring, distinct_position_count_xy, new_geometry_state}
use geo_crdt.Geometry.Apply.{all_finite}

-- `x, ok := m[id]; if !ok { return ErrInvalidCommand }`
abbrev pub required {ℓ} : {A : Type ℓ} → Option A → Result A
required none = err invalid_command
required (some a) = ok a

unfoldable pub validate_op_coord : List Float → ℕ → Result (Unit {0})
unfolding all_finite
validate_op_coord coord dims = do
  refuse_if (not (length coord == dims)) invalid_command
  refuse_if (not (all_finite coord)) invalid_command

unfoldable pub floor_of : GeometryType → ℕ
floor_of polygon = 3
floor_of _ = 2

-- The inner `switch` on the vertex actions. `visible - 1` is a signed comparison: below the floor
-- also where nothing is visible.
unfoldable pub validate_vertex_op : ℕ → PartState → RingState → GeometryOp → Result (Unit {0})
unfolding validate_op_coord floor_of has_vertex
validate_vertex_op dims part ring op = elim op.action [
  | GeometryOpAction.insert_vertex ↦ do
    refuse_if (type_eq part.typ point) invalid_command
    validate_op_coord op.coord dims
    refuse_if (not (text_eq op.after_vertex_id "") && not (has_vertex ring.seq op.after_vertex_id))
        invalid_command
  | GeometryOpAction.move_vertex ↦ do
    validate_op_coord op.coord dims
    refuse_if (not (has_vertex ring.seq op.vertex_id)) invalid_command
  | _ ↦ do
    refuse_if (type_eq part.typ point) invalid_command
    refuse_if (not (has_vertex ring.seq op.vertex_id)) invalid_command
    refuse_if (ltb (ring.seq.visible - 1) (floor_of part.typ)) invalid_command
]

unfoldable pub validate_vertex_target : GeometryState → GeometryOp → Result (Unit {0})
unfolding validate_vertex_op find_part find_ring
validate_vertex_target g op = do
  part ← required (find_part op.part_id g.parts)
  ring ← required (find_ring op.ring_id part.rings)
  refuse_if (part.deleted || ring.deleted) invalid_command
  validate_vertex_op g.dims part ring op

unfoldable pub validate_add_ring : GeometryState → GeometryOp → Result (Unit {0})
unfolding find_part parse_line open_ring distinct_position_count_xy
validate_add_ring g op = do
  part ← required (find_part op.part_id g.parts)
  refuse_if (not (type_eq part.typ polygon)) invalid_command
  (line, dims) ← rewrap invalid_command (parse_line op.ring)
  refuse_if (not (dims == g.dims)) invalid_command
  refuse_if (ltb (distinct_position_count_xy (open_ring line)) 3) invalid_command

unfoldable pub validate_remove_ring : GeometryState → GeometryOp → Result (Unit {0})
unfolding find_part find_ring
validate_remove_ring g op = do
  part ← required (find_part op.part_id g.parts)
  ring ← required (find_ring op.ring_id part.rings)
  refuse_if ring.exterior invalid_command
  refuse_if ring.deleted invalid_command

unfoldable pub validate_add_part : GeometryState → GeometryOp → Result (Unit {0})
unfolding new_geometry_state is_multi part_type
validate_add_part g op = do
  refuse_if (not (is_multi g.typ)) invalid_command
  part_geom ← rewrap invalid_command (new_geometry_state op.part)
  refuse_if (not (type_eq part_geom.typ (part_type g.typ))) invalid_command
  refuse_if (not (part_geom.dims == g.dims)) invalid_command

unfoldable pub validate_remove_part : GeometryState → GeometryOp → Result (Unit {0})
unfolding find_part is_multi
validate_remove_part g op = do
  refuse_if (not (is_multi g.typ)) invalid_command
  part ← required (find_part op.part_id g.parts)
  refuse_if part.deleted invalid_command

unfoldable pub validate_local_op : GeometryState → GeometryOp → Result (Unit {0})
unfolding validate_vertex_target validate_add_ring validate_remove_ring validate_add_part
    validate_remove_part
validate_local_op g op = elim op.action [
  | GeometryOpAction.insert_vertex ↦ validate_vertex_target g op
  | GeometryOpAction.move_vertex ↦ validate_vertex_target g op
  | GeometryOpAction.delete_vertex ↦ validate_vertex_target g op
  | GeometryOpAction.add_ring ↦ validate_add_ring g op
  | GeometryOpAction.remove_ring ↦ validate_remove_ring g op
  | GeometryOpAction.add_part ↦ validate_add_part g op
  | GeometryOpAction.remove_part ↦ validate_remove_part g op
  | GeometryOpAction.other_action _ ↦ err invalid_command
]
