-- ===== src/Geometry/Apply.antt =====
-- geometry.go: `applyOnce` and the seven actions.
pub mod Outcomes
use geo_crdt.Common.{
  ℕ, suc, String, Bool, true, false, not, ◌&&◌, Option, none, some, List, [], ◌∷◌, ltb, ◌==◌,
  if◌then◌else◌, length,
}
use geo_crdt.Common.Texts.{text_eq}
use geo_crdt.Errors.{ok, err}
use geo_crdt.Float.{Float, is_finite}
use geo_crdt.Ids.{add_ring_vertex_id, add_part_ring_id, add_part_vertex_id}
use geo_crdt.Ops.Kinds.{GeometryOpAction, point, polygon, is_multi, part_type, type_eq}
use geo_crdt.Ops.GeometryOp
use geo_crdt.Ops.GeometryOp.{GeometryOp, vertex_id_of, ring_id_of, part_id_of}
use geo_crdt.Seq.Key.{op_key, initial_key, set_key_before}
use geo_crdt.Seq.Search.{insert_sorted}
use geo_crdt.Seq.Vertices.{Coord3, VertexSeq, has_vertex, new_vertex_seq, insert_chain}
use geo_crdt.Seq.Vertices
use geo_crdt.Seq.Walk.{visible_coords}
use geo_crdt.Geometry.State.{
  RingState, PartState, GeometryState, DepKey, dep_part, dep_ring, dep_vertex, Reason, ApplyResult,
  applied, duplicate, superseded, buffered, quarantined, find_part, find_ring, put_part, put_ring,
}
use geo_crdt.Geometry.Parse.{parse_line, open_ring, distinct_position_count_xy, new_geometry_state}

-- What `resolvePart` and `resolveRing` return: the target, or the result that says why not.
pub data Resolved {ℓ} (A : Type ℓ) : Type ℓ where
  found : A → Resolved A
  fails : ApplyResult → Resolved A

abbrev pub part_dep : String → DepKey
part_dep id = record { kind = dep_part; part_id = ""; ring_id = ""; id = id }

abbrev pub ring_dep : String → String → DepKey
ring_dep part_id id = record { kind = dep_ring; part_id = part_id; ring_id = ""; id = id }

abbrev pub vertex_dep : String → String → String → DepKey
vertex_dep part_id ring_id id = record {
  kind = dep_vertex;
  part_id = part_id;
  ring_id = ring_id;
  id = id;
}

unfoldable pub resolve_part : GeometryState → GeometryOp → Resolved PartState
unfolding find_part is_multi
resolve_part g op = elim (find_part op.part_id g.parts) [
  | some part ↦ found part
  | none ↦
      if not (is_multi g.typ)
      then fails (quarantined Reason.missing_part)
      else fails (buffered (part_dep op.part_id))
]

unfoldable pub resolve_ring : PartState → GeometryOp → Resolved RingState
unfolding find_ring
resolve_ring part op = elim (find_ring op.ring_id part.rings) [
  | some ring ↦ found ring
  | none ↦
      if not (type_eq part.typ polygon)
      then fails (quarantined Reason.missing_ring)
      else fails (buffered (ring_dep part.id op.ring_id))
]

unfoldable pub all_finite : List Float → Bool
all_finite [] = true
all_finite (v ∷ vs) = is_finite v && all_finite vs

-- `checkWireCoord`; `none` is the empty result.
unfoldable pub check_wire_coord : List Float → ℕ → Option ApplyResult
unfolding all_finite
check_wire_coord coord dims =
    if not (length coord == dims)
    then some (quarantined Reason.layout_mismatch)
    else if not (all_finite coord)
    then some (quarantined Reason.not_finite)
    else none

-- `copy(coord[:], raw)`
unfoldable pub coord_from_op : List Float → Coord3
coord_from_op [] = record { x = 0; y = 0; z = 0 }
coord_from_op (x ∷ []) = record { x = x; y = 0; z = 0 }
coord_from_op (x ∷ y ∷ []) = record { x = x; y = y; z = 0 }
coord_from_op (x ∷ y ∷ z ∷ _) = record { x = x; y = y; z = z }

-- The three cases of the `switch` in `applyVertexAction`, on the sequence of the target ring.
unfoldable pub insert_case : ℕ → PartState → RingState → GeometryOp → VertexSeq × ApplyResult
unfolding vertex_id_of check_wire_coord coord_from_op has_vertex
insert_case dims part ring op =
    if has_vertex ring.seq (vertex_id_of op)
    then (ring.seq, duplicate)
    else elim (check_wire_coord op.coord dims) [
      | some fail ↦ (ring.seq, fail)
      | none ↦
          if not (text_eq op.after_vertex_id "") && not (has_vertex ring.seq op.after_vertex_id)
          then (ring.seq, buffered (vertex_dep part.id ring.id op.after_vertex_id))
          else (
            (Vertices.insert_vertex ring.seq (vertex_id_of op) op.after_vertex_id
                (op_key (GeometryOp.stamp op)) (coord_from_op op.coord)).0,
            applied,
          )
    ]

unfoldable pub move_case : ℕ → PartState → RingState → GeometryOp → VertexSeq × ApplyResult
unfolding check_wire_coord coord_from_op has_vertex
move_case dims part ring op = elim (check_wire_coord op.coord dims) [
  | some fail ↦ (ring.seq, fail)
  | none ↦
      if not (has_vertex ring.seq op.vertex_id)
      then (ring.seq, buffered (vertex_dep part.id ring.id op.vertex_id))
      else (let (moved, won) =
            Vertices.move_vertex ring.seq op.vertex_id (GeometryOp.stamp op)
              (coord_from_op op.coord) in
          (moved, if not won then superseded else applied))
]

unfoldable pub delete_case : PartState → RingState → GeometryOp → VertexSeq × ApplyResult
unfolding has_vertex
delete_case part ring op =
    if not (has_vertex ring.seq op.vertex_id)
    then (ring.seq, buffered (vertex_dep part.id ring.id op.vertex_id))
    else (let (rest, done) = Vertices.delete_vertex ring.seq op.vertex_id in
        (rest, if not done then duplicate else applied))

-- The write of the sequence through the pointers to its ring and part.
unfoldable pub store_seq :
    GeometryState → PartState → RingState → VertexSeq × ApplyResult → GeometryState × ApplyResult
unfolding put_part put_ring
store_seq g part ring (seq, result) = (
  record g {
    parts =
        put_part (record part { rings = put_ring (record ring { seq = seq }) part.rings }) g.parts;
  },
  result,
)

abbrev pub is_move : GeometryOpAction → Bool
is_move GeometryOpAction.move_vertex = true
is_move _ = false

unfoldable pub vertex_case : ℕ → PartState → RingState → GeometryOp → VertexSeq × ApplyResult
unfolding insert_case move_case delete_case
vertex_case dims part ring op = elim op.action [
  | GeometryOpAction.insert_vertex ↦ insert_case dims part ring op
  | GeometryOpAction.move_vertex ↦ move_case dims part ring op
  | _ ↦ delete_case part ring op
]

unfoldable pub apply_vertex_action : GeometryState → GeometryOp → GeometryState × ApplyResult
unfolding resolve_part resolve_ring vertex_case store_seq
apply_vertex_action g op = elim (resolve_part g op) [
  | fails r ↦ (g, r)
  | found part ↦ elim (resolve_ring part op) [
    | fails r ↦ (g, r)
    | found ring ↦
        if type_eq part.typ point && not (is_move op.action)
        then (g, quarantined Reason.point_supports_move_only)
        else store_seq g part ring (vertex_case g.dims part ring op)
  ]
]

unfoldable pub insert_ring : PartState → RingState → PartState
unfolding insert_sorted set_key_before
insert_ring part ring = record part {
  rings = insert_sorted (λ (other : RingState). set_key_before ring.key other.key) ring part.rings;
}

abbrev pub is_some {ℓ} : {A : Type ℓ} → Option A → Bool
is_some none = false
is_some (some _) = true

-- The part of `applyAddRing` after the duplicate test, on parsed coordinates.
unfoldable pub add_ring_coords :
    GeometryState → PartState → GeometryOp → List Coord3 × ℕ → GeometryState × ApplyResult
unfolding open_ring distinct_position_count_xy insert_ring insert_chain put_part ring_id_of
add_ring_coords g part op (line, dims) =
    if not (dims == g.dims)
    then (g, quarantined Reason.layout_mismatch)
    else if ltb (distinct_position_count_xy (open_ring line)) 3
    then (g, quarantined Reason.too_few_positions)
    else (let ring : RingState = record {
      id = ring_id_of op;
      key = op_key (GeometryOp.stamp op);
      exterior = false;
      deleted = false;
      seq =
          insert_chain (add_ring_vertex_id (GeometryOp.ref op)) 0 "" (open_ring line)
            new_vertex_seq;
    } in
        (record g { parts = put_part (insert_ring part ring) g.parts }, applied))

unfoldable pub apply_add_ring : GeometryState → GeometryOp → GeometryState × ApplyResult
unfolding resolve_part add_ring_coords find_ring parse_line
apply_add_ring g op = elim (resolve_part g op) [
  | fails r ↦ (g, r)
  | found part ↦
      if not (type_eq part.typ polygon)
      then (g, quarantined Reason.add_ring_needs_polygon)
      else if is_some (find_ring (ring_id_of op) part.rings)
      then (g, duplicate)
      else elim (parse_line op.ring) [
        | err _ ↦ (g, quarantined Reason.bad_ring_coordinates)
        | ok parsed ↦ add_ring_coords g part op parsed
      ]
]

unfoldable pub apply_remove_ring : GeometryState → GeometryOp → GeometryState × ApplyResult
unfolding resolve_part resolve_ring put_part put_ring
apply_remove_ring g op = elim (resolve_part g op) [
  | fails r ↦ (g, r)
  | found part ↦ elim (resolve_ring part op) [
    | fails r ↦ (g, r)
    | found ring ↦
        if ring.exterior
        then (g, quarantined Reason.exterior_ring)
        else if ring.deleted
        then (g, duplicate)
        else (
          record g {
            parts =
                put_part
                  (record part { rings = put_ring (record ring { deleted = true }) part.rings })
                  g.parts;
          },
          applied,
        )
  ]
]

-- The rings of an added part, under IDs derived from the operation.
unfoldable pub reidentify : GeometryOp → ℕ → List RingState → List RingState
unfolding insert_chain visible_coords
reidentify op r [] = []
reidentify op r (source ∷ rest) =
    record {
      id = add_part_ring_id (GeometryOp.ref op) r;
      key = initial_key r;
      exterior = source.exterior;
      deleted = false;
      seq =
          insert_chain (add_part_vertex_id (GeometryOp.ref op) r) 0 "" (visible_coords source.seq)
            new_vertex_seq;
    }
    ∷ reidentify op (suc r) rest

-- `partGeom.parts[0]`; a simple geometry has exactly one part.
unfoldable pub add_first_part :
    GeometryState → GeometryOp → List PartState → GeometryState × ApplyResult
unfolding reidentify part_id_of insert_sorted set_key_before
add_first_part g op [] = (g, quarantined Reason.bad_part_geometry)
add_first_part g op (source ∷ _) =
    let part : PartState = record {
      id = part_id_of op;
      key = op_key (GeometryOp.stamp op);
      typ = source.typ;
      deleted = false;
      rings = reidentify op 0 source.rings;
    } in
    (
      record g {
        parts =
            insert_sorted (λ (other : PartState). set_key_before part.key other.key) part g.parts;
      },
      applied,
    )

unfoldable pub apply_add_part : GeometryState → GeometryOp → GeometryState × ApplyResult
unfolding add_first_part find_part new_geometry_state is_multi part_type
apply_add_part g op =
    if not (is_multi g.typ)
    then (g, quarantined Reason.simple_geometry)
    else if is_some (find_part (part_id_of op) g.parts)
    then (g, duplicate)
    else elim (new_geometry_state op.part) [
      | err _ ↦ (g, quarantined Reason.bad_part_geometry)
      | ok part_geom ↦
          if not (type_eq part_geom.typ (part_type g.typ))
          then (g, quarantined Reason.wrong_part_type)
          else if not (part_geom.dims == g.dims)
          then (g, quarantined Reason.layout_mismatch)
          else add_first_part g op part_geom.parts
    ]

unfoldable pub apply_remove_part : GeometryState → GeometryOp → GeometryState × ApplyResult
unfolding resolve_part put_part is_multi
apply_remove_part g op =
    if not (is_multi g.typ)
    then (g, quarantined Reason.simple_geometry)
    else elim (resolve_part g op) [
      | fails r ↦ (g, r)
      | found part ↦
          if part.deleted
          then (g, duplicate)
          else (record g { parts = put_part (record part { deleted = true }) g.parts }, applied)
    ]

-- The `switch` on the action.
unfoldable pub apply_action :
    GeometryOpAction → GeometryState → GeometryOp → GeometryState × ApplyResult
unfolding apply_vertex_action apply_add_ring apply_remove_ring apply_add_part apply_remove_part
apply_action GeometryOpAction.insert_vertex g op = apply_vertex_action g op
apply_action GeometryOpAction.move_vertex g op = apply_vertex_action g op
apply_action GeometryOpAction.delete_vertex g op = apply_vertex_action g op
apply_action GeometryOpAction.add_ring g op = apply_add_ring g op
apply_action GeometryOpAction.remove_ring g op = apply_remove_ring g op
apply_action GeometryOpAction.add_part g op = apply_add_part g op
apply_action GeometryOpAction.remove_part g op = apply_remove_part g op
apply_action (GeometryOpAction.other_action _) g op = (g, quarantined Reason.unknown_action)

unfoldable pub apply_once : GeometryState → GeometryOp → GeometryState × ApplyResult
unfolding apply_action
apply_once g op = apply_action op.action g op
