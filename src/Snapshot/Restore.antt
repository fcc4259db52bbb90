-- ===== src/Snapshot/Restore.antt =====
-- sync.go: restoring geometries and features from a snapshot.
use geo_crdt.Common.{
  String, Bool, true, false, not, ◌&&◌, Option, none, some, List, [], ◌∷◌, Map, insert, ◌==◌,
}
use geo_crdt.Common.Texts.{text_eq}
use geo_crdt.Errors.{Result, ok, invalid_geometry, unsupported_geometry, refuse_if, ◌>>=◌, ◌>>◌}
use geo_crdt.Clock.OpRef
use geo_crdt.Clock.OpRef.{OpRef, OpRef_discrete}
use geo_crdt.Clock.Stamp
use geo_crdt.Clock.Stamp.{Stamp}
use geo_crdt.Ops.Kinds.{GeometryType, other_type}
use geo_crdt.Seq.Vertices.{
  VertexSeq, element_at, put_element, new_vertex_seq, has_vertex, insert_vertex, delete_vertex,
}
use geo_crdt.Geometry.State.{RingState, PartState, GeometryState}
use geo_crdt.Geometry.Parse.{parse_position}
use geo_crdt.Document.State.{PropertyState, RefSet, FeatureState}
use geo_crdt.Snapshot.{
  VertexSnapshot, RingSnapshot, PartSnapshot, GeometrySnapshot, PropertySnapshot, FeatureSnapshot,
}
use geo_crdt.Snapshot.Keys.{restore_key}

-- `ring.seq.byID[vs.ID].moveReg = *vs.MoveReg`
unfoldable pub put_move_reg : VertexSeq → String → Option Stamp → VertexSeq
put_move_reg s id none = s
put_move_reg s id (some reg) = elim (element_at s id) [
  | none ↦ s
  | some el ↦ put_element s id (record el { move_reg = reg })
]

unfoldable pub delete_if : Bool → VertexSeq → String → VertexSeq
unfolding delete_vertex
delete_if false s id = s
delete_if true s id = (delete_vertex s id).0

-- One round of the loop over the vertices.
unfoldable pub restore_vertex : VertexSeq → VertexSnapshot → Result VertexSeq
unfolding has_vertex parse_position restore_key insert_vertex put_move_reg delete_if
restore_vertex s v = do
  refuse_if (not (text_eq v.parent "") && not (has_vertex s v.parent)) invalid_geometry
  (coord, _) ← parse_position v.coord
  let (inserted, is_new) = insert_vertex s v.id v.parent (restore_key v.key) coord
  refuse_if (not is_new) invalid_geometry
  ok (delete_if v.deleted (put_move_reg inserted v.id v.move_reg) v.id)

unfoldable pub restore_vertices : VertexSeq → List VertexSnapshot → Result VertexSeq
unfolding restore_vertex
restore_vertices s [] = ok s
restore_vertices s (v ∷ vertices) = do s' ← restore_vertex s v; restore_vertices s' vertices

unfoldable pub restore_rings : List RingSnapshot → Result (List RingState)
unfolding restore_vertices restore_key
restore_rings [] = ok []
restore_rings (r ∷ rings) = do
  seq ← restore_vertices new_vertex_seq r.vertices
  rest ← restore_rings rings
  ok (
      record {
        id = r.id;
        key = restore_key r.key;
        exterior = r.exterior;
        deleted = r.deleted;
        seq = seq;
      }
      ∷ rest)

unfoldable pub restore_parts : List PartSnapshot → Result (List PartState)
unfolding restore_rings restore_key
restore_parts [] = ok []
restore_parts (p ∷ parts) = do
  rings ← restore_rings p.rings
  rest ← restore_parts parts
  ok (
      record { id = p.id; key = restore_key p.key; typ = p.typ; deleted = p.deleted; rings = rings }
      ∷ rest)

-- The types that the switch lets through.
unfoldable pub is_known_type : GeometryType → Bool
is_known_type (other_type _) = false
is_known_type _ = true

unfoldable pub restore_geometry : GeometrySnapshot → Result GeometryState
unfolding is_known_type restore_parts
restore_geometry g = do
  refuse_if (not (g.dims == 2) && not (g.dims == 3)) invalid_geometry
  refuse_if (not (is_known_type g.typ)) unsupported_geometry
  parts ← restore_parts g.parts
  ok (record { typ = g.typ; dims = g.dims; parts = parts; pending = []; cache = none })

abbrev pub stamp_or_zero : Option Stamp → Stamp
stamp_or_zero none = Stamp.zero_stamp
stamp_or_zero (some s) = s

abbrev pub ref_or_zero : Option OpRef → OpRef
ref_or_zero none = OpRef.zero_ref
ref_or_zero (some r) = r

unfoldable pub restore_property : PropertySnapshot → PropertyState
restore_property p = record { value = p.value; deleted = p.deleted; reg = stamp_or_zero p.reg }

-- The keys of a Go map are distinct, so entering them one by one is the map of the entries.
unfoldable pub restore_properties : Map String PropertySnapshot → Map String PropertyState
unfolding restore_property
restore_properties [] = []
restore_properties ((key, p) ∷ rest) = (key, restore_property p) ∷ restore_properties rest

unfoldable pub see_all : RefSet → List OpRef → RefSet
see_all seen [] = seen
see_all seen (r ∷ refs) = see_all (insert OpRef_discrete r tt seen) refs

abbrev pub see_base : Bool → RefSet
see_base true = insert OpRef_discrete OpRef.zero_ref tt []
see_base false = []

abbrev pub see_gen : Option OpRef → RefSet → RefSet
see_gen none seen = seen
see_gen (some r) seen = insert OpRef_discrete r tt seen

-- `if fs.Geometry != nil`
unfoldable pub restore_optional : Option GeometrySnapshot → Result (Option GeometryState)
unfolding restore_geometry
restore_optional none = ok none
restore_optional (some g) = do engine ← restore_geometry g; ok (some engine)

unfoldable pub restore_feature : FeatureSnapshot → Result FeatureState
unfolding restore_optional restore_properties see_all
restore_feature fs = do
  geometry ← restore_optional fs.geometry
  ok (record {
    id = fs.id;
    is_base = fs.base;
    create_reg = stamp_or_zero fs.create_reg;
    delete_reg = stamp_or_zero fs.delete_reg;
    gen_id = ref_or_zero fs.gen_id;
    gen_stamp = elim fs.gen_id [ none ↦ Stamp.zero_stamp | some _ ↦ stamp_or_zero fs.gen_stamp ];
    geometry = geometry;
    seen_gens = see_all (see_gen fs.gen_id (see_base fs.base)) fs.seen_gens;
    properties = restore_properties fs.properties;
  })
