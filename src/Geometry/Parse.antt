-- ===== src/Geometry/Parse.antt =====
-- geometry.go: `newGeometryState` and the parsing of coordinates.
use geo_crdt.Common.{
  ℕ, suc, Bool, false, not, ◌&&◌, ◌||◌, Option, none, some, List, [], ◌∷◌, ltb, ◌==◌, if◌then◌else◌,
  length,
}
use geo_crdt.Errors.{
  Result, ok, err, invalid_geometry, unsupported_geometry, refuse_if, ◌>>=◌, ◌>>◌,
}
use geo_crdt.Float.{Float, is_finite, float_eq}
use geo_crdt.Ids.{initial_part_id, initial_ring_id}
use geo_crdt.Json.{Json, Raw, decode_float, decode_list, decode_raw, decode_header, unmarshal}
use geo_crdt.Ops.Kinds.{
  GeometryType, point, multi_point, line_string, multi_line, polygon, multi_polygon, other_type,
  geometry_type_of, part_type, type_eq,
}
use geo_crdt.Seq.Key.{initial_key}
use geo_crdt.Seq.Vertices.{Coord3, new_initial_seq}
use geo_crdt.Geometry.State.{RingState, PartState, GeometryState}

-- `json.Unmarshal` with the error wrapped.
abbrev parse {ℓ} : {A : Type ℓ} → (Json → Option A) → Raw → Result A
parse decode raw = elim (unmarshal decode raw) [ none ↦ err invalid_geometry | some a ↦ ok a ]

unfoldable pub parse_position : List Float → Result (Coord3 × ℕ)
parse_position (x ∷ y ∷ []) = do
  refuse_if (not (is_finite x && is_finite y)) invalid_geometry
  ok (record { x = x; y = y; z = 0 }, 2)
parse_position (x ∷ y ∷ z ∷ []) = do
  refuse_if (not (is_finite x && is_finite y && is_finite z)) invalid_geometry
  ok (record { x = x; y = y; z = z }, 3)
parse_position _ = err invalid_geometry

-- `if dims == 0 { dims = d } else if d != dims { error }`, which is also `setDims`.
unfoldable pub set_dims : ℕ → ℕ → Result ℕ
set_dims dims d = if dims == 0 then ok d else if d == dims then ok dims else err invalid_geometry

abbrev or_two : ℕ → ℕ
or_two dims = if dims == 0 then 2 else dims

-- The loop of `parseLine`.
unfoldable pub parse_line_from : ℕ → List (List Float) → Result (List Coord3 × ℕ)
unfolding parse_position set_dims
parse_line_from dims [] = ok ([], dims)
parse_line_from dims (position ∷ raw) = do
  (pos, pos_dims) ← parse_position position
  dims' ← set_dims dims pos_dims
  (line, last_dims) ← parse_line_from dims' raw
  ok (pos ∷ line, last_dims)

unfoldable pub parse_line : List (List Float) → Result (List Coord3 × ℕ)
unfolding parse_line_from
parse_line raw = do (line, dims) ← parse_line_from 0 raw; ok (line, or_two dims)

-- `a == b` on `[3]float64`.
abbrev coord_eq : Coord3 → Coord3 → Bool
coord_eq a b = float_eq a.x b.x && float_eq a.y b.y && float_eq a.z b.z

-- The ring after its first position, without a last one that equals the first.
unfoldable pub drop_closing : Coord3 → List Coord3 → List Coord3
drop_closing first [] = []
drop_closing first (p ∷ []) = if coord_eq first p then [] else p ∷ []
drop_closing first (p ∷ q ∷ rest) = p ∷ drop_closing first (q ∷ rest)

unfoldable pub open_ring : List Coord3 → List Coord3
unfolding drop_closing
open_ring [] = []
open_ring (first ∷ rest) = first ∷ drop_closing first rest

-- The keys of `distinct`, a map keyed by the XY pair.
abbrev same_xy : Coord3 → Coord3 → Bool
same_xy a b = float_eq a.x b.x && float_eq a.y b.y

unfoldable pub seen_xy : Coord3 → List Coord3 → Bool
seen_xy p [] = false
seen_xy p (q ∷ qs) = same_xy p q || seen_xy p qs

unfoldable pub distinct_xy : List Coord3 → List Coord3 → List Coord3
unfolding seen_xy
distinct_xy seen [] = seen
distinct_xy seen (p ∷ ps) = distinct_xy (if seen_xy p seen then seen else p ∷ seen) ps

unfoldable pub distinct_position_count_xy : List Coord3 → ℕ
unfolding distinct_xy
distinct_position_count_xy positions = length (distinct_xy [] positions)

-- The loop of `parsePolygonJSON` over the rings.
unfoldable pub parse_rings : ℕ → List (List (List Float)) → Result (List (List Coord3) × ℕ)
unfolding parse_line set_dims open_ring distinct_position_count_xy
parse_rings dims [] = ok ([], dims)
parse_rings dims (raw_ring ∷ raw) = do
  (line, ring_dims) ← parse_line raw_ring
  dims' ← set_dims dims ring_dims
  let ring = open_ring line
  refuse_if (ltb (distinct_position_count_xy ring) 3) invalid_geometry
  (rings, last_dims) ← parse_rings dims' raw
  ok (ring ∷ rings, last_dims)

unfoldable pub parse_polygon : Raw → Result (List (List Coord3) × ℕ)
unfolding parse_rings decode_list decode_float unmarshal
parse_polygon coordinates = do
  raw ← parse (decode_list (decode_list (decode_list decode_float))) coordinates
  refuse_if (length raw == 0) invalid_geometry
  (rings, dims) ← parse_rings 0 raw
  ok (rings, or_two dims)

unfoldable pub parse_line_json : Raw → Result (List Coord3 × ℕ)
unfolding parse_line decode_list decode_float unmarshal
parse_line_json coordinates = do
  raw ← parse (decode_list (decode_list decode_float)) coordinates
  parse_line raw

-- The loops over the members of a multipart geometry; every member passes `setDims`.
unfoldable pub parse_members :
    (Raw → Result (List (List Coord3) × ℕ)) → ℕ → List Raw → Result (List (List (List Coord3)) × ℕ)
unfolding set_dims
parse_members member dims [] = ok ([], dims)
parse_members member dims (raw ∷ rest) = do
  (rings, member_dims) ← member raw
  dims' ← set_dims dims member_dims
  (parts, last_dims) ← parse_members member dims' rest
  ok (rings ∷ parts, last_dims)

abbrev single_rings : List Coord3 → List (List (List Coord3))
single_rings [] = []
single_rings (p ∷ ps) = ((p ∷ []) ∷ []) ∷ single_rings ps

abbrev line_member : Raw → Result (List (List Coord3) × ℕ)
line_member raw = do (line, dims) ← parse_line_json raw; ok (line ∷ [], dims)

-- The `switch` of `newGeometryState`: the coordinates by part, ring and vertex, and the dimensions.
unfoldable pub part_coords : GeometryType → Raw → Result (List (List (List Coord3)) × ℕ)
unfolding parse_line_json parse_polygon parse_members parse_position decode_raw unmarshal
part_coords point coordinates = do
  raw ← parse (decode_list decode_float) coordinates
  (p, dims) ← parse_position raw
  ok (((p ∷ []) ∷ []) ∷ [], dims)
part_coords line_string coordinates = do
  (line, dims) ← parse_line_json coordinates
  ok ((line ∷ []) ∷ [], dims)
part_coords polygon coordinates = do
  (rings, dims) ← parse_polygon coordinates
  ok (rings ∷ [], dims)
part_coords multi_point coordinates = do
  (points, dims) ← parse_line_json coordinates
  ok (single_rings points, dims)
part_coords multi_line coordinates = do
  raw ← parse (decode_list decode_raw) coordinates
  parse_members line_member 0 raw
part_coords multi_polygon coordinates = do
  raw ← parse (decode_list decode_raw) coordinates
  parse_members parse_polygon 0 raw
part_coords (other_type _) coordinates = err unsupported_geometry

unfoldable pub build_rings : GeometryType → ℕ → ℕ → List (List Coord3) → List RingState
unfolding new_initial_seq
build_rings part_typ i r [] = []
build_rings part_typ i r (coords ∷ rest) =
    record {
      id = initial_ring_id i r;
      key = initial_key r;
      exterior = type_eq part_typ polygon && (r == 0);
      deleted = false;
      seq = new_initial_seq r coords;
    }
    ∷ build_rings part_typ i (suc r) rest

-- `partType == GeometryLineString && len(ringCoords[0]) < 2`
abbrev is_short_line : GeometryType → List (List Coord3) → Bool
is_short_line line_string (line ∷ rings) = ltb (length line) 2
is_short_line _ _ = false

unfoldable pub build_parts : GeometryType → ℕ → List (List (List Coord3)) → Result (List PartState)
unfolding build_rings
build_parts part_typ i [] = ok []
build_parts part_typ i (ring_coords ∷ rest) = do
  refuse_if (is_short_line part_typ ring_coords) invalid_geometry
  parts ← build_parts part_typ (suc i) rest
  ok (
      record {
        id = initial_part_id i;
        key = initial_key i;
        typ = part_typ;
        deleted = false;
        rings = build_rings part_typ i 0 ring_coords;
      }
      ∷ parts)

-- (The length of a LineString is checked once more for each part, by the same test.)
unfoldable pub new_geometry_state : Raw → Result GeometryState
unfolding part_coords build_parts decode_header part_type geometry_type_of unmarshal
new_geometry_state geometry = do
  header ← parse decode_header geometry
  let typ = geometry_type_of header.type_name
  (coords, dims) ← part_coords typ header.coordinates
  parts ← build_parts (part_type typ) 0 coords
  ok (record { typ = typ; dims = or_two dims; parts = parts; pending = []; cache = none })
