-- ===== src/Geometry/Export.antt =====
-- geometry.go: reads and the GeoJSON export with its cache.
use geo_crdt.Common.{ℕ, String, Bool, none, some, List, [], ◌∷◌, ◌++◌, map, leb, if◌then◌else◌}
use geo_crdt.Errors.{Result, ok, err, invalid_command, plain}
use geo_crdt.Float.{Float}
use geo_crdt.Ops.Kinds.{
  GeometryType, point, line_string, polygon, multi_point, multi_line, multi_polygon, other_type,
  Coord, layout_for_dimensions,
}
use geo_crdt.Seq.Vertices.{Coord3, Element}
use geo_crdt.Seq.Walk.{walk, live, visible_coords, vertex_id_at}
use geo_crdt.Geometry.State.{
  RingState, PartState, GeometryState, GeoJson, Coordinates, find_part, find_ring,
}

-- `geometryState.position`
unfoldable pub position : ℕ → Coord3 → List Float
position dims c = if leb 3 dims then c.x ∷ c.y ∷ c.z ∷ [] else c.x ∷ c.y ∷ []

-- `part.rings[0].seq.visibleCoords()`; a part always has a ring.
unfoldable pub first_coords : PartState → List Coord3
unfolding visible_coords
first_coords part = elim part.rings [ [] ↦ [] | ring ∷ _ ↦ visible_coords ring.seq ]

-- The one vertex of a point is never deleted, so there is a first coordinate.
unfoldable pub marshal_point : ℕ → PartState → List Float
unfolding first_coords position
marshal_point dims part = elim (first_coords part) [ [] ↦ [] | c ∷ _ ↦ position dims c ]

unfoldable pub marshal_line : ℕ → PartState → List (List Float)
unfolding first_coords position
marshal_line dims part = map (position dims) (first_coords part)

-- `append(encoded, encoded[0])`
unfoldable pub close_ring : List (List Float) → List (List Float)
close_ring [] = []
close_ring (first ∷ rest) = (first ∷ rest) ++ first ∷ []

unfoldable pub marshal_rings : ℕ → List RingState → List (List (List Float))
unfolding visible_coords position close_ring
marshal_rings dims [] = []
marshal_rings dims (ring ∷ rest) =
    let encoded = marshal_rings dims rest in
    if ring.deleted
    then encoded
    else close_ring (map (position dims) (visible_coords ring.seq)) ∷ encoded

unfoldable pub marshal_polygon : ℕ → PartState → List (List (List Float))
unfolding marshal_rings
marshal_polygon dims part = marshal_rings dims part.rings

-- The parts that are not tombstoned.
unfoldable pub live_parts : List PartState → List PartState
live_parts [] = []
live_parts (part ∷ rest) =
    let others = live_parts rest in if part.deleted then others else part ∷ others

-- `g.parts[0]`; a simple geometry has one part.
abbrev first_part {ℓ} : {A : Type ℓ} → A → (PartState → A) → List PartState → A
first_part a f [] = a
first_part a f (part ∷ _) = f part

unfoldable pub marshal_coordinates : GeometryType → ℕ → List PartState → Coordinates
unfolding marshal_point marshal_line marshal_polygon live_parts
marshal_coordinates point dims parts =
    Coordinates.position (first_part [] (marshal_point dims) parts)
marshal_coordinates line_string dims parts =
    Coordinates.line (first_part [] (marshal_line dims) parts)
marshal_coordinates polygon dims parts =
    Coordinates.nested_lines (first_part [] (marshal_polygon dims) parts)
marshal_coordinates multi_point dims parts =
    Coordinates.line (map (marshal_point dims) (live_parts parts))
marshal_coordinates multi_line dims parts =
    Coordinates.nested_lines (map (marshal_line dims) (live_parts parts))
marshal_coordinates multi_polygon dims parts =
    Coordinates.nested_polygons (map (marshal_polygon dims) (live_parts parts))
marshal_coordinates (other_type _) dims parts = Coordinates.line []

-- `marshalGeoJSON`, up to the encoding as text.
unfoldable pub marshal_geo_json : GeometryState → GeoJson
unfolding marshal_coordinates
marshal_geo_json g = record { typ = g.typ; coordinates = marshal_coordinates g.typ g.dims g.parts }

-- `geoJSON` fills the cache where it is dirty.
unfoldable pub geo_json : GeometryState → GeometryState × GeoJson
unfolding marshal_geo_json
geo_json g = elim g.cache [
  | some cached ↦ (g, cached)
  | none ↦ (record g { cache = some (marshal_geo_json g) }, marshal_geo_json g)
]

pub record VertexInfo : Type 0 where
  pub id : String
  pub coord : Coord

pub record RingInfo : Type 0 where
  pub id : String
  pub exterior : Bool
  pub vertices : List VertexInfo

pub record PartInfo : Type 0 where
  pub id : String
  pub typ : GeometryType
  pub rings : List RingInfo

unfoldable pub vertex_info : ℕ → Element → VertexInfo
vertex_info dims el = record {
  id = el.id;
  coord = record {
    x = el.coord.x;
    y = el.coord.y;
    z = el.coord.z;
    layout = layout_for_dimensions dims;
  };
}

unfoldable pub ring_infos : ℕ → List RingState → List RingInfo
unfolding vertex_info live walk
ring_infos dims [] = []
ring_infos dims (ring ∷ rest) =
    let others = ring_infos dims rest in
    let here : RingInfo = record {
      id = ring.id;
      exterior = ring.exterior;
      vertices = map (vertex_info dims) (live (walk ring.seq));
    } in
    if ring.deleted then others else here ∷ others

-- `geometryState.info`
unfoldable pub info : ℕ → List PartState → List PartInfo
unfolding ring_infos
info dims [] = []
info dims (part ∷ rest) =
    let others = info dims rest in
    let here : PartInfo = record {
      id = part.id;
      typ = part.typ;
      rings = ring_infos dims part.rings;
    } in
    if part.deleted then others else here ∷ others

-- `geometryState.vertexIDAt`
unfoldable pub geometry_vertex_id_at : GeometryState → String → String → ℕ → Result String
unfolding vertex_id_at find_part find_ring
geometry_vertex_id_at g part_id ring_id index = elim (find_part part_id g.parts) [
  | none ↦ err invalid_command
  | some part ↦ elim (find_ring ring_id part.rings) [
    | none ↦ err invalid_command
    | some ring ↦ elim (vertex_id_at ring.seq index) [ none ↦ err plain | some id ↦ ok id ]
  ]
]
