-- ===== src/Snapshot/Shape.antt =====
-- snapshot_validation.go: the checks of a geometry, its parts, rings and vertices.
use geo_crdt.Common.{
  ℕ, suc, zero, ◌+◌, String, Bool, true, false, not, ◌&&◌, ◌||◌, Option, none, some, List, [], ◌∷◌,
  length, ◌==◌, if◌then◌else◌, ite,
}
use geo_crdt.Common.Texts.{text_eq}
use geo_crdt.Common.Decimal.{is_blank}
use geo_crdt.Errors.{Result, ok, plain, refuse_if, ◌>>=◌, ◌>>◌}
use geo_crdt.Ids.{
  initial_part_id, initial_ring_id, initial_vertex_id, inserted_vertex_id, added_ring_id,
  added_part_id, add_ring_vertex_id, add_part_ring_id, add_part_vertex_id,
}
use geo_crdt.Clock.OpRef.{OpRef}
use geo_crdt.Clock.Stamp.{Stamp_discrete}
use geo_crdt.Clock.Vector.{VectorClock}
use geo_crdt.Ops.Kinds.{GeometryType, point, line_string, polygon, is_multi, part_type, type_eq}
use geo_crdt.Seq.Key.{SeqKey, set_key_before}
use geo_crdt.Seq.Vertices.{VertexSeq, Element, new_vertex_seq, has_vertex, insert_vertex}
use geo_crdt.Seq.Walk.{walk}
use geo_crdt.Geometry.Parse.{parse_position}
use geo_crdt.Snapshot.{VertexSnapshot, RingSnapshot, PartSnapshot, GeometrySnapshot}
use geo_crdt.Snapshot.Checks.{validate_snapshot_key, validate_optional_snapshot_stamp}
use geo_crdt.Snapshot.Restore.{is_known_type, delete_if}

-- `stampRef`
abbrev stamp_ref : SeqKey → OpRef
stamp_ref key = record { site_id = key.stamp.site_id; seq = key.stamp.seq }

-- `a == b` on keys.
abbrev key_eq : SeqKey → SeqKey → Bool
key_eq a b =
    (if a.initial then b.initial else not b.initial)
    && (a.pos == b.pos)
    && ite (Stamp_discrete a.stamp b.stamp) true false

-- `_, duplicate := ids[id]`
unfoldable pub is_taken : String → List String → Bool
is_taken id [] = false
is_taken id (other ∷ ids) = text_eq other id || is_taken id ids

-- `siblingKeys[parent][key]`, with the keys of all parents in one list.
unfoldable pub is_taken_key : String → SeqKey → List (String × SeqKey) → Bool
unfolding Stamp_discrete
is_taken_key parent key [] = false
is_taken_key parent key ((p, k) ∷ keys) =
    (text_eq p parent && key_eq k key) || is_taken_key parent key keys

-- The ID that an initial vertex at a position has.
unfoldable pub initial_id : SeqKey → SeqKey → ℕ → String
unfolding initial_vertex_id add_part_vertex_id add_ring_vertex_id
initial_id part_key ring_key i =
    if ring_key.initial
    then (if part_key.initial
        then initial_vertex_id ring_key.pos i
        else add_part_vertex_id (stamp_ref part_key) ring_key.pos i)
    else add_ring_vertex_id (stamp_ref ring_key) i

unfoldable pub expected_vertex_id : SeqKey → SeqKey → SeqKey → String
unfolding initial_id inserted_vertex_id
expected_vertex_id part_key ring_key key =
    if key.initial
    then initial_id part_key ring_key key.pos
    else inserted_vertex_id key.stamp.site_id key.stamp.seq

-- The parent of an initial vertex is the one before it.
unfoldable pub expected_parent : SeqKey → SeqKey → ℕ → String
unfolding initial_id
expected_parent part_key ring_key zero = ""
expected_parent part_key ring_key (suc i) = initial_id part_key ring_key i

-- The variables of the loop over the vertices.
pub record RingCheck : Type 0 where
  pub seq : VertexSeq
  pub sibling_keys : List (String × SeqKey)
  pub visible : ℕ

module _ (clock : ℕ) (applied : VectorClock) where
  -- One round of the loop of `validateRingSnapshot` over the vertices.
  unfoldable pub check_vertex : SeqKey → SeqKey → ℕ → RingCheck → VertexSnapshot → Result RingCheck
  unfolding is_blank has_vertex validate_snapshot_key expected_parent expected_vertex_id
      parse_position validate_optional_snapshot_stamp is_taken_key insert_vertex delete_if
  check_vertex part_key ring_key dims c v = do
    refuse_if (is_blank v.id) plain
    refuse_if (not (text_eq v.parent "") && not (has_vertex c.seq v.parent)) plain
    key ← validate_snapshot_key clock applied v.key
    refuse_if (key.initial && not (text_eq v.parent (expected_parent part_key ring_key key.pos)))
        plain
    refuse_if (not (text_eq v.id (expected_vertex_id part_key ring_key key))) plain
    refuse_if (not (length v.coord == dims)) plain
    (coord, _) ← parse_position v.coord
    validate_optional_snapshot_stamp clock applied v.move_reg
    refuse_if (is_taken_key v.parent key c.sibling_keys) plain
    let (inserted, is_new) = insert_vertex c.seq v.id v.parent key coord
    refuse_if (not is_new) plain
    ok (record {
      seq = delete_if v.deleted inserted v.id;
      sibling_keys = (v.parent, key) ∷ c.sibling_keys;
      visible = if v.deleted then c.visible else c.visible + 1;
    })

  unfoldable pub check_vertices :
      SeqKey → SeqKey → ℕ → RingCheck → List VertexSnapshot → Result RingCheck
  unfolding check_vertex
  check_vertices part_key ring_key dims c [] = ok c
  check_vertices part_key ring_key dims c (v ∷ vertices) = do
    c' ← check_vertex part_key ring_key dims c v
    check_vertices part_key ring_key dims c' vertices

  -- The loop over the IDs in canonical order.
  unfoldable pub is_canonical : List Element → List VertexSnapshot → Bool
  is_canonical [] vertices = true
  is_canonical (el ∷ els) [] = false
  is_canonical (el ∷ els) (v ∷ vertices) = text_eq v.id el.id && is_canonical els vertices

  unfoldable pub validate_ring_snapshot :
      RingSnapshot → SeqKey → SeqKey → ℕ → GeometryType → Result (Unit {0})
  unfolding check_vertices is_canonical walk
  validate_ring_snapshot ring part_key ring_key dims typ = do
    c ←
        check_vertices part_key ring_key dims
          (record { seq = new_vertex_seq; sibling_keys = []; visible = 0 }) ring.vertices
    refuse_if (not (is_canonical (walk c.seq) ring.vertices)) plain
    refuse_if (type_eq typ point && (not (length ring.vertices == 1) || not (c.visible == 1))) plain

  -- The ID that the key of a ring gives it, and whether a ring can have such a key.
  unfoldable pub is_ring_id : GeometryType → SeqKey → SeqKey → ℕ → String → Bool
  unfolding initial_ring_id add_part_ring_id added_ring_id
  is_ring_id typ part_key key index id =
      if key.initial
      then (key.pos == index)
        && text_eq id (
            if part_key.initial
            then initial_ring_id part_key.pos key.pos
            else add_part_ring_id (stamp_ref part_key) key.pos)
      else type_eq typ polygon && text_eq id (added_ring_id key.stamp.site_id key.stamp.seq)

  -- `index > 0 && !setKeyBefore(previous, key)`
  unfoldable pub is_out_of_order : Option SeqKey → SeqKey → Bool
  unfolding set_key_before
  is_out_of_order none key = false
  is_out_of_order (some previous) key = not (set_key_before previous key)

  -- The loop of `validatePartSnapshot` over the rings.
  unfoldable pub check_rings :
      PartSnapshot
      → SeqKey
      → ℕ
      → List String
      → Option SeqKey
      → ℕ
      → List RingSnapshot
      → Result (Unit {0})
  unfolding is_blank is_taken validate_snapshot_key is_out_of_order is_ring_id
      validate_ring_snapshot
  check_rings part part_key dims ids previous index [] = ok tt
  check_rings part part_key dims ids previous index (ring ∷ rings) = do
    refuse_if (is_blank ring.id) plain
    refuse_if (is_taken ring.id ids) plain
    key ← validate_snapshot_key clock applied ring.key
    refuse_if (is_out_of_order previous key) plain
    refuse_if (not (is_ring_id part.typ part_key key index ring.id)) plain
    let exterior = type_eq part.typ polygon && (index == 0)
    refuse_if (if ring.exterior then not exterior else exterior) plain
    refuse_if (ring.exterior && ring.deleted) plain
    validate_ring_snapshot ring part_key key dims part.typ
    check_rings part part_key dims (ring.id ∷ ids) (some key) (suc index) rings

  -- How many rings a part of the type has.
  unfoldable pub has_ring_count : GeometryType → ℕ → Bool
  has_ring_count point n = n == 1
  has_ring_count line_string n = n == 1
  has_ring_count polygon n = not (n == 0)
  has_ring_count _ n = true

  unfoldable pub validate_part_snapshot : PartSnapshot → SeqKey → ℕ → Result (Unit {0})
  unfolding has_ring_count check_rings
  validate_part_snapshot part part_key dims = do
    refuse_if (not (has_ring_count part.typ (length part.rings))) plain
    check_rings part part_key dims [] none 0 part.rings

  -- The ID that the key of a part gives it, and whether a part can have such a key.
  unfoldable pub is_part_id : GeometryType → SeqKey → ℕ → String → Bool
  unfolding initial_part_id added_part_id is_multi
  is_part_id typ key index id =
      if key.initial
      then (key.pos == index) && text_eq id (initial_part_id key.pos)
      else is_multi typ && text_eq id (added_part_id key.stamp.site_id key.stamp.seq)

  -- The loop of `validateGeometrySnapshot` over the parts.
  unfoldable pub check_parts :
      GeometrySnapshot → List String → Option SeqKey → ℕ → List PartSnapshot → Result (Unit {0})
  unfolding is_blank is_taken validate_snapshot_key is_out_of_order is_part_id is_multi part_type
      validate_part_snapshot
  check_parts g ids previous index [] = ok tt
  check_parts g ids previous index (part ∷ parts) = do
    refuse_if (is_blank part.id) plain
    refuse_if (is_taken part.id ids) plain
    key ← validate_snapshot_key clock applied part.key
    refuse_if (is_out_of_order previous key) plain
    refuse_if (not (is_part_id g.typ key index part.id)) plain
    refuse_if (not (type_eq part.typ (part_type g.typ))) plain
    refuse_if (not (is_multi g.typ) && part.deleted) plain
    validate_part_snapshot part key g.dims
    check_parts g (part.id ∷ ids) (some key) (suc index) parts

  unfoldable pub validate_geometry_snapshot : GeometrySnapshot → Result (Unit {0})
  unfolding is_known_type is_multi check_parts
  validate_geometry_snapshot g = do
    refuse_if (not (g.dims == 2) && not (g.dims == 3)) plain
    refuse_if (not (is_known_type g.typ)) plain
    refuse_if (not (is_multi g.typ) && not (length g.parts == 1)) plain
    check_parts g [] none 0 g.parts
