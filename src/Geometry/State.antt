-- ===== src/Geometry/State.antt =====
-- geometry.go: the state of a geometry, dependencies, and what can happen to an operation.
use geo_crdt.Common.{
  ℕ, String, Bool, Option, none, some, List, [], ◌∷◌, Map, if◌then◌else◌, ap, refl,
}
use geo_crdt.Common.Texts.{String_discrete, text_eq}
use geo_crdt.Float.{Float}
use geo_crdt.Clock.OpRef.{OpRef}
use geo_crdt.Ops.Kinds.{GeometryType}
use geo_crdt.Ops.GeometryOp.{GeometryOp}
use geo_crdt.Seq.Key.{SeqKey}
use geo_crdt.Seq.Vertices.{VertexSeq}

pub record RingState : Type 0 where
  pub id : String
  pub key : SeqKey
  pub exterior : Bool
  pub deleted : Bool
  pub seq : VertexSeq

-- `rings` and `ringsByID` hold the same pointers: a ring is found by its ID in the slice.
pub record PartState : Type 0 where
  pub id : String
  pub key : SeqKey
  pub typ : GeometryType
  pub deleted : Bool
  pub rings : List RingState

pub data DepKind : Type 0 where
  dep_part dep_ring dep_vertex : DepKind

pub record DepKey : Type 0 where
  pub kind : DepKind
  pub part_id : String
  pub ring_id : String
  pub id : String

unfoldable pub DepKind_discrete : Discrete DepKind
DepKind_discrete dep_part dep_part = yes refl
DepKind_discrete dep_part dep_ring = no (λ e. cc)
DepKind_discrete dep_part dep_vertex = no (λ e. cc)
DepKind_discrete dep_ring dep_part = no (λ e. cc)
DepKind_discrete dep_ring dep_ring = yes refl
DepKind_discrete dep_ring dep_vertex = no (λ e. cc)
DepKind_discrete dep_vertex dep_part = no (λ e. cc)
DepKind_discrete dep_vertex dep_ring = no (λ e. cc)
DepKind_discrete dep_vertex dep_vertex = yes refl

unfoldable pub DepKey_discrete : Discrete DepKey
unfolding DepKind_discrete
DepKey_discrete a b = elim (DepKind_discrete a.kind b.kind) [
  | no n ↦ no (λ e. n (ap (λ (d : DepKey). d.kind) e))
  | yes p ↦ elim (String_discrete a.part_id b.part_id) [
    | no n ↦ no (λ e. n (ap (λ (d : DepKey). d.part_id) e))
    | yes q ↦ elim (String_discrete a.ring_id b.ring_id) [
      | no n ↦ no (λ e. n (ap (λ (d : DepKey). d.ring_id) e))
      | yes r ↦ elim (String_discrete a.id b.id) [
        | no n ↦ no (λ e. n (ap (λ (d : DepKey). d.id) e))
        | yes s ↦ yes (λ i. record { kind = p i; part_id = q i; ring_id = r i; id = s i })
      ]
    ]
  ]
]

-- The coordinates of an export, before they are encoded as JSON text.
pub data Coordinates : Type 0 where
  position : List Float → Coordinates
  line : List (List Float) → Coordinates
  nested_lines : List (List (List Float)) → Coordinates
  nested_polygons : List (List (List (List Float))) → Coordinates

pub record GeoJson : Type 0 where
  pub typ : GeometryType
  pub coordinates : Coordinates

-- `parts` and `partsByID` hold the same pointers. A cache of `none` is dirty.
pub record GeometryState : Type 0 where
  pub typ : GeometryType
  pub dims : ℕ
  pub parts : List PartState
  pub pending : Map DepKey (List GeometryOp)
  pub cache : Option GeoJson

-- Why an operation is quarantined; the Go code gives a text.
pub data Reason : Type 0 where
  unknown_action missing_part missing_ring point_supports_move_only layout_mismatch : Reason
  not_finite add_ring_needs_polygon bad_ring_coordinates too_few_positions exterior_ring : Reason
  simple_geometry bad_part_geometry wrong_part_type bad_geometry unknown_op_type : Reason
  foreign_generation no_base_generation compacted_generation not_a_generation no_geometry : Reason

pub data ApplyResult : Type 0 where
  applied duplicate superseded : ApplyResult
  buffered : DepKey → ApplyResult
  quarantined : Reason → ApplyResult

-- A drained operation and what happened to it.
pub record OpOutcome : Type 0 where
  pub ref : OpRef
  pub outcome : ApplyResult

-- `partsByID[id]` and `ringsByID[id]`
unfoldable pub find_part : String → List PartState → Option PartState
find_part id [] = none
find_part id (p ∷ parts) = if text_eq p.id id then some p else find_part id parts

unfoldable pub find_ring : String → List RingState → Option RingState
find_ring id [] = none
find_ring id (r ∷ rings) = if text_eq r.id id then some r else find_ring id rings

-- The write through the pointer that the map holds.
unfoldable pub put_part : PartState → List PartState → List PartState
put_part q [] = []
put_part q (p ∷ parts) = if text_eq p.id q.id then q ∷ parts else p ∷ put_part q parts

unfoldable pub put_ring : RingState → List RingState → List RingState
put_ring q [] = []
put_ring q (r ∷ rings) = if text_eq r.id q.id then q ∷ rings else r ∷ put_ring q rings
