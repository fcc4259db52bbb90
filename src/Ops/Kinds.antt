-- ===== src/Ops/Kinds.antt =====
-- types.go and ops.go: geometry types, coordinate layouts and operation names. A Go string type
-- holds any text, so each has a constructor for the names that the library does not know.
use geo_crdt.Common.{
  ℕ, String, Bool, true, false, not, ◌&&◌, ◌||◌, List, [], ◌∷◌, leb, ◌==◌, if◌then◌else◌,
}
use geo_crdt.Common.Texts.{text_eq}
use geo_crdt.Float.{Float, float_eq}

pub data GeometryType : Type 0 where
  point multi_point line_string multi_line polygon multi_polygon : GeometryType
  other_type : String → GeometryType

-- `GeometryType(header.Type)`
unfoldable pub geometry_type_of : String → GeometryType
geometry_type_of s =
    if text_eq s "Point"
    then point
    else if text_eq s "MultiPoint"
    then multi_point
    else if text_eq s "LineString"
    then line_string
    else if text_eq s "MultiLineString"
    then multi_line
    else if text_eq s "Polygon"
    then polygon
    else if text_eq s "MultiPolygon"
    then multi_polygon
    else other_type s

unfoldable pub is_multi : GeometryType → Bool
is_multi multi_point = true
is_multi multi_line = true
is_multi multi_polygon = true
is_multi _ = false

unfoldable pub part_type : GeometryType → GeometryType
part_type multi_point = point
part_type multi_line = line_string
part_type multi_polygon = polygon
part_type t = t

-- `a == b` on geometry types.
abbrev pub type_eq : GeometryType → GeometryType → Bool
type_eq point point = true
type_eq multi_point multi_point = true
type_eq line_string line_string = true
type_eq multi_line multi_line = true
type_eq polygon polygon = true
type_eq multi_polygon multi_polygon = true
type_eq (other_type s) (other_type t) = text_eq s t
type_eq _ _ = false

pub data CoordinateLayout : Type 0 where
  xy xyz : CoordinateLayout
  other_layout : String → CoordinateLayout

unfoldable pub layout_for_dimensions : ℕ → CoordinateLayout
layout_for_dimensions dims = if dims == 3 then xyz else xy

-- The zero layout is the empty text.
pub record Coord : Type 0 where
  pub x : Float
  pub y : Float
  pub z : Float
  pub layout : CoordinateLayout

-- `Coord.Position`
unfoldable pub position_of : Coord → ℕ → List Float
position_of c dims = if leb 3 dims then c.x ∷ c.y ∷ c.z ∷ [] else c.x ∷ c.y ∷ []

abbrev is_layout : CoordinateLayout → CoordinateLayout → Bool
is_layout xy xy = true
is_layout xyz xyz = true
is_layout (other_layout s) (other_layout t) = text_eq s t
is_layout _ _ = false

unfoldable pub operation_position : Coord → List Float
unfolding float_eq
operation_position c =
    if is_layout c.layout xyz || (is_layout c.layout (other_layout "") && not (float_eq c.z 0))
    then c.x ∷ c.y ∷ c.z ∷ []
    else if not (is_layout c.layout (other_layout "")) && not (is_layout c.layout xy)
    then []
    else c.x ∷ c.y ∷ []

pub data GeometryOpAction : Type 0 where
  insert_vertex move_vertex delete_vertex add_ring remove_ring add_part remove_part :
      GeometryOpAction
  other_action : String → GeometryOpAction

pub data DocumentOpType : Type 0 where
  insert_feature delete_feature set_geometry set_property delete_property edit_geometry :
      DocumentOpType
  other_op : String → DocumentOpType
