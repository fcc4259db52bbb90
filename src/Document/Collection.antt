-- ===== src/Document/Collection.antt =====
-- geojson.go: parsing a feature collection; document.go: `NewDocumentFromFeatureCollection`.
pub mod Distinct
pub mod Entered
use Prim.Native.String.{◌++◌}
use geo_crdt.Common.{
  ℕ, suc, String, Bool, not, Option, none, some, List, [], ◌∷◌, Map, insert, has, if◌then◌else◌,
}
use geo_crdt.Common.Texts.{text_eq, String_discrete}
use geo_crdt.Common.Decimal.{is_blank, decimal}
use geo_crdt.Errors.{Result, ok, err, invalid_geometry, refuse_if, ◌>>=◌, ◌>>◌}
use geo_crdt.Json.{
  Json, Items, Fields, Raw, null, text, number, array, object, nil, cons, end, field, value, empty,
  is_null_geometry, unmarshal, name_eq,
}
use geo_crdt.Geometry.State.{GeometryState}
use geo_crdt.Geometry.Parse.{new_geometry_state}
use geo_crdt.Document.State.{FeatureState, Document}
use geo_crdt.Document.Base.{BaseFeature, CanonicalBase, base_state, compute_base_hash}
use geo_crdt.Document.New.{Fresh, new_document}

-- The structs that the text is decoded into.
pub record WireFeature : Type 0 where
  pub type_name : String
  pub id : Raw
  pub geometry : Raw
  pub properties : Map String Raw

pub record WireCollection : Type 0 where
  pub type_name : String
  pub features : List WireFeature

abbrev pub zero_feature : WireFeature
zero_feature = record { type_name = ""; id = empty; geometry = empty; properties = [] }

abbrev pub zero_collection : WireCollection
zero_collection = record { type_name = ""; features = [] }

-- Into a `string`; `null` leaves what was there.
unfoldable pub decode_text : String → Json → Option String
decode_text old null = some old
decode_text old (text s) = some s
decode_text old _ = none

unfoldable pub enter_fields : Map String Raw → Fields → Map String Raw
enter_fields m end = m
enter_fields m (field name j fields) = enter_fields (insert String_discrete name (value j) m) fields

-- Into a `map[string]json.RawMessage`: entries are added to those there, and `null` leaves nil.
unfoldable pub decode_map : Map String Raw → Json → Option (Map String Raw)
unfolding enter_fields
decode_map old null = some []
decode_map old (object fields) = some (enter_fields old fields)
decode_map old _ = none

unfoldable pub decode_feature_field : WireFeature → String → Json → Option WireFeature
unfolding decode_text decode_map name_eq
decode_feature_field f name j =
    if name_eq name "type"
    then elim (decode_text f.type_name j) [
      | none ↦ none
      | some s ↦ some (record f { type_name = s })
    ]
    else if name_eq name "id"
    then some (record f { id = value j })
    else if name_eq name "geometry"
    then some (record f { geometry = value j })
    else if name_eq name "properties"
    then elim (decode_map f.properties j) [
      | none ↦ none
      | some m ↦ some (record f { properties = m })
    ]
    else some f

unfoldable pub decode_feature_fields : Option WireFeature → Fields → Option WireFeature
unfolding decode_feature_field
decode_feature_fields none fields = none
decode_feature_fields (some f) end = some f
decode_feature_fields (some f) (field name j fields) =
    decode_feature_fields (decode_feature_field f name j) fields

unfoldable pub decode_feature : WireFeature → Json → Option WireFeature
unfolding decode_feature_fields
decode_feature old null = some old
decode_feature old (object fields) = decode_feature_fields (some old) fields
decode_feature old _ = none

abbrev head_or_zero : List WireFeature → WireFeature
head_or_zero [] = zero_feature
head_or_zero (f ∷ _) = f

abbrev rest_of : List WireFeature → List WireFeature
rest_of [] = []
rest_of (_ ∷ fs) = fs

-- Into a slice: where a repeated field finds elements, they are decoded into.
unfoldable pub decode_feature_items : List WireFeature → Items → Option (List WireFeature)
unfolding decode_feature
decode_feature_items old nil = some []
decode_feature_items old (cons j items) =
    let rest = decode_feature_items (rest_of old) items in
    elim (decode_feature (head_or_zero old) j) [
      | none ↦ none
      | some f ↦ elim rest [ none ↦ none | some fs ↦ some (f ∷ fs) ]
    ]

unfoldable pub decode_feature_list : List WireFeature → Json → Option (List WireFeature)
unfolding decode_feature_items
decode_feature_list old null = some []
decode_feature_list old (array items) = decode_feature_items old items
decode_feature_list old _ = none

unfoldable pub decode_collection_field : WireCollection → String → Json → Option WireCollection
unfolding decode_text decode_feature_list name_eq
decode_collection_field c name j =
    if name_eq name "type"
    then elim (decode_text c.type_name j) [
      | none ↦ none
      | some s ↦ some (record c { type_name = s })
    ]
    else if name_eq name "features"
    then elim (decode_feature_list c.features j) [
      | none ↦ none
      | some fs ↦ some (record c { features = fs })
    ]
    else some c

unfoldable pub decode_collection_fields : Option WireCollection → Fields → Option WireCollection
unfolding decode_collection_field
decode_collection_fields none fields = none
decode_collection_fields (some c) end = some c
decode_collection_fields (some c) (field name j fields) =
    decode_collection_fields (decode_collection_field c name j) fields

unfoldable pub decode_collection : Json → Option WireCollection
unfolding decode_collection_fields
decode_collection null = some zero_collection
decode_collection (object fields) = decode_collection_fields (some zero_collection) fields
decode_collection _ = none

-- `parseFeatureID`. An ID that was decoded has no text behind its value.
unfoldable pub parse_feature_id : Raw → ℕ → Result String
unfolding decimal is_blank
parse_feature_id empty index = ok ("feature:" ++ decimal index)
parse_feature_id (value null) index = ok ("feature:" ++ decimal index)
parse_feature_id (value (text s)) index = if is_blank s then err invalid_geometry else ok s
parse_feature_id (value (number n)) index = ok n.lexeme
parse_feature_id _ index = err invalid_geometry

-- `if isNullGeometry(geometry) { geometry = nil }`
unfoldable pub geometry_or_nil : Raw → Option Raw
unfolding is_null_geometry
geometry_or_nil raw = if is_null_geometry raw then none else some raw

-- The loop of `parseFeatureCollection`, from the feature of the index.
unfoldable pub parse_features :
    Map String (Unit {0}) → ℕ → List WireFeature → Result (List BaseFeature)
unfolding parse_feature_id geometry_or_nil
parse_features seen index [] = ok []
parse_features seen index (f ∷ rest) = do
  refuse_if (not (text_eq f.type_name "Feature")) invalid_geometry
  id ← parse_feature_id f.id index
  refuse_if (has String_discrete id seen) invalid_geometry
  features ← parse_features (insert String_discrete id tt seen) (suc index) rest
  let parsed : BaseFeature = record {
    id = id;
    geometry = geometry_or_nil f.geometry;
    properties = f.properties;
  }
  ok (parsed ∷ features)

unfoldable pub parse_feature_collection : Raw → Result (List BaseFeature)
unfolding unmarshal decode_collection parse_features
parse_feature_collection raw = elim (unmarshal decode_collection raw) [
  | none ↦ err invalid_geometry
  | some c ↦ do
    refuse_if (not (text_eq c.type_name "FeatureCollection")) invalid_geometry
    parse_features [] 0 c.features
]

unfoldable pub base_geometry : Option Raw → Result (Option GeometryState)
unfolding new_geometry_state
base_geometry none = ok none
base_geometry (some raw) = do g ← new_geometry_state raw; ok (some g)

-- The loop of `NewDocumentFromFeatureCollection`.
unfoldable pub enter_features :
    Map String FeatureState → List BaseFeature → Result (Map String FeatureState)
unfolding base_geometry base_state
enter_features m [] = ok m
enter_features m (f ∷ rest) = do
  g ← base_geometry f.geometry
  enter_features (insert String_discrete f.id (base_state f g) m) rest

unfoldable pub new_document_from_feature_collection :
    (CanonicalBase → String) → Fresh → String → String → Raw → Result Document
unfolding parse_feature_collection new_document enter_features compute_base_hash
new_document_from_feature_collection base_digest fresh document_id site_id raw = do
  features ← parse_feature_collection raw
  let doc = new_document base_digest fresh document_id site_id
  states ← enter_features doc.features features
  ok (record doc {
    features = states;
    base_hash = compute_base_hash base_digest doc.document_id features;
  })
