-- ===== src/Document/Base.antt =====
-- geojson.go and document.go: base features, their hash, and the state of a feature of the base.
-- SHA-256 and the encoding as JSON text are not code of the library, so the digest of a canonical
-- base is the parameter `base_digest`.
use geo_crdt.Common.{String, Option, none, some, List, [], ◌∷◌, Map, sort_stable, Bool, true, false}
use geo_crdt.Common.Texts.{text_lt}
use geo_crdt.Errors.{ok, err}
use geo_crdt.Json.{Raw}
use geo_crdt.Clock.OpRef
use geo_crdt.Clock.Stamp
use geo_crdt.Identity.{canonical_payload_json}
use geo_crdt.Geometry.State.{GeoJson, GeometryState}
use geo_crdt.Geometry.Parse.{new_geometry_state}
use geo_crdt.Geometry.Export.{marshal_geo_json}
use geo_crdt.Document.State.{PropertyState, FeatureState}

-- `baseFeature`; a geometry of `none` is nil.
pub record BaseFeature : Type 0 where
  pub id : String
  pub geometry : Option Raw
  pub properties : Map String Raw

-- The geometry of a canonical feature: the engine's export, or the text that it does not take.
pub data CanonicalGeometry : Type 0 where
  absent : CanonicalGeometry
  exported : GeoJson → CanonicalGeometry
  verbatim : Raw → CanonicalGeometry

pub record CanonicalFeature : Type 0 where
  pub id : String
  pub geometry : CanonicalGeometry
  pub properties : Map String Raw

pub record CanonicalBase : Type 0 where
  pub document_id : String
  pub features : List CanonicalFeature

unfoldable pub canonical_geometry : Option Raw → CanonicalGeometry
unfolding new_geometry_state marshal_geo_json
canonical_geometry none = absent
canonical_geometry (some raw) = elim (new_geometry_state raw) [
  | ok g ↦ exported (marshal_geo_json g)
  | err _ ↦ verbatim raw
]

abbrev canonical_or_verbatim : Raw → Raw
canonical_or_verbatim raw = elim (canonical_payload_json raw) [ ok j ↦ j | err _ ↦ raw ]

unfoldable pub canonical_values : Map String Raw → Map String Raw
unfolding canonical_payload_json
canonical_values [] = []
canonical_values ((key, raw) ∷ rest) = (key, canonical_or_verbatim raw) ∷ canonical_values rest

abbrev key_less : String × Raw → String × Raw → Bool
key_less a b = text_lt a.0 b.0

unfoldable pub canonical_feature : BaseFeature → CanonicalFeature
unfolding canonical_geometry canonical_values sort_stable
canonical_feature f = record {
  id = f.id;
  geometry = canonical_geometry f.geometry;
  properties = canonical_values (sort_stable key_less f.properties);
}

unfoldable pub canonical_features : List BaseFeature → List CanonicalFeature
unfolding canonical_feature
canonical_features [] = []
canonical_features (f ∷ features) = canonical_feature f ∷ canonical_features features

abbrev base_less : BaseFeature → BaseFeature → Bool
base_less a b = text_lt a.id b.id

unfoldable pub compute_base_hash : (CanonicalBase → String) → String → List BaseFeature → String
unfolding canonical_features sort_stable
compute_base_hash base_digest document_id features = base_digest (record {
  document_id = document_id;
  features = canonical_features (sort_stable base_less features);
})

-- The loop that enters the properties of a base feature, which were never written.
unfoldable pub base_properties : Map String Raw → Map String PropertyState
base_properties [] = []
base_properties ((key, raw) ∷ rest) =
    (key, record { value = raw; deleted = false; reg = Stamp.zero_stamp }) ∷ base_properties rest

-- The state that `NewDocumentFromFeatureCollection` and `Rebase` give a feature of the base.
unfoldable pub base_state : BaseFeature → Option GeometryState → FeatureState
unfolding base_properties
base_state f geometry = record {
  id = f.id;
  is_base = true;
  create_reg = Stamp.zero_stamp;
  delete_reg = Stamp.zero_stamp;
  gen_id = OpRef.zero_ref;
  gen_stamp = Stamp.zero_stamp;
  geometry = geometry;
  seen_gens = (OpRef.zero_ref, tt) ∷ [];
  properties = base_properties f.properties;
}
