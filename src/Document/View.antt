-- ===== src/Document/View.antt =====
-- document.go: the readers of a document that no view option changes.
pub mod Order
use geo_crdt.Common.{
  ℕ, String, Bool, Option, none, some, List, [], ◌∷◌, Map, lookup, if◌then◌else◌, sort_stable,
}
use geo_crdt.Common.Texts.{text_lt, String_discrete}
use geo_crdt.Errors.{Result, ok, err, invalid_command, ◌>>=◌}
use geo_crdt.Geometry.Export.{PartInfo, info, geometry_vertex_id_at}
use geo_crdt.Document.State.{FeatureState, Document, visible, visible_feature}

-- The loop of `featuresLocked` that collects the visible IDs.
unfoldable pub visible_ids : Map String FeatureState → List String
unfolding visible
visible_ids [] = []
visible_ids ((id, f) ∷ rest) = let ids = visible_ids rest in if visible f then id ∷ ids else ids

-- The IDs of `featuresLocked`, in the order in which it lists the features.
unfoldable pub feature_ids : Document → List String
unfolding visible_ids sort_stable
feature_ids d = sort_stable text_lt (visible_ids d.features)

-- `GeometryInfo`
unfoldable pub geometry_info : Document → String → Option (List PartInfo)
unfolding visible info
geometry_info d id = elim (lookup String_discrete id d.features) [
  | none ↦ none
  | some f ↦
      if visible f
      then elim f.geometry [ none ↦ none | some g ↦ some (info g.dims g.parts) ]
      else none
]

-- `Document.VertexIDAt`
unfoldable pub document_vertex_id_at : Document → String → String → String → ℕ → Result String
unfolding visible_feature geometry_vertex_id_at
document_vertex_id_at d id part_id ring_id index = do
  f ← visible_feature d id
  g ← elim f.geometry [ none ↦ err invalid_command | some g ↦ ok g ]
  geometry_vertex_id_at g part_id ring_id index
