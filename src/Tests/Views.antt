-- ===== src/Tests/Views.antt =====
-- A document with a visible feature and a deleted one.
use geo_crdt.Common.{String, true, [], ◌∷◌, ◌↔◌}
use geo_crdt.Common.Texts.{text_lt}
use geo_crdt.Common.Sorted.{In, IsSorted}
use geo_crdt.Document.State.{FeatureState, Document}
use geo_crdt.Document.View.{feature_ids}
use geo_crdt.Document.View.Order.{IsListed, feature_ids_lem}
use geo_crdt.Tests.Documents.{replica, river}

abbrev lake : FeatureState
lake = record river {
  is_base = true;
  id = "lake";
  delete_reg = record { timestamp = 9; site_id = "b"; seq = 4 };
}

abbrev atlas : Document
atlas = record replica {
  features = ("river", record river { is_base = true }) ∷ ("lake", lake) ∷ [];
}

feature_ids_lem_example :
    IsSorted text_lt (feature_ids atlas)
    × ((id : String) → In id (feature_ids atlas) ↔ IsListed atlas.features id)
feature_ids_lem_example = feature_ids_lem atlas
