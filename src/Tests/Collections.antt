-- ===== src/Tests/Collections.antt =====
-- A collection of two features without geometry, the second without an ID.
use geo_crdt.Common.{String, ◌≡◌, refl, All, List, lookup, insert}
use geo_crdt.Common.Texts.{String_discrete}
use geo_crdt.Errors.{ok, err}
use geo_crdt.Json.{Json, Raw, object, array, text, field, end, cons, nil, value}
use geo_crdt.Document.State.{Document}
use geo_crdt.Document.Base.{BaseFeature, CanonicalBase, compute_base_hash}
use geo_crdt.Document.New.{Fresh, new_document}
use geo_crdt.Document.Collection.{parse_feature_collection, new_document_from_feature_collection}
use geo_crdt.Document.Collection.Entered.{Has, new_document_from_feature_collection-Has}

abbrev feature_text : Json
feature_text = object (field "type" (text "Feature") end)

abbrev named_text : Json
named_text = object (field "type" (text "Feature") (field "id" (text "river") end))

abbrev collection_text : Raw
collection_text = value (
    object (
      field "type" (text "FeatureCollection")
        (field "features" (array (cons named_text (cons feature_text nil))) end)))

abbrev fresh_ids : Fresh
fresh_ids = record { document_id = "fresh"; site_id = "site" }

abbrev constant_digest : CanonicalBase → String
constant_digest base = "hash"

abbrev made : Document
unfolding new_document_from_feature_collection
made =
    elim (new_document_from_feature_collection constant_digest fresh_ids "map" "a"
      collection_text) [ ok d ↦ d | err _ ↦ new_document constant_digest fresh_ids "" "" ]

new_document_from_feature_collection-Has_example :
    (fs : List BaseFeature) × (parse_feature_collection collection_text ≡ ok fs)
    × All (Has made) fs
    × (made.base_hash ≡ compute_base_hash constant_digest made.document_id fs)
unfolding new_document_from_feature_collection String_discrete lookup insert
new_document_from_feature_collection-Has_example =
    new_document_from_feature_collection-Has constant_digest fresh_ids "map" "a" collection_text
      made refl
