-- ===== src/Rebase.antt =====
-- rebase.go. The encoding of an export as JSON text is the parameter `encode`. Go visits the features
-- by their sorted IDs; the order reaches nothing but the list that `computeBaseHash` sorts itself.
-- Where a feature is refused, the caches of exports that were filled before stay filled, which no
-- read can tell.
pub mod Laws
pub mod View
use geo_crdt.Common.{
  ℕ, String, Bool, true, false, not, ◌&&◌, ◌||◌, Option, none, some, List, [], ◌∷◌, Map, ◌==◌,
  if◌then◌else◌,
}
use geo_crdt.Common.Texts.{text_eq}
use geo_crdt.Common.Decimal.{trim_space}
use geo_crdt.Errors.{Result, ok, err, rebase_unsafe, refuse_if, rewrap, ◌>>=◌, ◌>>◌}
use geo_crdt.Json.{Raw}
use geo_crdt.Clock.Vector.{VectorClock, covered_by}
use geo_crdt.Clock.Frontier.{new_frontier_clock}
use geo_crdt.Geometry.State.{GeoJson, GeometryState}
use geo_crdt.Geometry.Parse.{new_geometry_state}
use geo_crdt.Geometry.Export.{geo_json}
use geo_crdt.Document.State.{PropertyState, FeatureState, Document, visible, knowledge}
use geo_crdt.Document.Base.{BaseFeature, CanonicalBase, compute_base_hash, base_state}
use geo_crdt.Sync.Delta.{validate_wire_vector_clock}
use geo_crdt.Snapshot.{Snapshot}
use geo_crdt.Snapshot.Take.{snapshot_locked}

pub record RebaseReceipt : Type 0 where
  pub previous_document_id : String
  pub document_id : String
  pub previous_base_hash : String
  pub base_hash : String
  pub stable_clock : VectorClock
  pub snapshot : Snapshot

abbrev is_nil {ℓ} : {A : Type ℓ} → List A → Bool
is_nil [] = true
is_nil (_ ∷ _) = false

-- `feature.geometry != nil && len(feature.geometry.pending) != 0`
abbrev is_waiting : FeatureState → Bool
is_waiting f = elim f.geometry [ none ↦ false | some g ↦ not (is_nil g.pending) ]

-- The loop over the features that looks for unresolved dependencies.
unfoldable pub any_waiting : Map String FeatureState → Bool
any_waiting [] = false
any_waiting ((_, f) ∷ features) = is_waiting f || any_waiting features

-- The conditions of `Rebase`, with the trimmed document ID.
unfoldable pub check_rebase : Document → String → VectorClock → Result (Unit {0})
unfolding validate_wire_vector_clock covered_by knowledge any_waiting
check_rebase d document_id stable_clock = do
  refuse_if (text_eq document_id "") rebase_unsafe
  refuse_if (text_eq document_id d.document_id) rebase_unsafe
  rewrap rebase_unsafe (validate_wire_vector_clock stable_clock)
  refuse_if
      (not (covered_by stable_clock (knowledge d)) || not (covered_by (knowledge d) stable_clock))
      rebase_unsafe
  refuse_if (not (is_nil d.frontier.staged)) rebase_unsafe
  refuse_if (not (d.synced_through == d.local_seq)) rebase_unsafe
  refuse_if (not (is_nil d.pending_gen)) rebase_unsafe
  refuse_if (any_waiting d.features) rebase_unsafe

-- The loop over the properties that are not deleted.
unfoldable pub live_properties : Map String PropertyState → Map String Raw
live_properties [] = []
live_properties ((key, p) ∷ rest) =
    let others = live_properties rest in if p.deleted then others else (key, p.value) ∷ others

module _ (encode : GeoJson → Raw) where
  -- The base feature of a visible feature.
  unfoldable pub to_base : String → FeatureState → BaseFeature
  unfolding live_properties geo_json
  to_base id f = record {
    id = id;
    geometry = elim f.geometry [ none ↦ none | some g ↦ some (encode (geo_json g).1) ];
    properties = live_properties f.properties;
  }

  -- Its state, where its geometry parses again.
  unfoldable pub rebase_feature : BaseFeature → Result FeatureState
  unfolding new_geometry_state base_state
  rebase_feature base = elim base.geometry [
    | none ↦ ok (base_state base none)
    | some raw ↦ do g ← rewrap rebase_unsafe (new_geometry_state raw); ok (base_state base (some g))
  ]

  -- `rebaseStateLocked`
  unfoldable pub rebase_state :
      Map String FeatureState → Result (List BaseFeature × Map String FeatureState)
  unfolding visible to_base rebase_feature
  rebase_state [] = ok ([], [])
  rebase_state ((id, f) ∷ features) = elim (visible f) [
    | false ↦ rebase_state features
    | true ↦ do
      state ← rebase_feature (to_base id f)
      (bases, replacement) ← rebase_state features
      ok (to_base id f ∷ bases, (id, state) ∷ replacement)
  ]

  module _ (base_digest : CanonicalBase → String) where
    -- The document of the new epoch.
    unfoldable pub next_epoch :
        Document → String → List BaseFeature → Map String FeatureState → Document
    unfolding compute_base_hash
    next_epoch d document_id bases replacement = record d {
      document_id = document_id;
      clock = 0;
      local_seq = 0;
      base_hash = compute_base_hash base_digest document_id bases;
      features = replacement;
      ops = [];
      seen = [];
      frontier = new_frontier_clock;
      compacted = [];
      synced_through = 0;
      issued_through = 0;
      pending_gen = [];
    }

    -- `Rebase`
    unfoldable pub rebase :
        Document → String → VectorClock → String → Result (Document × RebaseReceipt)
    unfolding trim_space check_rebase rebase_state next_epoch snapshot_locked
    rebase d new_document_id stable_clock snapshot_id = do
      check_rebase d (trim_space new_document_id) stable_clock
      (bases, replacement) ← rebase_state d.features
      let next = next_epoch d (trim_space new_document_id) bases replacement
      ok (
        next,
        record {
          previous_document_id = d.document_id;
          document_id = trim_space new_document_id;
          previous_base_hash = d.base_hash;
          base_hash = next.base_hash;
          stable_clock = stable_clock;
          snapshot = snapshot_locked next snapshot_id;
        },
      )
