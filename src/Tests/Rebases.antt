-- ===== src/Tests/Rebases.antt =====
-- A rebase of a document with a visible and a deleted feature.
use geo_crdt.Common.{String, ◌≡◌, refl, true, [], ◌∷◌, Map, lookup, insert, inl, arith}
use geo_crdt.Common.Texts.{String_discrete}
use geo_crdt.Common.Decimal.{is_blank}
use geo_crdt.Errors.{ok}
use geo_crdt.Json
use geo_crdt.Json.{Raw}
use geo_crdt.Clock.OpRef
use geo_crdt.Clock.Vector.{seq_of}
use geo_crdt.Clock.Frontier.{new_frontier_clock}
use geo_crdt.Clock.Stamp
use geo_crdt.Geometry.State.{GeoJson}
use geo_crdt.Document.State.{FeatureState, Document}
use geo_crdt.Document.Base.{CanonicalBase}
use geo_crdt.Snapshot.Take.{snapshot_locked}
use geo_crdt.Rebase.{RebaseReceipt, rebase}
use geo_crdt.Rebase.Laws.{IsLogged, IsStable, rebase-IsStable}
use geo_crdt.Rebase.View.{AreMaps, view, rebase-view}
use geo_crdt.Tests.Documents.{replica, river, rename, set_name}

abbrev encode : GeoJson → Raw
encode g = Json.empty

abbrev base_digest : CanonicalBase → String
base_digest base = "next"

abbrev features : Map String FeatureState
features =
    (
      "river",
      record river {
        create_reg = record { timestamp = 1; site_id = "a"; seq = 1 };
        properties = ("name", (rename "b" 2 "Rhine").state) ∷ [];
      },
    )
    ∷ (
      "lake",
      record river { id = "lake"; delete_reg = record { timestamp = 3; site_id = "a"; seq = 2 } },
    )
    ∷ []

abbrev settled : Document
settled = record replica {
  local_seq = 2;
  synced_through = 2;
  features = features;
  ops = set_name "a" 1 1 "Aare" ∷ set_name "a" 2 3 "Aare" ∷ [];
  frontier = record { frontier = ("a", 2) ∷ []; staged = [] };
}

settled-IsLogged : IsLogged settled
unfolding lookup String_discrete seq_of
settled-IsLogged =
    ((inl (omega arith), (inl (omega arith), tt)), (λ e. omega arith, (λ e. omega arith, tt)))

abbrev next : Document
next = record settled {
  document_id = "map2";
  clock = 0;
  local_seq = 0;
  base_hash = "next";
  features =
      (
        "river",
        record river {
          is_base = true;
          seen_gens = (OpRef.zero_ref, tt) ∷ [];
          properties =
              ("name", record ((rename "b" 2 "Rhine").state) { reg = Stamp.zero_stamp }) ∷ [];
        },
      )
      ∷ [];
  ops = [];
  frontier = new_frontier_clock;
  synced_through = 0;
}

abbrev receipt : RebaseReceipt
receipt = record {
  previous_document_id = "map";
  document_id = "map2";
  previous_base_hash = "";
  base_hash = "next";
  stable_clock = ("a", 2) ∷ [];
  snapshot = snapshot_locked next "s1";
}

settled-rebase : rebase encode base_digest settled "map2" (("a", 2) ∷ []) "s1" ≡ ok (next, receipt)
unfolding rebase snapshot_locked String_discrete is_blank lookup insert
settled-rebase = refl

rebase-IsStable_example : IsStable settled (("a", 2) ∷ [])
rebase-IsStable_example =
    rebase-IsStable encode base_digest settled next "map2" "s1" (("a", 2) ∷ []) receipt
      settled-IsLogged settled-rebase

features-AreMaps : AreMaps features
unfolding lookup String_discrete
features-AreMaps = ((refl, (refl, tt)), ((refl, tt), (tt, tt)))

rebase-view_example :
    ((id : String) → view next.features id ≡ view settled.features id)
    × (next.ops ≡ [])
    × (next.clock ≡ 0)
    × (next.local_seq ≡ 0)
rebase-view_example =
    rebase-view encode base_digest settled next "map2" "s1" (("a", 2) ∷ []) receipt features-AreMaps
      settled-rebase
