-- ===== src/Tests/Snapshots.antt =====
-- Snapshots of a point, of a feature and of a whole document.
use geo_crdt.Common.{
  ℕ_discrete, String, ◌≡◌, ◌≤◌, ◌↔◌, refl, true, false, none, some, pos, [], ◌∷◌, has, lookup,
  insert, erase,
}
use geo_crdt.Common.Texts.{String_discrete}
use geo_crdt.Common.Decimal.{is_blank}
use geo_crdt.Errors.{ok}
use geo_crdt.Float.{is_finite}
use geo_crdt.Seq.Search.{insert_sorted}
use geo_crdt.Clock.Limits.{inc}
use geo_crdt.Clock.OpRef
use geo_crdt.Clock.OpRef.{OpRef, OpRef_discrete}
use geo_crdt.Clock.Vector.{seq_of}
use geo_crdt.Clock.Frontier.{advance, restage, staged_at}
use geo_crdt.Ops.GeometryOp.{validate_identity}
use geo_crdt.Ops.Kinds.{point}
use geo_crdt.Geometry.State.{GeometryState}
use geo_crdt.Document.State.{RefSet, FeatureState, Document}
use geo_crdt.Document.Base.{CanonicalBase}
use geo_crdt.Document.New.{Fresh}
use geo_crdt.Snapshot.{GeometrySnapshot, Snapshot}
use geo_crdt.Snapshot.Take.{snapshot_optional, snapshot_feature}
use geo_crdt.Snapshot.Restore.{restore_geometry, restore_optional, restore_feature}
use geo_crdt.Snapshot.Shape.{validate_geometry_snapshot}
use geo_crdt.Snapshot.Progress.{restore_geometry-validate_geometry_snapshot}
use geo_crdt.Snapshot.Features.{IsFeature, restore_feature-snapshot_feature}
use geo_crdt.Snapshot.Load.{document_from_snapshot}
use geo_crdt.Snapshot.Load.Resume.{document_from_snapshot-resumed}
use geo_crdt.Tests.Documents.{set_name, river, rename, digest}

-- A point at the origin, in a base.
abbrev origin : GeometrySnapshot
origin = record {
  typ = point;
  dims = 2;
  parts =
      record {
        id = "part:0";
        key = record { init = some (pos 0); stamp = none };
        typ = point;
        deleted = false;
        rings =
            record {
              id = "ring:0:0";
              key = record { init = some (pos 0); stamp = none };
              exterior = false;
              deleted = false;
              vertices =
                  record {
                    id = "init:0:0";
                    parent = "";
                    key = record { init = some (pos 0); stamp = none };
                    coord = 0 ∷ 0 ∷ [];
                    deleted = false;
                    move_reg = none;
                  }
                  ∷ [];
            }
            ∷ [];
      }
      ∷ [];
}

origin-valid : validate_geometry_snapshot 5 [] origin ≡ ok tt
unfolding validate_geometry_snapshot String_discrete is_blank lookup insert is_finite insert_sorted
origin-valid = refl

restore_geometry-validate_geometry_snapshot_example :
    (s : GeometryState) × (restore_geometry origin ≡ ok s) × (s.typ ≡ point) × (s.dims ≡ 2)
restore_geometry-validate_geometry_snapshot_example =
    restore_geometry-validate_geometry_snapshot 5 [] origin origin-valid

-- A feature that was created by an operation.
abbrev named : FeatureState
named = record river {
  create_reg = record { timestamp = 1; site_id = "a"; seq = 1 };
  gen_id = record { site_id = "a"; seq = 1 };
  gen_stamp = record { timestamp = 1; site_id = "a"; seq = 1 };
  seen_gens = (record { site_id = "a"; seq = 1 }, tt) ∷ [];
  properties = ("name", (rename "b" 2 "Rhine").state) ∷ [];
}

named-IsFeature : IsFeature named
unfolding OpRef.is_set OpRef_discrete String_discrete ℕ_discrete lookup
named-IsFeature = record { unset = λ e. cc; seen = λ e. refl; base = refl }

named-restored : restore_optional (snapshot_optional named.geometry) ≡ ok none
unfolding restore_optional snapshot_optional
named-restored = refl

restore_feature-snapshot_feature_example :
    (seen : RefSet) × (restore_feature (snapshot_feature named)
      ≡ ok (record named { geometry = none; seen_gens = seen }))
    × ((r : OpRef)
        → (has OpRef_discrete r seen ≡ true) ↔ (has OpRef_discrete r named.seen_gens ≡ true))
restore_feature-snapshot_feature_example =
    restore_feature-snapshot_feature named none named-IsFeature named-restored

-- A snapshot of site b with one operation that was not sent yet.
abbrev shot : Snapshot
shot = record {
  version = 3;
  id = "s1";
  document_id = "map";
  site_id = "b";
  base_hash = "base";
  clock = 2;
  vector_clock = ("b", 1) ∷ [];
  applied = ("b", 1) ∷ [];
  synced_through = 0;
  outbox_ops = set_name "b" 1 2 "Rhine" ∷ [];
  features = [];
  retained_ops = [];
  pending_ops = [];
}

abbrev base_digest : CanonicalBase → String
base_digest base = "empty"

abbrev fresh : Fresh
fresh = record { document_id = "fresh"; site_id = "c" }

abbrev loaded : Document
loaded = record {
  document_id = "map";
  site_id = "b";
  clock = 2;
  local_seq = 1;
  base_hash = "base";
  features = [];
  ops = set_name "b" 1 2 "Rhine" ∷ [];
  seen = (record { site_id = "b"; seq = 1 }, 7) ∷ [];
  frontier = record { frontier = ("b", 1) ∷ []; staged = [] };
  compacted = ("b", 1) ∷ [];
  synced_through = 0;
  issued_through = 0;
  pending_gen = [];
}

shot-loaded : document_from_snapshot digest base_digest fresh "b" shot ≡ ok loaded
unfolding document_from_snapshot String_discrete OpRef_discrete ℕ_discrete validate_identity
    is_blank lookup insert inc advance restage staged_at erase
shot-loaded = refl

document_from_snapshot-resumed_example :
    (seq_of shot.applied loaded.site_id ≤ loaded.local_seq)
    × (seq_of shot.vector_clock loaded.site_id ≤ loaded.local_seq)
    × (loaded.clock ≡ shot.clock)
    × (loaded.base_hash ≡ shot.base_hash)
    × (loaded.compacted ≡ shot.vector_clock)
document_from_snapshot-resumed_example =
    document_from_snapshot-resumed digest base_digest fresh "b" shot loaded shot-loaded
