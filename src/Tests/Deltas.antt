-- ===== src/Tests/Deltas.antt =====
-- A delta that is made by one replica and merged by another.
use geo_crdt.Common.{◌≡◌, ◌<◌, refl, arith, [], ◌∷◌, length, insert, lookup, erase}
use geo_crdt.Common.Texts.{String_discrete}
use geo_crdt.Common.Decimal.{is_blank}
use geo_crdt.Errors.{ok}
use geo_crdt.Clock.Limits.{inc, max_timestamp}
use geo_crdt.Clock.Frontier.{advance, restage, staged_at}
use geo_crdt.Ops.GeometryOp.{validate_identity}
use geo_crdt.Document.State.{Document, knowledge}
use geo_crdt.Document.Merge.Idempotence.{all_duplicates}
use geo_crdt.Sync.Delta.{Delta, wire, delta_since, merge_delta}
use geo_crdt.Sync.Delta.Again.{merge_delta-again}
use geo_crdt.Sync.Delta.Bounds.{merge_delta-bound}
use geo_crdt.Sync.Delta.Contents.{delta_since-IsSelection}
use geo_crdt.Ops.DocumentOp.Beyond.{IsSelection}
use geo_crdt.Tests.Documents.{set_name, replica, digest, merged, merged_result}

-- The replica of site b, which has issued the operation that the replica of site a lacks.
abbrev peer : Document
peer = record replica {
  site_id = "b";
  clock = 2;
  ops = set_name "b" 1 2 "Rhine" ∷ [];
  seen = (record { site_id = "b"; seq = 1 }, 7) ∷ [];
  frontier = record { frontier = ("b", 1) ∷ []; staged = [] };
}

abbrev delta : Delta
delta = delta_since peer (knowledge replica)

replica-merge_delta : merge_delta digest replica delta ≡ ok (merged, merged_result)
unfolding merge_delta delta_since validate_identity is_blank String_discrete lookup insert inc
    advance restage staged_at erase
replica-merge_delta = refl

merge_delta-again_example :
    merge_delta digest merged delta ≡ ok (merged, all_duplicates (length delta.ops))
merge_delta-again_example =
    merge_delta-again digest replica merged delta merged_result replica-merge_delta

merge_delta-bound_example : merged.clock < max_timestamp
merge_delta-bound_example =
    merge_delta-bound digest replica merged delta merged_result replica-merge_delta (omega arith)

delta_since-IsSelection_example :
    IsSelection wire (knowledge replica) peer.ops (delta_since peer (knowledge replica)).ops
delta_since-IsSelection_example = delta_since-IsSelection peer (knowledge replica)
