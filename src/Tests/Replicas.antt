-- ===== src/Tests/Replicas.antt =====
-- A replica of a point that merges the removal of its part.
use geo_crdt.Common.{All, [], ◌∷◌, none, refl, ◌≡◌, ◌≤◌, ◌<◌, true, arith, lookup}
use geo_crdt.Common.Texts.{text_eq, String_discrete}
use geo_crdt.Common.Decimal.{is_blank}
use geo_crdt.Errors.{ok, err}
use geo_crdt.Json.{empty}
use geo_crdt.Ops.Kinds.{GeometryOpAction, multi_point}
use geo_crdt.Ops.GeometryOp.{GeometryOp}
use geo_crdt.Identity.{GeometryPayload, PayloadHash}
use geo_crdt.Document.Tally.{MergeResult}
use geo_crdt.Geometry.State.{GeometryState}
use geo_crdt.Replica.{GeometryCrdt, apply_local, merge, merge_ops}
use geo_crdt.Clock.Limits.{max_timestamp}
use geo_crdt.Replica.Bounds.{merge_ops-bound}
use geo_crdt.Replica.Counters.{IsCounted, apply_local-counters}
use geo_crdt.Replica.Frame.{IsMerged, merge-IsMerged}
use geo_crdt.Replica.Known.{Knows, merge-Knows}

abbrev places : GeometryState
places = record { typ = multi_point; dims = 2; parts = []; pending = []; cache = none }

abbrev removal : GeometryOp
removal = record {
  action = GeometryOpAction.remove_part;
  site_id = "b";
  seq = 1;
  timestamp = 5;
  part_id = "part:0";
  ring_id = "";
  vertex_id = "";
  after_vertex_id = "";
  coord = [];
  ring = [];
  part = empty;
}

abbrev local : GeometryCrdt
local = record {
  site_id = "a";
  clock = 4;
  local_seq = 2;
  init_hash = "base";
  state = places;
  ops = [];
  seen = [];
  synced_through = 0;
  issued_through = 0;
}

abbrev remote : GeometryCrdt
remote = record local { site_id = "b"; clock = 5; local_seq = 1; ops = removal ∷ [] }

abbrev constant_digest : GeometryPayload → PayloadHash
constant_digest payload = 7

-- The replica that the merge leaves: the removal waits for its part.
abbrev result : GeometryCrdt × MergeResult
unfolding merge
result = elim (merge constant_digest local remote) [
  | ok r ↦ r
  | err _ ↦ (
    local,
    record {
      applied_count = 0;
      duplicates = 0;
      superseded_refs = [];
      buffered_refs = [];
      quarantined_ops = [];
    },
  )
]

apply_local-counters_example : IsCounted local (apply_local constant_digest local removal)
apply_local-counters_example =
    apply_local-counters constant_digest local removal (omega arith) (omega arith)

merge-IsMerged_example :
    (text_eq remote.init_hash local.init_hash ≡ true)
    × IsMerged constant_digest local result.0
    × (remote.clock ≤ result.0.clock)
unfolding merge String_discrete is_blank lookup
merge-IsMerged_example = merge-IsMerged constant_digest local remote result refl

merge-Knows_example :
    All (Knows result.0) remote.ops × ((op : GeometryOp) → Knows local op → Knows result.0 op)
unfolding merge String_discrete is_blank lookup
merge-Knows_example = merge-Knows constant_digest local remote result refl

-- The replica that merges the operation alone.
abbrev taken : GeometryCrdt × MergeResult
unfolding merge_ops
taken = elim (merge_ops constant_digest local (removal ∷ [])) [ ok r ↦ r | err _ ↦ result ]

merge_ops-bound_example : taken.0.clock < max_timestamp
unfolding merge_ops String_discrete is_blank lookup
merge_ops-bound_example =
    merge_ops-bound constant_digest local (removal ∷ []) taken refl (omega arith)
