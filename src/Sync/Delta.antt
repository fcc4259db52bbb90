-- ===== src/Sync/Delta.antt =====
-- sync.go: deltas.
pub mod Again
pub mod Contents
pub mod Complete
pub mod Bounds
use geo_crdt.Common.{
  ℕ, String, Bool, true, false, not, ◌&&◌, List, [], ◌∷◌, ltb, leb, ◌==◌, if◌then◌else◌,
  sort_stable,
}
use geo_crdt.Common.Texts.{text_eq}
use geo_crdt.Common.Decimal.{is_blank}
use geo_crdt.Errors.{
  Result, ok, err, invalid_op, unsupported_version, document_mismatch, base_mismatch,
  invalid_sync_state, compaction_gap, refuse_if, ◌>>=◌, ◌>>◌,
}
use geo_crdt.Clock.Limits.{max_timestamp}
use geo_crdt.Clock.Vector.{VectorClock, seq_of, covered_by, merge_vector_clocks}
use geo_crdt.Ops.DocumentOp.{DocumentOp, normalize, strip_embedded_identity, dot_less}
use geo_crdt.Ops.DocumentOp.Beyond.{beyond}
use geo_crdt.Identity.{Payload, PayloadHash}
use geo_crdt.Document.State.{Document, knowledge}
use geo_crdt.Document.Tally.{MergeResult}
use geo_crdt.Document.Merge.{merge_ops_locked, op_later}

abbrev pub protocol_version : ℕ
protocol_version = 3

pub record Delta : Type 0 where
  pub version : ℕ
  pub document_id : String
  pub site_id : String
  pub base_hash : String
  pub clock : ℕ
  pub vector_clock : VectorClock
  pub compacted : VectorClock
  pub ops : List DocumentOp

-- An operation as it goes on the wire.
unfoldable pub wire : DocumentOp → DocumentOp
unfolding normalize strip_embedded_identity
wire op = strip_embedded_identity (normalize op)

unfoldable pub delta_since : Document → VectorClock → Delta
unfolding beyond wire knowledge sort_stable dot_less
delta_since d clock = record {
  version = protocol_version;
  document_id = d.document_id;
  site_id = d.site_id;
  base_hash = d.base_hash;
  clock = d.clock;
  vector_clock = knowledge d;
  compacted = d.compacted;
  ops = sort_stable dot_less (beyond wire clock d.ops);
}

unfoldable pub validate_wire_vector_clock : VectorClock → Result (Unit {0})
unfolding is_blank
validate_wire_vector_clock [] = ok tt
validate_wire_vector_clock ((site_id, seq) ∷ clock) = do
  refuse_if (is_blank site_id) invalid_op
  refuse_if (leb max_timestamp seq) invalid_op
  validate_wire_vector_clock clock

-- The loop of `validateDeltaMetadata` over the operations.
unfoldable pub validate_timestamps : ℕ → List DocumentOp → Result (Unit {0})
validate_timestamps clock [] = ok tt
validate_timestamps clock (op ∷ ops) = do
  refuse_if (ltb clock op.timestamp) invalid_op
  validate_timestamps clock ops

unfoldable pub validate_delta_metadata : Delta → Result (Unit {0})
unfolding is_blank validate_wire_vector_clock covered_by validate_timestamps
validate_delta_metadata delta = do
  refuse_if (is_blank delta.site_id) invalid_op
  refuse_if (leb max_timestamp delta.clock) invalid_op
  validate_wire_vector_clock delta.vector_clock
  validate_wire_vector_clock delta.compacted
  refuse_if (not (covered_by delta.compacted delta.vector_clock)) invalid_op
  validate_timestamps delta.clock delta.ops

-- The guards of `MergeDelta`, before the operations are merged.
unfoldable pub admit_delta : Document → Delta → Result (Unit {0})
unfolding validate_delta_metadata covered_by knowledge seq_of
admit_delta d delta = do
  refuse_if (not (delta.version == protocol_version)) unsupported_version
  validate_delta_metadata delta
  refuse_if (not (text_eq delta.document_id d.document_id)) document_mismatch
  refuse_if (not (text_eq delta.base_hash d.base_hash)) base_mismatch
  refuse_if
      (text_eq delta.site_id d.site_id && ltb d.local_seq (seq_of delta.vector_clock delta.site_id))
      invalid_sync_state
  refuse_if (not (covered_by delta.compacted (knowledge d))) compaction_gap

-- What `MergeDelta` does to the document after the operations are merged.
abbrev pub folded : Document → Delta → Document
folded d delta = record d {
  compacted = merge_vector_clocks d.compacted delta.compacted;
  clock = op_later d.clock delta.clock;
}

module _ (digest : Payload → PayloadHash) where
  unfoldable pub merge_delta : Document → Delta → Result (Document × MergeResult)
  unfolding admit_delta merge_ops_locked merge_vector_clocks
  merge_delta d delta = do
    admit_delta d delta
    (merged, result) ← merge_ops_locked digest d delta.ops
    ok (folded merged delta, result)
