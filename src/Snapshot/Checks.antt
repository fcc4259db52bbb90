-- ===== src/Snapshot/Checks.antt =====
-- snapshot_validation.go: the checks of stamps, references and keys. The caller wraps every error
-- as an invalid snapshot, so an error here is `plain`.
use geo_crdt.Common.{ℕ, pos, negsuc, ◌||◌, Option, none, some, ltb, leb, ◌==◌}
use geo_crdt.Common.Decimal.{is_blank}
use geo_crdt.Errors.{Result, ok, err, plain, refuse_if, ◌>>◌}
use geo_crdt.Clock.Limits.{max_timestamp}
use geo_crdt.Clock.OpRef.{OpRef}
use geo_crdt.Clock.Stamp.{Stamp}
use geo_crdt.Clock.Vector.{VectorClock, seq_of}
use geo_crdt.Ops.GeometryOp.{validate_identity}
use geo_crdt.Seq.Key.{SeqKey, initial_key, op_key}
use geo_crdt.Snapshot.{KeySnapshot}

unfoldable pub validate_snapshot_stamp : ℕ → VectorClock → Stamp → Result (Unit {0})
unfolding validate_identity seq_of
validate_snapshot_stamp clock applied s = do
  validate_identity s.site_id s.seq s.timestamp
  refuse_if (ltb clock s.timestamp) plain
  refuse_if (ltb (seq_of applied s.site_id) s.seq) plain

unfoldable pub validate_optional_snapshot_stamp : ℕ → VectorClock → Option Stamp → Result (Unit {0})
unfolding validate_snapshot_stamp
validate_optional_snapshot_stamp clock applied none = ok tt
validate_optional_snapshot_stamp clock applied (some s) = validate_snapshot_stamp clock applied s

unfoldable pub validate_snapshot_ref : VectorClock → OpRef → Result (Unit {0})
unfolding is_blank seq_of
validate_snapshot_ref applied r = do
  refuse_if (is_blank r.site_id || (r.seq == 0) || leb max_timestamp r.seq) plain
  refuse_if (ltb (seq_of applied r.site_id) r.seq) plain

-- `exactly one of init or stamp`
unfoldable pub validate_snapshot_key : ℕ → VectorClock → KeySnapshot → Result SeqKey
unfolding validate_snapshot_stamp
validate_snapshot_key clock applied key = elim key.init [
  | some n ↦ elim key.stamp [
    | some _ ↦ err plain
    | none ↦ elim n [ pos m ↦ ok (initial_key m) | negsuc _ ↦ err plain ]
  ]
  | none ↦ elim key.stamp [
    | none ↦ err plain
    | some stamp ↦ do validate_snapshot_stamp clock applied stamp; ok (op_key stamp)
  ]
]
