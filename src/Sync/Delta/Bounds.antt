-- ===== src/Sync/Delta/Bounds.antt =====
-- A delta keeps the clock below MaxTimestamp.
use geo_crdt.Common.{◌<◌, ◌≡◌, arith, subst, leb}
use geo_crdt.Common.Decimal.{is_blank}
use geo_crdt.Errors.{ok, check_ok, refuse_if, refuse_if-ok, invalid_op}
use geo_crdt.Clock.Limits.{max_timestamp}
use geo_crdt.Identity.{Payload, PayloadHash}
use geo_crdt.Document.State.{Document}
use geo_crdt.Document.Tally.{MergeResult}
use geo_crdt.Document.Merge.Bounds.{merged-bound}
use geo_crdt.Sync.Delta.{Delta, validate_delta_metadata, merge_delta}
use geo_crdt.Sync.Delta.Again.{merge_delta-Merged}

validate_delta_metadata-bound :
    (delta : Delta) → validate_delta_metadata delta ≡ ok tt → delta.clock < max_timestamp
unfolding validate_delta_metadata
validate_delta_metadata-bound delta e =
    let (_, e1) = check_ok (refuse_if (is_blank delta.site_id) invalid_op) _ tt e in
    let (low, _) = refuse_if-ok (leb max_timestamp delta.clock) _ _ tt e1 in ground arith

module _ (digest : Payload → PayloadHash) where
  -- A merged delta leaves the clock below MaxTimestamp, where it was.
  pub merge_delta-bound :
      (d d' : Document) (delta : Delta) (result : MergeResult)
      → merge_delta digest d delta ≡ ok (d', result)
      → d.clock < max_timestamp
      → d'.clock < max_timestamp
  merge_delta-bound d d' delta result e h =
      let m = merge_delta-Merged digest d d' delta result e in
      let low = merged-bound digest d delta.ops m.prepared m.accepted h in
      let sent = validate_delta_metadata-bound delta m.admissible.metadata in
      subst (λ (x : Document). x.clock < max_timestamp) m.result (ground arith)
