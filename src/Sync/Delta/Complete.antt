-- ===== src/Sync/Delta/Complete.antt =====
-- What a replica has after it merged a delta that was made for its own vector clock.
use geo_crdt.Common.{ℕ, ◌≡◌, true, List, [], subst, All, All-map}
use geo_crdt.Common.Sorted.{In, All-In}
use geo_crdt.Errors.{ok}
use geo_crdt.Ops.DocumentOp
use geo_crdt.Ops.DocumentOp.{DocumentOp}
use geo_crdt.Identity.{Payload, PayloadHash}
use geo_crdt.Document.State.{Document}
use geo_crdt.Document.Tally.{MergeResult}
use geo_crdt.Document.Merge.{prepare, is_known}
use geo_crdt.Document.Merge.Known.{looped-known}
use geo_crdt.Document.Merge.Idempotence.{looped, looped-Covers, merged}
use geo_crdt.Document.Merge.Later.{Later-is_known}
use geo_crdt.Sync.Delta.{Delta, folded, merge_delta}
use geo_crdt.Sync.Delta.Again.{merge_delta-Merged, folded-Later}

module _ (digest : Payload → PayloadHash) where
  folded-known :
      (d : Document) (delta : Delta) (p : List DocumentOp × ℕ)
      → prepare digest d [] d.clock delta.ops ≡ ok p
      → All (λ op. is_known (folded (merged digest d p) delta) op ≡ true) delta.ops
  folded-known d delta p q =
      let (h, covers) = looped-Covers digest d delta.ops p q in
      let d' = folded (merged digest d p) delta in
      All-map (λ op. is_known (looped digest d p) op ≡ true) (λ op. is_known d' op ≡ true)
        (λ op k. Later-is_known h (looped digest d p) d' op (folded-Later digest h d p delta) k)
        delta.ops (looped-known digest d delta.ops p q)

  -- Every operation of a merged delta is known afterwards: the log holds it, or a watermark does.
  pub merge_delta-is_known :
      (d d' : Document) (delta : Delta) (result : MergeResult)
      → merge_delta digest d delta ≡ ok (d', result)
      → (op : DocumentOp) → In op delta.ops
      → is_known d' op ≡ true
  merge_delta-is_known d d' delta result e op m =
      let r = merge_delta-Merged digest d d' delta result e in
      All-In (λ x. is_known d' x ≡ true) delta.ops
        (subst (λ x. All (λ y. is_known x y ≡ true) delta.ops) r.result
          (folded-known d delta r.prepared r.accepted))
        op m
