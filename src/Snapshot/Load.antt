-- ===== src/Snapshot/Load.antt =====
-- sync.go: `NewDocumentFromSnapshot`. A stage of the function is a definition.
pub mod Resume
use geo_crdt.Common.{
  ℕ, String, Bool, true, false, not, ◌&&◌, ◌||◌, Option, none, some, List, [], ◌∷◌, Map, insert,
  has, lookup, ltb, ◌==◌, if◌then◌else◌, sort_stable,
}
use geo_crdt.Common.Texts.{String_discrete, text_eq}
use geo_crdt.Common.Decimal.{trim_space}
use geo_crdt.Errors.{
  Result, ok, err, unsupported_version, invalid_sync_state, identity_collision, refuse_if, ◌>>=◌,
  ◌>>◌,
}
use geo_crdt.Clock.OpRef.{OpRef, OpRef_discrete}
use geo_crdt.Clock.Stamp
use geo_crdt.Clock.Vector.{VectorClock, seq_of}
use geo_crdt.Ops.DocumentOp
use geo_crdt.Ops.DocumentOp.{DocumentOp, normalize, validate_envelope, dot_less}
use geo_crdt.Identity.{Payload, PayloadHash, hash_document_op}
use geo_crdt.Document.State.{RefSet, Document}
use geo_crdt.Document.Base.{CanonicalBase}
use geo_crdt.Document.New.{Fresh, new_document}
use geo_crdt.Document.Apply.{apply_op, stamp_less}
use geo_crdt.Document.Merge.{derive_payload_ids, normalize_all, record_op, collides}
use geo_crdt.Sync.Delta.{protocol_version}
use geo_crdt.Snapshot.{FeatureSnapshot, Snapshot}
use geo_crdt.Snapshot.Restore.{restore_feature}
use geo_crdt.Snapshot.Validate.{normalize_snapshot_op, validate_snapshot}

unfoldable pub restore_features : Document → List FeatureSnapshot → Result Document
unfolding restore_feature
restore_features d [] = ok d
restore_features d (fs ∷ features) = do
  f ← restore_feature fs
  restore_features (record d { features = insert String_discrete f.id f d.features }) features

-- The references of the operations in `PendingOps`.
unfoldable pub refs_of : List DocumentOp → RefSet
refs_of [] = []
refs_of (op ∷ ops) = insert OpRef_discrete (DocumentOp.ref op) tt (refs_of ops)

-- The document with the watermarks and counters of the snapshot, before its features.
unfoldable pub start_from : Document → Snapshot → Document
unfolding seq_of
start_from d s = record d {
  base_hash = s.base_hash;
  clock = s.clock;
  compacted = s.vector_clock;
  frontier = record (d.frontier) { frontier = s.vector_clock };
  local_seq =
      if ltb (seq_of s.vector_clock d.site_id) (seq_of s.applied d.site_id)
      then seq_of s.applied d.site_id
      else seq_of s.vector_clock d.site_id;
  synced_through = if text_eq d.site_id s.site_id then s.synced_through else d.synced_through;
}

module _ (digest : Payload → PayloadHash) where
  -- An operation whose effects are in the features enters the log; one that is there must be the
  -- same.
  unfoldable pub relog : Document → DocumentOp → Result Document
  unfolding hash_document_op record_op
  relog d op = elim (lookup OpRef_discrete (DocumentOp.ref op) d.seen) [
    | none ↦ ok (record_op digest d op)
    | some known ↦ do
      hash ← hash_document_op digest op
      refuse_if (not (known == hash)) identity_collision
      ok d
  ]

  -- The loop over the retained operations.
  unfoldable pub relog_retained : RefSet → Document → List DocumentOp → Result Document
  unfolding normalize_snapshot_op relog
  relog_retained pending d [] = ok d
  relog_retained pending d (op ∷ ops) = do
    normalized ← normalize_snapshot_op op
    d' ← if has OpRef_discrete (DocumentOp.ref normalized) pending then ok d else relog d normalized
    relog_retained pending d' ops

  -- The loop over the outbox.
  unfoldable pub relog_outbox : Document → List DocumentOp → Result Document
  unfolding normalize_snapshot_op relog
  relog_outbox d [] = ok d
  relog_outbox d (op ∷ ops) = do
    normalized ← normalize_snapshot_op op
    d' ← relog d normalized
    relog_outbox d' ops

  -- One round of the loop over the pending operations, with the normalized operation.
  unfoldable pub reapply : Document → DocumentOp → Document
  unfolding apply_op record_op
  reapply d op =
      if has OpRef_discrete (DocumentOp.ref op) d.seen
      then d
      else record_op digest (apply_op d op).0 op

  -- The loop over the pending operations.
  unfoldable pub reapply_pending : Document → List DocumentOp → Result Document
  unfolding normalize_snapshot_op reapply
  reapply_pending d [] = ok d
  reapply_pending d (op ∷ ops) = do
    normalized ← normalize_snapshot_op op
    reapply_pending (reapply d normalized) ops

  -- `NewDocumentFromSnapshot`
  unfoldable pub document_from_snapshot :
      (CanonicalBase → String) → Fresh → String → Snapshot → Result Document
  unfolding validate_snapshot trim_space seq_of new_document start_from restore_features refs_of
      normalize_all relog_retained relog_outbox reapply_pending sort_stable dot_less Stamp.less
  document_from_snapshot base_digest fresh site_id s = do
    refuse_if (not (s.version == protocol_version)) unsupported_version
    validate_snapshot digest s
    refuse_if
        (not (text_eq (trim_space site_id) "")
          && not (text_eq (trim_space site_id) s.site_id)
          && not (seq_of s.applied (trim_space site_id) == 0))
        invalid_sync_state
    loaded ←
        restore_features (start_from (new_document base_digest fresh s.document_id site_id) s)
          s.features
    retained ←
        relog_retained (refs_of s.pending_ops) loaded
          (sort_stable dot_less (normalize_all s.retained_ops))
    published ← relog_outbox retained (normalize_all s.outbox_ops)
    reapply_pending published (sort_stable stamp_less (normalize_all s.pending_ops))
