-- ===== src/Snapshot/Validate.antt =====
-- snapshot_validation.go: the checks of features and operations, and of the whole snapshot.
use geo_crdt.Common.{
  ℕ, ◌-◌, String, Bool, true, false, not, ◌&&◌, ◌||◌, Option, none, some, List, [], ◌∷◌, Map,
  lookup, insert, has, length, ltb, leb, ◌==◌, if◌then◌else◌,
}
use geo_crdt.Common.Texts.{text_eq}
use geo_crdt.Common.Decimal.{is_blank}
use geo_crdt.Errors.{
  Result, ok, err, plain, invalid_snapshot, identity_collision, refuse_if, rewrap, ◌>>=◌, ◌>>◌,
}
use geo_crdt.Json.{is_empty, is_valid}
use geo_crdt.Clock.Limits.{max_timestamp}
use geo_crdt.Clock.OpRef.{OpRef, OpRef_discrete}
use geo_crdt.Clock.Stamp.{Stamp}
use geo_crdt.Clock.Vector.{VectorClock, seq_of, covered_by}
use geo_crdt.Ops.Kinds.{DocumentOpType}
use geo_crdt.Ops.DocumentOp
use geo_crdt.Ops.DocumentOp.{DocumentOp, normalize, validate_envelope}
use geo_crdt.Identity.{Payload, PayloadHash, hash_document_op}
use geo_crdt.Document.State.{RefSet}
use geo_crdt.Document.Merge.{derive_payload_ids, collides}
use geo_crdt.Sync.Delta.{validate_wire_vector_clock}
use geo_crdt.Snapshot.{PropertySnapshot, FeatureSnapshot, Snapshot}
use geo_crdt.Snapshot.Checks.{
  validate_snapshot_stamp, validate_optional_snapshot_stamp, validate_snapshot_ref,
}
use geo_crdt.Snapshot.Shape.{validate_geometry_snapshot, is_taken}

-- `normalizeSnapshotOp` of sync.go
unfoldable pub normalize_snapshot_op : DocumentOp → Result DocumentOp
unfolding normalize derive_payload_ids validate_envelope
normalize_snapshot_op op = do
  normalized ← derive_payload_ids (normalize op)
  validate_envelope normalized
  ok normalized

-- The checks of the generation register.
unfoldable pub validate_generation :
    ℕ → VectorClock → Option OpRef → Option Stamp → Result (Unit {0})
unfolding validate_snapshot_ref validate_snapshot_stamp
validate_generation clock applied none none = ok tt
validate_generation clock applied none (some _) = err plain
validate_generation clock applied (some gen) none = do validate_snapshot_ref applied gen; err plain
validate_generation clock applied (some gen) (some stamp) = do
  validate_snapshot_ref applied gen
  validate_snapshot_stamp clock applied stamp
  refuse_if (not (text_eq stamp.site_id gen.site_id) || not (stamp.seq == gen.seq)) plain

-- The loop over the generations that were seen.
unfoldable pub check_generations : VectorClock → RefSet → List OpRef → Result RefSet
unfolding validate_snapshot_ref
check_generations applied seen [] = ok seen
check_generations applied seen (ref ∷ refs) = do
  validate_snapshot_ref applied ref
  refuse_if (has OpRef_discrete ref seen) plain
  check_generations applied (insert OpRef_discrete ref tt seen) refs

unfoldable pub check_properties : ℕ → VectorClock → Map String PropertySnapshot → Result (Unit {0})
unfolding validate_optional_snapshot_stamp
check_properties clock applied [] = ok tt
check_properties clock applied ((key, p) ∷ properties) = do
  validate_optional_snapshot_stamp clock applied p.reg
  refuse_if (if is_empty p.value then not p.deleted else not (is_valid p.value)) plain
  check_properties clock applied properties

abbrev is_none {ℓ} : {A : Type ℓ} → Option A → Bool
is_none none = true
is_none (some _) = false

-- `feature.GenID != nil` and the set does not have it.
abbrev lacks_generation : Option OpRef → RefSet → Bool
lacks_generation none seen = false
lacks_generation (some gen) seen = not (has OpRef_discrete gen seen)

unfoldable pub validate_feature_snapshot : ℕ → VectorClock → FeatureSnapshot → Result (Unit {0})
unfolding validate_optional_snapshot_stamp validate_generation check_generations check_properties
    validate_geometry_snapshot
validate_feature_snapshot clock applied f = do
  validate_optional_snapshot_stamp clock applied f.create_reg
  validate_optional_snapshot_stamp clock applied f.delete_reg
  validate_generation clock applied f.gen_id f.gen_stamp
  seen ← check_generations applied [] f.seen_gens
  refuse_if (lacks_generation f.gen_id seen) plain
  check_properties clock applied f.properties
  elim f.geometry [
    | none ↦ ok tt
    | some g ↦ do
      refuse_if (not f.base && is_none f.gen_id) plain
      validate_geometry_snapshot clock applied g
  ]

-- The loop over the features.
unfoldable pub check_features :
    ℕ → VectorClock → List String → List FeatureSnapshot → Result (Unit {0})
unfolding is_blank is_taken validate_feature_snapshot
check_features clock applied ids [] = ok tt
check_features clock applied ids (f ∷ features) = do
  refuse_if (is_blank f.id) plain
  refuse_if (is_taken f.id ids) plain
  validate_feature_snapshot clock applied f
  check_features clock applied (f.id ∷ ids) features

-- `map[OpRef]payloadHash`
abbrev Hashes : Type 0
Hashes = Map OpRef PayloadHash

-- `hash, retained := retainedHashes[ref]; !retained || hash != allHashes[ref]` is false.
abbrev is_same : Option PayloadHash → Option PayloadHash → Bool
is_same (some a) (some b) = a == b
is_same _ _ = false

module _ (digest : Payload → PayloadHash) where
  -- The closure `validateGroup`, with the hashes of all groups.
  unfoldable pub validate_group : Snapshot → Hashes → List DocumentOp → Result Hashes
  unfolding normalize_snapshot_op seq_of hash_document_op
  validate_group s hashes [] = ok hashes
  validate_group s hashes (op ∷ ops) = do
    normalized ← normalize_snapshot_op op
    refuse_if (ltb s.clock normalized.timestamp) plain
    refuse_if (ltb (seq_of s.applied normalized.site_id) normalized.seq) plain
    hash ← hash_document_op digest normalized
    refuse_if (collides (DocumentOp.ref normalized) hash hashes) identity_collision
    validate_group s (insert OpRef_discrete (DocumentOp.ref normalized) hash hashes) ops

  -- The loop over the retained operations. They were hashed before, so the errors that Go drops
  -- here do not occur.
  unfoldable pub check_retained : Snapshot → Hashes → List DocumentOp → Result Hashes
  unfolding normalize_snapshot_op seq_of hash_document_op
  check_retained s retained [] = ok retained
  check_retained s retained (op ∷ ops) = do
    normalized ← normalize_snapshot_op op
    refuse_if (leb normalized.seq (seq_of s.vector_clock normalized.site_id)) plain
    hash ← hash_document_op digest normalized
    refuse_if (has OpRef_discrete (DocumentOp.ref normalized) retained) plain
    check_retained s (insert OpRef_discrete (DocumentOp.ref normalized) hash retained) ops

  -- The loop over the outbox.
  unfoldable pub check_outbox : Snapshot → RefSet → List DocumentOp → Result RefSet
  unfolding normalize_snapshot_op
  check_outbox s refs [] = ok refs
  check_outbox s refs (op ∷ ops) = do
    normalized ← normalize_snapshot_op op
    refuse_if (not (text_eq normalized.site_id s.site_id)) plain
    refuse_if (leb normalized.seq s.synced_through) plain
    refuse_if (has OpRef_discrete (DocumentOp.ref normalized) refs) plain
    check_outbox s (insert OpRef_discrete (DocumentOp.ref normalized) tt refs) ops

  abbrev is_edit : DocumentOpType → Bool
  is_edit DocumentOpType.edit_geometry = true
  is_edit _ = false

  -- The loop over the pending operations: a sparse one is retained with the same payload.
  unfoldable pub check_pending :
      Snapshot → Hashes → Hashes → RefSet → List DocumentOp → Result (Unit {0})
  unfolding normalize_snapshot_op seq_of
  check_pending s retained hashes refs [] = ok tt
  check_pending s retained hashes refs (op ∷ ops) = do
    normalized ← normalize_snapshot_op op
    refuse_if (not (is_edit normalized.op_type)) plain
    refuse_if (has OpRef_discrete (DocumentOp.ref normalized) refs) plain
    refuse_if
        (ltb (seq_of s.vector_clock normalized.site_id) normalized.seq
          && not (
              is_same (lookup OpRef_discrete (DocumentOp.ref normalized) retained)
                (lookup OpRef_discrete (DocumentOp.ref normalized) hashes)))
        plain
    check_pending s retained hashes (insert OpRef_discrete (DocumentOp.ref normalized) tt refs) ops

  unfoldable pub validate_snapshot_operation_sets : Snapshot → Result (Unit {0})
  unfolding validate_group check_retained check_outbox check_pending seq_of
  validate_snapshot_operation_sets s = do
    hashes ← validate_group s [] s.retained_ops
    retained ← check_retained s [] s.retained_ops
    hashes' ← validate_group s hashes s.outbox_ops
    outbox ← check_outbox s [] s.outbox_ops
    refuse_if (not (length outbox == seq_of s.applied s.site_id - s.synced_through)) plain
    hashes'' ← validate_group s hashes' s.pending_ops
    check_pending s retained hashes'' [] s.pending_ops

  -- The checks of `validateSnapshot`, whose errors are all wrapped as an invalid snapshot.
  unfoldable pub check_snapshot : Snapshot → Result (Unit {0})
  unfolding is_blank validate_wire_vector_clock covered_by seq_of check_features
      validate_snapshot_operation_sets
  check_snapshot s = do
    refuse_if (text_eq s.base_hash "") plain
    refuse_if (is_blank s.document_id) plain
    refuse_if (is_blank s.site_id) plain
    refuse_if (leb max_timestamp s.clock) plain
    validate_wire_vector_clock s.vector_clock
    validate_wire_vector_clock s.applied
    refuse_if (not (covered_by s.vector_clock s.applied)) plain
    refuse_if (ltb (seq_of s.applied s.site_id) s.synced_through) plain
    check_features s.clock s.applied [] s.features
    validate_snapshot_operation_sets s

  unfoldable pub validate_snapshot : Snapshot → Result (Unit {0})
  unfolding check_snapshot
  validate_snapshot s = rewrap invalid_snapshot (check_snapshot s)
