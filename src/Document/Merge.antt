-- ===== src/Document/Merge.antt =====
-- document.go: merging a batch, and the log.
pub mod Prepared
pub mod Later
pub mod Idempotence
pub mod Known
pub mod Bounds
pub mod Log
use geo_crdt.Common.{
  ℕ, String, Bool, true, false, not, ◌&&◌, ◌||◌, Option, none, some, List, [], ◌∷◌, ◌++◌, Map,
  lookup, insert, has, leb, ltb, ◌==◌, if◌then◌else◌, sort_stable,
}
use geo_crdt.Common.Texts.{text_eq}
use geo_crdt.Errors.{
  Result, ok, err, Error, invalid_op, identity_collision, document_mismatch, base_mismatch,
  compaction_gap, refuse_if, ◌>>=◌, ◌>>◌,
}
use geo_crdt.Clock.OpRef.{OpRef, OpRef_discrete}
use geo_crdt.Clock.Stamp
use geo_crdt.Clock.Vector.{seq_of, covered_by, merge_vector_clocks}
use geo_crdt.Clock.Frontier.{observe}
use geo_crdt.Ops.GeometryOp.{derive_created_ids}
use geo_crdt.Ops.DocumentOp
use geo_crdt.Ops.DocumentOp.{DocumentOp, normalize, validate_envelope}
use geo_crdt.Identity.{Payload, PayloadHash, hash_document_op}
use geo_crdt.Geometry.State.{OpOutcome}
use geo_crdt.Document.State.{Document, knowledge}
use geo_crdt.Document.Tally.{
  MergeTally, MergeResult, new_merge_tally, tally_duplicate, tally_outcome, tally_all, tally_finish,
}
use geo_crdt.Document.Apply.{Step, apply_op, stamp_less}

-- The created IDs of the payload made explicit.
unfoldable pub derive_payload_ids : DocumentOp → Result DocumentOp
unfolding derive_created_ids
derive_payload_ids op = elim op.geometry_op [
  | none ↦ ok op
  | some g ↦ do g' ← derive_created_ids g; ok (record op { geometry_op = some g' })
]

-- `known, ok := m[ref]; ok && known != hash`
abbrev pub collides : OpRef → PayloadHash → Map OpRef PayloadHash → Bool
collides ref hash m = elim (lookup OpRef_discrete ref m) [
  | none ↦ false
  | some known ↦ not (known == hash)
]

-- `if op.Timestamp > nextClock { nextClock = op.Timestamp }`
abbrev pub op_later : ℕ → ℕ → ℕ
op_later clock timestamp = if ltb clock timestamp then timestamp else clock

-- `op.Seq <= d.compacted[op.SiteID]`, or the operation is in the log.
unfoldable pub is_known : Document → DocumentOp → Bool
unfolding seq_of
is_known d op =
    leb op.seq (seq_of d.compacted op.site_id) || has OpRef_discrete (DocumentOp.ref op) d.seen

-- The guards of the first loop that read the document and the batch so far: no operation of this
-- site beyond its own numbering, and no identity with two payloads.
unfoldable pub admit :
    Document → Map OpRef PayloadHash → DocumentOp → PayloadHash → Result (Unit {0})
admit d hashes op hash = do
  refuse_if (text_eq op.site_id d.site_id && ltb d.local_seq op.seq) invalid_op
  refuse_if (collides (DocumentOp.ref op) hash d.seen) identity_collision
  refuse_if (collides (DocumentOp.ref op) hash hashes) identity_collision

-- `cloneDocumentOps` of the log: every operation is normalized.
unfoldable pub normalize_all : List DocumentOp → List DocumentOp
unfolding normalize
normalize_all [] = []
normalize_all (op ∷ ops) = normalize op ∷ normalize_all ops

module _ (digest : Payload → PayloadHash) where
  -- What the first loop of `mergeOpsLocked` makes of an operation whatever the document: its
  -- normalized form and its hash. (Where the site check of `admit` fails and the hash as well, the
  -- error is `invalid_op` in either order.)
  unfoldable pub identify : DocumentOp → Result (DocumentOp × PayloadHash)
  unfolding normalize derive_payload_ids validate_envelope hash_document_op
  identify incoming = do
    op ← derive_payload_ids (normalize incoming)
    validate_envelope op
    hash ← hash_document_op digest op
    ok (op, hash)

  -- The first loop of `mergeOpsLocked`: the normalized batch and the highest timestamp. It reads
  -- the document and changes nothing.
  unfoldable pub prepare :
      Document → Map OpRef PayloadHash → ℕ → List DocumentOp → Result (List DocumentOp × ℕ)
  unfolding identify admit
  prepare d hashes next_clock [] = ok ([], next_clock)
  prepare d hashes next_clock (incoming ∷ rest) = do
    (op, hash) ← identify incoming
    admit d hashes op hash
    (ops, clock) ←
        prepare d (insert OpRef_discrete (DocumentOp.ref op) hash hashes)
          (op_later next_clock op.timestamp) rest
    ok (op ∷ ops, clock)

  -- `recordOp`. Go panics where the hash fails, which an operation that was hashed before does not.
  unfoldable pub record_op : Document → DocumentOp → Document
  unfolding hash_document_op observe
  record_op d op = elim (hash_document_op digest op) [
    | err _ ↦ d
    | ok hash ↦ record d {
      ops = d.ops ++ op ∷ [];
      seen = insert OpRef_discrete (DocumentOp.ref op) hash d.seen;
      frontier = observe d.frontier op.site_id op.seq;
    }
  ]

  -- The second loop of `mergeOpsLocked`.
  unfoldable pub merge_loop : Document → MergeTally → List DocumentOp → Document × MergeTally
  unfolding is_known apply_op record_op tally_outcome tally_all tally_duplicate
  merge_loop d tally [] = (d, tally)
  merge_loop d tally (op ∷ rest) = elim (is_known d op) [
    | true ↦ merge_loop d (tally_duplicate tally) rest
    | false ↦
        let (d', result, drained) = apply_op d op in
        merge_loop (record_op d' op)
          (tally_all (tally_outcome tally (DocumentOp.ref op) result) drained) rest
  ]

  -- `mergeOpsLocked`
  unfoldable pub merge_ops_locked : Document → List DocumentOp → Result (Document × MergeResult)
  unfolding prepare merge_loop tally_finish sort_stable Stamp.less
  merge_ops_locked d incoming = do
    (normalized, next_clock) ← prepare d [] d.clock incoming
    let merged = merge_loop d new_merge_tally (sort_stable stamp_less normalized)
    ok (record (merged.0) { clock = op_later merged.0.clock next_clock }, tally_finish merged.1)

  -- `MergeOps`
  unfoldable pub merge_ops : Document → String → List DocumentOp → Result (Document × MergeResult)
  unfolding merge_ops_locked
  merge_ops d document_id ops = do
    refuse_if (not (text_eq document_id d.document_id)) document_mismatch
    merge_ops_locked d ops

  -- `Merge`, from a remote that is another document.
  unfoldable pub merge : Document → Document → Result (Document × MergeResult)
  unfolding merge_ops_locked knowledge covered_by merge_vector_clocks normalize_all
  merge d remote = do
    refuse_if (not (text_eq remote.document_id d.document_id)) document_mismatch
    refuse_if (not (text_eq remote.base_hash d.base_hash)) base_mismatch
    refuse_if (not (covered_by remote.compacted (knowledge d))) compaction_gap
    (merged, result) ← merge_ops_locked d (normalize_all remote.ops)
    ok (
      record merged {
        compacted = merge_vector_clocks merged.compacted remote.compacted;
        clock = op_later merged.clock remote.clock;
      },
      result,
    )
