-- ===== src/Replica.antt =====
-- geometry_crdt.go: `GeometryCRDT`, the replica of a single geometry.
pub mod Counters
pub mod Frame
pub mod Known
pub mod Bounds
use geo_crdt.Common.{
  ℕ, String, Bool, true, false, not, ◌||◌, ◌&&◌, Option, List, [], ◌∷◌, ◌++◌, Map, insert, has, leb,
  ltb, if◌then◌else◌, sort_stable,
}
use geo_crdt.Common.Texts.{text_eq}
use geo_crdt.Common.Decimal.{trim_space}
use geo_crdt.Errors.{
  Result, ok, err, invalid_geometry, invalid_command, invalid_sync_state, identity_collision,
  base_mismatch, refuse_if, rewrap, ◌>>=◌, ◌>>◌,
}
use geo_crdt.Json.{Raw, is_empty}
use geo_crdt.Clock.Limits.{inc, max_timestamp}
use geo_crdt.Clock.OpRef.{OpRef, OpRef_discrete}
use geo_crdt.Clock.Stamp
use geo_crdt.Ops.GeometryOp
use geo_crdt.Ops.GeometryOp.{GeometryOp, derive_created_ids, validate_envelope}
use geo_crdt.Identity.{GeometryPayload, PayloadHash, hash_geometry_op}
use geo_crdt.Geometry.State.{GeometryState, GeoJson, ApplyResult, applied, OpOutcome}
use geo_crdt.Geometry.Parse.{new_geometry_state}
use geo_crdt.Geometry.Export.{PartInfo, geo_json, info, geometry_vertex_id_at}
use geo_crdt.Geometry.Local.{validate_local_op}
use geo_crdt.Geometry.Drain
use geo_crdt.Document.Tally.{
  MergeTally, MergeResult, new_merge_tally, tally_duplicate, tally_outcome, tally_all, tally_finish,
}
use geo_crdt.Document.Merge.{collides, op_later}

-- `GeometryCRDT`, without its lock.
pub record GeometryCrdt : Type 0 where
  pub site_id : String
  pub clock : ℕ
  pub local_seq : ℕ
  pub init_hash : String
  pub state : GeometryState
  pub ops : List GeometryOp
  pub seen : Map OpRef PayloadHash
  pub synced_through : ℕ
  pub issued_through : ℕ

-- `base_digest` is the hexadecimal SHA-256 of an exported geometry; `fresh_id` is a random ID.
unfoldable pub new_geometry_crdt : (GeoJson → String) → String → String → Raw → Result GeometryCrdt
unfolding trim_space new_geometry_state geo_json
new_geometry_crdt base_digest fresh_id site_id initial_geometry = do
  refuse_if (is_empty initial_geometry) invalid_geometry
  parsed ← new_geometry_state initial_geometry
  let (state, exported) = geo_json parsed
  ok (record {
    site_id = if text_eq (trim_space site_id) "" then fresh_id else trim_space site_id;
    clock = 0;
    local_seq = 0;
    init_hash = base_digest exported;
    state = state;
    ops = [];
    seen = [];
    synced_through = 0;
    issued_through = 0;
  })

-- The copy of the operation that gets this replica's identity.
abbrev pub identify_local : GeometryCrdt → ℕ → ℕ → GeometryOp → GeometryOp
identify_local c seq timestamp op = record op {
  site_id = c.site_id;
  seq = seq;
  timestamp = timestamp;
}

abbrev pub stamp_less : GeometryOp → GeometryOp → Bool
stamp_less a b = Stamp.less (GeometryOp.stamp a) (GeometryOp.stamp b)

-- `GeometryCRDT.Geometry`, which fills the cache of the geometry.
unfoldable pub replica_geometry : GeometryCrdt → GeometryCrdt × GeoJson
unfolding geo_json
replica_geometry c =
    let (state, exported) = geo_json c.state in (record c { state = state }, exported)

-- `GeometryCRDT.Info`
unfoldable pub replica_info : GeometryCrdt → List PartInfo
unfolding info
replica_info c = info c.state.dims c.state.parts

-- `GeometryCRDT.VertexIDAt`
unfoldable pub replica_vertex_id_at : GeometryCrdt → String → String → ℕ → Result String
unfolding geometry_vertex_id_at
replica_vertex_id_at c part_id ring_id index = geometry_vertex_id_at c.state part_id ring_id index

-- `op.SiteID != c.siteID || op.Seq <= c.syncedThrough`
abbrev pub is_sent : GeometryCrdt → GeometryOp → Bool
is_sent c op = not (text_eq op.site_id c.site_id) || leb op.seq c.synced_through

-- The loop of `PendingOps`.
unfoldable pub pending_loop : GeometryCrdt → ℕ → List GeometryOp → List GeometryOp × ℕ
pending_loop c watermark [] = ([], watermark)
pending_loop c watermark (op ∷ ops) =
    let skipped = pending_loop c watermark ops in
    let (pending, last) = pending_loop c (op_later watermark op.seq) ops in
    if is_sent c op then skipped else (op ∷ pending, last)

unfoldable pub pending_ops : GeometryCrdt → GeometryCrdt × List GeometryOp × ℕ
unfolding pending_loop
pending_ops c =
    let (pending, watermark) = pending_loop c c.synced_through c.ops in
    (record c { issued_through = op_later c.issued_through watermark }, pending, watermark)

unfoldable pub mark_synced : GeometryCrdt → ℕ → Result GeometryCrdt
mark_synced c watermark =
    if leb watermark c.synced_through
    then ok c
    else if ltb c.issued_through watermark || ltb c.local_seq watermark
    then err invalid_sync_state
    else ok (record c { synced_through = watermark })

module _ (geometry_digest : GeometryPayload → PayloadHash) where
  -- `recordOp`. Go panics where the hash fails, which an operation that was validated does not.
  unfoldable pub record_op : GeometryCrdt → GeometryOp → GeometryCrdt
  unfolding hash_geometry_op
  record_op c op = elim (hash_geometry_op geometry_digest op) [
    | err _ ↦ c
    | ok hash ↦ record c {
      ops = c.ops ++ op ∷ [];
      seen = insert OpRef_discrete (GeometryOp.ref op) hash c.seen;
    }
  ]

  -- The end of `Apply`, after the state took the operation. On an error Go keeps that state.
  unfoldable pub commit :
      GeometryCrdt
      → ℕ
      → ℕ
      → GeometryOp
      → GeometryState × ApplyResult × List OpOutcome
      → GeometryCrdt × Result (Unit {0})
  unfolding record_op
  commit c clock seq op (g, applied, drained) =
      (record (record_op (record c { state = g }) op) { clock = clock; local_seq = seq }, ok tt)
  commit c clock seq op (g, result, drained) = (record c { state = g }, err invalid_command)

  -- The operation with its identity and its created IDs, where the guards of `Apply` let it pass.
  unfoldable pub build_local_op : GeometryCrdt → ℕ → ℕ → GeometryOp → Result GeometryOp
  unfolding derive_created_ids validate_local_op
  build_local_op c seq timestamp op = do
    derived ← rewrap invalid_command (derive_created_ids (identify_local c seq timestamp op))
    validate_local_op c.state derived
    ok derived

  -- `GeometryCRDT.Apply`
  unfoldable pub apply_local : GeometryCrdt → GeometryOp → GeometryCrdt × Result (Unit {0})
  unfolding inc build_local_op commit Drain.apply
  apply_local c op =
      if leb max_timestamp (inc c.clock) || leb max_timestamp (inc c.local_seq)
      then (c, err invalid_command)
      else elim (build_local_op c (inc c.local_seq) (inc c.clock) op) [
        | err e ↦ (c, err e)
        | ok derived ↦
            commit c (inc c.clock) (inc c.local_seq) derived (Drain.apply c.state derived)
      ]

  -- The first loop of `mergeOpsLocked`: the batch with its created IDs and the highest timestamp.
  unfoldable pub prepare :
      GeometryCrdt → Map OpRef PayloadHash → ℕ → List GeometryOp → Result (List GeometryOp × ℕ)
  unfolding derive_created_ids validate_envelope hash_geometry_op
  prepare c hashes next_clock [] = ok ([], next_clock)
  prepare c hashes next_clock (incoming ∷ rest) = do
    op ← derive_created_ids incoming
    validate_envelope op
    refuse_if (text_eq op.site_id c.site_id && ltb c.local_seq op.seq) invalid_sync_state
    hash ← hash_geometry_op geometry_digest op
    refuse_if (collides (GeometryOp.ref op) hash c.seen) identity_collision
    refuse_if (collides (GeometryOp.ref op) hash hashes) identity_collision
    (ops, clock) ←
        prepare c (insert OpRef_discrete (GeometryOp.ref op) hash hashes)
          (op_later next_clock op.timestamp) rest
    ok (op ∷ ops, clock)

  -- What the second loop does with an operation that is not in the log.
  unfoldable pub merge_new : GeometryCrdt → MergeTally → GeometryOp → GeometryCrdt × MergeTally
  unfolding record_op Drain.apply tally_outcome tally_all
  merge_new c tally op =
      let (g, result, drained) = Drain.apply c.state op in
      (
        record_op (record c { state = g }) op,
        tally_all (tally_outcome tally (GeometryOp.ref op) result) drained,
      )

  -- The second loop of `mergeOpsLocked`.
  unfoldable pub merge_loop :
      GeometryCrdt → MergeTally → List GeometryOp → GeometryCrdt × MergeTally
  unfolding merge_new tally_duplicate
  merge_loop c tally [] = (c, tally)
  merge_loop c tally (op ∷ rest) = elim (has OpRef_discrete (GeometryOp.ref op) c.seen) [
    | true ↦ merge_loop c (tally_duplicate tally) rest
    | false ↦ let (c', tally') = merge_new c tally op in merge_loop c' tally' rest
  ]

  -- `mergeOpsLocked`; `MergeOps` only takes the lock.
  unfoldable pub merge_ops : GeometryCrdt → List GeometryOp → Result (GeometryCrdt × MergeResult)
  unfolding prepare merge_loop tally_finish sort_stable Stamp.less
  merge_ops c incoming = do
    (normalized, next_clock) ← prepare c [] c.clock incoming
    let merged = merge_loop c new_merge_tally (sort_stable stamp_less normalized)
    ok (record (merged.0) { clock = op_later merged.0.clock next_clock }, tally_finish merged.1)

  -- `Merge`, from a remote that is another replica.
  unfoldable pub merge : GeometryCrdt → GeometryCrdt → Result (GeometryCrdt × MergeResult)
  unfolding merge_ops
  merge c remote = do
    refuse_if (not (text_eq remote.init_hash c.init_hash)) base_mismatch
    (merged, result) ← merge_ops c remote.ops
    ok (record merged { clock = op_later merged.clock remote.clock }, result)
