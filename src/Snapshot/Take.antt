-- ===== src/Snapshot/Take.antt =====
-- sync.go: taking a snapshot of a document.
use geo_crdt.Common.{
  ℕ, String, Bool, true, false, not, ◌&&◌, Option, none, some, List, [], ◌∷◌, ◌++◌, Map, map,
  insert, ltb, if◌then◌else◌, sort_stable,
}
use geo_crdt.Common.Texts.{String_discrete, text_eq, text_lt}
use geo_crdt.Json
use geo_crdt.Clock.OpRef
use geo_crdt.Clock.OpRef.{OpRef}
use geo_crdt.Clock.Stamp
use geo_crdt.Clock.Stamp.{Stamp}
use geo_crdt.Clock.Vector.{VectorClock, seq_of}
use geo_crdt.Ops.Kinds.{DocumentOpType}
use geo_crdt.Ops.GeometryOp
use geo_crdt.Ops.GeometryOp.{GeometryOp}
use geo_crdt.Ops.DocumentOp.{DocumentOp, strip_embedded_identity, dot_less}
use geo_crdt.Ops.DocumentOp.Beyond.{beyond}
use geo_crdt.Seq.Vertices.{Element}
use geo_crdt.Seq.Walk.{walk}
use geo_crdt.Identity.{PayloadHash}
use geo_crdt.Geometry.State.{RingState, PartState, GeometryState}
use geo_crdt.Geometry.Export.{position}
use geo_crdt.Document.State.{PropertyState, RefSet, FeatureState, Document, knowledge}
use geo_crdt.Document.Merge.{normalize_all}
use geo_crdt.Sync.Delta.{protocol_version, wire}
use geo_crdt.Snapshot.{
  VertexSnapshot, RingSnapshot, PartSnapshot, GeometrySnapshot, PropertySnapshot, FeatureSnapshot,
  Snapshot,
}
use geo_crdt.Snapshot.Keys.{snapshot_key}

-- A register is left out where it was never set.
unfoldable pub set_stamp : Stamp → Option Stamp
unfolding Stamp.is_set
set_stamp s = if Stamp.is_set s then some s else none

unfoldable pub snapshot_vertex : ℕ → Element → VertexSnapshot
unfolding position snapshot_key set_stamp
snapshot_vertex dims el = record {
  id = el.id;
  parent = el.parent_id;
  key = snapshot_key el.key;
  coord = position dims el.coord;
  deleted = el.deleted;
  move_reg = set_stamp el.move_reg;
}

unfoldable pub snapshot_ring : ℕ → RingState → RingSnapshot
unfolding snapshot_key snapshot_vertex walk
snapshot_ring dims ring = record {
  id = ring.id;
  key = snapshot_key ring.key;
  exterior = ring.exterior;
  deleted = ring.deleted;
  vertices = map (snapshot_vertex dims) (walk ring.seq);
}

unfoldable pub snapshot_part : ℕ → PartState → PartSnapshot
unfolding snapshot_key snapshot_ring
snapshot_part dims part = record {
  id = part.id;
  key = snapshot_key part.key;
  typ = part.typ;
  deleted = part.deleted;
  rings = map (snapshot_ring dims) part.rings;
}

unfoldable pub snapshot_geometry : GeometryState → GeometrySnapshot
unfolding snapshot_part
snapshot_geometry g = record {
  typ = g.typ;
  dims = g.dims;
  parts = map (snapshot_part g.dims) g.parts;
}

unfoldable pub ref_less : OpRef → OpRef → Bool
ref_less a b =
    if not (text_eq a.site_id b.site_id) then text_lt a.site_id b.site_id else ltb a.seq b.seq

-- The loop over `seenGens`: the reference to the base is left out.
unfoldable pub set_refs : RefSet → List OpRef
unfolding OpRef.is_set
set_refs [] = []
set_refs ((ref, _) ∷ refs) =
    let rest = set_refs refs in if OpRef.is_set ref then ref ∷ rest else rest

unfoldable pub snapshot_property : PropertyState → PropertySnapshot
unfolding set_stamp
snapshot_property p = record { value = p.value; deleted = p.deleted; reg = set_stamp p.reg }

unfoldable pub snapshot_properties : Map String PropertyState → Map String PropertySnapshot
unfolding snapshot_property
snapshot_properties [] = []
snapshot_properties ((key, p) ∷ rest) = (key, snapshot_property p) ∷ snapshot_properties rest

abbrev is_nil {ℓ} : {A : Type ℓ} → List A → Bool
is_nil [] = true
is_nil (_ ∷ _) = false

-- The variable `empty` of `snapshotFeature`.
unfoldable pub is_empty_feature : FeatureState → Bool
unfolding Stamp.is_set OpRef.is_set set_refs
is_empty_feature f =
    not f.is_base
    && not (Stamp.is_set f.create_reg)
    && not (Stamp.is_set f.delete_reg)
    && not (OpRef.is_set f.gen_id)
    && is_nil (set_refs f.seen_gens)
    && is_nil f.properties
    && (elim f.geometry [ none ↦ true | some _ ↦ false ])

-- `if state.geometry != nil`
unfoldable pub snapshot_optional : Option GeometryState → Option GeometrySnapshot
unfolding snapshot_geometry
snapshot_optional none = none
snapshot_optional (some g) = some (snapshot_geometry g)

-- `snapshotFeature`
unfoldable pub snapshot_feature : FeatureState → FeatureSnapshot
unfolding set_stamp OpRef.is_set set_refs ref_less sort_stable snapshot_properties snapshot_optional
snapshot_feature f = record {
  id = f.id;
  base = f.is_base;
  create_reg = set_stamp f.create_reg;
  delete_reg = set_stamp f.delete_reg;
  gen_id = if OpRef.is_set f.gen_id then some f.gen_id else none;
  gen_stamp = if OpRef.is_set f.gen_id then some f.gen_stamp else none;
  seen_gens = sort_stable ref_less (set_refs f.seen_gens);
  properties = snapshot_properties f.properties;
  geometry = snapshot_optional f.geometry;
}

-- The values of a map of lists, one after the other.
unfoldable pub all_values {ℓ} : {K V : Type ℓ} → Map K (List V) → List V
all_values [] = []
all_values ((_, l) ∷ rest) = l ++ all_values rest

abbrev edit_less : GeometryOp → GeometryOp → Bool
edit_less a b = Stamp.less (GeometryOp.stamp a) (GeometryOp.stamp b)

-- `geometryState.pendingOps`
unfoldable pub engine_pending : GeometryState → List GeometryOp
unfolding all_values Stamp.less sort_stable
engine_pending g = sort_stable edit_less (all_values g.pending)

-- An edit that waits inside the engine, as an operation on the document.
unfoldable pub waiting_edit : String → OpRef → GeometryOp → DocumentOp
unfolding OpRef.is_set
waiting_edit feature_id gen op = record {
  op_type = DocumentOpType.edit_geometry;
  site_id = op.site_id;
  seq = op.seq;
  timestamp = op.timestamp;
  feature_id = feature_id;
  geometry = Json.empty;
  properties = [];
  property_key = "";
  property_value = Json.empty;
  gen = if OpRef.is_set gen then some gen else none;
  geometry_op = some op;
}

unfoldable pub feature_pending : String → FeatureState → List DocumentOp
unfolding engine_pending waiting_edit
feature_pending id f = elim f.geometry [
  | none ↦ []
  | some g ↦ map (waiting_edit id f.gen_id) (engine_pending g)
]

-- The loop over the sorted feature IDs.
unfoldable pub snapshot_features : Map String FeatureState → List FeatureSnapshot × List DocumentOp
unfolding snapshot_feature is_empty_feature feature_pending
snapshot_features [] = ([], [])
snapshot_features ((id, f) ∷ rest) =
    let (features, pending) = snapshot_features rest in
    (
      if is_empty_feature f then features else snapshot_feature f ∷ features,
      feature_pending id f ++ pending,
    )

abbrev id_less : String × FeatureState → String × FeatureState → Bool
id_less a b = text_lt a.0 b.0

-- The loop over the log that collects `OutboxOps`.
unfoldable pub outbox_loop : Document → List DocumentOp → List DocumentOp
unfolding wire
outbox_loop d [] = []
outbox_loop d (op ∷ ops) =
    let rest = outbox_loop d ops in
    if text_eq op.site_id d.site_id && ltb d.synced_through op.seq then wire op ∷ rest else rest

-- The loop of `appliedClockLocked` over the identities.
unfoldable pub applied_loop : VectorClock → Map OpRef PayloadHash → VectorClock
unfolding seq_of
applied_loop applied [] = applied
applied_loop applied ((ref, _) ∷ seen) =
    applied_loop
      (if ltb (seq_of applied ref.site_id) ref.seq
        then insert String_discrete ref.site_id ref.seq applied
        else applied)
      seen

unfoldable pub applied_clock : Document → VectorClock
unfolding applied_loop
applied_clock d = applied_loop d.compacted d.seen

-- `snapshotLocked`
unfoldable pub snapshot_locked : Document → String → Snapshot
unfolding knowledge applied_clock outbox_loop beyond wire sort_stable dot_less snapshot_features
    normalize_all all_values strip_embedded_identity
snapshot_locked d id =
    let (features, pending) = snapshot_features (sort_stable id_less d.features) in
    record {
      version = protocol_version;
      id = id;
      document_id = d.document_id;
      site_id = d.site_id;
      base_hash = d.base_hash;
      clock = d.clock;
      vector_clock = knowledge d;
      applied = applied_clock d;
      synced_through = d.synced_through;
      outbox_ops = outbox_loop d d.ops;
      features = features;
      retained_ops = sort_stable dot_less (beyond wire (knowledge d) d.ops);
      pending_ops =
          map strip_embedded_identity
            (sort_stable dot_less (pending ++ normalize_all (all_values d.pending_gen)));
    }
