-- ===== src/Document/Apply.antt =====
-- document.go: how one operation changes a document.
pub mod Frame
use geo_crdt.Common.{
  ℕ, String, Bool, true, false, not, ◌&&◌, ◌||◌, Option, none, some, List, [], ◌∷◌, ◌++◌, Map,
  lookup, insert, erase, has, leb, if◌then◌else◌, sort_stable,
}
use geo_crdt.Common.Texts.{String_discrete, text_lt, text_eq}
use geo_crdt.Errors.{Result, ok, err}
use geo_crdt.Json.{Raw, is_null_geometry}
use geo_crdt.Clock.OpRef
use geo_crdt.Clock.OpRef.{OpRef, OpRef_discrete}
use geo_crdt.Clock.Stamp
use geo_crdt.Clock.Stamp.{Stamp}
use geo_crdt.Clock.Vector.{seq_of}
use geo_crdt.Ops.Kinds.{DocumentOpType}
use geo_crdt.Ops.GeometryOp.{GeometryOp}
use geo_crdt.Ops.DocumentOp
use geo_crdt.Ops.DocumentOp.{DocumentOp, gen_ref}
use geo_crdt.Geometry.State.{
  GeometryState, ApplyResult, applied, superseded, buffered, quarantined, Reason, OpOutcome, DepKey,
  dep_part,
}
use geo_crdt.Geometry.Parse.{new_geometry_state}
use geo_crdt.Geometry.Drain
use geo_crdt.Document.State.{PropertyState, FeatureState, Document, feature_of, put_feature}

-- What an application returns: the document, the result, and the outcomes of drained operations.
abbrev pub Step : Type 0
Step = Document × ApplyResult × List OpOutcome

-- `parseOpGeometry`; the error is a quarantine.
unfoldable pub parse_op_geometry : Raw → Result (Option GeometryState)
unfolding is_null_geometry new_geometry_state
parse_op_geometry raw =
    if is_null_geometry raw
    then ok none
    else elim (new_geometry_state raw) [ err e ↦ err e | ok engine ↦ ok (some engine) ]

-- `feature.properties[key]`; a missing register carries the zero stamp.
unfoldable pub register_of : FeatureState → String → Stamp
register_of f key = elim (lookup String_discrete key f.properties) [
  | none ↦ Stamp.zero_stamp
  | some p ↦ p.reg
]

unfoldable pub write_property_register :
    FeatureState → String → Raw → Bool → Stamp → FeatureState × Bool
unfolding register_of Stamp.is_set Stamp.newer
write_property_register f key raw deleted stamp =
    if Stamp.is_set (register_of f key) && not (Stamp.newer stamp (register_of f key))
    then (f, false)
    else (
      record f {
        properties =
            insert String_discrete key (record { value = raw; deleted = deleted; reg = stamp })
              f.properties;
      },
      true,
    )

-- The loop of `applyInsertFeature` over the sorted keys.
unfoldable pub write_properties : FeatureState → Map String Raw → Stamp → FeatureState
unfolding write_property_register
write_properties f [] stamp = f
write_properties f ((key, raw) ∷ rest) stamp =
    write_properties (write_property_register f key raw false stamp).0 rest stamp

abbrev key_lt : String × Raw → String × Raw → Bool
key_lt a b = text_lt a.0 b.0

-- `applyEditToEngine`
unfoldable pub apply_edit_to_engine :
    FeatureState → DocumentOp → FeatureState × ApplyResult × List OpOutcome
unfolding Drain.apply
apply_edit_to_engine f op = elim f.geometry [
  | none ↦ (f, quarantined Reason.no_geometry, [])
  | some g ↦ elim op.geometry_op [
    | none ↦ (f, quarantined Reason.no_geometry, [])
    | some edit ↦
        let (g', result, drained) = Drain.apply g edit in
        (record f { geometry = some g' }, result, drained)
  ]
]

abbrev outcome_of : DocumentOp → ApplyResult → OpOutcome
outcome_of op r = record { ref = DocumentOp.ref op; outcome = r }

unfoldable pub all_superseded : List DocumentOp → List OpOutcome
all_superseded [] = []
all_superseded (op ∷ waiting) = outcome_of op superseded ∷ all_superseded waiting

-- The loop of `adoptGeneration` over the edits that waited for the generation.
unfoldable pub drain_waiting : FeatureState → List DocumentOp → FeatureState × List OpOutcome
unfolding apply_edit_to_engine
drain_waiting f [] = (f, [])
drain_waiting f (op ∷ waiting) =
    let skipped = drain_waiting f waiting in
    let (f', result, drained) = apply_edit_to_engine f op in
    let rest = drain_waiting f' waiting in
    if not (text_eq op.feature_id f.id)
    then (skipped.0, outcome_of op (quarantined Reason.foreign_generation) ∷ skipped.1)
    else (rest.0, outcome_of op result ∷ (drained ++ rest.1))

-- `d.pendingGen[ref]`
unfoldable pub waiting_for : Document → OpRef → List DocumentOp
waiting_for d ref = elim (lookup OpRef_discrete ref d.pending_gen) [ none ↦ [] | some ops ↦ ops ]

abbrev see_generation : OpRef → FeatureState → FeatureState
see_generation ref f = record f { seen_gens = insert OpRef_discrete ref tt f.seen_gens }

abbrev forget_waiting : OpRef → Document → Document
forget_waiting ref d = record d { pending_gen = erase OpRef_discrete ref d.pending_gen }

abbrev pub stamp_less : DocumentOp → DocumentOp → Bool
stamp_less a b = Stamp.less (DocumentOp.stamp a) (DocumentOp.stamp b)

unfoldable pub adopt_generation :
    Document → FeatureState → OpRef → Stamp → Option GeometryState → Document × List OpOutcome
unfolding put_feature waiting_for all_superseded drain_waiting Stamp.newer Stamp.less sort_stable
adopt_generation d f ref stamp engine =
    if not (Stamp.newer stamp f.gen_stamp)
    then (
      put_feature (forget_waiting ref d) f.id (see_generation ref f),
      all_superseded (waiting_for d ref),
    )
    else (let adopted = record (see_generation ref f) {
      geometry = engine;
      gen_id = ref;
      gen_stamp = stamp;
    } in
        let (drained, outcomes) =
          drain_waiting adopted (sort_stable stamp_less (waiting_for d ref)) in
        (put_feature (forget_waiting ref d) f.id drained, outcomes))

-- The registers that an insertion writes: the properties in the order of their keys, and the
-- creation.
unfoldable pub created : Document → DocumentOp → FeatureState
unfolding feature_of write_properties sort_stable Stamp.newer
created d op =
    let stamp = DocumentOp.stamp op in
    let written =
      write_properties (feature_of d op.feature_id) (sort_stable key_lt op.properties) stamp in
    if Stamp.newer stamp written.create_reg then record written { create_reg = stamp } else written

unfoldable pub apply_insert_feature : Document → DocumentOp → Step
unfolding parse_op_geometry created adopt_generation
apply_insert_feature d op = elim (parse_op_geometry op.geometry) [
  | err _ ↦ (d, quarantined Reason.bad_geometry, [])
  | ok engine ↦
      let (d', outcomes) =
        adopt_generation d (created d op) (DocumentOp.ref op) (DocumentOp.stamp op) engine in
      (d', applied, outcomes)
]

unfoldable pub apply_delete_feature : Document → DocumentOp → Step
unfolding feature_of put_feature Stamp.newer
apply_delete_feature d op =
    let f = feature_of d op.feature_id in
    if not (Stamp.newer (DocumentOp.stamp op) f.delete_reg)
    then (put_feature d op.feature_id f, superseded, [])
    else (put_feature d op.feature_id (record f { delete_reg = DocumentOp.stamp op }), applied, [])

unfoldable pub apply_set_geometry : Document → DocumentOp → Step
unfolding parse_op_geometry feature_of put_feature adopt_generation Stamp.newer
apply_set_geometry d op = elim (parse_op_geometry op.geometry) [
  | err _ ↦ (d, quarantined Reason.bad_geometry, [])
  | ok engine ↦
      let f = feature_of d op.feature_id in
      let (d', outcomes) = adopt_generation d f (DocumentOp.ref op) (DocumentOp.stamp op) engine in
      if not (Stamp.newer (DocumentOp.stamp op) f.gen_stamp)
      then (
        put_feature (forget_waiting (DocumentOp.ref op) d) op.feature_id
            (see_generation (DocumentOp.ref op) f),
        superseded,
        [],
      )
      else (d', applied, outcomes)
]

unfoldable pub apply_write_property : Document → DocumentOp → Bool → Step
unfolding feature_of put_feature write_property_register
apply_write_property d op deleted =
    let (f, written) =
      write_property_register (feature_of d op.feature_id) op.property_key op.property_value deleted
        (DocumentOp.stamp op) in
    (put_feature d op.feature_id f, if written then applied else superseded, [])

abbrev pub zero_dep : DepKey
zero_dep = record { kind = dep_part; part_id = ""; ring_id = ""; id = "" }

-- `gen == feature.genID`
abbrev same_ref : OpRef → OpRef → Bool
same_ref a b = elim (OpRef_discrete a b) [ yes _ ↦ true | no _ ↦ false ]

unfoldable pub apply_edit_geometry : Document → DocumentOp → Step
unfolding feature_of put_feature gen_ref apply_edit_to_engine waiting_for OpRef.is_set seq_of
apply_edit_geometry d op =
    let f = feature_of d op.feature_id in
    let entered = put_feature d op.feature_id f in
    let gen = gen_ref op in
    let gen_seen = has OpRef_discrete gen f.seen_gens in
    let (edited, result, drained) = apply_edit_to_engine f op in
    if same_ref gen f.gen_id && gen_seen
    then (put_feature d op.feature_id edited, result, drained)
    else if gen_seen
    then (entered, superseded, [])
    else if not (OpRef.is_set gen)
    then (entered, quarantined Reason.no_base_generation, [])
    else if leb gen.seq (seq_of d.compacted gen.site_id)
    then (entered, quarantined Reason.compacted_generation, [])
    else if has OpRef_discrete gen d.seen
    then (entered, quarantined Reason.not_a_generation, [])
    else (
      record entered {
        pending_gen = insert OpRef_discrete gen (waiting_for d gen ++ op ∷ []) d.pending_gen;
      },
      buffered zero_dep,
      [],
    )

-- `applyOpLocked`
unfoldable pub apply_op : Document → DocumentOp → Step
unfolding apply_insert_feature apply_delete_feature apply_set_geometry apply_write_property
    apply_edit_geometry
apply_op d op = elim op.op_type [
  | DocumentOpType.insert_feature ↦ apply_insert_feature d op
  | DocumentOpType.delete_feature ↦ apply_delete_feature d op
  | DocumentOpType.set_geometry ↦ apply_set_geometry d op
  | DocumentOpType.set_property ↦ apply_write_property d op false
  | DocumentOpType.delete_property ↦ apply_write_property d op true
  | DocumentOpType.edit_geometry ↦ apply_edit_geometry d op
  | DocumentOpType.other_op _ ↦ (d, quarantined Reason.unknown_op_type, [])
]
