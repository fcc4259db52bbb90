-- ===== src/Document/Command.antt =====
-- document.go: local commands; properties.go: the encoding of their values.
pub mod Counters
use geo_crdt.Common.{ℕ, String, ◌||◌, Option, none, some, [], ◌∷◌, Map, leb, if◌then◌else◌}
use geo_crdt.Common.Decimal.{is_blank}
use geo_crdt.Errors.{Result, ok, err, invalid_command, refuse_if, ◌>>=◌, ◌>>◌, rewrap}
use geo_crdt.Json.{Raw, empty, is_null_geometry}
use geo_crdt.Clock.Limits.{inc, max_timestamp}
use geo_crdt.Clock.OpRef
use geo_crdt.Clock.OpRef.{OpRef}
use geo_crdt.Ops.Kinds.{DocumentOpType}
use geo_crdt.Ops.GeometryOp.{GeometryOp, derive_created_ids}
use geo_crdt.Ops.DocumentOp.{DocumentOp, Command, geometry_op_for_command}
use geo_crdt.Identity.{Payload, PayloadHash}
use geo_crdt.Geometry.State.{applied}
use geo_crdt.Geometry.Parse.{new_geometry_state}
use geo_crdt.Geometry.Local.{validate_local_op}
use geo_crdt.Document.State.{FeatureState, Document, visible_feature}
use geo_crdt.Document.Apply.{Step, apply_op}
use geo_crdt.Document.Merge.{record_op}

-- `encodePropertyValue`
unfoldable pub encode_property_value : Option Raw → Result Raw
encode_property_value none = err invalid_command
encode_property_value (some raw) = ok raw

unfoldable pub encode_properties : Map String (Option Raw) → Result (Map String Raw)
unfolding encode_property_value
encode_properties [] = ok []
encode_properties ((key, value) ∷ rest) = do
  raw ← encode_property_value value
  encoded ← encode_properties rest
  ok ((key, raw) ∷ encoded)

unfoldable pub validate_command_geometry : Raw → Result Raw
unfolding is_null_geometry new_geometry_state
validate_command_geometry geometry =
    if is_null_geometry geometry
    then ok empty
    else (do rewrap invalid_command (new_geometry_state geometry) >>= λ _. ok geometry)

-- The envelope that `buildLocalOp` starts from.
abbrev pub envelope : Document → ℕ → ℕ → DocumentOpType → String → DocumentOp
envelope d seq timestamp op_type feature_id = record {
  op_type = op_type;
  site_id = d.site_id;
  seq = seq;
  timestamp = timestamp;
  feature_id = feature_id;
  geometry = empty;
  properties = [];
  property_key = "";
  property_value = empty;
  gen = none;
  geometry_op = none;
}

-- `if feature.genID.isSet() { envelope.Gen = &gen }`
abbrev pub gen_of : FeatureState → Option OpRef
gen_of f = if OpRef.is_set f.gen_id then some f.gen_id else none

-- The tail of `buildLocalOp`, for geometry edits.
unfoldable pub build_edit : Document → ℕ → ℕ → String → GeometryOp → Result DocumentOp
unfolding visible_feature derive_created_ids validate_local_op OpRef.is_set
build_edit d seq timestamp feature_id edit = do
  f ← visible_feature d feature_id
  g ← elim f.geometry [ none ↦ err invalid_command | some g ↦ ok g ]
  op ←
      rewrap invalid_command
        (derive_created_ids (record edit { site_id = d.site_id; seq = seq; timestamp = timestamp }))
  validate_local_op g op
  ok (record (envelope d seq timestamp DocumentOpType.edit_geometry feature_id) {
    geometry_op = some op;
    gen = gen_of f;
  })

unfoldable pub build_local_op : Document → ℕ → ℕ → Command → Result DocumentOp
unfolding build_edit validate_command_geometry encode_properties encode_property_value
    visible_feature geometry_op_for_command is_blank
build_local_op d seq timestamp command = elim command [
  | Command.insert_feature id geometry properties ↦ do
    refuse_if (is_blank id) invalid_command
    raw ← validate_command_geometry geometry
    encoded ← encode_properties properties
    ok (record (envelope d seq timestamp DocumentOpType.insert_feature id) {
      geometry = raw;
      properties = encoded;
    })
  | Command.delete_feature id ↦ do
    visible_feature d id >>= λ _. ok (envelope d seq timestamp DocumentOpType.delete_feature id)
  | Command.set_geometry id geometry ↦ do
    f ← visible_feature d id
    raw ← validate_command_geometry geometry
    ok (record (envelope d seq timestamp DocumentOpType.set_geometry id) { geometry = raw })
  | Command.set_property id key value ↦ do
    refuse_if (is_blank key) invalid_command
    f ← visible_feature d id
    raw ← encode_property_value value
    ok (record (envelope d seq timestamp DocumentOpType.set_property id) {
      property_key = key;
      property_value = raw;
    })
  | Command.delete_property id key ↦ do
    refuse_if (is_blank key) invalid_command
    f ← visible_feature d id
    ok (record (envelope d seq timestamp DocumentOpType.delete_property id) { property_key = key })
  | other ↦ elim (geometry_op_for_command other) [
    | none ↦ err invalid_command
    | some (id, edit) ↦ build_edit d seq timestamp id edit
  ]
]

module _ (digest : Payload → PayloadHash) where
  -- The end of `Apply`: the command must have changed the state. On an error Go keeps whatever the
  -- application did, so the document is returned beside the verdict.
  unfoldable pub commit : ℕ → ℕ → DocumentOp → Step → Document × Result (Unit {0})
  unfolding record_op
  commit clock seq op (d, applied, drained) =
      (record (record_op digest d op) { clock = clock; local_seq = seq }, ok tt)
  commit clock seq op (d, result, drained) = (d, err invalid_command)

  -- `Document.Apply`
  unfoldable pub apply_command : Document → Command → Document × Result (Unit {0})
  unfolding inc build_local_op apply_op commit
  apply_command d command =
      if leb max_timestamp (inc d.clock) || leb max_timestamp (inc d.local_seq)
      then (d, err invalid_command)
      else elim (build_local_op d (inc d.local_seq) (inc d.clock) command) [
        | err e ↦ (d, err e)
        | ok op ↦ commit (inc d.clock) (inc d.local_seq) op (apply_op d op)
      ]
