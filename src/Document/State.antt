-- ===== src/Document/State.antt =====
-- document.go and properties.go: the state of a feature and of a document.
use geo_crdt.Common.{
  ℕ, String, Bool, false, not, ◌||◌, Option, none, some, List, [], Map, lookup, insert,
  if◌then◌else◌,
}
use geo_crdt.Common.Texts.{String_discrete}
use geo_crdt.Common.Decimal.{is_blank}
use geo_crdt.Errors.{Result, ok, err, invalid_command, unknown_feature}
use geo_crdt.Json.{Raw}
use geo_crdt.Identity.{PayloadHash}
use geo_crdt.Clock.OpRef
use geo_crdt.Clock.OpRef.{OpRef, OpRef_discrete}
use geo_crdt.Clock.Stamp
use geo_crdt.Clock.Stamp.{Stamp}
use geo_crdt.Clock.Vector.{VectorClock, merge_vector_clocks}
use geo_crdt.Clock.Frontier.{FrontierClock}
use geo_crdt.Ops.DocumentOp.{DocumentOp}
use geo_crdt.Geometry.State.{GeometryState}

-- `propertyState`
pub record PropertyState : Type 0 where
  pub value : Raw
  pub deleted : Bool
  pub reg : Stamp

-- `map[OpRef]struct{}`
abbrev pub RefSet : Type 0
RefSet = Map OpRef (Unit {0})

-- `featureState`
pub record FeatureState : Type 0 where
  pub id : String
  pub is_base : Bool
  pub create_reg : Stamp
  pub delete_reg : Stamp
  pub gen_id : OpRef
  pub gen_stamp : Stamp
  pub geometry : Option GeometryState
  pub seen_gens : RefSet
  pub properties : Map String PropertyState

-- `Document`, without its lock and its view options.
pub record Document : Type 0 where
  pub document_id : String
  pub site_id : String
  pub clock : ℕ
  pub local_seq : ℕ
  pub base_hash : String
  pub features : Map String FeatureState
  pub ops : List DocumentOp
  pub seen : Map OpRef PayloadHash
  pub frontier : FrontierClock
  pub compacted : VectorClock
  pub synced_through : ℕ
  pub issued_through : ℕ
  pub pending_gen : Map OpRef (List DocumentOp)

-- `featureState.visible`
unfoldable pub visible : FeatureState → Bool
unfolding Stamp.is_set Stamp.newer
visible f =
    if not (Stamp.is_set f.delete_reg)
    then f.is_base || Stamp.is_set f.create_reg
    else Stamp.newer f.create_reg f.delete_reg

abbrev pub new_feature : String → FeatureState
new_feature id = record {
  id = id;
  is_base = false;
  create_reg = Stamp.zero_stamp;
  delete_reg = Stamp.zero_stamp;
  gen_id = OpRef.zero_ref;
  gen_stamp = Stamp.zero_stamp;
  geometry = none;
  seen_gens = [];
  properties = [];
}

-- `Document.feature`: the state of the ID, or the shell that is entered for it.
unfoldable pub feature_of : Document → String → FeatureState
feature_of d id = elim (lookup String_discrete id d.features) [ none ↦ new_feature id | some f ↦ f ]

-- The write through the pointer that the map holds.
unfoldable pub put_feature : Document → String → FeatureState → Document
put_feature d id f = record d { features = insert String_discrete id f d.features }

-- `knowledgeLocked`
unfoldable pub knowledge : Document → VectorClock
unfolding merge_vector_clocks
knowledge d = merge_vector_clocks d.compacted d.frontier.frontier

-- `visibleFeature`
unfoldable pub visible_feature : Document → String → Result FeatureState
unfolding visible is_blank
visible_feature d id =
    if is_blank id then err invalid_command else elim (lookup String_discrete id d.features) [
      | none ↦ err unknown_feature
      | some f ↦ if not (visible f) then err unknown_feature else ok f
    ]
