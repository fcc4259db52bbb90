-- ===== src/Tests/Documents.antt =====
-- A document, its outbox, its registers and two merges of one batch.
use geo_crdt.Common.{
  ℕ, String, false, none, some, List, [], ◌∷◌, length, ◌≡◌, ◌≢◌, refl, arith, ap, ◌∙◌, inl, inr,
  sym, lookup, insert, erase,
}
use geo_crdt.Common.Texts.{String_discrete}
use geo_crdt.Errors.{ok}
use geo_crdt.Json.{empty, value, text}
use geo_crdt.Clock.Stamp
use geo_crdt.Clock.Stamp.{Stamp}
use geo_crdt.Clock.Frontier.{new_frontier_clock, advance, restage, staged_at}
use geo_crdt.Clock.Limits.{inc}
use geo_crdt.Common.Decimal.{is_blank}
use geo_crdt.Ops.GeometryOp.{validate_identity}
use geo_crdt.Ops.Kinds.{DocumentOpType}
use geo_crdt.Ops.DocumentOp.{DocumentOp, normalize, strip_embedded_identity}
use geo_crdt.Ops.DocumentOp.Wire.{normalize-strip}
use geo_crdt.Identity.{Payload, PayloadHash}
use geo_crdt.Document.State.{FeatureState, Document, new_feature}
use geo_crdt.Document.Tally.{MergeResult}
use geo_crdt.Document.Registers.{PropertyWrite, write, property_at, write_comm}
use geo_crdt.Document.Registers.History.{write_all, Has, AreStamped, last_writer, writes-converge}
use geo_crdt.Document.Apply.{apply_op}
use geo_crdt.Document.Apply.Frame.{IsFrame, apply_op-IsFrame}
use geo_crdt.Document.Merge.{merge_ops_locked}
use geo_crdt.Document.Merge.Idempotence.{all_duplicates, merge_ops_locked-again}
use geo_crdt.Document.Outbox.{pending_ops, mark_synced}
use geo_crdt.Document.Outbox.Laws.{IsNumbered, pending_ops-mark_synced}

abbrev pub set_name : String → ℕ → ℕ → String → DocumentOp
set_name site seq timestamp name = record {
  op_type = DocumentOpType.set_property;
  site_id = site;
  seq = seq;
  timestamp = timestamp;
  feature_id = "river";
  geometry = empty;
  properties = [];
  property_key = "name";
  property_value = value (text name);
  gen = none;
  geometry_op = none;
}

-- The replica of site a, which has issued one operation.
abbrev pub replica : Document
replica = record {
  document_id = "map";
  site_id = "a";
  clock = 1;
  local_seq = 1;
  base_hash = "";
  features = [];
  ops = set_name "a" 1 1 "Aare" ∷ [];
  seen = [];
  frontier = new_frontier_clock;
  compacted = [];
  synced_through = 0;
  issued_through = 0;
  pending_gen = [];
}

replica-IsNumbered : IsNumbered replica
replica-IsNumbered = (omega arith, (λ e. omega arith, tt))

pending_ops-mark_synced_example :
    (mark_synced (pending_ops replica).0 (pending_ops replica).2
      ≡ ok (record ((pending_ops replica).0) { synced_through = (pending_ops replica).2 }))
    × ((pending_ops
          (record ((pending_ops replica).0) { synced_through = (pending_ops replica).2 })).1
        ≡ [])
pending_ops-mark_synced_example = pending_ops-mark_synced replica replica-IsNumbered

normalize-strip_example :
    (normalize (strip_embedded_identity (normalize (set_name "b" 1 2 "Rhine")))
      ≡ normalize (set_name "b" 1 2 "Rhine"))
    × (normalize (strip_embedded_identity (set_name "b" 1 2 "Rhine"))
        ≡ normalize (set_name "b" 1 2 "Rhine"))
    × (normalize (normalize (set_name "b" 1 2 "Rhine")) ≡ normalize (set_name "b" 1 2 "Rhine"))
normalize-strip_example = normalize-strip (set_name "b" 1 2 "Rhine")

apply_op-IsFrame_example : IsFrame replica (apply_op replica (set_name "b" 1 2 "Rhine")).0
apply_op-IsFrame_example = apply_op-IsFrame replica (set_name "b" 1 2 "Rhine")

abbrev pub rename : String → ℕ → String → PropertyWrite
rename site timestamp name = record {
  key = "name";
  state = record {
    value = value (text name);
    deleted = false;
    reg = record { timestamp = timestamp; site_id = site; seq = 1 };
  };
}

abbrev pub river : FeatureState
river = new_feature "river"

river-fresh : (key : String) → property_at river key ≡ none
unfolding lookup
river-fresh key = refl

different : (rename "a" 1 "Aare").state.reg ≢ (rename "b" 2 "Rhine").state.reg
different e = omega (arith, ap (λ (x : Stamp). x.timestamp) e)

write_comm_example :
    property_at (write (write river (rename "a" 1 "Aare")) (rename "b" 2 "Rhine")) "name"
    ≡ property_at (write (write river (rename "b" 2 "Rhine")) (rename "a" 1 "Aare")) "name"
unfolding Stamp.is_set
write_comm_example =
    write_comm river (rename "a" 1 "Aare") (rename "b" 2 "Rhine") different refl refl "name"

abbrev forth : List PropertyWrite
forth = rename "b" 2 "Rhine" ∷ rename "a" 1 "Aare" ∷ []

abbrev back : List PropertyWrite
back = rename "a" 1 "Aare" ∷ rename "b" 2 "Rhine" ∷ []

forth-AreStamped : AreStamped forth
unfolding Stamp.is_set
forth-AreStamped = (refl, (refl, tt))

back-AreStamped : AreStamped back
unfolding Stamp.is_set
back-AreStamped = (refl, (refl, tt))

last_writer_example :
    (v : PropertyWrite) × Has v back
    × (v.key ≡ "name")
    × (property_at (write_all river back) "name" ≡ some v.state)
    × (Stamp.less v.state.reg (rename "a" 1 "Aare").state.reg ≡ false)
last_writer_example =
    last_writer river river-fresh back (rename "a" 1 "Aare") back-AreStamped (inl refl)

swap : (w : PropertyWrite) → Has w forth → Has w back
swap w (inl e) = inr (inl e)
swap w (inr (inl e)) = inl e
swap w (inr (inr m)) = absurd m

swap_back : (w : PropertyWrite) → Has w back → Has w forth
swap_back w (inl e) = inr (inl e)
swap_back w (inr (inl e)) = inl e
swap_back w (inr (inr m)) = absurd m

timestamp_of : PropertyWrite → ℕ
timestamp_of w = w.state.reg.timestamp

told_apart :
    (v w : PropertyWrite)
    → Has v forth
    → Has w forth
    → v.key ≡ w.key
    → v.state.reg ≡ w.state.reg
    → v.state ≡ w.state
unfolding timestamp_of
told_apart v w (inl e) (inl e') k r = ap (λ (x : PropertyWrite). x.state) (e ∙ sym e')
told_apart v w (inl e) (inr (inl e')) k r =
    absurd (omega (arith, ap timestamp_of e, ap timestamp_of e', ap (λ (s : Stamp). s.timestamp) r))
told_apart v w (inr (inl e)) (inl e') k r =
    absurd (omega (arith, ap timestamp_of e, ap timestamp_of e', ap (λ (s : Stamp). s.timestamp) r))
told_apart v w (inr (inl e)) (inr (inl e')) k r = ap (λ (x : PropertyWrite). x.state) (e ∙ sym e')
told_apart v w (inr (inr m)) n k r = absurd m
told_apart v w (inl e) (inr (inr n)) k r = absurd n
told_apart v w (inr (inl e)) (inr (inr n)) k r = absurd n

writes-converge_example :
    property_at (write_all river forth) "name" ≡ property_at (write_all river back) "name"
writes-converge_example =
    writes-converge river river-fresh forth back "name" forth-AreStamped back-AreStamped
      (λ w. (swap w, swap_back w)) told_apart

abbrev pub digest : Payload → PayloadHash
digest payload = 7

abbrev batch : List DocumentOp
batch = set_name "b" 1 2 "Rhine" ∷ []

abbrev pub merged : Document
merged = record replica {
  clock = 2;
  features =
      ("river", record river { properties = ("name", (rename "b" 2 "Rhine").state) ∷ [] }) ∷ [];
  ops = set_name "a" 1 1 "Aare" ∷ set_name "b" 1 2 "Rhine" ∷ [];
  seen = (record { site_id = "b"; seq = 1 }, 7) ∷ [];
  frontier = record { frontier = ("b", 1) ∷ []; staged = [] };
}

abbrev pub merged_result : MergeResult
merged_result = record {
  applied_count = 1;
  duplicates = 0;
  superseded_refs = [];
  buffered_refs = [];
  quarantined_ops = [];
}

replica-merge : merge_ops_locked digest replica batch ≡ ok (merged, merged_result)
unfolding merge_ops_locked validate_identity is_blank String_discrete lookup insert inc advance
    restage staged_at erase
replica-merge = refl

merge_ops_locked-again_example :
    merge_ops_locked digest merged batch ≡ ok (merged, all_duplicates (length batch))
merge_ops_locked-again_example =
    merge_ops_locked-again digest replica merged batch merged_result replica-merge
