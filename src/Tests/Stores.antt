-- ===== src/Tests/Stores.antt =====
-- A store with one document and one snapshot.
use geo_crdt.Common.{
  ℕ_discrete, ◌≡◌, ◌<◌, refl, arith, false, List, [], ◌∷◌, lookup, insert, if◌then◌else◌, ◌&&◌,
}
use geo_crdt.Common.Texts.{String_discrete, text_eq}
use geo_crdt.Common.Sorted.{here}
use geo_crdt.Errors.{ok, err, identity_collision}
use geo_crdt.Clock.OpRef.{OpRef_discrete}
use geo_crdt.Clock.Vector.{seq_of}
use geo_crdt.Ops.DocumentOp
use geo_crdt.Ops.DocumentOp.{DocumentOp, normalize}
use geo_crdt.Identity.{Payload, PayloadHash}
use geo_crdt.Snapshot.{Snapshot}
use geo_crdt.Snapshot.Copy.{clone_snapshot}
use geo_crdt.Store.{
  MemStore, new_mem_store, new_mem_document, stored_document, append, since, save, load,
}
use geo_crdt.Store.Laws.{append-again, append-error}
use geo_crdt.Store.Invariant.{
  AreConsistent, empty-IsConsistent, Answers, append-AreConsistent, since-append,
}
use geo_crdt.Store.Snapshots.{load-save}
use geo_crdt.Tests.Documents.{set_name}

-- A digest that tells the two names apart.
abbrev digest : Payload → PayloadHash
digest payload = payload.op.timestamp

abbrev batch : List DocumentOp
batch = set_name "b" 1 2 "Rhine" ∷ []

abbrev filled : MemStore
filled = record new_mem_store {
  documents =
      ("map", record { ops = batch; seen = (record { site_id = "b"; seq = 1 }, 2) ∷ [] }) ∷ [];
}

new-append : append digest new_mem_store "map" batch ≡ (filled, ok tt)
unfolding append stored_document String_discrete lookup insert
new-append = refl

-- Two payloads under one identity.
abbrev clash : List DocumentOp
clash = set_name "b" 1 2 "Rhine" ∷ set_name "b" 1 9 "Rhein" ∷ []

-- The refusal leaves an empty document behind.
abbrev entered : MemStore
entered = record filled {
  documents =
      ("map", record { ops = batch; seen = (record { site_id = "b"; seq = 1 }, 2) ∷ [] })
      ∷ ("lakes", new_mem_document)
      ∷ [];
}

filled-append : append digest filled "lakes" clash ≡ (entered, err identity_collision)
unfolding append stored_document String_discrete lookup insert OpRef_discrete ℕ_discrete
filled-append = refl

append-again_example : append digest filled "map" batch ≡ (filled, ok tt)
append-again_example = append-again digest new_mem_store filled "map" batch new-append

append-error_example : stored_document entered "map" ≡ stored_document filled "map"
append-error_example =
    append-error digest filled entered "lakes" clash identity_collision filled-append "map"

new-AreConsistent : AreConsistent new_mem_store
unfolding stored_document lookup
new-AreConsistent id = empty-IsConsistent

append-AreConsistent_example : AreConsistent filled
append-AreConsistent_example =
    append-AreConsistent digest new_mem_store filled "map" batch (ok tt) new-AreConsistent
      new-append

fresh : seq_of [] "b" < 1
unfolding seq_of lookup
fresh = omega arith

since-append_example :
    Answers digest (since filled "map" []).1 (DocumentOp.ref (set_name "b" 1 2 "Rhine"))
since-append_example =
    since-append digest new_mem_store filled "map" batch [] new-AreConsistent new-append
      (set_name "b" 1 2 "Rhine") (here refl) fresh

abbrev shot : Snapshot
shot = record {
  version = 3;
  id = "s1";
  document_id = "map";
  site_id = "b";
  base_hash = "base";
  clock = 2;
  vector_clock = ("b", 1) ∷ [];
  applied = ("b", 1) ∷ [];
  synced_through = 0;
  outbox_ops = set_name "b" 1 2 "Rhine" ∷ [];
  features = [];
  retained_ops = [];
  pending_ops = [];
}

map-named : text_eq "map" "" ≡ false
unfolding String_discrete
map-named = refl

load-save_example : load (save filled shot).0 "map" "s1" ≡ (
    if text_eq "map" "map" && text_eq "s1" "s1"
    then ok (clone_snapshot shot)
    else load filled "map" "s1")
load-save_example = load-save filled shot "map" "s1" map-named
