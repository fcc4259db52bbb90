-- ===== src/Store/Snapshots.antt =====
-- Saving and loading snapshots.
use geo_crdt.Common.{
  ite, String, ◌≡◌, ap, arith, false, insert, lookup-insert, Map, ◌∙◌, if◌then◌else◌, ◌&&◌,
}
use geo_crdt.Common.Texts.{String_discrete, text_eq}
use geo_crdt.Errors.{ok}
use geo_crdt.Snapshot.{Snapshot}
use geo_crdt.Snapshot.Copy.{clone_snapshot, clone_snapshot-again}
use geo_crdt.Store.{MemStore, snapshots_of, save, load, load_from}

saved : MemStore → Snapshot → Map String Snapshot
saved s snapshot =
    insert String_discrete snapshot.id (clone_snapshot snapshot)
      (snapshots_of s snapshot.document_id)

snapshots_of-save :
    (s : MemStore) (snapshot : Snapshot) (document_id : String)
    → text_eq snapshot.document_id "" ≡ false
    → snapshots_of (save s snapshot).0 document_id
      ≡ ite
          (String_discrete snapshot.document_id document_id)
          (saved s snapshot)
          (snapshots_of s document_id)
unfolding save snapshots_of saved
snapshots_of-save s snapshot document_id h = ground (
  arith,
  h,
  lookup-insert String_discrete snapshot.document_id document_id
      (insert String_discrete snapshot.id (clone_snapshot snapshot)
        (snapshots_of s snapshot.document_id))
      s.snapshots,
)

chosen :
    (s : MemStore) (snapshot : Snapshot) (document_id id : String)
    → load_from
        (ite
          (String_discrete snapshot.document_id document_id)
          (saved s snapshot)
          (snapshots_of s document_id))
        id
      ≡ (if text_eq snapshot.document_id document_id && text_eq snapshot.id id
          then ok (clone_snapshot snapshot)
          else load s document_id id)
unfolding load saved
chosen s snapshot document_id id = ground (
  arith,
  clone_snapshot-again snapshot,
  ap (snapshots_of s) {x = snapshot.document_id} {y = document_id},
  lookup-insert String_discrete snapshot.id id (clone_snapshot snapshot)
      (snapshots_of s snapshot.document_id),
)

-- After a snapshot was saved, its document and ID give a copy of it, and any other document and ID
-- give what they gave before.
pub load-save :
    (s : MemStore) (snapshot : Snapshot) (document_id id : String)
    → text_eq snapshot.document_id "" ≡ false
    → load (save s snapshot).0 document_id id ≡ (
        if text_eq snapshot.document_id document_id && text_eq snapshot.id id
        then ok (clone_snapshot snapshot)
        else load s document_id id)
unfolding load
load-save s snapshot document_id id h =
    ap (λ m. load_from m id) (snapshots_of-save s snapshot document_id h)
    ∙ chosen s snapshot document_id id
