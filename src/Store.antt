-- ===== src/Store.antt =====
-- memstore.go: the store in memory. An error leaves the store with the document that `document`
-- entered, so a fallible operation returns the store as well.
pub mod Append
pub mod Laws
pub mod Invariant
pub mod Snapshots
use geo_crdt.Common.{
  String, Bool, true, false, Option, none, some, List, [], ◌∷◌, ◌++◌, Map, lookup, insert, has,
  if◌then◌else◌, sort_stable,
}
use geo_crdt.Common.Texts.{String_discrete, text_eq}
use geo_crdt.Errors.{Result, ok, err, plain, identity_collision, refuse_if, ◌>>=◌, ◌>>◌}
use geo_crdt.Clock.OpRef.{OpRef, OpRef_discrete}
use geo_crdt.Clock.Vector.{VectorClock}
use geo_crdt.Ops.DocumentOp
use geo_crdt.Ops.DocumentOp.{DocumentOp, normalize, dot_less}
use geo_crdt.Ops.DocumentOp.Beyond.{beyond}
use geo_crdt.Identity.{Payload, PayloadHash, hash_document_op}
use geo_crdt.Document.Merge.{collides}
use geo_crdt.Snapshot.{Snapshot}
use geo_crdt.Snapshot.Copy.{clone_snapshot}

pub record MemDocument : Type 0 where
  pub ops : List DocumentOp
  pub seen : Map OpRef PayloadHash

pub record MemStore : Type 0 where
  pub documents : Map String MemDocument
  pub snapshots : Map String (Map String Snapshot)

abbrev pub new_mem_store : MemStore
new_mem_store = record { documents = []; snapshots = [] }

abbrev pub new_mem_document : MemDocument
new_mem_document = record { ops = []; seen = [] }

-- The document stored under the ID, or the empty one that is entered for it.
unfoldable pub stored_document : MemStore → String → MemDocument
stored_document s id = elim (lookup String_discrete id s.documents) [
  | none ↦ new_mem_document
  | some d ↦ d
]

abbrev pub put_document : MemStore → String → MemDocument → MemStore
put_document s id d = record s { documents = insert String_discrete id d s.documents }

-- `MemStore.document`
unfoldable pub open_document : MemStore → String → Result (MemStore × MemDocument)
unfolding stored_document
open_document s id =
    if text_eq id ""
    then err plain
    else ok (put_document s id (stored_document s id), stored_document s id)

-- The second loop of `Append`, over the operations with their hashes.
unfoldable pub append_loop : MemDocument → List (DocumentOp × PayloadHash) → MemDocument
unfolding normalize
append_loop d [] = d
append_loop d ((op, hash) ∷ rest) = elim (has OpRef_discrete (DocumentOp.ref op) d.seen) [
  | true ↦ append_loop d rest
  | false ↦
      append_loop
        (record {
          ops = d.ops ++ normalize op ∷ [];
          seen = insert OpRef_discrete (DocumentOp.ref op) hash d.seen;
        })
        rest
]

module _ (digest : Payload → PayloadHash) where
  -- The first loop of `Append`: the operations with their hashes, where no identity has two.
  unfoldable pub check_loop :
      Map OpRef PayloadHash
      → Map OpRef PayloadHash
      → List DocumentOp
      → Result (List (DocumentOp × PayloadHash))
  unfolding hash_document_op
  check_loop seen batch [] = ok []
  check_loop seen batch (op ∷ ops) = do
    hash ← hash_document_op digest op
    refuse_if (collides (DocumentOp.ref op) hash seen) identity_collision
    refuse_if (collides (DocumentOp.ref op) hash batch) identity_collision
    rest ← check_loop seen (insert OpRef_discrete (DocumentOp.ref op) hash batch) ops
    ok ((op, hash) ∷ rest)

  -- `MemStore.Append`
  unfoldable pub append : MemStore → String → List DocumentOp → MemStore × Result (Unit {0})
  unfolding open_document check_loop append_loop
  append s id ops = elim (open_document s id) [
    | err e ↦ (s, err e)
    | ok (opened, d) ↦ elim (check_loop d.seen [] ops) [
      | err e ↦ (opened, err e)
      | ok hashed ↦ (put_document opened id (append_loop d hashed), ok tt)
    ]
  ]

-- `MemStore.Since`
unfoldable pub since : MemStore → String → VectorClock → MemStore × Result (List DocumentOp)
unfolding open_document beyond normalize sort_stable dot_less
since s id clock = elim (open_document s id) [
  | err e ↦ (s, err e)
  | ok (opened, d) ↦ (opened, ok (sort_stable dot_less (beyond normalize clock d.ops)))
]

-- `s.snapshots[documentID]`
unfoldable pub snapshots_of : MemStore → String → Map String Snapshot
snapshots_of s id = elim (lookup String_discrete id s.snapshots) [ none ↦ [] | some m ↦ m ]

-- `MemStore.Save`
unfoldable pub save : MemStore → Snapshot → MemStore × Result (Unit {0})
unfolding snapshots_of clone_snapshot
save s snapshot = if text_eq snapshot.document_id "" then (s, err plain) else (
  record s {
    snapshots =
        insert String_discrete snapshot.document_id
          (insert String_discrete snapshot.id (clone_snapshot snapshot)
            (snapshots_of s snapshot.document_id))
          s.snapshots;
  },
  ok tt,
)

abbrev pub load_from : Map String Snapshot → String → Result Snapshot
load_from m id = elim (lookup String_discrete id m) [
  | none ↦ err plain
  | some snapshot ↦ ok (clone_snapshot snapshot)
]

-- `MemStore.Load`
unfoldable pub load : MemStore → String → String → Result Snapshot
unfolding snapshots_of clone_snapshot
load s document_id id = load_from (snapshots_of s document_id) id
