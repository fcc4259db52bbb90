-- ===== src/Lib.antt =====
-- geo-crdt: replicated documents of GeoJSON features.
--
-- A `Document` (document.go) is one replica: a log of wire operations (ops.go), an index of their
-- payload hashes (identity.go), clocks (clock.go) and the features. A local command is validated
-- strictly, turned into an operation and applied; a batch of remote operations is checked before any
-- state changes, sorted by stamp, and each operation that is not known is applied and logged. A
-- feature has last-writer-wins registers for its properties (properties.go), its creation and its
-- deletion, and a geometry generation whose edits go to a `geometryState` (geometry.go): parts of
-- rings of vertices, where every ring is an ordered tree of vertices (seq.go). An edit that comes
-- before what it depends on waits, in the geometry or, for a generation, in the document.
-- Replicas exchange deltas: what the log holds beyond the peer's vector clock (sync.go). A snapshot
-- is the whole state with the operations that are still to be exchanged; a replica is loaded from it
-- once it passes validation (snapshot_validation.go). A rebase makes the visible state the base of
-- a new document (rebase.go). The memory store keeps operations and snapshots (memstore.go).
--
-- The files, and the Go code that each models:
--   Common     numbers, lists, maps as association lists with distinct keys, the order of texts by
--              code points (which is Go's order of UTF-8 bytes), decimals, `strings.TrimSpace`
--   Clock      clock.go: OpRef, Stamp, Vector (`mergeVectorClocks`, `coveredBy`), Frontier
--              (`frontierClock.observe`), Limits (`MaxTimestamp` and the 64-bit increment)
--   Ids        the IDs of types.go, ops.go and geometry.go
--   Float      a `float64` by its bits, with `==`, `IsNaN` and `IsInf` read off them
--   Seq        seq.go: Key (`seqKey.before`), Search (`sort.Search` and the sorted insertion),
--              Vertices (`insert`, `move`, `delete`), Walk (`walk` and the readers)
--   Errors     errors.go: the sentinels and the result of a fallible call, without messages
--   Json       `json.RawMessage` and `json.Unmarshal` into the types that the code decodes
--   Ops        ops.go and parts of types.go: Kinds, GeometryOp, DocumentOp and the commands
--   Identity   identity.go: the canonical payloads that are hashed
--   Geometry   geometry.go: State, Parse (`newGeometryState`), Apply (`applyOnce` and the seven
--              actions), Drain (`apply`, `drain`, `unlockedDeps`, enough fuel), Local (`validateLocalOp`),
--              Export (`geoJSON`, `info`, `vertexIDAt`)
--   Document   document.go and properties.go: State, Tally (`mergeTally`), Apply (`applyOpLocked`
--              and its cases), Merge (`mergeOpsLocked`, `MergeOps`, `Merge`, `recordOp`), Command
--              (`Apply`, `buildLocalOp`), Outbox (`PendingOps`, `MarkSynced`), New (`NewDocument`),
--              Base (`computeBaseHash` and base features of geojson.go), Collection
--              (`parseFeatureCollection`, `NewDocumentFromFeatureCollection`), View (the order of
--              `Features`, `GeometryInfo`, `VertexIDAt`)
--   Sync       sync.go: Delta (`DeltaSince`, `MergeDelta`, `validateDeltaMetadata`)
--   Snapshot   sync.go: the wire types, Copy (`cloneSnapshot`), Take (`snapshotLocked`), Restore
--              (`restoreFeature`, `restoreGeometry`), Load (`NewDocumentFromSnapshot`);
--              snapshot_validation.go: Checks (stamps, references, keys), Shape (geometries), Validate
--   Store      memstore.go: `MemStore`
--   Rebase     rebase.go: `Rebase`
--   Replica    geometry_crdt.go: `GeometryCRDT`, a replica of one geometry on the engine of Geometry
--   Tests      concrete values
--
-- State is passed explicitly: an operation returns the new state beside its answer. A Go map is an
-- association list; pointers that a slice and a map share are kept once, in the slice, and found by
-- their ID; an `*element` is its ID. An error is a value of `Result`; the reason of a quarantine is
-- one of `Reason`. The SHA-256 of the JSON encoding of a payload is the parameter `digest`
-- (`geometry_digest` for a single geometry), that of a canonical base is `base_digest`, and the JSON
-- text of an exported geometry is `encode`. Timestamps and sequence numbers are natural numbers; the
-- increments of the code wrap at 2 ^ 64.
--
-- Loops without a bound in the code have fuel: `search_loop` the length of the list, since the
-- interval shrinks every round; `advance` one more than the staged numbers, since every round takes
-- one; `walk_loop` the number of elements, since every element is visited once; `drain_loop` the
-- length of the queue and what the buffered operations can unlock, since `add_part` never waits.
--
-- Not modelled: the locks, since every method holds the one lock throughout; the wording of errors;
-- the topology policy and the polygon repairs, which only change views, and the simplefeatures
-- library that they call; the text of JSON on output; the views of features; random IDs,
-- which are parameters. `panic` is left out where the guards exclude it (a repeated initial vertex,
-- a missing parent, the hash of an operation that was hashed before).
pub mod Common
pub mod Clock
pub mod Ids
pub mod Float
pub mod Seq
pub mod Errors
pub mod Json
pub mod Ops
pub mod Geometry
pub mod Identity
pub mod Document
pub mod Sync
pub mod Snapshot
pub mod Store
pub mod Rebase
pub mod Replica
mod Tests
