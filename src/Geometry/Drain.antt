-- ===== src/Geometry/Drain.antt =====
-- geometry.go: `apply` and `drain`, which retry the operations that a change unlocks.
pub mod Waiting
pub mod Pending
pub mod Fuel
pub mod Invariant
use geo_crdt.Common.{
  ℕ, zero, suc, ◌+◌, String, none, some, List, [], ◌∷◌, ◌++◌, Map, lookup, insert, erase, length,
}
use geo_crdt.Ids.{add_ring_vertex_id}
use geo_crdt.Clock.OpRef.{OpRef}
use geo_crdt.Ops.Kinds.{GeometryOpAction}
use geo_crdt.Ops.GeometryOp
use geo_crdt.Ops.GeometryOp.{GeometryOp, vertex_id_of, ring_id_of, part_id_of}
use geo_crdt.Seq.Vertices.{Element}
use geo_crdt.Seq.Walk.{walk}
use geo_crdt.Geometry.State.{
  RingState, GeometryState, DepKey, DepKey_discrete, ApplyResult, applied, buffered, OpOutcome,
  find_part,
}
use geo_crdt.Geometry.Apply.{apply_once, part_dep, ring_dep, vertex_dep}

-- `for i := range op.Ring`
unfoldable pub ring_vertex_deps : String → String → OpRef → ℕ → List (List ℕ) → List DepKey
ring_vertex_deps part_id ring_id ref i [] = []
ring_vertex_deps part_id ring_id ref i (_ ∷ rest) =
    vertex_dep part_id ring_id (add_ring_vertex_id ref i)
    ∷ ring_vertex_deps part_id ring_id ref (suc i) rest

unfoldable pub element_deps : String → String → List Element → List DepKey
element_deps part_id ring_id [] = []
element_deps part_id ring_id (el ∷ els) =
    vertex_dep part_id ring_id el.id ∷ element_deps part_id ring_id els

unfoldable pub part_deps : String → List RingState → List DepKey
unfolding element_deps walk
part_deps part_id [] = []
part_deps part_id (ring ∷ rest) =
    ring_dep part_id ring.id
    ∷ (element_deps part_id ring.id (walk ring.seq) ++ part_deps part_id rest)

unfoldable pub unlocked_deps : GeometryState → GeometryOp → List DepKey
unfolding ring_vertex_deps part_deps find_part vertex_id_of ring_id_of part_id_of
unlocked_deps g op = elim op.action [
  | GeometryOpAction.insert_vertex ↦ vertex_dep op.part_id op.ring_id (vertex_id_of op) ∷ []
  | GeometryOpAction.add_ring ↦
      ring_dep op.part_id (ring_id_of op)
      ∷ ring_vertex_deps op.part_id (ring_id_of op) (GeometryOp.ref op) 0 op.ring
  | GeometryOpAction.add_part ↦
      part_dep (part_id_of op) ∷ elim (find_part (part_id_of op) g.parts) [
        | none ↦ []
        | some part ↦ part_deps (part_id_of op) part.rings
      ]
  | _ ↦ []
]

-- `g.pending[dep]`, empty where the key is missing.
unfoldable pub waiting_on : Map DepKey (List GeometryOp) → DepKey → List GeometryOp
waiting_on pending dep = elim (lookup DepKey_discrete dep pending) [ none ↦ [] | some ops ↦ ops ]

-- `g.pending[dep] = append(g.pending[dep], op)`
unfoldable pub wait_on : DepKey → GeometryOp → GeometryState → GeometryState
unfolding waiting_on
wait_on dep op g = record g {
  pending = insert DepKey_discrete dep (waiting_on g.pending dep ++ op ∷ []) g.pending;
}

abbrev pub outcome_of : GeometryOp → ApplyResult → OpOutcome
outcome_of op r = record { ref = GeometryOp.ref op; outcome = r }

-- What one retry does to the state, the queue of dependencies and the outcomes.
pub record Drained : Type 0 where
  pub state : GeometryState
  pub deps : List DepKey
  pub outcomes : List OpOutcome

unfoldable pub retried : Drained → GeometryOp → GeometryState × ApplyResult → Drained
unfolding wait_on unlocked_deps
retried d op (g, buffered dep) = record d { state = wait_on dep op g }
retried d op (g, applied) = record {
  state = record g { cache = none };
  deps = d.deps ++ unlocked_deps g op;
  outcomes = d.outcomes ++ outcome_of op applied ∷ [];
}
retried d op (g, r) = record d { state = g; outcomes = d.outcomes ++ outcome_of op r ∷ [] }

-- The inner loop of `drain`.
unfoldable pub retry_all : Drained → List GeometryOp → Drained
unfolding retried apply_once
retry_all d [] = d
retry_all d (op ∷ waiting) = retry_all (retried d op (apply_once d.state op)) waiting

-- `delete(g.pending, dep)`, then the retries.
unfoldable pub drain_dep : Drained → DepKey → Drained
unfolding retry_all waiting_on
drain_dep d dep =
    retry_all
      (record d {
        state = record (d.state) { pending = erase DepKey_discrete dep d.state.pending };
      })
      (waiting_on d.state.pending dep)

-- The outer loop, while the queue holds a dependency.
unfoldable pub drain_loop : ℕ → Drained → Drained
unfolding drain_dep
drain_loop zero d = d
drain_loop (suc fuel) d = elim d.deps [
  | [] ↦ d
  | dep ∷ deps ↦ drain_loop fuel (drain_dep (record d { deps = deps }) dep)
]

-- How many dependencies a buffered operation can unlock. (`add_part` is never buffered.)
unfoldable pub unlocks : GeometryOp → ℕ
unlocks op = elim op.action [
  | GeometryOpAction.insert_vertex ↦ 1
  | GeometryOpAction.add_ring ↦ suc (length op.ring)
  | _ ↦ 0
]

unfoldable pub unlocks_all : List GeometryOp → ℕ
unfolding unlocks
unlocks_all [] = 0
unlocks_all (op ∷ ops) = unlocks op + unlocks_all ops

unfoldable pub unlocks_pending : Map DepKey (List GeometryOp) → ℕ
unfolding unlocks_all
unlocks_pending [] = 0
unlocks_pending ((_, ops) ∷ pending) = unlocks_all ops + unlocks_pending pending

-- Each round takes a dependency from the queue; those still to come are what the queue holds and
-- what the buffered operations can unlock.
unfoldable pub drain : GeometryState → List DepKey → GeometryState × List OpOutcome
unfolding drain_loop unlocks_pending
drain g deps =
    let d =
      drain_loop (length deps + unlocks_pending g.pending)
        (record { state = g; deps = deps; outcomes = [] }) in
    (d.state, d.outcomes)

-- What `apply` does with the result of `applyOnce`.
unfoldable pub after_once :
    GeometryOp → GeometryState × ApplyResult → GeometryState × ApplyResult × List OpOutcome
unfolding drain wait_on unlocked_deps
after_once op (g, buffered dep) = (wait_on dep op g, buffered dep, [])
after_once op (g, applied) =
    let (g', outcomes) = drain (record g { cache = none }) (unlocked_deps g op) in
    (g', applied, outcomes)
after_once op (g, r) = (g, r, [])

unfoldable pub apply : GeometryState → GeometryOp → GeometryState × ApplyResult × List OpOutcome
unfolding apply_once after_once
apply g op = after_once op (apply_once g op)
