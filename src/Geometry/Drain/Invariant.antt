-- ===== src/Geometry/Drain/Invariant.antt =====
-- No operation that adds a part ever waits.
use geo_crdt.Common.{
  ℕ, zero, suc, ◌+◌, none, [], length, ◌≡◌, refl, sym, subst, inl, inr, List-cases,
}
use geo_crdt.Ops.GeometryOp.{GeometryOp}
use geo_crdt.Geometry.State.{
  GeometryState, DepKey, ApplyResult, applied, buffered, duplicate, superseded, quarantined,
}
use geo_crdt.Geometry.Apply.{apply_once}
use geo_crdt.Geometry.Drain
use geo_crdt.Geometry.Drain.{
  after_once, drain, ring_vertex_deps, unlocked_deps, waiting_on, wait_on, Drained, retried,
  retry_all, drain_dep, drain_loop, unlocks, unlocks_all, unlocks_pending,
}
use geo_crdt.Geometry.Drain.Pending.{apply_once-pending, apply_once-CanWait}
use geo_crdt.Geometry.Drain.Waiting.{CanWait, AreWaiting, wait_on-AreWaiting}
use geo_crdt.Geometry.Drain.Fuel.{drain_loop_done, drain_loop_next, drain_dep-Keeps}

drain_loop-AreWaiting :
    (fuel : ℕ) (d : Drained)
    → AreWaiting d.state.pending
    → AreWaiting (drain_loop fuel d).state.pending
unfolding drain_loop
drain_loop-AreWaiting zero d a = a
drain_loop-AreWaiting (suc fuel) d a = elim (List-cases d.deps) [
  | inl e ↦
      subst (λ (x : Drained). AreWaiting x.state.pending) (sym (drain_loop_done (suc fuel) d e)) a
  | inr (dep, deps, e) ↦
      let popped : Drained = record d { deps = deps } in
      subst (λ (x : Drained). AreWaiting x.state.pending) (sym (drain_loop_next fuel d dep deps e))
        (drain_loop-AreWaiting fuel (drain_dep popped dep) (drain_dep-Keeps popped dep a).1)
]

after_once-AreWaiting :
    (op : GeometryOp) (r : GeometryState × ApplyResult)
    → ((dep : DepKey) → r.1 ≡ buffered dep → CanWait op)
    → AreWaiting r.0.pending
    → AreWaiting (after_once op r).0.pending
unfolding after_once drain
after_once-AreWaiting op (g, buffered dep) w a = wait_on-AreWaiting g dep op (w dep refl) a
after_once-AreWaiting op (g, applied) w a =
    drain_loop-AreWaiting (length (unlocked_deps g op) + unlocks_pending g.pending)
      (record {
        state = record g { cache = none };
        deps = unlocked_deps (record g { cache = none }) op;
        outcomes = [];
      })
      a
after_once-AreWaiting op (g, duplicate) w a = a
after_once-AreWaiting op (g, superseded) w a = a
after_once-AreWaiting op (g, quarantined _) w a = a

-- No operation that adds a part ever waits: applying an operation keeps it so, whatever its outcome
-- and whatever it unlocks.
pub apply-AreWaiting :
    (g : GeometryState) (op : GeometryOp)
    → AreWaiting g.pending
    → AreWaiting (Drain.apply g op).0.pending
unfolding Drain.apply
apply-AreWaiting g op a =
    after_once-AreWaiting op (apply_once g op) (apply_once-CanWait g op)
      (subst AreWaiting (sym (apply_once-pending g op)) a)
