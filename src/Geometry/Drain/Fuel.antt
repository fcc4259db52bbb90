-- ===== src/Geometry/Drain/Fuel.antt =====
-- The fuel of `drain` is enough.
use geo_crdt.Common.{
  ℕ, zero, suc, ◌+◌, ◌≤◌, String, List, [], ◌∷◌, ◌++◌, Map, lookup, insert, erase, length,
  length-append, All, ◌≡◌, refl, sym, ap, ◌∙◌, subst, arith, inl, inr, List-cases,
}
use geo_crdt.Clock.OpRef.{OpRef}
use geo_crdt.Ops.GeometryOp
use geo_crdt.Ops.GeometryOp.{GeometryOp}
use geo_crdt.Geometry.State.{
  GeometryState, DepKey, DepKey_discrete, ApplyResult, applied, buffered, duplicate, superseded,
  quarantined,
}
use geo_crdt.Geometry.Apply.{apply_once}
use geo_crdt.Geometry.Drain.{
  drain, ring_vertex_deps, unlocked_deps, waiting_on, wait_on, Drained, retried, retry_all,
  drain_dep, drain_loop, unlocks, unlocks_all, unlocks_pending,
}
use geo_crdt.Geometry.Drain.Pending.{apply_once-pending}
use geo_crdt.Geometry.Drain.Waiting.{
  CanWait, AreWaiting, waiting_on-CanWait, AreWaiting-erase, wait_on-AreWaiting,
}

length-ring_vertex_deps :
    (p r : String) (ref : OpRef) (i : ℕ) (ring : List (List ℕ))
    → length (ring_vertex_deps p r ref i ring) ≡ length ring
unfolding ring_vertex_deps
length-ring_vertex_deps p r ref i [] = refl
length-ring_vertex_deps p r ref i (c ∷ ring) =
    omega (arith, length-ring_vertex_deps p r ref (suc i) ring)

length-unlocked_deps :
    (g : GeometryState) (op : GeometryOp) → CanWait op → length (unlocked_deps g op) ≤ unlocks op
unfolding unlocked_deps unlocks
length-unlocked_deps g op w = ground (
  arith,
  w,
  length-ring_vertex_deps op.part_id (GeometryOp.ring_id_of op) (GeometryOp.ref op) 0 op.ring,
)

unlocks_all-append :
    (xs ys : List GeometryOp) → unlocks_all (xs ++ ys) ≡ unlocks_all xs + unlocks_all ys
unfolding unlocks_all
unlocks_all-append [] ys = omega arith
unlocks_all-append (x ∷ xs) ys = omega (arith, unlocks_all-append xs ys)

unlocks_pending-insert :
    (m : Map DepKey (List GeometryOp)) (dep : DepKey) (op : GeometryOp)
    → unlocks_pending (insert DepKey_discrete dep (waiting_on m dep ++ op ∷ []) m)
      ≤ unlocks_pending m + unlocks op
unfolding unlocks_pending insert waiting_on lookup unlocks_all
unlocks_pending-insert [] dep op = omega arith
unlocks_pending-insert ((k, ops) ∷ m) dep op =
    ground (arith, unlocks_all-append ops (op ∷ []), unlocks_pending-insert m dep op)

unlocks_pending-erase :
    (m : Map DepKey (List GeometryOp)) (dep : DepKey)
    → unlocks_pending (erase DepKey_discrete dep m) + unlocks_all (waiting_on m dep)
      ≤ unlocks_pending m
unfolding unlocks_pending erase waiting_on lookup unlocks_all
unlocks_pending-erase [] dep = omega arith
unlocks_pending-erase ((k, ops) ∷ m) dep = ground (arith, unlocks_pending-erase m dep)

-- What is still to come: the queue, and what the operations that wait can unlock.
abbrev pub work : Drained → ℕ
work d = length d.deps + unlocks_pending d.state.pending

work-retried :
    (d : Drained) (op : GeometryOp) (r : GeometryState × ApplyResult)
    → CanWait op
    → r.0.pending ≡ d.state.pending
    → work (retried d op r) ≤ work d + unlocks op
unfolding retried wait_on
work-retried d op (g, applied) w e = omega (
  arith,
  ap unlocks_pending e,
  length-append d.deps (unlocked_deps g op),
  length-unlocked_deps g op w,
)
work-retried d op (g, buffered dep) w e =
    omega (arith, ap unlocks_pending e, unlocks_pending-insert g.pending dep op)
work-retried d op (g, duplicate) w e = omega (arith, ap unlocks_pending e)
work-retried d op (g, superseded) w e = omega (arith, ap unlocks_pending e)
work-retried d op (g, quarantined _) w e = omega (arith, ap unlocks_pending e)

retried-AreWaiting :
    (d : Drained) (op : GeometryOp) (r : GeometryState × ApplyResult)
    → CanWait op
    → AreWaiting r.0.pending
    → AreWaiting (retried d op r).state.pending
unfolding retried wait_on
retried-AreWaiting d op (g, applied) w a = a
retried-AreWaiting d op (g, buffered dep) w a = wait_on-AreWaiting g dep op w a
retried-AreWaiting d op (g, duplicate) w a = a
retried-AreWaiting d op (g, superseded) w a = a
retried-AreWaiting d op (g, quarantined _) w a = a

-- The step keeps what waits and does not add work beyond `extra`.
abbrev pub Keeps : Drained → ℕ → Drained → Type 0
Keeps d extra d' = (work d' ≤ work d + extra) × AreWaiting d'.state.pending

retry_all-Keeps :
    (d : Drained) (ops : List GeometryOp)
    → AreWaiting d.state.pending
    → All CanWait ops
    → Keeps d (unlocks_all ops) (retry_all d ops)
unfolding retry_all unlocks_all
retry_all-Keeps d [] a w = (omega arith, a)
retry_all-Keeps d (op ∷ ops) a w =
    let once = apply_once d.state op in
    let same = apply_once-pending d.state op in
    let step = retried d op once in
    let le = work-retried d op once w.0 same in
    let (rest, kept) =
      retry_all-Keeps step ops (retried-AreWaiting d op once w.0 (subst AreWaiting (sym same) a))
        w.1 in
    (omega (arith, le, rest), kept)

pub drain_dep-Keeps :
    (d : Drained) (dep : DepKey) → AreWaiting d.state.pending → Keeps d 0 (drain_dep d dep)
unfolding drain_dep
drain_dep-Keeps d dep a =
    let start : Drained = record d {
      state = record (d.state) { pending = erase DepKey_discrete dep d.state.pending };
    } in
    let (le, kept) =
      retry_all-Keeps start (waiting_on d.state.pending dep)
        (AreWaiting-erase d.state.pending dep a) (waiting_on-CanWait d.state.pending dep a) in
    (omega (arith, le, unlocks_pending-erase d.state.pending dep), kept)

pub drain_loop_done : (fuel : ℕ) (d : Drained) → d.deps ≡ [] → drain_loop fuel d ≡ d
unfolding drain_loop
drain_loop_done zero d e = refl
drain_loop_done (suc fuel) d e = ground (arith, e)

pub drain_loop_next :
    (fuel : ℕ) (d : Drained) (dep : DepKey) (deps : List DepKey)
    → d.deps ≡ dep ∷ deps
    → drain_loop (suc fuel) d ≡ drain_loop fuel (drain_dep (record d { deps = deps }) dep)
unfolding drain_loop
drain_loop_next fuel d dep deps e = rw (drain_loop, e) refl

-- The queue is empty where the loop stops, and more fuel changes nothing.
abbrev pub Finishes : ℕ → Drained → Type 0
Finishes fuel d =
    ((drain_loop fuel d).deps ≡ []) × ((n : ℕ) → fuel ≤ n → drain_loop n d ≡ drain_loop fuel d)

length-zero : (l : List DepKey) → length l ≤ 0 → l ≡ []
length-zero [] h = refl
length-zero (x ∷ l) h = absurd (omega (arith, h))

drain_loop_stable :
    (fuel : ℕ) (d : Drained) (dep : DepKey) (deps : List DepKey)
    → d.deps ≡ dep ∷ deps
    → ((n : ℕ)
        → fuel ≤ n
        → drain_loop n (drain_dep (record d { deps = deps }) dep)
          ≡ drain_loop fuel (drain_dep (record d { deps = deps }) dep))
    → (n : ℕ) → suc fuel ≤ n
    → drain_loop n d ≡ drain_loop (suc fuel) d
drain_loop_stable fuel d dep deps e stable zero le = absurd (omega (arith, le))
drain_loop_stable fuel d dep deps e stable (suc n) le =
    drain_loop_next n d dep deps e
    ∙ stable n (omega (arith, le))
    ∙ sym (drain_loop_next fuel d dep deps e)

drain_loop-Finishes :
    (fuel : ℕ) (d : Drained) → work d ≤ fuel → AreWaiting d.state.pending → Finishes fuel d
unfolding drain_loop
drain_loop-Finishes zero d h a =
    let empty = length-zero d.deps (omega (arith, h)) in (empty, λ n le. drain_loop_done n d empty)
drain_loop-Finishes (suc fuel) d h a = elim (List-cases d.deps) [
  | inl e ↦ (
    ap (λ (x : Drained). x.deps) (drain_loop_done (suc fuel) d e) ∙ e,
    λ n le. drain_loop_done n d e ∙ sym (drain_loop_done (suc fuel) d e),
  )
  | inr (dep, deps, e) ↦
      let popped : Drained = record d { deps = deps } in
      let (le, kept) = drain_dep-Keeps popped dep a in
      let (done, stable) =
        drain_loop-Finishes fuel (drain_dep popped dep) (omega (arith, le, h, ap length e)) kept in
      let next = drain_loop_next fuel d dep deps e in
      (ap (λ (x : Drained). x.deps) next ∙ done, drain_loop_stable fuel d dep deps e stable)
]

-- Where no `add_part` waits, the loop of `drain` runs until its queue is empty: with any fuel from
-- what the queue holds and the waiting operations can unlock, the queue is empty at the end and
-- `drain` returns what the loop has made.
pub drain-Finishes :
    (g : GeometryState) (deps : List DepKey) (n : ℕ)
    → AreWaiting g.pending
    → length deps + unlocks_pending g.pending ≤ n
    → let d = drain_loop n (record { state = g; deps = deps; outcomes = [] }) in
      (d.deps ≡ []) × (drain g deps ≡ (d.state, d.outcomes))
unfolding drain
drain-Finishes g deps n a le =
    let start : Drained = record { state = g; deps = deps; outcomes = [] } in
    let (done, stable) =
      drain_loop-Finishes (length deps + unlocks_pending g.pending) start (omega arith) a in
    let same = stable n le in
    (
      ap (λ (x : Drained). x.deps) same ∙ done,
      ap (λ (x : Drained). (x.state, x.outcomes)) (sym same),
    )
