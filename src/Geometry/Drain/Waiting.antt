-- ===== src/Geometry/Drain/Waiting.antt =====
-- The operations that wait in a geometry: none of them adds a part.
use geo_crdt.Common.{
  Bool, true, false, List, [], ◌∷◌, ◌++◌, Map, lookup, insert, erase, All, ◌≡◌, sym, subst, arith,
  if_pos, if_neg,
}
use geo_crdt.Ops.Kinds.{GeometryOpAction}
use geo_crdt.Ops.GeometryOp.{GeometryOp}
use geo_crdt.Geometry.State.{GeometryState, DepKey, DepKey_discrete}
use geo_crdt.Geometry.Drain.{waiting_on, wait_on}

abbrev pub is_add_part : GeometryOpAction → Bool
is_add_part GeometryOpAction.add_part = true
is_add_part _ = false

-- An operation that can wait: every action but `add_part`.
abbrev pub CanWait : GeometryOp → Type 0
CanWait op = is_add_part op.action ≡ false

-- The operations that wait can wait.
abbrev pub AreWaiting : Map DepKey (List GeometryOp) → Type 0
AreWaiting m = All (λ (e : DepKey × List GeometryOp). All CanWait e.1) m

pub CanWait-append :
    (ops : List GeometryOp) (op : GeometryOp)
    → All CanWait ops
    → CanWait op
    → All CanWait (ops ++ op ∷ [])
CanWait-append [] op a w = (w, tt)
CanWait-append (x ∷ ops) op a w = (a.0, CanWait-append ops op a.1 w)

waiting_on_here :
    (k dep : DepKey) (ops : List GeometryOp) (m : Map DepKey (List GeometryOp))
    → k ≡ dep
    → waiting_on ((k, ops) ∷ m) dep ≡ ops
unfolding waiting_on lookup
waiting_on_here k dep ops m e = ground (arith, e)

waiting_on_there :
    (k dep : DepKey) (ops : List GeometryOp) (m : Map DepKey (List GeometryOp))
    → ¬ (k ≡ dep)
    → waiting_on ((k, ops) ∷ m) dep ≡ waiting_on m dep
unfolding waiting_on lookup
waiting_on_there k dep ops m n = ground (arith, n)

pub waiting_on-CanWait :
    (m : Map DepKey (List GeometryOp)) (dep : DepKey)
    → AreWaiting m
    → All CanWait (waiting_on m dep)
unfolding waiting_on lookup
waiting_on-CanWait [] dep a = tt
waiting_on-CanWait ((k, ops) ∷ m) dep a = elim (DepKey_discrete k dep) [
  | yes e ↦ subst (All CanWait) (sym (waiting_on_here k dep ops m e)) a.0
  | no n ↦ subst (All CanWait) (sym (waiting_on_there k dep ops m n)) (waiting_on-CanWait m dep a.1)
]

pub AreWaiting-insert :
    (m : Map DepKey (List GeometryOp)) (dep : DepKey) (ops : List GeometryOp)
    → AreWaiting m
    → All CanWait ops
    → AreWaiting (insert DepKey_discrete dep ops m)
unfolding insert
AreWaiting-insert [] dep ops a w = (w, tt)
AreWaiting-insert ((k, old) ∷ m) dep ops a w = elim (DepKey_discrete k dep) [
  | yes e ↦ rw (if_pos _ e) (w, a.1)
  | no n ↦ rw (if_neg _ n) (a.0, AreWaiting-insert m dep ops a.1 w)
]

pub AreWaiting-erase :
    (m : Map DepKey (List GeometryOp)) (dep : DepKey)
    → AreWaiting m
    → AreWaiting (erase DepKey_discrete dep m)
unfolding erase
AreWaiting-erase [] dep a = tt
AreWaiting-erase ((k, old) ∷ m) dep a = elim (DepKey_discrete k dep) [
  | yes e ↦ rw (if_pos _ e) (AreWaiting-erase m dep a.1)
  | no n ↦ rw (if_neg _ n) (a.0, AreWaiting-erase m dep a.1)
]

-- An operation that waits for one more dependency.
pub wait_on-AreWaiting :
    (g : GeometryState) (dep : DepKey) (op : GeometryOp)
    → CanWait op
    → AreWaiting g.pending
    → AreWaiting (wait_on dep op g).pending
unfolding wait_on
wait_on-AreWaiting g dep op w a =
    AreWaiting-insert g.pending dep (waiting_on g.pending dep ++ op ∷ []) a
      (CanWait-append (waiting_on g.pending dep) op (waiting_on-CanWait g.pending dep a) w)
