-- ===== src/Document/Merge/Log.antt =====
-- The frontier clock of a document that was made new is what its log gives.
use geo_crdt.Common.{
  ℕ, ◌<◌, ◌≤◌, ◌⊎◌, has, ℕ_discrete, All-map, String, true, List, [], ◌∷◌, ◌++◌, ◌≡◌, refl, sym, ap,
  ◌∙◌, subst, arith, All, Bool-cases, inl, inr, sort_stable,
}
use geo_crdt.Errors.{ok, bind_ok, ok_inj, Result-cases}
use geo_crdt.Clock.Limits.{max_timestamp}
use geo_crdt.Clock.OpRef.{OpRef}
use geo_crdt.Clock.Vector.{seq_of}
use geo_crdt.Clock.Frontier.{FrontierClock, observe, staged_at}
use geo_crdt.Clock.Frontier.History.{received, observe_all, InRange, received-observed}
use geo_crdt.Ops.DocumentOp
use geo_crdt.Ops.DocumentOp.{DocumentOp}
use geo_crdt.Identity.{Payload, PayloadHash, hash_document_op}
use geo_crdt.Document.State.{Document}
use geo_crdt.Document.Base.{CanonicalBase}
use geo_crdt.Document.New.{Fresh, new_document}
use geo_crdt.Document.Tally.{MergeTally, MergeResult, new_merge_tally, tally_duplicate}
use geo_crdt.Document.Apply.{apply_op, stamp_less}
use geo_crdt.Document.Apply.Frame.{apply_op-IsFrame}
use geo_crdt.Document.Merge.{record_op, merge_loop, is_known, prepare, merge_ops_locked}
use geo_crdt.Document.Merge.Later.{merge_loop-skip, merge_loop-new}

-- The references of a log, newest first, on those of an earlier one.
unfoldable pub trail : List OpRef → List DocumentOp → List OpRef
trail before [] = before
trail before (op ∷ ops) = trail (DocumentOp.ref op ∷ before) ops

trail-append :
    (before : List OpRef) (ops : List DocumentOp) (op : DocumentOp)
    → trail before (ops ++ op ∷ []) ≡ DocumentOp.ref op ∷ trail before ops
unfolding trail
trail-append before [] op = refl
trail-append before (x ∷ ops) op = trail-append (DocumentOp.ref x ∷ before) ops op

-- The frontier clock has observed the operations of the log, in its order.
abbrev pub HasHistory : Document → Type 0
HasHistory d = d.frontier ≡ observe_all (trail [] d.ops)

received-first : (r : OpRef) (h : List OpRef) → received r.site_id (r ∷ h) r.seq ≡ true
unfolding received
received-first r h = ground arith

received-later :
    (s : String) (k : ℕ) (r : OpRef) (h : List OpRef)
    → received s h k ≡ true
    → received s (r ∷ h) k ≡ true
unfolding received
received-later s k r h e = ground (arith, e)

trail-received :
    (s : String) (k : ℕ) (before : List OpRef) (ops : List DocumentOp)
    → received s before k ≡ true
    → received s (trail before ops) k ≡ true
unfolding trail
trail-received s k before [] e = e
trail-received s k before (op ∷ ops) e =
    trail-received s k (DocumentOp.ref op ∷ before) ops
      (received-later s k (DocumentOp.ref op) before e)

trail-All :
    (before : List OpRef) (ops : List DocumentOp)
    → All (λ (op : DocumentOp). received op.site_id (trail before ops) op.seq ≡ true) ops
unfolding trail
trail-All before [] = tt
trail-All before (op ∷ ops) = (
  trail-received op.site_id op.seq (DocumentOp.ref op ∷ before) ops
      (received-first (DocumentOp.ref op) before),
  trail-All (DocumentOp.ref op ∷ before) ops,
)

trail-InRange :
    (before : List OpRef) (ops : List DocumentOp)
    → InRange before
    → All (λ (op : DocumentOp). op.seq < max_timestamp) ops
    → InRange (trail before ops)
unfolding trail
trail-InRange before [] v a = v
trail-InRange before (op ∷ ops) v a = trail-InRange (DocumentOp.ref op ∷ before) ops (a.0, v) a.1

-- The operation's number is within the frontier of its site, or staged beyond a gap of it.
abbrev pub IsObserved : FrontierClock → DocumentOp → Type 0
IsObserved f op =
    (op.seq ≤ seq_of f.frontier op.site_id)
    ⊎ (has ℕ_discrete op.seq (staged_at f op.site_id) ≡ true)

-- A frontier clock that is what the log gives has observed the log, where the numbers are below
-- MaxTimestamp.
pub HasHistory-IsObserved :
    (d : Document)
    → HasHistory d
    → All (λ (op : DocumentOp). op.seq < max_timestamp) d.ops
    → All (IsObserved d.frontier) d.ops
HasHistory-IsObserved d h a =
    subst (λ f. All (IsObserved f) d.ops) (sym h)
      (All-map _ (IsObserved (observe_all (trail [] d.ops)))
        (λ op e.
          received-observed (trail [] d.ops) op.site_id op.seq (trail-InRange [] d.ops tt a) e)
        d.ops (trail-All [] d.ops))

pub new_document-HasHistory :
    (base_digest : CanonicalBase → String) (fresh : Fresh) (document_id site_id : String)
    → HasHistory (new_document base_digest fresh document_id site_id)
unfolding new_document trail observe_all
new_document-HasHistory base_digest fresh document_id site_id = refl

module _ (digest : Payload → PayloadHash) where
  record_op-HasHistory :
      (d : Document) (op : DocumentOp) → HasHistory d → HasHistory (record_op digest d op)
  unfolding record_op observe_all
  record_op-HasHistory d op h = elim (Result-cases (hash_document_op digest op)) [
    | inl (e, q) ↦ rw (record_op, q) h
    | inr (hash, q) ↦
        rw (record_op, q)
          (ap (λ f. observe f op.site_id op.seq) h
            ∙ ap observe_all (sym (trail-append [] d.ops op)))
  ]

  apply_op-HasHistory :
      (d : Document) (op : DocumentOp) → HasHistory d → HasHistory (apply_op d op).0
  apply_op-HasHistory d op h =
      ap (λ (x : Document). x.frontier) (apply_op-IsFrame d op)
      ∙ h
      ∙ sym (ap (λ (x : Document). observe_all (trail [] x.ops)) (apply_op-IsFrame d op))

  merge_loop-HasHistory :
      (d : Document) (t : MergeTally) (ops : List DocumentOp)
      → HasHistory d
      → HasHistory (merge_loop digest d t ops).0
  unfolding merge_loop
  merge_loop-HasHistory d t [] h = h
  merge_loop-HasHistory d t (op ∷ ops) h =
      let Ends : Document × MergeTally → Type 0 = λ r. HasHistory r.0 in
      elim (Bool-cases (is_known d op)) [
        | inl e ↦
            subst Ends (sym (merge_loop-skip digest d t op ops e))
              (merge_loop-HasHistory d (tally_duplicate t) ops h)
        | inr e ↦ subst Ends (sym (merge_loop-new digest d t op ops e)) (
            merge_loop-HasHistory (record_op digest (apply_op d op).0 op) _ ops
              (record_op-HasHistory (apply_op d op).0 op (apply_op-HasHistory d op h)))
      ]

  -- Merging a batch keeps the frontier clock what the log gives.
  pub merge_ops_locked-HasHistory :
      (d : Document) (batch : List DocumentOp) (r : Document × MergeResult)
      → merge_ops_locked digest d batch ≡ ok r
      → HasHistory d
      → HasHistory r.0
  unfolding merge_ops_locked
  merge_ops_locked-HasHistory d batch r e h =
      let (p, _, e1) = bind_ok (prepare digest d [] d.clock batch) _ r e in
      subst (λ (x : Document × MergeResult). HasHistory x.0) (ok_inj e1)
        (merge_loop-HasHistory d new_merge_tally (sort_stable stamp_less p.0) h)
