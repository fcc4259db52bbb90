-- ===== src/Document/Merge/Later.antt =====
-- What merging a batch keeps: identities stay in the log, with the hash that they had.
use geo_crdt.Common.{
  ℕ, String, ◌≤◌, true, false, List, [], ◌∷◌, ◌++◌, Map, insert, has, lookup-insert, ◌≡◌, refl, sym,
  ap, ◌∙◌, arith, All, Bool-cases, inl, inr, subst,
}
use geo_crdt.Errors.{ok}
use geo_crdt.Clock.OpRef.{OpRef, OpRef_discrete}
use geo_crdt.Clock.Vector.{VectorClock, seq_of}
use geo_crdt.Clock.Frontier.{observe}
use geo_crdt.Ops.DocumentOp
use geo_crdt.Ops.DocumentOp.{DocumentOp}
use geo_crdt.Identity.{Payload, PayloadHash, hash_document_op}
use geo_crdt.Document.State.{Document}
use geo_crdt.Document.Tally.{MergeTally, tally_duplicate, tally_outcome, tally_all}
use geo_crdt.Document.Apply.{apply_op}
use geo_crdt.Document.Apply.Frame.{IsFrame, apply_op-IsFrame}
use geo_crdt.Document.Merge.{record_op, is_known, merge_loop}
use geo_crdt.Document.Merge.Prepared.{Fits}

-- `d'` comes after `d` in merging operations whose hashes `h` gives.
pub record Later (h : OpRef → PayloadHash) (d d' : Document) : Type 0 where
  pub document_id : d'.document_id ≡ d.document_id
  pub base_hash : d'.base_hash ≡ d.base_hash
  pub site_id : d'.site_id ≡ d.site_id
  pub local_seq : d'.local_seq ≡ d.local_seq
  pub compacted : (s : String) → seq_of d.compacted s ≤ seq_of d'.compacted s
  pub kept : (r : OpRef) → has OpRef_discrete r d.seen ≡ true → has OpRef_discrete r d'.seen ≡ true
  pub fits : (op : DocumentOp) → Fits h d.seen op → Fits h d'.seen op

pub Later-refl : (h : OpRef → PayloadHash) (d : Document) → Later h d d
Later-refl h d = record {
  document_id = refl;
  base_hash = refl;
  site_id = refl;
  local_seq = refl;
  compacted = λ s. omega arith;
  kept = λ r e. e;
  fits = λ op f. f;
}

-- Raising the clock and the compacted watermarks keeps the log.
pub Later-same :
    (h : OpRef → PayloadHash) (d : Document) (clock : ℕ) (compacted : VectorClock)
    → ((s : String) → seq_of d.compacted s ≤ seq_of compacted s)
    → Later h d (record d { clock = clock; compacted = compacted })
Later-same h d clock compacted le = record {
  document_id = refl;
  base_hash = refl;
  site_id = refl;
  local_seq = refl;
  compacted = le;
  kept = λ r e. e;
  fits = λ op f. f;
}

pub Later-trans :
    (h : OpRef → PayloadHash) (a b c : Document) → Later h a b → Later h b c → Later h a c
Later-trans h a b c l m = record {
  document_id = m.document_id ∙ l.document_id;
  base_hash = m.base_hash ∙ l.base_hash;
  site_id = m.site_id ∙ l.site_id;
  local_seq = m.local_seq ∙ l.local_seq;
  compacted = λ s. omega (arith, l.compacted s, m.compacted s);
  kept = λ r e. m.kept r (l.kept r e);
  fits = λ op f. m.fits op (l.fits op f);
}

pub Later-is_known :
    (h : OpRef → PayloadHash) (d d' : Document) (op : DocumentOp)
    → Later h d d'
    → is_known d op ≡ true
    → is_known d' op ≡ true
unfolding is_known
Later-is_known h d d' op l e = ground (arith, e, l.kept (DocumentOp.ref op), l.compacted op.site_id)

pub has-insert-true :
    (r q : OpRef) (k : PayloadHash) (m : Map OpRef PayloadHash)
    → has OpRef_discrete r m ≡ true
    → has OpRef_discrete r (insert OpRef_discrete q k m) ≡ true
has-insert-true r q k m e = ground (arith, e, lookup-insert OpRef_discrete q r k m)

pub has-insert_self :
    (q : OpRef) (k : PayloadHash) (m : Map OpRef PayloadHash)
    → has OpRef_discrete q (insert OpRef_discrete q k m) ≡ true
has-insert_self q k m = ground (arith, lookup-insert OpRef_discrete q q k m)

pub Fits-insert :
    (h : OpRef → PayloadHash) (x : DocumentOp) (q : OpRef) (m : Map OpRef PayloadHash)
    → Fits h m x
    → Fits h (insert OpRef_discrete q (h q) m) x
Fits-insert h x q m f k e = elim (OpRef_discrete q (DocumentOp.ref x)) [
  | yes s ↦
      subst (λ r. h r ≡ k) s
        (ground (arith, s, e, lookup-insert OpRef_discrete q (DocumentOp.ref x) (h q) m))
  | no n ↦ f k (ground (arith, n, e, lookup-insert OpRef_discrete q (DocumentOp.ref x) (h q) m))
]

-- One round of the second loop, for a known operation and for a new one.
pub merge_loop-skip :
    (digest : Payload → PayloadHash) (d : Document) (t : MergeTally) (op : DocumentOp)
    (ops : List DocumentOp)
    → is_known d op ≡ true
    → merge_loop digest d t (op ∷ ops) ≡ merge_loop digest d (tally_duplicate t) ops
unfolding merge_loop
merge_loop-skip digest d t op ops e = rw (merge_loop, e)

abbrev next_tally : Document → MergeTally → DocumentOp → MergeTally
next_tally d t op =
    tally_all (tally_outcome t (DocumentOp.ref op) (apply_op d op).1) (apply_op d op).2

pub merge_loop-new :
    (digest : Payload → PayloadHash) (d : Document) (t : MergeTally) (op : DocumentOp)
    (ops : List DocumentOp)
    → is_known d op ≡ false
    → merge_loop digest d t (op ∷ ops)
      ≡ merge_loop digest (record_op digest (apply_op d op).0 op) (next_tally d t op) ops
unfolding merge_loop
merge_loop-new digest d t op ops e = rw (merge_loop, e)

module _ (digest : Payload → PayloadHash) (h : OpRef → PayloadHash) where
  abbrev pub IsHashed : DocumentOp → Type 0
  IsHashed op = hash_document_op digest op ≡ ok (h (DocumentOp.ref op))

  record_op_seen :
      (a : Document) (op : DocumentOp)
      → IsHashed op
      → record_op digest a op ≡ record a {
        ops = a.ops ++ op ∷ [];
        seen = insert OpRef_discrete (DocumentOp.ref op) (h (DocumentOp.ref op)) a.seen;
        frontier = observe a.frontier op.site_id op.seq;
      }
  unfolding record_op
  record_op_seen a op e = rw (record_op, e)

  record_op-Later :
      (d a : Document) (op : DocumentOp)
      → IsFrame d a
      → IsHashed op
      → Later h d (record_op digest a op)
  record_op-Later d a op f e = rw (record_op_seen a op e) (record {
    document_id = ap (λ (x : Document). x.document_id) f;
    base_hash = ap (λ (x : Document). x.base_hash) f;
    site_id = ap (λ (x : Document). x.site_id) f;
    local_seq = ap (λ (x : Document). x.local_seq) f;
    compacted = λ s. omega (arith, ap (λ (x : Document). seq_of x.compacted s) f);
    kept = λ r there.
        has-insert-true r (DocumentOp.ref op) (h (DocumentOp.ref op)) a.seen (
          subst (λ m. has OpRef_discrete r m ≡ true) (sym (ap (λ (x : Document). x.seen) f)) there);
    fits = λ x fit.
        Fits-insert h x (DocumentOp.ref op) a.seen
          (subst (λ m. Fits h m x) (sym (ap (λ (x : Document). x.seen) f)) fit);
  })

  record_op-is_known :
      (a : Document) (op : DocumentOp) → IsHashed op → is_known (record_op digest a op) op ≡ true
  unfolding is_known
  record_op-is_known a op e =
      rw (record_op_seen a op e)
        (ground (arith, has-insert_self (DocumentOp.ref op) (h (DocumentOp.ref op)) a.seen))

  -- The document comes after `d` and knows all of the operations.
  abbrev pub Covers : Document → List DocumentOp → Document → Type 0
  Covers d ops d' = Later h d d' × All (λ op. is_known d' op ≡ true) ops

  -- After the second loop of `mergeOpsLocked` every operation of the batch is known, and what was
  -- in the log is still there.
  pub merge_loop-Later :
      (d : Document) (t : MergeTally) (ops : List DocumentOp)
      → All IsHashed ops
      → Covers d ops (merge_loop digest d t ops).0
  unfolding merge_loop
  merge_loop-Later d t [] a = (Later-refl h d, tt)
  merge_loop-Later d t (op ∷ ops) a = elim (Bool-cases (is_known d op)) [
    | inl e ↦
        let rest = merge_loop-Later d (tally_duplicate t) ops a.1 in
        subst (Covers d (op ∷ ops))
          (sym (ap (λ (r : Document × MergeTally). r.0) (merge_loop-skip digest d t op ops e)))
          (rest.0, (Later-is_known h d _ op rest.0 e, rest.1))
    | inr e ↦
        let next = record_op digest (apply_op d op).0 op in
        let rest = merge_loop-Later next (next_tally d t op) ops a.1 in
        subst (Covers d (op ∷ ops))
          (sym (ap (λ (r : Document × MergeTally). r.0) (merge_loop-new digest d t op ops e)))
          (
            Later-trans h d next _
                (record_op-Later d (apply_op d op).0 op (apply_op-IsFrame d op) a.0) rest.0,
            (
              Later-is_known h next _ op rest.0 (record_op-is_known (apply_op d op).0 op a.0),
              rest.1,
            ),
          )
  ]
