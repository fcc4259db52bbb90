-- ===== src/Document/Merge/Bounds.antt =====
-- The clock stays below MaxTimestamp.
use geo_crdt.Common.{
  ◌||◌, ◌==◌, ℕ, String, refl, ◌<◌, ◌≡◌, subst, arith, List, [], ◌∷◌, Map, insert, sort_stable, leb,
  ap, ◌∙◌, Bool-cases, inl, inr,
}
use geo_crdt.Common.Decimal.{is_blank}
use geo_crdt.Errors.{ok, bind_ok, ok_inj, check_ok, refuse_if-ok, refuse_if, invalid_op}
use geo_crdt.Clock.Limits.{max_timestamp}
use geo_crdt.Clock.OpRef.{OpRef, OpRef_discrete}
use geo_crdt.Ops.GeometryOp.{validate_identity}
use geo_crdt.Ops.DocumentOp
use geo_crdt.Ops.DocumentOp.{DocumentOp, normalize, validate_envelope}
use geo_crdt.Identity.{Payload, PayloadHash, hash_document_op}
use geo_crdt.Document.State.{Document}
use geo_crdt.Document.Tally.{MergeTally, new_merge_tally, tally_duplicate}
use geo_crdt.Document.Apply.{apply_op, stamp_less}
use geo_crdt.Document.Apply.Frame.{apply_op-IsFrame}
use geo_crdt.Document.Merge.{
  derive_payload_ids, identify, prepare, merge_loop, op_later, record_op, is_known,
}
use geo_crdt.Document.Merge.Prepared.{prepare-First}
use geo_crdt.Document.Merge.Later.{merge_loop-skip, merge_loop-new}
use geo_crdt.Document.Merge.Idempotence.{merged}

pub validate_identity-bound :
    (site_id : String) (seq timestamp : ℕ)
    → validate_identity site_id seq timestamp ≡ ok tt
    → timestamp < max_timestamp
unfolding validate_identity
validate_identity-bound site_id seq timestamp e =
    let (_, e1) = refuse_if-ok (is_blank site_id) _ _ tt e in
    let (_, e2) =
      refuse_if-ok ((seq == 0) || leb max_timestamp seq) invalid_op
        (refuse_if ((timestamp == 0) || leb max_timestamp timestamp) invalid_op) tt e1 in
    ground (arith, e2)

validate_envelope-bound :
    (op : DocumentOp) → validate_envelope op ≡ ok tt → op.timestamp < max_timestamp
unfolding validate_envelope
validate_envelope-bound op e =
    let (v, _) = check_ok (validate_identity op.site_id op.seq op.timestamp) _ tt e in
    validate_identity-bound op.site_id op.seq op.timestamp v

module _ (digest : Payload → PayloadHash) where
  identify-bound :
      (x op : DocumentOp) (hash : PayloadHash)
      → identify digest x ≡ ok (op, hash)
      → op.timestamp < max_timestamp
  unfolding identify
  identify-bound x op hash e =
      let (o, _, e1) = bind_ok (derive_payload_ids (normalize x)) _ (op, hash) e in
      let (valid, e2) = check_ok (validate_envelope o) _ (op, hash) e1 in
      let (k, _, e3) = bind_ok (hash_document_op digest o) _ (op, hash) e2 in
      subst (λ (p : DocumentOp × PayloadHash). p.0.timestamp < max_timestamp) (ok_inj e3)
        (validate_envelope-bound o valid)

  pub prepare-bound :
      (d : Document) (m : Map OpRef PayloadHash) (c : ℕ) (xs : List DocumentOp)
      (r : List DocumentOp × ℕ)
      → prepare digest d m c xs ≡ ok r
      → c < max_timestamp
      → r.1 < max_timestamp
  unfolding prepare
  prepare-bound d m c [] r e h =
      subst (λ (p : List DocumentOp × ℕ). p.1 < max_timestamp) (ok_inj e) h
  prepare-bound d m c (x ∷ xs) r e h =
      let f = prepare-First digest d m c x xs r e in
      let low = identify-bound x f.op f.hash f.identified in
      subst (λ (p : List DocumentOp × ℕ). p.1 < max_timestamp) f.result
        (prepare-bound d (insert OpRef_discrete (DocumentOp.ref f.op) f.hash m)
          (op_later c f.op.timestamp) xs (f.ops, f.clock) f.rest (ground arith))

  record_op-clock : (d : Document) (op : DocumentOp) → (record_op digest d op).clock ≡ d.clock
  unfolding record_op
  record_op-clock d op = ground arith

  merge_loop-clock :
      (d : Document) (t : MergeTally) (ops : List DocumentOp)
      → (merge_loop digest d t ops).0.clock ≡ d.clock
  unfolding merge_loop
  merge_loop-clock d t [] = refl
  merge_loop-clock d t (op ∷ ops) = elim (Bool-cases (is_known d op)) [
    | inl e ↦
        ap (λ (r : Document × MergeTally). r.0.clock) (merge_loop-skip digest d t op ops e)
        ∙ merge_loop-clock d (tally_duplicate t) ops
    | inr e ↦
        ap (λ (r : Document × MergeTally). r.0.clock) (merge_loop-new digest d t op ops e)
        ∙ merge_loop-clock (record_op digest (apply_op d op).0 op) _ ops
        ∙ record_op-clock (apply_op d op).0 op
        ∙ ap (λ (x : Document). x.clock) (apply_op-IsFrame d op)
  ]

  -- A batch that is merged leaves the clock below MaxTimestamp, where it was.
  pub merged-bound :
      (d : Document) (batch : List DocumentOp) (p : List DocumentOp × ℕ)
      → prepare digest d [] d.clock batch ≡ ok p
      → d.clock < max_timestamp
      → (merged digest d p).clock < max_timestamp
  merged-bound d batch p q h =
      let low = prepare-bound d [] d.clock batch p q h in
      let same = merge_loop-clock d new_merge_tally (sort_stable stamp_less p.0) in ground arith
