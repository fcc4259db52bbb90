-- ===== src/Replica/Bounds.antt =====
-- The clock of a replica of one geometry stays below MaxTimestamp.
use geo_crdt.Common.{
  ℕ, ◌<◌, ◌&&◌, ltb, List, [], ◌∷◌, Map, insert, has, sort_stable, ◌≡◌, refl, ap, ◌∙◌, subst, arith,
  Bool-cases, inl, inr,
}
use geo_crdt.Common.Texts.{text_eq}
use geo_crdt.Errors.{
  ok, bind_ok, ok_inj, check_ok, refuse_if-ok, invalid_sync_state, identity_collision,
}
use geo_crdt.Clock.Limits.{max_timestamp}
use geo_crdt.Clock.OpRef.{OpRef, OpRef_discrete}
use geo_crdt.Ops.GeometryOp
use geo_crdt.Ops.GeometryOp.{
  GeometryOp, derive_created_ids, validate_identity, validate_shape, validate_envelope,
}
use geo_crdt.Identity.{GeometryPayload, PayloadHash, hash_geometry_op}
use geo_crdt.Document.Tally.{MergeTally, MergeResult, new_merge_tally, tally_duplicate}
use geo_crdt.Document.Merge.{collides, op_later}
use geo_crdt.Document.Merge.Bounds.{validate_identity-bound}
use geo_crdt.Replica.{
  GeometryCrdt, stamp_less, record_op, prepare, merge_new, merge_loop, merge_ops,
}
use geo_crdt.Replica.Frame.{merge_loop-skip, merge_loop-new}

validate_envelope-bound :
    (op : GeometryOp) → validate_envelope op ≡ ok tt → op.timestamp < max_timestamp
unfolding validate_envelope
validate_envelope-bound op e =
    validate_identity-bound op.site_id op.seq op.timestamp
      (check_ok (validate_identity op.site_id op.seq op.timestamp) (validate_shape op) tt e).0

op_later-bound : (n t : ℕ) → n < max_timestamp → t < max_timestamp → op_later n t < max_timestamp
op_later-bound n t h k = ground (arith, h, k)

module _ (geometry_digest : GeometryPayload → PayloadHash) where
  prepare-bound :
      (c : GeometryCrdt) (m : Map OpRef PayloadHash) (n : ℕ) (xs : List GeometryOp)
      (r : List GeometryOp × ℕ)
      → prepare geometry_digest c m n xs ≡ ok r
      → n < max_timestamp
      → r.1 < max_timestamp
  unfolding prepare
  prepare-bound c m n [] r e h =
      subst (λ (p : List GeometryOp × ℕ). p.1 < max_timestamp) (ok_inj e) h
  prepare-bound c m n (x ∷ xs) r e h =
      let (op, _, e1) = bind_ok (derive_created_ids x) _ r e in
      let (valid, e2) = check_ok (validate_envelope op) _ r e1 in
      let (_, e3) =
        refuse_if-ok (text_eq op.site_id c.site_id && ltb c.local_seq op.seq) invalid_sync_state _ r
          e2 in
      let (hash, _, e4) = bind_ok (hash_geometry_op geometry_digest op) _ r e3 in
      let ref = GeometryOp.ref op in
      let (_, e5) = refuse_if-ok (collides ref hash c.seen) identity_collision _ r e4 in
      let (_, e6) = refuse_if-ok (collides ref hash m) identity_collision _ r e5 in
      let m' = insert OpRef_discrete ref hash m in
      let (rest, q, e7) =
        bind_ok (prepare geometry_digest c m' (op_later n op.timestamp) xs) _ r e6 in
      let low = validate_envelope-bound op valid in
      subst (λ (p : List GeometryOp × ℕ). p.1 < max_timestamp) (ok_inj e7)
        (prepare-bound c m' (op_later n op.timestamp) xs rest q
          (op_later-bound n op.timestamp h low))

  merge_new-clock :
      (c : GeometryCrdt) (t : MergeTally) (op : GeometryOp)
      → (merge_new geometry_digest c t op).0.clock ≡ c.clock
  unfolding merge_new record_op
  merge_new-clock c t op = ground arith

  merge_loop-clock :
      (c : GeometryCrdt) (t : MergeTally) (ops : List GeometryOp)
      → (merge_loop geometry_digest c t ops).0.clock ≡ c.clock
  unfolding merge_loop
  merge_loop-clock c t [] = refl
  merge_loop-clock c t (op ∷ ops) =
      let clock_of : GeometryCrdt × MergeTally → ℕ = λ r. r.0.clock in
      elim (Bool-cases (has OpRef_discrete (GeometryOp.ref op) c.seen)) [
        | inl e ↦
            ap clock_of (merge_loop-skip geometry_digest c t op ops e)
            ∙ merge_loop-clock c (tally_duplicate t) ops
        | inr e ↦
            let next = merge_new geometry_digest c t op in
            ap clock_of (merge_loop-new geometry_digest c t op ops e)
            ∙ merge_loop-clock next.0 next.1 ops
            ∙ merge_new-clock c t op
      ]

  -- A merge of operations that is not refused leaves the clock below MaxTimestamp, where it was.
  pub merge_ops-bound :
      (c : GeometryCrdt) (batch : List GeometryOp) (r : GeometryCrdt × MergeResult)
      → merge_ops geometry_digest c batch ≡ ok r
      → c.clock < max_timestamp
      → r.0.clock < max_timestamp
  unfolding merge_ops
  merge_ops-bound c batch r e h =
      let (p, q, e1) = bind_ok (prepare geometry_digest c [] c.clock batch) _ r e in
      let low = prepare-bound c [] c.clock batch p q h in
      let same = merge_loop-clock c new_merge_tally (sort_stable stamp_less p.0) in
      subst (λ (x : GeometryCrdt × MergeResult). x.0.clock < max_timestamp) (ok_inj e1)
        (ground arith)
