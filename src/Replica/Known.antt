-- ===== src/Replica/Known.antt =====
-- After a merge a replica of one geometry has every operation that it was sent.
use geo_crdt.Common.{
  ℕ, ◌&&◌, ltb, List, [], ◌∷◌, Map, insert, has, lookup, none, Option-cases, sort_stable-All,
  sort_stable, All, ◌≡◌, sym, subst, arith, true, not, Bool-cases, inl, inr, lookup-insert,
}
use geo_crdt.Common.Sorted.{In-All, All-In, sort_stable-In}
use geo_crdt.Common.Texts.{text_eq}
use geo_crdt.Errors.{
  ok, bind_ok, ok_inj, check_ok, refuse_if-ok, invalid_sync_state, identity_collision,
  base_mismatch,
}
use geo_crdt.Clock.OpRef.{OpRef, OpRef_discrete}
use geo_crdt.Ops.GeometryOp
use geo_crdt.Ops.GeometryOp.{GeometryOp, derive_created_ids, validate_envelope}
use geo_crdt.Identity.{GeometryPayload, PayloadHash, hash_geometry_op}
use geo_crdt.Document.Tally.{MergeTally, MergeResult, new_merge_tally, tally_duplicate}
use geo_crdt.Document.Merge.{collides, op_later}
use geo_crdt.Replica.{
  GeometryCrdt, stamp_less, record_op, prepare, merge_new, merge_loop, merge_ops, merge,
}
use geo_crdt.Replica.Frame.{
  IsMerged, merge_loop-IsMerged, merge_loop-skip, merge_loop-new, merge-IsMerged,
}

-- The replica has the operation: its identity is in the index.
abbrev pub Knows : GeometryCrdt → GeometryOp → Type 0
Knows c op = has OpRef_discrete (GeometryOp.ref op) c.seen ≡ true

-- Making the created ID explicit keeps the identity.
derive_created_ids-ref :
    (x op : GeometryOp) → derive_created_ids x ≡ ok op → GeometryOp.ref op ≡ GeometryOp.ref x
unfolding derive_created_ids
derive_created_ids-ref x op e = ground (arith, e)

unknown :
    (c : GeometryCrdt) (op : GeometryOp)
    → lookup OpRef_discrete (GeometryOp.ref op) c.seen ≡ none
    → ¬ Knows c op
unknown c op n e = ground (arith, n, e)

module _ (geometry_digest : GeometryPayload → PayloadHash) where
  abbrev IsHashed : GeometryOp → Type 0
  IsHashed op = (k : PayloadHash) × (hash_geometry_op geometry_digest op ≡ ok k)

  -- The second loop keeps what is known.
  Knows-later :
      (c c' : GeometryCrdt) (op : GeometryOp)
      → IsMerged geometry_digest c c'
      → Knows c op
      → Knows c' op
  Knows-later c c' op m e = elim (Option-cases (lookup OpRef_discrete (GeometryOp.ref op) c.seen)) [
    | inl n ↦ absurd (unknown c op n e)
    | inr (k, h) ↦ ground (arith, m.kept (GeometryOp.ref op) k h)
  ]

  merge_new-Knows :
      (c : GeometryCrdt) (t : MergeTally) (op : GeometryOp)
      → IsHashed op
      → Knows (merge_new geometry_digest c t op).0 op
  unfolding merge_new record_op
  merge_new-Knows c t op (k, h) =
      rw (merge_new, record_op, h)
        (ground
          (arith, lookup-insert OpRef_discrete (GeometryOp.ref op) (GeometryOp.ref op) k c.seen))

  merge_loop-Knows :
      (c : GeometryCrdt) (t : MergeTally) (ops : List GeometryOp)
      → All IsHashed ops
      → All (Knows (merge_loop geometry_digest c t ops).0) ops
  unfolding merge_loop
  merge_loop-Knows c t [] a = tt
  merge_loop-Knows c t (op ∷ ops) a =
      let Ends : GeometryCrdt × MergeTally → Type 0 = λ r. All (Knows r.0) (op ∷ ops) in
      elim (Bool-cases (has OpRef_discrete (GeometryOp.ref op) c.seen)) [
        | inl e ↦
            let t' = tally_duplicate t in
            subst Ends (sym (merge_loop-skip geometry_digest c t op ops e)) (
              Knows-later c (merge_loop geometry_digest c t' ops).0 op
                  (merge_loop-IsMerged geometry_digest c t' ops) e,
              merge_loop-Knows c t' ops a.1,
            )
        | inr e ↦
            let next = merge_new geometry_digest c t op in
            subst Ends (sym (merge_loop-new geometry_digest c t op ops e)) (
              Knows-later next.0 (merge_loop geometry_digest next.0 next.1 ops).0 op
                  (merge_loop-IsMerged geometry_digest next.0 next.1 ops)
                  (merge_new-Knows c t op a.0),
              merge_loop-Knows next.0 next.1 ops a.1,
            )
      ]

  -- An accepted batch is hashed, and a replica that has what the first loop made of it has the
  -- batch.
  prepare-Knows :
      (d c : GeometryCrdt) (m : Map OpRef PayloadHash) (n : ℕ) (xs : List GeometryOp)
      (r : List GeometryOp × ℕ)
      → prepare geometry_digest c m n xs ≡ ok r
      → All IsHashed r.0 × (All (Knows d) r.0 → All (Knows d) xs)
  unfolding prepare
  prepare-Knows d c m n [] r e =
      subst (λ (p : List GeometryOp × ℕ). All IsHashed p.0 × (All (Knows d) p.0 → All (Knows d) []))
        (ok_inj e) (tt, λ a. tt)
  prepare-Knows d c m n (x ∷ xs) r e =
      let (op, derived, e1) = bind_ok (derive_created_ids x) _ r e in
      let (_, e2) = check_ok (validate_envelope op) _ r e1 in
      let (_, e3) =
        refuse_if-ok (text_eq op.site_id c.site_id && ltb c.local_seq op.seq) invalid_sync_state _ r
          e2 in
      let (hash, hashed, e4) = bind_ok (hash_geometry_op geometry_digest op) _ r e3 in
      let ref = GeometryOp.ref op in
      let (_, e5) = refuse_if-ok (collides ref hash c.seen) identity_collision _ r e4 in
      let (_, e6) = refuse_if-ok (collides ref hash m) identity_collision _ r e5 in
      let m' = insert OpRef_discrete ref hash m in
      let (rest, q, e7) =
        bind_ok (prepare geometry_digest c m' (op_later n op.timestamp) xs) _ r e6 in
      let (all, known) = prepare-Knows d c m' (op_later n op.timestamp) xs rest q in
      let same = derive_created_ids-ref x op derived in
      subst
        (λ (p : List GeometryOp × ℕ).
          All IsHashed p.0 × (All (Knows d) p.0 → All (Knows d) (x ∷ xs)))
        (ok_inj e7)
        (
          ((hash, hashed), all),
          λ a. (subst (λ k. has OpRef_discrete k d.seen ≡ true) same a.0, known a.1),
        )

  merge_ops-Knows :
      (c : GeometryCrdt) (batch : List GeometryOp) (r : GeometryCrdt × MergeResult)
      → merge_ops geometry_digest c batch ≡ ok r
      → All (Knows r.0) batch
  unfolding merge_ops
  merge_ops-Knows c batch r e =
      let (p, q, e1) = bind_ok (prepare geometry_digest c [] c.clock batch) _ r e in
      let sorted = sort_stable stamp_less p.0 in
      let done = (merge_loop geometry_digest c new_merge_tally sorted).0 in
      let (hashed, known) = prepare-Knows done c [] c.clock batch p q in
      let all =
        merge_loop-Knows c new_merge_tally sorted
          (sort_stable-All IsHashed stamp_less p.0 hashed) in
      subst (λ (x : GeometryCrdt × MergeResult). All (Knows x.0) batch) (ok_inj e1)
        (known (
          In-All (Knows done) p.0
            (λ op m. All-In (Knows done) sorted all op (sort_stable-In stamp_less op p.0 m))))

  -- After a merge of another replica that is not refused, the identity index has every operation of
  -- the other's log and every one that it had.
  pub merge-Knows :
      (c remote : GeometryCrdt) (r : GeometryCrdt × MergeResult)
      → merge geometry_digest c remote ≡ ok r
      → All (Knows r.0) remote.ops × ((op : GeometryOp) → Knows c op → Knows r.0 op)
  unfolding merge
  merge-Knows c remote r e =
      let (_, e1) = refuse_if-ok (not (text_eq remote.init_hash c.init_hash)) base_mismatch _ r e in
      let (p, q, e2) = bind_ok (merge_ops geometry_digest c remote.ops) _ r e1 in
      let (base, merged, le) = merge-IsMerged geometry_digest c remote r e in
      (
        subst (λ (x : GeometryCrdt × MergeResult). All (Knows x.0) remote.ops) (ok_inj e2)
            (merge_ops-Knows c remote.ops p q),
        λ op k. Knows-later c r.0 op merged k,
      )
