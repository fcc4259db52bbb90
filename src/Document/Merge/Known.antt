-- ===== src/Document/Merge/Known.antt =====
-- After a merge the operations of the batch are known under the references that they came with.
use geo_crdt.Common.{
  ℕ, ◌≡◌, sym, ap, ◌∙◌, subst, true, none, some, ◌||◌, has, leb, List, [], ◌∷◌, Map, insert,
  sort_stable, All, Option-cases, inl, inr,
}
use geo_crdt.Common.Sorted.{In-All, All-In, sort_stable-In}
use geo_crdt.Errors.{ok, bind_ok, ok_inj, check_ok, ◌>>=◌}
use geo_crdt.Clock.OpRef.{OpRef, OpRef_discrete}
use geo_crdt.Clock.Vector.{seq_of}
use geo_crdt.Ops.GeometryOp.{GeometryOp, derive_created_ids}
use geo_crdt.Ops.DocumentOp
use geo_crdt.Ops.DocumentOp.{DocumentOp, normalize, validate_envelope}
use geo_crdt.Identity.{Payload, PayloadHash, hash_document_op}
use geo_crdt.Document.State.{Document}
use geo_crdt.Document.Apply.{stamp_less}
use geo_crdt.Document.Merge.{prepare, derive_payload_ids, identify, is_known, op_later}
use geo_crdt.Document.Merge.Prepared.{prepare-First}
use geo_crdt.Document.Merge.Idempotence.{looped, looped-Covers}

pub is_known-ref :
    (d : Document) (a b : DocumentOp)
    → DocumentOp.ref a ≡ DocumentOp.ref b
    → is_known d a ≡ true
    → is_known d b ≡ true
unfolding is_known
is_known-ref d a b e k =
    subst
      (λ (r : OpRef).
        (leb r.seq (seq_of d.compacted r.site_id) || has OpRef_discrete r d.seen) ≡ true)
      e k

derive_payload_ids-none : (x : DocumentOp) → x.geometry_op ≡ none → derive_payload_ids x ≡ ok x
unfolding derive_payload_ids
derive_payload_ids-none x e = rw e

derive_payload_ids-some :
    (x : DocumentOp) (g : GeometryOp)
    → x.geometry_op ≡ some g
    → derive_payload_ids x ≡ (derive_created_ids g >>= λ h. ok (record x { geometry_op = some h }))
unfolding derive_payload_ids
derive_payload_ids-some x g e = rw e

derive_payload_ids-ref :
    (x op : DocumentOp) → derive_payload_ids x ≡ ok op → DocumentOp.ref op ≡ DocumentOp.ref x
unfolding derive_payload_ids
derive_payload_ids-ref x op e = elim (Option-cases x.geometry_op) [
  | inl n ↦ ap DocumentOp.ref (ok_inj (sym e ∙ derive_payload_ids-none x n))
  | inr (g, s) ↦
      let (h, _, e1) =
        bind_ok (derive_created_ids g) _ op (sym (derive_payload_ids-some x g s) ∙ e) in
      ap DocumentOp.ref (sym (ok_inj e1))
]

module _ (digest : Payload → PayloadHash) where
  identify-ref :
      (x op : DocumentOp) (hash : PayloadHash)
      → identify digest x ≡ ok (op, hash)
      → DocumentOp.ref op ≡ DocumentOp.ref x
  unfolding identify normalize
  identify-ref x op hash e =
      let (o, derived, e1) = bind_ok (derive_payload_ids (normalize x)) _ (op, hash) e in
      let (valid, e2) = check_ok (validate_envelope o) _ (op, hash) e1 in
      let (k, h, e3) = bind_ok (hash_document_op digest o) _ (op, hash) e2 in
      ap (λ (p : DocumentOp × PayloadHash). DocumentOp.ref p.0) (sym (ok_inj e3))
      ∙ derive_payload_ids-ref (normalize x) o derived

  prepare-known :
      (e d : Document) (m : Map OpRef PayloadHash) (c : ℕ) (xs : List DocumentOp)
      (r : List DocumentOp × ℕ)
      → prepare digest d m c xs ≡ ok r
      → All (λ op. is_known e op ≡ true) r.0
      → All (λ op. is_known e op ≡ true) xs
  unfolding prepare
  prepare-known e d m c [] r q a = tt
  prepare-known e d m c (x ∷ xs) r q a =
      let f = prepare-First digest d m c x xs r q in
      let b =
        subst (λ (p : List DocumentOp × ℕ). All (λ op. is_known e op ≡ true) p.0) (sym f.result)
          a in
      (
        is_known-ref e f.op x (identify-ref x f.op f.hash f.identified) b.0,
        prepare-known e d (insert OpRef_discrete (DocumentOp.ref f.op) f.hash m)
            (op_later c f.op.timestamp) xs (f.ops, f.clock) f.rest b.1,
      )

  -- The loop over a prepared batch leaves a document that knows every operation of the batch.
  pub looped-known :
      (d : Document) (batch : List DocumentOp) (p : List DocumentOp × ℕ)
      → prepare digest d [] d.clock batch ≡ ok p
      → All (λ op. is_known (looped digest d p) op ≡ true) batch
  looped-known d batch p q =
      let (h, covers) = looped-Covers digest d batch p q in
      let IsIn : DocumentOp → Type 0 = λ op. is_known (looped digest d p) op ≡ true in
      prepare-known (looped digest d p) d [] d.clock batch p q (
        In-All IsIn p.0 (λ x m.
          All-In IsIn (sort_stable stamp_less p.0) covers.1 x (sort_stable-In stamp_less x p.0 m)))
