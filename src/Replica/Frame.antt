-- ===== src/Replica/Frame.antt =====
-- What a merge leaves alone in a replica of one geometry.
use geo_crdt.Common.{
  ℕ, ◌≤◌, Map, lookup, lookup-insert, All, All-map, All-append, append-All, Option-cases, some, ◌≢◌,
  List, [], ◌∷◌, ◌++◌, has, ◌≡◌, refl, sym, ap, ◌∙◌, arith, Bool-cases, inl, inr, sort_stable,
  subst, true, false, not,
}
use mathlib.Core.List.{append-nil, append_assoc}
use geo_crdt.Common.Texts.{text_eq}
use geo_crdt.Errors.{refuse_if-ok, base_mismatch, ok, bind_ok, ok_inj, Result-cases}
use geo_crdt.Clock.OpRef.{OpRef, OpRef_discrete}
use geo_crdt.Ops.GeometryOp
use geo_crdt.Ops.GeometryOp.{GeometryOp}
use geo_crdt.Identity.{GeometryPayload, PayloadHash, hash_geometry_op}
use geo_crdt.Geometry.State.{GeometryState}
use geo_crdt.Geometry.Drain
use geo_crdt.Document.Tally.{MergeTally, MergeResult, new_merge_tally, tally_duplicate}
use geo_crdt.Document.Merge.{op_later}
use geo_crdt.Replica.{
  GeometryCrdt, stamp_less, record_op, prepare, merge_new, merge_loop, merge_ops, merge,
}

-- No entry of the index for the operation's identity.
abbrev pub IsNew : Map OpRef PayloadHash → GeometryOp → Type 0
IsNew m op = has OpRef_discrete (GeometryOp.ref op) m ≡ false

IsNew-before :
    (m m' : Map OpRef PayloadHash) (op : GeometryOp)
    → ((r : OpRef) (k : PayloadHash)
        → lookup OpRef_discrete r m ≡ some k
        → lookup OpRef_discrete r m' ≡ some k)
    → IsNew m' op
    → IsNew m op
IsNew-before m m' op kept n = elim (Option-cases (lookup OpRef_discrete (GeometryOp.ref op) m)) [
  | inl e ↦ ground (arith, e)
  | inr (k, e) ↦ ground (arith, n, kept (GeometryOp.ref op) k e)
]

module _ (geometry_digest : GeometryPayload → PayloadHash) where
  -- The index has the operation's identity, with the hash of the operation.
  abbrev pub IsEntered : Map OpRef PayloadHash → GeometryOp → Type 0
  IsEntered m op =
      (k : PayloadHash) × (hash_geometry_op geometry_digest op ≡ ok k)
      × (lookup OpRef_discrete (GeometryOp.ref op) m ≡ some k)

  -- The second replica is the first but for its geometry, its log with the index of identities, and
  -- its clock. The log has grown at its end, by operations that it did not have; each of them is in
  -- the index with its hash, and no other entry of the index has changed. The clock has not gone
  -- back.
  pub record IsMerged (c c' : GeometryCrdt) : Type 0 where
    pub frame : c' ≡ record c { state = c'.state; ops = c'.ops; seen = c'.seen; clock = c'.clock }
    pub more : List GeometryOp
    pub log : c'.ops ≡ c.ops ++ more
    pub fresh : All (IsNew c.seen) more
    pub entered : All (IsEntered c'.seen) more
    pub kept :
        (r : OpRef) (k : PayloadHash)
        → lookup OpRef_discrete r c.seen ≡ some k
        → lookup OpRef_discrete r c'.seen ≡ some k
    pub index :
        (r : OpRef)
        → All (λ (op : GeometryOp). GeometryOp.ref op ≢ r) more
        → lookup OpRef_discrete r c'.seen ≡ lookup OpRef_discrete r c.seen
    pub later : c.clock ≤ c'.clock

  -- Nothing but the geometry and the clock has changed, and the clock has not gone back.
  IsMerged-same :
      (c : GeometryCrdt) (g : GeometryState) (n : ℕ)
      → c.clock ≤ n
      → IsMerged c (record c { state = g; clock = n })
  IsMerged-same c g n le = record {
    frame = refl;
    more = [];
    log = sym (append-nil c.ops);
    fresh = tt;
    entered = tt;
    kept = λ r k e. e;
    index = λ r a. refl;
    later = le;
  }

  IsMerged-trans : (a b c : GeometryCrdt) → IsMerged a b → IsMerged b c → IsMerged a c
  IsMerged-trans a b c p q = record {
    frame =
        q.frame
        ∙ ap
            (λ (x : GeometryCrdt). record x {
              state = c.state;
              ops = c.ops;
              seen = c.seen;
              clock = c.clock;
            })
            p.frame;
    more = p.more ++ q.more;
    log =
        q.log ∙ ap (λ (l : List GeometryOp). l ++ q.more) p.log ∙ append_assoc a.ops p.more q.more;
    fresh = All-append (IsNew a.seen) p.more q.more p.fresh (
        All-map (IsNew b.seen) (IsNew a.seen) (λ op n. IsNew-before a.seen b.seen op p.kept n)
          q.more q.fresh);
    entered =
        All-append (IsEntered c.seen) p.more q.more
          (All-map (IsEntered b.seen) (IsEntered c.seen)
            (λ op e. (e.0, e.1, q.kept (GeometryOp.ref op) e.0 e.2)) p.more p.entered)
          q.entered;
    kept = λ r k e. q.kept r k (p.kept r k e);
    index = λ r o.
        let (left, right) =
          append-All (λ (op : GeometryOp). GeometryOp.ref op ≢ r) p.more q.more o in
        q.index r right ∙ p.index r left;
    later = omega (arith, p.later, q.later);
  }

  record_op-IsMerged :
      (c : GeometryCrdt) (g : GeometryState) (op : GeometryOp)
      → IsNew c.seen op
      → IsMerged c (record_op geometry_digest (record c { state = g }) op)
  unfolding record_op
  record_op-IsMerged c g op n = elim (Result-cases (hash_geometry_op geometry_digest op)) [
    | inl (e, h) ↦ rw (record_op, h) (IsMerged-same c g c.clock (omega arith))
    | inr (hash, h) ↦
        let ref = GeometryOp.ref op in
        rw (record_op, h)
          (record {
            frame = refl;
            more = op ∷ [];
            log = refl;
            fresh = (n, tt);
            entered =
                ((hash, h, ground (arith, lookup-insert OpRef_discrete ref ref hash c.seen)), tt);
            kept = λ r k e. ground (arith, n, e, lookup-insert OpRef_discrete ref r hash c.seen);
            index = λ r a. ground (arith, a.0, lookup-insert OpRef_discrete ref r hash c.seen);
            later = omega arith;
          })
  ]

  merge_new-IsMerged :
      (c : GeometryCrdt) (t : MergeTally) (op : GeometryOp)
      → IsNew c.seen op
      → IsMerged c (merge_new geometry_digest c t op).0
  unfolding merge_new
  merge_new-IsMerged c t op n = record_op-IsMerged c (Drain.apply c.state op).0 op n

  -- One round of the second loop, for an operation of the log and for a new one.
  pub merge_loop-skip :
      (c : GeometryCrdt) (t : MergeTally) (op : GeometryOp) (ops : List GeometryOp)
      → has OpRef_discrete (GeometryOp.ref op) c.seen ≡ true
      → merge_loop geometry_digest c t (op ∷ ops)
        ≡ merge_loop geometry_digest c (tally_duplicate t) ops
  unfolding merge_loop
  merge_loop-skip c t op ops e = rw (merge_loop, e)

  pub merge_loop-new :
      (c : GeometryCrdt) (t : MergeTally) (op : GeometryOp) (ops : List GeometryOp)
      → has OpRef_discrete (GeometryOp.ref op) c.seen ≡ false
      → merge_loop geometry_digest c t (op ∷ ops)
        ≡ merge_loop geometry_digest
            (merge_new geometry_digest c t op).0
            (merge_new geometry_digest c t op).1
            ops
  unfolding merge_loop
  merge_loop-new c t op ops e = rw (merge_loop, e)

  pub merge_loop-IsMerged :
      (c : GeometryCrdt) (t : MergeTally) (ops : List GeometryOp)
      → IsMerged c (merge_loop geometry_digest c t ops).0
  unfolding merge_loop
  merge_loop-IsMerged c t [] = IsMerged-same c c.state c.clock (omega arith)
  merge_loop-IsMerged c t (op ∷ ops) =
      let Ends : GeometryCrdt × MergeTally → Type 0 = λ r. IsMerged c r.0 in
      elim (Bool-cases (has OpRef_discrete (GeometryOp.ref op) c.seen)) [
        | inl e ↦
            subst Ends (sym (merge_loop-skip c t op ops e))
              (merge_loop-IsMerged c (tally_duplicate t) ops)
        | inr e ↦
            let next = merge_new geometry_digest c t op in
            subst Ends (sym (merge_loop-new c t op ops e)) (
              IsMerged-trans c next.0 (merge_loop geometry_digest next.0 next.1 ops).0
                (merge_new-IsMerged c t op e) (merge_loop-IsMerged next.0 next.1 ops))
      ]

  op_later-IsMerged :
      (c c' : GeometryCrdt) (n : ℕ)
      → IsMerged c c'
      → IsMerged c (record c' { clock = op_later c'.clock n })
  op_later-IsMerged c c' n p =
      let up : c'.clock ≤ op_later c'.clock n = ground arith in
      IsMerged-trans c c' (record c' { clock = op_later c'.clock n }) p
        (IsMerged-same c' c'.state (op_later c'.clock n) up)

  -- The same for `MergeOps`.
  pub merge_ops-IsMerged :
      (c : GeometryCrdt) (batch : List GeometryOp) (r : GeometryCrdt × MergeResult)
      → merge_ops geometry_digest c batch ≡ ok r
      → IsMerged c r.0
  unfolding merge_ops
  merge_ops-IsMerged c batch r e =
      let (p, _, e1) = bind_ok (prepare geometry_digest c [] c.clock batch) _ r e in
      let loop = merge_loop geometry_digest c new_merge_tally (sort_stable stamp_less p.0) in
      subst (λ (x : GeometryCrdt × MergeResult). IsMerged c x.0) (ok_inj e1)
        (op_later-IsMerged c loop.0 p.1
          (merge_loop-IsMerged c new_merge_tally (sort_stable stamp_less p.0)))

  -- A merge of another replica that is not refused is one of the same base. It changes nothing of
  -- the replica but its geometry, its log with the index of identities, and its clock: the log grows
  -- at its end only, by operations that it did not have; each of them is entered in the index with
  -- its hash, and every other entry is as it was; the clock is at least what either clock was.
  pub merge-IsMerged :
      (c remote : GeometryCrdt) (r : GeometryCrdt × MergeResult)
      → merge geometry_digest c remote ≡ ok r
      → (text_eq remote.init_hash c.init_hash ≡ true) × IsMerged c r.0 × (remote.clock ≤ r.0.clock)
  unfolding merge
  merge-IsMerged c remote r e =
      let (base, e1) =
        refuse_if-ok (not (text_eq remote.init_hash c.init_hash)) base_mismatch _ r e in
      let (p, q, e2) = bind_ok (merge_ops geometry_digest c remote.ops) _ r e1 in
      let later =
        subst (λ (x : GeometryCrdt × MergeResult). IsMerged c x.0 × (remote.clock ≤ x.0.clock))
          (ok_inj e2)
          (
            op_later-IsMerged c p.0 remote.clock (merge_ops-IsMerged c remote.ops p q),
            ground arith,
          ) in
      (ground (arith, base), later.0, later.1)
