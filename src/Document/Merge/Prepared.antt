-- ===== src/Document/Merge/Prepared.antt =====
-- What a batch that passes the first loop of `mergeOpsLocked` is like, and running the loop again.
use geo_crdt.Common.{
  ℕ, ◌≤◌, false, ◌&&◌, none, some, List, [], ◌∷◌, Map, lookup, insert, lookup-insert, length, ltb,
  ◌≡◌, refl, sym, ap, ◌∙◌, arith, All, Option-cases, inl, inr, subst,
}
use geo_crdt.Common.Texts.{text_eq}
use geo_crdt.Errors.{ok, bind_ok, ok_inj}
use geo_crdt.Clock.OpRef.{OpRef, OpRef_discrete}
use geo_crdt.Ops.DocumentOp
use geo_crdt.Ops.DocumentOp.{DocumentOp, normalize, validate_envelope}
use geo_crdt.Identity.{Payload, PayloadHash, hash_document_op}
use geo_crdt.Document.State.{Document}
use geo_crdt.Document.Merge.{derive_payload_ids, collides, op_later, admit, identify, prepare}

-- The identity index agrees with the hashes `h` at the operation.
abbrev pub Fits : (OpRef → PayloadHash) → Map OpRef PayloadHash → DocumentOp → Type 0
Fits h m op =
    (k : PayloadHash)
    → lookup OpRef_discrete (DocumentOp.ref op) m ≡ some k
    → h (DocumentOp.ref op) ≡ k

-- Every entry of the index is the one that `h` gives.
abbrev pub Extends : (OpRef → PayloadHash) → Map OpRef PayloadHash → Type 0
Extends h m = (r : OpRef) (k : PayloadHash) → lookup OpRef_discrete r m ≡ some k → h r ≡ k

-- The hashes that an index holds.
abbrev pub hash_in : Map OpRef PayloadHash → OpRef → PayloadHash
hash_in m r = elim (lookup OpRef_discrete r m) [ none ↦ 0 | some v ↦ v ]

pub collides_no :
    (r : OpRef) (hash k : PayloadHash) (m : Map OpRef PayloadHash)
    → collides r hash m ≡ false
    → lookup OpRef_discrete r m ≡ some k
    → hash ≡ k
collides_no r hash k m h e = ground (arith, h, e)

pub no_collides :
    (h : OpRef → PayloadHash) (r : OpRef) (m : Map OpRef PayloadHash)
    → ((k : PayloadHash) → lookup OpRef_discrete r m ≡ some k → h r ≡ k)
    → collides r (h r) m ≡ false
no_collides h r m f = elim (Option-cases (lookup OpRef_discrete r m)) [
  | inl e ↦ ground (arith, e)
  | inr (k, e) ↦ ground (arith, e, f k e)
]

-- The three guards of `admit`.
pub record Admitted (d : Document) (m : Map OpRef PayloadHash) (op : DocumentOp)
    (hash : PayloadHash) : Type 0 where
  pub numbered : (text_eq op.site_id d.site_id && ltb d.local_seq op.seq) ≡ false
  pub logged : collides (DocumentOp.ref op) hash d.seen ≡ false
  pub batched : collides (DocumentOp.ref op) hash m ≡ false

admit-Admitted :
    (d : Document) (m : Map OpRef PayloadHash) (op : DocumentOp) (hash : PayloadHash)
    → admit d m op hash ≡ ok tt
    → Admitted d m op hash
unfolding admit
admit-Admitted d m op hash e = record {
  numbered = ground (arith, e);
  logged = ground (arith, e);
  batched = ground (arith, e);
}

Admitted-admit :
    (d : Document) (m : Map OpRef PayloadHash) (op : DocumentOp) (hash : PayloadHash)
    → Admitted d m op hash
    → admit d m op hash ≡ ok tt
unfolding admit
Admitted-admit d m op hash a = rw (a.numbered, a.logged, a.batched)

-- The guards hold again where the site and its numbering are the same and the log agrees.
Admitted-again :
    (d d' : Document) (m : Map OpRef PayloadHash) (op : DocumentOp) (hash : PayloadHash)
    (h : OpRef → PayloadHash)
    → d'.site_id ≡ d.site_id
    → d'.local_seq ≡ d.local_seq
    → h (DocumentOp.ref op) ≡ hash
    → Fits h d'.seen op
    → Admitted d m op hash
    → Admitted d' m op hash
Admitted-again d d' m op hash h s l own fits a = record {
  numbered = rw (s, l) a.numbered;
  logged =
      subst (λ x. collides (DocumentOp.ref op) x d'.seen ≡ false) own
        (no_collides h (DocumentOp.ref op) d'.seen fits);
  batched = a.batched;
}

-- Hashes that extend the index with an operation entered extend the index before.
pub Extends-before :
    (h : OpRef → PayloadHash) (op : DocumentOp) (hash : PayloadHash) (m : Map OpRef PayloadHash)
    → collides (DocumentOp.ref op) hash m ≡ false
    → h (DocumentOp.ref op) ≡ hash
    → Extends h (insert OpRef_discrete (DocumentOp.ref op) hash m)
    → Extends h m
Extends-before h op hash m free own ext k v q = elim (OpRef_discrete (DocumentOp.ref op) k) [
  | yes e ↦
      let there : lookup OpRef_discrete (DocumentOp.ref op) m ≡ some v =
        subst (λ x. lookup OpRef_discrete x m ≡ some v) (sym e) q in
      subst (λ x. h x ≡ v) e (own ∙ collides_no (DocumentOp.ref op) hash v m free there)
  | no n ↦ ext k v (ground (arith, n, q, lookup-insert OpRef_discrete (DocumentOp.ref op) k hash m))
]

module _ (digest : Payload → PayloadHash) where
  -- What the loop did to the first operation of a batch that it accepted.
  pub record First (d : Document) (m : Map OpRef PayloadHash) (c : ℕ) (x : DocumentOp)
      (xs : List DocumentOp) (r : List DocumentOp × ℕ) : Type 0 where
    pub op : DocumentOp
    pub hash : PayloadHash
    pub ops : List DocumentOp
    pub clock : ℕ
    pub identified : identify digest x ≡ ok (op, hash)
    pub admitted : Admitted d m op hash
    pub rest :
        prepare digest d
          (insert OpRef_discrete (DocumentOp.ref op) hash m)
          (op_later c op.timestamp)
          xs
        ≡ ok (ops, clock)
    pub result : (op ∷ ops, clock) ≡ r

  pub prepare-First :
      (d : Document) (m : Map OpRef PayloadHash) (c : ℕ) (x : DocumentOp) (xs : List DocumentOp)
      (r : List DocumentOp × ℕ)
      → prepare digest d m c (x ∷ xs) ≡ ok r
      → First d m c x xs r
  unfolding prepare
  prepare-First d m c x xs r e =
      let (p, i, e1) = bind_ok (identify digest x) _ r e in
      let (_, a, e2) = bind_ok (admit d m p.0 p.1) _ r e1 in
      let (q, t, e3) =
        bind_ok
          (prepare digest d (insert OpRef_discrete (DocumentOp.ref p.0) p.1 m)
            (op_later c p.0.timestamp) xs)
          _ r e2 in
      record {
        op = p.0;
        hash = p.1;
        ops = q.0;
        clock = q.1;
        identified = i;
        admitted = admit-Admitted d m p.0 p.1 a;
        rest = t;
        result = ok_inj e3;
      }

  identify-hash :
      (x op : DocumentOp) (hash : PayloadHash)
      → identify digest x ≡ ok (op, hash)
      → hash_document_op digest op ≡ ok hash
  unfolding identify
  identify-hash x op hash e =
      let (o, _, e1) = bind_ok (derive_payload_ids (normalize x)) _ (op, hash) e in
      let (_, _, e2) = bind_ok (validate_envelope o) _ (op, hash) e1 in
      let (k, h, e3) = bind_ok (hash_document_op digest o) _ (op, hash) e2 in
      subst (λ (p : DocumentOp × PayloadHash). hash_document_op digest p.0 ≡ ok p.1) (ok_inj e3) h

  -- What an accepted operation is like, for hashes `h` that the whole batch shares: `h` gives its
  -- hash, and the log does not hold its identity with another.
  abbrev pub Good : (OpRef → PayloadHash) → Document → DocumentOp → Type 0
  Good h d op = (hash_document_op digest op ≡ ok (h (DocumentOp.ref op))) × Fits h d.seen op

  -- An accepted batch has one hash for each identity.
  pub prepare-Good :
      (d : Document) (m : Map OpRef PayloadHash) (c : ℕ) (xs : List DocumentOp)
      (r : List DocumentOp × ℕ)
      → prepare digest d m c xs ≡ ok r
      → (h : OpRef → PayloadHash) × Extends h m × All (Good h d) r.0
  unfolding prepare
  prepare-Good d m c [] r e = (
    hash_in m,
    λ k v q. ground (arith, q),
    subst (λ (p : List DocumentOp × ℕ). All (Good (hash_in m) d) p.0) (ok_inj e) tt,
  )
  prepare-Good d m c (x ∷ xs) r e =
      let f = prepare-First d m c x xs r e in
      let (h, ext, good) =
        prepare-Good d (insert OpRef_discrete (DocumentOp.ref f.op) f.hash m)
          (op_later c f.op.timestamp) xs (f.ops, f.clock) f.rest in
      let own : h (DocumentOp.ref f.op) ≡ f.hash = ext (DocumentOp.ref f.op) f.hash (
        ground (
          arith,
          lookup-insert OpRef_discrete (DocumentOp.ref f.op) (DocumentOp.ref f.op) f.hash m,
        )) in
      (
        h,
        λ k v q. Extends-before h f.op f.hash m f.admitted.batched own ext k v q,
        subst (λ (p : List DocumentOp × ℕ). All (Good h d) p.0) f.result
            (
              (
                identify-hash x f.op f.hash f.identified ∙ ap ok (sym own),
                λ k q. own ∙ collides_no (DocumentOp.ref f.op) f.hash k d.seen f.admitted.logged q,
              ),
              good,
            ),
      )

  -- The clock of an accepted batch is at least the one that the loop starts with.
  pub prepare-clock :
      (d : Document) (m : Map OpRef PayloadHash) (c : ℕ) (xs : List DocumentOp)
      (r : List DocumentOp × ℕ)
      → prepare digest d m c xs ≡ ok r
      → c ≤ r.1
  unfolding prepare
  prepare-clock d m c [] r e = subst (λ (p : List DocumentOp × ℕ). c ≤ p.1) (ok_inj e) (omega arith)
  prepare-clock d m c (x ∷ xs) r e =
      let f = prepare-First d m c x xs r e in
      let le =
        prepare-clock d (insert OpRef_discrete (DocumentOp.ref f.op) f.hash m)
          (op_later c f.op.timestamp) xs (f.ops, f.clock) f.rest in
      subst (λ (p : List DocumentOp × ℕ). c ≤ p.1) f.result (ground (arith, le))

  -- A batch that was accepted is accepted again, with the same result, by a document of the same
  -- site and numbering whose log agrees with the batch's hashes and whose clock is not behind.
  pub prepare_again :
      (d d' : Document) (m : Map OpRef PayloadHash) (c k : ℕ) (xs : List DocumentOp)
      (r : List DocumentOp × ℕ) (h : OpRef → PayloadHash)
      → d'.site_id ≡ d.site_id
      → d'.local_seq ≡ d.local_seq
      → prepare digest d m c xs ≡ ok r
      → All (Good h d') r.0
      → r.1 ≤ k
      → prepare digest d' m k xs ≡ ok (r.0, k)
  unfolding prepare
  prepare_again d d' m c k [] r h s l e good le =
      subst (λ (p : List DocumentOp × ℕ). prepare digest d' m k [] ≡ ok (p.0, k)) (ok_inj e) refl
  prepare_again d d' m c k (x ∷ xs) r h s l e good le =
      let f = prepare-First d m c x xs r e in
      let good' = subst (λ (p : List DocumentOp × ℕ). All (Good h d') p.0) (sym f.result) good in
      let le' = subst (λ (p : List DocumentOp × ℕ). p.1 ≤ k) (sym f.result) le in
      let m' = insert OpRef_discrete (DocumentOp.ref f.op) f.hash m in
      let up = prepare-clock d m' (op_later c f.op.timestamp) xs (f.ops, f.clock) f.rest in
      let same : op_later k f.op.timestamp ≡ k = ground (arith, up, le') in
      let own : h (DocumentOp.ref f.op) ≡ f.hash =
        ok_inj (sym good'.0.0 ∙ identify-hash x f.op f.hash f.identified) in
      let again =
        prepare_again d d' m' (op_later c f.op.timestamp) k xs (f.ops, f.clock) h s l f.rest good'.1
          le' in
      subst (λ (p : List DocumentOp × ℕ). prepare digest d' m k (x ∷ xs) ≡ ok (p.0, k)) f.result
        (rw (
          f.identified,
          Admitted-admit d' m f.op f.hash
              (Admitted-again d d' m f.op f.hash h s l own good'.0.1 f.admitted),
          same,
          again,
        ))

  pub prepare-length :
      (d : Document) (m : Map OpRef PayloadHash) (c : ℕ) (xs : List DocumentOp)
      (r : List DocumentOp × ℕ)
      → prepare digest d m c xs ≡ ok r
      → length r.0 ≡ length xs
  unfolding prepare
  prepare-length d m c [] r e = subst (λ (p : List DocumentOp × ℕ). length p.0 ≡ 0) (ok_inj e) refl
  prepare-length d m c (x ∷ xs) r e =
      let f = prepare-First d m c x xs r e in
      let n =
        prepare-length d (insert OpRef_discrete (DocumentOp.ref f.op) f.hash m)
          (op_later c f.op.timestamp) xs (f.ops, f.clock) f.rest in
      subst (λ (p : List DocumentOp × ℕ). length p.0 ≡ length (x ∷ xs)) f.result (omega (arith, n))
