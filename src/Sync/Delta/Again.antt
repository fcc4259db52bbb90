-- ===== src/Sync/Delta/Again.antt =====
-- Merging a delta again.
use geo_crdt.Common.{
  ℕ, true, false, not, ◌&&◌, List, [], length, ltb, ◌==◌, ◌≡◌, refl, ap, ap₂, ◌∙◌, arith, subst,
}
use geo_crdt.Common.Texts.{text_eq}
use geo_crdt.Errors.{ok, bind_ok, ok_inj, refuse_if-ok, check_ok}
use geo_crdt.Clock.OpRef.{OpRef}
use geo_crdt.Clock.Vector.{seq_of, covered_by, merge_vector_clocks}
use geo_crdt.Clock.Vector.Covers.{merge-ge, covered_by-grows, covered_by-merge, merge-covered}
use geo_crdt.Ops.DocumentOp.{DocumentOp}
use geo_crdt.Identity.{Payload, PayloadHash}
use geo_crdt.Document.State.{Document, knowledge}
use geo_crdt.Document.Tally.{MergeResult}
use geo_crdt.Document.Merge.{prepare, merge_ops_locked, op_later}
use geo_crdt.Document.Merge.Later.{Later, Later-same, Later-trans}
use geo_crdt.Document.Merge.Idempotence.{
  all_duplicates, looped, looped-Covers, looped-again, merged,
}
use geo_crdt.Sync.Delta.{
  protocol_version, Delta, validate_delta_metadata, admit_delta, folded, merge_delta,
}

-- The guards of `MergeDelta`.
pub record Admissible (d : Document) (delta : Delta) : Type 0 where
  version : not (delta.version == protocol_version) ≡ false
  pub metadata : validate_delta_metadata delta ≡ ok tt
  document : not (text_eq delta.document_id d.document_id) ≡ false
  base : not (text_eq delta.base_hash d.base_hash) ≡ false
  numbered :
      (text_eq delta.site_id d.site_id && ltb d.local_seq (seq_of delta.vector_clock delta.site_id))
      ≡ false
  gapless : not (covered_by delta.compacted (knowledge d)) ≡ false

admit_delta-Admissible :
    (d : Document) (delta : Delta) → admit_delta d delta ≡ ok tt → Admissible d delta
unfolding admit_delta
admit_delta-Admissible d delta e =
    let (version, e1) = refuse_if-ok _ _ _ tt e in
    let (metadata, e2) = check_ok _ _ tt e1 in
    let (document, e3) = refuse_if-ok _ _ _ tt e2 in
    let (base, e4) = refuse_if-ok _ _ _ tt e3 in
    let (numbered, e5) = refuse_if-ok _ _ _ tt e4 in
    record {
      version = version;
      metadata = metadata;
      document = document;
      base = base;
      numbered = numbered;
      gapless = ground (arith, e5);
    }

Admissible-admit_delta :
    (d : Document) (delta : Delta) → Admissible d delta → admit_delta d delta ≡ ok tt
unfolding admit_delta
Admissible-admit_delta d delta a =
    rw (a.version, a.metadata, a.document, a.base, a.numbered, a.gapless) refl

module _ (digest : Payload → PayloadHash) where
  -- What a merged delta went through.
  pub record Merged (d d' : Document) (delta : Delta) : Type 0 where
    pub admissible : Admissible d delta
    pub prepared : List DocumentOp × ℕ
    pub accepted : prepare digest d [] d.clock delta.ops ≡ ok prepared
    pub result : folded (merged digest d prepared) delta ≡ d'

  pub merge_delta-Merged :
      (d d' : Document) (delta : Delta) (result : MergeResult)
      → merge_delta digest d delta ≡ ok (d', result)
      → Merged d d' delta
  unfolding merge_delta merge_ops_locked
  merge_delta-Merged d d' delta result e =
      let (admitted, e1) = check_ok (admit_delta d delta) _ (d', result) e in
      let (m, locked, e2) = bind_ok (merge_ops_locked digest d delta.ops) _ (d', result) e1 in
      let (p, q, e3) = bind_ok (prepare digest d [] d.clock delta.ops) _ m locked in
      record {
        admissible = admit_delta-Admissible d delta admitted;
        prepared = p;
        accepted = q;
        result =
            ap (λ (x : Document × MergeResult). folded x.0 delta) (ok_inj e3)
            ∙ ap (λ (x : Document × MergeResult). x.0) (ok_inj e2);
      }

  -- A merged delta leaves a document that comes after the loop over its operations.
  pub folded-Later :
      (h : OpRef → PayloadHash) (d : Document) (p : List DocumentOp × ℕ) (delta : Delta)
      → Later h (looped digest d p) (folded (merged digest d p) delta)
  folded-Later h d p delta =
      Later-same h (looped digest d p) (op_later (merged digest d p).clock delta.clock)
        (merge_vector_clocks (looped digest d p).compacted delta.compacted)
        (merge-ge (looped digest d p).compacted delta.compacted)

  folded_again :
      (d : Document) (delta : Delta)
      → op_later d.clock delta.clock ≡ d.clock
      → merge_vector_clocks d.compacted delta.compacted ≡ d.compacted
      → folded d delta ≡ d
  folded_again d delta c m = ap₂ (λ n w. record d { clock = n; compacted = w }) c m

  knowledge-Later :
      (h : OpRef → PayloadHash) (d d' : Document) (delta : Delta)
      → covered_by delta.compacted d'.compacted ≡ true
      → covered_by delta.compacted (knowledge d') ≡ true
  unfolding knowledge
  knowledge-Later h d d' delta c =
      covered_by-grows delta.compacted d'.compacted (knowledge d') c
        (merge-ge d'.compacted d'.frontier.frontier)

  Admissible-again :
      (h : OpRef → PayloadHash) (d d' : Document) (delta : Delta)
      → Later h d d'
      → covered_by delta.compacted d'.compacted ≡ true
      → Admissible d delta
      → Admissible d' delta
  Admissible-again h d d' delta l c a = record {
    version = a.version;
    metadata = a.metadata;
    document = rw (l.document_id) a.document;
    base = rw (l.base_hash) a.base;
    numbered = rw (l.site_id, l.local_seq) a.numbered;
    gapless = rw (knowledge-Later h d d' delta c) refl;
  }

  folded_delta-again :
      (d : Document) (delta : Delta) (p : List DocumentOp × ℕ)
      → Admissible d delta
      → prepare digest d [] d.clock delta.ops ≡ ok p
      → merge_delta digest (folded (merged digest d p) delta) delta
        ≡ ok (folded (merged digest d p) delta, all_duplicates (length delta.ops))
  unfolding merge_delta
  folded_delta-again d delta p a q =
      let d' = folded (merged digest d p) delta in
      let (h, covers) = looped-Covers digest d delta.ops p q in
      let later = Later-trans h d (looped digest d p) d' covers.0 (folded-Later h d p delta) in
      let covered = covered_by-merge (looped digest d p).compacted delta.compacted in
      let admitted =
        Admissible-admit_delta d' delta (Admissible-again h d d' delta later covered a) in
      let again =
        looped-again digest d d' delta.ops p q (ground arith) (λ k. folded-Later k d p delta) in
      rw
        (
          admitted,
          again,
          folded_again d' delta (ground arith) (merge-covered d'.compacted delta.compacted covered),
        )
        refl

  -- A delta that was merged can be merged again: the document is the same, and every operation is
  -- counted as a duplicate.
  pub merge_delta-again :
      (d d' : Document) (delta : Delta) (result : MergeResult)
      → merge_delta digest d delta ≡ ok (d', result)
      → merge_delta digest d' delta ≡ ok (d', all_duplicates (length delta.ops))
  merge_delta-again d d' delta result e =
      let m = merge_delta-Merged d d' delta result e in
      subst (λ x. merge_delta digest x delta ≡ ok (x, all_duplicates (length delta.ops))) m.result
        (folded_delta-again d delta m.prepared m.admissible m.accepted)
