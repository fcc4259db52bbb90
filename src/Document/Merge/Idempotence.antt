-- ===== src/Document/Merge/Idempotence.antt =====
-- Merging a batch again.
use geo_crdt.Common.{
  ℕ, ◌+◌, ◌≤◌, true, List, [], ◌∷◌, length, sort_stable, sort_stable-All, length-sort_stable,
  All-map, ◌≡◌, ap, ◌∙◌, arith, All, subst,
}
use geo_crdt.Errors.{ok, bind_ok, ok_inj}
use geo_crdt.Ops.DocumentOp.{DocumentOp}
use geo_crdt.Identity.{Payload, PayloadHash}
use geo_crdt.Document.State.{Document}
use geo_crdt.Document.Tally.{
  MergeTally, MergeResult, new_merge_tally, tally_duplicate, tally_finish, waiting_refs,
}
use geo_crdt.Document.Merge.{prepare, is_known, merge_loop, merge_ops_locked, op_later}
use geo_crdt.Document.Apply.{stamp_less}
use geo_crdt.Document.Merge.Prepared.{Good, prepare-Good, prepare_again, prepare-length}
use geo_crdt.Document.Merge.Later.{
  Later, Later-trans, Later-same, Later-is_known, IsHashed, Covers, merge_loop-Later,
  merge_loop-skip,
}
use geo_crdt.Clock.OpRef.{OpRef}

-- The outcome of a batch of nothing but known operations.
abbrev pub all_duplicates : ℕ → MergeResult
all_duplicates n = record {
  applied_count = 0;
  duplicates = n;
  superseded_refs = [];
  buffered_refs = [];
  quarantined_ops = [];
}

abbrev counted : MergeTally → ℕ → MergeTally
counted t n = record t { result = record (t.result) { duplicates = t.result.duplicates + n } }

module _ (digest : Payload → PayloadHash) where
  merge_loop-known :
      (d : Document) (t : MergeTally) (ops : List DocumentOp)
      → All (λ op. is_known d op ≡ true) ops
      → merge_loop digest d t ops ≡ (d, counted t (length ops))
  unfolding merge_loop tally_duplicate
  merge_loop-known d t [] a =
      ap (λ n. (d, record t { result = record (t.result) { duplicates = n } })) (omega arith)
  merge_loop-known d t (op ∷ ops) a =
      merge_loop-skip digest d t op ops a.0
      ∙ merge_loop-known d (tally_duplicate t) ops a.1
      ∙ ap (λ n. (d, record t { result = record (t.result) { duplicates = n } })) (omega arith)

  locked_known :
      (d : Document) (batch ops : List DocumentOp)
      → prepare digest d [] d.clock batch ≡ ok (ops, d.clock)
      → merge_loop digest d new_merge_tally (sort_stable stamp_less ops)
        ≡ (d, counted new_merge_tally (length (sort_stable stamp_less ops)))
      → length (sort_stable stamp_less ops) ≡ length batch
      → merge_ops_locked digest d batch ≡ ok (d, all_duplicates (length batch))
  unfolding merge_ops_locked tally_finish waiting_refs
  locked_known d batch ops e known n =
      let same : op_later d.clock d.clock ≡ d.clock = ground arith in
      rw (e, known, same, n) (ap (λ k. ok (d, all_duplicates k)) (omega arith))

  -- The document after the second loop of `mergeOpsLocked`.
  abbrev pub looped : Document → List DocumentOp × ℕ → Document
  looped d p = (merge_loop digest d new_merge_tally (sort_stable stamp_less p.0)).0

  -- The loop keeps the log, and knows every operation of the batch.
  pub looped-Covers :
      (d : Document) (batch : List DocumentOp) (p : List DocumentOp × ℕ)
      → prepare digest d [] d.clock batch ≡ ok p
      → (h : OpRef → PayloadHash) × Covers digest h d (sort_stable stamp_less p.0) (looped d p)
  looped-Covers d batch p q =
      let (h, _, good) = prepare-Good digest d [] d.clock batch p q in
      let hashed = All-map (Good digest h d) (IsHashed digest h) (λ op g. g.0) p.0 good in
      (
        h,
        merge_loop-Later digest h d new_merge_tally (sort_stable stamp_less p.0)
            (sort_stable-All (IsHashed digest h) stamp_less p.0 hashed),
      )

  -- A prepared batch is nothing but duplicates to a document that comes after merging it.
  pub looped-again :
      (d e : Document) (batch : List DocumentOp) (p : List DocumentOp × ℕ)
      → prepare digest d [] d.clock batch ≡ ok p
      → p.1 ≤ e.clock
      → ((h : OpRef → PayloadHash) → Later h (looped d p) e)
      → merge_ops_locked digest e batch ≡ ok (e, all_duplicates (length batch))
  looped-again d e batch p q le after =
      let (h, _, good) = prepare-Good digest d [] d.clock batch p q in
      let hashed = All-map (Good digest h d) (IsHashed digest h) (λ op g. g.0) p.0 good in
      let sorted = sort_stable stamp_less p.0 in
      let (loop, known) =
        merge_loop-Later digest h d new_merge_tally sorted
          (sort_stable-All (IsHashed digest h) stamp_less p.0 hashed) in
      let later = Later-trans h d (looped d p) e loop (after h) in
      let good' =
        All-map (Good digest h d) (Good digest h e) (λ op g. (g.0, later.fits op g.1)) p.0 good in
      let prepared =
        prepare_again digest d e [] d.clock e.clock batch p h later.site_id later.local_seq q good'
          le in
      let known' =
        All-map (λ op. is_known (looped d p) op ≡ true) (λ op. is_known e op ≡ true)
          (λ op k. Later-is_known h (looped d p) e op (after h) k) sorted known in
      let unchanged = merge_loop-known e new_merge_tally sorted known' in
      let size : length sorted ≡ length batch =
        length-sort_stable stamp_less p.0 ∙ prepare-length digest d [] d.clock batch p q in
      locked_known e batch p.0 prepared unchanged size

  -- The document that a prepared batch leaves.
  abbrev pub merged : Document → List DocumentOp × ℕ → Document
  merged d p = record (looped d p) { clock = op_later (looped d p).clock p.1 }

  -- A batch that was merged can be merged again: the document is the same, and every operation is
  -- counted as a duplicate.
  pub merge_ops_locked-again :
      (d d' : Document) (batch : List DocumentOp) (result : MergeResult)
      → merge_ops_locked digest d batch ≡ ok (d', result)
      → merge_ops_locked digest d' batch ≡ ok (d', all_duplicates (length batch))
  unfolding merge_ops_locked
  merge_ops_locked-again d d' batch result e =
      let (p, q, e1) = bind_ok (prepare digest d [] d.clock batch) _ (d', result) e in
      subst
        (λ (r : Document × MergeResult).
          merge_ops_locked digest r.0 batch ≡ ok (r.0, all_duplicates (length batch)))
        (ok_inj e1)
        (looped-again d (merged d p) batch p q (ground arith) (λ h.
          Later-same h (looped d p) (op_later (looped d p).clock p.1) (looped d p).compacted
            (λ s. omega arith)))
