-- ===== src/Snapshot/Load/Resume.antt =====
-- What a replica resumes with when it is loaded from a snapshot.
use geo_crdt.Common.{
  Map, String, ◌≡◌, ◌≤◌, refl, sym, ◌∙◌, subst, arith, true, false, not, ◌&&◌, List, [], ◌∷◌,
  sort_stable, ◌==◌, if◌then◌else◌, has, Bool, inl, inr, Option-cases, lookup, none, some, insert,
}
use geo_crdt.Common.Texts.{String_discrete, text_eq}
use geo_crdt.Common.Decimal.{trim_space}
use geo_crdt.Errors.{
  ok, bind_ok, ok_inj, check_ok, refuse_if, refuse_if-ok, identity_collision, ◌>>=◌, ◌>>◌,
}
use geo_crdt.Clock.OpRef.{OpRef, OpRef_discrete}
use geo_crdt.Clock.Vector.{seq_of}
use geo_crdt.Ops.DocumentOp
use geo_crdt.Ops.DocumentOp.{DocumentOp, dot_less}
use geo_crdt.Identity.{Payload, PayloadHash, hash_document_op}
use geo_crdt.Document.State.{RefSet, FeatureState, Document}
use geo_crdt.Document.Base.{CanonicalBase}
use geo_crdt.Document.New.{Fresh, new_document}
use geo_crdt.Document.Apply.{apply_op, stamp_less}
use geo_crdt.Document.Apply.Frame.{IsFrame, apply_op-IsFrame}
use geo_crdt.Document.Merge.{record_op, normalize_all}
use geo_crdt.Sync.Delta.{protocol_version}
use geo_crdt.Snapshot.{FeatureSnapshot, Snapshot}
use geo_crdt.Snapshot.Restore.{restore_feature}
use geo_crdt.Snapshot.Validate.{normalize_snapshot_op, validate_snapshot}
use geo_crdt.Snapshot.Load.{
  restore_features, refs_of, start_from, relog, relog_retained, relog_outbox, reapply,
  reapply_pending, document_from_snapshot,
}

-- The second document has the identity, the counters and the watermarks of the first.
pub record Resumes (d d' : Document) : Type 0 where
  pub document_id : d'.document_id ≡ d.document_id
  pub site_id : d'.site_id ≡ d.site_id
  pub base_hash : d'.base_hash ≡ d.base_hash
  pub clock : d'.clock ≡ d.clock
  pub local_seq : d'.local_seq ≡ d.local_seq
  pub compacted : d'.compacted ≡ d.compacted
  pub synced_through : d'.synced_through ≡ d.synced_through

Resumes-refl : (d : Document) → Resumes d d
Resumes-refl d = record {
  document_id = refl;
  site_id = refl;
  base_hash = refl;
  clock = refl;
  local_seq = refl;
  compacted = refl;
  synced_through = refl;
}

Resumes-trans : (a b c : Document) → Resumes a b → Resumes b c → Resumes a c
Resumes-trans a b c r s = record {
  document_id = s.document_id ∙ r.document_id;
  site_id = s.site_id ∙ r.site_id;
  base_hash = s.base_hash ∙ r.base_hash;
  clock = s.clock ∙ r.clock;
  local_seq = s.local_seq ∙ r.local_seq;
  compacted = s.compacted ∙ r.compacted;
  synced_through = s.synced_through ∙ r.synced_through;
}

Resumes-touch :
    (d : Document) (features : Map String FeatureState) (pending : Map OpRef (List DocumentOp))
    → Resumes d (record d { features = features; pending_gen = pending })
Resumes-touch d features pending = record {
  document_id = refl;
  site_id = refl;
  base_hash = refl;
  clock = refl;
  local_seq = refl;
  compacted = refl;
  synced_through = refl;
}

IsFrame-Resumes : (d d' : Document) → IsFrame d d' → Resumes d d'
IsFrame-Resumes d d' f = subst (Resumes d) (sym f) (Resumes-touch d d'.features d'.pending_gen)

restore_features-Resumes :
    (d d' : Document) (features : List FeatureSnapshot)
    → restore_features d features ≡ ok d'
    → Resumes d d'
unfolding restore_features
restore_features-Resumes d d' [] e = subst (Resumes d) (ok_inj e) (Resumes-refl d)
restore_features-Resumes d d' (fs ∷ features) e =
    let (f, _, e1) = bind_ok (restore_feature fs) _ d' e in
    let next = record d { features = insert String_discrete f.id f d.features } in
    Resumes-trans d next d' (Resumes-touch d next.features d.pending_gen)
      (restore_features-Resumes next d' features e1)

module _ (digest : Payload → PayloadHash) where
  record_op-Resumes : (d : Document) (op : DocumentOp) → Resumes d (record_op digest d op)
  unfolding record_op
  record_op-Resumes d op = record {
    document_id = ground arith;
    site_id = ground arith;
    base_hash = ground arith;
    clock = ground arith;
    local_seq = ground arith;
    compacted = ground arith;
    synced_through = ground arith;
  }

  relog_new :
      (d : Document) (op : DocumentOp)
      → lookup OpRef_discrete (DocumentOp.ref op) d.seen ≡ none
      → relog digest d op ≡ ok (record_op digest d op)
  unfolding relog
  relog_new d op e = rw (relog, e) refl

  relog_known :
      (d : Document) (op : DocumentOp) (k : PayloadHash)
      → lookup OpRef_discrete (DocumentOp.ref op) d.seen ≡ some k
      → relog digest d op ≡ (
          hash_document_op digest op >>= λ hash.
          refuse_if (not (k == hash)) identity_collision >> ok d)
  unfolding relog
  relog_known d op k e = rw (relog, e) refl

  pub relog-Resumes : (d d' : Document) (op : DocumentOp) → relog digest d op ≡ ok d' → Resumes d d'
  relog-Resumes d d' op e = elim (Option-cases (lookup OpRef_discrete (DocumentOp.ref op) d.seen)) [
    | inl n ↦ subst (Resumes d) (ok_inj (sym (relog_new d op n) ∙ e)) (record_op-Resumes d op)
    | inr (k, s) ↦
        let (hash, _, e1) =
          bind_ok (hash_document_op digest op) _ d' (sym (relog_known d op k s) ∙ e) in
        let (_, e2) = refuse_if-ok (not (k == hash)) identity_collision (ok d) d' e1 in
        subst (Resumes d) (ok_inj e2) (Resumes-refl d)
  ]

  relog_unless :
      (pending : Bool) (d d' : Document) (op : DocumentOp)
      → (if pending then ok d else relog digest d op) ≡ ok d'
      → Resumes d d'
  relog_unless true d d' op e = subst (Resumes d) (ok_inj e) (Resumes-refl d)
  relog_unless false d d' op e = relog-Resumes d d' op e

  relog_retained-Resumes :
      (pending : RefSet) (d d' : Document) (ops : List DocumentOp)
      → relog_retained digest pending d ops ≡ ok d'
      → Resumes d d'
  unfolding relog_retained
  relog_retained-Resumes pending d d' [] e = subst (Resumes d) (ok_inj e) (Resumes-refl d)
  relog_retained-Resumes pending d d' (op ∷ ops) e =
      let (x, _, e1) = bind_ok (normalize_snapshot_op op) _ d' e in
      let (next, step, e2) =
        bind_ok (if has OpRef_discrete (DocumentOp.ref x) pending then ok d else relog digest d x) _
          d' e1 in
      Resumes-trans d next d'
        (relog_unless (has OpRef_discrete (DocumentOp.ref x) pending) d next x step)
        (relog_retained-Resumes pending next d' ops e2)

  relog_outbox-Resumes :
      (d d' : Document) (ops : List DocumentOp) → relog_outbox digest d ops ≡ ok d' → Resumes d d'
  unfolding relog_outbox
  relog_outbox-Resumes d d' [] e = subst (Resumes d) (ok_inj e) (Resumes-refl d)
  relog_outbox-Resumes d d' (op ∷ ops) e =
      let (x, _, e1) = bind_ok (normalize_snapshot_op op) _ d' e in
      let (next, step, e2) = bind_ok (relog digest d x) _ d' e1 in
      Resumes-trans d next d' (relog-Resumes d next x step) (relog_outbox-Resumes next d' ops e2)

  reapply-Resumes : (d : Document) (op : DocumentOp) → Resumes d (reapply digest d op)
  unfolding reapply
  reapply-Resumes d op = kept (has OpRef_discrete (DocumentOp.ref op) d.seen)
    where
      kept : (known : Bool) → Resumes d (if known then d else record_op digest (apply_op d op).0 op)
      kept true = Resumes-refl d
      kept false =
          Resumes-trans d (apply_op d op).0 (record_op digest (apply_op d op).0 op)
            (IsFrame-Resumes d (apply_op d op).0 (apply_op-IsFrame d op))
            (record_op-Resumes (apply_op d op).0 op)

  reapply_pending-Resumes :
      (d d' : Document) (ops : List DocumentOp)
      → reapply_pending digest d ops ≡ ok d'
      → Resumes d d'
  unfolding reapply_pending
  reapply_pending-Resumes d d' [] e = subst (Resumes d) (ok_inj e) (Resumes-refl d)
  reapply_pending-Resumes d d' (op ∷ ops) e =
      let (x, _, e1) = bind_ok (normalize_snapshot_op op) _ d' e in
      Resumes-trans d (reapply digest d x) d' (reapply-Resumes d x)
        (reapply_pending-Resumes (reapply digest d x) d' ops e1)

  -- A replica that is loaded from a snapshot has the identity, the counters and the watermarks that
  -- the snapshot gives it before its features and operations are restored; these change none.
  pub document_from_snapshot-Resumes :
      (base_digest : CanonicalBase → String) (fresh : Fresh) (site_id : String) (s : Snapshot)
      (d : Document)
      → document_from_snapshot digest base_digest fresh site_id s ≡ ok d
      → Resumes (start_from (new_document base_digest fresh s.document_id site_id) s) d
  unfolding document_from_snapshot
  document_from_snapshot-Resumes base_digest fresh site_id s d e =
      let start = start_from (new_document base_digest fresh s.document_id site_id) s in
      let (_, e1) = refuse_if-ok (not (s.version == protocol_version)) _ _ d e in
      let (_, e2) = check_ok (validate_snapshot digest s) _ d e1 in
      let (_, e3) =
        refuse_if-ok
          (not (text_eq (trim_space site_id) "")
            && not (text_eq (trim_space site_id) s.site_id)
            && not (seq_of s.applied (trim_space site_id) == 0))
          _ _ d e2 in
      let (a, p, e4) = bind_ok (restore_features start s.features) _ d e3 in
      let retained = sort_stable dot_less (normalize_all s.retained_ops) in
      let (b, q, e5) = bind_ok (relog_retained digest (refs_of s.pending_ops) a retained) _ d e4 in
      let (c, r, e6) = bind_ok (relog_outbox digest b (normalize_all s.outbox_ops)) _ d e5 in
      Resumes-trans start a d (restore_features-Resumes start a s.features p) (
        Resumes-trans a b d (relog_retained-Resumes (refs_of s.pending_ops) a b retained q) (
          Resumes-trans b c d (relog_outbox-Resumes b c (normalize_all s.outbox_ops) r) (
            reapply_pending-Resumes c d (sort_stable stamp_less (normalize_all s.pending_ops)) e6)))

  -- A replica that is loaded from a snapshot numbers its operations from beyond every operation of
  -- its site that the snapshot has, folded or applied, has the snapshot's clock and base, and
  -- takes the snapshot's vector clock as folded.
  pub document_from_snapshot-resumed :
      (base_digest : CanonicalBase → String) (fresh : Fresh) (site_id : String) (s : Snapshot)
      (d : Document)
      → document_from_snapshot digest base_digest fresh site_id s ≡ ok d
      → (seq_of s.applied d.site_id ≤ d.local_seq)
        × (seq_of s.vector_clock d.site_id ≤ d.local_seq)
        × (d.clock ≡ s.clock)
        × (d.base_hash ≡ s.base_hash)
        × (d.compacted ≡ s.vector_clock)
  unfolding start_from
  document_from_snapshot-resumed base_digest fresh site_id s d e =
      let r = document_from_snapshot-Resumes base_digest fresh site_id s d e in
      (
        rw (r.local_seq, r.site_id) (ground arith),
        rw (r.local_seq, r.site_id) (ground arith),
        r.clock,
        r.base_hash,
        r.compacted,
      )
