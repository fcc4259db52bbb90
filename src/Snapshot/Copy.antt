-- ===== src/Snapshot/Copy.antt =====
-- sync.go: `cloneSnapshot`. The copies of maps, slices and pointers are the same values; only the
-- operations change, since `cloneDocumentOps` normalizes them.
use geo_crdt.Common.{◌≡◌, refl, ap₂, List, [], ◌∷◌}
use geo_crdt.Ops.DocumentOp.{DocumentOp}
use geo_crdt.Ops.DocumentOp.Wire.{normalize-strip}
use geo_crdt.Document.Merge.{normalize_all}
use geo_crdt.Snapshot.{Snapshot}

unfoldable pub clone_snapshot : Snapshot → Snapshot
unfolding normalize_all
clone_snapshot s = record s {
  outbox_ops = normalize_all s.outbox_ops;
  retained_ops = normalize_all s.retained_ops;
  pending_ops = normalize_all s.pending_ops;
}

pub normalize_all-again :
    (ops : List DocumentOp) → normalize_all (normalize_all ops) ≡ normalize_all ops
unfolding normalize_all
normalize_all-again [] = refl
normalize_all-again (op ∷ ops) = ap₂ (◌∷◌) (normalize-strip op).2 (normalize_all-again ops)

-- A copy is copied to itself.
pub clone_snapshot-again : (s : Snapshot) → clone_snapshot (clone_snapshot s) ≡ clone_snapshot s
unfolding clone_snapshot
clone_snapshot-again s =
    rw
      (
        normalize_all-again s.outbox_ops,
        normalize_all-again s.retained_ops,
        normalize_all-again s.pending_ops,
      )
      refl
