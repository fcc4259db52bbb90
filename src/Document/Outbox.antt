-- ===== src/Document/Outbox.antt =====
-- document.go: `PendingOps` and `MarkSynced`.
pub mod Laws
use geo_crdt.Common.{
  ℕ, String, Bool, true, false, not, ◌||◌, Option, none, some, List, [], ◌∷◌, leb, ltb,
  if◌then◌else◌,
}
use geo_crdt.Common.Texts.{text_eq}
use geo_crdt.Errors.{Result, ok, err, invalid_sync_state}
use geo_crdt.Ops.DocumentOp.{DocumentOp, normalize, strip_embedded_identity}
use geo_crdt.Document.State.{Document}

-- `op.SiteID != d.siteID || op.Seq <= d.syncedThrough`
abbrev pub is_sent : Document → DocumentOp → Bool
is_sent d op = not (text_eq op.site_id d.site_id) || leb op.seq d.synced_through

-- The loop of `PendingOps`.
unfoldable pub pending_loop : Document → ℕ → List DocumentOp → List DocumentOp × ℕ
unfolding normalize strip_embedded_identity
pending_loop d watermark [] = ([], watermark)
pending_loop d watermark (op ∷ ops) =
    let skipped = pending_loop d watermark ops in
    let (pending, last) = pending_loop d (if ltb watermark op.seq then op.seq else watermark) ops in
    if is_sent d op then skipped else (strip_embedded_identity (normalize op) ∷ pending, last)

unfoldable pub pending_ops : Document → Document × List DocumentOp × ℕ
unfolding pending_loop
pending_ops d =
    let (pending, watermark) = pending_loop d d.synced_through d.ops in
    (
      record d {
        issued_through = if ltb d.issued_through watermark then watermark else d.issued_through;
      },
      pending,
      watermark,
    )

unfoldable pub mark_synced : Document → ℕ → Result Document
mark_synced d watermark =
    if leb watermark d.synced_through
    then ok d
    else if ltb d.issued_through watermark || ltb d.local_seq watermark
    then err invalid_sync_state
    else ok (record d { synced_through = watermark })
