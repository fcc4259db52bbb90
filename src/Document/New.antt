-- ===== src/Document/New.antt =====
-- document.go: `NewDocument`. The fresh random IDs are parameters.
use geo_crdt.Common.{String, []}
use geo_crdt.Common.Texts.{text_eq}
use geo_crdt.Common.Decimal.{is_blank, trim_space}
use geo_crdt.Common.{if◌then◌else◌}
use geo_crdt.Clock.Frontier.{new_frontier_clock}
use geo_crdt.Document.Base.{CanonicalBase, compute_base_hash}
use geo_crdt.Document.State.{Document}

pub record Fresh : Type 0 where
  pub document_id : String
  pub site_id : String

-- `siteID = strings.TrimSpace(siteID); if siteID == "" { siteID = NewSiteID() }`
unfoldable pub site_or_fresh : Fresh → String → String
unfolding trim_space
site_or_fresh fresh site_id =
    if text_eq (trim_space site_id) "" then fresh.site_id else trim_space site_id

unfoldable pub document_or_fresh : Fresh → String → String
unfolding is_blank
document_or_fresh fresh document_id =
    if is_blank document_id then fresh.document_id else document_id

unfoldable pub new_document : (CanonicalBase → String) → Fresh → String → String → Document
unfolding site_or_fresh document_or_fresh compute_base_hash
new_document base_digest fresh document_id site_id = record {
  document_id = document_or_fresh fresh document_id;
  site_id = site_or_fresh fresh site_id;
  clock = 0;
  local_seq = 0;
  base_hash = compute_base_hash base_digest (document_or_fresh fresh document_id) [];
  features = [];
  ops = [];
  seen = [];
  frontier = new_frontier_clock;
  compacted = [];
  synced_through = 0;
  issued_through = 0;
  pending_gen = [];
}
