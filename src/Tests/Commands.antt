-- ===== src/Tests/Commands.antt =====
-- A command on an empty document.
use geo_crdt.Common.{[], arith}
use geo_crdt.Json.{empty}
use geo_crdt.Clock.Frontier.{new_frontier_clock}
use geo_crdt.Ops.DocumentOp.{Command}
use geo_crdt.Identity.{Payload, PayloadHash}
use geo_crdt.Document.State.{Document}
use geo_crdt.Document.Command.{apply_command}
use geo_crdt.Document.Command.Counters.{IsCounted, apply_command-counters}

abbrev start : Document
start = record {
  document_id = "map";
  site_id = "a";
  clock = 4;
  local_seq = 2;
  base_hash = "";
  features = [];
  ops = [];
  seen = [];
  frontier = new_frontier_clock;
  compacted = [];
  synced_through = 0;
  issued_through = 0;
  pending_gen = [];
}

abbrev constant_digest : Payload → PayloadHash
constant_digest payload = 7

abbrev insertion : Command
insertion = Command.insert_feature "river" empty []

apply_command-counters_example : IsCounted start (apply_command constant_digest start insertion)
apply_command-counters_example =
    apply_command-counters constant_digest start insertion (omega arith) (omega arith)
