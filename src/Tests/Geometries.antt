-- ===== src/Tests/Geometries.antt =====
-- Geometries of one point.
use geo_crdt.Common.{[], ◌∷◌, none, false, ◌≡◌, refl, sym, ◌∙◌, ◌≢◌, arith, lookup}
use geo_crdt.Common.Texts.{String_discrete}
use geo_crdt.Float.{is_finite}
use geo_crdt.Json.{empty}
use geo_crdt.Ops.Kinds.{GeometryOpAction, point}
use geo_crdt.Ops.GeometryOp.{GeometryOp}
use geo_crdt.Seq.Key.{initial_key}
use geo_crdt.Seq.Vertices
use geo_crdt.Geometry.State.{GeometryState, applied, superseded}
use geo_crdt.Geometry.Apply.{apply_once, part_dep}
use geo_crdt.Geometry.Drain
use geo_crdt.Geometry.Drain.{drain_loop, drain, unlocks_pending}
use geo_crdt.Geometry.Drain.Waiting.{AreWaiting}
use geo_crdt.Geometry.Drain.Fuel.{drain-Finishes}
use geo_crdt.Geometry.Drain.Invariant.{apply-AreWaiting}
use geo_crdt.Geometry.Apply.Outcomes.{apply_once_lem}

abbrev place : GeometryState
place = record { typ = point; dims = 2; parts = []; pending = []; cache = none }

abbrev removal : GeometryOp
removal = record {
  action = GeometryOpAction.remove_part;
  site_id = "a";
  seq = 1;
  timestamp = 1;
  part_id = "part:0";
  ring_id = "";
  vertex_id = "";
  after_vertex_id = "";
  coord = [];
  ring = [];
  part = empty;
}

-- A point that was moved with timestamp 5.
abbrev moved : GeometryState
moved = record place {
  parts =
      record {
        id = "part:0";
        key = initial_key 0;
        typ = point;
        deleted = false;
        rings =
            record {
              id = "ring:0:0";
              key = initial_key 0;
              exterior = false;
              deleted = false;
              seq = record {
                by_id =
                    (
                      "v:0:0",
                      record {
                        id = "v:0:0";
                        parent_id = "";
                        key = initial_key 0;
                        coord = record { x = 1; y = 2; z = 0 };
                        deleted = false;
                        move_reg = record { timestamp = 5; site_id = "b"; seq = 1 };
                        children = [];
                      },
                    )
                    ∷ [];
                roots = "v:0:0" ∷ [];
                visible = 1;
              };
            }
            ∷ [];
      }
      ∷ [];
}

-- An earlier move of the same vertex, which loses.
abbrev late_move : GeometryOp
late_move = record removal {
  action = GeometryOpAction.move_vertex;
  timestamp = 3;
  ring_id = "ring:0:0";
  vertex_id = "v:0:0";
  coord = 3 ∷ 4 ∷ [];
}

late_move-superseded : (apply_once moved late_move).1 ≡ superseded
unfolding apply_once lookup String_discrete Vertices.move_vertex is_finite
late_move-superseded = refl

late_move-refused : (apply_once moved late_move).1 ≢ applied
late_move-refused e = absurd (outcome (sym late_move-superseded ∙ e))
  where
    outcome : ¬ (superseded ≡ applied)
    outcome q = cc

apply_once_lem_example : (apply_once moved late_move).0 ≡ moved
apply_once_lem_example = apply_once_lem moved late_move late_move-refused

-- A geometry in which the removal waits for its part.
abbrev waiting : GeometryState
waiting = record place { pending = (part_dep "part:0", removal ∷ []) ∷ [] }

drain-Finishes_example :
    let d =
      drain_loop 9 (record { state = waiting; deps = part_dep "part:0" ∷ []; outcomes = [] }) in
    (d.deps ≡ []) × (drain waiting (part_dep "part:0" ∷ []) ≡ (d.state, d.outcomes))
unfolding unlocks_pending
drain-Finishes_example =
    drain-Finishes waiting (part_dep "part:0" ∷ []) 9 ((refl, tt), tt) (omega arith)

apply-AreWaiting_example : AreWaiting (Drain.apply waiting removal).0.pending
apply-AreWaiting_example = apply-AreWaiting waiting removal ((refl, tt), tt)
