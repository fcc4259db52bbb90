-- ===== src/Ids.antt =====
-- types.go, ops.go and geometry.go: the stable IDs that are derived from positions and from
-- operation identities.
use Prim.Native.String.{String, ◌++◌}
use geo_crdt.Common.{ℕ}
use geo_crdt.Common.Decimal.{decimal}
use geo_crdt.Clock.OpRef.{OpRef}

unfoldable pub initial_part_id : ℕ → String
unfolding decimal
initial_part_id part_index = "part:" ++ decimal part_index

unfoldable pub initial_ring_id : ℕ → ℕ → String
unfolding decimal
initial_ring_id part_index ring_index = "ring:" ++ decimal part_index ++ ":" ++ decimal ring_index

unfoldable pub initial_vertex_id : ℕ → ℕ → String
unfolding decimal
initial_vertex_id ring_index position = "init:" ++ decimal ring_index ++ ":" ++ decimal position

unfoldable pub inserted_vertex_id : String → ℕ → String
unfolding decimal
inserted_vertex_id site_id seq = "op:" ++ site_id ++ ":" ++ decimal seq

unfoldable pub added_ring_id : String → ℕ → String
unfolding decimal
added_ring_id site_id seq = "ring:" ++ site_id ++ ":" ++ decimal seq

unfoldable pub added_part_id : String → ℕ → String
unfolding decimal
added_part_id site_id seq = "part:" ++ site_id ++ ":" ++ decimal seq

unfoldable pub add_ring_vertex_id : OpRef → ℕ → String
unfolding decimal
add_ring_vertex_id ref i = "v:" ++ ref.site_id ++ ":" ++ decimal ref.seq ++ ":" ++ decimal i

unfoldable pub add_part_ring_id : OpRef → ℕ → String
unfolding decimal
add_part_ring_id ref r = "ring:" ++ ref.site_id ++ ":" ++ decimal ref.seq ++ ":" ++ decimal r

unfoldable pub add_part_vertex_id : OpRef → ℕ → ℕ → String
unfolding decimal
add_part_vertex_id ref r i =
    "v:" ++ ref.site_id ++ ":" ++ decimal ref.seq ++ ":" ++ decimal r ++ ":" ++ decimal i
