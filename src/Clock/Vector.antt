-- ===== src/Clock/Vector.antt =====
-- clock.go: vector clocks.
pub mod Laws
pub mod Covers
use geo_crdt.Common.{
  ℕ, String, Bool, true, false, none, some, [], ◌∷◌, ltb, if◌then◌else◌, Map, lookup, insert,
}
use geo_crdt.Common.Texts.{String_discrete}

-- `map[string]uint64`; a missing key reads as 0.
abbrev pub VectorClock : Type 0
VectorClock = Map String ℕ

-- `clock[siteID]`
unfoldable pub seq_of : VectorClock → String → ℕ
seq_of clock site_id = elim (lookup String_discrete site_id clock) [ none ↦ 0 | some seq ↦ seq ]

-- The loop of `mergeVectorClocks` over the entries of `b`.
unfoldable pub merge_vector_clocks : VectorClock → VectorClock → VectorClock
merge_vector_clocks result [] = result
merge_vector_clocks result ((site_id, seq) ∷ b) =
    merge_vector_clocks
      (if ltb (seq_of result site_id) seq
        then insert String_discrete site_id seq result
        else result)
      b

unfoldable pub covered_by : VectorClock → VectorClock → Bool
covered_by [] other = true
covered_by ((site_id, seq) ∷ clock) other =
    if ltb (seq_of other site_id) seq then false else covered_by clock other
