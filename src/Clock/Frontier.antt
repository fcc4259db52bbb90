-- ===== src/Clock/Frontier.antt =====
-- clock.go: the frontier clock.
pub mod Advance
pub mod Site
pub mod History
use geo_crdt.Common.{
  ℕ, zero, suc, String, true, false, none, some, [], ◌∷◌, leb, ◌==◌, if◌then◌else◌, Map, lookup,
  insert, erase, has, length, ℕ_discrete,
}
use geo_crdt.Common.Texts.{String_discrete}
use geo_crdt.Clock.Limits.{inc}
use geo_crdt.Clock.Vector.{VectorClock, seq_of}

-- `map[uint64]struct{}`
abbrev pub SeqSet : Type 0
SeqSet = Map ℕ (Unit {0})

pub record FrontierClock : Type 0 where
  pub frontier : VectorClock
  pub staged : Map String SeqSet

abbrev pub new_frontier_clock : FrontierClock
new_frontier_clock = record { frontier = []; staged = [] }

-- `f.staged[siteID]`, a nil map where the key is missing.
unfoldable pub staged_at : FrontierClock → String → SeqSet
staged_at f site_id = elim (lookup String_discrete site_id f.staged) [ none ↦ [] | some s ↦ s ]

-- The loop of `observe`: from frontier `n` through the staged successors. Each round deletes a
-- staged number, so one more round than there are numbers is enough fuel.
unfoldable pub advance : ℕ → ℕ → SeqSet → ℕ × SeqSet
advance zero n staged = (n, staged)
advance (suc fuel) n staged = elim (has ℕ_discrete (inc n) staged) [
  | false ↦ (n, staged)
  | true ↦ advance fuel (inc n) (erase ℕ_discrete (inc n) staged)
]

unfoldable pub restage : String → SeqSet → Map String SeqSet → Map String SeqSet
restage site_id [] staged = erase String_discrete site_id staged
restage site_id (e ∷ rest) staged = insert String_discrete site_id (e ∷ rest) staged

unfoldable pub observe : FrontierClock → String → ℕ → FrontierClock
observe f site_id seq =
    if leb seq (seq_of f.frontier site_id)
    then f
    else (if seq == inc (seq_of f.frontier site_id)
        then (let (n, rest) =
              advance (suc (length (staged_at f site_id))) seq (staged_at f site_id) in
            record {
              frontier = insert String_discrete site_id n f.frontier;
              staged = restage site_id rest f.staged;
            })
        else record f {
          staged =
              insert String_discrete site_id (insert ℕ_discrete seq tt (staged_at f site_id))
                f.staged;
        })
