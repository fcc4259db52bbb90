-- ===== src/Tests/Clocks.antt =====
-- Clocks of two sites.
use geo_crdt.Common.{
  ℕ, ◌≤◌, ◌<◌, String, true, List, [], ◌∷◌, ◌≡◌, ◌↔◌, refl, arith, lookup, insert, erase,
  ℕ_discrete,
}
use Prim.Native.Nat.{max}
use geo_crdt.Common.Texts.{String_discrete}
use geo_crdt.Clock.Limits.{inc}
use geo_crdt.Clock.OpRef.{OpRef}
use geo_crdt.Clock.Vector.{VectorClock, seq_of, merge_vector_clocks, covered_by}
use geo_crdt.Clock.Vector.Laws.{IsClock, seq_of-merge, covered_by_iff, merge-least_upper_bound}
use geo_crdt.Clock.Frontier.{observe, advance, staged_at, restage}
use geo_crdt.Clock.Frontier.History.{
  received, observe_all, InRange, le-frontier_iff, frontier-deterministic, staged-nil_iff,
}

abbrev at : String → ℕ → OpRef
at site seq = record { site_id = site; seq = seq }

-- The third operation of a arrives before the second.
abbrev early : List OpRef
early = at "a" 2 ∷ at "a" 3 ∷ at "b" 1 ∷ at "a" 1 ∷ []

abbrev ordered : List OpRef
ordered = at "b" 1 ∷ at "a" 3 ∷ at "a" 2 ∷ at "a" 1 ∷ []

early_frontier : seq_of (observe_all early).frontier "a" ≡ 3
unfolding seq_of observe_all lookup String_discrete observe inc insert advance staged_at restage
    erase ℕ_discrete
early_frontier = refl

early-InRange : InRange early
early-InRange = (omega arith, (omega arith, (omega arith, (omega arith, tt))))

ordered-InRange : InRange ordered
ordered-InRange = (omega arith, (omega arith, (omega arith, (omega arith, tt))))

same_received : (k : ℕ) → received "a" early k ≡ received "a" ordered k
unfolding received String_discrete
same_received k = ground arith

frontier-deterministic_example :
    seq_of (observe_all early).frontier "a" ≡ seq_of (observe_all ordered).frontier "a"
frontier-deterministic_example =
    frontier-deterministic early ordered "a" early-InRange ordered-InRange same_received

le-frontier_iff_example :
    (3 ≤ seq_of (observe_all early).frontier "a")
    ↔ ((k : ℕ) → 0 < k → k ≤ 3 → received "a" early k ≡ true)
le-frontier_iff_example = le-frontier_iff early "a" 3 early-InRange

staged-nil_iff_example :
    ((observe_all early).staged ≡ [])
    ↔ ((s : String) (k : ℕ) → received s early k ≡ true → k ≤ seq_of (observe_all early).frontier s)
staged-nil_iff_example = staged-nil_iff early early-InRange

abbrev clock_a : VectorClock
clock_a = ("a", 3) ∷ ("b", 1) ∷ []

abbrev clock_b : VectorClock
clock_b = ("b", 4) ∷ []

abbrev clock_c : VectorClock
clock_c = ("a", 5) ∷ ("b", 4) ∷ []

clock_a-IsClock : IsClock clock_a
unfolding lookup String_discrete
clock_a-IsClock = (refl, (refl, tt))

clock_b-IsClock : IsClock clock_b
unfolding lookup
clock_b-IsClock = (refl, tt)

seq_of-merge_example :
    seq_of (merge_vector_clocks clock_a clock_b) "b" ≡ max (seq_of clock_a "b") (seq_of clock_b "b")
seq_of-merge_example = seq_of-merge clock_a clock_b "b" clock_b-IsClock

covered_by_iff_example :
    (covered_by clock_a clock_c ≡ true) ↔ ((t : String) → seq_of clock_a t ≤ seq_of clock_c t)
covered_by_iff_example = covered_by_iff clock_a clock_c clock_a-IsClock

merge-least_upper_bound_example :
    (covered_by (merge_vector_clocks clock_a clock_b) clock_c ≡ true)
    ↔ ((covered_by clock_a clock_c ≡ true) × (covered_by clock_b clock_c ≡ true))
merge-least_upper_bound_example =
    merge-least_upper_bound clock_a clock_b clock_c clock_a-IsClock clock_b-IsClock
