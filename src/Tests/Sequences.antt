-- ===== src/Tests/Sequences.antt =====
-- Insertion into a sorted list, and edits of a ring of three vertices.
use geo_crdt.Common.{ℕ, zero, suc, Bool, List, [], ◌∷◌, length, ltb, ◌≡◌, ◌≢◌, refl, arith, ap}
use geo_crdt.Clock.Stamp.{Stamp, is_set}
use geo_crdt.Seq.Search.{insert_sorted, holds_at, search, search_loop}
use geo_crdt.Seq.Search.Laws.{IsMonotone, insert_before, insert_sorted-insert_before}
use geo_crdt.Seq.Vertices.{Coord3, VertexSeq, new_initial_seq}
use geo_crdt.Seq.Vertices.Registers.{edit, move, edit_comm}

abbrev beyond : ℕ → Bool
beyond k = ltb 4 k

abbrev sorted : List ℕ
sorted = 1 ∷ 3 ∷ 5 ∷ 7 ∷ []

sorted-IsMonotone : IsMonotone (length sorted) (holds_at beyond sorted)
sorted-IsMonotone zero zero le lt h = h
sorted-IsMonotone (suc a) zero le lt h = absurd (omega arith)
sorted-IsMonotone zero (suc zero) le lt h = absurd (cc)
sorted-IsMonotone (suc zero) (suc zero) le lt h = h
sorted-IsMonotone (suc (suc a)) (suc zero) le lt h = absurd (omega arith)
sorted-IsMonotone a (suc (suc zero)) le lt h = refl
sorted-IsMonotone a (suc (suc (suc zero))) le lt h = refl
sorted-IsMonotone a (suc (suc (suc (suc b)))) le lt h = absurd (omega arith)

insert_sorted-insert_before_example : insert_sorted beyond 4 sorted ≡ insert_before beyond 4 sorted
insert_sorted-insert_before_example = insert_sorted-insert_before beyond 4 sorted sorted-IsMonotone

inserted : insert_sorted beyond 4 sorted ≡ 1 ∷ 3 ∷ 4 ∷ 5 ∷ 7 ∷ []
unfolding insert_sorted search search_loop
inserted = refl

abbrev corner : ℕ → ℕ → Coord3
corner x y = record { x = x; y = y; z = 0 }

abbrev triangle : VertexSeq
triangle = new_initial_seq 0 (corner 0 0 ∷ corner 4 0 ∷ corner 0 4 ∷ [])

abbrev early : Stamp
early = record { timestamp = 3; site_id = "a"; seq = 1 }

abbrev late : Stamp
late = record { timestamp = 4; site_id = "b"; seq = 1 }

early≢late : early ≢ late
early≢late e = omega (arith, ap (λ (x : Stamp). x.timestamp) e)

edit_comm_example :
    edit (edit triangle (move "init:0:1" early (corner 5 0))) (move "init:0:1" late (corner 6 0))
    ≡ edit (edit triangle (move "init:0:1" late (corner 6 0))) (move "init:0:1" early (corner 5 0))
unfolding is_set
edit_comm_example =
    edit_comm triangle (move "init:0:1" early (corner 5 0)) (move "init:0:1" late (corner 6 0))
      (early≢late, refl, refl)
