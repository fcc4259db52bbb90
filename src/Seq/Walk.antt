-- ===== src/Seq/Walk.antt =====
-- seq.go: the traversal in document order and the reads that go by it.
use geo_crdt.Common.{
  ℕ, zero, suc, ◌+◌, String, not, ◌||◌, Option, none, some, List, [], ◌∷◌, ◌++◌, leb, ◌==◌,
  if◌then◌else◌, length, map,
}
use geo_crdt.Common.Texts.{text_eq}
use geo_crdt.Seq.Vertices.{Coord3, Element, VertexSeq, element_at}

-- The loop of `walk`, with the top of the stack at the head: the children are pushed in reverse, so
-- the first of them is popped next. Each element is popped once, so one more round than there are
-- elements is enough fuel.
unfoldable pub walk_loop : ℕ → List String → VertexSeq → List Element
walk_loop zero stack s = []
walk_loop (suc fuel) [] s = []
walk_loop (suc fuel) (id ∷ stack) s = elim (element_at s id) [
  | none ↦ walk_loop fuel stack s
  | some el ↦ el ∷ walk_loop fuel (el.children ++ stack) s
]

-- The elements that `walk` visits, in order.
unfoldable pub walk : VertexSeq → List Element
unfolding walk_loop
walk s = walk_loop (suc (length s.by_id)) s.roots s

-- The elements that are not tombstoned.
unfoldable pub live : List Element → List Element
live [] = []
live (el ∷ els) = let rest = live els in if el.deleted then rest else el ∷ rest

unfoldable pub visible_coords : VertexSeq → List Coord3
unfolding walk live
visible_coords s = map (λ (el : Element). el.coord) (live (walk s))

-- The visit of `vertexIDAt`, with the variables `id` and `seen`; "" stands for no ID yet.
unfoldable pub find_visible : ℕ → String → ℕ → List Element → String
find_visible index id seen [] = id
find_visible index id seen (el ∷ els) =
    if el.deleted || not (text_eq id "")
    then find_visible index id seen els
    else find_visible index (if seen == index then el.id else id) (seen + 1) els

-- The error names the range, `none` here. An index is an `int`, and a negative one is out of range.
unfoldable pub vertex_id_at : VertexSeq → ℕ → Option String
unfolding walk find_visible
vertex_id_at s index = if leb s.visible index then none else some (find_visible index "" 0 (walk s))
