-- ===== src/Seq/Vertices.antt =====
-- seq.go: `vertexSeq` and its operations.
pub mod Registers
use geo_crdt.Common.{
  ℕ, zero, suc, ◌+◌, ◌-◌, String, Bool, true, false, not, ◌&&◌, ◌||◌, Option, none, some, List, [],
  ◌∷◌, ltb, if◌then◌else◌, Map, lookup, insert, has,
}
use geo_crdt.Common.Texts.{String_discrete, text_eq}
use geo_crdt.Float.{Float}
use geo_crdt.Ids.{initial_vertex_id}
use geo_crdt.Clock.Stamp
use geo_crdt.Clock.Stamp.{Stamp}
use geo_crdt.Seq.Key.{SeqKey, before, initial_key}
use geo_crdt.Seq.Search.{insert_sorted}

-- `[3]float64`
pub record Coord3 : Type 0 where
  pub x : Float
  pub y : Float
  pub z : Float

pub record Element : Type 0 where
  pub id : String
  pub parent_id : String
  pub key : SeqKey
  pub coord : Coord3
  pub deleted : Bool
  pub move_reg : Stamp
  pub children : List String

pub record VertexSeq : Type 0 where
  pub by_id : Map String Element
  pub roots : List String
  pub visible : ℕ

abbrev pub new_vertex_seq : VertexSeq
new_vertex_seq = record { by_id = []; roots = []; visible = 0 }

abbrev pub element_at : VertexSeq → String → Option Element
element_at s id = lookup String_discrete id s.by_id

-- `s.byID[id] = el`, and the writes through the pointer that is stored there.
abbrev pub put_element : VertexSeq → String → Element → VertexSeq
put_element s id el = record s { by_id = insert String_discrete id el s.by_id }

unfoldable pub has_vertex : VertexSeq → String → Bool
has_vertex s id = has String_discrete id s.by_id

-- `key.before(siblings[i].key)`, for the sibling with the given ID.
unfoldable pub before_sibling : VertexSeq → SeqKey → String → Bool
unfolding before
before_sibling s key sibling = elim (element_at s sibling) [
  | none ↦ false
  | some el ↦ before key el.key
]

-- Enters the new element among the children of its parent. Go panics where the parent is missing,
-- and the callers test that it is there; here nothing is entered.
unfoldable pub link : VertexSeq → Element → VertexSeq
unfolding before_sibling
link s el =
    if text_eq el.parent_id ""
    then record s { roots = insert_sorted (before_sibling s el.key) el.id s.roots }
    else (elim (element_at s el.parent_id) [
      | none ↦ s
      | some parent ↦ put_element s el.parent_id (record parent {
        children = insert_sorted (before_sibling s el.key) el.id parent.children;
      })
    ])

abbrev pub new_element : String → String → SeqKey → Coord3 → Element
new_element id parent_id key coord = record {
  id = id;
  parent_id = parent_id;
  key = key;
  coord = coord;
  deleted = false;
  move_reg = Stamp.zero_stamp;
  children = [];
}

unfoldable pub insert_vertex : VertexSeq → String → String → SeqKey → Coord3 → VertexSeq × Bool
unfolding has_vertex link
insert_vertex s id parent_id key coord =
    if has_vertex s id
    then (s, false)
    else (let el = new_element id parent_id key coord in
        let linked = link (put_element s id el) el in
        (record linked { visible = linked.visible + 1 }, true))

unfoldable pub move_vertex : VertexSeq → String → Stamp → Coord3 → VertexSeq × Bool
unfolding Stamp.is_set Stamp.newer
move_vertex s id stamp coord = elim (element_at s id) [
  | none ↦ (s, false)
  | some el ↦
      if Stamp.is_set el.move_reg && not (Stamp.newer stamp el.move_reg)
      then (s, false)
      else (put_element s id (record el { coord = coord; move_reg = stamp }), true)
]

unfoldable pub delete_vertex : VertexSeq → String → VertexSeq × Bool
delete_vertex s id = elim (element_at s id) [
  | none ↦ (s, false)
  | some el ↦
      if el.deleted
      then (s, false)
      else (let marked = put_element s id (record el { deleted = true }) in
          (record marked { visible = marked.visible - 1 }, true))
]

-- The loop of `newInitialSeq` and of the two places in geometry.go that build a fresh sequence:
-- initial keys in a parent chain, with the IDs that `vertex_id` gives the positions.
-- `mustInsert` panics on a repeated ID.
unfoldable pub insert_chain : (ℕ → String) → ℕ → String → List Coord3 → VertexSeq → VertexSeq
unfolding insert_vertex
insert_chain vertex_id pos parent_id [] s = s
insert_chain vertex_id pos parent_id (coord ∷ coords) s =
    insert_chain vertex_id (suc pos) (vertex_id pos) coords
      (insert_vertex s (vertex_id pos) parent_id (initial_key pos) coord).0

unfoldable pub new_initial_seq : ℕ → List Coord3 → VertexSeq
unfolding insert_chain
new_initial_seq ring_index coords =
    insert_chain (initial_vertex_id ring_index) 0 "" coords new_vertex_seq
