-- ===== src/Snapshot/SameIds.antt =====
-- Which vertices a sequence has, after each step of restoring it.
use geo_crdt.Common.{
  String, Bool, true, false, not, ◌||◌, Option, none, some, ◌≡◌, refl, ap, ◌∙◌, arith,
  lookup-insert, Bool-cases, Option-cases, inl, inr,
}
use geo_crdt.Common.Texts.{String_discrete, text_eq}
use geo_crdt.Clock.Stamp.{Stamp}
use geo_crdt.Seq.Key.{SeqKey}
use geo_crdt.Seq.Vertices.{
  Coord3, Element, VertexSeq, element_at, put_element, has_vertex, link, insert_vertex, new_element,
  delete_vertex,
}
use geo_crdt.Snapshot.Restore.{put_move_reg, delete_if}

-- The sequences have the same vertices.
abbrev pub SameIds : VertexSeq → VertexSeq → Type 0
SameIds s t = (id : String) → has_vertex s id ≡ has_vertex t id

has-put :
    (s : VertexSeq) (id x : String) (el : Element)
    → has_vertex (put_element s id el) x ≡ (text_eq id x || has_vertex s x)
unfolding has_vertex
has-put s id x el = ground (arith, lookup-insert String_discrete id x el s.by_id)

has-put_there :
    (s : VertexSeq) (id x : String) (el old : Element)
    → element_at s id ≡ some old
    → has_vertex (put_element s id el) x ≡ has_vertex s x
unfolding has_vertex
has-put_there s id x el old e =
    ground
      (arith, e, lookup-insert String_discrete id x el s.by_id, ap (element_at s) {x = id} {y = x})

has-link : (s : VertexSeq) (el : Element) (x : String) → has_vertex (link s el) x ≡ has_vertex s x
unfolding link has_vertex
has-link s el x = elim (Bool-cases (text_eq el.parent_id "")) [
  | inl e ↦ rw (link, e) refl
  | inr e ↦ elim (Option-cases (element_at s el.parent_id)) [
    | inl n ↦ rw (link, e, n) refl
    | inr (old, o) ↦ rw (link, e, o) (has-put_there s el.parent_id x _ old o)
  ]
]

pub insert_vertex-new :
    (s : VertexSeq) (id parent : String) (key : SeqKey) (coord : Coord3)
    → (insert_vertex s id parent key coord).1 ≡ not (has_vertex s id)
unfolding insert_vertex
insert_vertex-new s id parent key coord = ground arith

pub has-insert_vertex :
    (s : VertexSeq) (id parent x : String) (key : SeqKey) (coord : Coord3)
    → has_vertex s id ≡ false
    → has_vertex (insert_vertex s id parent key coord).0 x ≡ (text_eq id x || has_vertex s x)
unfolding insert_vertex has_vertex
has-insert_vertex s id parent x key coord e =
    let el = new_element id parent key coord in
    rw (insert_vertex, e) (has-link (put_element s id el) el x ∙ has-put s id x el)

has-delete_vertex :
    (s : VertexSeq) (id x : String) → has_vertex (delete_vertex s id).0 x ≡ has_vertex s x
unfolding delete_vertex has_vertex
has-delete_vertex s id x = elim (Option-cases (element_at s id)) [
  | inl e ↦ rw (delete_vertex, e) refl
  | inr (el, e) ↦ elim (Bool-cases el.deleted) [
    | inl b ↦ rw (delete_vertex, e, b) refl
    | inr b ↦ rw (delete_vertex, e, b) (has-put_there s id x _ el e)
  ]
]

pub has-delete_if :
    (b : Bool) (s : VertexSeq) (id x : String) → has_vertex (delete_if b s id) x ≡ has_vertex s x
unfolding delete_if
has-delete_if false s id x = refl
has-delete_if true s id x = has-delete_vertex s id x

pub has-put_move_reg :
    (s : VertexSeq) (id x : String) (reg : Option Stamp)
    → has_vertex (put_move_reg s id reg) x ≡ has_vertex s x
unfolding put_move_reg has_vertex
has-put_move_reg s id x none = refl
has-put_move_reg s id x (some reg) = elim (Option-cases (element_at s id)) [
  | inl e ↦ rw (put_move_reg, e) refl
  | inr (el, e) ↦ rw (put_move_reg, e) (has-put_there s id x _ el e)
]
