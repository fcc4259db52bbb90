-- ===== src/Seq/Vertices/Registers.antt =====
-- Moves and deletes of vertices in any order.
use geo_crdt.Common.{
  ℕ, ◌-◌, String, true, Option, none, some, if◌then◌else◌, lookup, ◌≡◌, ◌≢◌, refl, sym, ap, ap₂,
  adjust, insert-adjust, adjust-none, adjust_same, lookup-adjust_ne, lookup-adjust_self,
  adjust_comm_ne, adjust_comm_self, arith, Option-cases, inl, inr,
}
use geo_crdt.Common.Texts.{String_discrete}
use geo_crdt.Clock.Stamp
use geo_crdt.Clock.Stamp.{Stamp}
use geo_crdt.Clock.Stamp.Wins.{wins, wins_total, wins_trans}
use geo_crdt.Seq.Vertices.{Coord3, Element, VertexSeq, element_at, move_vertex, delete_vertex}

pub data VertexEdit : Type 0 where
  move : String → Stamp → Coord3 → VertexEdit
  delete : String → VertexEdit

unfoldable pub edit : VertexSeq → VertexEdit → VertexSeq
edit s (move id stamp coord) = (move_vertex s id stamp coord).0
edit s (delete id) = (delete_vertex s id).0

-- What a move does to its element.
moved : Stamp → Coord3 → Element → Element
moved stamp coord el =
    if wins stamp el.move_reg then record el { coord = coord; move_reg = stamp } else el

-- Two moves of one vertex leave the coordinate and the register of the newer one.
moved_comm :
    (a b : Stamp) (c d : Coord3)
    → a ≢ b
    → Stamp.is_set a ≡ true
    → Stamp.is_set b ≡ true
    → (el : Element) → moved a c (moved b d el) ≡ moved b d (moved a c el)
unfolding moved
moved_comm a b c d n ha hb el =
    ground
      (arith, wins_total a b n ha hb, wins_trans a b el.move_reg ha, wins_trans b a el.move_reg hb)

marked : Element → Element
marked el = record el { deleted = true }

moved-marked :
    (a : Stamp) (c : Coord3) (el : Element) → moved a c (marked el) ≡ marked (moved a c el)
unfolding moved marked
moved-marked a c el = ground arith

-- A move writes to the stored element and touches nothing else.
move_vertex-adjust :
    (s : VertexSeq) (id : String) (a : Stamp) (c : Coord3)
    → (move_vertex s id a c).0 ≡ record s { by_id = adjust String_discrete id (moved a c) s.by_id }
unfolding move_vertex moved wins
move_vertex-adjust s id a c = elim (Option-cases (element_at s id)) [
  | inl e ↦ ground (arith, adjust-none String_discrete id (moved a c) s.by_id e)
  | inr (el, e) ↦ ground (
    arith,
    adjust_same String_discrete id (moved a c) s.by_id {v = el} e,
    insert-adjust String_discrete id (moved a c) s.by_id {v = el} e,
  )
]

-- How many vertices a delete takes from the visible ones.
weight : Option Element → ℕ
weight none = 0
weight (some el) = if el.deleted then 0 else 1

delete_vertex-adjust :
    (s : VertexSeq) (id : String)
    → (delete_vertex s id).0 ≡ record s {
      by_id = adjust String_discrete id marked s.by_id;
      visible = s.visible - weight (element_at s id);
    }
unfolding delete_vertex marked weight
delete_vertex-adjust s id = elim (Option-cases (element_at s id)) [
  | inl e ↦ ground (arith, adjust-none String_discrete id marked s.by_id e)
  | inr (el, e) ↦ ground (
    arith,
    adjust_same String_discrete id marked s.by_id {v = el} e,
    insert-adjust String_discrete id marked s.by_id {v = el} e,
  )
]

weight-moved :
    (id j : String) (a : Stamp) (c : Coord3) (s : VertexSeq)
    → weight (lookup String_discrete j (adjust String_discrete id (moved a c) s.by_id))
      ≡ weight (element_at s j)
unfolding weight moved
weight-moved id j a c s = elim (String_discrete id j) [
  | yes e ↦ elim (Option-cases (element_at s id)) [
    | inl h ↦ rw (adjust-none String_discrete id (moved a c) s.by_id h)
    | inr (el, h) ↦ ground (arith, lookup-adjust_self String_discrete id (moved a c) s.by_id h)
  ]
  | no n ↦ rw (lookup-adjust_ne String_discrete id j (moved a c) s.by_id n)
]

-- After a delete, deleting the same vertex takes nothing more; another one takes what it did.
weight-marked_self :
    (id : String) (s : VertexSeq)
    → weight (lookup String_discrete id (adjust String_discrete id marked s.by_id)) ≡ 0
unfolding weight marked
weight-marked_self id s = elim (Option-cases (element_at s id)) [
  | inl h ↦ ground (arith, adjust-none String_discrete id marked s.by_id h)
  | inr (el, h) ↦ ground (arith, lookup-adjust_self String_discrete id marked s.by_id h)
]

weight-marked_ne :
    (id j : String) (s : VertexSeq)
    → id ≢ j
    → weight (lookup String_discrete j (adjust String_discrete id marked s.by_id))
      ≡ weight (element_at s j)
weight-marked_ne id j s n = rw (lookup-adjust_ne String_discrete id j marked s.by_id n)

-- The two edits are not one operation issued twice: two moves carry different stamps.
abbrev pub AreDistinct : VertexEdit → VertexEdit → Type 0
AreDistinct (move i a c) (move j b d) = (a ≢ b) × (Stamp.is_set a ≡ true) × (Stamp.is_set b ≡ true)
AreDistinct (move i a c) (delete j) = Unit
AreDistinct (delete i) e = Unit

adjust_comm :
    (i j : String) (g h : Element → Element) (s : VertexSeq)
    → ((el : Element) → g (h el) ≡ h (g el))
    → adjust String_discrete i g (adjust String_discrete j h s.by_id)
      ≡ adjust String_discrete j h (adjust String_discrete i g s.by_id)
adjust_comm i j g h s c = elim (String_discrete i j) [
  | yes e ↦ rw e (adjust_comm_self String_discrete j g h s.by_id c)
  | no n ↦ adjust_comm_ne String_discrete i j g h s.by_id n
]

-- Two moves or deletes of vertices commute, on whatever sequence and whether or not they meet on one
-- vertex, where two moves have different stamps and neither is zero. The whole state agrees,
-- `visible` included.
pub edit_comm :
    (s : VertexSeq) (e f : VertexEdit) → AreDistinct e f → edit (edit s e) f ≡ edit (edit s f) e
unfolding edit
edit_comm s (move i a c) (move j b d) (n, ha, hb) = simp move_vertex-adjust (
    ap (λ m. record s { by_id = m })
      (adjust_comm j i (moved b d) (moved a c) s (λ el. sym (moved_comm a b c d n ha hb el))))
edit_comm s (move i a c) (delete j) h =
    simp (move_vertex-adjust, delete_vertex-adjust, weight-moved)
      (ap (λ m. record s { by_id = m; visible = s.visible - weight (element_at s j) })
        (adjust_comm j i marked (moved a c) s (λ el. sym (moved-marked a c el))))
edit_comm s (delete i) (move j b d) h =
    simp (move_vertex-adjust, delete_vertex-adjust, weight-moved)
      (ap (λ m. record s { by_id = m; visible = s.visible - weight (element_at s i) })
        (adjust_comm j i (moved b d) marked s (moved-marked b d)))
edit_comm s (delete i) (delete j) h = simp delete_vertex-adjust (
    ap₂ (λ m v. record s { by_id = m; visible = v }) (adjust_comm j i marked marked s (λ el. refl))
      (both i j s))
  where
    both :
        (i j : String) (s : VertexSeq)
        → s.visible
            - weight (element_at s i)
            - weight (lookup String_discrete j (adjust String_discrete i marked s.by_id))
          ≡ s.visible
            - weight (element_at s j)
            - weight (lookup String_discrete i (adjust String_discrete j marked s.by_id))
    both i j s = elim (String_discrete i j) [
      | yes e ↦ rw e
      | no n ↦ omega (arith, weight-marked_ne i j s n, weight-marked_ne j i s (λ e. n (sym e)))
    ]
