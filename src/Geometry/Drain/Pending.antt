-- ===== src/Geometry/Drain/Pending.antt =====
-- What applying an operation once does to the operations that wait: nothing.
use geo_crdt.Common.{
  ℕ, Bool, true, false, not, List, [], ◌∷◌, ◌≡◌, refl, sym, ap, ◌∙◌, arith, Bool-cases, inl, inr,
  ◌==◌,
}
use geo_crdt.Errors.{Result-cases}
use geo_crdt.Ops.Kinds.{GeometryOpAction, is_multi, type_eq, part_type}
use geo_crdt.Ops.GeometryOp.{GeometryOp, part_id_of}
use geo_crdt.Seq.Vertices.{Coord3}
use geo_crdt.Geometry.State.{PartState, GeometryState, DepKey, ApplyResult, buffered, find_part}
use geo_crdt.Geometry.Parse.{new_geometry_state}
use geo_crdt.Geometry.Drain.Waiting.{is_add_part, CanWait}
use geo_crdt.Geometry.Apply.{
  is_some, store_seq, apply_vertex_action, add_ring_coords, apply_add_ring, apply_remove_ring,
  add_first_part, apply_add_part, apply_remove_part, apply_action, apply_once,
}

apply_vertex_action-pending :
    (g : GeometryState) (op : GeometryOp) → (apply_vertex_action g op).0.pending ≡ g.pending
unfolding apply_vertex_action store_seq
apply_vertex_action-pending g op = ground arith

add_ring_coords-pending :
    (g : GeometryState) (part : PartState) (op : GeometryOp) (c : List Coord3 × ℕ)
    → (add_ring_coords g part op c).0.pending ≡ g.pending
unfolding add_ring_coords
add_ring_coords-pending g part op c = ground arith

apply_add_ring-pending :
    (g : GeometryState) (op : GeometryOp) → (apply_add_ring g op).0.pending ≡ g.pending
unfolding apply_add_ring
apply_add_ring-pending g op = ground (arith, add_ring_coords-pending g)

apply_remove_ring-pending :
    (g : GeometryState) (op : GeometryOp) → (apply_remove_ring g op).0.pending ≡ g.pending
unfolding apply_remove_ring
apply_remove_ring-pending g op = ground arith

add_first_part-pending :
    (g : GeometryState) (op : GeometryOp) (parts : List PartState)
    → (add_first_part g op parts).0.pending ≡ g.pending
unfolding add_first_part
add_first_part-pending g op [] = refl
add_first_part-pending g op (p ∷ parts) = refl

apply_add_part-pending :
    (g : GeometryState) (op : GeometryOp) → (apply_add_part g op).0.pending ≡ g.pending
unfolding apply_add_part
apply_add_part-pending g op = elim (Bool-cases (not (is_multi g.typ))) [
  | inl e ↦ rw (apply_add_part, e) refl
  | inr e ↦ elim (Bool-cases (is_some (find_part (part_id_of op) g.parts))) [
    | inl f ↦ rw (apply_add_part, e, f) refl
    | inr f ↦ elim (Result-cases (new_geometry_state op.part)) [
      | inl (r, h) ↦ rw (apply_add_part, e, f, h) refl
      | inr (part, h) ↦ elim (Bool-cases (not (type_eq part.typ (part_type g.typ)))) [
        | inl t ↦ rw (apply_add_part, e, f, h, t) refl
        | inr t ↦ elim (Bool-cases (not (part.dims == g.dims))) [
          | inl d ↦ rw (apply_add_part, e, f, h, t, d) refl
          | inr d ↦ rw (apply_add_part, e, f, h, t, d) (add_first_part-pending g op part.parts)
        ]
      ]
    ]
  ]
]

apply_remove_part-pending :
    (g : GeometryState) (op : GeometryOp) → (apply_remove_part g op).0.pending ≡ g.pending
unfolding apply_remove_part
apply_remove_part-pending g op = ground arith

apply_action-pending :
    (action : GeometryOpAction) (g : GeometryState) (op : GeometryOp)
    → (apply_action action g op).0.pending ≡ g.pending
unfolding apply_action
apply_action-pending GeometryOpAction.insert_vertex g op = apply_vertex_action-pending g op
apply_action-pending GeometryOpAction.move_vertex g op = apply_vertex_action-pending g op
apply_action-pending GeometryOpAction.delete_vertex g op = apply_vertex_action-pending g op
apply_action-pending GeometryOpAction.add_ring g op = apply_add_ring-pending g op
apply_action-pending GeometryOpAction.remove_ring g op = apply_remove_ring-pending g op
apply_action-pending GeometryOpAction.add_part g op = apply_add_part-pending g op
apply_action-pending GeometryOpAction.remove_part g op = apply_remove_part-pending g op
apply_action-pending (GeometryOpAction.other_action _) g op = refl

pub apply_once-pending :
    (g : GeometryState) (op : GeometryOp) → (apply_once g op).0.pending ≡ g.pending
unfolding apply_once
apply_once-pending g op = apply_action-pending op.action g op

-- What `buffered` says.
abbrev is_buffered : ApplyResult → Bool
is_buffered (buffered _) = true
is_buffered _ = false

add_first_part-is_buffered :
    (g : GeometryState) (op : GeometryOp) (parts : List PartState)
    → is_buffered (add_first_part g op parts).1 ≡ false
unfolding add_first_part
add_first_part-is_buffered g op [] = refl
add_first_part-is_buffered g op (p ∷ parts) = refl

apply_add_part-is_buffered :
    (g : GeometryState) (op : GeometryOp) → is_buffered (apply_add_part g op).1 ≡ false
unfolding apply_add_part
apply_add_part-is_buffered g op = elim (Bool-cases (not (is_multi g.typ))) [
  | inl e ↦ rw (apply_add_part, e) refl
  | inr e ↦ elim (Bool-cases (is_some (find_part (part_id_of op) g.parts))) [
    | inl f ↦ rw (apply_add_part, e, f) refl
    | inr f ↦ elim (Result-cases (new_geometry_state op.part)) [
      | inl (r, h) ↦ rw (apply_add_part, e, f, h) refl
      | inr (part, h) ↦ elim (Bool-cases (not (type_eq part.typ (part_type g.typ)))) [
        | inl t ↦ rw (apply_add_part, e, f, h, t) refl
        | inr t ↦ elim (Bool-cases (not (part.dims == g.dims))) [
          | inl d ↦ rw (apply_add_part, e, f, h, t, d) refl
          | inr d ↦ rw (apply_add_part, e, f, h, t, d) (add_first_part-is_buffered g op part.parts)
        ]
      ]
    ]
  ]
]

apply_action-CanWait :
    (action : GeometryOpAction) (g : GeometryState) (op : GeometryOp) (dep : DepKey)
    → (apply_action action g op).1 ≡ buffered dep
    → is_add_part action ≡ false
unfolding apply_action
apply_action-CanWait GeometryOpAction.insert_vertex g op dep e = refl
apply_action-CanWait GeometryOpAction.move_vertex g op dep e = refl
apply_action-CanWait GeometryOpAction.delete_vertex g op dep e = refl
apply_action-CanWait GeometryOpAction.add_ring g op dep e = refl
apply_action-CanWait GeometryOpAction.remove_ring g op dep e = refl
apply_action-CanWait GeometryOpAction.add_part g op dep e =
    sym (ap is_buffered e) ∙ apply_add_part-is_buffered g op
apply_action-CanWait GeometryOpAction.remove_part g op dep e = refl
apply_action-CanWait (GeometryOpAction.other_action _) g op dep e = refl

pub apply_once-CanWait :
    (g : GeometryState) (op : GeometryOp) (dep : DepKey)
    → (apply_once g op).1 ≡ buffered dep
    → CanWait op
unfolding apply_once
apply_once-CanWait g op dep e = apply_action-CanWait op.action g op dep e
