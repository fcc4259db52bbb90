-- ===== src/Geometry/Apply/Outcomes.antt =====
-- What an operation that is not applied does to a geometry.
use geo_crdt.Common.{
  ℕ, String, false, not, ◌&&◌, some, List, [], ◌∷◌, ◌≡◌, ◌≢◌, refl, arith, Bool-cases, inl, inr,
  ◌==◌, ◌⊎◌,
}
use geo_crdt.Common.Texts.{text_eq}
use geo_crdt.Errors.{Result-cases}
use geo_crdt.Ops.Kinds.{GeometryOpAction, point, is_multi, type_eq, part_type}
use geo_crdt.Ops.GeometryOp
use geo_crdt.Ops.GeometryOp.{GeometryOp, part_id_of}
use geo_crdt.Clock.Stamp.{Stamp}
use geo_crdt.Seq.Vertices
use geo_crdt.Seq.Vertices.{Coord3, VertexSeq}
use geo_crdt.Geometry.State.{
  RingState, PartState, GeometryState, ApplyResult, applied, find_part, find_ring, put_part,
  put_ring,
}
use geo_crdt.Geometry.Parse.{new_geometry_state}
use geo_crdt.Geometry.Apply.{
  is_some, is_move, coord_from_op, Resolved, found, fails, resolve_part, resolve_ring, insert_case,
  move_case, delete_case, vertex_case, store_seq, apply_vertex_action, apply_add_ring,
  apply_remove_ring, add_first_part, apply_add_part, apply_remove_part, apply_action, apply_once,
}

-- The result says applied, or the state is as it was.
abbrev IsSafe {ℓ} : {A : Type ℓ} → A → A × ApplyResult → Type ℓ
IsSafe a r = r.1 ≢ applied → r.0 ≡ a

insert_case-IsSafe :
    (dims : ℕ) (part : PartState) (ring : RingState) (op : GeometryOp)
    → IsSafe ring.seq (insert_case dims part ring op)
unfolding insert_case
insert_case-IsSafe dims part ring op n = ground arith

-- A move that does not win leaves the sequence, and so does a delete that deletes nothing.
move_vertex-lost :
    (s : VertexSeq) (id : String) (stamp : Stamp) (coord : Coord3)
    → (Vertices.move_vertex s id stamp coord).1 ≡ false
    → (Vertices.move_vertex s id stamp coord).0 ≡ s
unfolding Vertices.move_vertex
move_vertex-lost s id stamp coord e = ground (arith, e)

delete_vertex-none :
    (s : VertexSeq) (id : String)
    → (Vertices.delete_vertex s id).1 ≡ false
    → (Vertices.delete_vertex s id).0 ≡ s
unfolding Vertices.delete_vertex
delete_vertex-none s id e = ground (arith, e)

move_case-IsSafe :
    (dims : ℕ) (part : PartState) (ring : RingState) (op : GeometryOp)
    → IsSafe ring.seq (move_case dims part ring op)
unfolding move_case
move_case-IsSafe dims part ring op n =
    ground
      (arith, move_vertex-lost ring.seq op.vertex_id (GeometryOp.stamp op) (coord_from_op op.coord))

delete_case-IsSafe :
    (part : PartState) (ring : RingState) (op : GeometryOp)
    → IsSafe ring.seq (delete_case part ring op)
unfolding delete_case
delete_case-IsSafe part ring op n = ground (arith, delete_vertex-none ring.seq op.vertex_id)

vertex_case-IsSafe :
    (dims : ℕ) (part : PartState) (ring : RingState) (op : GeometryOp)
    → IsSafe ring.seq (vertex_case dims part ring op)
unfolding vertex_case
vertex_case-IsSafe dims part ring op n = ground (
  arith,
  insert_case-IsSafe dims part ring op,
  move_case-IsSafe dims part ring op,
  delete_case-IsSafe part ring op,
)

-- A ring or part that was found is written back where it stood.
find_ring-id :
    (id : String) (ring : RingState) (rings : List RingState)
    → find_ring id rings ≡ some ring
    → ring.id ≡ id
unfolding find_ring
find_ring-id id ring [] h = absurd (cc)
find_ring-id id ring (r ∷ rings) h = elim (Bool-cases (text_eq r.id id)) [
  | inl e ↦ ground (arith, e, h)
  | inr e ↦ find_ring-id id ring rings (ground (arith, e, h))
]

put_ring-find_ring :
    (id : String) (ring : RingState) (rings : List RingState)
    → find_ring id rings ≡ some ring
    → put_ring ring rings ≡ rings
unfolding find_ring put_ring
put_ring-find_ring id ring [] h = refl
put_ring-find_ring id ring (r ∷ rings) h = elim (Bool-cases (text_eq r.id id)) [
  | inl e ↦ ground (arith, e, h)
  | inr e ↦
      ground (arith, e, h, put_ring-find_ring id ring rings, find_ring-id id ring (r ∷ rings) h)
]

find_part-id :
    (id : String) (part : PartState) (parts : List PartState)
    → find_part id parts ≡ some part
    → part.id ≡ id
unfolding find_part
find_part-id id part [] h = absurd (cc)
find_part-id id part (p ∷ parts) h = elim (Bool-cases (text_eq p.id id)) [
  | inl e ↦ ground (arith, e, h)
  | inr e ↦ find_part-id id part parts (ground (arith, e, h))
]

put_part-find_part :
    (id : String) (part : PartState) (parts : List PartState)
    → find_part id parts ≡ some part
    → put_part part parts ≡ parts
unfolding find_part put_part
put_part-find_part id part [] h = refl
put_part-find_part id part (p ∷ parts) h = elim (Bool-cases (text_eq p.id id)) [
  | inl e ↦ ground (arith, e, h)
  | inr e ↦
      ground (arith, e, h, put_part-find_part id part parts, find_part-id id part (p ∷ parts) h)
]

store_seq_same :
    (g : GeometryState) (part : PartState) (ring : RingState) (id ring_id : String)
    → find_part id g.parts ≡ some part
    → find_ring ring_id part.rings ≡ some ring
    → (r : VertexSeq × ApplyResult) → r.0 ≡ ring.seq
    → (store_seq g part ring r).0 ≡ g
unfolding store_seq
store_seq_same g part ring id ring_id p q r e =
    rw (e, put_ring-find_ring ring_id ring part.rings q, put_part-find_part id part g.parts p)

apply_remove_ring-IsSafe : (g : GeometryState) (op : GeometryOp) → IsSafe g (apply_remove_ring g op)
unfolding apply_remove_ring
apply_remove_ring-IsSafe g op n = ground arith

apply_remove_part-IsSafe : (g : GeometryState) (op : GeometryOp) → IsSafe g (apply_remove_part g op)
unfolding apply_remove_part
apply_remove_part-IsSafe g op n = ground arith

apply_add_ring-IsSafe : (g : GeometryState) (op : GeometryOp) → IsSafe g (apply_add_ring g op)
unfolding apply_add_ring
apply_add_ring-IsSafe g op n = ground arith

add_first_part-IsSafe :
    (g : GeometryState) (op : GeometryOp) (parts : List PartState)
    → IsSafe g (add_first_part g op parts)
unfolding add_first_part
add_first_part-IsSafe g op [] n = refl
add_first_part-IsSafe g op (p ∷ parts) n = absurd (n refl)

apply_add_part-IsSafe : (g : GeometryState) (op : GeometryOp) → IsSafe g (apply_add_part g op)
unfolding apply_add_part
apply_add_part-IsSafe g op = elim (Bool-cases (not (is_multi g.typ))) [
  | inl e ↦ rw (apply_add_part, e) (λ n. refl)
  | inr e ↦ elim (Bool-cases (is_some (find_part (part_id_of op) g.parts))) [
    | inl f ↦ rw (apply_add_part, e, f) (λ n. refl)
    | inr f ↦ elim (Result-cases (new_geometry_state op.part)) [
      | inl (r, h) ↦ rw (apply_add_part, e, f, h) (λ n. refl)
      | inr (part, h) ↦ elim (Bool-cases (not (type_eq part.typ (part_type g.typ)))) [
        | inl t ↦ rw (apply_add_part, e, f, h, t) (λ n. refl)
        | inr t ↦ elim (Bool-cases (not (part.dims == g.dims))) [
          | inl d ↦ rw (apply_add_part, e, f, h, t, d) (λ n. refl)
          | inr d ↦ rw (apply_add_part, e, f, h, t, d) (add_first_part-IsSafe g op part.parts)
        ]
      ]
    ]
  ]
]

resolved_part :
    (g : GeometryState) (op : GeometryOp) (part : PartState)
    → resolve_part g op ≡ found part
    → find_part op.part_id g.parts ≡ some part
unfolding resolve_part
resolved_part g op part h = ground (arith, h)

resolved_ring :
    (part : PartState) (op : GeometryOp) (ring : RingState)
    → resolve_ring part op ≡ found ring
    → find_ring op.ring_id part.rings ≡ some ring
unfolding resolve_ring
resolved_ring part op ring h = ground (arith, h)

Resolved-cases {ℓ} :
    {A : Type ℓ} (r : Resolved A) → ((e : ApplyResult) × (r ≡ fails e)) ⊎ ((a : A) × (r ≡ found a))
Resolved-cases (fails e) = inl (e, refl)
Resolved-cases (found a) = inr (a, refl)

apply_vertex_action-IsSafe :
    (g : GeometryState) (op : GeometryOp) → IsSafe g (apply_vertex_action g op)
unfolding apply_vertex_action store_seq
apply_vertex_action-IsSafe g op = elim (Resolved-cases (resolve_part g op)) [
  | inl (r, h) ↦ rw (apply_vertex_action, h) (λ n. refl)
  | inr (part, h) ↦ elim (Resolved-cases (resolve_ring part op)) [
    | inl (r, k) ↦ rw (apply_vertex_action, h, k) (λ n. refl)
    | inr (ring, k) ↦ elim (Bool-cases (type_eq part.typ point && not (is_move op.action))) [
      | inl e ↦ rw (apply_vertex_action, h, k, e) (λ n. refl)
      | inr e ↦
          rw (apply_vertex_action, h, k, e)
            (λ n.
              store_seq_same g part ring op.part_id op.ring_id (resolved_part g op part h)
                (resolved_ring part op ring k) (vertex_case g.dims part ring op)
                (vertex_case-IsSafe g.dims part ring op n))
    ]
  ]
]

apply_action-IsSafe :
    (action : GeometryOpAction) (g : GeometryState) (op : GeometryOp)
    → IsSafe g (apply_action action g op)
unfolding apply_action
apply_action-IsSafe GeometryOpAction.insert_vertex g op = apply_vertex_action-IsSafe g op
apply_action-IsSafe GeometryOpAction.move_vertex g op = apply_vertex_action-IsSafe g op
apply_action-IsSafe GeometryOpAction.delete_vertex g op = apply_vertex_action-IsSafe g op
apply_action-IsSafe GeometryOpAction.add_ring g op = apply_add_ring-IsSafe g op
apply_action-IsSafe GeometryOpAction.remove_ring g op = apply_remove_ring-IsSafe g op
apply_action-IsSafe GeometryOpAction.add_part g op = apply_add_part-IsSafe g op
apply_action-IsSafe GeometryOpAction.remove_part g op = apply_remove_part-IsSafe g op
apply_action-IsSafe (GeometryOpAction.other_action _) g op = λ n. refl

-- An operation whose outcome is not applied (a duplicate, superseded, one to buffer or a
-- quarantined one) leaves the geometry as it was, whatever its action.
pub apply_once_lem :
    (g : GeometryState) (op : GeometryOp) → (apply_once g op).1 ≢ applied → (apply_once g op).0 ≡ g
unfolding apply_once
apply_once_lem g op = apply_action-IsSafe op.action g op
