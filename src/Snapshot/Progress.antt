-- ===== src/Snapshot/Progress.antt =====
-- A geometry that passes validation is restored.
use geo_crdt.Common.{
  ℕ, suc, String, Bool, true, false, not, ◌&&◌, ◌||◌, Option, none, some, List, [], ◌∷◌, ◌≡◌, refl,
  sym, ap, ◌∙◌, arith, if◌then◌else◌, length, ◌==◌,
}
use geo_crdt.Common.Texts.{text_eq}
use geo_crdt.Common.Decimal.{is_blank}
use geo_crdt.Errors.{ok, bind_ok, ok_inj, check_ok, refuse_if-ok}
use geo_crdt.Clock.Vector.{VectorClock}
use geo_crdt.Ops.Kinds.{GeometryType, is_multi, part_type, type_eq, polygon}
use geo_crdt.Seq.Key.{SeqKey}
use geo_crdt.Seq.Vertices.{Coord3, VertexSeq, new_vertex_seq, has_vertex, insert_vertex}
use geo_crdt.Geometry.State.{RingState, PartState, GeometryState}
use geo_crdt.Geometry.Parse.{parse_position}
use geo_crdt.Snapshot.{VertexSnapshot, RingSnapshot, PartSnapshot, GeometrySnapshot}
use geo_crdt.Snapshot.Keys.{restore_key}
use geo_crdt.Snapshot.Checks.{validate_snapshot_key, validate_optional_snapshot_stamp}
use geo_crdt.Snapshot.Shape.{
  RingCheck, check_vertex, check_vertices, expected_parent, expected_vertex_id, is_taken_key,
  validate_ring_snapshot, check_rings, validate_part_snapshot, check_parts,
  validate_geometry_snapshot, is_taken, is_out_of_order, is_ring_id, is_part_id, has_ring_count,
}
use geo_crdt.Snapshot.Restore.{
  put_move_reg, delete_if, restore_vertex, restore_vertices, restore_rings, restore_parts,
  restore_geometry, is_known_type,
}
use geo_crdt.Snapshot.SameIds.{
  SameIds, has-insert_vertex, insert_vertex-new, has-delete_if, has-put_move_reg,
}

-- What validation found out about a vertex that it passed.
record VertexPasses (c c' : RingCheck) (v : VertexSnapshot) : Type 0 where
  key : SeqKey
  coord : Coord3
  dims : ℕ
  parented : (not (text_eq v.parent "") && not (has_vertex c.seq v.parent)) ≡ false
  parsed : parse_position v.coord ≡ ok (coord, dims)
  fresh : has_vertex c.seq v.id ≡ false
  next : c'.seq ≡ delete_if v.deleted (insert_vertex c.seq v.id v.parent key coord).0 v.id

not-not : (b : Bool) → not (not b) ≡ false → b ≡ false
not-not b e = ground (arith, e)

module _ (clock : ℕ) (applied : VectorClock) where
  check_vertex-VertexPasses :
      (part_key ring_key : SeqKey) (dims : ℕ) (c c' : RingCheck) (v : VertexSnapshot)
      → check_vertex clock applied part_key ring_key dims c v ≡ ok c'
      → VertexPasses c c' v
  unfolding check_vertex
  check_vertex-VertexPasses part_key ring_key dims c c' v e =
      let (_, e1) = refuse_if-ok (is_blank v.id) _ _ c' e in
      let (parented, e2) =
        refuse_if-ok (not (text_eq v.parent "") && not (has_vertex c.seq v.parent)) _ _ c' e1 in
      let (key, _, e3) = bind_ok (validate_snapshot_key clock applied v.key) _ c' e2 in
      let (_, e4) =
        refuse_if-ok
          (key.initial && not (text_eq v.parent (expected_parent part_key ring_key key.pos))) _ _ c'
          e3 in
      let (_, e5) =
        refuse_if-ok (not (text_eq v.id (expected_vertex_id part_key ring_key key))) _ _ c' e4 in
      let (_, e6) = refuse_if-ok (not (length v.coord == dims)) _ _ c' e5 in
      let (p, parsed, e7) = bind_ok (parse_position v.coord) _ c' e6 in
      let (_, e8) = check_ok (validate_optional_snapshot_stamp clock applied v.move_reg) _ c' e7 in
      let (_, e9) = refuse_if-ok (is_taken_key v.parent key c.sibling_keys) _ _ c' e8 in
      let (is_new, e10) =
        refuse_if-ok (not ((insert_vertex c.seq v.id v.parent key p.0).1)) _ _ c' e9 in
      record {
        key = key;
        coord = p.0;
        dims = p.1;
        parented = parented;
        parsed = parsed;
        fresh =
            not-not (has_vertex c.seq v.id)
              (sym (ap not (insert_vertex-new c.seq v.id v.parent key p.0)) ∙ is_new);
        next = ap (λ (x : RingCheck). x.seq) (sym (ok_inj e10));
      }

  -- The vertex that is restored from a snapshot, where it can be.
  abbrev restored : VertexSeq → VertexSnapshot → Coord3 → VertexSeq
  restored s v coord =
      delete_if v.deleted
        (put_move_reg (insert_vertex s v.id v.parent (restore_key v.key) coord).0 v.id v.move_reg)
        v.id

  restore_vertex_passes :
      (c c' : RingCheck) (s : VertexSeq) (v : VertexSnapshot)
      → SameIds c.seq s
      → (p : VertexPasses c c' v) → restore_vertex s v ≡ ok (restored s v p.coord)
  unfolding restore_vertex
  restore_vertex_passes c c' s v same p =
      let parented : (not (text_eq v.parent "") && not (has_vertex s v.parent)) ≡ false =
        rw (← same v.parent) (p.parented) in
      let fresh : (insert_vertex s v.id v.parent (restore_key v.key) p.coord).1 ≡ true =
        insert_vertex-new s v.id v.parent (restore_key v.key) p.coord
        ∙ ap not (sym (same v.id) ∙ p.fresh) in
      rw (restore_vertex, parented, p.parsed, fresh) refl

  restored-SameIds :
      (c c' : RingCheck) (s : VertexSeq) (v : VertexSnapshot)
      → SameIds c.seq s
      → (p : VertexPasses c c' v) → SameIds c'.seq (restored s v p.coord)
  restored-SameIds c c' s v same p x =
      let added = (insert_vertex s v.id v.parent (restore_key v.key) p.coord).0 in
      ap (λ q. has_vertex q x) p.next
      ∙ has-delete_if v.deleted (insert_vertex c.seq v.id v.parent p.key p.coord).0 v.id x
      ∙ has-insert_vertex c.seq v.id v.parent x p.key p.coord p.fresh
      ∙ ap (◌||◌ (text_eq v.id x)) (same x)
      ∙ sym (
          has-insert_vertex s v.id v.parent x (restore_key v.key) p.coord
            (sym (same v.id) ∙ p.fresh))
      ∙ sym (has-put_move_reg added v.id x v.move_reg)
      ∙ sym (has-delete_if v.deleted (put_move_reg added v.id v.move_reg) v.id x)

  restore_vertices_passes :
      (part_key ring_key : SeqKey) (dims : ℕ) (c c' : RingCheck) (s : VertexSeq)
      (vertices : List VertexSnapshot)
      → SameIds c.seq s
      → check_vertices clock applied part_key ring_key dims c vertices ≡ ok c'
      → (s' : VertexSeq) × (restore_vertices s vertices ≡ ok s')
  unfolding check_vertices restore_vertices
  restore_vertices_passes part_key ring_key dims c c' s [] same e = (s, refl)
  restore_vertices_passes part_key ring_key dims c c' s (v ∷ vertices) same e =
      let (next, here, rest) =
        bind_ok (check_vertex clock applied part_key ring_key dims c v) _ c' e in
      let p = check_vertex-VertexPasses part_key ring_key dims c next v here in
      let (s', done) =
        restore_vertices_passes part_key ring_key dims next c' (restored s v p.coord) vertices
          (restored-SameIds c next s v same p) rest in
      (s', rw (restore_vertex_passes c next s v same p) done)

  restore_ring_passes :
      (ring : RingSnapshot) (part_key ring_key : SeqKey) (dims : ℕ) (typ : GeometryType)
      → validate_ring_snapshot clock applied ring part_key ring_key dims typ ≡ ok tt
      → (s : VertexSeq) × (restore_vertices new_vertex_seq ring.vertices ≡ ok s)
  unfolding validate_ring_snapshot
  restore_ring_passes ring part_key ring_key dims typ e =
      let start : RingCheck = record { seq = new_vertex_seq; sibling_keys = []; visible = 0 } in
      let (c, checked, _) =
        bind_ok (check_vertices clock applied part_key ring_key dims start ring.vertices) _ tt e in
      restore_vertices_passes part_key ring_key dims start c new_vertex_seq ring.vertices
        (λ x. refl) checked

  restore_rings_passes :
      (part : PartSnapshot) (part_key : SeqKey) (dims : ℕ) (ids : List String)
      (previous : Option SeqKey) (index : ℕ) (rings : List RingSnapshot)
      → check_rings clock applied part part_key dims ids previous index rings ≡ ok tt
      → (l : List RingState) × (restore_rings rings ≡ ok l)
  unfolding check_rings restore_rings
  restore_rings_passes part part_key dims ids previous index [] e = ([], refl)
  restore_rings_passes part part_key dims ids previous index (ring ∷ rings) e =
      let (_, e1) = refuse_if-ok (is_blank ring.id) _ _ tt e in
      let (_, e2) = refuse_if-ok (is_taken ring.id ids) _ _ tt e1 in
      let (key, _, e3) = bind_ok (validate_snapshot_key clock applied ring.key) _ tt e2 in
      let (_, e4) = refuse_if-ok (is_out_of_order clock applied previous key) _ _ tt e3 in
      let (_, e5) =
        refuse_if-ok (not (is_ring_id clock applied part.typ part_key key index ring.id)) _ _ tt
          e4 in
      let exterior = type_eq part.typ polygon && (index == 0) in
      let (_, e6) = refuse_if-ok (if ring.exterior then not exterior else exterior) _ _ tt e5 in
      let (_, e7) = refuse_if-ok (ring.exterior && ring.deleted) _ _ tt e6 in
      let (valid, e8) =
        check_ok (validate_ring_snapshot clock applied ring part_key key dims part.typ) _ tt e7 in
      let (seq, one) = restore_ring_passes ring part_key key dims part.typ valid in
      let (l, rest) =
        restore_rings_passes part part_key dims (ring.id ∷ ids) (some key) (suc index) rings e8 in
      let first : RingState = record {
        id = ring.id;
        key = restore_key ring.key;
        exterior = ring.exterior;
        deleted = ring.deleted;
        seq = seq;
      } in
      (first ∷ l, rw (one, rest) refl)

  restore_parts_passes :
      (g : GeometrySnapshot) (ids : List String) (previous : Option SeqKey) (index : ℕ)
      (parts : List PartSnapshot)
      → check_parts clock applied g ids previous index parts ≡ ok tt
      → (l : List PartState) × (restore_parts parts ≡ ok l)
  unfolding check_parts restore_parts validate_part_snapshot
  restore_parts_passes g ids previous index [] e = ([], refl)
  restore_parts_passes g ids previous index (part ∷ parts) e =
      let (_, e1) = refuse_if-ok (is_blank part.id) _ _ tt e in
      let (_, e2) = refuse_if-ok (is_taken part.id ids) _ _ tt e1 in
      let (key, _, e3) = bind_ok (validate_snapshot_key clock applied part.key) _ tt e2 in
      let (_, e4) = refuse_if-ok (is_out_of_order clock applied previous key) _ _ tt e3 in
      let (_, e5) =
        refuse_if-ok (not (is_part_id clock applied g.typ key index part.id)) _ _ tt e4 in
      let (_, e6) = refuse_if-ok (not (type_eq part.typ (part_type g.typ))) _ _ tt e5 in
      let (_, e7) = refuse_if-ok (not (is_multi g.typ) && part.deleted) _ _ tt e6 in
      let (valid, e8) = check_ok (validate_part_snapshot clock applied part key g.dims) _ tt e7 in
      let (_, e9) =
        refuse_if-ok (not (has_ring_count clock applied part.typ (length part.rings))) _ _ tt
          valid in
      let (rings, one) = restore_rings_passes part key g.dims [] none 0 part.rings e9 in
      let (l, rest) = restore_parts_passes g (part.id ∷ ids) (some key) (suc index) parts e8 in
      let first : PartState = record {
        id = part.id;
        key = restore_key part.key;
        typ = part.typ;
        deleted = part.deleted;
        rings = rings;
      } in
      (first ∷ l, rw (one, rest) refl)

  -- A geometry snapshot that passes validation is restored, with the type and the dimensions of
  -- the snapshot.
  pub restore_geometry-validate_geometry_snapshot :
      (g : GeometrySnapshot)
      → validate_geometry_snapshot clock applied g ≡ ok tt
      → (s : GeometryState) × (restore_geometry g ≡ ok s) × (s.typ ≡ g.typ) × (s.dims ≡ g.dims)
  unfolding validate_geometry_snapshot restore_geometry
  restore_geometry-validate_geometry_snapshot g e =
      let (dims, e1) = refuse_if-ok (not (g.dims == 2) && not (g.dims == 3)) _ _ tt e in
      let (known, e2) = refuse_if-ok (not (is_known_type g.typ)) _ _ tt e1 in
      let (_, e3) = refuse_if-ok (not (is_multi g.typ) && not (length g.parts == 1)) _ _ tt e2 in
      let (parts, done) = restore_parts_passes g [] none 0 g.parts e3 in
      (
        record { typ = g.typ; dims = g.dims; parts = parts; pending = []; cache = none },
        rw (dims, known, done) refl,
        refl,
        refl,
      )
