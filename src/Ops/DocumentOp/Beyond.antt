-- ===== src/Ops/DocumentOp/Beyond.antt =====
-- The selection that deltas, snapshots and the memory store make of a log: what lies beyond a
-- vector clock, in the order of sites and sequence numbers.
use geo_crdt.Common.{
  ◌<◌, ◌≡◌, refl, sym, ap, arith, List, [], ◌∷◌, inl, inr, ltb, if◌then◌else◌, sort_stable, dec_lt,
  subst, ◌≤◌,
}
use geo_crdt.Common.Texts.{text_lt_irrefl, text_lt_trans, text_lt_total}
use geo_crdt.Common.Sorted.{
  In, here, there, In-nil, In-cons, IsSorted, IsWeak, IsAsym, sort_stable-IsSorted, sort_stable-In,
  In-sort_stable,
}
use geo_crdt.Clock.Vector.{VectorClock, seq_of}
use geo_crdt.Ops.DocumentOp.{DocumentOp, dot_less}

-- The loop over the log; `form` is what is put in the result.
unfoldable pub beyond : (DocumentOp → DocumentOp) → VectorClock → List DocumentOp → List DocumentOp
unfolding seq_of
beyond form clock [] = []
beyond form clock (op ∷ ops) =
    let rest = beyond form clock ops in
    if ltb (seq_of clock op.site_id) op.seq then form op ∷ rest else rest

dot_less-IsAsym : IsAsym dot_less
unfolding dot_less
dot_less-IsAsym a b e =
    ground (arith, text_lt_trans a.site_id b.site_id a.site_id, text_lt_irrefl a.site_id)

dot_less-IsWeak : IsWeak dot_less
unfolding dot_less
dot_less-IsWeak a b c e f = ground (
  arith,
  text_lt_total c.site_id b.site_id,
  text_lt_total b.site_id a.site_id,
  text_lt_trans a.site_id b.site_id c.site_id,
  text_lt_trans a.site_id c.site_id a.site_id,
  text_lt_trans b.site_id c.site_id b.site_id,
  text_lt_irrefl a.site_id,
  text_lt_irrefl b.site_id,
)

-- An operation of the log that the clock does not have, in its form.
abbrev pub IsBeyond :
    (DocumentOp → DocumentOp) → VectorClock → List DocumentOp → DocumentOp → Type 0
IsBeyond form clock log x =
    (op : DocumentOp) × In op log × (seq_of clock op.site_id < op.seq) × (x ≡ form op)

beyond_new :
    (form : DocumentOp → DocumentOp) (clock : VectorClock) (op : DocumentOp) (ops : List DocumentOp)
    → seq_of clock op.site_id < op.seq
    → beyond form clock (op ∷ ops) ≡ form op ∷ beyond form clock ops
unfolding beyond
beyond_new form clock op ops h = ground arith

beyond_old :
    (form : DocumentOp → DocumentOp) (clock : VectorClock) (op : DocumentOp) (ops : List DocumentOp)
    → op.seq ≤ seq_of clock op.site_id
    → beyond form clock (op ∷ ops) ≡ beyond form clock ops
unfolding beyond
beyond_old form clock op ops h = ground arith

pub In-beyond :
    (form : DocumentOp → DocumentOp) (clock : VectorClock) (log : List DocumentOp) (x : DocumentOp)
    → In x (beyond form clock log)
    → IsBeyond form clock log x
unfolding beyond
In-beyond form clock [] x m = absurd (In-nil m)
In-beyond form clock (op ∷ ops) x m = elim (dec_lt (seq_of clock op.site_id) op.seq) [
  | yes h ↦ elim (In-cons (subst (In x) (beyond_new form clock op ops h) m)) [
    | inl e ↦ (op, here refl, h, e)
    | inr n ↦ let (y, i, k, e) = In-beyond form clock ops x n in (y, there i, k, e)
  ]
  | no h ↦
      let (y, i, k, e) =
        In-beyond form clock ops x (subst (In x) (beyond_old form clock op ops (omega arith)) m) in
      (y, there i, k, e)
]

pub beyond-In :
    (form : DocumentOp → DocumentOp) (clock : VectorClock) (log : List DocumentOp) (op : DocumentOp)
    → In op log
    → seq_of clock op.site_id < op.seq
    → In (form op) (beyond form clock log)
beyond-In form clock [] op m h = absurd (In-nil m)
beyond-In form clock (y ∷ ys) op m h = elim (dec_lt (seq_of clock y.site_id) y.seq) [
  | yes k ↦ subst (In (form op)) (sym (beyond_new form clock y ys k)) (elim (In-cons m) [
    | inl e ↦ here (ap form e)
    | inr n ↦ there (beyond-In form clock ys op n h)
  ])
  | no k ↦ subst (In (form op)) (sym (beyond_old form clock y ys (omega arith))) (elim (In-cons m) [
    | inl e ↦ absurd (k (subst (λ (z : DocumentOp). seq_of clock z.site_id < z.seq) e h))
    | inr n ↦ beyond-In form clock ys op n h
  ])
]

-- A selection of a log: in order, and with exactly the operations that the clock does not have.
pub record IsSelection (form : DocumentOp → DocumentOp) (clock : VectorClock)
    (log selected : List DocumentOp) : Type 0 where
  pub ordered : IsSorted dot_less selected
  pub sound : (x : DocumentOp) → In x selected → IsBeyond form clock log x
  pub complete :
      (op : DocumentOp) → In op log → seq_of clock op.site_id < op.seq → In (form op) selected

pub beyond-IsSelection :
    (form : DocumentOp → DocumentOp) (clock : VectorClock) (log : List DocumentOp)
    → IsSelection form clock log (sort_stable dot_less (beyond form clock log))
beyond-IsSelection form clock log = record {
  ordered = sort_stable-IsSorted dot_less dot_less-IsWeak dot_less-IsAsym (beyond form clock log);
  sound = λ x m. In-beyond form clock log x (In-sort_stable dot_less x (beyond form clock log) m);
  complete = λ op m h.
      sort_stable-In dot_less (form op) (beyond form clock log) (beyond-In form clock log op m h);
}
