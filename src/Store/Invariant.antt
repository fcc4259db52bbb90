-- ===== src/Store/Invariant.antt =====
-- The log of a stored document and its identities, and what `Since` answers after an `Append`.
use geo_crdt.Common.{
  String, ◌≡◌, ◌≢◌, ◌<◌, refl, sym, ap, ◌∙◌, subst, arith, true, false, List, [], ◌∷◌, ◌++◌, lookup,
  insert, has, lookup-insert, Bool-cases, inl, inr, if_pos, if_neg, sort_stable, ◌⊎◌,
}
use geo_crdt.Common.Texts.{String_discrete, text_eq}
use geo_crdt.Common.Sorted.{In, here, there, In-nil, In-cons}
use geo_crdt.Errors.{Result, ok, err}
use geo_crdt.Clock.OpRef.{OpRef, OpRef_discrete}
use geo_crdt.Clock.Vector.{VectorClock, seq_of}
use geo_crdt.Ops.DocumentOp
use geo_crdt.Ops.DocumentOp.{DocumentOp, normalize, dot_less}
use geo_crdt.Ops.DocumentOp.Beyond.{beyond, beyond-IsSelection}
use geo_crdt.Identity.{Payload, PayloadHash}
use geo_crdt.Document.Merge.Later.{has-insert-true, has-insert_self}
use geo_crdt.Store.{
  MemDocument, MemStore, stored_document, put_document, new_mem_document, append_loop, append,
  since,
}
use geo_crdt.Store.Append.{enter, append_loop-skip, append_loop-enter, append_loop_known}
use geo_crdt.Store.Laws.{stored_document-put, append-Appended, append-error, open_document_named}

-- No operation has the reference of a later one.
abbrev pub AreDistinct : List DocumentOp → Type 0
AreDistinct [] = Unit
AreDistinct (op ∷ ops) =
    ((x : DocumentOp) → In x ops → DocumentOp.ref op ≢ DocumentOp.ref x) × AreDistinct ops

-- The identities are those of the log, and no two operations of the log share one.
pub record IsConsistent (d : MemDocument) : Type 0 where
  pub logged :
      (r : OpRef)
      → has OpRef_discrete r d.seen ≡ true
      → (op : DocumentOp) × In op d.ops × (DocumentOp.ref op ≡ r)
  pub seen : (op : DocumentOp) → In op d.ops → has OpRef_discrete (DocumentOp.ref op) d.seen ≡ true
  pub distinct : AreDistinct d.ops

In-append : (x y : DocumentOp) (ops : List DocumentOp) → In x (ops ++ y ∷ []) → In x ops ⊎ (x ≡ y)
In-append x y [] m = elim (In-cons m) [ inl e ↦ inr e | inr n ↦ absurd (In-nil n) ]
In-append x y (z ∷ zs) m = elim (In-cons m) [
  | inl e ↦ inl (here e)
  | inr n ↦ elim (In-append x y zs n) [ inl k ↦ inl (there k) | inr e ↦ inr e ]
]

append-In_left : (x y : DocumentOp) (ops : List DocumentOp) → In x ops → In x (ops ++ y ∷ [])
append-In_left x y [] m = absurd (In-nil m)
append-In_left x y (z ∷ zs) m = elim (In-cons m) [
  | inl e ↦ here e
  | inr n ↦ there (append-In_left x y zs n)
]

append-In_last : (y : DocumentOp) (ops : List DocumentOp) → In y (ops ++ y ∷ [])
append-In_last y [] = here refl
append-In_last y (z ∷ zs) = there (append-In_last y zs)

append-AreDistinct :
    (y : DocumentOp) (ops : List DocumentOp)
    → ((x : DocumentOp) → In x ops → DocumentOp.ref x ≢ DocumentOp.ref y)
    → AreDistinct ops
    → AreDistinct (ops ++ y ∷ [])
append-AreDistinct y [] n a = (λ x m. absurd (In-nil m), tt)
append-AreDistinct y (z ∷ zs) n a = (
  λ x m. elim (In-append x y zs m) [
    | inl k ↦ a.0 x k
    | inr e ↦ λ q. n z (here refl) (q ∙ ap DocumentOp.ref e)
  ],
  append-AreDistinct y zs (λ x m. n x (there m)) a.1,
)

normalize-ref : (op : DocumentOp) → DocumentOp.ref (normalize op) ≡ DocumentOp.ref op
unfolding normalize
normalize-ref op = refl

true-false : true ≡ false → ⊥
true-false e = cc

unseen :
    (d : MemDocument) (op x : DocumentOp)
    → has OpRef_discrete (DocumentOp.ref op) d.seen ≡ false
    → has OpRef_discrete (DocumentOp.ref x) d.seen ≡ true
    → DocumentOp.ref x ≡ DocumentOp.ref op
    → ⊥
unseen d op x new old e =
    true-false (sym (subst (λ r. has OpRef_discrete r d.seen ≡ true) e old) ∙ new)

enter-IsConsistent :
    (d : MemDocument) (op : DocumentOp) (hash : PayloadHash)
    → has OpRef_discrete (DocumentOp.ref op) d.seen ≡ false
    → IsConsistent d
    → IsConsistent (enter d op hash)
enter-IsConsistent d op hash new c = record {
  logged = λ r known. elim (OpRef_discrete (DocumentOp.ref op) r) [
    | yes e ↦ (normalize op, append-In_last (normalize op) d.ops, normalize-ref op ∙ e)
    | no n ↦
        let old : has OpRef_discrete r d.seen ≡ true =
          ground
            (arith, n, known, lookup-insert OpRef_discrete (DocumentOp.ref op) r hash d.seen) in
        let (x, m, e) = c.logged r old in (x, append-In_left x (normalize op) d.ops m, e)
  ];
  seen = λ x m. elim (In-append x (normalize op) d.ops m) [
    | inl k ↦ has-insert-true (DocumentOp.ref x) (DocumentOp.ref op) hash d.seen (c.seen x k)
    | inr e ↦
        subst
          (λ r. has OpRef_discrete r (insert OpRef_discrete (DocumentOp.ref op) hash d.seen) ≡ true)
          (sym (ap DocumentOp.ref e ∙ normalize-ref op))
          (has-insert_self (DocumentOp.ref op) hash d.seen)
  ];
  distinct =
      append-AreDistinct (normalize op) d.ops
        (λ x m e. unseen d op x new (c.seen x m) (e ∙ normalize-ref op)) c.distinct;
}

append_loop-IsConsistent :
    (d : MemDocument) (l : List (DocumentOp × PayloadHash))
    → IsConsistent d
    → IsConsistent (append_loop d l)
unfolding append_loop
append_loop-IsConsistent d [] c = c
append_loop-IsConsistent d ((op, hash) ∷ rest) c =
    elim (Bool-cases (has OpRef_discrete (DocumentOp.ref op) d.seen)) [
      | inl e ↦
          subst IsConsistent (sym (append_loop-skip d op hash rest e))
            (append_loop-IsConsistent d rest c)
      | inr e ↦
          subst IsConsistent (sym (append_loop-enter d op hash rest e))
            (append_loop-IsConsistent (enter d op hash) rest (enter-IsConsistent d op hash e c))
    ]

since_named :
    (s : MemStore) (id : String) (clock : VectorClock)
    → text_eq id "" ≡ false
    → (since s id clock).1
      ≡ ok (sort_stable dot_less (beyond normalize clock (stored_document s id).ops))
unfolding since
since_named s id clock e = rw (since, open_document_named s id e) refl

-- Every document of the store.
abbrev pub AreConsistent : MemStore → Type 0
AreConsistent s = (id : String) → IsConsistent (stored_document s id)

pub empty-IsConsistent : IsConsistent new_mem_document
unfolding lookup
empty-IsConsistent = record {
  logged = λ r e. absurd (true-false (sym e));
  seen = λ op m. absurd (In-nil m);
  distinct = tt;
}

put-AreConsistent :
    (s : MemStore) (id : String) (d : MemDocument)
    → IsConsistent d
    → AreConsistent s
    → AreConsistent (put_document s id d)
put-AreConsistent s id d c all other = elim (String_discrete id other) [
  | yes e ↦
      subst IsConsistent
        (sym (
          stored_document-put s id other d
          ∙ if_pos (String_discrete id other) e d (stored_document s other)))
        c
  | no n ↦
      subst IsConsistent
        (sym (
          stored_document-put s id other d
          ∙ if_neg (String_discrete id other) n d (stored_document s other)))
        (all other)
]

module _ (digest : Payload → PayloadHash) where
  -- `Append` keeps every document of a store consistent, whether it succeeds or fails: the
  -- identities are those of the log, and each stands there once.
  pub append-AreConsistent :
      (s s' : MemStore) (id : String) (ops : List DocumentOp) (outcome : Result (Unit {0}))
      → AreConsistent s
      → append digest s id ops ≡ (s', outcome)
      → AreConsistent s'
  append-AreConsistent s s' id ops (ok done) c e other =
      let a = append-Appended digest s s' id ops e in
      subst AreConsistent a.result
        (put-AreConsistent s id (append_loop (stored_document s id) a.hashed)
          (append_loop-IsConsistent (stored_document s id) a.hashed (c id)) c)
        other
  append-AreConsistent s s' id ops (err x) c e other =
      subst IsConsistent (sym (append-error digest s s' id ops x e other)) (c other)

  -- What `Since` answers has an operation of the reference.
  abbrev pub Answers : Result (List DocumentOp) → OpRef → Type 0
  Answers answer r =
      (selected : List DocumentOp) × (answer ≡ ok selected)
      × (x : DocumentOp) × In x selected
      × (DocumentOp.ref x ≡ r)

  -- After an `Append` that succeeds, `Since` answers every clock that does not have an operation of
  -- the batch with an operation of its identity, in a store whose documents are consistent.
  pub since-append :
      (s s' : MemStore) (id : String) (ops : List DocumentOp) (clock : VectorClock)
      → AreConsistent s
      → append digest s id ops ≡ (s', ok tt)
      → (op : DocumentOp) → In op ops
      → seq_of clock op.site_id < op.seq
      → Answers (since s' id clock).1 (DocumentOp.ref op)
  since-append s s' id ops clock c e op m new =
      let a = append-Appended digest s s' id ops e in
      let d = append_loop (stored_document s id) a.hashed in
      let known = append_loop_known digest (stored_document s id) ops a.hashed a.checked op m in
      let (y, i, r) =
        (append_loop-IsConsistent (stored_document s id) a.hashed (c id)).logged (DocumentOp.ref op)
          known in
      let there : stored_document s' id ≡ d =
        subst (λ x. stored_document x id ≡ d) a.result
          (stored_document-put s id id d
            ∙ if_pos (String_discrete id id) refl d (stored_document s id)) in
      let beyond_clock : seq_of clock y.site_id < y.seq =
        subst (λ (q : OpRef). seq_of clock q.site_id < q.seq) (sym r) new in
      let in_log : In y (stored_document s' id).ops =
        subst (λ (x : MemDocument). In y x.ops) (sym there) i in
      (
        sort_stable dot_less (beyond normalize clock (stored_document s' id).ops),
        since_named s' id clock a.named,
        normalize y,
        (beyond-IsSelection normalize clock (stored_document s' id).ops).complete y in_log
            beyond_clock,
        normalize-ref y ∙ r,
      )
