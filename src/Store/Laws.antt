-- ===== src/Store/Laws.antt =====
-- `Append` as a whole: what it stores, what it refuses and what it does a second time.
use geo_crdt.Common.{
  String, ◌≡◌, refl, sym, ap, ◌∙◌, subst, arith, true, false, List, [], lookup-insert,
  insert-insert, Bool-cases, inl, inr, ite,
}
use geo_crdt.Common.Texts.{String_discrete, text_eq}
use geo_crdt.Errors.{Error, Result, ok, err, Result-cases}
use geo_crdt.Ops.DocumentOp.{DocumentOp}
use geo_crdt.Identity.{Payload, PayloadHash}
use geo_crdt.Store.{
  MemDocument, MemStore, stored_document, put_document, open_document, append_loop, check_loop,
  append,
}
use geo_crdt.Store.Append.{append_loop_again}

pub stored_document-put :
    (s : MemStore) (id other : String) (d : MemDocument)
    → stored_document (put_document s id d) other
      ≡ ite (String_discrete id other) d (stored_document s other)
unfolding stored_document
stored_document-put s id other d =
    ground (arith, lookup-insert String_discrete id other d s.documents)

-- Entering the document that is there changes no document.
stored_document_reput :
    (s : MemStore) (id other : String)
    → stored_document (put_document s id (stored_document s id)) other ≡ stored_document s other
stored_document_reput s id other = ground (
  arith,
  stored_document-put s id other (stored_document s id),
  ap (stored_document s) {x = id} {y = other},
)

err-ok : {e : Error} → err e ≡ ok (tt {0}) → ⊥
err-ok e = cc

put_twice :
    (s : MemStore) (id : String) (d e : MemDocument)
    → put_document (put_document s id d) id e ≡ put_document s id e
put_twice s id d e =
    ap (λ m. record s { documents = m }) (insert-insert String_discrete id e d s.documents)

pub open_document_named :
    (s : MemStore) (id : String)
    → text_eq id "" ≡ false
    → open_document s id ≡ ok (put_document s id (stored_document s id), stored_document s id)
unfolding open_document
open_document_named s id e = rw e

module _ (digest : Payload → PayloadHash) where
  append_blank :
      (s : MemStore) (id : String) (ops : List DocumentOp)
      → text_eq id "" ≡ true
      → append digest s id ops ≡ (s, err Error.plain)
  unfolding append open_document
  append_blank s id ops e = rw (append, open_document, e) refl

  append_checked :
      (s : MemStore) (id : String) (ops : List DocumentOp) (l : List (DocumentOp × PayloadHash))
      → text_eq id "" ≡ false
      → check_loop digest (stored_document s id).seen [] ops ≡ ok l
      → append digest s id ops ≡ (put_document s id (append_loop (stored_document s id) l), ok tt)
  unfolding append
  append_checked s id ops l named e =
      rw (append, open_document_named s id named, e)
        (ap (λ x. (x, ok tt))
          (put_twice s id (stored_document s id) (append_loop (stored_document s id) l)))

  append_refused :
      (s : MemStore) (id : String) (ops : List DocumentOp) (e : Error)
      → text_eq id "" ≡ false
      → check_loop digest (stored_document s id).seen [] ops ≡ err e
      → append digest s id ops ≡ (put_document s id (stored_document s id), err e)
  unfolding append
  append_refused s id ops e named q = rw (append, open_document_named s id named, q) refl

  -- What a successful `Append` did.
  pub record Appended (s s' : MemStore) (id : String) (ops : List DocumentOp) : Type 0 where
    pub hashed : List (DocumentOp × PayloadHash)
    pub named : text_eq id "" ≡ false
    pub checked : check_loop digest (stored_document s id).seen [] ops ≡ ok hashed
    pub result : put_document s id (append_loop (stored_document s id) hashed) ≡ s'

  pub append-Appended :
      (s s' : MemStore) (id : String) (ops : List DocumentOp)
      → append digest s id ops ≡ (s', ok tt)
      → Appended s s' id ops
  append-Appended s s' id ops e = elim (Bool-cases (text_eq id "")) [
    | inl blank ↦ absurd (
        err-ok
          (ap (λ (r : MemStore × Result (Unit {0})). r.1) (sym (append_blank s id ops blank) ∙ e)))
    | inr named ↦ elim (Result-cases (check_loop digest (stored_document s id).seen [] ops)) [
      | inl (x, q) ↦ absurd (
          err-ok (
            ap (λ (r : MemStore × Result (Unit {0})). r.1)
              (sym (append_refused s id ops x named q) ∙ e)))
      | inr (l, q) ↦ record {
        hashed = l;
        named = named;
        checked = q;
        result =
            ap (λ (r : MemStore × Result (Unit {0})). r.0)
              (sym (append_checked s id ops l named q) ∙ e);
      }
    ]
  ]

  -- Appending a batch that was appended succeeds and changes nothing.
  pub append-again :
      (s s' : MemStore) (id : String) (ops : List DocumentOp)
      → append digest s id ops ≡ (s', ok tt)
      → append digest s' id ops ≡ (s', ok tt)
  append-again s s' id ops e =
      let a = append-Appended s s' id ops e in
      let d = append_loop (stored_document s id) a.hashed in
      let (checked, still) =
        append_loop_again digest (stored_document s id) ops a.hashed a.checked in
      let there : stored_document (put_document s id d) id ≡ d =
        stored_document-put s id id d ∙ ground arith in
      subst (λ x. append digest x id ops ≡ (x, ok tt)) a.result
        (append_checked (put_document s id d) id ops a.hashed a.named (
            subst (λ (x : MemDocument). check_loop digest x.seen [] ops ≡ ok a.hashed) (sym there)
              checked)
          ∙ ap (λ x. (x, ok tt))
              (put_twice s id d _
                ∙ ap (λ x. put_document s id x) (ap (λ x. append_loop x a.hashed) there ∙ still)))

  -- An `Append` that is refused leaves every document as it was.
  pub append-error :
      (s s' : MemStore) (id : String) (ops : List DocumentOp) (e : Error)
      → append digest s id ops ≡ (s', err e)
      → (other : String) → stored_document s' other ≡ stored_document s other
  append-error s s' id ops e q other = elim (Bool-cases (text_eq id "")) [
    | inl blank ↦
        ap (λ (r : MemStore × Result (Unit {0})). stored_document r.0 other)
          (sym q ∙ append_blank s id ops blank)
    | inr named ↦ elim (Result-cases (check_loop digest (stored_document s id).seen [] ops)) [
      | inl (x, r) ↦
          ap (λ (r : MemStore × Result (Unit {0})). stored_document r.0 other)
            (sym q ∙ append_refused s id ops x named r)
          ∙ stored_document_reput s id other
      | inr (l, r) ↦ absurd (
          err-ok (
            ap (λ (r : MemStore × Result (Unit {0})). r.1)
              (sym q ∙ append_checked s id ops l named r)))
    ]
  ]
