-- ===== src/Store/Append.antt =====
-- Appending a batch again.
use geo_crdt.Common.{
  ◌≡◌, refl, sym, ap, ◌∙◌, subst, arith, true, false, List, [], ◌∷◌, ◌++◌, Map, insert, has,
  lookup-insert, All, All-map, Bool-cases, inl, inr,
}
use geo_crdt.Common.Sorted.{In, here, there, In-nil, In-cons, All-In}
use geo_crdt.Errors.{ok, bind_ok, ok_inj, refuse_if-ok}
use geo_crdt.Clock.OpRef.{OpRef, OpRef_discrete}
use geo_crdt.Ops.DocumentOp
use geo_crdt.Ops.DocumentOp.{DocumentOp, normalize}
use geo_crdt.Identity.{Payload, PayloadHash, hash_document_op}
use geo_crdt.Document.Merge.{collides}
use geo_crdt.Document.Merge.Prepared.{
  Fits, Extends, Extends-before, hash_in, collides_no, no_collides,
}
use geo_crdt.Document.Merge.Later.{Fits-insert, has-insert-true, has-insert_self}
use geo_crdt.Store.{MemDocument, append_loop, check_loop}

abbrev Hashed : Type 0
Hashed = DocumentOp × PayloadHash

-- The document has the identity of the operation.
abbrev IsSeen : MemDocument → Hashed → Type 0
IsSeen d p = has OpRef_discrete (DocumentOp.ref p.0) d.seen ≡ true

abbrev pub enter : MemDocument → DocumentOp → PayloadHash → MemDocument
enter d op hash = record {
  ops = d.ops ++ normalize op ∷ [];
  seen = insert OpRef_discrete (DocumentOp.ref op) hash d.seen;
}

pub append_loop-skip :
    (d : MemDocument) (op : DocumentOp) (hash : PayloadHash) (rest : List Hashed)
    → has OpRef_discrete (DocumentOp.ref op) d.seen ≡ true
    → append_loop d ((op, hash) ∷ rest) ≡ append_loop d rest
unfolding append_loop
append_loop-skip d op hash rest e = rw (append_loop, e)

pub append_loop-enter :
    (d : MemDocument) (op : DocumentOp) (hash : PayloadHash) (rest : List Hashed)
    → has OpRef_discrete (DocumentOp.ref op) d.seen ≡ false
    → append_loop d ((op, hash) ∷ rest) ≡ append_loop (enter d op hash) rest
unfolding append_loop
append_loop-enter d op hash rest e = rw (append_loop, e)

-- Entering operations that are all there changes nothing.
append_loop-seen : (d : MemDocument) (l : List Hashed) → All (IsSeen d) l → append_loop d l ≡ d
unfolding append_loop
append_loop-seen d [] a = refl
append_loop-seen d ((op, hash) ∷ rest) a =
    append_loop-skip d op hash rest a.0 ∙ append_loop-seen d rest a.1

module _ (h : OpRef → PayloadHash) where
  -- What the second loop keeps: identities stay, and hashes go on agreeing with `h`.
  record Grows (d d' : MemDocument) : Type 0 where
    kept : (r : OpRef) → has OpRef_discrete r d.seen ≡ true → has OpRef_discrete r d'.seen ≡ true
    fits : (op : DocumentOp) → Fits h d.seen op → Fits h d'.seen op

  abbrev IsOwn : Hashed → Type 0
  IsOwn p = h (DocumentOp.ref p.0) ≡ p.1

  Grows-enter :
      (d : MemDocument) (op : DocumentOp) (hash : PayloadHash)
      → IsOwn (op, hash)
      → Grows d (enter d op hash)
  Grows-enter d op hash e =
      subst (λ k. Grows d (enter d op k)) e
        (record {
          kept =
              λ r there. has-insert-true r (DocumentOp.ref op) (h (DocumentOp.ref op)) d.seen there;
          fits = λ x f. Fits-insert h x (DocumentOp.ref op) d.seen f;
        })

  Grows-trans : (a b c : MemDocument) → Grows a b → Grows b c → Grows a c
  Grows-trans a b c g k = record {
    kept = λ r e. k.kept r (g.kept r e);
    fits = λ op f. k.fits op (g.fits op f);
  }

  -- The loop went through the operations from `d` and left `d'`.
  abbrev Covers : MemDocument → List Hashed → MemDocument → Type 0
  Covers d l d' = Grows d d' × All (IsSeen d') l

  append_loop-Covers :
      (d : MemDocument) (l : List Hashed) → All IsOwn l → Covers d l (append_loop d l)
  unfolding append_loop
  append_loop-Covers d [] a = (record { kept = λ r e. e; fits = λ op f. f }, tt)
  append_loop-Covers d ((op, hash) ∷ rest) a =
      elim (Bool-cases (has OpRef_discrete (DocumentOp.ref op) d.seen)) [
        | inl e ↦
            let (g, known) = append_loop-Covers d rest a.1 in
            subst (Covers d ((op, hash) ∷ rest)) (sym (append_loop-skip d op hash rest e))
              (g, (g.kept (DocumentOp.ref op) e, known))
        | inr e ↦
            let (g, known) = append_loop-Covers (enter d op hash) rest a.1 in
            subst (Covers d ((op, hash) ∷ rest)) (sym (append_loop-enter d op hash rest e)) (
              Grows-trans d (enter d op hash) _ (Grows-enter d op hash a.0) g,
              (g.kept (DocumentOp.ref op) (has-insert_self (DocumentOp.ref op) hash d.seen), known),
            )
      ]

module _ (digest : Payload → PayloadHash) where
  -- What the first loop did to the first operation of a batch that it accepted.
  record First (seen batch : Map OpRef PayloadHash) (op : DocumentOp) (ops : List DocumentOp)
      (l : List Hashed) : Type 0 where
    hash : PayloadHash
    rest : List Hashed
    hashed : hash_document_op digest op ≡ ok hash
    logged : collides (DocumentOp.ref op) hash seen ≡ false
    batched : collides (DocumentOp.ref op) hash batch ≡ false
    checked :
        check_loop digest seen (insert OpRef_discrete (DocumentOp.ref op) hash batch) ops ≡ ok rest
    result : (op, hash) ∷ rest ≡ l

  check_loop-First :
      (seen batch : Map OpRef PayloadHash) (op : DocumentOp) (ops : List DocumentOp)
      (l : List Hashed)
      → check_loop digest seen batch (op ∷ ops) ≡ ok l
      → First seen batch op ops l
  unfolding check_loop
  check_loop-First seen batch op ops l e =
      let (hash, hashed, e1) = bind_ok (hash_document_op digest op) _ l e in
      let (logged, e2) = refuse_if-ok _ _ _ l e1 in
      let (batched, e3) = refuse_if-ok _ _ _ l e2 in
      let (rest, checked, e4) =
        bind_ok (check_loop digest seen (insert OpRef_discrete (DocumentOp.ref op) hash batch) ops)
          _ l e3 in
      record {
        hash = hash;
        rest = rest;
        hashed = hashed;
        logged = logged;
        batched = batched;
        checked = checked;
        result = ok_inj e4;
      }

  -- A checked batch has one hash for each identity, which agrees with the document.
  abbrev IsChecked : (OpRef → PayloadHash) → Map OpRef PayloadHash → Hashed → Type 0
  IsChecked h seen p = (h (DocumentOp.ref p.0) ≡ p.1) × Fits h seen p.0

  check_loop-IsChecked :
      (seen batch : Map OpRef PayloadHash) (ops : List DocumentOp) (l : List Hashed)
      → check_loop digest seen batch ops ≡ ok l
      → (h : OpRef → PayloadHash) × Extends h batch × All (IsChecked h seen) l
  unfolding check_loop
  check_loop-IsChecked seen batch [] l e = (
    hash_in batch,
    λ k v q. ground (arith, q),
    subst (All (IsChecked (hash_in batch) seen)) (ok_inj e) tt,
  )
  check_loop-IsChecked seen batch (op ∷ ops) l e =
      let f = check_loop-First seen batch op ops l e in
      let r = DocumentOp.ref op in
      let (h, ext, good) =
        check_loop-IsChecked seen (insert OpRef_discrete r f.hash batch) ops f.rest f.checked in
      let own : h r ≡ f.hash =
        ext r f.hash (ground (arith, lookup-insert OpRef_discrete r r f.hash batch)) in
      (
        h,
        λ k v q. Extends-before h op f.hash batch f.batched own ext k v q,
        subst (All (IsChecked h seen)) f.result
            ((own, λ k q. own ∙ collides_no r f.hash k seen f.logged q), good),
      )

  -- A batch that was checked is checked again, with the same result, against identities that agree
  -- with its hashes.
  check_loop_again :
      (seen seen' batch : Map OpRef PayloadHash) (ops : List DocumentOp) (l : List Hashed)
      (h : OpRef → PayloadHash)
      → check_loop digest seen batch ops ≡ ok l
      → All (IsChecked h seen') l
      → check_loop digest seen' batch ops ≡ ok l
  unfolding check_loop
  check_loop_again seen seen' batch [] l h e a = e
  check_loop_again seen seen' batch (op ∷ ops) l h e a =
      let f = check_loop-First seen batch op ops l e in
      let r = DocumentOp.ref op in
      let (own, good) = subst (All (IsChecked h seen')) (sym f.result) a in
      let again =
        check_loop_again seen seen' (insert OpRef_discrete r f.hash batch) ops f.rest h f.checked
          good in
      let free : collides r f.hash seen' ≡ false =
        subst (λ k. collides r k seen' ≡ false) own.0 (no_collides h r seen' own.1) in
      rw (f.hashed, free, f.batched, again) (ap ok f.result)

  -- The document that a checked batch leaves accepts the batch again and keeps still.
  pub append_loop_again :
      (d : MemDocument) (ops : List DocumentOp) (l : List Hashed)
      → check_loop digest d.seen [] ops ≡ ok l
      → (check_loop digest (append_loop d l).seen [] ops ≡ ok l)
        × (append_loop (append_loop d l) l ≡ append_loop d l)
  append_loop_again d ops l e =
      let (h, _, good) = check_loop-IsChecked d.seen [] ops l e in
      let (grows, known) =
        append_loop-Covers h d l (All-map (IsChecked h d.seen) (IsOwn h) (λ p c. c.0) l good) in
      (
        check_loop_again d.seen (append_loop d l).seen [] ops l h e (
            All-map (IsChecked h d.seen) (IsChecked h (append_loop d l).seen)
              (λ p c. (c.0, grows.fits p.0 c.1)) l good),
        append_loop-seen (append_loop d l) l known,
      )

  check_loop-In :
      (seen batch : Map OpRef PayloadHash) (ops : List DocumentOp) (l : List Hashed)
      → check_loop digest seen batch ops ≡ ok l
      → (op : DocumentOp) → In op ops
      → (hash : PayloadHash) × In (op, hash) l
  check_loop-In seen batch [] l e op m = absurd (In-nil m)
  check_loop-In seen batch (x ∷ xs) l e op m =
      let f = check_loop-First seen batch x xs l e in
      subst (λ k. (hash : PayloadHash) × In (op, hash) k) f.result
        (elim (In-cons m) [
          | inl q ↦ (f.hash, here (ap (λ o. (o, f.hash)) q))
          | inr n ↦
              let (hash, i) =
                check_loop-In seen (insert OpRef_discrete (DocumentOp.ref x) f.hash batch) xs f.rest
                  f.checked op n in
              (hash, there i)
        ])

  -- The document has the identities of a batch that it took.
  pub append_loop_known :
      (d : MemDocument) (ops : List DocumentOp) (l : List Hashed)
      → check_loop digest d.seen [] ops ≡ ok l
      → (op : DocumentOp) → In op ops
      → has OpRef_discrete (DocumentOp.ref op) (append_loop d l).seen ≡ true
  append_loop_known d ops l e op m =
      let (h, _, good) = check_loop-IsChecked d.seen [] ops l e in
      let covers =
        append_loop-Covers h d l (All-map (IsChecked h d.seen) (IsOwn h) (λ p c. c.0) l good) in
      let (hash, i) = check_loop-In d.seen [] ops l e op m in
      All-In (IsSeen (append_loop d l)) l covers.1 (op, hash) i
