-- ===== src/Document/Outbox/Laws.antt =====
-- The outbox: watermarks, and what is left to send after an acknowledgement.
use geo_crdt.Common.{
  ℕ, ◌≤◌, ◌≡◌, refl, arith, true, false, List, [], ◌∷◌, All, ltb, Bool-cases, inl, inr,
  if◌then◌else◌, ap, dec_le, sym, subst,
}
use geo_crdt.Common.Texts.{text_eq}
use geo_crdt.Errors.{ok}
use geo_crdt.Ops.DocumentOp.{DocumentOp}
use geo_crdt.Document.State.{Document}
use geo_crdt.Document.Outbox.{is_sent, pending_loop, pending_ops, mark_synced}

-- An own operation of the log is numbered at most `n`.
abbrev pub IsOwnBelow : Document → ℕ → DocumentOp → Type 0
IsOwnBelow d n op = text_eq op.site_id d.site_id ≡ true → op.seq ≤ n

-- The counters of a document that has numbered its own operations up to `local_seq`.
abbrev pub IsNumbered : Document → Type 0
IsNumbered d = (d.synced_through ≤ d.local_seq) × All (IsOwnBelow d d.local_seq) d.ops

abbrev raise : ℕ → DocumentOp → ℕ
raise w op = if ltb w op.seq then op.seq else w

pending_loop-ge : (d : Document) (w : ℕ) (ops : List DocumentOp) → w ≤ (pending_loop d w ops).1
unfolding pending_loop
pending_loop-ge d w [] = omega arith
pending_loop-ge d w (op ∷ ops) =
    ground (arith, pending_loop-ge d w ops, pending_loop-ge d (raise w op) ops)

pending_loop-le :
    (d : Document) (w n : ℕ) (ops : List DocumentOp)
    → w ≤ n
    → All (IsOwnBelow d n) ops
    → (pending_loop d w ops).1 ≤ n
unfolding pending_loop
pending_loop-le d w n [] h a = h
pending_loop-le d w n (op ∷ ops) h a = elim (Bool-cases (is_sent d op)) [
  | inl e ↦ rw e (pending_loop-le d w n ops h a.1)
  | inr e ↦ rw e (pending_loop-le d (raise w op) n ops (ground (arith, a.0)) a.1)
]

IsOwnBelow-mono :
    (d : Document) (m n : ℕ) (ops : List DocumentOp)
    → m ≤ n
    → All (IsOwnBelow d m) ops
    → All (IsOwnBelow d n) ops
IsOwnBelow-mono d m n [] h a = tt
IsOwnBelow-mono d m n (op ∷ ops) h a =
    (λ e. omega (arith, h, a.0 e), IsOwnBelow-mono d m n ops h a.1)

pending_loop-sent :
    (d : Document) (w : ℕ) (op : DocumentOp) (ops : List DocumentOp)
    → is_sent d op ≡ true
    → (pending_loop d w (op ∷ ops)).1 ≡ (pending_loop d w ops).1
unfolding pending_loop
pending_loop-sent d w op ops e = rw e

pending_loop-unsent :
    (d : Document) (w : ℕ) (op : DocumentOp) (ops : List DocumentOp)
    → is_sent d op ≡ false
    → (pending_loop d w (op ∷ ops)).1 ≡ (pending_loop d (raise w op) ops).1
unfolding pending_loop
pending_loop-unsent d w op ops e = rw e

-- What is pending ends at the watermark.
pending_loop-covers :
    (d : Document) (w : ℕ) (ops : List DocumentOp)
    → d.synced_through ≤ w
    → All (IsOwnBelow d (pending_loop d w ops).1) ops
unfolding pending_loop
pending_loop-covers d w [] h = tt
pending_loop-covers d w (op ∷ ops) h = elim (Bool-cases (is_sent d op)) [
  | inl e ↦
      subst (λ n. All (IsOwnBelow d n) (op ∷ ops)) (sym (pending_loop-sent d w op ops e))
        (λ t. ground (arith, e, t, h, pending_loop-ge d w ops), pending_loop-covers d w ops h)
  | inr e ↦
      subst (λ n. All (IsOwnBelow d n) (op ∷ ops)) (sym (pending_loop-unsent d w op ops e))
        (
          λ t. ground (arith, h, pending_loop-ge d (raise w op) ops),
          pending_loop-covers d (raise w op) ops (ground (arith, h)),
        )
]

-- Where every own operation is at or below what is synced, nothing is pending.
pending_loop-none :
    (d : Document) (w : ℕ) (ops : List DocumentOp)
    → All (IsOwnBelow d d.synced_through) ops
    → pending_loop d w ops ≡ ([], w)
unfolding pending_loop
pending_loop-none d w [] a = refl
pending_loop-none d w (op ∷ ops) a = elim (Bool-cases (is_sent d op)) [
  | inl e ↦ rw e (pending_loop-none d w ops a.1)
  | inr e ↦ ground (arith, e, a.0)
]

abbrev acknowledged : Document → Document
acknowledged d = record ((pending_ops d).0) { synced_through = (pending_ops d).2 }

mark_synced-issued :
    (d : Document) (w : ℕ)
    → d.synced_through ≤ w
    → w ≤ d.issued_through
    → w ≤ d.local_seq
    → mark_synced d w ≡ ok (record d { synced_through = w })
unfolding mark_synced
mark_synced-issued d w h i l = elim (dec_le w d.synced_through) [
  | yes e ↦
      let same : d.synced_through ≡ w = omega (arith, e, h) in
      ground (arith, e, ap (λ n. ok (record d { synced_through = n })) same)
  | no n ↦ ground (arith, n, i, l)
]

-- Where the own operations of the log, and what is synced, are numbered at most `local_seq`: the
-- watermark that `PendingOps` hands out is accepted by `MarkSynced`, which records it, and nothing is
-- pending then.
pub pending_ops-mark_synced :
    (d : Document)
    → IsNumbered d
    → (mark_synced (pending_ops d).0 (pending_ops d).2 ≡ ok (acknowledged d))
      × ((pending_ops (acknowledged d)).1 ≡ [])
unfolding pending_ops mark_synced
pending_ops-mark_synced d (s, a) = (
  mark_synced-issued (pending_ops d).0 _ (pending_loop-ge d d.synced_through d.ops) (ground arith)
      (pending_loop-le d d.synced_through d.local_seq d.ops s a),
  ap (λ (p : List DocumentOp × ℕ). p.0)
      (pending_loop-none (acknowledged d) _ d.ops
        (pending_loop-covers d d.synced_through d.ops (omega arith))),
)
