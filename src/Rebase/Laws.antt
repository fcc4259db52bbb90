-- ===== src/Rebase/Laws.antt =====
-- What a rebase asks for, and what it keeps.
use geo_crdt.Common.{
  ◌≤◌, String, true, false, not, ◌||◌, some, List, [], ◌∷◌, Map, lookup, has, ℕ_discrete, All, ◌≡◌,
  refl, sym, ap, ◌∙◌, arith, ◌==◌, inl, inr,
}
use geo_crdt.Common.Sorted.{In, In-nil, In-cons, All-In}
use geo_crdt.Common.Texts.{text_eq}
use geo_crdt.Common.Decimal.{trim_space}
use geo_crdt.Errors.{ok, rebase_unsafe, check_ok, refuse_if-ok, rewrap}
use geo_crdt.Json.{Raw}
use geo_crdt.Clock.Vector.{VectorClock, seq_of, covered_by, merge_vector_clocks}
use geo_crdt.Clock.Vector.Covers.{covered_by-le, covered_by-merge}
use geo_crdt.Clock.Frontier.{FrontierClock, staged_at}
use geo_crdt.Ops.DocumentOp.{DocumentOp}
use geo_crdt.Geometry.State.{GeoJson, GeometryState}
use geo_crdt.Document.State.{FeatureState, Document, knowledge}
use geo_crdt.Document.Base.{CanonicalBase}
use geo_crdt.Document.Merge.Log.{IsObserved}
use geo_crdt.Document.Outbox.Laws.{IsOwnBelow}
use geo_crdt.Sync.Delta.{validate_wire_vector_clock}
use geo_crdt.Rebase.{RebaseReceipt, any_waiting, check_rebase, rebase, is_nil}

-- The log of a document: every operation was observed by its frontier clock, and its own are
-- numbered up to `local_seq`.
abbrev pub IsLogged : Document → Type 0
IsLogged d = All (IsObserved d.frontier) d.ops × All (IsOwnBelow d d.local_seq) d.ops

-- What a rebase may discard: everything is contiguous knowledge of the stable clock, sent, and
-- applied.
pub record IsStable (d : Document) (stable_clock : VectorClock) : Type 0 where
  pub known : (s : String) → seq_of stable_clock s ≡ seq_of (knowledge d) s
  pub covered : (op : DocumentOp) → In op d.ops → op.seq ≤ seq_of stable_clock op.site_id
  pub sent :
      (op : DocumentOp)
      → In op d.ops
      → text_eq op.site_id d.site_id ≡ true
      → op.seq ≤ d.synced_through
  pub gapless : d.frontier.staged ≡ []
  pub acknowledged : d.synced_through ≡ d.local_seq
  pub resolved : d.pending_gen ≡ []
  pub drained :
      (id : String) (f : FeatureState) (g : GeometryState)
      → In (id, f) d.features
      → f.geometry ≡ some g
      → g.pending ≡ []

nil_of {ℓ} : {A : Type ℓ} (l : List A) → not (is_nil l) ≡ false → l ≡ []
nil_of [] e = refl
nil_of (x ∷ l) e = cc

-- No geometry of the features has an operation that waits.
any_waiting-drained :
    (features : Map String FeatureState) (id : String) (f : FeatureState) (g : GeometryState)
    → any_waiting features ≡ false
    → In (id, f) features
    → f.geometry ≡ some g
    → g.pending ≡ []
unfolding any_waiting
any_waiting-drained [] id f g e m q = absurd (In-nil m)
any_waiting-drained ((k, h) ∷ features) id f g e m q = elim (In-cons m) [
  | inl p ↦
      let here : h.geometry ≡ some g =
        ap (λ (x : String × FeatureState). x.1.geometry) (sym p) ∙ q in
      nil_of g.pending (ground (arith, e, here))
  | inr n ↦ any_waiting-drained features id f g (ground (arith, e)) n q
]

unstaged :
    (f : FrontierClock) (op : DocumentOp)
    → f.staged ≡ []
    → ¬ (has ℕ_discrete op.seq (staged_at f op.site_id) ≡ true)
unfolding staged_at lookup
unstaged f op e h = ground (arith, e, h)

-- Without a gap, the knowledge of a document holds every operation that its frontier observed.
IsObserved-known :
    (d : Document) (op : DocumentOp)
    → d.frontier.staged ≡ []
    → IsObserved d.frontier op
    → op.seq ≤ seq_of (knowledge d) op.site_id
unfolding knowledge staged_at lookup
IsObserved-known d op e (inl h) = omega (
  arith,
  h,
  covered_by-le d.frontier.frontier (merge_vector_clocks d.compacted d.frontier.frontier) op.site_id
      (covered_by-merge d.compacted d.frontier.frontier),
)
IsObserved-known d op e (inr h) = absurd (unstaged d.frontier op e h)

check_rebase-IsStable :
    (d : Document) (document_id : String) (stable_clock : VectorClock)
    → IsLogged d
    → check_rebase d document_id stable_clock ≡ ok tt
    → IsStable d stable_clock
unfolding check_rebase
check_rebase-IsStable d document_id stable_clock (logged, own) e =
    let (_, e1) = refuse_if-ok (text_eq document_id "") _ _ tt e in
    let (_, e2) = refuse_if-ok (text_eq document_id d.document_id) _ _ tt e1 in
    let (_, e3) =
      check_ok (rewrap rebase_unsafe (validate_wire_vector_clock stable_clock)) _ tt e2 in
    let (covers, e4) =
      refuse_if-ok
        (not (covered_by stable_clock (knowledge d)) || not (covered_by (knowledge d) stable_clock))
        _ _ tt e3 in
    let (staged, e5) = refuse_if-ok (not (is_nil d.frontier.staged)) _ _ tt e4 in
    let (sent, e6) = refuse_if-ok (not (d.synced_through == d.local_seq)) _ _ tt e5 in
    let (resolved, e7) = refuse_if-ok (not (is_nil d.pending_gen)) _ _ tt e6 in
    let gapless = nil_of d.frontier.staged staged in
    let acknowledged : d.synced_through ≡ d.local_seq = ground (arith, sent) in
    let below : (s : String) → seq_of (knowledge d) s ≤ seq_of stable_clock s =
      λ s. covered_by-le (knowledge d) stable_clock s (ground (arith, covers)) in
    record {
      known = λ s.
          omega
            (arith, covered_by-le stable_clock (knowledge d) s (ground (arith, covers)), below s);
      covered = λ op m. omega (
        arith,
        IsObserved-known d op gapless (All-In (IsObserved d.frontier) d.ops logged op m),
        below op.site_id,
      );
      sent =
          λ op m t. omega (arith, acknowledged, All-In (IsOwnBelow d d.local_seq) d.ops own op m t);
      gapless = gapless;
      acknowledged = acknowledged;
      resolved = nil_of d.pending_gen resolved;
      drained = λ id f g m q. any_waiting-drained d.features id f g (ground (arith, e7)) m q;
    }

module _ (encode : GeoJson → Raw) (base_digest : CanonicalBase → String) where
  -- A rebase of a document whose log its frontier clock observed, with own operations numbered up
  -- to `localSeq`, succeeds only where nothing that it discards can be missing elsewhere: the stable
  -- clock is the contiguous knowledge at every site and covers every operation of the log, every own
  -- operation of the log is acknowledged as sent, nothing is staged beyond a gap, and no edit waits
  -- for a generation or inside the geometry of any feature.
  pub rebase-IsStable :
      (d d' : Document) (document_id snapshot_id : String) (stable_clock : VectorClock)
      (receipt : RebaseReceipt)
      → IsLogged d
      → rebase encode base_digest d document_id stable_clock snapshot_id ≡ ok (d', receipt)
      → IsStable d stable_clock
  unfolding rebase
  rebase-IsStable d d' document_id snapshot_id stable_clock receipt logged e =
      let (checked, _) =
        check_ok (check_rebase d (trim_space document_id) stable_clock) _ (d', receipt) e in
      check_rebase-IsStable d (trim_space document_id) stable_clock logged checked
