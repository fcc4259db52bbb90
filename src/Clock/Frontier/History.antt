-- ===== src/Clock/Frontier/History.antt =====
-- The frontier clock after a whole history of `observe` calls.
use geo_crdt.Common.{
  ℕ, ◌+◌, ◌<◌, ◌≤◌, String, Bool, true, false, none, some, List, [], ◌∷◌, leb, ◌==◌, lookup, has,
  ite, ℕ_discrete, ◌≡◌, ◌≢◌, ◌↔◌, ◌⊎◌, refl, arith, subst, lookup-insert, lookup-erase, Bool-cases,
  inl, inr, sym, All, Map, ◌∙◌, dec_le, fun_ext,
}
use geo_crdt.Common.Texts.{String_discrete}
use geo_crdt.Clock.Limits.{inc, max_timestamp}
use geo_crdt.Clock.OpRef.{OpRef}
use geo_crdt.Clock.Vector.{seq_of}
use geo_crdt.Clock.Vector.Laws.{seq_of_nil}
use geo_crdt.Clock.Frontier.{SeqSet, FrontierClock, new_frontier_clock, staged_at, restage, observe}
use geo_crdt.Clock.Frontier.Site.{
  TracksAt, observe_at-TracksAt, observe_self, observe_other, with_seen, restage-insert, site,
}

-- Whether the operation was received; the history is newest first.
unfoldable pub received : String → List OpRef → ℕ → Bool
received s [] k = false
received s (r ∷ h) k =
    ite (String_discrete r.site_id s) (with_seen r.seq (received s h) k) (received s h k)

unfoldable pub observe_all : List OpRef → FrontierClock
observe_all [] = new_frontier_clock
observe_all (r ∷ h) = observe (observe_all h) r.site_id r.seq

-- Sequence numbers below the bound that envelope validation enforces.
abbrev pub InRange : List OpRef → Type 0
InRange = All (λ (r : OpRef). r.seq < max_timestamp)

received-lt :
    (s : String) (h : List OpRef) → InRange h → (k : ℕ) → received s h k ≡ true → k < max_timestamp
unfolding received
received-lt s [] v k e = cc
received-lt s (r ∷ h) v k e = ground (arith, received-lt s h v.1 k)

abbrev Tracks : FrontierClock → List OpRef → Type 0
Tracks f h = (s : String) → TracksAt (received s h) (site f s).0 (site f s).1

received-eq :
    (r : OpRef) (s : String) (h : List OpRef)
    → r.site_id ≡ s
    → received s (r ∷ h) ≡ with_seen r.seq (received s h)
unfolding received
received-eq r s h e = fun_ext (λ k. ground arith)

received-ne :
    (r : OpRef) (s : String) (h : List OpRef) → r.site_id ≢ s → received s (r ∷ h) ≡ received s h
unfolding received
received-ne r s h e = fun_ext (λ k. ground arith)

observe-Tracks :
    (f : FrontierClock) (r : OpRef) (h : List OpRef)
    → InRange (r ∷ h)
    → Tracks f h
    → Tracks (observe f r.site_id r.seq) (r ∷ h)
observe-Tracks f r h v t s = elim (String_discrete r.site_id s) [
  | yes e ↦ rw (received-eq r s h e) (
      subst
        (λ x.
          TracksAt (with_seen r.seq (received x h)) (site (observe f r.site_id r.seq) x).0
            (site (observe f r.site_id r.seq) x).1)
        e
        (subst (λ (p : ℕ × SeqSet). TracksAt (with_seen r.seq (received r.site_id h)) p.0 p.1)
          (sym (observe_self f r.site_id r.seq))
          (observe_at-TracksAt (received r.site_id h) r.seq _ _
            (λ k p. received-lt r.site_id (r ∷ h) v k (rw (received-eq r r.site_id h refl) p))
            (t r.site_id))))
  | no n ↦ rw (received-ne r s h n) (
      subst (λ (p : ℕ × SeqSet). TracksAt (received s h) p.0 p.1)
        (sym (observe_other f r.site_id s r.seq n)) (t s))
]

observe_all-Tracks : (h : List OpRef) → InRange h → Tracks (observe_all h) h
unfolding observe_all received staged_at lookup
observe_all-Tracks [] v s = record {
  reached = λ k lo hi. absurd (omega (arith, seq_of_nil s));
  gap = refl;
  stages = λ k. refl;
}
observe_all-Tracks (r ∷ h) v s = observe-Tracks (observe_all h) r h v (observe_all-Tracks h v.1) s

-- What was received of a site is within its frontier, or staged.
pub received-observed :
    (h : List OpRef) (s : String) (k : ℕ)
    → InRange h
    → received s h k ≡ true
    → (k ≤ seq_of (observe_all h).frontier s)
      ⊎ (has ℕ_discrete k (staged_at (observe_all h) s) ≡ true)
received-observed h s k v e = elim (dec_le k (seq_of (observe_all h).frontier s)) [
  | yes le ↦ inl le
  | no gt ↦ let t = observe_all-Tracks h v s in inr (ground (arith, e, t.stages k, gt))
]

-- The frontier of a site is the longest contiguous prefix of what was received from it, whatever
-- the order of delivery: an entry is at least `n` exactly when 1 to `n` have all been received. (The
-- sequence numbers received are below `MaxTimestamp`.)
pub le-frontier_iff :
    (h : List OpRef) (s : String) (n : ℕ)
    → InRange h
    → (n ≤ seq_of (observe_all h).frontier s) ↔ ((k : ℕ) → 0 < k → k ≤ n → received s h k ≡ true)
le-frontier_iff h s n v = (down, up)
  where
    t : TracksAt (received s h) (seq_of (observe_all h).frontier s) (staged_at (observe_all h) s)
    t = observe_all-Tracks h v s

    down : n ≤ seq_of (observe_all h).frontier s → (k : ℕ) → 0 < k → k ≤ n → received s h k ≡ true
    down le k lo hi = t.reached k lo (omega arith)

    up : ((k : ℕ) → 0 < k → k ≤ n → received s h k ≡ true) → n ≤ seq_of (observe_all h).frontier s
    up all = elim (dec_le n (seq_of (observe_all h).frontier s)) [
      | yes le ↦ le
      | no gt ↦
          let got = all (seq_of (observe_all h).frontier s + 1) (omega arith) (omega arith) in
          let gap = t.gap in absurd (cc)
    ]

-- Two replicas that received the same operations of a site, in whatever order and however often,
-- stand at the same frontier for it, where the sequence numbers are below `MaxTimestamp`.
pub frontier-deterministic :
    (g h : List OpRef) (s : String)
    → InRange g
    → InRange h
    → ((k : ℕ) → received s g k ≡ received s h k)
    → seq_of (observe_all g).frontier s ≡ seq_of (observe_all h).frontier s
frontier-deterministic g h s vg vh same = omega (arith, forth, back)
  where
    m : ℕ
    m = seq_of (observe_all g).frontier s

    n : ℕ
    n = seq_of (observe_all h).frontier s

    forth : m ≤ n
    forth =
        (le-frontier_iff h s m vh).1
          (λ k lo hi. sym (same k) ∙ (le-frontier_iff g s m vg).0 (omega arith) k lo hi)

    back : n ≤ m
    back =
        (le-frontier_iff g s n vg).1
          (λ k lo hi. same k ∙ (le-frontier_iff h s n vh).0 (omega arith) k lo hi)

abbrev IsTidy : Map String SeqSet → Type 0
IsTidy m = (s : String) → lookup String_discrete s m ≢ some []

restage-IsTidy :
    (s : String) (r : SeqSet) (m : Map String SeqSet) → IsTidy m → IsTidy (restage s r m)
unfolding restage
restage-IsTidy s [] m t j e = ground (arith, lookup-erase String_discrete s j m, t j)
restage-IsTidy s (x ∷ r) m t j e = ground (arith, lookup-insert String_discrete s j (x ∷ r) m, t j)

observe-IsTidy :
    (f : FrontierClock) (s : String) (seq : ℕ) → IsTidy f.staged → IsTidy (observe f s seq).staged
unfolding observe
observe-IsTidy f s seq t = elim (Bool-cases (leb seq (seq_of f.frontier s))) [
  | inl e ↦ rw e t
  | inr e ↦ elim (Bool-cases (seq == inc (seq_of f.frontier s))) [
    | inl q ↦ rw (e, q) (restage-IsTidy s _ f.staged t)
    | inr q ↦ rw (e, q, restage-insert) (restage-IsTidy s _ f.staged t)
  ]
]

observe_all-IsTidy : (h : List OpRef) → IsTidy (observe_all h).staged
unfolding observe_all lookup
observe_all-IsTidy [] s = λ e. cc
observe_all-IsTidy (r ∷ h) s =
    observe-IsTidy (observe_all h) r.site_id r.seq (observe_all-IsTidy h) s

-- Nothing is staged at any site, so the map of staged sets is empty.
staged_nil_of_tidy :
    (m : Map String SeqSet)
    → IsTidy m
    → ((s : String) (k : ℕ)
        → has ℕ_discrete k (elim (lookup String_discrete s m) [ none ↦ [] | some r ↦ r ]) ≡ false)
    → m ≡ []
unfolding lookup
staged_nil_of_tidy [] t h = refl
staged_nil_of_tidy ((s, []) ∷ m) t h = absurd (t s (ground arith))
staged_nil_of_tidy ((s, (k, _) ∷ r) ∷ m) t h = ground (arith, h s k)

-- No staged set is left exactly when no received operation lies beyond its site's frontier, where
-- the sequence numbers received are below `MaxTimestamp`.
pub staged-nil_iff :
    (h : List OpRef)
    → InRange h
    → ((observe_all h).staged ≡ [])
      ↔ ((s : String) (k : ℕ) → received s h k ≡ true → k ≤ seq_of (observe_all h).frontier s)
unfolding staged_at lookup
staged-nil_iff h v = (down, up)
  where
    t :
        (s : String)
        → TracksAt (received s h) (seq_of (observe_all h).frontier s) (staged_at (observe_all h) s)
    t s = observe_all-Tracks h v s

    down :
        (observe_all h).staged ≡ []
        → (s : String) (k : ℕ) → received s h k ≡ true
        → k ≤ seq_of (observe_all h).frontier s
    down e s k got = ground (arith, (t s).stages k)

    up :
        ((s : String) (k : ℕ) → received s h k ≡ true → k ≤ seq_of (observe_all h).frontier s)
        → (observe_all h).staged ≡ []
    up all =
        staged_nil_of_tidy (observe_all h).staged (observe_all-IsTidy h)
          (λ s k. ground (arith, (t s).stages k, all s k))
