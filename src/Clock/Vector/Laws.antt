-- ===== src/Clock/Vector/Laws.antt =====
-- Vector clocks are a lattice under `mergeVectorClocks` and `coveredBy`.
use Prim.Native.Nat.{max}
use geo_crdt.Common.{
  ℕ, ◌≢◌, String, ◌≡◌, ◌↔◌, ◌≤◌, refl, true, arith, [], ◌∷◌, lookup, insert, IsMap, lookup-insert,
  insert-IsMap, Bool-cases, inl, inr, ltb, if◌then◌else◌, tests, none, subst,
}
use geo_crdt.Common.Texts.{String_discrete}
use geo_crdt.Clock.Vector.{VectorClock, seq_of, merge_vector_clocks, covered_by}

abbrev pub IsClock : VectorClock → Type 0
IsClock = IsMap String_discrete

pub seq_of-insert_self :
    (s : String) (n : ℕ) (c : VectorClock) → seq_of (insert String_discrete s n c) s ≡ n
unfolding seq_of
seq_of-insert_self s n c = ground (arith, lookup-insert String_discrete s s n c)

pub seq_of-insert_ne :
    (s t : String) (n : ℕ) (c : VectorClock)
    → s ≢ t
    → seq_of (insert String_discrete s n c) t ≡ seq_of c t
unfolding seq_of
seq_of-insert_ne s t n c h = ground (arith, lookup-insert String_discrete s t n c)

-- What one round of the merge loop does to the entry of `j`.
raise : VectorClock → String → ℕ → VectorClock
raise c s n = if ltb (seq_of c s) n then insert String_discrete s n c else c

seq_of-raise_self :
    (c : VectorClock) (s : String) (n : ℕ) → seq_of (raise c s n) s ≡ max (seq_of c s) n
unfolding raise
seq_of-raise_self c s n = elim (Bool-cases (ltb (seq_of c s) n)) [
  | inl e ↦ rw (e, seq_of-insert_self s n c) (omega tests)
  | inr e ↦ rw e (ground arith)
]

seq_of-raise_ne :
    (c : VectorClock) (s t : String) (n : ℕ) → s ≢ t → seq_of (raise c s n) t ≡ seq_of c t
unfolding raise
seq_of-raise_ne c s t n h = ground (arith, seq_of-insert_ne s t n c h)

raise-IsClock : (c : VectorClock) (s : String) (n : ℕ) → IsClock c → IsClock (raise c s n)
unfolding raise
raise-IsClock c s n h = elim (Bool-cases (ltb (seq_of c s) n)) [
  | inl e ↦ rw e (insert-IsMap String_discrete s n c h)
  | inr e ↦ rw e h
]

pub seq_of_nil : (s : String) → seq_of [] s ≡ 0
unfolding seq_of lookup
seq_of_nil s = refl

seq_of-cons_self : (s : String) (n : ℕ) (c : VectorClock) → seq_of ((s, n) ∷ c) s ≡ n
unfolding seq_of lookup
seq_of-cons_self s n c = ground arith

seq_of-cons_ne :
    (s t : String) (n : ℕ) (c : VectorClock) → s ≢ t → seq_of ((s, n) ∷ c) t ≡ seq_of c t
unfolding seq_of lookup
seq_of-cons_ne s t n c h = ground arith

seq_of-none : (c : VectorClock) (s : String) → lookup String_discrete s c ≡ none → seq_of c s ≡ 0
unfolding seq_of
seq_of-none c s h = ground arith

pub merge-IsClock : (a b : VectorClock) → IsClock a → IsClock (merge_vector_clocks a b)
unfolding merge_vector_clocks raise
merge-IsClock a [] h = h
merge-IsClock a ((s, n) ∷ b) h = merge-IsClock (raise a s n) b (raise-IsClock a s n h)

-- `mergeVectorClocks` is the pointwise maximum, at every site, known to either clock or not, where
-- the second clock has no site twice.
pub seq_of-merge :
    (a b : VectorClock) (t : String)
    → IsClock b
    → seq_of (merge_vector_clocks a b) t ≡ max (seq_of a t) (seq_of b t)
unfolding merge_vector_clocks raise
seq_of-merge a [] t h = rw (seq_of_nil t) (omega arith)
seq_of-merge a ((s, n) ∷ b) t h = elim (String_discrete s t) [
  | yes e ↦ omega (
    arith,
    seq_of-merge (raise a s n) b t h.1,
    subst (λ x. seq_of (raise a s n) x ≡ max (seq_of a x) n) e (seq_of-raise_self a s n),
    subst (λ x. seq_of ((s, n) ∷ b) x ≡ n) e (seq_of-cons_self s n b),
    subst (λ x. seq_of b x ≡ 0) e (seq_of-none b s h.0),
  )
  | no e ↦ omega (
    arith,
    seq_of-merge (raise a s n) b t h.1,
    seq_of-raise_ne a s t n e,
    seq_of-cons_ne s t n b e,
  )
]

covered_by_sound :
    (a b : VectorClock) → covered_by a b ≡ true → (t : String) → seq_of a t ≤ seq_of b t
unfolding covered_by
covered_by_sound [] b h t = omega (arith, seq_of_nil t)
covered_by_sound ((s, n) ∷ a) b h t = elim (String_discrete s t) [
  | yes e ↦
      subst (λ x. seq_of ((s, n) ∷ a) x ≤ seq_of b x) e (ground (arith, seq_of-cons_self s n a))
  | no e ↦ ground (arith, seq_of-cons_ne s t n a e, covered_by_sound a b (ground arith) t)
]

covered_by_complete :
    (a b : VectorClock)
    → IsClock a
    → ((t : String) → seq_of a t ≤ seq_of b t)
    → covered_by a b ≡ true
unfolding covered_by
covered_by_complete [] b m h = refl
covered_by_complete ((s, n) ∷ a) b m h =
    ground (arith, h s, seq_of-cons_self s n a, covered_by_complete a b m.1 tail)
  where
    tail : (t : String) → seq_of a t ≤ seq_of b t
    tail t = elim (String_discrete s t) [
      | yes e ↦ subst (λ x. seq_of a x ≤ seq_of b x) e (omega (arith, seq_of-none a s m.0))
      | no e ↦ omega (arith, h t, seq_of-cons_ne s t n a e)
    ]

-- `coveredBy` answers true exactly when every site's entry is at or below the other clock's, where
-- the clock that is asked has no site twice.
pub covered_by_iff :
    (a b : VectorClock)
    → IsClock a
    → (covered_by a b ≡ true) ↔ ((t : String) → seq_of a t ≤ seq_of b t)
covered_by_iff a b m = (covered_by_sound a b, covered_by_complete a b m)

-- The merge of two clocks, neither of which has a site twice, is their least upper bound: a clock
-- covers the merge exactly when it covers both.
pub merge-least_upper_bound :
    (a b c : VectorClock)
    → IsClock a
    → IsClock b
    → (covered_by (merge_vector_clocks a b) c ≡ true)
      ↔ ((covered_by a c ≡ true) × (covered_by b c ≡ true))
merge-least_upper_bound a b c ha hb =
    let whole = covered_by_iff (merge_vector_clocks a b) c (merge-IsClock a b ha) in
    let left = covered_by_iff a c ha in
    let right = covered_by_iff b c hb in
    (
      λ e. (
        left.1 (λ t. omega (arith, seq_of-merge a b t hb, whole.0 e t)),
        right.1 (λ t. omega (arith, seq_of-merge a b t hb, whole.0 e t)),
      ),
      λ e. whole.1 (λ t. omega (arith, seq_of-merge a b t hb, left.0 e.0 t, right.0 e.1 t)),
    )
