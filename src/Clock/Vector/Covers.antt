-- ===== src/Clock/Vector/Covers.antt =====
-- Vector clocks as they come off the wire, where a site may stand twice.
use geo_crdt.Common.{
  ap, lookup, ℕ, String, ◌≡◌, ◌≤◌, refl, true, false, arith, [], ◌∷◌, subst, ltb, insert,
  if◌then◌else◌,
}
use geo_crdt.Common.Texts.{String_discrete}
use geo_crdt.Clock.Vector.{VectorClock, seq_of, merge_vector_clocks, covered_by}
use geo_crdt.Clock.Vector.Laws.{seq_of-insert_self, seq_of-insert_ne}

-- One round of the merge loop.
raise : VectorClock → String → ℕ → VectorClock
raise c s n = if ltb (seq_of c s) n then insert String_discrete s n c else c

raise_self : (c : VectorClock) (s : String) (n : ℕ) → seq_of c s ≤ seq_of (raise c s n) s
unfolding raise
raise_self c s n = ground (arith, seq_of-insert_self s n c)

raise-ge : (c : VectorClock) (s t : String) (n : ℕ) → seq_of c t ≤ seq_of (raise c s n) t
unfolding raise
raise-ge c s t n = elim (String_discrete s t) [
  | yes e ↦ subst (λ x. seq_of c x ≤ seq_of (raise c s n) x) e (raise_self c s n)
  | no ne ↦ ground (arith, seq_of-insert_ne s t n c ne)
]

raise-reaches : (c : VectorClock) (s : String) (n : ℕ) → n ≤ seq_of (raise c s n) s
unfolding raise
raise-reaches c s n = ground (arith, seq_of-insert_self s n c)

-- A merge loses nothing of the first clock.
pub merge-ge : (a b : VectorClock) (t : String) → seq_of a t ≤ seq_of (merge_vector_clocks a b) t
unfolding merge_vector_clocks raise
merge-ge a [] t = omega arith
merge-ge a ((s, n) ∷ b) t = omega (arith, raise-ge a s t n, merge-ge (raise a s n) b t)

-- A clock that is covered stays so where the other clock grows.
pub covered_by-grows :
    (a k l : VectorClock)
    → covered_by a k ≡ true
    → ((t : String) → seq_of k t ≤ seq_of l t)
    → covered_by a l ≡ true
unfolding covered_by
covered_by-grows [] k l h g = refl
covered_by-grows ((s, n) ∷ a) k l h g =
    ground (arith, h, g s, covered_by-grows a k l (ground (arith, h)) g)

-- A merge covers the second clock.
pub covered_by-merge : (a b : VectorClock) → covered_by b (merge_vector_clocks a b) ≡ true
unfolding merge_vector_clocks covered_by raise
covered_by-merge a [] = refl
covered_by-merge a ((s, n) ∷ b) =
    ground
      (arith, covered_by-merge (raise a s n) b, merge-ge (raise a s n) b s, raise-reaches a s n)

-- Merging a clock that is covered changes nothing.
pub merge-covered : (a b : VectorClock) → covered_by b a ≡ true → merge_vector_clocks a b ≡ a
unfolding merge_vector_clocks covered_by
merge-covered a [] h = refl
merge-covered a ((s, n) ∷ b) h =
    let low : ltb (seq_of a s) n ≡ false = ground (arith, h) in
    rw (low) (merge-covered a b (ground (arith, h)))

-- A clock that is covered is at most the other at every site, whatever sites stand twice.
pub covered_by-le :
    (a b : VectorClock) (t : String) → covered_by a b ≡ true → seq_of a t ≤ seq_of b t
unfolding covered_by seq_of lookup
covered_by-le [] b t h = omega arith
covered_by-le ((s, n) ∷ a) b t h =
    ground (arith, h, covered_by-le a b t (ground (arith, h)), ap (seq_of b) {x = s} {y = t})
