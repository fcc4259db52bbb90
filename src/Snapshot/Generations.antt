-- ===== src/Snapshot/Generations.antt =====
-- The set of seen generations, through a snapshot.
use geo_crdt.Common.{
  Bool, true, false, Option, none, some, List, [], ◌∷◌, lookup, insert, has, lookup-insert, ◌≡◌,
  ◌⊎◌, refl, sym, ap, ◌∙◌, subst, arith, Bool-cases, inl, inr,
}
use geo_crdt.Common.Sorted.{In, here, there, In-nil, In-cons}
use geo_crdt.Clock.OpRef
use geo_crdt.Clock.OpRef.{OpRef, OpRef_discrete}
use geo_crdt.Document.State.{RefSet}
use geo_crdt.Snapshot.Take.{set_refs}
use geo_crdt.Snapshot.Restore.{see_all, see_base, see_gen}

pub zero_ref_unset : (r : OpRef) → OpRef.is_set r ≡ false → OpRef.zero_ref ≡ r
unfolding OpRef.is_set
zero_ref_unset r e =
    let p : "" ≡ r.site_id = ground (arith, e) in
    let q : 0 ≡ r.seq = ground (arith, e) in λ i. record { site_id = p i; seq = q i }

true-false : true ≡ false → ⊥
true-false e = cc

-- Whether a reference is in a set of which the list was entered.
pub see_all-In :
    (seen : RefSet) (refs : List OpRef) (r : OpRef)
    → has OpRef_discrete r seen ≡ true ⊎ In r refs
    → has OpRef_discrete r (see_all seen refs) ≡ true
unfolding see_all
see_all-In seen [] r (inl e) = e
see_all-In seen [] r (inr m) = absurd (In-nil m)
see_all-In seen (q ∷ refs) r m = see_all-In (insert OpRef_discrete q tt seen) refs r (elim m [
  | inl e ↦ inl (ground (arith, e, lookup-insert OpRef_discrete q r tt seen))
  | inr k ↦ elim (In-cons k) [
    | inl p ↦ inl (ground (arith, p, lookup-insert OpRef_discrete q r tt seen))
    | inr n ↦ inr n
  ]
])

pub In-see_all :
    (seen : RefSet) (refs : List OpRef) (r : OpRef)
    → has OpRef_discrete r (see_all seen refs) ≡ true
    → (has OpRef_discrete r seen ≡ true) ⊎ In r refs
unfolding see_all
In-see_all seen [] r e = inl e
In-see_all seen (q ∷ refs) r e = elim (In-see_all (insert OpRef_discrete q tt seen) refs r e) [
  | inr m ↦ inr (there m)
  | inl h ↦ elim (OpRef_discrete q r) [
    | yes p ↦ inr (here (sym p))
    | no n ↦ inl (ground (arith, n, h, lookup-insert OpRef_discrete q r tt seen))
  ]
]

set_refs_set :
    (q : OpRef) (u : Unit {0}) (seen : RefSet)
    → OpRef.is_set q ≡ true
    → set_refs ((q, u) ∷ seen) ≡ q ∷ set_refs seen
unfolding set_refs
set_refs_set q u seen e = rw e refl

set_refs_unset :
    (q : OpRef) (u : Unit {0}) (seen : RefSet)
    → OpRef.is_set q ≡ false
    → set_refs ((q, u) ∷ seen) ≡ set_refs seen
unfolding set_refs
set_refs_unset q u seen e = rw e refl

has-cons_same :
    (q r : OpRef) (u : Unit {0}) (seen : RefSet)
    → q ≡ r
    → has OpRef_discrete r ((q, u) ∷ seen) ≡ true
unfolding lookup
has-cons_same q r u seen e = ground (arith, e)

has-cons_other :
    (q r : OpRef) (u : Unit {0}) (seen : RefSet)
    → ¬ (q ≡ r)
    → has OpRef_discrete r ((q, u) ∷ seen) ≡ has OpRef_discrete r seen
unfolding lookup
has-cons_other q r u seen n = ground (arith, n)

pub set_refs-In :
    (seen : RefSet) (r : OpRef)
    → OpRef.is_set r ≡ true
    → has OpRef_discrete r seen ≡ true
    → In r (set_refs seen)
unfolding set_refs lookup
set_refs-In [] r s e = cc
set_refs-In ((q, u) ∷ seen) r s e = elim (Bool-cases (OpRef.is_set q)) [
  | inl t ↦ subst (In r) (sym (set_refs_set q u seen t)) (elim (OpRef_discrete q r) [
    | yes p ↦ here (sym p)
    | no n ↦ there (set_refs-In seen r s (sym (has-cons_other q r u seen n) ∙ e))
  ])
  | inr t ↦ subst (In r) (sym (set_refs_unset q u seen t)) (elim (OpRef_discrete q r) [
    | yes p ↦ absurd (true-false (sym s ∙ sym (ap OpRef.is_set p) ∙ t))
    | no n ↦ set_refs-In seen r s (sym (has-cons_other q r u seen n) ∙ e)
  ])
]

pub In-set_refs :
    (seen : RefSet) (r : OpRef) → In r (set_refs seen) → has OpRef_discrete r seen ≡ true
unfolding set_refs lookup
In-set_refs [] r m = absurd (In-nil m)
In-set_refs ((q, u) ∷ seen) r m = elim (OpRef_discrete q r) [
  | yes p ↦ has-cons_same q r u seen p
  | no n ↦
      has-cons_other q r u seen n
      ∙ In-set_refs seen r (elim (Bool-cases (OpRef.is_set q)) [
        | inl t ↦ elim (In-cons (subst (In r) (set_refs_set q u seen t) m)) [
          | inl p ↦ absurd (n (sym p))
          | inr k ↦ k
        ]
        | inr t ↦ subst (In r) (set_refs_unset q u seen t) m
      ])
]

see_base-cases :
    (b : Bool) (r : OpRef)
    → has OpRef_discrete r (see_base b) ≡ true
    → (b ≡ true) × (OpRef.zero_ref ≡ r)
unfolding lookup insert
see_base-cases false r e = absurd (true-false (sym e))
see_base-cases true r e = elim (OpRef_discrete OpRef.zero_ref r) [
  | yes p ↦ (refl, p)
  | no n ↦ absurd (true-false (sym e ∙ has-cons_other OpRef.zero_ref r tt [] n))
]

-- What the restored set has before the list of seen generations is entered.
pub see_gen-cases :
    (g : Option OpRef) (b : Bool) (r : OpRef)
    → has OpRef_discrete r (see_gen g (see_base b)) ≡ true
    → (g ≡ some r) ⊎ ((b ≡ true) × (OpRef.zero_ref ≡ r))
see_gen-cases none b r e = inr (see_base-cases b r e)
see_gen-cases (some g) b r e = elim (OpRef_discrete g r) [
  | yes p ↦ inl (ap some p)
  | no n ↦
      inr (
        see_base-cases b r (ground (arith, n, e, lookup-insert OpRef_discrete g r tt (see_base b))))
]

pub base_seen :
    (g : Option OpRef) → has OpRef_discrete OpRef.zero_ref (see_gen g (see_base true)) ≡ true
unfolding lookup insert
base_seen none = has-cons_same OpRef.zero_ref OpRef.zero_ref tt [] refl
base_seen (some g) = ground (
  arith,
  has-cons_same OpRef.zero_ref OpRef.zero_ref tt [] refl,
  lookup-insert OpRef_discrete g OpRef.zero_ref tt (see_base true),
)
