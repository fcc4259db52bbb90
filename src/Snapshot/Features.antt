-- ===== src/Snapshot/Features.antt =====
-- A feature comes back from its snapshot.
use geo_crdt.Common.{
  String, true, false, Option, none, some, [], ◌∷◌, Map, has, ◌≡◌, ◌↔◌, refl, sym, ap, ap₂, ◌∙◌,
  subst, arith, if◌then◌else◌, Bool-cases, inl, inr, sort_stable,
}
use geo_crdt.Common.Sorted.{sort_stable-In, In-sort_stable}
use geo_crdt.Errors.{ok}
use geo_crdt.Clock.OpRef
use geo_crdt.Clock.OpRef.{OpRef, OpRef_discrete}
use geo_crdt.Clock.Stamp
use geo_crdt.Clock.Stamp.{Stamp}
use geo_crdt.Geometry.State.{GeometryState}
use geo_crdt.Document.State.{PropertyState, RefSet, FeatureState}
use geo_crdt.Snapshot.Take.{
  set_stamp, snapshot_optional, ref_less, set_refs, snapshot_property, snapshot_properties,
  snapshot_feature,
}
use geo_crdt.Snapshot.Restore.{
  stamp_or_zero, ref_or_zero, restore_property, restore_properties, see_all, see_base, see_gen,
  restore_optional, restore_feature,
}
use geo_crdt.Snapshot.Generations.{
  zero_ref_unset, see_all-In, In-see_all, set_refs-In, In-set_refs, see_gen-cases, base_seen,
}

zero_stamp_unset : (s : Stamp) → Stamp.is_set s ≡ false → Stamp.zero_stamp ≡ s
unfolding Stamp.is_set
zero_stamp_unset s e =
    let t : 0 ≡ s.timestamp = ground (arith, e) in
    let p : "" ≡ s.site_id = ground (arith, e) in
    let q : 0 ≡ s.seq = ground (arith, e) in
    λ i. record { timestamp = t i; site_id = p i; seq = q i }

stamp_or_zero-set_stamp : (s : Stamp) → stamp_or_zero (set_stamp s) ≡ s
unfolding set_stamp
stamp_or_zero-set_stamp s = elim (Bool-cases (Stamp.is_set s)) [
  | inl e ↦ rw e refl
  | inr e ↦ rw e (zero_stamp_unset s e)
]

restore-snapshot_properties :
    (m : Map String PropertyState) → restore_properties (snapshot_properties m) ≡ m
unfolding restore_properties snapshot_properties restore_property snapshot_property
restore-snapshot_properties [] = refl
restore-snapshot_properties ((key, p) ∷ m) =
    ap₂ (◌∷◌) (ap (λ reg. (key, record p { reg = reg })) (stamp_or_zero-set_stamp p.reg))
      (restore-snapshot_properties m)

-- What the operations keep true of a feature: a generation that is not set has no stamp, the
-- current generation was seen, and the base was seen exactly in a base feature.
pub record IsFeature (f : FeatureState) : Type 0 where
  pub unset : OpRef.is_set f.gen_id ≡ false → Stamp.zero_stamp ≡ f.gen_stamp
  pub seen : OpRef.is_set f.gen_id ≡ true → has OpRef_discrete f.gen_id f.seen_gens ≡ true
  pub base : has OpRef_discrete OpRef.zero_ref f.seen_gens ≡ f.is_base

-- `if state.genID.isSet()`
abbrev set_gen : FeatureState → Option OpRef
set_gen f = if OpRef.is_set f.gen_id then some f.gen_id else none

abbrev seen_again : FeatureState → RefSet
seen_again f =
    see_all (see_gen (set_gen f) (see_base f.is_base)) (sort_stable ref_less (set_refs f.seen_gens))

gen_id_again : (f : FeatureState) → ref_or_zero (set_gen f) ≡ f.gen_id
gen_id_again f = elim (Bool-cases (OpRef.is_set f.gen_id)) [
  | inl e ↦ rw e refl
  | inr e ↦ rw e (zero_ref_unset f.gen_id e)
]

gen_stamp_again :
    (f : FeatureState)
    → IsFeature f
    → Path Stamp
        (elim (set_gen f) [
          | none ↦ Stamp.zero_stamp
          | some _ ↦ stamp_or_zero (if OpRef.is_set f.gen_id then some f.gen_stamp else none)
        ])
        f.gen_stamp
gen_stamp_again f c = elim (Bool-cases (OpRef.is_set f.gen_id)) [
  | inl e ↦ rw (e, e) refl
  | inr e ↦ rw e (c.unset e)
]

set_gen-some :
    (f : FeatureState) (r : OpRef)
    → set_gen f ≡ some r
    → (OpRef.is_set f.gen_id ≡ true) × (f.gen_id ≡ r)
set_gen-some f r e = (ground (arith, e), ground (arith, e))

seen_before :
    (f : FeatureState) (r : OpRef)
    → IsFeature f
    → has OpRef_discrete r (see_gen (set_gen f) (see_base f.is_base)) ≡ true
    → has OpRef_discrete r f.seen_gens ≡ true
seen_before f r c e = elim (see_gen-cases (set_gen f) f.is_base r e) [
  | inl s ↦
      let (set, same) = set_gen-some f r s in
      subst (λ x. has OpRef_discrete x f.seen_gens ≡ true) same (c.seen set)
  | inr (b, same) ↦ subst (λ x. has OpRef_discrete x f.seen_gens ≡ true) same (c.base ∙ b)
]

-- A reference is in the restored set exactly when it was in the set.
seen_again-old :
    (f : FeatureState) (r : OpRef)
    → IsFeature f
    → has OpRef_discrete r (seen_again f) ≡ true
    → has OpRef_discrete r f.seen_gens ≡ true
seen_again-old f r c e =
    elim (In-see_all (see_gen (set_gen f) (see_base f.is_base))
      (sort_stable ref_less (set_refs f.seen_gens)) r e) [
        | inl h ↦ seen_before f r c h
        | inr m ↦ In-set_refs f.seen_gens r (In-sort_stable ref_less r (set_refs f.seen_gens) m)
      ]

old-seen_again :
    (f : FeatureState) (r : OpRef)
    → IsFeature f
    → has OpRef_discrete r f.seen_gens ≡ true
    → has OpRef_discrete r (seen_again f) ≡ true
old-seen_again f r c e =
    see_all-In (see_gen (set_gen f) (see_base f.is_base))
      (sort_stable ref_less (set_refs f.seen_gens)) r
      (elim (Bool-cases (OpRef.is_set r)) [
        | inl s ↦
            inr (sort_stable-In ref_less r (set_refs f.seen_gens) (set_refs-In f.seen_gens r s e))
        | inr s ↦
            let zero = zero_ref_unset r s in
            let based : f.is_base ≡ true =
              sym c.base ∙ subst (λ x. has OpRef_discrete x f.seen_gens ≡ true) (sym zero) e in
            inl (
              subst (λ x. has OpRef_discrete x (see_gen (set_gen f) (see_base f.is_base)) ≡ true)
                zero
                (subst
                  (λ b. has OpRef_discrete OpRef.zero_ref (see_gen (set_gen f) (see_base b)) ≡ true)
                  (sym based) (base_seen (set_gen f))))
      ])

restored_with :
    (f : FeatureState) (h : Option GeometryState)
    → IsFeature f
    → restore_optional (snapshot_optional f.geometry) ≡ ok h
    → restore_feature (snapshot_feature f)
      ≡ ok (record f { geometry = h; seen_gens = seen_again f })
unfolding restore_feature snapshot_feature
restored_with f h c e =
    rw (restore_feature, e)
      (λ i. ok (record {
        id = f.id;
        is_base = f.is_base;
        create_reg = stamp_or_zero-set_stamp f.create_reg i;
        delete_reg = stamp_or_zero-set_stamp f.delete_reg i;
        gen_id = gen_id_again f i;
        gen_stamp = gen_stamp_again f c i;
        geometry = h;
        seen_gens = seen_again f;
        properties = restore-snapshot_properties f.properties i;
      }))

-- A feature comes back from its snapshot with every register, property and tombstone, and with the
-- same generations in its seen set; its geometry is what the snapshot of the geometry restores to.
pub restore_feature-snapshot_feature :
    (f : FeatureState) (h : Option GeometryState)
    → IsFeature f
    → restore_optional (snapshot_optional f.geometry) ≡ ok h
    → (seen : RefSet) × (restore_feature (snapshot_feature f)
        ≡ ok (record f { geometry = h; seen_gens = seen }))
      × ((r : OpRef)
          → (has OpRef_discrete r seen ≡ true) ↔ (has OpRef_discrete r f.seen_gens ≡ true))
restore_feature-snapshot_feature f h c e =
    (seen_again f, restored_with f h c e, λ r. (seen_again-old f r c, old-seen_again f r c))
