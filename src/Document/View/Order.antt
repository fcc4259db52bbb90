-- ===== src/Document/View/Order.antt =====
-- Which features a document lists, and in which order.
use geo_crdt.Common.{
  String, ap, ◌∙◌, arith, true, false, [], ◌∷◌, Map, ◌≡◌, sym, subst, Bool-cases, ◌↔◌, inl, inr,
}
use geo_crdt.Common.Texts.{text_lt, text_lt_irrefl, text_lt_trans, text_lt_total}
use geo_crdt.Common.Sorted.{
  In, here, there, In-nil, In-cons, IsSorted, IsWeak, IsAsym, sort_stable-In, In-sort_stable,
  sort_stable-IsSorted,
}
use geo_crdt.Document.State.{FeatureState, Document, visible}
use geo_crdt.Document.View.{visible_ids, feature_ids}

-- The document holds a visible feature under the ID.
abbrev pub IsListed : Map String FeatureState → String → Type 0
IsListed m id = (f : FeatureState) × In (id, f) m × (visible f ≡ true)

shown :
    (k : String) (f : FeatureState) (m : Map String FeatureState)
    → visible f ≡ true
    → visible_ids ((k, f) ∷ m) ≡ k ∷ visible_ids m
unfolding visible_ids
shown k f m e = rw e

hidden :
    (k : String) (f : FeatureState) (m : Map String FeatureState)
    → visible f ≡ false
    → visible_ids ((k, f) ∷ m) ≡ visible_ids m
unfolding visible_ids
hidden k f m e = rw e

text_lt-IsWeak : IsWeak text_lt
text_lt-IsWeak x y z p q = ground (
  arith,
  text_lt_total z y,
  text_lt_total y x,
  text_lt_trans x y z,
  text_lt_trans x z x,
  text_lt_trans y z y,
  text_lt_irrefl x,
  text_lt_irrefl y,
)

text_lt-IsAsym : IsAsym text_lt
text_lt-IsAsym x y p = ground (arith, p, text_lt_trans x y x, text_lt_irrefl x)

visible_ids-IsListed :
    (m : Map String FeatureState) (id : String) → In id (visible_ids m) → IsListed m id
unfolding visible_ids
visible_ids-IsListed [] id h = absurd (In-nil h)
visible_ids-IsListed ((k, f) ∷ m) id h = elim (Bool-cases (visible f)) [
  | inl e ↦ elim (In-cons (subst (In id) (shown k f m e) h)) [
    | inl p ↦ (f, here (ap (λ (i : String). (i, f)) p), e)
    | inr n ↦ let (g, q, v) = visible_ids-IsListed m id n in (g, there q, v)
  ]
  | inr e ↦
      let (g, q, v) = visible_ids-IsListed m id (subst (In id) (hidden k f m e) h) in
      (g, there q, v)
]

IsListed-visible_ids :
    (m : Map String FeatureState) (id : String) → IsListed m id → In id (visible_ids m)
unfolding visible_ids
IsListed-visible_ids [] id (f, q, v) = absurd (In-nil q)
IsListed-visible_ids ((k, f) ∷ m) id (g, q, v) = elim (In-cons q) [
  | inl p ↦
      let shows : visible f ≡ true = ap (λ (e : String × FeatureState). visible e.1) (sym p) ∙ v in
      subst (In id) (sym (shown k f m shows)) (here (ap (λ (e : String × FeatureState). e.0) p))
  | inr n ↦
      let rest = IsListed-visible_ids m id (g, n, v) in
      elim (Bool-cases (visible f)) [
        | inl e ↦ subst (In id) (sym (shown k f m e)) (there rest)
        | inr e ↦ subst (In id) (sym (hidden k f m e)) rest
      ]
]

-- A document lists exactly the IDs that it holds a visible feature under, in the order of the IDs.
pub feature_ids_lem :
    (d : Document)
    → IsSorted text_lt (feature_ids d)
      × ((id : String) → In id (feature_ids d) ↔ IsListed d.features id)
unfolding feature_ids
feature_ids_lem d = (
  sort_stable-IsSorted text_lt text_lt-IsWeak text_lt-IsAsym (visible_ids d.features),
  λ id. (
    λ h. visible_ids-IsListed d.features id (In-sort_stable text_lt id (visible_ids d.features) h),
    λ h. sort_stable-In text_lt id (visible_ids d.features) (IsListed-visible_ids d.features id h),
  ),
)
