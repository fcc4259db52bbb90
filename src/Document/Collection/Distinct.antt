-- ===== src/Document/Collection/Distinct.antt =====
-- The IDs of a parsed feature collection.
use geo_crdt.Common.{
  ℕ, suc, String, false, not, none, some, List, [], ◌∷◌, Map, insert, has, lookup-insert, ◌≡◌, ◌≢◌,
  sym, ◌∙◌, subst, arith, All, All-map, Option-cases, inl, inr,
}
use geo_crdt.Common.Texts.{text_eq, String_discrete}
use geo_crdt.Errors.{ok, bind_ok, ok_inj, refuse_if-ok, invalid_geometry, refuse_if, ◌>>◌}
use geo_crdt.Json.{Raw, unmarshal}
use geo_crdt.Document.Base.{BaseFeature}
use geo_crdt.Document.Collection.{
  WireFeature, WireCollection, decode_collection, parse_feature_id, parse_features,
  parse_feature_collection,
}

-- No two features share an ID.
abbrev pub HaveDistinctIds : List BaseFeature → Type 0
HaveDistinctIds [] = Unit
HaveDistinctIds (f ∷ fs) = All (λ (g : BaseFeature). f.id ≢ g.id) fs × HaveDistinctIds fs

-- The feature's ID was not seen before.
abbrev IsFresh : Map String (Unit {0}) → BaseFeature → Type 0
IsFresh seen f = has String_discrete f.id seen ≡ false

IsFresh-before :
    (id : String) (seen : Map String (Unit {0})) (f : BaseFeature)
    → has String_discrete id seen ≡ false
    → IsFresh (insert String_discrete id tt seen) f
    → (id ≢ f.id) × IsFresh seen f
IsFresh-before id seen f new h = (
  λ e. ground (arith, e, h, lookup-insert String_discrete id f.id tt seen),
  ground (arith, new, h, lookup-insert String_discrete id f.id tt seen),
)

parse_features-distinct :
    (seen : Map String (Unit {0})) (index : ℕ) (ws : List WireFeature) (fs : List BaseFeature)
    → parse_features seen index ws ≡ ok fs
    → HaveDistinctIds fs × All (IsFresh seen) fs
unfolding parse_features
parse_features-distinct seen index [] fs e =
    subst (λ l. HaveDistinctIds l × All (IsFresh seen) l) (ok_inj e) (tt, tt)
parse_features-distinct seen index (w ∷ ws) fs e =
    let (_, e1) = refuse_if-ok (not (text_eq w.type_name "Feature")) invalid_geometry _ fs e in
    let (id, _, e2) = bind_ok (parse_feature_id w.id index) _ fs e1 in
    let (new, e3) = refuse_if-ok (has String_discrete id seen) invalid_geometry _ fs e2 in
    let (rest, p, e4) =
      bind_ok (parse_features (insert String_discrete id tt seen) (suc index) ws) _ fs e3 in
    let (distinct, fresh) =
      parse_features-distinct (insert String_discrete id tt seen) (suc index) ws rest p in
    let both =
      All-map (IsFresh (insert String_discrete id tt seen))
        (λ (g : BaseFeature). (id ≢ g.id) × IsFresh seen g) (λ g h. IsFresh-before id seen g new h)
        rest fresh in
    subst (λ l. HaveDistinctIds l × All (IsFresh seen) l) (ok_inj e4)
      (
        (All-map _ (λ (g : BaseFeature). id ≢ g.id) (λ g h. h.0) rest both, distinct),
        (new, All-map _ (IsFresh seen) (λ g h. h.1) rest both),
      )

rejected :
    (raw : Raw) (fs : List BaseFeature)
    → unmarshal decode_collection raw ≡ none
    → ¬ (parse_feature_collection raw ≡ ok fs)
unfolding parse_feature_collection
rejected raw fs n e = ground (arith, n, e)

parsed :
    (raw : Raw) (c : WireCollection)
    → unmarshal decode_collection raw ≡ some c
    → parse_feature_collection raw ≡ (
        refuse_if (not (text_eq c.type_name "FeatureCollection")) invalid_geometry
        >> parse_features [] 0 c.features)
unfolding parse_feature_collection
parsed raw c s = rw (parse_feature_collection, s)

-- The features of a parsed collection have distinct IDs, those that the loop assigns by position
-- included.
pub parse_feature_collection-distinct :
    (raw : Raw) (fs : List BaseFeature) → parse_feature_collection raw ≡ ok fs → HaveDistinctIds fs
unfolding parse_feature_collection
parse_feature_collection-distinct raw fs e = elim (Option-cases (unmarshal decode_collection raw)) [
  | inl n ↦ absurd (rejected raw fs n e)
  | inr (c, s) ↦
      let (_, p) =
        refuse_if-ok (not (text_eq c.type_name "FeatureCollection")) invalid_geometry
          (parse_features [] 0 c.features) fs (sym (parsed raw c s) ∙ e) in
      (parse_features-distinct [] 0 c.features fs p).0
]
