-- ===== src/Document/Collection/Entered.antt =====
-- The document that a feature collection makes.
use geo_crdt.Common.{
  String, true, Option, some, List, [], ◌∷◌, Map, lookup, insert, lookup-insert, ◌≡◌, ◌≢◌, refl,
  sym, ap, ◌∙◌, subst, arith, All, All-map,
}
use geo_crdt.Common.Texts.{String_discrete}
use geo_crdt.Errors.{ok, bind_ok, ok_inj}
use geo_crdt.Json.{Raw}
use geo_crdt.Geometry.State.{GeometryState}
use geo_crdt.Document.State.{FeatureState, Document, visible}
use geo_crdt.Document.Base.{BaseFeature, CanonicalBase, base_state, compute_base_hash}
use geo_crdt.Document.New.{Fresh, new_document}
use geo_crdt.Document.Collection.{
  parse_feature_collection, base_geometry, enter_features, new_document_from_feature_collection,
}
use geo_crdt.Document.Collection.Distinct.{HaveDistinctIds, parse_feature_collection-distinct}

-- The table has the feature's state, with its parsed geometry.
abbrev IsEntered : Map String FeatureState → BaseFeature → Type 0
IsEntered m f =
    (g : Option GeometryState) × (base_geometry f.geometry ≡ ok g)
    × (lookup String_discrete f.id m ≡ some (base_state f g))

enter_features-other :
    (m m' : Map String FeatureState) (fs : List BaseFeature) (k : String)
    → enter_features m fs ≡ ok m'
    → All (λ (f : BaseFeature). k ≢ f.id) fs
    → lookup String_discrete k m' ≡ lookup String_discrete k m
unfolding enter_features
enter_features-other m m' [] k e a = ap (lookup String_discrete k) (sym (ok_inj e))
enter_features-other m m' (f ∷ fs) k e a =
    let (g, _, e1) = bind_ok (base_geometry f.geometry) _ m' e in
    enter_features-other (insert String_discrete f.id (base_state f g) m) m' fs k e1 a.1
    ∙ ground (arith, a.0, lookup-insert String_discrete f.id k (base_state f g) m)

enter_features-IsEntered :
    (m m' : Map String FeatureState) (fs : List BaseFeature)
    → enter_features m fs ≡ ok m'
    → HaveDistinctIds fs
    → All (IsEntered m') fs
unfolding enter_features
enter_features-IsEntered m m' [] e a = tt
enter_features-IsEntered m m' (f ∷ fs) e a =
    let (g, p, e1) = bind_ok (base_geometry f.geometry) _ m' e in
    let next = insert String_discrete f.id (base_state f g) m in
    (
      (
        g,
        p,
        enter_features-other next m' fs f.id e1 a.0
            ∙ ground (arith, lookup-insert String_discrete f.id f.id (base_state f g) m),
      ),
      enter_features-IsEntered next m' fs e1 a.1,
    )

base_state-visible : (f : BaseFeature) (g : Option GeometryState) → visible (base_state f g) ≡ true
unfolding visible base_state String_discrete
base_state-visible f g = refl

-- The document has the feature under its ID: a base feature, with the geometry that its text
-- parses to, and visible.
abbrev pub Has : Document → BaseFeature → Type 0
Has d f =
    (g : Option GeometryState) × (base_geometry f.geometry ≡ ok g)
    × (lookup String_discrete f.id d.features ≡ some (base_state f g))
    × (visible (base_state f g) ≡ true)

-- A document is only made from text that parses as a feature collection. It has every feature of the
-- collection under its ID, with the geometry that its text parses to, and all are visible; its hash
-- is that of its ID and these features.
pub new_document_from_feature_collection-Has :
    (base_digest : CanonicalBase → String) (fresh : Fresh) (document_id site_id : String)
    (raw : Raw) (d : Document)
    → new_document_from_feature_collection base_digest fresh document_id site_id raw ≡ ok d
    → (fs : List BaseFeature) × (parse_feature_collection raw ≡ ok fs)
      × All (Has d) fs
      × (d.base_hash ≡ compute_base_hash base_digest d.document_id fs)
unfolding new_document_from_feature_collection
new_document_from_feature_collection-Has base_digest fresh document_id site_id raw d e =
    let (fs, p, e1) = bind_ok (parse_feature_collection raw) _ d e in
    let doc = new_document base_digest fresh document_id site_id in
    let (m, q, e2) = bind_ok (enter_features doc.features fs) _ d e1 in
    let entered =
      enter_features-IsEntered doc.features m fs q (parse_feature_collection-distinct raw fs p) in
    let made : Document = record doc {
      features = m;
      base_hash = compute_base_hash base_digest doc.document_id fs;
    } in
    let found =
      All-map (IsEntered m) (Has made) (λ f h. (h.0, h.1, h.2, base_state-visible f h.0)) fs
        entered in
    subst
      (λ (x : Document).
        (fs : List BaseFeature) × (parse_feature_collection raw ≡ ok fs)
        × All (Has x) fs
        × (x.base_hash ≡ compute_base_hash base_digest x.document_id fs))
      (ok_inj e2) (fs, p, found, refl)
