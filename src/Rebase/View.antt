-- ===== src/Rebase/View.antt =====
-- What a rebase leaves visible.
use geo_crdt.Common.{
  String, true, false, Option, none, some, List, [], ◌∷◌, Map, lookup, IsMap, All, ◌≡◌, refl, sym,
  ap, ◌∙◌, subst, fun_ext, arith, if◌then◌else◌, Bool-cases, Option-cases, inl, inr,
}
use geo_crdt.Common.Texts.{String_discrete}
use geo_crdt.Common.Decimal.{trim_space}
use geo_crdt.Errors.{ok, rebase_unsafe, bind_ok, ok_inj, check_ok, rewrap, ◌>>=◌}
use geo_crdt.Json.{Raw}
use geo_crdt.Clock.Stamp
use geo_crdt.Clock.Vector.{VectorClock}
use geo_crdt.Geometry.State.{GeoJson, GeometryState}
use geo_crdt.Geometry.Parse.{new_geometry_state}
use geo_crdt.Document.State.{PropertyState, FeatureState, Document, visible}
use geo_crdt.Document.Base.{BaseFeature, CanonicalBase, base_properties, base_state}
use geo_crdt.Rebase.{
  RebaseReceipt, check_rebase, live_properties, to_base, rebase_feature, rebase_state, next_epoch,
  rebase,
}

-- The value of a property that is not deleted.
abbrev pub live_value : Map String PropertyState → String → Option Raw
live_value m key = elim (lookup String_discrete key m) [
  | none ↦ none
  | some p ↦ if p.deleted then none else some p.value
]

-- The live properties of a visible feature, none where no feature is visible under the ID.
abbrev pub view : Map String FeatureState → String → Option (String → Option Raw)
view m id = elim (lookup String_discrete id m) [
  | none ↦ none
  | some f ↦ if visible f then some (live_value f.properties) else none
]

-- The keys of a document's maps are distinct, as they are in Go.
abbrev pub AreMaps : Map String FeatureState → Type 0
AreMaps m =
    IsMap String_discrete m
    × All (λ (e : String × FeatureState). IsMap String_discrete e.1.properties) m

live_value-base_properties :
    (m : Map String PropertyState) (key : String)
    → IsMap String_discrete m
    → live_value (base_properties (live_properties m)) key ≡ live_value m key
unfolding live_properties base_properties lookup
live_value-base_properties [] key h = refl
live_value-base_properties ((k, p) ∷ m) key h = ground (
  arith,
  h,
  live_value-base_properties m key h.1,
  ap (λ x. lookup String_discrete x m) {x = k} {y = key},
)

base_state-visible :
    (base : BaseFeature) (g : Option GeometryState) → visible (base_state base g) ≡ true
unfolding visible base_state Stamp.is_set String_discrete
base_state-visible base g = refl

-- The two lookups of a map with one more entry.
view_here :
    (k id : String) (f : FeatureState) (m : Map String FeatureState)
    → k ≡ id
    → view ((k, f) ∷ m) id ≡ (if visible f then some (live_value f.properties) else none)
unfolding lookup
view_here k id f m e = ground (arith, e)

view_there :
    (k id : String) (f : FeatureState) (m : Map String FeatureState)
    → ¬ (k ≡ id)
    → view ((k, f) ∷ m) id ≡ view m id
unfolding lookup
view_there k id f m n = ground (arith, n)

view_missing :
    (id : String) (m : Map String FeatureState)
    → lookup String_discrete id m ≡ none
    → view m id ≡ none
view_missing id m e = ground (arith, e)

view-hidden :
    (k id : String) (f : FeatureState) (m : Map String FeatureState)
    → visible f ≡ false
    → lookup String_discrete k m ≡ none
    → view m id ≡ view ((k, f) ∷ m) id
view-hidden k id f m v free = elim (String_discrete k id) [
  | no n ↦ sym (view_there k id f m n)
  | yes e ↦
      view_missing id m (subst (λ x. lookup String_discrete x m ≡ none) e free)
      ∙ sym (view_here k id f m e ∙ rw v refl)
]

module _ (encode : GeoJson → Raw) where
  -- The state of a rebased feature shows the live properties of the feature.
  abbrev Shows : FeatureState → FeatureState → Type 0
  Shows f s = (visible s ≡ true) × (live_value s.properties ≡ live_value f.properties)

  rebase_feature-none :
      (base : BaseFeature)
      → base.geometry ≡ none
      → rebase_feature encode base ≡ ok (base_state base none)
  unfolding rebase_feature
  rebase_feature-none base e = rw (rebase_feature, e) refl

  rebase_feature-some :
      (base : BaseFeature) (raw : Raw)
      → base.geometry ≡ some raw
      → rebase_feature encode base
        ≡ (rewrap rebase_unsafe (new_geometry_state raw) >>= λ g. ok (base_state base (some g)))
  unfolding rebase_feature
  rebase_feature-some base raw e = rw (rebase_feature, e) refl

  rebase_feature-state :
      (base : BaseFeature) (s : FeatureState)
      → rebase_feature encode base ≡ ok s
      → (g : Option GeometryState) × (base_state base g ≡ s)
  rebase_feature-state base s e = elim (Option-cases base.geometry) [
    | inl n ↦ (none, ok_inj (sym (rebase_feature-none base n) ∙ e))
    | inr (raw, h) ↦
        let (g, _, e1) =
          bind_ok (rewrap rebase_unsafe (new_geometry_state raw)) _ s
            (sym (rebase_feature-some base raw h) ∙ e) in
        (some g, ok_inj e1)
  ]

  rebase_feature-Shows :
      (id : String) (f s : FeatureState)
      → IsMap String_discrete f.properties
      → rebase_feature encode (to_base encode id f) ≡ ok s
      → Shows f s
  unfolding to_base base_state
  rebase_feature-Shows id f s h e =
      let (g, same) = rebase_feature-state (to_base encode id f) s e in
      subst (Shows f) same (
        base_state-visible (to_base encode id f) g,
        fun_ext (λ key. live_value-base_properties f.properties key h),
      )

  rebase_state_hidden :
      (id : String) (f : FeatureState) (m : Map String FeatureState)
      → visible f ≡ false
      → rebase_state encode ((id, f) ∷ m) ≡ rebase_state encode m
  unfolding rebase_state
  rebase_state_hidden id f m e = rw (rebase_state, e) refl

  rebase_state_shown :
      (id : String) (f : FeatureState) (m : Map String FeatureState)
      → visible f ≡ true
      → rebase_state encode ((id, f) ∷ m) ≡ (do
        state ← rebase_feature encode (to_base encode id f)
        (bases, replacement) ← rebase_state encode m
        ok (to_base encode id f ∷ bases, (id, state) ∷ replacement))
  unfolding rebase_state
  rebase_state_shown id f m e = rw (rebase_state, e) refl

  view-shown :
      (k id : String) (f s : FeatureState) (m n : Map String FeatureState)
      → visible f ≡ true
      → Shows f s
      → view n id ≡ view m id
      → view ((k, s) ∷ n) id ≡ view ((k, f) ∷ m) id
  view-shown k id f s m n v shows same = elim (String_discrete k id) [
    | yes e ↦ view_here k id s n e ∙ rw (shows.0, v) (ap some shows.1) ∙ sym (view_here k id f m e)
    | no d ↦ view_there k id s n d ∙ same ∙ sym (view_there k id f m d)
  ]

  rebase_state-view :
      (m : Map String FeatureState) (r : List BaseFeature × Map String FeatureState)
      → AreMaps m
      → rebase_state encode m ≡ ok r
      → (id : String) → view r.1 id ≡ view m id
  unfolding rebase_state lookup
  rebase_state-view [] r h e id =
      subst (λ (x : List BaseFeature × Map String FeatureState). view x.1 id ≡ none) (ok_inj e) refl
  rebase_state-view ((k, f) ∷ m) r h e id = elim (Bool-cases (visible f)) [
    | inr v ↦
        rebase_state-view m r (h.0.1, h.1.1) (sym (rebase_state_hidden k f m v) ∙ e) id
        ∙ view-hidden k id f m v h.0.0
    | inl v ↦
        let (s, shown, e1) =
          bind_ok (rebase_feature encode (to_base encode k f)) _ r
            (sym (rebase_state_shown k f m v) ∙ e) in
        let (q, rest, e2) = bind_ok (rebase_state encode m) _ r e1 in
        subst
          (λ (x : List BaseFeature × Map String FeatureState). view x.1 id ≡ view ((k, f) ∷ m) id)
          (ok_inj e2)
          (view-shown k id f s m q.1 v (rebase_feature-Shows k f s h.1.0 shown)
            (rebase_state-view m q (h.0.1, h.1.1) rest id))
  ]

  module _ (base_digest : CanonicalBase → String) where
    -- After a rebase the same features are visible with the same live properties, in a document
    -- whose log is empty and whose counters start again, where the maps have distinct keys.
    pub rebase-view :
        (d d' : Document) (document_id snapshot_id : String) (stable_clock : VectorClock)
        (receipt : RebaseReceipt)
        → AreMaps d.features
        → rebase encode base_digest d document_id stable_clock snapshot_id ≡ ok (d', receipt)
        → ((id : String) → view d'.features id ≡ view d.features id)
          × (d'.ops ≡ [])
          × (d'.clock ≡ 0)
          × (d'.local_seq ≡ 0)
    unfolding rebase next_epoch
    rebase-view d d' document_id snapshot_id stable_clock receipt h e =
        let (_, e1) =
          check_ok (check_rebase d (trim_space document_id) stable_clock) _ (d', receipt) e in
        let (r, done, e2) = bind_ok (rebase_state encode d.features) _ (d', receipt) e1 in
        let same = ap (λ (x : Document × RebaseReceipt). x.0) (ok_inj e2) in
        (
          λ id.
              ap (λ (x : Document). view x.features id) (sym same)
              ∙ rebase_state-view d.features r h done id,
          ap (λ (x : Document). x.ops) (sym same),
          ap (λ (x : Document). x.clock) (sym same),
          ap (λ (x : Document). x.local_seq) (sym same),
        )
