-- ===== src/Common/Sorted.antt =====
-- What `sort.SliceStable` makes of a list: the same elements, in order.
use mathlib.Core.Path.{◌≡◌, refl, sym, subst}
use mathlib.Core.Bool.{Bool, true, false}
use mathlib.Core.Logic.{◌⊎◌, inl, inr}
use mathlib.Core.List.{List, [], ◌∷◌}
use geo_crdt.Common.Tests.{Bool-cases}
use geo_crdt.Common.Lists.{All, place, sort_stable, place-All, All-map}

-- The element stands in the list.
pub data In {ℓ} {A : Type ℓ} (x : A) : List A → Type ℓ where
  here : {y : A} {ys : List A} → x ≡ y → In x (y ∷ ys)
  there : {y : A} {ys : List A} → In x ys → In x (y ∷ ys)

pub In-nil {ℓ} : {A : Type ℓ} {x : A} → In x [] → ⊥
In-nil m = elim m [ ]

pub In-cons {ℓ} : {A : Type ℓ} {x y : A} {ys : List A} → In x (y ∷ ys) → (x ≡ y) ⊎ In x ys
In-cons (here e) = inl e
In-cons (there m) = inr m

-- Nothing is less than what stands before it.
abbrev pub IsSorted {ℓ} : {A : Type ℓ} → (A → A → Bool) → List A → Type ℓ
IsSorted less [] = Unit
IsSorted less (x ∷ xs) = All (λ y. less y x ≡ false) xs × IsSorted less xs

module _ {ℓ} {A : Type ℓ} (less : A → A → Bool) where
  -- Not being less goes through a third element.
  abbrev pub IsWeak : Type ℓ
  IsWeak = (x y z : A) → less y x ≡ false → less z y ≡ false → less z x ≡ false

  abbrev pub IsAsym : Type ℓ
  IsAsym = (x y : A) → less y x ≡ true → less x y ≡ false

  place-IsSorted :
      IsWeak → IsAsym → (x : A) (l : List A) → IsSorted less l → IsSorted less (place less x l)
  unfolding place
  place-IsSorted w a x [] s = (tt, tt)
  place-IsSorted w a x (y ∷ ys) s = elim (Bool-cases (less y x)) [
    | inl e ↦
        rw (e)
          (place-All (λ z. less z y ≡ false) less x ys (a x y e) s.0, place-IsSorted w a x ys s.1)
    | inr e ↦
        rw (e)
          ((e, All-map (λ z. less z y ≡ false) (λ z. less z x ≡ false) (λ z. w x y z e) ys s.0), s)
  ]

  pub sort_stable-IsSorted : IsWeak → IsAsym → (l : List A) → IsSorted less (sort_stable less l)
  unfolding sort_stable
  sort_stable-IsSorted w a [] = tt
  sort_stable-IsSorted w a (x ∷ xs) =
      place-IsSorted w a x (sort_stable less xs) (sort_stable-IsSorted w a xs)

  place_after :
      (x y : A) (ys : List A) → less y x ≡ true → place less x (y ∷ ys) ≡ y ∷ place less x ys
  unfolding place
  place_after x y ys e = rw e

  place_here : (x y : A) (ys : List A) → less y x ≡ false → place less x (y ∷ ys) ≡ x ∷ y ∷ ys
  unfolding place
  place_here x y ys e = rw e

  place-In : (x z : A) (l : List A) → (z ≡ x) ⊎ In z l → In z (place less x l)
  unfolding place
  place-In x z [] (inl p) = here p
  place-In x z [] (inr m) = absurd (In-nil m)
  place-In x z (y ∷ ys) m = elim (Bool-cases (less y x)) [
    | inl e ↦ subst (In z) (sym (place_after x y ys e)) (elim m [
      | inl p ↦ there (place-In x z ys (inl p))
      | inr n ↦ elim (In-cons n) [ inl p ↦ here p | inr k ↦ there (place-In x z ys (inr k)) ]
    ])
    | inr e ↦ subst (In z) (sym (place_here x y ys e)) (elim m [ inl p ↦ here p | inr n ↦ there n ])
  ]

  In-place : (x z : A) (l : List A) → In z (place less x l) → (z ≡ x) ⊎ In z l
  unfolding place
  In-place x z [] m = In-cons m
  In-place x z (y ∷ ys) m = elim (Bool-cases (less y x)) [
    | inl e ↦ elim (In-cons (subst (In z) (place_after x y ys e) m)) [
      | inl p ↦ inr (here p)
      | inr n ↦ elim (In-place x z ys n) [ inl p ↦ inl p | inr k ↦ inr (there k) ]
    ]
    | inr e ↦ In-cons (subst (In z) (place_here x y ys e) m)
  ]

  pub sort_stable-In : (z : A) (l : List A) → In z l → In z (sort_stable less l)
  unfolding sort_stable
  sort_stable-In z [] m = m
  sort_stable-In z (x ∷ xs) m =
      place-In x z (sort_stable less xs)
        (elim (In-cons m) [ inl e ↦ inl e | inr n ↦ inr (sort_stable-In z xs n) ])

  pub In-sort_stable : (z : A) (l : List A) → In z (sort_stable less l) → In z l
  unfolding sort_stable
  In-sort_stable z [] m = m
  In-sort_stable z (x ∷ xs) m = elim (In-place x z (sort_stable less xs) m) [
    | inl e ↦ here e
    | inr n ↦ there (In-sort_stable z xs n)
  ]

pub All-In {ℓ κ} : {A : Type ℓ} (P : A → Type κ) (l : List A) → All P l → (x : A) → In x l → P x
All-In P [] a x m = absurd (In-nil m)
All-In P (y ∷ ys) a x m = elim (In-cons m) [
  | inl e ↦ subst P (sym e) a.0
  | inr n ↦ All-In P ys a.1 x n
]

pub In-All {ℓ κ} : {A : Type ℓ} (P : A → Type κ) (l : List A) → ((x : A) → In x l → P x) → All P l
In-All P [] f = tt
In-All P (y ∷ ys) f = (f y (here refl), In-All P ys (λ x m. f x (there m)))
