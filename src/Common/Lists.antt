-- ===== src/Common/Lists.antt =====
-- Lists measured and indexed by native numbers, under the library's names.
use Prim.Native.Nat.{ℕ, zero, suc, ◌+◌}
use mathlib.Core.Path.{◌≡◌, refl}
use mathlib.Core.Logic.{◌⊎◌, inl, inr}
use mathlib.Core.Bool.{Bool, true, false}
use geo_crdt.Common.Tests.{if◌then◌else◌}
use mathlib.Core.List.{List, [], ◌∷◌, ◌++◌}
use mathlib.Core.Option.{Option, none, some}
use native.Mathlib.Omega.{arith}

module _ {ℓ} {A : Type ℓ} where
  abbrev pub length : List A → ℕ
  length [] = 0
  length (x ∷ xs) = suc (length xs)

  abbrev pub get_elem? : List A → ℕ → Option A
  get_elem? [] i = none
  get_elem? (x ∷ xs) zero = some x
  get_elem? (x ∷ xs) (suc i) = get_elem? xs i

  -- `append(l, nil); copy(l[at+1:], l[at:]); l[at] = x`
  abbrev pub insert_at : List A → ℕ → A → List A
  insert_at [] i x = x ∷ []
  insert_at (y ∷ ys) zero x = x ∷ y ∷ ys
  insert_at (y ∷ ys) (suc i) x = y ∷ insert_at ys i x

  pub length-append : (xs ys : List A) → length (xs ++ ys) ≡ length xs + length ys
  length-append [] ys = omega arith
  length-append (x ∷ xs) ys = omega (arith, length-append xs ys)

-- A predicate at every element, by recursion.
abbrev pub All {ℓ κ} : {A : Type ℓ} → (A → Type κ) → List A → Type κ
All P [] = Unit
All P (x ∷ xs) = P x × All P xs

pub List-cases {ℓ} : {A : Type ℓ} (l : List A) → (l ≡ []) ⊎ ((x : A) × (xs : List A) × (l ≡ x ∷ xs))
List-cases [] = inl refl
List-cases (x ∷ xs) = inr (x, xs, refl)

-- `sort.SliceStable`: the one arrangement in which nothing is less than what stands before it and
-- what is not told apart keeps its order.
unfoldable pub place {ℓ} : {A : Type ℓ} → (A → A → Bool) → A → List A → List A
place less x [] = x ∷ []
place less x (y ∷ ys) = let rest = place less x ys in if less y x then y ∷ rest else x ∷ y ∷ ys

unfoldable pub sort_stable {ℓ} : {A : Type ℓ} → (A → A → Bool) → List A → List A
unfolding place
sort_stable less [] = []
sort_stable less (x ∷ xs) = place less x (sort_stable less xs)

All-if {ℓ κ} :
    {A : Type ℓ} (P : A → Type κ) (b : Bool) (k l : List A)
    → All P k
    → All P l
    → All P (if b then k else l)
All-if P true k l h g = h
All-if P false k l h g = g

pub place-All {ℓ κ} :
    {A : Type ℓ} (P : A → Type κ) (less : A → A → Bool) (x : A) (l : List A)
    → P x
    → All P l
    → All P (place less x l)
unfolding place
place-All P less x [] p a = (p, tt)
place-All P less x (y ∷ ys) p a = All-if P (less y x) _ _ (a.0, place-All P less x ys p a.1) (p, a)

pub sort_stable-All {ℓ κ} :
    {A : Type ℓ} (P : A → Type κ) (less : A → A → Bool) (l : List A)
    → All P l
    → All P (sort_stable less l)
unfolding sort_stable
sort_stable-All P less [] a = tt
sort_stable-All P less (x ∷ xs) a =
    place-All P less x (sort_stable less xs) a.0 (sort_stable-All P less xs a.1)

length-place {ℓ} :
    {A : Type ℓ} (less : A → A → Bool) (x : A) (l : List A)
    → length (place less x l) ≡ suc (length l)
unfolding place
length-place less x [] = refl
length-place less x (y ∷ ys) = ground (arith, length-place less x ys)

pub length-sort_stable {ℓ} :
    {A : Type ℓ} (less : A → A → Bool) (l : List A) → length (sort_stable less l) ≡ length l
unfolding sort_stable
length-sort_stable less [] = refl
length-sort_stable less (x ∷ xs) =
    omega (arith, length-place less x (sort_stable less xs), length-sort_stable less xs)

pub All-map {ℓ κ μ} :
    {A : Type ℓ} (P : A → Type κ) (Q : A → Type μ)
    → ((x : A) → P x → Q x)
    → (l : List A) → All P l
    → All Q l
All-map P Q f [] a = tt
All-map P Q f (x ∷ xs) a = (f x a.0, All-map P Q f xs a.1)

pub All-append {ℓ κ} :
    {A : Type ℓ} (P : A → Type κ) (xs ys : List A) → All P xs → All P ys → All P (xs ++ ys)
All-append P [] ys a b = b
All-append P (x ∷ xs) ys a b = (a.0, All-append P xs ys a.1 b)

pub append-All {ℓ κ} :
    {A : Type ℓ} (P : A → Type κ) (xs ys : List A) → All P (xs ++ ys) → All P xs × All P ys
append-All P [] ys a = (tt, a)
append-All P (x ∷ xs) ys a = let (left, right) = append-All P xs ys a.1 in ((a.0, left), right)
