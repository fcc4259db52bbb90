-- ===== src/Common/Maps.antt =====
-- A Go map as an association list. A later entry under the same key is never read; `delete` drops
-- every entry of the key.
use mathlib.Core.Path.{◌≡◌, refl, sym, ap}
use mathlib.Core.Bool.{Bool, true, false}
use mathlib.Core.Logic.{ite, if_pos, if_neg, ◌≢◌}
use mathlib.Core.Option.{Option, none, some}
use mathlib.Core.List.{List, [], ◌∷◌}
use native.Mathlib.Omega.{arith}
use Prim.Native.Nat.{◌≤◌, ◌<◌}
use geo_crdt.Common.Lists.{length}

abbrev pub Map {ℓ} : Type ℓ → Type ℓ → Type ℓ
Map K V = List (K × V)

module _ {ℓ} {K V : Type ℓ} (dec : Discrete K) where
  unfoldable pub lookup : K → Map K V → Option V
  lookup k [] = none
  lookup k ((j, v) ∷ m) = ite (dec j k) (some v) (lookup k m)

  unfoldable pub insert : K → V → Map K V → Map K V
  insert k v [] = (k, v) ∷ []
  insert k v ((j, w) ∷ m) = ite (dec j k) ((k, v) ∷ m) ((j, w) ∷ insert k v m)

  unfoldable pub erase : K → Map K V → Map K V
  erase k [] = []
  erase k ((j, w) ∷ m) = ite (dec j k) (erase k m) ((j, w) ∷ erase k m)

  pub lookup-insert :
      (k j : K) (v : V) (m : Map K V)
      → lookup j (insert k v m) ≡ ite (dec k j) (some v) (lookup j m)
  unfolding lookup insert
  lookup-insert k j v [] = refl
  lookup-insert k j v ((i, w) ∷ m) = ground (arith, lookup-insert k j v m)

  pub insert-insert : (k : K) (v w : V) (m : Map K V) → insert k v (insert k w m) ≡ insert k v m
  unfolding insert
  insert-insert k v w [] = ground arith
  insert-insert k v w ((j, u) ∷ m) = ground (arith, insert-insert k v w m)

  pub lookup-erase :
      (k j : K) (m : Map K V) → lookup j (erase k m) ≡ ite (dec k j) none (lookup j m)
  unfolding lookup erase
  lookup-erase k j [] = ground arith
  lookup-erase k j ((i, w) ∷ m) = ground (arith, lookup-erase k j m)

  abbrev pub has : K → Map K V → Bool
  has k m = elim (lookup k m) [ none ↦ false | some _ ↦ true ]

  -- The keys of a Go map are distinct.
  abbrev pub IsMap : Map K V → Type ℓ
  IsMap [] = Unit
  IsMap ((k, v) ∷ m) = (lookup k m ≡ none) × IsMap m

  lookup-insert-none :
      (k j : K) (v : V) (m : Map K V)
      → ¬ (j ≡ k)
      → lookup k m ≡ none
      → lookup k (insert j v m) ≡ none
  lookup-insert-none k j v m n h = ground (arith, lookup-insert j k v m)

  pub insert-IsMap : (k : K) (v : V) (m : Map K V) → IsMap m → IsMap (insert k v m)
  unfolding insert lookup
  insert-IsMap k v [] h = (refl, tt)
  insert-IsMap k v ((j, w) ∷ m) h = elim (dec j k) [
    | yes e ↦ rw (if_pos _ e) (ground arith, h.1)
    | no n ↦
        rw (if_neg _ n) (lookup-insert-none j k v m (λ e. n (sym e)) h.0, insert-IsMap k v m h.1)
  ]

  pub length-erase : (k : K) (m : Map K V) → length (erase k m) ≤ length m
  unfolding erase
  length-erase k [] = omega arith
  length-erase k ((j, w) ∷ m) = ground (arith, length-erase k m)

  pub length-erase-has : (k : K) (m : Map K V) → has k m ≡ true → length (erase k m) < length m
  unfolding erase lookup
  length-erase-has k [] h = cc
  length-erase-has k ((j, w) ∷ m) h = ground (arith, length-erase k m, length-erase-has k m)

  -- A write through the pointer stored under a key; nothing where the key is missing.
  unfoldable pub adjust : K → (V → V) → Map K V → Map K V
  adjust k g [] = []
  adjust k g ((j, v) ∷ m) = ite (dec j k) ((j, g v) ∷ m) ((j, v) ∷ adjust k g m)

  pub insert-adjust :
      (k : K) (g : V → V) (m : Map K V) {v : V}
      → lookup k m ≡ some v
      → insert k (g v) m ≡ adjust k g m
  unfolding lookup insert adjust
  insert-adjust k g [] h = cc
  insert-adjust k g ((j, w) ∷ m) {v} h = elim (dec j k) [
    | yes e ↦ let same : w ≡ v = ground arith in rw (if_pos _ e, if_pos _ e, same, e)
    | no n ↦ rw (if_neg _ n, if_neg _ n) (ap (◌∷◌ (j, w)) (insert-adjust k g m (ground arith)))
  ]

  pub adjust-none : (k : K) (g : V → V) (m : Map K V) → lookup k m ≡ none → adjust k g m ≡ m
  unfolding lookup adjust
  adjust-none k g [] h = refl
  adjust-none k g ((j, w) ∷ m) h = ground (arith, adjust-none k g m)

  pub adjust_same :
      (k : K) (g : V → V) (m : Map K V) {v : V} → lookup k m ≡ some v → g v ≡ v → adjust k g m ≡ m
  unfolding lookup adjust
  adjust_same k g [] h e = cc
  adjust_same k g ((j, w) ∷ m) {v} h e = elim (dec j k) [
    | yes p ↦ let same : w ≡ v = ground arith in rw (if_pos _ p, same, e)
    | no n ↦ rw (if_neg _ n) (ap (◌∷◌ (j, w)) (adjust_same k g m (ground arith) e))
  ]

  pub lookup-adjust_ne :
      (k j : K) (g : V → V) (m : Map K V) → k ≢ j → lookup j (adjust k g m) ≡ lookup j m
  unfolding lookup adjust
  lookup-adjust_ne k j g [] n = refl
  lookup-adjust_ne k j g ((i, w) ∷ m) n = ground (arith, lookup-adjust_ne k j g m n)

  pub lookup-adjust_self :
      (k : K) (g : V → V) (m : Map K V) {v : V}
      → lookup k m ≡ some v
      → lookup k (adjust k g m) ≡ some (g v)
  unfolding lookup adjust
  lookup-adjust_self k g [] h = cc
  lookup-adjust_self k g ((j, w) ∷ m) {v} h = elim (dec j k) [
    | yes p ↦ let same : w ≡ v = ground arith in rw (if_pos _ p, if_pos _ p, same)
    | no n ↦ ground (arith, lookup-adjust_self k g m {v = v})
  ]

  -- Writes commute under different keys, and under one key where they commute on its value.
  pub adjust_comm_ne :
      (k j : K) (g h : V → V) (m : Map K V)
      → k ≢ j
      → adjust k g (adjust j h m) ≡ adjust j h (adjust k g m)
  unfolding adjust
  adjust_comm_ne k j g h [] n = refl
  adjust_comm_ne k j g h ((i, w) ∷ m) n = ground (arith, adjust_comm_ne k j g h m n)

  pub adjust_comm_self :
      (k : K) (g h : V → V) (m : Map K V)
      → ((v : V) → g (h v) ≡ h (g v))
      → adjust k g (adjust k h m) ≡ adjust k h (adjust k g m)
  unfolding adjust
  adjust_comm_self k g h [] c = refl
  adjust_comm_self k g h ((i, w) ∷ m) c = ground (arith, c w, adjust_comm_self k g h m c)
