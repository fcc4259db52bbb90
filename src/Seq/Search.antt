-- ===== src/Seq/Search.antt =====
-- `sort.Search`, and the insertion into a sorted slice that seq.go and geometry.go do with it.
pub mod Laws
use geo_crdt.Common.{
  ℕ, zero, suc, ◌+◌, ◌/◌, Bool, true, false, Option, none, some, List, ltb, if◌then◌else◌, length,
  get_elem?, insert_at,
}

-- The loop of `sort.Search`; `j - i` falls each round, so the length is enough fuel.
unfoldable pub search_loop : ℕ → (ℕ → Bool) → ℕ → ℕ → ℕ
search_loop zero f i j = i
search_loop (suc fuel) f i j = elim (ltb i j) [
  | false ↦ i
  | true ↦ elim (f ((i + j) / 2)) [
    | false ↦ search_loop fuel f ((i + j) / 2 + 1) j
    | true ↦ search_loop fuel f i ((i + j) / 2)
  ]
]

unfoldable pub search : ℕ → (ℕ → Bool) → ℕ
unfolding search_loop
search n f = search_loop n f 0 n

module _ {ℓ} {A : Type ℓ} where
  -- `p(l[i])`; `sort.Search` asks below the length only.
  abbrev pub holds_at : (A → Bool) → List A → ℕ → Bool
  holds_at p l i = elim (get_elem? l i) [ none ↦ false | some x ↦ p x ]

  -- Search for the first entry that `p` holds of, and insert before it.
  unfoldable pub insert_sorted : (A → Bool) → A → List A → List A
  unfolding search
  insert_sorted p x l = insert_at l (search (length l) (holds_at p l)) x
