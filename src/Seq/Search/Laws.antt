-- ===== src/Seq/Search/Laws.antt =====
-- `sort.Search` finds the first index at which a monotone test holds, and the insertion by it is
-- the insertion into a sorted list.
use geo_crdt.Common.{
  ℕ, zero, suc, ◌+◌, ◌/◌, ◌<◌, ◌≤◌, Bool, true, false, List, [], ◌∷◌, ltb, if◌then◌else◌, length,
  insert_at, ◌≡◌, refl, arith, tests, Bool-cases, inl, inr,
}
use geo_crdt.Seq.Search.{search_loop, search, holds_at, insert_sorted}

-- Once the test holds it holds at every later index below `n`.
abbrev pub IsMonotone : ℕ → (ℕ → Bool) → Type 0
IsMonotone n f = (a b : ℕ) → a ≤ b → b < n → f a ≡ true → f b ≡ true

pub record IsFirst (n : ℕ) (f : ℕ → Bool) (r : ℕ) : Type 0 where
  pub within : r ≤ n
  pub fails : (k : ℕ) → k < r → f k ≡ false
  pub holds : (k : ℕ) → r ≤ k → k < n → f k ≡ true

module _ (n : ℕ) (f : ℕ → Bool) (mono : IsMonotone n f) where
  search_loop-IsFirst :
      (fuel i j : ℕ)
      → i ≤ j
      → j ≤ n
      → j < i + fuel + 1
      → ((k : ℕ) → k < i → f k ≡ false)
      → ((k : ℕ) → j ≤ k → k < n → f k ≡ true)
      → IsFirst n f (search_loop fuel f i j)
  unfolding search_loop
  search_loop-IsFirst zero i j le jn enough low high = record {
    within = omega arith;
    fails = low;
    holds = λ k ik kn. high k (omega arith) kn;
  }
  search_loop-IsFirst (suc fuel) i j le jn enough low high = elim (Bool-cases (ltb i j)) [
    | inr stop ↦
        rw (stop, search_loop)
          (record {
            within = omega arith;
            fails = low;
            holds = λ k ik kn. high k (ground arith) kn;
          })
    | inl more ↦ elim (Bool-cases (f ((i + j) / 2))) [
      | inl hit ↦
          rw (more, hit, search_loop)
            (search_loop-IsFirst fuel i ((i + j) / 2) (omega tests) (omega tests) (omega tests) low
              (λ k mk kn. mono ((i + j) / 2) k mk kn hit))
      | inr miss ↦
          rw (more, miss, search_loop)
            (search_loop-IsFirst fuel ((i + j) / 2 + 1) j (omega tests) jn (omega tests)
              (λ k km. elim (Bool-cases (f k)) [
                | inr e ↦ e
                | inl e ↦ let bad = mono k ((i + j) / 2) (omega arith) (omega tests) e in cc
              ])
              high)
    ]
  ]

  -- With the fuel that `search` gives, the loop ends at the first index where the test holds, or
  -- at `n` where it holds nowhere.
  pub search-IsFirst : IsFirst n f (search n f)
  unfolding search
  search-IsFirst =
      search_loop-IsFirst n 0 n (omega arith) (omega arith) (omega arith)
        (λ k h. absurd (omega arith)) (λ k h l. absurd (omega arith))

module _ {ℓ} {A : Type ℓ} where
  -- Insertion before the first entry that the test holds of, with no indices.
  unfoldable pub insert_before : (A → Bool) → A → List A → List A
  insert_before p x [] = x ∷ []
  insert_before p x (y ∷ ys) =
      let rest = insert_before p x ys in if p y then x ∷ y ∷ ys else y ∷ rest

  insert_at-first :
      (p : A → Bool) (x : A) (l : List A) (r : ℕ)
      → IsFirst (length l) (holds_at p l) r
      → insert_at l r x ≡ insert_before p x l
  unfolding insert_before
  insert_at-first p x [] r h = refl
  insert_at-first p x (y ∷ ys) zero h = ground (arith, h.holds 0)
  insert_at-first p x (y ∷ ys) (suc r) h = ground (arith, h.fails 0, insert_at-first p x ys r tail)
    where
      tail : IsFirst (length ys) (holds_at p ys) r
      tail = record {
        within = omega (arith, h.within);
        fails = λ k lt. h.fails (suc k) (omega arith);
        holds = λ k le lt. h.holds (suc k) (omega arith) (omega arith);
      }

  -- The binary search and the shifting copy insert where a linear scan would, whenever the test,
  -- once it holds, holds of every later entry.
  pub insert_sorted-insert_before :
      (p : A → Bool) (x : A) (l : List A)
      → IsMonotone (length l) (holds_at p l)
      → insert_sorted p x l ≡ insert_before p x l
  unfolding insert_sorted
  insert_sorted-insert_before p x l mono =
      insert_at-first p x l _ (search-IsFirst (length l) (holds_at p l) mono)
