-- ===== src/Benchmark/Statistics/Order.antt =====
-- The order and the counts of the latencies that src/benchmark.cpp summarises.
use market_data_ingress.Base.{
  suc, ◌≡◌, refl, ap, true, false, List, [], ◌∷◌, length, Double, Bool-cases, inl, inr,
}
use market_data_ingress.Benchmark.Statistics.{insert, sort, summarize_sorted, summarize}

module _ {D : Type 0} (d : Double D) where
  -- No element is below the one before it.
  abbrev pub IsSorted : List D → Type 0
  IsSorted [] = Unit
  IsSorted (x ∷ []) = Unit
  IsSorted (x ∷ y ∷ values) = (d.lt y x ≡ false) × IsSorted (y ∷ values)

  length-insert : (x : D) (values : List D) → length (insert d x values) ≡ suc (length values)
  unfolding insert
  length-insert x [] = refl
  length-insert x (y ∷ values) = elim (Bool-cases (d.lt y x)) [
    | inl below ↦ rw (insert, below) (ap suc (length-insert x values))
    | inr above ↦ rw (insert, above) refl
  ]

  pub length-sort : (values : List D) → length (sort d values) ≡ length values
  unfolding sort
  length-sort [] = refl
  length-sort (x ∷ values) = rw (length-insert x (sort d values)) (ap suc (length-sort values))

  pub samples-summarize : (values : List D) → (summarize d values).samples ≡ length values
  unfolding summarize summarize_sorted
  samples-summarize [] = refl
  samples-summarize (x ∷ values) = length-sort (x ∷ values)

  insert-IsSorted :
      (asymmetric : (a b : D) → d.lt a b ≡ true → d.lt b a ≡ false) (x : D) (values : List D)
      → IsSorted values
      → IsSorted (insert d x values)
  unfolding insert
  insert-IsSorted asymmetric x [] sorted = tt
  insert-IsSorted asymmetric x (y ∷ []) sorted = elim (Bool-cases (d.lt y x)) [
    | inl below ↦ rw (insert, below) (asymmetric y x below, tt)
    | inr above ↦ rw (insert, above) (above, tt)
  ]
  insert-IsSorted asymmetric x (y ∷ z ∷ values) sorted =
      let rest = insert-IsSorted asymmetric x (z ∷ values) sorted.1 in
      elim (Bool-cases (d.lt y x)) [
        | inr above ↦ rw (insert, above) (above, sorted)
        | inl below ↦ elim (Bool-cases (d.lt z x)) [
          | inl lower ↦ rw (insert, below, lower) (sorted.0, (rw (insert, lower) at rest))
          | inr higher ↦ rw (insert, below, higher) (asymmetric y x below, (higher, sorted.1))
        ]
      ]

  -- If no two values are each below the other, as with `<` on doubles even when there are NaNs,
  -- none of the sorted latencies is below the one before it.
  pub sort-IsSorted :
      (asymmetric : (a b : D) → d.lt a b ≡ true → d.lt b a ≡ false) (values : List D)
      → IsSorted (sort d values)
  unfolding sort
  sort-IsSorted asymmetric [] = tt
  sort-IsSorted asymmetric (x ∷ values) =
      insert-IsSorted asymmetric x (sort d values) (sort-IsSorted asymmetric values)
