-- ===== src/Benchmark/Statistics/Extremes.antt =====
-- The least and the greatest latency that src/benchmark.cpp reports.
use market_data_ingress.Base.{
  ◌≡◌, refl, true, false, List, [], ◌∷◌, Double, Bool-cases, inl, inr, ◌⊎◌, ◌↔◌,
}
use market_data_ingress.Benchmark.Statistics.{
  insert, sort, summarize_sorted, summarize, front, back,
}
use market_data_ingress.Benchmark.Statistics.Order.{IsSorted, sort-IsSorted}

module _ {D : Type 0} (d : Double D) where
  -- The value is one of these.
  abbrev pub Among : D → List D → Type 0
  Among v [] = ⊥
  Among v (x ∷ values) = (v ≡ x) ⊎ Among v values

  insert-Among : (v x : D) (values : List D) → Among v (insert d x values) ↔ Among v (x ∷ values)
  unfolding insert
  insert-Among v x [] = (λ h. h, λ h. h)
  insert-Among v x (y ∷ values) = elim (Bool-cases (d.lt y x)) [
    | inr above ↦ rw (insert, above) (λ h. h, λ h. h)
    | inl below ↦
        let rest = insert-Among v x values in
        rw (insert, below)
          (
            λ h. elim h [
              | inl here ↦ inr (inl here)
              | inr later ↦ elim (rest.0 later) [ inl at ↦ inl at | inr last ↦ inr (inr last) ]
            ],
            λ h. elim h [
              | inl at ↦ inr (rest.1 (inl at))
              | inr (inl here) ↦ inl here
              | inr (inr last) ↦ inr (rest.1 (inr last))
            ],
          )
  ]

  sort-Among : (v : D) (values : List D) → Among v (sort d values) ↔ Among v values
  unfolding sort
  sort-Among v [] = (λ h. h, λ h. h)
  sort-Among v (x ∷ values) =
      let first = insert-Among v x (sort d values) in
      let rest = sort-Among v values in
      (
        λ h. elim (first.0 h) [ inl at ↦ inl at | inr later ↦ inr (rest.0 later) ],
        λ h. first.1 (elim h [ inl at ↦ inl at | inr later ↦ inr (rest.1 later) ]),
      )

  back-Among : (x : D) (values : List D) → Among (back d (x ∷ values)) (x ∷ values)
  back-Among x [] = inl refl
  back-Among x (y ∷ values) = inr (back-Among y values)

  module _ (asymmetric : (a b : D) → d.lt a b ≡ true → d.lt b a ≡ false)
      (transitive : (a b c : D) → d.lt b a ≡ false → d.lt c b ≡ false → d.lt c a ≡ false) where
    irreflexive : (a : D) → d.lt a a ≡ false
    irreflexive a = elim (Bool-cases (d.lt a a)) [
      | inl below ↦ asymmetric a a below
      | inr above ↦ above
    ]

    front_least :
        (x : D) (values : List D) (v : D)
        → IsSorted d (x ∷ values)
        → Among v (x ∷ values)
        → d.lt v x ≡ false
    front_least x values v sorted (inl same) = rw same (irreflexive x)
    front_least x [] v sorted (inr later) = absurd later
    front_least x (y ∷ values) v sorted (inr later) =
        transitive x y v sorted.0 (front_least y values v sorted.1 later)

    back_greatest :
        (x : D) (values : List D) (v : D)
        → IsSorted d (x ∷ values)
        → Among v (x ∷ values)
        → d.lt (back d (x ∷ values)) v ≡ false
    back_greatest x [] v sorted (inl same) = rw same (irreflexive x)
    back_greatest x [] v sorted (inr later) = absurd later
    back_greatest x (y ∷ values) v sorted (inl same) = rw same (
        transitive x y (back d (y ∷ values)) sorted.0
          (back_greatest y values y sorted.1 (inl refl)))
    back_greatest x (y ∷ values) v sorted (inr later) = back_greatest y values v sorted.1 later

    -- What the ends of a sorted vector are to values that are the same ones in any order.
    ends_of :
        (sorted values : List D)
        → IsSorted d sorted
        → ((v : D) → Among v sorted ↔ Among v values)
        → (x : D) → Among x values
        → Among (front d sorted) values
          × Among (back d sorted) values
          × ((v : D)
              → Among v values
              → (d.lt v (front d sorted) ≡ false) × (d.lt (back d sorted) v ≡ false))
    ends_of [] values in_order same x there = absurd ((same x).1 there)
    ends_of (y ∷ sorted) values in_order same x there = (
      (same y).0 (inl refl),
      (same (back d (y ∷ sorted))).0 (back-Among y sorted),
      λ v among. (
        front_least y sorted v in_order ((same v).1 among),
        back_greatest y sorted v in_order ((same v).1 among),
      ),
    )

    -- If `<` is a strict weak order on the doubles, as it is where none is NaN, the least and the greatest
    -- latency of a summary are among the latencies, and none is below the one or above the other.
    pub summarize_extremes :
        (first : D) (others : List D)
        → let stats = summarize d (first ∷ others) in
          Among stats.min_us (first ∷ others)
          × Among stats.max_us (first ∷ others)
          × ((v : D)
              → Among v (first ∷ others)
              → (d.lt v stats.min_us ≡ false) × (d.lt stats.max_us v ≡ false))
    unfolding summarize summarize_sorted
    summarize_extremes first others =
        ends_of (sort d (first ∷ others)) (first ∷ others)
          (sort-IsSorted d asymmetric (first ∷ others)) (λ v. sort-Among v (first ∷ others)) first
          (inl refl)
