-- ===== src/Kohonen/EuclideanWinnerSearch/Nearest.antt =====
-- The winner is the first of the nearest neurons.
use mathlib.Core.Option.{some-injective}
use native.Mathlib.Nat.{add-zero}
use premir_cpp.Common.{
  ℕ, zero, suc, ◌+◌, ◌≤◌, ◌<◌, ◌≡◌, refl, sym, ◌∙◌, subst, true, false, inl, inr, List, [], ◌∷◌,
  none, some, map, arith, ◌==◌, not, get_elem?, length, Bool-cases,
}
use premir_cpp.Common.Run.{ok, Returns, returns, Returns-bind, Returns-weaken, Returns-result}
use premir_cpp.Kohonen.EuclideanWinnerSearch.{Double, DataSample, WinnerInfo, search_from, search}
use premir_cpp.Kohonen.EuclideanWinnerSearch.Distance.{rank, total, skips, distance-Measured}

-- What holds of the first entry, and of the others one index further, holds of all.
each_row :
    {A : Type 0} (P : ℕ → A → Type 0) (x : A) (xs : List A)
    → P 0 x
    → ((q : ℕ) (y : A) → get_elem? xs q ≡ some y → P (suc q) y)
    → (q : ℕ) (y : A) → get_elem? (x ∷ xs) q ≡ some y
    → P q y
each_row P x xs first others zero y e = subst (P 0) (some-injective _ _ e) first
each_row P x xs first others (suc q) y e = others q y e

module _ {D : Type 0} (ss : List (DataSample D)) where
  -- Each neuron has as many codes as there are samples.
  abbrev pub AllFit : List (List D) → Type 0
  AllFit [] = Unit
  AllFit (cs ∷ rows) = (length cs ≡ length ss) × AllFit rows

module _ {D : Type 0} (double : Double D) (ss : List (DataSample D)) where
  -- How far a neuron is from the samples.
  abbrev pub far : List D → ℕ
  far cs = rank double (total double cs ss double.nought)

  -- What the search over the neurons from `r` on makes of a winner, given the least difference so
  -- far: no neuron is nearer and the winner stays, or the first of the nearest neurons is the winner.
  pub data Winner (rows : List (List D)) (r : ℕ) (bound : D) (winner : WinnerInfo D)
      : WinnerInfo D → Type 0 where
    stays :
        ((q : ℕ) (cs : List D) → get_elem? rows q ≡ some cs → rank double bound ≤ far cs)
        → Winner rows r bound winner winner
    nearest :
        (j : ℕ) (cs : List D)
        → get_elem? rows j ≡ some cs
        → far cs < rank double bound
        → ((q : ℕ) (other : List D) → get_elem? rows q ≡ some other → far cs ≤ far other)
        → ((q : ℕ) (other : List D) → q < j → get_elem? rows q ≡ some other → far cs < far other)
        → Winner rows r bound winner
            (record { diff = total double cs ss double.nought; index = some (r + j) })

  shift : (r j : ℕ) → suc r + j ≡ r + suc j
  shift r j = omega arith

  pub not_all_skipped : skips ss < length ss → not (skips ss == length ss) ≡ true
  not_all_skipped some_used = ground (arith, some_used)

  all_skipped : skips ss ≡ length ss → not (skips ss == length ss) ≡ false
  all_skipped none_used = ground (arith, none_used)

  -- The next neuron is nearer than the bound, and all others that are still nearer follow.
  nearer :
      (cs : List D) (rows : List (List D)) (r : ℕ) (bound : D) (winner found : WinnerInfo D)
      → far cs < rank double bound
      → Winner rows
          (suc r)
          (total double cs ss double.nought)
          (record { diff = total double cs ss double.nought; index = some r })
          found
      → Winner (cs ∷ rows) r bound winner found
  nearer cs rows r bound winner _ near (stays all) =
      subst
        (λ i.
          Winner (cs ∷ rows) r bound winner
            (record { diff = total double cs ss double.nought; index = some i }))
        (add-zero r)
        (nearest 0 cs refl near (each_row (λ q other. far cs ≤ far other) cs rows (omega arith) all)
          (λ q other none_before e. absurd (omega (arith, none_before))))
  nearer cs rows r bound winner _ near (nearest j cs' there closer least first) =
      subst
        (λ i.
          Winner (cs ∷ rows) r bound winner
            (record { diff = total double cs' ss double.nought; index = some i }))
        (sym (shift r j))
        (nearest (suc j) cs' there (omega (arith, near, closer))
          (each_row (λ q other. far cs' ≤ far other) cs rows (omega (arith, closer)) least)
          (λ q other before e.
            each_row (λ q other. q < suc j → far cs' < far other) cs rows (λ before. closer)
              (λ q other e before. first q other (omega (arith, before)) e) q other e before))

  not_nearer :
      (cs : List D) (rows : List (List D)) (r : ℕ) (bound : D) (winner found : WinnerInfo D)
      → rank double bound ≤ far cs
      → Winner rows (suc r) bound winner found
      → Winner (cs ∷ rows) r bound winner found
  not_nearer cs rows r bound winner _ not_near (stays all) =
      stays (each_row (λ q other. rank double bound ≤ far other) cs rows not_near all)
  not_nearer cs rows r bound winner _ not_near (nearest j cs' there closer least first) =
      subst
        (λ i.
          Winner (cs ∷ rows) r bound winner
            (record { diff = total double cs' ss double.nought; index = some i }))
        (sym (shift r j))
        (nearest (suc j) cs' there closer
          (each_row (λ q other. far cs' ≤ far other) cs rows (omega (arith, closer, not_near))
            least)
          (λ q other before e.
            each_row (λ q other. q < suc j → far cs' < far other) cs rows
              (λ before. omega (arith, closer, not_near))
              (λ q other e before. first q other (omega (arith, before)) e) q other e before))

  search_from-Winner :
      (rows : List (List D)) (r : ℕ) (bound : D) (winner : WinnerInfo D)
      → AllFit ss rows
      → skips ss < length ss
      → Returns
          (λ (fine, found). (fine ≡ true) × Winner rows r bound winner found)
          (search_from double (map (map some) rows) r ss (length ss) bound winner)
  unfolding search_from
  search_from-Winner [] r bound winner fit some_used = returns (refl, stays (λ q cs e. cc))
  search_from-Winner (cs ∷ rows) r bound winner (same, fit) some_used =
      Returns-bind (distance-Measured double cs ss bound same) (λ (fine, difference) (fine_eq, m).
        let used : fine ≡ true = fine_eq ∙ not_all_skipped some_used in
        let whole : D = total double cs ss double.nought in
        rw used (elim (Bool-cases (double.order.gt bound difference)) [
          | inl near ↦
              let same_value : difference ≡ whole = m.whole_eq near in
              let closer : far cs < rank double bound =
                ground (arith, double.order.gt_lem bound whole, sym m.same_test ∙ near) in
              rw (near, same_value)
                (Returns-weaken
                  (search_from-Winner rows (suc r) whole (record { diff = whole; index = some r })
                    fit some_used)
                  (λ result (fine', found).
                    (fine', nearer cs rows r bound winner result.1 closer found)))
          | inr not_near ↦
              let no_closer : rank double bound ≤ far cs =
                ground (arith, double.order.gt_lem bound whole, sym m.same_test ∙ not_near) in
              rw not_near (
                Returns-weaken (search_from-Winner rows (suc r) bound winner fit some_used)
                  (λ result (fine', found).
                    (fine', not_nearer cs rows r bound winner result.1 no_closer found)))
        ]))

  -- `search` over neurons with as many codes as there are samples, of which some is not skipped,
  -- returns true. The winner is the first of the neurons that are nearest to the samples, with its
  -- squared distance; it is none if no neuron is nearer than the greatest `double`.
  pub search-Winner :
      (rows : List (List D))
      → AllFit ss rows
      → skips ss < length ss
      → Returns
          (λ (fine, found).
            (fine ≡ true)
            × Winner rows 0 double.max_value
                (record { diff = double.minus_one; index = none })
                found)
          (search double (map (map some) rows) ss (length ss))
  unfolding search
  search-Winner rows fit some_used =
      search_from-Winner rows 0 double.max_value (record { diff = double.minus_one; index = none })
        fit some_used

  -- If every sample is skipped and there is a neuron, `search` returns false and there is no winner.
  pub search-skipped :
      (cs : List D) (rows : List (List D))
      → AllFit ss (cs ∷ rows)
      → skips ss ≡ length ss
      → search double (map (map some) (cs ∷ rows)) ss (length ss)
        ≡ ok (false, record { diff = double.minus_one; index = none })
  unfolding search search_from
  search-skipped cs rows (same, fit) none_used =
      let (result, e, (fine_eq, m)) =
        Returns-result (distance-Measured double cs ss double.max_value same) in
      let unused : result.0 ≡ false = fine_eq ∙ all_skipped none_used in rw (e, unused) refl
