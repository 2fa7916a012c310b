-- ===== src/Kohonen/EuclideanWinnerSearch/Distance.antt =====
-- `distance` stops early, but only where the whole distance is no less than the least one so far.
use native.Mathlib.Nat.{add-zero, zero-add}
use premir_cpp.Common.{
  ℕ, suc, ◌+◌, ◌≤◌, ◌<◌, ◌≡◌, refl, sym, ap, ◌∙◌, true, false, inl, inr, List, [], ◌∷◌, some, map,
  arith, ◌==◌, if◌then◌else◌, not, get_elem?, length, get_elem?-map, Bool-cases,
}
use mathlib.Core.Bool.{false≢true}
use premir_cpp.Common.Run.{Returns, returns, Returns-bind, Returns-weaken}
use premir_cpp.Utils.Memory.{Block}
use premir_cpp.Kohonen.EuclideanWinnerSearch.{Double, DataSample, distance_loop, distance}

-- How many samples are skipped.
abbrev pub skips : {D : Type 0} → List (DataSample D) → ℕ
skips [] = 0
skips (sample ∷ samples) = (if sample.skipped then 1 else 0) + skips samples

module _ {D : Type 0} (double : Double D) where
  abbrev pub rank : D → ℕ
  rank = double.order.rank

  -- One more sample.
  abbrev pub step : D → D → DataSample D → D
  step sum code sample =
      if sample.skipped
      then sum
      else double.add sum (double.mul (double.sub code sample.value) (double.sub code sample.value))

  -- The squared distance over all samples that are not skipped, added up from the first.
  abbrev pub total : List D → List (DataSample D) → D → D
  total (code ∷ codes) (sample ∷ samples) sum = total codes samples (step sum code sample)
  total _ _ sum = sum

  step_le : (sum code : D) (sample : DataSample D) → rank sum ≤ rank (step sum code sample)
  step_le sum code sample = elim (Bool-cases sample.skipped) [
    | inl skip ↦ rw skip (omega arith)
    | inr use_it ↦ rw use_it (double.add_square_le sum (double.sub code sample.value))
  ]

  total_le :
      (codes : List D) (samples : List (DataSample D)) (sum : D)
      → rank sum ≤ rank (total codes samples sum)
  total_le [] samples sum = omega arith
  total_le (code ∷ codes) [] sum = omega arith
  total_le (code ∷ codes) (sample ∷ samples) sum =
      omega (arith, step_le sum code sample, total_le codes samples (step sum code sample))

  -- The difference is the whole one, or both are more than the bound.
  pub record Measured (bound whole difference : D) : Type 0 where
    pub near_eq : rank whole ≤ rank bound → difference ≡ whole
    pub far_lt : rank bound < rank whole → rank bound < rank difference
    pub same_test : double.order.gt bound difference ≡ double.order.gt bound whole
    pub whole_eq : double.order.gt bound difference ≡ true → difference ≡ whole

  skips_le : (samples : List (DataSample D)) → skips samples ≤ length samples
  skips_le [] = omega arith
  skips_le (sample ∷ samples) = ground (arith, skips_le samples)

  -- What the loop gives, from `masked` skipped samples on.
  record Looped (bound whole : D) (masked rounds skipped : ℕ) (result : ℕ × D) : Type 0 where
    measured : Measured bound whole result.1
    at_most : result.0 ≤ masked + skipped
    all_test : (result.0 == masked + rounds) ≡ (skipped == rounds)

  too_far :
      (bound whole now : D) (masked rounds skipped : ℕ)
      → double.order.gt now bound ≡ true
      → rank now ≤ rank whole
      → skipped ≤ rounds
      → Looped bound whole masked (suc rounds) skipped (masked, now)
  too_far bound whole now masked rounds skipped far le few =
      let above : rank bound < rank now = ground (arith, double.order.gt_lem now bound, far) in
      let now_false : double.order.gt bound now ≡ false =
        ground (arith, double.order.gt_lem bound now, above) in
      let whole_false : double.order.gt bound whole ≡ false =
        ground (arith, double.order.gt_lem bound whole, above, le) in
      record {
        measured = record {
          near_eq = λ h. absurd (omega (arith, above, le, h));
          far_lt = λ h. above;
          same_test = now_false ∙ sym whole_false;
          whole_eq = λ e. absurd (false≢true (sym now_false ∙ e));
        };
        at_most = omega arith;
        all_test = ground (arith, few);
      }

  distance_loop-Looped :
      (cs : List D) (ss : List (DataSample D)) (i : ℕ) (codes : Block D)
      (samples : List (DataSample D)) (bound : D) (masked : ℕ) (sum : D)
      → length cs ≡ length ss
      → ((j : ℕ) (c : D) → get_elem? cs j ≡ some c → get_elem? codes (i + j) ≡ some (some c))
      → ((j : ℕ) (s : DataSample D) → get_elem? ss j ≡ some s → get_elem? samples (i + j) ≡ some s)
      → Returns
          (Looped bound (total cs ss sum) masked (length ss) (skips ss))
          (distance_loop double (length ss) i codes samples bound masked sum)
  unfolding distance_loop
  distance_loop-Looped [] [] i codes samples bound masked sum same code_at sample_at =
      returns (record {
        measured = record {
          near_eq = λ h. refl;
          far_lt = λ h. h;
          same_test = refl;
          whole_eq = λ e. refl;
        };
        at_most = omega arith;
        all_test = ground arith;
      })
  distance_loop-Looped (c ∷ cs) [] i codes samples bound masked sum same code_at sample_at =
      absurd (omega (arith, same))
  distance_loop-Looped [] (s ∷ ss) i codes samples bound masked sum same code_at sample_at =
      absurd (omega (arith, same))
  distance_loop-Looped (c ∷ cs) (s ∷ ss) i codes samples bound masked sum same code_at sample_at =
      let sample_here : get_elem? samples i ≡ some s =
        ap (get_elem? samples) (sym (add-zero i)) ∙ sample_at 0 s refl in
      let code_here : get_elem? codes i ≡ some (some c) =
        ap (get_elem? codes) (sym (add-zero i)) ∙ code_at 0 c refl in
      let next = λ (masked' : ℕ) (sum' : D).
        distance_loop-Looped cs ss (suc i) codes samples bound masked' sum' (omega (arith, same))
          (λ j c' e. ap (get_elem? codes) (shift i j) ∙ code_at (suc j) c' e)
          (λ j s' e. ap (get_elem? samples) (shift i j) ∙ sample_at (suc j) s' e) in
      elim (Bool-cases s.skipped) [
        | inl skip ↦
            rw (sample_here, skip)
              (Returns-weaken (next (masked + 1) sum) (λ result l. record {
                measured = l.measured;
                at_most = omega (arith, l.at_most);
                all_test = ground (arith, l.all_test);
              }))
        | inr use_it ↦
            let now : D =
              double.add sum (double.mul (double.sub c s.value) (double.sub c s.value)) in
            elim (Bool-cases (double.order.gt now bound)) [
              | inl far ↦
                  rw (sample_here, use_it, code_here, far)
                    (returns (
                      too_far bound (total cs ss now) now masked (length ss) (0 + skips ss) far
                        (total_le cs ss now) (omega (arith, skips_le ss))))
              | inr near ↦
                  rw (sample_here, use_it, code_here, near)
                    (Returns-weaken (next masked now) (λ result l. record {
                      measured = l.measured;
                      at_most = omega (arith, l.at_most);
                      all_test = ground (arith, l.at_most, skips_le ss);
                    }))
            ]
      ]
    where
      shift : (i j : ℕ) → suc i + j ≡ i + suc j
      shift i j = omega arith

  -- `distance` over codes and samples of the same number says whether some sample is not skipped.
  pub distance-Measured :
      (cs : List D) (ss : List (DataSample D)) (bound : D)
      → length cs ≡ length ss
      → Returns
          (λ (fine, difference).
            (fine ≡ not (skips ss == length ss))
            × Measured bound (total cs ss double.nought) difference)
          (distance double (map some cs) ss (length ss) bound)
  unfolding distance
  distance-Measured cs ss bound same =
      Returns-bind
        (distance_loop-Looped cs ss 0 (map some cs) ss bound 0 double.nought same
          (λ j c e. ap (get_elem? (map some cs)) (zero-add j) ∙ get_elem?-map cs j c e)
          (λ j s e. ap (get_elem? ss) (zero-add j) ∙ e))
        (λ result l.
          returns (
            ap not (ap (λ n. result.0 == n) (sym (zero-add (length ss))) ∙ l.all_test),
            l.measured,
          ))
