-- ===== src/Kohonen/SomLabeling/Counts.antt =====
-- The winner labels count the winners.
use premir_cpp.Common.{
  ℕ, zero, suc, ◌+◌, ◌≡◌, ◌↔◌, refl, sym, ap, ◌∙◌, Bool, true, ◌&&◌, inl, inr, List, [], ◌∷◌,
  Option, none, some, arith, ◌==◌, ==_iff, if◌then◌else◌, Bool-cases,
}
use premir_cpp.Common.Run.{Run, ok, ◌>>=◌, Returns, returns, Returns-bind, Returns-weaken}
use premir_cpp.Utils.HashEngine.Equality.{IsEquality-of_iff}
use premir_cpp.Utils.R3dMatrix.RemoveAll.{remove_all_row_cells-Bare}
use premir_cpp.Utils.HashMap.{updated, value_pointer}
use premir_cpp.Utils.HashMap.Laws.{merged}
use premir_cpp.Utils.Bucket.Search.{find?}
use premir_cpp.Utils.HashMapArray.{HashMapArray, get_value}
use premir_cpp.Utils.HashMapArray.GetValue.{IsMaps, get_value-find?}
use premir_cpp.Utils.HashMapArray.PushValue.{array_push_value-get_value}
use premir_cpp.Kohonen.SomLabeling.{
  LabelInfo, SomLabeling, increase_counter, clean_winner_labels, add_winner,
}

module _ {Label D : Type 0} (same : Label → Label → Bool) (grants : ℕ → Bool) (zero_count : D) where
  -- A call of `addWinner` for each of the winners, in turn.
  unfoldable pub add_winners : SomLabeling Label D → List (ℕ × Label) → Run (SomLabeling Label D)
  add_winners s [] = ok s
  add_winners s ((r, label) ∷ winners) =
      add_winner same grants zero_count s r label >>= λ s'. add_winners s' winners

module _ {Label : Type 0} (same : Label → Label → Bool) where
  -- How often a label is among the winners at a neuron.
  unfoldable pub occurrences : List (ℕ × Label) → ℕ → Label → ℕ
  occurrences [] r label = 0
  occurrences ((r', label') ∷ winners) r label =
      (if (r' == r) && same label' label then 1 else 0) + occurrences winners r label

module _ {D : Type 0} (zero_count : D) where
  -- What the map of a neuron has for a label that was counted so often.
  unfoldable pub tally : ℕ → Option (LabelInfo D)
  tally zero = none
  tally (suc n) = some (record { count = suc n; scaled_count = zero_count })

module _ {Label D : Type 0} (same : Label → Label → Bool) (zero_count : D) where
  -- The winner labels hold these counts.
  pub record Counted (f : ℕ → Label → ℕ) (s : SomLabeling Label D) : Type 0 where
    pub maps : IsMaps s.winner_labels
    pub counts :
        (r : ℕ) (label : Label)
        → get_value same s.winner_labels r label ≡ ok (tally zero_count (f r label))

module _ {Label D : Type 0} (same : Label → Label → Bool)
    (same_iff : (a b : Label) → (same a b ≡ true) ↔ (a ≡ b)) (grants : ℕ → Bool)
    (granted : (n : ℕ) → grants n ≡ true) (zero_count : D) where
  one_more : ℕ → Label → (ℕ → Label → ℕ) → ℕ → Label → ℕ
  one_more r label f r' label' = (if (r == r') && same label label' then 1 else 0) + f r' label'

  merged-tally :
      (n : ℕ)
      → merged
          (some increase_counter)
          (record { count = 1; scaled_count = zero_count })
          (tally zero_count n)
        ≡ record { count = suc n; scaled_count = zero_count }
  unfolding merged updated tally
  merged-tally zero = refl
  merged-tally (suc n) = ap (λ k. record { count = k; scaled_count = zero_count }) (omega arith)

  tally-more :
      (n : ℕ)
      → some (
          merged
            (some increase_counter)
            (record { count = 1; scaled_count = zero_count })
            (tally zero_count n))
        ≡ tally zero_count (1 + n)
  unfolding tally
  tally-more n =
      let next : 1 + n ≡ suc n = omega arith in
      ap some (merged-tally n) ∙ ap (tally zero_count) (sym next)

  both_true : (a b : Bool) → (a && b) ≡ true → (a ≡ true) × (b ≡ true)
  both_true a b e = (ground (arith, e), ground (arith, e))

  counts-one_more :
      (s : SomLabeling Label D) (f : ℕ → Label → ℕ) (r : ℕ) (label : Label)
      → Counted same zero_count f s
      → (r' : ℕ) (other : Label)
      → (if (r == r') && same label other
          then (get_value same s.winner_labels r label >>= λ old. ok (
              some (
                merged
                  (some increase_counter)
                  (record { count = 1; scaled_count = zero_count })
                  old)))
          else get_value same s.winner_labels r' other)
        ≡ ok (tally zero_count (one_more r label f r' other))
  unfolding one_more
  counts-one_more s f r label is r' other = elim (Bool-cases ((r == r') && same label other)) [
    | inl hit ↦
        let (row, key) = both_true (r == r') (same label other) hit in
        let here : f r label ≡ f r' other =
          ap (λ q. f q label) ((==_iff r r').0 row) ∙ ap (f r') ((same_iff label other).0 key) in
        rw (hit, is.counts r label)
          (ap ok (tally-more (f r label) ∙ ap (λ n. tally zero_count (1 + n)) here))
    | inr miss ↦
        let none_more : 0 + f r' other ≡ f r' other = omega arith in
        rw miss (is.counts r' other ∙ ap (λ n. ok (tally zero_count n)) (sym none_more))
  ]

  add_winner-Counted :
      (s : SomLabeling Label D) (f : ℕ → Label → ℕ) (r : ℕ) (label : Label)
      → Counted same zero_count f s
      → Returns
          (Counted same zero_count (one_more r label f))
          (add_winner same grants zero_count s r label)
  unfolding add_winner
  add_winner-Counted s f r label is =
      Returns-bind
        (array_push_value-get_value same label (record { count = 1; scaled_count = zero_count })
          (some increase_counter) grants granted s.winner_labels r is.maps
          (IsEquality-of_iff same s.winner_labels.engine same_iff))
        (λ (winners, added) (maps, flag, found). returns (record {
          maps = maps;
          counts = λ r' other. found r' other ∙ counts-one_more s f r label is r' other;
        }))

  Counted-same :
      (f g : ℕ → Label → ℕ) (s : SomLabeling Label D)
      → ((r : ℕ) (label : Label) → f r label ≡ g r label)
      → Counted same zero_count f s
      → Counted same zero_count g s
  Counted-same f g s same_counts is = record {
    maps = is.maps;
    counts = λ r label. is.counts r label ∙ ap (λ n. ok (tally zero_count n)) (same_counts r label);
  }

  -- Winners that are added to winner labels raise the counts by their occurrences.
  pub add_winners-Counted :
      (s : SomLabeling Label D) (f : ℕ → Label → ℕ) (winners : List (ℕ × Label))
      → Counted same zero_count f s
      → Returns
          (Counted same zero_count (λ r label. occurrences same winners r label + f r label))
          (add_winners same grants zero_count s winners)
  unfolding add_winners occurrences one_more
  add_winners-Counted s f [] is =
      returns (Counted-same f (λ r label. 0 + f r label) s (λ r label. omega arith) is)
  add_winners-Counted s f ((r, label) ∷ winners) is =
      Returns-bind (add_winner-Counted s f r label is) (λ s' counted.
        Returns-weaken (add_winners-Counted s' (one_more r label f) winners counted) (λ s'' more.
          Counted-same (λ q other. occurrences same winners q other + one_more r label f q other)
            (λ q other. occurrences same ((r, label) ∷ winners) q other + f q other) s''
            (λ q other. omega arith) more))

  clean_winner_labels-Counted :
      (s : SomLabeling Label D)
      → IsMaps s.winner_labels
      → Returns (Counted same zero_count (λ r label. 0)) (clean_winner_labels s)
  unfolding clean_winner_labels tally value_pointer find?
  clean_winner_labels-Counted s is =
      Returns-bind (remove_all_row_cells-Bare is.lists s.winner_labels.matrix is.table)
        (λ emptied bare.
          let winners : HashMapArray Label (LabelInfo D) = record s.winner_labels {
            matrix = emptied;
          } in
          let maps : IsMaps winners = record {
            lists = λ r c. [];
            table = bare.table;
            buckets = is.buckets;
          } in
          returns
            (record { maps = maps; counts = λ r label. get_value-find? same winners maps r label }))

  -- If only a label itself is equal to it and the allocator grants what it asks for, then after
  -- `cleanWinnerLabels` and an `addWinner` for each of some winners, the map of each neuron has a label exactly if the label is among the
  -- winners at that neuron, with the number of times that it is and the scaled count 0.
  pub clean-add_winners-Counted :
      (s : SomLabeling Label D) (winners : List (ℕ × Label))
      → IsMaps s.winner_labels
      → Returns
          (Counted same zero_count (occurrences same winners))
          (clean_winner_labels s >>= λ s'. add_winners same grants zero_count s' winners)
  clean-add_winners-Counted s winners is =
      Returns-bind (clean_winner_labels-Counted s is) (λ s' counted.
        Returns-weaken (add_winners-Counted s' (λ r label. 0) winners counted) (λ s'' more.
          Counted-same (λ r label. occurrences same winners r label + 0) (occurrences same winners)
            s'' (λ r label. omega arith) more))
