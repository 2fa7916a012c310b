-- ===== src/Kohonen/SomLabeling/Tests.antt =====
-- A map of two neurons and some winners; labels are numbers, and a scaled count is the pair that is
-- to be divided.
use premir_cpp.Common.{ℕ, ◌≡◌, refl, Bool, true, [], ◌∷◌, Option, some, arith, ◌==◌, ==_iff}
use premir_cpp.Common.Run.{Run, ok, ◌>>=◌, Returns, for}
use premir_cpp.Utils.Memory.{malloc, realloc, memcpy}
use premir_cpp.Utils.HashEngine.{HashEngine, hash_index}
use premir_cpp.Utils.RdMatrix
use premir_cpp.Utils.R3dMatrix
use premir_cpp.Utils.R3dMatrix.Cells.{new-IsTable}
use premir_cpp.Utils.Bucket.{find_entry}
use premir_cpp.Utils.HashMap.{updated}
use premir_cpp.Utils.HashMapArray
use premir_cpp.Utils.HashMapArray.{HashMapArray, push_value, get_value, store_found}
use premir_cpp.Utils.HashMapArray.GetValue.{IsMaps}
use premir_cpp.Kohonen.SomLabeling.{
  LabelInfo, LabelSummary, SomLabeling, new, clean_winner_labels, add_winner, collect_summary,
  collect_counts, scale_counts,
}
use premir_cpp.Kohonen.SomLabeling.Counts.{
  Counted, add_winners, occurrences, clean-add_winners-Counted,
}

abbrev allowed : ℕ → Bool
allowed bytes = true

abbrev label_hash : HashEngine ℕ
label_hash = record { hash_code = λ k. k; index_size = 4 }

abbrev same_label : ℕ → ℕ → Bool
same_label a b = a == b

abbrev no_count : ℕ × ℕ
no_count = (0, 1)

-- Label 7 wins three times at neuron 0 and once at neuron 1; label 3 wins once at neuron 1.
abbrev labelled : Run (
    Option (LabelInfo (ℕ × ℕ))
    × Option (LabelInfo (ℕ × ℕ))
    × Option (LabelInfo (ℕ × ℕ))
    × Option LabelSummary)
labelled = do
  a ← new allowed 1 2 label_hash 16 16 24 24
  b ← add_winner same_label allowed no_count a 0 7
  c ← add_winner same_label allowed no_count b 1 7
  d ← add_winner same_label allowed no_count c 0 7
  e ← add_winner same_label allowed no_count d 1 3
  f ← add_winner same_label allowed no_count e 0 7
  g ← collect_summary same_label allowed no_count (λ n m. (n, m)) f
  x ← get_value same_label g.winner_labels 0 7
  y ← get_value same_label g.winner_labels 1 7
  z ← get_value same_label g.winner_labels 1 3
  w ← get_value same_label g.summary_labels 0 7
  ok (x, y, z, w)

labelled_result :
    labelled
    ≡ ok (
      some (record { count = 3; scaled_count = (3, 3) }),
      some (record { count = 1; scaled_count = (1, 3) }),
      some (record { count = 1; scaled_count = (0, 1) }),
      some (record { min_count = 1; max_count = 3 }),
    )
unfolding new add_winner collect_summary collect_counts scale_counts HashMapArray.new push_value
    get_value store_found find_entry for R3dMatrix.sized R3dMatrix.new R3dMatrix.write_points
    R3dMatrix.write_to_row R3dMatrix.write_to_cell R3dMatrix.write_new_cell R3dMatrix.copy_points
    R3dMatrix.initialize_points_memory R3dMatrix.initialize_cells_memory
    R3dMatrix.initialize_row_memory R3dMatrix.remove_row_points R3dMatrix.remove_points
    RdMatrix.reallocate malloc realloc memcpy hash_index updated
labelled_result = refl

abbrev no_labels : SomLabeling ℕ (ℕ × ℕ)
no_labels = record {
  winner_labels = record { matrix = R3dMatrix.new 16 24 24; engine = label_hash };
  summary_labels = record { matrix = R3dMatrix.new 16 24 24; engine = label_hash };
}

no_labels-IsMaps : IsMaps no_labels.winner_labels
no_labels-IsMaps = record { lists = λ r c. []; table = new-IsTable 16 24 24; buckets = omega arith }

clean-add_winners-Counted_example :
    Returns (Counted same_label no_count (occurrences same_label ((0, 7) ∷ (1, 7) ∷ (0, 7) ∷ []))) (
      clean_winner_labels no_labels >>= λ s.
      add_winners same_label allowed no_count s ((0, 7) ∷ (1, 7) ∷ (0, 7) ∷ []))
clean-add_winners-Counted_example =
    clean-add_winners-Counted same_label ==_iff allowed (λ bytes. refl) no_count no_labels
      ((0, 7) ∷ (1, 7) ∷ (0, 7) ∷ []) no_labels-IsMaps
