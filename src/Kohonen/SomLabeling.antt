-- ===== src/Kohonen/SomLabeling.antt =====
-- src/kohonen/labeling/SomLabeling.h, with `LabelInfo` and `LabelSummary` of src/models/models.h: how
-- often each label won at each neuron. `D` is `double`, with its 0 and the quotient of two counts.
pub mod Counts
mod Tests
use premir_cpp.Common.{
  ℕ, ◌+◌, ◌*◌, Bool, ◌||◌, Option, none, some, ltb, ◌==◌, if◌then◌else◌, get_elem?, set,
}
use premir_cpp.Common.Run.{Run, ok, ◌>>=◌, defined, for}
use premir_cpp.Utils.HashEngine.{HashEngine}
use premir_cpp.Utils.R3dMatrix.{
  R3dMatrix, get_row, put_row, get_cell, put_cell, remove_row_points, remove_all_row_cells,
}
use premir_cpp.Utils.HashMap.{MapEntry}
use premir_cpp.Utils.HashMapArray
use premir_cpp.Utils.HashMapArray.{HashMapArray, push_value, get_value}

pub record LabelInfo (D : Type 0) : Type 0 where
  pub count : ℕ
  pub scaled_count : D

pub record LabelSummary : Type 0 where
  pub min_count : ℕ
  pub max_count : ℕ

-- `IncreaseCounterUpdater::update` and `SummaryUpdater::update`.
abbrev pub increase_counter : {D : Type 0} → LabelInfo D → LabelInfo D → LabelInfo D
increase_counter old new = record old { count = old.count + 1 }

abbrev pub update_summary : LabelSummary → LabelSummary → LabelSummary
update_summary old new = record {
  min_count = if ltb new.min_count old.min_count then new.min_count else old.min_count;
  max_count = if ltb old.max_count new.max_count then new.max_count else old.max_count;
}

pub record SomLabeling (Label D : Type 0) : Type 0 where
  pub winner_labels : HashMapArray Label (LabelInfo D)
  pub summary_labels : HashMapArray Label LabelSummary

module _ {Label D : Type 0} where
  unfoldable pub clean_winner_labels : SomLabeling Label D → Run (SomLabeling Label D)
  clean_winner_labels s = do
    emptied ← remove_all_row_cells s.winner_labels.matrix
    ok (record s { winner_labels = record s.winner_labels { matrix = emptied } })

module _ {Label D : Type 0} (grants : ℕ → Bool) where
  -- The constructor, given the sizes of the entries of the two matrices, of a row and of a cell.
  unfoldable pub new : ℕ → ℕ → HashEngine Label → ℕ → ℕ → ℕ → ℕ → Run (SomLabeling Label D)
  new xdim ydim engine info summary row cell = do
    winners ← HashMapArray.new grants (xdim * ydim) engine info row cell
    summaries ← HashMapArray.new grants 1 engine summary row cell
    ok (record { winner_labels = winners; summary_labels = summaries })

module _ {Label D : Type 0} (same : Label → Label → Bool) (grants : ℕ → Bool) (zero_count : D) where
  unfoldable pub add_winner : SomLabeling Label D → ℕ → Label → Run (SomLabeling Label D)
  add_winner s winner_index label = do
    (winners, added) ←
        push_value same grants s.winner_labels winner_index label
          (record { count = 1; scaled_count = zero_count }) (some increase_counter)
    ok (record s { winner_labels = winners })

  -- The first stage of `collectSummary`: for each label the least and the greatest count. The
  -- matrix of the winners is not changed by it.
  unfoldable pub collect_counts :
      R3dMatrix Bool Bool (MapEntry Label (LabelInfo D))
      → HashMapArray Label LabelSummary
      → Run (HashMapArray Label LabelSummary)
  unfolding get_row get_cell
  collect_counts m summaries =
      for m.row_size 0
        (λ r in_rows. do
          row ← get_row m r
          for row.cell_size 0
              (λ c in_cells. do
                cell ← get_cell row c
                for cell.point_size 0
                    (λ p now. do
                      content ← defined (get_elem? cell.points p)
                      e ← defined content
                      (pushed, added) ←
                          push_value same grants now 0 e.key
                            (record { min_count = e.value.count; max_count = e.value.count })
                            (some update_summary)
                      ok pushed)
                    in_cells)
              in_rows)
        summaries

  module _ (quotient : ℕ → ℕ → D) where
    -- The scaled count of a label at a neuron, from the summary of the label.
    scaled : LabelInfo D → LabelSummary → LabelInfo D
    scaled info summary = record info {
      scaled_count =
          if (summary.max_count == 0) || (summary.max_count == 1)
          then zero_count
          else quotient info.count summary.max_count;
    }

    -- The second stage: each count over the greatest count of its label.
    unfoldable pub scale_counts :
        HashMapArray Label LabelSummary
        → R3dMatrix Bool Bool (MapEntry Label (LabelInfo D))
        → Run (R3dMatrix Bool Bool (MapEntry Label (LabelInfo D)))
    unfolding get_row put_row get_cell put_cell scaled
    scale_counts summaries m =
        for m.row_size 0
          (λ r in_rows. do
            row ← get_row in_rows r
            scaled_row ←
                for row.cell_size 0
                  (λ c in_cells. do
                    cell ← get_cell in_cells c
                    scaled_cell ←
                        for cell.point_size 0
                          (λ p now. do
                            content ← defined (get_elem? now.points p)
                            e ← defined content
                            found ← get_value same summaries 0 e.key
                            summary ← defined found
                            ok (record now {
                              points =
                                  set now.points p
                                    (some (record e { value = scaled e.value summary }));
                            }))
                          cell
                    ok (put_cell in_cells c scaled_cell))
                  row
            ok (put_row in_rows r scaled_row))
          m

    unfoldable pub collect_summary : SomLabeling Label D → Run (SomLabeling Label D)
    unfolding collect_counts scale_counts
    collect_summary s = do
      cleared ← remove_row_points s.summary_labels.matrix 0
      summaries ←
          collect_counts s.winner_labels.matrix (record s.summary_labels { matrix = cleared })
      scaled_matrix ← scale_counts summaries s.winner_labels.matrix
      ok (record {
        winner_labels = record s.winner_labels { matrix = scaled_matrix };
        summary_labels = summaries;
      })
