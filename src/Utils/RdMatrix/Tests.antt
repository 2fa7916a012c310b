-- ===== src/Utils/RdMatrix/Tests.antt =====
-- Writes to a small `RDMatrix`.
use premir_cpp.Common.{ℕ, ◌+◌, ◌≡◌, refl, Bool, true, List, [], ◌∷◌, ◌++◌, ltb, if◌then◌else◌}
use premir_cpp.Common.Run.{Returns}
use premir_cpp.Utils.RdMatrix.{RdMatrix, new, write_row, push_row, write_to_end_row}
use premir_cpp.Utils.RdMatrix.Prepare.{IsStore, update, new-IsStore}
use premir_cpp.Utils.RdMatrix.Store.{write_row-IsStore, push_row-IsStore, write_to_end_row-IsStore}

abbrev all_granted : ℕ → Bool
all_granted bytes = true

abbrev empty : RdMatrix Bool ℕ
empty = new 8 40

abbrev nothing : ℕ → List ℕ
nothing r = []

abbrev values : List ℕ
values = 7 ∷ 8 ∷ []

write_row-IsStore_example :
    Returns
      (λ m'.
        IsStore (update nothing 2 values) m'
        × (m'.row_size ≡ (if ltb 2 empty.row_size then empty.row_size else 2 + 1)))
      (write_row all_granted empty 2 values 2)
write_row-IsStore_example =
    write_row-IsStore all_granted (λ bytes. refl) nothing empty 2 values (new-IsStore 8 40)

push_row-IsStore_example :
    Returns
      (λ m'. IsStore (update nothing empty.row_size values) m' × (m'.row_size ≡ empty.row_size + 1))
      (push_row all_granted empty values 2)
push_row-IsStore_example =
    push_row-IsStore all_granted (λ bytes. refl) nothing empty values (new-IsStore 8 40)

write_to_end_row-IsStore_example :
    Returns
      (λ m'.
        IsStore (update nothing 2 (nothing 2 ++ values)) m'
        × (m'.row_size ≡ (if ltb 2 empty.row_size then empty.row_size else 2 + 1)))
      (write_to_end_row all_granted empty 2 values 2)
write_to_end_row-IsStore_example =
    write_to_end_row-IsStore all_granted (λ bytes. refl) nothing empty 2 values (new-IsStore 8 40)
