-- ===== src/Utils/LinkedList/Tests.antt =====
-- Runs and examples of the linked list.
use premir_cpp.Common.{ℕ, ◌≡◌, refl, true, false, [], ◌∷◌, none, some, arith, ◌==◌, if◌then◌else◌}
use premir_cpp.Common.Run.{ok, throws, out_of_memory, Returns}
use premir_cpp.Utils.LinkedList.{
  Heap, LinkedList, push, pop, insert_after, insert_before, at, remove_all, concat, assign,
}
use premir_cpp.Utils.LinkedList.Chain.{Cells, has, IsLinked}
use premir_cpp.Utils.LinkedList.Ends.{Added, Removed, push-Added}
use premir_cpp.Utils.LinkedList.Walk.{at-address, pop-Removed}
use premir_cpp.Utils.LinkedList.Insert.{insert_after-Added}
use premir_cpp.Utils.LinkedList.InsertBefore.{insert_before-Added}
use premir_cpp.Utils.LinkedList.Clear.{Cleared, remove_all-Cleared}
use premir_cpp.Utils.LinkedList.Concat.{
  Concatenated, Assigned, concat-Concatenated, assign-Assigned,
}
use premir_cpp.Utils.LinkedList.SelfConcat.{concat_self}

-- The list 5, 7 at the addresses 1 and 2, and the list 9 at the address 3.
abbrev heap : Heap ℕ
heap p =
    if p == 1
    then some (record { value = 5; next = 2 })
    else if p == 2
    then some (record { value = 7; next = 0 })
    else if p == 3
    then some (record { value = 9; next = 0 })
    else none

abbrev list : LinkedList
list = record { size = 2; first = 1; last = 2 }

abbrev other_list : LinkedList
other_list = record { size = 1; first = 3; last = 3 }

abbrev cells : Cells ℕ
cells = (1, 5) ∷ (2, 7) ∷ []

abbrev other_cells : Cells ℕ
other_cells = (3, 9) ∷ []

list-IsLinked : IsLinked heap list cells
list-IsLinked = record {
  chain = (omega arith, refl, refl, (omega arith, refl, refl, tt));
  first_eq = refl;
  last_eq = refl;
  count = refl;
}

other_list-IsLinked : IsLinked heap other_list other_cells
other_list-IsLinked = record {
  chain = (omega arith, refl, refl, tt);
  first_eq = refl;
  last_eq = refl;
  count = refl;
}

cells-apart : (b : ℕ) → has other_cells b ≡ true → has cells b ≡ false
cells-apart b i = ground (arith, i)

pop-Removed_example : Returns (Removed heap cells 2 1 ((1, 5) ∷ [])) (pop heap list)
pop-Removed_example = pop-Removed heap list ((1, 5) ∷ []) 2 7 list-IsLinked

at-address_example : at heap list 1 ≡ ok 2
at-address_example = at-address heap list cells 1 list-IsLinked

push-Added_example :
    Returns (Added heap cells 4 8 ((1, 5) ∷ (2, 7) ∷ (4, 8) ∷ [])) (push heap list (some 4) 8)
push-Added_example = push-Added heap list cells 4 8 list-IsLinked (omega arith) refl

insert_after-Added_example :
    Returns
      (Added heap cells 4 8 ((1, 5) ∷ (4, 8) ∷ (2, 7) ∷ []))
      (insert_after heap list (some 4) 8 1)
insert_after-Added_example =
    insert_after-Added heap list [] 1 5 ((2, 7) ∷ []) 4 8 list-IsLinked (omega arith) refl

insert_before-Added_example :
    Returns
      (Added heap cells 4 8 ((1, 5) ∷ (4, 8) ∷ (2, 7) ∷ []))
      (insert_before heap list (some 4) 8 2)
insert_before-Added_example =
    insert_before-Added heap list ((1, 5) ∷ []) 2 7 [] 4 8 list-IsLinked (omega arith) refl

assign-Assigned_example :
    Returns (Assigned heap cells ((2, 9) ∷ [])) (assign heap list false (2 ∷ []) other_list)
assign-Assigned_example =
    assign-Assigned heap list other_list cells other_cells (2 ∷ []) list-IsLinked
      other_list-IsLinked cells-apart (omega arith, refl, refl, tt) (omega arith)

concat_self_example : concat heap list (4 ∷ 6 ∷ []) list ≡ throws out_of_memory
concat_self_example =
    concat_self heap list (1, 5) ((2, 7) ∷ []) (4 ∷ 6 ∷ []) list-IsLinked
      (omega arith, refl, refl, (omega arith, refl, refl, tt))

remove_all-Cleared_example : Returns (Cleared heap cells) (remove_all heap list)
remove_all-Cleared_example = remove_all-Cleared heap list cells list-IsLinked

concat-Concatenated_example :
    Returns (Concatenated heap cells ((4, 9) ∷ [])) (concat heap list (4 ∷ []) other_list)
concat-Concatenated_example =
    concat-Concatenated heap list other_list cells other_cells (4 ∷ []) list-IsLinked
      other_list-IsLinked cells-apart (omega arith, refl, refl, tt) (omega arith)
