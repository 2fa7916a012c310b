-- ===== src/Utils/CArrayList/Tests.antt =====
-- A list that grows, and its comparison.
use premir_cpp.Common.{ℕ, ◌≡◌, refl, ◌+◌, Bool, true, List, [], ◌∷◌, ◌++◌, some, none}
use premir_cpp.Common.Run.{ok, ◌>>=◌, Returns}
use premir_cpp.Utils.Memory.{malloc, realloc, memcpy}
use premir_cpp.Utils.RdMatrix.{reallocate}
use premir_cpp.Utils.CArrayList.{CArrayList, new, push, push_one, write}
use premir_cpp.Utils.CArrayList.Lists.{IsList, push-IsList}
use premir_cpp.Utils.CArrayList.Sum.{sum_first}

abbrev all_granted : ℕ → Bool
all_granted bytes = true

-- A list of four cells, of which three are in use.
abbrev numbers : CArrayList ℕ
numbers = record {
  array = some 5 ∷ some 6 ∷ some 7 ∷ none ∷ [];
  size = 3;
  capacity = 4;
  type_sizeof = 8;
  capacity_increase = 1;
}

abbrev five_six_seven : List ℕ
five_six_seven = 5 ∷ 6 ∷ 7 ∷ []

numbers-IsList : IsList five_six_seven numbers
numbers-IsList = record {
  count = refl;
  cells = refl;
  begins = record { spare = none ∷ []; split = refl };
}

push-IsList_example :
    Returns (IsList (five_six_seven ++ 8 ∷ 9 ∷ [])) (push all_granted numbers (8 ∷ 9 ∷ []) 2)
push-IsList_example =
    push-IsList all_granted (λ bytes. refl) five_six_seven (8 ∷ 9 ∷ []) numbers numbers-IsList

pushed_one :
    (do a ← push_one {T = ℕ} all_granted (new 8) 5; b ← push_one all_granted a 6; ok b.array)
    ≡ ok (some 5 ∷ some 6 ∷ [])
unfolding new push_one reallocate malloc memcpy realloc
pushed_one = refl

-- `write` behind the values makes the array longer.
written_behind :
    (do a ← write all_granted numbers 4 (9 ∷ []) 1; ok a.array)
    ≡ ok (some 5 ∷ some 6 ∷ some 7 ∷ none ∷ some 9 ∷ [])
unfolding write reallocate realloc memcpy
written_behind = refl

doubled : sum_first ◌+◌ 3 five_six_seven five_six_seven ≡ 10 ∷ 12 ∷ 14 ∷ []
unfolding sum_first
doubled = refl
