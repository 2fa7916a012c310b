-- ===== src/Utils/CArrayList.antt =====
-- src/utils/CArrayList.h, class `CArrayList<T>`. A null `array` is the empty block. A value that is
-- moved is written like one that is copied; what the move leaves of the source is not observed.
pub mod Lists
pub mod Sum
mod Tests
use premir_cpp.Common.{
  ℕ, zero, suc, ◌+◌, ◌*◌, Bool, true, false, not, List, [], ◌∷◌, ◌++◌, map, none, some, ltb, ◌==◌,
  if◌then◌else◌, length, get_elem?, set, take,
}
use premir_cpp.Common.Run.{Run, ok, undefined, ◌>>=◌, defined, for}
use premir_cpp.Utils.Memory.{Block, malloc, memcpy}
use premir_cpp.Utils.RdMatrix.{reallocate}

pub record CArrayList {ℓ} (T : Type ℓ) : Type ℓ where
  pub array : Block T
  pub size : ℕ
  pub capacity : ℕ
  pub type_sizeof : ℕ
  pub capacity_increase : ℕ

module _ {ℓ} {T : Type ℓ} where
  -- The default constructor; the argument is `sizeof(T)`.
  unfoldable pub new : ℕ → CArrayList T
  new t = record { array = []; size = 0; capacity = 0; type_sizeof = t; capacity_increase = 1 }

  set_size : CArrayList T → ℕ → CArrayList T
  set_size list n = record list { size = n }

  -- `list[index]`.
  unfoldable pub at : CArrayList T → ℕ → Run T
  at list index = do content ← defined (get_elem? list.array index); defined content

  -- What moving from a list leaves there.
  moved_from : CArrayList T → CArrayList T
  moved_from list = record list { array = []; size = 0; capacity = 0 }

  remove_all : CArrayList T → CArrayList T
  remove_all list = record list { array = []; size = 0; capacity = 0 }

  -- `operator==`, from index `i` on; `same` is that of `T`.
  unfoldable pub equal_from : (T → T → Bool) → CArrayList T → CArrayList T → ℕ → ℕ → Run Bool
  unfolding at
  equal_from same list other zero i = ok true
  equal_from same list other (suc rounds) i =
      let rest = equal_from same list other rounds (suc i) in
      do x ← at list i; y ← at other i; if not (same x y) then ok false else rest

  unfoldable pub equal : (T → T → Bool) → CArrayList T → CArrayList T → Run Bool
  unfolding equal_from
  equal same list other =
      if not (other.size == list.size) then ok false else equal_from same list other list.size 0

  -- `sum`, the loop of which adds `b[i]` to entry `i`.
  unfoldable pub add_cell : (T → T → T) → CArrayList T → ℕ → CArrayList T → Run (CArrayList T)
  unfolding at
  add_cell plus b i list = do
    x ← at list i
    y ← at b i
    ok (record list { array = set list.array i (some (plus x y)) })

  unfoldable pub sum : (T → T → T) → CArrayList T → CArrayList T → Run (CArrayList T)
  unfolding add_cell
  sum plus list b = for list.size 0 (add_cell plus b) list

module _ {ℓ} {T : Type ℓ} (grants : ℕ → Bool) where
  -- The constructor of a list with some capacity.
  new_capacity : (t capacity increase : ℕ) → Run (CArrayList T)
  new_capacity t zero increase =
      ok (record {
        array = [];
        size = 0;
        capacity = 0;
        type_sizeof = t;
        capacity_increase = increase;
      })
  new_capacity t (suc n) increase = do
    array ← malloc T grants t (suc n)
    ok (record {
      array = array;
      size = 0;
      capacity = suc n;
      type_sizeof = t;
      capacity_increase = increase;
    })

  -- The constructor from an array of `len` values.
  from_array : ℕ → List T → ℕ → Run (CArrayList T)
  from_array t arr len = do
    empty ← malloc T grants t len
    array ← memcpy empty 0 (map some arr) len
    ok (record {
      array = array;
      size = len;
      capacity = len;
      type_sizeof = t;
      capacity_increase = 1;
    })

  -- The copy constructor copies all `capacity` cells.
  copy : CArrayList T → Run (CArrayList T)
  copy list = go list.capacity
    where
      go : ℕ → Run (CArrayList T)
      go zero = ok (record list { array = [] })
      go (suc n) = do
        empty ← malloc T grants list.type_sizeof (suc n)
        array ← memcpy empty 0 list.array (suc n)
        ok (record list { array = array })

  unfoldable pub initialize_array_memory : CArrayList T → ℕ → Run (CArrayList T)
  initialize_array_memory list new_size =
      let increased = list.capacity + list.capacity_increase in
      let new_capacity = if ltb increased new_size then new_size else increased in
      if ltb list.capacity new_size
      then (do
        array ← reallocate grants list.type_sizeof list.array new_capacity
        ok (record list { array = array; capacity = new_capacity }))
      else ok list

  -- `push(const T *values, size_t valuesSize)`; `push` of one value is that of an array of one.
  unfoldable pub push : CArrayList T → List T → ℕ → Run (CArrayList T)
  unfolding initialize_array_memory
  push list values values_size = do
    let new_length = list.size + values_size
    wider ← initialize_array_memory list new_length
    array ← memcpy wider.array wider.size (map some values) values_size
    ok (record wider { array = array; size = new_length })

  unfoldable pub push_one : CArrayList T → T → Run (CArrayList T)
  unfolding push
  push_one list value = push list (value ∷ []) 1

  -- `write` leaves the size as it is.
  unfoldable pub write : CArrayList T → ℕ → List T → ℕ → Run (CArrayList T)
  unfolding initialize_array_memory
  write list position values values_size = do
    let new_length = position + values_size
    wider ← initialize_array_memory list new_length
    array ← memcpy wider.array position (map some values) values_size
    ok (record wider { array = array })
