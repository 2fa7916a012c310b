-- ===== src/Kohonen/UMat.antt =====
-- src/kohonen/umat/UMat.h: what the U-matrices of both topologies share, over numbers whose
-- operations are a parameter. A map has at least one neuron in each direction.
pub mod Tests
pub mod BubbleSort
pub mod Medians
use premir_cpp.Common.{
  ℕ, zero, suc, ◌+◌, ◌-◌, ◌*◌, ◌%◌, ◌^◌, Bool, true, false, List, [], ◌∷◌, some, ◌==◌,
  if◌then◌else◌, get_elem?,
}
use premir_cpp.Common.Run.{Run, ok, ◌>>=◌, defined, for}
use premir_cpp.Sort.HeapSort.{Ordered, load, store}
use premir_cpp.Utils.R3dMatrix.{R3dMatrix, sized, write_points, new as new_r3d_matrix}
use premir_cpp.Utils.RMatrix.{RMatrix, cell, put, new as new_r_matrix}

-- What the code takes from `double`, without NaN; `number` is its literals, and the quotient of a
-- `float` literal is that of the same `double`.
pub record Arithmetic (D : Type 0) : Type 0 where
  pub order : Ordered D
  pub add : D → D → D
  pub sub : D → D → D
  pub mul : D → D → D
  pub div : D → D → D
  pub neg : D → D
  pub sqrt : D → D
  pub number : ℕ → D
  pub max_value : D

-- `a - b` on `size_t`, where it may wrap.
abbrev pub size_sub : ℕ → ℕ → ℕ
size_sub a b = (a + 2 ^ 64 - b) % 2 ^ 64

-- Parameters: what the program keeps for a neuron, and the numbers.
pub record UMat (Info D : Type 0) : Type 0 where
  pub som_matrix : R3dMatrix Bool Info D
  pub u_matrix : RMatrix Info D
  pub xdim : ℕ
  pub ydim : ℕ
  pub dim : ℕ
  pub uxdim : ℕ
  pub uydim : ℕ

module _ {Info D : Type 0} (grants : ℕ → Bool) where
  -- The constructor, given `sizeof` of a point, of a row and a cell of `SOMMatrix`, and of a row of
  -- `UMatCodes`.
  unfoldable pub new : (t row cell u_row : ℕ) → (xdim ydim dim : ℕ) → Run (UMat Info D)
  new t row cell u_row xdim ydim dim = do
    let uxdim = size_sub (2 * xdim) 1
    let uydim = size_sub (2 * ydim) 1
    som_matrix ← sized grants (new_r3d_matrix t row cell) xdim ydim
    u_matrix ← new_r_matrix grants t u_row uxdim uydim
    ok (record {
      som_matrix = som_matrix;
      u_matrix = u_matrix;
      xdim = xdim;
      ydim = ydim;
      dim = dim;
      uxdim = uxdim;
      uydim = uydim;
    })

  -- `initializeMat(trainedSom)`, for the codes of the neurons of a trained map.
  unfoldable pub initialize_mat : UMat Info D → List (List D) → Run (UMat Info D)
  initialize_mat m trained_som = do
    written ←
        for m.ydim 0
          (λ j som.
            for m.xdim 0
              (λ i som. do
                codes ← defined (get_elem? trained_som (j * m.xdim + i))
                write_points grants som i j codes m.dim false)
              som)
          m.som_matrix
    ok (record m { som_matrix = written })

module _ {D : Type 0} (real : Arithmetic D) where
  -- `if (array[i] > array[i + 1])`, the two trade places.
  bubble_step : ℕ → List D → Run (List D)
  bubble_step i array = do
    left ← load array i
    right ← load array (i + 1)
    if real.order.gt left right
        then (do lower ← store array i right; store lower (i + 1) left)
        else ok array

  -- The double loop in each of the five medians, over `n` values.
  unfoldable pub bubble_sort : ℕ → List D → Run (List D)
  unfolding bubble_step load store for
  bubble_sort n array = for (n - 1) 0 (λ j sorting. for (n - 1 - j) 0 bubble_step sorting) array

  unfoldable pub median7 : D → D → D → D → D → D → D → Run D
  unfolding bubble_sort load
  median7 yy kaa koo nee vii kuu see = do
    array ← bubble_sort 7 (yy ∷ kaa ∷ koo ∷ nee ∷ vii ∷ kuu ∷ see ∷ [])
    load array 3

  unfoldable pub median6 : D → D → D → D → D → D → Run D
  unfolding bubble_sort load
  median6 yy kaa koo nee vii kuu = do
    array ← bubble_sort 6 (yy ∷ kaa ∷ koo ∷ nee ∷ vii ∷ kuu ∷ [])
    load array 3

  unfoldable pub median5 : D → D → D → D → D → Run D
  unfolding bubble_sort load
  median5 yy kaa koo nee vii = do
    array ← bubble_sort 5 (yy ∷ kaa ∷ koo ∷ nee ∷ vii ∷ [])
    load array 2

  unfoldable pub median4 : D → D → D → D → Run D
  unfolding bubble_sort load
  median4 yy kaa koo nee = do array ← bubble_sort 4 (yy ∷ kaa ∷ koo ∷ nee ∷ []); load array 2

  unfoldable pub median3 : D → D → D → Run D
  unfolding bubble_sort load
  median3 yy kaa koo = do array ← bubble_sort 3 (yy ∷ kaa ∷ koo ∷ []); load array 1

  -- `1.0 - (x - min) / bw`, `x / max` and `-x / max + 1.0`; other types leave `x` as it is.
  scaled : ℕ → D → D → D → D
  scaled type most least x =
      if type == 0
      then real.sub (real.number 1) (real.div (real.sub x least) (real.sub most least))
      else if type == 1
      then real.div x most
      else if type == 2
      then real.add (real.div (real.neg x) most) (real.number 1)
      else x

module _ {Info D : Type 0} (real : Arithmetic D) where
  -- The search of `scaleUMatrix` for the greatest and the least value.
  max_min_step : RMatrix Info D → ℕ → ℕ → D × D → Run (D × D)
  max_min_step u i j (most, least) = do
    value ← cell u i j
    ok (
      if real.order.gt value most then value else most,
      if real.order.gt least value then value else least,
    )

  max_min : ℕ → ℕ → RMatrix Info D → Run (D × D)
  unfolding max_min_step
  max_min uxdim uydim u =
      for uxdim 0 (λ i column. for uydim 0 (λ j so_far. max_min_step u i j so_far) column)
        (real.neg real.max_value, real.max_value)

  scale_cell : ℕ → D → D → ℕ → ℕ → RMatrix Info D → Run (RMatrix Info D)
  unfolding scaled
  scale_cell type most least i j u = do
    value ← cell u i j
    put u i j (scaled real type most least value)

  -- `scaleUMatrix(type)`.
  unfoldable pub scale_u_matrix : ℕ → UMat Info D → Run (UMat Info D)
  unfolding max_min scale_cell for cell put
  scale_u_matrix type m = do
    (most, least) ← max_min m.uxdim m.uydim m.u_matrix
    done ←
        for m.uxdim 0 (λ i u. for m.uydim 0 (λ j u. scale_cell type most least i j u) u) m.u_matrix
    ok (record m { u_matrix = done })
