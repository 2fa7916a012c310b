-- ===== src/Utils/Memory.antt =====
-- Memory as the containers of src/utils use it. The C allocator is not part of the program: what
-- it grants is a parameter, a function of the bytes that are asked for. `std::malloc` hands out
-- cells that hold nothing yet (`none`), `std::realloc` keeps the old cells, and a request that is
-- refused makes the code throw.
pub mod Writes
use premir_cpp.Common.{
  ℕ, ◌+◌, ◌-◌, ◌*◌, Bool, List, ◌++◌, Option, none, ltb, if◌then◌else◌, length, replicate, take,
  drop, ◌≡◌, ap, ◌∙◌, some, map, length-append, length-map,
}
use premir_cpp.Common.Run.{Run, ok, throws, out_of_memory, undefined}

-- The cells of one block.
abbrev pub Block {ℓ} : Type ℓ → Type ℓ
Block T = List (Option T)

module _ {ℓ} (T : Type ℓ) where
  -- `malloc(type_sizeof * n)`, and the exception when it returns `NULL`.
  unfoldable pub malloc : (ℕ → Bool) → ℕ → ℕ → Run (Block T)
  malloc grants type_sizeof n =
      if grants (type_sizeof * n) then ok (replicate n none) else throws out_of_memory

module _ {ℓ} {T : Type ℓ} where
  -- `realloc(p, type_sizeof * n)`.
  unfoldable pub realloc : (ℕ → Bool) → ℕ → Block T → ℕ → Run (Block T)
  realloc grants type_sizeof block n =
      if grants (type_sizeof * n)
      then ok (take n block ++ replicate (n - length block) none)
      else throws out_of_memory

  -- `memcpy(block + at, values, n)`: the values are written over the cells from `at` on.
  abbrev pub overwrite : Block T → ℕ → Block T → Block T
  overwrite block at values = take at block ++ (values ++ drop (at + length values) block)

  unfoldable pub memcpy : Block T → ℕ → Block T → ℕ → Run (Block T)
  memcpy block at values n =
      if ltb (length values) n
      then undefined
      else if ltb (length block) (at + n)
      then undefined
      else ok (overwrite block at (take n values))

  -- The block begins with the values `xs`.
  pub record Begins (xs : List T) (block : Block T) : Type ℓ where
    pub spare : Block T
    pub split : block ≡ map some xs ++ spare

  pub length-Begins :
      {xs : List T} {block : Block T} (b : Begins xs block)
      → length block ≡ length xs + length b.spare
  length-Begins {xs} b =
      ap length b.split
      ∙ length-append (map some xs) b.spare
      ∙ ap (λ n. n + length b.spare) (length-map xs some)
