-- ===== src/Utils/Memory/Writes.antt =====
-- A block that is filled one cell after the other.
use mathlib.Core.List.{map-append, append_assoc}
use premir_cpp.Common.{
  ℕ, zero, suc, ◌<◌, ◌≡◌, refl, ap, ◌∙◌, List, [], ◌∷◌, ◌++◌, map, some, arith, length, get_elem?,
  set, length-set,
}
use premir_cpp.Utils.Memory.{Block, Begins, length-Begins}

module _ {ℓ} {T : Type ℓ} where
  -- The block has `n` cells, and begins with the values `xs`.
  pub record Holds (n : ℕ) (xs : List T) (block : Block T) : Type ℓ where
    pub begins : Begins xs block
    pub cells : length block ≡ n

  set-behind :
      (xs : List T) (x : T) (spare : Block T)
      → 0 < length spare
      → (rest : Block T) × (set (map some xs ++ spare) (length xs) (some x)
          ≡ map some (xs ++ x ∷ []) ++ rest)
  set-behind [] x [] h = absurd (omega arith)
  set-behind [] x (y ∷ spare) h = (spare, refl)
  set-behind (y ∷ xs) x spare h =
      let (rest, e) = set-behind xs x spare h in (rest, ap (◌∷◌ (some y)) e)

  pub set-Holds :
      {n : ℕ} (xs : List T) {block : Block T} (x : T)
      → Holds n xs block
      → length xs < n
      → Holds n (xs ++ x ∷ []) (set block (length xs) (some x))
  set-Holds {n} xs {block} x h fits =
      let (rest, e) =
        set-behind xs x h.begins.spare (omega (arith, length-Begins h.begins, h.cells)) in
      record {
        begins = record {
          spare = rest;
          split = ap (λ b. set b (length xs) (some x)) h.begins.split ∙ e;
        };
        cells = length-set block (length xs) (some x) ∙ h.cells;
      }

  pub Holds-shorten :
      {n : ℕ} (xs ys : List T) {block : Block T} → Holds n (xs ++ ys) block → Holds n xs block
  Holds-shorten xs ys {block} h = record {
    begins = record {
      spare = map some ys ++ h.begins.spare;
      split =
          h.begins.split
          ∙ ap (λ us. us ++ h.begins.spare) (map-append some xs ys)
          ∙ append_assoc (map some xs) (map some ys) h.begins.spare;
    };
    cells = h.cells;
  }

  pub get_elem?-map_append :
      (xs : List T) (spare : Block T) (i : ℕ) (x : T)
      → get_elem? xs i ≡ some x
      → get_elem? (map some xs ++ spare) i ≡ some (some x)
  get_elem?-map_append [] spare i x e = cc
  get_elem?-map_append (y ∷ xs) spare zero x e = ap some e
  get_elem?-map_append (y ∷ xs) spare (suc i) x e = get_elem?-map_append xs spare i x e

  pub get_elem?-Begins :
      {xs : List T} {block : Block T} (i : ℕ) {x : T}
      → Begins xs block
      → get_elem? xs i ≡ some x
      → get_elem? block i ≡ some (some x)
  get_elem?-Begins {xs} {block} i {x} b e = rw b.split (get_elem?-map_append xs b.spare i x e)

  set-map_append :
      (xs : List T) (spare : Block T) (i : ℕ) (x : T)
      → i < length xs
      → set (map some xs ++ spare) i (some x) ≡ map some (set xs i x) ++ spare
  set-map_append [] spare i x h = absurd (omega arith)
  set-map_append (y ∷ xs) spare zero x h = refl
  set-map_append (y ∷ xs) spare (suc i) x h =
      ap (◌∷◌ (some y)) (set-map_append xs spare i x (omega arith))

  -- A write to one of the values that a block begins with.
  pub set-Begins :
      {xs : List T} {block : Block T} (i : ℕ) (x : T)
      → Begins xs block
      → i < length xs
      → Begins (set xs i x) (set block i (some x))
  set-Begins {xs} {block} i x b h = record {
    spare = b.spare;
    split = ap (λ c. set c i (some x)) b.split ∙ set-map_append xs b.spare i x h;
  }
