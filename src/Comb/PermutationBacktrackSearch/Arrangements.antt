-- ===== src/Comb/PermutationBacktrackSearch/Arrangements.antt =====
-- The arrangements that a search finds, in their order.
use premir_cpp.Common.{
  ℕ, zero, suc, ◌+◌, ◌-◌, ◌%◌, ◌^◌, ◌≤◌, ◌<◌, ◌≡◌, refl, ap, subst, Bool, true, false, List, [],
  ◌∷◌, ◌++◌, some, none, arith, ◌==◌, length, get_elem?, replicate, length-replicate, length-append,
  Bool-cases, inl, inr, get_elem?-append_last, ◌⊎◌, map, Option,
}
use premir_cpp.Common.Run.{Returns, Returns-bind, Returns-weaken}
use premir_cpp.Utils.Memory.{Block, Begins}
use premir_cpp.Utils.Memory.Writes.{Holds, get_elem?-Begins}
use premir_cpp.Utils.RdMatrix.Prepare.{IsStore}
use premir_cpp.Utils.RdMatrix.Store.{push_row-IsStore}
use premir_cpp.Comb.BacktrackSearch.{Results, backtrack}
use premir_cpp.Comb.BacktrackSearch.Visits.{Tree, visits, Pushed, Explores, backtrack-Found}
use premir_cpp.Comb.PermutationBacktrackSearch.{
  is_solution, process_solution, constract_candidates, new,
}
use premir_cpp.Comb.PermutationBacktrackSearch.Candidates.{
  has, unmarked, From, copy_solution-lem, mark-Marks, list_candidates-Begins,
}

-- An arrangement is whole with `n - 1` values, and goes on with any number below `n` that it has not.
abbrev pub tree : ℕ → Tree ℕ
tree n = record { leaf = λ p. length p == n - 1; row = λ p. p; choices = λ p. unmarked (has p) n 0 }

pub get_elem?-cons :
    {A : Type 0} (y : A) (xs : List A) (j : ℕ) (c : A)
    → get_elem? (y ∷ xs) j ≡ some c
    → (y ≡ c) ⊎ ((k : ℕ) × (get_elem? xs k ≡ some c))
get_elem?-cons y xs zero c e = inl (cc)
get_elem?-cons y xs (suc j) c e = inr (j, e)

pub unmarked-lt : (g : ℕ → Bool) (n i j c : ℕ) → get_elem? (unmarked g n i) j ≡ some c → c < i + n
unfolding unmarked
unmarked-lt g zero i j c e = cc
unmarked-lt g (suc n) i j c e = elim (Bool-cases (g i)) [
  | inl taken ↦ omega (arith, unmarked-lt g n (suc i) j c (rw taken at e))
  | inr free ↦ elim (get_elem?-cons i (unmarked g n (suc i)) j c (rw free at e)) [
    | inl here ↦ omega (arith, here)
    | inr (k, there) ↦ omega (arith, unmarked-lt g n (suc i) k c there)
  ]
]

get_elem?-replicate :
    (n x : ℕ) (b : Bool) → x < n → get_elem? (replicate n (some b)) x ≡ some (some b)
get_elem?-replicate zero x b h = absurd (omega arith)
get_elem?-replicate (suc n) zero b h = refl
get_elem?-replicate (suc n) (suc x) b h = get_elem?-replicate n x b (omega arith)

map-row : (n : ℕ) (ps : List (List ℕ)) → map (tree n).row ps ≡ ps
map-row n [] = refl
map-row n (p ∷ ps) = ap (◌∷◌ p) (map-row n ps)

-- A partial arrangement: less than `n` values, all below `n`.
pub record Partial (n : ℕ) (p : List ℕ) : Type 0 where
  pub short : length p < n
  pub small : (j x : ℕ) → get_elem? p j ≡ some x → x < n

pub Partial-snoc :
    (n : ℕ) (p : List ℕ) (c : ℕ) → Partial n p → length p + 1 < n → c < n → Partial n (p ++ c ∷ [])
Partial-snoc n p c part short small = record {
  short = omega (arith, short, length-append p (c ∷ []));
  small = λ j x e.
      get_elem?-append_last p c j x e (λ old. part.small j x old)
        (λ last. subst (λ y. y < n) last small);
}

From-Holds : {cells : ℕ} {p : List ℕ} {v : Block ℕ} → Holds cells p v → From v 0 p
From-Holds {v} h j x e =
    subst (λ k. get_elem? v k ≡ some (some x)) (omega arith) (get_elem?-Begins j h.begins e)

is_solution-leaf : (n k : ℕ) (v : Block ℕ) → 1 ≤ n → n < 2 ^ 64 → is_solution v k n ≡ (k == n - 1)
unfolding is_solution
is_solution-leaf n k v some_size fits =
    let wrapped : (n + (2 ^ 64 - 1)) % 2 ^ 64 ≡ n - 1 = omega arith in rw wrapped refl

module _ (grants : ℕ → Bool) (granted : (n : ℕ) → grants n ≡ true) where
  process_solution-Pushed :
      (cells size : ℕ) (p : List ℕ) (v : Block ℕ) (f : ℕ → List ℕ) (r : Results)
      → Holds cells p v
      → IsStore f r
      → Returns (Pushed f r.row_size (p ∷ [])) (process_solution grants v (length p) size r)
  unfolding process_solution
  process_solution-Pushed cells size p v f r h store =
      rw (copy_solution-lem v (length p) 0 [] p (From-Holds h) (omega arith)) (
        Returns-weaken (push_row-IsStore grants granted f r p store)
          λ s (kept, size). record { store = kept; size = size })

constract_candidates-Begins :
    (cells n max : ℕ) (p : List ℕ) (v : Block ℕ)
    → n ≤ max
    → Holds cells p v
    → Partial n p
    → Returns
        (λ (c, k). Begins (unmarked (has p) n 0) c × (k ≡ length (unmarked (has p) n 0)))
        (constract_candidates max v (length p) (replicate max none) n)
unfolding constract_candidates
constract_candidates-Begins cells n max p v fits h part =
    Returns-bind
      (mark-Marks v max 0 p (replicate max (some false)) (λ x. false) (From-Holds h)
        (λ j x e. omega (arith, part.small j x e, fits))
        (record {
          cells = length-replicate max (some false);
          marks = λ x h. get_elem?-replicate max x false h;
        }))
      λ in_perm m.
        list_candidates-Begins max (has p) in_perm n 0 [] (replicate max none) m
          (omega (arith, fits)) (omega arith)
          (record {
            begins = record { spare = replicate max none; split = refl };
            cells = length-replicate {A = Option ℕ} max none;
          })

module _ (grants : ℕ → Bool) (granted : (n : ℕ) → grants n ≡ true) where
  Explores-tree :
      (cells n max : ℕ)
      → 1 ≤ n
      → n < 2 ^ 64
      → n ≤ cells
      → n ≤ max
      → Explores (new grants max) (tree n) cells n (Partial n)
  unfolding new
  Explores-tree cells n max some_size word enough room = record {
    enough = enough;
    going = refl;
    leaf_lem = λ p v. is_solution-leaf n (length p) v some_size word;
    bounded = λ p part. omega (arith, part.short);
    deep = λ p part h. part.short;
    extend = λ p j c part h e.
        Partial-snoc n p c part (ground (arith, part.short, h))
          (omega (arith, unmarked-lt (has p) n 0 j c e));
    process =
        λ p v f r h valid store. process_solution-Pushed grants granted cells n p v f r h store;
    constract = λ p v h part _. constract_candidates-Begins cells n max p v room h part;
    make = λ v depth. refl;
    unmake = λ v depth. refl;
  }

  -- Where the allocator grants every request, for a size `n` of 1 to `2 ^ 64 - 1`, with room for `n`
  -- candidates, a vector of at least `n` cells and results that store the lists `f`, the search from
  -- depth 0 for arrangements returns, with `n + 1` levels of fuel. It has pushed, behind the rows of
  -- `f`, the leaves of the tree in which an arrangement of less than `n - 1` numbers goes on, in
  -- ascending order, with each number below `n` that it has not.
  pub backtrack-arrangements :
      (n max : ℕ) (v : Block ℕ) (f : ℕ → List ℕ) (r : Results)
      → 1 ≤ n
      → n < 2 ^ 64
      → n ≤ length v
      → n ≤ max
      → IsStore f r
      → Returns
          (λ (_, found). Pushed f r.row_size (visits (tree n) (n + 1) []) found)
          (backtrack (new grants max) (n + 1) v 0 n r)
  backtrack-arrangements n max v f r some_size word enough room store =
      Returns-weaken
        (backtrack-Found (new grants max) (tree n) (length v) n (Partial n)
          (Explores-tree (length v) n max some_size word enough room) (n + 1) [] v f r (omega arith)
          (record { short = omega arith; small = λ j x e. cc })
          (record { begins = record { spare = v; split = refl }; cells = refl }) store)
        λ end found.
          subst (λ us. Pushed f r.row_size us end.1) (map-row n (visits (tree n) (n + 1) []))
            found.pushed
