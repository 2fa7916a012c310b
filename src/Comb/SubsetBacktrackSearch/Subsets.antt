-- ===== src/Comb/SubsetBacktrackSearch/Subsets.antt =====
-- The subsets that a search finds, in their order.
use mathlib.Core.List.{map-append, append_assoc, append-nil}
use native.Mathlib.Nat.{zero-add}
use premir_cpp.Common.{
  ℕ, zero, suc, ◌+◌, ◌≤◌, ◌≡◌, refl, sym, ap, ◌∙◌, subst, Bool, true, false, List, [], ◌∷◌, ◌++◌,
  map, some, none, arith, ◌==◌, if◌then◌else◌, length, get_elem?, replicate, length-append, lt→ltb,
}
use premir_cpp.Common.Run.{ok, Returns, returns, Returns-weaken}
use premir_cpp.Utils.Memory.{Block, Begins}
use premir_cpp.Utils.Memory.Writes.{Holds, get_elem?-Begins}
use premir_cpp.Utils.RdMatrix.Prepare.{IsStore}
use premir_cpp.Utils.RdMatrix.Store.{push_row-IsStore}
use premir_cpp.Comb.BacktrackSearch.{Results, read_cell, write_cell, backtrack}
use premir_cpp.Comb.BacktrackSearch.Visits.{Tree, visits, Pushed, Explores, backtrack-Found}
use premir_cpp.Comb.SubsetBacktrackSearch.{collect, process_solution, constract_candidates, new}

-- The indices, from `i` on, at which `true` stands.
unfoldable pub members : ℕ → List Bool → List ℕ
members i [] = []
members i (true ∷ bs) = i ∷ members (suc i) bs
members i (false ∷ bs) = members (suc i) bs

-- The subsets of `i`, …, `i + n - 1`: first those with `i`, then those without.
unfoldable pub subsets : ℕ → ℕ → List (List ℕ)
subsets i zero = [] ∷ []
subsets i (suc n) = map (◌∷◌ i) (subsets (suc i) n) ++ subsets (suc i) n

abbrev pub tree : ℕ → Tree Bool
tree n = record { leaf = λ p. length p == n; row = members 0; choices = λ p. true ∷ false ∷ [] }

later :
    (v : Block Bool) (i : ℕ) (b : Bool) (bs : List Bool)
    → ((j : ℕ) (c : Bool) → get_elem? (b ∷ bs) j ≡ some c → get_elem? v (i + j) ≡ some (some c))
    → (j : ℕ) (c : Bool) → get_elem? bs j ≡ some c
    → get_elem? v (suc i + j) ≡ some (some c)
later v i b bs at j c e = subst (λ k. get_elem? v k ≡ some (some c)) (omega arith) (at (suc j) c e)

collect-members :
    (v : Block Bool) (depth i : ℕ) (result : List ℕ) (bs : List Bool)
    → ((j : ℕ) (b : Bool) → get_elem? bs j ≡ some b → get_elem? v (i + j) ≡ some (some b))
    → length result + length bs ≤ depth
    → collect v depth (length bs) i result ≡ ok (result ++ members i bs)
unfolding collect members read_cell
collect-members v depth i result [] at room = rw (append-nil result) refl
collect-members v depth i result (true ∷ bs) at room =
    let here : get_elem? v i ≡ some (some true) =
      subst (λ k. get_elem? v k ≡ some (some true)) (omega arith) (at 0 true refl) in
    let grown = length-append result (i ∷ []) in
    rw
      (
        here,
        lt→ltb (length result) depth (omega (arith, room)),
        sym (append_assoc result (i ∷ []) (members (suc i) bs)),
      )
      (collect-members v depth (suc i) (result ++ i ∷ []) bs (later v i true bs at)
        (omega (arith, room, grown)))
collect-members v depth i result (false ∷ bs) at room =
    let here : get_elem? v i ≡ some (some false) =
      subst (λ k. get_elem? v k ≡ some (some false)) (omega arith) (at 0 false refl) in
    rw here
      (collect-members v depth (suc i) result bs (later v i false bs at) (omega (arith, room)))

members-snoc :
    (i : ℕ) (bs : List Bool) (b : Bool)
    → members i (bs ++ b ∷ []) ≡ members i bs ++ (if b then (i + length bs) ∷ [] else [])
unfolding members
members-snoc i [] true = let same : i + 0 ≡ i = omega arith in rw same refl
members-snoc i [] false = refl
members-snoc i (true ∷ bs) b =
    let same : i + suc (length bs) ≡ suc i + length bs = omega arith in
    rw same (ap (◌∷◌ i) (members-snoc (suc i) bs b))
members-snoc i (false ∷ bs) b =
    let same : i + suc (length bs) ≡ suc i + length bs = omega arith in
    rw same (members-snoc (suc i) bs b)

-- The subsets that extend `us`.
extend : List ℕ → List (List ℕ) → List (List ℕ)
extend us = map (λ xs. us ++ xs)

extend-cons :
    (us : List ℕ) (i : ℕ) (s : List (List ℕ)) → extend (us ++ i ∷ []) s ≡ extend us (map (◌∷◌ i) s)
unfolding extend
extend-cons us i [] = refl
extend-cons us i (xs ∷ s) =
    rw (append_assoc us (i ∷ []) xs) (ap (◌∷◌ (us ++ i ∷ xs)) (extend-cons us i s))

extend-nil : (s : List (List ℕ)) → extend [] s ≡ s
unfolding extend
extend-nil [] = refl
extend-nil (xs ∷ s) = ap (◌∷◌ xs) (extend-nil s)

visits-leaf :
    (n k : ℕ) (p : List Bool) → (length p == n) ≡ true → visits (tree n) (suc k) p ≡ p ∷ []
unfolding visits
visits-leaf n k p whole = rw whole refl

visits-node :
    (n k : ℕ) (p : List Bool)
    → (length p == n) ≡ false
    → visits (tree n) (suc k) p
      ≡ visits (tree n) k (p ++ true ∷ []) ++ visits (tree n) k (p ++ false ∷ [])
unfolding visits
visits-node n k p part = rw (part, append-nil (visits (tree n) k (p ++ false ∷ []))) refl

-- The leaves of the tree below a partial solution are its extensions by a subset of the rest.
visits-subsets :
    (n d : ℕ) (p : List Bool)
    → length p + d ≡ n
    → map (members 0) (visits (tree n) (suc d) p) ≡ extend (members 0 p) (subsets (length p) d)
unfolding subsets extend members
visits-subsets n zero p e =
    let whole : (length p == n) ≡ true = ground arith in
    rw (visits-leaf n zero p whole, append-nil (members 0 p)) refl
visits-subsets n (suc d) p e =
    let part : (length p == n) ≡ false = ground arith in
    let longer : (b : Bool) → length (p ++ b ∷ []) ≡ suc (length p) =
      λ b. omega (arith, length-append p (b ∷ [])) in
    let with_it : map (members 0) (visits (tree n) (suc d) (p ++ true ∷ []))
        ≡ extend (members 0 p) (map (◌∷◌ (length p)) (subsets (suc (length p)) d)) =
      visits-subsets n d (p ++ true ∷ []) (omega (arith, e, longer true))
      ∙ rw (longer true, members-snoc 0 p true, zero-add)
          (extend-cons (members 0 p) (length p) (subsets (suc (length p)) d)) in
    let without : map (members 0) (visits (tree n) (suc d) (p ++ false ∷ []))
        ≡ extend (members 0 p) (subsets (suc (length p)) d) =
      visits-subsets n d (p ++ false ∷ []) (omega (arith, e, longer false))
      ∙ rw (longer false, members-snoc 0 p false, append-nil (members 0 p)) refl in
    rw
      (
        visits-node n (suc d) p part,
        map-append (members 0) (visits (tree n) (suc d) (p ++ true ∷ []))
            (visits (tree n) (suc d) (p ++ false ∷ [])),
        with_it,
        without,
      )
      (sym (
        map-append (λ xs. members 0 p ++ xs) (map (◌∷◌ (length p)) (subsets (suc (length p)) d))
          (subsets (suc (length p)) d)))

constract_candidates-both :
    (v : Block Bool) (depth size m : ℕ)
    → 2 ≤ m
    → Returns
        (λ (candidates, n). Begins (true ∷ false ∷ []) candidates × (n ≡ 2))
        (constract_candidates v depth (replicate m none) size)
unfolding constract_candidates write_cell
constract_candidates-both v depth size zero h = absurd (omega arith)
constract_candidates-both v depth size (suc zero) h = absurd (omega arith)
constract_candidates-both v depth size (suc (suc m)) h =
    let spare : Block Bool = replicate m none in
    rw
      (
        lt→ltb 0 (suc (suc (length spare))) (omega arith),
        lt→ltb 1 (suc (suc (length spare))) (omega arith),
      )
      (returns (record { spare = spare; split = refl }, refl))

module _ (grants : ℕ → Bool) (granted : (n : ℕ) → grants n ≡ true) where
  process_solution-Pushed :
      (cells size : ℕ) (p : List Bool) (v : Block Bool) (f : ℕ → List ℕ) (r : Results)
      → Holds cells p v
      → IsStore f r
      → Returns
          (Pushed f r.row_size (members 0 p ∷ []))
          (process_solution grants v (length p) size r)
  unfolding process_solution
  process_solution-Pushed cells size p v f r h store =
      let read =
        collect-members v (length p) 0 [] p
          (λ j b e.
            subst (λ k. get_elem? v k ≡ some (some b)) (omega arith)
              (get_elem?-Begins j h.begins e))
          (omega arith) in
      rw read (
        Returns-weaken (push_row-IsStore grants granted f r (members 0 p) store)
          λ s (kept, size). record { store = kept; size = size })

  pub Explores-tree :
      (cells n m : ℕ)
      → n ≤ cells
      → 2 ≤ m
      → Explores (new grants m) (tree n) cells n (λ p. length p ≤ n)
  unfolding new
  Explores-tree cells n m enough two = record {
    enough = enough;
    going = refl;
    leaf_lem = λ p v. refl;
    bounded = λ p h. h;
    deep = λ p h part. ground (arith, h, part);
    extend = λ p j c h part e. ground (arith, h, part, length-append p (c ∷ []));
    process = λ p v f r h valid store. process_solution-Pushed cells n p v f r h store;
    constract = λ p v h valid part. constract_candidates-both v (length p) n m two;
    make = λ v depth. refl;
    unmake = λ v depth. refl;
  }

  -- Where the allocator grants every request, there is room for two candidates, the vector has at
  -- least `n` cells and the results store the lists `f`, the search from depth 0 for the subsets of
  -- 0, …, `n - 1` returns, with `n + 1` levels of fuel. It has pushed, behind the rows of `f`, one row
  -- for each entry of `subsets 0 n`, in that order: before the subsets without an element, those
  -- with it.
  pub backtrack-subsets :
      (n m : ℕ) (v : Block Bool) (f : ℕ → List ℕ) (r : Results)
      → 2 ≤ m
      → n ≤ length v
      → IsStore f r
      → Returns
          (λ (_, found). Pushed f r.row_size (subsets 0 n) found)
          (backtrack (new grants m) (n + 1) v 0 n r)
  unfolding members
  backtrack-subsets n m v f r two enough store =
      let rows : map (members 0) (visits (tree n) (suc n) []) ≡ subsets 0 n =
        visits-subsets n n [] (omega arith) ∙ extend-nil (subsets 0 n) in
      let deep : n + 1 ≡ suc n = omega arith in
      Returns-weaken
        (backtrack-Found (new grants m) (tree n) (length v) n (λ p. length p ≤ n)
          (Explores-tree (length v) n m enough two) (n + 1) [] v f r (omega arith) (omega arith)
          (record { begins = record { spare = v; split = refl }; cells = refl }) store)
        λ end found. subst (λ us. Pushed f r.row_size us end.1) rows (rw deep at found.pushed)
