-- ===== src/Comb/BacktrackSearch/Visits.antt =====
-- The order in which `backtrack` finds solutions: that of the leaves of a tree of partial solutions.
use mathlib.Core.List.{map-append}
use premir_cpp.Common.{
  ℕ, zero, suc, ◌+◌, ◌≤◌, ◌<◌, ◌≡◌, refl, sym, subst, Bool, false, List, [], ◌∷◌, ◌++◌, map, some,
  none, arith, if◌then◌else◌, length, get_elem?, set, replicate, length-append, lt→ltb, Bool-cases,
  inl, inr,
}
use premir_cpp.Common.Run.{Run, ok, Returns, returns, Returns-bind, Returns-weaken}
use premir_cpp.Utils.Memory.{Block, Begins}
use premir_cpp.Utils.Memory.Writes.{Holds, set-Holds, Holds-shorten, get_elem?-Begins}
use premir_cpp.Utils.RdMatrix.Prepare.{IsStore, update}
use premir_cpp.Comb.BacktrackSearch.{
  BacktrackSearch, Results, read_cell, write_cell, try_candidates, backtrack,
}

-- A store with more rows behind its first `n`.
abbrev pub push_rows : (ℕ → List ℕ) → ℕ → List (List ℕ) → ℕ → List ℕ
push_rows f n [] = f
push_rows f n (row ∷ rows) = push_rows (update f n row) (suc n) rows

-- `results` holds what `f` says in its first `n` rows, and then the rows that were pushed.
pub record Pushed (f : ℕ → List ℕ) (n : ℕ) (rows : List (List ℕ)) (results : Results) : Type 0 where
  pub store : IsStore (push_rows f n rows) results
  pub size : results.row_size ≡ n + length rows

push_rows-append :
    (f : ℕ → List ℕ) (n : ℕ) (us vs : List (List ℕ))
    → push_rows f n (us ++ vs) ≡ push_rows (push_rows f n us) (n + length us) vs
push_rows-append f n [] vs = let same : n + 0 ≡ n = omega arith in rw same refl
push_rows-append f n (u ∷ us) vs =
    let same : n + suc (length us) ≡ suc n + length us = omega arith in
    rw same (push_rows-append (update f n u) (suc n) us vs)

Pushed-append :
    {f : ℕ → List ℕ} {n : ℕ} {us vs : List (List ℕ)} {r s : Results}
    → Pushed f n us r
    → Pushed (push_rows f n us) r.row_size vs s
    → Pushed f n (us ++ vs) s
Pushed-append {f} {n} {us} {vs} {r} {s} p q = record {
  store = rw (push_rows-append f n us vs, sym p.size) q.store;
  size = omega (arith, q.size, p.size, length-append us vs);
}

-- A tree of partial solutions: which of them are whole, the row that is stored for a whole one, and
-- the values that may come next in one that is not.
pub record Tree (T : Type 0) : Type 0 where
  pub leaf : List T → Bool
  pub row : List T → List ℕ
  pub choices : List T → List T

abbrev pub visit_all {ℓ} : {A : Type ℓ} {B : Type ℓ} → (A → List B) → List A → List B
visit_all visit [] = []
visit_all visit (x ∷ xs) = visit x ++ visit_all visit xs

-- The whole solutions that extend a partial one by less than `k` values, depth first.
unfoldable pub visits : {T : Type 0} → Tree T → ℕ → List T → List (List T)
visits t zero p = []
visits t (suc k) p =
    if t.leaf p then p ∷ [] else visit_all (λ c. visits t k (p ++ c ∷ [])) (t.choices p)

-- The methods of a search do, on vectors of `cells` cells that begin with a valid partial solution,
-- what the tree says; a partial solution of `size` values is whole.
pub record Explores {T : Type 0} (search : BacktrackSearch T) (t : Tree T) (cells size : ℕ)
    (Valid : List T → Type 0) : Type 0 where
  pub enough : size ≤ cells
  pub going : search.finished ≡ false
  pub leaf_lem : (p : List T) (v : Block T) → search.is_solution v (length p) size ≡ t.leaf p
  pub bounded : (p : List T) → Valid p → length p ≤ size
  pub deep : (p : List T) → Valid p → t.leaf p ≡ false → length p < size
  pub extend :
      (p : List T) (j : ℕ) (c : T)
      → Valid p
      → t.leaf p ≡ false
      → get_elem? (t.choices p) j ≡ some c
      → Valid (p ++ c ∷ [])
  pub process :
      (p : List T) (v : Block T) (f : ℕ → List ℕ) (r : Results)
      → Holds cells p v
      → Valid p
      → IsStore f r
      → Returns (Pushed f r.row_size (t.row p ∷ [])) (search.process_solution v (length p) size r)
  pub constract :
      (p : List T) (v : Block T)
      → Holds cells p v
      → Valid p
      → t.leaf p ≡ false
      → Returns
          (λ (candidates, n). Begins (t.choices p) candidates × (n ≡ length (t.choices p)))
          (search.constract_candidates v (length p) (replicate search.max_candidates none) size)
  pub make : (v : Block T) (depth : ℕ) → search.make_move v depth size ≡ ok v
  pub unmake : (v : Block T) (depth : ℕ) → search.unmake_move v depth size ≡ ok v

module _ {T : Type 0} (search : BacktrackSearch T) (t : Tree T) (cells size : ℕ)
    (Valid : List T → Type 0) (x : Explores search t cells size Valid) where
  -- What a call leaves: the partial solution, and the results with those rows behind them.
  pub record Found (p : List T) (f : ℕ → List ℕ) (n : ℕ) (solutions : List (List T))
      (end : Block T × Results) : Type 0 where
    pub vector : Holds cells p end.0
    pub pushed : Pushed f n (map t.row solutions) end.1

  try_candidates-Found :
      (visit : T → List (List T)) (descend : Block T → Results → Run (Block T × Results))
      (p : List T) (candidates v : Block T) (cs : List T) (i : ℕ) (f : ℕ → List ℕ) (r : Results)
      → length p < size
      → ((j : ℕ) (c : T)
          → get_elem? cs j ≡ some c
          → (get_elem? candidates (i + j) ≡ some (some c))
            × ((w : Block T) (g : ℕ → List ℕ) (s : Results)
                → Holds cells (p ++ c ∷ []) w
                → IsStore g s
                → Returns (Found (p ++ c ∷ []) g s.row_size (visit c)) (descend w s)))
      → Holds cells p v
      → IsStore f r
      → Returns
          (Found p f r.row_size (visit_all visit cs))
          (try_candidates search descend candidates (length p) size (length cs) i v r)
  unfolding try_candidates read_cell write_cell
  try_candidates-Found visit descend p candidates v [] i f r short good h store =
      returns (record { vector = h; pushed = record { store = store; size = omega arith } })
  try_candidates-Found visit descend p candidates v (c ∷ cs) i f r short good h store =
      let (here, down) = good 0 c refl in
      let here' : get_elem? candidates i ≡ some (some c) =
        subst (λ k. get_elem? candidates k ≡ some (some c)) (omega arith) here in
      let placed = set-Holds p c h (omega (arith, short, x.enough)) in
      rw
        (
          here',
          lt→ltb (length p) (length v) (omega (arith, short, x.enough, h.cells)),
          x.make (set v (length p) (some c)) (length p),
          x.going,
        )
        (Returns-bind (down (set v (length p) (some c)) f r placed store) λ (w, s) found.
          rw (x.unmake w (length p)) (
            Returns-weaken
              (try_candidates-Found visit descend p candidates w cs (suc i)
                (push_rows f r.row_size (map t.row (visit c))) s short
                (λ j d e.
                  let (there, deeper) = good (suc j) d e in
                  (subst (λ k. get_elem? candidates k ≡ some (some d)) (omega arith) there, deeper))
                (Holds-shorten p (c ∷ []) found.vector) found.pushed.store)
              λ end later. record {
                vector = later.vector;
                pushed =
                    rw (map-append t.row (visit c) (visit_all visit cs))
                      (Pushed-append found.pushed later.pushed);
              }))

  -- Let the methods of a search do what a tree of partial solutions says. Then, for results that
  -- store the lists `f`, a vector that begins with the valid partial solution `p`, and fuel for the
  -- levels below it, `backtrack` returns: the vector still begins with `p`, and the results hold,
  -- behind the rows of `f`, the row of each whole solution that extends `p`, depth first.
  pub backtrack-Found :
      (k : ℕ) (p : List T) (v : Block T) (f : ℕ → List ℕ) (r : Results)
      → size < k + length p
      → Valid p
      → Holds cells p v
      → IsStore f r
      → Returns (Found p f r.row_size (visits t k p)) (backtrack search k v (length p) size r)
  unfolding backtrack visits
  backtrack-Found zero p v f r fuel valid h store = absurd (omega (arith, fuel, x.bounded p valid))
  backtrack-Found (suc k) p v f r fuel valid h store = elim (Bool-cases (t.leaf p)) [
    | inl whole ↦
        rw (x.leaf_lem p v, whole)
          (Returns-bind (x.process p v f r h valid store)
            λ s pushed. returns (record { vector = h; pushed = pushed }))
    | inr part ↦
        rw (x.leaf_lem p v, part)
          (Returns-bind (x.constract p v h valid part) λ (candidates, n) (begins, count). rw count (
            try_candidates-Found (λ c. visits t k (p ++ c ∷ [])) _ p candidates v (t.choices p) 0 f
              r (x.deep p valid part)
              (λ j c e. (
                subst (λ i. get_elem? candidates i ≡ some (some c)) (omega arith)
                    (get_elem?-Begins j begins e),
                λ w g s held kept.
                    let deeper : length (p ++ c ∷ []) ≡ length p + 1 =
                      omega (arith, length-append p (c ∷ [])) in
                    rw (sym deeper) (
                      backtrack-Found k (p ++ c ∷ []) w g s (omega (arith, fuel, deeper))
                        (x.extend p j c valid part e) held kept),
              ))
              h store))
  ]
