-- ===== src/Comb/PermutationBacktrackSearch/Distinct.antt =====
-- What the arrangements that a search finds are.
use premir_cpp.Common.{
  ℕ, zero, suc, ◌+◌, ◌-◌, ◌<◌, ◌≡◌, refl, Bool, true, false, not, ◌&&◌, ◌||◌, List, [], ◌∷◌, ◌++◌,
  some, arith, ◌==◌, ==_iff, length, get_elem?, Bool-cases, inl, inr, ◌^◌, ◌≤◌, subst,
}
use premir_cpp.Common.Run.{Returns, Returns-weaken}
use premir_cpp.Utils.Memory.{Block}
use premir_cpp.Utils.RdMatrix.Prepare.{IsStore}
use premir_cpp.Comb.BacktrackSearch.{Results, backtrack}
use premir_cpp.Comb.PermutationBacktrackSearch.{new}
use premir_cpp.Comb.BacktrackSearch.Visits.{visits, visit_all, Pushed}
use premir_cpp.Comb.PermutationBacktrackSearch.Candidates.{has, unmarked}
use premir_cpp.Comb.PermutationBacktrackSearch.Arrangements.{
  tree, get_elem?-cons, unmarked-lt, Partial, Partial-snoc, backtrack-arrangements,
}

-- No number stands twice in the list.
unfoldable pub distinct : List ℕ → Bool
unfolding has
distinct [] = true
distinct (x ∷ xs) = not (has xs x) && distinct xs

has-snoc : (p : List ℕ) (c x : ℕ) → has (p ++ c ∷ []) x ≡ (has p x || (c == x))
unfolding has
has-snoc [] c x = ground arith
has-snoc (y ∷ p) c x = ground (arith, has-snoc p c x)

distinct-snoc :
    (p : List ℕ) (c : ℕ) → distinct p ≡ true → has p c ≡ false → distinct (p ++ c ∷ []) ≡ true
unfolding distinct has
distinct-snoc [] c d free = refl
distinct-snoc (y ∷ p) c d free =
    let (first, rest) : (has p y ≡ false) × (distinct p ≡ true) = ground (arith, d) in
    let (apart, free') : ((y == c) ≡ false) × (has p c ≡ false) = ground (arith, free) in
    ground (arith, first, apart, has-snoc p c y, distinct-snoc p c rest free')

unmarked-free : (g : ℕ → Bool) (n i j c : ℕ) → get_elem? (unmarked g n i) j ≡ some c → g c ≡ false
unfolding unmarked
unmarked-free g zero i j c e = cc
unmarked-free g (suc n) i j c e = elim (Bool-cases (g i)) [
  | inl taken ↦ unmarked-free g n (suc i) j c (rw taken at e)
  | inr free ↦ elim (get_elem?-cons i (unmarked g n (suc i)) j c (rw free at e)) [
    | inl here ↦ cc
    | inr (k, there) ↦ unmarked-free g n (suc i) k c there
  ]
]

module _ {ℓ} {A : Type ℓ} where
  -- Every entry of a list of solutions is good.
  abbrev pub Every : (A → Type ℓ) → List A → Type ℓ
  Every Good qs = (j : ℕ) (q : A) → get_elem? qs j ≡ some q → Good q

  Every-append :
      (Good : A → Type ℓ) (us vs : List A) → Every Good us → Every Good vs → Every Good (us ++ vs)
  Every-append Good [] vs p q j x e = q j x e
  Every-append Good (u ∷ us) vs p q zero x e = p zero x e
  Every-append Good (u ∷ us) vs p q (suc j) x e = Every-append Good us vs (λ k. p (suc k)) q j x e

Every-visit_all :
    (Good : List ℕ → Type 0) (visit : ℕ → List (List ℕ)) (cs : List ℕ)
    → ((j c : ℕ) → get_elem? cs j ≡ some c → Every Good (visit c))
    → Every Good (visit_all visit cs)
Every-visit_all Good visit [] each j q e = cc
Every-visit_all Good visit (c ∷ cs) each j q e =
    Every-append Good (visit c) (visit_all visit cs) (each 0 c refl)
      (Every-visit_all Good visit cs λ k. each (suc k)) j q e

-- `n - 1` different numbers below `n`.
pub record IsArrangement (n : ℕ) (q : List ℕ) : Type 0 where
  pub size : length q ≡ n - 1
  pub small : (j x : ℕ) → get_elem? q j ≡ some x → x < n
  pub different : distinct q ≡ true

visits-Every :
    (n k : ℕ) (p : List ℕ)
    → Partial n p
    → distinct p ≡ true
    → Every (IsArrangement n) (visits (tree n) k p)
unfolding visits
visits-Every n zero p part d j q e = cc
visits-Every n (suc k) p part d j q e = elim (Bool-cases (length p == n - 1)) [
  | inl whole ↦
      let alone : get_elem? (p ∷ []) j ≡ some q = rw whole at e in
      elim (get_elem?-cons p [] j q alone) [
        | inl same ↦ subst (IsArrangement n) same (record {
          size = (==_iff (length p) (n - 1)).0 whole;
          small = part.small;
          different = d;
        })
        | inr (i, none_there) ↦ cc
      ]
  | inr more ↦
      Every-visit_all (IsArrangement n) (λ c. visits (tree n) k (p ++ c ∷ []))
        (unmarked (has p) n 0)
        (λ i c there.
          visits-Every n k (p ++ c ∷ [])
            (Partial-snoc n p c part (ground (arith, part.short, more))
              (omega (arith, unmarked-lt (has p) n 0 i c there)))
            (distinct-snoc p c d (unmarked-free (has p) n 0 i c there)))
        j q (rw more at e)
]

-- Where the allocator grants every request, for a size `n` of 1 to `2 ^ 64 - 1`, with room for `n`
-- candidates, a vector of at least `n` cells and results that store the lists `f`, the search from
-- depth 0 returns, with `n + 1` levels of fuel. It has pushed rows behind those of `f` each of which
-- consists of `n - 1` different numbers below `n`.
pub backtrack-IsArrangement :
    (grants : ℕ → Bool)
    → ((bytes : ℕ) → grants bytes ≡ true)
    → (n max : ℕ) (v : Block ℕ) (f : ℕ → List ℕ) (r : Results) → 1 ≤ n
    → n < 2 ^ 64
    → n ≤ length v
    → n ≤ max
    → IsStore f r
    → Returns
        (λ (_, found).
          (rows : List (List ℕ)) × Pushed f r.row_size rows found × Every (IsArrangement n) rows)
        (backtrack (new grants max) (n + 1) v 0 n r)
unfolding distinct
backtrack-IsArrangement grants granted n max v f r some_size word enough room store =
    Returns-weaken
      (backtrack-arrangements grants granted n max v f r some_size word enough room store)
      λ end pushed. (
        visits (tree n) (n + 1) [],
        pushed,
        visits-Every n (n + 1) [] (record { short = omega (arith, some_size); small = λ i x e. cc })
            refl,
      )
