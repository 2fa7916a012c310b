-- ===== src/Comb/PermutationBacktrackSearch/Candidates.antt =====
-- What the loops of `PermutationBacktrackSearch` compute.
use mathlib.Core.List.{append_assoc, append-nil}
use premir_cpp.Common.{
  ℕ, zero, suc, ◌+◌, ◌≤◌, ◌<◌, ◌≡◌, refl, sym, ◌∙◌, subst, Bool, true, false, ◌||◌, List, [], ◌∷◌,
  ◌++◌, some, arith, ◌==◌, if◌then◌else◌, length, get_elem?, set, get_elem?-set, length-set,
  length-append, lt→ltb, Bool-cases, inl, inr,
}
use premir_cpp.Common.Run.{ok, Returns, returns, Returns-weaken}
use premir_cpp.Utils.Memory.{Block, Begins}
use premir_cpp.Utils.Memory.Writes.{Holds, set-Holds}
use premir_cpp.Comb.BacktrackSearch.{read_cell, write_cell}
use premir_cpp.Comb.PermutationBacktrackSearch.{copy_solution, mark, list_candidates}

unfoldable pub has : List ℕ → ℕ → Bool
has [] x = false
has (y ∷ p) x = (y == x) || has p x

-- The numbers among `i`, …, `i + n - 1` that are not marked.
unfoldable pub unmarked : (ℕ → Bool) → (n i : ℕ) → List ℕ
unmarked marked zero i = []
unmarked marked (suc n) i =
    if marked i then unmarked marked n (suc i) else i ∷ unmarked marked n (suc i)

-- From index `i` on the vector has the values `qs`.
abbrev pub From : Block ℕ → ℕ → List ℕ → Type 0
From v i qs = (j x : ℕ) → get_elem? qs j ≡ some x → get_elem? v (i + j) ≡ some (some x)

From-here :
    (v : Block ℕ) (i q : ℕ) (qs : List ℕ) → From v i (q ∷ qs) → get_elem? v i ≡ some (some q)
From-here v i q qs from = subst (λ k. get_elem? v k ≡ some (some q)) (omega arith) (from 0 q refl)

From-next : (v : Block ℕ) (i q : ℕ) (qs : List ℕ) → From v i (q ∷ qs) → From v (suc i) qs
From-next v i q qs from j x e =
    subst (λ k. get_elem? v k ≡ some (some x)) (omega arith) (from (suc j) x e)

pub copy_solution-lem :
    (v : Block ℕ) (depth i : ℕ) (result qs : List ℕ)
    → From v i qs
    → length result + length qs ≤ depth
    → copy_solution v depth (length qs) i result ≡ ok (result ++ qs)
unfolding copy_solution read_cell
copy_solution-lem v depth i result [] from room = rw (append-nil result) refl
copy_solution-lem v depth i result (q ∷ qs) from room =
    let grown = length-append result (q ∷ []) in
    rw
      (
        From-here v i q qs from,
        lt→ltb (length result) depth (omega (arith, room)),
        sym (append_assoc result (q ∷ []) qs),
      )
      (copy_solution-lem v depth (suc i) (result ++ q ∷ []) qs (From-next v i q qs from)
        (omega (arith, room, grown)))

-- The cells of the array are the values of `g`.
pub record Marks (n : ℕ) (g : ℕ → Bool) (block : Block Bool) : Type 0 where
  pub cells : length block ≡ n
  pub marks : (x : ℕ) → x < n → get_elem? block x ≡ some (some (g x))

pub mark-Marks :
    (v : Block ℕ) (n i : ℕ) (qs : List ℕ) (block : Block Bool) (g : ℕ → Bool)
    → From v i qs
    → ((j x : ℕ) → get_elem? qs j ≡ some x → x < n)
    → Marks n g block
    → Returns (Marks n (λ x. g x || has qs x)) (mark v (length qs) i block)
unfolding mark has read_cell write_cell
mark-Marks v n i [] block g from small m =
    returns (record { cells = m.cells; marks = λ x h. ground (arith, m.marks x h) })
mark-Marks v n i (q ∷ qs) block g from small m =
    rw (From-here v i q qs from, lt→ltb q (length block) (omega (arith, small 0 q refl, m.cells)))
      (Returns-weaken
        (mark-Marks v n (suc i) qs (set block q (some true)) (λ x. g x || (q == x))
          (From-next v i q qs from) (λ j x e. small (suc j) x e)
          (record {
            cells = length-set block q (some true) ∙ m.cells;
            marks = λ x h.
                ground (
                  arith,
                  get_elem?-set block q x (some true),
                  small 0 q refl,
                  m.cells,
                  m.marks x h,
                );
          }))
        λ c d. record { cells = d.cells; marks = λ x h. ground (arith, d.marks x h) })

pub list_candidates-Begins :
    (max : ℕ) (g : ℕ → Bool) (in_perm : Block Bool) (n i : ℕ) (cs : List ℕ) (candidates : Block ℕ)
    → Marks max g in_perm
    → i + n ≤ max
    → length cs ≤ i
    → Holds max cs candidates
    → Returns
        (λ (c, k). Begins (cs ++ unmarked g n i) c × (k ≡ length (cs ++ unmarked g n i)))
        (list_candidates in_perm n i candidates (length cs))
unfolding list_candidates unmarked read_cell write_cell
list_candidates-Begins max g in_perm zero i cs candidates m fits few h =
    rw (append-nil cs) (returns (h.begins, refl))
list_candidates-Begins max g in_perm (suc n) i cs candidates m fits few h =
    rw (m.marks i (omega (arith, fits))) (elim (Bool-cases (g i)) [
      | inl taken ↦ rw taken (
          list_candidates-Begins max g in_perm n (suc i) cs candidates m (omega (arith, fits))
            (omega (arith, few)) h)
      | inr free ↦
          let grown = length-append cs (i ∷ []) in
          let longer : suc (length cs) ≡ length (cs ++ i ∷ []) = omega (arith, grown) in
          rw
            (
              free,
              lt→ltb (length cs) (length candidates) (omega (arith, few, fits, h.cells)),
              longer,
              sym (append_assoc cs (i ∷ []) (unmarked g n (suc i))),
            )
            (list_candidates-Begins max g in_perm n (suc i) (cs ++ i ∷ []) _ m (omega (arith, fits))
              (omega (arith, few, grown)) (set-Holds cs i h (omega (arith, few, fits))))
    ])
