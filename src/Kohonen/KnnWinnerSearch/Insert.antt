-- ===== src/Kohonen/KnnWinnerSearch/Insert.antt =====
-- `insert_winner` puts the neuron in its place, and the last winner drops out.
use native.Mathlib.Nat.{add-zero, zero-add}
use premir_cpp.Common.{
  ℕ, zero, suc, ◌+◌, ◌-◌, ◌<◌, ◌≡◌, refl, sym, ap, ◌∙◌, true, inl, inr, List, [], ◌∷◌, ◌++◌, none,
  some, map, arith, ltb, leb, ◌==◌, if◌then◌else◌, ◌&&◌, get_elem?, length, set, take, Bool-cases,
  lt→ltb, ltb→lt, get_elem?-set, length-set, get_elem?_of_lt, length-append, length-map,
}
use premir_cpp.Common.All.{get_elem?-take, eq_of_get_elem?}
use premir_cpp.Common.Run.{ok, ◌>>=◌}
use premir_cpp.Utils.Memory.{Block}
use premir_cpp.Utils.Memory.Writes.{get_elem?-map_append}
use premir_cpp.Kohonen.EuclideanWinnerSearch.{Double, WinnerInfo}
use premir_cpp.Kohonen.KnnWinnerSearch.{
  last_winner_number, shift_winners, insert_winner, write_winner,
}
use premir_cpp.Kohonen.KnnWinnerSearch.Place.{place, position, position_le, get_elem?-place}

-- The cells of a block that begins with `xs`.
pub get_elem?-begun :
    {A : Type 0} (xs : List A) (spare : Block A) (i : ℕ)
    → get_elem? (map some xs ++ spare) i ≡ (
        if ltb i (length xs)
        then elim (get_elem? xs i) [ none ↦ none | some x ↦ some (some x) ]
        else get_elem? spare (i - length xs))
get_elem?-begun [] spare i = ground arith
get_elem?-begun (x ∷ xs) spare zero = ground arith
get_elem?-begun (x ∷ xs) spare (suc i) = ground (arith, get_elem?-begun xs spare i)

module _ {D : Type 0} (double : Double D) where
  last_winner_number-position :
      (d : D) (ws : List (WinnerInfo D)) (block : Block (WinnerInfo D)) (i last : ℕ)
      → ((j : ℕ) (w : WinnerInfo D)
          → get_elem? ws j ≡ some w
          → get_elem? block (i + j) ≡ some (some w))
      → last_winner_number double (length ws) i d block last ≡ ok (last + position double d ws)
  unfolding last_winner_number
  last_winner_number-position d [] block i last cells = ap ok (sym (add-zero last))
  last_winner_number-position d (w ∷ ws) block i last cells =
      let here : get_elem? block i ≡ some (some w) =
        ap (get_elem? block) (sym (add-zero i)) ∙ cells 0 w refl in
      rw here (elim (Bool-cases (double.order.gt d w.diff)) [
        | inl past ↦ rw past (
            last_winner_number-position d ws block (suc i) (last + 1)
              (λ j v e. ap (get_elem? block) (shift j) ∙ cells (suc j) v e)
            ∙ ap ok (omega arith))
        | inr stop ↦ rw stop (ap ok (sym (add-zero last)))
      ])
    where
      shift : (j : ℕ) → suc i + j ≡ i + suc j
      shift j = omega arith

  -- All cells behind `last`, as far as the loop goes, move up by one.
  record Moved (rounds last : ℕ) (block moved : Block (WinnerInfo D)) : Type 0 where
    same_length : length moved ≡ length block
    cells :
        (i : ℕ)
        → get_elem? moved i ≡ (
            if ltb last i && leb i (last + rounds)
            then get_elem? block (i - 1)
            else get_elem? block i)

  shift_winners-Moved :
      (rounds last : ℕ) (block : Block (WinnerInfo D))
      → last + rounds < length block
      → ((i : ℕ) → i < last + rounds → (w : WinnerInfo D) × (get_elem? block i ≡ some (some w)))
      → (moved : Block (WinnerInfo D)) × (shift_winners double rounds last block ≡ ok moved)
        × Moved rounds last block moved
  unfolding shift_winners
  shift_winners-Moved zero last block room written =
      (block, refl, record { same_length = refl; cells = λ i. ground arith })
  shift_winners-Moved (suc rounds) last block room written =
      let (w, e) = written (last + rounds) (omega arith) in
      let next : Block (WinnerInfo D) = set block (last + suc rounds) (some w) in
      let kept = λ (i : ℕ). get_elem?-set block (last + suc rounds) i (some w) room in
      let fits : ltb (last + suc rounds) (length block) ≡ true = ground (arith, room) in
      let (moved, run, m) =
        shift_winners-Moved rounds last next
          (omega (arith, room, length-set block (last + suc rounds) (some w)))
          (λ i h. let (v, f) = written i (omega (arith, h)) in (v, ground (arith, kept i, f, h))) in
      (
        moved,
        rw (e, fits) run,
        record {
          same_length = m.same_length ∙ length-set block (last + suc rounds) (some w);
          cells = λ i. ground (arith, m.cells i, kept i, kept (i - 1), e);
        },
      )

  pub length-take-place :
      (x : WinnerInfo D) (ws : List (WinnerInfo D))
      → length (take (length ws) (place double x ws)) ≡ length ws
  length-take-place x [] = refl
  length-take-place x (w ∷ ws) = elim (Bool-cases (double.order.gt x.diff w.diff)) [
    | inl past ↦ rw past (ap suc (length-take-place x ws))
    | inr stop ↦ rw stop (ap suc (length-take-all x w ws))
  ]
    where
      length-take-all :
          (x w : WinnerInfo D) (ws : List (WinnerInfo D))
          → length (take (length ws) (w ∷ ws)) ≡ length ws
      length-take-all x w [] = refl
      length-take-all x w (v ∷ ws) = ap suc (length-take-all x v ws)

  -- The cells with `x` in its place among `ws`.
  abbrev pub placed :
      WinnerInfo D → List (WinnerInfo D) → Block (WinnerInfo D) → Block (WinnerInfo D)
  placed x ws spare = map some (take (length ws) (place double x ws)) ++ spare

  get_elem?-placed :
      (x : WinnerInfo D) (ws : List (WinnerInfo D)) (spare : Block (WinnerInfo D)) (i : ℕ)
      → get_elem? (placed x ws spare) i ≡ (
          if ltb i (length ws)
          then (if i == position double x.diff ws
              then some (some x)
              else if ltb i (position double x.diff ws)
              then get_elem? (map some ws ++ spare) i
              else get_elem? (map some ws ++ spare) (i - 1))
          else get_elem? (map some ws ++ spare) i)
  get_elem?-placed x ws spare i = ground (
    arith,
    get_elem?-begun (take (length ws) (place double x ws)) spare i,
    length-take-place x ws,
    get_elem?-take (length ws) (place double x ws) i,
    get_elem?-place double x ws i,
    get_elem?-begun ws spare i,
    get_elem?-begun ws spare (i - 1),
  )

  -- Every cell before the last winner's is written.
  pub written :
      (ws : List (WinnerInfo D)) (spare : Block (WinnerInfo D)) (i : ℕ)
      → i < length ws
      → (w : WinnerInfo D) × (get_elem? (map some ws ++ spare) i ≡ some (some w))
  written ws spare i h =
      let (w, e) = get_elem?_of_lt ws i h in (w, get_elem?-map_append ws spare i w e)

  -- The rest of `insert_winner`, where the place is among the winners.
  insert_among :
      (x : WinnerInfo D) (ws : List (WinnerInfo D)) (spare : Block (WinnerInfo D))
      → position double x.diff ws < length ws
      → (shift_winners double
            (length ws - 1 - position double x.diff ws)
            (position double x.diff ws)
            (map some ws ++ spare)
          >>= λ shifted. write_winner shifted (position double x.diff ws) x)
        ≡ ok (placed x ws spare)
  unfolding write_winner
  insert_among x ws spare among =
      let p : ℕ = position double x.diff ws in
      let rounds : ℕ = length ws - 1 - p in
      let total : length (map some ws ++ spare) ≡ length ws + length spare =
        length-append (map some ws) spare ∙ ap (λ n. n + length spare) (length-map ws some) in
      let (moved, run, m) =
        shift_winners-Moved rounds p (map some ws ++ spare) (omega (arith, total, among))
          (λ i h. written ws spare i (omega (arith, h, among))) in
      let room : p < length moved = omega (arith, m.same_length, total, among) in
      rw (run, lt→ltb p (length moved) room)
        (ap ok (
          eq_of_get_elem? _ _ (λ i. ground (
            arith,
            get_elem?-placed x ws spare i,
            m.cells i,
            get_elem?-set moved p i (some x) room,
          ))))

  -- In a block that begins with the winners, the new one takes its place among them, and the last
  -- one drops out.
  pub insert_winner-place :
      (ws : List (WinnerInfo D)) (spare : Block (WinnerInfo D)) (d : D) (r : ℕ)
      → insert_winner double (length ws) d r (map some ws ++ spare)
        ≡ ok (placed (record { diff = d; index = some r }) ws spare)
  unfolding insert_winner
  insert_winner-place ws spare d r =
      let x : WinnerInfo D = record { diff = d; index = some r } in
      let p : ℕ = position double d ws in
      rw
        (
          last_winner_number-position d ws (map some ws ++ spare) 0 0 (λ j w e.
              ap (get_elem? (map some ws ++ spare)) (zero-add j)
              ∙ get_elem?-map_append ws spare j w e),
          zero-add p,
        )
        (elim (Bool-cases (ltb p (length ws))) [
          | inl among ↦ rw among (insert_among x ws spare (ltb→lt p (length ws) among))
          | inr behind ↦ rw behind (
              ap ok (
                eq_of_get_elem? _ _
                  (λ i. ground (arith, get_elem?-placed x ws spare i, position_le double d ws))))
        ])
