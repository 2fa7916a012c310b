-- ===== src/Utils/Bucket/Laws.antt =====
-- The walk along a row of an `RDMatrix` is the walk along the list that the row holds.
use mathlib.Core.Option.{some-injective}
use native.Mathlib.Nat.{zero-add}
use premir_cpp.Common.{
  ℕ, zero, suc, ◌<◌, ◌≡◌, refl, sym, ap, ◌∙◌, subst, Bool, true, inl, inr, List, [], ◌∷◌, ◌++◌, map,
  some, arith, not, is_some, length-set, get_elem?-set, ltb, ◌==◌, length, get_elem?, set,
  Bool-cases, get_elem?_of_lt,
}
use premir_cpp.Common.Run.{ok, Returns, returns, Returns-bind}
use premir_cpp.Utils.Memory.{Block}
use premir_cpp.Utils.RdMatrix.{Row, RdMatrix}
use premir_cpp.Utils.RdMatrix.Rows.{IsRow}
use premir_cpp.Utils.RdMatrix.Prepare.{IsStore, update}
use premir_cpp.Utils.RdMatrix.Store.{write_row-IsStore, write_to_end_row-IsStore}
use premir_cpp.Utils.Bucket.{find_entry, look_up, store_found, push_entry}
use premir_cpp.Utils.Bucket.Search.{
  find?, insert, first_from, find_entry-first_from, first_from-find?, Found, find-Found,
}
use premir_cpp.Utils.Bucket.Search.Found.{missing, hit_at}

module _ {E : Type 0} (hit : E → Bool) where
  -- A block that begins with `xs` has the entries of `xs` in its first cells.
  Begins-get_elem? :
      (xs : List E) (spare : Block E) (j : ℕ) {x : E}
      → get_elem? xs j ≡ some x
      → get_elem? (map some xs ++ spare) j ≡ some (some x)
  Begins-get_elem? [] spare j e = cc
  Begins-get_elem? (y ∷ xs) spare zero e = ap some e
  Begins-get_elem? (y ∷ xs) spare (suc j) e = Begins-get_elem? xs spare j e

  find_entry-IsRow :
      (xs : List E) (row : Row Bool E)
      → IsRow xs row
      → find_entry hit row.point_size 0 row.points ≡ ok (first_from hit 0 xs)
  find_entry-IsRow xs row is =
      ap (λ (n : ℕ). find_entry hit n 0 row.points) is.count
      ∙ find_entry-first_from hit xs 0 row.points
          (λ j x e. rw (zero-add, is.begins.split) (Begins-get_elem? xs is.begins.spare j e))

  -- The lookup finds the first entry of the row's list that is hit.
  pub look_up-find? :
      (f : ℕ → List E) (m : RdMatrix Bool E) (r : ℕ)
      → IsStore f m
      → look_up hit m r ≡ ok (find? hit (f r))
  unfolding look_up find?
  look_up-find? f m r s = elim (Bool-cases (ltb r m.row_size)) [
    | inl there ↦
        let (row, e) = get_elem?_of_lt m.matrix r (ground (arith, s.height, s.within)) in
        rw (there, e, find_entry-IsRow (f r) row (s.rows r row e)) (first_from-find? hit (f r) 0)
    | inr past ↦ rw (past, s.beyond r (ground arith))
  ]

  module _ (renew : E → E) (fresh : E) where
    set-map-append :
        (xs : List E) (spare : Block E) (d : ℕ) (y : E)
        → d < length xs
        → set (map some xs ++ spare) d (some y) ≡ map some (set xs d y) ++ spare
    set-map-append [] spare d y h = elim h [ ]
    set-map-append (x ∷ xs) spare zero y h = refl
    set-map-append (x ∷ xs) spare (suc d) y h =
        ap (◌∷◌ (some x)) (set-map-append xs spare d y (omega arith))

    set-IsRow :
        (xs : List E) (row : Row Bool E) (d : ℕ) (y : E)
        → IsRow xs row
        → d < length xs
        → IsRow (set xs d y) (record row { points = set row.points d (some y) })
    set-IsRow xs row d y is h = record {
      count = is.count ∙ sym (length-set xs d y);
      cells = length-set row.points d (some y) ∙ is.cells;
      begins = record {
        spare = is.begins.spare;
        split =
            ap (λ (b : Block E). set b d (some y)) is.begins.split
            ∙ set-map-append xs is.begins.spare d y h;
      };
    }

    -- Replacing one row of a store.
    set_row-IsStore :
        (f : ℕ → List E) (m : RdMatrix Bool E) (r : ℕ) (row : Row Bool E) (xs : List E)
        → IsStore f m
        → r < m.row_size
        → IsRow xs row
        → IsStore (update f r xs) (record m { matrix = set m.matrix r row })
    set_row-IsStore f m r row xs s h is = record {
      height = length-set m.matrix r row ∙ s.height;
      within = s.within;
      rows = λ q row' e. elim (Bool-cases (r == q)) [
        | inl here ↦ rw here (
            subst (IsRow xs)
              (some-injective _ _
                (ground (arith, get_elem?-set m.matrix r q row, s.height, s.within)))
              is)
        | inr there ↦
            rw there
              (s.rows q row' (ground (arith, get_elem?-set m.matrix r q row, s.height, s.within)))
      ];
      beyond = λ q past. ground (arith, s.beyond q past);
    }

    module _ (grants : ℕ → Bool) (granted : (n : ℕ) → grants n ≡ true) (f : ℕ → List E)
        (m : RdMatrix Bool E) (r : ℕ) (s : IsStore f m) where
      -- What `push_entry` does once it has looked for the entry.
      settle :
          (row : Row Bool E)
          → IsRow (f r) row
          → r < m.row_size
          → Found hit renew fresh 0 (f r)
          → Returns
              (λ (m', added).
                IsStore (update f r (insert hit renew fresh (f r))) m'
                × (added ≡ not (is_some (find? hit (f r)))))
              (store_found hit grants renew fresh m r row (first_from hit 0 (f r)))
      unfolding store_found
      settle row is h (missing none_hit none_found same) =
          rw (none_hit, none_found, same)
            (Returns-bind (write_to_end_row-IsStore grants granted f m r (fresh ∷ []) s)
              λ m' (store, size). returns (store, refl))
      settle row is h (hit_at d x at_d found inside same) =
          rw (at_d, found, same, zero-add)
            (returns
              (set_row-IsStore f m r _ _ s h (set-IsRow (f r) row d (renew x) is inside), refl))

    -- The insertion does to the row's list what `insert` does, and says whether the list had no
    -- entry to be hit.
    pub push_entry-insert :
        (grants : ℕ → Bool)
        → ((n : ℕ) → grants n ≡ true)
        → (f : ℕ → List E) (m : RdMatrix Bool E) (r : ℕ) → IsStore f m
        → Returns
            (λ (m', added).
              IsStore (update f r (insert hit renew fresh (f r))) m'
              × (added ≡ not (is_some (find? hit (f r)))))
            (push_entry hit grants renew fresh m r)
    unfolding push_entry insert find?
    push_entry-insert grants granted f m r s = elim (Bool-cases (ltb r m.row_size)) [
      | inl there ↦
          let (row, e) = get_elem?_of_lt m.matrix r (ground (arith, s.height, s.within)) in
          let is = s.rows r row e in
          rw (there, e, find_entry-IsRow (f r) row is)
            (settle grants granted f m r s row is (ground arith)
              (find-Found hit renew fresh 0 (f r)))
      | inr past ↦
          let empty = s.beyond r (ground arith) in
          rw (past, empty)
            (Returns-bind (write_row-IsStore grants granted f m r (fresh ∷ []) s)
              λ m' (store, size). returns (store, refl))
    ]
