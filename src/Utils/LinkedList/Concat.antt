-- ===== src/Utils/LinkedList/Concat.antt =====
-- `concat`, the copy constructor and `operator=`.
use mathlib.Core.List.{append_assoc, append-nil}
use premir_cpp.Common.{
  ℕ, ◌≤◌, ◌≡◌, ◌≢◌, refl, sym, ap, ◌∙◌, subst, Bool, true, false, ◌||◌, List, [], ◌∷◌, ◌++◌, none,
  some, arith, ◌==◌, length, map,
}
use mathlib.Core.Bool.{false≢true}
use premir_cpp.Common.Run.{Returns, returns, Returns-bind, Returns-weaken}
use premir_cpp.Utils.LinkedList.{Heap, LinkedList, null, new, concat_from, concat, assign}
use premir_cpp.Utils.LinkedList.Chain.{
  Cells, start, has, Chain, IsLinked, SameBut, has-append, Chain-frame, not-has_of_none,
}
use premir_cpp.Utils.LinkedList.Ends.{Added, push-Added}
use premir_cpp.Utils.LinkedList.Clear.{without, without-apart, remove_all-Cleared}

abbrev pub among : List ℕ → ℕ → Bool
among [] b = false
among (p ∷ ps) b = (p == b) || among ps b

module _ {T : Type 0} where
  -- What `operator new` may return, call after call, when none of it is freed in between.
  abbrev pub Fresh : Heap T → List ℕ → Type 0
  Fresh h [] = Unit
  Fresh h (p ∷ ps) = (p ≢ null) × (h p ≡ none) × (among ps p ≡ false) × Fresh h ps

  -- The cells that hold the same values at other addresses.
  abbrev pub copies : Cells T → List ℕ → Cells T
  copies ((a, v) ∷ ys) (p ∷ ps) = (p, v) ∷ copies ys ps
  copies _ _ = []

  pub Fresh-same :
      (h g : Heap T) (ps : List ℕ)
      → ((b : ℕ) → among ps b ≡ true → g b ≡ h b)
      → Fresh h ps
      → Fresh g ps
  Fresh-same h g [] same f = tt
  Fresh-same h g (p ∷ ps) same (ne, e, out, f) =
      (ne, ground (arith, same p, e), out, Fresh-same h g ps (λ b i. same b (ground (arith, i))) f)

  Fresh-none : (h : Heap T) (ps : List ℕ) (b : ℕ) → Fresh h ps → among ps b ≡ true → h b ≡ none
  Fresh-none h [] b f i = absurd (false≢true i)
  Fresh-none h (p ∷ ps) b (ne, e, out, f) i = ground (arith, Fresh-none h ps b f, e, i)

  -- The addresses that are left after one of them has been used for a cell of a list.
  pub Fresh-Added :
      (h : Heap T) (xs : Cells T) (p : ℕ) (v : T) (ps : List ℕ) (ys : Cells T)
      (result : Heap T × LinkedList × ℕ)
      → Chain h xs null
      → Fresh h (p ∷ ps)
      → Added h xs p v ys result
      → Fresh result.0 ps
  Fresh-Added h xs p v ps ys result c (ne, e, out, f) added =
      Fresh-same h result.0 ps
        (λ b i.
          added.same b
            (ground (arith, not-has_of_none h xs null b c (Fresh-none h ps b f i), out, i)))
        f

  -- What the loop of `concat` leaves.
  pub record Concatenated (h : Heap T) (xs : Cells T) (new_cells : Cells T)
      (result : Heap T × LinkedList) : Type 0 where
    pub linked : IsLinked result.0 result.1 (xs ++ new_cells)
    pub same : SameBut (xs ++ new_cells) h result.0

  not-has-three :
      (xs : Cells T) (p : ℕ) (v : T) (zs : Cells T) (b : ℕ)
      → has ((xs ++ (p, v) ∷ []) ++ zs) b ≡ false
      → (has ((xs ++ (p, v) ∷ []) ++ zs) b ≡ false) × (has ((p, v) ∷ xs) b ≡ false)
  not-has-three xs p v zs b out =
      (out, ground (arith, has-append (xs ++ (p, v) ∷ []) zs b, has-append xs ((p, v) ∷ []) b, out))

  apart-snoc :
      (xs : Cells T) (p : ℕ) (v : T) (a : ℕ) (u : T) (ys : Cells T)
      → has ys p ≡ false
      → ((b : ℕ) → has ((a, u) ∷ ys) b ≡ true → has xs b ≡ false)
      → (b : ℕ) → has ys b ≡ true
      → has (xs ++ (p, v) ∷ []) b ≡ false
  apart-snoc xs p v a u ys out apart b i =
      ground (arith, has-append xs ((p, v) ∷ []) b, apart b, out, i)

  Concatenated-more :
      (h : Heap T) (xs : Cells T) (p : ℕ) (v : T) (zs ys : Cells T) (g : Heap T)
      (result : Heap T × LinkedList)
      → SameBut ((p, v) ∷ xs) h g
      → zs ≡ (p, v) ∷ ys
      → Concatenated g (xs ++ (p, v) ∷ []) ys result
      → Concatenated h xs zs result
  Concatenated-more h xs p v zs ys g result same e more =
      let joined : (xs ++ (p, v) ∷ []) ++ ys ≡ xs ++ zs =
        append_assoc xs ((p, v) ∷ []) ys ∙ ap (◌++◌ xs) (sym e) in
      record {
        linked = subst (IsLinked result.0 result.1) joined more.linked;
        same = λ b o.
            let (out, here) = not-has-three xs p v ys b (ap (λ us. has us b) joined ∙ o) in
            more.same b out ∙ same b here;
      }

  apart_cell :
      (h : Heap T) (xs : Cells T) (p : ℕ) (v : T) (a : ℕ) (u : T) (ys : Cells T) (next : ℕ)
      → h p ≡ none
      → h a ≡ some (record { value = u; next = next })
      → ((b : ℕ) → has ((a, u) ∷ ys) b ≡ true → has xs b ≡ false)
      → has ((p, v) ∷ xs) a ≡ false
  apart_cell h xs p v a u ys next unused e apart = ground (arith, unused, e, apart a)

  apart_cells :
      (h : Heap T) (xs : Cells T) (p : ℕ) (v : T) (a : ℕ) (u : T) (ys : Cells T)
      → has ys p ≡ false
      → ((b : ℕ) → has ((a, u) ∷ ys) b ≡ true → has xs b ≡ false)
      → (b : ℕ) → has ys b ≡ true
      → has ((p, v) ∷ xs) b ≡ false
  apart_cells h xs p v a u ys out apart b i = ground (arith, out, apart b, i)

  concat_from-Concatenated :
      (ps : List ℕ) (h : Heap T) (l : LinkedList) (xs ys : Cells T)
      → IsLinked h l xs
      → Chain h ys null
      → ((b : ℕ) → has ys b ≡ true → has xs b ≡ false)
      → Fresh h ps
      → length ys ≤ length ps
      → Returns (Concatenated h xs (copies ys ps)) (concat_from ps h l (start ys null))
  unfolding concat_from
  concat_from-Concatenated [] h l xs [] is c apart f enough =
      returns
        (record { linked = subst (IsLinked h l) (sym (append-nil xs)) is; same = λ b o. refl })
  concat_from-Concatenated [] h l xs (y ∷ ys) is c apart f enough = absurd (omega (arith, enough))
  concat_from-Concatenated (p ∷ ps) h l xs [] is c apart f enough =
      returns
        (record { linked = subst (IsLinked h l) (sym (append-nil xs)) is; same = λ b o. refl })
  concat_from-Concatenated (p ∷ ps) h l xs ((a, v) ∷ ys) is (ne, e, out, c) apart f enough =
      let not_null : (a == null) ≡ false = ground (arith, ne) in
      rw (not_null, e)
        (Returns-bind (push-Added h l xs p v is f.0 f.1) (λ result added.
          let g : Heap T = result.0 in
          let unused : has ys p ≡ false = not-has_of_none h ys null p c f.1 in
          let still : g a ≡ some (record { value = v; next = start ys null }) =
            added.same a (apart_cell h xs p v a v ys (start ys null) f.1 e apart) ∙ e in
          let behind : Chain g ys null =
            Chain-frame h g ys null
              (λ b i. added.same b (apart_cells h xs p v a v ys unused apart b i)) c in
          rw still (
            Returns-weaken
              (concat_from-Concatenated ps g result.1 (xs ++ (p, v) ∷ []) ys added.linked behind
                (apart-snoc xs p v a v ys unused apart)
                (Fresh-Added h xs p v ps (xs ++ (p, v) ∷ []) result is.chain f added)
                (omega (arith, enough)))
              (λ end more.
                Concatenated-more h xs p v ((p, v) ∷ copies ys ps) (copies ys ps) g end added.same
                  refl more))))

  -- If the two lists share no cell and `operator new` returns unused addresses, `concat` appends
  -- a new cell for every value of the other list, in order, and changes nothing but its own cells
  -- and the new ones, so the other list stays as it is.
  pub concat-Concatenated :
      (h : Heap T) (l m : LinkedList) (xs ys : Cells T) (ps : List ℕ)
      → IsLinked h l xs
      → IsLinked h m ys
      → ((b : ℕ) → has ys b ≡ true → has xs b ≡ false)
      → Fresh h ps
      → length ys ≤ length ps
      → Returns (Concatenated h xs (copies ys ps)) (concat h l ps m)
  unfolding concat
  concat-Concatenated h l m xs ys ps is other apart f enough =
      rw other.first_eq (concat_from-Concatenated ps h l xs ys is other.chain apart f enough)

  -- The copies hold the values.
  pub values-copies :
      (ys : Cells T) (ps : List ℕ)
      → length ys ≤ length ps
      → map (λ y. y.1) (copies ys ps) ≡ map (λ y. y.1) ys
  values-copies [] ps enough = refl
  values-copies ((a, v) ∷ ys) [] enough = absurd (omega (arith, enough))
  values-copies ((a, v) ∷ ys) (p ∷ ps) enough =
      ap (◌∷◌ v) (values-copies ys ps (omega (arith, enough)))

  -- What the assignment leaves: the old cells are freed, and the list is a copy of the other.
  pub record Assigned (h : Heap T) (xs ys : Cells T) (result : Heap T × LinkedList) : Type 0 where
    pub linked : IsLinked result.0 result.1 ys
    pub same : SameBut ys (without xs h) result.0

  -- If the two lists share no cell and `operator new` returns addresses unused once the cells of
  -- the list are freed, `operator=` frees those cells, makes a copy of the other list, and changes
  -- nothing else.
  pub assign-Assigned :
      (h : Heap T) (l m : LinkedList) (xs ys : Cells T) (ps : List ℕ)
      → IsLinked h l xs
      → IsLinked h m ys
      → ((b : ℕ) → has ys b ≡ true → has xs b ≡ false)
      → Fresh (without xs h) ps
      → length ys ≤ length ps
      → Returns (Assigned h xs (copies ys ps)) (assign h l false ps m)
  unfolding assign
  assign-Assigned h l m xs ys ps is other apart f enough =
      Returns-bind (remove_all-Cleared h l xs is) (λ result cleared.
        let g : Heap T = result.0 in
        let kept : (b : ℕ) → has ys b ≡ true → g b ≡ h b =
          λ b i. cleared.freed b ∙ without-apart xs h b (apart b i) in
        let blank : IsLinked g new [] = record {
          chain = tt;
          first_eq = refl;
          last_eq = refl;
          count = refl;
        } in
        let behind : IsLinked g m ys = record {
          chain = Chain-frame h g ys null kept other.chain;
          first_eq = other.first_eq;
          last_eq = other.last_eq;
          count = other.count;
        } in
        rw cleared.empty (
          Returns-weaken
            (concat-Concatenated g new m [] ys ps blank behind (λ b i. refl)
              (Fresh-same (without xs h) g ps (λ b i. cleared.freed b) f) enough)
            (λ end more. record {
              linked = more.linked;
              same = λ b o. more.same b o ∙ cleared.freed b;
            })))
