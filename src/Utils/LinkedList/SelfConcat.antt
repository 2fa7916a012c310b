-- ===== src/Utils/LinkedList/SelfConcat.antt =====
-- `list.concat(list)`.
use mathlib.Core.List.{append_assoc}
use premir_cpp.Common.{ℕ, ◌≡◌, refl, sym, ap, ◌∙◌, subst, List, [], ◌∷◌, ◌++◌}
use premir_cpp.Common.Run.{throws, out_of_memory, Returns-result}
use premir_cpp.Utils.LinkedList.{Heap, LinkedList, null, concat_from, concat}
use premir_cpp.Utils.LinkedList.Chain.{Cells, IsLinked, Chain-Split}
use premir_cpp.Utils.LinkedList.Ends.{start-not_null, push-Added}
use premir_cpp.Utils.LinkedList.Concat.{Fresh, Fresh-Added}

module _ {T : Type 0} where
  first_cell :
      (ys : Cells T) (p : ℕ) (v : T)
      → (a : ℕ) × (u : T) × (zs : Cells T) × (ys ++ (p, v) ∷ [] ≡ (a, u) ∷ zs)
  first_cell [] p v = (p, v, [], refl)
  first_cell ((a, u) ∷ ys) p v = (a, u, ys ++ (p, v) ∷ [], refl)

  -- The loop of `list.concat(list)`: the entry `a` is a cell of the list itself.
  concat_from_self :
      (ps : List ℕ) (h : Heap T) (l : LinkedList) (xs : Cells T) (a : ℕ) (v : T) (ys : Cells T)
      → IsLinked h l (xs ++ (a, v) ∷ ys)
      → Fresh h ps
      → concat_from ps h l a ≡ throws out_of_memory
  unfolding concat_from
  concat_from_self [] h l xs a v ys is f =
      let here = (Chain-Split h xs ((a, v) ∷ ys) null is.chain).back in
      let not_null = start-not_null h a v ys null here in rw (not_null, here.1) refl
  concat_from_self (p ∷ ps) h l xs a v ys is f =
      let here = (Chain-Split h xs ((a, v) ∷ ys) null is.chain).back in
      let not_null = start-not_null h a v ys null here in
      let (result, e, added) = Returns-result (push-Added h l (xs ++ (a, v) ∷ ys) p v is f.0 f.1) in
      let (a', v', ys', split) = first_cell ys p v in
      let joined : (xs ++ (a, v) ∷ ys) ++ (p, v) ∷ [] ≡ (xs ++ (a, v) ∷ []) ++ (a', v') ∷ ys' =
        append_assoc xs ((a, v) ∷ ys) ((p, v) ∷ [])
        ∙ ap (λ zs. xs ++ (a, v) ∷ zs) split
        ∙ sym (append_assoc xs ((a, v) ∷ []) ((a', v') ∷ ys')) in
      let grown : IsLinked result.0 result.1 ((xs ++ (a, v) ∷ []) ++ (a', v') ∷ ys') =
        subst (IsLinked result.0 result.1) joined added.linked in
      let before =
        (Chain-Split result.0 (xs ++ (a, v) ∷ []) ((a', v') ∷ ys') null grown.chain).front in
      let still = (Chain-Split result.0 xs ((a, v) ∷ []) a' before).back in
      rw (not_null, here.1, e, still.1)
        (concat_from_self ps result.0 result.1 (xs ++ (a, v) ∷ []) a' v' ys' grown (
          Fresh-Added h (xs ++ (a, v) ∷ ys) p v ps ((xs ++ (a, v) ∷ ys) ++ (p, v) ∷ []) result
            is.chain f added))

  -- `concat` of a list that has an element with itself never reaches an end: however many unused
  -- addresses `operator new` returns, the loop uses them all and then throws.
  pub concat_self :
      (h : Heap T) (l : LinkedList) (x : ℕ × T) (xs : Cells T) (ps : List ℕ)
      → IsLinked h l (x ∷ xs)
      → Fresh h ps
      → concat h l ps l ≡ throws out_of_memory
  unfolding concat
  concat_self h l (a, v) xs ps is f =
      subst (λ q. concat_from ps h l q ≡ throws out_of_memory) (sym is.first_eq)
        (concat_from_self ps h l [] a v xs is f)
