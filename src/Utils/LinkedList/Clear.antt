-- ===== src/Utils/LinkedList/Clear.antt =====
-- `removeAll`, with which the destructor and the assignment start.
use premir_cpp.Common.{
  ℕ, zero, suc, ◌+◌, ◌≡◌, ◌<◌, refl, ◌∙◌, false, [], ◌∷◌, none, arith, ◌==◌, if◌then◌else◌, length,
}
use premir_cpp.Common.Run.{Returns, returns, Returns-bind, Returns-weaken}
use premir_cpp.Utils.LinkedList.{Heap, LinkedList, null, new, write, remove_from, remove_all}
use premir_cpp.Utils.LinkedList.Chain.{Cells, start, has, Chain, IsLinked, Chain-write}

module _ {T : Type 0} where
  -- The heap without these cells.
  abbrev pub without : Cells T → Heap T → Heap T
  without xs h b = if has xs b then none else h b

  without-write :
      (a : ℕ) (v : T) (xs : Cells T) (h : Heap T) (b : ℕ)
      → without xs (write h a none) b ≡ without ((a, v) ∷ xs) h b
  unfolding write
  without-write a v xs h b = ground arith

  pub remove_from-without :
      (k : ℕ) (h : Heap T) (xs : Cells T)
      → Chain h xs null
      → length xs < k
      → Returns (λ g. (b : ℕ) → g b ≡ without xs h b) (remove_from k h (start xs null))
  unfolding remove_from
  remove_from-without zero h xs c fuel = absurd (omega arith)
  remove_from-without (suc k) h [] c fuel = returns (λ b. refl)
  remove_from-without (suc k) h ((a, v) ∷ xs) (ne, e, out, c) fuel =
      let not_null : (a == null) ≡ false = ground (arith, ne) in
      let rest =
        remove_from-without k (write h a none) xs (Chain-write h xs null a none out c)
          (omega (arith, fuel)) in
      rw (not_null, e) (Returns-weaken rest (λ g freed b. freed b ∙ without-write a v xs h b))

  -- What `removeAll` leaves: no cell of the list, and an empty list.
  pub record Cleared (h : Heap T) (xs : Cells T) (result : Heap T × LinkedList) : Type 0 where
    pub freed : (b : ℕ) → result.0 b ≡ without xs h b
    pub empty : result.1 ≡ new

  -- `removeAll` ends, frees exactly the cells of the list, each once, and leaves an empty list.
  pub remove_all-Cleared :
      (h : Heap T) (l : LinkedList) (xs : Cells T)
      → IsLinked h l xs
      → Returns (Cleared h xs) (remove_all h l)
  unfolding remove_all
  remove_all-Cleared h l xs is = rw is.first_eq (
      Returns-bind (remove_from-without (l.size + 1) h xs is.chain (omega (arith, is.count)))
        (λ g freed. returns (record { freed = freed; empty = refl })))

  pub without-apart : (xs : Cells T) (h : Heap T) (b : ℕ) → has xs b ≡ false → without xs h b ≡ h b
  without-apart xs h b out = rw out refl
