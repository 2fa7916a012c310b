-- ===== src/Utils/LinkedList/Walk.antt =====
-- `operator[]`, `findPrevious` and `pop`.
use mathlib.Core.List.{append_assoc}
use premir_cpp.Common.{
  ℕ, zero, suc, ◌+◌, ◌≡◌, ◌<◌, refl, sym, ap, ◌∙◌, subst, true, false, [], ◌∷◌, ◌++◌, none, some,
  arith, ◌==◌, length, length-append, get_elem?, Option, ==-refl,
}
use premir_cpp.Common.Run.{ok, Returns, returns}
use premir_cpp.Utils.LinkedList.{
  Heap, LinkedList, null, write, find_from, find_previous, index_from, at, pop,
}
use premir_cpp.Utils.LinkedList.Chain.{
  Cells, start, final, has, Chain, IsLinked, has-append, final-snoc, Chain-write, Chain-Split,
  write-here, write-apart, not-has-cons, not-has-snoc, Split-out, start-append,
}
use premir_cpp.Utils.LinkedList.Ends.{last_cell, start-not_null, Chain-relink, Removed}

module _ {T : Type 0} where
  -- The address of the cell at an index, or `nullptr`.
  abbrev pub address_of : Option (ℕ × T) → ℕ
  address_of none = null
  address_of (some (a, v)) = a

  index_from-address :
      (k : ℕ) (h : Heap T) (xs : Cells T) (i j : ℕ)
      → Chain h xs null
      → length xs < k
      → index_from k h (start xs null) i (i + j) ≡ ok (address_of (get_elem? xs j))
  unfolding index_from
  index_from-address zero h xs i j c fuel = absurd (omega arith)
  index_from-address (suc k) h [] i j c fuel = refl
  index_from-address (suc k) h ((a, v) ∷ xs) i zero (ne, e, out, c) fuel =
      let not_null : (a == null) ≡ false = ground (arith, ne) in
      let here : (i == i + 0) ≡ true = ground arith in rw (not_null, here) refl
  index_from-address (suc k) h ((a, v) ∷ xs) i (suc j) (ne, e, out, c) fuel =
      let not_null : (a == null) ≡ false = ground (arith, ne) in
      let there : (i == i + suc j) ≡ false = ground arith in
      let same : i + suc j ≡ (i + 1) + j = omega arith in
      rw (not_null, there, e, same) (index_from-address k h xs (i + 1) j c (omega (arith, fuel)))

  -- `operator[]` returns the entry at an index, and `nullptr` past the end.
  pub at-address :
      (h : Heap T) (l : LinkedList) (xs : Cells T) (index : ℕ)
      → IsLinked h l xs
      → at h l index ≡ ok (address_of (get_elem? xs index))
  unfolding at
  at-address h l xs index is =
      let from : index ≡ 0 + index = omega arith in
      rw is.first_eq (
        subst
          (λ j.
            index_from (l.size + 1) h (start xs null) 0 j ≡ ok (address_of (get_elem? xs index)))
          (sym from)
          (index_from-address (l.size + 1) h xs 0 index is.chain (omega (arith, is.count))))

  -- An entry that no other links to has no previous one.
  find_from-missing :
      (k : ℕ) (h : Heap T) (b : ℕ) (w : T) (xs : Cells T) (item : ℕ)
      → Chain h ((b, w) ∷ xs) null
      → has xs item ≡ false
      → suc (length xs) < k
      → find_from k h b item ≡ ok null
  unfolding find_from
  find_from-missing zero h b w xs item c out fuel = absurd (omega arith)
  find_from-missing (suc zero) h b w [] item c out fuel = absurd (omega (arith, fuel))
  find_from-missing (suc (suc k)) h b w [] item (ne, e, _, c) out fuel =
      let not_null : (b == null) ≡ false = ground (arith, ne) in rw (not_null, e) refl
  find_from-missing (suc k) h b w ((d, u) ∷ xs) item (ne, e, _, c) out fuel =
      let not_null : (b == null) ≡ false = ground (arith, ne) in
      let other : (d == item) ≡ false = ground (arith, out) in
      let next = find_from-missing k h d u xs item c (ground (arith, out)) (omega (arith, fuel)) in
      rw (not_null, e, start-not_null h d u xs null c, other) next

  -- The previous entry is found where there is one.
  pub find_from-before :
      (k : ℕ) (h : Heap T) (us : Cells T) (b : ℕ) (w : T) (a : ℕ) (v : T) (vs : Cells T)
      → Chain h (us ++ (b, w) ∷ (a, v) ∷ vs) null
      → suc (length us) < k
      → find_from k h (start (us ++ (b, w) ∷ (a, v) ∷ vs) null) a ≡ ok b
  unfolding find_from
  find_from-before zero h us b w a v vs c fuel = absurd (omega arith)
  find_from-before (suc k) h [] b w a v vs (ne, e, out, c) fuel =
      let not_null : (b == null) ≡ false = ground (arith, ne) in
      rw (not_null, e, start-not_null h a v vs null c, ==-refl a) refl
  find_from-before (suc k) h ((d, u) ∷ []) b w a v vs (ne, e, out, c) fuel =
      let not_null : (d == null) ≡ false = ground (arith, ne) in
      let other : (b == a) ≡ false = ground (arith, c.2) in
      rw (not_null, e, start-not_null h b w ((a, v) ∷ vs) null c, other)
        (find_from-before k h [] b w a v vs c (omega (arith, fuel)))
  find_from-before (suc k) h ((d, u) ∷ (d', u') ∷ us) b w a v vs (ne, e, out, c) fuel =
      let not_null : (d == null) ≡ false = ground (arith, ne) in
      let other : (d' == a) ≡ false =
        ground (arith, c.2, has-append us ((b, w) ∷ (a, v) ∷ vs) d') in
      rw (not_null, e, start-not_null h d' u' (us ++ (b, w) ∷ (a, v) ∷ vs) null c, other)
        (find_from-before k h ((d', u') ∷ us) b w a v vs c (omega (arith, fuel)))

  pop-one :
      (h : Heap T) (l : LinkedList) (a : ℕ) (v : T)
      → IsLinked h l ((a, v) ∷ [])
      → Returns (Removed h ((a, v) ∷ []) a null []) (pop h l)
  unfolding pop
  pop-one h l a v is =
      let found : find_previous h l l.last ≡ ok null =
        rw (is.last_eq, is.first_eq, find_previous)
          (find_from-missing (l.size + 1) h a v [] a is.chain refl (omega (arith, is.count))) in
      rw (found, is.last_eq, start-not_null h a v [] null is.chain, is.chain.1)
        (returns (record {
          linked = record {
            chain = tt;
            first_eq = refl;
            last_eq = refl;
            count = omega (arith, is.count);
          };
          freed = write-here h a none;
          same = λ q o. write-apart h a none q ((not-has-cons a v [] q o).0);
          entry = refl;
        }))

  pop-more :
      (h : Heap T) (l : LinkedList) (ys : Cells T) (b : ℕ) (w : T) (a : ℕ) (v : T)
      → IsLinked h l ((ys ++ (b, w) ∷ []) ++ (a, v) ∷ [])
      → Returns (Removed h ((ys ++ (b, w) ∷ []) ++ (a, v) ∷ []) a b (ys ++ (b, w) ∷ [])) (pop h l)
  unfolding pop
  pop-more h l ys b w a v is =
      let front : Cells T = ys ++ (b, w) ∷ [] in
      let parts = Chain-Split h front ((a, v) ∷ []) null is.chain in
      let grown = length-append front ((a, v) ∷ []) in
      let shorter = length-append ys ((b, w) ∷ []) in
      let joined = append_assoc ys ((b, w) ∷ []) ((a, v) ∷ []) in
      let found : find_previous h l l.last ≡ ok b =
        rw (is.last_eq, final-snoc front a v null, is.first_eq, joined, find_previous)
          (find_from-before (l.size + 1) h ys b w a v []
            (subst (λ zs. Chain h zs null) joined is.chain)
            (omega (arith, is.count, grown, shorter))) in
      let out : has front a ≡ false = Split-out h front a v [] null parts in
      let freed : Heap T = write h a none in
      let kept : Chain freed front a = Chain-write h front a a none out parts.front in
      let at_last = (Chain-Split freed ys ((b, w) ∷ []) a kept).back in
      rw
        (
          found,
          is.last_eq,
          final-snoc front a v null,
          start-not_null h a v [] null parts.back,
          parts.back.1,
          start-not_null freed b w [] a at_last,
          at_last.1,
        )
        (returns (record {
          linked = record {
            chain = Chain-relink freed ys b w a null kept;
            first_eq =
                is.first_eq
                ∙ start-append front ((a, v) ∷ []) null
                ∙ start-append ys ((b, w) ∷ []) a
                ∙ sym (start-append ys ((b, w) ∷ []) null);
            last_eq = sym (final-snoc ys b w null);
            count = omega (arith, is.count, grown);
          };
          freed = write-apart freed b _ a ((not-has-snoc ys b w a out).1) ∙ write-here h a none;
          same = λ q o.
              let (before, other) = not-has-snoc front a v q o in
              write-apart freed b _ q ((not-has-snoc ys b w q before).1)
              ∙ write-apart h a none q other;
          entry = refl;
        }))

  -- `pop` frees the last cell, and returns the one before it, or `nullptr` when there is none. It
  -- changes nothing but the list's cells.
  pub pop-Removed :
      (h : Heap T) (l : LinkedList) (ys : Cells T) (a : ℕ) (v : T)
      → IsLinked h l (ys ++ (a, v) ∷ [])
      → Returns (Removed h (ys ++ (a, v) ∷ []) a (final ys null) ys) (pop h l)
  pop-Removed h l [] a v is = pop-one h l a v is
  pop-Removed h l (y ∷ ys) a v is =
      let (zs, b, w, e) = last_cell y ys in
      let end : final (y ∷ ys) null ≡ b = ap (λ us. final us null) e ∙ final-snoc zs b w null in
      subst
        (λ us.
          (is' : IsLinked h l (us ++ (a, v) ∷ []))
          → Returns (Removed h (us ++ (a, v) ∷ []) a (final us null) us) (pop h l))
        (sym e) (λ is'. rw (final-snoc zs b w null) (pop-more h l zs b w a v is')) is
