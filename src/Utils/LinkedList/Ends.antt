-- ===== src/Utils/LinkedList/Ends.antt =====
-- `push`, `unshift` and `shift`.
use premir_cpp.Common.{
  ℕ, suc, ◌+◌, ◌≡◌, ◌≢◌, refl, sym, ap, ◌∙◌, subst, false, [], ◌∷◌, ◌++◌, none, some, arith, ◌==◌,
  length, length-append,
}
use premir_cpp.Common.Run.{Returns, returns}
use premir_cpp.Utils.LinkedList.{Entry, Heap, LinkedList, null, write, push, unshift, shift}
use premir_cpp.Utils.LinkedList.Chain.{
  Cells, start, final, has, Chain, IsLinked, SameBut, has-append, final-snoc, Chain-write,
  Chain-append, Chain-Split, not-has_of_none, set_next-ok, write-here, write-apart, not-has-cons,
  not-has-snoc,
}

module _ {T : Type 0} where
  -- The last cell of a list that has one.
  pub last_cell :
      (x : ℕ × T) (xs : Cells T) → (ys : Cells T) × (a : ℕ) × (v : T) × (x ∷ xs ≡ ys ++ (a, v) ∷ [])
  last_cell (a, v) [] = ([], a, v, refl)
  last_cell x (y ∷ xs) = let (ys, a, v, e) = last_cell y xs in (x ∷ ys, a, v, ap (◌∷◌ x) e)

  pub start-not_null :
      (h : Heap T) (a : ℕ) (v : T) (xs : Cells T) (stop : ℕ)
      → Chain h ((a, v) ∷ xs) stop
      → (a == null) ≡ false
  start-not_null h a v xs stop (ne, e, out, c) = ground (arith, ne)

  -- Linking the last cell to another address.
  pub Chain-relink :
      (h : Heap T) (ys : Cells T) (a : ℕ) (v : T) (stop target : ℕ)
      → Chain h (ys ++ (a, v) ∷ []) stop
      → Chain (write h a (some (record { value = v; next = target }))) (ys ++ (a, v) ∷ []) target
  Chain-relink h ys a v stop target c =
      let parts = Chain-Split h ys ((a, v) ∷ []) stop c in
      let out : has ys a ≡ false = ground (arith, parts.apart a) in
      Chain-append _ ys ((a, v) ∷ []) target (Chain-write h ys a a _ out parts.front)
        (parts.back.0, write-here h a _, refl, tt) parts.apart

  -- What a method that adds a cell returns: the new entry, which was not in use, and the list.
  pub record Added (h : Heap T) (xs : Cells T) (p : ℕ) (v : T) (ys : Cells T)
      (result : Heap T × LinkedList × ℕ) : Type 0 where
    pub linked : IsLinked result.0 result.1 ys
    pub same : SameBut ((p, v) ∷ xs) h result.0
    pub entry : result.2 ≡ p

  push-snoc :
      (h : Heap T) (l : LinkedList) (x : ℕ × T) (xs ys : Cells T) (a p : ℕ) (w v : T)
      → IsLinked h l (x ∷ xs)
      → x ∷ xs ≡ ys ++ (a, w) ∷ []
      → p ≢ null
      → h p ≡ none
      → Returns (Added h (x ∷ xs) p v ((x ∷ xs) ++ (p, v) ∷ [])) (push h l (some p) v)
  unfolding push
  push-snoc h l (b, u) xs ys a p w v is e ne unused =
      let c : Chain h (ys ++ (a, w) ∷ []) null = subst (λ zs. Chain h zs null) e is.chain in
      let out : has (ys ++ (a, w) ∷ []) p ≡ false = not-has_of_none h _ null p c unused in
      let item : Entry T = record { value = v; next = null } in
      let stored = write h p (some item) in
      let kept : Chain stored (ys ++ (a, w) ∷ []) null = Chain-write h _ null p (some item) out c in
      let at_last = (Chain-Split stored ys ((a, w) ∷ []) null kept).back in
      let linked = write stored a (some (record { value = w; next = p })) in
      let apart : (a == p) ≡ false = ground (arith, has-append ys ((a, w) ∷ []) p, out) in
      let grown : Chain linked ((ys ++ (a, w) ∷ []) ++ (p, v) ∷ []) null =
        Chain-append linked (ys ++ (a, w) ∷ []) ((p, v) ∷ []) null
          (Chain-relink stored ys a w null p kept)
          (ne, write-apart stored a _ p (ground (arith, apart)) ∙ write-here h p _, refl, tt)
          (λ q i. ground (arith, i, out)) in
      rw
        (
          is.first_eq,
          start-not_null h b u xs null is.chain,
          is.last_eq,
          ap (λ zs. final zs null) e,
          final-snoc ys a w null,
          set_next-ok stored a null w at_last.0 at_last.1 p,
        )
        (returns (record {
          linked = record {
            chain = subst (λ zs. Chain linked (zs ++ (p, v) ∷ []) null) (sym e) grown;
            first_eq = refl;
            last_eq = sym (final-snoc ((b, u) ∷ xs) p v null);
            count = omega (arith, is.count, length-append ((b, u) ∷ xs) ((p, v) ∷ []));
          };
          same = λ q o.
              let (new, old) = not-has-cons p v ((b, u) ∷ xs) q o in
              write-apart stored a _ q
                ((not-has-snoc ys a w q (ap (λ zs. has zs q) (sym e) ∙ old)).1)
              ∙ write-apart h p _ q new;
          entry = refl;
        }))

  -- If `operator new` returns an address `p` that was not in use, `push` puts a cell with the value
  -- behind the others, returns it, and changes nothing but the list's cells and the new one.
  pub push-Added :
      (h : Heap T) (l : LinkedList) (xs : Cells T) (p : ℕ) (v : T)
      → IsLinked h l xs
      → p ≢ null
      → h p ≡ none
      → Returns (Added h xs p v (xs ++ (p, v) ∷ [])) (push h l (some p) v)
  unfolding push
  push-Added h l [] p v is ne unused = rw (is.first_eq) (
      returns (record {
        linked = record {
          chain = (ne, write-here h p _, refl, tt);
          first_eq = refl;
          last_eq = refl;
          count = omega (arith, is.count);
        };
        same = λ q o. write-apart h p _ q (ground (arith, o));
        entry = refl;
      }))
  push-Added h l (x ∷ xs) p v is ne unused =
      let (ys, a, w, e) = last_cell x xs in push-snoc h l x xs ys a p w v is e ne unused

  -- `unshift` puts the cell before the others.
  pub unshift-Added :
      (h : Heap T) (l : LinkedList) (xs : Cells T) (p : ℕ) (v : T)
      → IsLinked h l xs
      → p ≢ null
      → h p ≡ none
      → Returns (Added h xs p v ((p, v) ∷ xs)) (unshift h l (some p) v)
  unfolding unshift
  unshift-Added h l [] p v is ne unused = rw (is.first_eq) (
      returns (record {
        linked = record {
          chain = (ne, write-here h p _, refl, tt);
          first_eq = refl;
          last_eq = refl;
          count = omega (arith, is.count);
        };
        same = λ q o. write-apart h p _ q (ground (arith, o));
        entry = refl;
      }))
  unshift-Added h l ((b, u) ∷ xs) p v is ne unused =
      let stored : Heap T = write h p (some (record { value = v; next = null })) in
      let linked : Heap T = write stored p (some (record { value = v; next = b })) in
      let out : has ((b, u) ∷ xs) p ≡ false =
        not-has_of_none h ((b, u) ∷ xs) null p is.chain unused in
      let kept : Chain linked ((b, u) ∷ xs) null =
        Chain-write stored ((b, u) ∷ xs) null p (some (record { value = v; next = b })) out (
          Chain-write h ((b, u) ∷ xs) null p (some (record { value = v; next = null })) out
            is.chain) in
      let size : l.size + 1 ≡ suc (suc (length xs)) = omega (arith, is.count) in
      rw
        (
          is.first_eq,
          start-not_null h b u xs null is.chain,
          set_next-ok stored p null v ne (write-here h p _) b,
        )
        (returns (record {
          linked = record {
            chain = (ne, write-here stored p _, out, kept);
            first_eq = refl;
            last_eq = is.last_eq;
            count = size;
          };
          same = λ q o.
              let (new, old) = not-has-cons p v ((b, u) ∷ xs) q o in
              write-apart stored p _ q new ∙ write-apart h p _ q new;
          entry = refl;
        }))

  -- What a method that removes the cell at `a` returns: the entry `next_entry`, and the list.
  pub record Removed (h : Heap T) (xs : Cells T) (a next_entry : ℕ) (ys : Cells T)
      (result : Heap T × LinkedList × ℕ) : Type 0 where
    pub linked : IsLinked result.0 result.1 ys
    pub freed : result.0 a ≡ none
    pub same : SameBut xs h result.0
    pub entry : result.2 ≡ next_entry

  -- `shift` frees the first cell, and returns the next one, or `nullptr` when there is none.
  pub shift-Removed :
      (h : Heap T) (l : LinkedList) (a : ℕ) (v : T) (xs : Cells T)
      → IsLinked h l ((a, v) ∷ xs)
      → Returns (Removed h ((a, v) ∷ xs) a (start xs null) xs) (shift h l)
  unfolding shift
  shift-Removed h l a v [] is =
      rw (is.first_eq, start-not_null h a v [] null is.chain, is.chain.1)
        (returns (record {
          linked = record {
            chain = tt;
            first_eq = refl;
            last_eq = refl;
            count = omega (arith, is.count);
          };
          freed = write-here h a none;
          same = λ q o. write-apart h a none q (ground (arith, o));
          entry = refl;
        }))
  shift-Removed h l a v ((b, u) ∷ xs) is =
      let (ne, e, out, rest) = is.chain in
      rw
        (
          is.first_eq,
          start-not_null h a v ((b, u) ∷ xs) null is.chain,
          e,
          start-not_null h b u xs null rest,
        )
        (returns (record {
          linked = record {
            chain = Chain-write h ((b, u) ∷ xs) null a none out rest;
            first_eq = refl;
            last_eq = is.last_eq;
            count = omega (arith, is.count);
          };
          freed = write-here h a none;
          same = λ q o. write-apart h a none q (ground (arith, o));
          entry = refl;
        }))
