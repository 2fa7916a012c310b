-- ===== src/Utils/LinkedList/InsertBefore.antt =====
-- `insertBefore`.
use mathlib.Core.List.{append_assoc}
use premir_cpp.Common.{
  ℕ, ◌+◌, ◌≡◌, ◌≢◌, refl, sym, ◌∙◌, subst, false, [], ◌∷◌, ◌++◌, none, some, arith, ◌==◌, ==-refl,
  length-append,
}
use premir_cpp.Common.Run.{ok, Returns, returns}
use premir_cpp.Utils.LinkedList.{Heap, LinkedList, null, write, find_from, insert_before}
use premir_cpp.Utils.LinkedList.Chain.{
  Cells, start, has, Chain, IsLinked, final-append, start-append, Chain-write, Chain-Split,
  Split-out, not-has_of_none, write-apart, write-here, not-has-cons,
}
use premir_cpp.Utils.LinkedList.Ends.{last_cell, start-not_null, Added}
use premir_cpp.Utils.LinkedList.Insert.{not-has-parts, apart_test, Chain-insert, SameBut-insert}
use premir_cpp.Utils.LinkedList.Walk.{find_from-before}

module _ {T : Type 0} where
  insert_before-first :
      (h : Heap T) (l : LinkedList) (a : ℕ) (u : T) (vs : Cells T) (p : ℕ) (v : T)
      → IsLinked h l ((a, u) ∷ vs)
      → p ≢ null
      → h p ≡ none
      → Returns (Added h ((a, u) ∷ vs) p v ((p, v) ∷ (a, u) ∷ vs)) (insert_before h l (some p) v a)
  unfolding insert_before
  insert_before-first h l a u vs p v is ne unused =
      let out = not-has_of_none h ((a, u) ∷ vs) null p is.chain unused in
      rw (is.first_eq, ==-refl a)
        (returns (record {
          linked = record {
            chain = (ne, write-here h p _, out, Chain-write h ((a, u) ∷ vs) null p _ out is.chain);
            first_eq = refl;
            last_eq = is.last_eq;
            count = omega (arith, is.count);
          };
          same = λ q o. write-apart h p _ q ((not-has-cons p v ((a, u) ∷ vs) q o).0);
          entry = refl;
        }))

  start_apart :
      (zs : Cells T) (b : ℕ) (w : T) (a : ℕ) (stop : ℕ)
      → has (zs ++ (b, w) ∷ []) a ≡ false
      → (start (zs ++ (b, w) ∷ []) stop == a) ≡ false
  start_apart [] b w a stop out = ground (arith, out)
  start_apart ((d, t) ∷ zs) b w a stop out = ground (arith, out)

  insert_before-inner :
      (h : Heap T) (l : LinkedList) (zs : Cells T) (b : ℕ) (w : T) (a : ℕ) (u : T) (vs : Cells T)
      (p : ℕ) (v : T)
      → IsLinked h l ((zs ++ (b, w) ∷ []) ++ (a, u) ∷ vs)
      → p ≢ null
      → h p ≡ none
      → Returns
          (Added h
            ((zs ++ (b, w) ∷ []) ++ (a, u) ∷ vs)
            p
            v
            ((zs ++ (b, w) ∷ []) ++ (p, v) ∷ (a, u) ∷ vs))
          (insert_before h l (some p) v a)
  unfolding insert_before
  insert_before-inner h l zs b w a u vs p v is ne unused =
      let front : Cells T = zs ++ (b, w) ∷ [] in
      let ys : Cells T = (a, u) ∷ vs in
      let parts = Chain-Split h front ys null is.chain in
      let here = (Chain-Split h zs ((b, w) ∷ []) a parts.front).back in
      let absent = not-has_of_none h (front ++ ys) null p is.chain unused in
      let old : (b == p) ≡ false = apart_test zs b w p ((not-has-parts front ys p absent).0) in
      let stored : Heap T = write h p (some (record { value = v; next = a })) in
      let first : l.first ≡ start front a = is.first_eq ∙ start-append front ys null in
      let other : (start front a == a) ≡ false =
        start_apart zs b w a a (Split-out h front a u vs null parts) in
      let grown = length-append front ys in
      let shorter = length-append zs ((b, w) ∷ []) in
      let joined = append_assoc zs ((b, w) ∷ []) ys in
      let from : start (front ++ ys) null ≡ start front a = start-append front ys null in
      let found : find_from (l.size + 1) stored (start front a) a ≡ ok b =
        rw (sym from, joined)
          (find_from-before (l.size + 1) stored zs b w a u vs
            (subst (λ us. Chain stored us null) joined
              (Chain-write h (front ++ ys) null p _ absent is.chain))
            (omega (arith, is.count, grown, shorter))) in
      rw (first, other, found, start-not_null h b w [] a here, old, here.1)
        (returns (record {
          linked = record {
            chain = Chain-insert h zs b w p v ys is.chain ne unused;
            first_eq =
                start-append zs ((b, w) ∷ []) a
                ∙ sym (start-append front ((p, v) ∷ ys) null ∙ start-append zs ((b, w) ∷ []) p);
            last_eq =
                is.last_eq
                ∙ final-append front ys null
                ∙ sym (final-append front ((p, v) ∷ ys) null);
            count = omega (arith, is.count, grown, length-append front ((p, v) ∷ ys));
          };
          same = SameBut-insert h zs b w p v ys;
          entry = refl;
        }))

  -- If `operator new` returns an address `p` that was not in use, `insertBefore` puts a cell with the
  -- value right before the cell at `a`, returns it, and changes nothing but the list's cells and
  -- the new one.
  pub insert_before-Added :
      (h : Heap T) (l : LinkedList) (us : Cells T) (a : ℕ) (u : T) (vs : Cells T) (p : ℕ) (v : T)
      → IsLinked h l (us ++ (a, u) ∷ vs)
      → p ≢ null
      → h p ≡ none
      → Returns
          (Added h (us ++ (a, u) ∷ vs) p v (us ++ (p, v) ∷ (a, u) ∷ vs))
          (insert_before h l (some p) v a)
  insert_before-Added h l [] a u vs p v is ne unused =
      insert_before-first h l a u vs p v is ne unused
  insert_before-Added h l (x ∷ us) a u vs p v is ne unused =
      let (zs, b, w, e) = last_cell x us in
      subst
        (λ front.
          IsLinked h l (front ++ (a, u) ∷ vs)
          → Returns (Added h (front ++ (a, u) ∷ vs) p v (front ++ (p, v) ∷ (a, u) ∷ vs))
              (insert_before h l (some p) v a))
        (sym e) (λ is'. insert_before-inner h l zs b w a u vs p v is' ne unused) is
