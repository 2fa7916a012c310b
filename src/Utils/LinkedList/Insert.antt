-- ===== src/Utils/LinkedList/Insert.antt =====
-- `insertAfter`.
use premir_cpp.Common.{
  ℕ, ◌≡◌, ◌≢◌, refl, sym, ap, ◌∙◌, true, false, [], ◌∷◌, ◌++◌, none, some, arith, ◌==◌, ==-refl,
  if◌then◌else◌, length-append,
}
use premir_cpp.Common.Run.{Returns, returns}
use premir_cpp.Utils.LinkedList.{Heap, LinkedList, null, write, insert_after}
use premir_cpp.Utils.LinkedList.Chain.{
  Cells, start, final, has, Chain, IsLinked, SameBut, has-append, final-append, final-snoc,
  start-append, Chain-write, Chain-append, Chain-Split, not-has_of_none, write-here, write-apart,
  not-has-cons, not-has-snoc,
}
use premir_cpp.Utils.LinkedList.Ends.{start-not_null, Chain-relink, Added}

module _ {T : Type 0} where
  -- The heap with a new cell linked in between the cell at `b` and the cells `ys`.
  abbrev inserted : Heap T → ℕ → T → ℕ → T → Cells T → Heap T
  inserted h b w p v ys =
      write (write h p (some (record { value = v; next = start ys null }))) b
        (some (record { value = w; next = p }))

  pub not-has-parts :
      (xs ys : Cells T) (p : ℕ) → has (xs ++ ys) p ≡ false → (has xs p ≡ false) × (has ys p ≡ false)
  not-has-parts xs ys p out =
      (ground (arith, out, has-append xs ys p), ground (arith, out, has-append xs ys p))

  not-has_of_snoc :
      (zs : Cells T) (b : ℕ) (w : T) (ys : Cells T)
      → ((q : ℕ) → has (zs ++ (b, w) ∷ []) q ≡ true → has ys q ≡ false)
      → has ys b ≡ false
  not-has_of_snoc zs b w ys apart = ground (arith, apart b, has-append zs ((b, w) ∷ []) b)

  apart-cons :
      (xs : Cells T) (p : ℕ) (v : T) (ys : Cells T)
      → ((q : ℕ) → has xs q ≡ true → has ys q ≡ false)
      → has xs p ≡ false
      → (q : ℕ) → has xs q ≡ true
      → has ((p, v) ∷ ys) q ≡ false
  apart-cons xs p v ys apart out q i = ground (arith, apart q i, out, i)

  pub apart_test :
      (zs : Cells T) (b : ℕ) (w : T) (p : ℕ) → has (zs ++ (b, w) ∷ []) p ≡ false → (b == p) ≡ false
  apart_test zs b w p out = ground (arith, (not-has-snoc zs b w p out).1)

  pub Chain-insert :
      (h : Heap T) (zs : Cells T) (b : ℕ) (w : T) (p : ℕ) (v : T) (ys : Cells T)
      → Chain h ((zs ++ (b, w) ∷ []) ++ ys) null
      → p ≢ null
      → h p ≡ none
      → Chain (inserted h b w p v ys) ((zs ++ (b, w) ∷ []) ++ (p, v) ∷ ys) null
  Chain-insert h zs b w p v ys c ne unused =
      let front : Cells T = zs ++ (b, w) ∷ [] in
      let parts = Chain-Split h front ys null c in
      let out = not-has-parts front ys p (not-has_of_none h (front ++ ys) null p c unused) in
      let stored : Heap T = write h p (some (record { value = v; next = start ys null })) in
      let kept : Chain stored front (start ys null) =
        Chain-write h front (start ys null) p (some (record { value = v; next = start ys null }))
          out.0 parts.front in
      let behind : Chain stored ys null =
        Chain-write h ys null p (some (record { value = v; next = start ys null })) out.1
          parts.back in
      Chain-append (inserted h b w p v ys) front ((p, v) ∷ ys) null
        (Chain-relink stored zs b w (start ys null) p kept)
        (
          ne,
          write-apart stored b (some (record { value = w; next = p })) p
                ((not-has-snoc zs b w p out.0).1)
              ∙ write-here h p _,
          out.1,
          Chain-write stored ys null b (some (record { value = w; next = p }))
              (not-has_of_snoc zs b w ys parts.apart) behind,
        )
        (apart-cons front p v ys parts.apart out.0)

  pub SameBut-insert :
      (h : Heap T) (zs : Cells T) (b : ℕ) (w : T) (p : ℕ) (v : T) (ys : Cells T)
      → SameBut ((p, v) ∷ ((zs ++ (b, w) ∷ []) ++ ys)) h (inserted h b w p v ys)
  SameBut-insert h zs b w p v ys q o =
      let (new, old) = not-has-cons p v ((zs ++ (b, w) ∷ []) ++ ys) q o in
      let parts = not-has-parts (zs ++ (b, w) ∷ []) ys q old in
      write-apart (write h p (some (record { value = v; next = start ys null }))) b
        (some (record { value = w; next = p })) q ((not-has-snoc zs b w q parts.0).1)
      ∙ write-apart h p (some (record { value = v; next = start ys null })) q new

  has-final :
      (c : ℕ) (w : T) (ys : Cells T) (before : ℕ)
      → has ((c, w) ∷ ys) (final ((c, w) ∷ ys) before) ≡ true
  has-final c w [] before = ground arith
  has-final c w ((d, u) ∷ ys) before = ground (arith, has-final d u ys c)

  -- Behind the cell at `b` the last one is the new one only if that cell was the last.
  final-insert :
      (b p : ℕ) (ys : Cells T)
      → has ys b ≡ false
      → (if final ys b == b then p else final ys b) ≡ final ys p
  final-insert b p [] out = rw (==-refl b) refl
  final-insert b p ((c, w) ∷ ys) out =
      let other : (final ys c == b) ≡ false = ground (arith, has-final c w ys b, out) in
      rw other refl

  -- If `operator new` returns an address `p` that was not in use, `insertAfter` puts a cell with the
  -- value right behind the cell at `b`, returns it, and changes nothing but the list's cells and
  -- the new one.
  pub insert_after-Added :
      (h : Heap T) (l : LinkedList) (zs : Cells T) (b : ℕ) (w : T) (ys : Cells T) (p : ℕ) (v : T)
      → IsLinked h l ((zs ++ (b, w) ∷ []) ++ ys)
      → p ≢ null
      → h p ≡ none
      → Returns
          (Added h ((zs ++ (b, w) ∷ []) ++ ys) p v ((zs ++ (b, w) ∷ []) ++ (p, v) ∷ ys))
          (insert_after h l (some p) v b)
  unfolding insert_after
  insert_after-Added h l zs b w ys p v is ne unused =
      let front : Cells T = zs ++ (b, w) ∷ [] in
      let parts = Chain-Split h front ys null is.chain in
      let here = (Chain-Split h zs ((b, w) ∷ []) (start ys null) parts.front).back in
      let out = not-has-parts front ys p (not-has_of_none h (front ++ ys) null p is.chain unused) in
      let old : (b == p) ≡ false = apart_test (zs) b w p out.0 in
      let end : l.last ≡ final ys b =
        is.last_eq ∙ final-append front ys null ∙ ap (final ys) (final-snoc zs b w null) in
      rw
        (
          start-not_null h b w [] (start ys null) here,
          here.1,
          old,
          end,
          final-insert b p ys (not-has_of_snoc zs b w ys parts.apart),
        )
        (returns (record {
          linked = record {
            chain = Chain-insert h zs b w p v ys is.chain ne unused;
            first_eq =
                is.first_eq
                ∙ start-append front ys null
                ∙ start-append zs ((b, w) ∷ []) (start ys null)
                ∙ sym (start-append front ((p, v) ∷ ys) null ∙ start-append zs ((b, w) ∷ []) p);
            last_eq = sym (final-append front ((p, v) ∷ ys) null);
            count =
                omega (arith, is.count, length-append front ys, length-append front ((p, v) ∷ ys));
          };
          same = SameBut-insert h zs b w p v ys;
          entry = refl;
        }))
