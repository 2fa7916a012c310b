-- ===== src/Utils/LinkedList/Chain.antt =====
-- The entries that a list links: their addresses and values, in order.
use premir_cpp.Common.{
  ℕ, ◌≡◌, ◌≢◌, refl, Bool, true, false, ◌||◌, List, [], ◌∷◌, ◌++◌, none, some, arith, ◌==◌, length,
}
use premir_cpp.Common.Run.{ok}
use premir_cpp.Utils.LinkedList.{Heap, LinkedList, null, write, load, set_next, delete}

-- An address with the value there.
abbrev pub Cells : Type 0 → Type 0
Cells T = List (ℕ × T)

module _ {T : Type 0} where
  -- The address of the first cell, and that of the last; the other argument serves no cells at all.
  abbrev pub start : Cells T → ℕ → ℕ
  start [] stop = stop
  start ((a, v) ∷ xs) stop = a

  abbrev pub final : Cells T → ℕ → ℕ
  final [] before = before
  final ((a, v) ∷ xs) before = final xs a

  abbrev pub has : Cells T → ℕ → Bool
  has [] b = false
  has ((a, v) ∷ xs) b = (a == b) || has xs b

  -- The cells are entries of the heap, each linked to the next and the last one to `stop`.
  abbrev pub Chain : Heap T → Cells T → ℕ → Type 0
  Chain h [] stop = Unit
  Chain h ((a, v) ∷ xs) stop =
      (a ≢ null)
      × (h a ≡ some (record { value = v; next = start xs stop }))
      × (has xs a ≡ false)
      × Chain h xs stop

  -- The list object stands for these cells.
  pub record IsLinked (h : Heap T) (l : LinkedList) (xs : Cells T) : Type 0 where
    pub chain : Chain h xs null
    pub first_eq : l.first ≡ start xs null
    pub last_eq : l.last ≡ final xs null
    pub count : l.size ≡ length xs

  -- The heap has changed at most at the address `a`, or at cells of `xs`.
  abbrev pub SameBut : Cells T → Heap T → Heap T → Type 0
  SameBut xs h g = (b : ℕ) → has xs b ≡ false → g b ≡ h b

  pub has-append : (xs ys : Cells T) (b : ℕ) → has (xs ++ ys) b ≡ (has xs b || has ys b)
  has-append [] ys b = refl
  has-append ((a, v) ∷ xs) ys b = ground (arith, has-append xs ys b)

  pub start-append : (xs ys : Cells T) (stop : ℕ) → start (xs ++ ys) stop ≡ start xs (start ys stop)
  start-append [] ys stop = refl
  start-append ((a, v) ∷ xs) ys stop = refl

  pub final-append :
      (xs ys : Cells T) (before : ℕ) → final (xs ++ ys) before ≡ final ys (final xs before)
  final-append [] ys before = refl
  final-append ((a, v) ∷ xs) ys before = final-append xs ys a

  pub final-snoc :
      (xs : Cells T) (a : ℕ) (v : T) (before : ℕ) → final (xs ++ (a, v) ∷ []) before ≡ a
  final-snoc xs a v before = final-append xs ((a, v) ∷ []) before

  -- A chain survives what spares its cells.
  pub Chain-frame :
      (h g : Heap T) (xs : Cells T) (stop : ℕ)
      → ((b : ℕ) → has xs b ≡ true → g b ≡ h b)
      → Chain h xs stop
      → Chain g xs stop
  Chain-frame h g [] stop same c = tt
  Chain-frame h g ((a, v) ∷ xs) stop same (ne, e, out, c) = (
    ne,
    ground (arith, same a, e),
    out,
    Chain-frame h g xs stop (λ b i. same b (ground (arith, i))) c,
  )

  pub Chain-write :
      (h : Heap T) (xs : Cells T) (stop p : ℕ) (content : _)
      → has xs p ≡ false
      → Chain h xs stop
      → Chain (write h p content) xs stop
  unfolding write
  Chain-write h xs stop p content out c =
      Chain-frame h (write h p content) xs stop (λ b i. ground (arith, out, i)) c

  pub Chain-append :
      (h : Heap T) (xs ys : Cells T) (stop : ℕ)
      → Chain h xs (start ys stop)
      → Chain h ys stop
      → ((b : ℕ) → has xs b ≡ true → has ys b ≡ false)
      → Chain h (xs ++ ys) stop
  Chain-append h [] ys stop c d apart = d
  Chain-append h ((a, v) ∷ xs) ys stop (ne, e, out, c) d apart = (
    ne,
    rw (start-append xs ys stop) e,
    ground (arith, has-append xs ys a, out, apart a),
    Chain-append h xs ys stop c d (λ b i. apart b (ground (arith, i))),
  )

  -- What a chain of two parts is.
  pub record Split (h : Heap T) (xs ys : Cells T) (stop : ℕ) : Type 0 where
    pub front : Chain h xs (start ys stop)
    pub back : Chain h ys stop
    pub apart : (b : ℕ) → has xs b ≡ true → has ys b ≡ false

  pub Chain-Split :
      (h : Heap T) (xs ys : Cells T) (stop : ℕ) → Chain h (xs ++ ys) stop → Split h xs ys stop
  Chain-Split h [] ys stop c = record { front = tt; back = c; apart = λ b i. cc }
  Chain-Split h ((a, v) ∷ xs) ys stop (ne, e, out, c) =
      let rest = Chain-Split h xs ys stop c in
      record {
        front = (
          ne,
          rw (start-append xs ys stop) at e,
          ground (arith, has-append xs ys a, out),
          rest.front,
        );
        back = rest.back;
        apart = λ b i. ground (arith, has-append xs ys a, out, i, rest.apart b);
      }

  -- No cell of a chain is where the heap has nothing.
  pub not-has_of_none :
      (h : Heap T) (xs : Cells T) (stop p : ℕ) → Chain h xs stop → h p ≡ none → has xs p ≡ false
  not-has_of_none h [] stop p c e = refl
  not-has_of_none h ((a, v) ∷ xs) stop p (ne, held, out, c) e =
      ground (arith, not-has_of_none h xs stop p c e, held, e)

  -- A cell at the front can be loaded, relinked and deleted.
  module _ (h : Heap T) (a next : ℕ) (v : T) (ne : a ≢ null)
      (e : h a ≡ some (record { value = v; next = next })) where
    not_null : (a == null) ≡ false
    not_null = ground (arith, ne)

    pub load-ok : load h a ≡ ok (record { value = v; next = next })
    unfolding load
    load-ok = rw (not_null, e)

    pub set_next-ok :
        (q : ℕ) → set_next h a q ≡ ok (write h a (some (record { value = v; next = q })))
    unfolding set_next
    set_next-ok q = rw (not_null, e)

    pub delete-ok : delete h a ≡ ok (write h a none)
    unfolding delete
    delete-ok = rw (not_null, e)

  pub write-here : (h : Heap T) (a : ℕ) (content : _) → write h a content a ≡ content
  unfolding write
  write-here h a content = ground arith

  pub write-apart : (h : Heap T) (a : ℕ) (content : _) (b : ℕ) → b ≢ a → write h a content b ≡ h b
  unfolding write
  write-apart h a content b ne = ground (arith, ne)

  pub not-has-cons :
      (p : ℕ) (v : T) (xs : Cells T) (q : ℕ)
      → has ((p, v) ∷ xs) q ≡ false
      → (q ≢ p) × (has xs q ≡ false)
  not-has-cons p v xs q o = (ground (arith, o), ground (arith, o))

  pub not-has-snoc :
      (xs : Cells T) (a : ℕ) (v : T) (q : ℕ)
      → has (xs ++ (a, v) ∷ []) q ≡ false
      → (has xs q ≡ false) × (q ≢ a)
  not-has-snoc xs a v q o = (
    ground (arith, o, has-append xs ((a, v) ∷ []) q),
    ground (arith, o, has-append xs ((a, v) ∷ []) q),
  )

  -- The first cell of the second part is not in the first part.
  pub Split-out :
      (h : Heap T) (xs : Cells T) (a : ℕ) (v : T) (ys : Cells T) (stop : ℕ)
      → Split h xs ((a, v) ∷ ys) stop
      → has xs a ≡ false
  Split-out h xs a v ys stop s = ground (arith, s.apart a)
