-- ===== src/Utils/CArrayList/Lists.antt =====
-- A `CArrayList` as a list of values.
use premir_cpp.Common.{
  ℕ, suc, ◌+◌, ◌≤◌, ◌≡◌, refl, ap, ◌∙◌, subst, ◌↔◌, Bool, true, List, [], ◌∷◌, ◌++◌, some, arith,
  ltb, ◌==◌, ==_iff, if◌then◌else◌, length, get_elem?, length-append, Bool-cases, inl, inr,
}
use premir_cpp.Common.Run.{Returns, returns, Returns-bind, Returns-weaken, Returns-cond}
use premir_cpp.Utils.Memory.{Begins}
use premir_cpp.Utils.Memory.Writes.{get_elem?-Begins}
use premir_cpp.Utils.RdMatrix.Rows.{memcpy-Begins, reallocate-Begins}
use premir_cpp.Utils.CArrayList.{CArrayList, at, equal_from, equal, initialize_array_memory, push}

module _ {ℓ} {T : Type ℓ} where
  -- The list holds the values `xs`, and its array has as many cells as its capacity says.
  pub record IsList (xs : List T) (list : CArrayList T) : Type ℓ where
    pub count : list.size ≡ length xs
    pub cells : length list.array ≡ list.capacity
    pub begins : Begins xs list.array

  module _ (grants : ℕ → Bool) (granted : (n : ℕ) → grants n ≡ true) where
    initialize_array_memory-IsList :
        (xs : List T) (list : CArrayList T) (n : ℕ)
        → IsList xs list
        → Returns
            (λ wider. IsList xs wider × (n ≤ length wider.array))
            (initialize_array_memory grants list n)
    unfolding initialize_array_memory
    initialize_array_memory-IsList xs list n is =
        Returns-cond (ltb list.capacity n)
          (λ more.
            let increased = list.capacity + list.capacity_increase in
            let capacity = if ltb increased n then n else increased in
            let (enough, wider) : (n ≤ capacity) × (list.capacity ≤ capacity) =
              ground (arith, more) in
            Returns-bind
              (reallocate-Begins grants granted list.type_sizeof capacity xs list.array is.begins
                (omega (arith, is.cells, wider)))
              λ array (begins, size). returns (
                record { count = is.count; cells = size; begins = begins },
                omega (arith, size, enough),
              ))
          (λ fits. returns (is, ground (arith, fits, is.cells)))

    -- Where the allocator grants every request, `push` of the values `ys` on a list that holds `xs`
    -- returns one that holds `xs ++ ys`.
    pub push-IsList :
        (xs ys : List T) (list : CArrayList T)
        → IsList xs list
        → Returns (IsList (xs ++ ys)) (push grants list ys (length ys))
    unfolding push
    push-IsList xs ys list is =
        Returns-bind (initialize_array_memory-IsList xs list (list.size + length ys) is)
          λ wider (same, room). rw same.count (
            Returns-bind
              (memcpy-Begins xs ys wider.array same.begins (omega (arith, room, is.count)))
              λ array (begins, size). returns (record {
                count = omega (arith, is.count, length-append xs ys);
                cells = size ∙ same.cells;
                begins = begins;
              }))

  module _ (same : T → T → Bool) (same_iff : (x y : T) → (same x y ≡ true) ↔ (x ≡ y)) where
    -- From index `i` on the list has the values `us`.
    From : CArrayList T → ℕ → List T → Type ℓ
    From list i us =
        (j : ℕ) (x : T) → get_elem? us j ≡ some x → get_elem? list.array (i + j) ≡ some (some x)

    From-here :
        (list : CArrayList T) (i : ℕ) (u : T) (us : List T)
        → From list i (u ∷ us)
        → get_elem? list.array i ≡ some (some u)
    unfolding From
    From-here list i u us from =
        subst (λ k. get_elem? list.array k ≡ some (some u)) (omega arith) (from 0 u refl)

    From-next :
        (list : CArrayList T) (i : ℕ) (u : T) (us : List T)
        → From list i (u ∷ us)
        → From list (suc i) us
    unfolding From
    From-next list i u us from j x e =
        subst (λ k. get_elem? list.array k ≡ some (some x)) (omega arith) (from (suc j) x e)

    equal_from_iff :
        (list other : CArrayList T) (i : ℕ) (us vs : List T)
        → length us ≡ length vs
        → From list i us
        → From other i vs
        → Returns (λ b. (b ≡ true) ↔ (us ≡ vs)) (equal_from same list other (length us) i)
    unfolding equal_from at
    equal_from_iff list other i [] [] e p q = returns (λ h. refl, λ h. refl)
    equal_from_iff list other i [] (v ∷ vs) e p q = absurd (omega (arith, e))
    equal_from_iff list other i (u ∷ us) [] e p q = absurd (omega (arith, e))
    equal_from_iff list other i (u ∷ us) (v ∷ vs) e p q =
        let rest =
          equal_from_iff list other (suc i) us vs (omega (arith, e)) (From-next list i u us p)
            (From-next other i v vs q) in
        rw (From-here list i u us p, From-here other i v vs q)
          (elim (Bool-cases (same u v)) [
            | inl hit ↦ rw hit (
                Returns-weaken rest
                  λ b (to, from). (λ h. cc (to h, (same_iff u v).0 hit), λ h. from (cc)))
            | inr miss ↦ rw miss (
                returns
                  (λ h. cc, λ h. let heads : u ≡ v = cc in let hit = (same_iff u v).1 heads in cc))
          ])

    -- Where `same` decides the equality of values, `operator==` of two lists that hold `xs` and `ys`
    -- returns, and says whether `xs` and `ys` are equal.
    pub equal_iff :
        (xs ys : List T) (list other : CArrayList T)
        → IsList xs list
        → IsList ys other
        → Returns (λ b. (b ≡ true) ↔ (xs ≡ ys)) (equal same list other)
    unfolding equal From
    equal_iff xs ys list other is also = elim (Bool-cases (other.size == list.size)) [
      | inl alike ↦
          rw (alike, is.count)
            (equal_from_iff list other 0 xs ys
              (omega (arith, is.count, also.count, (==_iff other.size list.size).0 alike))
              (λ j x e.
                subst (λ k. get_elem? list.array k ≡ some (some x)) (omega arith)
                  (get_elem?-Begins j is.begins e))
              (λ j x e.
                subst (λ k. get_elem? other.array k ≡ some (some x)) (omega arith)
                  (get_elem?-Begins j also.begins e)))
      | inr differ ↦ rw differ (
          returns (
            λ h. cc,
            λ h.
                let alike =
                  (==_iff other.size list.size).1
                    (omega (arith, is.count, also.count, ap length h)) in
                cc,
          ))
    ]
