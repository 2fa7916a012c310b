-- ===== src/Common/Growth.antt =====
-- Arrays that `realloc` makes longer, and what holds of all entries.
use Prim.Native.Nat.{ℕ, zero, suc, ◌+◌, ◌-◌, ◌≤◌, ◌<◌}
use mathlib.Core.Path.{◌≡◌, sym, ◌∙◌, subst}
use mathlib.Core.Logic.{◌≢◌, inl, inr}
use mathlib.Core.List.{List, [], ◌∷◌, ◌++◌}
use mathlib.Core.Option.{Option, none, some}
use native.Mathlib.Omega.{arith}
use premir_cpp.Common.Tests.{◌==◌, ==_iff, ltb, Bool-cases, if◌then◌else◌}
use premir_cpp.Common.Lists.{
  length, get_elem?, set, take, replicate, length-append, length-replicate, take_all,
  get_elem?_of_le, get_elem?-set,
}

module _ {A : Type 0} where
  pub get_elem?-replicate :
      (n : ℕ) (a : A) (i : ℕ) → get_elem? (replicate n a) i ≡ (if ltb i n then some a else none)
  get_elem?-replicate zero a i = ground arith
  get_elem?-replicate (suc n) a zero = ground arith
  get_elem?-replicate (suc n) a (suc i) = ground (arith, get_elem?-replicate n a i)

  -- A list made longer by copies of `a`.
  get_elem?-grown :
      (xs : List A) (a : A) (k i : ℕ)
      → get_elem? (xs ++ replicate k a) i ≡ (
          if ltb i (length xs)
          then get_elem? xs i
          else if ltb i (length xs + k)
          then some a
          else none)
  get_elem?-grown [] a k i = ground (arith, get_elem?-replicate k a i)
  get_elem?-grown (x ∷ xs) a k zero = ground arith
  get_elem?-grown (x ∷ xs) a k (suc i) = ground (arith, get_elem?-grown xs a k i)

  abbrev pub grow : List A → A → ℕ → List A
  grow xs a n = take n xs ++ replicate (n - length xs) a

  pub get_elem?-grow :
      (xs : List A) (a : A) (n i : ℕ)
      → length xs ≤ n
      → get_elem? (grow xs a n) i
        ≡ (if ltb i (length xs) then get_elem? xs i else if ltb i n then some a else none)
  get_elem?-grow xs a n i h =
      let whole : length xs + (n - length xs) ≡ n = omega (arith, h) in
      rw (take_all n xs h) (
        subst
          (λ m.
            get_elem? (xs ++ replicate (n - length xs) a) i
            ≡ (if ltb i (length xs) then get_elem? xs i else if ltb i m then some a else none))
          whole (get_elem?-grown xs a (n - length xs) i))

  pub length-grow : (xs : List A) (a : A) (n : ℕ) → length xs ≤ n → length (grow xs a n) ≡ n
  length-grow xs a n h = rw (take_all n xs h) (
      length-append xs (replicate (n - length xs) a)
      ∙ omega (arith, h, length-replicate (n - length xs) a))

  -- What holds of the entries, and of the copies, holds of the longer list.
  pub grow-all :
      (P : Option A → Type 0) (xs : List A) (a : A) (n : ℕ)
      → length xs ≤ n
      → (P none → P (some a))
      → (i : ℕ) → P (get_elem? xs i)
      → P (get_elem? (grow xs a n) i)
  grow-all P xs a n h fresh i here =
      subst P (sym (get_elem?-grow xs a n i h)) (elim (Bool-cases (ltb i (length xs))) [
        | inl old ↦ rw old here
        | inr past ↦ rw past (grown (subst P (get_elem?_of_le xs i (ground arith)) here))
      ])
    where
      grown : P none → P (if ltb i n then some a else none)
      grown none_ok = elim (Bool-cases (ltb i n)) [
        | inl new ↦ rw new (fresh none_ok)
        | inr past ↦ rw past none_ok
      ]

  -- And of a list with another entry, what holds of the old ones and of that.
  pub set-all :
      (P : ℕ → Option A → Type 0) (xs : List A) (i : ℕ) (a : A)
      → i < length xs
      → P i (some a)
      → (j : ℕ) → (i ≢ j → P j (get_elem? xs j))
      → P j (get_elem? (set xs i a) j)
  set-all P xs i a h here j other =
      subst (P j) (sym (get_elem?-set xs i j a h)) (elim (Bool-cases (i == j)) [
        | inl same ↦ rw same (subst (λ k. P k (some a)) ((==_iff i j).0 same) here)
        | inr apart ↦ rw apart (other (ground arith))
      ])
